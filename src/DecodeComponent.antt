-- ===== src/DecodeComponent.antt =====
-- components/V4L2DecodeComponent.cpp: the state of V4L2DecodeComponent, and how works go back to the
-- client (Report). The tasks of the decoder thread are in Tasks.antt, the client's calls in
-- Control.antt.
-- Buffers and frames are numbers. The listener is a list of what it was told, and mDecoder a list of
-- the calls that it got. What Codec 2.0 gives, the interface and the comparison of its counters, is a
-- parameter.
pub mod Works
pub mod Conserved
pub mod Sent
pub mod Answered
pub mod Taken
pub mod Runs
pub mod Steps
pub mod Drains
pub mod Stays
pub mod Report
pub mod Tasks
pub mod Callbacks
pub mod Control
use android_external_v4l2_co.Prelude.{
  ℕ, ◌+◌, ◌%◌, ◌^◌, Bool, true, false, not, ◌&&◌, ◌||◌, Option, none, some, List, [], ◌∷◌, ◌++◌,
  ltb, ◌==◌, if◌then◌else◌, length,
}

pub data ComponentState : Type 0 where
  stopped running released error : ComponentState

-- The values of c2_status_t that the component uses.
pub data Status : Type 0 where
  ok bad_value bad_state not_found corrupted omitted blocking : Status

pub data VideoCodec : Type 0 where
  h264 vp8 vp9 : VideoCodec

-- C2Work, as far as the component reads it. A work has one worklet behind queueTask.
pub record Work : Type 0 where
  pub frame_index : ℕ
  pub timestamp : ℕ
  -- FLAG_END_OF_STREAM and FLAG_CODEC_CONFIG of the input
  pub end_of_stream : Bool
  pub codec_config : Bool
  pub worklets : ℕ
  -- input.buffers; `none` is a null pointer
  pub buffers : List (Option ℕ)
  -- FLAG_DROP_FRAME and FLAG_END_OF_STREAM of the output
  pub drop_frame : Bool
  pub output_end_of_stream : Bool
  -- output.buffers: frames with their color aspects
  pub outputs : List (ℕ × Option ℕ)
  pub result : Status
  pub worklets_processed : ℕ

-- What the component asks of mDecoder.
pub data Call : Type 0 where
  decode : ℕ → Call
  drain flush : Call

-- What is posted to the decoder thread.
pub data Task : Type 0 where
  queue_task : Work → Task
  flush_task drain_task pump_pending_works : Task

-- V4L2DecodeInterface, and what the component takes from the Codec 2.0 libraries.
pub record Interface : Type 0 where
  pub video_codec : Option VideoCodec
  -- parseCodedColorAspects of a buffer
  pub parse_color_aspects : ℕ → Option ℕ
  -- config with color aspects
  pub config : ℕ → Status
  -- queryColorAspects, for what was configured
  pub query_color_aspects : Option ℕ → Option ℕ
  -- `<` on c2_cntr64_t
  pub is_before : ℕ → ℕ → Bool

pub record Component : Type 0 where
  pub state : ComponentState
  pub has_listener : Bool
  pub is_thread_running : Bool
  pub has_decoder : Bool
  pub pending_works : List Work
  -- mWorksAtDecoder, in ascending order of the bitstream ids
  pub works_at_decoder : List (ℕ × Work)
  pub output_bitstream_ids : List ℕ
  pub is_secure : Bool
  pub is_draining : Bool
  pub current_color_aspects : Option ℕ
  -- What config was given last.
  pub configured_color_aspects : Option ℕ
  -- mPendingColorAspectsChange, with its frame index
  pub pending_color_aspects_change : Option ℕ
  -- The tasks that the decoder thread has not run yet.
  pub tasks : List Task
  pub calls : List Call
  -- The works that onWorkDone_nb was given, and the errors of onError_nb.
  pub reported : List Work
  pub errors : List Status
  -- The works whose destructor ran while the component held them, without being given back.
  pub destroyed : List Work

abbrev pub frame_index_to_bitstream_id : ℕ → ℕ
frame_index_to_bitstream_id i = i % 2 ^ 30

-- input.buffers.front(), which is there behind queueTask.
abbrev pub front_buffer : Work → Option ℕ
front_buffer w = elim w.buffers [ [] ↦ none | b ∷ bs ↦ b ]

abbrev pub is_null : Option ℕ → Bool
is_null none = true
is_null (some b) = false

-- Resetting the pointer at the front of input.buffers, if there is one.
unfoldable pub release : Work → Work
release w = elim w.buffers [ [] ↦ w | b ∷ bs ↦ record w { buffers = none ∷ bs } ]

abbrev pub is_empty : List (ℕ × Option ℕ) → Bool
is_empty [] = true
is_empty (f ∷ fs) = false

unfoldable pub is_work_done : Work → Bool
is_work_done w =
    if w.end_of_stream
    then false
    else is_null (front_buffer w) && (not (is_empty w.outputs) || (w.codec_config || w.drop_frame))

unfoldable pub is_no_show_frame_work : Interface → Work → Work → Bool
is_no_show_frame_work interface w current =
    (interface.is_before w.timestamp current.timestamp
      && interface.is_before w.frame_index current.frame_index)
    && (is_empty w.outputs && not (w.end_of_stream || (w.codec_config || w.drop_frame)))

-- mWorksAtDecoder: find, erase, and insert, which leaves an entry with the same key.
unfoldable pub find_work : ℕ → List (ℕ × Work) → Option Work
find_work id [] = none
find_work id ((i, w) ∷ works) = if id == i then some w else find_work id works

unfoldable pub erase_work : ℕ → List (ℕ × Work) → List (ℕ × Work)
erase_work id [] = []
erase_work id ((i, w) ∷ works) = if id == i then works else (i, w) ∷ erase_work id works

unfoldable pub insert_work : ℕ → Work → List (ℕ × Work) → List (ℕ × Work)
insert_work id v [] = (id, v) ∷ []
insert_work id v ((i, w) ∷ works) =
    let rest = insert_work id v works in
    if id == i then (i, w) ∷ works else if ltb id i then (id, v) ∷ (i, w) ∷ works else (i, w) ∷ rest

-- Changing the work with an id.
unfoldable pub change_work : (Work → Work) → ℕ → List (ℕ × Work) → List (ℕ × Work)
change_work f id [] = []
change_work f id ((i, w) ∷ works) =
    if id == i then (i, f w) ∷ works else (i, w) ∷ change_work f id works

unfoldable pub is_error : ComponentState → Bool
is_error error = true
is_error stopped = false
is_error running = false
is_error released = false

unfoldable pub is_running : ComponentState → Bool
is_running running = true
is_running stopped = false
is_running released = false
is_running error = false

unfoldable pub report_error : Status → Component → Component
unfolding is_error
report_error status c =
    let t = record c { state = error } in
    if is_error c.state
    then c
    else if c.has_listener
    then record t { errors = c.errors ++ (status ∷ []) }
    else t

unfoldable pub report_work : Work → Component → Component × Bool
report_work w c =
    if c.has_listener then (record c { reported = c.reported ++ (w ∷ []) }, true) else (c, false)
