-- ===== src/Encoder.antt =====
-- components/V4L2Encoder.cpp: the state of V4L2Encoder, and its requests up to the device. What comes
-- back from the device is in Service.antt. setState only sets the state here: its assertions are as in a
-- build without them.
-- A frame is its index, and a bitstream buffer is a number. A null pointer in mInputBuffers or
-- mOutputBuffers is an entry that is missing. What the planes of a buffer hold is not modelled.
pub mod Request
pub mod Service
pub mod Wakes
pub mod Handled
pub mod Served
pub mod Steps
use android_external_v4l2_co.Prelude.{
  ℕ, zero, suc, ◌+◌, ◌-◌, ◌%◌, Bool, true, false, not, ◌&&◌, Option, none, some, List, [], ◌∷◌,
  ◌++◌, ◌==◌, if◌then◌else◌, length,
}
use android_external_v4l2_co.Poller.{Poller, start_poller, stop_poller}
use android_external_v4l2_co.Queue.{
  Queue, Driver, get_free_buffer, drop_ref, do_queue, streamon, streamoff,
}

pub data State : Type 0 where
  uninitialized waiting_for_input_frame waiting_for_v4l2_buffer encoding draining error : State

pub record EncodeRequest : Type 0 where
  pub video_frame : ℕ
  pub end_of_stream : Bool

-- What the output callback is given: the size of the data, the time stamp, whether the frame is a key
-- frame, and the bitstream buffer.
pub record Encoded : Type 0 where
  pub size : ℕ
  pub timestamp : ℕ
  pub is_key_frame : Bool
  pub buffer : ℕ

pub record Encoder (D : Type 0) : Type 0 where
  pub state : State
  pub encode_requests : List EncodeRequest
  pub key_frame_period : ℕ
  pub key_frame_counter : ℕ
  pub inject_params_before_idr : Bool
  pub cached_sps : List ℕ
  pub cached_pps : List ℕ
  pub input_queue : Queue D
  pub output_queue : Queue D
  -- Pairs of the index of a buffer and a frame, or a bitstream buffer.
  pub input_buffers : List (ℕ × ℕ)
  pub output_buffers : List (ℕ × ℕ)
  pub is_polling : Bool
  -- The calls of handleEncodeRequest that are posted.
  pub posted : ℕ
  -- What the callbacks were given.
  pub inputs_done : List ℕ
  pub outputs_done : List Encoded
  pub drains_done : List Bool
  pub errors : ℕ

-- A buffer that came back: the data behind its offset, and what the driver says of it.
pub record EncodedInfo : Type 0 where
  pub bytes : List ℕ
  pub timestamp : ℕ
  pub is_key_frame : Bool
  pub is_last : Bool

pub record EncoderDevice (D : Type 0) : Type 0 where
  pub driver : Driver D
  pub output_driver : Driver D
  pub poller : Poller D
  -- setExtCtrls with V4L2_CID_MPEG_VIDEO_FORCE_KEY_FRAME
  pub force_key_frame : D → D × Bool
  -- VIDIOC_ENCODER_CMD; `true` starts, `false` stops
  pub encoder_cmd : D → Bool → D × Bool
  -- mFetchOutputBufferCb: a bitstream buffer and its size.
  pub fetch_output_buffer : D → D × Option (ℕ × ℕ)
  -- The buffer that the output queue dequeued last.
  pub output_info : D → EncodedInfo

unfoldable pub is_error : State → Bool
is_error error = true
is_error uninitialized = false
is_error waiting_for_input_frame = false
is_error waiting_for_v4l2_buffer = false
is_error encoding = false
is_error draining = false

unfoldable pub is_waiting_for_input_frame : State → Bool
is_waiting_for_input_frame waiting_for_input_frame = true
is_waiting_for_input_frame uninitialized = false
is_waiting_for_input_frame waiting_for_v4l2_buffer = false
is_waiting_for_input_frame encoding = false
is_waiting_for_input_frame draining = false
is_waiting_for_input_frame error = false

-- mEncodeRequests.back().end_of_stream = true
unfoldable pub mark_last : List EncodeRequest → List EncodeRequest
mark_last [] = []
mark_last (r ∷ []) = record r { end_of_stream = true } ∷ []
mark_last (r ∷ q ∷ rs) = r ∷ mark_last (q ∷ rs)

abbrev pub free_buffers_count : {D : Type 0} → Queue D → ℕ
free_buffers_count q = elim q.free_buffers [ none ↦ 0 | some l ↦ length l ]

module _ {D : Type 0} where
  unfoldable pub set_state : State → Encoder D → Encoder D
  set_state new_state s = record s { state = new_state }

  unfoldable pub on_error : Encoder D → Encoder D
  unfolding set_state is_error
  on_error s = if is_error s.state then s else record (set_state error s) { errors = s.errors + 1 }

  -- Posting handleEncodeRequest.
  abbrev pub post : Encoder D → Encoder D
  post s = record s { posted = s.posted + 1 }

  -- The output queue with the device as it is now, and putting it back.
  abbrev pub output : Encoder D → Queue D
  output s = record s.output_queue { device = s.input_queue.device }

  abbrev pub put_output : Queue D → Encoder D → Encoder D
  put_output q s = record s {
    output_queue = q;
    input_queue = record s.input_queue { device = q.device };
  }

  abbrev pub put_device : D → Encoder D → Encoder D
  put_device d s = record s { input_queue = record s.input_queue { device = d } }

  -- onDrainDone from the test of the requests on.
  unfoldable pub go_on : Encoder D → Encoder D
  unfolding set_state
  go_on s = elim s.encode_requests [
    | [] ↦ set_state waiting_for_input_frame s
    | r ∷ rs ↦ post (set_state encoding s)
  ]

  unfoldable pub on_drain_done : Bool → Encoder D → Encoder D
  unfolding on_error is_error go_on
  on_drain_done success s =
      let t = record s { drains_done = s.drains_done ++ (success ∷ []) } in
      if is_error s.state then s else if success then go_on t else on_error t

  -- encode; `none` is an empty request. The Boolean is what encode returns.
  unfoldable pub encode : Option ℕ → Encoder D → Encoder D × Bool
  unfolding set_state is_error is_waiting_for_input_frame
  encode none s = (s, false)
  encode (some frame) s =
      let r : EncodeRequest = record { video_frame = frame; end_of_stream = false } in
      let t = record s { encode_requests = s.encode_requests ++ (r ∷ []) } in
      if is_error s.state
      then (s, false)
      else if is_waiting_for_input_frame s.state
      then (post (set_state encoding t), true)
      else (t, true)

module _ {D : Type 0} (device : EncoderDevice D) where
  -- The part of handleDrainRequest behind the test of the state.
  unfoldable pub start_drain : Encoder D → Encoder D
  unfolding set_state on_drain_done
  start_drain s =
      let t = set_state draining s in
      let (d, sent) = device.encoder_cmd s.input_queue.device false in
      if not s.input_queue.is_streaming
      then on_drain_done true t
      else if sent
      then put_device d t
      else on_drain_done false (put_device d t)

  unfoldable pub handle_drain_request : Encoder D → Encoder D
  unfolding start_drain
  handle_drain_request s = elim s.state [
    | draining ↦ s
    | error ↦ s
    | uninitialized ↦ start_drain s
    | waiting_for_input_frame ↦ start_drain s
    | waiting_for_v4l2_buffer ↦ start_drain s
    | encoding ↦ start_drain s
  ]

  unfoldable pub drain : Encoder D → Encoder D
  unfolding handle_drain_request mark_last
  drain s = elim s.encode_requests [
    | [] ↦ handle_drain_request s
    | r ∷ rs ↦ record s { encode_requests = mark_last (r ∷ rs) }
  ]

  unfoldable pub start_device_poll : Encoder D → Encoder D × Bool
  unfolding on_error
  start_device_poll s =
      let (d, runs, success) = start_poller device.poller s.input_queue.device s.is_polling in
      let t = record (put_device d s) { is_polling = runs } in
      if success then (t, true) else (on_error t, false)

  unfoldable pub stop_device_poll : Encoder D → Encoder D × Bool
  unfolding on_error
  stop_device_poll s =
      let (d, runs, success) = stop_poller device.poller s.input_queue.device s.is_polling in
      let t = record (put_device d s) { is_polling = runs } in
      if success then (t, true) else (on_error t, false)

  -- One round of the loop of handleFlushRequest, for either queue.
  unfoldable pub stop_input : Encoder D → Encoder D
  unfolding on_error
  stop_input s =
      let (q, stopped) = streamoff device.driver s.input_queue in
      let t = record s { input_queue = q } in
      if s.input_queue.is_streaming then if stopped then t else on_error t else s

  unfoldable pub stop_output : Encoder D → Encoder D
  unfolding on_error
  stop_output s =
      let (q, stopped) = streamoff device.output_driver (output s) in
      let t = put_output q s in
      if s.output_queue.is_streaming then if stopped then t else on_error t else s

  unfoldable pub flush : Encoder D → Encoder D
  unfolding stop_device_poll stop_input stop_output set_state is_error
  flush s =
      let t = stop_output (stop_input (stop_device_poll s).0) in
      let u = record t { encode_requests = []; input_buffers = []; output_buffers = [] } in
      if is_error u.state then u else set_state waiting_for_input_frame u
