-- ===== src/DecodeComponent/Tasks.antt =====
-- The works that V4L2DecodeComponent sends to its decoder, flushTask, drainTask and the end of them.
-- Sending a work with an input buffer and the bitstream id of another one at the decoder is a fault: the
-- source reads the work through a pointer after the failed insertion has destroyed it.
use android_external_v4l2_co.Prelude.{
  ℕ, Bool, true, false, not, ◌&&◌, ◌||◌, Option, none, some, List, [], ◌∷◌, ◌++◌, ◌==◌, ltb,
  if◌then◌else◌, length, Checked, fault, done, ◌>>=◌,
}
use android_external_v4l2_co.DecodeComponent.{
  VideoCodec, h264, vp8, vp9, Status, ok, bad_value, corrupted, Work, Call, decode, drain,
  Interface, Component, frame_index_to_bitstream_id, front_buffer, is_null, find_work, insert_work,
  is_running, report_error, report_work,
}
use android_external_v4l2_co.DecodeComponent.Report.{
  report_work_if_finished, report_abandoned_works,
}

abbrev pub is_h264 : Option VideoCodec → Bool
is_h264 (some h264) = true
is_h264 (some vp8) = false
is_h264 (some vp9) = false
is_h264 none = false

abbrev pub is_ok : Status → Bool
is_ok ok = true
is_ok _ = false

abbrev pub call : Call → Component → Component
call r c = record c { calls = c.calls ++ (r ∷ []) }

-- The work that queueTask pushes: without outputs, and with a null pointer for no buffer.
unfoldable pub prepare : Work → Work
prepare w = record w {
  drop_frame = false;
  output_end_of_stream = false;
  outputs = [];
  buffers = elim w.buffers [ [] ↦ none ∷ [] | b ∷ bs ↦ b ∷ bs ];
}

abbrev pub has_no_buffer : Work → Bool
has_no_buffer w = length w.buffers == 0

module _ (interface : Interface) where
  -- The color aspects of a CSD work; whether pumpPendingWorks goes on.
  unfoldable pub config_color_aspects : Work → ℕ → Component → Component × Bool
  unfolding report_error
  config_color_aspects w block c =
      if w.codec_config && (not c.is_secure && is_h264 interface.video_codec)
      then elim (interface.parse_color_aspects block) [
        | none ↦ (c, true)
        | some aspects ↦
            let status = interface.config aspects in
            if is_ok status
            then (
              record c {
                configured_color_aspects = some aspects;
                pending_color_aspects_change = some w.frame_index;
              },
              true,
            )
            else (report_error status c, false)
      ]
      else (c, true)

  -- The part about the input buffer.
  unfoldable pub send_buffer : ℕ → Work → Component → Component × Bool
  unfolding config_color_aspects
  send_buffer id w c = elim (front_buffer w) [
    | none ↦ (c, true)
    | some block ↦
        let (t, configured) = config_color_aspects w block c in
        if configured then (call (decode id) t, true) else (t, false)
  ]

  -- The flags of the work, when its buffer was sent.
  unfoldable pub send_flags : ℕ → Work → Component → Component
  unfolding report_work_if_finished
  send_flags id w c =
      let t = if w.end_of_stream then record (call drain c) { is_draining = true } else c in
      if w.codec_config && is_null (front_buffer w) then (report_work_if_finished id t).0 else t

  -- A round of pumpPendingWorks; whether it goes on. Where the bitstream id is at the decoder already,
  -- the failed insertion destroys the work.
  unfoldable pub send_work : Work → Component → Checked (Component × Bool)
  unfolding send_buffer send_flags find_work insert_work
  send_work w c =
      let id = frame_index_to_bitstream_id w.frame_index in
      let t = record c { works_at_decoder = insert_work id w c.works_at_decoder } in
      let (u, sent) = send_buffer id w t in
      elim (find_work id c.works_at_decoder) [
        | some v ↦ elim (is_null (front_buffer w)) [
          | true ↦ done (send_flags id w (record c { destroyed = c.destroyed ++ (w ∷ []) }), true)
          | false ↦ fault
        ]
        | none ↦ done (if sent then (send_flags id w u, true) else (u, false))
      ]

  -- The loop of pumpPendingWorks. The list is mPendingWorks.
  unfoldable pub pump_works : List Work → Component → Checked Component
  unfolding send_work
  pump_works [] c = done c
  pump_works (w ∷ works) c = elim c.is_draining [
    | true ↦ done c
    | false ↦ send_work w (record c { pending_works = works }) >>= λ (t, goes_on). elim goes_on [
      | false ↦ done t
      | true ↦ pump_works works t
    ]
  ]

  unfoldable pub pump_pending_works : Component → Checked Component
  unfolding pump_works is_running
  pump_pending_works c = elim (is_running c.state) [
    | false ↦ done c
    | true ↦ pump_works c.pending_works c
  ]

  unfoldable pub queue_task : Work → Component → Checked Component
  unfolding prepare report_work report_error pump_pending_works
  queue_task w c = elim (not (w.worklets == 1) || ltb 1 (length w.buffers)) [
    | true ↦ done (report_work (record w { result = corrupted }) c).0
    | false ↦ elim (has_no_buffer w && (not w.end_of_stream && not w.codec_config)) [
      | true ↦ done (report_error bad_value (record c { destroyed = c.destroyed ++ (w ∷ []) }))
      | false ↦
          pump_pending_works (record c { pending_works = c.pending_works ++ (prepare w ∷ []) })
    ]
  ]

-- mPendingWorks.back() gets FLAG_END_OF_STREAM.
unfoldable pub mark_last : List Work → List Work
mark_last [] = []
mark_last (w ∷ []) = record w { end_of_stream = true } ∷ []
mark_last (w ∷ v ∷ works) = w ∷ mark_last (v ∷ works)

unfoldable pub drain_task : Component → Component
unfolding mark_last
drain_task c = elim c.pending_works [
  | w ∷ works ↦ record c { pending_works = mark_last (w ∷ works) }
  | [] ↦ elim c.works_at_decoder [
    | [] ↦ c
    | w ∷ works ↦ record (call drain c) { is_draining = true }
  ]
]

-- flushTask when mDecoder->flush() has run its callbacks.
unfoldable pub finish_flush : Component → Component
unfolding report_abandoned_works
finish_flush c = record (report_abandoned_works c) { is_draining = false }
