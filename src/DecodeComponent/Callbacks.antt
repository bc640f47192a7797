-- ===== src/DecodeComponent/Callbacks.antt =====
-- What V4L2DecodeComponent does when its decoder calls back, and flushTask.
-- A callback for a work that is not at the decoder is a fault: the source only asserts that it finds
-- the work. The callbacks that mDecoder->flush() runs are given by their bitstream ids.
use android_external_v4l2_co.Prelude.{
  ℕ, Bool, true, false, Option, none, some, List, [], ◌∷◌, ◌++◌, leb, if◌then◌else◌, Checked, fault,
  done, ◌>>=◌,
}
use android_external_v4l2_co.Decoder.{DecodeStatus, ok, aborted, failed}
use android_external_v4l2_co.DecodeComponent.{
  VideoCodec, h264, vp8, vp9, corrupted, Work, Task, Call, Interface, Component, release,
  is_no_show_frame_work, find_work, change_work, report_error,
}
use android_external_v4l2_co.DecodeComponent.Report.{
  report_work_if_finished, pump_report_work, report_eos_work,
}
use android_external_v4l2_co.DecodeComponent.Tasks.{
  call, queue_task, pump_pending_works, drain_task, finish_flush,
}

abbrev pub push_output : ℕ → Component → Component
push_output id c = record c { output_bitstream_ids = c.output_bitstream_ids ++ (id ∷ []) }

-- A work whose decoding was aborted. The source keeps FLAG_DROP_FRAME of the output's flags only.
unfoldable pub abort_work : Work → Work
unfolding release
abort_work w = record (release w) { output_end_of_stream = false }

unfoldable pub decode_done : ℕ → Work → DecodeStatus → Component → Component
unfolding change_work release abort_work pump_report_work report_error
decode_done id w status c =
    let t = record c { works_at_decoder = change_work release id c.works_at_decoder } in
    elim status [
      | aborted ↦ pump_report_work (
          push_output id
            (record c { works_at_decoder = change_work abort_work id c.works_at_decoder }))
      | failed ↦ report_error corrupted c
      | ok ↦ pump_report_work (if w.codec_config then push_output id t else t)
    ]

unfoldable pub on_decode_done : ℕ → DecodeStatus → Component → Checked Component
unfolding find_work decode_done
on_decode_done id status c = elim (find_work id c.works_at_decoder) [
  | none ↦ fault
  | some w ↦ done (decode_done id w status c)
]

abbrev pub is_vpx : Option VideoCodec → Bool
is_vpx (some h264) = false
is_vpx (some vp8) = true
is_vpx (some vp9) = true
is_vpx none = false

-- reportWorkIfFinished for each of some ids.
unfoldable pub report_each : List ℕ → Component → Component
unfolding report_work_if_finished
report_each [] c = c
report_each (id ∷ ids) c = report_each ids (report_work_if_finished id c).0

abbrev pub drop : Work → Work
drop w = record w { drop_frame = true; output_end_of_stream = false }

abbrev pub add_output : ℕ → Option ℕ → Work → Work
add_output frame aspects w = record w { outputs = w.outputs ++ ((frame, aspects) ∷ []) }

module _ (interface : Interface) where
  -- The loop of detectNoShowFrameWorksAndReportIfFinished, at a work: the works with their flags, and
  -- the ids that it collects.
  unfoldable pub detect : Work → List (ℕ × Work) → List (ℕ × Work) × List ℕ
  unfolding is_no_show_frame_work
  detect current [] = ([], [])
  detect current ((i, w) ∷ works) =
      let (marked, ids) = detect current works in
      if is_no_show_frame_work interface w current
      then ((i, drop w) ∷ marked, i ∷ ids)
      else ((i, w) ∷ marked, ids)

  unfoldable pub detect_no_show_frame_works : Work → Component → Component
  unfolding detect report_each
  detect_no_show_frame_works current c =
      let (marked, ids) = detect current c.works_at_decoder in
      report_each ids (record c { works_at_decoder = marked })

  -- The color aspects for an output of a work.
  unfoldable pub update_color_aspects : Work → Component → Component
  update_color_aspects w c = elim c.pending_color_aspects_change [
    | none ↦ c
    | some frame_index ↦
        if leb frame_index w.frame_index
        then record c {
          current_color_aspects = interface.query_color_aspects c.configured_color_aspects;
          pending_color_aspects_change = none;
        }
        else c
  ]

  -- onOutputFrameReady for a bitstream id and a frame.
  unfoldable pub on_output_frame_ready : ℕ → ℕ → Component → Component
  unfolding find_work change_work update_color_aspects detect_no_show_frame_works pump_report_work
      report_error
  on_output_frame_ready id frame c = elim (find_work id c.works_at_decoder) [
    | none ↦ report_error corrupted c
    | some w ↦
        let t = update_color_aspects w c in
        let u = record t {
          works_at_decoder =
              change_work (add_output frame t.current_color_aspects) id t.works_at_decoder;
        } in
        let v = if is_vpx interface.video_codec then detect_no_show_frame_works w u else u in
        pump_report_work (push_output id v)
  ]

-- onDrainDone
unfoldable pub on_drain_done : DecodeStatus → Component → Component
unfolding report_eos_work report_error
on_drain_done status c =
    let (t, reported) = report_eos_work (record c { is_draining = false }) in
    elim status [
      | aborted ↦ c
      | failed ↦ report_error corrupted c
      | ok ↦
          if reported
          then record t { tasks = t.tasks ++ (Task.pump_pending_works ∷ []) }
          else report_error corrupted t
    ]

-- The callbacks that mDecoder->flush() runs; that of a drain does nothing.
unfoldable pub abort_all : List ℕ → Component → Checked Component
unfolding on_decode_done
abort_all [] c = done c
abort_all (id ∷ ids) c = on_decode_done id DecodeStatus.aborted c >>= λ t. abort_all ids t

unfoldable pub flush_task : List ℕ → Component → Checked Component
unfolding abort_all finish_flush
flush_task ids c = abort_all ids (call Call.flush c) >>= λ t. done (finish_flush t)

-- The first task of the decoder thread, with the callbacks that a flush would run.
unfoldable pub run_task : Interface → List ℕ → Task → Component → Checked Component
unfolding queue_task flush_task drain_task pump_pending_works
run_task interface ids (Task.queue_task w) c = queue_task interface w c
run_task interface ids Task.flush_task c = flush_task ids c
run_task interface ids Task.drain_task c = done (drain_task c)
run_task interface ids Task.pump_pending_works c = pump_pending_works interface c
