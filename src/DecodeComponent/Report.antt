-- ===== src/DecodeComponent/Report.antt =====
-- How V4L2DecodeComponent gives works back.
use android_external_v4l2_co.Prelude.{
  ℕ, Bool, true, false, ◌&&◌, Option, none, some, List, [], ◌∷◌, ◌++◌, ◌==◌, if◌then◌else◌, length,
  map,
}
use android_external_v4l2_co.DecodeComponent.{
  ok, not_found, Work, Component, release, is_work_done, find_work, erase_work, report_work,
}

-- What reportWorkIfFinished writes to a work that is done.
abbrev pub finish : Work → Work
finish w = record w {
  result = ok;
  worklets_processed = w.worklets;
  drop_frame = false;
  output_end_of_stream = if w.drop_frame then false else w.output_end_of_stream;
}

unfoldable pub report_work_if_finished : ℕ → Component → Component × Bool
unfolding is_work_done find_work erase_work report_work
report_work_if_finished id c = elim (c.is_draining && (length c.works_at_decoder == 1)) [
  | true ↦ (c, false)
  | false ↦ elim (find_work id c.works_at_decoder) [
    | none ↦ (c, true)
    | some w ↦
        if is_work_done w
        then report_work (finish w)
            (record c { works_at_decoder = erase_work id c.works_at_decoder })
        else (c, false)
  ]
]

-- The loop of pumpReportWork over mOutputBitstreamIds.
unfoldable pub pump_ids : List ℕ → Component → Component
unfolding report_work_if_finished
pump_ids [] c = c
pump_ids (id ∷ ids) c =
    let (t, finished) = report_work_if_finished id c in
    let more = pump_ids ids (record t { output_bitstream_ids = ids }) in
    if finished then more else t

unfoldable pub pump_report_work : Component → Component
unfolding pump_ids
pump_report_work c = pump_ids c.output_bitstream_ids c

-- The first work with the end of the stream, and the others.
unfoldable pub take_eos_work : List (ℕ × Work) → Option (Work × List (ℕ × Work))
take_eos_work [] = none
take_eos_work ((i, w) ∷ works) =
    if w.end_of_stream
    then some (w, works)
    else elim (take_eos_work works) [ none ↦ none | some (v, rest) ↦ some (v, (i, w) ∷ rest) ]

-- What reportAbandonedWorks makes of a work.
unfoldable pub abandon : Work → Work
unfolding release
abandon w = record (release w) { result = not_found }

abbrev pub works_of : List (ℕ × Work) → List Work
works_of [] = []
works_of ((i, w) ∷ works) = w ∷ works_of works

unfoldable pub report_abandoned_works : Component → Component
unfolding abandon
report_abandoned_works c =
    let abandoned = map abandon (c.pending_works ++ works_of c.works_at_decoder) in
    let t = record c { pending_works = []; works_at_decoder = [] } in
    if c.has_listener then record t { reported = c.reported ++ abandoned } else t

-- The work that reportEOSWork reports.
unfoldable pub finish_eos : Work → Work
unfolding release
finish_eos w = record (release w) {
  result = ok;
  worklets_processed = w.worklets;
  drop_frame = false;
  output_end_of_stream = true;
}

unfoldable pub report_eos_work : Component → Component × Bool
unfolding take_eos_work finish_eos report_abandoned_works report_work
report_eos_work c = elim (take_eos_work c.works_at_decoder) [
  | none ↦ (c, false)
  | some (w, rest) ↦
      let t = record c { works_at_decoder = rest } in
      elim rest [
        | [] ↦ report_work (finish_eos w) t
        | r ∷ rs ↦ report_work (finish_eos w) (report_abandoned_works t)
      ]
]
