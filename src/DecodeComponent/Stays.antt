-- ===== src/DecodeComponent/Stays.antt =====
-- While V4L2DecodeComponent drains, the callbacks of its decoder leave a work at the decoder.
use android_external_v4l2_co.Prelude.{
  ℕ, ◌+◌, ◌<◌, ◌≡◌, refl, sym, subst, ap, ◌∙◌, Bool, true, not, ◌&&◌, none, List, [], ◌∷◌, ◌++◌,
  arith, ◌==◌, if◌then◌else◌, length, inl, inr, Option-cases, Bool-cases, done,
}
use android_external_v4l2_co.Decoder.{DecodeStatus, ok, aborted, failed}
use android_external_v4l2_co.DecodeComponent.{
  Status, corrupted, Work, Interface, Component, release, is_work_done, find_work, erase_work,
  change_work, report_error, report_work,
}
use android_external_v4l2_co.DecodeComponent.Report.{
  finish, report_work_if_finished, pump_ids, pump_report_work, take_eos_work,
}
use android_external_v4l2_co.DecodeComponent.Callbacks.{
  push_output, abort_work, decode_done, on_decode_done, is_vpx, report_each, detect,
  detect_no_show_frame_works, update_color_aspects, add_output, on_output_frame_ready,
}

abbrev pub no_eos : List (ℕ × Work) → Bool
no_eos [] = true
no_eos ((i, w) ∷ works) = not w.end_of_stream && no_eos works

pub take_eos_work-none :
    (works : List (ℕ × Work)) → no_eos works ≡ true → take_eos_work works ≡ none
unfolding take_eos_work
take_eos_work-none [] h = refl
take_eos_work-none ((i, w) ∷ works) h = ground (arith, take_eos_work-none works (ground arith))

-- A drain is under way, and there are works at the decoder, none of which ends the stream.
pub record IsLeft (c : Component) : Type 0 where
  pub draining : c.is_draining ≡ true
  pub endless : no_eos c.works_at_decoder ≡ true
  pub some_left : 0 < length c.works_at_decoder

IsLeft-same : {s t : Component} → s ≡ t → IsLeft t → IsLeft s
IsLeft-same e h = subst (λ c. IsLeft c) (sym e) h

erase_work_lem :
    (id : ℕ) (works : List (ℕ × Work))
    → no_eos works ≡ true
    → (no_eos (erase_work id works) ≡ true) × (length works < length (erase_work id works) + 2)
unfolding erase_work
erase_work_lem id [] h = ground arith
erase_work_lem id ((i, w) ∷ works) h = ground (arith, erase_work_lem id works (ground arith))

change_work_lem :
    (f : Work → Work) (id : ℕ) (works : List (ℕ × Work))
    → ((w : Work) → (f w).end_of_stream ≡ w.end_of_stream)
    → (no_eos (change_work f id works) ≡ no_eos works)
      × (length (change_work f id works) ≡ length works)
unfolding change_work
change_work_lem f id [] h = (refl, refl)
change_work_lem f id ((i, w) ∷ works) h = ground (arith, h w, change_work_lem f id works h)

end_of_stream-release : (w : Work) → (release w).end_of_stream ≡ w.end_of_stream
unfolding release
end_of_stream-release w = ground arith

-- The works are changed, but not what ends the stream, and nothing else that matters is.
kept-IsLeft :
    (c d : Component)
    → d.is_draining ≡ c.is_draining
    → no_eos d.works_at_decoder ≡ no_eos c.works_at_decoder
    → length d.works_at_decoder ≡ length c.works_at_decoder
    → IsLeft c
    → IsLeft d
kept-IsLeft c d a b n l = record {
  draining = a ∙ l.draining;
  endless = b ∙ l.endless;
  some_left = omega (arith, n, l.some_left);
}

report_error-IsLeft : (status : Status) (c : Component) → IsLeft c → IsLeft (report_error status c)
unfolding report_error
report_error-IsLeft status c l =
    kept-IsLeft c (report_error status c) (ground arith) (ground arith) (ground arith) l

report_work-IsLeft : (w : Work) (c : Component) → IsLeft c → IsLeft (report_work w c).0
unfolding report_work
report_work-IsLeft w c l =
    kept-IsLeft c (report_work w c).0 (ground arith) (ground arith) (ground arith) l

report_work_if_finished-IsLeft :
    (id : ℕ) (c : Component) → IsLeft c → IsLeft (report_work_if_finished id c).0
unfolding report_work_if_finished
report_work_if_finished-IsLeft id c l =
    elim (Bool-cases (c.is_draining && (length c.works_at_decoder == 1))) [
      | inl last ↦ IsLeft-same {t = c} (ground arith) l
      | inr others ↦ elim (Option-cases (find_work id c.works_at_decoder)) [
        | inl n ↦ IsLeft-same {t = c} (ground arith) l
        | inr (w, f) ↦ elim (Bool-cases (is_work_done w)) [
          | inr wait ↦ IsLeft-same {t = c} (ground arith) l
          | inl fin ↦
              let d : Component = record c {
                works_at_decoder = erase_work id c.works_at_decoder;
              } in
              let fewer = erase_work_lem id c.works_at_decoder l.endless in
              let two : 1 < length c.works_at_decoder = ground (arith, l.draining, l.some_left) in
              IsLeft-same {t = (report_work (finish w) d).0} (ground arith) (
                report_work-IsLeft (finish w) d (record {
                  draining = l.draining;
                  endless = fewer.0;
                  some_left = omega (arith, fewer.1, two);
                }))
        ]
      ]
    ]

pump_ids-IsLeft : (ids : List ℕ) (c : Component) → IsLeft c → IsLeft (pump_ids ids c)
unfolding pump_ids
pump_ids-IsLeft [] c l = l
pump_ids-IsLeft (id ∷ ids) c l =
    let t = (report_work_if_finished id c).0 in
    let left = report_work_if_finished-IsLeft id c l in
    let u : Component = record t { output_bitstream_ids = ids } in
    elim (Bool-cases (report_work_if_finished id c).1) [
      | inl on ↦
          IsLeft-same {t = pump_ids ids u} (ground arith)
            (pump_ids-IsLeft ids u (kept-IsLeft t u refl refl refl left))
      | inr off ↦ IsLeft-same {t = t} (ground arith) left
    ]

pump_report_work-IsLeft : (c : Component) → IsLeft c → IsLeft (pump_report_work c)
unfolding pump_report_work
pump_report_work-IsLeft c l = pump_ids-IsLeft c.output_bitstream_ids c l

report_each-IsLeft : (ids : List ℕ) (c : Component) → IsLeft c → IsLeft (report_each ids c)
unfolding report_each
report_each-IsLeft [] c l = l
report_each-IsLeft (id ∷ ids) c l =
    report_each-IsLeft ids (report_work_if_finished id c).0 (report_work_if_finished-IsLeft id c l)

changed-IsLeft :
    (f : Work → Work) (id : ℕ) (ids : List ℕ) (c : Component)
    → ((w : Work) → (f w).end_of_stream ≡ w.end_of_stream)
    → IsLeft c
    → IsLeft (record c {
      works_at_decoder = change_work f id c.works_at_decoder;
      output_bitstream_ids = ids;
    })
changed-IsLeft f id ids c h l =
    let same = change_work_lem f id c.works_at_decoder h in
    record {
      draining = l.draining;
      endless = same.0 ∙ l.endless;
      some_left = omega (arith, same.1, l.some_left);
    }

decode_done-IsLeft :
    (id : ℕ) (w : Work) (status : DecodeStatus) (c : Component)
    → IsLeft c
    → IsLeft (decode_done id w status c)
unfolding decode_done abort_work
decode_done-IsLeft id w aborted c l =
    let ids = c.output_bitstream_ids ++ (id ∷ []) in
    pump_report_work-IsLeft
      (record c {
        works_at_decoder = change_work abort_work id c.works_at_decoder;
        output_bitstream_ids = ids;
      })
      (changed-IsLeft abort_work id ids c (λ v. end_of_stream-release v) l)
decode_done-IsLeft id w failed c l = report_error-IsLeft corrupted c l
decode_done-IsLeft id w ok c l =
    let works = change_work release id c.works_at_decoder in
    let ids =
      if w.codec_config then c.output_bitstream_ids ++ (id ∷ []) else c.output_bitstream_ids in
    let t : Component = record c { works_at_decoder = works; output_bitstream_ids = ids } in
    let released : Component = record c { works_at_decoder = works } in
    let same : (if w.codec_config then push_output id released else released) ≡ t = ground arith in
    IsLeft-same {t = pump_report_work t} (ap pump_report_work same)
      (pump_report_work-IsLeft t (changed-IsLeft release id ids c (λ v. end_of_stream-release v) l))

pub on_decode_done-IsLeft :
    (id : ℕ) (status : DecodeStatus) (c d : Component)
    → on_decode_done id status c ≡ done d
    → IsLeft c
    → IsLeft d
unfolding on_decode_done
on_decode_done-IsLeft id status c d e l = elim (Option-cases (find_work id c.works_at_decoder)) [
  | inl n ↦ absurd (ground arith)
  | inr (w, n) ↦
      IsLeft-same {t = decode_done id w status c} (ground arith)
        (decode_done-IsLeft id w status c l)
]

module _ (interface : Interface) where
  detect_lem :
      (w : Work) (works : List (ℕ × Work))
      → (no_eos (detect interface w works).0 ≡ no_eos works)
        × (length (detect interface w works).0 ≡ length works)
  unfolding detect
  detect_lem w [] = (refl, refl)
  detect_lem w ((i, v) ∷ works) = ground (arith, detect_lem w works)

  detect_no_show_frame_works-IsLeft :
      (w : Work) (c : Component) → IsLeft c → IsLeft (detect_no_show_frame_works interface w c)
  unfolding detect_no_show_frame_works
  detect_no_show_frame_works-IsLeft w c l =
      let (marked, ids) = detect interface w c.works_at_decoder in
      let same = detect_lem w c.works_at_decoder in
      let t : Component = record c { works_at_decoder = marked } in
      report_each-IsLeft ids t (kept-IsLeft c t refl same.0 same.1 l)

  update_color_aspects-IsLeft :
      (w : Work) (c : Component) → IsLeft c → IsLeft (update_color_aspects interface w c)
  unfolding update_color_aspects
  update_color_aspects-IsLeft w c l =
      kept-IsLeft c (update_color_aspects interface w c) (ground arith) (ground arith)
        (ground arith) l

  pub on_output_frame_ready-IsLeft :
      (id frame : ℕ) (c : Component)
      → IsLeft c
      → IsLeft (on_output_frame_ready interface id frame c)
  unfolding on_output_frame_ready
  on_output_frame_ready-IsLeft id frame c l =
      elim (Option-cases (find_work id c.works_at_decoder)) [
        | inl n ↦
            IsLeft-same {t = report_error corrupted c} (ground arith)
              (report_error-IsLeft corrupted c l)
        | inr (w, n) ↦
            let t = update_color_aspects interface w c in
            let add = add_output frame t.current_color_aspects in
            let u : Component = record t {
              works_at_decoder = change_work add id t.works_at_decoder;
            } in
            let v =
              if is_vpx interface.video_codec
              then detect_no_show_frame_works interface w u
              else u in
            let added : IsLeft u =
              changed-IsLeft add id t.output_bitstream_ids t (λ x. refl)
                (update_color_aspects-IsLeft w c l) in
            let detected : IsLeft v = elim (Bool-cases (is_vpx interface.video_codec)) [
              | inl vpx ↦
                  IsLeft-same {t = detect_no_show_frame_works interface w u} (ground arith)
                    (detect_no_show_frame_works-IsLeft w u added)
              | inr other ↦ IsLeft-same {t = u} (ground arith) added
            ] in
            IsLeft-same {t = pump_report_work (push_output id v)} (ground arith) (
              pump_report_work-IsLeft (push_output id v)
                (kept-IsLeft v (push_output id v) refl refl refl detected))
      ]
