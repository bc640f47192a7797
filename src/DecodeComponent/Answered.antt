-- ===== src/DecodeComponent/Answered.antt =====
-- The callbacks of V4L2DecodeComponent and flushTask lose no work.
use android_external_v4l2_co.Prelude.{
  ℕ, ◌≡◌, refl, sym, ◌∙◌, ap, subst, true, false, none, List, [], ◌∷◌, ◌++◌, arith, if◌then◌else◌,
  leb, inl, inr, Option-cases, Bool-cases, Checked-cases, done,
}
use android_external_v4l2_co.Decoder.{DecodeStatus, ok, aborted, failed}
use android_external_v4l2_co.DecodeComponent.{
  Status, corrupted, Work, Call, Interface, Component, release, find_work, change_work,
  report_error,
}
use android_external_v4l2_co.DecodeComponent.Report.{
  report_work_if_finished, pump_report_work, report_abandoned_works,
}
use android_external_v4l2_co.DecodeComponent.Tasks.{call, finish_flush}
use android_external_v4l2_co.DecodeComponent.Callbacks.{
  push_output, abort_work, decode_done, on_decode_done, is_vpx, report_each, detect,
  detect_no_show_frame_works, update_color_aspects, add_output, on_output_frame_ready, abort_all,
  flush_task,
}
use android_external_v4l2_co.DecodeComponent.Works.{count_at, count_at-change_work, one-release}
use android_external_v4l2_co.DecodeComponent.Conserved.{
  Conserves, Conserves-refl, Conserves-trans, Conserves-same, Calm, Calm-refl, Calm-trans,
  report_error-Conserves, report_error-Calm, report_work_if_finished_lem, pump_report_work_lem,
  report_abandoned_works-Conserves, report_abandoned_works_lem,
}

-- No work is lost, and what waits is left alone.
pub record Effect (i : ℕ) (c d : Component) : Type 0 where
  pub conserved : Conserves i c d
  pub calm : Calm c d

pub Effect-same : {i : ℕ} {c s t : Component} → s ≡ t → Effect i c t → Effect i c s
Effect-same {i = i} {c = c} e h = subst (λ u. Effect i c u) (sym e) h

Effect-refl : (i : ℕ) (c : Component) → Effect i c c
Effect-refl i c = record { conserved = Conserves-refl i c; calm = Calm-refl c }

pub Effect-trans : (i : ℕ) (c d e : Component) → Effect i c d → Effect i d e → Effect i c e
Effect-trans i c d e p q = record {
  conserved = Conserves-trans i c d e p.conserved q.conserved;
  calm = Calm-trans c d e p.calm q.calm;
}

report_error-Effect : (i : ℕ) (status : Status) (c : Component) → Effect i c (report_error status c)
report_error-Effect i status c = record {
  conserved = report_error-Conserves i status c;
  calm = report_error-Calm status c;
}

pump_report_work-Effect :
    (i : ℕ) (c d : Component)
    → c.has_listener ≡ true
    → Effect i c d
    → Effect i c (pump_report_work d)
pump_report_work-Effect i c d l e =
    let more = pump_report_work_lem i d (e.conserved.heard ∙ l) in
    Effect-trans i c d (pump_report_work d) e (record { conserved = more.0; calm = more.1 })

-- The works at the decoder are changed, but their frame indices are not, and more ids are kept.
changed-Effect :
    (i : ℕ) (works : List (ℕ × Work)) (ids : List ℕ) (c : Component)
    → count_at i works ≡ count_at i c.works_at_decoder
    → Effect i c (record c { works_at_decoder = works; output_bitstream_ids = ids })
changed-Effect i works ids c e = record {
  conserved = record {
    kept = omega (arith, e);
    heard = refl;
    posted = refl;
    rightly = λ h. h;
    spared = λ h. h;
  };
  calm = record { pending = refl; draining = refl; state = inl refl };
}

pub decode_done-Effect :
    (i id : ℕ) (w : Work) (status : DecodeStatus) (c : Component)
    → c.has_listener ≡ true
    → Effect i c (decode_done id w status c)
unfolding decode_done abort_work
decode_done-Effect i id w aborted c l =
    let works = change_work abort_work id c.works_at_decoder in
    let ids = c.output_bitstream_ids ++ (id ∷ []) in
    pump_report_work-Effect i c (record c { works_at_decoder = works; output_bitstream_ids = ids })
      l
      (changed-Effect i works ids c
        (count_at-change_work i id abort_work c.works_at_decoder (λ v. one-release i v)))
decode_done-Effect i id w failed c l = report_error-Effect i corrupted c
decode_done-Effect i id w ok c l =
    let works = change_work release id c.works_at_decoder in
    let ids =
      if w.codec_config then c.output_bitstream_ids ++ (id ∷ []) else c.output_bitstream_ids in
    let t : Component = record c { works_at_decoder = works; output_bitstream_ids = ids } in
    let released : Component = record c { works_at_decoder = works } in
    let same : (if w.codec_config then push_output id released else released) ≡ t = ground arith in
    Effect-same {t = pump_report_work t} (ap pump_report_work same) (
      pump_report_work-Effect i c t l (
        changed-Effect i works ids c
          (count_at-change_work i id release c.works_at_decoder (λ v. one-release i v))))

pub on_decode_done-Effect :
    (i id : ℕ) (status : DecodeStatus) (c d : Component)
    → c.has_listener ≡ true
    → on_decode_done id status c ≡ done d
    → Effect i c d
unfolding on_decode_done
on_decode_done-Effect i id status c d l e = elim (Option-cases (find_work id c.works_at_decoder)) [
  | inl n ↦ absurd (ground arith)
  | inr (w, n) ↦
      Effect-same {t = decode_done id w status c} (ground arith)
        (decode_done-Effect i id w status c l)
]

report_each-Effect :
    (i : ℕ) (ids : List ℕ) (c : Component) → c.has_listener ≡ true → Effect i c (report_each ids c)
unfolding report_each
report_each-Effect i [] c l = Effect-refl i c
report_each-Effect i (id ∷ ids) c l =
    let (kept, calm) = report_work_if_finished_lem i id c l in
    let t = (report_work_if_finished id c).0 in
    Effect-trans i c t (report_each ids t) (record { conserved = kept; calm = calm })
      (report_each-Effect i ids t (kept.heard ∙ l))

count_at-detect :
    (interface : Interface) (i : ℕ) (w : Work) (works : List (ℕ × Work))
    → count_at i (detect interface w works).0 ≡ count_at i works
unfolding detect
count_at-detect interface i w [] = refl
count_at-detect interface i w ((id, v) ∷ works) =
    ground (arith, count_at-detect interface i w works)

detect_no_show_frame_works-Effect :
    (interface : Interface) (i : ℕ) (w : Work) (c : Component)
    → c.has_listener ≡ true
    → Effect i c (detect_no_show_frame_works interface w c)
unfolding detect_no_show_frame_works
detect_no_show_frame_works-Effect interface i w c l =
    let (marked, ids) = detect interface w c.works_at_decoder in
    let t : Component = record c { works_at_decoder = marked } in
    Effect-trans i c t (report_each ids t)
      (changed-Effect i marked c.output_bitstream_ids c
        (count_at-detect interface i w c.works_at_decoder))
      (report_each-Effect i ids t l)

update_color_aspects-Effect :
    (interface : Interface) (i : ℕ) (w : Work) (c : Component)
    → Effect i c (update_color_aspects interface w c)
unfolding update_color_aspects
update_color_aspects-Effect interface i w c = elim (Option-cases c.pending_color_aspects_change) [
  | inl n ↦ Effect-same {t = c} (ground arith) (Effect-refl i c)
  | inr (frame_index, n) ↦ elim (Bool-cases (leb frame_index w.frame_index)) [
    | inr later ↦ Effect-same {t = c} (ground arith) (Effect-refl i c)
    | inl now ↦
        let t : Component = record c {
          current_color_aspects = interface.query_color_aspects c.configured_color_aspects;
          pending_color_aspects_change = none;
        } in
        Effect-same {t = t} (ground arith) (record {
          conserved = record {
            kept = refl;
            heard = refl;
            posted = refl;
            rightly = λ h. h;
            spared = λ h. h;
          };
          calm = record { pending = refl; draining = refl; state = inl refl };
        })
  ]
]

pub on_output_frame_ready-Effect :
    (interface : Interface) (i id frame : ℕ) (c : Component)
    → c.has_listener ≡ true
    → Effect i c (on_output_frame_ready interface id frame c)
unfolding on_output_frame_ready
on_output_frame_ready-Effect interface i id frame c l =
    elim (Option-cases (find_work id c.works_at_decoder)) [
      | inl n ↦
          Effect-same {t = report_error corrupted c} (ground arith)
            (report_error-Effect i corrupted c)
      | inr (w, n) ↦
          let t = update_color_aspects interface w c in
          let u : Component = record t {
            works_at_decoder =
                change_work (add_output frame t.current_color_aspects) id t.works_at_decoder;
          } in
          let v =
            if is_vpx interface.video_codec then detect_no_show_frame_works interface w u else u in
          let first = update_color_aspects-Effect interface i w c in
          let added : Effect i t u = changed-Effect i u.works_at_decoder t.output_bitstream_ids t (
            count_at-change_work i id (add_output frame t.current_color_aspects) t.works_at_decoder
              (λ x. refl)) in
          let both = Effect-trans i c t u first added in
          let detected : Effect i u v = elim (Bool-cases (is_vpx interface.video_codec)) [
            | inl vpx ↦
                Effect-same {t = detect_no_show_frame_works interface w u} (ground arith)
                  (detect_no_show_frame_works-Effect interface i w u (both.conserved.heard ∙ l))
            | inr other ↦ Effect-same {t = u} (ground arith) (Effect-refl i u)
          ] in
          let pushed =
            changed-Effect i v.works_at_decoder (v.output_bitstream_ids ++ (id ∷ [])) v refl in
          let all =
            Effect-trans i c v (push_output id v) (Effect-trans i c u v both detected) pushed in
          Effect-same {t = pump_report_work (push_output id v)} (ground arith)
            (pump_report_work-Effect i c (push_output id v) l all)
    ]

pub abort_all-Effect :
    (i : ℕ) (ids : List ℕ) (c d : Component)
    → c.has_listener ≡ true
    → abort_all ids c ≡ done d
    → Effect i c d
unfolding abort_all
abort_all-Effect i [] c d l e = Effect-same {t = c} (ground arith) (Effect-refl i c)
abort_all-Effect i (id ∷ ids) c d l e =
    elim (Checked-cases (on_decode_done id DecodeStatus.aborted c)) [
      | inl f ↦ absurd (ground arith)
      | inr (inl f) ↦ absurd (ground arith)
      | inr (inr (t, f)) ↦
          let first = on_decode_done-Effect i id DecodeStatus.aborted c t l f in
          Effect-trans i c t d first
            (abort_all-Effect i ids t d (first.conserved.heard ∙ l) (ground arith))
    ]

pub flush_task_lem :
    (i : ℕ) (ids : List ℕ) (c d : Component)
    → c.has_listener ≡ true
    → flush_task ids c ≡ done d
    → Conserves i c d × (d.pending_works ≡ [])
unfolding flush_task finish_flush
flush_task_lem i ids c d l e =
    let t = call Call.flush c in
    elim (Checked-cases (abort_all ids t)) [
      | inl f ↦ absurd (ground arith)
      | inr (inl f) ↦ absurd (ground arith)
      | inr (inr (u, f)) ↦
          let aborted = (abort_all-Effect i ids t u l f).conserved in
          let v = report_abandoned_works u in
          let given = report_abandoned_works-Conserves i u (aborted.heard ∙ l) in
          let both : Conserves i c v =
            Conserves-trans i c u v
              (record {
                kept = aborted.kept;
                heard = aborted.heard;
                posted = aborted.posted;
                rightly = aborted.rightly;
                spared = aborted.spared;
              })
              given in
          let w : Component = record v { is_draining = false } in
          let same : d ≡ w = ground arith in
          (
            Conserves-same same (record {
              kept = both.kept;
              heard = both.heard;
              posted = both.posted;
              rightly = both.rightly;
              spared = both.spared;
            }),
            ap (λ x. x.pending_works) same ∙ (report_abandoned_works_lem u).0,
          )
    ]
