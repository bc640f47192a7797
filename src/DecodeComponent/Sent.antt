-- ===== src/DecodeComponent/Sent.antt =====
-- pumpPendingWorks, queueTask and drainTask of V4L2DecodeComponent lose no work, and what waits behind
-- them waits for a drain.
use android_external_v4l2_co.Prelude.{
  ℕ, ◌≡◌, refl, sym, ◌∙◌, ap, subst, ◌⊎◌, Bool, true, false, not, ◌&&◌, some, List, [], ◌∷◌, ◌++◌,
  arith, if◌then◌else◌, inl, inr, Option-cases, Bool-cases, Checked-cases, done,
}
use android_external_v4l2_co.DecodeComponent.{
  error, Work, decode, drain, Interface, Component, front_buffer, is_null, is_running, find_work,
  insert_work, frame_index_to_bitstream_id, report_error,
}
use android_external_v4l2_co.DecodeComponent.Report.{report_work_if_finished}
use android_external_v4l2_co.DecodeComponent.Tasks.{
  is_h264, is_ok, call, config_color_aspects, send_buffer, send_flags, send_work, pump_works,
  pump_pending_works,
}
use android_external_v4l2_co.DecodeComponent.Works.{
  count-append, all_empty, all_empty-append, count, count_at-insert_work, all_given_back,
}
use android_external_v4l2_co.DecodeComponent.Conserved.{
  Conserves, Conserves-refl, Conserves-trans, Conserves-same, report_error-Conserves,
  report_error-state, report_error-Calm, report_work_if_finished_lem,
}

-- Nothing waits, or a drain is under way, or there was an error.
abbrev pub IsPumped : Component → Type 0
IsPumped d = (d.pending_works ≡ []) ⊎ ((d.is_draining ≡ true) ⊎ (d.state ≡ error))

-- A part of pumpPendingWorks leaves what waits alone, and the loop goes on or there was an error.
record Sends (i : ℕ) (c : Component) (r : Component × Bool) : Type 0 where
  conserved : Conserves i c r.0
  waiting : r.0.pending_works ≡ c.pending_works
  goes : (r.1 ≡ true) ⊎ (r.0.state ≡ error)

Sends-same : {i : ℕ} {c : Component} {s t : Component × Bool} → s ≡ t → Sends i c t → Sends i c s
Sends-same {i = i} {c = c} e h = subst (λ u. Sends i c u) (sym e) h

Sends-refl : (i : ℕ) (c : Component) → Sends i c (c, true)
Sends-refl i c = record { conserved = Conserves-refl i c; waiting = refl; goes = inl refl }

-- A component that differs from another one in what is not a list of works.
Conserves-aside :
    (i : ℕ) (c d : Component)
    → d.reported ≡ c.reported
    → d.pending_works ≡ c.pending_works
    → d.works_at_decoder ≡ c.works_at_decoder
    → d.destroyed ≡ c.destroyed
    → d.has_listener ≡ c.has_listener
    → d.tasks ≡ c.tasks
    → Conserves i c d
Conserves-aside i c d r p a x l t = record {
  kept = ground arith;
  heard = l;
  posted = t;
  rightly = λ h. ap all_given_back r ∙ h;
  spared = λ h. ap all_empty x ∙ h;
}

module _ (interface : Interface) where
  config_color_aspects-Sends :
      (i : ℕ) (w : Work) (block : ℕ) (c : Component)
      → Sends i c (config_color_aspects interface w block c)
  unfolding config_color_aspects
  config_color_aspects-Sends i w block c =
      elim (Bool-cases (w.codec_config && (not c.is_secure && is_h264 interface.video_codec))) [
        | inr plain ↦ Sends-same {t = (c, true)} (ground arith) (Sends-refl i c)
        | inl csd ↦ elim (Option-cases (interface.parse_color_aspects block)) [
          | inl n ↦ Sends-same {t = (c, true)} (ground arith) (Sends-refl i c)
          | inr (aspects, n) ↦
              let status = interface.config aspects in
              let d = report_error status c in
              elim (Bool-cases (is_ok status)) [
                | inr bad ↦ Sends-same {t = (d, false)} (ground arith) (record {
                  conserved = report_error-Conserves i status c;
                  waiting = (report_error-Calm status c).pending;
                  goes = inr (report_error-state status c);
                })
                | inl good ↦
                    let t : Component = record c {
                      configured_color_aspects = some aspects;
                      pending_color_aspects_change = some w.frame_index;
                    } in
                    Sends-same {t = (t, true)} (ground arith) (record {
                      conserved = Conserves-aside i c t refl refl refl refl refl refl;
                      waiting = refl;
                      goes = inl refl;
                    })
              ]
        ]
      ]

  send_buffer-Sends :
      (i id : ℕ) (w : Work) (c : Component) → Sends i c (send_buffer interface id w c)
  unfolding send_buffer
  send_buffer-Sends i id w c = elim (Option-cases (front_buffer w)) [
    | inl n ↦ Sends-same {t = (c, true)} (ground arith) (Sends-refl i c)
    | inr (block, n) ↦
        let r = config_color_aspects interface w block c in
        let first = config_color_aspects-Sends i w block c in
        elim (Bool-cases r.1) [
          | inr off ↦ Sends-same {t = r} (ground arith) first
          | inl on ↦
              let t = call (decode id) r.0 in
              Sends-same {t = (t, true)} (ground arith) (record {
                conserved =
                    Conserves-trans i c r.0 t first.conserved
                      (Conserves-aside i r.0 t refl refl refl refl refl refl);
                waiting = first.waiting;
                goes = inl refl;
              })
        ]
  ]

  send_flags-Sends :
      (i id : ℕ) (w : Work) (c : Component)
      → c.has_listener ≡ true
      → Sends i c (send_flags interface id w c, true)
  unfolding send_flags
  send_flags-Sends i id w c l =
      let t = if w.end_of_stream then record (call drain c) { is_draining = true } else c in
      let u = (report_work_if_finished id t).0 in
      let pending : t.pending_works ≡ c.pending_works = ground arith in
      let heard : t.has_listener ≡ c.has_listener = ground arith in
      let aside : Conserves i c t =
        Conserves-aside i c t (ground arith) pending (ground arith) (ground arith) heard
          (ground arith) in
      let (kept, calm) = report_work_if_finished_lem i id t (heard ∙ l) in
      elim (Bool-cases (w.codec_config && is_null (front_buffer w))) [
        | inl finished ↦ Sends-same {t = (u, true)} (ground arith) (record {
          conserved = Conserves-trans i c t u aside kept;
          waiting = calm.pending ∙ pending;
          goes = inl refl;
        })
        | inr other ↦
            Sends-same {t = (t, true)} (ground arith)
              (record { conserved = aside; waiting = pending; goes = inl refl })
      ]

  -- A round of the loop, for the first of the works that wait.
  send_work_lem :
      (i : ℕ) (w : Work) (works : List Work) (c : Component) (r : Component × Bool)
      → c.has_listener ≡ true
      → c.pending_works ≡ w ∷ works
      → send_work interface w (record c { pending_works = works }) ≡ done r
      → Conserves i c r.0 × (r.0.pending_works ≡ works) × ((r.1 ≡ true) ⊎ (r.0.state ≡ error))
  unfolding send_work
  send_work_lem i w works c r l p e =
      let id = frame_index_to_bitstream_id w.frame_index in
      let t : Component = record c {
        pending_works = works;
        works_at_decoder = insert_work id w c.works_at_decoder;
      } in
      let u = send_buffer interface id w t in
      let sent = send_buffer-Sends i id w t in
      elim (Option-cases (find_work id c.works_at_decoder)) [
        | inr (v, f) ↦
            let gone : Component = record c {
              pending_works = works;
              destroyed = c.destroyed ++ (w ∷ []);
            } in
            elim (Bool-cases (is_null (front_buffer w))) [
              | inr full ↦ absurd (ground arith)
              | inl empty ↦
                  let lost : Conserves i c gone = record {
                    kept = ground (arith, ap (count i) p, count-append i c.destroyed (w ∷ []));
                    heard = refl;
                    posted = refl;
                    rightly = λ h. h;
                    spared = λ h. all_empty-append c.destroyed (w ∷ []) h (ground arith);
                  } in
                  let x = send_flags interface id w gone in
                  let flags = send_flags-Sends i id w gone l in
                  let same : r ≡ (x, true) = ground arith in
                  subst
                    (λ x.
                      Conserves i c x.0
                      × (x.0.pending_works ≡ works)
                      × ((x.1 ≡ true) ⊎ (x.0.state ≡ error)))
                    (sym same)
                    (Conserves-trans i c gone x lost flags.conserved, flags.waiting, inl refl)
            ]
        | inl f ↦
            let moved : Conserves i c t = record {
              kept =
                  ground (arith, ap (count i) p, count_at-insert_work i id w c.works_at_decoder f);
              heard = refl;
              posted = refl;
              rightly = λ h. h;
              spared = λ h. h;
            } in
            let kept = Conserves-trans i c t u.0 moved sent.conserved in
            elim (Bool-cases u.1) [
              | inr off ↦
                  let same : r ≡ u = ground arith in
                  subst
                    (λ x.
                      Conserves i c x.0
                      × (x.0.pending_works ≡ works)
                      × ((x.1 ≡ true) ⊎ (x.0.state ≡ error)))
                    (sym same) (kept, sent.waiting, sent.goes)
              | inl on ↦
                  let v = send_flags interface id w u.0 in
                  let flags = send_flags-Sends i id w u.0 (kept.heard ∙ l) in
                  let same : r ≡ (v, true) = ground arith in
                  subst
                    (λ x.
                      Conserves i c x.0
                      × (x.0.pending_works ≡ works)
                      × ((x.1 ≡ true) ⊎ (x.0.state ≡ error)))
                    (sym same)
                    (
                      Conserves-trans i c u.0 v kept flags.conserved,
                      flags.waiting ∙ sent.waiting,
                      inl refl,
                    )
            ]
      ]

  pub pump_works_lem :
      (i : ℕ) (works : List Work) (c d : Component)
      → c.has_listener ≡ true
      → c.pending_works ≡ works
      → pump_works interface works c ≡ done d
      → Conserves i c d × IsPumped d
  unfolding pump_works
  pump_works_lem i [] c d l p e =
      let same : d ≡ c = ground arith in
      (Conserves-same same (Conserves-refl i c), inl (ap (λ x. x.pending_works) same ∙ p))
  pump_works_lem i (w ∷ works) c d l p e = elim (Bool-cases c.is_draining) [
    | inl waits ↦
        let same : d ≡ c = ground arith in
        (Conserves-same same (Conserves-refl i c), inr (inl (ap (λ x. x.is_draining) same ∙ waits)))
    | inr free ↦ elim (Checked-cases (send_work interface w (record c { pending_works = works }))) [
      | inl f ↦ absurd (ground arith)
      | inr (inl f) ↦ absurd (ground arith)
      | inr (inr ((t, goes_on), f)) ↦
          let (kept, rest, goes) = send_work_lem i w works c (t, goes_on) l p f in
          elim (Bool-cases goes_on) [
            | inr off ↦
                let same : d ≡ t = ground arith in
                let stops : t.state ≡ error = ground (arith, goes) in
                (Conserves-same same kept, inr (inr (ap (λ x. x.state) same ∙ stops)))
            | inl on ↦
                let (more, pumped) =
                  pump_works_lem i works t d (kept.heard ∙ l) rest (ground arith) in
                (Conserves-trans i c t d kept more, pumped)
          ]
    ]
  ]

  pub pump_pending_works_lem :
      (i : ℕ) (c d : Component)
      → c.has_listener ≡ true
      → pump_pending_works interface c ≡ done d
      → Conserves i c d × (IsPumped d ⊎ ((is_running c.state ≡ false) × (d ≡ c)))
  unfolding pump_pending_works
  pump_pending_works_lem i c d l e = elim (Bool-cases (is_running c.state)) [
    | inr idle ↦
        let same : d ≡ c = ground arith in
        (Conserves-same same (Conserves-refl i c), inr (idle, same))
    | inl runs ↦
        let (kept, pumped) = pump_works_lem i c.pending_works c d l refl (ground arith) in
        (kept, inl pumped)
  ]
