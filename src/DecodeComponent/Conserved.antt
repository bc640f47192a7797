-- ===== src/DecodeComponent/Conserved.antt =====
-- Giving works back in V4L2DecodeComponent loses no work and repeats none.
use android_external_v4l2_co.Prelude.{
  ℕ, ◌+◌, ◌≡◌, refl, sym, ◌∙◌, ap, subst, ◌⊎◌, true, ◌&&◌, List, [], ◌∷◌, ◌++◌, arith, ◌==◌, length,
  map, inl, inr, Option-cases, Bool-cases, List-cases,
}
use android_external_v4l2_co.DecodeComponent.{
  error, Status, Work, Component, is_error, is_work_done, find_work, erase_work, report_error,
  report_work,
}
use android_external_v4l2_co.DecodeComponent.Report.{
  finish, report_work_if_finished, pump_ids, pump_report_work, take_eos_work, abandon, works_of,
  report_abandoned_works, finish_eos, report_eos_work,
}
use android_external_v4l2_co.DecodeComponent.Works.{
  one, count, count_at, count-append, all_given_back, all_empty, all_given_back-append,
  is_given_back, count_at-erase_work, one-finish, finish-given_back, count-abandoned,
  abandoned-given_back, one-finish_eos, finish_eos-given_back, count_at-take_eos_work,
}

-- The works with a frame index that the client has back, or that wait or are at the decoder.
abbrev pub held : ℕ → Component → ℕ
held i c =
    count i c.reported
    + (count i c.pending_works + count_at i c.works_at_decoder)
    + count i c.destroyed

-- No work is lost or made up, and what is given back is given back rightly.
pub record Conserves (i : ℕ) (c d : Component) : Type 0 where
  pub kept : held i d ≡ held i c
  pub heard : d.has_listener ≡ c.has_listener
  pub posted : d.tasks ≡ c.tasks
  pub rightly : all_given_back c.reported ≡ true → all_given_back d.reported ≡ true
  pub spared : all_empty c.destroyed ≡ true → all_empty d.destroyed ≡ true

-- What waits is left alone, unless an error comes up.
pub record Calm (c d : Component) : Type 0 where
  pub pending : d.pending_works ≡ c.pending_works
  pub draining : d.is_draining ≡ c.is_draining
  pub state : (d.state ≡ c.state) ⊎ (d.state ≡ error)

pub Conserves-refl : (i : ℕ) (c : Component) → Conserves i c c
Conserves-refl i c = record {
  kept = refl;
  heard = refl;
  posted = refl;
  rightly = λ h. h;
  spared = λ h. h;
}

pub Conserves-trans :
    (i : ℕ) (c d e : Component) → Conserves i c d → Conserves i d e → Conserves i c e
Conserves-trans i c d e p q = record {
  kept = q.kept ∙ p.kept;
  heard = q.heard ∙ p.heard;
  posted = q.posted ∙ p.posted;
  rightly = λ h. q.rightly (p.rightly h);
  spared = λ h. q.spared (p.spared h);
}

pub Conserves-same : {i : ℕ} {c s t : Component} → s ≡ t → Conserves i c t → Conserves i c s
Conserves-same {i = i} {c = c} e h = subst (λ u. Conserves i c u) (sym e) h

pub Calm-refl : (c : Component) → Calm c c
Calm-refl c = record { pending = refl; draining = refl; state = inl refl }

pub Calm-trans : (c d e : Component) → Calm c d → Calm d e → Calm c e
Calm-trans c d e p q = record {
  pending = q.pending ∙ p.pending;
  draining = q.draining ∙ p.draining;
  state = elim q.state [
    | inr x ↦ inr x
    | inl x ↦ elim p.state [ inr y ↦ inr (x ∙ y) | inl y ↦ inl (x ∙ y) ]
  ];
}

pub Calm-same : {c s t : Component} → s ≡ t → Calm c t → Calm c s
Calm-same {c = c} e h = subst (λ u. Calm c u) (sym e) h

pub report_error-Conserves :
    (i : ℕ) (status : Status) (c : Component) → Conserves i c (report_error status c)
unfolding report_error
report_error-Conserves i status c = record {
  kept = ground arith;
  heard = ground arith;
  posted = ground arith;
  rightly = ground arith;
  spared = ground arith;
}

pub report_error-Calm : (status : Status) (c : Component) → Calm c (report_error status c)
unfolding report_error is_error
report_error-Calm status c = record {
  pending = ground arith;
  draining = ground arith;
  state = ground arith;
}

-- The state behind an error is the error state.
pub report_error-state : (status : Status) (c : Component) → (report_error status c).state ≡ error
unfolding report_error is_error
report_error-state status c = ground arith

-- A work is taken from the ones at the decoder and given back.
module _ (i : ℕ) (w v : Work) (rest : List (ℕ × Work)) (c : Component) where
  pub given-Conserves :
      c.has_listener ≡ true
      → one i w + count_at i rest ≡ count_at i c.works_at_decoder
      → one i v ≡ one i w
      → is_given_back v ≡ true
      → Conserves i c (report_work v (record c { works_at_decoder = rest })).0
  unfolding report_work
  given-Conserves l e same b = record {
    kept = ground (arith, count-append i c.reported (v ∷ []));
    heard = ground arith;
    posted = ground arith;
    rightly = λ h. ground (arith, all_given_back-append c.reported (v ∷ []) h (ground arith));
    spared = ground arith;
  }

  given-Calm : Calm c (report_work v (record c { works_at_decoder = rest })).0
  unfolding report_work
  given-Calm = record { pending = ground arith; draining = ground arith; state = ground arith }

pub report_work_if_finished_lem :
    (i id : ℕ) (c : Component)
    → c.has_listener ≡ true
    → let d = (report_work_if_finished id c).0 in Conserves i c d × Calm c d
unfolding report_work_if_finished
report_work_if_finished_lem i id c l =
    elim (Bool-cases (c.is_draining && (length c.works_at_decoder == 1))) [
      | inl last ↦ (
        Conserves-same {t = c} (ground arith) (Conserves-refl i c),
        Calm-same {t = c} (ground arith) (Calm-refl c),
      )
      | inr others ↦ elim (Option-cases (find_work id c.works_at_decoder)) [
        | inl n ↦ (
          Conserves-same {t = c} (ground arith) (Conserves-refl i c),
          Calm-same {t = c} (ground arith) (Calm-refl c),
        )
        | inr (w, f) ↦ elim (Bool-cases (is_work_done w)) [
          | inr wait ↦ (
            Conserves-same {t = c} (ground arith) (Conserves-refl i c),
            Calm-same {t = c} (ground arith) (Calm-refl c),
          )
          | inl fin ↦
              let rest = erase_work id c.works_at_decoder in
              let d = (report_work (finish w) (record c { works_at_decoder = rest })).0 in
              let e : one i w + count_at i rest ≡ count_at i c.works_at_decoder =
                omega (arith, count_at-erase_work i id w c.works_at_decoder f) in
              (
                Conserves-same {t = d} (ground arith) (
                    given-Conserves i w (finish w) rest c l e (one-finish i w)
                      (finish-given_back w fin)),
                Calm-same {t = d} (ground arith) (given-Calm i w (finish w) rest c),
              )
        ]
      ]
    ]

pub pump_ids_lem :
    (i : ℕ) (ids : List ℕ) (c : Component)
    → c.has_listener ≡ true
    → Conserves i c (pump_ids ids c) × Calm c (pump_ids ids c)
unfolding pump_ids
pump_ids_lem i [] c l = (Conserves-refl i c, Calm-refl c)
pump_ids_lem i (id ∷ ids) c l =
    let t = (report_work_if_finished id c).0 in
    let u : Component = record t { output_bitstream_ids = ids } in
    let first = report_work_if_finished_lem i id c l in
    let kept : Conserves i c u = record {
      kept = first.0.kept;
      heard = first.0.heard;
      posted = first.0.posted;
      rightly = first.0.rightly;
      spared = first.0.spared;
    } in
    let calm : Calm c u = record {
      pending = first.1.pending;
      draining = first.1.draining;
      state = first.1.state;
    } in
    let more = pump_ids_lem i ids u (first.0.heard ∙ l) in
    elim (Bool-cases (report_work_if_finished id c).1) [
      | inl on ↦ (
        Conserves-same {t = pump_ids ids u} (ground arith)
            (Conserves-trans i c u (pump_ids ids u) kept more.0),
        Calm-same {t = pump_ids ids u} (ground arith) (Calm-trans c u (pump_ids ids u) calm more.1),
      )
      | inr off ↦
          (Conserves-same {t = t} (ground arith) first.0, Calm-same {t = t} (ground arith) first.1)
    ]

pub pump_report_work_lem :
    (i : ℕ) (c : Component)
    → c.has_listener ≡ true
    → Conserves i c (pump_report_work c) × Calm c (pump_report_work c)
unfolding pump_report_work
pump_report_work_lem i c l = pump_ids_lem i c.output_bitstream_ids c l

pub report_abandoned_works-Conserves :
    (i : ℕ) (c : Component) → c.has_listener ≡ true → Conserves i c (report_abandoned_works c)
unfolding report_abandoned_works
report_abandoned_works-Conserves i c l =
    let abandoned = map abandon (c.pending_works ++ works_of c.works_at_decoder) in
    record {
      kept = ground (
        arith,
        count-append i c.reported abandoned,
        count-abandoned i c.pending_works c.works_at_decoder,
      );
      heard = ground arith;
      posted = ground arith;
      spared = ground arith;
      rightly = λ h. ground (
        arith,
        all_given_back-append c.reported abandoned h
            (abandoned-given_back (c.pending_works ++ works_of c.works_at_decoder)),
      );
    }

pub report_abandoned_works_lem :
    (c : Component)
    → let d = report_abandoned_works c in
      (d.pending_works ≡ []) × (d.works_at_decoder ≡ []) × (d.state ≡ c.state) × (d.tasks ≡ c.tasks)
unfolding report_abandoned_works
report_abandoned_works_lem c = ground arith

-- The work with the end of the stream is given back behind others.
last_given-Conserves :
    (i : ℕ) (w : Work) (c t u : Component)
    → c.has_listener ≡ true
    → t.has_listener ≡ c.has_listener
    → t.tasks ≡ c.tasks
    → t.reported ≡ c.reported
    → t.destroyed ≡ c.destroyed
    → one i w + held i t ≡ held i c
    → Conserves i t u
    → Conserves i c (report_work (finish_eos w) u).0
unfolding report_work
last_given-Conserves i w c t u l el et er ed e k = record {
  kept =
      ground
        (arith, k.kept, k.heard, count-append i u.reported (finish_eos w ∷ []), one-finish_eos i w);
  heard = ground (arith, k.heard);
  posted = ground (arith, k.posted);
  spared = λ h. ground (arith, k.spared (ap all_empty ed ∙ h));
  rightly = λ h.
      let before : all_given_back u.reported ≡ true = k.rightly (ap all_given_back er ∙ h) in
      let given : is_given_back (finish_eos w) ≡ true = finish_eos-given_back w in
      ground (
        arith,
        k.heard,
        all_given_back-append u.reported (finish_eos w ∷ []) before (ground arith),
      );
}

pub report_eos_work-Conserves :
    (i : ℕ) (c : Component) → c.has_listener ≡ true → Conserves i c (report_eos_work c).0
unfolding report_eos_work
report_eos_work-Conserves i c l = elim (Option-cases (take_eos_work c.works_at_decoder)) [
  | inl n ↦ Conserves-same {t = c} (ground arith) (Conserves-refl i c)
  | inr ((w, rest), n) ↦ elim (List-cases rest) [
    | inl z ↦
        let d = (report_work (finish_eos w) (record c { works_at_decoder = rest })).0 in
        Conserves-same {t = d} (ground arith) (
          given-Conserves i w (finish_eos w) rest c l
            (count_at-take_eos_work i c.works_at_decoder rest w n) (one-finish_eos i w)
            (finish_eos-given_back w))
    | inr (r, rs, z) ↦
        let t : Component = record c { works_at_decoder = rest } in
        let u = report_abandoned_works t in
        let d = (report_work (finish_eos w) u).0 in
        let taken = count_at-take_eos_work i c.works_at_decoder rest w n in
        Conserves-same {t = d} (ground arith) (
          last_given-Conserves i w c t u l refl refl refl refl (omega (arith, taken))
            (report_abandoned_works-Conserves i t l))
  ]
]
