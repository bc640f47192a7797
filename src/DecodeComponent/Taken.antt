-- ===== src/DecodeComponent/Taken.antt =====
-- The tasks of the decoder thread of V4L2DecodeComponent and the answer to a drain lose no work, and
-- what waits behind them waits for something.
use android_external_v4l2_co.Prelude.{
  ℕ, ◌+◌, ◌≡◌, refl, sym, ◌∙◌, ap, subst, ◌⊎◌, Bool, true, false, List, [], ◌∷◌, ◌++◌, arith, inl,
  inr, Bool-cases,
}
use android_external_v4l2_co.Decoder.{DecodeStatus, ok, aborted, failed}
use android_external_v4l2_co.DecodeComponent.{corrupted, Task, Component, is_running, report_error}
use android_external_v4l2_co.DecodeComponent.Report.{report_eos_work}
use android_external_v4l2_co.DecodeComponent.Callbacks.{on_drain_done}
use android_external_v4l2_co.DecodeComponent.Works.{
  count_tasks, count_tasks-append, all_given_back, all_empty,
}
use android_external_v4l2_co.DecodeComponent.Conserved.{
  held, Conserves, Conserves-trans, report_error-Conserves, report_error-state,
  report_eos_work-Conserves, Calm,
}
use android_external_v4l2_co.DecodeComponent.Sent.{IsPumped}

-- Whether pumpPendingWorks is posted.
abbrev pub has_pump : List Task → Bool
has_pump [] = false
has_pump (Task.pump_pending_works ∷ tasks) = true
has_pump (Task.queue_task w ∷ tasks) = has_pump tasks
has_pump (Task.flush_task ∷ tasks) = has_pump tasks
has_pump (Task.drain_task ∷ tasks) = has_pump tasks

has_pump-posted : (tasks : List Task) → has_pump (tasks ++ (Task.pump_pending_works ∷ [])) ≡ true
has_pump-posted [] = refl
has_pump-posted (Task.pump_pending_works ∷ tasks) = refl
has_pump-posted (Task.queue_task w ∷ tasks) = has_pump-posted tasks
has_pump-posted (Task.flush_task ∷ tasks) = has_pump-posted tasks
has_pump-posted (Task.drain_task ∷ tasks) = has_pump-posted tasks

pub has_pump-append :
    (tasks more : List Task) → has_pump tasks ≡ true → has_pump (tasks ++ more) ≡ true
has_pump-append [] more h = absurd (ground arith)
has_pump-append (Task.pump_pending_works ∷ tasks) more h = refl
has_pump-append (Task.queue_task w ∷ tasks) more h = has_pump-append tasks more h
has_pump-append (Task.flush_task ∷ tasks) more h = has_pump-append tasks more h
has_pump-append (Task.drain_task ∷ tasks) more h = has_pump-append tasks more h

-- Works that wait are waited for: by a drain that is under way, or by a call of pumpPendingWorks.
abbrev pub IsAwake : Component → Type 0
IsAwake c =
    (is_running c.state ≡ false)
    ⊎ ((c.pending_works ≡ []) ⊎ ((c.is_draining ≡ true) ⊎ (has_pump c.tasks ≡ true)))

-- The works with a frame index that were given to the component.
abbrev pub total : ℕ → Component → ℕ
total i c = held i c + count_tasks i c.tasks

-- A step of the decoder thread, or of the client but for queue_nb.
pub record Steps (i : ℕ) (c d : Component) : Type 0 where
  pub kept : total i d ≡ total i c
  pub heard : d.has_listener ≡ c.has_listener
  pub rightly : all_given_back c.reported ≡ true → all_given_back d.reported ≡ true
  pub spared : all_empty c.destroyed ≡ true → all_empty d.destroyed ≡ true
  pub awake : IsAwake c → IsAwake d

pub Steps-same : {i : ℕ} {c s t : Component} → s ≡ t → Steps i c t → Steps i c s
Steps-same {i = i} {c = c} e h = subst (λ u. Steps i c u) (sym e) h

pub Pumped-IsAwake : (d : Component) → IsPumped d → IsAwake d
unfolding is_running
Pumped-IsAwake d (inl n) = inr (inl n)
Pumped-IsAwake d (inr (inl w)) = inr (inr (inl w))
Pumped-IsAwake d (inr (inr e)) = inl (ap is_running e)

Calm-IsAwake : (c d : Component) → Calm c d → d.tasks ≡ c.tasks → IsAwake c → IsAwake d
unfolding is_running
Calm-IsAwake c d k t a = elim k.state [
  | inr e ↦ inl (ap is_running e)
  | inl e ↦ elim a [
    | inl idle ↦ inl (ap is_running e ∙ idle)
    | inr (inl n) ↦ inr (inl (k.pending ∙ n))
    | inr (inr (inl w)) ↦ inr (inr (inl (k.draining ∙ w)))
    | inr (inr (inr p)) ↦ inr (inr (inr (ap has_pump t ∙ p)))
  ]
]

pub Conserves-Steps :
    (i : ℕ) (c d : Component) → Conserves i c d → (IsAwake c → IsAwake d) → Steps i c d
Conserves-Steps i c d k a = record {
  kept = ground (arith, k.kept, ap (count_tasks i) k.posted);
  heard = k.heard;
  rightly = k.rightly;
  spared = k.spared;
  awake = a;
}

pub Calm-Steps : (i : ℕ) (c d : Component) → Conserves i c d → Calm c d → Steps i c d
Calm-Steps i c d k m = Conserves-Steps i c d k (Calm-IsAwake c d m k.posted)

pub on_drain_done-Steps :
    (i : ℕ) (status : DecodeStatus) (c : Component)
    → c.has_listener ≡ true
    → Steps i c (on_drain_done status c)
unfolding on_drain_done is_running
on_drain_done-Steps i aborted c l = record {
  kept = refl;
  heard = refl;
  rightly = λ h. h;
  spared = λ h. h;
  awake = λ a. a;
}
on_drain_done-Steps i failed c l =
    Conserves-Steps i c (report_error corrupted c) (report_error-Conserves i corrupted c)
      (λ a. inl (ap is_running (report_error-state corrupted c)))
on_drain_done-Steps i ok c l =
    let u : Component = record c { is_draining = false } in
    let t = (report_eos_work u).0 in
    let k = report_eos_work-Conserves i u l in
    let kept : Conserves i c t = record {
      kept = k.kept;
      heard = k.heard;
      posted = k.posted;
      rightly = k.rightly;
      spared = k.spared;
    } in
    elim (Bool-cases (report_eos_work u).1) [
      | inl reported ↦
          let d : Component = record t { tasks = t.tasks ++ (Task.pump_pending_works ∷ []) } in
          Steps-same {t = d} (ground arith) (record {
            kept = omega (
              arith,
              kept.kept,
              ap (count_tasks i) kept.posted,
              count_tasks-append i t.tasks (Task.pump_pending_works ∷ []),
            );
            heard = kept.heard;
            rightly = kept.rightly;
            spared = kept.spared;
            awake = λ a. inr (inr (inr (has_pump-posted t.tasks)));
          })
      | inr not_reported ↦
          let d = report_error corrupted t in
          Steps-same {t = d} (ground arith) (
            Conserves-Steps i c d
              (Conserves-trans i c t d kept (report_error-Conserves i corrupted t))
              (λ a. inl (ap is_running (report_error-state corrupted t))))
    ]
