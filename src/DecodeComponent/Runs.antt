-- ===== src/DecodeComponent/Runs.antt =====
-- A task of the decoder thread of V4L2DecodeComponent loses no work.
use android_external_v4l2_co.Prelude.{
  ℕ, ◌+◌, ◌≡◌, refl, sym, ◌∙◌, ap, ◌⊎◌, true, false, not, ◌&&◌, ◌||◌, List, [], ◌∷◌, ◌++◌, arith,
  ◌==◌, ltb, length, inl, inr, Bool-cases, List-cases, done,
}
use android_external_v4l2_co.DecodeComponent.{
  error, corrupted, bad_value, Work, Task, drain, Interface, Component, is_running, report_error,
  report_work,
}
use android_external_v4l2_co.DecodeComponent.Tasks.{
  call, prepare, has_no_buffer, queue_task, mark_last, drain_task,
}
use android_external_v4l2_co.DecodeComponent.Callbacks.{run_task}
use android_external_v4l2_co.DecodeComponent.Works.{
  one, count, count-append, count_tasks, count-mark_last, all_given_back, all_given_back-append,
  all_empty, all_empty-append,
}
use android_external_v4l2_co.DecodeComponent.Conserved.{
  held, report_error-Conserves, report_error-state,
}
use android_external_v4l2_co.DecodeComponent.Sent.{IsPumped, pump_pending_works_lem}
use android_external_v4l2_co.DecodeComponent.Answered.{flush_task_lem}
use android_external_v4l2_co.DecodeComponent.Taken.{
  IsAwake, Steps, Steps-same, Pumped-IsAwake, has_pump,
}

-- The works of one task.
abbrev given : ℕ → Task → ℕ
given i t = count_tasks i (t ∷ [])

abbrev but_first : List Task → Component → Component
but_first rest c = record c { tasks = rest }

count_tasks-first :
    (i : ℕ) (t : Task) (rest : List Task)
    → count_tasks i (t ∷ rest) ≡ given i t + count_tasks i rest
count_tasks-first i (Task.queue_task w) rest = omega arith
count_tasks-first i Task.flush_task rest = omega arith
count_tasks-first i Task.drain_task rest = omega arith
count_tasks-first i Task.pump_pending_works rest = omega arith

-- A task that brings a given number of works, and leaves the works that wait waiting for something.
popped-Steps :
    (i n : ℕ) (t : Task) (rest : List Task) (c d : Component)
    → c.tasks ≡ t ∷ rest
    → given i t ≡ n
    → held i d ≡ n + held i c
    → d.has_listener ≡ c.has_listener
    → d.tasks ≡ rest
    → (all_given_back c.reported ≡ true → all_given_back d.reported ≡ true)
    → (all_empty c.destroyed ≡ true → all_empty d.destroyed ≡ true)
    → (IsAwake c → IsAwake d)
    → Steps i c d
popped-Steps i n t rest c d e g k l s r z a = record {
  kept =
      omega (arith, g, k, ap (count_tasks i) s, ap (count_tasks i) e, count_tasks-first i t rest);
  heard = l;
  rightly = r;
  spared = z;
  awake = a;
}

has_pump-rest :
    (t : Task) (rest : List Task)
    → has_pump (t ∷ []) ≡ false
    → has_pump (t ∷ rest) ≡ true
    → has_pump rest ≡ true
has_pump-rest (Task.queue_task w) rest h x = x
has_pump-rest Task.flush_task rest h x = x
has_pump-rest Task.drain_task rest h x = x
has_pump-rest Task.pump_pending_works rest h x = absurd (ground arith)

-- The works behind a task are waited for when there is no pumpPendingWorks but behind it.
popped-IsAwake :
    (t : Task) (rest : List Task) (c : Component)
    → c.tasks ≡ t ∷ rest
    → has_pump (t ∷ []) ≡ false
    → IsAwake c
    → IsAwake (but_first rest c)
popped-IsAwake t rest c e h a = elim a [
  | inl x ↦ inl x
  | inr (inl x) ↦ inr (inl x)
  | inr (inr (inl x)) ↦ inr (inr (inl x))
  | inr (inr (inr x)) ↦ inr (inr (inr (has_pump-rest t rest h (sym (ap has_pump e) ∙ x))))
]

drain_task-Steps :
    (i : ℕ) (rest : List Task) (c : Component)
    → c.tasks ≡ Task.drain_task ∷ rest
    → Steps i c (drain_task (but_first rest c))
unfolding drain_task
drain_task-Steps i rest c e = elim (List-cases c.pending_works) [
  | inr (w, works, p) ↦
      let d : Component = record c { tasks = rest; pending_works = mark_last (w ∷ works) } in
      Steps-same {t = d} (ground arith) (
        popped-Steps i 0 Task.drain_task rest c d e refl
          (omega (arith, ap (count i) p, count-mark_last i (w ∷ works))) refl refl (λ h. h) (λ h. h)
          (λ a. elim (popped-IsAwake Task.drain_task rest c e refl a) [
            | inl x ↦ inl x
            | inr (inl n) ↦ absurd (ground arith)
            | inr (inr x) ↦ inr (inr x)
          ]))
  | inl n ↦ elim (List-cases c.works_at_decoder) [
    | inl z ↦
        let d = but_first rest c in
        Steps-same {t = d} (ground arith) (
          popped-Steps i 0 Task.drain_task rest c d e refl (omega arith) refl refl (λ h. h) (λ h. h)
            (λ a. inr (inl n)))
    | inr (w, works, z) ↦
        let d : Component = record (call drain (but_first rest c)) { is_draining = true } in
        Steps-same {t = d} (ground arith) (
          popped-Steps i 0 Task.drain_task rest c d e refl (omega arith) refl refl (λ h. h) (λ h. h)
            (λ a. inr (inl n)))
  ]
]

error_stops : (c : Component) → c.state ≡ error → is_running c.state ≡ false
unfolding is_running
error_stops c e = ap is_running e

pumped_or_idle :
    (c d : Component) → IsPumped d ⊎ ((is_running c.state ≡ false) × (d ≡ c)) → IsAwake d
pumped_or_idle c d (inl p) = Pumped-IsAwake d p
pumped_or_idle c d (inr (idle, same)) = inl (ap (λ x. is_running x.state) same ∙ idle)

-- A work that was queued is taken.
taken-Steps :
    (i n : ℕ) (w : Work) (rest : List Task) (c d : Component)
    → c.tasks ≡ Task.queue_task w ∷ rest
    → one i w ≡ n
    → held i d ≡ n + held i c
    → d.has_listener ≡ c.has_listener
    → d.tasks ≡ rest
    → (all_given_back c.reported ≡ true → all_given_back d.reported ≡ true)
    → (all_empty c.destroyed ≡ true → all_empty d.destroyed ≡ true)
    → (IsAwake (but_first rest c) → IsAwake d)
    → Steps i c d
taken-Steps i n w rest c d e g k l s r z a =
    popped-Steps i n (Task.queue_task w) rest c d e (omega (arith, g)) k l s r z
      (λ x. a (popped-IsAwake (Task.queue_task w) rest c e refl x))

module _ (interface : Interface) where
  queue_task-Steps :
      (i : ℕ) (w : Work) (rest : List Task) (c d : Component)
      → c.has_listener ≡ true
      → c.tasks ≡ Task.queue_task w ∷ rest
      → queue_task interface w (but_first rest c) ≡ done d
      → Steps i c d
  unfolding queue_task prepare report_work
  queue_task-Steps i w rest c d l e f =
      let p = but_first rest c in
      elim (Bool-cases (not (w.worklets == 1) || ltb 1 (length w.buffers))) [
        | inl bad ↦
            let v : Work = record w { result = corrupted } in
            let t : Component = record p { reported = c.reported ++ (v ∷ []) } in
            Steps-same {t = t} (ground arith) (
              taken-Steps i (one i w) w rest c t e (ground arith)
                (omega (arith, count-append i c.reported (v ∷ []))) refl refl
                (λ h. all_given_back-append c.reported (v ∷ []) h refl) (λ h. h) (λ a. a))
        | inr good ↦
            elim (Bool-cases (has_no_buffer w && (not w.end_of_stream && not w.codec_config))) [
              | inl empty ↦
                  let gone : Component = record p { destroyed = c.destroyed ++ (w ∷ []) } in
                  let t = report_error bad_value gone in
                  let k = report_error-Conserves i bad_value gone in
                  Steps-same {t = t} (ground arith) (
                    taken-Steps i (one i w) w rest c t e refl
                      (omega (arith, k.kept, count-append i c.destroyed (w ∷ []))) k.heard k.posted
                      k.rightly
                      (λ h. k.spared (all_empty-append c.destroyed (w ∷ []) h (ground arith)))
                      (λ a. inl (error_stops t (report_error-state bad_value gone))))
              | inr full ↦
                  let t : Component = record p {
                    pending_works = c.pending_works ++ (prepare w ∷ []);
                  } in
                  let (k, waits) = pump_pending_works_lem interface i t d l (ground arith) in
                  taken-Steps i (one i w) w rest c d e (ground arith)
                    (omega (arith, k.kept, count-append i c.pending_works (prepare w ∷ []))) k.heard
                    k.posted k.rightly k.spared (λ a. pumped_or_idle t d waits)
            ]
      ]

  pub run_task-Steps :
      (i : ℕ) (ids : List ℕ) (t : Task) (rest : List Task) (c d : Component)
      → c.has_listener ≡ true
      → c.tasks ≡ t ∷ rest
      → run_task interface ids t (record c { tasks = rest }) ≡ done d
      → Steps i c d
  unfolding run_task
  run_task-Steps i ids (Task.queue_task w) rest c d l e f = queue_task-Steps i w rest c d l e f
  run_task-Steps i ids Task.flush_task rest c d l e f =
      let (k, z) = flush_task_lem i ids (but_first rest c) d l f in
      popped-Steps i 0 Task.flush_task rest c d e refl (omega (arith, k.kept)) k.heard k.posted
        k.rightly k.spared (λ a. inr (inl z))
  run_task-Steps i ids Task.drain_task rest c d l e f =
      Steps-same (ground arith) (drain_task-Steps i rest c e)
  run_task-Steps i ids Task.pump_pending_works rest c d l e f =
      let (k, waits) = pump_pending_works_lem interface i (but_first rest c) d l f in
      popped-Steps i 0 Task.pump_pending_works rest c d e refl (omega (arith, k.kept)) k.heard
        k.posted k.rightly k.spared (λ a. pumped_or_idle (but_first rest c) d waits)
