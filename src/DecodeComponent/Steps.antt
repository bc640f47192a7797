-- ===== src/DecodeComponent/Steps.antt =====
-- The client's calls, the tasks of the decoder thread and the callbacks of the decoder of a
-- V4L2DecodeComponent, in any order from a start on, with a listener that stays.
use android_external_v4l2_co.Prelude.{
  ℕ, ◌+◌, ◌≡◌, refl, sym, ◌∙◌, ap, subst, ◌⊎◌, Bool, true, false, not, ◌&&◌, Option, List, [], ◌∷◌,
  ◌++◌, arith, map, inl, inr, Bool-cases, done,
}
use android_external_v4l2_co.Decoder.{DecodeStatus}
use android_external_v4l2_co.DecodeComponent.{
  Status, Work, Task, Interface, Component, is_error, is_running, report_error,
}
use android_external_v4l2_co.DecodeComponent.Report.{report_abandoned_works}
use android_external_v4l2_co.DecodeComponent.Callbacks.{
  on_decode_done, on_output_frame_ready, on_drain_done, run_task,
}
use android_external_v4l2_co.DecodeComponent.Control.{
  DrainMode, drain_chain, drain_component_no_eos, drain_component_with_eos, new_component,
  release_task, stop_task, start_task, start, stop, set_listener_vb, queue_nb, flush_sm, drain_nb,
}
use android_external_v4l2_co.DecodeComponent.Works.{
  count, count_at, count-append, count_tasks, count_tasks-append, count_tasks-map, all_given_back,
  all_empty,
}
use android_external_v4l2_co.DecodeComponent.Conserved.{
  report_error-Conserves, report_error-Calm, report_abandoned_works-Conserves,
  report_abandoned_works_lem,
}
use android_external_v4l2_co.DecodeComponent.Answered.{
  on_decode_done-Effect, on_output_frame_ready-Effect,
}
use android_external_v4l2_co.DecodeComponent.Taken.{
  has_pump, has_pump-append, IsAwake, total, Steps, Steps-same, Calm-Steps, on_drain_done-Steps,
}
use android_external_v4l2_co.DecodeComponent.Runs.{run_task-Steps}

module _ (interface : Interface) where
  -- A call of the client but queue_nb, the first task, or a callback of the decoder. The client stops a
  -- component whose tasks have run, since the decoder thread runs them first.
  pub data Move : Component → Component → Type 0 where
    flushes : (component : Bool) (c : Component) → Move c (flush_sm component c).0
    drains : (mode : DrainMode) (c : Component) → Move c (drain_nb mode c).0
    stops : (c : Component) → c.is_thread_running ≡ true → c.tasks ≡ [] → Move c (stop c).0
    runs :
        (ids : List ℕ) (t : Task) (rest : List Task) (c d : Component)
        → c.tasks ≡ t ∷ rest
        → run_task interface ids t (record c { tasks = rest }) ≡ done d
        → Move c d
    decodes :
        (id : ℕ) (status : DecodeStatus) (c d : Component)
        → on_decode_done id status c ≡ done d
        → Move c d
    outputs : (id frame : ℕ) (c : Component) → Move c (on_output_frame_ready interface id frame c)
    drained : (status : DecodeStatus) (c : Component) → Move c (on_drain_done status c)
    fails : (status : Status) (c : Component) → Move c (report_error status c)

  -- What may follow a start, with the works that queue_nb accepted.
  pub data Reachable : List Work → Component → Type 0 where
    started :
        (secure may_block thread created : Bool) (queried : Option ℕ) (c : Component)
        → start interface thread created queried
            (set_listener_vb true may_block (new_component secure)).0
          ≡ (c, Status.ok)
        → Reachable [] c
    queued :
        (given works : List Work) (c : Component)
        → Reachable given c
        → is_running c.state ≡ true
        → Reachable (given ++ works) (queue_nb works c).0
    moved : (given : List Work) (c d : Component) → Reachable given c → Move c d → Reachable given d

posted-Steps :
    (i : ℕ) (t : Task) (c : Component)
    → count_tasks i (t ∷ []) ≡ 0
    → Steps i c (record c { tasks = c.tasks ++ (t ∷ []) })
posted-Steps i t c z = record {
  kept = omega (arith, count_tasks-append i c.tasks (t ∷ []), z);
  heard = refl;
  rightly = λ h. h;
  spared = λ h. h;
  awake = λ a. elim a [
    | inl x ↦ inl x
    | inr (inl x) ↦ inr (inl x)
    | inr (inr (inl x)) ↦ inr (inr (inl x))
    | inr (inr (inr x)) ↦ inr (inr (inr (has_pump-append c.tasks (t ∷ []) x)))
  ];
}

same-Steps : (i : ℕ) (c : Component) → Steps i c c
same-Steps i c = record {
  kept = refl;
  heard = refl;
  rightly = λ h. h;
  spared = λ h. h;
  awake = λ a. a;
}

flush_sm-Steps : (i : ℕ) (component : Bool) (c : Component) → Steps i c (flush_sm component c).0
unfolding flush_sm
flush_sm-Steps i component c =
    let d : Component = record c { tasks = c.tasks ++ (Task.flush_task ∷ []) } in
    elim (Bool-cases (is_running c.state)) [
      | inr idle ↦ Steps-same {t = c} (ground arith) (same-Steps i c)
      | inl on ↦ elim (Bool-cases component) [
        | inl b ↦ Steps-same {t = d} (ground arith) (posted-Steps i Task.flush_task c refl)
        | inr b ↦ Steps-same {t = c} (ground arith) (same-Steps i c)
      ]
    ]

drain_nb-Steps : (i : ℕ) (mode : DrainMode) (c : Component) → Steps i c (drain_nb mode c).0
unfolding drain_nb
drain_nb-Steps i drain_chain c = Steps-same {t = c} (ground arith) (same-Steps i c)
drain_nb-Steps i drain_component_no_eos c = Steps-same {t = c} (ground arith) (same-Steps i c)
drain_nb-Steps i drain_component_with_eos c =
    let d : Component = record c { tasks = c.tasks ++ (Task.drain_task ∷ []) } in
    elim (Bool-cases (is_running c.state)) [
      | inr idle ↦ Steps-same {t = c} (ground arith) (same-Steps i c)
      | inl on ↦ Steps-same {t = d} (ground arith) (posted-Steps i Task.drain_task c refl)
    ]

stop-Steps :
    (i : ℕ) (c : Component)
    → c.has_listener ≡ true
    → c.is_thread_running ≡ true
    → c.tasks ≡ []
    → Steps i c (stop c).0
unfolding stop stop_task release_task
stop-Steps i c l h e =
    let t = report_abandoned_works c in
    let d : Component = record t {
      is_draining = false;
      has_decoder = false;
      tasks = [];
      is_thread_running = false;
      state = Component.state (stop c).0;
    } in
    let k = report_abandoned_works-Conserves i c l in
    elim (Bool-cases (not (is_running c.state) && not (is_error c.state))) [
      | inl idle ↦ Steps-same {t = c} (ground arith) (same-Steps i c)
      | inr on ↦ Steps-same {t = d} (ground arith) (record {
        kept = omega (arith, k.kept, ap (count_tasks i) e);
        heard = k.heard;
        rightly = k.rightly;
        spared = k.spared;
        awake = λ a. inr (inl (report_abandoned_works_lem c).0);
      })
    ]

module _ (interface : Interface) where
  Move-Steps : (i : ℕ) (c d : Component) → c.has_listener ≡ true → Move interface c d → Steps i c d
  Move-Steps i c _ l (flushes component _) = flush_sm-Steps i component c
  Move-Steps i c _ l (drains mode _) = drain_nb-Steps i mode c
  Move-Steps i c _ l (stops _ h e) = stop-Steps i c l h e
  Move-Steps i c d l (runs ids t rest _ _ e f) = run_task-Steps interface i ids t rest c d l e f
  Move-Steps i c d l (decodes id status _ _ e) =
      let k = on_decode_done-Effect i id status c d l e in Calm-Steps i c d k.conserved k.calm
  Move-Steps i c _ l (outputs id frame _) =
      let k = on_output_frame_ready-Effect interface i id frame c l in
      Calm-Steps i c (on_output_frame_ready interface id frame c) k.conserved k.calm
  Move-Steps i c _ l (drained status _) = on_drain_done-Steps i status c l
  Move-Steps i c _ l (fails status _) =
      Calm-Steps i c (report_error status c) (report_error-Conserves i status c)
        (report_error-Calm status c)

-- What holds of a component that was started with a listener and given some works.
record Holds (i : ℕ) (given : List Work) (c : Component) : Type 0 where
  listens : c.has_listener ≡ true
  counted : total i c ≡ count i given
  returned : all_given_back c.reported ≡ true
  empty : all_empty c.destroyed ≡ true
  wakes : IsAwake c

set_listener_vb-new_component :
    (secure may_block : Bool)
    → let c = (set_listener_vb true may_block (new_component secure)).0 in
      (c.has_listener ≡ true)
      × (c.pending_works ≡ [])
      × (c.works_at_decoder ≡ [])
      × (c.reported ≡ [])
      × (c.tasks ≡ [])
      × (c.destroyed ≡ [])
unfolding set_listener_vb new_component is_running
set_listener_vb-new_component secure may_block = (refl, refl, refl, refl, refl, refl)

start_kept_lem :
    (interface : Interface) (thread created : Bool) (queried : Option ℕ) (c d : Component)
    → start interface thread created queried c ≡ (d, Status.ok)
    → (d.has_listener ≡ c.has_listener)
      × (d.pending_works ≡ c.pending_works)
      × (d.works_at_decoder ≡ c.works_at_decoder)
      × (d.reported ≡ c.reported)
      × (d.tasks ≡ c.tasks)
      × (d.destroyed ≡ c.destroyed)
unfolding start start_task
start_kept_lem interface thread created queried c d e = ground arith

started-Holds :
    (interface : Interface) (i : ℕ) (secure may_block thread created : Bool) (queried : Option ℕ)
    (c : Component)
    → start interface thread created queried
        (set_listener_vb true may_block (new_component secure)).0
      ≡ (c, Status.ok)
    → Holds i [] c
started-Holds interface i secure may_block thread created queried c e =
    let (sl, sp, sa, sr, st, sx) = set_listener_vb-new_component secure may_block in
    let u = (set_listener_vb true may_block (new_component secure)).0 in
    let (l, p, a, r, t, x) = start_kept_lem interface thread created queried u c e in
    record {
      listens = l ∙ sl;
      counted = omega (
        arith,
        ap (count i) (p ∙ sp),
        ap (count_at i) (a ∙ sa),
        ap (count i) (r ∙ sr),
        ap (count_tasks i) (t ∙ st),
        ap (count i) (x ∙ sx),
      );
      returned = ap all_given_back (r ∙ sr);
      empty = ap all_empty (x ∙ sx);
      wakes = inr (inl (p ∙ sp));
    }

queue_nb-Holds :
    (i : ℕ) (given works : List Work) (c : Component)
    → is_running c.state ≡ true
    → Holds i given c
    → Holds i (given ++ works) (queue_nb works c).0
unfolding queue_nb
queue_nb-Holds i given works c on h =
    let d : Component = record c { tasks = c.tasks ++ map Task.queue_task works } in
    let same : (queue_nb works c).0 ≡ d = ground arith in
    subst (λ x. Holds i (given ++ works) x) (sym same)
      (record {
        listens = h.listens;
        counted = omega (
          arith,
          h.counted,
          count_tasks-append i c.tasks (map Task.queue_task works),
          count_tasks-map i works,
          count-append i given works,
        );
        returned = h.returned;
        empty = h.empty;
        wakes = elim h.wakes [
          | inl x ↦ inl x
          | inr (inl x) ↦ inr (inl x)
          | inr (inr (inl x)) ↦ inr (inr (inl x))
          | inr (inr (inr x)) ↦
              inr (inr (inr (has_pump-append c.tasks (map Task.queue_task works) x)))
        ];
      })

module _ (interface : Interface) where
  Reachable-Holds :
      (i : ℕ) (given : List Work) (c : Component) → Reachable interface given c → Holds i given c
  Reachable-Holds i _ c (started secure may_block thread created queried _ e) =
      started-Holds interface i secure may_block thread created queried c e
  Reachable-Holds i _ _ (queued given works c r on) =
      queue_nb-Holds i given works c on (Reachable-Holds i given c r)
  Reachable-Holds i given d (moved _ c _ r m) =
      let h = Reachable-Holds i given c r in
      let s = Move-Steps interface i c d h.listens m in
      record {
        listens = s.heard ∙ h.listens;
        counted = s.kept ∙ h.counted;
        returned = s.rightly h.returned;
        empty = s.spared h.empty;
        wakes = s.awake h.wakes;
      }

  -- From a start with a listener on, in whatever order the client queues, flushes, drains and stops, and
  -- the tasks run and the decoder calls back, no work is lost or given back twice, unless it has no
  -- input buffer: with any frame index, as many works were given back, wait, are at the decoder, are
  -- in a task to come or were destroyed as queue_nb accepted, and no work that was destroyed had an
  -- input buffer. Left out are the runs into undefined behaviour: a work with an input buffer and the
  -- bitstream id of another one at the decoder, and onDecodeDone for a work that is not there.
  pub Reachable-total :
      (i : ℕ) (given : List Work) (c : Component)
      → Reachable interface given c
      → (count i c.reported
            + (count i c.pending_works + count_at i c.works_at_decoder)
            + count i c.destroyed
            + count_tasks i c.tasks
          ≡ count i given)
        × (all_empty c.destroyed ≡ true)
  Reachable-total i given c r = let h = Reachable-Holds i given c r in (h.counted, h.empty)

  -- Under the same conditions every work that the client has back is without its input buffer, or has
  -- the result C2_CORRUPTED.
  pub Reachable-given_back :
      (given : List Work) (c : Component)
      → Reachable interface given c
      → all_given_back c.reported ≡ true
  Reachable-given_back given c r = (Reachable-Holds 0 given c r).returned

  -- Under the same conditions no work waits for ever: while a running component has works that it did
  -- not send, a drain is under way or a call of pumpPendingWorks is posted.
  pub Reachable-pending :
      (given : List Work) (c : Component)
      → Reachable interface given c
      → is_running c.state ≡ true
      → (c.pending_works ≡ []) ⊎ ((c.is_draining ≡ true) ⊎ (has_pump c.tasks ≡ true))
  Reachable-pending given c r on = elim (Reachable-Holds 0 given c r).wakes [
    | inl idle ↦ absurd (ground arith)
    | inr w ↦ w
  ]
