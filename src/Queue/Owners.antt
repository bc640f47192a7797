-- ===== src/Queue/Owners.antt =====
-- Who owns each buffer of a V4L2Queue: its list of free buffers, the driver or one live reference.
use android_external_v4l2_co.Prelude.{
  ℕ, ◌+◌, ◌≤◌, ◌≡◌, refl, Bool, true, false, ◌&&◌, none, some, List, [], ◌∷◌, ◌++◌, arith, ltb,
  ◌==◌, if◌then◌else◌, done, inl, inr, Option-cases,
}
use android_external_v4l2_co.Queue.{
  Queue, BufferRef, Dequeued, dequeued, get_free_buffer, get_free_buffer_at, return_buffer,
  is_current, drop_ref, schedule_poll, give_ref, dequeue_answer, try_again, failed, return_all,
}
use android_external_v4l2_co.Queue.Sets.{
  insert, contains, count, count-insert, count-erase, contains-count, not-contains-count,
}

abbrev pub is_ref : ℕ → ℕ → BufferRef → Bool
is_ref list i r = r.list == list && i == r.index

-- How many references of a list hold the index.
abbrev pub held : ℕ → ℕ → List BufferRef → ℕ
held list i [] = 0
held list i (r ∷ rs) = (if is_ref list i r then 1 else 0) + held list i rs

held-append :
    (list i : ℕ) (rs ss : List BufferRef) → held list i (rs ++ ss) ≡ held list i rs + held list i ss
held-append list i [] ss = omega arith
held-append list i (r ∷ rs) ss = omega (arith, held-append list i rs ss)

module _ {D : Type 0} where
  -- How many lists and references hold the index.
  abbrev pub owners : Queue D → List BufferRef → ℕ → ℕ
  owners q refs i = elim q.free_buffers [
    | none ↦ count i q.queued_buffers
    | some l ↦ count i l + count i q.queued_buffers + held q.list i refs
  ]

  abbrev pub expected : Queue D → ℕ → ℕ
  expected q i = elim q.free_buffers [ none ↦ 0 | some l ↦ if ltb i q.allocated then 1 else 0 ]

  -- Each allocated buffer has one owner, and there is no other.
  abbrev pub HasOneOwner : Queue D → List BufferRef → Type 0
  HasOneOwner q refs = (i : ℕ) → owners q refs i ≡ expected q i

  pub get_free_buffer-HasOneOwner :
      (q t : Queue D) (refs : List BufferRef) (r : BufferRef)
      → HasOneOwner q refs
      → get_free_buffer q ≡ some (r, t)
      → HasOneOwner t (r ∷ refs)
  unfolding get_free_buffer
  get_free_buffer-HasOneOwner q t refs r v e i = ground (arith, v i)

  pub get_free_buffer_at-HasOneOwner :
      (n : ℕ) (q t : Queue D) (refs : List BufferRef) (r : BufferRef)
      → HasOneOwner q refs
      → get_free_buffer_at n q ≡ some (r, t)
      → HasOneOwner t (r ∷ refs)
  unfolding get_free_buffer_at
  get_free_buffer_at-HasOneOwner n q t refs r v e i = elim (Option-cases q.free_buffers) [
    | inl f ↦ absurd (ground arith)
    | inr (l, f) ↦ ground (arith, v i, contains-count n l, count-erase n i l)
  ]

  pub drop_ref-HasOneOwner :
      (q : Queue D) (before after : List BufferRef) (r : BufferRef)
      → HasOneOwner q (before ++ (r ∷ after))
      → HasOneOwner (drop_ref r q) (before ++ after)
  unfolding drop_ref
  drop_ref-HasOneOwner q before after r v i = elim (Option-cases q.free_buffers) [
    | inl f ↦ ground (arith, v i)
    | inr (l, f) ↦ ground (
      arith,
      v i,
      v r.index,
      held-append q.list i before (r ∷ after),
      held-append q.list i before after,
      held-append q.list r.index before (r ∷ after),
      count-insert r.index i l,
    )
  ]

  -- The buffer of a live reference is not queued.
  pub held_not_queued :
      (q : Queue D) (before after : List BufferRef) (r : BufferRef)
      → HasOneOwner q (before ++ (r ∷ after))
      → is_current r q ≡ true
      → count r.index q.queued_buffers ≡ 0
  unfolding is_current
  held_not_queued q before after r v c =
      ground (arith, v r.index, held-append q.list r.index before (r ∷ after))

  return_buffer-none : (n : ℕ) (q : Queue D) → q.free_buffers ≡ none → return_buffer n q ≡ q
  unfolding return_buffer
  return_buffer-none n q f = ground arith

  -- Without a list of free buffers a return changes nothing.
  pub return_all-none : (is : List ℕ) (q : Queue D) → q.free_buffers ≡ none → return_all is q ≡ q
  unfolding return_all
  return_all-none [] q f = refl
  return_all-none (n ∷ is) q f =
      let same : return_buffer n q ≡ q = return_buffer-none n q f in
      ground (arith, same, return_all-none is q f)

  pub return_all_lem :
      (is : List ℕ) (q : Queue D) (l : List ℕ)
      → q.free_buffers ≡ some l
      → ((i : ℕ) → count i l + count i is ≤ 1)
      → (m : List ℕ) × (return_all is q ≡ record q { free_buffers = some m })
        × ((i : ℕ) → count i m ≡ count i l + count i is)
  unfolding return_all
  return_all_lem [] q l f h = (l, ground arith, λ i. omega arith)
  return_all_lem (n ∷ is) q l f h =
      let absent : count n l ≡ 0 = ground (arith, h n) in
      let (m, e, c) =
        return_all_lem is (record q { free_buffers = some (insert n l) }) (insert n l) refl
          (λ i. ground (arith, h i, count-insert n i l absent)) in
      (m, ground (arith, e), λ i. ground (arith, c i, count-insert n i l absent))

  pub give_ref-HasOneOwner :
      (n : ℕ) (q t : Queue D) (ok : Bool) (refs : List BufferRef) (r : BufferRef)
      → HasOneOwner q refs
      → give_ref q n ≡ done (t, ok, some r)
      → HasOneOwner t (r ∷ refs)
  unfolding give_ref
  give_ref-HasOneOwner n q t ok refs r v e i = elim (Option-cases q.free_buffers) [
    | inl f ↦ absurd (ground (arith, v n, contains-count n q.queued_buffers))
    | inr (l, f) ↦
        ground (arith, v i, contains-count n q.queued_buffers, count-erase n i q.queued_buffers)
  ]

  pub dequeue_answer-HasOneOwner :
      (q t : Queue D) (answer : Dequeued) (ok : Bool) (refs : List BufferRef) (r : BufferRef)
      → HasOneOwner q refs
      → dequeue_answer q answer ≡ done (t, ok, some r)
      → HasOneOwner t (r ∷ refs)
  unfolding dequeue_answer
  dequeue_answer-HasOneOwner q t (dequeued n) ok refs r v e =
      give_ref-HasOneOwner n q t ok refs r v e
  dequeue_answer-HasOneOwner q t try_again ok refs r v e = absurd (ground arith)
  dequeue_answer-HasOneOwner q t failed ok refs r v e = absurd (ground arith)

  pub dequeue_answer-none-HasOneOwner :
      (q t : Queue D) (answer : Dequeued) (ok : Bool) (refs : List BufferRef)
      → HasOneOwner q refs
      → dequeue_answer q answer ≡ done (t, ok, none)
      → HasOneOwner t refs
  unfolding dequeue_answer give_ref
  dequeue_answer-none-HasOneOwner q t (dequeued n) ok refs v e i = absurd (ground arith)
  dequeue_answer-none-HasOneOwner q t try_again ok refs v e i = ground (arith, v i)
  dequeue_answer-none-HasOneOwner q t failed ok refs v e i = ground (arith, v i)

  pub is_current-device :
      (r : BufferRef) (q : Queue D) (d : D)
      → is_current r (record q { device = d }) ≡ is_current r q
  unfolding is_current
  is_current-device r q d = refl

  pub queued-HasOneOwner :
      (q : Queue D) (before after : List BufferRef) (r : BufferRef)
      → HasOneOwner q (before ++ (r ∷ after))
      → (i : ℕ) → is_current r q ≡ true
      → contains r.index q.queued_buffers ≡ false
      → let t = schedule_poll (record q { queued_buffers = insert r.index q.queued_buffers }) in
        owners t (before ++ after) i ≡ expected t i
  unfolding is_current
  queued-HasOneOwner q before after r v i c n = ground (
    arith,
    v i,
    held-append q.list i before (r ∷ after),
    held-append q.list i before after,
    not-contains-count r.index q.queued_buffers n,
    count-insert r.index i q.queued_buffers,
  )
