-- ===== src/Queue/Counts.antt =====
-- How the operations of V4L2Queue change the set of queued buffers.
use android_external_v4l2_co.Prelude.{
  ℕ, zero, suc, ◌+◌, ◌≡◌, refl, Bool, true, not, ◌||◌, none, some, List, [], ◌∷◌, arith, ◌==◌,
  if◌then◌else◌, length, done, inl, inr, Bool-cases, Option-cases,
}
use android_external_v4l2_co.Queue.{
  Queue, BufferRef, Driver, Dequeued, dequeued, try_again, failed, get_free_buffer_at,
  return_buffer, is_current, drop_ref, give_ref, dequeue_answer, queue_buffer, do_queue,
  dequeue_buffer, streamon, streamoff, deallocate_buffers, query_buffers, allocate_buffers,
}
use android_external_v4l2_co.Queue.Owners.{HasOneOwner, held_not_queued, is_current-device}
use android_external_v4l2_co.Queue.Sets.{
  insert, erase, contains, count, one_at, count-insert, count-erase, contains-count,
  contains-insert,
}

length-erase : (n : ℕ) (xs : List ℕ) → contains n xs ≡ true → length (erase n xs) + 1 ≡ length xs
unfolding erase contains
length-erase n [] h = absurd (ground arith)
length-erase n (x ∷ xs) h = ground (arith, length-erase n xs)

module _ {D : Type 0} where
  pub get_free_buffer_at_lem :
      (i : ℕ) (q t : Queue D) (r : BufferRef)
      → get_free_buffer_at i q ≡ some (r, t)
      → (r.index ≡ i) × (t.queued_buffers ≡ q.queued_buffers) × (is_current r t ≡ true)
  unfolding get_free_buffer_at is_current
  get_free_buffer_at_lem i q t r e = ground arith

  pub drop_ref-queued :
      (r : BufferRef) (q : Queue D) → (drop_ref r q).queued_buffers ≡ q.queued_buffers
  unfolding drop_ref return_buffer
  drop_ref-queued r q = ground arith

  -- A buffer that was just given back can be taken.
  pub get_free_buffer_at-drop_ref :
      (r : BufferRef) (q : Queue D)
      → is_current r q ≡ true
      → (a : BufferRef × Queue D) × (get_free_buffer_at r.index (drop_ref r q) ≡ some a)
  unfolding get_free_buffer_at drop_ref return_buffer is_current
  get_free_buffer_at-drop_ref r q c = elim (Option-cases q.free_buffers) [
    | inl f ↦ absurd (ground arith)
    | inr (l, f) ↦
        let t = record q { free_buffers = some (insert r.index l) } in
        (
          (
            record { index = r.index; list = q.list },
            record t { free_buffers = some (erase r.index (insert r.index l)) },
          ),
          ground (arith, contains-insert r.index l),
        )
  ]

  dequeue_answer_lem :
      (q t : Queue D) (answer : Dequeued) (ok : Bool) (r : BufferRef)
      → HasOneOwner q []
      → dequeue_answer q answer ≡ done (t, ok, some r)
      → (length t.queued_buffers + 1 ≡ length q.queued_buffers)
        × (is_current r t ≡ true)
        × ((j : ℕ) → count j t.queued_buffers + one_at r.index j ≡ count j q.queued_buffers)
  unfolding dequeue_answer give_ref is_current
  dequeue_answer_lem q t (dequeued n) ok r v e = (
    ground (arith, length-erase n q.queued_buffers),
    ground (arith, v n, contains-count n q.queued_buffers),
    λ j. ground (arith, contains-count n q.queued_buffers, count-erase n j q.queued_buffers),
  )
  dequeue_answer_lem q t try_again ok r v e = absurd (ground arith)
  dequeue_answer_lem q t failed ok r v e = absurd (ground arith)

  dequeue_answer_ok :
      (q t : Queue D) (answer : Dequeued) (ok : Bool) (r : BufferRef)
      → dequeue_answer q answer ≡ done (t, ok, some r)
      → ok ≡ true
  unfolding dequeue_answer give_ref
  dequeue_answer_ok q t (dequeued n) ok r e = ground arith
  dequeue_answer_ok q t try_again ok r e = absurd (ground arith)
  dequeue_answer_ok q t failed ok r e = absurd (ground arith)

  dequeue_answer_none_lem :
      (q t : Queue D) (answer : Dequeued) (ok : Bool)
      → dequeue_answer q answer ≡ done (t, ok, none)
      → t.queued_buffers ≡ q.queued_buffers
  unfolding dequeue_answer give_ref
  dequeue_answer_none_lem q t (dequeued n) ok e = absurd (ground arith)
  dequeue_answer_none_lem q t try_again ok e = ground arith
  dequeue_answer_none_lem q t failed ok e = ground arith

module _ {D : Type 0} (driver : Driver D) where
  pub do_queue-count :
      (q : Queue D) (r : BufferRef)
      → HasOneOwner q (r ∷ [])
      → is_current r q ≡ true
      → (j : ℕ)
      → count j (do_queue driver r q).0.queued_buffers
        ≡ count j q.queued_buffers + (if (do_queue driver r q).1 then one_at r.index j else 0)
  unfolding do_queue queue_buffer
  do_queue-count q r v c j =
      let absent = held_not_queued q [] [] r v c in
      let t = record q { device = (driver.qbuf q.device r.index).0 } in
      ground (
        arith,
        contains-count r.index q.queued_buffers,
        count-insert r.index j q.queued_buffers,
        drop_ref-queued r t,
        is_current-device r q (driver.qbuf q.device r.index).0,
      )

  pub dequeue_buffer_lem :
      (q t : Queue D) (ok : Bool) (r : BufferRef)
      → HasOneOwner q []
      → dequeue_buffer driver q ≡ done (t, ok, some r)
      → (length t.queued_buffers + 1 ≡ length q.queued_buffers)
        × (is_current r t ≡ true)
        × ((j : ℕ) → count j t.queued_buffers + one_at r.index j ≡ count j q.queued_buffers)
  unfolding dequeue_buffer
  dequeue_buffer_lem q t ok r v e =
      dequeue_answer_lem (record q { device = (driver.dqbuf q.device).0 }) t
        (driver.dqbuf q.device).1 ok r v (ground arith)

  -- A buffer comes with success.
  pub dequeue_buffer_ok :
      (q t : Queue D) (ok : Bool) (r : BufferRef)
      → dequeue_buffer driver q ≡ done (t, ok, some r)
      → ok ≡ true
  unfolding dequeue_buffer
  dequeue_buffer_ok q t ok r e =
      dequeue_answer_ok (record q { device = (driver.dqbuf q.device).0 }) t
        (driver.dqbuf q.device).1 ok r (ground arith)

  pub dequeue_buffer_none_lem :
      (q t : Queue D) (ok : Bool)
      → dequeue_buffer driver q ≡ done (t, ok, none)
      → t.queued_buffers ≡ q.queued_buffers
  unfolding dequeue_buffer
  dequeue_buffer_none_lem q t ok e =
      elim (Bool-cases (length q.queued_buffers == 0 || not q.is_streaming)) [
        | inl idle ↦ ground arith
        | inr busy ↦
            dequeue_answer_none_lem (record q { device = (driver.dqbuf q.device).0 }) t
              (driver.dqbuf q.device).1 ok (ground arith)
      ]

  pub streamoff-queued :
      (q : Queue D)
      → (driver.stream_off q.device).1 ≡ true
      → (streamoff driver q).0.queued_buffers ≡ []
  unfolding streamoff
  streamoff-queued q s = ground arith

  pub streamon-queued : (q : Queue D) → (streamon driver q).0.queued_buffers ≡ q.queued_buffers
  unfolding streamon
  streamon-queued q = ground arith

  pub deallocate_buffers-queued :
      (q : Queue D) → (deallocate_buffers driver q).0.queued_buffers ≡ q.queued_buffers
  unfolding deallocate_buffers
  deallocate_buffers-queued q = ground arith

  query_buffers-queued :
      (n : ℕ) (q : Queue D) → (query_buffers driver n q).0.queued_buffers ≡ q.queued_buffers
  unfolding query_buffers return_buffer
  query_buffers-queued zero q = refl
  query_buffers-queued (suc n) q =
      let q' = record q { device = (driver.querybuf q.device q.allocated).0 } in
      ground (
        arith,
        deallocate_buffers-queued q',
        query_buffers-queued n
            (return_buffer q.allocated (record q' { allocated = suc q.allocated })),
      )

  pub allocate_buffers-queued :
      (n : ℕ) (q : Queue D) → (allocate_buffers driver n q).0.queued_buffers ≡ q.queued_buffers
  unfolding allocate_buffers
  allocate_buffers-queued n q =
      let d = driver.g_fmt q.device in
      let r = driver.reqbufs d.0 n in
      let made : Queue D = record q { device = r.0; free_buffers = some []; list = suc q.list } in
      elim (Option-cases r.1) [
        | inl g ↦ ground arith
        | inr (k, g) ↦ ground (arith, query_buffers-queued k made)
      ]
