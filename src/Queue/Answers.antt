-- ===== src/Queue/Answers.antt =====
-- What the operations of V4L2Queue answer, and what they leave in its sets.
use android_external_v4l2_co.Prelude.{
  ℕ, zero, suc, ◌+◌, ◌<◌, ◌≡◌, ◌≢◌, refl, true, false, not, ◌||◌, some, List, [], ◌∷◌, ◌++◌, arith,
  ltb, ◌==◌, if◌then◌else◌, length, fault, inl, inr, ◌↔◌, Bool-cases, Option-cases,
}
use android_external_v4l2_co.Queue.{
  Queue, BufferRef, Driver, dequeued, return_buffer, is_current, drop_ref, give_ref, dequeue_answer,
  queue_buffer, do_queue, dequeue_buffer, streamoff, deallocate_buffers, query_buffers,
  allocate_buffers,
}
use android_external_v4l2_co.Queue.Owners.{
  HasOneOwner, held_not_queued, return_all_lem, is_current-device,
}
use android_external_v4l2_co.Queue.Sets.{
  insert, contains, count, count-insert, contains-count, contains-insert,
}

module _ {D : Type 0} (driver : Driver D) where
  -- When each buffer has one owner, doQueue of a live reference of the current list succeeds
  -- exactly if VIDIOC_QBUF does, and the buffer is queued then: it is never found to be queued
  -- already.
  pub do_queue_answer :
      (q : Queue D) (before after : List BufferRef) (r : BufferRef)
      → HasOneOwner q (before ++ (r ∷ after))
      → is_current r q ≡ true
      → let t = do_queue driver r q in
        (t.1 ≡ (driver.qbuf q.device r.index).1) × (contains r.index t.0.queued_buffers ≡ t.1)
  unfolding do_queue queue_buffer drop_ref return_buffer
  do_queue_answer q before after r v c =
      let absent = held_not_queued q before after r v c in
      ground (
        arith,
        contains-count r.index q.queued_buffers,
        contains-insert r.index q.queued_buffers,
        is_current-device r q (driver.qbuf q.device r.index).0,
      )

  give_ref_fault :
      (n : ℕ) (q : Queue D) → (give_ref q n ≡ fault) ↔ (contains n q.queued_buffers ≡ false)
  unfolding give_ref
  give_ref_fault n q = (λ e. ground arith, λ e. ground arith)

  -- When a streaming queue with queued buffers asks the driver and it answers a buffer,
  -- dequeueBuffer goes wrong exactly if that buffer is not among the queued ones.
  pub dequeue_buffer_fault :
      (q : Queue D) (n : ℕ)
      → q.is_streaming ≡ true
      → 0 < length q.queued_buffers
      → (driver.dqbuf q.device).1 ≡ dequeued n
      → (dequeue_buffer driver q ≡ fault) ↔ (contains n q.queued_buffers ≡ false)
  unfolding dequeue_buffer dequeue_answer
  dequeue_buffer_fault q n s l a =
      let (there, back) = give_ref_fault n (record q { device = (driver.dqbuf q.device).0 }) in
      (λ e. there (ground arith), λ e. ground (arith, back e))

  -- When each buffer has one owner, a successful streamoff leaves no buffer queued and the queue
  -- idle, and every buffer that was queued is free afterwards, with those that were free before.
  pub streamoff_lem :
      (q : Queue D) (l : List ℕ) (refs : List BufferRef)
      → HasOneOwner q refs
      → q.free_buffers ≡ some l
      → (driver.stream_off q.device).1 ≡ true
      → let t = (streamoff driver q).0 in
        (t.queued_buffers ≡ [])
        × (t.is_streaming ≡ false)
        × (m : List ℕ) × (t.free_buffers ≡ some m)
        × ((i : ℕ) → count i m ≡ count i l + count i q.queued_buffers)
  unfolding streamoff
  streamoff_lem q l refs v f s =
      let q' = record q { device = (driver.stream_off q.device).0 } in
      let (m, e, c) = return_all_lem q.queued_buffers q' l f (λ j. ground (arith, v j)) in
      (ground arith, ground arith, m, ground (arith, e), c)

  query_buffers_all :
      (n : ℕ) (q : Queue D) (l : List ℕ) (k : ℕ)
      → q.free_buffers ≡ some l
      → ((i : ℕ) → count i l ≡ (if ltb i q.allocated then 1 else 0))
      → (query_buffers driver n q).1 ≡ k
      → k ≢ 0
      → let t = (query_buffers driver n q).0 in
        (k ≡ q.allocated + n)
        × (t.allocated ≡ k)
        × (m : List ℕ) × (t.free_buffers ≡ some m)
        × ((i : ℕ) → count i m ≡ (if ltb i k then 1 else 0))
  unfolding query_buffers return_buffer
  query_buffers_all zero q l k f c e z = (ground arith, e, l, f, λ i. ground (arith, c i))
  query_buffers_all (suc n) q l k f c e z =
      elim (Bool-cases (driver.querybuf q.device q.allocated).1) [
        | inl ok ↦
            let t = record q {
              device = (driver.querybuf q.device q.allocated).0;
              allocated = suc q.allocated;
              free_buffers = some (insert q.allocated l);
            } in
            let (size, made, m, free, each) =
              query_buffers_all n t (insert q.allocated l) k refl
                (λ i. ground (arith, c i, c q.allocated, count-insert q.allocated i l))
                (ground arith) z in
            (ground arith, ground arith, m, ground arith, each)
        | inr bad ↦ absurd (ground arith)
      ]

  -- When allocateBuffers answers a number other than zero, it is the number that the driver
  -- granted, that many buffers are allocated, and the list of free buffers has each index below it
  -- once and no other.
  pub allocate_buffers_lem :
      (n k : ℕ) (q : Queue D)
      → (allocate_buffers driver n q).1 ≡ k
      → k ≢ 0
      → let t = (allocate_buffers driver n q).0 in
        ((driver.reqbufs (driver.g_fmt q.device).0 n).1 ≡ some k)
        × (t.allocated ≡ k)
        × (m : List ℕ) × (t.free_buffers ≡ some m)
        × ((i : ℕ) → count i m ≡ (if ltb i k then 1 else 0))
  unfolding allocate_buffers
  allocate_buffers_lem n k q e z =
      let r = driver.reqbufs (driver.g_fmt q.device).0 n in
      elim (Bool-cases (q.is_streaming || not (q.allocated == 0) || n == 0)) [
        | inl refused ↦ absurd (ground arith)
        | inr asked ↦ elim (Option-cases r.1) [
          | inl g ↦ absurd (ground arith)
          | inr (j, g) ↦
              let made : Queue D = record q {
                device = r.0;
                free_buffers = some [];
                list = suc q.list;
              } in
              let (size, all, m, free, each) =
                query_buffers_all j made [] k refl (λ i. ground arith) (ground arith) z in
              (ground arith, ground arith, m, ground arith, each)
        ]
      ]

  -- If a queue without buffers, not streaming, is asked for some, and the very first
  -- VIDIOC_QUERYBUF fails after VIDIOC_G_FMT and VIDIOC_REQBUFS succeeded, allocateBuffers answers
  -- 0 but keeps the new list of free buffers, which a later call asserts not to be there:
  -- deallocateBuffers returns early, since no buffer was made yet. The buffers that the driver
  -- granted are not given back.
  pub allocate_buffers_leftover :
      (n granted : ℕ) (q : Queue D)
      → q.is_streaming ≡ false
      → q.allocated ≡ 0
      → 0 < n
      → (driver.g_fmt q.device).1 ≡ true
      → (driver.reqbufs (driver.g_fmt q.device).0 n).1 ≡ some (suc granted)
      → (driver.querybuf (driver.reqbufs (driver.g_fmt q.device).0 n).0 0).1 ≡ false
      → let t = allocate_buffers driver n q in
        (t.1 ≡ 0)
        × (t.0.free_buffers ≡ some [])
        × (t.0.device ≡ (driver.querybuf (driver.reqbufs (driver.g_fmt q.device).0 n).0 0).0)
  unfolding allocate_buffers query_buffers deallocate_buffers
  allocate_buffers_leftover n granted q s a p f g b = ground arith
