-- ===== src/Queue/Generation.antt =====
-- Which list of free buffers a V4L2Queue and its references belong to, after each operation.
use android_external_v4l2_co.Prelude.{
  ℕ, zero, suc, ◌≤◌, ◌≡◌, refl, ◌∙◌, Bool, none, some, List, [], ◌∷◌, ◌++◌, arith, done, inl, inr,
  Option-cases,
}
use android_external_v4l2_co.Queue.{
  Queue, BufferRef, Driver, Dequeued, dequeued, get_free_buffer, get_free_buffer_at, return_buffer,
  drop_ref, return_all, give_ref, dequeue_answer, queue_buffer, do_queue, dequeue_buffer, streamon,
  streamoff, deallocate_buffers, query_buffers, allocate_buffers,
}
use android_external_v4l2_co.Queue.Allocation.{AreOld}

pub AreOld-append :
    (k : ℕ) (rs : List BufferRef) (r : BufferRef) (ss : List BufferRef)
    → AreOld k (rs ++ (r ∷ ss))
    → AreOld k (rs ++ ss)
AreOld-append k [] r ss h = h.1
AreOld-append k (x ∷ rs) r ss h = (h.0, AreOld-append k rs r ss h.1)

pub AreOld-le : (k n : ℕ) (rs : List BufferRef) → k ≤ n → AreOld k rs → AreOld n rs
AreOld-le k n [] l h = tt
AreOld-le k n (r ∷ rs) l h = (omega (arith, h.0), AreOld-le k n rs l h.1)

module _ {D : Type 0} where
  pub get_free_buffer-list :
      (q t : Queue D) (r : BufferRef)
      → get_free_buffer q ≡ some (r, t)
      → (t.list ≡ q.list) × (r.list ≡ q.list)
  unfolding get_free_buffer
  get_free_buffer-list q t r e = ground arith

  pub get_free_buffer_at-list :
      (n : ℕ) (q t : Queue D) (r : BufferRef)
      → get_free_buffer_at n q ≡ some (r, t)
      → (t.list ≡ q.list) × (r.list ≡ q.list)
  unfolding get_free_buffer_at
  get_free_buffer_at-list n q t r e = ground arith

  return_buffer-list : (n : ℕ) (q : Queue D) → (return_buffer n q).list ≡ q.list
  unfolding return_buffer
  return_buffer-list n q = ground arith

  pub drop_ref-list : (r : BufferRef) (q : Queue D) → (drop_ref r q).list ≡ q.list
  unfolding drop_ref
  drop_ref-list r q = ground (arith, return_buffer-list r.index q)

  return_all-list : (is : List ℕ) (q : Queue D) → (return_all is q).list ≡ q.list
  unfolding return_all
  return_all-list [] q = refl
  return_all-list (n ∷ is) q = return_all-list is (return_buffer n q) ∙ return_buffer-list n q

  dequeue_answer-list :
      (q t : Queue D) (answer : Dequeued) (ok : Bool) (r : BufferRef)
      → dequeue_answer q answer ≡ done (t, ok, some r)
      → (t.list ≡ q.list) × (r.list ≡ q.list)
  unfolding dequeue_answer give_ref
  dequeue_answer-list q t (dequeued n) ok r e = ground arith
  dequeue_answer-list q t _ ok r e = ground arith

  dequeue_answer-none-list :
      (q t : Queue D) (answer : Dequeued) (ok : Bool)
      → dequeue_answer q answer ≡ done (t, ok, none)
      → t.list ≡ q.list
  unfolding dequeue_answer give_ref
  dequeue_answer-none-list q t (dequeued n) ok e = ground arith
  dequeue_answer-none-list q t _ ok e = ground arith

module _ {D : Type 0} (driver : Driver D) where
  queue_buffer-list : (n : ℕ) (q : Queue D) → (queue_buffer driver n q).0.list ≡ q.list
  unfolding queue_buffer
  queue_buffer-list n q = ground arith

  pub do_queue-list : (r : BufferRef) (q : Queue D) → (do_queue driver r q).0.list ≡ q.list
  unfolding do_queue
  do_queue-list r q = ground (
    arith,
    queue_buffer-list r.index q,
    drop_ref-list r q,
    drop_ref-list r (queue_buffer driver r.index q).0,
  )

  pub dequeue_buffer-list :
      (q t : Queue D) (ok : Bool) (r : BufferRef)
      → dequeue_buffer driver q ≡ done (t, ok, some r)
      → (t.list ≡ q.list) × (r.list ≡ q.list)
  unfolding dequeue_buffer
  dequeue_buffer-list q t ok r e = ground (
    arith,
    dequeue_answer-list (record q { device = (driver.dqbuf q.device).0 }) t
        (driver.dqbuf q.device).1 ok r,
  )

  pub dequeue_buffer-none-list :
      (q t : Queue D) (ok : Bool) → dequeue_buffer driver q ≡ done (t, ok, none) → t.list ≡ q.list
  unfolding dequeue_buffer
  dequeue_buffer-none-list q t ok e = ground (
    arith,
    dequeue_answer-none-list (record q { device = (driver.dqbuf q.device).0 }) t
        (driver.dqbuf q.device).1 ok,
  )

  pub streamon-list : (q : Queue D) → (streamon driver q).0.list ≡ q.list
  unfolding streamon
  streamon-list q = ground arith

  pub streamoff-list : (q : Queue D) → (streamoff driver q).0.list ≡ q.list
  unfolding streamoff
  streamoff-list q = ground (
    arith,
    return_all-list q.queued_buffers (record q { device = (driver.stream_off q.device).0 }),
  )

  pub deallocate_buffers-list : (q : Queue D) → (deallocate_buffers driver q).0.list ≡ q.list
  unfolding deallocate_buffers
  deallocate_buffers-list q = ground arith

  query_buffers-list : (n : ℕ) (q : Queue D) → (query_buffers driver n q).0.list ≡ q.list
  unfolding query_buffers
  query_buffers-list zero q = refl
  query_buffers-list (suc n) q =
      let q' = record q { device = (driver.querybuf q.device q.allocated).0 } in
      let t = record q' { allocated = suc q.allocated } in
      ground (
        arith,
        deallocate_buffers-list q',
        query_buffers-list n (return_buffer q.allocated t),
        return_buffer-list q.allocated t,
      )

  pub allocate_buffers-list : (n : ℕ) (q : Queue D) → q.list ≤ (allocate_buffers driver n q).0.list
  unfolding allocate_buffers
  allocate_buffers-list n q =
      let d = driver.g_fmt q.device in
      let r = driver.reqbufs d.0 n in
      let made : Queue D = record q { device = r.0; free_buffers = some []; list = suc q.list } in
      elim (Option-cases r.1) [
        | inl g ↦ ground arith
        | inr (k, g) ↦ ground (arith, query_buffers-list k made)
      ]
