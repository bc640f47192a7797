-- ===== src/Queue/OwnersDriver.antt =====
-- Who owns each buffer, after the operations of V4L2Queue that call the driver.
use android_external_v4l2_co.Prelude.{
  ◌≡◌, Bool, not, ◌||◌, none, some, List, ◌∷◌, ◌++◌, arith, ◌==◌, length, done, inl, inr,
  Bool-cases, Option-cases,
}
use android_external_v4l2_co.Queue.{
  Queue, BufferRef, Driver, queue_buffer, do_queue, dequeue_buffer, streamon, streamoff,
}
use android_external_v4l2_co.Queue.Owners.{
  HasOneOwner, drop_ref-HasOneOwner, queued-HasOneOwner, is_current-device, return_all_lem,
  return_all-none, dequeue_answer-HasOneOwner, dequeue_answer-none-HasOneOwner,
}

module _ {D : Type 0} (driver : Driver D) where
  pub do_queue-HasOneOwner :
      (q : Queue D) (before after : List BufferRef) (r : BufferRef)
      → HasOneOwner q (before ++ (r ∷ after))
      → HasOneOwner (do_queue driver r q).0 (before ++ after)
  unfolding do_queue queue_buffer
  do_queue-HasOneOwner q before after r v i =
      let t = record q { device = (driver.qbuf q.device r.index).0 } in
      ground (
        arith,
        drop_ref-HasOneOwner q before after r v i,
        drop_ref-HasOneOwner t before after r v i,
        queued-HasOneOwner t before after r v i,
        is_current-device r q (driver.qbuf q.device r.index).0,
      )

  pub dequeue_buffer-HasOneOwner :
      (q t : Queue D) (ok : Bool) (refs : List BufferRef) (r : BufferRef)
      → HasOneOwner q refs
      → dequeue_buffer driver q ≡ done (t, ok, some r)
      → HasOneOwner t (r ∷ refs)
  unfolding dequeue_buffer
  dequeue_buffer-HasOneOwner q t ok refs r v e =
      dequeue_answer-HasOneOwner (record q { device = (driver.dqbuf q.device).0 }) t
        (driver.dqbuf q.device).1 ok refs r v (ground arith)

  pub dequeue_buffer-none-HasOneOwner :
      (q t : Queue D) (ok : Bool) (refs : List BufferRef)
      → HasOneOwner q refs
      → dequeue_buffer driver q ≡ done (t, ok, none)
      → HasOneOwner t refs
  unfolding dequeue_buffer
  dequeue_buffer-none-HasOneOwner q t ok refs v e =
      elim (Bool-cases (length q.queued_buffers == 0 || not q.is_streaming)) [
        | inl idle ↦ λ i. ground (arith, v i)
        | inr busy ↦
            dequeue_answer-none-HasOneOwner (record q { device = (driver.dqbuf q.device).0 }) t
              (driver.dqbuf q.device).1 ok refs v (ground arith)
      ]

  pub streamon-HasOneOwner :
      (q : Queue D) (refs : List BufferRef)
      → HasOneOwner q refs
      → HasOneOwner (streamon driver q).0 refs
  unfolding streamon
  streamon-HasOneOwner q refs v i = ground (arith, v i)

  pub streamoff-HasOneOwner :
      (q : Queue D) (refs : List BufferRef)
      → HasOneOwner q refs
      → HasOneOwner (streamoff driver q).0 refs
  unfolding streamoff
  streamoff-HasOneOwner q refs v i = elim (Option-cases q.free_buffers) [
    | inl f ↦
        let q' = record q { device = (driver.stream_off q.device).0 } in
        ground (arith, v i, return_all-none q.queued_buffers q' f)
    | inr (l, f) ↦
        let q' = record q { device = (driver.stream_off q.device).0 } in
        let (m, e, c) = return_all_lem q.queued_buffers q' l f (λ j. ground (arith, v j)) in
        ground (arith, v i, e, c i)
  ]
