-- ===== src/Queue/Steps.antt =====
-- The calls that V4L2Queue and its references get, as steps in any order.
use android_external_v4l2_co.Prelude.{ℕ, ◌≡◌, Bool, none, some, List, [], ◌∷◌, ◌++◌, arith, done}
use android_external_v4l2_co.Queue.{
  Queue, BufferRef, Driver, get_free_buffer, get_free_buffer_at, drop_ref, do_queue, dequeue_buffer,
  streamon, streamoff, deallocate_buffers, allocate_buffers,
}
use android_external_v4l2_co.Queue.Owners.{
  HasOneOwner, get_free_buffer-HasOneOwner, get_free_buffer_at-HasOneOwner, drop_ref-HasOneOwner,
}
use android_external_v4l2_co.Queue.OwnersDriver.{
  do_queue-HasOneOwner, dequeue_buffer-HasOneOwner, dequeue_buffer-none-HasOneOwner,
  streamon-HasOneOwner, streamoff-HasOneOwner,
}
use android_external_v4l2_co.Queue.Allocation.{
  AreOld, deallocate_buffers-HasOneOwner, allocate_buffers-HasOneOwner,
}
use android_external_v4l2_co.Queue.Generation.{
  AreOld-append, AreOld-le, get_free_buffer-list, get_free_buffer_at-list, drop_ref-list,
  do_queue-list, dequeue_buffer-list, dequeue_buffer-none-list, streamon-list, streamoff-list,
  deallocate_buffers-list, allocate_buffers-list,
}

-- The queue and the references that are alive.
pub record World (D : Type 0) : Type 0 where
  pub queue : Queue D
  pub refs : List BufferRef

abbrev pub world : {D : Type 0} → Queue D → List BufferRef → World D
world q refs = record { queue = q; refs = refs }

-- One call. The source asserts that no buffer is queued when buffers are allocated or freed, and
-- that there is no list of free buffers when buffers are allocated.
pub data Step {D : Type 0} (driver : Driver D) : World D → World D → Type 0 where
  takes :
      (q t : Queue D) (refs : List BufferRef) (r : BufferRef)
      → get_free_buffer q ≡ some (r, t)
      → Step driver (world q refs) (world t (r ∷ refs))
  takes_at :
      (n : ℕ) (q t : Queue D) (refs : List BufferRef) (r : BufferRef)
      → get_free_buffer_at n q ≡ some (r, t)
      → Step driver (world q refs) (world t (r ∷ refs))
  drops :
      (q : Queue D) (before after : List BufferRef) (r : BufferRef)
      → Step driver (world q (before ++ (r ∷ after))) (world (drop_ref r q) (before ++ after))
  queues :
      (q : Queue D) (before after : List BufferRef) (r : BufferRef)
      → Step driver
          (world q (before ++ (r ∷ after)))
          (world (do_queue driver r q).0 (before ++ after))
  dequeues :
      (q t : Queue D) (ok : Bool) (refs : List BufferRef) (r : BufferRef)
      → dequeue_buffer driver q ≡ done (t, ok, some r)
      → Step driver (world q refs) (world t (r ∷ refs))
  dequeues_nothing :
      (q t : Queue D) (ok : Bool) (refs : List BufferRef)
      → dequeue_buffer driver q ≡ done (t, ok, none)
      → Step driver (world q refs) (world t refs)
  starts :
      (q : Queue D) (refs : List BufferRef)
      → Step driver (world q refs) (world (streamon driver q).0 refs)
  stops :
      (q : Queue D) (refs : List BufferRef)
      → Step driver (world q refs) (world (streamoff driver q).0 refs)
  frees :
      (q : Queue D) (refs : List BufferRef)
      → q.queued_buffers ≡ []
      → Step driver (world q refs) (world (deallocate_buffers driver q).0 refs)
  allocates :
      (n : ℕ) (q : Queue D) (refs : List BufferRef)
      → q.free_buffers ≡ none
      → q.queued_buffers ≡ []
      → Step driver (world q refs) (world (allocate_buffers driver n q).0 refs)

pub data Reachable {D : Type 0} (driver : Driver D) : World D → Type 0 where
  created :
      (q : Queue D) → q.free_buffers ≡ none → q.queued_buffers ≡ [] → Reachable driver (world q [])
  step : (v w : World D) → Reachable driver v → Step driver v w → Reachable driver w

pub record IsValid {D : Type 0} (w : World D) : Type 0 where
  pub one_owner : HasOneOwner w.queue w.refs
  pub old_refs : AreOld w.queue.list w.refs

module _ {D : Type 0} (driver : Driver D) where
  -- Each step keeps the owners, and makes no reference to a list that is still to be made.
  step-IsValid : (v w : World D) → Step driver v w → IsValid v → IsValid w
  step-IsValid _ _ (takes q t refs r e) h = record {
    one_owner = get_free_buffer-HasOneOwner q t refs r h.one_owner e;
    old_refs = ground (arith, get_free_buffer-list q t r e, h.old_refs);
  }
  step-IsValid _ _ (takes_at n q t refs r e) h = record {
    one_owner = get_free_buffer_at-HasOneOwner n q t refs r h.one_owner e;
    old_refs = ground (arith, get_free_buffer_at-list n q t r e, h.old_refs);
  }
  step-IsValid _ _ (drops q before after r) h = record {
    one_owner = drop_ref-HasOneOwner q before after r h.one_owner;
    old_refs = rw (drop_ref-list r q) (AreOld-append q.list before r after h.old_refs);
  }
  step-IsValid _ _ (queues q before after r) h = record {
    one_owner = do_queue-HasOneOwner driver q before after r h.one_owner;
    old_refs = rw (do_queue-list driver r q) (AreOld-append q.list before r after h.old_refs);
  }
  step-IsValid _ _ (dequeues q t ok refs r e) h = record {
    one_owner = dequeue_buffer-HasOneOwner driver q t ok refs r h.one_owner e;
    old_refs = ground (arith, dequeue_buffer-list driver q t ok r e, h.old_refs);
  }
  step-IsValid _ _ (dequeues_nothing q t ok refs e) h = record {
    one_owner = dequeue_buffer-none-HasOneOwner driver q t ok refs h.one_owner e;
    old_refs = rw (dequeue_buffer-none-list driver q t ok e) h.old_refs;
  }
  step-IsValid _ _ (starts q refs) h = record {
    one_owner = streamon-HasOneOwner driver q refs h.one_owner;
    old_refs = rw (streamon-list driver q) h.old_refs;
  }
  step-IsValid _ _ (stops q refs) h = record {
    one_owner = streamoff-HasOneOwner driver q refs h.one_owner;
    old_refs = rw (streamoff-list driver q) h.old_refs;
  }
  step-IsValid _ _ (frees q refs n) h = record {
    one_owner = deallocate_buffers-HasOneOwner driver q refs n h.one_owner;
    old_refs = rw (deallocate_buffers-list driver q) h.old_refs;
  }
  step-IsValid _ _ (allocates n q refs f e) h = record {
    one_owner = allocate_buffers-HasOneOwner driver n q refs h.old_refs e h.one_owner;
    old_refs = AreOld-le q.list _ refs (allocate_buffers-list driver n q) h.old_refs;
  }

  Reachable-IsValid : (w : World D) → Reachable driver w → IsValid w
  Reachable-IsValid _ (created q f e) = record { one_owner = λ i. ground arith; old_refs = tt }
  Reachable-IsValid w (step v _ r s) = step-IsValid v w s (Reachable-IsValid v r)

  -- Whatever calls a new queue gets, in any order and with any answers of the driver, buffers being
  -- allocated and freed only where the source's assertions let them: each buffer that is allocated
  -- is in exactly one of the list of free buffers, the set of queued buffers and the live
  -- references made since the allocation; and no other index is in any of them.
  pub Reachable-HasOneOwner : (w : World D) → Reachable driver w → HasOneOwner w.queue w.refs
  Reachable-HasOneOwner w r = (Reachable-IsValid w r).one_owner
