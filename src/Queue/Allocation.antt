-- ===== src/Queue/Allocation.antt =====
-- Who owns each buffer, after V4L2Queue's allocateBuffers and deallocateBuffers.
use android_external_v4l2_co.Prelude.{
  ℕ, zero, suc, ◌≤◌, ◌≡◌, refl, ◌∙◌, some, List, [], ◌∷◌, arith, ◌==◌, inl, inr, Bool-cases,
  Option-cases,
}
use android_external_v4l2_co.Queue.{
  Queue, BufferRef, Driver, return_buffer, deallocate_buffers, query_buffers, allocate_buffers,
}
use android_external_v4l2_co.Queue.Owners.{held, HasOneOwner}
use android_external_v4l2_co.Queue.Sets.{insert, count-insert}

-- The references come from lists that were made so far.
abbrev pub AreOld : ℕ → List BufferRef → Type 0
AreOld list [] = Unit {0}
AreOld list (r ∷ rs) = (r.list ≤ list) × AreOld list rs

-- No reference comes from a list that is still to be made.
held_fresh : (list i : ℕ) (rs : List BufferRef) → AreOld list rs → held (suc list) i rs ≡ 0
held_fresh list i [] o = refl
held_fresh list i (r ∷ rs) o = ground (arith, held_fresh list i rs o.1)

module _ {D : Type 0} (driver : Driver D) where
  pub deallocate_buffers-HasOneOwner :
      (q : Queue D) (refs : List BufferRef)
      → q.queued_buffers ≡ []
      → HasOneOwner q refs
      → HasOneOwner (deallocate_buffers driver q).0 refs
  unfolding deallocate_buffers
  deallocate_buffers-HasOneOwner q refs n v i = ground (arith, v i)

  -- One more buffer, which goes to the list of free buffers.
  grow-HasOneOwner :
      (q : Queue D) (l : List ℕ) (refs : List BufferRef)
      → q.free_buffers ≡ some l
      → HasOneOwner q refs
      → HasOneOwner (return_buffer q.allocated (record q { allocated = suc q.allocated })) refs
  unfolding return_buffer
  grow-HasOneOwner q l refs f v i = ground (arith, v i, v q.allocated, count-insert q.allocated i l)

  abbrev next : Queue D → Queue D
  next q =
      return_buffer q.allocated (record q {
        device = (driver.querybuf q.device q.allocated).0;
        allocated = suc q.allocated;
      })

  next_free :
      (q : Queue D) (l : List ℕ)
      → q.free_buffers ≡ some l
      → (next q).free_buffers ≡ some (insert q.allocated l)
  unfolding return_buffer
  next_free q l f = ground arith

  next_queued :
      (q : Queue D) (l : List ℕ)
      → q.free_buffers ≡ some l
      → (next q).queued_buffers ≡ q.queued_buffers
  unfolding return_buffer
  next_queued q l f = ground arith

  query_buffers-HasOneOwner :
      (n : ℕ) (q : Queue D) (l : List ℕ) (refs : List BufferRef)
      → q.free_buffers ≡ some l
      → q.queued_buffers ≡ []
      → HasOneOwner q refs
      → HasOneOwner (query_buffers driver n q).0 refs
  unfolding query_buffers
  query_buffers-HasOneOwner zero q l refs f e v i = v i
  query_buffers-HasOneOwner (suc n) q l refs f e v i =
      let q' = record q { device = (driver.querybuf q.device q.allocated).0 } in
      ground (
        arith,
        deallocate_buffers-HasOneOwner q' refs e v i,
        query_buffers-HasOneOwner n (next q) (insert q.allocated l) refs (next_free q l f)
            (next_queued q l f ∙ e) (grow-HasOneOwner q' l refs f v) i,
      )

  -- An empty new list, before the first buffer is made.
  fresh-HasOneOwner :
      (q : Queue D) (e : D) (refs : List BufferRef)
      → AreOld q.list refs
      → q.allocated ≡ 0
      → q.queued_buffers ≡ []
      → HasOneOwner (record q { device = e; free_buffers = some []; list = suc q.list }) refs
  fresh-HasOneOwner q e refs o a n i = ground (arith, held_fresh q.list i refs o)

  pub allocate_buffers-HasOneOwner :
      (n : ℕ) (q : Queue D) (refs : List BufferRef)
      → AreOld q.list refs
      → q.queued_buffers ≡ []
      → HasOneOwner q refs
      → HasOneOwner (allocate_buffers driver n q).0 refs
  unfolding allocate_buffers
  allocate_buffers-HasOneOwner n q refs o e v i =
      let d = driver.g_fmt q.device in
      let r = driver.reqbufs d.0 n in
      elim (Bool-cases (q.allocated == 0)) [
        | inl z ↦ elim (Option-cases r.1) [
          | inl g ↦ ground (arith, v i)
          | inr (k, g) ↦ ground (
            arith,
            v i,
            query_buffers-HasOneOwner k
                (record q { device = r.0; free_buffers = some []; list = suc q.list }) [] refs refl
                e (fresh-HasOneOwner q r.0 refs o (ground arith) e) i,
          )
        ]
        | inr z ↦ ground (arith, v i)
      ]
