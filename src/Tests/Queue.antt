-- ===== src/Tests/Queue.antt =====
-- A queue of two buffers.
use android_external_v4l2_co.Prelude.{
  ℕ, ◌≡◌, refl, true, false, none, some, List, [], ◌∷◌, arith, ltb, if◌then◌else◌,
}
use android_external_v4l2_co.Queue.{
  Queue, get_free_buffer, is_current, allocate_buffers, query_buffers, return_buffer, do_queue,
}
use android_external_v4l2_co.Queue.Sets.{insert, contains, count}
use android_external_v4l2_co.Queue.Owners.{HasOneOwner}
use android_external_v4l2_co.Queue.Steps.{
  world, Reachable, created, step, takes, queues, allocates, Reachable-HasOneOwner,
}
use android_external_v4l2_co.Queue.Answers.{
  do_queue_answer, allocate_buffers_lem, allocate_buffers_leftover,
}
use android_external_v4l2_co.Tests.Driver.{failing_at, simple, queue, ref}

abbrev unallocated : Queue (List ℕ)
unallocated = queue false 0 none []

-- Two buffers are made, and the first is taken and queued.
abbrev filled : Queue (List ℕ)
filled = record (queue false 2 (some (1 ∷ [])) []) { list = 2 }

two_made :
    (allocate_buffers simple 2 unallocated).0
    ≡ record (queue false 2 (some (0 ∷ 1 ∷ [])) []) { list = 2 }
unfolding allocate_buffers query_buffers return_buffer insert
two_made = refl

taken :
    get_free_buffer (allocate_buffers simple 2 unallocated).0
    ≡ some (record { index = 0; list = 2 }, filled)
unfolding get_free_buffer allocate_buffers query_buffers return_buffer insert
taken = refl

reached : Reachable simple (world (do_queue simple (record { index = 0; list = 2 }) filled).0 [])
reached =
    step _ _
      (step _ _ (step _ _ (created unallocated refl refl) (allocates 2 unallocated [] refl refl)) (
        takes (allocate_buffers simple 2 unallocated).0 filled [] (record { index = 0; list = 2 })
          taken))
      (queues filled [] [] (record { index = 0; list = 2 }))

Reachable-HasOneOwner_example :
    HasOneOwner (do_queue simple (record { index = 0; list = 2 }) filled).0 []
Reachable-HasOneOwner_example = Reachable-HasOneOwner simple _ reached

do_queue_answer_example :
    let t = do_queue simple (ref 0) (queue true 2 (some (1 ∷ [])) []) in
    (t.1 ≡ true) × (contains 0 t.0.queued_buffers ≡ t.1)
unfolding is_current
do_queue_answer_example =
    do_queue_answer simple (queue true 2 (some (1 ∷ [])) []) [] [] (ref 0) (λ i. ground arith) refl

allocate_buffers_lem_example :
    let t = (allocate_buffers simple 2 unallocated).0 in
    ((simple.reqbufs (simple.g_fmt unallocated.device).0 2).1 ≡ some 2)
    × (t.allocated ≡ 2)
    × (m : List ℕ) × (t.free_buffers ≡ some m)
    × ((i : ℕ) → count i m ≡ (if ltb i 2 then 1 else 0))
unfolding allocate_buffers query_buffers
allocate_buffers_lem_example = allocate_buffers_lem simple 2 2 unallocated refl (λ e. ground arith)

allocate_buffers_leftover_example :
    let t = allocate_buffers (failing_at 0) 2 unallocated in
    (t.1 ≡ 0) × (t.0.free_buffers ≡ some []) × (t.0.device ≡ [])
allocate_buffers_leftover_example =
    allocate_buffers_leftover (failing_at 0) 2 1 unallocated refl refl (omega arith) refl refl refl
