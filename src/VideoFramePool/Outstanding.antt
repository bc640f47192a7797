-- ===== src/VideoFramePool/Outstanding.antt =====
-- Each request of a VideoFramePool is answered once, and its delays are bounded.
use android_external_v4l2_co.Prelude.{
  ℕ, ◌+◌, ◌-◌, ◌*◌, ◌^◌, ◌<◌, ◌≡◌, refl, ◌++◌, Bool, false, Option, none, some, List, [], ◌∷◌, min,
  arith, length, length-append, if◌then◌else◌, done,
}
use android_external_v4l2_co.VideoFramePool.{
  Fetched, busy, block, failed, FrameWithBlockId, VideoFramePool, BackOff, initial_back_off,
  new_pool, get_video_frame, get_video_frame_task_thunk, retry, post_ready, get_video_frame_task,
  on_video_frame_ready,
}

abbrev pub outstanding : VideoFramePool → ℕ
outstanding p = p.fetch_tasks + p.notified + length p.ready_tasks

-- What is posted is the one answer that a waiting client will get.
pub record IsValid (p : VideoFramePool) : Type 0 where
  pub one_answer : outstanding p ≡ (if p.output_cb then 1 else 0)

-- The delay doubles with every retry up to its maximum.
pub record IsBackOff (b : BackOff) : Type 0 where
  pub doubled : b.delay ≡ min (64 * 2 ^ b.num_retries) 16384

-- A call of the client, or a posted task that runs.
pub data Step : VideoFramePool → VideoFramePool → Type 0 where
  requests : (p : VideoFramePool) → Step p (get_video_frame p).0
  fetches :
      (answer : Fetched) (notifies : Bool) (b : BackOff) (p : VideoFramePool)
      → 0 < p.fetch_tasks
      → Step p (get_video_frame_task answer notifies b p).1
  notices : (p : VideoFramePool) → 0 < p.notified → Step p (get_video_frame_task_thunk p)
  answers :
      (frame : Option FrameWithBlockId) (rest : List (Option FrameWithBlockId))
      (p q : VideoFramePool)
      → p.ready_tasks ≡ frame ∷ rest
      → on_video_frame_ready frame rest p ≡ done (q, frame)
      → Step p q

-- A fetch task that is taken from the thread posts one answer in its place.
post_ready-IsValid :
    (frame : Option FrameWithBlockId) (p : VideoFramePool)
    → outstanding p + 1 ≡ (if p.output_cb then 1 else 0)
    → IsValid (post_ready frame p)
unfolding post_ready
post_ready-IsValid frame p h = record {
  one_answer = omega (arith, length-append p.ready_tasks (frame ∷ []));
}

retry-IsValid :
    (notifies : Bool) (b : BackOff) (p : VideoFramePool)
    → outstanding p + 1 ≡ (if p.output_cb then 1 else 0)
    → IsValid (retry notifies b p).1
unfolding retry
retry-IsValid notifies b p h = record { one_answer = ground arith }

task-IsValid :
    (answer : Fetched) (notifies : Bool) (b : BackOff) (p : VideoFramePool)
    → 0 < p.fetch_tasks
    → IsValid p
    → IsValid (get_video_frame_task answer notifies b p).1
unfolding get_video_frame_task
task-IsValid busy notifies b p h v =
    retry-IsValid notifies b (record p { fetch_tasks = p.fetch_tasks - 1 })
      (omega (arith, v.one_answer))
task-IsValid (block id frame) notifies b p h v =
    post_ready-IsValid _ (record p { fetch_tasks = p.fetch_tasks - 1 })
      (omega (arith, v.one_answer))
task-IsValid failed notifies b p h v =
    post_ready-IsValid none (record p { fetch_tasks = p.fetch_tasks - 1 })
      (omega (arith, v.one_answer))

pub step-IsValid : (p q : VideoFramePool) → Step p q → IsValid p → IsValid q
unfolding get_video_frame get_video_frame_task_thunk on_video_frame_ready
step-IsValid _ _ (requests p) v = record { one_answer = ground (arith, v.one_answer) }
step-IsValid _ _ (fetches answer notifies b p h) v = task-IsValid answer notifies b p h v
step-IsValid _ _ (notices p h) v = record { one_answer = ground (arith, v.one_answer) }
step-IsValid _ _ (answers frame rest p q e d) v = record {
  one_answer = ground (arith, v.one_answer);
}

-- The pools of a process, which are made, used and destroyed in any order. A call that fetches is a
-- step of its own, since it changes the back-off of them all.
pub data Reachable : BackOff → List VideoFramePool → Type 0 where
  begun : Reachable initial_back_off []
  created :
      (b : BackOff) (pools : List VideoFramePool)
      → Reachable b pools
      → Reachable b (new_pool ∷ pools)
  destroyed :
      (b : BackOff) (before after : List VideoFramePool) (p : VideoFramePool)
      → Reachable b (before ++ (p ∷ after))
      → Reachable b (before ++ after)
  fetched :
      (answer : Fetched) (notifies : Bool) (b : BackOff) (before after : List VideoFramePool)
      (p : VideoFramePool)
      → Reachable b (before ++ (p ∷ after))
      → 0 < p.fetch_tasks
      → Reachable
          (get_video_frame_task answer notifies b p).0
          (before ++ ((get_video_frame_task answer notifies b p).1 ∷ after))
  stepped :
      (b : BackOff) (before after : List VideoFramePool) (p q : VideoFramePool)
      → Reachable b (before ++ (p ∷ after))
      → Step p q
      → Reachable b (before ++ (q ∷ after))

abbrev AreValid : List VideoFramePool → Type 0
AreValid [] = Unit {0}
AreValid (p ∷ pools) = IsValid p × AreValid pools

pub new_pool-IsValid : IsValid new_pool
new_pool-IsValid = record { one_answer = refl }

pub on_video_frame_ready_lem :
    (p : VideoFramePool) (frame : Option FrameWithBlockId) (rest : List (Option FrameWithBlockId))
    → IsValid p
    → p.ready_tasks ≡ frame ∷ rest
    → (q : VideoFramePool) × (on_video_frame_ready frame rest p ≡ done (q, frame))
      × (q.output_cb ≡ false)
      × (outstanding q ≡ 0)
unfolding on_video_frame_ready
on_video_frame_ready_lem p frame rest v e = (
  record p { output_cb = false; ready_tasks = elim frame [ none ↦ [] | some f ↦ rest ] },
  ground (arith, v.one_answer),
  refl,
  ground (arith, v.one_answer),
)
