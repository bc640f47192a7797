-- ===== src/Decoder/Steps.antt =====
-- A V4L2Decoder with its VideoFramePool: the calls of the client, the posted tasks and the poll
-- thread's notices, in any order.
use android_external_v4l2_co.Prelude.{
  ℕ, ◌+◌, ◌≡◌, ◌<◌, Bool, true, false, length, Option, some, List, [], ◌∷◌, ◌==◌, done, subst,
}
use android_external_v4l2_co.VideoFramePool
use android_external_v4l2_co.VideoFramePool.{
  VideoFramePool, BackOff, Fetched, FrameWithBlockId, get_video_frame_task,
  get_video_frame_task_thunk,
}
use android_external_v4l2_co.VideoFramePool.Outstanding.{
  Step, fetches, notices, answers, step-IsValid, on_video_frame_ready_lem,
}
use android_external_v4l2_co.Decoder.{
  Decoder, Device, BitstreamBuffer, on_error, pump_decode_request, decode, drain,
}
use android_external_v4l2_co.Decoder.Callbacks.{one_if}
use android_external_v4l2_co.Decoder.Output.{try_fetch_video_frame, on_video_frame_ready}
use android_external_v4l2_co.Decoder.Service.{went_on, returned}
use android_external_v4l2_co.Decoder.Flush.{flush, service_device_task}
use android_external_v4l2_co.Decoder.Start.{Opening, new_decoder, start}
use android_external_v4l2_co.Decoder.Valid.{
  IsPool, IsValid, on_error-IsValid, try_fetch_video_frame-IsValid, on_video_frame_ready-IsValid,
}
use android_external_v4l2_co.Decoder.ValidService.{IsServed, service_device_task-IsServed}
use android_external_v4l2_co.Decoder.ValidFlush.{flush-IsValid}
use android_external_v4l2_co.Decoder.ValidStart.{start_lem}
use android_external_v4l2_co.Decoder.ValidRequests.{
  pump_decode_request-IsValid, decode-IsValid, drain-IsValid,
}

-- The decoder, and the callbacks that decode and drain were given.
pub record World (D : Type 0) : Type 0 where
  pub decoder : Decoder D
  pub given : List ℕ

abbrev pub world : {D : Type 0} → Decoder D → List ℕ → World D
world s given = record { decoder = s; given = given }

abbrev pub with_pool : {D : Type 0} → VideoFramePool → Decoder D → Decoder D
with_pool p s = record s { video_frame_pool = some p }

module _ {D : Type 0} (device : Device D) where
  -- One call or task. A service of the device is a step when it ends, and not by an assertion.
  pub data Move : World D → World D → Type 0 where
    decodes :
        (s : Decoder D) (given : List ℕ) (b : BitstreamBuffer) (cb : ℕ)
        → Move (world s given) (world (decode device b cb s) (cb ∷ given))
    drains :
        (s : Decoder D) (given : List ℕ) (cb : ℕ)
        → Move (world s given) (world (drain device cb s) (cb ∷ given))
    flushes : (s : Decoder D) (given : List ℕ) → Move (world s given) (world (flush device s) given)
    pumps :
        (s : Decoder D) (given : List ℕ)
        → Move (world s given) (world (pump_decode_request device s) given)
    tries_fetch :
        (s : Decoder D) (given : List ℕ)
        → Move (world s given) (world (try_fetch_video_frame s) given)
    services :
        (s t : Decoder D) (given : List ℕ) (rounds : ℕ) (event dequeued pump fetch : Bool)
        → service_device_task device rounds event s ≡ done (went_on t dequeued, pump, fetch)
        → Move (world s given) (world t given)
    fails_service :
        (s t : Decoder D) (given : List ℕ) (rounds : ℕ) (event pump fetch : Bool)
        → service_device_task device rounds event s ≡ done (returned t, pump, fetch)
        → Move (world s given) (world t given)
    fails_poll : (s : Decoder D) (given : List ℕ) → Move (world s given) (world (on_error s) given)
    pool_fetches :
        (s : Decoder D) (given : List ℕ) (p : VideoFramePool) (answer : Fetched) (notifies : Bool)
        (b : BackOff)
        → s.video_frame_pool ≡ some p
        → 0 < p.fetch_tasks
        → Move
            (world s given)
            (world (with_pool (get_video_frame_task answer notifies b p).1 s) given)
    pool_notices :
        (s : Decoder D) (given : List ℕ) (p : VideoFramePool)
        → s.video_frame_pool ≡ some p
        → 0 < p.notified
        → Move (world s given) (world (with_pool (get_video_frame_task_thunk p) s) given)
    pool_answers :
        (s : Decoder D) (given : List ℕ) (p q : VideoFramePool)
        → (frame : Option FrameWithBlockId) (rest : List (Option FrameWithBlockId))
        → s.video_frame_pool ≡ some p
        → p.ready_tasks ≡ frame ∷ rest
        → VideoFramePool.on_video_frame_ready frame rest p ≡ done (q, frame)
        → Move (world s given) (world (on_video_frame_ready device frame (with_pool q s)) given)

  -- What may follow a start that succeeded.
  pub data Reachable (opening : Opening D) : World D → Type 0 where
    started :
        (d : D) (format size min_buffers : ℕ) (s : Decoder D)
        → start device opening format size min_buffers (new_decoder d) ≡ (s, true)
        → Reachable opening (world s [])
    moved : (w x : World D) → Reachable opening w → Move w x → Reachable opening x

-- How often a callback was given.
abbrev pub times_given : List ℕ → ℕ → ℕ
times_given [] c = 0
times_given (cb ∷ cbs) c = times_given cbs c + one_if (c == cb)

abbrev pub IsSound : {D : Type 0} → World D → Type 0
IsSound w = IsValid (times_given w.given) w.decoder

module _ {D : Type 0} {g : ℕ → ℕ} where
  with_pool-IsValid :
      (p q : VideoFramePool) (s : Decoder D)
      → IsValid g s
      → s.video_frame_pool ≡ some p
      → Step p q
      → IsValid g (with_pool q s)
  with_pool-IsValid p q s v e step = record {
    input_owner = v.input_owner;
    output_owner = v.output_owner;
    frames = v.frames;
    drain = v.drain;
    pool = step-IsValid p q step (subst (λ o. IsPool o) e v.pool);
    used = v.used;
  }

module _ {D : Type 0} (device : Device D)
    (stops : (d : D) → (device.output_driver.stream_off d).1 ≡ true) where
  Move-IsSound : (w x : World D) → Move device w x → IsSound w → IsSound x
  Move-IsSound _ _ (decodes s given b cb) v = decode-IsValid device b cb s v
  Move-IsSound _ _ (drains s given cb) v = drain-IsValid device cb s v
  Move-IsSound _ _ (flushes s given) v = flush-IsValid device stops s v
  Move-IsSound _ _ (pumps s given) v = pump_decode_request-IsValid device s v
  Move-IsSound _ _ (tries_fetch s given) v = try_fetch_video_frame-IsValid s v
  Move-IsSound _ _ (services s t given rounds event dequeued pump fetch e) v =
      subst (λ r. IsServed (times_given given) r) e
        (service_device_task-IsServed (times_given given) device stops rounds event s v)
  Move-IsSound _ _ (fails_service s t given rounds event pump fetch e) v =
      subst (λ r. IsServed (times_given given) r) e
        (service_device_task-IsServed (times_given given) device stops rounds event s v)
  Move-IsSound _ _ (fails_poll s given) v = on_error-IsValid s v
  Move-IsSound _ _ (pool_fetches s given p answer notifies b e h) v =
      with_pool-IsValid p _ s v e (fetches answer notifies b p h)
  Move-IsSound _ _ (pool_notices s given p e h) v = with_pool-IsValid p _ s v e (notices p h)
  Move-IsSound _ _ (pool_answers s given p q frame rest e r a) v =
      on_video_frame_ready-IsValid device frame (with_pool q s)
        (with_pool-IsValid p q s v e (answers frame rest p q r a))

  -- On a device whose VIDIOC_STREAMOFF succeeds, every decoder that start and any calls, tasks and
  -- notices lead to is valid: each buffer of both queues is free or queued at the device, and not
  -- both; the frames at the device are those of the queued output buffers; a drain callback is kept
  -- only while draining or after an error; a pool has one answer on its way if it was asked; and no
  -- callback was called or kept more often than it was given.
  pub Reachable-IsValid :
      (opening : Opening D) (w : World D)
      → Reachable device opening w
      → IsValid (times_given w.given) w.decoder
  Reachable-IsValid opening _ (started d format size n s e) =
      (start_lem device opening format size n d s e).0
  Reachable-IsValid opening x (moved w _ r m) = Move-IsSound w x m (Reachable-IsValid opening w r)

  -- On a device whose VIDIOC_STREAMOFF succeeds, when the pool of a reachable decoder has posted an
  -- answer, the task finds the callback that it runs, with what was posted. The pool is then free
  -- for the next request: it has no callback, and nothing more is on its way.
  pub Reachable-answers :
      (opening : Opening D) (w : World D) (p : VideoFramePool)
      → (frame : Option FrameWithBlockId) (rest : List (Option FrameWithBlockId))
      → Reachable device opening w
      → w.decoder.video_frame_pool ≡ some p
      → p.ready_tasks ≡ frame ∷ rest
      → (q : VideoFramePool) × (VideoFramePool.on_video_frame_ready frame rest p ≡ done (q, frame))
        × (q.output_cb ≡ false)
        × (q.fetch_tasks + q.notified + length q.ready_tasks ≡ 0)
  Reachable-answers opening w p frame rest r e t =
      let v = Reachable-IsValid opening w r in
      on_video_frame_ready_lem p frame rest (subst (λ o. IsPool o) e v.pool) t
