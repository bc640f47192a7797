-- ===== src/Queue.antt =====
-- common/V4L2Device.cpp: V4L2BuffersList, the references to its buffers, and V4L2Queue.
-- The driver is a parameter: a state and the answers of its ioctls. A reference holds the index of
-- its buffer and the list that it goes back to; the lists are numbered as they are made, so that a
-- reference that outlives deallocateBuffers goes back to a list that nobody reads.
-- `std::set` is a list in ascending order. What a buffer's planes hold is not modelled.
pub mod Sets
pub mod Owners
pub mod OwnersDriver
pub mod Allocation
pub mod Generation
pub mod Steps
pub mod Counts
pub mod Answers
use android_external_v4l2_co.Prelude.{
  ℕ, zero, suc, ◌+◌, Bool, true, false, not, ◌||◌, Option, none, some, List, [], ◌∷◌, ◌==◌,
  if◌then◌else◌, length, Checked, fault, done,
}
use Sets.{insert, erase, contains}

-- What VIDIOC_DQBUF answers: a buffer, EAGAIN or EPIPE, or another error.
pub data Dequeued : Type 0 where
  dequeued : ℕ → Dequeued
  try_again : Dequeued
  failed : Dequeued

-- The driver's state moves with every call. A Boolean answer is whether the call succeeded.
pub record Driver (D : Type 0) : Type 0 where
  pub qbuf : D → ℕ → D × Bool
  pub dqbuf : D → D × Dequeued
  pub stream_on : D → D × Bool
  pub stream_off : D → D × Bool
  pub g_fmt : D → D × Bool
  -- The number of buffers granted.
  pub reqbufs : D → ℕ → D × Option ℕ
  pub querybuf : D → ℕ → D × Bool

pub record BufferRef : Type 0 where
  pub index : ℕ
  pub list : ℕ

pub record Queue (D : Type 0) : Type 0 where
  pub device : D
  pub is_streaming : Bool
  -- mBuffers.size()
  pub allocated : ℕ
  -- mFreeBuffers, and which of the lists made so far it is
  pub free_buffers : Option (List ℕ)
  pub list : ℕ
  pub queued_buffers : List ℕ
  -- Whether the poller was asked to poll the device.
  pub poll_scheduled : Bool

module _ {D : Type 0} where
  abbrev pub make_ref : Queue D → ℕ → BufferRef
  make_ref q i = record { index = i; list = q.list }

  take_front : Queue D → List ℕ → Option (BufferRef × Queue D)
  take_front q [] = none
  take_front q (i ∷ rest) = some (make_ref q i, record q { free_buffers = some rest })

  -- V4L2BuffersList::getFreeBuffer behind V4L2Queue::getFreeBuffer: the least free index.
  unfoldable pub get_free_buffer : Queue D → Option (BufferRef × Queue D)
  unfolding take_front
  get_free_buffer q = elim q.free_buffers [ none ↦ none | some l ↦ take_front q l ]

  -- The same with a requested index.
  unfoldable pub get_free_buffer_at : ℕ → Queue D → Option (BufferRef × Queue D)
  get_free_buffer_at i q = elim q.free_buffers [
    | none ↦ none
    | some l ↦
        if contains i l
        then some (make_ref q i, record q { free_buffers = some (erase i l) })
        else none
  ]

  -- V4L2BuffersList::returnBuffer to the queue's list. A second return of an index changes nothing.
  unfoldable pub return_buffer : ℕ → Queue D → Queue D
  return_buffer i q = elim q.free_buffers [
    | none ↦ q
    | some l ↦ record q { free_buffers = some (insert i l) }
  ]

  -- The weak pointer of a reference is good as long as its list is the queue's.
  unfoldable pub is_current : BufferRef → Queue D → Bool
  is_current r q = elim q.free_buffers [ none ↦ false | some l ↦ r.list == q.list ]

  -- ~V4L2BufferRefBase of a reference that was not queued.
  unfoldable pub drop_ref : BufferRef → Queue D → Queue D
  unfolding is_current return_buffer
  drop_ref r q = if is_current r q then return_buffer r.index q else q

  -- V4L2Device::schedulePoll
  abbrev pub schedule_poll : Queue D → Queue D
  schedule_poll q = record q { poll_scheduled = true }

  -- V4L2Queue::streamoff gives the queued buffers back one by one.
  unfoldable pub return_all : List ℕ → Queue D → Queue D
  unfolding return_buffer
  return_all [] q = q
  return_all (i ∷ is) q = return_all is (return_buffer i q)

  -- The end of dequeueBuffer: an index that is not queued is erased through an end iterator.
  unfoldable pub give_ref : Queue D → ℕ → Checked (Queue D × Bool × Option BufferRef)
  give_ref q i =
      let rest = erase i q.queued_buffers in
      let t = record q { queued_buffers = rest } in
      if contains i q.queued_buffers
      then done (if length rest == 0 then t else schedule_poll t, true, some (make_ref q i))
      else fault

  -- What dequeueBuffer makes of the answer of VIDIOC_DQBUF.
  unfoldable pub dequeue_answer : Queue D → Dequeued → Checked (Queue D × Bool × Option BufferRef)
  dequeue_answer q try_again = done (schedule_poll q, true, none)
  dequeue_answer q failed = done (q, false, none)
  dequeue_answer q (dequeued i) = give_ref q i

module _ {D : Type 0} (driver : Driver D) where
  -- V4L2Queue::queueBuffer
  unfoldable pub queue_buffer : ℕ → Queue D → Queue D × Bool
  queue_buffer i q =
      let (d, success) = driver.qbuf q.device i in
      let q' = record q { device = d } in
      if not success
      then (q', false)
      else if contains i q.queued_buffers
      then (q', false)
      else (schedule_poll (record q' { queued_buffers = insert i q.queued_buffers }), true)

  -- V4L2WritableBufferRef::doQueue, with V4L2BufferRefBase::queueBuffer: the reference is gone
  -- afterwards, and its buffer is back in its list unless it was queued.
  unfoldable pub do_queue : BufferRef → Queue D → Queue D × Bool
  do_queue r q =
      let (t, queued) = queue_buffer r.index q in
      if is_current r q
      then (if queued then (t, true) else (drop_ref r t, false))
      else (drop_ref r q, false)

  -- V4L2Queue::dequeueBuffer: whether it succeeded, and the buffer.
  unfoldable pub dequeue_buffer : Queue D → Checked (Queue D × Bool × Option BufferRef)
  dequeue_buffer q =
      let (d, answer) = driver.dqbuf q.device in
      if length q.queued_buffers == 0 || not q.is_streaming
      then done (q, true, none)
      else dequeue_answer (record q { device = d }) answer

  -- V4L2Queue::streamon
  unfoldable pub streamon : Queue D → Queue D × Bool
  streamon q =
      let (d, success) = driver.stream_on q.device in
      if q.is_streaming
      then (q, true)
      else if success
      then (record q { device = d; is_streaming = true }, true)
      else (record q { device = d }, false)

  -- V4L2Queue::streamoff
  unfoldable pub streamoff : Queue D → Queue D × Bool
  unfolding return_all
  streamoff q =
      let (d, success) = driver.stream_off q.device in
      let q' = record q { device = d } in
      if success
      then (
        record (return_all q.queued_buffers q') { queued_buffers = []; is_streaming = false },
        true,
      )
      else (q', false)

  -- V4L2Queue::deallocateBuffers
  unfoldable pub deallocate_buffers : Queue D → Queue D × Bool
  deallocate_buffers q =
      let (d, granted) = driver.reqbufs q.device 0 in
      if q.is_streaming then (q, false) else if q.allocated == 0 then (q, true) else (
        record q { device = d; allocated = 0; free_buffers = none },
        elim granted [ none ↦ false | some n ↦ true ],
      )

  -- The loop of allocateBuffers, with the buffers that are still to be queried.
  unfoldable pub query_buffers : ℕ → Queue D → Queue D × ℕ
  unfolding deallocate_buffers return_buffer
  query_buffers zero q = (q, q.allocated)
  query_buffers (suc n) q =
      let (d, success) = driver.querybuf q.device q.allocated in
      let q' = record q { device = d } in
      let next = return_buffer q.allocated (record q' { allocated = suc q.allocated }) in
      let rest = query_buffers n next in if success then rest else ((deallocate_buffers q').0, 0)

  -- V4L2Queue::allocateBuffers, where the source asserts that there is no list of free buffers and
  -- no queued buffer: the number of buffers, or 0.
  unfoldable pub allocate_buffers : ℕ → Queue D → Queue D × ℕ
  unfolding query_buffers
  allocate_buffers count q =
      let (d, format) = driver.g_fmt q.device in
      let (e, granted) = driver.reqbufs d count in
      if q.is_streaming || not (q.allocated == 0) || count == 0
      then (q, 0)
      else if not format
      then (record q { device = d }, 0)
      else elim granted [
        | none ↦ (record q { device = e }, 0)
        | some n ↦
            query_buffers n (record q { device = e; free_buffers = some []; list = suc q.list })
      ]
