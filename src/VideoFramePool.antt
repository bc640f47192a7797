-- ===== src/VideoFramePool.antt =====
-- components/VideoFramePool.cpp: the requests of the class VideoFramePool, its two threads and the
-- tasks posted between them. The block pool is a parameter by its answers. A frame is a number. The
-- back-off counters are static variables of getVideoFrameTask, which all pools of the process share:
-- the task takes them and gives them back. Destroying a
-- pool drops its state: its weak pointers cancel what is still posted.
pub mod Outstanding
use android_external_v4l2_co.Prelude.{
  ℕ, zero, suc, ◌+◌, ◌-◌, ◌*◌, Bool, true, false, ◌&&◌, Option, none, some, List, [], ◌∷◌, ◌++◌,
  min, if◌then◌else◌, Checked, fault, done,
}

-- What fetchGraphicBlock answers: C2_TIMED_OUT or C2_BLOCKING, a block with what
-- getBufferIdFromGraphicBlock and VideoFrame::Create make of it, or another error.
pub data Fetched : Type 0 where
  busy : Fetched
  block : Option ℕ → Option ℕ → Fetched
  failed : Fetched

pub record FrameWithBlockId : Type 0 where
  pub frame : ℕ
  pub block_id : ℕ

abbrev pub fetch_retry_delay_init : ℕ
fetch_retry_delay_init = 64

abbrev pub fetch_retry_delay_max : ℕ
fetch_retry_delay_max = 16384

pub record VideoFramePool : Type 0 where
  -- Whether mOutputCb is set.
  pub output_cb : Bool
  -- The calls of getVideoFrameTask that are posted to the fetch thread, at once or delayed.
  pub fetch_tasks : ℕ
  -- The calls of getVideoFrameTaskThunk that the block pool keeps.
  pub notified : ℕ
  -- The calls of onVideoFrameReady that are posted to the client and not cancelled.
  pub ready_tasks : List (Option FrameWithBlockId)

-- sDelay and sNumRetries
pub record BackOff : Type 0 where
  pub delay : ℕ
  pub num_retries : ℕ

abbrev pub initial_back_off : BackOff
initial_back_off = record { delay = fetch_retry_delay_init; num_retries = 0 }

abbrev pub new_pool : VideoFramePool
new_pool = record { output_cb = false; fetch_tasks = 0; notified = 0; ready_tasks = [] }

-- getVideoFrame
unfoldable pub get_video_frame : VideoFramePool → VideoFramePool × Bool
get_video_frame p =
    if p.output_cb
    then (p, false)
    else (record p { output_cb = true; fetch_tasks = p.fetch_tasks + 1 }, true)

-- getVideoFrameTaskThunk, when the block pool calls it.
unfoldable pub get_video_frame_task_thunk : VideoFramePool → VideoFramePool
get_video_frame_task_thunk p = record p {
  notified = p.notified - 1;
  fetch_tasks = p.fetch_tasks + 1;
}

-- The pair that the client gets.
unfoldable pub frame_of : Fetched → Option FrameWithBlockId
frame_of busy = none
frame_of (block (some id) (some frame)) = some (record { frame = frame; block_id = id })
frame_of (block none frame) = none
frame_of (block id none) = none
frame_of failed = none

-- The branch of getVideoFrameTask for a pool that is busy. The Boolean is the answer of
-- setNotifyBlockAvailableCb.
unfoldable pub retry : Bool → BackOff → VideoFramePool → BackOff × VideoFramePool
retry notifies b p = if notifies then (b, record p { notified = p.notified + 1 }) else (
  record { delay = min (b.delay * 2) fetch_retry_delay_max; num_retries = b.num_retries + 1 },
  record p { fetch_tasks = p.fetch_tasks + 1 },
)

unfoldable pub post_ready : Option FrameWithBlockId → VideoFramePool → VideoFramePool
post_ready frame p = record p { ready_tasks = p.ready_tasks ++ (frame ∷ []) }

-- getVideoFrameTask, one of the posted calls.
unfoldable pub get_video_frame_task :
    Fetched → Bool → BackOff → VideoFramePool → BackOff × VideoFramePool
unfolding retry post_ready frame_of
get_video_frame_task answer notifies b p =
    let t = record p { fetch_tasks = p.fetch_tasks - 1 } in
    elim answer [
      | busy ↦ retry notifies b t
      | block id frame ↦ (initial_back_off, post_ready (frame_of (block id frame)) t)
      | failed ↦ (initial_back_off, post_ready none t)
    ]

-- onVideoFrameReady with the calls that stay posted. Without a frame the weak pointers are
-- invalidated. The callback is gone, and its argument is what it was given.
unfoldable pub on_video_frame_ready :
    Option FrameWithBlockId
    → List (Option FrameWithBlockId)
    → VideoFramePool
    → Checked (VideoFramePool × Option FrameWithBlockId)
on_video_frame_ready frame rest p =
    let t = record p {
      output_cb = false;
      ready_tasks = elim frame [ none ↦ [] | some f ↦ rest ];
    } in
    if p.output_cb then done (t, frame) else fault
