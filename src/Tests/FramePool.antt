-- ===== src/Tests/FramePool.antt =====
-- Two pools, of which the one was asked once, and was busy once, before the other one was made.
use android_external_v4l2_co.Prelude.{◌≡◌, refl, false}
use android_external_v4l2_co.VideoFramePool.{
  VideoFramePool, BackOff, initial_back_off, busy, new_pool, get_video_frame, get_video_frame_task,
  retry,
}

abbrev asked : VideoFramePool
asked = (get_video_frame new_pool).0

abbrev was_busy : VideoFramePool
was_busy = (get_video_frame_task busy false initial_back_off asked).1

abbrev backed_off : BackOff
backed_off = (get_video_frame_task busy false initial_back_off asked).0

-- The delay outlives the pool that was busy.
is_longer : backed_off.delay ≡ 128
unfolding get_video_frame_task retry
is_longer = refl
