-- ===== src/Decoder/Output.antt =====
-- The output side of V4L2Decoder: fetching a frame, giving it to the device, and taking it back.
use android_external_v4l2_co.Prelude.{
  ℕ, Option, none, some, List, [], ◌∷◌, ltb, ◌==◌, if◌then◌else◌, length,
}
use android_external_v4l2_co.VideoFramePool.{VideoFramePool, FrameWithBlockId, get_video_frame}
use android_external_v4l2_co.Queue.{Queue, BufferRef, get_free_buffer_at, do_queue}
use android_external_v4l2_co.Decoder.{Decoder, Device, on_error, output, put_output}

-- std::map::find.
unfoldable pub find_key : ℕ → List (ℕ × ℕ) → Option ℕ
find_key k [] = none
find_key k ((i, v) ∷ kvs) = if k == i then some v else find_key k kvs

-- std::map::erase of what `find` gave.
unfoldable pub erase_key : ℕ → List (ℕ × ℕ) → List (ℕ × ℕ)
erase_key k [] = []
erase_key k ((i, v) ∷ kvs) = if k == i then kvs else (i, v) ∷ erase_key k kvs

-- freeBuffersCount, where no list counts as empty.
abbrev pub free_buffers_count : {D : Type 0} → Queue D → ℕ
free_buffers_count q = elim q.free_buffers [ none ↦ 0 | some l ↦ length l ]

module _ {D : Type 0} where
  -- The calls on the pool at the end of tryFetchVideoFrame.
  unfoldable pub request_frame : VideoFramePool → Decoder D → Decoder D
  request_frame pool s = record s { video_frame_pool = some (get_video_frame pool).0 }

  unfoldable pub try_fetch_video_frame : Decoder D → Decoder D
  unfolding on_error request_frame
  try_fetch_video_frame s = elim s.video_frame_pool [
    | none ↦ on_error s
    | some pool ↦ if free_buffers_count s.output_queue == 0 then s else request_frame pool s
  ]

  -- The choice of onVideoFrameReady: the index for the block, and the map with it.
  unfoldable pub index_of_block : ℕ → Decoder D → Option (ℕ × List (ℕ × ℕ))
  index_of_block block_id s =
      let ids = s.block_id_to_v4l2_id in
      elim (find_key block_id ids) [
        | some index ↦ some (index, ids)
        | none ↦
            if ltb (length ids) s.output_queue.allocated
            then some (length ids, (block_id, length ids) ∷ ids)
            else none
      ]

module _ {D : Type 0} (device : Device D) where
  -- The part of onVideoFrameReady that has the buffer, with the queue it was taken from.
  unfoldable pub queue_frame : ℕ → BufferRef → Queue D → Decoder D → Decoder D
  unfolding on_error try_fetch_video_frame
  queue_frame frame buffer q s =
      let (queue, queued) = do_queue device.output_driver buffer q in
      let t = put_output queue s in
      if queued
      then elim (find_key buffer.index s.frame_at_device) [
        | some old ↦ on_error t
        | none ↦
            try_fetch_video_frame
              (record t { frame_at_device = (buffer.index, frame) ∷ s.frame_at_device })
      ]
      else on_error t

  unfoldable pub place_frame : ℕ → ℕ → Decoder D → Decoder D
  unfolding on_error queue_frame
  place_frame frame index s = elim (get_free_buffer_at index (output s)) [
    | none ↦ on_error s
    | some (buffer, q) ↦ queue_frame frame buffer q s
  ]

  unfoldable pub on_video_frame_ready : Option FrameWithBlockId → Decoder D → Decoder D
  unfolding on_error index_of_block place_frame
  on_video_frame_ready none s = on_error s
  on_video_frame_ready (some f) s = elim (index_of_block f.block_id s) [
    | none ↦ on_error s
    | some (index, ids) ↦ place_frame f.frame index (record s { block_id_to_v4l2_id = ids })
  ]
