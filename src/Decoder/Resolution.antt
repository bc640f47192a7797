-- ===== src/Decoder/Resolution.antt =====
-- The change of resolution of V4L2Decoder. mVisibleRect is not modelled; getVisibleRect only asks the
-- device. The loop over the pending events takes as many rounds as there are events, and one more.
use android_external_v4l2_co.Prelude.{
  ℕ, zero, suc, ◌+◌, Bool, true, false, ◌||◌, none, some, List, [], ◌∷◌, max, ◌==◌, if◌then◌else◌,
  Checked, out_of_fuel, done,
}
use android_external_v4l2_co.PixelFormat.Tables.{Size}
use android_external_v4l2_co.Fourcc.{nv12, to_v4l2_pix_fmt}
use android_external_v4l2_co.VideoFramePool.{new_pool}
use android_external_v4l2_co.Queue.{streamon, streamoff, deallocate_buffers, allocate_buffers}
use android_external_v4l2_co.Decoder.{Decoder, Device, output, put_output, put_device}
use android_external_v4l2_co.Decoder.Output.{try_fetch_video_frame}

abbrev pub num_extra_output_buffers : ℕ
num_extra_output_buffers = 4

module _ {D : Type 0} (device : Device D) where
  unfoldable pub dequeue_resolution_change_event : ℕ → Decoder D → Checked (Decoder D × Bool)
  dequeue_resolution_change_event zero s = out_of_fuel
  dequeue_resolution_change_event (suc n) s =
      let (d, event) = device.dqevent s.input_queue.device in
      elim event [
        | none ↦ done (put_device d s, false)
        | some change ↦ elim change [
          | true ↦ done (put_device d s, true)
          | false ↦ dequeue_resolution_change_event n (put_device d s)
        ]
      ]

  -- The loop of setupOutputFormat. The second test of the source, that the format is among the
  -- supported ones, is the first one again: NV12 is the only one.
  unfoldable pub setup_output_format : Size → List ℕ → Decoder D → Decoder D × Bool
  setup_output_format size [] s = (s, false)
  setup_output_format size (pixfmt ∷ rest) s =
      let (d, success) = device.set_format s.input_queue.device pixfmt size in
      let skip = setup_output_format size rest s in
      let next = setup_output_format size rest (put_device d s) in
      if pixfmt == to_v4l2_pix_fmt nv12
      then (if success then (put_device d s, true) else next)
      else skip

  -- The old buffers of the output queue are gone, and it has the new ones.
  unfoldable pub reallocate : ℕ → Decoder D → Decoder D × ℕ
  reallocate count s =
      let stopped = (streamoff device.output_driver (output s)).0 in
      let freed = (deallocate_buffers device.output_driver stopped).0 in
      let (q, made) = allocate_buffers device.output_driver count freed in
      (record (put_output q s) { frame_at_device = []; block_id_to_v4l2_id = [] }, made)

  -- changeResolution from mGetPoolCb on.
  unfoldable pub replace_pool : ℕ → Decoder D → Decoder D × Bool
  replace_pool made s =
      let without = record s { video_frame_pool = none } in
      if device.get_pool s.coded_size made
      then (try_fetch_video_frame (record s { video_frame_pool = some new_pool }), true)
      else (without, false)

  -- changeResolution from the test of the coded size on.
  unfoldable pub change_buffers : ℕ → Decoder D → Decoder D × Bool
  unfolding reallocate replace_pool
  change_buffers count s =
      let (t, made) = reallocate count s in
      let (q, streaming) = streamon device.output_driver (output t) in
      let u = put_output q t in
      if s.coded_size.width == 0 || s.coded_size.height == 0
      then (s, false)
      else if made == 0
      then (t, false)
      else if streaming
      then replace_pool made u
      else (u, false)

  -- changeResolution from setupOutputFormat on.
  unfoldable pub change_format : Size → ℕ → Decoder D → Decoder D × Bool
  unfolding change_buffers setup_output_format
  change_format size count s =
      let (t, set) = setup_output_format size (device.formats s.input_queue.device) s in
      let (d, adjusted) = device.g_fmt t.input_queue.device in
      let u = put_device d t in
      elim set [
        | false ↦ (t, false)
        | true ↦ elim adjusted [
          | none ↦ (u, false)
          | some coded_size ↦ change_buffers count (record u { coded_size = coded_size })
        ]
      ]

  unfoldable pub change_resolution : Decoder D → Decoder D × Bool
  unfolding change_format
  change_resolution s =
      let (d, format) = device.g_fmt s.input_queue.device in
      let (e, count) = device.min_buffers d in
      let t = put_device e s in
      elim format [
        | none ↦ (t, false)
        | some size ↦ elim count [
          | none ↦ (t, false)
          | some n ↦
              change_format size (max (n + num_extra_output_buffers) s.min_num_output_buffers) t
        ]
      ]
