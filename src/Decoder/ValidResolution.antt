-- ===== src/Decoder/ValidResolution.antt =====
-- The change of resolution keeps a V4L2Decoder valid.
use android_external_v4l2_co.Prelude.{
  ℕ, ◌+◌, ◌≡◌, true, ◌||◌, none, some, List, [], ◌∷◌, arith, max, ◌==◌, inl, inr, ◌∙◌, Bool-cases,
  Option-cases,
}
use android_external_v4l2_co.PixelFormat.Tables.{Size}
use android_external_v4l2_co.VideoFramePool.{new_pool}
use android_external_v4l2_co.VideoFramePool.Outstanding.{new_pool-IsValid}
use android_external_v4l2_co.Fourcc.{nv12, to_v4l2_pix_fmt}
use android_external_v4l2_co.Queue.{streamon, streamoff, deallocate_buffers}
use android_external_v4l2_co.Queue.OwnersDriver.{streamon-HasOneOwner, streamoff-HasOneOwner}
use android_external_v4l2_co.Queue.Allocation.{
  deallocate_buffers-HasOneOwner, allocate_buffers-HasOneOwner,
}
use android_external_v4l2_co.Queue.Counts.{
  streamoff-queued, streamon-queued, deallocate_buffers-queued, allocate_buffers-queued,
}
use android_external_v4l2_co.Decoder.{Decoder, Device, output, put_output, put_device}
use android_external_v4l2_co.Decoder.Output.{try_fetch_video_frame}
use android_external_v4l2_co.Decoder.Resolution.{
  setup_output_format, reallocate, replace_pool, change_buffers, change_format, change_resolution,
}
use android_external_v4l2_co.Decoder.Valid.{IsValid, IsValid-same, try_fetch_video_frame-IsValid}

module _ {D : Type 0} {g : ℕ → ℕ} where
  pub put_device-IsValid : (d : D) (s : Decoder D) → IsValid g s → IsValid g (put_device d s)
  put_device-IsValid d s v = record {
    input_owner = v.input_owner;
    output_owner = v.output_owner;
    frames = v.frames;
    drain = v.drain;
    pool = v.pool;
    used = v.used;
  }

module _ {D : Type 0} {g : ℕ → ℕ} (device : Device D)
    (stops : (d : D) → (device.output_driver.stream_off d).1 ≡ true) where
  -- The output queue with no buffer at the device.
  pub stopped-IsValid :
      (s : Decoder D) (m : List (ℕ × ℕ))
      → IsValid g s
      → IsValid g (record (put_output (streamoff device.output_driver (output s)).0 s) {
        frame_at_device = [];
        block_id_to_v4l2_id = m;
      })
  stopped-IsValid s m v = record {
    input_owner = v.input_owner;
    output_owner = streamoff-HasOneOwner device.output_driver (output s) [] v.output_owner;
    frames = λ i.
        ground
          (arith, streamoff-queued device.output_driver (output s) (stops s.input_queue.device));
    drain = v.drain;
    pool = v.pool;
    used = v.used;
  }

  reallocate-IsValid : (n : ℕ) (s : Decoder D) → IsValid g s → IsValid g (reallocate device n s).0
  unfolding reallocate
  reallocate-IsValid n s v =
      let drv = device.output_driver in
      let stopped = (streamoff drv (output s)).0 in
      let freed = (deallocate_buffers drv stopped).0 in
      let nothing = streamoff-queued drv (output s) (stops s.input_queue.device) in
      let still = deallocate_buffers-queued drv stopped ∙ nothing in
      let o = streamoff-HasOneOwner drv (output s) [] v.output_owner in
      let p = deallocate_buffers-HasOneOwner drv stopped [] nothing o in
      record {
        input_owner = v.input_owner;
        output_owner = allocate_buffers-HasOneOwner drv n freed [] tt still p;
        frames = λ i. ground (arith, allocate_buffers-queued drv n freed, still);
        drain = v.drain;
        pool = v.pool;
        used = v.used;
      }

  replace_pool-IsValid :
      (n : ℕ) (s : Decoder D) → IsValid g s → IsValid g (replace_pool device n s).0
  unfolding replace_pool
  replace_pool-IsValid n s v =
      let with_none = record s { video_frame_pool = none } in
      let with_new = record s { video_frame_pool = some new_pool } in
      elim (Bool-cases (device.get_pool s.coded_size n)) [
        | inl g ↦ IsValid-same {t = try_fetch_video_frame with_new} (ground arith) (
            try_fetch_video_frame-IsValid with_new (record {
              input_owner = v.input_owner;
              output_owner = v.output_owner;
              frames = v.frames;
              drain = v.drain;
              pool = new_pool-IsValid;
              used = v.used;
            }))
        | inr g ↦ IsValid-same {t = with_none} (ground arith) (record {
          input_owner = v.input_owner;
          output_owner = v.output_owner;
          frames = v.frames;
          drain = v.drain;
          pool = tt;
          used = v.used;
        })
      ]

  pub streamon_output-IsValid :
      (s : Decoder D)
      → IsValid g s
      → IsValid g (put_output (streamon device.output_driver (output s)).0 s)
  streamon_output-IsValid s v = record {
    input_owner = v.input_owner;
    output_owner = streamon-HasOneOwner device.output_driver (output s) [] v.output_owner;
    frames = λ i. ground (arith, v.frames i, streamon-queued device.output_driver (output s));
    drain = v.drain;
    pool = v.pool;
    used = v.used;
  }

  change_buffers-IsValid :
      (n : ℕ) (s : Decoder D) → IsValid g s → IsValid g (change_buffers device n s).0
  unfolding change_buffers
  change_buffers-IsValid n s v =
      let t = (reallocate device n s).0 in
      let made = (reallocate device n s).1 in
      let u = put_output (streamon device.output_driver (output t)).0 t in
      let vt = reallocate-IsValid n s v in
      let vu = streamon_output-IsValid t vt in
      elim (Bool-cases (s.coded_size.width == 0 || s.coded_size.height == 0)) [
        | inl e ↦ IsValid-same {t = s} (ground arith) v
        | inr e ↦ elim (Bool-cases (made == 0)) [
          | inl z ↦ IsValid-same {t = t} (ground arith) vt
          | inr z ↦ elim (Bool-cases (streamon device.output_driver (output t)).1) [
            | inl k ↦
                IsValid-same {t = (replace_pool device made u).0} (ground arith)
                  (replace_pool-IsValid made u vu)
            | inr k ↦ IsValid-same {t = u} (ground arith) vu
          ]
        ]
      ]

  setup_output_format-IsValid :
      (size : Size) (fs : List ℕ) (s : Decoder D)
      → IsValid g s
      → IsValid g (setup_output_format device size fs s).0
  unfolding setup_output_format
  setup_output_format-IsValid size [] s v = v
  setup_output_format-IsValid size (f ∷ fs) s v =
      let (d, success) = device.set_format s.input_queue.device f size in
      let skip = setup_output_format-IsValid size fs s v in
      let next = setup_output_format-IsValid size fs (put_device d s) (put_device-IsValid d s v) in
      elim (Bool-cases (f == to_v4l2_pix_fmt nv12)) [
        | inr e ↦ IsValid-same {t = (setup_output_format device size fs s).0} (ground arith) skip
        | inl e ↦ elim (Bool-cases (device.set_format s.input_queue.device f size).1) [
          | inl k ↦ IsValid-same {t = put_device d s} (ground arith) (put_device-IsValid d s v)
          | inr k ↦
              IsValid-same {t = (setup_output_format device size fs (put_device d s)).0}
                (ground arith) next
        ]
      ]

  change_format-IsValid :
      (size : Size) (n : ℕ) (s : Decoder D)
      → IsValid g s
      → IsValid g (change_format device size n s).0
  unfolding change_format
  change_format-IsValid size n s v =
      let fs = device.formats s.input_queue.device in
      let t = (setup_output_format device size fs s).0 in
      let vt = setup_output_format-IsValid size fs s v in
      let u = put_device (device.g_fmt t.input_queue.device).0 t in
      let vu = put_device-IsValid (device.g_fmt t.input_queue.device).0 t vt in
      elim (Bool-cases (setup_output_format device size fs s).1) [
        | inr k ↦ IsValid-same {t = t} (ground arith) vt
        | inl k ↦ elim (Option-cases (device.g_fmt t.input_queue.device).1) [
          | inl g ↦ IsValid-same {t = u} (ground arith) vu
          | inr (c, g) ↦
              let w = record u { coded_size = c } in
              IsValid-same {t = (change_buffers device n w).0} (ground arith) (
                change_buffers-IsValid n w (record {
                  input_owner = vu.input_owner;
                  output_owner = vu.output_owner;
                  frames = vu.frames;
                  drain = vu.drain;
                  pool = vu.pool;
                  used = vu.used;
                }))
        ]
      ]

  pub change_resolution-IsValid :
      (s : Decoder D) → IsValid g s → IsValid g (change_resolution device s).0
  unfolding change_resolution
  change_resolution-IsValid s v =
      let f = device.g_fmt s.input_queue.device in
      let c = device.min_buffers f.0 in
      let t = put_device c.0 s in
      let vt = put_device-IsValid c.0 s v in
      elim (Option-cases f.1) [
        | inl g ↦ IsValid-same {t = t} (ground arith) vt
        | inr (size, g) ↦ elim (Option-cases c.1) [
          | inl h ↦ IsValid-same {t = t} (ground arith) vt
          | inr (n, h) ↦
              let k = max (n + 4) s.min_num_output_buffers in
              IsValid-same {t = (change_format device size k t).0} (ground arith)
                (change_format-IsValid size k t vt)
        ]
      ]
