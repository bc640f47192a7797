-- ===== src/Decoder/Start.antt =====
-- start and setupInputFormat of V4L2Decoder. The calls that only open and ask the device are
-- parameters. The pixel format of the codec, which VideoCodecToV4L2PixFmt gives, is an argument.
use android_external_v4l2_co.Prelude.{
  ℕ, Bool, true, false, none, List, [], ◌∷◌, ◌==◌, if◌then◌else◌,
}
use android_external_v4l2_co.Queue.{Queue, streamon, allocate_buffers}
use android_external_v4l2_co.Decoder.{
  idle, decoding, draining, error, Decoder, Device, set_state, put_device,
}
use android_external_v4l2_co.Decoder.Flush.{start_polling}

-- kNumInputBuffers
abbrev pub num_input_buffers : ℕ
num_input_buffers = 4

-- What start asks of the device besides; a Boolean answer is whether the call succeeded.
pub record Opening (D : Type 0) : Type 0 where
  -- V4L2Device::open for a pixel format.
  pub open_device : D → ℕ → D × Bool
  -- Whether it is a streaming device for memory to memory.
  pub is_capable : D → Bool
  -- VIDIOC_TRY_DECODER_CMD with V4L2_DEC_CMD_STOP
  pub try_stop : D → D × Bool
  -- VIDIOC_SUBSCRIBE_EVENT for a change of the source
  pub subscribe : D → D × Bool
  -- Whether getQueue gives both queues.
  pub has_queues : D → Bool
  -- enumerateSupportedPixelformats and V4L2Queue::setFormat of the input queue.
  pub input_formats : D → List ℕ
  pub set_input_format : D → ℕ → ℕ → D × Bool

-- A queue as getQueue makes it.
abbrev pub new_queue : {D : Type 0} → D → Queue D
new_queue d = record {
  device = d;
  is_streaming = false;
  allocated = 0;
  free_buffers = none;
  list = 0;
  queued_buffers = [];
  poll_scheduled = false;
}

abbrev pub new_decoder : {D : Type 0} → D → Decoder D
new_decoder d = record {
  state = idle;
  decode_requests = [];
  pending_decode_cbs = [];
  drain_cb = none;
  input_queue = new_queue d;
  output_queue = new_queue d;
  frame_at_device = [];
  block_id_to_v4l2_id = [];
  video_frame_pool = none;
  coded_size = record { width = 0; height = 0 };
  min_num_output_buffers = 0;
  is_polling = false;
  outputs = [];
  called = [];
  errors = 0;
}

-- std::find among formats.
unfoldable pub is_listed : ℕ → List ℕ → Bool
is_listed f [] = false
is_listed f (g ∷ gs) = if f == g then true else is_listed f gs

module _ {D : Type 0} (device : Device D) (opening : Opening D) where
  -- setupInputFormat from the allocation on.
  unfoldable pub setup_input_buffers : Decoder D → Decoder D × Bool
  setup_input_buffers s =
      let (q, made) = allocate_buffers device.driver num_input_buffers s.input_queue in
      let (r, streaming) = streamon device.driver q in
      if made == 0
      then (record s { input_queue = q }, false)
      else (record s { input_queue = r }, streaming)

  unfoldable pub setup_input_format : ℕ → ℕ → Decoder D → Decoder D × Bool
  unfolding setup_input_buffers is_listed
  setup_input_format pixel_format buffer_size s =
      let (d, set) = opening.set_input_format s.input_queue.device pixel_format buffer_size in
      if is_listed pixel_format (opening.input_formats s.input_queue.device)
      then (if set then setup_input_buffers (put_device d s) else (put_device d s, false))
      else (s, false)

  -- The part of start that opens the device, up to the queues.
  unfoldable pub open_queues : ℕ → Decoder D → Decoder D × Bool
  open_queues pixel_format s =
      let (d, opened) = opening.open_device s.input_queue.device pixel_format in
      let (e, can_stop) = opening.try_stop d in
      let (f, subscribed) = opening.subscribe e in
      if opened
      then if opening.is_capable d
        then if can_stop
          then if subscribed
            then (put_device f s, opening.has_queues f)
            else (put_device f s, false)
          else (put_device e s, false)
        else (put_device d s, false)
      else (put_device d s, false)

  -- The part behind the test of the state.
  unfoldable pub do_start : ℕ → ℕ → Decoder D → Decoder D × Bool
  unfolding open_queues setup_input_format start_polling set_state
  do_start pixel_format buffer_size s =
      let (t, opened) = open_queues pixel_format s in
      let (u, set) = setup_input_format pixel_format buffer_size t in
      let (w, polling) = start_polling device u in
      if opened
      then if set then if polling then (set_state idle w, true) else (w, false) else (u, false)
      else (t, false)

  unfoldable pub start : ℕ → ℕ → ℕ → Decoder D → Decoder D × Bool
  unfolding do_start
  start pixel_format buffer_size min_num_output_buffers s =
      let t = record s { min_num_output_buffers = min_num_output_buffers } in
      elim s.state [
        | error ↦ (t, false)
        | idle ↦ do_start pixel_format buffer_size t
        | decoding ↦ do_start pixel_format buffer_size t
        | draining ↦ do_start pixel_format buffer_size t
      ]
