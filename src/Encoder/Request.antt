-- ===== src/Encoder/Request.antt =====
-- handleEncodeRequest of V4L2Encoder, with the buffers that it gives to the device.
use android_external_v4l2_co.Prelude.{
  ℕ, zero, suc, ◌+◌, ◌-◌, ◌%◌, Bool, true, false, not, none, some, List, [], ◌∷◌, ◌==◌,
  if◌then◌else◌,
}
use android_external_v4l2_co.Queue.{get_free_buffer, drop_ref, do_queue, streamon}
use android_external_v4l2_co.Decoder.Output.{erase_key}
use android_external_v4l2_co.Encoder.{
  waiting_for_input_frame, waiting_for_v4l2_buffer, EncodeRequest, Encoder, EncoderDevice, is_error,
  free_buffers_count, set_state, on_error, post, output, put_output, put_device,
  handle_drain_request, start_device_poll,
}

-- Assigning a pointer of mInputBuffers or mOutputBuffers.
abbrev pub assign : ℕ → ℕ → List (ℕ × ℕ) → List (ℕ × ℕ)
assign i v m = (i, v) ∷ erase_key i m

module _ {D : Type 0} (device : EncoderDevice D) where
  unfoldable pub enqueue_input_buffer : ℕ → Encoder D → Encoder D × Bool
  unfolding on_error
  enqueue_input_buffer frame s = elim (get_free_buffer s.input_queue) [
    | none ↦ (s, false)
    | some (buffer, q) ↦
        let (queue, queued) = do_queue device.driver buffer q in
        let t = record s { input_queue = queue } in
        if queued
        then (record t { input_buffers = assign buffer.index frame s.input_buffers }, true)
        else (on_error t, false)
  ]

  unfoldable pub enqueue_output_buffer : Encoder D → Encoder D × Bool
  unfolding on_error
  enqueue_output_buffer s = elim (get_free_buffer (output s)) [
    | none ↦ (on_error s, false)
    | some (buffer, q) ↦
        let (d, fetched) = device.fetch_output_buffer q.device in
        elim fetched [
          | none ↦ (on_error (put_output (drop_ref buffer (record q { device = d })) s), false)
          | some (bitstream, size) ↦
              let (queue, queued) =
                do_queue device.output_driver buffer (record q { device = d }) in
              let t = put_output queue s in
              if queued
              then (
                record t { output_buffers = assign buffer.index bitstream s.output_buffers },
                true,
              )
              else (on_error t, false)
        ]
  ]

  -- The loop over the free output buffers, which has one less in each round; whether it ended.
  unfoldable pub fill_output : ℕ → Encoder D → Encoder D × Bool
  unfolding enqueue_output_buffer
  fill_output zero s = (s, true)
  fill_output (suc n) s =
      let (t, queued) = enqueue_output_buffer s in
      let more = fill_output n t in
      if free_buffers_count s.output_queue == 0
      then (s, true)
      else if queued
      then more
      else (t, false)

  -- Starting to stream and to poll; whether handleEncodeRequest goes on.
  unfoldable pub start_streaming : Encoder D → Encoder D × Bool
  unfolding on_error start_device_poll
  start_streaming s =
      let (out, output_on) = streamon device.output_driver (output s) in
      let t = put_output out s in
      let (inp, input_on) = streamon device.driver t.input_queue in
      let u = record t { input_queue = inp } in
      if s.input_queue.is_streaming
      then (s, true)
      else if not output_on
      then (on_error t, false)
      else if input_on
      then ((start_device_poll device u).0, true)
      else (on_error u, false)

  -- The end of handleEncodeRequest.
  unfoldable pub finish_request : Bool → Encoder D → Encoder D
  unfolding set_state handle_drain_request
  finish_request end_of_stream s =
      if end_of_stream
      then handle_drain_request device s
      else elim s.encode_requests [ [] ↦ set_state waiting_for_input_frame s | r ∷ rs ↦ post s ]

  -- From the popped request on.
  unfoldable pub stream_request : Bool → Encoder D → Encoder D
  unfolding start_streaming fill_output finish_request
  stream_request end_of_stream s =
      let (t, streams) = start_streaming s in
      let (u, filled) = fill_output (free_buffers_count t.output_queue) t in
      if not streams then t else if filled then finish_request end_of_stream u else u

  -- From the counter of key frames on, at the front of the requests.
  unfoldable pub send_request : EncodeRequest → List EncodeRequest → Encoder D → Encoder D
  unfolding enqueue_input_buffer stream_request on_error
  send_request r rest s =
      let t = record s { key_frame_counter = (s.key_frame_counter + 1) % s.key_frame_period } in
      let (u, queued) = enqueue_input_buffer r.video_frame t in
      if queued
      then stream_request r.end_of_stream (record u { encode_requests = rest })
      else on_error u

  -- From the test of the free buffers on.
  unfoldable pub encode_front : EncodeRequest → List EncodeRequest → Encoder D → Encoder D
  unfolding send_request set_state on_error
  encode_front r rest s =
      let (d, forced) = device.force_key_frame s.input_queue.device in
      if free_buffers_count s.input_queue == 0
      then set_state waiting_for_v4l2_buffer s
      else if not (s.key_frame_counter == 0)
      then send_request r rest s
      else if forced
      then send_request r rest (put_device d s)
      else on_error (put_device d s)

  -- From the test of the requests on.
  unfoldable pub next_request : List EncodeRequest → Encoder D → Encoder D
  unfolding encode_front
  next_request [] s = s
  next_request (r ∷ rest) s = encode_front r rest s

  -- handleEncodeRequest, one of the posted calls.
  unfoldable pub handle_encode_request : Encoder D → Encoder D
  unfolding next_request is_error
  handle_encode_request s =
      let t = record s { posted = s.posted - 1 } in
      if is_error s.state then t else next_request s.encode_requests t
