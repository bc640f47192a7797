-- ===== src/Tests/Encoder.antt =====
-- An encoder that is given a frame, sends it, and is asked to drain.
use android_external_v4l2_co.Prelude.{◌≡◌, ◌<◌, refl, true, false, some, [], ◌∷◌, arith, length}
use android_external_v4l2_co.Poller.{start_poller}
use android_external_v4l2_co.Queue.{
  Queue, get_free_buffer, do_queue, queue_buffer, is_current, streamon,
}
use android_external_v4l2_co.Queue.Sets.{insert, erase, contains}
use android_external_v4l2_co.Decoder.Output.{erase_key}
use android_external_v4l2_co.Encoder.{
  waiting_for_input_frame, encoding, Encoder, EncoderDevice, is_error, is_waiting_for_input_frame,
  set_state, on_error, encode, drain, start_device_poll,
}
use android_external_v4l2_co.Encoder.Request.{
  enqueue_input_buffer, enqueue_output_buffer, fill_output, start_streaming, finish_request,
  stream_request, send_request, encode_front, next_request, handle_encode_request,
}
use android_external_v4l2_co.Encoder.Wakes.{awake}
use android_external_v4l2_co.Encoder.Steps.{
  initialized, moved, encodes, handles, drains, Reachable-awake,
}
use android_external_v4l2_co.Tests.Machine.{Machine, at_rest, input_driver, output_driver}

abbrev device : EncoderDevice Machine
device = record {
  driver = input_driver;
  output_driver = output_driver;
  poller = record {
    start_thread = λ m. (m, true);
    set_poll_interrupt = λ m. (m, true);
    clear_poll_interrupt = λ m. (m, true);
  };
  force_key_frame = λ m. (m, true);
  encoder_cmd = λ m start. (m, true);
  fetch_output_buffer = λ m. (m, some (77, 1000));
  output_info = λ m. record { bytes = []; timestamp = 0; is_key_frame = false; is_last = true };
}

abbrev two_free : Queue Machine
two_free = record {
  device = at_rest;
  is_streaming = false;
  allocated = 2;
  free_buffers = some (0 ∷ 1 ∷ []);
  list = 1;
  queued_buffers = [];
  poll_scheduled = false;
}

abbrev ready : Encoder Machine
ready = record {
  state = waiting_for_input_frame;
  encode_requests = [];
  key_frame_period = 30;
  key_frame_counter = 0;
  inject_params_before_idr = false;
  cached_sps = [];
  cached_pps = [];
  input_queue = two_free;
  output_queue = two_free;
  input_buffers = [];
  output_buffers = [];
  is_polling = false;
  posted = 0;
  inputs_done = [];
  outputs_done = [];
  drains_done = [];
  errors = 0;
}

abbrev asked : Encoder Machine
asked = (encode (some 9) (encode (some 8) ready).0).0

abbrev sent : Encoder Machine
sent = handle_encode_request device asked

abbrev ending : Encoder Machine
ending = drain device sent

is_posted : 0 < asked.posted
unfolding encode is_error is_waiting_for_input_frame set_state
is_posted = omega arith

sends :
    (sent.state ≡ encoding)
    × (length sent.encode_requests ≡ 1)
    × (sent.posted ≡ 1)
    × (sent.input_queue.queued_buffers ≡ 0 ∷ [])
    × (sent.output_queue.queued_buffers ≡ 0 ∷ 1 ∷ [])
unfolding encode is_error is_waiting_for_input_frame set_state handle_encode_request next_request
    encode_front send_request stream_request finish_request start_streaming fill_output
    enqueue_output_buffer enqueue_input_buffer get_free_buffer do_queue queue_buffer is_current
    streamon insert erase contains erase_key start_device_poll start_poller on_error
sends = (refl, refl, refl, refl, refl)

Reachable-awake_example : awake ending.state ending.encode_requests ending.posted ≡ true
Reachable-awake_example = Reachable-awake device ending (
    moved sent ending
      (moved asked sent
        (moved (encode (some 8) ready).0 asked
          (moved ready (encode (some 8) ready).0 (initialized ready refl refl)
            (encodes (some 8) ready))
          (encodes (some 9) (encode (some 8) ready).0))
        (handles asked is_posted))
      (drains sent))
