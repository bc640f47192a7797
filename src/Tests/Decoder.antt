-- ===== src/Tests/Decoder.antt =====
-- A decoder with two free input buffers.
use android_external_v4l2_co.Prelude.{
  ℕ, ◌+◌, ◌≡◌, ◌≢◌, refl, true, false, none, some, List, [], ◌∷◌, arith, length, ◌==◌,
}
use android_external_v4l2_co.Queue.{Queue, get_free_buffer, do_queue, queue_buffer, is_current}
use android_external_v4l2_co.Queue.Sets.{contains, insert}
use android_external_v4l2_co.Decoder.{
  State, idle, decoding, BitstreamBuffer, DecodeRequest, Decoder, Device, next_state, insert_cb,
  set_state, start_drain, pump_requests, pump_decode_request, push_request, decode,
}
use android_external_v4l2_co.Decoder.Callbacks.{one_if, uses}
use android_external_v4l2_co.Decoder.Pump.{IsStalled, pump_decode_request-IsStalled}
use android_external_v4l2_co.Decoder.Once.{first_drain, decode-uses, pump_decode_request-draining}
use android_external_v4l2_co.Tests.Driver.{simple, queue}

-- It gives back no output, has no events and no output format.
abbrev device : Device (List ℕ)
device = record {
  driver = simple;
  output_driver = simple;
  decoder_cmd = λ d start. (d, true);
  plane_size = 4096;
  input_id = λ d. 7;
  output_info = λ d. record { bitstream_id = 7; bytes_used = 0; is_last = false };
  dqevent = λ d. (d, none);
  events_left = λ d. 0;
  dqevent_less = λ d change e. absurd (ground arith);
  g_fmt = λ d. (d, none);
  min_buffers = λ d. (d, none);
  formats = λ d. [];
  set_format = λ d f size. (d, true);
  poller = record {
    start_thread = λ d. (d, true);
    set_poll_interrupt = λ d. (d, true);
    clear_poll_interrupt = λ d. (d, true);
  };
  get_pool = λ size n. true;
}

abbrev buffer : ℕ → BitstreamBuffer
buffer id = record { id = id; offset = 0; size = 100 }

abbrev decoder : State → List DecodeRequest → List (ℕ × ℕ) → Queue (List ℕ) → Decoder (List ℕ)
decoder state requests pending input = record {
  state = state;
  decode_requests = requests;
  pending_decode_cbs = pending;
  drain_cb = none;
  input_queue = input;
  output_queue = queue false 0 none [];
  frame_at_device = [];
  block_id_to_v4l2_id = [];
  video_frame_pool = none;
  coded_size = record { width = 0; height = 0 };
  min_num_output_buffers = 0;
  is_polling = true;
  outputs = [];
  called = [];
  errors = 0;
}

abbrev fresh : Decoder (List ℕ)
fresh = decoder idle [] [] (queue true 2 (some (0 ∷ 1 ∷ [])) [])

decode-uses_example :
    uses 11 (decode device (buffer 7) 11 fresh) ≡ uses 11 fresh + one_if (11 == 11)
unfolding decode push_request pump_decode_request pump_requests set_state next_state get_free_buffer
    do_queue queue_buffer is_current contains
decode-uses_example =
    decode-uses device 11 11 (buffer 7) fresh refl (λ i. ground arith) (λ e. ground arith)

-- Three buffers for two input buffers.
abbrev data_request : ℕ → DecodeRequest
data_request id = record { buffer = some (buffer id); decode_cb = 10 + id }

abbrev drain_request : DecodeRequest
drain_request = record { buffer = none; decode_cb = 20 }

abbrev waiting : Decoder (List ℕ)
waiting =
    decoder decoding (data_request 1 ∷ data_request 2 ∷ data_request 3 ∷ []) []
      (queue true 2 (some (0 ∷ 1 ∷ [])) [])

pump_decode_request-IsStalled_example :
    IsStalled
      (pump_decode_request device waiting).decode_requests
      (pump_decode_request device waiting)
unfolding pump_decode_request pump_requests get_free_buffer do_queue queue_buffer is_current
    contains insert insert_cb
pump_decode_request-IsStalled_example = pump_decode_request-IsStalled device waiting refl refl

abbrev ending : Decoder (List ℕ)
ending = decoder decoding (drain_request ∷ []) [] (queue true 2 (some (0 ∷ 1 ∷ [])) [])

pump_decode_request-draining_example :
    (length (pump_decode_request device ending).input_queue.queued_buffers ≡ 0)
    × ((pump_decode_request device ending).drain_cb ≡ first_drain ending.decode_requests)
    × (first_drain ending.decode_requests ≢ none)
unfolding pump_decode_request pump_requests start_drain set_state next_state
pump_decode_request-draining_example = pump_decode_request-draining device ending refl refl
