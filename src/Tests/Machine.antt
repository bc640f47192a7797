-- ===== src/Tests/Machine.antt =====
-- A device with an input queue, an output queue, and a number of buffers and events to give.
use android_external_v4l2_co.Prelude.{
  ℕ, zero, suc, ◌<◌, ◌≡◌, refl, Bool, true, false, Option, none, some, List, [], ◌∷◌, ◌++◌, arith,
}
use android_external_v4l2_co.Fourcc.{nv12, to_v4l2_pix_fmt}
use android_external_v4l2_co.Queue.{Driver, Dequeued, dequeued, try_again}
use android_external_v4l2_co.Decoder.{Device}
use android_external_v4l2_co.Decoder.Start.{Opening}
use android_external_v4l2_co.Decoder.Ends.{IsFinite}

pub record Machine : Type 0 where
  pub input : List ℕ
  pub output : List ℕ
  -- How many buffers of the output queue it still gives back.
  pub left : ℕ
  pub events : ℕ

abbrev pub answer_input : List ℕ → Machine → Machine × Dequeued
answer_input [] m = (m, try_again)
answer_input (i ∷ is) m = (record m { input = is }, dequeued i)

abbrev pub answer_output : ℕ → List ℕ → Machine → Machine × Dequeued
answer_output zero is m = (m, try_again)
answer_output (suc n) [] m = (m, try_again)
answer_output (suc n) (i ∷ is) m = (record m { output = is; left = n }, dequeued i)

abbrev event : ℕ → Machine → Machine × Option Bool
event zero m = (m, none)
event (suc n) m = (record m { events = n }, some true)

-- The ioctls that are the same for both queues.
abbrev pub input_driver : Driver Machine
input_driver = record {
  qbuf = λ m i. (record m { input = m.input ++ (i ∷ []) }, true);
  dqbuf = λ m. answer_input m.input m;
  stream_on = λ m. (m, true);
  stream_off = λ m. (record m { input = [] }, true);
  g_fmt = λ m. (m, true);
  reqbufs = λ m n. (m, some n);
  querybuf = λ m i. (m, true);
}

abbrev pub output_driver : Driver Machine
output_driver = record {
  qbuf = λ m i. (record m { output = m.output ++ (i ∷ []) }, true);
  dqbuf = λ m. answer_output m.left m.output m;
  stream_on = λ m. (m, true);
  stream_off = λ m. (record m { output = [] }, true);
  g_fmt = λ m. (m, true);
  reqbufs = λ m n. (m, some n);
  querybuf = λ m i. (m, true);
}

pub event_less :
    (n : ℕ) (m : Machine) (change : Bool)
    → m.events ≡ n
    → (event n m).1 ≡ some change
    → (event n m).0.events < m.events
event_less zero m change e h = absurd (ground arith)
event_less (suc n) m change e h = ground arith

abbrev pub machine : Device Machine
machine = record {
  driver = input_driver;
  output_driver = output_driver;
  decoder_cmd = λ m start. (m, true);
  plane_size = 4096;
  input_id = λ m. 7;
  output_info = λ m. record { bitstream_id = 7; bytes_used = 100; is_last = false };
  dqevent = λ m. event m.events m;
  events_left = λ m. m.events;
  dqevent_less = λ m change h. event_less m.events m change refl h;
  g_fmt = λ m. (m, some (record { width = 320; height = 180 }));
  min_buffers = λ m. (m, some 1);
  formats = λ m. to_v4l2_pix_fmt nv12 ∷ [];
  set_format = λ m f size. (m, true);
  poller = record {
    start_thread = λ m. (m, true);
    set_poll_interrupt = λ m. (m, true);
    clear_poll_interrupt = λ m. (m, true);
  };
  get_pool = λ size n. true;
}

abbrev pub opening : Opening Machine
opening = record {
  open_device = λ m f. (m, true);
  is_capable = λ m. true;
  try_stop = λ m. (m, true);
  subscribe = λ m. (m, true);
  has_queues = λ m. true;
  input_formats = λ m. 5 ∷ [];
  set_input_format = λ m f n. (m, true);
}

answer_output_less :
    (n i : ℕ) (is : List ℕ) (m : Machine)
    → m.left ≡ n
    → (answer_output n is m).1 ≡ dequeued i
    → (answer_output n is m).0.left < m.left
answer_output_less zero i is m e h = absurd (ground arith)
answer_output_less (suc n) i [] m e h = absurd (ground arith)
answer_output_less (suc n) i (j ∷ is) m e h = ground arith

answer_input_left : (is : List ℕ) (m : Machine) → (answer_input is m).0.left ≡ m.left
answer_input_left [] m = refl
answer_input_left (i ∷ is) m = refl

-- The device gives back as many buffers as it has left.
abbrev finite_machine : IsFinite machine
finite_machine = record {
  left = λ m. m.left;
  gives_less = λ m i h. answer_output_less m.left i m.output m refl h;
  qbuf_le = λ m i. omega arith;
  input_dqbuf_le = λ m. omega (arith, answer_input_left m.input m);
  start_le = λ m. omega arith;
}

abbrev pub at_rest : Machine
at_rest = record { input = []; output = []; left = 1; events = 1 }
