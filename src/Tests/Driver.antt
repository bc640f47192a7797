-- ===== src/Tests/Driver.antt =====
-- A driver that answers every call, and queues to try.
use android_external_v4l2_co.Prelude.{
  ℕ, ◌==◌, if◌then◌else◌, Bool, true, false, Option, some, List, [], ◌∷◌, ◌++◌,
}
use android_external_v4l2_co.Queue.{Driver, Dequeued, dequeued, try_again, Queue, BufferRef}

-- The first buffer queued is the first one answered.
abbrev answer : List ℕ → List ℕ × Dequeued
answer [] = ([], try_again)
answer (i ∷ is) = (is, dequeued i)

-- The driver's state is the queued buffers. Querying the buffer `bad` fails.
abbrev pub failing_at : ℕ → Driver (List ℕ)
failing_at bad = record {
  qbuf = λ d i. (d ++ (i ∷ []), true);
  dqbuf = answer;
  stream_on = λ d. (d, true);
  stream_off = λ d. ([], true);
  g_fmt = λ d. (d, true);
  reqbufs = λ d n. (d, some n);
  querybuf = λ d i. (d, if i == bad then false else true);
}

abbrev pub simple : Driver (List ℕ)
simple = failing_at 1000

abbrev pub queue : Bool → ℕ → Option (List ℕ) → List ℕ → Queue (List ℕ)
queue is_streaming allocated free queued = record {
  device = queued;
  is_streaming = is_streaming;
  allocated = allocated;
  free_buffers = free;
  list = 1;
  queued_buffers = queued;
  poll_scheduled = false;
}

abbrev pub ref : ℕ → BufferRef
ref i = record { index = i; list = 1 }
