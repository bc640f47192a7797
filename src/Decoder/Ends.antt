-- ===== src/Decoder/Ends.antt =====
-- serviceDeviceTask ends, if the device gives back finitely many buffers.
use android_external_v4l2_co.Prelude.{
  ℕ, ◌≤◌, ◌<◌, ◌≡◌, ◌≢◌, refl, ◌⊎◌, inl, inr, Bool, true, not, ◌||◌, none, some, arith, ◌==◌,
  length, subst, sym, Bool-cases, Option-cases, Checked, fault, out_of_fuel, done,
}
use android_external_v4l2_co.Queue.{
  Queue, BufferRef, Driver, Dequeued, dequeued, try_again, failed, get_free_buffer_at, drop_ref,
  return_buffer, queue_buffer, do_queue, give_ref, dequeue_answer, dequeue_buffer,
}
use android_external_v4l2_co.Decoder.{
  Decoder, Device, DequeuedInfo, on_error, output, set_state, call,
}
use android_external_v4l2_co.Decoder.Service.{
  Served, went_on, returned, frame_missing, slot_missing, finish_drain, recycle, give_output,
  take_back,
}

-- The device gives back finitely many buffers of the output queue, whatever it is given meanwhile.
pub record IsFinite {D : Type 0} (device : Device D) : Type 0 where
  pub left : D → ℕ
  pub gives_less :
      (d : D) (i : ℕ)
      → (device.output_driver.dqbuf d).1 ≡ dequeued i
      → left (device.output_driver.dqbuf d).0 < left d
  pub qbuf_le : (d : D) (i : ℕ) → left (device.output_driver.qbuf d i).0 ≤ left d
  pub input_dqbuf_le : (d : D) → left (device.driver.dqbuf d).0 ≤ left d
  pub start_le : (d : D) → left (device.decoder_cmd d true).0 ≤ left d

module _ {D : Type 0} where
  dequeue_answer-device :
      (q t : Queue D) (answer : Dequeued) (ok : Bool) (r : BufferRef)
      → dequeue_answer q answer ≡ done (t, ok, some r)
      → (i : ℕ) × (answer ≡ dequeued i) × (t.device ≡ q.device)
  unfolding dequeue_answer give_ref
  dequeue_answer-device q t (dequeued i) ok r e = (i, refl, ground arith)
  dequeue_answer-device q t try_again ok r e = absurd (ground arith)
  dequeue_answer-device q t failed ok r e = absurd (ground arith)

  dequeue_answer_returns : (q : Queue D) (answer : Dequeued) → dequeue_answer q answer ≢ out_of_fuel
  unfolding dequeue_answer give_ref
  dequeue_answer_returns q (dequeued i) e = absurd (ground arith)
  dequeue_answer_returns q try_again e = absurd (ground arith)
  dequeue_answer_returns q failed e = absurd (ground arith)

  dequeue_answer-none-device :
      (q t : Queue D) (answer : Dequeued) (ok : Bool)
      → dequeue_answer q answer ≡ done (t, ok, none)
      → t.device ≡ q.device
  unfolding dequeue_answer give_ref
  dequeue_answer-none-device q t (dequeued i) ok e = absurd (ground arith)
  dequeue_answer-none-device q t try_again ok e = ground arith
  dequeue_answer-none-device q t failed ok e = ground arith

module _ {D : Type 0} (driver : Driver D) where
  pub dequeue_buffer-device :
      (q t : Queue D) (ok : Bool) (r : BufferRef)
      → dequeue_buffer driver q ≡ done (t, ok, some r)
      → (i : ℕ) × ((driver.dqbuf q.device).1 ≡ dequeued i) × (t.device ≡ (driver.dqbuf q.device).0)
  unfolding dequeue_buffer
  dequeue_buffer-device q t ok r e =
      dequeue_answer-device (record q { device = (driver.dqbuf q.device).0 }) t
        (driver.dqbuf q.device).1 ok r (ground arith)

  pub dequeue_buffer-none-device :
      (q t : Queue D) (ok : Bool)
      → dequeue_buffer driver q ≡ done (t, ok, none)
      → (t.device ≡ q.device) ⊎ (t.device ≡ (driver.dqbuf q.device).0)
  unfolding dequeue_buffer
  dequeue_buffer-none-device q t ok e =
      elim (Bool-cases (length q.queued_buffers == 0 || not q.is_streaming)) [
        | inl idle ↦ inl (ground arith)
        | inr busy ↦ inr (
            dequeue_answer-none-device (record q { device = (driver.dqbuf q.device).0 }) t
              (driver.dqbuf q.device).1 ok (ground arith))
      ]

  pub dequeue_buffer_returns : (q : Queue D) → dequeue_buffer driver q ≢ out_of_fuel
  unfolding dequeue_buffer
  dequeue_buffer_returns q e =
      dequeue_answer_returns (record q { device = (driver.dqbuf q.device).0 })
        (driver.dqbuf q.device).1 (ground arith)

  do_queue-device :
      (r : BufferRef) (q : Queue D)
      → ((do_queue driver r q).0.device ≡ q.device)
        ⊎ ((do_queue driver r q).0.device ≡ (driver.qbuf q.device r.index).0)
  unfolding do_queue queue_buffer drop_ref return_buffer
  do_queue-device r q = ground arith

get_free_buffer_at-device :
    {D : Type 0} (n : ℕ) (q t : Queue D) (r : BufferRef)
    → get_free_buffer_at n q ≡ some (r, t)
    → t.device ≡ q.device
unfolding get_free_buffer_at
get_free_buffer_at-device n q t r e = ground arith

-- A loop ends, and when it goes on the device has at most so many buffers to give back.
abbrev pub EndsWithin : {D : Type 0} → (D → ℕ) → ℕ → Checked (Served D) → Type 0
EndsWithin left n fault = Unit {0}
EndsWithin left n out_of_fuel = ⊥
EndsWithin left n (done (went_on s b)) = left s.input_queue.device ≤ n
EndsWithin left n (done (returned s)) = Unit {0}
EndsWithin left n (done frame_missing) = Unit {0}
EndsWithin left n (done slot_missing) = Unit {0}

module _ {D : Type 0} (device : Device D) (finite : IsFinite device) where
  pub EndsWithin-same :
      (n : ℕ) (a b : Checked (Served D))
      → a ≡ b
      → EndsWithin finite.left n b
      → EndsWithin finite.left n a
  EndsWithin-same n a b e v = subst (λ u. EndsWithin finite.left n u) (sym e) v

  recycle_le :
      (index frame : ℕ) (s u : Decoder D) (ok : Bool)
      → recycle device index frame s ≡ some (u, ok)
      → finite.left u.input_queue.device ≤ finite.left s.input_queue.device
  unfolding recycle on_error set_state
  recycle_le index frame s u ok e = elim (Option-cases (get_free_buffer_at index (output s))) [
    | inl n ↦ absurd (ground arith)
    | inr ((r, q), n) ↦ ground (
      arith,
      get_free_buffer_at-device index (output s) q r n,
      do_queue-device device.output_driver r q,
      finite.qbuf_le s.input_queue.device r.index,
    )
  ]

  pub take_back_le :
      (index frame : ℕ) (info : DequeuedInfo) (s u : Decoder D) (ok : Bool)
      → take_back device index frame info s ≡ some (u, ok)
      → finite.left u.input_queue.device ≤ finite.left s.input_queue.device
  unfolding take_back give_output
  take_back_le index frame info s u ok e = ground (arith, recycle_le index frame s u ok)

  pub finish_drain_le :
      (last : Bool) (s : Decoder D)
      → finite.left (finish_drain device last s).input_queue.device
        ≤ finite.left s.input_queue.device
  unfolding finish_drain set_state call
  finish_drain_le last s = ground (arith, finite.start_le s.input_queue.device)
