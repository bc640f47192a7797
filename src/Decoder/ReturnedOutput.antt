-- ===== src/Decoder/ReturnedOutput.antt =====
-- The loop of serviceDeviceTask over the output queue keeps a V4L2Decoder valid, and the frames that it
-- looks for are there.
use android_external_v4l2_co.Prelude.{
  ℕ, zero, suc, ◌≡◌, ◌≢◌, Bool, true, false, none, some, [], ◌∷◌, arith, ltb, ◌==◌, length, inl,
  inr, subst, sym, Checked-cases, Bool-cases, Option-cases, Checked, fault, out_of_fuel, done,
}
use android_external_v4l2_co.Queue.{
  Queue, BufferRef, get_free_buffer_at, drop_ref, do_queue, dequeue_buffer,
}
use android_external_v4l2_co.Queue.Owners.{get_free_buffer_at-HasOneOwner, drop_ref-HasOneOwner}
use android_external_v4l2_co.Queue.OwnersDriver.{
  do_queue-HasOneOwner, dequeue_buffer-HasOneOwner, dequeue_buffer-none-HasOneOwner,
}
use android_external_v4l2_co.Queue.Counts.{
  get_free_buffer_at_lem, do_queue-count, drop_ref-queued, get_free_buffer_at-drop_ref,
  dequeue_buffer_ok, dequeue_buffer_lem, dequeue_buffer_none_lem,
}
use android_external_v4l2_co.Decoder.{
  idle, DecodeStatus, Decoder, Device, DequeuedInfo, next_state, set_state, on_error, output,
  put_output, put_device, call,
}
use android_external_v4l2_co.Decoder.Callbacks.{in_called-append, drain_ok-none}
use android_external_v4l2_co.Decoder.Output.{find_key, erase_key}
use android_external_v4l2_co.Decoder.Service.{
  Served, went_on, returned, finish_drain, recycle, give_output, take_back, service_output,
}
use android_external_v4l2_co.Decoder.Valid.{
  IsValid, IsValid-same, on_error-IsValid, find_key-none, pending-erase_key,
}
use android_external_v4l2_co.Decoder.Returned.{IsGood}

module _ {D : Type 0} where
  -- The state after a buffer came back to the output queue and its frame was found.
  abbrev output_back : Queue D → BufferRef → Decoder D → Decoder D
  output_back q r s = record (put_output (drop_ref r q) s) {
    frame_at_device = erase_key r.index s.frame_at_device;
  }

module _ {D : Type 0} (g : ℕ → ℕ) (device : Device D) where
  IsGood-same : {a b : Checked (Served D)} → a ≡ b → IsGood g b → IsGood g a
  IsGood-same e v = subst (λ u. IsGood g u) (sym e) v

  finish_drain-IsValid :
      (last : Bool) (s : Decoder D) → IsValid g s → IsValid g (finish_drain device last s)
  unfolding finish_drain set_state call
  finish_drain-IsValid last s v = elim (Option-cases s.drain_cb) [
    | inl n ↦ IsValid-same {t = s} (ground arith) v
    | inr (cb, n) ↦ elim (Bool-cases last) [
      | inr l ↦ IsValid-same {t = s} (ground arith) v
      | inl l ↦
          let t =
            record (call cb DecodeStatus.ok
              (put_device (device.decoder_cmd s.input_queue.device true).0 s)) {
                drain_cb = none;
              } in
          IsValid-same {t = set_state idle t} (ground arith) (record {
            input_owner = v.input_owner;
            output_owner = v.output_owner;
            frames = v.frames;
            drain = drain_ok-none (next_state s.state idle);
            pool = v.pool;
            used = λ c. ground (arith, v.used c, in_called-append c cb DecodeStatus.ok s.called);
          })
    ]
  ]

  recycle-IsValid :
      (index frame : ℕ) (s : Decoder D) (a : BufferRef × Queue D)
      → IsValid g s
      → get_free_buffer_at index (output s) ≡ some a
      → (u : Decoder D) × (ok : Bool) × (recycle device index frame s ≡ some (u, ok)) × IsValid g u
  unfolding recycle
  recycle-IsValid index frame s (r, q) v e =
      let (at, same, current) = get_free_buffer_at_lem index (output s) q r e in
      let o = get_free_buffer_at-HasOneOwner index (output s) q [] r v.output_owner e in
      let put = do_queue device.output_driver r q in
      let owner = do_queue-HasOneOwner device.output_driver q [] [] r o in
      let counts = do_queue-count device.output_driver q r o current in
      let t = put_output put.0 s in
      elim (Bool-cases put.1) [
        | inl queued ↦ (
          record t { frame_at_device = (index, frame) ∷ s.frame_at_device },
          true,
          ground arith,
          record {
            input_owner = v.input_owner;
            output_owner = owner;
            frames = λ i. ground (arith, counts i, v.frames i);
            drain = v.drain;
            pool = v.pool;
            used = v.used;
          },
        )
        | inr lost ↦ (
          on_error t,
          false,
          ground arith,
          on_error-IsValid t (record {
            input_owner = v.input_owner;
            output_owner = owner;
            frames = λ i. ground (arith, counts i, v.frames i);
            drain = v.drain;
            pool = v.pool;
            used = v.used;
          }),
        )
      ]

  take_back-IsValid :
      (index frame : ℕ) (info : DequeuedInfo) (s : Decoder D) (a : BufferRef × Queue D)
      → IsValid g s
      → get_free_buffer_at index (output s) ≡ some a
      → (u : Decoder D) × (ok : Bool) × (take_back device index frame info s ≡ some (u, ok))
        × IsValid g u
  unfolding take_back give_output
  take_back-IsValid index frame info s a v e = elim (Bool-cases (ltb 0 info.bytes_used)) [
    | inl full ↦ (
      give_output device frame info.bitstream_id s,
      true,
      ground arith,
      record {
        input_owner = v.input_owner;
        output_owner = v.output_owner;
        frames = v.frames;
        drain = v.drain;
        pool = v.pool;
        used = v.used;
      },
    )
    | inr empty ↦
        let (u, ok, at, w) = recycle-IsValid index frame s a v e in (u, ok, ground arith, w)
  ]

  output_back-IsValid :
      (s : Decoder D) (q : Queue D) (r : BufferRef) (frame : ℕ) (ok : Bool)
      → IsValid g s
      → dequeue_buffer device.output_driver (output s) ≡ done (q, ok, some r)
      → find_key r.index s.frame_at_device ≡ some frame
      → IsValid g (output_back q r s)
  output_back-IsValid s q r frame ok v e f =
      let o =
        dequeue_buffer-HasOneOwner device.output_driver (output s) q ok [] r v.output_owner e in
      let (less, current, counts) =
        dequeue_buffer_lem device.output_driver (output s) q ok r v.output_owner e in
      record {
        input_owner = v.input_owner;
        output_owner = drop_ref-HasOneOwner q [] [] r o;
        frames = λ i. ground (
          arith,
          counts i,
          v.frames i,
          drop_ref-queued r q,
          pending-erase_key r.index frame s.frame_at_device i f,
        );
        drain = v.drain;
        pool = v.pool;
        used = v.used;
      }

  put_output-IsValid :
      (s : Decoder D) (q : Queue D) (ok : Bool)
      → IsValid g s
      → dequeue_buffer device.output_driver (output s) ≡ done (q, ok, none)
      → IsValid g (put_output q s)
  put_output-IsValid s q ok v e = record {
    input_owner = v.input_owner;
    output_owner =
        dequeue_buffer-none-HasOneOwner device.output_driver (output s) q ok [] v.output_owner e;
    frames = λ i.
        ground (arith, v.frames i, dequeue_buffer_none_lem device.output_driver (output s) q ok e);
    drain = v.drain;
    pool = v.pool;
    used = v.used;
  }

  -- The frame of a buffer that comes back is there.
  frame_found :
      (s : Decoder D) (q : Queue D) (r : BufferRef) (ok : Bool)
      → IsValid g s
      → dequeue_buffer device.output_driver (output s) ≡ done (q, ok, some r)
      → find_key r.index s.frame_at_device ≢ none
  frame_found s q r ok v e n =
      let (less, current, counts) =
        dequeue_buffer_lem device.output_driver (output s) q ok r v.output_owner e in
      absurd (
        ground (arith, counts r.index, v.frames r.index, find_key-none r.index s.frame_at_device n))

  pub service_output-IsGood :
      (n : ℕ) (b : Bool) (s : Decoder D) → IsValid g s → IsGood g (service_output device n b s)
  unfolding service_output
  service_output-IsGood zero b s v = elim (Bool-cases (length s.output_queue.queued_buffers == 0)) [
    | inl e ↦ IsGood-same {b = done (went_on s b)} (ground arith) v
    | inr e ↦ IsGood-same {b = out_of_fuel} (ground arith) tt
  ]
  service_output-IsGood (suc n) b s v =
      elim (Bool-cases (length s.output_queue.queued_buffers == 0)) [
        | inl e ↦ IsGood-same {b = done (went_on s b)} (ground arith) v
        | inr e ↦ elim (Checked-cases (dequeue_buffer device.output_driver (output s))) [
          | inl f ↦ IsGood-same {b = fault} (ground arith) tt
          | inr (inl f) ↦ IsGood-same {b = out_of_fuel} (ground arith) tt
          | inr (inr ((q, ok, buffer), f)) ↦ elim (Option-cases buffer) [
            | inl m ↦
                let w = put_output-IsValid s q ok v (ground arith) in
                elim (Bool-cases ok) [
                  | inl k ↦ IsGood-same {b = done (went_on (put_output q s) b)} (ground arith) w
                  | inr k ↦
                      IsGood-same {b = done (returned (on_error (put_output q s)))} (ground arith)
                        (on_error-IsValid (put_output q s) w)
                ]
            | inr (r, m) ↦
                let eq : dequeue_buffer device.output_driver (output s) ≡ done (q, ok, some r) =
                  ground arith in
                let success = dequeue_buffer_ok device.output_driver (output s) q ok r eq in
                let info = device.output_info q.device in
                elim (Option-cases (find_key r.index s.frame_at_device)) [
                  | inl g ↦ absurd (frame_found s q r ok v eq g)
                  | inr (frame, g) ↦
                      let t = output_back q r s in
                      let current =
                        (dequeue_buffer_lem device.output_driver (output s) q ok r v.output_owner
                          eq).1 in
                      let (slot, h) = get_free_buffer_at-drop_ref r q current in
                      let (u, well, back, w) =
                        take_back-IsValid r.index frame info t slot
                          (output_back-IsValid s q r frame ok v eq g) h in
                      elim (Bool-cases well) [
                        | inl k ↦
                            let x = finish_drain device info.is_last u in
                            IsGood-same {b = service_output device n true x} (ground arith) (
                              service_output-IsGood n true x
                                (finish_drain-IsValid info.is_last u w))
                        | inr k ↦ IsGood-same {b = done (returned u)} (ground arith) w
                      ]
                ]
          ]
        ]
      ]
