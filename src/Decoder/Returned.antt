-- ===== src/Decoder/Returned.antt =====
-- The loop of serviceDeviceTask over the input queue keeps a V4L2Decoder valid.
use android_external_v4l2_co.Prelude.{
  ℕ, zero, suc, ◌≡◌, Bool, true, [], ◌∷◌, arith, ◌==◌, length, inl, inr, subst, sym, Checked-cases,
  Bool-cases, Option-cases, Checked, fault, out_of_fuel, done,
}
use android_external_v4l2_co.Queue.{Queue, BufferRef, drop_ref, dequeue_buffer}
use android_external_v4l2_co.Queue.Owners.{HasOneOwner, drop_ref-HasOneOwner}
use android_external_v4l2_co.Queue.OwnersDriver.{
  dequeue_buffer-HasOneOwner, dequeue_buffer-none-HasOneOwner,
}
use android_external_v4l2_co.Queue.Counts.{dequeue_buffer_ok}
use android_external_v4l2_co.Decoder.{DecodeStatus, Decoder, Device, on_error, call}
use android_external_v4l2_co.Decoder.Callbacks.{in_called-append}
use android_external_v4l2_co.Decoder.Output.{find_key, erase_key}
use android_external_v4l2_co.Decoder.Service.{
  Served, went_on, returned, frame_missing, slot_missing, decoded, service_input,
}
use android_external_v4l2_co.Decoder.Valid.{
  IsValid, IsValid-same, on_error-IsValid, in_pending-erase_key,
}

-- What a loop may end with. The only fault is that of dequeueBuffer, when the device answers a buffer
-- that is not queued; the assertions of serviceDeviceTask do not fail.
abbrev pub IsGood : {D : Type 0} → (ℕ → ℕ) → Checked (Served D) → Type 0
IsGood g fault = Unit {0}
IsGood g out_of_fuel = Unit {0}
IsGood g (done (went_on s b)) = IsValid g s
IsGood g (done (returned s)) = IsValid g s
IsGood g (done frame_missing) = ⊥
IsGood g (done slot_missing) = ⊥

module _ {D : Type 0} {g : ℕ → ℕ} where
  decoded-IsValid : (id : ℕ) (s : Decoder D) → IsValid g s → IsValid g (decoded id s)
  unfolding decoded call
  decoded-IsValid id s v = elim (Option-cases (find_key id s.pending_decode_cbs)) [
    | inl n ↦ IsValid-same {t = s} (ground arith) v
    | inr (cb, n) ↦
        IsValid-same
          {t = record (call cb DecodeStatus.ok s) {
            pending_decode_cbs = erase_key id s.pending_decode_cbs;
          }}
          (ground arith)
          (record {
            input_owner = v.input_owner;
            output_owner = v.output_owner;
            frames = v.frames;
            drain = v.drain;
            pool = v.pool;
            used = λ c. ground (
              arith,
              v.used c,
              in_called-append c cb DecodeStatus.ok s.called,
              in_pending-erase_key id cb s.pending_decode_cbs c n,
            );
          })
  ]

module _ {D : Type 0} where
  -- The state after a buffer came back to the input queue.
  abbrev pub input_back : Device D → Queue D → BufferRef → Decoder D → Decoder D
  input_back device q r s =
      decoded (device.input_id q.device) (record s { input_queue = drop_ref r q })

  abbrev input_queue_is : Queue D → Decoder D → Decoder D
  input_queue_is q s = record s { input_queue = q }

module _ {D : Type 0} (g : ℕ → ℕ) (device : Device D) where
  IsGood-same : {a b : Checked (Served D)} → a ≡ b → IsGood g b → IsGood g a
  IsGood-same e v = subst (λ u. IsGood g u) (sym e) v

  pub input_back-IsValid :
      (s : Decoder D) (q : Queue D) (r : BufferRef)
      → IsValid g s
      → HasOneOwner q (r ∷ [])
      → IsValid g (input_back device q r s)
  input_back-IsValid s q r v o =
      decoded-IsValid (device.input_id q.device) (record s { input_queue = drop_ref r q })
        (record {
          input_owner = drop_ref-HasOneOwner q [] [] r o;
          output_owner = v.output_owner;
          frames = v.frames;
          drain = v.drain;
          pool = v.pool;
          used = v.used;
        })

  pub service_input-IsGood :
      (n : ℕ) (b : Bool) (s : Decoder D) → IsValid g s → IsGood g (service_input device n b s)
  unfolding service_input
  service_input-IsGood zero b s v = elim (Bool-cases (length s.input_queue.queued_buffers == 0)) [
    | inl e ↦ IsGood-same {b = done (went_on s b)} (ground arith) v
    | inr e ↦ IsGood-same {b = out_of_fuel} (ground arith) tt
  ]
  service_input-IsGood (suc n) b s v =
      elim (Bool-cases (length s.input_queue.queued_buffers == 0)) [
        | inl e ↦ IsGood-same {b = done (went_on s b)} (ground arith) v
        | inr e ↦ elim (Checked-cases (dequeue_buffer device.driver s.input_queue)) [
          | inl f ↦ IsGood-same {b = fault} (ground arith) tt
          | inr (inl f) ↦ IsGood-same {b = out_of_fuel} (ground arith) tt
          | inr (inr ((q, ok, buffer), f)) ↦ elim (Option-cases buffer) [
            | inl m ↦
                let w : IsValid g (input_queue_is q s) = record {
                  input_owner =
                      dequeue_buffer-none-HasOneOwner device.driver s.input_queue q ok []
                        v.input_owner (ground arith);
                  output_owner = v.output_owner;
                  frames = v.frames;
                  drain = v.drain;
                  pool = v.pool;
                  used = v.used;
                } in
                elim (Bool-cases ok) [
                  | inl k ↦ IsGood-same {b = done (went_on (input_queue_is q s) b)} (ground arith) w
                  | inr k ↦
                      IsGood-same {b = done (returned (on_error (input_queue_is q s)))}
                        (ground arith) (on_error-IsValid (input_queue_is q s) w)
                ]
            | inr (r, m) ↦
                let o =
                  dequeue_buffer-HasOneOwner device.driver s.input_queue q ok [] r v.input_owner
                    (ground arith) in
                let success = dequeue_buffer_ok device.driver s.input_queue q ok r (ground arith) in
                IsGood-same {b = service_input device n true (input_back device q r s)}
                  (ground arith)
                  (service_input-IsGood n true (input_back device q r s)
                    (input_back-IsValid s q r v o))
          ]
        ]
      ]
