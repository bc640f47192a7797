-- ===== src/Encoder/Served.antt =====
-- What comes back from the device leaves the encode requests of V4L2Encoder fitting its state.
use android_external_v4l2_co.Prelude.{
  ℕ, zero, suc, ◌≡◌, inl, inr, Bool, true, false, [], ◌∷◌, ◌++◌, arith, ltb, ◌==◌, length,
  Bool-cases, Option-cases, Checked-cases, done,
}
use android_external_v4l2_co.EncodeHelpers.{extract_sps_pps, prepend_sps_pps_to_idr}
use android_external_v4l2_co.Queue.{drop_ref, dequeue_buffer}
use android_external_v4l2_co.Decoder.Output.{find_key, erase_key}
use android_external_v4l2_co.Encoder.{
  Encoder, EncoderDevice, EncodedInfo, is_error, set_state, on_error, output, put_output,
  put_device, on_drain_done,
}
use android_external_v4l2_co.Encoder.Request.{enqueue_output_buffer}
use android_external_v4l2_co.Encoder.Service.{
  wake, give_output, dequeue_input_buffer, give_injected, give_encoded, finish_drain, take_encoded,
  dequeue_output_buffer, service_input, service_output, service_device_task,
}
use android_external_v4l2_co.Encoder.Handled.{Keeps, enqueue_output_buffer-Keeps}
use android_external_v4l2_co.Encoder.Wakes.{
  IsAwake, IsAwake-same, on_error-IsAwake, on_drain_done-IsAwake,
}

module _ {D : Type 0} where
  wake-IsAwake : (s : Encoder D) → IsAwake s → IsAwake (wake s)
  unfolding wake set_state
  wake-IsAwake s a = ground (arith, a)

  Keeps-IsAwake : (s : Encoder D) (r : Encoder D × Bool) → Keeps s r → IsAwake s → IsAwake r.0
  Keeps-IsAwake s r k a = ground (arith, k, a)

  on_error-Keeps : (s : Encoder D) → Keeps s (on_error s, false)
  unfolding on_error is_error set_state
  on_error-Keeps s = ground arith

module _ {D : Type 0} (device : EncoderDevice D) where
  dequeue_input_buffer-IsAwake :
      (s t : Encoder D) (b : Bool)
      → dequeue_input_buffer device s ≡ done (t, b)
      → IsAwake s
      → IsAwake t
  unfolding dequeue_input_buffer
  dequeue_input_buffer-IsAwake s t b e a = elim (Bool-cases (is_error s.state)) [
    | inl bad ↦ IsAwake-same {s = t} {t = s} (ground arith) a
    | inr good ↦ elim (Checked-cases (dequeue_buffer device.driver s.input_queue)) [
      | inl f ↦ absurd (ground arith)
      | inr (inl f) ↦ absurd (ground arith)
      | inr (inr ((q, ok, buffer), f)) ↦
          let u : Encoder D = record s { input_queue = q } in
          elim (Bool-cases ok) [
            | inr lost ↦ IsAwake-same {s = t} {t = on_error u} (ground arith) (on_error-IsAwake u)
            | inl well ↦ elim (Option-cases buffer) [
              | inl m ↦ IsAwake-same {s = t} {t = u} (ground arith) a
              | inr (r, m) ↦ elim (Option-cases (find_key r.index s.input_buffers)) [
                | inl n ↦ absurd (ground arith)
                | inr (frame, n) ↦
                    let w : Encoder D = record s {
                      input_queue = drop_ref r q;
                      input_buffers = erase_key r.index s.input_buffers;
                      inputs_done = s.inputs_done ++ (frame ∷ []);
                    } in
                    IsAwake-same {s = t} {t = wake w} (ground arith) (wake-IsAwake w a)
              ]
            ]
          ]
    ]
  ]

  give_injected-Keeps :
      (bitstream : ℕ) (info : EncodedInfo) (s t : Encoder D) (b : Bool)
      → give_injected device bitstream info s ≡ done (t, b)
      → Keeps s (t, b)
  unfolding give_injected give_output on_error is_error set_state
  give_injected-Keeps bitstream info s t b e =
      elim (Option-cases (device.fetch_output_buffer s.input_queue.device).1) [
        | inl n ↦ ground arith
        | inr ((prepended, size), n) ↦
            elim (Checked-cases
              (prepend_sps_pps_to_idr info.bytes size s.cached_sps s.cached_pps)) [
                | inl f ↦ absurd (ground arith)
                | inr (inl f) ↦ absurd (ground arith)
                | inr (inr ((injection, new_size), f)) ↦ ground arith
              ]
      ]

  give_encoded-Keeps :
      (bitstream : ℕ) (info : EncodedInfo) (s t : Encoder D) (b : Bool)
      → give_encoded device bitstream info s ≡ done (t, b)
      → Keeps s (t, b)
  unfolding give_encoded give_output
  give_encoded-Keeps bitstream info s t b e = elim (Bool-cases (ltb 0 (length info.bytes))) [
    | inr empty ↦ ground arith
    | inl full ↦ elim (Bool-cases s.inject_params_before_idr) [
      | inr plain ↦ ground arith
      | inl inject ↦ elim (Bool-cases info.is_key_frame) [
        | inl key ↦ give_injected-Keeps bitstream info s t b (ground arith)
        | inr other ↦ elim (Checked-cases (extract_sps_pps info.bytes s.cached_sps s.cached_pps)) [
          | inl f ↦ absurd (ground arith)
          | inr (inl f) ↦ absurd (ground arith)
          | inr (inr (params, f)) ↦ ground arith
        ]
      ]
    ]
  ]

  finish_drain-IsAwake :
      (last : Bool) (s : Encoder D) → IsAwake s → IsAwake (finish_drain device last s).0
  unfolding finish_drain
  finish_drain-IsAwake last s a =
      let t = on_drain_done true s in
      let u = put_device (device.encoder_cmd t.input_queue.device true).0 t in
      ground (arith, on_drain_done-IsAwake true s, on_error-IsAwake u)

  take_encoded-IsAwake :
      (bitstream : ℕ) (info : EncodedInfo) (s t : Encoder D) (b : Bool)
      → take_encoded device bitstream info s ≡ done (t, b)
      → IsAwake s
      → IsAwake t
  unfolding take_encoded
  take_encoded-IsAwake bitstream info s t b e a =
      elim (Checked-cases (give_encoded device bitstream info s)) [
        | inl f ↦ absurd (ground arith)
        | inr (inl f) ↦ absurd (ground arith)
        | inr (inr ((u, given), f)) ↦
            let kept = give_encoded-Keeps bitstream info s u given f in
            let w = finish_drain device info.is_last u in
            let au = Keeps-IsAwake s (u, given) kept a in
            let aw = finish_drain-IsAwake info.is_last u au in
            let more = enqueue_output_buffer device w.0 in
            elim (Bool-cases given) [
              | inr k ↦ IsAwake-same {s = t} {t = u} (ground arith) au
              | inl k ↦ elim (Bool-cases w.1) [
                | inl on ↦
                    IsAwake-same {s = t} {t = more.0} (ground arith)
                      (Keeps-IsAwake w.0 more (enqueue_output_buffer-Keeps device w.0) aw)
                | inr off ↦ IsAwake-same {s = t} {t = w.0} (ground arith) aw
              ]
            ]
      ]

  dequeue_output_buffer-IsAwake :
      (s t : Encoder D) (b : Bool)
      → dequeue_output_buffer device s ≡ done (t, b)
      → IsAwake s
      → IsAwake t
  unfolding dequeue_output_buffer
  dequeue_output_buffer-IsAwake s t b e a = elim (Bool-cases (is_error s.state)) [
    | inl bad ↦ IsAwake-same {s = t} {t = s} (ground arith) a
    | inr good ↦ elim (Checked-cases (dequeue_buffer device.output_driver (output s))) [
      | inl f ↦ absurd (ground arith)
      | inr (inl f) ↦ absurd (ground arith)
      | inr (inr ((q, ok, buffer), f)) ↦
          let u = put_output q s in
          elim (Bool-cases ok) [
            | inr lost ↦ IsAwake-same {s = t} {t = on_error u} (ground arith) (on_error-IsAwake u)
            | inl well ↦ elim (Option-cases buffer) [
              | inl m ↦ IsAwake-same {s = t} {t = u} (ground arith) a
              | inr (r, m) ↦
                  let w = put_output (drop_ref r q) s in
                  elim (Option-cases (find_key r.index s.output_buffers)) [
                    | inl n ↦
                        IsAwake-same {s = t} {t = on_error w} (ground arith) (on_error-IsAwake w)
                    | inr (bitstream, n) ↦
                        take_encoded-IsAwake bitstream (device.output_info q.device)
                          (record w { output_buffers = erase_key r.index s.output_buffers }) t b
                          (ground arith) a
                  ]
            ]
          ]
    ]
  ]

  service_input-IsAwake :
      (n : ℕ) (s t : Encoder D) → service_input device n s ≡ done t → IsAwake s → IsAwake t
  unfolding service_input
  service_input-IsAwake zero s t e a = IsAwake-same {s = t} {t = s} (ground arith) a
  service_input-IsAwake (suc n) s t e a =
      elim (Bool-cases (length s.input_queue.queued_buffers == 0)) [
        | inl z ↦ IsAwake-same {s = t} {t = s} (ground arith) a
        | inr z ↦ elim (Checked-cases (dequeue_input_buffer device s)) [
          | inl f ↦ absurd (ground arith)
          | inr (inl f) ↦ absurd (ground arith)
          | inr (inr ((u, more), f)) ↦
              let au = dequeue_input_buffer-IsAwake s u more f a in
              elim (Bool-cases more) [
                | inl k ↦ service_input-IsAwake n u t (ground arith) au
                | inr k ↦ IsAwake-same {s = t} {t = u} (ground arith) au
              ]
        ]
      ]

  service_output-IsAwake :
      (n : ℕ) (s t : Encoder D) → service_output device n s ≡ done t → IsAwake s → IsAwake t
  unfolding service_output
  service_output-IsAwake zero s t e a = IsAwake-same {s = t} {t = s} (ground arith) a
  service_output-IsAwake (suc n) s t e a =
      elim (Bool-cases (length s.output_queue.queued_buffers == 0)) [
        | inl z ↦ IsAwake-same {s = t} {t = s} (ground arith) a
        | inr z ↦ elim (Checked-cases (dequeue_output_buffer device s)) [
          | inl f ↦ absurd (ground arith)
          | inr (inl f) ↦ absurd (ground arith)
          | inr (inr ((u, more), f)) ↦
              let au = dequeue_output_buffer-IsAwake s u more f a in
              elim (Bool-cases more) [
                | inl k ↦ service_output-IsAwake n u t (ground arith) au
                | inr k ↦ IsAwake-same {s = t} {t = u} (ground arith) au
              ]
        ]
      ]

  pub service_device_task-IsAwake :
      (rounds : ℕ) (s t : Encoder D)
      → service_device_task device rounds s ≡ done t
      → IsAwake s
      → IsAwake t
  unfolding service_device_task
  service_device_task-IsAwake rounds s t e a = elim (Bool-cases (is_error s.state)) [
    | inl bad ↦ IsAwake-same {s = t} {t = s} (ground arith) a
    | inr good ↦
        let n = length s.input_queue.queued_buffers in
        elim (Checked-cases (service_input device n s)) [
          | inl f ↦ absurd (ground arith)
          | inr (inl f) ↦ absurd (ground arith)
          | inr (inr (u, f)) ↦
              service_output-IsAwake rounds u t (ground arith) (service_input-IsAwake n s u f a)
        ]
  ]
