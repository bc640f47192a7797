-- ===== src/Decoder/Terminates.antt =====
-- The loops of serviceDeviceTask end, if the device gives back finitely many buffers.
use android_external_v4l2_co.Prelude.{
  ℕ, zero, suc, ◌≤◌, ◌<◌, ◌≡◌, ◌≢◌, inl, inr, Bool, true, false, some, [], arith, ◌==◌, length, ap,
  ◌∙◌, subst, Checked-cases, Bool-cases, Option-cases, fault, out_of_fuel, done,
}
use android_external_v4l2_co.Queue.{Queue, BufferRef, drop_ref, return_buffer, dequeue_buffer}
use android_external_v4l2_co.Queue.OwnersDriver.{dequeue_buffer-HasOneOwner}
use android_external_v4l2_co.Queue.Counts.{dequeue_buffer_lem, dequeue_buffer_ok, drop_ref-queued}
use android_external_v4l2_co.Decoder.{
  Decoder, Device, on_error, output, put_output, put_device, call,
}
use android_external_v4l2_co.Decoder.Output.{find_key, erase_key}
use android_external_v4l2_co.Decoder.Service.{
  went_on, returned, decoded, service_input, finish_drain, take_back, service_output,
}
use android_external_v4l2_co.Decoder.Resolution.{dequeue_resolution_change_event}
use android_external_v4l2_co.Decoder.Flush.{
  handle_event, service_rest, service_loops, service_device_task,
}
use android_external_v4l2_co.Decoder.Valid.{IsValid}
use android_external_v4l2_co.Decoder.Returned.{input_back, input_back-IsValid}
use android_external_v4l2_co.Decoder.ValidService.{Served-cases, State-serves}
use android_external_v4l2_co.Decoder.Ends.{
  IsFinite, EndsWithin, EndsWithin-same, dequeue_buffer-device, dequeue_buffer-none-device,
  dequeue_buffer_returns, take_back_le, finish_drain_le,
}

drop_ref-device : {D : Type 0} (r : BufferRef) (q : Queue D) → (drop_ref r q).device ≡ q.device
unfolding drop_ref return_buffer
drop_ref-device r q = ground arith

decoded-input_queue :
    {D : Type 0} (id : ℕ) (s : Decoder D) → (decoded id s).input_queue ≡ s.input_queue
unfolding decoded call
decoded-input_queue id s = ground arith

module _ {D : Type 0} (device : Device D) where
  service_input_out_of_fuel :
      (g : ℕ → ℕ) (n : ℕ) (b : Bool) (s : Decoder D)
      → IsValid g s
      → length s.input_queue.queued_buffers ≤ n
      → service_input device n b s ≢ out_of_fuel
  unfolding service_input
  service_input_out_of_fuel g zero b s v h e = absurd (ground arith)
  service_input_out_of_fuel g (suc n) b s v h e =
      elim (Bool-cases (length s.input_queue.queued_buffers == 0)) [
        | inl z ↦ absurd (ground arith)
        | inr z ↦ elim (Checked-cases (dequeue_buffer device.driver s.input_queue)) [
          | inl f ↦ absurd (ground arith)
          | inr (inl f) ↦ absurd (dequeue_buffer_returns device.driver s.input_queue f)
          | inr (inr ((q, ok, buffer), f)) ↦ elim (Option-cases buffer) [
            | inl k ↦ elim (Bool-cases ok) [
              | inl w ↦ absurd (ground arith)
              | inr w ↦ absurd (ground arith)
            ]
            | inr (r, k) ↦
                let eq : dequeue_buffer device.driver s.input_queue ≡ done (q, ok, some r) =
                  ground arith in
                let success = dequeue_buffer_ok device.driver s.input_queue q ok r eq in
                let o =
                  dequeue_buffer-HasOneOwner device.driver s.input_queue q ok [] r v.input_owner
                    eq in
                let less =
                  (dequeue_buffer_lem device.driver s.input_queue q ok r v.input_owner eq).0 in
                let u = input_back device q r s in
                let same =
                  decoded-input_queue (device.input_id q.device)
                    (record s { input_queue = drop_ref r q }) in
                let again : service_input device n true u ≡ out_of_fuel = ground arith in
                absurd (
                  service_input_out_of_fuel g n true u (input_back-IsValid g device s q r v o)
                    (ground (arith, same, less, drop_ref-queued r q)) again)
          ]
        ]
      ]

  -- The loop of serviceDeviceTask over the input queue of a valid decoder ends on every path, whatever
  -- the device answers: each round but the last takes a queued buffer back and queues none, so that
  -- one round for each queued buffer is enough.
  pub service_input_returns :
      (g : ℕ → ℕ) (b : Bool) (s : Decoder D)
      → IsValid g s
      → service_input device (length s.input_queue.queued_buffers) b s ≢ out_of_fuel
  service_input_returns g b s v =
      service_input_out_of_fuel g (length s.input_queue.queued_buffers) b s v (omega arith)

module _ {D : Type 0} (device : Device D) (finite : IsFinite device) where
  -- Every round has one buffer less at the device.
  service_input_ends :
      (g : ℕ → ℕ) (n m : ℕ) (b : Bool) (s : Decoder D)
      → IsValid g s
      → length s.input_queue.queued_buffers ≤ n
      → finite.left s.input_queue.device ≤ m
      → EndsWithin finite.left m (service_input device n b s)
  unfolding service_input
  service_input_ends g zero m b s v h l =
      EndsWithin-same device finite m _ (done (went_on s b)) (ground arith) l
  service_input_ends g (suc n) m b s v h l =
      elim (Bool-cases (length s.input_queue.queued_buffers == 0)) [
        | inl e ↦ EndsWithin-same device finite m _ (done (went_on s b)) (ground arith) l
        | inr e ↦ elim (Checked-cases (dequeue_buffer device.driver s.input_queue)) [
          | inl f ↦ EndsWithin-same device finite m _ fault (ground arith) tt
          | inr (inl f) ↦ absurd (dequeue_buffer_returns device.driver s.input_queue f)
          | inr (inr ((q, ok, buffer), f)) ↦ elim (Option-cases buffer) [
            | inl k ↦
                let t : Decoder D = record s { input_queue = q } in
                let moved =
                  dequeue_buffer-none-device device.driver s.input_queue q ok (ground arith) in
                elim (Bool-cases ok) [
                  | inl w ↦
                      EndsWithin-same device finite m _ (done (went_on t b)) (ground arith)
                        (ground (arith, moved, finite.input_dqbuf_le s.input_queue.device))
                  | inr w ↦
                      EndsWithin-same device finite m _ (done (returned (on_error t)))
                        (ground arith) tt
                ]
            | inr (r, k) ↦
                let eq : dequeue_buffer device.driver s.input_queue ≡ done (q, ok, some r) =
                  ground arith in
                let success = dequeue_buffer_ok device.driver s.input_queue q ok r eq in
                let o =
                  dequeue_buffer-HasOneOwner device.driver s.input_queue q ok [] r v.input_owner
                    eq in
                let less =
                  (dequeue_buffer_lem device.driver s.input_queue q ok r v.input_owner eq).0 in
                let (i, given, moved) =
                  dequeue_buffer-device device.driver s.input_queue q ok r eq in
                let u = input_back device q r s in
                let same =
                  decoded-input_queue (device.input_id q.device)
                    (record s { input_queue = drop_ref r q }) in
                EndsWithin-same device finite m _ (service_input device n true u) (ground arith) (
                  service_input_ends g n m true u (input_back-IsValid g device s q r v o)
                    (ground (arith, same, less, drop_ref-queued r q))
                    (ground (
                      arith,
                      same,
                      moved,
                      drop_ref-device r q,
                      finite.input_dqbuf_le s.input_queue.device,
                    )))
          ]
        ]
      ]

  -- The state of service_output behind a buffer that came back with its frame.
  abbrev taken : Queue D → BufferRef → Decoder D → Decoder D
  taken q r s = record (put_output (drop_ref r q) s) {
    frame_at_device = erase_key r.index s.frame_at_device;
  }

  service_output_ends :
      (n : ℕ) (b : Bool) (s : Decoder D)
      → finite.left s.input_queue.device < n
      → service_output device n b s ≢ out_of_fuel
  unfolding service_output
  service_output_ends zero b s h e = absurd (omega arith)
  service_output_ends (suc n) b s h e =
      elim (Bool-cases (length s.output_queue.queued_buffers == 0)) [
        | inl z ↦ absurd (ground arith)
        | inr z ↦ elim (Checked-cases (dequeue_buffer device.output_driver (output s))) [
          | inl f ↦ absurd (ground arith)
          | inr (inl f) ↦ absurd (dequeue_buffer_returns device.output_driver (output s) f)
          | inr (inr ((q, ok, buffer), f)) ↦ elim (Bool-cases ok) [
            | inr w ↦ absurd (ground arith)
            | inl w ↦ elim (Option-cases buffer) [
              | inl k ↦ absurd (ground arith)
              | inr (r, k) ↦ elim (Option-cases (find_key r.index s.frame_at_device)) [
                | inl m ↦ absurd (ground arith)
                | inr (frame, m) ↦
                    let info = device.output_info q.device in
                    let (i, given, moved) =
                      dequeue_buffer-device device.output_driver (output s) q ok r (ground arith) in
                    let less = finite.gives_less s.input_queue.device i given in
                    elim (Option-cases (take_back device r.index frame info (taken q r s))) [
                      | inl x ↦ absurd (ground arith)
                      | inr ((u, well), x) ↦ elim (Bool-cases well) [
                        | inr y ↦ absurd (ground arith)
                        | inl y ↦
                            let still =
                              take_back_le device finite r.index frame info (taken q r s) u well
                                x in
                            let fewer = finish_drain_le device finite info.is_last u in
                            let same = drop_ref-device r q in
                            absurd (
                              service_output_ends n true (finish_drain device info.is_last u)
                                (ground (arith, ap finite.left (same ∙ moved))) (ground arith))
                      ]
                    ]
              ]
            ]
          ]
        ]
      ]

  dequeue_event_returns :
      (n : ℕ) (s : Decoder D)
      → device.events_left s.input_queue.device < n
      → dequeue_resolution_change_event device n s ≢ out_of_fuel
  unfolding dequeue_resolution_change_event
  dequeue_event_returns zero s h e = absurd (omega arith)
  dequeue_event_returns (suc n) s h e =
      let d = (device.dqevent s.input_queue.device).0 in
      elim (Option-cases (device.dqevent s.input_queue.device).1) [
        | inl k ↦ absurd (ground arith)
        | inr (change, k) ↦ elim (Bool-cases change) [
          | inl c ↦ absurd (ground arith)
          | inr c ↦
              let less = device.dqevent_less s.input_queue.device change k in
              absurd (dequeue_event_returns n (put_device d s) (omega arith) (ground arith))
        ]
      ]

  handle_event_returns : (event : Bool) (s : Decoder D) → handle_event device event s ≢ out_of_fuel
  unfolding handle_event
  handle_event_returns false s e = absurd (ground arith)
  handle_event_returns true s e =
      let n = suc (device.events_left s.input_queue.device) in
      elim (Checked-cases (dequeue_resolution_change_event device n s)) [
        | inl f ↦ absurd (ground arith)
        | inr (inl f) ↦ absurd (dequeue_event_returns n s (omega arith) f)
        | inr (inr ((t, change), f)) ↦ absurd (ground arith)
      ]

  service_rest_ends :
      (rounds : ℕ) (event b : Bool) (s : Decoder D)
      → finite.left s.input_queue.device < rounds
      → service_rest device rounds event b s ≢ out_of_fuel
  unfolding service_rest
  service_rest_ends rounds event b s h e =
      elim (Checked-cases (service_output device rounds false s)) [
        | inl f ↦ absurd (ground arith)
        | inr (inl f) ↦ absurd (service_output_ends rounds false s h f)
        | inr (inr (r, f)) ↦ elim (Served-cases r) [
          | inr (inl (t, at)) ↦ absurd (ground arith)
          | inr (inr (inl at)) ↦ absurd (ground arith)
          | inr (inr (inr at)) ↦ absurd (ground arith)
          | inl (t, c, at) ↦ elim (Checked-cases (handle_event device event t)) [
            | inl k ↦ absurd (ground arith)
            | inr (inl k) ↦ absurd (handle_event_returns event t k)
            | inr (inr ((u, on), k)) ↦ absurd (ground arith)
          ]
        ]
      ]

  service_loops_end :
      (g : ℕ → ℕ) (rounds : ℕ) (event : Bool) (s : Decoder D)
      → IsValid g s
      → finite.left s.input_queue.device < rounds
      → service_loops device rounds event s ≢ out_of_fuel
  unfolding service_loops
  service_loops_end g rounds event s v h e =
      let n = length s.input_queue.queued_buffers in
      let m = finite.left s.input_queue.device in
      let within = service_input_ends g n m false s v (omega arith) (omega arith) in
      elim (Checked-cases (service_input device n false s)) [
        | inl f ↦ absurd (ground arith)
        | inr (inl f) ↦ absurd (subst (λ r. EndsWithin finite.left m r) f within)
        | inr (inr (r, f)) ↦ elim (Served-cases r) [
          | inr (inl (t, at)) ↦ absurd (ground arith)
          | inr (inr (inl at)) ↦ absurd (ground arith)
          | inr (inr (inr at)) ↦ absurd (ground arith)
          | inl (t, c, at) ↦
              let fewer : EndsWithin finite.left m (done (went_on t c)) =
                subst (λ r. EndsWithin finite.left m r) (f ∙ ap done at) within in
              absurd (service_rest_ends rounds event c t (omega (arith, fewer)) (ground arith))
        ]
      ]

  -- If IsFinite holds of the device, that is, if it has finitely many buffers of the output queue to give
  -- back whatever it is given meanwhile, empty buffers that are queued again included, and they are fewer
  -- than the rounds given to the loop over that queue, serviceDeviceTask of a valid decoder ends on
  -- every path.
  pub service_device_task_ends :
      (g : ℕ → ℕ) (rounds : ℕ) (event : Bool) (s : Decoder D)
      → IsValid g s
      → finite.left s.input_queue.device < rounds
      → service_device_task device rounds event s ≢ out_of_fuel
  unfolding service_device_task
  service_device_task_ends g rounds event s v h e = elim (State-serves s.state) [
    | inl k ↦ absurd (ground arith)
    | inr k ↦ absurd (service_loops_end g rounds event s v h (ground arith))
  ]
