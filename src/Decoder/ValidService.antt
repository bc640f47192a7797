-- ===== src/Decoder/ValidService.antt =====
-- serviceDeviceTask keeps a V4L2Decoder valid, and its loop over the events ends.
use android_external_v4l2_co.Prelude.{
  ℕ, zero, suc, ◌<◌, ◌≡◌, refl, Bool, true, false, arith, length, ◌⊎◌, inl, inr, subst, sym,
  Checked-cases, Bool-cases, Option-cases, Checked, fault, out_of_fuel, done,
}
use android_external_v4l2_co.Decoder.{
  State, idle, decoding, draining, error, Decoder, Device, on_error, put_device,
}
use android_external_v4l2_co.Decoder.Service.{
  Served, went_on, returned, frame_missing, slot_missing, service_input, service_output,
}
use android_external_v4l2_co.Decoder.Resolution.{dequeue_resolution_change_event, change_resolution}
use android_external_v4l2_co.Decoder.Flush.{
  handle_event, service_rest, service_loops, service_device_task,
}
use android_external_v4l2_co.Decoder.Valid.{IsValid, on_error-IsValid}
use android_external_v4l2_co.Decoder.ReturnedOutput.{service_output-IsGood}
use android_external_v4l2_co.Decoder.Returned.{IsGood, service_input-IsGood}
use android_external_v4l2_co.Decoder.ValidResolution.{put_device-IsValid, change_resolution-IsValid}

-- What serviceDeviceTask may end with, whatever it posts.
abbrev pub IsServed : {D : Type 0} → (ℕ → ℕ) → Checked (Served D × Bool × Bool) → Type 0
IsServed g fault = Unit {0}
IsServed g out_of_fuel = Unit {0}
IsServed g (done (r, pump, fetch)) = IsGood g (done r)

pub Served-cases :
    {D : Type 0} (r : Served D)
    → ((s : Decoder D) × (b : Bool) × (r ≡ went_on s b))
      ⊎ (((s : Decoder D) × (r ≡ returned s)) ⊎ ((r ≡ frame_missing) ⊎ (r ≡ slot_missing)))
Served-cases (went_on s b) = inl (s, b, refl)
Served-cases (returned s) = inr (inl (s, refl))
Served-cases frame_missing = inr (inr (inl refl))
Served-cases slot_missing = inr (inr (inr refl))

pub State-serves : (t : State) → (t ≡ error) ⊎ ((t ≡ idle) ⊎ ((t ≡ decoding) ⊎ (t ≡ draining)))
State-serves error = inl refl
State-serves idle = inr (inl refl)
State-serves decoding = inr (inr (inl refl))
State-serves draining = inr (inr (inr refl))

module _ {D : Type 0} (g : ℕ → ℕ) (device : Device D)
    (stops : (d : D) → (device.output_driver.stream_off d).1 ≡ true) where
  IsServed-same : {a b : Checked (Served D × Bool × Bool)} → a ≡ b → IsServed g b → IsServed g a
  IsServed-same e v = subst (λ u. IsServed g u) (sym e) v

  IsGood-of : {a b : Checked (Served D)} → a ≡ b → IsGood g a → IsGood g b
  IsGood-of e v = subst (λ u. IsGood g u) e v

  -- The events end within the rounds that they are given.
  dequeue_event-IsValid :
      (n : ℕ) (s : Decoder D)
      → IsValid g s
      → device.events_left s.input_queue.device < n
      → (t : Decoder D) × (change : Bool) × (dequeue_resolution_change_event device n s
          ≡ done (t, change))
        × IsValid g t
  unfolding dequeue_resolution_change_event
  dequeue_event-IsValid zero s v h = absurd (omega arith)
  dequeue_event-IsValid (suc n) s v h =
      let d = (device.dqevent s.input_queue.device).0 in
      let u = put_device d s in
      let w = put_device-IsValid d s v in
      elim (Option-cases (device.dqevent s.input_queue.device).1) [
        | inl e ↦ (u, false, ground arith, w)
        | inr (change, e) ↦ elim (Bool-cases change) [
          | inl k ↦ (u, true, ground arith, w)
          | inr k ↦
              let less = device.dqevent_less s.input_queue.device change e in
              let (t, c, at, x) = dequeue_event-IsValid n u w (omega arith) in
              (t, c, ground arith, x)
        ]
      ]

  pub handle_event-IsValid :
      (event : Bool) (s : Decoder D)
      → IsValid g s
      → (t : Decoder D) × (on : Bool) × (handle_event device event s ≡ done (t, on)) × IsValid g t
  unfolding handle_event
  handle_event-IsValid false s v = (s, true, refl, v)
  handle_event-IsValid true s v =
      let (t, change, at, w) =
        dequeue_event-IsValid (suc (device.events_left s.input_queue.device)) s v (omega arith) in
      let u = (change_resolution device t).0 in
      let x = change_resolution-IsValid device stops t w in
      elim (Bool-cases change) [
        | inr k ↦ (t, true, ground arith, w)
        | inl k ↦ elim (Bool-cases (change_resolution device t).1) [
          | inl c ↦ (u, true, ground arith, x)
          | inr c ↦ (on_error u, false, ground arith, on_error-IsValid u x)
        ]
      ]

  service_rest-IsServed :
      (n : ℕ) (event b : Bool) (s : Decoder D)
      → IsValid g s
      → IsServed g (service_rest device n event b s)
  unfolding service_rest
  service_rest-IsServed n event b s v =
      let good = service_output-IsGood g device n false s v in
      elim (Checked-cases (service_output device n false s)) [
        | inl e ↦ IsServed-same {b = fault} (ground arith) tt
        | inr (inl e) ↦ IsServed-same {b = out_of_fuel} (ground arith) tt
        | inr (inr (r, e)) ↦ elim (Served-cases r) [
          | inl (t, c, at) ↦
              let w : IsValid g t = IsGood-of {b = done (went_on t c)} (ground arith) good in
              let (u, on, done_at, x) = handle_event-IsValid event t w in
              elim (Bool-cases on) [
                | inl k ↦ IsServed-same {b = done (went_on u c, b, c)} (ground arith) x
                | inr k ↦ IsServed-same {b = done (returned u, false, false)} (ground arith) x
              ]
          | inr (inl (t, at)) ↦
              let w : IsValid g t = IsGood-of {b = done (returned t)} (ground arith) good in
              IsServed-same {b = done (returned t, false, false)} (ground arith) w
          | inr (inr (inl at)) ↦ absurd (IsGood-of {b = done frame_missing} (ground arith) good)
          | inr (inr (inr at)) ↦ absurd (IsGood-of {b = done slot_missing} (ground arith) good)
        ]
      ]

  service_loops-IsServed :
      (n : ℕ) (event : Bool) (s : Decoder D)
      → IsValid g s
      → IsServed g (service_loops device n event s)
  unfolding service_loops
  service_loops-IsServed n event s v =
      let m = length s.input_queue.queued_buffers in
      let good = service_input-IsGood g device m false s v in
      elim (Checked-cases (service_input device m false s)) [
        | inl e ↦ IsServed-same {b = fault} (ground arith) tt
        | inr (inl e) ↦ IsServed-same {b = out_of_fuel} (ground arith) tt
        | inr (inr (r, e)) ↦ elim (Served-cases r) [
          | inl (t, c, at) ↦
              let w : IsValid g t = IsGood-of {b = done (went_on t c)} (ground arith) good in
              IsServed-same {b = service_rest device n event c t} (ground arith)
                (service_rest-IsServed n event c t w)
          | inr (inl (t, at)) ↦
              let w : IsValid g t = IsGood-of {b = done (returned t)} (ground arith) good in
              IsServed-same {b = done (returned t, false, false)} (ground arith) w
          | inr (inr (inl at)) ↦ absurd (IsGood-of {b = done frame_missing} (ground arith) good)
          | inr (inr (inr at)) ↦ absurd (IsGood-of {b = done slot_missing} (ground arith) good)
        ]
      ]

  -- On a device whose VIDIOC_STREAMOFF succeeds, serviceDeviceTask keeps a decoder valid on all its
  -- paths: every buffer of both queues has one owner, and the frames at the device are those of the
  -- queued output buffers. The assertions of the source hold: a buffer that comes back has a frame,
  -- and an empty one can be taken again.
  pub service_device_task-IsServed :
      (rounds : ℕ) (event : Bool) (s : Decoder D)
      → IsValid g s
      → IsServed g (service_device_task device rounds event s)
  unfolding service_device_task
  service_device_task-IsServed rounds event s v = elim (State-serves s.state) [
    | inl e ↦ IsServed-same {b = done (returned s, false, false)} (ground arith) v
    | inr e ↦
        IsServed-same {b = service_loops device rounds event s} (ground arith)
          (service_loops-IsServed rounds event s v)
  ]
