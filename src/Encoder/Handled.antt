-- ===== src/Encoder/Handled.antt =====
-- handleEncodeRequest leaves the encode requests of V4L2Encoder fitting its state.
use android_external_v4l2_co.Prelude.{
  ℕ, zero, suc, ◌+◌, ◌-◌, ◌%◌, ◌≡◌, refl, ◌⊎◌, inl, inr, Bool, true, false, not, if◌then◌else◌,
  List, [], ◌∷◌, arith, ◌==◌, Bool-cases, Option-cases, List-cases, ◌∙◌, ap,
}
use android_external_v4l2_co.Queue.{get_free_buffer, streamon}
use android_external_v4l2_co.Encoder.{
  State, uninitialized, waiting_for_input_frame, waiting_for_v4l2_buffer, encoding, draining, error,
  EncodeRequest, Encoder, EncoderDevice, is_error, free_buffers_count, set_state, on_error, output,
  put_output, put_device, start_device_poll,
}
use android_external_v4l2_co.Encoder.Request.{
  enqueue_input_buffer, enqueue_output_buffer, fill_output, start_streaming, finish_request,
  stream_request, send_request, encode_front, next_request, handle_encode_request,
}
use android_external_v4l2_co.Encoder.Wakes.{
  awake, IsAwake, IsAwake-same, on_error-IsAwake, blocked-IsAwake, handle_drain_request-IsAwake,
}

-- A request was popped from an encoder whose requests fit its state.
abbrev popped : State → Bool
popped waiting_for_input_frame = false
popped uninitialized = true
popped waiting_for_v4l2_buffer = true
popped encoding = true
popped draining = true
popped error = true

popped-awake :
    (t : State) (r : EncodeRequest) (rs : List EncodeRequest) (n : ℕ)
    → awake t (r ∷ rs) n ≡ true
    → popped t ≡ true
popped-awake waiting_for_input_frame r rs n a = absurd (ground arith)
popped-awake uninitialized r rs n a = refl
popped-awake waiting_for_v4l2_buffer r rs n a = refl
popped-awake encoding r rs n a = refl
popped-awake draining r rs n a = refl
popped-awake error r rs n a = refl

if_true : {A : Type 0} (x y : A) (b : Bool) → b ≡ true → (if b then x else y) ≡ x
if_true x y b e = ap (λ c. if c then x else y) e

if_false : {A : Type 0} (x y : A) (b : Bool) → b ≡ false → (if b then x else y) ≡ y
if_false x y b e = ap (λ c. if c then x else y) e

-- The requests are the same, and so is the state, but for an error; it is one where a call failed.
abbrev pub Keeps : {D : Type 0} → Encoder D → Encoder D × Bool → Type 0
Keeps s (t, success) =
    (t.encode_requests ≡ s.encode_requests)
    × (t.posted ≡ s.posted)
    × ((t.state ≡ s.state) ⊎ (t.state ≡ error))
    × ((success ≡ true) ⊎ (t.state ≡ error))

module _ {D : Type 0} where
  on_error_lem :
      (s : Encoder D)
      → ((on_error s).state ≡ error)
        × ((on_error s).encode_requests ≡ s.encode_requests)
        × ((on_error s).posted ≡ s.posted)
  unfolding on_error is_error set_state
  on_error_lem s = ground arith

module _ {D : Type 0} (device : EncoderDevice D) where
  pub enqueue_output_buffer-Keeps : (s : Encoder D) → Keeps s (enqueue_output_buffer device s)
  unfolding enqueue_output_buffer on_error is_error set_state
  enqueue_output_buffer-Keeps s = elim (Option-cases (get_free_buffer (output s))) [
    | inl n ↦ ground arith
    | inr ((r, q), n) ↦ ground arith
  ]

  enqueue_input_buffer_lem :
      (f : ℕ) (s : Encoder D)
      → let t = (enqueue_input_buffer device f s).0 in
        (t.posted ≡ s.posted)
        × (((enqueue_input_buffer device f s).1 ≡ false) ⊎ (t.state ≡ s.state))
  unfolding enqueue_input_buffer on_error is_error set_state
  enqueue_input_buffer_lem f s = ground arith

  start_device_poll_lem :
      (s : Encoder D)
      → let t = (start_device_poll device s).0 in
        (t.encode_requests ≡ s.encode_requests)
        × (t.posted ≡ s.posted)
        × ((t.state ≡ s.state) ⊎ (t.state ≡ error))
  unfolding start_device_poll on_error is_error set_state
  start_device_poll_lem s = ground arith

  start_streaming-Keeps : (s : Encoder D) → Keeps s (start_streaming device s)
  unfolding start_streaming on_error is_error set_state
  start_streaming-Keeps s =
      let out = streamon device.output_driver (output s) in
      let t = put_output out.0 s in
      let u = record t { input_queue = (streamon device.driver t.input_queue).0 } in
      ground (arith, start_device_poll_lem u)

  fill_output-Keeps : (n : ℕ) (s : Encoder D) → Keeps s (fill_output device n s)
  unfolding fill_output
  fill_output-Keeps zero s = ground arith
  fill_output-Keeps (suc n) s =
      let t = (enqueue_output_buffer device s).0 in
      ground (arith, enqueue_output_buffer-Keeps s, fill_output-Keeps n t)

  finish_request-IsAwake :
      (eos : Bool) (s : Encoder D) → popped s.state ≡ true → IsAwake (finish_request device eos s)
  unfolding finish_request set_state
  finish_request-IsAwake eos s p = ground (arith, handle_drain_request-IsAwake device s)

  stream_request-IsAwake :
      (eos : Bool) (s : Encoder D) → popped s.state ≡ true → IsAwake (stream_request device eos s)
  unfolding stream_request
  stream_request-IsAwake eos s p =
      let t = (start_streaming device s).0 in
      let u = (fill_output device (free_buffers_count t.output_queue) t).0 in
      let first = start_streaming-Keeps s in
      let second = fill_output-Keeps (free_buffers_count t.output_queue) t in
      let fits : popped u.state ≡ true = ground (arith, first, second) in
      ground (arith, first, second, finish_request-IsAwake eos u fits)

  send_request-IsAwake :
      (r : EncodeRequest) (rest : List EncodeRequest) (s : Encoder D)
      → popped s.state ≡ true
      → IsAwake (send_request device r rest s)
  unfolding send_request
  send_request-IsAwake r rest s p =
      let t = record s { key_frame_counter = (s.key_frame_counter + 1) % s.key_frame_period } in
      let sent = enqueue_input_buffer device r.video_frame t in
      let u = record sent.0 { encode_requests = rest } in
      elim (Bool-cases sent.1) [
        | inl k ↦
            let same = enqueue_input_buffer_lem r.video_frame t in
            let fits : popped u.state ≡ true = ground (arith, same) in
            IsAwake-same {s = send_request device r rest s}
              {t = stream_request device r.end_of_stream u} (ground arith)
              (stream_request-IsAwake r.end_of_stream u fits)
        | inr k ↦
            IsAwake-same {s = send_request device r rest s} {t = on_error sent.0} (ground arith)
              (on_error-IsAwake sent.0)
      ]

  encode_front-IsAwake :
      (r : EncodeRequest) (rest : List EncodeRequest) (s : Encoder D)
      → s.encode_requests ≡ r ∷ rest
      → popped s.state ≡ true
      → IsAwake (encode_front device r rest s)
  unfolding encode_front
  encode_front-IsAwake r rest s e p =
      let forced = device.force_key_frame s.input_queue.device in
      let t = put_device forced.0 s in
      let full = free_buffers_count s.input_queue == 0 in
      elim (Bool-cases full) [
        | inl k ↦
            IsAwake-same {s = encode_front device r rest s}
              {t = set_state waiting_for_v4l2_buffer s} (if_true _ _ full k)
              (blocked-IsAwake r rest s e)
        | inr free ↦ elim (Bool-cases (s.key_frame_counter == 0)) [
          | inr k ↦
              IsAwake-same {s = encode_front device r rest s} {t = send_request device r rest s}
                (if_false _ _ full free ∙ if_true _ _ (not (s.key_frame_counter == 0)) (ap not k))
                (send_request-IsAwake r rest s p)
          | inl k ↦ elim (Bool-cases forced.1) [
            | inl well ↦
                IsAwake-same {s = encode_front device r rest s} {t = send_request device r rest t}
                  (if_false _ _ full free
                    ∙ if_false _ _ (not (s.key_frame_counter == 0)) (ap not k)
                    ∙ if_true _ _ forced.1 well)
                  (send_request-IsAwake r rest t p)
            | inr bad ↦
                IsAwake-same {s = encode_front device r rest s} {t = on_error t}
                  (if_false _ _ full free
                    ∙ if_false _ _ (not (s.key_frame_counter == 0)) (ap not k)
                    ∙ if_false _ _ forced.1 bad)
                  (on_error-IsAwake t)
          ]
        ]
      ]

  idle-IsAwake :
      (s : Encoder D) (n : ℕ)
      → s.encode_requests ≡ []
      → IsAwake s
      → IsAwake (record s { posted = n })
  idle-IsAwake s n e a = ground arith

  next_request-IsAwake :
      (s : Encoder D) (n : ℕ)
      → IsAwake s
      → IsAwake (next_request device s.encode_requests (record s { posted = n }))
  unfolding next_request
  next_request-IsAwake s n a =
      let t = record s { posted = n } in
      elim (List-cases s.encode_requests) [
        | inl e ↦
            IsAwake-same {s = next_request device s.encode_requests t} {t = t}
              (ap (λ l. next_request device l t) e) (idle-IsAwake s n e a)
        | inr (r, rest, e) ↦
            IsAwake-same {s = next_request device s.encode_requests t}
              {t = encode_front device r rest t} (ap (λ l. next_request device l t) e)
              (encode_front-IsAwake r rest t e
                (popped-awake s.state r rest s.posted (ground arith)))
      ]

  -- A posted call of handleEncodeRequest leaves the requests fitting the state.
  pub handle_encode_request-IsAwake :
      (s : Encoder D) → IsAwake s → IsAwake (handle_encode_request device s)
  unfolding handle_encode_request is_error
  handle_encode_request-IsAwake s a =
      let t = record s { posted = s.posted - 1 } in
      elim (Bool-cases (is_error s.state)) [
        | inl bad ↦
            IsAwake-same {s = handle_encode_request device s} {t = t}
              (if_true _ _ (is_error s.state) bad) (ground arith)
        | inr good ↦
            IsAwake-same {s = handle_encode_request device s}
              {t = next_request device s.encode_requests t} (if_false _ _ (is_error s.state) good)
              (next_request-IsAwake s (s.posted - 1) a)
      ]
