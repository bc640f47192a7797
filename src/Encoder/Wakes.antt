-- ===== src/Encoder/Wakes.antt =====
-- No encode request of V4L2Encoder is forgotten: what its state says about the requests that wait.
use android_external_v4l2_co.Prelude.{
  ℕ, ◌+◌, ◌≡◌, refl, inl, inr, Bool, true, false, Option, none, some, List, [], ◌∷◌, ◌++◌, arith,
  ltb, Bool-cases, sym, subst,
}
use android_external_v4l2_co.Encoder.{
  State, uninitialized, waiting_for_input_frame, waiting_for_v4l2_buffer, encoding, draining, error,
  EncodeRequest, Encoder, EncoderDevice, is_error, is_waiting_for_input_frame, mark_last, set_state,
  on_error, go_on, on_drain_done, encode, start_drain, handle_drain_request, drain, flush,
}

-- Whether the requests fit the state: an encoder that waits for frames has none; one that waits for a
-- buffer of the device has some; one that encodes has some, and a call of handleEncodeRequest is
-- posted.
abbrev pub awake : State → List EncodeRequest → ℕ → Bool
awake waiting_for_input_frame [] n = true
awake waiting_for_input_frame (r ∷ rs) n = false
awake waiting_for_v4l2_buffer [] n = false
awake waiting_for_v4l2_buffer (r ∷ rs) n = true
awake encoding [] n = false
awake encoding (r ∷ rs) n = ltb 0 n
awake uninitialized rs n = true
awake draining rs n = true
awake error rs n = true

abbrev pub IsAwake : {D : Type 0} → Encoder D → Type 0
IsAwake s = awake s.state s.encode_requests s.posted ≡ true

awake-mark_last :
    (t : State) (rs : List EncodeRequest) (n : ℕ) → awake t (mark_last rs) n ≡ awake t rs n
unfolding mark_last
awake-mark_last t [] n = refl
awake-mark_last t (r ∷ []) n = ground arith
awake-mark_last t (r ∷ q ∷ rs) n = ground arith

awake-append :
    (t : State) (rs : List EncodeRequest) (r : EncodeRequest) (n : ℕ)
    → awake t rs n ≡ true
    → is_waiting_for_input_frame t ≡ false
    → awake t (rs ++ (r ∷ [])) n ≡ true
unfolding is_waiting_for_input_frame
awake-append t [] r n a e = ground arith
awake-append t (q ∷ rs) r n a e = ground arith

awake-encoding :
    (rs : List EncodeRequest) (r : EncodeRequest) (n : ℕ)
    → awake encoding (rs ++ (r ∷ [])) (n + 1) ≡ true
awake-encoding [] r n = ground arith
awake-encoding (q ∷ rs) r n = ground arith

module _ {D : Type 0} where
  pub IsAwake-same : {s t : Encoder D} → s ≡ t → IsAwake t → IsAwake s
  IsAwake-same e a = subst (λ u. IsAwake u) (sym e) a

  pub blocked-IsAwake :
      (r : EncodeRequest) (rest : List EncodeRequest) (s : Encoder D)
      → s.encode_requests ≡ r ∷ rest
      → IsAwake (set_state waiting_for_v4l2_buffer s)
  unfolding set_state
  blocked-IsAwake r rest s e = ground arith

  pub on_error-IsAwake : (s : Encoder D) → IsAwake (on_error s)
  unfolding on_error is_error set_state
  on_error-IsAwake s = ground arith

  go_on-IsAwake : (s : Encoder D) → IsAwake (go_on s)
  unfolding go_on set_state
  go_on-IsAwake s = ground arith

  pub on_drain_done-IsAwake : (b : Bool) (s : Encoder D) → IsAwake (on_drain_done b s)
  unfolding on_drain_done is_error
  on_drain_done-IsAwake b s =
      let t = record s { drains_done = s.drains_done ++ (b ∷ []) } in
      ground (arith, go_on-IsAwake t, on_error-IsAwake t)

  pub encode-IsAwake : (f : Option ℕ) (s : Encoder D) → IsAwake s → IsAwake (encode f s).0
  unfolding encode set_state
  encode-IsAwake none s a = a
  encode-IsAwake (some f) s a =
      let r : EncodeRequest = record { video_frame = f; end_of_stream = false } in
      elim (Bool-cases (is_error s.state)) [
        | inl e ↦ ground arith
        | inr e ↦ elim (Bool-cases (is_waiting_for_input_frame s.state)) [
          | inl w ↦ ground (arith, awake-encoding s.encode_requests r s.posted)
          | inr w ↦ ground (arith, awake-append s.state s.encode_requests r s.posted a w)
        ]
      ]

module _ {D : Type 0} (device : EncoderDevice D) where
  start_drain-IsAwake : (s : Encoder D) → IsAwake (start_drain device s)
  unfolding start_drain set_state
  start_drain-IsAwake s =
      let t = set_state draining s in
      let d = (device.encoder_cmd s.input_queue.device false).0 in
      ground (
        arith,
        on_drain_done-IsAwake true t,
        on_drain_done-IsAwake false
            (record t { input_queue = record s.input_queue { device = d } }),
      )

  pub handle_drain_request-IsAwake : (s : Encoder D) → IsAwake (handle_drain_request device s)
  unfolding handle_drain_request
  handle_drain_request-IsAwake s = ground (arith, start_drain-IsAwake s)

  pub drain-IsAwake : (s : Encoder D) → IsAwake s → IsAwake (drain device s)
  unfolding drain
  drain-IsAwake s a =
      ground
        (arith, handle_drain_request-IsAwake s, awake-mark_last s.state s.encode_requests s.posted)

  pub flush-IsAwake : (s : Encoder D) → IsAwake (flush device s)
  unfolding flush set_state is_error
  flush-IsAwake s = ground arith
