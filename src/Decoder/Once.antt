-- ===== src/Decoder/Once.antt =====
-- How often decode and drain of V4L2Decoder use a callback, and when they start a drain.
use android_external_v4l2_co.Prelude.{
  ℕ, ◌+◌, ◌≤◌, ◌≡◌, ◌≢◌, refl, ◌⊎◌, inl, inr, true, Option, none, some, List, [], ◌∷◌, ◌++◌, arith,
  ◌==◌, length, Option-cases,
}
use android_external_v4l2_co.Queue.{get_free_buffer, do_queue}
use android_external_v4l2_co.Decoder.{
  State, idle, decoding, draining, error, DecodeStatus, BitstreamBuffer, DecodeRequest, Decoder,
  Device, next_state, insert_cb, set_state, on_error, call, start_drain, pump_requests,
  pump_decode_request, push_request, decode, drain,
}
use android_external_v4l2_co.Decoder.Callbacks.{
  one_if, uses, drain_ok, ids_of, requested, pending, in_called-append, in_requests-append,
  pump_requests-uses_le, pump_requests-uses,
}

-- The callback of the first drain request.
abbrev pub first_drain : List DecodeRequest → Option ℕ
first_drain [] = none
first_drain (r ∷ rest) = elim r.buffer [ none ↦ some r.decode_cb | some b ↦ first_drain rest ]

State-cases : (t : State) → (t ≡ decoding) ⊎ (t ≢ decoding)
State-cases decoding = inl refl
State-cases idle = inr (λ e. ground arith)
State-cases draining = inr (λ e. ground arith)
State-cases error = inr (λ e. ground arith)

pub State-split : (t : State) → (t ≡ error) ⊎ ((t ≡ idle) ⊎ ((t ≡ decoding) ⊎ (t ≡ draining)))
State-split error = inl refl
State-split idle = inr (inl refl)
State-split decoding = inr (inr (inl refl))
State-split draining = inr (inr (inr refl))

module _ {D : Type 0} (device : Device D) where
  push_request-uses_le :
      (c : ℕ) (r : DecodeRequest) (s : Decoder D)
      → drain_ok s.state s.drain_cb ≡ true
      → uses c (push_request device r s) ≤ uses c s + one_if (c == r.decode_cb)
  unfolding push_request pump_decode_request
  push_request-uses_le c r s o =
      let rs = s.decode_requests ++ (r ∷ []) in
      ground (
        arith,
        in_requests-append c r s.decode_requests,
        pump_requests-uses_le device c rs (record s { decode_requests = rs }) refl,
      )

  -- If a decoder that is idle or decoding keeps no drain callback, decode and drain call or keep no
  -- callback more often than before, but for the new one, which is used once more at most.
  pub decode-drain_at_most_once :
      (c cb : ℕ) (b : BitstreamBuffer) (s : Decoder D)
      → drain_ok s.state s.drain_cb ≡ true
      → (uses c (decode device b cb s) ≤ uses c s + one_if (c == cb))
        × (uses c (drain device cb s) ≤ uses c s + one_if (c == cb))
  unfolding decode drain set_state call next_state
  decode-drain_at_most_once c cb b s o = ground (
    arith,
    in_called-append c cb DecodeStatus.failed s.called,
    in_called-append c cb DecodeStatus.ok s.called,
    push_request-uses_le c (record { buffer = some b; decode_cb = cb }) s,
    push_request-uses_le c (record { buffer = some b; decode_cb = cb })
        (record s { state = decoding }),
    push_request-uses_le c (record { buffer = none; decode_cb = cb }) s,
  )

  requested-append :
      (i : ℕ) (r : DecodeRequest) (rs : List DecodeRequest)
      → requested i (rs ++ (r ∷ [])) ≡ requested i rs + ids_of i r.buffer
  requested-append i r [] = omega arith
  requested-append i r (q ∷ rs) = omega (arith, requested-append i r rs)

  push_request-uses :
      (c : ℕ) (r : DecodeRequest) (s : Decoder D)
      → drain_ok s.state s.drain_cb ≡ true
      → ((i : ℕ)
          → requested i s.decode_requests + pending i s.pending_decode_cbs + ids_of i r.buffer ≤ 1)
      → (push_request device r s).state ≢ error
      → uses c (push_request device r s) ≡ uses c s + one_if (c == r.decode_cb)
  unfolding push_request pump_decode_request
  push_request-uses c r s o u g =
      let rs = s.decode_requests ++ (r ∷ []) in
      let t = record s { decode_requests = rs } in
      let once : (i : ℕ) → requested i rs + pending i s.pending_decode_cbs ≤ 1 =
        λ i. omega (arith, u i, requested-append i r s.decode_requests) in
      elim (State-cases s.state) [
        | inl d ↦
            let same =
              pump_requests-uses device c rs t refl (ground arith) once (λ e. g (ground arith)) in
            ground (arith, same, in_requests-append c r s.decode_requests)
        | inr n ↦ ground (arith, n, in_requests-append c r s.decode_requests)
      ]

  -- If a decoder that is idle or decoding keeps no drain callback, and no bitstream id is given
  -- twice among the requests, the input buffers at the device and the new buffer, decode loses no
  -- callback unless it ends in the error state: each is called or kept as often as before, and the
  -- new one once more.
  pub decode-uses :
      (c cb : ℕ) (b : BitstreamBuffer) (s : Decoder D)
      → drain_ok s.state s.drain_cb ≡ true
      → ((i : ℕ)
          → requested i s.decode_requests + pending i s.pending_decode_cbs + one_if (i == b.id) ≤ 1)
      → (decode device b cb s).state ≢ error
      → uses c (decode device b cb s) ≡ uses c s + one_if (c == cb)
  unfolding decode set_state call next_state
  decode-uses c cb b s o u g = elim (State-split s.state) [
    | inl e ↦ absurd (g (ground arith))
    | inr (inl e) ↦ ground (
      arith,
      push_request-uses c (record { buffer = some b; decode_cb = cb })
          (record s { state = decoding }) (ground arith) u (λ bad. g (ground arith)),
    )
    | inr (inr e) ↦ ground (
      arith,
      push_request-uses c (record { buffer = some b; decode_cb = cb }) s o u
          (λ bad. g (ground arith)),
    )
  ]

  pump_requests-draining :
      (rs : List DecodeRequest) (s : Decoder D)
      → s.state ≡ decoding
      → (pump_requests device rs s).state ≡ draining
      → (length (pump_requests device rs s).input_queue.queued_buffers ≡ 0)
        × ((pump_requests device rs s).drain_cb ≡ first_drain rs)
        × (first_drain rs ≢ none)
  unfolding pump_requests start_drain on_error set_state next_state call
  pump_requests-draining [] s d f = ground arith
  pump_requests-draining (r ∷ rest) s d f = elim (Option-cases r.buffer) [
    | inl e ↦ ground arith
    | inr (b, e) ↦ elim (Option-cases (get_free_buffer s.input_queue)) [
      | inl g ↦ ground arith
      | inr ((ref, t), g) ↦ ground (
        arith,
        pump_requests-draining rest
            (record s {
              decode_requests = rest;
              input_queue = (do_queue device.driver ref t).0;
              pending_decode_cbs = insert_cb b.id r.decode_cb s.pending_decode_cbs;
            })
            d,
      )
    ]
  ]

  -- pumpDecodeRequest moves a decoder that is decoding on to draining only when no input buffer is
  -- queued at the device and one of the requests is a drain; the callback of the first such request is
  -- then kept as the callback of the drain.
  pub pump_decode_request-draining :
      (s : Decoder D)
      → s.state ≡ decoding
      → (pump_decode_request device s).state ≡ draining
      → (length (pump_decode_request device s).input_queue.queued_buffers ≡ 0)
        × ((pump_decode_request device s).drain_cb ≡ first_drain s.decode_requests)
        × (first_drain s.decode_requests ≢ none)
  unfolding pump_decode_request
  pump_decode_request-draining s d f = ground (arith, pump_requests-draining s.decode_requests s d)
