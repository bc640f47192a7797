-- ===== src/Decoder/Pump.antt =====
-- What decode, drain and pumpDecodeRequest of V4L2Decoder do.
use android_external_v4l2_co.Prelude.{
  ℕ, ◌<◌, ◌≡◌, refl, inl, inr, none, some, List, [], ◌∷◌, arith, length, Option-cases,
}
use android_external_v4l2_co.Queue.{BufferRef, get_free_buffer, do_queue}
use android_external_v4l2_co.Queue.Owners.{
  HasOneOwner, get_free_buffer-HasOneOwner, drop_ref-HasOneOwner,
}
use android_external_v4l2_co.Queue.OwnersDriver.{do_queue-HasOneOwner}
use android_external_v4l2_co.Decoder.{
  decoding, DecodeRequest, Decoder, Device, next_state, insert_cb, set_state, on_error, call,
  start_drain, pump_requests, pump_decode_request,
}

-- Nothing more can be sent: no request is left, the next one is a drain that waits for queued input
-- buffers, or it has data and there is no free input buffer.
abbrev pub IsStalled : {D : Type 0} → List DecodeRequest → Decoder D → Type 0
IsStalled [] s = Unit {0}
IsStalled (r ∷ rs) s = elim r.buffer [
  | none ↦ 0 < length s.input_queue.queued_buffers
  | some b ↦ get_free_buffer s.input_queue ≡ none
]

module _ {D : Type 0} (device : Device D) where
  start_drain-IsStalled :
      (r : DecodeRequest) (rest : List DecodeRequest) (s : Decoder D)
      → r.buffer ≡ none
      → s.decode_requests ≡ r ∷ rest
      → s.state ≡ decoding
      → let t = start_drain device r.decode_cb rest s in
        t.state ≡ decoding → IsStalled t.decode_requests t
  unfolding start_drain set_state on_error call next_state
  start_drain-IsStalled r rest s e q d f = ground arith

  pump_requests-IsStalled :
      (rs : List DecodeRequest) (s : Decoder D)
      → s.decode_requests ≡ rs
      → s.state ≡ decoding
      → (pump_requests device rs s).state ≡ decoding
      → IsStalled (pump_requests device rs s).decode_requests (pump_requests device rs s)
  unfolding pump_requests on_error set_state next_state
  pump_requests-IsStalled [] s q d f = ground arith
  pump_requests-IsStalled (r ∷ rest) s q d f = elim (Option-cases r.buffer) [
    | inl e ↦ ground (arith, start_drain-IsStalled r rest s e q d)
    | inr (b, e) ↦ elim (Option-cases (get_free_buffer s.input_queue)) [
      | inl g ↦ ground arith
      | inr ((ref, t), g) ↦ ground (
        arith,
        pump_requests-IsStalled rest
            (record s {
              decode_requests = rest;
              input_queue = (do_queue device.driver ref t).0;
              pending_decode_cbs = insert_cb b.id r.decode_cb s.pending_decode_cbs;
            })
            refl d,
      )
    ]
  ]

  -- When pumpDecodeRequest leaves a decoder that is decoding in that state, it has sent all it can:
  -- no request is left, or the next one is a drain and an input buffer is still queued, or the next
  -- one has data and no input buffer is free.
  pub pump_decode_request-IsStalled :
      (s : Decoder D)
      → s.state ≡ decoding
      → (pump_decode_request device s).state ≡ decoding
      → IsStalled (pump_decode_request device s).decode_requests (pump_decode_request device s)
  unfolding pump_decode_request
  pump_decode_request-IsStalled s d f =
      ground (arith, pump_requests-IsStalled s.decode_requests s refl d)

  start_drain-HasOneOwner :
      (cb : ℕ) (rest : List DecodeRequest) (s : Decoder D) (refs : List BufferRef)
      → HasOneOwner s.input_queue refs
      → HasOneOwner (start_drain device cb rest s).input_queue refs
  unfolding start_drain set_state on_error call
  start_drain-HasOneOwner cb rest s refs v i = ground (arith, v i)

  pump_requests-HasOneOwner :
      (rs : List DecodeRequest) (s : Decoder D) (refs : List BufferRef)
      → HasOneOwner s.input_queue refs
      → HasOneOwner (pump_requests device rs s).input_queue refs
  unfolding pump_requests on_error set_state
  pump_requests-HasOneOwner [] s refs v i = v i
  pump_requests-HasOneOwner (r ∷ rest) s refs v i = elim (Option-cases r.buffer) [
    | inl e ↦ ground (arith, start_drain-HasOneOwner r.decode_cb rest s refs v i)
    | inr (b, e) ↦ elim (Option-cases (get_free_buffer s.input_queue)) [
      | inl g ↦ ground (arith, v i)
      | inr ((ref, t), g) ↦
          let taken = get_free_buffer-HasOneOwner s.input_queue t refs ref v g in
          let queue = (do_queue device.driver ref t).0 in
          let given = do_queue-HasOneOwner device.driver t [] refs ref taken in
          ground (
            arith,
            given i,
            drop_ref-HasOneOwner t [] refs ref taken i,
            pump_requests-HasOneOwner rest
                (record s {
                  decode_requests = rest;
                  input_queue = queue;
                  pending_decode_cbs = insert_cb b.id r.decode_cb s.pending_decode_cbs;
                })
                refs given i,
          )
    ]
  ]

  -- If every input buffer has one owner before pumpDecodeRequest, it has after it: the reference it
  -- takes is queued or given back, on its error paths too.
  pub pump_decode_request-HasOneOwner :
      (s : Decoder D) (refs : List BufferRef)
      → HasOneOwner s.input_queue refs
      → HasOneOwner (pump_decode_request device s).input_queue refs
  unfolding pump_decode_request
  pump_decode_request-HasOneOwner s refs v i =
      ground (arith, v i, pump_requests-HasOneOwner s.decode_requests s refs v i)
