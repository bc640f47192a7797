-- ===== src/Decoder/ValidRequests.antt =====
-- decode, drain and pumpDecodeRequest keep a V4L2Decoder valid.
use android_external_v4l2_co.Prelude.{
  ℕ, ◌+◌, ◌≤◌, ◌≡◌, refl, inl, inr, false, Option, none, some, List, [], ◌∷◌, ◌++◌, arith, ltb,
  ◌==◌, length, Bool-cases, Option-cases,
}
use android_external_v4l2_co.Queue.{Queue, get_free_buffer, drop_ref, do_queue}
use android_external_v4l2_co.Queue.Owners.{
  HasOneOwner, get_free_buffer-HasOneOwner, drop_ref-HasOneOwner,
}
use android_external_v4l2_co.Queue.OwnersDriver.{do_queue-HasOneOwner}
use android_external_v4l2_co.Decoder.{
  idle, decoding, draining, DecodeStatus, BitstreamBuffer, DecodeRequest, Decoder, Device,
  next_state, insert_cb, set_state, on_error, call, start_drain, pump_requests, pump_decode_request,
  push_request, decode, drain,
}
use android_external_v4l2_co.Decoder.Callbacks.{
  one_if, uses, in_called-append, in_requests-append, in_pending-insert_cb_le,
}
use android_external_v4l2_co.Decoder.Once.{State-split}
use android_external_v4l2_co.Decoder.Valid.{IsValid, IsValid-same, on_error-IsValid}

module _ {D : Type 0} {g : ℕ → ℕ} where
  -- The requests, the pending callbacks and the calls matter only for the use of callbacks.
  requests-IsValid :
      (rs : List DecodeRequest) (cbs : List (ℕ × ℕ)) (q : Queue D) (s : Decoder D)
      → let t = record s { decode_requests = rs; pending_decode_cbs = cbs; input_queue = q } in
        IsValid g s → HasOneOwner q [] → ((c : ℕ) → uses c t ≤ uses c s) → IsValid g t
  requests-IsValid rs cbs q s v o u = record {
    input_owner = o;
    output_owner = v.output_owner;
    frames = v.frames;
    drain = v.drain;
    pool = v.pool;
    used = λ c. omega (arith, v.used c, u c);
  }

  set_decoding-IsValid :
      (s : Decoder D) → s.state ≡ idle → IsValid g s → IsValid g (set_state decoding s)
  unfolding set_state next_state
  set_decoding-IsValid s i v = record {
    input_owner = v.input_owner;
    output_owner = v.output_owner;
    frames = v.frames;
    drain = ground (arith, v.drain);
    pool = v.pool;
    used = v.used;
  }

  drained-IsValid :
      (cb : ℕ) (rest : List DecodeRequest) (d : D) (s : Decoder D)
      → s.state ≡ decoding
      → ((c : ℕ) → uses c (record s { decode_requests = rest }) + one_if (c == cb) ≤ uses c s)
      → IsValid g s
      → IsValid g (
          set_state draining (record s {
            decode_requests = rest;
            input_queue = record s.input_queue { device = d };
            drain_cb = some cb;
          }))
  unfolding set_state next_state
  drained-IsValid cb rest d s e u v = record {
    input_owner = v.input_owner;
    output_owner = v.output_owner;
    frames = v.frames;
    drain = ground arith;
    pool = v.pool;
    used = λ c. ground (arith, v.used c, u c, v.drain);
  }

  -- A request that fails is called instead of kept.
  failed-IsValid :
      (cb : ℕ) (rest : List DecodeRequest) (d : D) (s : Decoder D)
      → ((c : ℕ) → uses c (record s { decode_requests = rest }) + one_if (c == cb) ≤ uses c s)
      → IsValid g s
      → IsValid g (
          call cb DecodeStatus.failed (record s {
            decode_requests = rest;
            input_queue = record s.input_queue { device = d };
          }))
  unfolding call
  failed-IsValid cb rest d s u v = record {
    input_owner = v.input_owner;
    output_owner = v.output_owner;
    frames = v.frames;
    drain = v.drain;
    pool = v.pool;
    used = λ c. omega (arith, v.used c, u c, in_called-append c cb DecodeStatus.failed s.called);
  }

-- A new callback that is called or kept once.
abbrev pub with_callback : (ℕ → ℕ) → ℕ → ℕ → ℕ
with_callback g cb c = g c + one_if (c == cb)

module _ {D : Type 0} {g : ℕ → ℕ} (cb : ℕ) where
  call-IsValid :
      (status : DecodeStatus) (s : Decoder D)
      → IsValid g s
      → IsValid (with_callback g cb) (call cb status s)
  unfolding call
  call-IsValid status s v = record {
    input_owner = v.input_owner;
    output_owner = v.output_owner;
    frames = v.frames;
    drain = v.drain;
    pool = v.pool;
    used = λ c. omega (arith, v.used c, in_called-append c cb status s.called);
  }

  pushed-IsValid :
      (b : Option BitstreamBuffer) (s : Decoder D)
      → IsValid g s
      → IsValid (with_callback g cb) (record s {
        decode_requests = s.decode_requests ++ (record { buffer = b; decode_cb = cb } ∷ []);
      })
  pushed-IsValid b s v = record {
    input_owner = v.input_owner;
    output_owner = v.output_owner;
    frames = v.frames;
    drain = v.drain;
    pool = v.pool;
    used = λ c.
        let r : DecodeRequest = record { buffer = b; decode_cb = cb } in
        omega (arith, v.used c, in_requests-append c r s.decode_requests);
  }

module _ {D : Type 0} {g : ℕ → ℕ} (device : Device D) where
  start_drain-IsValid :
      (r : DecodeRequest) (rest : List DecodeRequest) (s : Decoder D)
      → s.decode_requests ≡ r ∷ rest
      → s.state ≡ decoding
      → IsValid g s
      → IsValid g (start_drain device r.decode_cb rest s)
  unfolding start_drain
  start_drain-IsValid r rest s e d v =
      let sent = device.decoder_cmd s.input_queue.device false in
      let q = record s.input_queue { device = sent.0 } in
      let t = record s { decode_requests = rest; input_queue = q } in
      let less : (c : ℕ) → uses c t + one_if (c == r.decode_cb) ≤ uses c s = λ c. ground arith in
      let u = set_state draining (record t { drain_cb = some r.decode_cb }) in
      elim (Bool-cases (ltb 0 (length s.input_queue.queued_buffers))) [
        | inl waits ↦ IsValid-same {t = s} (ground arith) v
        | inr none_queued ↦ elim (Bool-cases sent.1) [
          | inl k ↦
              IsValid-same {t = u} (ground arith)
                (drained-IsValid r.decode_cb rest sent.0 s d less v)
          | inr k ↦
              let f = call r.decode_cb DecodeStatus.failed t in
              IsValid-same {t = on_error f} (ground arith)
                (on_error-IsValid f (failed-IsValid r.decode_cb rest sent.0 s less v))
        ]
      ]

  pump_requests-IsValid :
      (rs : List DecodeRequest) (s : Decoder D)
      → s.decode_requests ≡ rs
      → s.state ≡ decoding
      → IsValid g s
      → IsValid g (pump_requests device rs s)
  unfolding pump_requests
  pump_requests-IsValid [] s e d v = v
  pump_requests-IsValid (r ∷ rest) s e d v = elim (Option-cases r.buffer) [
    | inl k ↦
        IsValid-same {t = start_drain device r.decode_cb rest s} (ground arith)
          (start_drain-IsValid r rest s e d v)
    | inr (b, k) ↦ elim (Option-cases (get_free_buffer s.input_queue)) [
      | inl free ↦ IsValid-same {t = s} (ground arith) v
      | inr ((ref, q), free) ↦
          let taken = get_free_buffer-HasOneOwner s.input_queue q [] ref v.input_owner free in
          let put = do_queue device.driver ref q in
          let given = do_queue-HasOneOwner device.driver q [] [] ref taken in
          let returned = drop_ref-HasOneOwner q [] [] ref taken in
          let old = s.pending_decode_cbs in
          let cbs = insert_cb b.id r.decode_cb old in
          let next = record s {
            decode_requests = rest;
            pending_decode_cbs = cbs;
            input_queue = put.0;
          } in
          let lost = record s { decode_requests = rest; input_queue = put.0 } in
          let large = record s { decode_requests = rest; input_queue = drop_ref ref q } in
          elim (Bool-cases (ltb device.plane_size b.size)) [
            | inl m ↦ IsValid-same {t = on_error large} (ground arith) (
                on_error-IsValid large
                  (requests-IsValid rest old (drop_ref ref q) s v returned (λ c. ground arith)))
            | inr fits ↦ elim (Bool-cases put.1) [
              | inl m ↦ IsValid-same {t = pump_requests device rest next} (ground arith) (
                  pump_requests-IsValid rest next refl d (
                    requests-IsValid rest cbs put.0 s v given
                      (λ c. ground (arith, in_pending-insert_cb_le c b.id r.decode_cb old))))
              | inr m ↦ IsValid-same {t = on_error lost} (ground arith) (
                  on_error-IsValid lost
                    (requests-IsValid rest old put.0 s v given (λ c. ground arith)))
            ]
          ]
    ]
  ]

  pub pump_decode_request-IsValid :
      (s : Decoder D) → IsValid g s → IsValid g (pump_decode_request device s)
  unfolding pump_decode_request
  pump_decode_request-IsValid s v = elim (State-split s.state) [
    | inl e ↦ IsValid-same {t = s} (ground arith) v
    | inr (inl e) ↦ IsValid-same {t = s} (ground arith) v
    | inr (inr (inl e)) ↦
        IsValid-same {t = pump_requests device s.decode_requests s} (ground arith)
          (pump_requests-IsValid s.decode_requests s refl e v)
    | inr (inr (inr e)) ↦ IsValid-same {t = s} (ground arith) v
  ]

module _ {D : Type 0} {g : ℕ → ℕ} (device : Device D) where
  push_request-IsValid :
      (b : Option BitstreamBuffer) (cb : ℕ) (s : Decoder D)
      → IsValid g s
      → IsValid (with_callback g cb) (push_request device (record { buffer = b; decode_cb = cb }) s)
  unfolding push_request
  push_request-IsValid b cb s v = pump_decode_request-IsValid device _ (pushed-IsValid cb b s v)

  pub decode-IsValid :
      (b : BitstreamBuffer) (cb : ℕ) (s : Decoder D)
      → IsValid g s
      → IsValid (with_callback g cb) (decode device b cb s)
  unfolding decode
  decode-IsValid b cb s v =
      let r : DecodeRequest = record { buffer = some b; decode_cb = cb } in
      elim (State-split s.state) [
        | inl e ↦
            IsValid-same {t = call cb DecodeStatus.failed s} (ground arith)
              (call-IsValid cb DecodeStatus.failed s v)
        | inr (inl e) ↦
            let t = set_state decoding s in
            IsValid-same {t = push_request device r t} (ground arith)
              (push_request-IsValid (some b) cb t (set_decoding-IsValid s e v))
        | inr (inr (inl e)) ↦
            IsValid-same {t = push_request device r s} (ground arith)
              (push_request-IsValid (some b) cb s v)
        | inr (inr (inr e)) ↦
            IsValid-same {t = push_request device r s} (ground arith)
              (push_request-IsValid (some b) cb s v)
      ]

  pub drain-IsValid :
      (cb : ℕ) (s : Decoder D) → IsValid g s → IsValid (with_callback g cb) (drain device cb s)
  unfolding drain
  drain-IsValid cb s v =
      let r : DecodeRequest = record { buffer = none; decode_cb = cb } in
      elim (State-split s.state) [
        | inl e ↦
            IsValid-same {t = call cb DecodeStatus.failed s} (ground arith)
              (call-IsValid cb DecodeStatus.failed s v)
        | inr (inl e) ↦
            IsValid-same {t = call cb DecodeStatus.ok s} (ground arith)
              (call-IsValid cb DecodeStatus.ok s v)
        | inr (inr (inl e)) ↦
            IsValid-same {t = push_request device r s} (ground arith)
              (push_request-IsValid none cb s v)
        | inr (inr (inr e)) ↦
            IsValid-same {t = call cb DecodeStatus.failed s} (ground arith)
              (call-IsValid cb DecodeStatus.failed s v)
      ]
