-- ===== src/Decoder/Callbacks.antt =====
-- Where the callbacks given to the V4L2Decoder are: called, or kept for later.
use android_external_v4l2_co.Prelude.{
  ℕ, ◌+◌, ◌≤◌, ◌≡◌, ◌≢◌, refl, Bool, true, false, Option, none, some, List, [], ◌∷◌, ◌++◌, arith,
  ltb, ◌==◌, if◌then◌else◌, inl, inr, Bool-cases, Option-cases,
}
use android_external_v4l2_co.Queue.{get_free_buffer, do_queue}
use android_external_v4l2_co.Decoder.{
  State, idle, decoding, draining, error, DecodeStatus, BitstreamBuffer, DecodeRequest, Decoder,
  Device, next_state, insert_cb, set_state, on_error, call, start_drain, pump_requests,
}

abbrev pub one_if : Bool → ℕ
one_if b = if b then 1 else 0

abbrev pub in_called : ℕ → List (ℕ × DecodeStatus) → ℕ
in_called c [] = 0
in_called c ((d, s) ∷ cs) = one_if (c == d) + in_called c cs

abbrev pub in_requests : ℕ → List DecodeRequest → ℕ
in_requests c [] = 0
in_requests c (r ∷ rs) = one_if (c == r.decode_cb) + in_requests c rs

abbrev pub in_pending : ℕ → List (ℕ × ℕ) → ℕ
in_pending c [] = 0
in_pending c ((i, d) ∷ cbs) = one_if (c == d) + in_pending c cbs

abbrev pub in_drain : ℕ → Option ℕ → ℕ
in_drain c none = 0
in_drain c (some d) = one_if (c == d)

-- How often a callback was called or is kept.
abbrev pub uses : {D : Type 0} → ℕ → Decoder D → ℕ
uses c s =
    in_called c s.called
    + in_requests c s.decode_requests
    + in_pending c s.pending_decode_cbs
    + in_drain c s.drain_cb

-- A drain callback is only kept while draining, or after an error.
abbrev pub drain_ok : State → Option ℕ → Bool
drain_ok idle none = true
drain_ok idle (some c) = false
drain_ok decoding none = true
drain_ok decoding (some c) = false
drain_ok draining c = true
drain_ok error c = true

abbrev pub ids_of : ℕ → Option BitstreamBuffer → ℕ
ids_of i none = 0
ids_of i (some b) = one_if (i == b.id)

abbrev pub requested : ℕ → List DecodeRequest → ℕ
requested i [] = 0
requested i (r ∷ rs) = ids_of i r.buffer + requested i rs

abbrev pub pending : ℕ → List (ℕ × ℕ) → ℕ
pending i [] = 0
pending i ((j, d) ∷ cbs) = one_if (i == j) + pending i cbs

pub in_called-append :
    (c d : ℕ) (s : DecodeStatus) (cs : List (ℕ × DecodeStatus))
    → in_called c (cs ++ ((d, s) ∷ [])) ≡ in_called c cs + one_if (c == d)
in_called-append c d s [] = ground arith
in_called-append c d s ((e, t) ∷ cs) = omega (arith, in_called-append c d s cs)

pub in_requests-append :
    (c : ℕ) (r : DecodeRequest) (rs : List DecodeRequest)
    → in_requests c (rs ++ (r ∷ [])) ≡ in_requests c rs + one_if (c == r.decode_cb)
in_requests-append c r [] = ground arith
in_requests-append c r (q ∷ rs) = omega (arith, in_requests-append c r rs)

pub in_pending-insert_cb_le :
    (c id cb : ℕ) (cbs : List (ℕ × ℕ))
    → in_pending c (insert_cb id cb cbs) ≤ in_pending c cbs + one_if (c == cb)
unfolding insert_cb
in_pending-insert_cb_le c id cb [] = ground arith
in_pending-insert_cb_le c id cb ((i, d) ∷ cbs) = ground (arith, in_pending-insert_cb_le c id cb cbs)

in_pending-insert_cb :
    (c id cb : ℕ) (cbs : List (ℕ × ℕ))
    → pending id cbs ≡ 0
    → in_pending c (insert_cb id cb cbs) ≡ in_pending c cbs + one_if (c == cb)
unfolding insert_cb
in_pending-insert_cb c id cb [] h = ground arith
in_pending-insert_cb c id cb ((i, d) ∷ cbs) h = ground (arith, in_pending-insert_cb c id cb cbs)

pending-insert_cb :
    (j id cb : ℕ) (cbs : List (ℕ × ℕ))
    → pending id cbs ≡ 0
    → pending j (insert_cb id cb cbs) ≡ pending j cbs + one_if (j == id)
unfolding insert_cb
pending-insert_cb j id cb [] h = ground arith
pending-insert_cb j id cb ((i, d) ∷ cbs) h = ground (arith, pending-insert_cb j id cb cbs)

pub drain_ok-none : (t : State) → drain_ok t none ≡ true
drain_ok-none idle = refl
drain_ok-none _ = refl

pub next_state_error : (t : State) → next_state t error ≡ error
unfolding next_state
next_state_error idle = refl
next_state_error _ = refl

module _ {D : Type 0} (device : Device D) (c : ℕ) where
  pub start_drain-uses :
      (cb : ℕ) (r : DecodeRequest) (rest : List DecodeRequest) (s : Decoder D)
      → s.decode_requests ≡ r ∷ rest
      → r.decode_cb ≡ cb
      → s.drain_cb ≡ none
      → uses c (start_drain device cb rest s) ≡ uses c s
  unfolding start_drain set_state on_error call
  start_drain-uses cb r rest s q e n =
      ground (arith, in_called-append c cb DecodeStatus.failed s.called)

  pub pump_requests-uses_le :
      (rs : List DecodeRequest) (s : Decoder D)
      → s.decode_requests ≡ rs
      → s.drain_cb ≡ none
      → uses c (pump_requests device rs s) ≤ uses c s
  unfolding pump_requests on_error set_state
  pump_requests-uses_le [] s q n = omega arith
  pump_requests-uses_le (r ∷ rest) s q n = elim (Option-cases r.buffer) [
    | inl e ↦ ground (arith, start_drain-uses r.decode_cb r rest s q refl n)
    | inr (b, e) ↦ elim (Option-cases (get_free_buffer s.input_queue)) [
      | inl f ↦ ground arith
      | inr ((ref, t), f) ↦ ground (
        arith,
        in_pending-insert_cb_le c b.id r.decode_cb s.pending_decode_cbs,
        pump_requests-uses_le rest
            (record s {
              decode_requests = rest;
              input_queue = (do_queue device.driver ref t).0;
              pending_decode_cbs = insert_cb b.id r.decode_cb s.pending_decode_cbs;
            })
            refl n,
      )
    ]
  ]

  pub pump_requests-uses :
      (rs : List DecodeRequest) (s : Decoder D)
      → s.decode_requests ≡ rs
      → s.drain_cb ≡ none
      → ((i : ℕ) → requested i rs + pending i s.pending_decode_cbs ≤ 1)
      → (pump_requests device rs s).state ≢ error
      → uses c (pump_requests device rs s) ≡ uses c s
  unfolding pump_requests on_error set_state
  pump_requests-uses [] s q n u g = refl
  pump_requests-uses (r ∷ rest) s q n u g = elim (Option-cases r.buffer) [
    | inl e ↦ ground (arith, start_drain-uses r.decode_cb r rest s q refl n)
    | inr (b, e) ↦ elim (Option-cases (get_free_buffer s.input_queue)) [
      | inl f ↦ ground arith
      | inr ((ref, t), f) ↦
          let new : pending b.id s.pending_decode_cbs ≡ 0 = ground (arith, u b.id) in
          let next = record s {
            decode_requests = rest;
            input_queue = (do_queue device.driver ref t).0;
            pending_decode_cbs = insert_cb b.id r.decode_cb s.pending_decode_cbs;
          } in
          elim (Bool-cases (ltb device.plane_size b.size)) [
            | inl large ↦ absurd (g (ground (arith, next_state_error s.state)))
            | inr fits ↦ elim (Bool-cases (do_queue device.driver ref t).1) [
              | inl queued ↦
                  let same =
                    pump_requests-uses rest next refl n
                      (λ i.
                        ground (
                          arith,
                          u i,
                          pending-insert_cb i b.id r.decode_cb s.pending_decode_cbs new,
                        ))
                      (λ bad. g (ground arith)) in
                  ground
                    (arith, same, in_pending-insert_cb c b.id r.decode_cb s.pending_decode_cbs new)
              | inr lost ↦ absurd (g (ground (arith, next_state_error s.state)))
            ]
          ]
    ]
  ]
