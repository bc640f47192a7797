-- ===== src/Decoder/ValidFlush.antt =====
-- flush keeps a V4L2Decoder valid.
use mathlib.Core.List.{append-nil, append_assoc}
use android_external_v4l2_co.Prelude.{
  ℕ, ◌+◌, ◌≡◌, refl, true, Option, none, some, List, [], ◌∷◌, ◌++◌, arith, if◌then◌else◌, ◌⊎◌, inl,
  inr, ap, ◌∙◌, Bool-cases, Option-cases,
}
use android_external_v4l2_co.Queue.{streamon, streamoff}
use android_external_v4l2_co.Queue.OwnersDriver.{streamon-HasOneOwner, streamoff-HasOneOwner}
use android_external_v4l2_co.Decoder.{
  State, idle, decoding, draining, error, DecodeStatus, Decoder, Device, next_state, set_state,
  on_error, output, put_output, call,
}
use android_external_v4l2_co.Decoder.Callbacks.{in_called, in_pending, in_drain, drain_ok-none}
use android_external_v4l2_co.Decoder.Output.{try_fetch_video_frame, request_frame}
use android_external_v4l2_co.Decoder.Flush.{
  abort_pending, abort_callbacks, start_polling, stop_polling, restart_queues, fetch_if_pool,
  do_flush, flush,
}
use android_external_v4l2_co.Decoder.Valid.{
  IsValid, IsValid-same, on_error-IsValid, try_fetch_video_frame-IsValid,
}
use android_external_v4l2_co.Decoder.ValidResolution.{stopped-IsValid, streamon_output-IsValid}

-- What flush says to the callbacks that were pending.
abbrev pub aborted_calls : List (ℕ × ℕ) → List (ℕ × DecodeStatus)
aborted_calls [] = []
aborted_calls ((id, cb) ∷ cbs) = (cb, DecodeStatus.aborted) ∷ aborted_calls cbs

abbrev pub aborted_drain : Option ℕ → List (ℕ × DecodeStatus)
aborted_drain none = []
aborted_drain (some cb) = (cb, DecodeStatus.aborted) ∷ []

in_called-++ :
    (c : ℕ) (xs ys : List (ℕ × DecodeStatus))
    → in_called c (xs ++ ys) ≡ in_called c xs + in_called c ys
in_called-++ c [] ys = omega arith
in_called-++ c ((d, t) ∷ xs) ys = omega (arith, in_called-++ c xs ys)

in_called-aborted_calls :
    (c : ℕ) (cbs : List (ℕ × ℕ)) → in_called c (aborted_calls cbs) ≡ in_pending c cbs
in_called-aborted_calls c [] = refl
in_called-aborted_calls c ((id, cb) ∷ cbs) = omega (arith, in_called-aborted_calls c cbs)

in_called-aborted_drain : (c : ℕ) (d : Option ℕ) → in_called c (aborted_drain d) ≡ in_drain c d
in_called-aborted_drain c none = refl
in_called-aborted_drain c (some cb) = omega arith

module _ {D : Type 0} where
  pub abort_pending_lem :
      (cbs : List (ℕ × ℕ)) (s : Decoder D)
      → abort_pending cbs s ≡ record s { called = s.called ++ aborted_calls cbs }
  unfolding abort_pending call
  abort_pending_lem [] s = ground (arith, append-nil s.called)
  abort_pending_lem ((id, cb) ∷ cbs) s =
      abort_pending_lem cbs (call cb DecodeStatus.aborted s)
      ∙ ground (arith, append_assoc s.called ((cb, DecodeStatus.aborted) ∷ []) (aborted_calls cbs))

  -- The state after all callbacks were called by flush.
  abbrev pub all_aborted : Decoder D → Decoder D
  all_aborted s = record s {
    called = (s.called ++ aborted_calls s.pending_decode_cbs) ++ aborted_drain s.drain_cb;
    pending_decode_cbs = [];
    drain_cb = none;
  }

  pub abort_callbacks_lem : (s : Decoder D) → abort_callbacks s ≡ all_aborted s
  unfolding abort_callbacks call
  abort_callbacks_lem s =
      let same = abort_pending_lem s.pending_decode_cbs s in
      let calls = s.called ++ aborted_calls s.pending_decode_cbs in
      elim (Option-cases s.drain_cb) [
        | inl n ↦ ground (arith, same, append-nil calls)
        | inr (cb, n) ↦ ground (arith, same)
      ]

module _ {D : Type 0} {g : ℕ → ℕ} where
  set_idle-IsValid :
      (s : Decoder D) → IsValid g s → s.drain_cb ≡ none → IsValid g (set_state idle s)
  unfolding set_state
  set_idle-IsValid s v n = record {
    input_owner = v.input_owner;
    output_owner = v.output_owner;
    frames = v.frames;
    drain = ground (arith, drain_ok-none (next_state s.state idle));
    pool = v.pool;
    used = v.used;
  }

pub try_fetch_video_frame-drain_cb :
    {D : Type 0} (s : Decoder D) → (try_fetch_video_frame s).drain_cb ≡ s.drain_cb
unfolding try_fetch_video_frame request_frame on_error set_state
try_fetch_video_frame-drain_cb s = ground arith

State-flushes : (t : State) → ((t ≡ idle) ⊎ (t ≡ error)) ⊎ ((t ≡ decoding) ⊎ (t ≡ draining))
State-flushes idle = inl (inl refl)
State-flushes error = inl (inr refl)
State-flushes decoding = inr (inl refl)
State-flushes draining = inr (inr refl)

module _ {D : Type 0} {g : ℕ → ℕ} (device : Device D)
    (stops : (d : D) → (device.output_driver.stream_off d).1 ≡ true) where
  abort_callbacks-IsValid :
      (s : Decoder D)
      → IsValid g s
      → IsValid g (abort_callbacks s) × ((abort_callbacks s).drain_cb ≡ none)
  abort_callbacks-IsValid s v =
      let eq = abort_callbacks_lem s in
      (
        IsValid-same {t = all_aborted s} eq (record {
          input_owner = v.input_owner;
          output_owner = v.output_owner;
          frames = v.frames;
          drain = drain_ok-none s.state;
          pool = v.pool;
          used = λ c.
              let calls = s.called ++ aborted_calls s.pending_decode_cbs in
              omega (
                arith,
                v.used c,
                in_called-++ c calls (aborted_drain s.drain_cb),
                in_called-++ c s.called (aborted_calls s.pending_decode_cbs),
                in_called-aborted_calls c s.pending_decode_cbs,
                in_called-aborted_drain c s.drain_cb,
              );
        }),
        ap (λ (t : Decoder D). t.drain_cb) eq,
      )

  restart_queues-IsValid :
      (s : Decoder D)
      → IsValid g s
      → IsValid g (restart_queues device s) × ((restart_queues device s).drain_cb ≡ s.drain_cb)
  unfolding restart_queues
  restart_queues-IsValid s v =
      let cleared = record (put_output (streamoff device.output_driver (output s)).0 s) {
        frame_at_device = [];
      } in
      let w = stopped-IsValid device stops s s.block_id_to_v4l2_id v in
      let stopped = (streamoff device.driver cleared.input_queue).0 in
      let started = record cleared { input_queue = (streamon device.driver stopped).0 } in
      let x : IsValid g started = record {
        input_owner =
            streamon-HasOneOwner device.driver stopped []
              (streamoff-HasOneOwner device.driver cleared.input_queue [] w.input_owner);
        output_owner = w.output_owner;
        frames = w.frames;
        drain = w.drain;
        pool = w.pool;
        used = w.used;
      } in
      elim (Bool-cases s.output_queue.is_streaming) [
        | inl k ↦ (
          IsValid-same {t = put_output (streamon device.output_driver (output started)).0 started}
              (ground arith) (streamon_output-IsValid device stops started x),
          ground arith,
        )
        | inr k ↦ (IsValid-same {t = started} (ground arith) x, ground arith)
      ]

  stop_polling-IsValid :
      (s : Decoder D)
      → IsValid g s
      → IsValid g (stop_polling device s).0 × ((stop_polling device s).0.drain_cb ≡ s.drain_cb)
  unfolding stop_polling
  stop_polling-IsValid s v = (
    record {
      input_owner = v.input_owner;
      output_owner = v.output_owner;
      frames = v.frames;
      drain = v.drain;
      pool = v.pool;
      used = v.used;
    },
    refl,
  )

  start_polling-IsValid :
      (s : Decoder D)
      → IsValid g s
      → IsValid g (start_polling device s).0 × ((start_polling device s).0.drain_cb ≡ s.drain_cb)
  unfolding start_polling
  start_polling-IsValid s v = (
    record {
      input_owner = v.input_owner;
      output_owner = v.output_owner;
      frames = v.frames;
      drain = v.drain;
      pool = v.pool;
      used = v.used;
    },
    refl,
  )

  fetch_if_pool-IsValid :
      (s : Decoder D)
      → IsValid g s
      → IsValid g (fetch_if_pool device s) × ((fetch_if_pool device s).drain_cb ≡ s.drain_cb)
  unfolding fetch_if_pool
  fetch_if_pool-IsValid s v = elim (Option-cases s.video_frame_pool) [
    | inl n ↦ (IsValid-same {t = s} (ground arith) v, ground arith)
    | inr (pool, n) ↦ (
      IsValid-same {t = try_fetch_video_frame s} (ground arith) (try_fetch_video_frame-IsValid s v),
      ground (arith, try_fetch_video_frame-drain_cb s),
    )
  ]

  finish_flush-IsValid :
      (s : Decoder D)
      → IsValid g s
      → s.drain_cb ≡ none
      → let (u, polling) = start_polling device s in
        IsValid g (if polling then set_state idle u else on_error u)
  finish_flush-IsValid s v n =
      let (w, same) = start_polling-IsValid s v in
      let u = (start_polling device s).0 in
      elim (Bool-cases (start_polling device s).1) [
        | inl k ↦
            IsValid-same {t = set_state idle u} (ground arith) (set_idle-IsValid u w (same ∙ n))
        | inr k ↦ IsValid-same {t = on_error u} (ground arith) (on_error-IsValid u w)
      ]

  do_flush-IsValid : (s : Decoder D) → IsValid g s → IsValid g (do_flush device s)
  unfolding do_flush
  do_flush-IsValid s v =
      let (va, da) = abort_callbacks-IsValid s v in
      let a = abort_callbacks s in
      let (vb, db) = stop_polling-IsValid a va in
      let b = (stop_polling device a).0 in
      let (vc, dc) = restart_queues-IsValid b vb in
      let c = restart_queues device b in
      let (vd, dd) = fetch_if_pool-IsValid c vc in
      finish_flush-IsValid (fetch_if_pool device c) vd (dd ∙ dc ∙ db ∙ da)

  pub flush-IsValid : (s : Decoder D) → IsValid g s → IsValid g (flush device s)
  unfolding flush
  flush-IsValid s v = elim (State-flushes s.state) [
    | inl k ↦ IsValid-same {t = s} (ground arith) v
    | inr k ↦ IsValid-same {t = do_flush device s} (ground arith) (do_flush-IsValid s v)
  ]
