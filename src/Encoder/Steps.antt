-- ===== src/Encoder/Steps.antt =====
-- The calls and tasks of V4L2Encoder in any order, and that no encode request is forgotten.
use android_external_v4l2_co.Prelude.{ℕ, ◌≡◌, ◌<◌, true, Option, [], arith, done}
use android_external_v4l2_co.Encoder.{
  waiting_for_input_frame, Encoder, EncoderDevice, on_error, encode, drain, flush,
}
use android_external_v4l2_co.Encoder.Request.{handle_encode_request}
use android_external_v4l2_co.Encoder.Service.{service_device_task}
use android_external_v4l2_co.Encoder.Wakes.{
  awake, IsAwake, on_error-IsAwake, encode-IsAwake, drain-IsAwake, flush-IsAwake,
}
use android_external_v4l2_co.Encoder.Handled.{handle_encode_request-IsAwake}
use android_external_v4l2_co.Encoder.Served.{service_device_task-IsAwake}

module _ {D : Type 0} (device : EncoderDevice D) where
  -- A call of the client, a posted call that runs, or a notice of the poll thread that is served.
  pub data Move : Encoder D → Encoder D → Type 0 where
    encodes : (frame : Option ℕ) (s : Encoder D) → Move s (encode frame s).0
    drains : (s : Encoder D) → Move s (drain device s)
    flushes : (s : Encoder D) → Move s (flush device s)
    handles : (s : Encoder D) → 0 < s.posted → Move s (handle_encode_request device s)
    services :
        (rounds : ℕ) (s t : Encoder D) → service_device_task device rounds s ≡ done t → Move s t
    fails_poll : (s : Encoder D) → Move s (on_error s)

  -- What may follow an initialization that succeeded.
  pub data Reachable : Encoder D → Type 0 where
    initialized :
        (s : Encoder D) → s.state ≡ waiting_for_input_frame → s.encode_requests ≡ [] → Reachable s
    moved : (s t : Encoder D) → Reachable s → Move s t → Reachable t

  Move-IsAwake : (s t : Encoder D) → Move s t → IsAwake s → IsAwake t
  Move-IsAwake s _ (encodes frame _) a = encode-IsAwake frame s a
  Move-IsAwake s _ (drains _) a = drain-IsAwake device s a
  Move-IsAwake s _ (flushes _) a = flush-IsAwake device s
  Move-IsAwake s _ (handles _ h) a = handle_encode_request-IsAwake device s a
  Move-IsAwake s t (services rounds _ _ e) a = service_device_task-IsAwake device rounds s t e a
  Move-IsAwake s _ (fails_poll _) a = on_error-IsAwake s

  -- In whatever order an encoder is asked to encode, drain and flush, and its tasks run and are served,
  -- no encode request is forgotten: an encoder that waits for frames has no request, one that waits
  -- for a buffer of the device has one, and one that encodes has one and a call of
  -- handleEncodeRequest is posted for it.
  pub Reachable-awake :
      (s : Encoder D) → Reachable s → awake s.state s.encode_requests s.posted ≡ true
  Reachable-awake s (initialized _ e n) = ground arith
  Reachable-awake t (moved s _ r m) = Move-IsAwake s t m (Reachable-awake s r)
