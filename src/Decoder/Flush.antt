-- ===== src/Decoder/Flush.antt =====
-- flush of V4L2Decoder, and the whole
-- of serviceDeviceTask. The loop over the output queue has a number of rounds: it puts empty buffers
-- back in the queue, so only the device decides when it ends.
use android_external_v4l2_co.Prelude.{
  ℕ, suc, Bool, true, false, none, some, List, [], ◌∷◌, if◌then◌else◌, length, Checked, done, ◌>>=◌,
}
use android_external_v4l2_co.Queue.{streamon, streamoff}
use android_external_v4l2_co.Poller.{start_poller, stop_poller}
use android_external_v4l2_co.Decoder.{
  idle, decoding, draining, error, DecodeStatus, Decoder, Device, set_state, on_error, call, output,
  put_output, put_device,
}
use android_external_v4l2_co.Decoder.Output.{try_fetch_video_frame}
use android_external_v4l2_co.Decoder.Service.{
  Served, went_on, returned, frame_missing, slot_missing, service_input, service_output,
}
use android_external_v4l2_co.Decoder.Resolution.{dequeue_resolution_change_event, change_resolution}

module _ {D : Type 0} where
  -- The loop over mPendingDecodeCbs.
  unfoldable pub abort_pending : List (ℕ × ℕ) → Decoder D → Decoder D
  unfolding call
  abort_pending [] s = s
  abort_pending ((id, cb) ∷ cbs) s = abort_pending cbs (call cb DecodeStatus.aborted s)

  -- All callbacks that flush calls.
  unfoldable pub abort_callbacks : Decoder D → Decoder D
  unfolding abort_pending call
  abort_callbacks s =
      let t = record (abort_pending s.pending_decode_cbs s) { pending_decode_cbs = [] } in
      elim s.drain_cb [
        | none ↦ t
        | some cb ↦ record (call cb DecodeStatus.aborted t) { drain_cb = none }
      ]

module _ {D : Type 0} (device : Device D) where
  -- startPolling of mDevice, and whether it succeeded.
  unfoldable pub start_polling : Decoder D → Decoder D × Bool
  start_polling s =
      let (d, runs, success) = start_poller device.poller s.input_queue.device s.is_polling in
      (record (put_device d s) { is_polling = runs }, success)

  -- stopPolling of mDevice.
  unfoldable pub stop_polling : Decoder D → Decoder D × Bool
  stop_polling s =
      let (d, runs, success) = stop_poller device.poller s.input_queue.device s.is_polling in
      (record (put_device d s) { is_polling = runs }, success)

  -- Both queues are stopped and started again.
  unfoldable pub restart_queues : Decoder D → Decoder D
  restart_queues s =
      let out = put_output (streamoff device.output_driver (output s)).0 s in
      let cleared = record out { frame_at_device = [] } in
      let stopped = (streamoff device.driver cleared.input_queue).0 in
      let started = record cleared { input_queue = (streamon device.driver stopped).0 } in
      if s.output_queue.is_streaming
      then put_output (streamon device.output_driver (output started)).0 started
      else started

  unfoldable pub fetch_if_pool : Decoder D → Decoder D
  fetch_if_pool s = elim s.video_frame_pool [ none ↦ s | some pool ↦ try_fetch_video_frame s ]

  unfoldable pub do_flush : Decoder D → Decoder D
  unfolding abort_callbacks stop_polling restart_queues fetch_if_pool start_polling set_state
      on_error
  do_flush s =
      let t = fetch_if_pool (restart_queues (stop_polling (abort_callbacks s)).0) in
      let (u, polling) = start_polling t in if polling then set_state idle u else on_error u

  unfoldable pub flush : Decoder D → Decoder D
  unfolding do_flush
  flush s = elim s.state [ idle ↦ s | error ↦ s | decoding ↦ do_flush s | draining ↦ do_flush s ]

  -- The handling of an event; the Boolean is whether serviceDeviceTask goes on.
  unfoldable pub handle_event : Bool → Decoder D → Checked (Decoder D × Bool)
  unfolding on_error
  handle_event false s = done (s, true)
  handle_event true s =
      dequeue_resolution_change_event device (suc (device.events_left s.input_queue.device)) s
      >>= λ (t, change).
          let (u, changed) = change_resolution device t in
          done (if change then (if changed then (u, true) else (on_error u, false)) else (t, true))

  -- Both loops of serviceDeviceTask and the event. The Booleans at the end are whether
  -- pumpDecodeRequest and tryFetchVideoFrame are posted.
  unfoldable pub service_rest : ℕ → Bool → Bool → Decoder D → Checked (Served D × Bool × Bool)
  unfolding handle_event
  service_rest rounds event input_dequeued s = service_output device rounds false s >>= λ served.
      elim served [
        | returned t ↦ done (returned t, false, false)
        | frame_missing ↦ done (frame_missing, false, false)
        | slot_missing ↦ done (slot_missing, false, false)
        | went_on t output_dequeued ↦ handle_event event t >>= λ (u, goes_on). done (
            if goes_on
            then (went_on u output_dequeued, input_dequeued, output_dequeued)
            else (returned u, false, false))
      ]

  unfoldable pub service_loops : ℕ → Bool → Decoder D → Checked (Served D × Bool × Bool)
  unfolding service_rest
  service_loops rounds event s =
      service_input device (length s.input_queue.queued_buffers) false s >>= λ served. elim served [
        | returned t ↦ done (returned t, false, false)
        | frame_missing ↦ done (frame_missing, false, false)
        | slot_missing ↦ done (slot_missing, false, false)
        | went_on t input_dequeued ↦ service_rest rounds event input_dequeued t
      ]

  unfoldable pub service_device_task : ℕ → Bool → Decoder D → Checked (Served D × Bool × Bool)
  unfolding service_loops
  service_device_task rounds event s = elim s.state [
    | error ↦ done (returned s, false, false)
    | idle ↦ service_loops rounds event s
    | decoding ↦ service_loops rounds event s
    | draining ↦ service_loops rounds event s
  ]
