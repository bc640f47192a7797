-- ===== src/Decoder/Service.antt =====
-- serviceDeviceTask of V4L2Decoder: the buffers that the device gives back.
-- A reference to a dequeued buffer goes out of scope at the end of a round; here it is dropped before
-- the drain callback is called, which touches neither the queue nor its lists.
use android_external_v4l2_co.Prelude.{
  ℕ, zero, suc, Bool, true, false, Option, none, some, [], ◌∷◌, ◌++◌, ltb, ◌==◌, if◌then◌else◌,
  length, Checked, out_of_fuel, done, ◌>>=◌,
}
use android_external_v4l2_co.Queue.{get_free_buffer_at, drop_ref, do_queue, dequeue_buffer}
use android_external_v4l2_co.Decoder.{
  idle, DecodeStatus, Decoder, Device, set_state, on_error, call, output, put_output, DequeuedInfo,
  put_device,
}
use android_external_v4l2_co.Decoder.Output.{find_key, erase_key}

-- How a loop of serviceDeviceTask ends: it went on to the part behind it, having dequeued a buffer or
-- not; it returned after an error; or an assertion of the source failed, about the frame of a buffer
-- that came back or about the slot of an empty one.
pub data Served (D : Type 0) : Type 0 where
  went_on : Decoder D → Bool → Served D
  returned : Decoder D → Served D
  frame_missing : Served D
  slot_missing : Served D

module _ {D : Type 0} where
  -- The decode callback of the bitstream, if there is one.
  unfoldable pub decoded : ℕ → Decoder D → Decoder D
  unfolding call
  decoded id s = elim (find_key id s.pending_decode_cbs) [
    | none ↦ s
    | some cb ↦ record (call cb DecodeStatus.ok s) {
      pending_decode_cbs = erase_key id s.pending_decode_cbs;
    }
  ]

module _ {D : Type 0} (device : Device D) where
  unfoldable pub service_input : ℕ → Bool → Decoder D → Checked (Served D)
  unfolding decoded on_error
  service_input zero some_dequeued s =
      if length s.input_queue.queued_buffers == 0
      then done (went_on s some_dequeued)
      else out_of_fuel
  service_input (suc n) some_dequeued s = elim (length s.input_queue.queued_buffers == 0) [
    | true ↦ done (went_on s some_dequeued)
    | false ↦ dequeue_buffer device.driver s.input_queue >>= λ (q, success, buffer).
        let t = record s { input_queue = q } in
        elim success [
          | false ↦ done (returned (on_error t))
          | true ↦ elim buffer [
            | none ↦ done (went_on t some_dequeued)
            | some r ↦
                service_input n true
                  (decoded (device.input_id q.device) (record t { input_queue = drop_ref r q }))
          ]
        ]
  ]

  -- The last buffer of a drain.
  unfoldable pub finish_drain : Bool → Decoder D → Decoder D
  unfolding set_state call
  finish_drain is_last s = elim s.drain_cb [
    | none ↦ s
    | some cb ↦
        if is_last
        then set_state idle
            (record (call cb DecodeStatus.ok
              (put_device (device.decoder_cmd s.input_queue.device true).0 s)) { drain_cb = none })
        else s
  ]

  -- An empty buffer goes back to the device with its frame; `none` is an assertion that fails.
  unfoldable pub recycle : ℕ → ℕ → Decoder D → Option (Decoder D × Bool)
  unfolding on_error
  recycle index frame s = elim (get_free_buffer_at index (output s)) [
    | none ↦ none
    | some (buffer, q) ↦
        let (queue, queued) = do_queue device.output_driver buffer q in
        let t = put_output queue s in
        some (
          if queued
          then (record t { frame_at_device = (index, frame) ∷ s.frame_at_device }, true)
          else (on_error t, false))
  ]

  unfoldable pub give_output : ℕ → ℕ → Decoder D → Decoder D
  give_output frame bitstream_id s = record s {
    outputs = s.outputs ++ ((frame, bitstream_id) ∷ []);
  }

  -- What a round does with a buffer that came back, its frame and what is known of it.
  unfoldable pub take_back : ℕ → ℕ → DequeuedInfo → Decoder D → Option (Decoder D × Bool)
  unfolding recycle give_output
  take_back index frame info s =
      if ltb 0 info.bytes_used
      then some (give_output frame info.bitstream_id s, true)
      else recycle index frame s

  unfoldable pub service_output : ℕ → Bool → Decoder D → Checked (Served D)
  unfolding take_back finish_drain on_error
  service_output zero some_dequeued s =
      if length s.output_queue.queued_buffers == 0
      then done (went_on s some_dequeued)
      else out_of_fuel
  service_output (suc n) some_dequeued s = elim (length s.output_queue.queued_buffers == 0) [
    | true ↦ done (went_on s some_dequeued)
    | false ↦ dequeue_buffer device.output_driver (output s) >>= λ (q, success, buffer).
        elim success [
          | false ↦ done (returned (on_error (put_output q s)))
          | true ↦ elim buffer [
            | none ↦ done (went_on (put_output q s) some_dequeued)
            | some r ↦
                let info = device.output_info q.device in
                elim (find_key r.index s.frame_at_device) [
                  | none ↦ done frame_missing
                  | some frame ↦
                      let t = record (put_output (drop_ref r q) s) {
                        frame_at_device = erase_key r.index s.frame_at_device;
                      } in
                      elim (take_back r.index frame info t) [
                        | none ↦ done slot_missing
                        | some (u, went_well) ↦ elim went_well [
                          | false ↦ done (returned u)
                          | true ↦ service_output n true (finish_drain info.is_last u)
                        ]
                      ]
                ]
          ]
        ]
  ]
