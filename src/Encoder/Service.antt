-- ===== src/Encoder/Service.antt =====
-- serviceDeviceTask of V4L2Encoder: what comes back from the device.
use android_external_v4l2_co.Prelude.{
  ℕ, zero, suc, Bool, true, false, not, none, some, [], ◌∷◌, ◌++◌, ltb, ◌==◌, if◌then◌else◌, length,
  Checked, fault, out_of_fuel, done, ◌>>=◌,
}
use android_external_v4l2_co.EncodeHelpers.{extract_sps_pps, prepend_sps_pps_to_idr}
use android_external_v4l2_co.Queue.{drop_ref, dequeue_buffer}
use android_external_v4l2_co.Decoder.Output.{find_key, erase_key}
use android_external_v4l2_co.Encoder.{
  uninitialized, waiting_for_input_frame, waiting_for_v4l2_buffer, encoding, draining, error,
  Encoder, EncoderDevice, Encoded, EncodedInfo, is_error, set_state, on_error, post, output,
  put_output, put_device, on_drain_done,
}
use android_external_v4l2_co.Encoder.Request.{enqueue_output_buffer}

module _ {D : Type 0} where
  -- The test at the end of dequeueInputBuffer.
  unfoldable pub wake : Encoder D → Encoder D
  unfolding set_state
  wake s = elim s.state [
    | waiting_for_v4l2_buffer ↦ elim s.encode_requests [
      | [] ↦ s
      | r ∷ rs ↦ post (set_state encoding s)
    ]
    | uninitialized ↦ s
    | waiting_for_input_frame ↦ s
    | encoding ↦ s
    | draining ↦ s
    | error ↦ s
  ]

  -- Running the output callback.
  unfoldable pub give_output : ℕ → ℕ → EncodedInfo → Encoder D → Encoder D
  give_output size buffer info s =
      let e : Encoded = record {
        size = size;
        timestamp = info.timestamp;
        is_key_frame = info.is_key_frame;
        buffer = buffer;
      } in
      record s { outputs_done = s.outputs_done ++ (e ∷ []) }

module _ {D : Type 0} (device : EncoderDevice D) where
  -- dequeueInputBuffer: whether a buffer came. A buffer without its frame is a null pointer.
  unfoldable pub dequeue_input_buffer : Encoder D → Checked (Encoder D × Bool)
  unfolding on_error wake
  dequeue_input_buffer s = elim (is_error s.state) [
    | true ↦ done (s, false)
    | false ↦ dequeue_buffer device.driver s.input_queue >>= λ (q, success, buffer).
        let t = record s { input_queue = q } in
        if not success then done (on_error t, false) else elim buffer [
          | none ↦ done (t, false)
          | some r ↦ elim (find_key r.index s.input_buffers) [
            | none ↦ fault
            | some frame ↦ done (
              wake (record s {
                input_queue = drop_ref r q;
                input_buffers = erase_key r.index s.input_buffers;
                inputs_done = s.inputs_done ++ (frame ∷ []);
              }),
              true,
            )
          ]
        ]
  ]

  -- A key frame with the cached parameter sets in a new buffer, if it is large enough.
  unfoldable pub give_injected : ℕ → EncodedInfo → Encoder D → Checked (Encoder D × Bool)
  unfolding give_output on_error
  give_injected bitstream info s =
      let (d, fetched) = device.fetch_output_buffer s.input_queue.device in
      let t = put_device d s in
      elim fetched [
        | none ↦ done (on_error t, false)
        | some (prepended, size) ↦
            prepend_sps_pps_to_idr info.bytes size s.cached_sps s.cached_pps
            >>= λ (injection, new_size).
                let u = record t { cached_sps = injection.sps; cached_pps = injection.pps } in
                done (
                  if ltb 0 new_size
                  then (give_output new_size prepended info u, true)
                  else (give_output (length info.bytes) bitstream info u, true))
      ]

  -- What dequeueOutputBuffer gives to the client; whether it goes on.
  unfoldable pub give_encoded : ℕ → EncodedInfo → Encoder D → Checked (Encoder D × Bool)
  unfolding give_output give_injected
  give_encoded bitstream info s =
      let size = length info.bytes in
      elim (ltb 0 size) [
        | false ↦ done (s, true)
        | true ↦ elim s.inject_params_before_idr [
          | false ↦ done (give_output size bitstream info s, true)
          | true ↦ elim info.is_key_frame [
            | true ↦ give_injected bitstream info s
            | false ↦ extract_sps_pps info.bytes s.cached_sps s.cached_pps >>= λ params. done (
              give_output size bitstream info
                  (record s { cached_sps = params.sps; cached_pps = params.pps }),
              true,
            )
          ]
        ]
      ]

  -- The last buffer of a drain; whether dequeueOutputBuffer goes on.
  unfoldable pub finish_drain : Bool → Encoder D → Encoder D × Bool
  unfolding on_drain_done on_error
  finish_drain is_last s =
      let t = on_drain_done true s in
      let (d, started) = device.encoder_cmd t.input_queue.device true in
      let u = put_device d t in
      elim s.state [
        | draining ↦
            if is_last then if started then (u, true) else (on_error u, false) else (s, true)
        | uninitialized ↦ (s, true)
        | waiting_for_input_frame ↦ (s, true)
        | waiting_for_v4l2_buffer ↦ (s, true)
        | encoding ↦ (s, true)
        | error ↦ (s, true)
      ]

  -- The part of dequeueOutputBuffer that has a buffer, which went back to the free ones: nothing here
  -- takes a free buffer before the source drops its reference too.
  unfoldable pub take_encoded : ℕ → EncodedInfo → Encoder D → Checked (Encoder D × Bool)
  unfolding give_encoded finish_drain
  take_encoded bitstream info s = give_encoded bitstream info s >>= λ (t, given).
      let (u, goes_on) = finish_drain info.is_last t in
      done (
        if not given
        then (t, false)
        else if goes_on
        then ((enqueue_output_buffer device u).0, true)
        else (u, false))

  unfoldable pub dequeue_output_buffer : Encoder D → Checked (Encoder D × Bool)
  unfolding on_error take_encoded
  dequeue_output_buffer s = elim (is_error s.state) [
    | true ↦ done (s, false)
    | false ↦ dequeue_buffer device.output_driver (output s) >>= λ (q, success, buffer).
        if not success then done (on_error (put_output q s), false) else elim buffer [
          | none ↦ done (put_output q s, false)
          | some r ↦
              let t = put_output (drop_ref r q) s in
              elim (find_key r.index s.output_buffers) [
                | none ↦ done (on_error t, false)
                | some bitstream ↦
                    take_encoded bitstream (device.output_info q.device)
                      (record t { output_buffers = erase_key r.index s.output_buffers })
              ]
        ]
  ]

  -- The loops of serviceDeviceTask, with a number of rounds.
  unfoldable pub service_input : ℕ → Encoder D → Checked (Encoder D)
  unfolding dequeue_input_buffer
  service_input zero s = if length s.input_queue.queued_buffers == 0 then done s else out_of_fuel
  service_input (suc n) s = elim (length s.input_queue.queued_buffers == 0) [
    | true ↦ done s
    | false ↦ dequeue_input_buffer s >>= λ (t, dequeued). elim dequeued [
      | false ↦ done t
      | true ↦ service_input n t
    ]
  ]

  unfoldable pub service_output : ℕ → Encoder D → Checked (Encoder D)
  unfolding dequeue_output_buffer
  service_output zero s = if length s.output_queue.queued_buffers == 0 then done s else out_of_fuel
  service_output (suc n) s = elim (length s.output_queue.queued_buffers == 0) [
    | true ↦ done s
    | false ↦ dequeue_output_buffer s >>= λ (t, dequeued). elim dequeued [
      | false ↦ done t
      | true ↦ service_output n t
    ]
  ]

  unfoldable pub service_device_task : ℕ → Encoder D → Checked (Encoder D)
  unfolding service_input service_output is_error
  service_device_task rounds s = elim (is_error s.state) [
    | true ↦ done s
    | false ↦ service_input (length s.input_queue.queued_buffers) s >>= λ t. service_output rounds t
  ]
