-- ===== src/Decoder.antt =====
-- components/V4L2Decoder.cpp: the state of V4L2Decoder, and its requests up to the input queue. What
-- comes back from the device is in Service.antt, the output side in Output.antt, flush in Flush.antt
-- and the change of resolution in Resolution.antt.
-- A callback is a number, and `called` lists the callbacks that were run or posted, with their
-- status. The ioctls besides those of the queues are parameters, and so is the plane size of the
-- input buffers, which getPlaneSize gives. The device's state is the one in the input queue; an
-- operation on the output queue takes it from there and puts it back.
pub mod Callbacks
pub mod Pump
pub mod Once
pub mod Output
pub mod Service
pub mod Resolution
pub mod Flush
pub mod Start
pub mod Valid
pub mod Returned
pub mod ReturnedOutput
pub mod ValidResolution
pub mod ValidFlush
pub mod ValidService
pub mod ValidRequests
pub mod ValidStart
pub mod Ends
pub mod Terminates
pub mod Steps
use android_external_v4l2_co.Prelude.{
  ℕ, ◌+◌, Bool, true, false, not, ◌||◌, Option, none, some, List, [], ◌∷◌, ◌++◌, ltb, ◌==◌,
  if◌then◌else◌, length, ◌≡◌, ◌<◌,
}
use android_external_v4l2_co.PixelFormat.Tables.{Size}
use android_external_v4l2_co.Poller.{Poller}
use android_external_v4l2_co.VideoFramePool.{VideoFramePool}
use android_external_v4l2_co.Queue.{Queue, BufferRef, Driver, get_free_buffer, drop_ref, do_queue}

pub data State : Type 0 where
  idle decoding draining error : State

-- VideoDecoder::DecodeStatus
pub data DecodeStatus : Type 0 where
  ok aborted failed : DecodeStatus

-- ConstBitstreamBuffer, without its handle.
pub record BitstreamBuffer : Type 0 where
  pub id : ℕ
  pub offset : ℕ
  pub size : ℕ

pub record DecodeRequest : Type 0 where
  -- `none` asks for a drain.
  pub buffer : Option BitstreamBuffer
  pub decode_cb : ℕ

pub record Decoder (D : Type 0) : Type 0 where
  pub state : State
  pub decode_requests : List DecodeRequest
  -- mPendingDecodeCbs: pairs of a bitstream id and a callback
  pub pending_decode_cbs : List (ℕ × ℕ)
  pub drain_cb : Option ℕ
  pub input_queue : Queue D
  pub output_queue : Queue D
  -- mFrameAtDevice: pairs of the index of a buffer and a frame
  pub frame_at_device : List (ℕ × ℕ)
  -- mBlockIdToV4L2Id: pairs of a block id and the index of a buffer
  pub block_id_to_v4l2_id : List (ℕ × ℕ)
  pub video_frame_pool : Option VideoFramePool
  pub coded_size : Size
  pub min_num_output_buffers : ℕ
  -- Whether the poll thread runs.
  pub is_polling : Bool
  -- The frames given to mOutputCb, with their bitstream ids.
  pub outputs : List (ℕ × ℕ)
  pub called : List (ℕ × DecodeStatus)
  -- How often mErrorCb was run.
  pub errors : ℕ

-- What VIDIOC_DQBUF filled in for a buffer of the output queue.
pub record DequeuedInfo : Type 0 where
  pub bitstream_id : ℕ
  pub bytes_used : ℕ
  pub is_last : Bool

-- What the decoder asks of the device besides the queues' ioctls. A Boolean answer is whether the
-- call succeeded.
pub record Device (D : Type 0) : Type 0 where
  -- The ioctls of the input queue.
  pub driver : Driver D
  pub output_driver : Driver D
  -- VIDIOC_DECODER_CMD; `true` starts, `false` stops
  pub decoder_cmd : D → Bool → D × Bool
  pub plane_size : ℕ
  -- The time stamp of the buffer that the input queue dequeued last.
  pub input_id : D → ℕ
  -- The same for the output queue.
  pub output_info : D → DequeuedInfo
  -- VIDIOC_DQEVENT, with whether the event is a change of the resolution. The device has finitely
  -- many events.
  pub dqevent : D → D × Option Bool
  pub events_left : D → ℕ
  pub dqevent_less :
      (d : D) (change : Bool)
      → (dqevent d).1 ≡ some change
      → events_left (dqevent d).0 < events_left d
  -- VIDIOC_G_FMT of the output queue: the width and height
  pub g_fmt : D → D × Option Size
  -- VIDIOC_G_CTRL for V4L2_CID_MIN_BUFFERS_FOR_CAPTURE
  pub min_buffers : D → D × Option ℕ
  -- The formats that enumerateSupportedPixelformats finds.
  pub formats : D → List ℕ
  -- V4L2Queue::setFormat of the output queue.
  pub set_format : D → ℕ → Size → D × Bool
  pub poller : Poller D
  -- mGetPoolCb: whether the client has a pool for the size and number of buffers.
  pub get_pool : Size → ℕ → Bool

-- The state that setState(newState) leaves.
unfoldable pub next_state : State → State → State
next_state error new_state = error
next_state decoding draining = draining
next_state draining draining = draining
next_state idle draining = error
next_state idle idle = idle
next_state idle decoding = decoding
next_state idle error = error
next_state decoding idle = idle
next_state decoding decoding = decoding
next_state decoding error = error
next_state draining idle = idle
next_state draining decoding = decoding
next_state draining error = error

-- std::map::insert leaves an entry with the same key as it is.
unfoldable pub insert_cb : ℕ → ℕ → List (ℕ × ℕ) → List (ℕ × ℕ)
insert_cb id cb [] = (id, cb) ∷ []
insert_cb id cb ((i, c) ∷ cbs) =
    let rest = insert_cb id cb cbs in if id == i then (i, c) ∷ cbs else (i, c) ∷ rest

module _ {D : Type 0} where
  unfoldable pub set_state : State → Decoder D → Decoder D
  set_state new_state s = record s { state = next_state s.state new_state }

  unfoldable pub on_error : Decoder D → Decoder D
  unfolding set_state
  on_error s = record (set_state error s) { errors = s.errors + 1 }

  -- The output queue with the device as it is now, and putting it back.
  abbrev pub output : Decoder D → Queue D
  output s = record s.output_queue { device = s.input_queue.device }

  abbrev pub put_output : Queue D → Decoder D → Decoder D
  put_output q s = record s {
    output_queue = q;
    input_queue = record s.input_queue { device = q.device };
  }

  abbrev pub put_device : D → Decoder D → Decoder D
  put_device d s = record s { input_queue = record s.input_queue { device = d } }

  unfoldable pub call : ℕ → DecodeStatus → Decoder D → Decoder D
  call cb status s = record s { called = s.called ++ ((cb, status) ∷ []) }

module _ {D : Type 0} (device : Device D) where
  -- pumpDecodeRequest at a drain request, with the requests behind it.
  unfoldable pub start_drain : ℕ → List DecodeRequest → Decoder D → Decoder D
  unfolding set_state on_error call
  start_drain cb rest s =
      let (d, success) = device.decoder_cmd s.input_queue.device false in
      let t = record s {
        decode_requests = rest;
        input_queue = record s.input_queue { device = d };
      } in
      if ltb 0 (length s.input_queue.queued_buffers)
      then s
      else if success
      then set_state draining (record t { drain_cb = some cb })
      else on_error (call cb failed t)

  -- The loop of pumpDecodeRequest. The list is mDecodeRequests.
  unfoldable pub pump_requests : List DecodeRequest → Decoder D → Decoder D
  unfolding start_drain on_error
  pump_requests [] s = s
  pump_requests (r ∷ rest) s = elim r.buffer [
    | none ↦ start_drain r.decode_cb rest s
    | some b ↦ elim (get_free_buffer s.input_queue) [
      | none ↦ s
      | some (input_buffer, q) ↦
          let t = record s { decode_requests = rest } in
          let (queue, queued) = do_queue device.driver input_buffer q in
          let more = pump_requests rest (record t {
            input_queue = queue;
            pending_decode_cbs = insert_cb b.id r.decode_cb s.pending_decode_cbs;
          }) in
          if ltb device.plane_size b.size
          then on_error (record t { input_queue = drop_ref input_buffer q })
          else if queued
          then more
          else on_error (record t { input_queue = queue })
    ]
  ]

  unfoldable pub pump_decode_request : Decoder D → Decoder D
  pump_decode_request s = elim s.state [
    | decoding ↦ pump_requests s.decode_requests s
    | idle ↦ s
    | draining ↦ s
    | error ↦ s
  ]

  unfoldable pub push_request : DecodeRequest → Decoder D → Decoder D
  unfolding pump_decode_request
  push_request r s =
      pump_decode_request (record s { decode_requests = s.decode_requests ++ (r ∷ []) })

  unfoldable pub decode : BitstreamBuffer → ℕ → Decoder D → Decoder D
  unfolding push_request set_state call
  decode buffer decode_cb s =
      let r : DecodeRequest = record { buffer = some buffer; decode_cb = decode_cb } in
      elim s.state [
        | error ↦ call decode_cb failed s
        | idle ↦ push_request r (set_state decoding s)
        | decoding ↦ push_request r s
        | draining ↦ push_request r s
      ]

  unfoldable pub drain : ℕ → Decoder D → Decoder D
  unfolding push_request call
  drain drain_cb s = elim s.state [
    | idle ↦ call drain_cb ok s
    | decoding ↦ push_request (record { buffer = none; decode_cb = drain_cb }) s
    | draining ↦ call drain_cb failed s
    | error ↦ call drain_cb failed s
  ]
