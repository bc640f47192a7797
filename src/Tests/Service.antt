-- ===== src/Tests/Service.antt =====
-- A decoder that is started, gets a buffer to decode, and is served with a change of resolution.
use android_external_v4l2_co.Prelude.{
  ◌+◌, ◌≡◌, ◌≢◌, ◌<◌, refl, Bool, true, false, some, [], ◌∷◌, arith, length, Checked, done,
  out_of_fuel,
}
use android_external_v4l2_co.VideoFramePool
use android_external_v4l2_co.VideoFramePool.{
  VideoFramePool, initial_back_off, FrameWithBlockId, block, get_video_frame, get_video_frame_task,
  post_ready, frame_of,
}
use android_external_v4l2_co.Poller.{start_poller}
use android_external_v4l2_co.Fourcc.{to_v4l2_pix_fmt}
use android_external_v4l2_co.Queue.{
  get_free_buffer, do_queue, queue_buffer, is_current, drop_ref, return_buffer, dequeue_buffer,
  dequeue_answer, give_ref, streamon, streamoff, return_all, allocate_buffers, query_buffers,
  deallocate_buffers,
}
use android_external_v4l2_co.Queue.Sets.{insert, erase, contains}
use android_external_v4l2_co.Decoder.{
  State, Decoder, BitstreamBuffer, next_state, insert_cb, set_state, call, decode, push_request,
  pump_decode_request, pump_requests,
}
use android_external_v4l2_co.Decoder.Output.{
  find_key, erase_key, try_fetch_video_frame, request_frame,
}
use android_external_v4l2_co.Decoder.Start.{
  new_decoder, start, do_start, open_queues, setup_input_format, setup_input_buffers, is_listed,
}
use android_external_v4l2_co.Decoder.Service.{
  Served, went_on, service_input, service_output, decoded,
}
use android_external_v4l2_co.Decoder.Resolution.{
  dequeue_resolution_change_event, setup_output_format, reallocate, replace_pool, change_buffers,
  change_format, change_resolution,
}
use android_external_v4l2_co.Decoder.Flush.{
  start_polling, service_device_task, service_loops, service_rest, handle_event,
}
use android_external_v4l2_co.Decoder.Valid.{IsValid}
use android_external_v4l2_co.Decoder.ValidStart.{IsReady, start_lem}
use android_external_v4l2_co.Decoder.ValidService.{IsServed, service_device_task-IsServed}
use android_external_v4l2_co.Decoder.Terminates.{service_input_returns}
use android_external_v4l2_co.Decoder.Steps.{
  world, with_pool, Reachable, started, moved, decodes, services, pool_fetches, times_given,
  Reachable-IsValid, Reachable-answers,
}
use android_external_v4l2_co.Tests.Machine.{Machine, machine, opening, at_rest}

stops : (m : Machine) → (machine.output_driver.stream_off m).1 ≡ true
stops m = refl

abbrev running : Decoder Machine
running = (start machine opening 5 4096 2 (new_decoder at_rest)).0

starts : start machine opening 5 4096 2 (new_decoder at_rest) ≡ (running, true)
unfolding start do_start open_queues setup_input_format setup_input_buffers is_listed start_polling
    start_poller set_state allocate_buffers query_buffers return_buffer insert streamon
starts = refl

abbrev buffer : BitstreamBuffer
buffer = record { id = 7; offset = 0; size = 100 }

abbrev busy_decoder : Decoder Machine
busy_decoder = decode machine buffer 11 running

-- The input buffer comes back, and the resolution changes.
abbrev served : Checked (Served Machine × Bool × Bool)
served = service_device_task machine 2 true busy_decoder

abbrev served_state : Checked (Served Machine × Bool × Bool) → Decoder Machine
served_state (done (went_on t b, pump, fetch)) = t
served_state _ = running

abbrev changed : Decoder Machine
changed = served_state served

serves : served ≡ done (went_on changed false, true, false)
unfolding service_device_task service_loops service_rest service_input service_output handle_event
    dequeue_resolution_change_event setup_output_format reallocate replace_pool change_buffers
    change_format change_resolution decoded call find_key erase_key dequeue_buffer dequeue_answer
    give_ref get_free_buffer do_queue queue_buffer is_current drop_ref return_buffer streamon
    streamoff return_all allocate_buffers query_buffers deallocate_buffers insert erase contains
    decode push_request pump_decode_request pump_requests insert_cb set_state next_state start
    do_start open_queues setup_input_format setup_input_buffers is_listed start_polling start_poller
    try_fetch_video_frame request_frame get_video_frame to_v4l2_pix_fmt
serves = refl

start_lem_example :
    IsValid (λ c. 0) running
    × (running.state ≡ State.idle)
    × (running.is_polling ≡ true)
    × IsReady running.input_queue
start_lem_example = start_lem machine opening 5 4096 2 at_rest running starts

running-Reachable : Reachable machine opening (world running [])
running-Reachable = started at_rest 5 4096 2 running starts

busy-Reachable : Reachable machine opening (world busy_decoder (11 ∷ []))
busy-Reachable =
    moved (world running []) (world busy_decoder (11 ∷ [])) running-Reachable
      (decodes running [] buffer 11)

changed-Reachable : Reachable machine opening (world changed (11 ∷ []))
changed-Reachable =
    moved (world busy_decoder (11 ∷ [])) (world changed (11 ∷ [])) busy-Reachable
      (services busy_decoder changed (11 ∷ []) 2 true false true false serves)

Reachable-IsValid_example : IsValid (times_given (11 ∷ [])) changed
Reachable-IsValid_example =
    Reachable-IsValid machine stops opening (world changed (11 ∷ [])) changed-Reachable

service_device_task-IsServed_example :
    IsServed (times_given (11 ∷ [])) (service_device_task machine 2 true busy_decoder)
service_device_task-IsServed_example =
    service_device_task-IsServed (times_given (11 ∷ [])) machine stops 2 true busy_decoder
      (Reachable-IsValid machine stops opening (world busy_decoder (11 ∷ [])) busy-Reachable)

service_input_returns_example :
    service_input machine (length busy_decoder.input_queue.queued_buffers) false busy_decoder
    ≢ out_of_fuel
service_input_returns_example =
    service_input_returns machine (times_given (11 ∷ [])) false busy_decoder
      (Reachable-IsValid machine stops opening (world busy_decoder (11 ∷ [])) busy-Reachable)

-- The pool of the new resolution gets its first block.
abbrev frame : FrameWithBlockId
frame = record { frame = 9; block_id = 42 }

abbrev waiting : VideoFramePool
waiting = (get_video_frame VideoFramePool.new_pool).0

abbrev filled : VideoFramePool
filled = (get_video_frame_task (block (some 42) (some 9)) false initial_back_off waiting).1

has_pool : changed.video_frame_pool ≡ some waiting
unfolding service_device_task service_loops service_rest service_input service_output handle_event
    dequeue_resolution_change_event setup_output_format reallocate replace_pool change_buffers
    change_format change_resolution decoded call find_key erase_key dequeue_buffer dequeue_answer
    give_ref get_free_buffer do_queue queue_buffer is_current drop_ref return_buffer streamon
    streamoff return_all allocate_buffers query_buffers deallocate_buffers insert erase contains
    decode push_request pump_decode_request pump_requests insert_cb set_state next_state start
    do_start open_queues setup_input_format setup_input_buffers is_listed start_polling start_poller
    try_fetch_video_frame request_frame get_video_frame to_v4l2_pix_fmt
has_pool = refl

fetches_one : 0 < waiting.fetch_tasks
unfolding get_video_frame
fetches_one = omega arith

is_posted : filled.ready_tasks ≡ some frame ∷ []
unfolding get_video_frame get_video_frame_task post_ready frame_of
is_posted = refl

filled-Reachable : Reachable machine opening (world (with_pool filled changed) (11 ∷ []))
filled-Reachable =
    moved (world changed (11 ∷ [])) (world (with_pool filled changed) (11 ∷ [])) changed-Reachable (
      pool_fetches changed (11 ∷ []) waiting (block (some 42) (some 9)) false initial_back_off
        has_pool fetches_one)

Reachable-answers_example :
    (q : VideoFramePool) × (VideoFramePool.on_video_frame_ready (some frame) [] filled
      ≡ done (q, some frame))
    × (q.output_cb ≡ false)
    × (q.fetch_tasks + q.notified + length q.ready_tasks ≡ 0)
Reachable-answers_example =
    Reachable-answers machine stops opening (world (with_pool filled changed) (11 ∷ [])) filled
      (some frame) [] filled-Reachable refl is_posted
