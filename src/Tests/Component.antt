-- ===== src/Tests/Component.antt =====
-- A component that is started, given a work and one that ends the stream, and drained.
use android_external_v4l2_co.Prelude.{
  ℕ, if◌then◌else◌, ◌+◌, ◌<◌, not, ◌&&◌, length, ◌≡◌, ◌⊎◌, refl, Bool, true, false, none, some,
  List, [], ◌∷◌, ◌++◌, Checked, fault, out_of_fuel, done,
}
use android_external_v4l2_co.Decoder.{DecodeStatus}
use android_external_v4l2_co.DecodeComponent.{
  running, error, corrupted, vp8, Status, Work, Task, Interface, Component, release, is_work_done,
  find_work, erase_work, insert_work, change_work, is_error, is_running, is_no_show_frame_work,
  report_work,
}
use android_external_v4l2_co.DecodeComponent.Report.{
  report_work_if_finished, pump_ids, pump_report_work, take_eos_work, finish_eos, report_eos_work,
}
use android_external_v4l2_co.DecodeComponent.Tasks.{
  config_color_aspects, send_buffer, send_flags, send_work, pump_works, pump_pending_works, prepare,
  queue_task, drain_task,
}
use android_external_v4l2_co.DecodeComponent.Callbacks.{
  decode_done, on_decode_done, report_each, detect, detect_no_show_frame_works,
  update_color_aspects, on_output_frame_ready, on_drain_done, run_task,
}
use android_external_v4l2_co.DecodeComponent.Control.{
  new_component, start_task, start, set_listener_vb, queue_nb,
}
use android_external_v4l2_co.DecodeComponent.Works.{
  count, count_at, count_tasks, all_given_back, all_empty,
}
use android_external_v4l2_co.DecodeComponent.Taken.{has_pump}
use android_external_v4l2_co.DecodeComponent.Steps.{
  Reachable, started, queued, moved, runs, decodes, outputs, drained, Reachable-total,
  Reachable-given_back, Reachable-pending,
}
use android_external_v4l2_co.DecodeComponent.Drains.{
  Answers, none_yet, given_up, still_pending, on_drain_done-eos, drain_task-on_drain_done,
}

abbrev vp8_interface : Interface
vp8_interface = record {
  video_codec = some vp8;
  parse_color_aspects = λ b. none;
  config = λ a. Status.ok;
  query_color_aspects = λ a. none;
  is_before = λ a b. false;
}

abbrev a_work : ℕ → ℕ → Bool → Work
a_work index buffer ends = record {
  frame_index = index;
  timestamp = 10;
  end_of_stream = ends;
  codec_config = false;
  worklets = 1;
  buffers = some buffer ∷ [];
  drop_frame = false;
  output_end_of_stream = false;
  outputs = [];
  result = Status.ok;
  worklets_processed = 0;
}

abbrev two_works : List Work
two_works = a_work 1 11 false ∷ a_work 2 22 true ∷ []

abbrev opened : Component
opened = (start vp8_interface true true none (set_listener_vb true true (new_component false)).0).0

abbrev given_two : Component
given_two = (queue_nb two_works opened).0

abbrev result_of : Checked Component → Component
result_of fault = new_component false
result_of out_of_fuel = new_component false
result_of (done c) = c

abbrev sent_one : Component
sent_one = result_of (
    run_task vp8_interface [] (Task.queue_task (a_work 1 11 false))
      (record given_two { tasks = Task.queue_task (a_work 2 22 true) ∷ [] }))

abbrev sent_two : Component
sent_two = result_of (
    run_task vp8_interface [] (Task.queue_task (a_work 2 22 true)) (record sent_one { tasks = [] }))

abbrev shown : Component
shown = on_output_frame_ready vp8_interface 1 7 sent_two

abbrev decoded_one : Component
decoded_one = result_of (on_decode_done 1 DecodeStatus.ok shown)

abbrev at_end : Component
at_end = on_drain_done DecodeStatus.ok decoded_one

starts :
    start vp8_interface true true none (set_listener_vb true true (new_component false)).0
    ≡ (opened, Status.ok)
unfolding start start_task set_listener_vb new_component is_running
starts = refl

accepts : is_running opened.state ≡ true
unfolding start start_task set_listener_vb new_component is_running
accepts = refl

first_task :
    given_two.tasks ≡ Task.queue_task (a_work 1 11 false) ∷ Task.queue_task (a_work 2 22 true) ∷ []
unfolding start start_task set_listener_vb new_component is_running queue_nb
first_task = refl

sends_one :
    run_task vp8_interface []
      (Task.queue_task (a_work 1 11 false))
      (record given_two { tasks = Task.queue_task (a_work 2 22 true) ∷ [] })
    ≡ done sent_one
unfolding start start_task set_listener_vb new_component is_running queue_nb run_task queue_task
    prepare pump_pending_works pump_works send_work send_buffer config_color_aspects send_flags
    find_work insert_work
sends_one = refl

second_task : sent_one.tasks ≡ Task.queue_task (a_work 2 22 true) ∷ []
unfolding start start_task set_listener_vb new_component is_running queue_nb run_task queue_task
    prepare pump_pending_works pump_works send_work send_buffer config_color_aspects send_flags
    find_work insert_work
second_task = refl

sends_two :
    run_task vp8_interface [] (Task.queue_task (a_work 2 22 true)) (record sent_one { tasks = [] })
    ≡ done sent_two
unfolding start start_task set_listener_vb new_component is_running queue_nb run_task queue_task
    prepare pump_pending_works pump_works send_work send_buffer config_color_aspects send_flags
    find_work insert_work
sends_two = refl

decodes_one : on_decode_done 1 DecodeStatus.ok shown ≡ done decoded_one
unfolding start start_task set_listener_vb new_component is_running queue_nb run_task queue_task
    prepare pump_pending_works pump_works send_work send_buffer config_color_aspects send_flags
    find_work insert_work on_output_frame_ready update_color_aspects detect_no_show_frame_works
    detect is_no_show_frame_work report_each change_work pump_report_work pump_ids
    report_work_if_finished is_work_done on_decode_done decode_done release
decodes_one = refl

-- The first work is back, then the second one with the end of the stream.
ends :
    (at_end.works_at_decoder ≡ [])
    × (count 1 at_end.reported ≡ 1)
    × (count 2 at_end.reported ≡ 1)
    × (at_end.tasks ≡ Task.pump_pending_works ∷ [])
unfolding start start_task set_listener_vb new_component is_running queue_nb run_task queue_task
    prepare pump_pending_works pump_works send_work send_buffer config_color_aspects send_flags
    find_work insert_work on_output_frame_ready update_color_aspects detect_no_show_frame_works
    detect is_no_show_frame_work report_each change_work pump_report_work pump_ids
    report_work_if_finished is_work_done on_decode_done decode_done release on_drain_done
    report_eos_work take_eos_work finish_eos report_work erase_work
ends = (refl, refl, refl, refl)

still_runs : is_running at_end.state ≡ true
unfolding start start_task set_listener_vb new_component is_running queue_nb run_task queue_task
    prepare pump_pending_works pump_works send_work send_buffer config_color_aspects send_flags
    find_work insert_work on_output_frame_ready update_color_aspects detect_no_show_frame_works
    detect is_no_show_frame_work report_each change_work pump_report_work pump_ids
    report_work_if_finished is_work_done on_decode_done decode_done release on_drain_done
    report_eos_work take_eos_work finish_eos report_work erase_work
still_runs = refl

is_reached : Reachable vp8_interface two_works at_end
is_reached =
    moved two_works decoded_one at_end
      (moved two_works shown decoded_one
        (moved two_works sent_two shown
          (moved two_works sent_one sent_two
            (moved two_works given_two sent_one
              (queued [] two_works opened (started false true true true none opened starts) accepts)
              (runs [] (Task.queue_task (a_work 1 11 false))
                (Task.queue_task (a_work 2 22 true) ∷ []) given_two sent_one first_task sends_one))
            (runs [] (Task.queue_task (a_work 2 22 true)) [] sent_one sent_two second_task
              sends_two))
          (outputs 1 7 sent_two))
        (decodes 1 DecodeStatus.ok shown decoded_one decodes_one))
      (drained DecodeStatus.ok decoded_one)

Reachable-total_example :
    (count 2 at_end.reported
        + (count 2 at_end.pending_works + count_at 2 at_end.works_at_decoder)
        + count 2 at_end.destroyed
        + count_tasks 2 at_end.tasks
      ≡ count 2 two_works)
    × (all_empty at_end.destroyed ≡ true)
Reachable-total_example = Reachable-total vp8_interface 2 two_works at_end is_reached

Reachable-given_back_example : all_given_back at_end.reported ≡ true
Reachable-given_back_example = Reachable-given_back vp8_interface two_works at_end is_reached

Reachable-pending_example :
    (at_end.pending_works ≡ []) ⊎ ((at_end.is_draining ≡ true) ⊎ (has_pump at_end.tasks ≡ true))
Reachable-pending_example = Reachable-pending vp8_interface two_works at_end is_reached still_runs

abbrev with_works : List (ℕ × Work) → Component
with_works works = record (new_component false) {
  state = running;
  has_listener = true;
  works_at_decoder = works;
}

found :
    take_eos_work ((1, a_work 1 11 false) ∷ (2, a_work 2 22 true) ∷ [])
    ≡ some (a_work 2 22 true, (1, a_work 1 11 false) ∷ [])
unfolding take_eos_work
found = refl

none_pending : (works : List (ℕ × Work)) → (with_works works).pending_works ≡ []
unfolding new_component
none_pending works = refl

abbrev answered : Component
answered =
    on_drain_done DecodeStatus.ok (with_works ((1, a_work 1 11 false) ∷ (2, a_work 2 22 true) ∷ []))

abbrev no_eos : Component
no_eos = with_works ((1, a_work 1 11 false) ∷ (3, a_work 3 33 false) ∷ [])

abbrev one_back : Component
one_back =
    result_of (
      on_decode_done 1 DecodeStatus.ok
        (on_output_frame_ready vp8_interface 1 7 (drain_task no_eos)))

answers_one :
    on_decode_done 1 DecodeStatus.ok (on_output_frame_ready vp8_interface 1 7 (drain_task no_eos))
    ≡ done one_back
unfolding new_component drain_task on_output_frame_ready find_work update_color_aspects change_work
    detect_no_show_frame_works detect is_no_show_frame_work report_each pump_report_work pump_ids
    report_work_if_finished is_work_done on_decode_done
answers_one = refl

-- The first work is given back during the drain.
one_is_back : count 1 one_back.reported ≡ 1
unfolding new_component drain_task on_output_frame_ready find_work update_color_aspects change_work
    detect_no_show_frame_works detect is_no_show_frame_work report_each pump_report_work pump_ids
    report_work_if_finished is_work_done on_decode_done decode_done release report_work erase_work
one_is_back = refl

abbrev refused : Component
refused = on_drain_done DecodeStatus.ok one_back

on_drain_done-eos_example :
    (answered.works_at_decoder ≡ [])
    × (answered.pending_works
        ≡ still_pending (new_component false).pending_works ((1, a_work 1 11 false) ∷ []))
    × (answered.reported
        ≡ ((new_component false).reported
            ++ given_up (new_component false).pending_works ((1, a_work 1 11 false) ∷ []))
          ++ (finish_eos (a_work 2 22 true) ∷ []))
    × (answered.is_draining ≡ false)
    × (answered.state ≡ running)
    × (answered.tasks ≡ (new_component false).tasks ++ (Task.pump_pending_works ∷ []))
on_drain_done-eos_example =
    on_drain_done-eos (with_works ((1, a_work 1 11 false) ∷ (2, a_work 2 22 true) ∷ []))
      (a_work 2 22 true) ((1, a_work 1 11 false) ∷ []) refl found

drain_task-on_drain_done_example :
    (0 < length one_back.works_at_decoder)
    × (refused.state ≡ error)
    × (refused.works_at_decoder ≡ one_back.works_at_decoder)
    × (refused.reported ≡ one_back.reported)
    × (refused.errors ≡ (
        if not (is_error one_back.state) && one_back.has_listener
        then one_back.errors ++ (corrupted ∷ [])
        else one_back.errors))
drain_task-on_drain_done_example =
    drain_task-on_drain_done vp8_interface no_eos one_back (1, a_work 1 11 false)
      ((3, a_work 3 33 false) ∷ [])
      (none_pending ((1, a_work 1 11 false) ∷ (3, a_work 3 33 false) ∷ [])) refl refl
      (Answers.decodes 1 DecodeStatus.ok (drain_task no_eos)
        (on_output_frame_ready vp8_interface 1 7 (drain_task no_eos)) one_back
        (Answers.outputs 1 7 (drain_task no_eos) (drain_task no_eos) (none_yet (drain_task no_eos)))
        answers_one)
