-- ===== src/DecodeComponent/Control.antt =====
-- The client's calls of V4L2DecodeComponent. A call that waits for the decoder thread is one step here,
-- with the tasks that it posts.
use android_external_v4l2_co.Prelude.{
  ℕ, Bool, true, false, not, ◌&&◌, ◌||◌, Option, none, some, List, [], ◌∷◌, ◌++◌, if◌then◌else◌,
  map,
}
use android_external_v4l2_co.DecodeComponent.{
  ComponentState, stopped, running, released, error, Status, ok, bad_state, corrupted, omitted,
  blocking, Work, Task, Interface, Component, is_error, is_running,
}
use android_external_v4l2_co.DecodeComponent.Report.{report_abandoned_works}
use android_external_v4l2_co.DecodeComponent.Tasks.{is_h264, is_ok}

abbrev pub is_stopped : ComponentState → Bool
is_stopped stopped = true
is_stopped running = false
is_stopped released = false
is_stopped error = false

abbrev pub is_released : ComponentState → Bool
is_released released = true
is_released stopped = false
is_released running = false
is_released error = false

-- How the client drains and flushes.
pub data DrainMode : Type 0 where
  drain_chain drain_component_no_eos drain_component_with_eos : DrainMode

-- releaseTask, which also cancels the tasks behind it.
unfoldable pub release_task : Component → Component
release_task c = record c { has_decoder = false; tasks = [] }

unfoldable pub stop_task : Component → Component
unfolding report_abandoned_works release_task
stop_task c = release_task (record (report_abandoned_works c) { is_draining = false })

-- startTask, where `created` is whether V4L2Decoder::Create succeeds and `queried` what
-- queryColorAspects gives.
unfoldable pub start_task : Interface → Bool → Option ℕ → Component → Component × Status
start_task interface created queried c = elim interface.video_codec [
  | none ↦ (c, corrupted)
  | some codec ↦
      let t = record c { has_decoder = created } in
      if not created
      then (t, corrupted)
      else if not c.is_secure && is_h264 (some codec)
      then elim queried [
        | none ↦ (t, corrupted)
        | some aspects ↦ (
          record t { current_color_aspects = some aspects; pending_color_aspects_change = none },
          ok,
        )
      ]
      else (t, ok)
]

-- start, where `thread` is whether the decoder thread starts.
unfoldable pub start : Interface → Bool → Bool → Option ℕ → Component → Component × Status
unfolding start_task
start interface thread created queried c =
    let (t, status) =
      start_task interface created queried (record c { is_thread_running = true }) in
    if not (is_stopped c.state)
    then (c, bad_state)
    else if not thread
    then (c, corrupted)
    else if is_ok status
    then (record t { state = running }, ok)
    else (t, status)

unfoldable pub stop : Component → Component × Status
unfolding stop_task is_error is_running
stop c =
    let t = record (stop_task c) { is_thread_running = false; state = stopped } in
    if not (is_running c.state) && not (is_error c.state)
    then (c, bad_state)
    else if c.is_thread_running
    then (t, ok)
    else (record c { state = stopped }, ok)

-- release of the component; `reset` is `stop`.
unfoldable pub release_component : Component → Component × Status
unfolding release_task
release_component c =
    let t = record (release_task c) { is_thread_running = false; state = released } in
    if c.is_thread_running then (t, ok) else (record c { state = released }, ok)

-- setListener_vb with a listener or without one.
unfoldable pub set_listener_vb : Bool → Bool → Component → Component × Status
unfolding is_running
set_listener_vb listener may_block c =
    if is_released c.state || (is_running c.state && listener)
    then (c, bad_state)
    else if is_running c.state && not may_block
    then (c, blocking)
    else (record c { has_listener = listener }, ok)

unfoldable pub queue_nb : List Work → Component → Component × Status
unfolding is_running
queue_nb works c =
    if is_running c.state
    then (record c { tasks = c.tasks ++ map Task.queue_task works }, ok)
    else (c, bad_state)

-- flush_sm; the flag is whether the mode is FLUSH_COMPONENT.
unfoldable pub flush_sm : Bool → Component → Component × Status
unfolding is_running
flush_sm component c =
    if not (is_running c.state)
    then (c, bad_state)
    else if component
    then (record c { tasks = c.tasks ++ (Task.flush_task ∷ []) }, ok)
    else (c, omitted)

unfoldable pub drain_nb : DrainMode → Component → Component × Status
unfolding is_running
drain_nb mode c = if not (is_running c.state) then (c, bad_state) else elim mode [
  | drain_chain ↦ (c, omitted)
  | drain_component_no_eos ↦ (c, ok)
  | drain_component_with_eos ↦ (record c { tasks = c.tasks ++ (Task.drain_task ∷ []) }, ok)
]

-- A component as it is constructed.
unfoldable pub new_component : Bool → Component
new_component secure = record {
  state = stopped;
  has_listener = false;
  is_thread_running = false;
  has_decoder = false;
  pending_works = [];
  works_at_decoder = [];
  output_bitstream_ids = [];
  is_secure = secure;
  is_draining = false;
  current_color_aspects = none;
  configured_color_aspects = none;
  pending_color_aspects_change = none;
  tasks = [];
  calls = [];
  reported = [];
  errors = [];
  destroyed = [];
}
