-- ===== src/Poller.antt =====
-- common/V4L2DevicePoller.cpp: the start and stop of the poll thread. Its loop is not modelled.
use android_external_v4l2_co.Prelude.{Bool, true, false, ◌≡◌, arith, if◌then◌else◌}

-- The thread and the device's interrupt; a Boolean answer is whether the call succeeded.
pub record Poller (D : Type 0) : Type 0 where
  pub start_thread : D → D × Bool
  pub set_poll_interrupt : D → D × Bool
  pub clear_poll_interrupt : D → D × Bool

module _ {D : Type 0} (poller : Poller D) where
  -- V4L2DevicePoller::startPolling on a thread that runs or not: whether it runs afterwards, and
  -- whether the call succeeded.
  unfoldable pub start_poller : D → Bool → D × Bool × Bool
  start_poller d is_polling =
      let (e, started) = poller.start_thread d in
      if is_polling then (d, true, true) else (e, started, started)

  -- V4L2DevicePoller::stopPolling, in the same way.
  unfoldable pub stop_poller : D → Bool → D × Bool × Bool
  stop_poller d is_polling =
      let (e, interrupted) = poller.set_poll_interrupt d in
      let (f, cleared) = poller.clear_poll_interrupt e in
      if is_polling
      then if interrupted then (f, false, cleared) else (e, true, false)
      else (d, false, true)

  -- A thread runs after a start that succeeded.
  pub start_poller_lem :
      (d : D) (is_polling : Bool)
      → (start_poller d is_polling).2 ≡ true
      → (start_poller d is_polling).1 ≡ true
  unfolding start_poller
  start_poller_lem d is_polling e = ground arith
