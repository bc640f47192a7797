-- ===== src/DecodeComponent/Drains.antt =====
-- What the answer to a drain does in V4L2DecodeComponent, with a work that ends the stream and without.
use android_external_v4l2_co.Prelude.{
  ℕ, ◌<◌, ◌≡◌, not, ◌&&◌, length, done, true, false, some, List, [], ◌∷◌, ◌++◌, arith,
  if◌then◌else◌, map,
}
use mathlib.Core.List.{append-nil}
use android_external_v4l2_co.Decoder.{DecodeStatus, ok}
use android_external_v4l2_co.DecodeComponent.{
  error, corrupted, Work, Task, Interface, Component, is_error, report_error, report_work,
}
use android_external_v4l2_co.DecodeComponent.Report.{
  take_eos_work, abandon, works_of, finish_eos, report_eos_work, report_abandoned_works,
}
use android_external_v4l2_co.DecodeComponent.Tasks.{drain_task}
use android_external_v4l2_co.DecodeComponent.Callbacks.{
  on_decode_done, on_output_frame_ready, on_drain_done,
}
use android_external_v4l2_co.DecodeComponent.Stays.{
  no_eos, take_eos_work-none, IsLeft, on_decode_done-IsLeft, on_output_frame_ready-IsLeft,
}

-- The works that are given up when others are left at the decoder, and those that still wait.
abbrev pub given_up : List Work → List (ℕ × Work) → List Work
given_up pending [] = []
given_up pending (r ∷ rest) = map abandon (pending ++ works_of (r ∷ rest))

abbrev pub still_pending : List Work → List (ℕ × Work) → List Work
still_pending pending [] = pending
still_pending pending (r ∷ rest) = []

-- When a drain is done and a work at the decoder ends the stream, a component with a listener gives
-- that work back last, with the end of the stream on its output. If other works are left at the
-- decoder, they are given up before it, and so are all the works that wait. Then nothing is at the
-- decoder, no drain is under way, and a call of pumpPendingWorks is posted.
pub on_drain_done-eos :
    (c : Component) (w : Work) (rest : List (ℕ × Work))
    → c.has_listener ≡ true
    → take_eos_work c.works_at_decoder ≡ some (w, rest)
    → let d = on_drain_done ok c in
      (d.works_at_decoder ≡ [])
      × (d.pending_works ≡ still_pending c.pending_works rest)
      × (d.reported ≡ (c.reported ++ given_up c.pending_works rest) ++ (finish_eos w ∷ []))
      × (d.is_draining ≡ false)
      × (d.state ≡ c.state)
      × (d.tasks ≡ c.tasks ++ (Task.pump_pending_works ∷ []))
unfolding on_drain_done report_eos_work report_abandoned_works report_work
on_drain_done-eos c w [] l e = ground (arith, append-nil c.reported)
on_drain_done-eos c w (r ∷ rest) l e = ground arith

module _ (interface : Interface) where
  -- The callbacks of the decoder before it is done with a drain.
  pub data Answers : Component → Component → Type 0 where
    none_yet : (c : Component) → Answers c c
    decodes :
        (id : ℕ) (status : DecodeStatus) (c d e : Component)
        → Answers c d
        → on_decode_done id status d ≡ done e
        → Answers c e
    outputs :
        (id frame : ℕ) (c d : Component)
        → Answers c d
        → Answers c (on_output_frame_ready interface id frame d)

  Answers-IsLeft : (c d : Component) → Answers c d → IsLeft c → IsLeft d
  Answers-IsLeft c _ (none_yet _) l = l
  Answers-IsLeft c e (decodes id status _ d _ a r) l =
      on_decode_done-IsLeft id status d e r (Answers-IsLeft c d a l)
  Answers-IsLeft c _ (outputs id frame _ d a) l =
      on_output_frame_ready-IsLeft interface id frame d (Answers-IsLeft c d a l)

  -- When drainTask runs in a component that has sent all its works, none of which ends the stream, and
  -- some of which are at the decoder, then after any calls of onDecodeDone and onOutputFrameReady there
  -- is still a work at the decoder. When the decoder is done with the drain behind them, the works that
  -- are left stay at the decoder and are not given back, and the component is in the error state; if
  -- it was not before, it tells its listener of C2_CORRUPTED.
  pub drain_task-on_drain_done :
      (c d : Component) (w : ℕ × Work) (works : List (ℕ × Work))
      → c.pending_works ≡ []
      → c.works_at_decoder ≡ w ∷ works
      → no_eos c.works_at_decoder ≡ true
      → Answers (drain_task c) d
      → let e = on_drain_done ok d in
        (0 < length d.works_at_decoder)
        × (e.state ≡ error)
        × (e.works_at_decoder ≡ d.works_at_decoder)
        × (e.reported ≡ d.reported)
        × (e.errors ≡ (
            if not (is_error d.state) && d.has_listener
            then d.errors ++ (corrupted ∷ [])
            else d.errors))
  unfolding on_drain_done report_eos_work drain_task report_error is_error
  drain_task-on_drain_done c d w works p a n r =
      let begun : IsLeft (drain_task c) = record {
        draining = ground arith;
        endless = ground arith;
        some_left = ground arith;
      } in
      let left = Answers-IsLeft (drain_task c) d r begun in
      let none_ends = take_eos_work-none d.works_at_decoder left.endless in
      (left.some_left, ground arith, ground arith, ground arith, ground arith)
