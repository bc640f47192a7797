-- ===== src/EncodeHelpers/Prepend.antt =====
-- What prependSPSPPSToIDR writes and returns over a framed stream.

use android_external_v4l2_co.Prelude.{
  ℕ, suc, ◌-◌, ◌≤◌, ◌<◌, ◌≡◌, refl, ap, ◌∙◌, true, false, none, some, List, [], ◌∷◌, arith, length,
  done, if◌then◌else◌, ◌⊎◌,
}
use android_external_v4l2_co.NalParser.{make_parser, sps_type, pps_type}
use android_external_v4l2_co.NalParser.Units.{
  AreUnits, unit_type, Nal, frame, make_parser-Remaining,
}
use android_external_v4l2_co.EncodeHelpers.{Destination, Injection, Step, prepend_sps_pps_to_idr}
use android_external_v4l2_co.EncodeHelpers.Loops.{prepend_units, prepend_loop-units}
use android_external_v4l2_co.EncodeHelpers.Extract.{length-le-frame}
use android_external_v4l2_co.EncodeHelpers.Inject.{injected, write, outcome, prepend_units-Correct}

abbrev start : ℕ → Nal → Nal → Injection
start size sps pps = record {
  found_stream_params = false;
  sps = sps;
  pps = pps;
  dst = record { written = []; room = size };
}

abbrev returned : ℕ → Step → Injection × ℕ
returned size r = (r.0, if r.1 then size - r.0.dst.room else 0)

prepend-units :
    (us : List Nal) (size : ℕ) (sps pps : Nal)
    → AreUnits us
    → prepend_sps_pps_to_idr (frame us) size sps pps
      ≡ done (returned size (prepend_units us (start size sps pps)))
unfolding prepend_sps_pps_to_idr
prepend-units us size sps pps a = rw (
    prepend_loop-units us (suc (length (frame us))) (make_parser (frame us)) (start size sps pps)
      (omega (arith, length-le-frame us)) a (make_parser-Remaining us))

-- What a step says of its result, from its outcome.
returned-some :
    (size : ℕ) (r : Step) (d : Destination)
    → outcome r ≡ some d
    → (r.0.dst ≡ d) × ((returned size r).1 ≡ size - d.room)
returned-some size (s, true) d e = ground arith
returned-some size (s, false) d e = cc

returned-none : (size : ℕ) (r : Step) → outcome r ≡ none → (returned size r).1 ≡ 0
returned-none size (s, true) e = cc
returned-none size (s, false) e = refl

-- Given the framed stream of NAL units that are not empty and have no start code inside,
-- prependSPSPPSToIDR writes what its description `injected` says: if the units to write are `vs`
-- and their frame fits in the destination, exactly that frame is written and its length is
-- returned.
pub prepend_sps_pps_to_idr_fits :
    (us vs : List Nal) (size : ℕ) (sps pps : Nal)
    → AreUnits us
    → injected us false sps pps ≡ some vs
    → length (frame vs) ≤ size
    → (t : Injection) × (prepend_sps_pps_to_idr (frame us) size sps pps
        ≡ done (t, length (frame vs)))
      × (t.dst.written ≡ frame vs)
unfolding write
prepend_sps_pps_to_idr_fits us vs size sps pps a e h =
    let r = prepend_units us (start size sps pps) in
    let d : Destination = record { written = frame vs; room = size - length (frame vs) } in
    let eq : outcome r ≡ some d = prepend_units-Correct us (start size sps pps) ∙ ground arith in
    let (at, n) = returned-some size r d eq in
    let n' : (returned size r).1 ≡ length (frame vs) = omega (arith, n) in
    (r.0, prepend-units us size sps pps a ∙ ap (λ k. done (r.0, k)) n', ap (λ d. d.written) at)

-- Given such a framed stream, prependSPSPPSToIDR returns 0 if, by `injected`, an SPS or a PPS is
-- wanted that was never seen, or if the frame of the units to write does not fit.
pub prepend_sps_pps_to_idr_fails :
    (us : List Nal) (size : ℕ) (sps pps : Nal)
    → AreUnits us
    → (injected us false sps pps ≡ none)
      ⊎ ((vs : List Nal) × (injected us false sps pps ≡ some vs) × (size < length (frame vs)))
    → (t : Injection) × (prepend_sps_pps_to_idr (frame us) size sps pps ≡ done (t, 0))
unfolding write
prepend_sps_pps_to_idr_fails us size sps pps a h =
    let r = prepend_units us (start size sps pps) in
    let eq : outcome r ≡ none = prepend_units-Correct us (start size sps pps) ∙ ground arith in
    (r.0, prepend-units us size sps pps a ∙ ap (λ k. done (r.0, k)) (returned-none size r eq))

injected_found : (us : List Nal) (sps pps : Nal) → injected us true sps pps ≡ some us
unfolding injected
injected_found [] sps pps = refl
injected_found (u ∷ us) sps pps =
    ground (arith, injected_found us u pps, injected_found us sps u, injected_found us sps pps)

-- A framed stream of NAL units whose first unit is an SPS or a PPS, and which fits in the
-- destination, is copied as it is, whatever the caches hold and whatever other units it has:
-- nothing is put before its IDR units, also when the other one is missing.
pub prepend_sps_pps_to_idr_unchanged :
    (u : Nal) (us : List Nal) (size : ℕ) (sps pps : Nal)
    → AreUnits (u ∷ us)
    → (unit_type u ≡ sps_type) ⊎ (unit_type u ≡ pps_type)
    → length (frame (u ∷ us)) ≤ size
    → (t : Injection) × (prepend_sps_pps_to_idr (frame (u ∷ us)) size sps pps
        ≡ done (t, length (frame (u ∷ us))))
      × (t.dst.written ≡ frame (u ∷ us))
unfolding injected
prepend_sps_pps_to_idr_unchanged u us size sps pps a t =
    prepend_sps_pps_to_idr_fits (u ∷ us) (u ∷ us) size sps pps a
      (ground (arith, injected_found us u pps, injected_found us sps u))
