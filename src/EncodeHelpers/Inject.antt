-- ===== src/EncodeHelpers/Inject.antt =====
-- prependSPSPPSToIDR of EncodeHelpers.antt against a description that knows no buffer.
use mathlib.Core.List.{append_assoc, append-nil}
use mathlib.Core.Option
use android_external_v4l2_co.Prelude.{
  ◌-◌, ◌≡◌, refl, ap, ◌∙◌, sym, Bool, true, false, not, ◌&&◌, ◌||◌, Option, none, some, List, [],
  ◌∷◌, ◌++◌, arith, length, length-append, if◌then◌else◌, ◌==◌, leb, inl, inr, Option-cases,
}
use android_external_v4l2_co.NalParser.{sps_type, pps_type, idr_type}
use android_external_v4l2_co.NalParser.Units.{unit_type, Nal, frame}
use android_external_v4l2_co.EncodeHelpers.{
  Destination, copy_nalu_prepending_start_code, Injection, Step, and_then, copy_unit, is_empty,
  inject_params, prepare_unit, prepend_unit,
}
use android_external_v4l2_co.EncodeHelpers.Loops.{prepend_units}

-- The stream to write: an IDR unit with no stream parameters before it, in this buffer, gets the
-- latest SPS and PPS put before it; `none` if one of them was never seen. The flag says whether the
-- buffer had stream parameters so far.
unfoldable pub injected : List Nal → Bool → Nal → Nal → Option (List Nal)
injected [] found sps pps = some []
injected (u ∷ us) found sps pps =
    let with_sps = Option.map (◌∷◌ u) (injected us true u pps) in
    let with_pps = Option.map (◌∷◌ u) (injected us true sps u) in
    let rest = injected us found sps pps in
    if unit_type u == sps_type
    then with_sps
    else if unit_type u == pps_type
    then with_pps
    else if unit_type u == idr_type && not found
    then (if is_empty sps || is_empty pps
        then none
        else Option.map (◌∷◌ sps) (Option.map (◌∷◌ pps) (Option.map (◌∷◌ u) rest)))
    else Option.map (◌∷◌ u) rest

-- The units written behind what a destination holds, if all of them fit.
unfoldable pub write : List Nal → Destination → Option Destination
write vs d =
    if leb (length (frame vs)) d.room
    then some (record { written = d.written ++ frame vs; room = d.room - length (frame vs) })
    else none

abbrev pub write_all : Option (List Nal) → Destination → Option Destination
write_all none d = none
write_all (some vs) d = write vs d

abbrev after_copy : Nal → Destination → (Destination → Option Destination) → Option Destination
after_copy u d k = elim (copy_nalu_prepending_start_code u d) [ none ↦ none | some e ↦ k e ]

write-cons :
    (u : Nal) (vs : List Nal) (d : Destination) → write (u ∷ vs) d ≡ after_copy u d (write vs)
unfolding write copy_nalu_prepending_start_code
write-cons u vs d =
    ground
      (arith, length-append u (frame vs), append_assoc d.written (0 ∷ 0 ∷ 0 ∷ 1 ∷ u) (frame vs))

write_all-map :
    (u : Nal) (o : Option (List Nal)) (d : Destination)
    → write_all (Option.map (◌∷◌ u) o) d ≡ after_copy u d (write_all o)
write_all-map u none d = ground arith
write_all-map u (some vs) d = write-cons u vs d

abbrev pub outcome : Step → Option Destination
outcome (s, true) = some s.dst
outcome (s, false) = none

outcome-copy_unit :
    (u : Nal) (s : Injection) (k : Injection → Step) (f : Destination → Option Destination)
    → ((d : Destination) → outcome (k (record s { dst = d })) ≡ f d)
    → outcome (and_then (copy_unit u s) k) ≡ after_copy u s.dst f
unfolding copy_unit
outcome-copy_unit u s k f h = elim (Option-cases (copy_nalu_prepending_start_code u s.dst)) [
  | inl e ↦ ground arith
  | inr (d, e) ↦ ground (arith, h d)
]

and_then_assoc :
    (r : Step) (f g : Injection → Step)
    → and_then (and_then r f) g ≡ and_then r (λ s. and_then (f s) g)
and_then_assoc (s, true) f g = refl
and_then_assoc (s, false) f g = refl

prepend_units-cons :
    (u : Nal) (us : List Nal) (s : Injection)
    → prepend_units (u ∷ us) s
      ≡ and_then (prepare_unit (unit_type u) u s) (λ t. and_then (copy_unit u t) (prepend_units us))
unfolding prepend_units prepend_unit
prepend_units-cons u us s = ground arith

-- What a round does once the unit is prepared.
abbrev pub Correct : List Nal → Type 0
Correct us =
    (s : Injection)
    → outcome (prepend_units us s) ≡ write_all (injected us s.found_stream_params s.sps s.pps) s.dst

copy-Correct :
    (u : Nal) (us : List Nal) (s : Injection)
    → Correct us
    → outcome (and_then (copy_unit u s) (prepend_units us))
      ≡ write_all (Option.map (◌∷◌ u) (injected us s.found_stream_params s.sps s.pps)) s.dst
copy-Correct u us s rest =
    outcome-copy_unit u s (prepend_units us) _ (λ d. rest (record s { dst = d }))
    ∙ sym (write_all-map u _ s.dst)

inject-Correct :
    (u : Nal) (us : List Nal) (s : Injection)
    → Correct us
    → outcome (
        and_then
          (and_then (copy_unit s.sps s) (copy_unit s.pps))
          (λ t. and_then (copy_unit u t) (prepend_units us)))
      ≡ write_all
          (Option.map (◌∷◌ s.sps) (
            Option.map
              (◌∷◌ s.pps)
              (Option.map (◌∷◌ u) (injected us s.found_stream_params s.sps s.pps))))
          s.dst
inject-Correct u us s rest =
    ap outcome (and_then_assoc (copy_unit s.sps s) (copy_unit s.pps) _)
    ∙ outcome-copy_unit s.sps s _ _ (λ d.
      outcome-copy_unit s.pps (record s { dst = d }) _ _
        (λ e. copy-Correct u us (record s { dst = e }) rest)
      ∙ sym (write_all-map s.pps _ d))
    ∙ sym (write_all-map s.sps _ s.dst)

step-Correct :
    (u : Nal) (us : List Nal) (s : Injection)
    → Correct us
    → outcome (
        and_then
          (prepare_unit (unit_type u) u s)
          (λ t. and_then (copy_unit u t) (prepend_units us)))
      ≡ write_all (injected (u ∷ us) s.found_stream_params s.sps s.pps) s.dst
unfolding injected prepare_unit inject_params
step-Correct u us s rest = ground (
  arith,
  copy-Correct u us (record s { sps = u; found_stream_params = true }) rest,
  copy-Correct u us (record s { pps = u; found_stream_params = true }) rest,
  copy-Correct u us s rest,
  inject-Correct u us s rest,
)

pub prepend_units-Correct : (us : List Nal) → Correct us
unfolding injected prepend_units write
prepend_units-Correct [] s = ground (arith, append-nil s.dst.written)
prepend_units-Correct (u ∷ us) s =
    ap outcome (prepend_units-cons u us s) ∙ step-Correct u us s (prepend_units-Correct us)
