-- ===== src/EncodeHelpers/Loops.antt =====
-- The loops of EncodeHelpers.antt over a framed stream are folds over its NAL units, and over any
-- bytes they end within their fuel.
use android_external_v4l2_co.Prelude.{
  ℕ, zero, suc, ◌+◌, ◌<◌, ◌≡◌, ◌≢◌, refl, ap, inl, inr, true, false, ◌&&◌, List, [], ◌∷◌, arith,
  length, Checked, fault, out_of_fuel, done, ◌>>=◌, if◌then◌else◌, Bool-cases, Option-cases,
}
use android_external_v4l2_co.NalParser.{
  NalParser, data_end, make_parser, locate_next_nal, nal_data, nal_type,
}
use android_external_v4l2_co.NalParser.Progress.{
  rounds_left, IsValid, make_parser-IsValid, make_parser-bytes, locate_next_nal-IsValid,
  next-le-data_end,
}
use android_external_v4l2_co.NalParser.Units.{
  AreUnits, unit_type, nal_type_at, Nal, Remaining, locate_next_nal_last, locate_next_nal_unit,
}
use android_external_v4l2_co.EncodeHelpers.{
  Params, take_params, extract_loop, Injection, Step, prepend_unit, prepend_loop, extract_sps_pps,
  prepend_sps_pps_to_idr,
}

-- extractSPSPPS on the list of units.
unfoldable pub extract_units : List Nal → Params → Params
extract_units [] s = s
extract_units (u ∷ us) s =
    let rest = extract_units us (take_params (unit_type u) u s) in
    if s.found_sps && s.found_pps then s else rest

pub extract_loop-units :
    (us : List Nal) (fuel : ℕ) (p : NalParser) (s : Params)
    → length us < fuel
    → AreUnits us
    → Remaining p us
    → extract_loop fuel p s ≡ done (extract_units us s)
unfolding extract_loop extract_units
extract_loop-units us zero p s h a r = elim h [ ]
extract_loop-units [] (suc fuel) p s h a r = ground (arith, locate_next_nal_last p r)
extract_loop-units (u ∷ us) (suc fuel) p s h a r =
    let (q, found, rest, nal, first) = locate_next_nal_unit p u us a.0.0 r in
    ground (
      arith,
      found,
      nal,
      nal_type_at q u us a.0.1 first,
      extract_loop-units us fuel q (take_params (unit_type u) u s) (omega arith) a.1 rest,
    )

-- prependSPSPPSToIDR on the list of units.
unfoldable pub prepend_units : List Nal → Injection → Step
prepend_units [] s = (s, true)
prepend_units (u ∷ us) s =
    let r = prepend_unit (unit_type u) u s in
    let rest = prepend_units us r.0 in if r.1 then rest else (r.0, false)

pub prepend_loop-units :
    (us : List Nal) (fuel : ℕ) (p : NalParser) (s : Injection)
    → length us < fuel
    → AreUnits us
    → Remaining p us
    → prepend_loop fuel p s ≡ done (prepend_units us s)
unfolding prepend_loop prepend_units
prepend_loop-units us zero p s h a r = elim h [ ]
prepend_loop-units [] (suc fuel) p s h a r = ground (arith, locate_next_nal_last p r)
prepend_loop-units (u ∷ us) (suc fuel) p s h a r =
    let (q, found, rest, nal, first) = locate_next_nal_unit p u us a.0.0 r in
    ground (
      arith,
      found,
      nal,
      nal_type_at q u us a.0.1 first,
      prepend_loop-units us fuel q (prepend_unit (unit_type u) u s).0 (omega arith) a.1 rest,
    )

-- On any data the loop of extractSPSPPS ends within its rounds.
extract_loop_ends :
    (fuel : ℕ) (p : NalParser) (s : Params)
    → IsValid p
    → data_end p < fuel + p.next_nal_start_code_pos
    → extract_loop fuel p s ≢ out_of_fuel
unfolding extract_loop
extract_loop_ends zero p s v h = λ e. absurd (omega (arith, next-le-data_end p v))
extract_loop_ends (suc fuel) p s v h = elim (Bool-cases (locate_next_nal p).1) [
  | inl found ↦ elim (Option-cases (nal_type (locate_next_nal p).0)) [
    | inl n ↦ λ e. ground arith
    | inr (t, n) ↦ ground (
      arith,
      extract_loop_ends fuel (locate_next_nal p).0
          (take_params t (nal_data (locate_next_nal p).0) s) (locate_next_nal-IsValid p v)
          (rounds_left p v found fuel h),
    )
  ]
  | inr last ↦ λ e. ground arith
]

prepend_loop_ends :
    (fuel : ℕ) (p : NalParser) (s : Injection)
    → IsValid p
    → data_end p < fuel + p.next_nal_start_code_pos
    → prepend_loop fuel p s ≢ out_of_fuel
unfolding prepend_loop
prepend_loop_ends zero p s v h = λ e. absurd (omega (arith, next-le-data_end p v))
prepend_loop_ends (suc fuel) p s v h = elim (Bool-cases (locate_next_nal p).1) [
  | inl found ↦ elim (Option-cases (nal_type (locate_next_nal p).0)) [
    | inl n ↦ λ e. ground arith
    | inr (t, n) ↦ ground (
      arith,
      prepend_loop_ends fuel (locate_next_nal p).0
          (prepend_unit t (nal_data (locate_next_nal p).0) s).0 (locate_next_nal-IsValid p v)
          (rounds_left p v found fuel h),
    )
  ]
  | inr last ↦ λ e. ground arith
]

mapped_ends {ℓ κ} :
    {A : Type ℓ} {B : Type κ} (r : Checked A) (f : A → B)
    → r ≢ out_of_fuel
    → (r >>= λ a. done (f a)) ≢ out_of_fuel
mapped_ends fault f h e = cc
mapped_ends out_of_fuel f h e = h refl
mapped_ends (done a) f h e = cc

-- Whatever the bytes, the rounds that extractSPSPPS and prependSPSPPSToIDR are given are enough for
-- their loops.
pub params_loops_end :
    (bytes sps pps : List ℕ) (size : ℕ)
    → (extract_sps_pps bytes sps pps ≢ out_of_fuel)
      × (prepend_sps_pps_to_idr bytes size sps pps ≢ out_of_fuel)
unfolding extract_sps_pps prepend_sps_pps_to_idr
params_loops_end bytes sps pps size = (
  extract_loop_ends (suc (length bytes)) (make_parser bytes) _ (make_parser-IsValid bytes)
      (enough bytes),
  mapped_ends _ _ (
      prepend_loop_ends (suc (length bytes)) (make_parser bytes)
        (record {
          found_stream_params = false;
          sps = sps;
          pps = pps;
          dst = record { written = []; room = size };
        })
        (make_parser-IsValid bytes) (enough bytes)),
)
  where
    enough :
        (bytes : List ℕ)
        → data_end (make_parser bytes)
          < suc (length bytes) + (make_parser bytes).next_nal_start_code_pos
    enough bytes = omega (arith, ap length (make_parser-bytes bytes))
