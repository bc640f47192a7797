-- ===== src/EncodeHelpers/Extract.antt =====
-- extractSPSPPS and extractCSDInfo of EncodeHelpers.antt over a framed stream.
use mathlib.Core.List.{Memᴰ, append-nil}
use android_external_v4l2_co.Prelude.{
  ℕ, suc, ◌+◌, ◌*◌, ◌≤◌, ◌≡◌, refl, Bool, true, false, ◌&&◌, ◌||◌, none, some, List, [], ◌∷◌, arith,
  length, length-append, done, if◌then◌else◌, ◌==◌,
}
use android_external_v4l2_co.NalParser.{make_parser, sps_type, pps_type}
use android_external_v4l2_co.NalParser.Units.{
  AreUnits, IsUnit, unit_type, Nal, frame, make_parser-Remaining,
}
use android_external_v4l2_co.EncodeHelpers.{
  Params, take_params, extract_sps_pps, make_csd, extract_csd_info,
}
use android_external_v4l2_co.EncodeHelpers.Loops.{extract_units, extract_loop-units}

abbrev pub has_type : ℕ → List Nal → Bool
has_type t [] = false
has_type t (u ∷ us) = unit_type u == t || has_type t us

-- There are fewer units than bytes.
pub length-le-frame : (us : List Nal) → length us ≤ length (frame us)
length-le-frame [] = omega arith
length-le-frame (u ∷ us) = omega (arith, length-le-frame us, length-append u (frame us))

abbrev pub nothing_found : List ℕ → List ℕ → Params
nothing_found sps pps = record { sps = sps; pps = pps; found_sps = false; found_pps = false }

pub extract_sps_pps-frame :
    (us : List Nal) (sps pps : List ℕ)
    → AreUnits us
    → extract_sps_pps (frame us) sps pps ≡ done (extract_units us (nothing_found sps pps))
unfolding extract_sps_pps
extract_sps_pps-frame us sps pps a =
    extract_loop-units us (suc (length (frame us))) (make_parser (frame us)) _
      (omega (arith, length-le-frame us)) a (make_parser-Remaining us)

-- Both flags are set at the end exactly if they were, or a unit of the type is there.
extract_units-found :
    (us : List Nal) (s : Params)
    → let t = extract_units us s in
      (t.found_sps && t.found_pps)
      ≡ ((s.found_sps || has_type sps_type us) && (s.found_pps || has_type pps_type us))
unfolding extract_units take_params
extract_units-found [] s = ground arith
extract_units-found (u ∷ us) s =
    ground (arith, extract_units-found us (take_params (unit_type u) u s))

-- What a flag says of its vector.
abbrev Holds : ℕ → List Nal → Bool → Nal → Type 0
Holds t us found u = found ≡ true → Memᴰ u us × (unit_type u ≡ t)

record AreOf (us : List Nal) (s : Params) : Type 0 where
  sps_holds : Holds sps_type us s.found_sps s.sps
  pps_holds : Holds pps_type us s.found_pps s.pps

take_params-AreOf :
    (all : List Nal) (u : Nal) (s : Params)
    → Memᴰ u all
    → AreOf all s
    → AreOf all (take_params (unit_type u) u s)
unfolding take_params
take_params-AreOf all u s m h = record {
  sps_holds = λ f. ground (arith, m, h.sps_holds);
  pps_holds = λ f. ground (arith, m, h.pps_holds);
}

extract_units-AreOf :
    (all us : List Nal) (s : Params)
    → ((u : Nal) → Memᴰ u us → Memᴰ u all)
    → AreOf all s
    → AreOf all (extract_units us s)
unfolding extract_units
extract_units-AreOf all [] s sub h = h
extract_units-AreOf all (u ∷ us) s sub h = ground (
  arith,
  h,
  extract_units-AreOf all us (take_params (unit_type u) u s) (λ v m. sub v (Memᴰ.tail m))
      (take_params-AreOf all u s (sub u (Memᴰ.head refl)) h),
)

abbrev header_size : List ℕ → List ℕ → ℕ
header_size sps pps = length sps + length pps + 2 * 4

-- The room that extractCSDInfo asks for is exactly what the two copies take.
make_csd-frame :
    (sps pps : List ℕ) → make_csd sps pps (header_size sps pps) ≡ some (frame (sps ∷ pps ∷ []))
unfolding make_csd
make_csd-frame sps pps = ground (arith, append-nil pps)

extract_csd_info-frame :
    (us : List Nal)
    → AreUnits us
    → let t = extract_units us (nothing_found [] []) in
      extract_csd_info (frame us)
      ≡ done (if t.found_sps && t.found_pps then some (frame (t.sps ∷ t.pps ∷ [])) else none)
unfolding extract_csd_info
extract_csd_info-frame us a =
    let t = extract_units us (nothing_found [] []) in
    rw (extract_sps_pps-frame us [] [] a, make_csd-frame t.sps t.pps) refl

-- A framed stream of NAL units, none empty and none with a start code inside, that lacks an SPS or
-- a PPS gives no codec data: extractCSDInfo returns false.
pub extract_csd_info_missing :
    (us : List Nal)
    → AreUnits us
    → (has_type sps_type us && has_type pps_type us) ≡ false
    → extract_csd_info (frame us) ≡ done none
extract_csd_info_missing us a h =
    ground (arith, extract_csd_info-frame us a, extract_units-found us (nothing_found [] []))

abbrev csd_params : List Nal → Params
csd_params us = extract_units us (nothing_found [] [])

csd_params-AreOf : (us : List Nal) → AreOf us (csd_params us)
csd_params-AreOf us =
    extract_units-AreOf us us (nothing_found [] []) (λ u m. m)
      (record { sps_holds = λ e. cc; pps_holds = λ e. cc })

-- From a framed stream of NAL units, none empty and none with a start code inside, with an SPS and
-- a PPS among them, extractCSDInfo makes the framed stream of two of these units, the first of type
-- SPS and the second of type PPS.
pub extract_csd_info_found :
    (us : List Nal)
    → AreUnits us
    → (has_type sps_type us && has_type pps_type us) ≡ true
    → (sps pps : Nal) × (Memᴰ sps us × (unit_type sps ≡ sps_type))
      × (Memᴰ pps us × (unit_type pps ≡ pps_type))
      × (extract_csd_info (frame us) ≡ done (some (frame (sps ∷ pps ∷ []))))
extract_csd_info_found us a h =
    let found = extract_units-found us (nothing_found [] []) in
    let of = csd_params-AreOf us in
    (
      (csd_params us).sps,
      (csd_params us).pps,
      of.sps_holds (ground (arith, found)),
      of.pps_holds (ground (arith, found)),
      ground (arith, extract_csd_info-frame us a, found),
    )

-- From the framed stream of an SPS and a PPS, both without a start code inside, extractSPSPPS gives
-- back the two units and finds both, whatever the vectors held.
pub extract_sps_pps-frame_pair :
    (sps pps : Nal) (old_sps old_pps : List ℕ)
    → IsUnit sps
    → IsUnit pps
    → unit_type sps ≡ sps_type
    → unit_type pps ≡ pps_type
    → extract_sps_pps (frame (sps ∷ pps ∷ [])) old_sps old_pps
      ≡ done (record { sps = sps; pps = pps; found_sps = true; found_pps = true })
unfolding extract_units take_params
extract_sps_pps-frame_pair sps pps old_sps old_pps s p st pt =
    ground (arith, extract_sps_pps-frame (sps ∷ pps ∷ []) old_sps old_pps (s, (p, tt)))
