-- ===== src/NalParser/Sps.antt =====
-- locateSPS of NalParser.antt: it ends on any data, and over a framed stream it finds the first SPS.
use android_external_v4l2_co.Prelude.{
  ℕ, zero, suc, ◌+◌, ◌%◌, ◌<◌, ◌≡◌, refl, ap, inl, inr, Bool, true, false, Option, none, some, List,
  [], ◌∷◌, arith, length, get_elem?, done, ◌==◌, if◌then◌else◌, Bool-cases,
}
use android_external_v4l2_co.NalParser.{
  NalParser, data_end, sps_type, make_parser, locate_next_nal, nal_length, nal_data, nal_type,
  locate_sps,
}
use android_external_v4l2_co.NalParser.Progress.{
  IsValid, make_parser-IsValid, make_parser-bytes, locate_next_nal-IsValid, rounds_left,
  locate_next_nal_found, next-le-data_end,
}
use android_external_v4l2_co.NalParser.Units.{
  Nal, frame, Remaining, AreUnits, unit_type, nal_type_at, locate_next_nal_unit,
  locate_next_nal_last, make_parser-Remaining,
}

get_elem?-some :
    {A : Type 0} → (xs : List A) (i : ℕ) → i < length xs → (x : A) × (get_elem? xs i ≡ some x)
get_elem?-some [] i h = elim h [ ]
get_elem?-some (x ∷ xs) zero h = (x, refl)
get_elem?-some (x ∷ xs) (suc i) h = get_elem?-some xs i (omega arith)

-- A located unit that is not empty has a type.
nal_type-some :
    (p : NalParser)
    → IsValid p
    → (locate_next_nal p).1 ≡ true
    → (nal_length (locate_next_nal p).0 == 0) ≡ false
    → (t : ℕ) × (nal_type (locate_next_nal p).0 ≡ some t)
unfolding nal_type
nal_type-some p v found full =
    let q = (locate_next_nal p).0 in
    let l = locate_next_nal_found p v found in
    let inside : q.curr_nal_data_pos < length q.bytes =
      ground (arith, ap length l.0, l.2, l.3, l.4, l.5) in
    let (b, e) = get_elem?-some q.bytes q.curr_nal_data_pos inside in (b % 32, ground (arith, e))

locate_sps_ends :
    (fuel : ℕ) (p : NalParser)
    → IsValid p
    → data_end p < fuel + p.next_nal_start_code_pos
    → (r : NalParser × Bool) × (locate_sps fuel p ≡ done r)
unfolding locate_sps
locate_sps_ends zero p v h = absurd (omega (arith, next-le-data_end p v))
locate_sps_ends (suc fuel) p v h =
    let q = (locate_next_nal p).0 in
    elim (Bool-cases (locate_next_nal p).1) [
      | inr last ↦ ((q, false), ground arith)
      | inl found ↦
          let (r, more) =
            locate_sps_ends fuel q (locate_next_nal-IsValid p v) (rounds_left p v found fuel h) in
          elim (Bool-cases (nal_length q == 0)) [
            | inl empty ↦ (r, ground (arith, more))
            | inr full ↦
                let (t, type) = nal_type-some p v found full in
                elim (Bool-cases (t == sps_type)) [
                  | inl sps ↦ ((q, true), ground (arith, type))
                  | inr other ↦ (r, ground (arith, type, more))
                ]
          ]
    ]

-- On any bytes locateSPS of a new parser returns: the rounds are enough, one for each byte and one
-- more, and it reads no byte past the end of the data, not even if they end in a start code.
pub locate_sps_returns :
    (bytes : List ℕ)
    → (r : NalParser × Bool) × (locate_sps (suc (length bytes)) (make_parser bytes) ≡ done r)
locate_sps_returns bytes =
    locate_sps_ends (suc (length bytes)) (make_parser bytes) (make_parser-IsValid bytes)
      (omega (arith, ap length (make_parser-bytes bytes)))

-- The first SPS among the units.
abbrev pub first_sps : List Nal → Option Nal
first_sps [] = none
first_sps (u ∷ us) = if unit_type u == sps_type then some u else first_sps us

abbrev pub stands_at : NalParser × Bool → Option Nal
stands_at (q, true) = some (nal_data q)
stands_at (q, false) = none

full_unit : (q : NalParser) (u : Nal) → 0 < length u → nal_data q ≡ u → (nal_length q == 0) ≡ false
unfolding nal_data
full_unit q [] h e = elim h [ ]
full_unit q (b ∷ u) h e = ground (arith, e)

locate_sps-units :
    (us : List Nal) (fuel : ℕ) (p : NalParser)
    → length us < fuel
    → AreUnits us
    → Remaining p us
    → (r : NalParser × Bool) × (locate_sps fuel p ≡ done r) × (stands_at r ≡ first_sps us)
unfolding locate_sps
locate_sps-units us zero p h a e = elim h [ ]
locate_sps-units [] (suc fuel) p h a e =
    ((p, false), ground (arith, locate_next_nal_last p e), refl)
locate_sps-units (u ∷ us) (suc fuel) p h a e =
    let (q, found, rest, nal, first) = locate_next_nal_unit p u us a.0.0 e in
    let (r, more, at) = locate_sps-units us fuel q (omega arith) a.1 rest in
    let type = nal_type_at q u us a.0.1 first in
    let full = full_unit q u a.0.1 nal in
    elim (Bool-cases (unit_type u == sps_type)) [
      | inl sps ↦ ((q, true), ground (arith, found, type, full), ground (arith, nal))
      | inr other ↦ (r, ground (arith, found, type, full, more), ground (arith, at))
    ]

-- Over the framed stream of NAL units, none empty and none with a start code inside, and with more
-- rounds than units, locateSPS of a new parser stands at the first SPS, with its data, or finds none
-- if there is none.
pub locate_sps-frame :
    (us : List Nal) (fuel : ℕ)
    → AreUnits us
    → length us < fuel
    → (r : NalParser × Bool) × (locate_sps fuel (make_parser (frame us)) ≡ done r)
      × (stands_at r ≡ first_sps us)
locate_sps-frame us fuel a h =
    locate_sps-units us fuel (make_parser (frame us)) h a (make_parser-Remaining us)
