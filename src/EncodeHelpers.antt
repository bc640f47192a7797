-- ===== src/EncodeHelpers.antt =====
-- common/EncodeHelpers.cpp: the SPS and PPS of an H.264 stream, extracted and put before IDR units.
-- The destination is the list of the bytes written so far with the room that is left. What the
-- source copies with `parser.data()` and `parser.length()` is `nal_data`. A loop over the units
-- takes fuel, one round for each byte of the data and one more.
pub mod Loops
pub mod Extract
pub mod Inject
pub mod Prepend
use android_external_v4l2_co.Prelude.{
  ℕ, zero, suc, ◌+◌, ◌-◌, ◌*◌, Bool, true, false, ◌&&◌, ◌||◌, Option, none, some, List, [], ◌∷◌,
  ◌++◌, ltb, ◌==◌, if◌then◌else◌, length, Checked, fault, out_of_fuel, done, ◌>>=◌, of_option,
}
use android_external_v4l2_co.NalParser.{
  NalParser, idr_type, sps_type, pps_type, make_parser, locate_next_nal, nal_data, nal_type,
}

abbrev pub h264_start_code : List ℕ
h264_start_code = 0 ∷ 0 ∷ 0 ∷ 1 ∷ []

abbrev pub h264_start_code_size : ℕ
h264_start_code_size = 4

-- `dst` and `dstSize`.
pub record Destination : Type 0 where
  pub written : List ℕ
  pub room : ℕ

-- copyNALUPrependingStartCode; `none` is `false`, which leaves both arguments as they were.
unfoldable pub copy_nalu_prepending_start_code : List ℕ → Destination → Option Destination
copy_nalu_prepending_start_code src dst =
    let nalu_size = length src + h264_start_code_size in
    if ltb dst.room nalu_size
    then none
    else some
        (record { written = dst.written ++ (h264_start_code ++ src); room = dst.room - nalu_size })

-- The out-parameters and flags of extractSPSPPS.
pub record Params : Type 0 where
  pub sps : List ℕ
  pub pps : List ℕ
  pub found_sps : Bool
  pub found_pps : Bool

-- The switch of extractSPSPPS.
unfoldable pub take_params : ℕ → List ℕ → Params → Params
take_params type nal s =
    if type == sps_type
    then record s { sps = nal; found_sps = true }
    else if type == pps_type
    then record s { pps = nal; found_pps = true }
    else s

-- The loop of extractSPSPPS.
unfoldable pub extract_loop : ℕ → NalParser → Params → Checked Params
extract_loop zero p s = out_of_fuel
extract_loop (suc fuel) p s = elim (s.found_sps && s.found_pps) [
  | true ↦ done s
  | false ↦ elim (locate_next_nal p).1 [
    | false ↦ done s
    | true ↦ of_option (nal_type (locate_next_nal p).0) >>= λ type.
        extract_loop fuel (locate_next_nal p).0
          (take_params type (nal_data (locate_next_nal p).0) s)
  ]
]

-- extractSPSPPS, with the vectors that it writes to. Its result is `found_sps && found_pps`.
unfoldable pub extract_sps_pps : List ℕ → List ℕ → List ℕ → Checked Params
extract_sps_pps bytes sps pps =
    extract_loop (suc (length bytes)) (make_parser bytes)
      (record { sps = sps; pps = pps; found_sps = false; found_pps = false })

-- The two copies that end extractCSDInfo, into `room` bytes.
unfoldable pub make_csd : List ℕ → List ℕ → ℕ → Option (List ℕ)
unfolding copy_nalu_prepending_start_code
make_csd sps pps room =
    elim (copy_nalu_prepending_start_code sps (record { written = []; room = room })) [
      | none ↦ none
      | some d ↦ elim (copy_nalu_prepending_start_code pps d) [
        | none ↦ none
        | some e ↦ some e.written
      ]
    ]

-- extractCSDInfo: `done none` is `false`, and `done (some csd)` the value of the new `csd`.
unfoldable pub extract_csd_info : List ℕ → Checked (Option (List ℕ))
unfolding make_csd
extract_csd_info bytes = extract_sps_pps bytes [] [] >>= λ s. done (
    if s.found_sps && s.found_pps
    then make_csd s.sps s.pps (length s.sps + length s.pps + 2 * h264_start_code_size)
    else none)

-- The state of prependSPSPPSToIDR: its flag, the caches behind its pointers and the destination.
pub record Injection : Type 0 where
  pub found_stream_params : Bool
  pub sps : List ℕ
  pub pps : List ℕ
  pub dst : Destination

-- A step that may return 0: the flag is false then, and what it changed before stays changed.
abbrev pub Step : Type 0
Step = Injection × Bool

abbrev pub and_then : Step → (Injection → Step) → Step
and_then (s, true) f = f s
and_then (s, false) f = (s, false)

copied : Injection → Option Destination → Step
copied s none = (s, false)
copied s (some d) = (record s { dst = d }, true)

unfoldable pub copy_unit : List ℕ → Injection → Step
unfolding copied
copy_unit nal s = copied s (copy_nalu_prepending_start_code nal s.dst)

unfoldable pub is_empty : List ℕ → Bool
is_empty [] = true
is_empty (x ∷ xs) = false

-- The case of an IDR slice with no stream parameters before it.
unfoldable pub inject_params : Injection → Step
inject_params s =
    if is_empty s.sps || is_empty s.pps
    then (s, false)
    else and_then (copy_unit s.sps s) (λ t. copy_unit s.pps t)

-- The switch of prependSPSPPSToIDR.
unfoldable pub prepare_unit : ℕ → List ℕ → Injection → Step
prepare_unit type nal s =
    if type == sps_type
    then (record s { sps = nal; found_stream_params = true }, true)
    else if type == pps_type
    then (record s { pps = nal; found_stream_params = true }, true)
    else if type == idr_type
    then (if s.found_stream_params then (s, true) else inject_params s)
    else (s, true)

-- The body of its loop.
unfoldable pub prepend_unit : ℕ → List ℕ → Injection → Step
prepend_unit type nal s = and_then (prepare_unit type nal s) (copy_unit nal)

unfoldable pub prepend_loop : ℕ → NalParser → Injection → Checked Step
prepend_loop zero p s = out_of_fuel
prepend_loop (suc fuel) p s = elim (locate_next_nal p).1 [
  | false ↦ done (s, true)
  | true ↦ of_option (nal_type (locate_next_nal p).0) >>= λ type.
      let (t, ok) = prepend_unit type (nal_data (locate_next_nal p).0) s in
      elim ok [ true ↦ prepend_loop fuel (locate_next_nal p).0 t | false ↦ done (t, false) ]
]

-- prependSPSPPSToIDR: the state at the return, and the number returned.
unfoldable pub prepend_sps_pps_to_idr : List ℕ → ℕ → List ℕ → List ℕ → Checked (Injection × ℕ)
prepend_sps_pps_to_idr src dst_size sps pps =
    prepend_loop (suc (length src)) (make_parser src) (record {
      found_stream_params = false;
      sps = sps;
      pps = pps;
      dst = record { written = []; room = dst_size };
    })
    >>= λ r. done (r.0, if r.1 then dst_size - r.0.dst.room else 0)
