-- ===== src/Tests/Encode.antt =====
-- An SPS, a PPS, an IDR slice and another slice, through NalParser and the encoder's helpers.
use mathlib.Core.List.{Memᴰ}
use android_external_v4l2_co.Prelude.{
  Bool, ◌≡◌, ◌≢◌, refl, true, none, some, List, [], ◌∷◌, ◌++◌, arith, length, get_elem?, inl, inr,
  out_of_fuel, done,
}
use android_external_v4l2_co.NalParser.{
  NalParser, make_parser, locate_next_nal, locate_sps, nal_data, nal_length, nal_type, sps_type,
  pps_type,
}
use android_external_v4l2_co.NalParser.Sps.{stands_at, locate_sps-frame, locate_sps_returns}
use android_external_v4l2_co.NalParser.Search.{start_code_offset}
use android_external_v4l2_co.NalParser.Units.{
  unit_type, Nal, frame, Remaining, make_parser-Remaining, locate_next_nal_unit,
}
use android_external_v4l2_co.EncodeHelpers.{
  Injection, is_empty, extract_loop, take_params, extract_sps_pps, extract_csd_info,
  prepend_sps_pps_to_idr,
}
use android_external_v4l2_co.EncodeHelpers.Loops.{params_loops_end}
use android_external_v4l2_co.EncodeHelpers.Extract.{
  extract_csd_info_missing, extract_csd_info_found, extract_sps_pps-frame_pair,
}
use android_external_v4l2_co.EncodeHelpers.Inject.{injected}
use android_external_v4l2_co.EncodeHelpers.Prepend.{
  prepend_sps_pps_to_idr_fits, prepend_sps_pps_to_idr_fails, prepend_sps_pps_to_idr_unchanged,
}

abbrev sps : Nal
sps = 0x67 ∷ 0x42 ∷ 0x00 ∷ 0x0a ∷ []

abbrev pps : Nal
pps = 0x68 ∷ 0xce ∷ []

abbrev idr : Nal
idr = 0x65 ∷ 0x88 ∷ 0x80 ∷ []

abbrev slice : Nal
slice = 0x41 ∷ 0x9a ∷ []

abbrev keyframe : List Nal
keyframe = sps ∷ pps ∷ idr ∷ []

-- Three-byte start codes are read too.
three_byte :
    extract_csd_info (0 ∷ 0 ∷ 1 ∷ (sps ++ (0 ∷ 0 ∷ 1 ∷ pps))) ≡ done (some (frame (sps ∷ pps ∷ [])))
unfolding extract_csd_info extract_sps_pps extract_loop locate_next_nal make_parser
    start_code_offset nal_type take_params nal_data nal_length
three_byte = refl

prepend_sps_pps_to_idr_fits_example :
    (t : Injection) × (prepend_sps_pps_to_idr (frame (slice ∷ idr ∷ [])) 64 sps pps
      ≡ done (t, length (frame (slice ∷ sps ∷ pps ∷ idr ∷ []))))
    × (t.dst.written ≡ frame (slice ∷ sps ∷ pps ∷ idr ∷ []))
unfolding injected is_empty
prepend_sps_pps_to_idr_fits_example =
    prepend_sps_pps_to_idr_fits (slice ∷ idr ∷ []) (slice ∷ sps ∷ pps ∷ idr ∷ []) 64 sps pps
      (ground arith) refl (omega arith)

extract_csd_info_found_example :
    (s p : Nal) × (Memᴰ s keyframe × (unit_type s ≡ sps_type))
    × (Memᴰ p keyframe × (unit_type p ≡ pps_type))
    × (extract_csd_info (frame keyframe) ≡ done (some (frame (s ∷ p ∷ []))))
extract_csd_info_found_example = extract_csd_info_found keyframe (ground arith) refl

params_loops_end_example :
    (extract_sps_pps (0 ∷ 0 ∷ 1 ∷ 0x67 ∷ []) [] [] ≢ out_of_fuel)
    × (prepend_sps_pps_to_idr (0 ∷ 0 ∷ 1 ∷ 0x67 ∷ []) 8 [] [] ≢ out_of_fuel)
params_loops_end_example = params_loops_end (0 ∷ 0 ∷ 1 ∷ 0x67 ∷ []) [] [] 8

locate_next_nal_unit_example :
    (q : NalParser) × (locate_next_nal (make_parser (frame keyframe)) ≡ (q, true))
    × Remaining q (pps ∷ idr ∷ [])
    × (nal_data q ≡ sps)
    × (get_elem? q.bytes q.curr_nal_data_pos ≡ get_elem? (sps ++ frame (pps ∷ idr ∷ [])) 0)
locate_next_nal_unit_example =
    locate_next_nal_unit (make_parser (frame keyframe)) sps (pps ∷ idr ∷ []) (ground arith)
      (make_parser-Remaining keyframe)

-- With a destination of twelve bytes, the SPS fits and the PPS does not.
prepend_sps_pps_to_idr_fails_example :
    (t : Injection) × (prepend_sps_pps_to_idr (frame (idr ∷ [])) 12 sps pps ≡ done (t, 0))
unfolding injected is_empty
prepend_sps_pps_to_idr_fails_example =
    prepend_sps_pps_to_idr_fails (idr ∷ []) 12 sps pps (ground arith)
      (inr (sps ∷ pps ∷ idr ∷ [], refl, omega arith))

extract_csd_info_missing_example : extract_csd_info (frame (sps ∷ idr ∷ [])) ≡ done none
extract_csd_info_missing_example = extract_csd_info_missing (sps ∷ idr ∷ []) (ground arith) refl

extract_sps_pps-frame_pair_example :
    extract_sps_pps (frame (sps ∷ pps ∷ [])) [] []
    ≡ done (record { sps = sps; pps = pps; found_sps = true; found_pps = true })
extract_sps_pps-frame_pair_example =
    extract_sps_pps-frame_pair sps pps [] [] (ground arith) (ground arith) refl refl

-- An IDR slice behind an SPS alone, with a PPS in the cache.
prepend_sps_pps_to_idr_unchanged_example :
    (t : Injection) × (prepend_sps_pps_to_idr (frame (sps ∷ idr ∷ [])) 64 sps pps
      ≡ done (t, length (frame (sps ∷ idr ∷ []))))
    × (t.dst.written ≡ frame (sps ∷ idr ∷ []))
prepend_sps_pps_to_idr_unchanged_example =
    prepend_sps_pps_to_idr_unchanged sps (idr ∷ []) 64 sps pps (ground arith) (inl refl)
      (omega arith)

locate_sps-frame_example :
    (r : NalParser × Bool) × (locate_sps 4 (make_parser (frame (slice ∷ sps ∷ idr ∷ []))) ≡ done r)
    × (stands_at r ≡ some sps)
locate_sps-frame_example = locate_sps-frame (slice ∷ sps ∷ idr ∷ []) 4 (ground arith) (omega arith)

-- Data that end in a start code.
locate_sps_returns_example :
    (r : NalParser × Bool) × (locate_sps 4 (make_parser (0 ∷ 0 ∷ 1 ∷ [])) ≡ done r)
locate_sps_returns_example = locate_sps_returns (0 ∷ 0 ∷ 1 ∷ [])
