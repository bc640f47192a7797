-- ===== src/NalParser.antt =====
-- common/include/v4l2_codec2/common/NalParser.h and common/NalParser.cpp: the class NalParser.
-- A position is an index into the bytes; `mDataEnd` is their number. A read at a position is an
-- element of the list, so `none` stands for a read past the end of the data.
pub mod Search
pub mod Progress
pub mod Units
pub mod Sps
use mathlib.Core.Option
use android_external_v4l2_co.Prelude.{
  ℕ, ◌+◌, ◌-◌, ◌%◌, Bool, true, false, Option, none, some, List, [], ◌∷◌, ◌==◌, if◌then◌else◌, zero,
  suc, Checked, out_of_fuel, done, ◌>>=◌, of_option, length, get_elem?, get_or, take, drop,
}
use Search.{start_code_offset}

abbrev pub idr_type : ℕ
idr_type = 5

abbrev pub sps_type : ℕ
sps_type = 7

abbrev pub pps_type : ℕ
pps_type = 8

abbrev pub nal_start_code_length : ℕ
nal_start_code_length = 3

pub record NalParser : Type 0 where
  pub bytes : List ℕ
  pub curr_nal_data_pos : ℕ
  pub next_nal_start_code_pos : ℕ

abbrev pub data_end : NalParser → ℕ
data_end p = length p.bytes

-- findNextStartCodePos, from the position `curr`.
unfoldable pub find_next_start_code_pos : List ℕ → ℕ → ℕ
find_next_start_code_pos bytes curr = curr + start_code_offset (drop curr bytes)

-- The constructor.
unfoldable pub make_parser : List ℕ → NalParser
unfolding find_next_start_code_pos
make_parser bytes = record {
  bytes = bytes;
  curr_nal_data_pos = 0;
  next_nal_start_code_pos = find_next_start_code_pos bytes 0;
}

unfoldable pub locate_next_nal : NalParser → NalParser × Bool
unfolding find_next_start_code_pos
locate_next_nal p =
    let curr = p.next_nal_start_code_pos + nal_start_code_length in
    if p.next_nal_start_code_pos == data_end p then (p, false) else (
      record {
        bytes = p.bytes;
        curr_nal_data_pos = curr;
        next_nal_start_code_pos = find_next_start_code_pos p.bytes curr;
      },
      true,
    )

-- `length()`. Behind locateNextNal a start code lies below `next`, so `next - 1` is in range.
unfoldable pub nal_length : NalParser → ℕ
nal_length p =
    let size = p.next_nal_start_code_pos - p.curr_nal_data_pos in
    if p.next_nal_start_code_pos == data_end p
    then data_end p - p.curr_nal_data_pos
    else if get_or p.bytes (p.next_nal_start_code_pos - 1) 0 == 0
    then size - 1
    else size

-- The bytes that a copy of `length()` bytes from `data()` takes.
unfoldable pub nal_data : NalParser → List ℕ
nal_data p = take (nal_length p) (drop p.curr_nal_data_pos p.bytes)

-- `type()`: the byte at the position masked by 0x1f.
unfoldable pub nal_type : NalParser → Option ℕ
nal_type p = Option.map (λ b. b % 32) (get_elem? p.bytes p.curr_nal_data_pos)

-- `locateSPS`, in the given number of rounds: the parser, and whether it stands at an SPS.
unfoldable pub locate_sps : ℕ → NalParser → Checked (NalParser × Bool)
locate_sps zero p = out_of_fuel
locate_sps (suc fuel) p = elim (locate_next_nal p).1 [
  | false ↦ done ((locate_next_nal p).0, false)
  | true ↦
      let q = (locate_next_nal p).0 in
      elim (nal_length q == 0) [
        | true ↦ locate_sps fuel q
        | false ↦ of_option (nal_type q) >>= λ type. elim (type == sps_type) [
          | true ↦ done (q, true)
          | false ↦ locate_sps fuel q
        ]
      ]
]
