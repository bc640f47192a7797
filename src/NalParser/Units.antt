-- ===== src/NalParser/Units.antt =====
-- A stream of NAL units, each behind a four-byte start code, and what a parser reads from it.
use native.Mathlib.Nat.{zero-add, suc-add}
use mathlib.Core.List.{append-nil, append_assoc}
use android_external_v4l2_co.Prelude.{
  ℕ, suc, ◌+◌, ◌%◌, ◌<◌, ◌≡◌, refl, ap, ◌∙◌, true, false, some, List, [], ◌∷◌, ◌++◌, arith, length,
  get_or, get_elem?, drop, take, length-append,
}
use android_external_v4l2_co.NalParser.Search.{
  start_code_offset, HasNoCode, start_code_offset_none, start_code_offset_before,
}
use android_external_v4l2_co.NalParser.{
  NalParser, data_end, find_next_start_code_pos, make_parser, locate_next_nal, nal_length, nal_data,
  nal_type,
}

abbrev pub Nal : Type 0
Nal = List ℕ

-- The units one after another, each behind 00 00 00 01.
abbrev pub frame : List Nal → List ℕ
frame [] = []
frame (u ∷ us) = 0 ∷ 0 ∷ 0 ∷ 1 ∷ (u ++ frame us)

-- The parser stands before the units.
abbrev pub Remaining : NalParser → List Nal → Type 0
Remaining p [] = p.next_nal_start_code_pos ≡ data_end p
Remaining p (u ∷ us) =
    (pre : List ℕ) × (p.bytes ≡ pre ++ (0 ∷ 0 ∷ 1 ∷ (u ++ frame us)))
    × (p.next_nal_start_code_pos ≡ length pre)

abbrev pub HaveNoCode : List Nal → Type 0
HaveNoCode [] = Unit {0}
HaveNoCode (u ∷ us) = HasNoCode u × HaveNoCode us

drop_behind : (pre ys : List ℕ) (k : ℕ) → drop (length pre + k) (pre ++ ys) ≡ drop k ys
drop_behind [] ys k = rw zero-add
drop_behind (x ∷ pre) ys k = rw suc-add (drop_behind pre ys k)

get_or_behind : (pre ys : List ℕ) (k : ℕ) → get_or (pre ++ ys) (length pre + k) 0 ≡ get_or ys k 0
get_or_behind [] ys k = rw zero-add
get_or_behind (x ∷ pre) ys k = rw suc-add (get_or_behind pre ys k)

get_elem?_behind :
    (pre ys : List ℕ) (k : ℕ) → get_elem? (pre ++ ys) (length pre + k) ≡ get_elem? ys k
get_elem?_behind [] ys k = rw zero-add
get_elem?_behind (x ∷ pre) ys k = rw suc-add (get_elem?_behind pre ys k)

take_all : (u ys : List ℕ) → take (length u) (u ++ ys) ≡ u
take_all [] ys = refl
take_all (x ∷ u) ys = ap (◌∷◌ x) (take_all u ys)

pub make_parser-Remaining : (us : List Nal) → Remaining (make_parser (frame us)) us
unfolding make_parser start_code_offset
make_parser-Remaining [] = refl
make_parser-Remaining (u ∷ us) = (0 ∷ [], refl, refl)

pub locate_next_nal_last : (p : NalParser) → Remaining p [] → locate_next_nal p ≡ (p, false)
unfolding locate_next_nal
locate_next_nal_last p e = ground arith

abbrev stream : List ℕ → Nal → List Nal → List ℕ
stream pre u us = pre ++ (0 ∷ 0 ∷ 1 ∷ (u ++ frame us))

-- The parser at the unit `u`.
abbrev at_unit : List ℕ → Nal → List Nal → NalParser
at_unit pre u us = record {
  bytes = stream pre u us;
  curr_nal_data_pos = length pre + 3;
  next_nal_start_code_pos = find_next_start_code_pos (stream pre u us) (length pre + 3);
}

next_last :
    (pre : List ℕ) (u : Nal)
    → HasNoCode u
    → find_next_start_code_pos (stream pre u []) (length pre + 3) ≡ length (stream pre u [])
unfolding find_next_start_code_pos
next_last pre u h =
    rw (drop_behind pre (0 ∷ 0 ∷ 1 ∷ (u ++ [])) 3, append-nil u, start_code_offset_none u h)
      (omega (arith, length-append pre (0 ∷ 0 ∷ 1 ∷ u)))

next_more :
    (pre : List ℕ) (u v : Nal) (vs : List Nal)
    → HasNoCode u
    → find_next_start_code_pos (stream pre u (v ∷ vs)) (length pre + 3)
      ≡ length pre + suc (suc (suc (length u))) + 1
unfolding find_next_start_code_pos
next_more pre u v vs h =
    rw
      (
        drop_behind pre (0 ∷ 0 ∷ 1 ∷ (u ++ frame (v ∷ vs))) 3,
        start_code_offset_before u (v ++ frame vs) h,
      )
      (omega arith)

zero_behind : (u ys : List ℕ) → get_or (u ++ (0 ∷ ys)) (length u) 0 ≡ 0
zero_behind [] ys = refl
zero_behind (x ∷ u) ys = zero_behind u ys

length_last : (pre : List ℕ) (u : Nal) → HasNoCode u → nal_length (at_unit pre u []) ≡ length u
unfolding nal_length
length_last pre u h =
    rw (next_last pre u h)
      (ground (arith, length-append pre (0 ∷ 0 ∷ 1 ∷ (u ++ [])), length-append u []))

last_byte :
    (pre : List ℕ) (u v : Nal) (vs : List Nal)
    → get_or (stream pre u (v ∷ vs)) (length pre + suc (suc (suc (length u)))) 0 ≡ 0
last_byte pre u v vs =
    get_or_behind pre _ (suc (suc (suc (length u)))) ∙ zero_behind u (0 ∷ 0 ∷ 1 ∷ (v ++ frame vs))

length_more :
    (pre : List ℕ) (u v : Nal) (vs : List Nal)
    → HasNoCode u
    → nal_length (at_unit pre u (v ∷ vs)) ≡ length u
unfolding nal_length
length_more pre u v vs h = ground (
  arith,
  next_more pre u v vs h,
  last_byte pre u v vs,
  length-append pre (0 ∷ 0 ∷ 1 ∷ (u ++ frame (v ∷ vs))),
  length-append u (frame (v ∷ vs)),
)

data_of_length :
    (pre : List ℕ) (u : Nal) (us : List Nal)
    → nal_length (at_unit pre u us) ≡ length u
    → nal_data (at_unit pre u us) ≡ u
unfolding nal_data
data_of_length pre u us e =
    rw (e, drop_behind pre (0 ∷ 0 ∷ 1 ∷ (u ++ frame us)) 3) (take_all u (frame us))

at_unit-data :
    (pre : List ℕ) (u : Nal) (us : List Nal) → HasNoCode u → nal_data (at_unit pre u us) ≡ u
at_unit-data pre u [] h = data_of_length pre u [] (length_last pre u h)
at_unit-data pre u (v ∷ vs) h = data_of_length pre u (v ∷ vs) (length_more pre u v vs h)

at_unit-Remaining :
    (pre : List ℕ) (u : Nal) (us : List Nal) → HasNoCode u → Remaining (at_unit pre u us) us
at_unit-Remaining pre u [] h = next_last pre u h
at_unit-Remaining pre u (v ∷ vs) h = (
  pre ++ (0 ∷ 0 ∷ 1 ∷ (u ++ (0 ∷ []))),
  simp append_assoc,
  next_more pre u v vs h
      ∙ omega (arith, length-append pre (0 ∷ 0 ∷ 1 ∷ (u ++ (0 ∷ []))), length-append u (0 ∷ [])),
)

locate_at :
    (p : NalParser) (pre : List ℕ) (u : Nal) (us : List Nal)
    → p.bytes ≡ stream pre u us
    → p.next_nal_start_code_pos ≡ length pre
    → locate_next_nal p ≡ (at_unit pre u us, true)
unfolding locate_next_nal
locate_at p pre u us b n = ground (arith, length-append pre (0 ∷ 0 ∷ 1 ∷ (u ++ frame us)))

-- From a parser that stands before the units `u ∷ us`, where `u` has no start code inside,
-- locateNextNal finds exactly `u`, leaves the parser before `us`, and its position is that of the
-- first byte behind the start code.
pub locate_next_nal_unit :
    (p : NalParser) (u : Nal) (us : List Nal)
    → HasNoCode u
    → Remaining p (u ∷ us)
    → (q : NalParser) × (locate_next_nal p ≡ (q, true))
      × Remaining q us
      × (nal_data q ≡ u)
      × (get_elem? q.bytes q.curr_nal_data_pos ≡ get_elem? (u ++ frame us) 0)
locate_next_nal_unit p u us h (pre, b, n) = (
  at_unit pre u us,
  locate_at p pre u us b n,
  at_unit-Remaining pre u us h,
  at_unit-data pre u us h,
  get_elem?_behind pre (0 ∷ 0 ∷ 1 ∷ (u ++ frame us)) 3,
)

-- A NAL unit: at least its header byte, and no start code inside.
abbrev pub IsUnit : Nal → Type 0
IsUnit u = HasNoCode u × (0 < length u)

abbrev pub AreUnits : List Nal → Type 0
AreUnits [] = Unit {0}
AreUnits (u ∷ us) = IsUnit u × AreUnits us

-- nal_unit_type: the low five bits of the first byte.
abbrev pub unit_type : Nal → ℕ
unit_type [] = 0
unit_type (b ∷ u) = b % 32

pub nal_type_at :
    (q : NalParser) (u : Nal) (us : List Nal)
    → 0 < length u
    → get_elem? q.bytes q.curr_nal_data_pos ≡ get_elem? (u ++ frame us) 0
    → nal_type q ≡ some (unit_type u)
unfolding nal_type
nal_type_at q [] us h e = elim h [ ]
nal_type_at q (b ∷ u) us h e = rw e
