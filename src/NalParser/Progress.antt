-- ===== src/NalParser/Progress.antt =====
-- What holds of a NalParser between two calls, and how far each locateNextNal gets.
use android_external_v4l2_co.Prelude.{
  ap, ℕ, suc, ◌+◌, ◌-◌, ◌≤◌, ◌<◌, ◌≡◌, ◌≢◌, refl, ◌⊎◌, inl, inr, true, List, arith, length, get_or,
  drop, ◌==◌, Bool-cases, length-take, length-drop,
}
use android_external_v4l2_co.NalParser.Search.{CodeAt, start_code_offset_code, CodeAt-drop}
use android_external_v4l2_co.NalParser.{
  NalParser, data_end, find_next_start_code_pos, make_parser, locate_next_nal, nal_length, nal_data,
}

-- The next start code is at the end of the data or there is one at its position; and unless no NAL
-- unit was located yet, the last byte of a start code stands before the current one.
pub record IsValid (p : NalParser) : Type 0 where
  pub next_code :
      (p.next_nal_start_code_pos ≡ data_end p) ⊎ CodeAt p.bytes p.next_nal_start_code_pos
  pub ordered : p.curr_nal_data_pos ≤ p.next_nal_start_code_pos

find_next_start_code_pos_code :
    (bytes : List ℕ) (curr : ℕ)
    → curr ≤ length bytes
    → (find_next_start_code_pos bytes curr ≡ length bytes)
      ⊎ CodeAt bytes (find_next_start_code_pos bytes curr)
unfolding find_next_start_code_pos
find_next_start_code_pos_code bytes curr b = elim (start_code_offset_code (drop curr bytes)) [
  | inl e ↦ inl (omega (arith, length-drop curr bytes))
  | inr c ↦ inr (CodeAt-drop curr _ bytes b c)
]

find_next_start_code_pos-ge :
    (bytes : List ℕ) (curr : ℕ) → curr ≤ find_next_start_code_pos bytes curr
unfolding find_next_start_code_pos
find_next_start_code_pos-ge bytes curr = omega arith

pub make_parser-IsValid : (bytes : List ℕ) → IsValid (make_parser bytes)
unfolding make_parser
make_parser-IsValid bytes = record {
  next_code = find_next_start_code_pos_code bytes 0 (omega arith);
  ordered = omega arith;
}

-- locateNextNal keeps a parser valid, whether it finds a unit or not.
pub locate_next_nal-IsValid : (p : NalParser) → IsValid p → IsValid (locate_next_nal p).0
unfolding locate_next_nal
locate_next_nal-IsValid p v = ground (
  arith,
  find_next_start_code_pos_code p.bytes (p.next_nal_start_code_pos + 3),
  find_next_start_code_pos-ge p.bytes (p.next_nal_start_code_pos + 3),
)

nal_data-length :
    (p : NalParser)
    → p.curr_nal_data_pos + nal_length p ≤ data_end p
    → length (nal_data p) ≡ nal_length p
unfolding nal_data
nal_data-length p h = omega (
  arith,
  length-take (nal_length p) (drop p.curr_nal_data_pos p.bytes),
  length-drop p.curr_nal_data_pos p.bytes,
)

nal_length_bounds :
    (p : NalParser)
    → p.next_nal_start_code_pos ≤ data_end p
    → p.curr_nal_data_pos ≤ p.next_nal_start_code_pos
    → (p.next_nal_start_code_pos ≡ p.curr_nal_data_pos
        → get_or p.bytes (p.next_nal_start_code_pos - 1) 0 ≡ 1)
    → (p.curr_nal_data_pos + nal_length p ≤ p.next_nal_start_code_pos)
      × (p.next_nal_start_code_pos ≤ p.curr_nal_data_pos + nal_length p + 1)
unfolding nal_length
nal_length_bounds p e o c = ground arith

-- The next position of a valid parser is in the data.
pub next-le-data_end : (p : NalParser) → IsValid p → p.next_nal_start_code_pos ≤ data_end p
next-le-data_end p v = ground (arith, v.next_code)

-- The parser behind the start code at its next position.
abbrev pub after : NalParser → NalParser
after p =
    let curr = p.next_nal_start_code_pos + 3 in
    record {
      bytes = p.bytes;
      curr_nal_data_pos = curr;
      next_nal_start_code_pos = find_next_start_code_pos p.bytes curr;
    }

pub located :
    (p : NalParser)
    → IsValid p
    → (locate_next_nal p).1 ≡ true
    → ((locate_next_nal p).0 ≡ after p) × CodeAt p.bytes p.next_nal_start_code_pos
unfolding locate_next_nal
located p v more = (ground arith, ground (arith, v.next_code))

last_of_code :
    (p : NalParser)
    → CodeAt p.bytes p.next_nal_start_code_pos
    → (after p).next_nal_start_code_pos ≡ (after p).curr_nal_data_pos
    → get_or p.bytes ((after p).next_nal_start_code_pos - 1) 0 ≡ 1
last_of_code p code e = rw back code.3
  where
    back : (after p).next_nal_start_code_pos - 1 ≡ suc (suc p.next_nal_start_code_pos)
    back = omega arith

-- The data of a unit end where the data of the parser end, or at the next start code, or one before it
-- where a zero byte stands.
abbrev pub EndsAt : NalParser → Type 0
EndsAt q =
    ((q.next_nal_start_code_pos ≡ data_end q) × (q.curr_nal_data_pos + nal_length q ≡ data_end q))
    ⊎ (CodeAt q.bytes q.next_nal_start_code_pos
        × (((get_or q.bytes (q.next_nal_start_code_pos - 1) 0 ≡ 0)
              × (q.curr_nal_data_pos + nal_length q + 1 ≡ q.next_nal_start_code_pos))
            ⊎ ((get_or q.bytes (q.next_nal_start_code_pos - 1) 0 ≢ 0)
                × (q.curr_nal_data_pos + nal_length q ≡ q.next_nal_start_code_pos))))

ends_at :
    (p : NalParser)
    → IsValid p
    → (p.next_nal_start_code_pos ≡ p.curr_nal_data_pos
        → get_or p.bytes (p.next_nal_start_code_pos - 1) 0 ≡ 1)
    → EndsAt p
unfolding nal_length
ends_at p v c = elim (Bool-cases (p.next_nal_start_code_pos == data_end p)) [
  | inl e ↦ inl (ground arith, ground (arith, v.ordered))
  | inr e ↦
      let code : CodeAt p.bytes p.next_nal_start_code_pos = elim v.next_code [
        | inl x ↦ absurd (ground arith)
        | inr x ↦ x
      ] in
      inr (
        code,
        elim (Bool-cases (get_or p.bytes (p.next_nal_start_code_pos - 1) 0 == 0)) [
          | inl z ↦ inl (ground arith, ground (arith, v.ordered, c))
          | inr z ↦ inr (λ x. ground arith, ground (arith, v.ordered))
        ],
      )
]

pub locate_next_nal_found :
    (p : NalParser)
    → IsValid p
    → (locate_next_nal p).1 ≡ true
    → let q = (locate_next_nal p).0 in
      (q.bytes ≡ p.bytes)
      × (q.curr_nal_data_pos ≡ p.next_nal_start_code_pos + 3)
      × (p.next_nal_start_code_pos < q.next_nal_start_code_pos)
      × (q.next_nal_start_code_pos ≤ data_end p)
      × (length (nal_data q) ≡ nal_length q)
      × EndsAt q
locate_next_nal_found p v more =
    let (at, code) = located p v more in
    let valid : IsValid (after p) = rw at at (locate_next_nal-IsValid p v) in
    let bounds =
      nal_length_bounds (after p) (next-le-data_end (after p) valid) valid.ordered
        (last_of_code p code) in
    let le : p.next_nal_start_code_pos + 3 ≤ (after p).next_nal_start_code_pos = valid.ordered in
    let end = next-le-data_end (after p) valid in
    rw at (
      refl,
      refl,
      omega arith,
      omega arith,
      nal_data-length (after p) (omega arith),
      ends_at (after p) valid (last_of_code p code),
    )

pub make_parser-bytes : (bytes : List ℕ) → (make_parser bytes).bytes ≡ bytes
unfolding make_parser
make_parser-bytes bytes = refl

module _ (p : NalParser) (v : IsValid p) (found : (locate_next_nal p).1 ≡ true) where
  -- What is left to search decreases.
  pub rounds_left :
      (fuel : ℕ)
      → data_end p < suc fuel + p.next_nal_start_code_pos
      → data_end (locate_next_nal p).0 < fuel + (locate_next_nal p).0.next_nal_start_code_pos
  rounds_left fuel h = let l = locate_next_nal_found p v found in omega (arith, ap length l.0, l.2)
