-- ===== src/NalParser/Search.antt =====
-- `std::search` for the start code 00 00 01, as findNextStartCodePos calls it.
use native.Mathlib.Nat.{zero-add, suc-add, add-suc}
use android_external_v4l2_co.Prelude.{
  ℕ, suc, ◌+◌, ◌≤◌, ◌≡◌, refl, ◌⊎◌, Bool, false, ◌&&◌, List, [], ◌∷◌, ◌++◌, arith, ◌==◌,
  if◌then◌else◌, length, get_or, drop, length-drop, ap, inl, inr, Bool-cases, true, zero,
}

abbrev pub starts_with_code : List ℕ → Bool
starts_with_code (a ∷ b ∷ c ∷ rest) = a == 0 && b == 0 && c == 1
starts_with_code _ = false

-- The offset of the first start code, or the number of bytes.
unfoldable pub start_code_offset : List ℕ → ℕ
start_code_offset [] = 0
start_code_offset (x ∷ xs) = if starts_with_code (x ∷ xs) then 0 else suc (start_code_offset xs)

-- No start code lies inside the bytes.
abbrev pub HasNoCode : List ℕ → Type 0
HasNoCode [] = Unit {0}
HasNoCode (x ∷ xs) = (starts_with_code (x ∷ xs) ≡ false) × HasNoCode xs

pub start_code_offset_none : (u : List ℕ) → HasNoCode u → start_code_offset u ≡ length u
unfolding start_code_offset
start_code_offset_none [] h = refl
start_code_offset_none (x ∷ xs) h = ground (arith, start_code_offset_none xs h.1)

-- Behind bytes with no start code a four-byte one is found at its second byte.
pub start_code_offset_before :
    (u rest : List ℕ) → HasNoCode u → start_code_offset (u ++ (0 ∷ 0 ∷ 0 ∷ 1 ∷ rest)) ≡ length u + 1
unfolding start_code_offset
start_code_offset_before [] rest h = refl
start_code_offset_before (x ∷ []) rest h = ground (arith, start_code_offset_before [] rest tt)
start_code_offset_before (x ∷ y ∷ []) rest h =
    ground (arith, start_code_offset_before (y ∷ []) rest h.1)
start_code_offset_before (x ∷ y ∷ z ∷ u) rest h =
    ground (arith, start_code_offset_before (y ∷ z ∷ u) rest h.1)

-- The bytes of a start code stand at the position.
abbrev pub CodeAt : List ℕ → ℕ → Type 0
CodeAt xs i =
    (i + 3 ≤ length xs)
    × (get_or xs i 0 ≡ 0)
    × (get_or xs (suc i) 0 ≡ 0)
    × (get_or xs (suc (suc i)) 0 ≡ 1)

CodeAt-start : (xs : List ℕ) → starts_with_code xs ≡ true → CodeAt xs 0
CodeAt-start [] e = cc
CodeAt-start (a ∷ []) e = cc
CodeAt-start (a ∷ b ∷ []) e = cc
CodeAt-start (a ∷ b ∷ c ∷ xs) e = ground arith

CodeAt-suc : (x : ℕ) (xs : List ℕ) (i : ℕ) → CodeAt xs i → CodeAt (x ∷ xs) (suc i)
CodeAt-suc x xs i h = (omega arith, h.1, h.2, h.3)

behind :
    (x : ℕ) (xs : List ℕ) {i : ℕ}
    → (i ≡ length xs) ⊎ CodeAt xs i
    → (suc i ≡ length (x ∷ xs)) ⊎ CodeAt (x ∷ xs) (suc i)
behind x xs (inl e) = inl (ap suc e)
behind x xs {i} (inr h) = inr (CodeAt-suc x xs i h)

-- A search ends at the end of the bytes, or at a start code.
pub start_code_offset_code :
    (xs : List ℕ) → (start_code_offset xs ≡ length xs) ⊎ CodeAt xs (start_code_offset xs)
unfolding start_code_offset
start_code_offset_code [] = inl refl
start_code_offset_code (x ∷ xs) = elim (Bool-cases (starts_with_code (x ∷ xs))) [
  | inl e ↦ rw e (inr (CodeAt-start (x ∷ xs) e))
  | inr e ↦ rw e (behind x xs (start_code_offset_code xs))
]

get_or-drop : (i k : ℕ) (xs : List ℕ) → get_or (drop i xs) k 0 ≡ get_or xs (i + k) 0
get_or-drop zero k xs = rw zero-add
get_or-drop (suc i) k [] = refl
get_or-drop (suc i) k (x ∷ xs) = rw (suc-add) (get_or-drop i k xs)

pub CodeAt-drop : (i k : ℕ) (xs : List ℕ) → i ≤ length xs → CodeAt (drop i xs) k → CodeAt xs (i + k)
CodeAt-drop i k xs b h = (
  omega (arith, length-drop i xs),
  rw (← get_or-drop i k xs) h.1,
  rw (← add-suc, ← get_or-drop i (suc k) xs) h.2,
  rw (← add-suc, ← add-suc, ← get_or-drop i (suc (suc k)) xs) h.3,
)
