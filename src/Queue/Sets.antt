-- ===== src/Queue/Sets.antt =====
-- `std::set<size_t>` as a list in ascending order.
use android_external_v4l2_co.Prelude.{
  ℕ, ◌+◌, ◌<◌, ◌≡◌, Bool, true, false, ◌||◌, List, [], ◌∷◌, arith, ltb, ◌==◌, if◌then◌else◌,
}

unfoldable pub insert : ℕ → List ℕ → List ℕ
insert n [] = n ∷ []
insert n (x ∷ xs) =
    let rest = insert n xs in if n == x then x ∷ xs else if ltb n x then n ∷ x ∷ xs else x ∷ rest

unfoldable pub erase : ℕ → List ℕ → List ℕ
erase n [] = []
erase n (x ∷ xs) = if n == x then xs else x ∷ erase n xs

unfoldable pub contains : ℕ → List ℕ → Bool
contains n [] = false
contains n (x ∷ xs) = n == x || contains n xs

abbrev pub count : ℕ → List ℕ → ℕ
count n [] = 0
count n (x ∷ xs) = (if n == x then 1 else 0) + count n xs

-- One at `n`, zero elsewhere.
abbrev pub one_at : ℕ → ℕ → ℕ
one_at n i = if i == n then 1 else 0

pub count-insert :
    (n i : ℕ) (xs : List ℕ) → count n xs ≡ 0 → count i (insert n xs) ≡ count i xs + one_at n i
unfolding insert
count-insert n i [] h = ground arith
count-insert n i (x ∷ xs) h = ground (arith, count-insert n i xs)

pub count-erase :
    (n i : ℕ) (xs : List ℕ) → 0 < count n xs → count i (erase n xs) + one_at n i ≡ count i xs
unfolding erase
count-erase n i [] h = elim h [ ]
count-erase n i (x ∷ xs) h = ground (arith, count-erase n i xs)

pub contains-count : (n : ℕ) (xs : List ℕ) → contains n xs ≡ true → 0 < count n xs
unfolding contains
contains-count n [] h = absurd (ground arith)
contains-count n (x ∷ xs) h = ground (arith, contains-count n xs)

pub not-contains-count : (n : ℕ) (xs : List ℕ) → contains n xs ≡ false → count n xs ≡ 0
unfolding contains
not-contains-count n [] h = ground arith
not-contains-count n (x ∷ xs) h = ground (arith, not-contains-count n xs)

pub contains-insert : (n : ℕ) (xs : List ℕ) → contains n (insert n xs) ≡ true
unfolding contains insert
contains-insert n [] = ground arith
contains-insert n (x ∷ xs) = ground (arith, contains-insert n xs)
