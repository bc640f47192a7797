-- ===== src/PixelFormat/Planes.antt =====
-- What the tables of PixelFormat/Tables and the sums of PixelFormat/Size have to do with each
-- other.
use native.Mathlib.Nat.{mul-le-mul_right}
use android_external_v4l2_co.Prelude.{
  ◌+◌, ◌^◌, ap, inl, Checked, done, Checked-cases, ◌==◌, ℕ, zero, suc, ◌*◌, ◌/◌, ◌%◌, ◌≤◌, ◌<◌, ◌≡◌,
  refl, inr, Bool-cases, false, ◌⊎◌, true, arith,
}
use android_external_v4l2_co.PixelFormat.Tables.{
  VideoPixelFormat, argb, xrgb, rgb24, y16, abgr, xbgr, xr30, xb30, bgra, rgba, unknown,
  requires_even_size_allocation, num_planes, bytes_per_element, is_valid_plane, chroma_sample_size,
  sample_size, Size, size,
}
use android_external_v4l2_co.PixelFormat.Size.{
  Bits, aligned_size, cut_plane, plane_size, plane_area, add_areas, sum_planes, allocation_size,
  total_bpp,
}

half : (p : ℕ) → 2 * p / 2 ≡ p
half p = omega arith

half_one : (p : ℕ) → 1 * (2 * p) / 2 ≡ p
half_one p = omega arith

half_two : (p : ℕ) → 2 * (2 * p) / 2 ≡ 2 * p
half_two p = omega arith

div-one : (p : ℕ) → p / 1 ≡ p
div-one p = omega arith

ruleset halves = (half, half_one, half_two, div-one)

-- The bytes of the planes cut from a given size.
cut_bytes : VideoPixelFormat → ℕ → ℕ → ℕ
cut_bytes format w h = sum_planes (num_planes format) 0 (λ i.
    bytes_per_element format i
    * w
    / (sample_size format i).width
    * (h / (sample_size format i).height))

cut_bytes_even :
    (format : VideoPixelFormat) (p q : ℕ)
    → 8 * cut_bytes format (2 * p) (2 * q) ≡ total_bpp format * (2 * p * (2 * q))
unfolding cut_bytes total_bpp sum_planes num_planes bytes_per_element sample_size
cut_bytes_even unknown p q = omega arith
cut_bytes_even _ p q = simp halves (omega arith)

cut_bytes_any :
    (format : VideoPixelFormat) (w h : ℕ)
    → requires_even_size_allocation format ≡ false
    → 8 * cut_bytes format w h ≡ total_bpp format * (w * h)
unfolding cut_bytes total_bpp sum_planes num_planes bytes_per_element sample_size
    requires_even_size_allocation
cut_bytes_any argb w h e = simp halves (omega arith)
cut_bytes_any xrgb w h e = simp halves (omega arith)
cut_bytes_any rgb24 w h e = simp halves (omega arith)
cut_bytes_any y16 w h e = simp halves (omega arith)
cut_bytes_any abgr w h e = simp halves (omega arith)
cut_bytes_any xbgr w h e = simp halves (omega arith)
cut_bytes_any xr30 w h e = simp halves (omega arith)
cut_bytes_any xb30 w h e = simp halves (omega arith)
cut_bytes_any bgra w h e = simp halves (omega arith)
cut_bytes_any rgba w h e = simp halves (omega arith)
cut_bytes_any unknown w h e = omega arith
cut_bytes_any _ w h e = cc

pub aligned_size_even :
    (b : Bits) (format : VideoPixelFormat) (s : Size)
    → requires_even_size_allocation format ≡ true
    → aligned_size b format s ≡ size (2 * (b.align s.width 2 / 2)) (2 * (b.align s.height 2 / 2))
unfolding aligned_size
aligned_size_even b format s e = ground (arith, b.align_even s.width, b.align_even s.height)

aligned_size_any :
    (b : Bits) (format : VideoPixelFormat) (s : Size)
    → requires_even_size_allocation format ≡ false
    → aligned_size b format s ≡ s
unfolding aligned_size
aligned_size_any b format s e = ground arith

-- The bytes of a plane.
abbrev bytes_of : VideoPixelFormat → Size → ℕ → ℕ
bytes_of format a i =
    bytes_per_element format i
    * a.width
    / (sample_size format i).width
    * (a.height / (sample_size format i).height)

add_areas-sum :
    (n i m : ℕ) (area : ℕ → Checked ℕ) (g : ℕ → ℕ)
    → ((j a : ℕ) → area j ≡ done a → a ≡ g j)
    → add_areas n i area ≡ done m
    → m ≡ sum_planes n i g
unfolding add_areas sum_planes
add_areas-sum zero i m area g h e = ground arith
add_areas-sum (suc n) i m area g h e = elim (Checked-cases (area i)) [
  | inl f ↦ absurd (ground arith)
  | inr (inl f) ↦ absurd (ground arith)
  | inr (inr (a, f)) ↦ elim (Checked-cases (add_areas n (i + 1) area)) [
    | inl k ↦ absurd (ground arith)
    | inr (inl k) ↦ absurd (ground arith)
    | inr (inr (rest, k)) ↦
        let total : m ≡ a + rest = ground arith in
        omega (arith, total, h i a f, add_areas-sum n (i + 1) rest area g h k)
  ]
]

add_areas-done :
    (n i : ℕ) (area : ℕ → Checked ℕ) (g : ℕ → ℕ)
    → ((j : ℕ) → i ≤ j → j < i + n → area j ≡ done (g j))
    → add_areas n i area ≡ done (sum_planes n i g)
unfolding add_areas sum_planes
add_areas-done zero i area g h = refl
add_areas-done (suc n) i area g h =
    let rest = add_areas-done n (i + 1) area g (λ j l u. h j (omega arith) (omega arith)) in
    rw (h i (omega arith) (omega arith), rest) refl

le-sum_planes : (n i j : ℕ) (g : ℕ → ℕ) → i ≤ j → j < i + n → g j ≤ sum_planes n i g
unfolding sum_planes
le-sum_planes zero i j g l u = absurd (omega arith)
le-sum_planes (suc n) i j g l u = elim (Bool-cases (i == j)) [
  | inl e ↦ let same : i ≡ j = ground arith in omega (arith, ap g same)
  | inr e ↦ omega (arith, le-sum_planes n (i + 1) j g (ground arith) (omega arith))
]

plane_area-bytes_of :
    (format : VideoPixelFormat) (s : Size) (j a : ℕ)
    → plane_area (cut_plane format j s) ≡ done a
    → a ≡ bytes_of format s j
unfolding plane_area cut_plane
plane_area-bytes_of format s j a e = ground arith

plane_area-done :
    (format : VideoPixelFormat) (s : Size) (j : ℕ)
    → bytes_per_element format j * s.width < 2 ^ 31
    → s.height < 2 ^ 31
    → bytes_of format s j < 2 ^ 31
    → plane_area (cut_plane format j s) ≡ done (bytes_of format s j)
unfolding plane_area cut_plane
plane_area-done format s j w h a = ground arith

bytes_per_element-le : (format : VideoPixelFormat) (i : ℕ) → bytes_per_element format i ≤ 4
unfolding bytes_per_element
bytes_per_element-le argb i = ground arith
bytes_per_element-le _ i = ground arith

cut_bytes-total_bpp :
    (b : Bits) (format : VideoPixelFormat) (s : Size)
    → let a = aligned_size b format s in
      8 * cut_bytes format a.width a.height ≡ total_bpp format * (a.width * a.height)
cut_bytes-total_bpp b format s = elim (Bool-cases (requires_even_size_allocation format)) [
  | inl e ↦ rw (aligned_size_even b format s e) (cut_bytes_even format _ _)
  | inr e ↦ rw (aligned_size_any b format s e) (cut_bytes_any format _ _ e)
]

-- What allocationSize returns, it takes from the planes.
pub allocation_size_bits :
    (b : Bits) (format : VideoPixelFormat) (s : Size) (n : ℕ)
    → allocation_size b format s ≡ done n
    → let a = aligned_size b format s in 8 * n ≡ total_bpp format * (a.width * a.height)
unfolding allocation_size plane_size cut_bytes
allocation_size_bits b format s n e =
    let a = aligned_size b format s in
    omega (
      arith,
      cut_bytes-total_bpp b format s,
      add_areas-sum (num_planes format) 0 n (λ i. plane_area (cut_plane format i a))
          (bytes_of format a) (plane_area-bytes_of format a) e,
    )

-- allocationSize and the bits per pixel of all planes agree, as the tables of the code have them: if
-- four times the width of the size aligned as the format requires, its height, and an eighth of its
-- area times the bits per pixel fit in `int`, then no product overflows, and allocationSize returns
-- that eighth; for every format.
pub allocation_size-total_bpp :
    (b : Bits) (format : VideoPixelFormat) (s : Size)
    → 4 * (aligned_size b format s).width < 2 ^ 31
    → (aligned_size b format s).height < 2 ^ 31
    → total_bpp format * ((aligned_size b format s).width * (aligned_size b format s).height)
      < 8 * 2 ^ 31
    → (n : ℕ) × (allocation_size b format s ≡ done n)
      × (8 * n
          ≡ total_bpp format * ((aligned_size b format s).width * (aligned_size b format s).height))
unfolding allocation_size plane_size cut_bytes
allocation_size-total_bpp b format s w h t =
    let a = aligned_size b format s in
    let g = bytes_of format a in
    let total = cut_bytes-total_bpp b format s in
    let lines : (j : ℕ) → bytes_per_element format j * a.width ≤ 4 * a.width =
      λ j. mul-le-mul_right a.width (bytes_per_element-le format j) in
    (
      cut_bytes format a.width a.height,
      add_areas-done (num_planes format) 0 (λ i. plane_area (cut_plane format i a)) g
          (λ j l u.
            plane_area-done format a j (omega (arith, lines j)) h
              (omega (arith, total, le-sum_planes (num_planes format) 0 j g l u))),
      total,
    )

-- The aligned size needs no more alignment.
pub aligned_size-aligned_size :
    (b : Bits) (format : VideoPixelFormat) (s : Size)
    → aligned_size b format (aligned_size b format s) ≡ aligned_size b format s
unfolding aligned_size
aligned_size-aligned_size b format s =
    let fixed : (x : ℕ) → b.align (b.align x 2) 2 ≡ b.align x 2 = λ x. omega (
      arith,
      b.align_ge (b.align x 2),
      b.align_lt (b.align x 2),
      b.align_even (b.align x 2),
      b.align_even x,
    ) in
    elim (Bool-cases (requires_even_size_allocation format)) [
      | inl e ↦ ground (arith, fixed s.width, fixed s.height)
      | inr e ↦ ground arith
    ]

abbrev IsOneOrTwo : ℕ → Type 0
IsOneOrTwo n = (n ≡ 1) ⊎ (n ≡ 2)

-- A format with a second plane is subsampled by one or two, and cut from an even size.
chroma-IsOneOrTwo :
    (format : VideoPixelFormat)
    → 1 < num_planes format
    → (requires_even_size_allocation format ≡ true)
      × IsOneOrTwo (chroma_sample_size format).width
      × IsOneOrTwo (chroma_sample_size format).height
unfolding num_planes requires_even_size_allocation chroma_sample_size
chroma-IsOneOrTwo argb h = ground arith
chroma-IsOneOrTwo _ h = ground arith

planes_max : (format : VideoPixelFormat) → num_planes format ≤ 4
unfolding num_planes
planes_max argb = omega arith
planes_max _ = omega arith

mod-IsOneOrTwo : (p n : ℕ) → IsOneOrTwo n → (0 < n) × (2 * p % n ≡ 0)
mod-IsOneOrTwo p n h = ground arith

chroma_divides :
    (b : Bits) (format : VideoPixelFormat) (s : Size)
    → 1 < num_planes format
    → let sub = chroma_sample_size format in
      let a = aligned_size b format s in
      (0 < sub.width) × (0 < sub.height) × (a.width % sub.width ≡ 0) × (a.height % sub.height ≡ 0)
chroma_divides b format s h =
    let (even, w, v) = chroma-IsOneOrTwo format h in
    let across = mod-IsOneOrTwo (b.align s.width 2 / 2) (chroma_sample_size format).width w in
    let down = mod-IsOneOrTwo (b.align s.height 2 / 2) (chroma_sample_size format).height v in
    rw (aligned_size_even b format s even) (across.0, down.0, across.1, down.1)

-- The assertions of planeSize hold: at a plane that is valid for the format the subsampling is not
-- zero, and it divides the aligned width and height of every coded size.
pub sample_size-divides :
    (b : Bits) (format : VideoPixelFormat) (plane : ℕ) (s : Size)
    → is_valid_plane format plane ≡ true
    → let sub = sample_size format plane in
      let a = aligned_size b format s in
      (0 < sub.width) × (0 < sub.height) × (a.width % sub.width ≡ 0) × (a.height % sub.height ≡ 0)
unfolding sample_size is_valid_plane
sample_size-divides b format zero s v = ground arith
sample_size-divides b format (suc zero) s v = chroma_divides b format s (ground arith)
sample_size-divides b format (suc (suc zero)) s v = chroma_divides b format s (ground arith)
sample_size-divides b format (suc (suc (suc zero))) s v = ground arith
sample_size-divides b format (suc (suc (suc (suc n)))) s v =
    absurd (ground (arith, planes_max format))
