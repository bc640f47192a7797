-- ===== src/PixelFormat/Size.antt =====
-- planeSize, allocationSize and the bits per pixel of common/VideoPixelFormat.cpp.
-- `base::bits::Align` is a parameter with what its documentation says of a multiple of two.
use android_external_v4l2_co.Prelude.{
  Bool, ◌&&◌, ◌^◌, ltb, Checked, fault, done, ◌>>=◌, ℕ, zero, suc, ◌+◌, ◌*◌, ◌/◌, ◌%◌, ◌≤◌, ◌<◌,
  ◌≡◌, if◌then◌else◌,
}
use android_external_v4l2_co.PixelFormat.Tables.{
  VideoPixelFormat, requires_even_size_allocation, num_planes, bytes_per_element, sample_size, Size,
  size,
}

-- base::bits::Align(x, alignment): `x` rounded up to a multiple of `alignment`.
pub record Bits : Type 0 where
  pub align : ℕ → ℕ → ℕ
  pub align_ge : (x : ℕ) → x ≤ align x 2
  pub align_lt : (x : ℕ) → align x 2 < x + 2
  pub align_even : (x : ℕ) → align x 2 % 2 ≡ 0

-- The size that the planes of a frame are cut from.
unfoldable pub aligned_size : Bits → VideoPixelFormat → Size → Size
aligned_size b format s =
    if requires_even_size_allocation format
    then size (b.align s.width 2) (b.align s.height 2)
    else s

-- What an `int` holds. A product that does not fit is a fault.
abbrev pub fits_int : ℕ → Bool
fits_int n = ltb n (2 ^ 31)

-- A plane cut from the aligned size.
unfoldable pub cut_plane : VideoPixelFormat → ℕ → Size → Checked Size
cut_plane format plane a =
    let subsample = sample_size format plane in
    if fits_int (bytes_per_element format plane * a.width) && fits_int a.height
    then done (
        size (bytes_per_element format plane * a.width / subsample.width)
          (a.height / subsample.height))
    else fault

unfoldable pub plane_size : Bits → VideoPixelFormat → ℕ → Size → Checked Size
unfolding cut_plane aligned_size
plane_size b format plane s = cut_plane format plane (aligned_size b format s)

unfoldable pub plane_area : Checked Size → Checked ℕ
plane_area plane =
    plane >>= λ p. if fits_int (p.width * p.height) then done (p.width * p.height) else fault

-- The loop of allocationSize, from the plane `i`, with the planes left as its count.
unfoldable pub add_areas : ℕ → ℕ → (ℕ → Checked ℕ) → Checked ℕ
add_areas zero i area = done 0
add_areas (suc n) i area = area i >>= λ a. add_areas n (i + 1) area >>= λ rest. done (a + rest)

unfoldable pub allocation_size : Bits → VideoPixelFormat → Size → Checked ℕ
unfolding add_areas plane_area plane_size
allocation_size b format s =
    add_areas (num_planes format) 0 (λ i. plane_area (plane_size b format i s))

-- The sum of a number for each plane, from the plane `i` on.
unfoldable pub sum_planes : ℕ → ℕ → (ℕ → ℕ) → ℕ
sum_planes zero i area = 0
sum_planes (suc n) i area = area i + sum_planes n (i + 1) area

unfoldable pub plane_horizontal_bits_per_pixel : VideoPixelFormat → ℕ → ℕ
plane_horizontal_bits_per_pixel format plane =
    8 * bytes_per_element format plane / (sample_size format plane).width

unfoldable pub plane_bits_per_pixel : VideoPixelFormat → ℕ → ℕ
unfolding plane_horizontal_bits_per_pixel
plane_bits_per_pixel format plane =
    plane_horizontal_bits_per_pixel format plane / (sample_size format plane).height

-- The sum that allocatedSizeFromV4L2Format takes.
unfoldable pub total_bpp : VideoPixelFormat → ℕ
unfolding sum_planes plane_bits_per_pixel
total_bpp format = sum_planes (num_planes format) 0 (plane_bits_per_pixel format)
