-- ===== src/Device/Allocated.antt =====
-- allocatedSizeFromV4L2Format of common/V4L2Device.cpp, with its assertions, which are faults.
-- `none` is the size that the function returns for a format it does not take. `base::checked_cast`
-- is a parameter, and `fault` when it stops the program. What is computed from the numbers that it
-- lets pass is taken not to wrap.
pub mod RoundTrip
use android_external_v4l2_co.Prelude.{
  ℕ, ◌+◌, ◌*◌, ◌/◌, ◌%◌, ◌^◌, ◌<◌, ◌≡◌, refl, Bool, true, false, not, ◌||◌, Option, none, some,
  List, [], ◌∷◌, arith, ltb, leb, ◌&&◌, ◌==◌, if◌then◌else◌, Checked, fault, done, ◌>>=◌,
}
use android_external_v4l2_co.PixelFormat.{VideoPixelFormat}
use android_external_v4l2_co.PixelFormat.Tables.{
  argb, mjpeg, unknown, bytes_per_element, sample_size, num_planes, Size, size,
}
use android_external_v4l2_co.PixelFormat.Size.{
  Bits, aligned_size, allocation_size, plane_horizontal_bits_per_pixel, plane_bits_per_pixel,
  sum_planes, total_bpp,
}
use android_external_v4l2_co.PixelFormat.Planes.{allocation_size-total_bpp}
use android_external_v4l2_co.Fourcc.{
  Fourcc, from_v4l2_pix_fmt, to_v4l2_pix_fmt, to_video_pixel_format,
}
use android_external_v4l2_co.Device.Format.{PlaneFormat, V4l2Format}

-- base::checked_cast<int>: it keeps a number that fits.
pub record Casts : Type 0 where
  pub checked_cast : ℕ → Checked ℕ
  pub checked_cast_fits : (n : ℕ) → n < 2 ^ 31 → checked_cast n ≡ done n

unfoldable pub sum_sizeimage : Casts → List PlaneFormat → Checked ℕ
sum_sizeimage casts [] = done 0
sum_sizeimage casts (p ∷ ps) =
    casts.checked_cast p.sizeimage >>= λ n. sum_sizeimage casts ps >>= λ rest. done (n + rest)

-- The part behind the two branches.
unfoldable pub coded_size : VideoPixelFormat → ℕ → ℕ → Option Size
coded_size format bytes_per_line sizeimage =
    let bits = plane_horizontal_bits_per_pixel format 0 in
    let width = bytes_per_line * 8 / bits in
    if sizeimage == 0
      || bytes_per_line == 0
      || bits == 0
      || total_bpp format == 0
      || not (bytes_per_line * 8 % bits == 0)
    then none
    else some (size width (sizeimage * 8 / width / total_bpp format))

-- The assertions at the end: the coded size contains the visible one and needs no fewer bytes.
unfoldable pub check_coded : Bits → VideoPixelFormat → Size → ℕ → Size → Checked (Option Size)
check_coded b format visible sizeimage coded = allocation_size b format coded >>= λ n.
    if leb visible.width coded.width && (leb visible.height coded.height && leb sizeimage n)
    then done (some coded)
    else fault

unfoldable pub coded_size_of : Bits → Size → ℕ → ℕ → ℕ → Checked (Option Size)
unfolding coded_size check_coded
coded_size_of b visible pixelformat bytes_per_line sizeimage =
    elim (from_v4l2_pix_fmt pixelformat) [
      | none ↦ done none
      | some fourcc ↦
          let format = to_video_pixel_format fourcc in
          elim (coded_size format bytes_per_line sizeimage) [
            | none ↦ done none
            | some coded ↦ check_coded b format visible sizeimage coded
          ]
    ]

-- With no plane the source asserts.
unfoldable pub allocated_size_from_v4l2_format : Bits → Casts → V4l2Format → Checked (Option Size)
unfolding sum_sizeimage coded_size_of
allocated_size_from_v4l2_format b casts f = elim f.plane_fmt [
  | [] ↦ fault
  | y ∷ ys ↦ casts.checked_cast y.bytesperline >>= λ bytes_per_line.
      (if f.is_multiplanar then sum_sizeimage casts (y ∷ ys) else casts.checked_cast y.sizeimage)
      >>= λ sizeimage. casts.checked_cast f.width >>= λ w. casts.checked_cast f.height >>= λ h.
          coded_size_of b (size w h) f.pixelformat bytes_per_line sizeimage
]
