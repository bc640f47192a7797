-- ===== src/Device/Allocated/RoundTrip.antt =====
-- allocatedSizeFromV4L2Format inverts the sizes that allocationSize gives.
use native.Mathlib.Nat.{
  mul-div_cancel, mul-div_cancel_left, mul-mod_left, mul-pos, mul_comm, mul_assoc,
}
use android_external_v4l2_co.Prelude.{
  ℕ, ◌*◌, ◌/◌, ◌%◌, ◌^◌, ◌≤◌, ◌<◌, ◌≡◌, refl, ◌∙◌, ap, sym, some, [], ◌∷◌, arith, done,
}
use android_external_v4l2_co.PixelFormat.{VideoPixelFormat}
use android_external_v4l2_co.PixelFormat.Tables.{
  bytes_per_element, sample_size, num_planes, Size, size,
}
use android_external_v4l2_co.PixelFormat.Size.{
  Bits, cut_plane, plane_size, plane_area, add_areas, aligned_size, allocation_size,
  plane_horizontal_bits_per_pixel, plane_bits_per_pixel, sum_planes, total_bpp,
}
use android_external_v4l2_co.PixelFormat.Planes.{allocation_size_bits, aligned_size-aligned_size}
use android_external_v4l2_co.Fourcc.{Fourcc, ar24, to_v4l2_pix_fmt, to_video_pixel_format}
use android_external_v4l2_co.Fourcc.RoundTrip.{from_v4l2_pix_fmt_iff}
use android_external_v4l2_co.Device.Format.{PlaneFormat, V4l2Format}
use android_external_v4l2_co.Device.Allocated.{
  Casts, check_coded, sum_sizeimage, coded_size, coded_size_of, allocated_size_from_v4l2_format,
}

abbrev bits_of : VideoPixelFormat → ℕ
bits_of format = plane_horizontal_bits_per_pixel format 0

-- A pixel format of a Fourcc has bits to count.
fourcc_has_bits :
    (c : Fourcc)
    → (0 < total_bpp (to_video_pixel_format c))
      × (0 < bits_of (to_video_pixel_format c))
      × (8 * bytes_per_element (to_video_pixel_format c) 0 ≡ bits_of (to_video_pixel_format c))
unfolding to_video_pixel_format total_bpp plane_horizontal_bits_per_pixel bytes_per_element
    sample_size num_planes plane_bits_per_pixel sum_planes
fourcc_has_bits ar24 = ground arith
fourcc_has_bits _ = ground arith

coded_size_exact :
    (format : VideoPixelFormat) (line image w h : ℕ)
    → 0 < w
    → 0 < h
    → 0 < total_bpp format
    → 0 < bits_of format
    → line * 8 ≡ w * bits_of format
    → image * 8 ≡ total_bpp format * (w * h)
    → coded_size format line image ≡ some (size w h)
unfolding coded_size
coded_size_exact format line image w h pw ph pt pb el ei =
    let total = total_bpp format in
    let width : line * 8 / bits_of format ≡ w = rw el (mul-div_cancel w pb) in
    let exact : line * 8 % bits_of format ≡ 0 = rw el (mul-mod_left w (bits_of format)) in
    let area : image * 8 ≡ total * h * w = ei ∙ rw (mul_assoc, mul_comm h w) refl in
    let rows : image * 8 / w ≡ total * h = rw area (mul-div_cancel (total * h) pw) in
    let height : image * 8 / (line * 8 / bits_of format) / total ≡ h =
      rw (width, rows) (mul-div_cancel_left h pt) in
    let some_line : 0 < line = omega (arith, mul-pos pw pb) in
    let some_image : 0 < image = omega (arith, mul-pos pt (mul-pos pw ph)) in
    ground (arith, width, exact, height, some_line, some_image)

check_coded-done :
    (b : Bits) (format : VideoPixelFormat) (visible s : Size) (n : ℕ)
    → allocation_size b format s ≡ done n
    → visible.width ≤ (aligned_size b format s).width
    → visible.height ≤ (aligned_size b format s).height
    → check_coded b format visible n (aligned_size b format s)
      ≡ done (some (aligned_size b format s))
unfolding check_coded allocation_size plane_size
check_coded-done b format visible s n e w h =
    let same : allocation_size b format (aligned_size b format s) ≡ done n =
      ap (λ a. add_areas (num_planes format) 0 (λ i. plane_area (cut_plane format i a)))
        (aligned_size-aligned_size b format s)
      ∙ e in
    rw same (ground arith)

-- From a format whose first plane has the bytes per line, and whose one buffer has the bytes, of an
-- allocation for a size that is not empty, and whose width and height are not above that size as the
-- pixel format aligns it, allocatedSizeFromV4L2Format computes the aligned size again, and its
-- assertions hold. The numbers must fit in `int`.
pub allocated_size-allocation_size :
    (b : Bits) (casts : Casts) (c : Fourcc) (s : Size) (f : V4l2Format) (y : PlaneFormat)
    → 0 < (aligned_size b (to_video_pixel_format c) s).width
    → 0 < (aligned_size b (to_video_pixel_format c) s).height
    → f.pixelformat ≡ to_v4l2_pix_fmt c
    → f.plane_fmt ≡ y ∷ []
    → y.bytesperline
      ≡ bytes_per_element (to_video_pixel_format c) 0
        * (aligned_size b (to_video_pixel_format c) s).width
    → allocation_size b (to_video_pixel_format c) s ≡ done y.sizeimage
    → y.bytesperline < 2 ^ 31
    → y.sizeimage < 2 ^ 31
    → f.width < 2 ^ 31
    → f.height < 2 ^ 31
    → f.width ≤ (aligned_size b (to_video_pixel_format c) s).width
    → f.height ≤ (aligned_size b (to_video_pixel_format c) s).height
    → allocated_size_from_v4l2_format b casts f
      ≡ done (some (aligned_size b (to_video_pixel_format c) s))
unfolding allocated_size_from_v4l2_format sum_sizeimage coded_size_of
allocated_size-allocation_size b casts c s f y pw ph v planes el ei bl bi bw bh vw vh =
    let format = to_video_pixel_format c in
    let a = aligned_size b format s in
    let (pt, pb, bytes) = fourcc_has_bits c in
    let line : y.bytesperline * 8 ≡ a.width * bits_of format =
      omega (arith, ap (λ (t : ℕ). t * 8) el, ap (λ (t : ℕ). a.width * t) bytes) in
    let image : y.sizeimage * 8 ≡ total_bpp format * (a.width * a.height) =
      omega (arith, allocation_size_bits b format s y.sizeimage ei) in
    let size_of =
      coded_size_exact format y.bytesperline y.sizeimage a.width a.height pw ph pt pb line image in
    let checked = check_coded-done b format (size f.width f.height) s y.sizeimage ei vw vh in
    ground (
      arith,
      (from_v4l2_pix_fmt_iff f.pixelformat c).1 (sym v),
      size_of,
      checked,
      casts.checked_cast_fits y.bytesperline bl,
      casts.checked_cast_fits y.sizeimage bi,
      casts.checked_cast_fits f.width bw,
      casts.checked_cast_fits f.height bh,
    )
