-- ===== src/Tests/Formats.antt =====
-- NV12 and its relatives at concrete sizes.
use android_external_v4l2_co.Prelude.{
  ℕ, ◌+◌, ◌*◌, ◌/◌, ◌%◌, ◌^◌, ◌≡◌, ◌<◌, ◌↔◌, refl, true, false, some, List, [], ◌∷◌, arith, length,
  ltb, if◌then◌else◌, fault, done,
}
use android_external_v4l2_co.PixelFormat.{VideoPixelFormat}
use android_external_v4l2_co.PixelFormat.Tables.{
  size, num_planes, requires_even_size_allocation, is_valid_plane, sample_size, chroma_sample_size,
  bytes_per_element,
}
use android_external_v4l2_co.PixelFormat.Size.{
  Bits, cut_plane, add_areas, plane_area, plane_bits_per_pixel, plane_horizontal_bits_per_pixel,
  aligned_size, plane_size, sum_planes, allocation_size, total_bpp,
}
use android_external_v4l2_co.PixelFormat.Planes.{allocation_size-total_bpp, sample_size-divides}
use android_external_v4l2_co.Fourcc.{
  nm12, nv12, compose_fourcc, to_v4l2_pix_fmt, find_label, from_uint32, from_v4l2_pix_fmt,
  from_video_pixel_format, multi_planar_fourcc, to_video_pixel_format, is_multi_planar,
}
use android_external_v4l2_co.Fourcc.RoundTrip.{
  from_v4l2_pix_fmt_iff, to_video_pixel_format-from_video_pixel_format,
}
use android_external_v4l2_co.Device.Format.{
  PlaneFormat, V4l2Format, VideoFramePlane, VideoFrameLayout, plane, layout_of,
  v4l2_format_to_video_frame_layout,
}
use android_external_v4l2_co.Device.Allocated.{Casts, allocated_size_from_v4l2_format}
use android_external_v4l2_co.Device.Allocated.RoundTrip.{allocated_size-allocation_size}
use android_external_v4l2_co.Device.Format.Planes.{
  Follows, v4l2_format_to_video_frame_layout_planes, v4l2_format_to_video_frame_layout_no_plane,
}

-- Rounding up to a multiple of two.
abbrev round_up : ℕ → ℕ → ℕ
round_up x a = x + x % 2

abbrev bits : Bits
bits = record {
  align = round_up;
  align_ge = λ x. omega arith;
  align_lt = λ x. omega arith;
  align_even = λ x. omega arith;
}

abbrev casts : Casts
casts = record {
  checked_cast = λ n. if ltb n (2 ^ 31) then done n else fault;
  checked_cast_fits = λ n h. ground arith;
}

nv12_bytes : allocation_size bits VideoPixelFormat.nv12 (size 641 481) ≡ done (642 * 482 * 3 / 2)
unfolding allocation_size add_areas plane_area plane_size cut_plane num_planes bytes_per_element
    aligned_size requires_even_size_allocation sample_size
nv12_bytes = refl

allocation_size-total_bpp_example :
    (n : ℕ) × (allocation_size bits VideoPixelFormat.nv12 (size 641 481) ≡ done n)
    × (8 * n
        ≡ total_bpp VideoPixelFormat.nv12
          * ((aligned_size bits VideoPixelFormat.nv12 (size 641 481)).width
              * (aligned_size bits VideoPixelFormat.nv12 (size 641 481)).height))
unfolding aligned_size requires_even_size_allocation total_bpp num_planes bytes_per_element
    sample_size chroma_sample_size plane_bits_per_pixel plane_horizontal_bits_per_pixel sum_planes
allocation_size-total_bpp_example =
    allocation_size-total_bpp bits VideoPixelFormat.nv12 (size 641 481) (omega arith) (omega arith)
      (omega arith)

sample_size-divides_example :
    let sub = sample_size VideoPixelFormat.i420 2 in
    let a = aligned_size bits VideoPixelFormat.i420 (size 641 481) in
    (0 < sub.width) × (0 < sub.height) × (a.width % sub.width ≡ 0) × (a.height % sub.height ≡ 0)
unfolding is_valid_plane num_planes
sample_size-divides_example = sample_size-divides bits VideoPixelFormat.i420 2 (size 641 481) refl

from_v4l2_pix_fmt_iff_example :
    (from_v4l2_pix_fmt 0x3231564e ≡ some nv12) ↔ (to_v4l2_pix_fmt nv12 ≡ 0x3231564e)
from_v4l2_pix_fmt_iff_example = from_v4l2_pix_fmt_iff 0x3231564e nv12

to_video_pixel_format-from_video_pixel_format_example :
    (to_video_pixel_format nm12 ≡ VideoPixelFormat.nv12) × (is_multi_planar nm12 ≡ true)
unfolding from_video_pixel_format multi_planar_fourcc
to_video_pixel_format-from_video_pixel_format_example =
    to_video_pixel_format-from_video_pixel_format VideoPixelFormat.nv12 false {f = nm12} refl

abbrev nv12_format : List PlaneFormat → V4l2Format
nv12_format planes = record {
  is_multiplanar = true;
  pixelformat = 0x3231564e;
  width = 640;
  height = 480;
  plane_fmt = planes;
}

abbrev one_buffer : PlaneFormat
one_buffer = record { bytesperline = 640; sizeimage = 460800 }

abbrev nv12_layout : VideoFrameLayout
nv12_layout = record {
  format = VideoPixelFormat.nv12;
  coded_size = size 640 480;
  planes = plane 640 0 460800 ∷ plane 640 307200 153600 ∷ [];
  multi_planar = false;
}

v4l2_format_to_video_frame_layout_planes_example :
    (length nv12_layout.planes ≡ num_planes nv12_layout.format)
    × (rest : List VideoFramePlane) × (nv12_layout.planes ≡ plane 640 0 460800 ∷ rest)
    × Follows 480 (640 * 480) rest
unfolding v4l2_format_to_video_frame_layout from_v4l2_pix_fmt from_uint32 find_label to_v4l2_pix_fmt
    compose_fourcc to_video_pixel_format layout_of num_planes
v4l2_format_to_video_frame_layout_planes_example =
    v4l2_format_to_video_frame_layout_planes (nv12_format (one_buffer ∷ [])) one_buffer nv12_layout
      refl refl refl

v4l2_format_to_video_frame_layout_no_plane_example :
    v4l2_format_to_video_frame_layout (nv12_format []) ≡ fault
unfolding to_v4l2_pix_fmt compose_fourcc
v4l2_format_to_video_frame_layout_no_plane_example =
    v4l2_format_to_video_frame_layout_no_plane (nv12_format []) nv12 refl refl refl

allocated_size-allocation_size_example :
    allocated_size_from_v4l2_format bits casts (nv12_format (one_buffer ∷ []))
    ≡ done (some (aligned_size bits (to_video_pixel_format nv12) (size 640 480)))
unfolding aligned_size requires_even_size_allocation to_v4l2_pix_fmt compose_fourcc
    to_video_pixel_format bytes_per_element allocation_size sum_planes plane_size num_planes
    add_areas plane_area cut_plane sample_size chroma_sample_size
allocated_size-allocation_size_example =
    allocated_size-allocation_size bits casts nv12 (size 640 480) (nv12_format (one_buffer ∷ []))
      one_buffer (omega arith) (omega arith) refl refl refl refl (omega arith) (omega arith)
      (omega arith) (omega arith) (omega arith) (omega arith)
