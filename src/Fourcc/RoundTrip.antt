-- ===== src/Fourcc/RoundTrip.antt =====
-- What the conversions of Fourcc.antt keep, both ways.
use android_external_v4l2_co.Prelude.{
  ℕ, ◌≡◌, refl, Bool, true, false, not, some, List, [], ◌∷◌, arith, ◌↔◌,
}
use android_external_v4l2_co.PixelFormat.{VideoPixelFormat}
use android_external_v4l2_co.Fourcc.{
  Fourcc, ar24, to_v4l2_pix_fmt, labels, find_label, from_uint32, from_v4l2_pix_fmt,
  single_planar_fourcc, multi_planar_fourcc, from_video_pixel_format, to_video_pixel_format,
  to_single_planar, is_multi_planar,
}

find_label_sound :
    (n : ℕ) (fs : List Fourcc) {f : Fourcc} → find_label n fs ≡ some f → to_v4l2_pix_fmt f ≡ n
unfolding find_label
find_label_sound n [] e = cc
find_label_sound n (g ∷ fs) {f} e = ground (arith, find_label_sound n fs {f = f})

find_label_complete : (f : Fourcc) → from_uint32 (to_v4l2_pix_fmt f) ≡ some f
unfolding from_uint32 to_v4l2_pix_fmt
find_label_complete ar24 = refl
find_label_complete _ = refl

-- fromV4L2PixFmt inverts toV4L2PixFmt, and answers no other number: a number gives a Fourcc exactly
-- when it is that Fourcc's value.
pub from_v4l2_pix_fmt_iff :
    (n : ℕ) (f : Fourcc) → (from_v4l2_pix_fmt n ≡ some f) ↔ (to_v4l2_pix_fmt f ≡ n)
unfolding from_v4l2_pix_fmt
from_v4l2_pix_fmt_iff n f =
    (λ e. find_label_sound n labels e, λ e. ground (arith, find_label_complete f))

single_planar_fourcc_back :
    (format : VideoPixelFormat) {f : Fourcc}
    → single_planar_fourcc format ≡ some f
    → (to_video_pixel_format f ≡ format) × (is_multi_planar f ≡ false)
unfolding single_planar_fourcc to_video_pixel_format is_multi_planar
single_planar_fourcc_back VideoPixelFormat.i420 e = ground arith
single_planar_fourcc_back _ e = ground arith

multi_planar_fourcc_back :
    (format : VideoPixelFormat) {f : Fourcc}
    → multi_planar_fourcc format ≡ some f
    → (to_video_pixel_format f ≡ format) × (is_multi_planar f ≡ true)
unfolding multi_planar_fourcc to_video_pixel_format is_multi_planar
multi_planar_fourcc_back VideoPixelFormat.i420 e = ground arith
multi_planar_fourcc_back _ e = ground arith

-- A Fourcc that fromVideoPixelFormat gives converts back to the same pixel format, and is
-- multi-planar exactly when a single-planar one was not asked for.
pub to_video_pixel_format-from_video_pixel_format :
    (format : VideoPixelFormat) (single : Bool) {f : Fourcc}
    → from_video_pixel_format format single ≡ some f
    → (to_video_pixel_format f ≡ format) × (is_multi_planar f ≡ not single)
unfolding from_video_pixel_format
to_video_pixel_format-from_video_pixel_format format true e = single_planar_fourcc_back format e
to_video_pixel_format-from_video_pixel_format format false e = multi_planar_fourcc_back format e

-- A Fourcc that toSinglePlanar gives is single-planar, and it is the one that fromVideoPixelFormat
-- has for the same pixel format when a single-planar one is asked for.
pub to_single_planar_lem :
    (f : Fourcc) {g : Fourcc}
    → to_single_planar f ≡ some g
    → (from_video_pixel_format (to_video_pixel_format f) true ≡ some g)
      × (is_multi_planar g ≡ false)
      × (to_single_planar g ≡ some g)
unfolding to_single_planar from_video_pixel_format single_planar_fourcc to_video_pixel_format
    is_multi_planar
to_single_planar_lem ar24 e = ground arith
to_single_planar_lem _ e = ground arith
