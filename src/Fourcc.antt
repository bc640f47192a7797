-- ===== src/Fourcc.antt =====
-- common/include/v4l2_codec2/common/Fourcc.h and common/Fourcc.cpp: the class Fourcc and its
-- conversions. A Fourcc holds one of the values of its enumeration, so it is a data type here and
-- `to_v4l2_pix_fmt` gives the number.
pub mod RoundTrip
use Prim.Native.Nat.{ℕ, ◌+◌, ◌*◌, ◌^◌}
use android_external_v4l2_co.Prelude.{
  ◌==◌, if◌then◌else◌, Bool, true, false, Option, none, some, List, [], ◌∷◌,
}
use android_external_v4l2_co.PixelFormat.{VideoPixelFormat}

pub data Fourcc : Type 0 where
  ar24 ab24 xr24 xb24 rgb4 bgr4 yu12 yv12 ym12 : Fourcc
  ym21 yuyv nv12 nv21 nm12 nm21 ym16 mt21 mm21 : Fourcc

unfoldable pub compose_fourcc : ℕ → ℕ → ℕ → ℕ → ℕ
compose_fourcc a b c d = a + b * 2 ^ 8 + c * 2 ^ 16 + d * 2 ^ 24

unfoldable pub to_v4l2_pix_fmt : Fourcc → ℕ
unfolding compose_fourcc
to_v4l2_pix_fmt ar24 = compose_fourcc b'A' b'R' b'2' b'4'
to_v4l2_pix_fmt ab24 = compose_fourcc b'A' b'B' b'2' b'4'
to_v4l2_pix_fmt xr24 = compose_fourcc b'X' b'R' b'2' b'4'
to_v4l2_pix_fmt xb24 = compose_fourcc b'X' b'B' b'2' b'4'
to_v4l2_pix_fmt rgb4 = compose_fourcc b'R' b'G' b'B' b'4'
to_v4l2_pix_fmt bgr4 = compose_fourcc b'B' b'G' b'R' b'4'
to_v4l2_pix_fmt yu12 = compose_fourcc b'Y' b'U' b'1' b'2'
to_v4l2_pix_fmt yv12 = compose_fourcc b'Y' b'V' b'1' b'2'
to_v4l2_pix_fmt ym12 = compose_fourcc b'Y' b'M' b'1' b'2'
to_v4l2_pix_fmt ym21 = compose_fourcc b'Y' b'M' b'2' b'1'
to_v4l2_pix_fmt yuyv = compose_fourcc b'Y' b'U' b'Y' b'V'
to_v4l2_pix_fmt nv12 = compose_fourcc b'N' b'V' b'1' b'2'
to_v4l2_pix_fmt nv21 = compose_fourcc b'N' b'V' b'2' b'1'
to_v4l2_pix_fmt nm12 = compose_fourcc b'N' b'M' b'1' b'2'
to_v4l2_pix_fmt nm21 = compose_fourcc b'N' b'M' b'2' b'1'
to_v4l2_pix_fmt ym16 = compose_fourcc b'Y' b'M' b'1' b'6'
to_v4l2_pix_fmt mt21 = compose_fourcc b'M' b'T' b'2' b'1'
to_v4l2_pix_fmt mm21 = compose_fourcc b'M' b'M' b'2' b'1'

-- The labels of the switch of fromUint32, in its order.
abbrev pub labels : List Fourcc
labels =
    ar24 ∷ ab24 ∷ xr24 ∷ xb24 ∷ rgb4 ∷ bgr4 ∷ yu12 ∷ yv12 ∷ ym12 ∷ ym21 ∷ yuyv ∷ nv12 ∷ nv21 ∷ nm12
    ∷ nm21 ∷ ym16 ∷ mt21 ∷ mm21 ∷ []

unfoldable pub find_label : ℕ → List Fourcc → Option Fourcc
find_label n [] = none
find_label n (f ∷ fs) = if n == to_v4l2_pix_fmt f then some f else find_label n fs

unfoldable pub from_uint32 : ℕ → Option Fourcc
unfolding find_label
from_uint32 n = find_label n labels

unfoldable pub from_v4l2_pix_fmt : ℕ → Option Fourcc
unfolding from_uint32
from_v4l2_pix_fmt n = from_uint32 n

unfoldable pub single_planar_fourcc : VideoPixelFormat → Option Fourcc
single_planar_fourcc VideoPixelFormat.argb = some ar24
single_planar_fourcc VideoPixelFormat.abgr = some ab24
single_planar_fourcc VideoPixelFormat.xrgb = some xr24
single_planar_fourcc VideoPixelFormat.xbgr = some xb24
single_planar_fourcc VideoPixelFormat.bgra = some rgb4
single_planar_fourcc VideoPixelFormat.rgba = some bgr4
single_planar_fourcc VideoPixelFormat.i420 = some yu12
single_planar_fourcc VideoPixelFormat.yv12 = some yv12
single_planar_fourcc VideoPixelFormat.yuy2 = some yuyv
single_planar_fourcc VideoPixelFormat.nv12 = some nv12
single_planar_fourcc VideoPixelFormat.nv21 = some nv21
single_planar_fourcc _ = none

unfoldable pub multi_planar_fourcc : VideoPixelFormat → Option Fourcc
multi_planar_fourcc VideoPixelFormat.i420 = some ym12
multi_planar_fourcc VideoPixelFormat.yv12 = some ym21
multi_planar_fourcc VideoPixelFormat.nv12 = some nm12
multi_planar_fourcc VideoPixelFormat.i422 = some ym16
multi_planar_fourcc VideoPixelFormat.nv21 = some nm21
multi_planar_fourcc _ = none

unfoldable pub from_video_pixel_format : VideoPixelFormat → Bool → Option Fourcc
unfolding single_planar_fourcc multi_planar_fourcc
from_video_pixel_format format true = single_planar_fourcc format
from_video_pixel_format format false = multi_planar_fourcc format

-- The label of `mt21` falls through to that of `mm21`.
unfoldable pub to_video_pixel_format : Fourcc → VideoPixelFormat
to_video_pixel_format ar24 = VideoPixelFormat.argb
to_video_pixel_format ab24 = VideoPixelFormat.abgr
to_video_pixel_format xr24 = VideoPixelFormat.xrgb
to_video_pixel_format xb24 = VideoPixelFormat.xbgr
to_video_pixel_format rgb4 = VideoPixelFormat.bgra
to_video_pixel_format bgr4 = VideoPixelFormat.rgba
to_video_pixel_format yu12 = VideoPixelFormat.i420
to_video_pixel_format ym12 = VideoPixelFormat.i420
to_video_pixel_format yv12 = VideoPixelFormat.yv12
to_video_pixel_format ym21 = VideoPixelFormat.yv12
to_video_pixel_format yuyv = VideoPixelFormat.yuy2
to_video_pixel_format nv12 = VideoPixelFormat.nv12
to_video_pixel_format nm12 = VideoPixelFormat.nv12
to_video_pixel_format nv21 = VideoPixelFormat.nv21
to_video_pixel_format nm21 = VideoPixelFormat.nv21
to_video_pixel_format ym16 = VideoPixelFormat.i422
to_video_pixel_format mt21 = VideoPixelFormat.nv12
to_video_pixel_format mm21 = VideoPixelFormat.nv12

unfoldable pub to_single_planar : Fourcc → Option Fourcc
to_single_planar ar24 = some ar24
to_single_planar ab24 = some ab24
to_single_planar xr24 = some xr24
to_single_planar xb24 = some xb24
to_single_planar rgb4 = some rgb4
to_single_planar bgr4 = some bgr4
to_single_planar yu12 = some yu12
to_single_planar yv12 = some yv12
to_single_planar yuyv = some yuyv
to_single_planar nv12 = some nv12
to_single_planar nv21 = some nv21
to_single_planar ym12 = some yu12
to_single_planar ym21 = some yv12
to_single_planar nm12 = some nv12
to_single_planar nm21 = some nv21
to_single_planar ym16 = none
to_single_planar mt21 = none
to_single_planar mm21 = none

unfoldable pub is_multi_planar : Fourcc → Bool
is_multi_planar ar24 = false
is_multi_planar ab24 = false
is_multi_planar xr24 = false
is_multi_planar xb24 = false
is_multi_planar rgb4 = false
is_multi_planar bgr4 = false
is_multi_planar yu12 = false
is_multi_planar yv12 = false
is_multi_planar yuyv = false
is_multi_planar nv12 = false
is_multi_planar nv21 = false
is_multi_planar ym12 = true
is_multi_planar ym21 = true
is_multi_planar nm12 = true
is_multi_planar nm21 = true
is_multi_planar ym16 = true
is_multi_planar mt21 = true
is_multi_planar mm21 = true
