-- ===== src/Device/Format.antt =====
-- v4L2FormatToVideoFrameLayout and getNumPlanesOfV4L2PixFmt of common/V4L2Device.cpp, with
-- VideoFramePlane and VideoFrameLayout of common/Common.h. Of `struct v4l2_format` the model has
-- the fields that the code reads. `plane_fmt` holds the first `num_planes` entries of the array, or
-- the one plane of a format that is not multi-planar. Products of two uint32_t are taken in
-- `size_t` and do not wrap.
pub mod Planes
use android_external_v4l2_co.Prelude.{
  ℕ, ◌+◌, ◌*◌, ◌/◌, ◌%◌, Bool, true, false, ◌||◌, not, Option, none, some, List, [], ◌∷◌, map, ◌++◌,
  ltb, ◌==◌, if◌then◌else◌, length, Checked, fault, done, ◌>>=◌,
}
use android_external_v4l2_co.PixelFormat.{VideoPixelFormat}
use android_external_v4l2_co.PixelFormat.Tables.{num_planes, Size, size}
use android_external_v4l2_co.Fourcc.{
  Fourcc, nv12, yu12, yv12, from_v4l2_pix_fmt, to_video_pixel_format, to_v4l2_pix_fmt,
  is_multi_planar,
}

pub record PlaneFormat : Type 0 where
  pub bytesperline : ℕ
  pub sizeimage : ℕ

pub record V4l2Format : Type 0 where
  pub is_multiplanar : Bool
  pub pixelformat : ℕ
  pub width : ℕ
  pub height : ℕ
  pub plane_fmt : List PlaneFormat

pub record VideoFramePlane : Type 0 where
  pub stride : ℕ
  pub offset : ℕ
  pub size : ℕ

abbrev pub plane : ℕ → ℕ → ℕ → VideoFramePlane
plane stride offset size = record { stride = stride; offset = offset; size = size }

pub record VideoFrameLayout : Type 0 where
  pub format : VideoPixelFormat
  pub coded_size : Size
  pub planes : List VideoFramePlane
  pub multi_planar : Bool

-- The planes that have a buffer of their own.
unfoldable pub buffer_planes : List PlaneFormat → List VideoFramePlane
buffer_planes fs = map (λ f. plane f.bytesperline 0 f.sizeimage) fs

-- The cases of `switch (pixFmt)`: the planes that share the buffer of plane Y.
unfoldable pub derived_planes : ℕ → ℕ → ℕ → Option (List VideoFramePlane)
derived_planes pix_fmt y_stride height =
    let plane0_area = y_stride * height in
    let plane1_area = plane0_area / 4 in
    let half_stride = y_stride / 2 in
    if pix_fmt == to_v4l2_pix_fmt nv12
    then some (plane y_stride plane0_area (plane0_area / 2) ∷ [])
    else if pix_fmt == to_v4l2_pix_fmt yu12 || pix_fmt == to_v4l2_pix_fmt yv12
    then (if not (y_stride % 2 == 0) || not (height % 2 == 0)
        then none
        else some (
            plane half_stride plane0_area plane1_area
            ∷ plane half_stride (plane0_area + plane1_area) plane1_area
            ∷ []))
    else none

-- The part below `if (numColorPlanes > numBuffers)`. With no buffer `planes[0]` is past the end.
unfoldable pub add_derived_planes :
    ℕ → ℕ → List VideoFramePlane → Checked (Option (List VideoFramePlane))
unfolding derived_planes
add_derived_planes pix_fmt height [] = fault
add_derived_planes pix_fmt height (y ∷ ys) = done (elim (derived_planes pix_fmt y.stride height) [
  | none ↦ none
  | some rest ↦ some ((y ∷ ys) ++ rest)
])

unfoldable pub make_layout :
    V4l2Format → VideoPixelFormat → Option (List VideoFramePlane) → Option VideoFrameLayout
make_layout f format none = none
make_layout f format (some planes) = some (record {
  format = format;
  coded_size = size f.width f.height;
  planes = planes;
  multi_planar = ltb 1 (length f.plane_fmt);
})

-- The function below `if (!videoFourcc)`.
unfoldable pub layout_of : V4l2Format → VideoPixelFormat → Checked (Option VideoFrameLayout)
unfolding make_layout buffer_planes add_derived_planes
layout_of f format =
    let colors = num_planes format in
    let buffers = length f.plane_fmt in
    let planes = buffer_planes f.plane_fmt in
    if colors == 0
    then done none
    else if ltb colors buffers
    then done none
    else if ltb buffers colors
    then (add_derived_planes f.pixelformat f.height planes >>= λ ps. done (make_layout f format ps))
    else done (make_layout f format (some planes))

unfoldable pub v4l2_format_to_video_frame_layout : V4l2Format → Checked (Option VideoFrameLayout)
v4l2_format_to_video_frame_layout f =
    if f.is_multiplanar
    then elim (from_v4l2_pix_fmt f.pixelformat) [
      | none ↦ done none
      | some fourcc ↦ layout_of f (to_video_pixel_format fourcc)
    ]
    else done none

unfoldable pub get_num_planes_of_v4l2_pix_fmt : ℕ → ℕ
get_num_planes_of_v4l2_pix_fmt pix_fmt = elim (from_v4l2_pix_fmt pix_fmt) [
  | none ↦ 1
  | some fourcc ↦ if is_multi_planar fourcc then num_planes (to_video_pixel_format fourcc) else 1
]
