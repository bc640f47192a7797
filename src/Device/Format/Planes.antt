-- ===== src/Device/Format/Planes.antt =====
-- The planes of a VideoFrameLayout that v4L2FormatToVideoFrameLayout builds.
use android_external_v4l2_co.Prelude.{
  ℕ, ◌+◌, ◌*◌, ◌/◌, ◌%◌, ◌<◌, ◌≡◌, ap, inl, inr, true, some, List, [], ◌∷◌, arith, length, fault,
  done, Option-cases, Bool-cases, ltb,
}
use android_external_v4l2_co.PixelFormat.{VideoPixelFormat}
use android_external_v4l2_co.PixelFormat.Tables.{num_planes}
use android_external_v4l2_co.Fourcc.{
  Fourcc, ar24, nv12, yu12, from_v4l2_pix_fmt, to_video_pixel_format, to_v4l2_pix_fmt,
}
use android_external_v4l2_co.Fourcc.RoundTrip.{from_v4l2_pix_fmt_iff}
use android_external_v4l2_co.Device.Format.{
  PlaneFormat, V4l2Format, VideoFramePlane, plane, VideoFrameLayout, derived_planes, layout_of,
  v4l2_format_to_video_frame_layout,
}

-- Each plane starts where the one before it ends, and holds half the rows at its own stride.
abbrev pub Follows : ℕ → ℕ → List VideoFramePlane → Type 0
Follows height end [] = Unit {0}
Follows height end (p ∷ ps) =
    (p.offset ≡ end) × (p.size ≡ p.stride * (height / 2)) × Follows height (p.offset + p.size) ps

rows : (s h : ℕ) → h % 2 ≡ 0 → s * h / 2 ≡ s * (h / 2)
rows s h e = omega (arith, ap (λ (t : ℕ). s * t) (even h e))
  where
    even : (h : ℕ) → h % 2 ≡ 0 → h ≡ 2 * (h / 2)
    even h e = omega arith

quarter_rows : (s h : ℕ) → s % 2 ≡ 0 → h % 2 ≡ 0 → s * h / 4 ≡ s / 2 * (h / 2)
quarter_rows s h d e = omega (arith, expand)
  where
    expand : s * h ≡ 4 * (s / 2 * (h / 2))
    expand = omega (arith, ap (λ (t : ℕ). t * h) s_even, ap (λ (t : ℕ). s / 2 * t) h_even)
      where
        s_even : s ≡ 2 * (s / 2)
        s_even = omega arith

        h_even : h ≡ 2 * (h / 2)
        h_even = omega arith

derived_planes-Follows :
    (pix_fmt s h : ℕ) (ps : List VideoFramePlane)
    → h % 2 ≡ 0
    → derived_planes pix_fmt s h ≡ some ps
    → Follows h (s * h) ps
unfolding derived_planes
derived_planes-Follows pix_fmt s h ps e d = ground (arith, rows s h e, quarter_rows s h)

layout_of-length :
    (c : Fourcc) (f : V4l2Format) (y : PlaneFormat) (l : VideoFrameLayout)
    → to_v4l2_pix_fmt c ≡ f.pixelformat
    → f.plane_fmt ≡ y ∷ []
    → layout_of f (to_video_pixel_format c) ≡ done (some l)
    → length l.planes ≡ num_planes l.format
unfolding layout_of to_video_pixel_format num_planes to_v4l2_pix_fmt derived_planes
layout_of-length ar24 f y l e b d = ground arith
layout_of-length nv12 f y l e b d = ground arith
layout_of-length yu12 f y l e b d = ground arith
layout_of-length _ f y l e b d = ground arith

layout_of-planes :
    (format : VideoPixelFormat) (f : V4l2Format) (y : PlaneFormat) (l : VideoFrameLayout)
    → f.plane_fmt ≡ y ∷ []
    → f.height % 2 ≡ 0
    → layout_of f format ≡ done (some l)
    → (rest : List VideoFramePlane) × (l.planes ≡ plane y.bytesperline 0 y.sizeimage ∷ rest)
      × Follows f.height (y.bytesperline * f.height) rest
unfolding layout_of
layout_of-planes format f y l b e d = elim (Bool-cases (ltb 1 (num_planes format))) [
  | inl more ↦ elim (Option-cases (derived_planes f.pixelformat y.bytesperline f.height)) [
    | inl n ↦ absurd (ground arith)
    | inr (ps, s) ↦ (ps, ground arith, derived_planes-Follows f.pixelformat _ f.height ps e s)
  ]
  | inr one ↦ ([], ground arith, tt)
]

layout_at :
    (f : V4l2Format) (l : VideoFrameLayout)
    → v4l2_format_to_video_frame_layout f ≡ done (some l)
    → (c : Fourcc) × (to_v4l2_pix_fmt c ≡ f.pixelformat)
      × (layout_of f (to_video_pixel_format c) ≡ done (some l))
unfolding v4l2_format_to_video_frame_layout
layout_at f l d = elim (Option-cases (from_v4l2_pix_fmt f.pixelformat)) [
  | inl e ↦ absurd (ground arith)
  | inr (c, e) ↦ (c, (from_v4l2_pix_fmt_iff f.pixelformat c).0 e, ground arith)
]

fourcc_has_plane : (c : Fourcc) → 0 < num_planes (to_video_pixel_format c)
unfolding num_planes to_video_pixel_format
fourcc_has_plane ar24 = omega arith
fourcc_has_plane _ = omega arith

-- A layout made of a format with one buffer and an even height has a plane for every color plane of
-- its pixel format; the first is the buffer's, and each of the others starts where the rows before
-- it end and holds half the rows at its own stride.
pub v4l2_format_to_video_frame_layout_planes :
    (f : V4l2Format) (y : PlaneFormat) (l : VideoFrameLayout)
    → f.plane_fmt ≡ y ∷ []
    → f.height % 2 ≡ 0
    → v4l2_format_to_video_frame_layout f ≡ done (some l)
    → (length l.planes ≡ num_planes l.format)
      × (rest : List VideoFramePlane) × (l.planes ≡ plane y.bytesperline 0 y.sizeimage ∷ rest)
      × Follows f.height (y.bytesperline * f.height) rest
v4l2_format_to_video_frame_layout_planes f y l b e d =
    let (c, v, at) = layout_at f l d in
    let (rest, eq, follows) = layout_of-planes (to_video_pixel_format c) f y l b e at in
    (layout_of-length c f y l v b at, rest, eq, follows)

-- A multi-planar format of a known fourcc whose `num_planes` is zero makes the function read
-- `planes[0]` of an empty vector.
pub v4l2_format_to_video_frame_layout_no_plane :
    (f : V4l2Format) (c : Fourcc)
    → f.is_multiplanar ≡ true
    → to_v4l2_pix_fmt c ≡ f.pixelformat
    → f.plane_fmt ≡ []
    → v4l2_format_to_video_frame_layout f ≡ fault
unfolding v4l2_format_to_video_frame_layout layout_of
v4l2_format_to_video_frame_layout_no_plane f c m v b =
    ground (arith, (from_v4l2_pix_fmt_iff f.pixelformat c).1 v, fourcc_has_plane c)
