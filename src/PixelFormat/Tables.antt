-- ===== src/PixelFormat/Tables.antt =====
-- The enumeration of common/include/v4l2_codec2/common/VideoPixelFormat.h and the switches of
-- common/VideoPixelFormat.cpp. The source asserts that a plane index is valid; at one that is not,
-- what the functions here give stands for nothing of the code. Products of `int` do not wrap.
use Prim.Native.String.{String}
use android_external_v4l2_co.Prelude.{ℕ, zero, suc, Bool, true, false, ltb}

-- In the order of VideoPixelFormat.h.
pub data VideoPixelFormat : Type 0 where
  i420 yv12 i422 i420a i444 nv12 nv21 yuy2 argb xrgb rgb24 mjpeg y16 abgr xbgr : VideoPixelFormat
  p016le xr30 xb30 bgra rgba yuv420p9 yuv420p10 yuv422p9 yuv422p10 yuv444p9 : VideoPixelFormat
  yuv444p10 yuv420p12 yuv422p12 yuv444p12 unknown : VideoPixelFormat

unfoldable pub video_pixel_format_to_string : VideoPixelFormat → String
video_pixel_format_to_string i420 = "I420"
video_pixel_format_to_string yv12 = "YV12"
video_pixel_format_to_string i422 = "I422"
video_pixel_format_to_string i420a = "I420A"
video_pixel_format_to_string i444 = "I444"
video_pixel_format_to_string nv12 = "NV12"
video_pixel_format_to_string nv21 = "NV21"
video_pixel_format_to_string yuy2 = "YUY2"
video_pixel_format_to_string argb = "ARGB"
video_pixel_format_to_string xrgb = "XRGB"
video_pixel_format_to_string rgb24 = "RGB24"
video_pixel_format_to_string mjpeg = "MJPEG"
video_pixel_format_to_string yuv420p9 = "YUV420P9"
video_pixel_format_to_string yuv420p10 = "YUV420P10"
video_pixel_format_to_string yuv422p9 = "YUV422P9"
video_pixel_format_to_string yuv422p10 = "YUV422P10"
video_pixel_format_to_string yuv444p9 = "YUV444P9"
video_pixel_format_to_string yuv444p10 = "YUV444P10"
video_pixel_format_to_string yuv420p12 = "YUV420P12"
video_pixel_format_to_string yuv422p12 = "YUV422P12"
video_pixel_format_to_string yuv444p12 = "YUV444P12"
video_pixel_format_to_string y16 = "Y16"
video_pixel_format_to_string abgr = "ABGR"
video_pixel_format_to_string xbgr = "XBGR"
video_pixel_format_to_string p016le = "P016LE"
video_pixel_format_to_string xr30 = "XR30"
video_pixel_format_to_string xb30 = "XB30"
video_pixel_format_to_string bgra = "BGRA"
video_pixel_format_to_string rgba = "BGRA"
video_pixel_format_to_string unknown = "UNKNOWN"

unfoldable pub bit_depth : VideoPixelFormat → ℕ
bit_depth i420 = 8
bit_depth yv12 = 8
bit_depth i422 = 8
bit_depth i420a = 8
bit_depth i444 = 8
bit_depth nv12 = 8
bit_depth nv21 = 8
bit_depth yuy2 = 8
bit_depth argb = 8
bit_depth xrgb = 8
bit_depth rgb24 = 8
bit_depth mjpeg = 8
bit_depth abgr = 8
bit_depth xbgr = 8
bit_depth bgra = 8
bit_depth rgba = 8
bit_depth yuv420p9 = 9
bit_depth yuv422p9 = 9
bit_depth yuv444p9 = 9
bit_depth yuv420p10 = 10
bit_depth yuv422p10 = 10
bit_depth yuv444p10 = 10
bit_depth xr30 = 10
bit_depth xb30 = 10
bit_depth yuv420p12 = 12
bit_depth yuv422p12 = 12
bit_depth yuv444p12 = 12
bit_depth y16 = 16
bit_depth p016le = 16
bit_depth unknown = 0

unfoldable pub requires_even_size_allocation : VideoPixelFormat → Bool
requires_even_size_allocation argb = false
requires_even_size_allocation xrgb = false
requires_even_size_allocation rgb24 = false
requires_even_size_allocation y16 = false
requires_even_size_allocation abgr = false
requires_even_size_allocation xbgr = false
requires_even_size_allocation xr30 = false
requires_even_size_allocation xb30 = false
requires_even_size_allocation bgra = false
requires_even_size_allocation rgba = false
requires_even_size_allocation nv12 = true
requires_even_size_allocation nv21 = true
requires_even_size_allocation i420 = true
requires_even_size_allocation mjpeg = true
requires_even_size_allocation yuy2 = true
requires_even_size_allocation yv12 = true
requires_even_size_allocation i422 = true
requires_even_size_allocation i444 = true
requires_even_size_allocation yuv420p9 = true
requires_even_size_allocation yuv422p9 = true
requires_even_size_allocation yuv444p9 = true
requires_even_size_allocation yuv420p10 = true
requires_even_size_allocation yuv422p10 = true
requires_even_size_allocation yuv444p10 = true
requires_even_size_allocation yuv420p12 = true
requires_even_size_allocation yuv422p12 = true
requires_even_size_allocation yuv444p12 = true
requires_even_size_allocation i420a = true
requires_even_size_allocation p016le = true
requires_even_size_allocation unknown = false

unfoldable pub num_planes : VideoPixelFormat → ℕ
num_planes yuy2 = 1
num_planes argb = 1
num_planes bgra = 1
num_planes rgba = 1
num_planes xrgb = 1
num_planes rgb24 = 1
num_planes mjpeg = 1
num_planes y16 = 1
num_planes abgr = 1
num_planes xbgr = 1
num_planes xr30 = 1
num_planes xb30 = 1
num_planes nv12 = 2
num_planes nv21 = 2
num_planes p016le = 2
num_planes i420 = 3
num_planes yv12 = 3
num_planes i422 = 3
num_planes i444 = 3
num_planes yuv420p9 = 3
num_planes yuv422p9 = 3
num_planes yuv444p9 = 3
num_planes yuv420p10 = 3
num_planes yuv422p10 = 3
num_planes yuv444p10 = 3
num_planes yuv420p12 = 3
num_planes yuv422p12 = 3
num_planes yuv444p12 = 3
num_planes i420a = 4
num_planes unknown = 0

unfoldable pub bytes_per_element : VideoPixelFormat → ℕ → ℕ
bytes_per_element argb plane = 4
bytes_per_element bgra plane = 4
bytes_per_element rgba plane = 4
bytes_per_element xrgb plane = 4
bytes_per_element abgr plane = 4
bytes_per_element xbgr plane = 4
bytes_per_element xr30 plane = 4
bytes_per_element xb30 plane = 4
bytes_per_element rgb24 plane = 3
bytes_per_element y16 plane = 2
bytes_per_element yuy2 plane = 2
bytes_per_element yuv420p9 plane = 2
bytes_per_element yuv422p9 plane = 2
bytes_per_element yuv444p9 plane = 2
bytes_per_element yuv420p10 plane = 2
bytes_per_element yuv422p10 plane = 2
bytes_per_element yuv444p10 plane = 2
bytes_per_element yuv420p12 plane = 2
bytes_per_element yuv422p12 plane = 2
bytes_per_element yuv444p12 plane = 2
bytes_per_element p016le plane = 2
bytes_per_element nv12 zero = 1
bytes_per_element nv12 (suc plane) = 2
bytes_per_element nv21 zero = 1
bytes_per_element nv21 (suc plane) = 2
bytes_per_element yv12 plane = 1
bytes_per_element i420 plane = 1
bytes_per_element i422 plane = 1
bytes_per_element i420a plane = 1
bytes_per_element i444 plane = 1
bytes_per_element mjpeg plane = 0
bytes_per_element unknown plane = 0

unfoldable pub is_valid_plane : VideoPixelFormat → ℕ → Bool
unfolding num_planes
is_valid_plane format plane = ltb plane (num_planes format)

pub record Size : Type 0 where
  pub width : ℕ
  pub height : ℕ

abbrev pub size : ℕ → ℕ → Size
size w h = record { width = w; height = h }

-- The inner switch, for the U, UV and V planes. A format that has none of them gives `Size()`, for
-- which 0 by 0 stands here; no valid plane gets there.
unfoldable pub chroma_sample_size : VideoPixelFormat → Size
chroma_sample_size i420 = size 2 2
chroma_sample_size yv12 = size 2 2
chroma_sample_size i422 = size 2 1
chroma_sample_size i420a = size 2 2
chroma_sample_size i444 = size 1 1
chroma_sample_size nv12 = size 2 2
chroma_sample_size nv21 = size 2 2
chroma_sample_size yuy2 = size 0 0
chroma_sample_size argb = size 0 0
chroma_sample_size xrgb = size 0 0
chroma_sample_size rgb24 = size 0 0
chroma_sample_size mjpeg = size 0 0
chroma_sample_size y16 = size 1 1
chroma_sample_size abgr = size 0 0
chroma_sample_size xbgr = size 0 0
chroma_sample_size p016le = size 2 2
chroma_sample_size xr30 = size 0 0
chroma_sample_size xb30 = size 0 0
chroma_sample_size bgra = size 0 0
chroma_sample_size rgba = size 0 0
chroma_sample_size yuv420p9 = size 2 2
chroma_sample_size yuv420p10 = size 2 2
chroma_sample_size yuv422p9 = size 2 1
chroma_sample_size yuv422p10 = size 2 1
chroma_sample_size yuv444p9 = size 1 1
chroma_sample_size yuv444p10 = size 1 1
chroma_sample_size yuv420p12 = size 2 2
chroma_sample_size yuv422p12 = size 2 1
chroma_sample_size yuv444p12 = size 1 1
chroma_sample_size unknown = size 0 0

unfoldable pub sample_size : VideoPixelFormat → ℕ → Size
unfolding chroma_sample_size
sample_size format zero = size 1 1
sample_size format (suc zero) = chroma_sample_size format
sample_size format (suc (suc zero)) = chroma_sample_size format
sample_size format (suc (suc (suc zero))) = size 1 1
sample_size format (suc (suc (suc (suc plane)))) = size 0 0
