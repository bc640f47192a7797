-- ===== src/PixelFormat.antt =====
-- common/include/v4l2_codec2/common/VideoPixelFormat.h and common/VideoPixelFormat.cpp: the pixel
-- formats and the tables over them. `int` and `size_t` results are numbers; a coded size is a pair
-- of numbers, so that negative sizes are outside the model.
pub mod Tables
pub mod Size
pub mod Planes
pub use Tables.{
  VideoPixelFormat, i420, yv12, i422, i420a, i444, nv12, nv21, yuy2, argb, xrgb, rgb24, mjpeg, y16,
  abgr, xbgr, p016le, xr30, xb30, bgra, rgba, yuv420p9, yuv420p10, yuv422p9, yuv422p10, yuv444p9,
  yuv444p10, yuv420p12, yuv422p12, yuv444p12, unknown,
}
