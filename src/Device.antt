-- ===== src/Device.antt =====
-- common/V4L2Device.cpp, the static conversions of the class V4L2Device.
pub mod Format
pub mod Allocated
