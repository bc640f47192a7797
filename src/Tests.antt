-- ===== src/Tests.antt =====
-- Runs of the definitions at concrete inputs, and the theorems applied there.
mod Component
mod Converter
mod Encode
mod Formats
pub mod Driver
mod Queue
mod Decoder
pub mod Machine
mod Service
mod FramePool
mod Encoder
