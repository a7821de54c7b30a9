-- ===== src/H264.antt =====
-- src/container/h264/h264.h. `Extract` and `Send` model the code; the others prove.
pub mod Extract
pub mod Send
pub mod Packets
pub mod Receiver
pub mod Manager
pub mod Sizes
pub mod Progress
pub mod Scan
pub mod Received
