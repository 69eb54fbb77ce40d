-- ===== src/Traffic.antt =====
-- rcs/src/frame/traffic_controller.cpp: how a connection asks for data and serves its peer.
-- Sizes are uint64 and wrap at 2^64.
pub mod Speed
pub mod Upload
pub mod Fragments
pub mod Order
pub mod Download
pub mod Stopping
pub mod Responses
pub mod Blocks
pub mod Cuts
pub mod Idle
