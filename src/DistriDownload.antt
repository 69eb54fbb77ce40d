-- ===== src/DistriDownload.antt =====
-- rcs/src/frame/distri_download_mgr.cpp: pieces that a sponsor assigns to its proxies.
pub mod Messages
pub mod Manager
pub mod Handlers
pub mod Assigned
