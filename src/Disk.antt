-- ===== src/Disk.antt =====
-- rcs/src/frame/disk_io_thread.cpp, storage.cpp and io_oper_manager.cpp: the thread that keeps the
-- pieces of all torrents in memory and on disk. What a torrent's file does, the SHA-1 of a row of
-- bytes and what a fresh buffer of the pool holds are parameters; a torrent is known by a number
-- that stands for its address.
pub mod Storage
pub mod Pieces
pub mod WriteCache
pub mod ToDisk
pub mod VerifyPiece
pub mod ReadCache
pub mod Jobs
pub mod Held
pub mod Entries
pub mod Containers
pub mod Stored
pub mod Files
pub mod Flushed
pub mod Loaded
pub mod Copied
pub mod Verified
pub mod Hung
pub mod Unverified
pub mod Reads
pub mod Served
pub mod Turns
pub mod Filled
pub mod Writes
