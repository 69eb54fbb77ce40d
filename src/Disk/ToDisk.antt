-- ===== src/Disk/ToDisk.antt =====
-- rcs/src/frame/disk_io_thread.cpp: a whole piece of the cache, on its way to the hash and to disk.
-- The verifications are those of rcs/src/protocol/bt/bt_torrent.cpp and rcs/src/protocol/pps/pps_torrent.cpp.
use resource_cache.Common.{
  ℕ, ◌+◌, Bool, true, false, Option, some, List, [], ◌∷◌, ◌++◌, length, get_elem?, take, leb, ◌==◌,
  if◌then◌else◌, ◌>>=◌, ◌>>◌, bc_assert,
}
use resource_cache.Torrent.{u64}
use resource_cache.Disk.Storage.{io_write_data}
use resource_cache.Disk.Pieces.{
  CachedBlockEntry, CachedPieceEntry, DiskIoThread, Protocol, bt, pps, Host, put_file,
}

-- The first `block_size` bytes of a block's buffer.
abbrev pub block_bytes : CachedBlockEntry → Option (List ℕ)
block_bytes b = bc_assert (leb b.block_size (length b.buf)) >> some (take b.block_size b.buf)

-- The loop that copies the blocks into `piece_data`.
unfoldable pub gather : List CachedBlockEntry → Option (List ℕ)
gather [] = some []
gather (b ∷ bs) = do bytes ← block_bytes b; rest ← gather bs; some (bytes ++ rest)

module _ {F : Type 0} (h : Host F) where
  -- The loop of `WriteCachedPieceToDisk`.
  unfoldable pub write_blocks : ℕ → ℕ → ℕ → List CachedBlockEntry → F → Option (Bool × F)
  write_blocks key piece offset [] file = some (true, file)
  write_blocks key piece offset (b ∷ bs) file = do
    bytes ← block_bytes b
    (write_size, file') ← io_write_data h.file_oper (h.torrent key) bytes piece offset file
    let rest = write_blocks key piece (u64 (offset + b.block_size)) bs file'
    if write_size == b.block_size then rest else some (false, file')

  unfoldable pub write_cached_piece_to_disk :
      DiskIoThread F → CachedPieceEntry → Option (Bool × DiskIoThread F)
  write_cached_piece_to_disk s e = do
    (result, file) ← write_blocks e.key e.piece 0 e.blocks (s.files e.key)
    some (
      result,
      record s {
        cache_status = record s.cache_status { writes = u64 (s.cache_status.writes + 1) };
        files = put_file e.key file s.files;
      },
    )

  -- `BtTorrent::VerifyPiece`, of the first `len` bytes.
  unfoldable pub bt_verify_piece : ℕ → ℕ → List ℕ → ℕ → Option Bool
  bt_verify_piece key piece bytes len = do
    hash ← get_elem? (h.piece_hash key) piece
    some (hash == h.get_sha1 (take len bytes))

  -- `PpsTorrent::VerifyPiece`, which looks at nothing.
  unfoldable pub pps_verify_piece : ℕ → ℕ → List ℕ → ℕ → Option Bool
  pps_verify_piece key piece bytes len = some true

  -- The virtual call.
  unfoldable pub verify_with : Protocol → ℕ → ℕ → List ℕ → ℕ → Option Bool
  verify_with bt = bt_verify_piece
  verify_with pps = pps_verify_piece

  unfoldable pub verify_piece : ℕ → ℕ → List ℕ → ℕ → Option Bool
  verify_piece key = verify_with (h.protocol key) key
