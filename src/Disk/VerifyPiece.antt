-- ===== src/Disk/VerifyPiece.antt =====
-- rcs/src/frame/disk_io_thread.cpp: `FlushWriteCache` and `VerifyPieceInfoHash`.
use resource_cache.Common.{
  ℕ, zero, suc, ◌%◌, ◌^◌, Bool, true, false, not, Option, none, some, List, [], ◌∷◌, length, ◌==◌,
  if◌then◌else◌, bc_assert, ◌>>◌,
}
use resource_cache.Disk.ToDisk.{gather, write_cached_piece_to_disk, verify_piece}
use resource_cache.Common.Results.{Result, ok, out_of_fuel, ◌>>=◌, of_option}
use resource_cache.Disk.Pieces.{
  CachedPieceEntry, DiskIoThread, Host, is_piece, find_entry, erase_entry, replace_entry,
}

-- The loop of `FlushWriteCache`: a turn that does not find the piece looks at the same entry again.
unfoldable pub find_to_flush : ℕ → ℕ → ℕ → List CachedPieceEntry → Result (Option CachedPieceEntry)
find_to_flush zero key piece es = out_of_fuel
find_to_flush (suc fuel) key piece [] = ok none
find_to_flush (suc fuel) key piece (e ∷ es) =
    let again = find_to_flush fuel key piece (e ∷ es) in
    if is_piece key piece e then of_option (bc_assert e.verified >> some (some e)) else again

abbrev pub mark_verified : CachedPieceEntry → CachedPieceEntry
mark_verified e = record e { verified = true }

module _ {F : Type 0} (h : Host F) where
  abbrev pub flush_found : DiskIoThread F → Option CachedPieceEntry → Result (Bool × DiskIoThread F)
  flush_found s none = ok (false, s)
  flush_found s (some e) = do
    (result, s') ← of_option (write_cached_piece_to_disk h s e)
    ok (
      result,
      record s' { finished_write_cache = erase_entry e.key e.piece s'.finished_write_cache },
    )

  unfoldable pub flush_write_cache : ℕ → DiskIoThread F → ℕ → ℕ → Result (Bool × DiskIoThread F)
  flush_write_cache fuel s key piece = do
    found ← find_to_flush fuel key piece s.finished_write_cache
    flush_found s found

  -- What is left of `piece_data` when the blocks do not fill it is memory that nothing has written.
  unfoldable pub verify_piece_info_hash :
      ℕ → DiskIoThread F → ℕ → ℕ → Result (Bool × DiskIoThread F)
  verify_piece_info_hash fuel s key piece = do
    e ← of_option (find_entry key piece s.finished_write_cache)
    u ← of_option (bc_assert (not e.verified))
    piece_data ← of_option (gather e.blocks)
    v ← of_option (bc_assert (length piece_data == e.piece_size))
    correct ← of_option (verify_piece h key piece piece_data (e.piece_size % 2 ^ 32))
    let rejected : DiskIoThread F = record s {
      finished_write_cache = erase_entry key piece s.finished_write_cache;
    }
    let accepted : DiskIoThread F = record s {
      finished_write_cache = replace_entry (mark_verified e) s.finished_write_cache;
    }
    let flushed = flush_write_cache fuel accepted key piece
    if correct then flushed else ok (false, rejected)
