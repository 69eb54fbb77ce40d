-- ===== src/Disk/Hung.antt =====
-- rcs/src/frame/disk_io_thread.cpp: the loop of `FlushWriteCache` on a piece that is not the first one.
use resource_cache.Common.{
  refl, ap, ◌∙◌, ℕ, zero, suc, ◌≡◌, true, false, some, List, ◌∷◌, get_elem?,
}
use resource_cache.Common.Results.{out_of_fuel, ◌>>=◌}
use resource_cache.Disk.Pieces.{
  CachedPieceEntry, DiskIoThread, Host, is_piece, find_entry, replace_entry,
}
use resource_cache.Disk.VerifyPiece.{
  find_to_flush, flush_found, flush_write_cache, mark_verified, verify_piece_info_hash,
}
use resource_cache.Disk.Entries.{IsWorkable, IsFinished}
use resource_cache.Disk.Containers.{replace_entry_other, find_entry-All}
use resource_cache.Disk.Filled.{IsHeld}
use resource_cache.Disk.Verified.{verify_to_verdict, gather_lem, verify_piece_lem}

module _ {F : Type 0} (h : Host F) (content : ℕ → ℕ → List ℕ) (w : IsWorkable h content) where
  find_to_flush-endless :
      (fuel key piece : ℕ) (e0 : CachedPieceEntry) (rest : List CachedPieceEntry)
      → is_piece key piece e0 ≡ false
      → find_to_flush fuel key piece (e0 ∷ rest) ≡ out_of_fuel
  unfolding find_to_flush
  find_to_flush-endless zero key piece e0 rest other = refl
  find_to_flush-endless (suc fuel) key piece e0 rest other =
      rw other (find_to_flush-endless fuel key piece e0 rest other)

  -- Where torrents, pool and pieces are workable and the cache holds what it should, a finished piece with the right hash that is not the first of the finished pieces is never flushed: the loop of `FlushWriteCache` does not advance, so with any fuel its verification does not end.
  pub verify_piece_info_hash-endless :
      (fuel : ℕ) (s : DiskIoThread F) (e e0 : CachedPieceEntry) (rest : List CachedPieceEntry)
      → IsHeld h content s
      → s.finished_write_cache ≡ e0 ∷ rest
      → is_piece e.key e.piece e0 ≡ false
      → find_entry e.key e.piece s.finished_write_cache ≡ some e
      → get_elem? (h.piece_hash e.key) e.piece ≡ some (h.get_sha1 (content e.key e.piece))
      → verify_piece_info_hash h fuel s e.key e.piece ≡ out_of_fuel
  unfolding flush_write_cache
  verify_piece_info_hash-endless fuel s e e0 rest i first other found expected =
      let (f, _, _) =
        find_entry-All (IsFinished h content) e.key e.piece s.finished_write_cache e found
          i.finished in
      let (gathered, sized) = gather_lem h content w e f in
      let verdict = verify_piece_lem h content w e f expected in
      let marked = mark_verified e in
      let accepted : DiskIoThread F = record s {
        finished_write_cache = replace_entry marked s.finished_write_cache;
      } in
      let accepted_first : accepted.finished_write_cache ≡ e0 ∷ replace_entry marked rest =
        ap (replace_entry marked) first ∙ replace_entry_other marked e0 rest other in
      verify_to_verdict h fuel s e.key e.piece e (content e.key e.piece) true found f.0.fresh
        gathered sized verdict
      ∙ ap (λ es. find_to_flush fuel e.key e.piece es >>= flush_found h accepted) accepted_first
      ∙ ap (λ r. r >>= flush_found h accepted)
          (find_to_flush-endless fuel e.key e.piece e0 (replace_entry marked rest) other)
