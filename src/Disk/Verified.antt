-- ===== src/Disk/Verified.antt =====
-- rcs/src/frame/disk_io_thread.cpp: what `VerifyPieceInfoHash` makes of a piece that is complete.
use resource_cache.Common.{
  All, refl, sym, ap, subst, ◌∙◌, ℕ, suc, ◌+◌, ◌-◌, ◌*◌, ◌%◌, ◌^◌, ◌≤◌, ◌<◌, ◌≡◌, ◌≢◌, ◌⊎◌, Bool,
  true, false, some, List, ◌∷◌, length, get_elem?, take, ◌==◌, if◌then◌else◌, if_yes, if_no, arith,
  inl, inr, Bool-cases,
}
use resource_cache.Common.Results.{ok, ◌>>=◌}
use resource_cache.Torrent.{u64}
use resource_cache.Torrent.Blocks.{get_piece_size-le, get_piece_size_lem}
use resource_cache.Disk.Pieces.{
  CachedPieceEntry, DiskIoThread, Protocol, bt, pps, Host, find_entry, erase_entry, replace_entry,
  put_file,
}
use resource_cache.Disk.ToDisk.{
  gather, write_blocks, write_cached_piece_to_disk, bt_verify_piece, pps_verify_piece, verify_with,
  verify_piece,
}
use resource_cache.Disk.VerifyPiece.{
  find_to_flush, flush_found, flush_write_cache, mark_verified, verify_piece_info_hash,
}
use resource_cache.Disk.Held.{take_all, gather-Holds}
use resource_cache.Disk.Entries.{IsWorkable, HoldsPiece, IsFinished}
use resource_cache.Disk.Containers.{
  is_piece_self, erase_entry_first, find_entry_first, replace_entry_first,
}
use resource_cache.Disk.Filled.{IsHeld}
use resource_cache.Disk.Files.{View, bytes_from, IsReliable}
use resource_cache.Disk.Flushed.{write_blocks_lem}

pub ==_self : (n : ℕ) → (n == n) ≡ true
==_self n = ground arith

ne_test : (a b : ℕ) → a ≢ b → (a == b) ≡ false
ne_test a b ne = elim (Bool-cases (a == b)) [ inl y ↦ absurd (ne (ground arith)) | inr n ↦ n ]

module _ {F : Type 0} (h : Host F) where
  -- Up to the verdict.
  pub verify_to_verdict :
      (fuel : ℕ) (s : DiskIoThread F) (key piece : ℕ) (e : CachedPieceEntry) (bytes : List ℕ)
      (correct : Bool)
      → find_entry key piece s.finished_write_cache ≡ some e
      → e.verified ≡ false
      → gather e.blocks ≡ some bytes
      → (length bytes == e.piece_size) ≡ true
      → verify_piece h key piece bytes (e.piece_size % 2 ^ 32) ≡ some correct
      → verify_piece_info_hash h fuel s key piece ≡ (
          if correct
          then flush_write_cache h fuel
              (record s {
                finished_write_cache = replace_entry (mark_verified e) s.finished_write_cache;
              })
              key
              piece
          else ok (
            false,
            record s { finished_write_cache = erase_entry key piece s.finished_write_cache },
          ))
  unfolding verify_piece_info_hash
  verify_to_verdict fuel s key piece e bytes correct found fresh all size verdict =
      rw (found, fresh, all, size, verdict) refl

  flush_first :
      (fuel : ℕ) (s : DiskIoThread F) (e : CachedPieceEntry) (rest : List CachedPieceEntry) (f : F)
      → s.finished_write_cache ≡ e ∷ rest
      → e.verified ≡ true
      → write_blocks h e.key e.piece 0 e.blocks (s.files e.key) ≡ some (true, f)
      → flush_write_cache h (suc fuel) s e.key e.piece
        ≡ ok (
          true,
          record s {
            cache_status = record s.cache_status { writes = u64 (s.cache_status.writes + 1) };
            files = put_file e.key f s.files;
            finished_write_cache = rest;
          },
        )
  unfolding flush_write_cache write_cached_piece_to_disk find_to_flush
  flush_first fuel s e rest f first marked wrote =
      ap (λ es. find_to_flush (suc fuel) e.key e.piece es >>= flush_found h s) first
      ∙ rw (is_piece_self e, marked, wrote)
          (ap
            (λ l. ok (
              true,
              record s {
                cache_status = record s.cache_status { writes = u64 (s.cache_status.writes + 1) };
                files = put_file e.key f s.files;
                finished_write_cache = l;
              },
            ))
            (ap (erase_entry e.key e.piece) first ∙ erase_entry_first e rest))

module _ {F : Type 0} (h : Host F) (content : ℕ → ℕ → List ℕ) (w : IsWorkable h content) where
  -- The whole piece goes to the hash.
  pub gather_lem :
      (e : CachedPieceEntry)
      → IsFinished h content e
      → (gather e.blocks ≡ some (content e.key e.piece))
        × ((length (content e.key e.piece) == e.piece_size) ≡ true)
  gather_lem e f =
      let hp = f.0 in
      (
        gather-Holds (h.torrent e.key).block_size (content e.key e.piece) 0 e.blocks hp.cut f.1,
        ground (arith, hp.all),
      )

  -- Torrents of either class accept a piece with the right hash.
  verify_with-true :
      (p : Protocol) (key piece len : ℕ) (bytes : List ℕ)
      → get_elem? (h.piece_hash key) piece ≡ some (h.get_sha1 (take len bytes))
      → verify_with h p key piece bytes len ≡ some true
  unfolding verify_with bt_verify_piece pps_verify_piece
  verify_with-true bt key piece len bytes expected =
      rw expected (ap some (==_self (h.get_sha1 (take len bytes))))
  verify_with-true pps key piece len bytes expected = refl

  pub verify_piece_lem :
      (e : CachedPieceEntry)
      → IsFinished h content e
      → get_elem? (h.piece_hash e.key) e.piece ≡ some (h.get_sha1 (content e.key e.piece))
      → verify_piece h e.key e.piece (content e.key e.piece) (e.piece_size % 2 ^ 32) ≡ some true
  unfolding verify_piece
  verify_piece_lem e f expected =
      let hp = f.0 in
      let v = w.valid e.key in
      let (_, narrow) = get_piece_size-le (h.torrent e.key) v e.piece e.piece_size hp.size in
      let whole : take (e.piece_size % 2 ^ 32) (content e.key e.piece) ≡ content e.key e.piece =
        take_all (e.piece_size % 2 ^ 32) (content e.key e.piece)
          (omega (arith, hp.all, v.fits_int)) in
      verify_with-true (h.protocol e.key) e.key e.piece (e.piece_size % 2 ^ 32)
        (content e.key e.piece) (expected ∙ ap (λ b. some (h.get_sha1 b)) (sym whole))

  piece_pos : (e : CachedPieceEntry) → HoldsPiece h content e → 0 < e.piece_size
  piece_pos e hp =
      let t = h.torrent e.key in
      let (inside, _) = get_piece_size-le t (w.valid e.key) e.piece e.piece_size hp.size in
      let (size, there, pos, _) = get_piece_size_lem t (w.valid e.key) e.piece inside in
      let same : e.piece_size ≡ size = cc in omega arith

  -- The piece is at its place in the new file, and all other bytes are those of the old one.
  abbrev pub IsWritten : View F → F → F → ℕ → ℕ → Type 0
  IsWritten view old new key piece =
      (bytes_from (view.byte_at new) (piece * (h.torrent key).piece_size)
          (length (content key piece))
        ≡ content key piece)
      × ((i : ℕ)
          → (i < piece * (h.torrent key).piece_size)
            ⊎ (piece * (h.torrent key).piece_size + length (content key piece) ≤ i)
          → view.byte_at new i ≡ view.byte_at old i)
      × (piece * (h.torrent key).piece_size + length (content key piece) ≤ view.size new)

  write_blocks-IsWritten :
      (view : View F)
      → IsReliable h.file_oper view
      → (e : CachedPieceEntry) (f : F) → IsFinished h content e
      → e.piece < 2 ^ 31
      → (f' : F) × (write_blocks h e.key e.piece 0 e.blocks f ≡ some (true, f'))
        × IsWritten view f f' e.key e.piece
  write_blocks-IsWritten view r e f finished few =
      let hp = finished.0 in
      let there = e.piece * (h.torrent e.key).piece_size in
      let (f', wrote, has, kept, grows, enough) =
        write_blocks_lem h view r e.key e.piece e.piece_size (content e.key e.piece) (w.valid e.key)
          hp.size hp.all few 0 0 there e.blocks f hp.cut finished.1 (omega arith) (omega arith) in
      let size : e.piece_size - 0 ≡ length (content e.key e.piece) = omega (arith, hp.all) in
      (
        f',
        wrote,
        (
          ap (bytes_from (view.byte_at f') there) (sym size) ∙ has,
          λ k out. kept k (elim out [ inl l ↦ inl l | inr g ↦ inr (omega (arith, hp.all)) ]),
          omega (arith, hp.all, enough (piece_pos e hp)),
        ),
      )

  -- Where torrents, pool and pieces are workable, the cache holds what it should and the file fails nowhere, a finished piece whose number fits an int, with the hash that the torrent gives for it, is written to its place in the file when it is verified, if it is the first one of the finished pieces; nothing else of the files changes, and of the caches only that the piece is no longer in the write cache.
  pub verify_piece_info_hash_first :
      (view : View F)
      → IsReliable h.file_oper view
      → (fuel : ℕ) (s : DiskIoThread F) (e : CachedPieceEntry) (rest : List CachedPieceEntry)
      → IsHeld h content s
      → s.finished_write_cache ≡ e ∷ rest
      → get_elem? (h.piece_hash e.key) e.piece ≡ some (h.get_sha1 (content e.key e.piece))
      → e.piece < 2 ^ 31
      → (s' : DiskIoThread F) × (verify_piece_info_hash h (suc fuel) s e.key e.piece
          ≡ ok (true, s'))
        × IsHeld h content s'
        × ((s'.finished_write_cache ≡ rest)
            × (s'.unfinished_write_cache ≡ s.unfinished_write_cache)
            × (s'.read_cache_set ≡ s.read_cache_set)
            × (s'.read_cache_limit ≡ s.read_cache_limit))
        × IsWritten view (s.files e.key) (s'.files e.key) e.key e.piece
        × ((key : ℕ) → key ≢ e.key → s'.files key ≡ s.files key)
  verify_piece_info_hash_first view r fuel s e rest i first expected few =
      let f : IsFinished h content e = (subst (All (IsFinished h content)) first i.finished).0 in
      let hp = f.0 in
      let (gathered, sized) = gather_lem e f in
      let (file, wrote, written) = write_blocks-IsWritten view r e (s.files e.key) f few in
      let marked = mark_verified e in
      let accepted : DiskIoThread F = record s {
        finished_write_cache = replace_entry marked s.finished_write_cache;
      } in
      let verdict = verify_piece_lem e f expected in
      let accepted_first : accepted.finished_write_cache ≡ marked ∷ rest =
        ap (replace_entry marked) first ∙ replace_entry_first marked e rest (is_piece_self e) in
      let s' : DiskIoThread F = record accepted {
        cache_status = record s.cache_status { writes = u64 (s.cache_status.writes + 1) };
        files = put_file e.key file s.files;
        finished_write_cache = rest;
      } in
      let held : IsHeld h content s' = record {
        unfinished = i.unfinished;
        finished = (subst (All (IsFinished h content)) first i.finished).1;
        bounded = omega (arith, i.bounded, ap length first);
      } in
      let here : s'.files e.key ≡ file = if_yes _ _ _ (==_self e.key) in
      (
        s',
        verify_to_verdict h (suc fuel) s e.key e.piece e (content e.key e.piece) true
              (ap (find_entry e.key e.piece) first ∙ find_entry_first e rest) hp.fresh gathered
              sized verdict
            ∙ flush_first h fuel accepted marked rest file accepted_first refl wrote,
        held,
        (refl, refl, refl, refl),
        subst (λ g. IsWritten view (s.files e.key) g e.key e.piece) (sym here) written,
        λ key other. if_no _ _ _ (ne_test key e.key other),
      )
