-- ===== src/Disk/Served.antt =====
-- rcs/src/frame/disk_io_thread.cpp: what a peer is sent of a piece that is on disk.
use resource_cache.Common.{
  All, refl, sym, ap, subst, ◌∙◌, ℕ, suc, ◌+◌, ◌*◌, ◌/◌, ◌%◌, ◌^◌, ◌≤◌, ◌<◌, ◌≡◌, true, false, ◌||◌,
  some, List, ◌∷◌, length, get_elem?, take, drop, ltb, arith, lt→ltb, length-drop, drop-drop,
}
use native.Mathlib.Nat.{div-add-mod, mod-lt}
use resource_cache.Common.Results.{ok}
use resource_cache.Torrent.{u64, get_piece_size}
use resource_cache.Torrent.Blocks.{get_piece_size-le}
use resource_cache.Disk.Pieces.{CachedPieceEntry, DiskIoThread, Host}
use resource_cache.Disk.VerifyPiece.{verify_piece_info_hash}
use resource_cache.Disk.ReadCache.{
  ReadDataJob, get_read_cache_entry, copy_blocks, as_left_bytes, try_read_from_cache, read_data,
}
use resource_cache.Disk.Held.{window, length-take-min}
use resource_cache.Disk.Entries.{IsWorkable, IsFinished, get_common_block_size_lem}
use resource_cache.Disk.Filled.{IsHeld}
use resource_cache.Disk.Files.{View, IsReliable}
use resource_cache.Disk.Copied.{Holds-drop, copy_blocks_one, copy_blocks_two}
use resource_cache.Disk.Reads.{IsReadable, IsCurrent, IsStored, get_read_cache_entry_lem}
use resource_cache.Disk.Verified.{verify_piece_info_hash_first}

module _ {F : Type 0} (h : Host F) (content : ℕ → ℕ → List ℕ) (w : IsWorkable h content)
    (view : View F) (r : IsReliable h.file_oper view) where
  read_data_step :
      (s : DiskIoThread F) (job : ReadDataJob) (size : ℕ) (e : CachedPieceEntry)
      (s' : DiskIoThread F) (buf : List ℕ)
      → get_piece_size (h.torrent job.torrent) job.piece ≡ some size
      → 0 < job.len
      → job.offset + job.len ≤ size
      → job.len ≤ (h.torrent job.torrent).block_size
      → get_read_cache_entry h s job ≡ some (e, s')
      → copy_blocks
          (h.torrent job.torrent).block_size
          job.len
          (job.offset % (h.torrent job.torrent).block_size)
          (drop (job.offset / (h.torrent job.torrent).block_size) e.blocks)
          h.alloc_data_buffer
        ≡ some buf
      → read_data h s job ≡ some (some buf, s')
  unfolding read_data try_read_from_cache
  read_data_step s job size e s' buf sized pos fits short got copied =
      let t = h.torrent job.torrent in
      let v = w.valid job.torrent in
      let (_, narrow) = get_piece_size-le t v job.piece size sized in
      let valid : (ltb size (u64 (job.offset + job.len)) || ltb t.block_size job.len) ≡ false =
        ground (arith, v.fits_int) in
      let left : as_left_bytes job.len ≡ job.len = left_lem job.len (omega (arith, v.fits_int)) in
      rw
        (
          sized,
          get_common_block_size_lem t v,
          valid,
          got,
          lt→ltb 0 t.block_size v.blocked,
          left,
          copied,
        )
        refl
    where
      left_lem : (n : ℕ) → n < 2 ^ 31 → as_left_bytes n ≡ n
      left_lem n l = let q : n % 2 ^ 32 ≡ n = omega arith in rw (q, lt→ltb n (2 ^ 31) l) refl

  -- Where torrents, pool and pieces are workable, the file fails nowhere, the piece is in the file and the read cache holds only right pieces, a read inside one block, of a piece whose number fits an int, returns the piece's bytes at the front of the job's buffer, and leaves the read cache and the file so.
  pub read_data_lem :
      (s : DiskIoThread F) (job : ReadDataJob) (size : ℕ)
      → IsCurrent h content s
      → get_piece_size (h.torrent job.torrent) job.piece ≡ some size
      → job.piece < 2 ^ 31
      → IsStored h content view (s.files job.torrent) job.torrent job.piece
      → 0 < job.len
      → job.offset + job.len ≤ size
      → job.offset % (h.torrent job.torrent).block_size + job.len
        ≤ (h.torrent job.torrent).block_size
      → (buf : List ℕ) × (s' : DiskIoThread F) × (read_data h s job ≡ some (some buf, s'))
        × (take job.len buf ≡ take job.len (drop job.offset (content job.torrent job.piece)))
        × IsCurrent h content s'
        × IsStored h content view (s'.files job.torrent) job.torrent job.piece
  read_data_lem s job size c sized few stored pos fits inside =
      let t = h.torrent job.torrent in
      let v = w.valid job.torrent in
      let z = t.block_size in
      let bytes = content job.torrent job.piece in
      let whole = w.pieces job.torrent job.piece size sized in
      let (_, narrow) = get_piece_size-le t v job.piece size sized in
      let (e, s', got, holds, c', stored') =
        get_read_cache_entry_lem h content w view r s job size c sized (omega arith) few stored in
      let q = job.offset / z * z in
      let off = job.offset % z in
      let at : job.offset ≡ q + off = omega (arith, div-add-mod job.offset z) in
      let (b, rest, dropped, hb, _) =
        Holds-drop z bytes 0 (job.offset / z) q e.blocks holds (omega arith) (omega arith) in
      let mine = take z (drop q bytes) in
      let (buf, copied, front) =
        copy_blocks_one z job.len off b rest mine h.alloc_data_buffer hb pos
          (omega (arith, length-take-min z (drop q bytes), length-drop q bytes)) inside
          (omega (arith, v.fits_int)) (omega (arith, w.buffers job.torrent)) in
      (
        buf,
        s',
        read_data_step s job size e s' buf sized pos fits (omega arith) got
            (ap (λ bs. copy_blocks z job.len off bs h.alloc_data_buffer) dropped ∙ copied),
        front
            ∙ window z off job.len (drop q bytes) inside
            ∙ ap (take job.len) (drop-drop job.offset q off bytes at),
        c',
        stored',
      )

  -- Under the same conditions, a read that goes on into the next block, though no longer than a block, succeeds with a buffer that begins with the bytes of the second block, where those of the first are wanted.
  pub read_data_across :
      (s : DiskIoThread F) (job : ReadDataJob) (size m : ℕ)
      → IsCurrent h content s
      → get_piece_size (h.torrent job.torrent) job.piece ≡ some size
      → job.piece < 2 ^ 31
      → IsStored h content view (s.files job.torrent) job.torrent job.piece
      → job.offset + job.len ≤ size
      → job.len ≤ (h.torrent job.torrent).block_size
      → 0 < m
      → job.offset % (h.torrent job.torrent).block_size + job.len
        ≡ (h.torrent job.torrent).block_size + m
      → (buf : List ℕ) × (s' : DiskIoThread F) × (read_data h s job ≡ some (some buf, s'))
        × (take m buf
            ≡ take m (
                drop
                  ((job.offset / (h.torrent job.torrent).block_size + 1)
                    * (h.torrent job.torrent).block_size)
                  (content job.torrent job.piece)))
  read_data_across s job size m c sized few stored fits short pos crosses =
      let t = h.torrent job.torrent in
      let v = w.valid job.torrent in
      let z = t.block_size in
      let bytes = content job.torrent job.piece in
      let whole = w.pieces job.torrent job.piece size sized in
      let (_, narrow) = get_piece_size-le t v job.piece size sized in
      let (e, s', got, holds, _, _) =
        get_read_cache_entry_lem h content w view r s job size c sized (omega arith) few stored in
      let i = job.offset / z in
      let q = i * z in
      let q' = (i + 1) * z in
      let off = job.offset % z in
      let at : job.offset ≡ q + off = omega (arith, div-add-mod job.offset z) in
      let below : off < z = mod-lt job.offset v.blocked in
      let next_at : q' ≡ q + z = omega arith in
      let (b, rest, dropped, hb, holds') =
        Holds-drop z bytes 0 i q e.blocks holds (omega arith) (omega arith) in
      let (b', rest', dropped', hb', _) =
        Holds-drop z bytes (q + z) 0 q' rest holds' (omega arith) (omega arith) in
      let mine = take z (drop q bytes) in
      let next = take z (drop q' bytes) in
      let (buf, copied, front) =
        copy_blocks_two z job.len m off b b' rest' mine next h.alloc_data_buffer hb hb'
          (omega (arith, length-take-min z (drop q bytes), length-drop q bytes)) below crosses pos
          (omega (arith, length-take-min z (drop q' bytes), length-drop q' bytes)) short
          (omega (arith, v.fits_int)) (w.buffers job.torrent) in
      let two : drop i e.blocks ≡ b ∷ b' ∷ rest' = dropped ∙ ap (λ l. b ∷ l) dropped' in
      (
        buf,
        s',
        read_data_step s job size e s' buf sized (omega arith) fits short got
            (ap (λ bs. copy_blocks z job.len off bs h.alloc_data_buffer) two ∙ copied),
        front ∙ window z 0 m (drop q' bytes) (omega arith),
      )

  -- From download to upload, where torrents, pool and pieces are workable, the write cache holds what it should, the read cache only right pieces, and the file fails nowhere: a piece with the right hash, the first of the finished ones, whose number fits an int, is verified with success, and a read inside one of its blocks then returns the bytes that were downloaded.
  pub verified-read_data :
      (fuel : ℕ) (s : DiskIoThread F) (e : CachedPieceEntry) (rest : List CachedPieceEntry)
      (offset len : ℕ)
      → IsHeld h content s
      → IsCurrent h content s
      → s.finished_write_cache ≡ e ∷ rest
      → get_elem? (h.piece_hash e.key) e.piece ≡ some (h.get_sha1 (content e.key e.piece))
      → e.piece < 2 ^ 31
      → 0 < len
      → offset + len ≤ length (content e.key e.piece)
      → offset % (h.torrent e.key).block_size + len ≤ (h.torrent e.key).block_size
      → (s' : DiskIoThread F) × (buf : List ℕ) × (s'' : DiskIoThread F) × (verify_piece_info_hash h
            (suc fuel)
            s
            e.key
            e.piece
          ≡ ok (true, s'))
        × (read_data h s' (record { torrent = e.key; piece = e.piece; offset = offset; len = len })
            ≡ some (some buf, s''))
        × (take len buf ≡ take len (drop offset (content e.key e.piece)))
  verified-read_data fuel s e rest offset len i c first hash few pos fits inside =
      let f : IsFinished h content e = (subst (All (IsFinished h content)) first i.finished).0 in
      let hp = f.0 in
      let (s', verified, _, (_, _, same, limit), (has, _, enough), _) =
        verify_piece_info_hash_first h content w view r fuel s e rest i first hash few in
      let c' : IsCurrent h content s' = record {
        readable = subst (All (IsReadable h content)) (sym same) c.readable;
        bounded = omega (arith, c.bounded, ap length same, limit);
        limit = omega (arith, c.limit, limit);
      } in
      let (buf, s'', read, right, _, _) =
        read_data_lem s' (record { torrent = e.key; piece = e.piece; offset = offset; len = len })
          e.piece_size c' hp.size few (has, enough) pos (omega (arith, hp.all)) inside in
      (s', buf, s'', verified, read, right)
