-- ===== src/Disk/Filled.antt =====
-- rcs/src/frame/disk_io_thread.cpp: bytes put into a block, and where the piece is then kept.
use resource_cache.Common.{
  All, All-append, refl, sym, subst, ◌∙◌, ℕ, ◌+◌, ◌*◌, ◌%◌, ◌^◌, ◌≤◌, ◌<◌, ◌≡◌, Bool, false, ◌&&◌,
  ◌||◌, some, List, [], ◌∷◌, length, get_elem?, set, take, drop, ◌==◌, if◌then◌else◌, arith,
  Bool-cases, inl, inr, length-set, length-append,
}
use resource_cache.Torrent.{u64, get_piece_size}
use resource_cache.Disk.Pieces.{CachedBlockEntry, CachedPieceEntry, DiskIoThread, Host, find_entry}
use resource_cache.Disk.WriteCache.{WriteDataJob, fill_block, store_piece}
use resource_cache.Disk.Held.{
  HoldsBlock, Holds, count_full, count_full-le, count_full-set, Holds-set, memcpy-HoldsBlock,
  length-take-min,
}
use resource_cache.Disk.Entries.{HoldsPiece, IsUnfinished, IsFinished}
use resource_cache.Disk.Containers.{
  erase_entry-All, replace_entry-All, length-erase_entry, length-replace_entry,
}

module _ {F : Type 0} (h : Host F) (content : ℕ → ℕ → List ℕ) where
  -- What is in the cache is a part of the pieces' contents, and within the limit.
  pub record IsHeld (s : DiskIoThread F) : Type 0 where
    pub unfinished : All (IsUnfinished h content) s.unfinished_write_cache
    pub finished : All (IsFinished h content) s.finished_write_cache
    pub bounded :
        length s.unfinished_write_cache + length s.finished_write_cache ≤ s.write_cache_limit

  -- The job's bytes are some of the piece's, in one block.
  pub record IsHonest (job : WriteDataJob) (size : ℕ) : Type 0 where
    pub sized : get_piece_size (h.torrent job.torrent) job.piece ≡ some size
    pub some_bytes : 0 < length job.buf
    pub one_block :
        job.offset % (h.torrent job.torrent).block_size + length job.buf
        ≤ (h.torrent job.torrent).block_size
    pub fits : job.offset + length job.buf ≤ size
    pub bytes : job.buf ≡ take (length job.buf) (drop job.offset (content job.torrent job.piece))
    pub few : job.piece < 2 ^ 31

  pub fill_block_lem :
      (e : CachedPieceEntry) (i q z : ℕ) (b : CachedBlockEntry) (more : List ℕ)
      → z ≡ (h.torrent e.key).block_size
      → z < 2 ^ 31
      → q ≡ 0 + i * z
      → IsUnfinished h content e
      → get_elem? e.blocks i ≡ some b
      → HoldsBlock b (take z (drop q (content e.key e.piece)))
      → more ≡ take (length more) (drop b.cursor (take z (drop q (content e.key e.piece))))
      → 0 < length more
      → b.cursor + length more ≤ length (take z (drop q (content e.key e.piece)))
      → (finished : Bool) × (e' : CachedPieceEntry) × (fill_block e i b more ≡ some (finished, e'))
        × HoldsPiece h content e'
        × (e'.key ≡ e.key)
        × (e'.piece ≡ e.piece)
        × (e'.num_blocks ≡ length e'.blocks)
        × (finished ≡ false → count_full e'.blocks < length e'.blocks)
  unfolding fill_block
  fill_block_lem e i q z b more ez small eq u g hb eb pos le =
      let bytes = take z (drop q (content e.key e.piece)) in
      let (buf, copied, room, front) = memcpy-HoldsBlock b bytes more hb eb le in
      let short : length bytes ≤ z =
        omega (arith, length-take-min z (drop q (content e.key e.piece))) in
      let wraps : u64 (b.cursor + length more) ≡ b.cursor + length more = omega arith in
      let not_full : (b.cursor == b.block_size) ≡ false = ground (arith, hb.sized) in
      let cursor = b.cursor + length more in
      let finished = cursor == b.block_size in
      let b' : CachedBlockEntry = record {
        buf = buf;
        block_size = b.block_size;
        cursor = cursor;
        finished = finished || b.finished;
      } in
      let counted = count_full-set e.blocks i b b' g not_full in
      let kept : HoldsBlock b' bytes = record {
        sized = hb.sized;
        room = room;
        inside = omega (arith, hb.sized);
        held = front;
      } in
      let e' : CachedPieceEntry = record e {
        finished_blocks = if finished then u64 (e.finished_blocks + 1) else e.finished_blocks;
        blocks = set e.blocks i b';
      } in
      let width = length-set e.blocks i b' in
      let most = count_full-le (set e.blocks i b') in
      let hp = u.0 in
      let cut : Holds (h.torrent e.key).block_size (content e.key e.piece) 0 (set e.blocks i b') =
        subst (λ w. Holds w (content e.key e.piece) 0 (set e.blocks i b')) ez
          (Holds-set z (content e.key e.piece) 0 i q e.blocks b'
            (subst (λ w. Holds w (content e.key e.piece) 0 e.blocks) (sym ez) hp.cut) eq kept) in
      (
        finished,
        e',
        rw (copied, wraps) refl,
        record {
          size = hp.size;
          all = hp.all;
          cut = cut;
          number = hp.number ∙ sym width;
          small = omega (arith, hp.small, width);
          count = ground (arith, hp.count, hp.small, counted);
          fresh = hp.fresh;
        },
        refl,
        refl,
        hp.number ∙ sym width,
        λ f. ground (arith, counted, width),
      )

  -- Where the entry goes, it is one that may be there.
  pub store_piece-IsHeld :
      (s : DiskIoThread F) (finished : Bool) (e e' : CachedPieceEntry)
      → IsHeld s
      → find_entry e'.key e'.piece s.unfinished_write_cache ≡ some e
      → HoldsPiece h content e'
      → (finished ≡ false → count_full e'.blocks < length e'.blocks)
      → IsHeld (store_piece s finished e')
  unfolding store_piece
  store_piece-IsHeld s finished e e' i found hp open_lem =
      let le = count_full-le e'.blocks in
      elim (Bool-cases (finished && (e'.finished_blocks == e'.num_blocks))) [
        | inl t ↦
            let full : count_full e'.blocks ≡ length e'.blocks =
              ground (arith, hp.count, hp.number) in
            let shorter = length-erase_entry e'.key e'.piece s.unfinished_write_cache e found in
            rw t (record {
              unfinished =
                  erase_entry-All (IsUnfinished h content) e'.key e'.piece s.unfinished_write_cache
                    i.unfinished;
              finished =
                  All-append (IsFinished h content) s.finished_write_cache (e' ∷ []) i.finished
                    ((hp, full), tt);
              bounded = omega (arith, i.bounded, length-append s.finished_write_cache (e' ∷ []));
            })
        | inr f ↦
            let not_full : count_full e'.blocks < length e'.blocks = elim (Bool-cases finished) [
              | inl y ↦ ground (arith, hp.count, hp.number)
              | inr n ↦ open_lem n
            ] in
            rw f (record {
              unfinished =
                  replace_entry-All (IsUnfinished h content) e' s.unfinished_write_cache
                    (hp, not_full) i.unfinished;
              finished = i.finished;
              bounded = omega (arith, i.bounded, length-replace_entry e' s.unfinished_write_cache);
            })
      ]
