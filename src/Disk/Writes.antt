-- ===== src/Disk/Writes.antt =====
-- rcs/src/frame/disk_io_thread.cpp: `WriteData` on bytes of the pieces that are downloaded.
use resource_cache.Common.{
  refl, sym, ap, subst, ◌∙◌, ℕ, ◌+◌, ◌*◌, ◌/◌, ◌%◌, ◌^◌, ◌≤◌, ◌<◌, ◌≡◌, Bool, true, ◌||◌, not,
  Option, none, some, List, ◌∷◌, length, take, drop, leb, ◌==◌, arith, Bool-cases, Option-cases,
  inl, inr, ◌⊎◌, ◌≢◌, lt→ltb, length-drop, drop-drop,
}
use native.Mathlib.Nat.{div-add-mod}
use resource_cache.Torrent.Blocks.{get_piece_size-le}
use resource_cache.Disk.Storage.{seek_operate, write_result}
use resource_cache.Disk.Stored.{io_write_data_lem}
use resource_cache.Torrent.{u64, get_piece_size}
use resource_cache.Disk.Pieces.{CachedPieceEntry, DiskIoThread, Host, find_entry, put_file}
use resource_cache.Disk.WriteCache.{
  WriteDataJob, store_piece, find_write_cache_piece, cache_data, write_data_to_disk, write_data,
}
use resource_cache.Disk.Held.{Holds-get_elem?, length-take-min, window}
use resource_cache.Disk.Entries.{
  IsWorkable, IsUnfinished, new_piece_entry_lem, get_common_block_size_lem,
}
use resource_cache.Disk.Filled.{IsHeld, IsHonest, fill_block_lem, store_piece-IsHeld}
use resource_cache.Disk.Containers.{find_entry_same, find_entry_first, find_entry-All}

module _ {F : Type 0} (h : Host F) (content : ℕ → ℕ → List ℕ) where
  -- The bytes that a job brings are the next ones of the block.
  next_bytes :
      (z offset q off : ℕ) (all more : List ℕ)
      → offset ≡ q + off
      → off + length more ≤ z
      → more ≡ take (length more) (drop offset all)
      → more ≡ take (length more) (drop off (take z (drop q all)))
  next_bytes z offset q off all more at le e =
      e
      ∙ ap (take (length more)) (sym (drop-drop offset q off all at))
      ∙ sym (window z off (length more) (drop q all) le)

  cache_data_lem :
      IsWorkable h content
      → (s : DiskIoThread F) (e : CachedPieceEntry) (offset : ℕ) (buf : List ℕ) (size : ℕ)
      → IsHeld h content s
      → IsUnfinished h content e
      → find_entry e.key e.piece s.unfinished_write_cache ≡ some e
      → IsHonest h content
          (record { torrent = e.key; piece = e.piece; offset = offset; buf = buf })
          size
      → (s' : DiskIoThread F) × (cache_data h s e
            (record { torrent = e.key; piece = e.piece; offset = offset; buf = buf })
          ≡ some (true, s'))
        × IsHeld h content s'
  unfolding cache_data
  cache_data_lem w s e offset buf size i u found hon =
      let t = h.torrent e.key in
      let v = w.valid e.key in
      let z = t.block_size in
      let all = content e.key e.piece in
      let q = offset / z * z in
      let off = offset % z in
      let whole = w.pieces e.key e.piece size hon.sized in
      let at : offset ≡ q + off = omega (arith, div-add-mod offset z) in
      let (_, narrow) = get_piece_size-le t v e.piece size hon.sized in
      let small : z < 2 ^ 31 = omega (arith, v.fits_int) in
      let inside : q < length all = omega (arith, hon.fits, hon.some_bytes) in
      let (b, g, hb) =
        Holds-get_elem? z all 0 (offset / z) q e.blocks u.0.cut (omega arith) inside in
      elim (Bool-cases (off == b.cursor)) [
        | inl y ↦
            let same : off ≡ b.cursor = ground arith in
            let next = next_bytes z offset q off all buf at hon.one_block hon.bytes in
            let next' =
              subst (λ c. buf ≡ take (length buf) (drop c (take z (drop q all)))) same next in
            let (finished, e', filled, hp, ek, ep, _, open_lem) =
              fill_block_lem h content e (offset / z) q z b buf refl small (omega arith) u g hb
                next' hon.some_bytes
                (omega (
                  arith,
                  hon.one_block,
                  hon.fits,
                  length-take-min z (drop q all),
                  length-drop q all,
                )) in
            let found' = find_entry_same e e' e s.unfinished_write_cache ek ep found in
            (
              store_piece s finished e',
              rw (get_common_block_size_lem t v, lt→ltb 0 z v.blocked, g, y, filled) refl,
              store_piece-IsHeld h content s finished e e' i found' hp open_lem,
            )
        | inr n ↦ (s, rw (get_common_block_size_lem t v, lt→ltb 0 z v.blocked, g, n) refl, i)
      ]

  -- A write that goes to disk returns, and leaves the cache as it is.
  write_data_to_disk_lem :
      IsWorkable h content
      → (s : DiskIoThread F) (job : WriteDataJob) (size : ℕ) → IsHeld h content s
      → IsHonest h content job size
      → (r : Bool) × (s' : DiskIoThread F) × (write_data_to_disk h s job ≡ some (r, s'))
        × IsHeld h content s'
  unfolding write_data_to_disk
  write_data_to_disk_lem w s job size i hon =
      let t = h.torrent job.torrent in
      let file = s.files job.torrent in
      let n = length job.buf in
      let p = write_result h.file_oper t n (
        seek_operate h.file_oper t (job.piece * t.piece_size + job.offset) n
          (h.file_oper.write job.buf) file) in
      let wrote =
        io_write_data_lem h.file_oper t (w.valid job.torrent) job.piece size job.buf job.offset file
          hon.sized hon.fits hon.some_bytes hon.few in
      (
        not (p.0 == 0 || not (p.0 == n)),
        record s { files = put_file job.torrent p.1 s.files },
        rw wrote refl,
        record { unfinished = i.unfinished; finished = i.finished; bounded = i.bounded },
      )

  -- The entry that is found or made, if there is one.
  find_write_cache_piece_lem :
      IsWorkable h content
      → (s : DiskIoThread F) (key piece size : ℕ) → IsHeld h content s
      → get_piece_size (h.torrent key) piece ≡ some size
      → 0 < size
      → (found : Option CachedPieceEntry) × (s' : DiskIoThread F) × (find_write_cache_piece h s key
            piece
          ≡ some (found, s'))
        × IsHeld h content s'
        × ((found ≡ none)
            ⊎ ((e : CachedPieceEntry) × (found ≡ some e)
                × IsUnfinished h content e
                × (e.key ≡ key)
                × (e.piece ≡ piece)
                × (find_entry e.key e.piece s'.unfinished_write_cache ≡ some e)))
        × (length s.unfinished_write_cache + length s.finished_write_cache < s.write_cache_limit
            → found ≢ none)
  unfolding find_write_cache_piece
  find_write_cache_piece_lem w s key piece size i e pos =
      elim (Option-cases (find_entry key piece s.unfinished_write_cache)) [
        | inl missing ↦
            elim (Bool-cases (
              leb s.write_cache_limit
                (length s.unfinished_write_cache + length s.finished_write_cache))) [
                  | inl full ↦
                      (none, s, rw (missing, full) refl, i, inl refl, λ room. absurd (ground arith))
                  | inr room ↦
                      let (new, made, hp, ek, ep, open_lem) =
                        new_piece_entry_lem h content w key piece size e pos in
                      (
                        some new,
                        record s { unfinished_write_cache = new ∷ s.unfinished_write_cache },
                        rw (missing, room, made) refl,
                        record {
                          unfinished = ((hp, open_lem), i.unfinished);
                          finished = i.finished;
                          bounded = ground arith;
                        },
                        inr (
                          new,
                          refl,
                          (hp, open_lem),
                          ek,
                          ep,
                          find_entry_first new s.unfinished_write_cache,
                        ),
                        λ _ eq. cc,
                      )
                ]
        | inr there ↦
            let (old, found) = there in
            let (u, ek, ep) =
              find_entry-All (IsUnfinished h content) key piece s.unfinished_write_cache old found
                i.unfinished in
            let again : find_entry old.key old.piece s.unfinished_write_cache ≡ some old =
              ap (λ n. find_entry n old.piece s.unfinished_write_cache) ek
              ∙ ap (λ n. find_entry key n s.unfinished_write_cache) ep
              ∙ found in
            (some old, s, rw found refl, i, inr (old, refl, u, ek, ep, again), λ _ eq. cc)
      ]

  cache_data_at :
      IsWorkable h content
      → (s : DiskIoThread F) (e : CachedPieceEntry) (job : WriteDataJob) (size : ℕ)
      → IsHeld h content s
      → IsUnfinished h content e
      → find_entry e.key e.piece s.unfinished_write_cache ≡ some e
      → e.key ≡ job.torrent
      → e.piece ≡ job.piece
      → IsHonest h content job size
      → (s' : DiskIoThread F) × (cache_data h s e job ≡ some (true, s')) × IsHeld h content s'
  cache_data_at w s e job size i u found ek ep hon =
      let same : ◌≡◌ {A = WriteDataJob}
          (record { torrent = e.key; piece = e.piece; offset = job.offset; buf = job.buf }) job =
        λ j. record { torrent = ek j; piece = ep j; offset = job.offset; buf = job.buf } in
      let hon' = subst (λ k. IsHonest h content k size) (sym same) hon in
      let (s', e', i') = cache_data_lem w s e job.offset job.buf size i u found hon' in
      (s', subst (λ k. cache_data h s e k ≡ some (true, s')) same e', i')

  -- Where torrents, pool and pieces are workable and the cache holds what it should, a write of bytes of a piece inside one block, of a piece whose number fits an int, returns, meets no assertion and copies within bounds, and leaves a cache that holds what it should; while the cache is not full it succeeds.
  pub write_data_lem :
      IsWorkable h content
      → (s : DiskIoThread F) (job : WriteDataJob) (size : ℕ) → IsHeld h content s
      → IsHonest h content job size
      → (r : Bool) × (s' : DiskIoThread F) × (write_data h s job ≡ some (r, s'))
        × IsHeld h content s'
        × (length s.unfinished_write_cache + length s.finished_write_cache < s.write_cache_limit
            → r ≡ true)
  unfolding write_data
  write_data_lem w s job size i hon =
      let counted : DiskIoThread F = record s {
        cache_status = record s.cache_status {
          blocks_write = u64 (s.cache_status.blocks_write + 1);
        };
      } in
      let i1 : IsHeld h content counted = record {
        unfinished = i.unfinished;
        finished = i.finished;
        bounded = i.bounded;
      } in
      let (found, s', looked, i', cases, room) =
        find_write_cache_piece_lem w counted job.torrent job.piece size i1 hon.sized
          (omega (arith, hon.fits, hon.some_bytes)) in
      elim cases [
        | inl missing ↦
            let direct : DiskIoThread F = record s' {
              cache_status = record s'.cache_status {
                write_to_disk_directly = u64 (s'.cache_status.write_to_disk_directly + 1);
              };
            } in
            let i2 : IsHeld h content direct = record {
              unfinished = i'.unfinished;
              finished = i'.finished;
              bounded = i'.bounded;
            } in
            let (r, s'', wrote, i'') = write_data_to_disk_lem w direct job size i2 hon in
            (r, s'', rw looked (rw missing wrote), i'', λ l. absurd (room l missing))
        | inr there ↦
            let (e, is, u, ek, ep, again) = there in
            let (s'', cached, i'') = cache_data_at w s' e job size i' u again ek ep hon in
            (true, s'', rw looked (rw is cached), i'', λ _. refl)
      ]
