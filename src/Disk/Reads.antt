-- ===== src/Disk/Reads.antt =====
-- rcs/src/frame/disk_io_thread.cpp: `ReadData`, on a file that fails nowhere.
use resource_cache.Common.{
  All, All-append, refl, sym, ap, subst, ◌∙◌, ℕ, ◌+◌, ◌-◌, ◌*◌, ◌^◌, ◌≤◌, ◌<◌, ◌≡◌, true, some,
  List, [], ◌∷◌, ◌++◌, length, length-append, drop, ltb, ◌==◌, arith, Bool-cases, Option-cases, inl,
  inr, le→leb, if_yes, ltb→lt,
}
use resource_cache.Torrent.{u64, get_piece_size}
use resource_cache.Disk.Pieces.{
  CachedPieceEntry, DiskIoThread, Host, find_entry, new_piece_entry, put_file,
}
use resource_cache.Disk.ReadCache.{
  ReadDataJob, erase_begin, get_available_read_cache_piece, read_blocks, read_piece_to_cache,
  get_read_cache_entry,
}
use resource_cache.Disk.Held.{Holds}
use resource_cache.Disk.Entries.{IsWorkable, new_piece_entry_lem}
use resource_cache.Disk.Containers.{find_entry-All}
use resource_cache.Disk.Files.{View, bytes_from, IsReliable, bytes_from_same}
use resource_cache.Disk.Loaded.{all_full, read_blocks_lem}

==_self : (n : ℕ) → (n == n) ≡ true
==_self n = ground arith

some_eq : {n m : ℕ} → some n ≡ some m → n ≡ m
some_eq e = cc

-- What holds of an entry's key and piece holds of equal numbers.
at_place : (P : ℕ → ℕ → Type 0) {a b c d : ℕ} → a ≡ b → c ≡ d → P a c → P b d
at_place P {a} {b} {c} {d} e e' p = subst (λ k. P k d) e (subst (λ n. P a n) e' p)

module _ {F : Type 0} (h : Host F) (content : ℕ → ℕ → List ℕ) where
  -- All bytes of a piece are in the entry.
  abbrev pub IsReadable : CachedPieceEntry → Type 0
  IsReadable e = Holds (h.torrent e.key).block_size (content e.key e.piece) 0 (all_full e.blocks)

  -- What is in the read cache is right, and there is room for an entry.
  pub record IsCurrent (s : DiskIoThread F) : Type 0 where
    pub readable : All IsReadable s.read_cache_set
    pub bounded : length s.read_cache_set ≤ s.read_cache_limit
    pub limit : 0 < s.read_cache_limit

  -- The piece's bytes are at their place in the file.
  abbrev pub IsStored : View F → F → ℕ → ℕ → Type 0
  IsStored view f key piece =
      (bytes_from (view.byte_at f) (piece * (h.torrent key).piece_size) (length (content key piece))
        ≡ content key piece)
      × (piece * (h.torrent key).piece_size + length (content key piece) ≤ view.size f)

  erase_begin-All :
      (es : List CachedPieceEntry) → All IsReadable es → All IsReadable (erase_begin es)
  erase_begin-All [] a = a
  erase_begin-All (e ∷ es) a = a.1

  available_lem :
      (s : DiskIoThread F) (job : ReadDataJob) (e : CachedPieceEntry)
      → IsCurrent s
      → new_piece_entry h job.torrent job.piece ≡ some e
      → (set : List CachedPieceEntry) × (get_available_read_cache_piece h s job ≡ some (e, set))
        × All IsReadable set
        × (length set + 1 ≤ s.read_cache_limit)
  unfolding get_available_read_cache_piece
  available_lem s job e c made =
      let fits = le→leb (length s.read_cache_set) s.read_cache_limit c.bounded in
      elim (Bool-cases (length s.read_cache_set == s.read_cache_limit)) [
        | inl full ↦
            let some_in : ltb 0 (length s.read_cache_set) ≡ true = ground (arith, c.limit) in
            (
              erase_begin s.read_cache_set,
              rw (fits, full, some_in, made) refl,
              erase_begin-All s.read_cache_set c.readable,
              erase_begin_length s.read_cache_set (ltb→lt _ _ some_in) c.bounded,
            )
        | inr room ↦
            (s.read_cache_set, rw (fits, room, made) refl, c.readable, ground (arith, c.bounded))
      ]
    where
      erase_begin_length :
          (es : List CachedPieceEntry)
          → 0 < length es
          → length es ≤ s.read_cache_limit
          → length (erase_begin es) + 1 ≤ s.read_cache_limit
      erase_begin_length [] p l = absurd (omega arith)
      erase_begin_length (x ∷ xs) p l = omega arith

  stored_at :
      (view : View F) (f : F) (key piece size : ℕ)
      → length (content key piece) ≡ size
      → IsStored view f key piece
      → bytes_from (view.byte_at f) (piece * (h.torrent key).piece_size) (size - 0)
        ≡ drop 0 (content key piece)
  stored_at view f key piece size whole stored =
      ap (bytes_from (view.byte_at f) (piece * (h.torrent key).piece_size)) (omega (arith, whole))
      ∙ stored.0

  module _ (w : IsWorkable h content) (view : View F) (r : IsReliable h.file_oper view) where
    read_piece_to_cache_lem :
        (s : DiskIoThread F) (job : ReadDataJob) (size : ℕ)
        → IsCurrent s
        → get_piece_size (h.torrent job.torrent) job.piece ≡ some size
        → 0 < size
        → job.piece < 2 ^ 31
        → IsStored view (s.files job.torrent) job.torrent job.piece
        → (e : CachedPieceEntry) × (s' : DiskIoThread F) × (read_piece_to_cache h s job
            ≡ some (some e, s'))
          × ((e.key ≡ job.torrent) × (e.piece ≡ job.piece))
          × IsReadable e
          × IsCurrent s'
          × IsStored view (s'.files job.torrent) job.torrent job.piece
    unfolding read_piece_to_cache
    read_piece_to_cache_lem s job size c sized pos few stored =
        let key = job.torrent in
        let piece = job.piece in
        let (e0, made, hp, ek, ep, _) = new_piece_entry_lem h content w key piece size sized pos in
        let (set, got, readable, room) = available_lem s job e0 c made in
        let bytes = content key piece in
        let whole = w.pieces key piece size sized in
        let cut : Holds (h.torrent key).block_size bytes 0 e0.blocks =
          at_place (λ k n. Holds (h.torrent k).block_size (content k n) 0 e0.blocks) ek ep hp.cut in
        let same : e0.piece_size ≡ size = some_eq (
          sym (at_place (λ k n. get_piece_size (h.torrent k) n ≡ some e0.piece_size) ek ep hp.size)
          ∙ sized) in
        let (bs', f', read, holds, size', bytes') =
          read_blocks_lem h view r key piece size bytes (w.valid key) sized whole few 0 0
            (piece * (h.torrent key).piece_size) e0.blocks (s.files key) cut (omega arith)
            (omega arith) (stored_at view (s.files key) key piece size whole stored)
            (omega (arith, stored.1)) in
        let e : CachedPieceEntry = record e0 { blocks = bs' } in
        let s' : DiskIoThread F = record s {
          read_cache_set = set ++ (e ∷ []);
          files = put_file key f' s.files;
        } in
        let right : IsReadable e =
          at_place (λ k n. Holds (h.torrent k).block_size (content k n) 0 (all_full bs')) (sym ek)
            (sym ep) holds in
        let kept : IsStored view f' key piece = (
          bytes_from_same (view.byte_at f') (view.byte_at (s.files key))
                (piece * (h.torrent key).piece_size) (length bytes) (λ i _ _. bytes' i)
              ∙ stored.0,
          omega (arith, stored.1),
        ) in
        (
          e,
          s',
          rw (got, ap (λ n. read_blocks h key piece n 0 e0.blocks (s.files key)) same ∙ read) refl,
          (ek, ep),
          right,
          record {
            readable = All-append IsReadable set (e ∷ []) readable (right, tt);
            bounded = omega (arith, length-append set (e ∷ []));
            limit = c.limit;
          },
          subst (λ g. IsStored view g key piece) (sym (if_yes _ _ _ (==_self key))) kept,
        )

    pub get_read_cache_entry_lem :
        (s : DiskIoThread F) (job : ReadDataJob) (size : ℕ)
        → IsCurrent s
        → get_piece_size (h.torrent job.torrent) job.piece ≡ some size
        → 0 < size
        → job.piece < 2 ^ 31
        → IsStored view (s.files job.torrent) job.torrent job.piece
        → (e : CachedPieceEntry) × (s' : DiskIoThread F) × (get_read_cache_entry h s job
            ≡ some (e, s'))
          × Holds
              (h.torrent job.torrent).block_size
              (content job.torrent job.piece)
              0
              (all_full e.blocks)
          × IsCurrent s'
          × IsStored view (s'.files job.torrent) job.torrent job.piece
    unfolding get_read_cache_entry
    get_read_cache_entry_lem s job size c sized pos few stored =
        let counted : DiskIoThread F = record s {
          cache_status = record s.cache_status {
            blocks_read = u64 (s.cache_status.blocks_read + 1);
          };
        } in
        let c1 : IsCurrent counted = record {
          readable = c.readable;
          bounded = c.bounded;
          limit = c.limit;
        } in
        elim (Option-cases (find_entry job.torrent job.piece s.read_cache_set)) [
          | inl missing ↦
              let (e, s', read, (ek, ep), right, c', stored') =
                read_piece_to_cache_lem counted job size c1 sized pos few stored in
              (
                e,
                record s' {
                  cache_status = record s'.cache_status { reads = u64 (s'.cache_status.reads + 1) };
                },
                rw missing (rw read refl),
                at_place (λ k n. Holds (h.torrent k).block_size (content k n) 0 (all_full e.blocks))
                    ek ep right,
                record { readable = c'.readable; bounded = c'.bounded; limit = c'.limit },
                stored',
              )
          | inr there ↦
              let (e, found) = there in
              let (right, ek, ep) =
                find_entry-All IsReadable job.torrent job.piece s.read_cache_set e found
                  c.readable in
              (
                e,
                record counted {
                  cache_status = record counted.cache_status {
                    blocks_read_hit = u64 (counted.cache_status.blocks_read_hit + 1);
                  };
                },
                rw found refl,
                at_place (λ k n. Holds (h.torrent k).block_size (content k n) 0 (all_full e.blocks))
                    ek ep right,
                record { readable = c.readable; bounded = c.bounded; limit = c.limit },
                stored,
              )
        ]
