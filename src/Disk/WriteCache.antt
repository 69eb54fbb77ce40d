-- ===== src/Disk/WriteCache.antt =====
-- rcs/src/frame/disk_io_thread.cpp: the cache of the pieces that are being downloaded, up to their
-- verification and the write to disk.
use resource_cache.Common.{
  ℕ, ◌+◌, ◌/◌, ◌%◌, Bool, true, ◌&&◌, ◌||◌, not, Option, none, some, List, [], ◌∷◌, ◌++◌, length,
  get_elem?, set, ltb, leb, ◌==◌, if◌then◌else◌, ◌>>=◌, ◌>>◌, bc_assert,
}
use resource_cache.Torrent.{u64, get_common_block_size}
use resource_cache.Disk.Storage.{io_write_data}
use resource_cache.Disk.Pieces.{
  CachedBlockEntry, CachedPieceEntry, DiskIoThread, Host, memcpy, find_entry, erase_entry,
  replace_entry, new_piece_entry, put_file,
}

pub record WriteDataJob : Type 0 where
  pub torrent : ℕ
  pub piece : ℕ
  pub offset : ℕ
  -- the first `len` bytes of the job's buffer
  pub buf : List ℕ

-- The job's bytes are put into the block; the first part is whether that finishes the block.
unfoldable pub fill_block :
    CachedPieceEntry → ℕ → CachedBlockEntry → List ℕ → Option (Bool × CachedPieceEntry)
fill_block e block_index b bytes = do
  buf ← memcpy b.buf b.cursor bytes
  let cursor = u64 (b.cursor + length bytes)
  let finished = cursor == b.block_size
  let b' : CachedBlockEntry = record {
    buf = buf;
    block_size = b.block_size;
    cursor = cursor;
    finished = finished || b.finished;
  }
  some (
    finished,
    record e {
      finished_blocks = if finished then u64 (e.finished_blocks + 1) else e.finished_blocks;
      blocks = set e.blocks block_index b';
    },
  )

-- An entry whose last block is finished moves to the other container.
unfoldable pub store_piece :
    {F : Type 0} → DiskIoThread F → Bool → CachedPieceEntry → DiskIoThread F
store_piece s block_finished e =
    if block_finished && (e.finished_blocks == e.num_blocks)
    then record s {
      unfinished_write_cache = erase_entry e.key e.piece s.unfinished_write_cache;
      finished_write_cache = s.finished_write_cache ++ (e ∷ []);
    }
    else record s { unfinished_write_cache = replace_entry e s.unfinished_write_cache }

abbrev found_or :
    {F : Type 0}
    → Option CachedPieceEntry
    → DiskIoThread F
    → Option (Option CachedPieceEntry × DiskIoThread F)
    → Option (Option CachedPieceEntry × DiskIoThread F)
found_or none s next = next
found_or (some e) s next = some (some e, s)

module _ {F : Type 0} (h : Host F) where
  -- The entry for the piece, a new one if there is none, and none if the cache is full.
  unfoldable pub find_write_cache_piece :
      DiskIoThread F → ℕ → ℕ → Option (Option CachedPieceEntry × DiskIoThread F)
  find_write_cache_piece s key piece =
      let insert = (do
        e ← new_piece_entry h key piece
        some (some e, record s { unfinished_write_cache = e ∷ s.unfinished_write_cache })) in
      let is_full =
        leb s.write_cache_limit (length s.unfinished_write_cache + length s.finished_write_cache) in
      found_or (find_entry key piece s.unfinished_write_cache) s
        (if is_full then some (none, s) else insert)

  unfoldable pub write_data_to_disk : DiskIoThread F → WriteDataJob → Option (Bool × DiskIoThread F)
  write_data_to_disk s job = do
    (result, file) ←
        io_write_data h.file_oper (h.torrent job.torrent) job.buf job.piece job.offset
          (s.files job.torrent)
    some (
      not (result == 0 || not (result == length job.buf)),
      record s { files = put_file job.torrent file s.files },
    )

  unfoldable pub cache_data :
      DiskIoThread F → CachedPieceEntry → WriteDataJob → Option (Bool × DiskIoThread F)
  cache_data s e job = do
    block_size ← get_common_block_size (h.torrent job.torrent)
    bc_assert (ltb 0 block_size)
    b ← get_elem? e.blocks (job.offset / block_size)
    let write = (do
      (finished, e') ← fill_block e (job.offset / block_size) b job.buf
      some (true, store_piece s finished e'))
    if job.offset % block_size == b.cursor then write else some (true, s)

  abbrev pub cache_or_disk :
      Option CachedPieceEntry → DiskIoThread F → WriteDataJob → Option (Bool × DiskIoThread F)
  cache_or_disk (some e) s job = cache_data s e job
  cache_or_disk none s job =
      write_data_to_disk
        (record s {
          cache_status = record s.cache_status {
            write_to_disk_directly = u64 (s.cache_status.write_to_disk_directly + 1);
          };
        })
        job

  unfoldable pub write_data : DiskIoThread F → WriteDataJob → Option (Bool × DiskIoThread F)
  write_data s job = do
    let counted = record s {
      cache_status = record s.cache_status { blocks_write = u64 (s.cache_status.blocks_write + 1) };
    }
    (found, s') ← find_write_cache_piece counted job.torrent job.piece
    cache_or_disk found s' job

abbrev pub without_key : ℕ → List CachedPieceEntry → List CachedPieceEntry
without_key key [] = []
without_key key (e ∷ es) = let rest = without_key key es in if e.key == key then rest else e ∷ rest

unfoldable pub clear_write_cache : {F : Type 0} → DiskIoThread F → ℕ → DiskIoThread F
clear_write_cache s key = record s {
  finished_write_cache = without_key key s.finished_write_cache;
  unfinished_write_cache = without_key key s.unfinished_write_cache;
}
