-- ===== src/Disk/ReadCache.antt =====
-- rcs/src/frame/disk_io_thread.cpp: the cache of the pieces that are read.
use resource_cache.Common.{
  ℕ, ◌+◌, ◌-◌, ◌/◌, ◌%◌, ◌^◌, true, ◌||◌, Option, none, some, List, [], ◌∷◌, ◌++◌, length, take,
  drop, ltb, leb, ◌==◌, if◌then◌else◌, ◌>>=◌, ◌>>◌, bc_assert,
}
use resource_cache.Torrent.{u64, get_piece_size, get_common_block_size}
use resource_cache.Disk.Storage.{io_read_data}
use resource_cache.Disk.Pieces.{
  CachedBlockEntry, CachedPieceEntry, DiskIoThread, Host, memcpy, find_entry, new_piece_entry,
  put_file,
}

-- The buffer that `ReadData` allots is the result's.
pub record ReadDataJob : Type 0 where
  pub torrent : ℕ
  pub piece : ℕ
  pub offset : ℕ
  pub len : ℕ

-- The entry that was inserted first.
abbrev pub erase_begin : List CachedPieceEntry → List CachedPieceEntry
erase_begin [] = []
erase_begin (e ∷ es) = es

abbrev pub with_block :
    CachedBlockEntry → Option (List CachedBlockEntry) → Option (List CachedBlockEntry)
with_block b none = none
with_block b (some bs) = some (b ∷ bs)

abbrev pub with_blocks : CachedPieceEntry → Option (List CachedBlockEntry) → Option CachedPieceEntry
with_blocks e none = none
with_blocks e (some bs) = some (record e { blocks = bs })

abbrev pub or_else : Option CachedPieceEntry → CachedPieceEntry → CachedPieceEntry
or_else none e = e
or_else (some e') e = e'

-- `memcpy` out of a buffer; past its end, `none`.
unfoldable pub slice : List ℕ → ℕ → ℕ → Option (List ℕ)
slice buf offset len =
    bc_assert (leb (offset + len) (length buf)) >> some (take len (drop offset buf))

-- The loop of `TryReadFromCache`, over the blocks from the first one read on. Each turn writes to the
-- front of the buffer: `write_offset` stays 0.
unfoldable pub copy_blocks : ℕ → ℕ → ℕ → List CachedBlockEntry → List ℕ → Option (List ℕ)
copy_blocks block_size left_bytes read_offset [] buf = bc_assert (left_bytes == 0) >> some buf
copy_blocks block_size left_bytes read_offset (b ∷ bs) buf =
    let read_bytes =
      if ltb block_size (u64 (left_bytes + read_offset))
      then block_size - read_offset
      else left_bytes in
    let copy = (do
      bytes ← slice b.buf read_offset read_bytes
      buf' ← memcpy buf 0 bytes
      copy_blocks block_size (left_bytes - read_bytes) 0 bs buf') in
    if left_bytes == 0 then some buf else copy

-- `int left_bytes = read_job->len`; below zero, the loop makes no turn.
abbrev pub as_left_bytes : ℕ → ℕ
as_left_bytes len = if ltb (len % 2 ^ 32) (2 ^ 31) then len % 2 ^ 32 else 0

abbrev pub cached_or :
    {F : Type 0}
    → Option CachedPieceEntry
    → DiskIoThread F
    → Option (CachedPieceEntry × DiskIoThread F)
    → Option (CachedPieceEntry × DiskIoThread F)
cached_or none s read = read
cached_or (some e) s read = some (
  e,
  record s {
    cache_status = record s.cache_status {
      blocks_read_hit = u64 (s.cache_status.blocks_read_hit + 1);
    };
  },
)

module _ {F : Type 0} (h : Host F) where
  unfoldable pub get_available_read_cache_piece :
      DiskIoThread F → ReadDataJob → Option (CachedPieceEntry × List CachedPieceEntry)
  get_available_read_cache_piece s job = do
    bc_assert (leb (length s.read_cache_set) s.read_cache_limit)
    let is_full = length s.read_cache_set == s.read_cache_limit
    bc_assert (if is_full then ltb 0 (length s.read_cache_set) else true)
    e ← new_piece_entry h job.torrent job.piece
    some (e, if is_full then erase_begin s.read_cache_set else s.read_cache_set)

  -- The loop of `ReadPieceToCache`, from a block on; none if a read fails.
  unfoldable pub read_blocks :
      ℕ → ℕ → ℕ → ℕ → List CachedBlockEntry → F → Option (Option (List CachedBlockEntry) × F)
  read_blocks key piece piece_size offset [] file = some (some [], file)
  read_blocks key piece piece_size offset (b ∷ bs) file = do
    (result, bytes, file') ← io_read_data h.file_oper (h.torrent key) piece offset b.block_size file
    buf ← memcpy b.buf 0 bytes
    let next = (do
      bc_assert (leb (u64 (offset + b.block_size)) piece_size)
      (rest, file'') ← read_blocks key piece piece_size (u64 (offset + b.block_size)) bs file'
      some (with_block (record b { buf = buf }) rest, file''))
    if result == 0 then some (none, file') else next

  -- The new entry is in the container, last, before it is read.
  unfoldable pub read_piece_to_cache :
      DiskIoThread F → ReadDataJob → Option (Option CachedPieceEntry × DiskIoThread F)
  read_piece_to_cache s job = do
    (e, set) ← get_available_read_cache_piece s job
    (blocks, file) ← read_blocks job.torrent job.piece e.piece_size 0 e.blocks (s.files job.torrent)
    some (
      with_blocks e blocks,
      record s {
        read_cache_set = set ++ (or_else (with_blocks e blocks) e ∷ []);
        files = put_file job.torrent file s.files;
      },
    )

  unfoldable pub get_read_cache_entry :
      DiskIoThread F → ReadDataJob → Option (CachedPieceEntry × DiskIoThread F)
  get_read_cache_entry s job =
      let counted : DiskIoThread F = record s {
        cache_status = record s.cache_status { blocks_read = u64 (s.cache_status.blocks_read + 1) };
      } in
      let read = (do
        (found, s') ← read_piece_to_cache counted job
        e ← found
        some (
          e,
          record s' {
            cache_status = record s'.cache_status { reads = u64 (s'.cache_status.reads + 1) };
          },
        )) in
      cached_or (find_entry job.torrent job.piece s.read_cache_set) counted read

  unfoldable pub try_read_from_cache :
      DiskIoThread F → ReadDataJob → List ℕ → Option (List ℕ × DiskIoThread F)
  try_read_from_cache s job buf = do
    (e, s') ← get_read_cache_entry s job
    block_size ← get_common_block_size (h.torrent job.torrent)
    bc_assert (ltb 0 block_size)
    buf' ←
        copy_blocks block_size (as_left_bytes job.len) (job.offset % block_size)
          (drop (job.offset / block_size) e.blocks) buf
    some (buf', s')

  -- The job's buffer beside the thread; none for `return false`.
  unfoldable pub read_data :
      DiskIoThread F → ReadDataJob → Option (Option (List ℕ) × DiskIoThread F)
  read_data s job = do
    piece_size ← get_piece_size (h.torrent job.torrent) job.piece
    block_size ← get_common_block_size (h.torrent job.torrent)
    let read = (do (buf, s') ← try_read_from_cache s job h.alloc_data_buffer; some (some buf, s'))
    let is_invalid = ltb piece_size (u64 (job.offset + job.len)) || ltb block_size job.len
    if is_invalid then some (none, s) else read
