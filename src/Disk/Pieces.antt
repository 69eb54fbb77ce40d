-- ===== src/Disk/Pieces.antt =====
-- rcs/src/frame/disk_io_thread.cpp: the state of `DiskIoThread` and its entries.
use resource_cache.Common.{
  ℕ, zero, suc, ◌+◌, Bool, false, ◌&&◌, Option, none, some, List, [], ◌∷◌, ◌++◌, length, take, drop,
  leb, ◌==◌, if◌then◌else◌, ◌>>=◌, ◌>>◌, bc_assert,
}
use resource_cache.Torrent.{
  Torrent, calc_full_mult, get_piece_size, get_common_block_size, get_block_size,
}
use resource_cache.Disk.Storage.{FileOper}

pub record CachedBlockEntry : Type 0 where
  pub buf : List ℕ
  pub block_size : ℕ
  pub cursor : ℕ
  pub finished : Bool

-- `last_use` is left out: it orders the read cache only when an entry is inserted, and then, since
-- time does not go back, puts it last. A later change of it, behind the container's back, moves
-- nothing.
pub record CachedPieceEntry : Type 0 where
  pub key : ℕ
  pub piece : ℕ
  pub piece_size : ℕ
  pub num_blocks : ℕ
  pub finished_blocks : ℕ
  pub verified : Bool
  pub blocks : List CachedBlockEntry

pub record CacheStatus : Type 0 where
  pub reads : ℕ
  pub writes : ℕ
  pub blocks_read : ℕ
  pub blocks_write : ℕ
  pub blocks_read_hit : ℕ
  pub write_to_disk_directly : ℕ

-- `files` is the file of each torrent, which its `FileStorage` keeps.
pub record DiskIoThread (F : Type 0) : Type 0 where
  pub read_cache_set : List CachedPieceEntry
  pub unfinished_write_cache : List CachedPieceEntry
  pub finished_write_cache : List CachedPieceEntry
  pub cache_status : CacheStatus
  pub read_cache_limit : ℕ
  pub write_cache_limit : ℕ
  pub files : ℕ → F

-- The two classes of torrents.
pub data Protocol : Type 0 where
  bt pps : Protocol

-- What the thread works with: the files' operations, the torrents, the class of each, the hash of each
-- of their pieces, the hash function, and what a buffer holds that the pool has just given out.
pub record Host (F : Type 0) : Type 0 where
  pub file_oper : FileOper F
  pub torrent : ℕ → Torrent
  pub protocol : ℕ → Protocol
  pub piece_hash : ℕ → List ℕ
  pub get_sha1 : List ℕ → ℕ
  pub alloc_data_buffer : List ℕ

-- `memcpy` to an offset of a buffer; past its end, `none`.
unfoldable pub memcpy : List ℕ → ℕ → List ℕ → Option (List ℕ)
memcpy buf offset bytes =
    bc_assert (leb (offset + length bytes) (length buf))
    >> some (take offset buf ++ (bytes ++ drop (offset + length bytes) buf))

-- `CachedPieceIndexEqual`.
abbrev pub is_piece : ℕ → ℕ → CachedPieceEntry → Bool
is_piece key piece e = (e.key == key) && (e.piece == piece)

unfoldable pub find_entry : ℕ → ℕ → List CachedPieceEntry → Option CachedPieceEntry
find_entry key piece [] = none
find_entry key piece (e ∷ es) =
    let rest = find_entry key piece es in if is_piece key piece e then some e else rest

unfoldable pub erase_entry : ℕ → ℕ → List CachedPieceEntry → List CachedPieceEntry
erase_entry key piece [] = []
erase_entry key piece (e ∷ es) =
    let rest = erase_entry key piece es in if is_piece key piece e then es else e ∷ rest

-- An entry changed through its pointer.
unfoldable pub replace_entry : CachedPieceEntry → List CachedPieceEntry → List CachedPieceEntry
replace_entry new [] = []
replace_entry new (e ∷ es) =
    let rest = replace_entry new es in if is_piece new.key new.piece e then new ∷ es else e ∷ rest

-- The loop of the constructor of `CachedPieceEntry`.
unfoldable pub new_blocks : List ℕ → Torrent → ℕ → ℕ → ℕ → Option (List CachedBlockEntry)
new_blocks fresh t piece block_index zero = some []
new_blocks fresh t piece block_index (suc left) = do
  size ← get_block_size t piece block_index
  blocks ← new_blocks fresh t piece (block_index + 1) left
  some (record { buf = fresh; block_size = size; cursor = 0; finished = false } ∷ blocks)

unfoldable pub new_piece_entry : {F : Type 0} → Host F → ℕ → ℕ → Option CachedPieceEntry
new_piece_entry h key piece = do
  piece_size ← get_piece_size (h.torrent key) piece
  common_block_size ← get_common_block_size (h.torrent key)
  num_blocks ← calc_full_mult piece_size common_block_size
  blocks ← new_blocks h.alloc_data_buffer (h.torrent key) piece 0 num_blocks
  some (record {
    key = key;
    piece = piece;
    piece_size = piece_size;
    num_blocks = num_blocks;
    finished_blocks = 0;
    verified = false;
    blocks = blocks;
  })

-- The files after a call that has used that of one torrent.
abbrev pub put_file : {F : Type 0} → ℕ → F → (ℕ → F) → ℕ → F
put_file key file files k = if k == key then file else files k
