-- ===== src/Torrent.antt =====
-- rcs/src/frame/torrent.cpp: how a torrent is cut into pieces and blocks.
-- Sizes are uint64, so sums wrap at 2^64; a size that goes through `int` must fit in 31 bits. Division
-- by a size of zero stops the process, as a failed `BC_ASSERT` does.
pub mod Blocks
pub mod Lifecycle
pub mod Inactive
use resource_cache.Common.{
  ℕ, ◌+◌, ◌-◌, ◌*◌, ◌/◌, ◌%◌, ◌^◌, Bool, true, false, ◌&&◌, ◌||◌, not, Option, none, some, List,
  length, ltb, leb, ◌==◌, if◌then◌else◌, ◌>>=◌, ◌>>◌, bc_assert,
}

pub record TorrentInfo : Type 0 where
  pub total_size : ℕ
  pub piece_size : ℕ
  pub block_size : ℕ
  pub piece_map : List Bool

pub record Torrent : Type 0 where
  pub torrent_info : TorrentInfo
  pub open torrent_info use *
  pub is_ready : Bool

abbrev pub u64 : ℕ → ℕ
u64 n = n % 2 ^ 64

-- `a - b` on uint64.
abbrev pub sub64 : ℕ → ℕ → ℕ
sub64 a b = (a + (2 ^ 64 - b % 2 ^ 64)) % 2 ^ 64

-- `CALC_FULL_MULT(total, base)` of pub/inc/bc_util.hpp: the parts of `base` that cover `total`.
unfoldable pub calc_full_mult : ℕ → ℕ → Option ℕ
calc_full_mult total base = do bc_assert (ltb 0 base); some (sub64 (u64 (total + base)) 1 / base)

unfoldable pub get_piece_num : Torrent → Option ℕ
get_piece_num t = do bc_assert t.is_ready; some (length t.piece_map)

unfoldable pub get_common_piece_size : Torrent → Option ℕ
get_common_piece_size t = do bc_assert t.is_ready; some t.piece_size

unfoldable pub get_common_block_size : Torrent → Option ℕ
get_common_block_size t = do bc_assert t.is_ready; some t.block_size

-- `int diff = ...; BC_ASSERT(diff >= 0)`: the low 32 bits, whose top bit must be clear.
abbrev pub to_int : ℕ → Option ℕ
to_int n = bc_assert (ltb (n % 2 ^ 32) (2 ^ 31)) >> some (n % 2 ^ 32)

unfoldable pub get_piece_size : Torrent → ℕ → Option ℕ
get_piece_size t index = do
  bc_assert t.is_ready
  piece_num ← calc_full_mult t.total_size t.piece_size
  bc_assert (ltb index piece_num)
  if not (index == piece_num - 1)
      then some t.piece_size
      else to_int (sub64 t.total_size (u64 ((piece_num - 1) * t.piece_size)))

unfoldable pub get_block_size : Torrent → ℕ → ℕ → Option ℕ
get_block_size t piece block = do
  bc_assert t.is_ready
  bc_assert (ltb piece (length t.piece_map))
  piece_size ← get_piece_size t piece
  num_blocks ← calc_full_mult piece_size t.block_size
  bc_assert (ltb block num_blocks)
  if ltb (block + 1) num_blocks || piece_size % t.block_size == 0
      then some t.block_size
      else some (piece_size % t.block_size)

unfoldable pub get_block_num : Torrent → ℕ → Option ℕ
get_block_num t piece = do
  bc_assert t.is_ready
  bc_assert (leb piece (length t.piece_map))
  piece_size ← get_piece_size t piece
  calc_full_mult piece_size t.block_size

unfoldable pub get_last_piece_size : Torrent → Option ℕ
get_last_piece_size t = do
  piece_num ← get_piece_num t
  last_piece ← to_int (sub64 piece_num 1)
  get_piece_size t last_piece

unfoldable pub get_last_block_size : Torrent → ℕ → Option ℕ
get_last_block_size t piece = do
  bc_assert t.is_ready
  bc_assert (leb piece (length t.piece_map))
  block_num ← get_block_num t piece
  last_block ← to_int block_num
  get_block_size t piece last_block
