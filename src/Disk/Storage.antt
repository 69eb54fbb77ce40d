-- ===== src/Disk/Storage.antt =====
-- rcs/src/frame/storage.cpp, and the calls of it in rcs/src/frame/io_oper_manager.cpp. The file of a
-- torrent is `File` of pub/file.cpp, a copy of another project's, and so a parameter.
use resource_cache.Common.{
  ℕ, ◌+◌, ◌-◌, ◌*◌, ◌%◌, ◌^◌, Bool, ◌||◌, not, Option, none, some, List, [], length, ltb, ◌==◌,
  if◌then◌else◌, ◌>>=◌, ◌>>◌, bc_assert,
}
use resource_cache.Torrent.{Torrent, u64, to_int, get_piece_size, get_common_piece_size}

-- Each operation returns whether it set an error, and the number that it returns.
pub record FileOper (F : Type 0) : Type 0 where
  pub seek : ℕ → F → Bool × ℕ × F
  pub read : ℕ → F → Bool × ℕ × List ℕ × F
  pub write : List ℕ → F → Bool × ℕ × Unit {0} × F

-- `static_cast<std::size_t>` of an `int` that was given a uint64.
abbrev pub through_int : ℕ → ℕ
through_int n = if ltb (n % 2 ^ 32) (2 ^ 31) then n % 2 ^ 32 else n % 2 ^ 32 + (2 ^ 64 - 2 ^ 32)

module _ {F : Type 0} (file_oper : FileOper F) (t : Torrent) where
  -- What follows the `Seek`, with `oper` the read or the write.
  abbrev pub operate : {A : Type 0} → ℕ → (F → Bool × ℕ × A × F) → F → Option A × F
  operate size oper file =
      let (ec, real_types, a, file') = oper file in
      if ec || not (real_types == size) then (none, file') else (some a, file')

  abbrev pub seek_operate : {A : Type 0} → ℕ → ℕ → (F → Bool × ℕ × A × F) → F → Option A × F
  seek_operate file_offset size oper file =
      let (ec, seek_pos, file') = file_oper.seek file_offset file in
      if ec || not (seek_pos == file_offset) then (none, file') else operate size oper file'

  -- `none` for `return false`, beside the file.
  unfoldable pub read_write_single_file_impl :
      {A : Type 0} → ℕ → ℕ → ℕ → (F → Bool × ℕ × A × F) → F → Option (Option A × F)
  read_write_single_file_impl slot offset size oper file = do
    piece_size ← get_piece_size t slot
    common_piece_size ← get_common_piece_size t
    if ltb piece_size (u64 (offset + size))
        then some (none, file)
        else some (seek_operate (u64 (slot * common_piece_size + offset)) size oper file)

  -- `IoOperManager::ReadData`: what it returns and the bytes that it has put into the buffer.
  abbrev pub read_result : ℕ → Option (List ℕ) × F → ℕ × List ℕ × F
  read_result size (none, file) = (0, [], file)
  read_result size (some bytes, file) = (size, bytes, file)

  unfoldable pub io_read_data : ℕ → ℕ → ℕ → F → Option (ℕ × List ℕ × F)
  io_read_data piece_index offset size file =
      read_write_single_file_impl (through_int piece_index) (through_int offset) (through_int size)
        (file_oper.read (through_int size)) file
      >>= λ r. some (read_result (through_int size) r)

  -- `IoOperManager::WriteData`, of the bytes of a buffer.
  abbrev pub write_result : ℕ → Option (Unit {0}) × F → ℕ × F
  write_result size (none, file) = (0, file)
  write_result size (some u, file) = (size, file)

  unfoldable pub io_write_data : List ℕ → ℕ → ℕ → F → Option (ℕ × F)
  io_write_data buf piece_index offset file = do
    size ← to_int (length buf)
    bc_assert (ltb 0 size)
    offset' ← to_int offset
    piece ← to_int piece_index
    r ← read_write_single_file_impl piece offset' size (file_oper.write buf) file
    some (write_result size r)
