-- ===== src/Disk/Stored.antt =====
-- rcs/src/frame/storage.cpp: reads and writes inside a piece, and files that keep what is written.
use resource_cache.Common.{
  refl, sym, ◌∙◌, ℕ, ◌+◌, ◌*◌, ◌%◌, ◌^◌, ◌≤◌, ◌<◌, ◌≡◌, Bool, false, some, List, length, ltb, arith,
  lt→ltb,
}
use resource_cache.Torrent.{Torrent, u64, get_piece_size, get_common_piece_size}
use resource_cache.Torrent.Blocks.{IsValid, get_piece_size_lem, get_piece_size-le, to_int_small}
use resource_cache.Disk.Storage.{
  FileOper, through_int, seek_operate, read_write_single_file_impl, read_result, io_read_data,
  write_result, io_write_data,
}

get_common_piece_size_lem : (t : Torrent) → IsValid t → get_common_piece_size t ≡ some t.piece_size
unfolding get_common_piece_size
get_common_piece_size_lem t v = rw v.ready refl

through_int_small : (n : ℕ) → n < 2 ^ 31 → through_int n ≡ n
through_int_small n h = let q : n % 2 ^ 32 ≡ n = omega arith in rw (q, lt→ltb n (2 ^ 31) h) refl

some_eq : {n m : ℕ} → some n ≡ some m → n ≡ m
some_eq e = cc

module _ {F : Type 0} (o : FileOper F) (t : Torrent) (v : IsValid t) (piece size : ℕ) where
  -- Where the piece begins in the file, a sum that does not wrap.
  position :
      get_piece_size t piece ≡ some size
      → (offset n : ℕ) → offset + n ≤ size
      → 0 < n
      → u64 (piece * t.piece_size + offset) ≡ piece * t.piece_size + offset
  position e offset n le pos =
      let (inside, _) = get_piece_size-le t v piece size e in
      let (s, e', _, ends) = get_piece_size_lem t v piece inside in
      let same : size ≡ s = some_eq (sym e ∙ e') in omega (arith, v.fits)

  read_write_lem :
      {A : Type 0} (offset n : ℕ) (oper : F → Bool × ℕ × A × F) (file : F)
      → get_piece_size t piece ≡ some size
      → offset + n ≤ size
      → 0 < n
      → read_write_single_file_impl o t piece offset n oper file
        ≡ some (seek_operate o t (piece * t.piece_size + offset) n oper file)
  unfolding read_write_single_file_impl
  read_write_lem offset n oper file e le pos =
      let (_, narrow) = get_piece_size-le t v piece size e in
      let fits : ltb size (u64 (offset + n)) ≡ false = ground (arith, v.fits_int) in
      rw (e, get_common_piece_size_lem t v, fits, position e offset n le pos) refl

  pub io_write_data_lem :
      (buf : List ℕ) (offset : ℕ) (file : F)
      → get_piece_size t piece ≡ some size
      → offset + length buf ≤ size
      → 0 < length buf
      → piece < 2 ^ 31
      → io_write_data o t buf piece offset file
        ≡ some (
            write_result o t
              (length buf)
              (seek_operate o t (piece * t.piece_size + offset) (length buf) (o.write buf) file))
  unfolding io_write_data
  io_write_data_lem buf offset file e le pos few =
      let (_, narrow) = get_piece_size-le t v piece size e in
      let n1 = to_int_small (length buf) (omega (arith, v.fits_int)) in
      let n2 = to_int_small offset (omega (arith, v.fits_int)) in
      let n3 = to_int_small piece few in
      rw
        (
          n1,
          lt→ltb 0 (length buf) pos,
          n2,
          n3,
          read_write_lem offset (length buf) (o.write buf) file e le pos,
        )
        refl

  pub io_read_data_lem :
      (offset n : ℕ) (file : F)
      → get_piece_size t piece ≡ some size
      → offset + n ≤ size
      → 0 < n
      → piece < 2 ^ 31
      → io_read_data o t piece offset n file
        ≡ some
            (read_result o t n (seek_operate o t (piece * t.piece_size + offset) n (o.read n) file))
  unfolding io_read_data
  io_read_data_lem offset n file e le pos few =
      let (_, narrow) = get_piece_size-le t v piece size e in
      let n1 : through_int n ≡ n = through_int_small n (omega (arith, v.fits_int)) in
      let n2 : through_int offset ≡ offset = through_int_small offset (omega (arith, v.fits_int)) in
      let n3 : through_int piece ≡ piece = through_int_small piece few in
      rw (n1, n2, n3, read_write_lem offset n (o.read n) file e le pos) refl
