-- ===== src/Examples/DiskJobs.antt =====
-- Jobs of that thread.
use resource_cache.Common.{
  refl, ℕ, ◌+◌, ◌%◌, ◌^◌, ◌≤◌, ◌<◌, ◌≡◌, ◌≢◌, ◌⊎◌, Bool, true, false, some, List, [], ◌∷◌, take,
  arith,
}
use resource_cache.Common.Results.{ok, out_of_fuel}
use resource_cache.Torrent.{get_piece_size, get_block_size, get_common_block_size, calc_full_mult}
use resource_cache.Disk.Pieces.{
  CachedBlockEntry, CachedPieceEntry, DiskIoThread, find_entry, erase_entry, replace_entry,
  new_piece_entry, new_blocks, memcpy, put_file,
}
use resource_cache.Disk.WriteCache.{
  WriteDataJob, write_data, find_write_cache_piece, cache_data, fill_block, store_piece,
}
use resource_cache.Disk.ReadCache.{read_data}
use resource_cache.Disk.ToDisk.{gather, bt_verify_piece, verify_with, verify_piece}
use resource_cache.Disk.VerifyPiece.{verify_piece_info_hash}
use resource_cache.Disk.Jobs.{write_data_job, have_written, do_job, thread_fun}
use resource_cache.Disk.Files.{bytes_from}
use resource_cache.Disk.Entries.{HoldsPiece}
use resource_cache.Disk.Filled.{IsHeld, IsHonest}
use resource_cache.Disk.Writes.{write_data_lem}
use resource_cache.Disk.Verified.{verify_piece_info_hash_first}
use resource_cache.Disk.Hung.{verify_piece_info_hash-endless}
use resource_cache.Disk.Unverified.{Passes, verify_piece_info_hash_lem}
use resource_cache.Disk.Reads.{IsCurrent, IsStored}
use resource_cache.Disk.Served.{read_data_lem, read_data_across, verified-read_data}
use resource_cache.Disk.Turns.{thread_fun-IsHeld}
use resource_cache.Examples.Disks.{
  MemFile, overlay, mem_view, mem_file-IsReliable, content, host, first_size, second_size,
  host-IsWorkable, counters, empty_file, empty_thread, empty_thread-IsHeld,
}

abbrev job_one : WriteDataJob
job_one = record { torrent = 0; piece = 1; offset = 0; buf = 5 ∷ 6 ∷ [] }

job_one-IsHonest : IsHonest host content job_one 3
job_one-IsHonest = record {
  sized = second_size;
  some_bytes = omega arith;
  one_block = omega arith;
  fits = omega arith;
  bytes = refl;
  few = omega arith;
}

write_data_lem_example :
    (r : Bool) × (s' : DiskIoThread MemFile) × (write_data host empty_thread job_one ≡ some (r, s'))
    × IsHeld host content s'
    × (0 + 0 < 2 → r ≡ true)
write_data_lem_example =
    write_data_lem host content host-IsWorkable empty_thread job_one 3 empty_thread-IsHeld
      job_one-IsHonest

abbrev block : List ℕ → ℕ → CachedBlockEntry
block buf size = record { buf = buf; block_size = size; cursor = size; finished = true }

abbrev second_piece : CachedPieceEntry
second_piece = record {
  key = 0;
  piece = 1;
  piece_size = 3;
  num_blocks = 2;
  finished_blocks = 2;
  verified = false;
  blocks = block (5 ∷ 6 ∷ 0 ∷ []) 2 ∷ block (7 ∷ 0 ∷ 0 ∷ []) 1 ∷ [];
}

abbrev first_piece : CachedPieceEntry
first_piece = record {
  key = 0;
  piece = 0;
  piece_size = 4;
  num_blocks = 2;
  finished_blocks = 2;
  verified = false;
  blocks = block (1 ∷ 2 ∷ 0 ∷ []) 2 ∷ block (3 ∷ 4 ∷ 0 ∷ []) 2 ∷ [];
}

second_piece-HoldsPiece : HoldsPiece host content second_piece
second_piece-HoldsPiece = record {
  size = second_size;
  all = refl;
  cut = (
    record { sized = refl; room = omega arith; inside = omega arith; held = refl },
    omega arith,
    (
      record { sized = refl; room = omega arith; inside = omega arith; held = refl },
      omega arith,
      omega arith,
    ),
  );
  number = refl;
  small = omega arith;
  count = refl;
  fresh = refl;
}

first_piece-HoldsPiece : HoldsPiece host content first_piece
first_piece-HoldsPiece = record {
  size = first_size;
  all = refl;
  cut = (
    record { sized = refl; room = omega arith; inside = omega arith; held = refl },
    omega arith,
    (
      record { sized = refl; room = omega arith; inside = omega arith; held = refl },
      omega arith,
      omega arith,
    ),
  );
  number = refl;
  small = omega arith;
  count = refl;
  fresh = refl;
}

abbrev full_thread : List CachedPieceEntry → DiskIoThread MemFile
full_thread es = record empty_thread { finished_write_cache = es }

one_piece-IsHeld : IsHeld host content (full_thread (second_piece ∷ []))
one_piece-IsHeld = record {
  unfinished = tt;
  finished = ((second_piece-HoldsPiece, refl), tt);
  bounded = omega arith;
}

two_pieces-IsHeld : IsHeld host content (full_thread (first_piece ∷ second_piece ∷ []))
two_pieces-IsHeld = record {
  unfinished = tt;
  finished = ((first_piece-HoldsPiece, refl), ((second_piece-HoldsPiece, refl), tt));
  bounded = omega arith;
}

verify_piece_info_hash_first_example :
    (s' : DiskIoThread MemFile) × (verify_piece_info_hash host 1
        (full_thread (second_piece ∷ []))
        0
        1
      ≡ ok (true, s'))
    × IsHeld host content s'
    × ((s'.finished_write_cache ≡ [])
        × (s'.unfinished_write_cache ≡ [])
        × (s'.read_cache_set ≡ [])
        × (s'.read_cache_limit ≡ 1))
    × ((bytes_from (s'.files 0).bytes 4 3 ≡ 5 ∷ 6 ∷ 7 ∷ [])
        × ((i : ℕ) → (i < 4) ⊎ (7 ≤ i) → (s'.files 0).bytes i ≡ 0)
        × (7 ≤ (s'.files 0).size))
    × ((key : ℕ) → key ≢ 0 → s'.files key ≡ empty_file)
verify_piece_info_hash_first_example =
    verify_piece_info_hash_first host content host-IsWorkable mem_view mem_file-IsReliable 0
      (full_thread (second_piece ∷ [])) second_piece [] one_piece-IsHeld refl refl (omega arith)

found_second : find_entry 0 1 (first_piece ∷ second_piece ∷ []) ≡ some second_piece
unfolding find_entry
found_second = refl

verify_piece_info_hash-endless_example :
    verify_piece_info_hash host 1000 (full_thread (first_piece ∷ second_piece ∷ [])) 0 1
    ≡ out_of_fuel
verify_piece_info_hash-endless_example =
    verify_piece_info_hash-endless host content host-IsWorkable 1000
      (full_thread (first_piece ∷ second_piece ∷ [])) second_piece first_piece (second_piece ∷ [])
      two_pieces-IsHeld refl refl found_second refl

-- The same piece with a wrong byte.
abbrev wrong_piece : CachedPieceEntry
wrong_piece = record second_piece {
  blocks = block (5 ∷ 9 ∷ 0 ∷ []) 2 ∷ block (7 ∷ 0 ∷ 0 ∷ []) 1 ∷ [];
}

abbrev wrong_thread : DiskIoThread MemFile
wrong_thread = full_thread (wrong_piece ∷ [])

wrong_rejected : verify_piece_info_hash host 1 wrong_thread 0 1 ≡ ok (false, full_thread [])
unfolding verify_piece_info_hash gather bt_verify_piece verify_with verify_piece find_entry
    erase_entry
wrong_rejected = refl

verify_piece_info_hash_lem_example :
    (((full_thread []).files ≡ wrong_thread.files)
      ⊎ ((e : CachedPieceEntry) × (bytes : List ℕ) × (file : MemFile) × (find_entry 0 1
              (wrong_piece ∷ [])
            ≡ some e)
          × (gather e.blocks ≡ some bytes)
          × Passes host 0 1 bytes (e.piece_size % 2 ^ 32)
          × ((full_thread []).files ≡ put_file 0 file wrong_thread.files)))
    × (((full_thread []).finished_write_cache ≡ erase_entry 0 1 (wrong_piece ∷ []))
        × ((full_thread []).unfinished_write_cache ≡ wrong_thread.unfinished_write_cache)
        × ((full_thread []).write_cache_limit ≡ wrong_thread.write_cache_limit))
verify_piece_info_hash_lem_example =
    verify_piece_info_hash_lem host 1 wrong_thread 0 1 false (full_thread []) wrong_rejected

abbrev stored_file : MemFile
stored_file = record {
  pos = 0;
  size = 7;
  bytes = overlay (λ i. 0) 0 (1 ∷ 2 ∷ 3 ∷ 4 ∷ 5 ∷ 6 ∷ 7 ∷ []);
}

abbrev stored_thread : DiskIoThread MemFile
stored_thread = record empty_thread { files = λ key. stored_file }

stored_thread-IsCurrent : IsCurrent host content stored_thread
stored_thread-IsCurrent = record { readable = tt; bounded = omega arith; limit = omega arith }

read_data_lem_example :
    (buf : List ℕ) × (s' : DiskIoThread MemFile) × (read_data host stored_thread
        (record { torrent = 0; piece = 1; offset = 1; len = 1 })
      ≡ some (some buf, s'))
    × (take 1 buf ≡ 6 ∷ [])
    × IsCurrent host content s'
    × IsStored host content mem_view (s'.files 0) 0 1
read_data_lem_example =
    read_data_lem host content host-IsWorkable mem_view mem_file-IsReliable stored_thread
      (record { torrent = 0; piece = 1; offset = 1; len = 1 }) 3 stored_thread-IsCurrent second_size
      (omega arith) (refl, omega arith) (omega arith) (omega arith) (omega arith)

read_data_across_example :
    (buf : List ℕ) × (s' : DiskIoThread MemFile) × (read_data host stored_thread
        (record { torrent = 0; piece = 0; offset = 1; len = 2 })
      ≡ some (some buf, s'))
    × (take 1 buf ≡ 3 ∷ [])
read_data_across_example =
    read_data_across host content host-IsWorkable mem_view mem_file-IsReliable stored_thread
      (record { torrent = 0; piece = 0; offset = 1; len = 2 }) 4 1 stored_thread-IsCurrent
      first_size (omega arith) (refl, omega arith) (omega arith) (omega arith) (omega arith)
      (omega arith)

verified-read_data_example :
    (s' : DiskIoThread MemFile) × (buf : List ℕ) × (s'' : DiskIoThread MemFile)
    × (verify_piece_info_hash host 1 (full_thread (second_piece ∷ [])) 0 1 ≡ ok (true, s'))
    × (read_data host s' (record { torrent = 0; piece = 1; offset = 0; len = 2 })
        ≡ some (some buf, s''))
    × (take 2 buf ≡ 5 ∷ 6 ∷ [])
verified-read_data_example =
    verified-read_data host content host-IsWorkable mem_view mem_file-IsReliable 0
      (full_thread (second_piece ∷ [])) second_piece [] 0 2 one_piece-IsHeld
      (record { readable = tt; bounded = omega arith; limit = omega arith }) refl refl (omega arith)
      (omega arith) (omega arith) (omega arith)

abbrev job_two : WriteDataJob
job_two = record { torrent = 0; piece = 1; offset = 2; buf = 7 ∷ [] }

job_two-IsHonest : IsHonest host content job_two 3
job_two-IsHonest = record {
  sized = second_size;
  some_bytes = omega arith;
  one_block = omega arith;
  fits = omega arith;
  bytes = refl;
  few = omega arith;
}

abbrev received_thread : DiskIoThread MemFile
received_thread = record (full_thread (second_piece ∷ [])) {
  cache_status = record counters { blocks_write = 2 };
}

two_writes :
    thread_fun host 1 empty_thread (write_data_job job_one ∷ write_data_job job_two ∷ [])
    ≡ ok (have_written true ∷ have_written true ∷ [], received_thread)
unfolding thread_fun do_job write_data find_write_cache_piece cache_data fill_block store_piece
    memcpy find_entry erase_entry replace_entry new_piece_entry new_blocks get_piece_size
    get_block_size get_common_block_size calc_full_mult
two_writes = refl

thread_fun-IsHeld_example : IsHeld host content received_thread
thread_fun-IsHeld_example =
    thread_fun-IsHeld host content host-IsWorkable 1 empty_thread
      (write_data_job job_one ∷ write_data_job job_two ∷ [])
      (have_written true ∷ have_written true ∷ []) received_thread empty_thread-IsHeld
      ((3, job_one-IsHonest), ((3, job_two-IsHonest), tt)) two_writes
