-- ===== src/Disk/Jobs.antt =====
-- rcs/src/frame/disk_io_job.cpp: the jobs of the thread, in the order in which they were added, and
-- what each calls back with.
use resource_cache.Common.{ℕ, Bool, Option, List, [], ◌∷◌}
use resource_cache.Common.Results.{Result, ok, ◌>>=◌, of_option}
use resource_cache.Disk.Pieces.{DiskIoThread, Host}
use resource_cache.Disk.WriteCache.{WriteDataJob, write_data}
use resource_cache.Disk.VerifyPiece.{verify_piece_info_hash}
use resource_cache.Disk.ReadCache.{ReadDataJob, read_data}

pub data DiskIoJob : Type 0 where
  read_data_job : ReadDataJob → DiskIoJob
  write_data_job : WriteDataJob → DiskIoJob
  verify_piece_info_hash_job : ℕ → ℕ → DiskIoJob

-- What the callback is given.
pub data Callback : Type 0 where
  have_read : Option (List ℕ) → Callback
  have_written have_verified : Bool → Callback

module _ {F : Type 0} (h : Host F) where
  unfoldable pub do_job : ℕ → DiskIoThread F → DiskIoJob → Result (Callback × DiskIoThread F)
  do_job fuel s (read_data_job job) = do
    (buf, s') ← of_option (read_data h s job)
    ok (have_read buf, s')
  do_job fuel s (write_data_job job) = do
    (result, s') ← of_option (write_data h s job)
    ok (have_written result, s')
  do_job fuel s (verify_piece_info_hash_job torrent piece) = do
    (result, s') ← verify_piece_info_hash h fuel s torrent piece
    ok (have_verified result, s')

  -- `ThreadFun`, over the jobs that the queue is given.
  unfoldable pub thread_fun :
      ℕ → DiskIoThread F → List DiskIoJob → Result (List Callback × DiskIoThread F)
  thread_fun fuel s [] = ok ([], s)
  thread_fun fuel s (job ∷ jobs) = do
    (callback, s') ← do_job fuel s job
    (callbacks, s'') ← thread_fun fuel s' jobs
    ok (callback ∷ callbacks, s'')
