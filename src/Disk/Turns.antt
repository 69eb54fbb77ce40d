-- ===== src/Disk/Turns.antt =====
-- rcs/src/frame/disk_io_thread.cpp and disk_io_job.cpp: the thread over any sequence of jobs.
use resource_cache.Common.{
  All, refl, sym, ap, subst, ◌∙◌, ℕ, ◌+◌, ◌/◌, ◌%◌, drop, ◌≡◌, Bool, ◌||◌, Option, none, some, List,
  [], ◌∷◌, length, ltb, if_yes, if_no, ◌>>=◌, bc_assert, >>=-eq-some, arith, inl, inr, Bool-cases,
}
use resource_cache.Common.Results.{ok, of_option, >>=-eq-ok, of_option-eq-ok}
use resource_cache.Torrent.{u64, get_piece_size, get_common_block_size}
use resource_cache.Disk.Pieces.{CachedPieceEntry, DiskIoThread, Host, find_entry}
use resource_cache.Disk.WriteCache.{write_data, clear_write_cache}
use resource_cache.Disk.VerifyPiece.{verify_piece_info_hash}
use resource_cache.Disk.ReadCache.{
  ReadDataJob, get_available_read_cache_piece, read_blocks, read_piece_to_cache, cached_or,
  get_read_cache_entry, copy_blocks, as_left_bytes, try_read_from_cache, read_data,
}
use resource_cache.Disk.Jobs.{
  DiskIoJob, read_data_job, write_data_job, verify_piece_info_hash_job, Callback, do_job,
  thread_fun,
}
use resource_cache.Disk.Entries.{IsWorkable, IsUnfinished, IsFinished}
use resource_cache.Disk.Containers.{without_key-All, length-without_key}
use resource_cache.Disk.Filled.{IsHeld, IsHonest}
use resource_cache.Disk.Writes.{write_data_lem}
use resource_cache.Disk.Unverified.{verify_piece_info_hash-IsHeld}

some_eq : {A : Type 0} {a b : A} → some a ≡ some b → a ≡ b
some_eq e = cc

ok_eq : {A : Type 0} {a b : A} → ok a ≡ ok b → a ≡ b
ok_eq e = cc

module _ {F : Type 0} (h : Host F) where
  -- The write cache is the same.
  record SameWrites (s s' : DiskIoThread F) : Type 0 where
    unfinished : s'.unfinished_write_cache ≡ s.unfinished_write_cache
    finished : s'.finished_write_cache ≡ s.finished_write_cache
    limit : s'.write_cache_limit ≡ s.write_cache_limit

  same : (s s' : DiskIoThread F) → s' ≡ s → SameWrites s s'
  same s s' e = record {
    unfinished = ap (λ x. x.unfinished_write_cache) e;
    finished = ap (λ x. x.finished_write_cache) e;
    limit = ap (λ x. x.write_cache_limit) e;
  }

  read_piece_to_cache-SameWrites :
      (s : DiskIoThread F) (job : ReadDataJob) (o : Option CachedPieceEntry) (s' : DiskIoThread F)
      → read_piece_to_cache h s job ≡ some (o, s')
      → SameWrites s s'
  unfolding read_piece_to_cache
  read_piece_to_cache-SameWrites s job o s' out =
      let (a, _, o1) = >>=-eq-some (get_available_read_cache_piece h s job) _ out in
      let (b, _, o2) =
        >>=-eq-some
          (read_blocks h job.torrent job.piece a.0.piece_size 0 a.0.blocks (s.files job.torrent)) _
          o1 in
      let e = some_eq o2 in
      record {
        unfinished = ap (λ x. x.1.unfinished_write_cache) (sym e);
        finished = ap (λ x. x.1.finished_write_cache) (sym e);
        limit = ap (λ x. x.1.write_cache_limit) (sym e);
      }

  cached_or-SameWrites :
      (found : Option CachedPieceEntry) (s s1 : DiskIoThread F) (job : ReadDataJob)
      (e : CachedPieceEntry) (s' : DiskIoThread F)
      → SameWrites s s1
      → cached_or found s1 (
          read_piece_to_cache h s1 job >>= λ p. p.0 >>= λ e'. some (
            e',
            record p.1 {
              cache_status = record p.1.cache_status { reads = u64 (p.1.cache_status.reads + 1) };
            },
          ))
        ≡ some (e, s')
      → SameWrites s s'
  cached_or-SameWrites none s s1 job e s' k out =
      let (a, got, o1) = >>=-eq-some (read_piece_to_cache h s1 job) _ out in
      let (b, _, o2) = >>=-eq-some a.0 _ o1 in
      let k1 = read_piece_to_cache-SameWrites s1 job a.0 a.1 got in
      let q = some_eq o2 in
      record {
        unfinished = ap (λ x. x.1.unfinished_write_cache) (sym q) ∙ k1.unfinished ∙ k.unfinished;
        finished = ap (λ x. x.1.finished_write_cache) (sym q) ∙ k1.finished ∙ k.finished;
        limit = ap (λ x. x.1.write_cache_limit) (sym q) ∙ k1.limit ∙ k.limit;
      }
  cached_or-SameWrites (some e0) s s1 job e s' k out =
      let q = some_eq out in
      record {
        unfinished = ap (λ x. x.1.unfinished_write_cache) (sym q) ∙ k.unfinished;
        finished = ap (λ x. x.1.finished_write_cache) (sym q) ∙ k.finished;
        limit = ap (λ x. x.1.write_cache_limit) (sym q) ∙ k.limit;
      }

  try_read_from_cache-SameWrites :
      (s : DiskIoThread F) (job : ReadDataJob) (buf : List ℕ) (r : List ℕ × DiskIoThread F)
      → try_read_from_cache h s job buf ≡ some r
      → SameWrites s r.1
  unfolding try_read_from_cache get_read_cache_entry
  try_read_from_cache-SameWrites s job buf r out =
      let (b, entry, o1) = >>=-eq-some (get_read_cache_entry h s job) _ out in
      let (z, _, o2) = >>=-eq-some (get_common_block_size (h.torrent job.torrent)) _ o1 in
      let (_, _, o3) = >>=-eq-some (bc_assert (ltb 0 z)) _ o2 in
      let (_, _, o4) =
        >>=-eq-some
          (copy_blocks z (as_left_bytes job.len) (job.offset % z) (drop (job.offset / z) b.0.blocks)
            buf)
          _ o3 in
      let q : b.1 ≡ r.1 = ap (λ x. x.1) (some_eq o4) in
      let counted : DiskIoThread F = record s {
        cache_status = record s.cache_status { blocks_read = u64 (s.cache_status.blocks_read + 1) };
      } in
      let k =
        cached_or-SameWrites (find_entry job.torrent job.piece s.read_cache_set) s counted job b.0
          b.1 (record { unfinished = refl; finished = refl; limit = refl }) entry in
      subst (SameWrites s) q k

  read_data-SameWrites :
      (s : DiskIoThread F) (job : ReadDataJob) (o : Option (List ℕ)) (s' : DiskIoThread F)
      → read_data h s job ≡ some (o, s')
      → SameWrites s s'
  unfolding read_data
  read_data-SameWrites s job o s' out =
      let (piece_size, _, o1) =
        >>=-eq-some (get_piece_size (h.torrent job.torrent) job.piece) _ out in
      let (block_size, _, o2) = >>=-eq-some (get_common_block_size (h.torrent job.torrent)) _ o1 in
      elim (Bool-cases (ltb piece_size (u64 (job.offset + job.len)) || ltb block_size job.len)) [
        | inl bad ↦ same s s' (ap (λ x. x.1) (sym (some_eq (sym (if_yes _ _ _ bad) ∙ o2))))
        | inr good ↦
            let (a, got, o3) =
              >>=-eq-some (try_read_from_cache h s job h.alloc_data_buffer) _
                (sym (if_no _ _ _ good) ∙ o2) in
            let q : a.1 ≡ s' = ap (λ x. x.1) (some_eq o3) in
            subst (SameWrites s) q (try_read_from_cache-SameWrites s job h.alloc_data_buffer a got)
      ]

module _ {F : Type 0} (h : Host F) (content : ℕ → ℕ → List ℕ) (w : IsWorkable h content) where
  -- Each write job brings bytes of its piece, in one block.
  abbrev pub AllHonest : List DiskIoJob → Type 0
  AllHonest [] = Unit
  AllHonest (read_data_job job ∷ jobs) = AllHonest jobs
  AllHonest (write_data_job job ∷ jobs) =
      ((size : ℕ) × IsHonest h content job size) × AllHonest jobs
  AllHonest (verify_piece_info_hash_job torrent piece ∷ jobs) = AllHonest jobs

  first_of :
      (job : DiskIoJob) (jobs : List DiskIoJob)
      → AllHonest (job ∷ jobs)
      → AllHonest (job ∷ []) × AllHonest jobs
  first_of (read_data_job job) jobs a = (tt, a)
  first_of (write_data_job job) jobs a = ((a.0, tt), a.1)
  first_of (verify_piece_info_hash_job torrent piece) jobs a = (tt, a)

  do_job-IsHeld :
      (fuel : ℕ) (s : DiskIoThread F) (job : DiskIoJob) (c : Callback) (s' : DiskIoThread F)
      → IsHeld h content s
      → AllHonest (job ∷ [])
      → do_job h fuel s job ≡ ok (c, s')
      → IsHeld h content s'
  unfolding do_job
  do_job-IsHeld fuel s (read_data_job job) c s' i a out =
      let (r, read, o1) = >>=-eq-ok (of_option (read_data h s job)) _ out in
      let k = read_data-SameWrites h s job r.0 r.1 (of_option-eq-ok _ read) in
      let q : r.1 ≡ s' = ap (λ x. x.1) (ok_eq o1) in
      subst (IsHeld h content) q (record {
        unfinished = subst (All (IsUnfinished h content)) (sym k.unfinished) i.unfinished;
        finished = subst (All (IsFinished h content)) (sym k.finished) i.finished;
        bounded = omega (arith, i.bounded, ap length k.unfinished, ap length k.finished, k.limit);
      })
  do_job-IsHeld fuel s (write_data_job job) c s' i a out =
      let (size, hon) = a.0 in
      let (r, s1, wrote, i1, _) = write_data_lem h content w s job size i hon in
      let (r', wrote', o1) = >>=-eq-ok (of_option (write_data h s job)) _ out in
      let q : ◌≡◌ {A = Bool × DiskIoThread F} (r, s1) r' =
        some_eq (sym wrote ∙ of_option-eq-ok _ wrote') in
      let q' : r'.1 ≡ s' = ap (λ x. x.1) (ok_eq o1) in
      subst (IsHeld h content) (ap (λ x. x.1) q ∙ q') i1
  do_job-IsHeld fuel s (verify_piece_info_hash_job torrent piece) c s' i a out =
      let (r, verified, o1) = >>=-eq-ok (verify_piece_info_hash h fuel s torrent piece) _ out in
      let q : r.1 ≡ s' = ap (λ x. x.1) (ok_eq o1) in
      subst (IsHeld h content) q
        (verify_piece_info_hash-IsHeld h content fuel s torrent piece r.0 r.1 i verified)

  -- Where torrents, pool and pieces are workable and the write cache holds what it should: when the thread has worked off any reads, verifications and writes of pieces' bytes inside one block, the write cache holds only parts of the pieces that the torrents are made of, in the right list, and is within its limit.
  pub thread_fun-IsHeld :
      (fuel : ℕ) (s : DiskIoThread F) (jobs : List DiskIoJob) (cs : List Callback)
      (s' : DiskIoThread F)
      → IsHeld h content s
      → AllHonest jobs
      → thread_fun h fuel s jobs ≡ ok (cs, s')
      → IsHeld h content s'
  unfolding thread_fun
  thread_fun-IsHeld fuel s [] cs s' i a out = subst (IsHeld h content) (ap (λ x. x.1) (ok_eq out)) i
  thread_fun-IsHeld fuel s (job ∷ jobs) cs s' i a out =
      let (r, done, o1) = >>=-eq-ok (do_job h fuel s job) _ out in
      let (rs, rest, o2) = >>=-eq-ok (thread_fun h fuel r.1 jobs) _ o1 in
      let (one, others) = first_of job jobs a in
      let i1 = do_job-IsHeld fuel s job r.0 r.1 i one done in
      subst (IsHeld h content) (ap (λ x. x.1) (ok_eq o2))
        (thread_fun-IsHeld fuel r.1 jobs rs.0 rs.1 i1 others rest)

  -- `ClearWriteCache` keeps that too.
  clear_write_cache-IsHeld :
      (s : DiskIoThread F) (key : ℕ)
      → IsHeld h content s
      → IsHeld h content (clear_write_cache s key)
  unfolding clear_write_cache
  clear_write_cache-IsHeld s key i = record {
    unfinished = without_key-All (IsUnfinished h content) key s.unfinished_write_cache i.unfinished;
    finished = without_key-All (IsFinished h content) key s.finished_write_cache i.finished;
    bounded = omega (
      arith,
      i.bounded,
      length-without_key key s.unfinished_write_cache,
      length-without_key key s.finished_write_cache,
    );
  }
