-- ===== src/Disk/Unverified.antt =====
-- rcs/src/frame/disk_io_thread.cpp: `VerifyPieceInfoHash` on any thread, and on one that holds what it should.
use resource_cache.Common.{
  All, refl, sym, ap, subst, ◌∙◌, ℕ, zero, suc, ◌%◌, ◌^◌, ◌≡◌, ◌⊎◌, Bool, true, false, not, Option,
  none, some, List, [], ◌∷◌, length, get_elem?, take, ◌==◌, if◌then◌else◌, if_yes, if_no, bc_assert,
  ◌>>◌, >>=-eq-some, arith, inl, inr, Bool-cases,
}
use resource_cache.Common.Results.{ok, of_option, >>=-eq-ok, of_option-eq-ok}
use resource_cache.Disk.Pieces.{
  CachedPieceEntry, DiskIoThread, Protocol, bt, pps, Host, is_piece, find_entry, erase_entry,
  replace_entry, put_file,
}
use resource_cache.Disk.ToDisk.{
  gather, write_blocks, write_cached_piece_to_disk, bt_verify_piece, verify_with, verify_piece,
}
use resource_cache.Disk.VerifyPiece.{
  find_to_flush, flush_found, flush_write_cache, mark_verified, verify_piece_info_hash,
}
use resource_cache.Disk.Entries.{IsUnfinished, IsFinished}
use resource_cache.Disk.Containers.{
  is_piece-true, find_entry-key, erase_entry-All, erase-replace_entry, replace_entry-nil,
  length-erase_entry-le,
}
use resource_cache.Disk.Filled.{IsHeld}

eq_of_test : (a b : ℕ) → (a == b) ≡ true → a ≡ b
eq_of_test a b e = ground arith

ok_eq : {A : Type 0} {a b : A} → ok a ≡ ok b → a ≡ b
ok_eq e = cc

some_eq : {A : Type 0} {a b : A} → some a ≡ some b → a ≡ b
some_eq e = cc

module _ {F : Type 0} (h : Host F) where
  -- What lets a piece pass: its hash, or that its torrent looks at none.
  abbrev pub Passes : ℕ → ℕ → List ℕ → ℕ → Type 0
  Passes key piece bytes len =
      (h.protocol key ≡ pps)
      ⊎ (get_elem? (h.piece_hash key) piece ≡ some (h.get_sha1 (take len bytes)))

  verify_with-Passes :
      (p : Protocol) (key piece len : ℕ) (bytes : List ℕ)
      → verify_with h p key piece bytes len ≡ some true
      → (p ≡ pps) ⊎ (get_elem? (h.piece_hash key) piece ≡ some (h.get_sha1 (take len bytes)))
  unfolding verify_with bt_verify_piece
  verify_with-Passes bt key piece len bytes v =
      let (hash, has, test) =
        >>=-eq-some (get_elem? (h.piece_hash key) piece)
          (λ hash. some (hash == h.get_sha1 (take len bytes))) v in
      let same : hash ≡ h.get_sha1 (take len bytes) =
        eq_of_test hash (h.get_sha1 (take len bytes)) (cc) in
      inr (has ∙ ap some same)
  verify_with-Passes pps key piece len bytes v = inl refl

  -- What a verification that returns has found.
  pub data Verdict (fuel : ℕ) (s : DiskIoThread F) (key piece : ℕ) (r : Bool) (s' : DiskIoThread F)
      : Type 0 where
    is_rejected :
        s' ≡ record s { finished_write_cache = erase_entry key piece s.finished_write_cache }
        → r ≡ false
        → Verdict fuel s key piece r s'
    is_accepted :
        (e : CachedPieceEntry) (bytes : List ℕ)
        → find_entry key piece s.finished_write_cache ≡ some e
        → gather e.blocks ≡ some bytes
        → Passes key piece bytes (e.piece_size % 2 ^ 32)
        → flush_write_cache h fuel
            (record s {
              finished_write_cache = replace_entry (mark_verified e) s.finished_write_cache;
            })
            key
            piece
          ≡ ok (r, s')
        → Verdict fuel s key piece r s'

  Verdict-of :
      (fuel : ℕ) (s : DiskIoThread F) (key piece : ℕ) (r : Bool) (s' : DiskIoThread F)
      (e : CachedPieceEntry) (bytes : List ℕ) (correct : Bool)
      → find_entry key piece s.finished_write_cache ≡ some e
      → gather e.blocks ≡ some bytes
      → verify_piece h key piece bytes (e.piece_size % 2 ^ 32) ≡ some correct
      → (if correct
          then flush_write_cache h fuel
              (record s {
                finished_write_cache = replace_entry (mark_verified e) s.finished_write_cache;
              })
              key
              piece
          else ok (
            false,
            record s { finished_write_cache = erase_entry key piece s.finished_write_cache },
          ))
        ≡ ok (r, s')
      → Verdict fuel s key piece r s'
  unfolding verify_piece
  Verdict-of fuel s key piece r s' e bytes true found all v out =
      is_accepted e bytes found all
        (verify_with-Passes (h.protocol key) key piece (e.piece_size % 2 ^ 32) bytes v) out
  Verdict-of fuel s key piece r s' e bytes false found all v out = is_rejected (cc) (cc)

  verdict_lem :
      (fuel : ℕ) (s : DiskIoThread F) (key piece : ℕ) (r : Bool) (s' : DiskIoThread F)
      → verify_piece_info_hash h fuel s key piece ≡ ok (r, s')
      → Verdict fuel s key piece r s'
  unfolding verify_piece_info_hash
  verdict_lem fuel s key piece r s' out =
      let (e, a1, o1) = >>=-eq-ok (of_option (find_entry key piece s.finished_write_cache)) _ out in
      let (u, a2, o2) = >>=-eq-ok (of_option (bc_assert (not e.verified))) _ o1 in
      let (bytes, a3, o3) = >>=-eq-ok (of_option (gather e.blocks)) _ o2 in
      let (u', a4, o4) = >>=-eq-ok (of_option (bc_assert (length bytes == e.piece_size))) _ o3 in
      let (correct, a5, o5) =
        >>=-eq-ok (of_option (verify_piece h key piece bytes (e.piece_size % 2 ^ 32))) _ o4 in
      Verdict-of fuel s key piece r s' e bytes correct (of_option-eq-ok _ a1) (of_option-eq-ok _ a3)
        (of_option-eq-ok _ a5) o5

  erase-replace_at :
      (new : CachedPieceEntry) (key piece : ℕ) (es : List CachedPieceEntry)
      → new.key ≡ key
      → new.piece ≡ piece
      → erase_entry key piece (replace_entry new es) ≡ erase_entry key piece es
  erase-replace_at new key piece es k p =
      subst (λ n. erase_entry n piece (replace_entry new es) ≡ erase_entry n piece es) k
        (subst (λ n. erase_entry new.key n (replace_entry new es) ≡ erase_entry new.key n es) p
          (erase-replace_entry new es))

  find_to_flush-eq-ok :
      (fuel key piece : ℕ) (es : List CachedPieceEntry) (found : Option CachedPieceEntry)
      → find_to_flush fuel key piece es ≡ ok found
      → ((found ≡ none) × (es ≡ []))
        ⊎ ((e : CachedPieceEntry) × (found ≡ some e) × (e.key ≡ key) × (e.piece ≡ piece))
  unfolding find_to_flush
  find_to_flush-eq-ok zero key piece es found out = absurd (cc)
  find_to_flush-eq-ok (suc fuel) key piece [] found out = inl (cc, refl)
  find_to_flush-eq-ok (suc fuel) key piece (x ∷ xs) found out =
      elim (Bool-cases (is_piece key piece x)) [
        | inl t ↦
            let o =
              of_option-eq-ok (bc_assert x.verified >> some (some x))
                (sym (if_yes _ _ _ t) ∙ out) in
            let (u, v, same) = >>=-eq-some (bc_assert x.verified) (λ _. some (some x)) o in
            let (k, p) = is_piece-true key piece x t in inr (x, sym (cc), k, p)
        | inr f ↦ find_to_flush-eq-ok fuel key piece (x ∷ xs) found (sym (if_no _ _ _ f) ∙ out)
      ]

  -- A flush that returns has taken the piece out, or found nothing in an empty list.
  flush_lem :
      (fuel : ℕ) (s : DiskIoThread F) (key piece : ℕ) (r : Bool) (s' : DiskIoThread F)
      → flush_write_cache h fuel s key piece ≡ ok (r, s')
      → ((s' ≡ s) × (s.finished_write_cache ≡ []))
        ⊎ ((file : F) × (s'.files ≡ put_file key file s.files)
            × (s'.finished_write_cache ≡ erase_entry key piece s.finished_write_cache)
            × (s'.unfinished_write_cache ≡ s.unfinished_write_cache)
            × (s'.write_cache_limit ≡ s.write_cache_limit))
  unfolding flush_write_cache write_cached_piece_to_disk
  flush_lem fuel s key piece r s' out =
      let (found, looked, o1) =
        >>=-eq-ok (find_to_flush fuel key piece s.finished_write_cache) _ out in
      elim (find_to_flush-eq-ok fuel key piece s.finished_write_cache found looked) [
        | inl nothing ↦
            let o2 = subst (λ f. flush_found h s f ≡ ok (r, s')) nothing.0 o1 in
            inl (sym (cc), nothing.1)
        | inr there ↦
            let (e, is, k, p) = there in
            let o2 = subst (λ f. flush_found h s f ≡ ok (r, s')) is o1 in
            let (w, a, o3) = >>=-eq-ok (of_option (write_cached_piece_to_disk h s e)) _ o2 in
            let (v, wrote, o4) =
              >>=-eq-some (write_blocks h e.key e.piece 0 e.blocks (s.files e.key)) _
                (of_option-eq-ok _ a) in
            let last = ok_eq o3 in
            let before = some_eq o4 in
            inr (
              v.1,
              ap (λ x. x.1.files) (sym last)
                  ∙ ap (λ x. x.1.files) (sym before)
                  ∙ ap (λ n. put_file n v.1 s.files) k,
              ap (λ x. x.1.finished_write_cache) (sym last)
                  ∙ ap (λ x. erase_entry e.key e.piece x.1.finished_write_cache) (sym before)
                  ∙ ap (λ n. erase_entry n e.piece s.finished_write_cache) k
                  ∙ ap (λ n. erase_entry key n s.finished_write_cache) p,
              ap (λ x. x.1.unfinished_write_cache) (sym last)
                  ∙ ap (λ x. x.1.unfinished_write_cache) (sym before),
              ap (λ x. x.1.write_cache_limit) (sym last)
                  ∙ ap (λ x. x.1.write_cache_limit) (sym before),
            )
      ]

  -- On any thread: a verification that returns has changed no file, or only that of the torrent, and then the torrent is a PPS torrent, which accepts every piece, or the SHA-1 of what the blocks of the piece hold is the one that the torrent gives for the piece. The piece is no longer in the write cache, of which nothing else has changed.
  pub verify_piece_info_hash_lem :
      (fuel : ℕ) (s : DiskIoThread F) (key piece : ℕ) (r : Bool) (s' : DiskIoThread F)
      → verify_piece_info_hash h fuel s key piece ≡ ok (r, s')
      → ((s'.files ≡ s.files)
          ⊎ ((e : CachedPieceEntry) × (bytes : List ℕ) × (file : F) × (find_entry key piece
                  s.finished_write_cache
                ≡ some e)
              × (gather e.blocks ≡ some bytes)
              × Passes key piece bytes (e.piece_size % 2 ^ 32)
              × (s'.files ≡ put_file key file s.files)))
        × ((s'.finished_write_cache ≡ erase_entry key piece s.finished_write_cache)
            × (s'.unfinished_write_cache ≡ s.unfinished_write_cache)
            × (s'.write_cache_limit ≡ s.write_cache_limit))
  unfolding erase_entry
  verify_piece_info_hash_lem fuel s key piece r s' out =
      elim (verdict_lem fuel s key piece r s' out) [
        | is_rejected same _ ↦ (
          inl (ap (λ x. x.files) same),
          (
            ap (λ x. x.finished_write_cache) same,
            ap (λ x. x.unfinished_write_cache) same,
            ap (λ x. x.write_cache_limit) same,
          ),
        )
        | is_accepted e bytes found all hash flushed ↦
            let marked = mark_verified e in
            let (k, p) = find_entry-key key piece s.finished_write_cache e found in
            let erased : erase_entry key piece (replace_entry marked s.finished_write_cache)
                ≡ erase_entry key piece s.finished_write_cache =
              erase-replace_at marked key piece s.finished_write_cache k p in
            elim (flush_lem fuel
              (record s { finished_write_cache = replace_entry marked s.finished_write_cache }) key
              piece r s' flushed) [
                | inl nothing ↦
                    let (same, empty) = nothing in
                    (
                      inl (ap (λ x. x.files) same),
                      (
                        ap (λ x. x.finished_write_cache) same
                            ∙ empty
                            ∙ ap (erase_entry key piece)
                                (sym (replace_entry-nil marked s.finished_write_cache empty)),
                        ap (λ x. x.unfinished_write_cache) same,
                        ap (λ x. x.write_cache_limit) same,
                      ),
                    )
                | inr there ↦
                    let (file, files, finished, unfinished, limit) = there in
                    (
                      inr (e, bytes, file, found, all, hash, files),
                      (finished ∙ erased, unfinished, limit),
                    )
              ]
      ]

  -- A verification that returns leaves what it should in the cache.
  pub verify_piece_info_hash-IsHeld :
      (content : ℕ → ℕ → List ℕ) (fuel : ℕ) (s : DiskIoThread F) (key piece : ℕ) (r : Bool)
      (s' : DiskIoThread F)
      → IsHeld h content s
      → verify_piece_info_hash h fuel s key piece ≡ ok (r, s')
      → IsHeld h content s'
  verify_piece_info_hash-IsHeld content fuel s key piece r s' i out =
      let (_, (finished, unfinished, limit)) =
        verify_piece_info_hash_lem fuel s key piece r s' out in
      let less = length-erase_entry-le key piece s.finished_write_cache in
      record {
        unfinished = subst (All (IsUnfinished h content)) (sym unfinished) i.unfinished;
        finished =
            subst (All (IsFinished h content)) (sym finished)
              (erase_entry-All (IsFinished h content) key piece s.finished_write_cache i.finished);
        bounded = omega (arith, i.bounded, ap length finished, ap length unfinished, limit);
      }
