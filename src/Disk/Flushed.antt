-- ===== src/Disk/Flushed.antt =====
-- rcs/src/frame/disk_io_thread.cpp: `WriteCachedPieceToDisk`, on a file that fails nowhere.
use resource_cache.Common.{
  refl, sym, ap, subst, ◌∙◌, ℕ, zero, suc, ◌+◌, ◌-◌, ◌*◌, ◌^◌, ◌≤◌, ◌<◌, ◌≡◌, ◌⊎◌, true, some, List,
  [], ◌∷◌, ◌++◌, length, take, drop, leb, ◌==◌, asserted, arith, inl, inr, Bool-cases, ltb, min,
  le→leb, length-drop, take_append_drop, drop-drop,
}
use resource_cache.Torrent.{u64, get_piece_size}
use resource_cache.Torrent.Blocks.{IsValid, get_piece_size-le}
use resource_cache.Disk.Pieces.{CachedBlockEntry, Host}
use resource_cache.Disk.Storage.{io_write_data}
use resource_cache.Disk.ToDisk.{block_bytes, write_blocks}
use resource_cache.Disk.Held.{
  HoldsBlock, Holds, count_full, count_full-le, take_all, drop_all, length-take-min,
}
use resource_cache.Disk.Files.{
  View, bytes_from, IsReliable, bytes_from_same, bytes_from-add, io_write_data-stored,
}

-- A full block's buffer is its part of the piece.
block_bytes_lem :
    (b : CachedBlockEntry) (mine : List ℕ)
    → HoldsBlock b mine
    → b.cursor ≡ b.block_size
    → block_bytes b ≡ some mine
block_bytes_lem b mine h full =
    let bytes_lem : take b.block_size b.buf ≡ mine =
      subst (λ n. take n b.buf ≡ take n mine) full h.held
      ∙ take_all b.block_size mine (omega (arith, h.sized)) in
    asserted (leb b.block_size (length b.buf)) _ (le→leb _ _ h.room) ∙ ap some bytes_lem

drop-min : (n k : ℕ) (xs : List ℕ) → n ≡ min k (length xs) → drop n xs ≡ drop k xs
drop-min zero zero xs e = refl
drop-min zero (suc k) [] e = refl
drop-min zero (suc k) (x ∷ xs) e = absurd (omega arith)
drop-min (suc n) zero xs e = absurd (omega arith)
drop-min (suc n) (suc k) [] e = absurd (omega arith)
drop-min (suc n) (suc k) (x ∷ xs) e = drop-min n k xs (omega arith)

joined_lem :
    (q p z nq : ℕ) (bytes : List ℕ)
    → q ≡ p
    → nq ≡ min (p + z) (length bytes)
    → take z (drop p bytes) ++ drop nq bytes ≡ drop q bytes
joined_lem q p z nq bytes same next =
    ap (λ l. take z (drop p bytes) ++ l)
      (drop-min nq (p + z) bytes next ∙ sym (drop-drop (p + z) p z bytes refl))
    ∙ take_append_drop z (drop p bytes)
    ∙ ap (λ n. drop n bytes) (sym same)

stored_append :
    (g : ℕ → ℕ) (at n m k at' : ℕ) (xs ys zs : List ℕ)
    → k ≡ n + m
    → at' ≡ at + n
    → bytes_from g at n ≡ xs
    → bytes_from g at' m ≡ ys
    → xs ++ ys ≡ zs
    → bytes_from g at k ≡ zs
stored_append g at n m k at' xs ys zs h e hx hy j =
    bytes_from-add g at n m k at' h e
    ∙ ap (λ l. l ++ bytes_from g at' m) hx
    ∙ ap (λ l. xs ++ l) hy
    ∙ j

nat_cases : (a b : ℕ) → (a < b) ⊎ (b ≤ a)
nat_cases a b = elim (Bool-cases (ltb a b)) [
  | inl l ↦ inl (ground arith)
  | inr g ↦ inr (ground arith)
]

module _ {F : Type 0} (h : Host F) (view : View F) (r : IsReliable h.file_oper view) where
  write_blocks_step :
      (key piece q : ℕ) (b : CachedBlockEntry) (bs : List CachedBlockEntry) (f : F) (mine : List ℕ)
      (n : ℕ) (f1 : F)
      → block_bytes b ≡ some mine
      → io_write_data h.file_oper (h.torrent key) mine piece q f ≡ some (n, f1)
      → (n == b.block_size) ≡ true
      → write_blocks h key piece q (b ∷ bs) f
        ≡ write_blocks h key piece (u64 (q + b.block_size)) bs f1
  unfolding write_blocks
  write_blocks_step key piece q b bs f mine n f1 got wrote equal = rw (got, wrote, equal) refl

  -- Full blocks from the p-th byte of the piece on are written there, and nothing else is.
  pub write_blocks_lem :
      (key piece size : ℕ) (bytes : List ℕ)
      → IsValid (h.torrent key)
      → get_piece_size (h.torrent key) piece ≡ some size
      → length bytes ≡ size
      → piece < 2 ^ 31
      → (p q at : ℕ) (bs : List CachedBlockEntry) (f : F)
      → Holds (h.torrent key).block_size bytes p bs
      → count_full bs ≡ length bs
      → q ≡ min p (length bytes)
      → at ≡ piece * (h.torrent key).piece_size + q
      → (f' : F) × (write_blocks h key piece q bs f ≡ some (true, f'))
        × (bytes_from (view.byte_at f') at (size - q) ≡ drop q bytes)
        × ((i : ℕ)
            → (i < at) ⊎ (piece * (h.torrent key).piece_size + size ≤ i)
            → view.byte_at f' i ≡ view.byte_at f i)
        × (view.size f ≤ view.size f')
        × (p < size → piece * (h.torrent key).piece_size + size ≤ view.size f')
  unfolding write_blocks
  write_blocks_lem key piece size bytes v e whole few p q at [] f holds full eq ea =
      let none_left : size - q ≡ 0 = omega arith in
      (
        f,
        refl,
        rw none_left (sym (drop_all q bytes (omega arith))),
        λ i out. refl,
        omega arith,
        λ l. absurd (omega arith),
      )
  write_blocks_lem key piece size bytes v e whole few p q at (b ∷ bs) f holds full eq ea =
      let t = h.torrent key in
      let z = t.block_size in
      let le = count_full-le bs in
      let done : b.cursor ≡ b.block_size = ground arith in
      let others : count_full bs ≡ length bs = ground arith in
      let mine = take z (drop p bytes) in
      let got = block_bytes_lem b mine holds.0 done in
      let same : q ≡ p = omega (arith, holds.1) in
      let (_, narrow) = get_piece_size-le t v piece size e in
      let w : length mine ≡ min z (length bytes - p) =
        omega (arith, length-take-min z (drop p bytes), length-drop p bytes) in
      let sized = holds.0.sized in
      let (f1, wrote, has, kept, grows, enough) =
        io_write_data-stored h.file_oper view r t v piece size mine q f e (omega (arith, holds.1))
          (omega (arith, holds.1, v.blocked)) few in
      let next : u64 (q + b.block_size) ≡ min (p + z) (length bytes) =
        omega (arith, holds.1, v.fits_int) in
      let (f2, rest, has2, kept2, grows2, enough2) =
        write_blocks_lem key piece size bytes v e whole few (p + z) (u64 (q + b.block_size))
          (piece * t.piece_size + u64 (q + b.block_size)) bs f1 holds.2 others next refl in
      let equal : (length mine == b.block_size) ≡ true = ground (arith, sized) in
      let nq = u64 (q + b.block_size) in
      let split : nq ≡ q + length mine = omega arith in
      let front : bytes_from (view.byte_at f2) at (length mine) ≡ mine =
        bytes_from_same (view.byte_at f2) (view.byte_at f1) at (length mine)
          (λ i l u. kept2 i (inl (omega arith)))
        ∙ subst (λ n. bytes_from (view.byte_at f1) n (length mine) ≡ mine) (sym ea) has in
      let joined = joined_lem q p z nq bytes same next in
      (
        f2,
        write_blocks_step key piece q b bs f mine (length mine) f1 got wrote equal ∙ rest,
        stored_append (view.byte_at f2) at (length mine) (size - nq) (size - q)
            (piece * t.piece_size + nq) mine (drop nq bytes) (drop q bytes) (omega (arith, holds.1))
            (omega arith) front has2 joined,
        λ i out.
            kept2 i (elim out [ inl l ↦ inl (omega arith) | inr g ↦ inr g ])
            ∙ kept i
                (elim out [ inl l ↦ inl (omega arith) | inr g ↦ inr (omega (arith, holds.1)) ]),
        omega arith,
        λ l. elim (nat_cases (p + z) size) [ inl more ↦ enough2 more | inr last ↦ omega arith ],
      )
