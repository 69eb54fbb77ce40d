-- ===== src/Disk/Loaded.antt =====
-- rcs/src/frame/disk_io_thread.cpp: `ReadPieceToCache`, on a file that fails nowhere.
use resource_cache.Common.{
  refl, sym, ap, subst, ◌∙◌, ℕ, zero, suc, ◌+◌, ◌-◌, ◌*◌, ◌^◌, ◌≤◌, ◌<◌, ◌≡◌, true, false, some,
  List, [], ◌∷◌, ◌++◌, length, take, drop, leb, ◌==◌, arith, min, le→leb, length-drop, take-append,
  drop-append_all, drop-drop,
}
use resource_cache.Torrent.{u64, get_piece_size}
use resource_cache.Torrent.Blocks.{IsValid, get_piece_size-le}
use resource_cache.Disk.Storage.{io_read_data}
use resource_cache.Disk.Pieces.{CachedBlockEntry, Host, memcpy}
use resource_cache.Disk.ReadCache.{read_blocks}
use resource_cache.Disk.Held.{HoldsBlock, Holds, take_all, length-take-min, memcpy-HoldsBlock}
use resource_cache.Disk.Files.{
  View, bytes_from, IsReliable, bytes_from_same, bytes_from-add, length-bytes_from,
  io_read_data-stored,
}

-- A block that was read is full; its cursor is not moved.
abbrev pub as_full : CachedBlockEntry → CachedBlockEntry
as_full b = record b { cursor = b.block_size }

abbrev pub all_full : List CachedBlockEntry → List CachedBlockEntry
all_full [] = []
all_full (b ∷ bs) = as_full b ∷ all_full bs

-- The two parts of a row of bytes.
stored_split :
    (g : ℕ → ℕ) (at n m k at' : ℕ) (xs : List ℕ)
    → k ≡ n + m
    → at' ≡ at + n
    → bytes_from g at k ≡ xs
    → (bytes_from g at n ≡ take n xs) × (bytes_from g at' m ≡ drop n xs)
stored_split g at n m k at' xs h e hx =
    let joined : bytes_from g at n ++ bytes_from g at' m ≡ xs =
      sym (bytes_from-add g at n m k at' h e) ∙ hx in
    let size = length-bytes_from g at n in
    (
      sym (take-append n (bytes_from g at n) (bytes_from g at' m) (sym size)) ∙ ap (take n) joined,
      sym (drop-append_all n (bytes_from g at n) (bytes_from g at' m) (sym size))
          ∙ ap (drop n) joined,
    )

take-min : (n k : ℕ) (xs : List ℕ) → n ≡ min k (length xs) → take n xs ≡ take k xs
take-min zero zero xs e = refl
take-min zero (suc k) [] e = refl
take-min zero (suc k) (x ∷ xs) e = absurd (omega arith)
take-min (suc n) zero xs e = absurd (omega arith)
take-min (suc n) (suc k) [] e = absurd (omega arith)
take-min (suc n) (suc k) (x ∷ xs) e = ap (λ t. x ∷ t) (take-min n k xs (omega arith))

zero_plus : (m n : ℕ) → n ≡ m → 0 + m ≡ n
zero_plus m n e = omega arith

ne_zero : (n : ℕ) → 0 < n → (n == 0) ≡ false
ne_zero n h = ground arith

module _ {F : Type 0} (h : Host F) (view : View F) (r : IsReliable h.file_oper view) where
  read_blocks_step :
      (key piece size q : ℕ) (b : CachedBlockEntry) (bs : List CachedBlockEntry) (f : F) (n : ℕ)
      (bytes : List ℕ) (f1 : F) (buf : List ℕ) (bs' : List CachedBlockEntry) (f2 : F)
      → io_read_data h.file_oper (h.torrent key) piece q b.block_size f ≡ some (n, bytes, f1)
      → memcpy b.buf 0 bytes ≡ some buf
      → leb (u64 (q + b.block_size)) size ≡ true
      → read_blocks h key piece size (u64 (q + b.block_size)) bs f1 ≡ some (some bs', f2)
      → (n == 0) ≡ false
      → read_blocks h key piece size q (b ∷ bs) f ≡ some (some (record b { buf = buf } ∷ bs'), f2)
  unfolding read_blocks
  read_blocks_step key piece size q b bs f n bytes f1 buf bs' f2 read copied in_piece rest nonzero =
      rw (read, copied, in_piece, rest, nonzero) refl

  -- One turn of the loop.
  read_block_lem :
      (key piece size : ℕ) (bytes : List ℕ)
      → IsValid (h.torrent key)
      → get_piece_size (h.torrent key) piece ≡ some size
      → length bytes ≡ size
      → piece < 2 ^ 31
      → (p q at : ℕ) (b : CachedBlockEntry) (f : F)
      → HoldsBlock b (take (h.torrent key).block_size (drop p bytes))
      → p < length bytes
      → q ≡ min p (length bytes)
      → at ≡ piece * (h.torrent key).piece_size + q
      → bytes_from (view.byte_at f) at (size - q) ≡ drop q bytes
      → piece * (h.torrent key).piece_size + size ≤ view.size f
      → (there : List ℕ) × (buf : List ℕ) × (f1 : F) × (io_read_data h.file_oper
            (h.torrent key)
            piece
            q
            b.block_size
            f
          ≡ some (b.block_size, there, f1))
        × (memcpy b.buf 0 there ≡ some buf)
        × ((leb (u64 (q + b.block_size)) size ≡ true) × ((b.block_size == 0) ≡ false))
        × HoldsBlock
            (as_full (record b { buf = buf }))
            (take (h.torrent key).block_size (drop p bytes))
        × (u64 (q + b.block_size) ≡ min (p + (h.torrent key).block_size) (length bytes))
        × (bytes_from
              (view.byte_at f1)
              (piece * (h.torrent key).piece_size + u64 (q + b.block_size))
              (size - u64 (q + b.block_size))
            ≡ drop (u64 (q + b.block_size)) bytes)
        × (view.size f1 ≡ view.size f)
        × ((i : ℕ) → view.byte_at f1 i ≡ view.byte_at f i)
  read_block_lem key piece size bytes v e whole few p q at b f hb inside eq ea has enough =
      let t = h.torrent key in
      let z = t.block_size in
      let mine = take z (drop p bytes) in
      let same : q ≡ p = omega (arith, inside) in
      let (_, narrow) = get_piece_size-le t v piece size e in
      let w : length mine ≡ min z (length bytes - p) =
        omega (arith, length-take-min z (drop p bytes), length-drop p bytes) in
      let sized = hb.sized in
      let n = b.block_size in
      let (f1, read, size1, bytes1) =
        io_read_data-stored h.file_oper view r t v piece size n q f e (omega (arith, inside))
          (omega (arith, inside, v.blocked)) few (omega (arith, inside)) in
      let next : u64 (q + n) ≡ min (p + z) (length bytes) = omega (arith, inside, v.fits_int) in
      let nq = u64 (q + n) in
      let nat = piece * t.piece_size + nq in
      let (front, back) =
        stored_split (view.byte_at f) at n (size - nq) (size - q) nat (drop q bytes)
          (omega (arith, inside)) (omega arith) has in
      let there = bytes_from (view.byte_at f) (piece * t.piece_size + q) n in
      let got : there ≡ mine =
        ap (λ a. bytes_from (view.byte_at f) a n) (sym ea)
        ∙ front
        ∙ ap (λ k. take n (drop k bytes)) same
        ∙ take-min n z (drop p bytes) (omega (arith, length-drop p bytes)) in
      let b0 : CachedBlockEntry = record b { cursor = 0 } in
      let empty : HoldsBlock b0 mine = record {
        sized = sized;
        room = hb.room;
        inside = omega arith;
        held = refl;
      } in
      let (buf, copied, room, held) =
        memcpy-HoldsBlock b0 mine mine empty (sym (take_all (length mine) mine (omega arith)))
          (omega arith) in
      let filled : HoldsBlock (as_full (record b { buf = buf })) mine = record {
        sized = sized;
        room = room;
        inside = omega arith;
        held = subst (λ k. take k buf ≡ take k mine) (zero_plus (length mine) n sized) held;
      } in
      let has1 : bytes_from (view.byte_at f1) nat (size - nq) ≡ drop nq bytes =
        bytes_from_same (view.byte_at f1) (view.byte_at f) nat (size - nq) (λ i _ _. bytes1 i)
        ∙ back
        ∙ drop-drop nq q n bytes (omega (arith, inside)) in
      (
        there,
        buf,
        f1,
        read,
        ap (memcpy b.buf 0) got ∙ copied,
        (le→leb nq size (omega (arith, inside)), ne_zero n (omega (arith, inside, v.blocked))),
        filled,
        next,
        has1,
        size1,
        bytes1,
      )

  pub read_blocks_lem :
      (key piece size : ℕ) (bytes : List ℕ)
      → IsValid (h.torrent key)
      → get_piece_size (h.torrent key) piece ≡ some size
      → length bytes ≡ size
      → piece < 2 ^ 31
      → (p q at : ℕ) (bs : List CachedBlockEntry) (f : F)
      → Holds (h.torrent key).block_size bytes p bs
      → q ≡ min p (length bytes)
      → at ≡ piece * (h.torrent key).piece_size + q
      → bytes_from (view.byte_at f) at (size - q) ≡ drop q bytes
      → piece * (h.torrent key).piece_size + size ≤ view.size f
      → (bs' : List CachedBlockEntry) × (f' : F) × (read_blocks h key piece size q bs f
          ≡ some (some bs', f'))
        × Holds (h.torrent key).block_size bytes p (all_full bs')
        × (view.size f' ≡ view.size f)
        × ((i : ℕ) → view.byte_at f' i ≡ view.byte_at f i)
  unfolding read_blocks
  read_blocks_lem key piece size bytes v e whole few p q at [] f holds eq ea has enough =
      ([], f, refl, holds, refl, λ i. refl)
  read_blocks_lem key piece size bytes v e whole few p q at (b ∷ bs) f holds eq ea has enough =
      let (there, buf, f1, read, copied, (in_piece, nonzero), filled, next, has1, size1, bytes1) =
        read_block_lem key piece size bytes v e whole few p q at b f holds.0 holds.1 eq ea has
          enough in
      let (bs', f2, rest, holds2, size2, bytes2) =
        read_blocks_lem key piece size bytes v e whole few (p + (h.torrent key).block_size)
          (u64 (q + b.block_size)) (piece * (h.torrent key).piece_size + u64 (q + b.block_size)) bs
          f1 holds.2 next refl has1
          (subst (λ n. piece * (h.torrent key).piece_size + size ≤ n) (sym size1) enough) in
      (
        record b { buf = buf } ∷ bs',
        f2,
        read_blocks_step key piece size q b bs f b.block_size there f1 buf bs' f2 read copied
            in_piece rest nonzero,
        (filled, holds.1, holds2),
        size2 ∙ size1,
        λ i. bytes2 i ∙ bytes1 i,
      )
