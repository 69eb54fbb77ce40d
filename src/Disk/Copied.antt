-- ===== src/Disk/Copied.antt =====
-- rcs/src/frame/disk_io_thread.cpp: the loop of `TryReadFromCache` that copies what is read.
use resource_cache.Common.{
  refl, sym, ap, subst, ◌∙◌, ℕ, zero, suc, ◌+◌, ◌-◌, ◌*◌, ◌^◌, ◌≤◌, ◌<◌, ◌≡◌, false, some, List, [],
  ◌∷◌, ◌++◌, length, take, drop, leb, ltb, ◌==◌, if◌then◌else◌, asserted, arith, le→leb,
  length-take, length-append, length-drop, take-append,
}
use resource_cache.Torrent.{u64}
use resource_cache.Disk.Pieces.{CachedBlockEntry, memcpy}
use resource_cache.Disk.ReadCache.{slice, copy_blocks}
use resource_cache.Disk.Held.{HoldsBlock, Holds, take_all, window}
use resource_cache.Disk.Loaded.{as_full, all_full}

-- The blocks from the one on that a position lies in.
pub Holds-drop :
    (z : ℕ) (bytes : List ℕ) (p i q : ℕ) (bs : List CachedBlockEntry)
    → Holds z bytes p (all_full bs)
    → q ≡ p + i * z
    → q < length bytes
    → (b : CachedBlockEntry) × (rest : List CachedBlockEntry) × (drop i bs ≡ b ∷ rest)
      × HoldsBlock (as_full b) (take z (drop q bytes))
      × Holds z bytes (q + z) (all_full rest)
Holds-drop z bytes p i q [] h e l = absurd (omega arith)
Holds-drop z bytes p zero q (b ∷ bs) h e l =
    let same : p ≡ q = omega arith in
    (
      b,
      bs,
      refl,
      subst (λ j. HoldsBlock (as_full b) (take z (drop j bytes))) same h.0,
      subst (λ j. Holds z bytes (j + z) (all_full bs)) same h.2,
    )
Holds-drop z bytes p (suc i) q (b ∷ bs) h e l =
    Holds-drop z bytes (p + z) i q bs h.2 (omega arith) l

copy_blocks_done :
    (z off left : ℕ) (bs : List CachedBlockEntry) (buf : List ℕ)
    → left ≡ 0
    → copy_blocks z left off bs buf ≡ some buf
unfolding copy_blocks
copy_blocks_done z off left [] buf e = rw e refl
copy_blocks_done z off left (b ∷ bs) buf e = rw e refl

slice_lem :
    (b : CachedBlockEntry) (mine : List ℕ) (off n : ℕ)
    → HoldsBlock (as_full b) mine
    → off + n ≤ length mine
    → slice b.buf off n ≡ some (take n (drop off mine))
unfolding slice
slice_lem b mine off n h le =
    let whole : take b.block_size b.buf ≡ mine =
      h.held ∙ take_all b.block_size mine (omega (arith, h.sized)) in
    asserted (leb (off + n) (length b.buf)) _ (le→leb _ _ (omega (arith, h.sized, h.room)))
    ∙ ap some (
        sym (window b.block_size off n b.buf (omega (arith, h.sized)))
        ∙ ap (λ l. take n (drop off l)) whole)

memcpy_front :
    (buf bytes : List ℕ)
    → length bytes ≤ length buf
    → memcpy buf 0 bytes ≡ some (bytes ++ drop (0 + length bytes) buf)
unfolding memcpy
memcpy_front buf bytes le =
    asserted (leb (0 + length bytes) (length buf)) _ (le→leb _ _ (omega arith))

-- One turn, of which some bytes may be left.
copy_blocks_step :
    (z left off n : ℕ) (b : CachedBlockEntry) (bs : List CachedBlockEntry) (buf bytes buf' : List ℕ)
    → (left == 0) ≡ false
    → (if ltb z (u64 (left + off)) then z - off else left) ≡ n
    → slice b.buf off n ≡ some bytes
    → memcpy buf 0 bytes ≡ some buf'
    → copy_blocks z left off (b ∷ bs) buf ≡ copy_blocks z (left - n) 0 bs buf'
unfolding copy_blocks
copy_blocks_step z left off n b bs buf bytes buf' nonzero read_bytes sliced copied =
    rw (nonzero, read_bytes, sliced, copied) refl

pub copy_blocks_one :
    (z n off : ℕ) (b : CachedBlockEntry) (bs : List CachedBlockEntry) (mine buf : List ℕ)
    → HoldsBlock (as_full b) mine
    → 0 < n
    → off + n ≤ length mine
    → off + n ≤ z
    → z < 2 ^ 31
    → n ≤ length buf
    → (buf' : List ℕ) × (copy_blocks z n off (b ∷ bs) buf ≡ some buf')
      × (take n buf' ≡ take n (drop off mine))
copy_blocks_one z n off b bs mine buf h pos le fits small room =
    let bytes = take n (drop off mine) in
    let size : length bytes ≡ n =
      length-take n (drop off mine) (omega (arith, length-drop off mine)) in
    let all_in : (if ltb z (u64 (n + off)) then z - off else n) ≡ n = ground arith in
    (
      bytes ++ drop (0 + length bytes) buf,
      copy_blocks_step z n off n b bs buf bytes _ (ground arith) all_in
            (slice_lem b mine off n h le) (memcpy_front buf bytes (omega arith))
          ∙ copy_blocks_done z 0 (n - n) bs _ (omega arith),
      take-append n bytes (drop (0 + length bytes) buf) (sym size),
    )

-- A read across the end of a block: the bytes of the second block take the place of the first's.
pub copy_blocks_two :
    (z n m off : ℕ) (b b' : CachedBlockEntry) (bs : List CachedBlockEntry) (mine next buf : List ℕ)
    → HoldsBlock (as_full b) mine
    → HoldsBlock (as_full b') next
    → length mine ≡ z
    → off < z
    → off + n ≡ z + m
    → 0 < m
    → m ≤ length next
    → n ≤ z
    → z < 2 ^ 31
    → z ≤ length buf
    → (buf' : List ℕ) × (copy_blocks z n off (b ∷ b' ∷ bs) buf ≡ some buf')
      × (take m buf' ≡ take m next)
copy_blocks_two z n m off b b' bs mine next buf h h' full inside at pos le fits small room =
    let bytes = take (z - off) (drop off mine) in
    let size : length bytes ≡ z - off =
      length-take (z - off) (drop off mine) (omega (arith, length-drop off mine)) in
    let crosses : (if ltb z (u64 (n + off)) then z - off else n) ≡ z - off = ground arith in
    let buf1 = bytes ++ drop (0 + length bytes) buf in
    let width : length buf1 ≡ length buf = omega (
      arith,
      length-append bytes (drop (0 + length bytes) buf),
      length-drop (0 + length bytes) buf,
    ) in
    let rest : n - (z - off) ≡ m = omega arith in
    let (buf2, copied, front) =
      copy_blocks_one z m 0 b' bs next buf1 h' pos (omega arith) (omega arith) small
        (omega arith) in
    (
      buf2,
      copy_blocks_step z n off (z - off) b (b' ∷ bs) buf bytes buf1 (ground arith) crosses
            (slice_lem b mine off (z - off) h (omega arith)) (memcpy_front buf bytes (omega arith))
          ∙ ap (λ k. copy_blocks z k 0 (b' ∷ bs) buf1) rest
          ∙ copied,
      front,
    )
