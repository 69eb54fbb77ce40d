-- ===== src/Disk/Entries.antt =====
-- rcs/src/frame/disk_io_thread.cpp: cached pieces that hold what they should, and containers of them.
use resource_cache.Common.{
  refl, sym, ap, subst, ℕ, zero, suc, ◌+◌, ◌-◌, ◌*◌, ◌^◌, ◌≤◌, ◌<◌, ◌≡◌, false, some, List, [], ◌∷◌,
  length, take, drop, ◌==◌, arith, le→leb,
}
use resource_cache.Torrent.{
  Torrent, calc_full_mult, get_piece_size, get_common_block_size, get_block_num,
}
use resource_cache.Torrent.Blocks.{
  IsValid, get_piece_size-le, get_block_size_lem, get_block_num_lem,
}
use resource_cache.Disk.Pieces.{
  CachedBlockEntry, CachedPieceEntry, Host, new_blocks, new_piece_entry,
}
use resource_cache.Disk.Held.{HoldsBlock, Holds, count_full, length-take-min}
use resource_cache.Common.{length-drop}

-- Torrents that are valid, blocks that fit the pool's buffers, and what each piece consists of.
pub record IsWorkable {F : Type 0} (h : Host F) (content : ℕ → ℕ → List ℕ) : Type 0 where
  pub valid : (key : ℕ) → IsValid (h.torrent key)
  pub buffers : (key : ℕ) → (h.torrent key).block_size ≤ length h.alloc_data_buffer
  pub pieces :
      (key piece size : ℕ)
      → get_piece_size (h.torrent key) piece ≡ some size
      → length (content key piece) ≡ size

module _ {F : Type 0} (h : Host F) (content : ℕ → ℕ → List ℕ) where
  pub record HoldsPiece (e : CachedPieceEntry) : Type 0 where
    pub size : get_piece_size (h.torrent e.key) e.piece ≡ some e.piece_size
    pub all : length (content e.key e.piece) ≡ e.piece_size
    pub cut : Holds (h.torrent e.key).block_size (content e.key e.piece) 0 e.blocks
    pub number : e.num_blocks ≡ length e.blocks
    pub small : length e.blocks < 2 ^ 31
    pub count : e.finished_blocks ≡ count_full e.blocks
    pub fresh : e.verified ≡ false

  abbrev pub IsUnfinished : CachedPieceEntry → Type 0
  IsUnfinished e = HoldsPiece e × (count_full e.blocks < length e.blocks)

  abbrev pub IsFinished : CachedPieceEntry → Type 0
  IsFinished e = HoldsPiece e × (count_full e.blocks ≡ length e.blocks)

pred_mul : (n z : ℕ) → 0 < n → n * z ≡ z + (n - 1) * z
pred_mul zero z h = absurd (omega arith)
pred_mul (suc n) z h = let e : suc n - 1 ≡ n = omega arith in rw e (omega arith)

-- The loop of the constructor leaves blocks that hold nothing yet and cut the piece.
new_blocks_lem :
    (t : Torrent) (fresh : List ℕ) (piece s : ℕ) (bytes : List ℕ)
    → IsValid t
    → get_piece_size t piece ≡ some s
    → length bytes ≡ s
    → t.block_size ≤ length fresh
    → (i p left : ℕ) → p ≡ i * t.block_size
    → (0 < left → p + (left - 1) * t.block_size < s)
    → s ≤ p + left * t.block_size
    → (bs : List CachedBlockEntry) × (new_blocks fresh t piece i left ≡ some bs)
      × Holds t.block_size bytes p bs
      × (length bs ≡ left)
      × (count_full bs ≡ 0)
unfolding new_blocks
new_blocks_lem t fresh piece s bytes v e full room i p zero at low high =
    ([], refl, omega arith, refl, refl)
new_blocks_lem t fresh piece s bytes v e full room i p (suc left) at low high =
    let low' : p + (suc left - 1) * t.block_size < s = low (omega arith) in
    let left_lem : suc left - 1 ≡ left = omega arith in
    let low'' : p + left * t.block_size < s = subst (λ n. p + n * t.block_size < s) left_lem low' in
    let here : i * t.block_size < s = omega arith in
    let (w, k, size, pos, ends, _, _, _) = get_block_size_lem t v piece i s e here in
    let mine = take t.block_size (drop p bytes) in
    let sized : w ≡ length mine =
      omega (arith, length-take-min t.block_size (drop p bytes), length-drop p bytes) in
    let b : CachedBlockEntry = record {
      buf = fresh;
      block_size = w;
      cursor = 0;
      finished = false;
    } in
    let first : HoldsBlock b mine = record {
      sized = sized;
      room = omega (arith, length-take-min t.block_size (drop p bytes));
      inside = omega arith;
      held = refl;
    } in
    let (bs, made, holds, number, none_full) =
      new_blocks_lem t fresh piece s bytes v e full room (i + 1) (p + t.block_size) left
        (omega arith) (λ q. omega (arith, pred_mul left t.block_size q)) (omega arith) in
    let empty : (0 == w) ≡ false = ground arith in
    (
      b ∷ bs,
      rw (size, made) refl,
      (first, omega arith, holds),
      ap suc number,
      rw (empty, none_full) (omega arith),
    )

calc-get_block_num :
    (t : Torrent) (piece s k : ℕ)
    → IsValid t
    → get_piece_size t piece ≡ some s
    → piece < length t.piece_map
    → get_block_num t piece ≡ some k
    → calc_full_mult s t.block_size ≡ some k
unfolding get_block_num
calc-get_block_num t piece s k v e l n =
    rw (e, le→leb piece (length t.piece_map) (omega arith), v.ready) at n

pub get_common_block_size_lem :
    (t : Torrent) → IsValid t → get_common_block_size t ≡ some t.block_size
unfolding get_common_block_size
get_common_block_size_lem t v = rw v.ready refl

module _ {F : Type 0} (h : Host F) (content : ℕ → ℕ → List ℕ) (w : IsWorkable h content) where
  pub new_piece_entry_lem :
      (key piece s : ℕ)
      → get_piece_size (h.torrent key) piece ≡ some s
      → 0 < s
      → (e : CachedPieceEntry) × (new_piece_entry h key piece ≡ some e)
        × HoldsPiece h content e
        × (e.key ≡ key)
        × (e.piece ≡ piece)
        × (count_full e.blocks < length e.blocks)
  unfolding new_piece_entry
  new_piece_entry_lem key piece s e pos =
      let t = h.torrent key in
      let v = w.valid key in
      let (inside, _) = get_piece_size-le t v piece s e in
      let (_, k, _, _, _, num, low, high) = get_block_size_lem t v piece 0 s e (omega arith) in
      let (k', num', some_block, few) = get_block_num_lem t v piece inside in
      let same : k ≡ k' = ground (arith, num, num') in
      let calc = calc-get_block_num t piece s k v e inside num in
      let full = w.pieces key piece s e in
      let (bs, made, holds, number, none_full) =
        new_blocks_lem t h.alloc_data_buffer piece s (content key piece) v e full (w.buffers key) 0
          0 k (omega arith) (λ q. omega arith) (omega arith) in
      (
        record {
          key = key;
          piece = piece;
          piece_size = s;
          num_blocks = k;
          finished_blocks = 0;
          verified = false;
          blocks = bs;
        },
        rw (e, get_common_block_size_lem t v, calc, made) refl,
        record {
          size = e;
          all = full;
          cut = holds;
          number = sym number;
          small = omega arith;
          count = sym none_full;
          fresh = refl;
        },
        refl,
        refl,
        omega arith,
      )
