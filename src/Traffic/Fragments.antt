-- ===== src/Traffic/Fragments.antt =====
-- rcs/src/frame/traffic_controller.cpp: how a block is cut into the fragments that are asked for.
use resource_cache.Common.{
  ℕ, zero, suc, ◌+◌, ◌-◌, ◌*◌, ◌^◌, ◌≤◌, ◌<◌, ◌≡◌, refl, Bool, false, Option, none, some, List, [],
  ◌∷◌, ltb, if◌then◌else◌, ◌>>=◌, arith, Bool-cases, inl, inr, subst,
}
use resource_cache.Torrent.{Torrent, u64, get_block_size}
use resource_cache.Picker.Pieces.{PieceBlock}

pub record PendingFragment : Type 0 where
  pub block : PieceBlock
  pub frag_index : ℕ
  pub block_offset : ℕ
  pub frag_len : ℕ
  pub tried_times : ℕ
  pub downloading : Bool
  pub request_time : ℕ

-- A fragment that nothing has asked for yet.
abbrev pub new_fragment : ℕ → PieceBlock → ℕ → ℕ → ℕ → PendingFragment
new_fragment now pb frag_index block_offset frag_len = record {
  block = pb;
  frag_index = frag_index;
  block_offset = block_offset;
  frag_len = frag_len;
  tried_times = 0;
  downloading = false;
  request_time = now;
}

-- The loop of `ResolveBlockToDownloadFragments` on fuel, for a block of which `block_size` is left.
unfoldable pub resolve_loop : ℕ → ℕ → PieceBlock → ℕ → ℕ → ℕ → Option (List PendingFragment)
resolve_loop now zero pb fragment_size block_size index = if ltb 0 block_size then none else some []
resolve_loop now (suc fuel) pb fragment_size block_size index =
    let rest = resolve_loop now fuel pb fragment_size (block_size - fragment_size) (index + 1) in
    let offset = u64 (index * fragment_size) in
    if ltb 0 block_size
    then (if ltb fragment_size block_size
        then (do fs ← rest; some (new_fragment now pb index offset fragment_size ∷ fs))
        else some (new_fragment now pb index offset block_size ∷ []))
    else some []

-- `ResolveBlockToDownloadFragments` for the torrent that is still there, with as much fuel as bytes.
unfoldable pub resolve_block : ℕ → Torrent → ℕ → PieceBlock → Option (List PendingFragment)
resolve_block now t fragment_size pb = do
  block_size ← get_block_size t pb.piece_index pb.block_index
  resolve_loop now block_size pb fragment_size block_size 0

-- The fragments follow one another from `from` to `to`, each with 1 to `most` bytes, numbered from `index` on.
abbrev pub Covers : PieceBlock → ℕ → ℕ → ℕ → ℕ → List PendingFragment → Type 0
Covers pb most index from to [] = from ≡ to
Covers pb most index from to (f ∷ fs) =
    (f.block ≡ pb)
    × (f.frag_index ≡ index)
    × (f.block_offset ≡ from)
    × (0 < f.frag_len)
    × (f.frag_len ≤ most)
    × (f.downloading ≡ false)
    × Covers pb most (index + 1) (from + f.frag_len) to fs

-- With as much fuel as bytes, the loop cuts what is left into fragments.
resolve_loop-Covers :
    (now fuel : ℕ) (pb : PieceBlock) (size left index : ℕ)
    → 0 < size
    → left ≤ fuel
    → index * size + left < 2 ^ 64
    → (fs : List PendingFragment) × (resolve_loop now fuel pb size left index ≡ some fs)
      × Covers pb size index (index * size) (index * size + left) fs
unfolding resolve_loop
resolve_loop-Covers now zero pb size left index p h k = ([], rw (le→ltb_false left h), omega arith)
  where
    le→ltb_false : (n : ℕ) → n ≤ 0 → ltb 0 n ≡ false
    le→ltb_false n h = ground arith
resolve_loop-Covers now (suc fuel) pb size left index p h k =
    let offset : u64 (index * size) ≡ index * size = omega arith in
    elim (Bool-cases (ltb 0 left)) [
      | inr e ↦ ([], rw e, ground arith)
      | inl e ↦ elim (Bool-cases (ltb size left)) [
        | inl f ↦
            let next : (index + 1) * size ≡ index * size + size = omega arith in
            let end : (index + 1) * size + (left - size) ≡ index * size + left = ground arith in
            let (fs, g, c) =
              resolve_loop-Covers now fuel pb size (left - size) (index + 1) p (ground arith)
                (omega (arith, end)) in
            (
              new_fragment now pb index (index * size) size ∷ fs,
              rw (e, f, g, offset),
              (
                refl,
                refl,
                refl,
                p,
                omega arith,
                refl,
                subst (λ z. Covers pb size (index + 1) z (index * size + left) fs) next
                    (subst (λ z. Covers pb size (index + 1) ((index + 1) * size) z fs) end c),
              ),
            )
        | inr f ↦ (
          new_fragment now pb index (index * size) left ∷ [],
          rw (e, f, offset),
          (refl, refl, refl, ground arith, ground arith, refl, refl),
        )
      ]
    ]

-- `ResolveBlockToDownloadFragments`, with a fragment size above 0, ends and cuts the block into fragments that follow one another from its first byte to its last, each of 1 to that many bytes, numbered from 0 on and asked for by nobody yet.
pub resolve_block_lem :
    (now : ℕ) (t : Torrent) (size z : ℕ) (pb : PieceBlock)
    → 0 < size
    → get_block_size t pb.piece_index pb.block_index ≡ some z
    → z < 2 ^ 64
    → (fs : List PendingFragment) × (resolve_block now t size pb ≡ some fs)
      × Covers pb size 0 0 z fs
unfolding resolve_block
resolve_block_lem now t size z pb p e h =
    let (fs, f, c) = resolve_loop-Covers now z pb size z 0 p (omega arith) (omega arith) in
    let from : 0 * size ≡ 0 = omega arith in
    let to : 0 * size + z ≡ z = omega arith in
    (
      fs,
      rw (e, f),
      subst (λ x. Covers pb size 0 x z fs) from
          (subst (λ y. Covers pb size 0 (0 * size) y fs) to c),
    )
