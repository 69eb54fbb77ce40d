-- ===== src/Traffic/Cuts.antt =====
-- rcs/src/frame/traffic_controller.cpp: the fragments of a block as they are queued.
use resource_cache.Common.{
  refl, ℕ, zero, suc, ◌+◌, ◌-◌, ◌*◌, ◌^◌, ◌<◌, ◌≡◌, Bool, true, false, Option, none, some, List, [],
  ◌∷◌, ltb, if◌then◌else◌, ◌>>=◌, arith, subst,
}
use resource_cache.Torrent.{Torrent, u64, get_block_size}
use resource_cache.Picker.Pieces.{PieceBlock}
use resource_cache.Traffic.Fragments.{
  PendingFragment, new_fragment, resolve_loop, resolve_block, resolve_block_lem, Covers,
}
use resource_cache.Traffic.Stopping.{AllOf}
use resource_cache.Traffic.Blocks.{AllNew}

-- Fragments of one block that nothing has asked for.
abbrev pub New : ℕ → PieceBlock → List PendingFragment → Type 0
New size pb fs = AllOf pb fs × AllNew size fs

-- What is cut, if it is, consists of such fragments.
abbrev CutsNew : ℕ → PieceBlock → Option (List PendingFragment) → Type 0
CutsNew size pb none = Unit
CutsNew size pb (some fs) = New size pb fs

CutsNew-if :
    (size : ℕ) (pb : PieceBlock) (b : Bool) (x y : Option (List PendingFragment))
    → CutsNew size pb x
    → CutsNew size pb y
    → CutsNew size pb (if b then x else y)
CutsNew-if size pb true x y h k = h
CutsNew-if size pb false x y h k = k

CutsNew-more :
    (now size index n : ℕ) (pb : PieceBlock) (m : Option (List PendingFragment))
    → pb.piece_index < 2 ^ 31
    → CutsNew size pb m
    → CutsNew size pb (do fs ← m; some (new_fragment now pb index (u64 (index * size)) n ∷ fs))
CutsNew-more now size index n pb none h k = tt
CutsNew-more now size index n pb (some fs) h k = ((refl, k.0), (refl, (h, refl), k.1))

resolve_loop-CutsNew :
    (now fuel : ℕ) (pb : PieceBlock) (size left index : ℕ)
    → pb.piece_index < 2 ^ 31
    → CutsNew size pb (resolve_loop now fuel pb size left index)
unfolding resolve_loop
resolve_loop-CutsNew now zero pb size left index h =
    CutsNew-if size pb (ltb 0 left) none (some []) tt (tt, tt)
resolve_loop-CutsNew now (suc fuel) pb size left index h =
    CutsNew-if size pb (ltb 0 left) _ (some [])
      (CutsNew-if size pb (ltb size left) _ _
        (CutsNew-more now size index size pb
          (resolve_loop now fuel pb size (left - size) (index + 1)) h
          (resolve_loop-CutsNew now fuel pb size (left - size) (index + 1) h))
        ((refl, tt), (refl, (h, refl), tt)))
      (tt, tt)

resolve_block-CutsNew :
    (now : ℕ) (t : Torrent) (size : ℕ) (pb : PieceBlock)
    → pb.piece_index < 2 ^ 31
    → CutsNew size pb (resolve_block now t size pb)
unfolding resolve_block
resolve_block-CutsNew now t size pb h = cut_of (get_block_size t pb.piece_index pb.block_index)
  where
    cut_of :
        (m : Option ℕ)
        → CutsNew size pb (do block_size ← m; resolve_loop now block_size pb size block_size 0)
    cut_of none = tt
    cut_of (some z) = resolve_loop-CutsNew now z pb size z 0 h

-- A block of at least one byte has a first fragment.
pub resolve_block_first :
    (now : ℕ) (t : Torrent) (size z : ℕ) (pb : PieceBlock)
    → 0 < size
    → pb.piece_index < 2 ^ 31
    → get_block_size t pb.piece_index pb.block_index ≡ some z
    → 0 < z
    → z < 2 ^ 64
    → (f : PendingFragment) × (rest : List PendingFragment) × (resolve_block now t size pb
        ≡ some (f ∷ rest))
      × New size pb (f ∷ rest)
resolve_block_first now t size z pb l h e p m =
    let (fs, q, c) = resolve_block_lem now t size z pb l e m in
    first fs q c (subst (CutsNew size pb) q (resolve_block-CutsNew now t size pb h))
  where
    first :
        (fs : List PendingFragment)
        → resolve_block now t size pb ≡ some fs
        → Covers pb size 0 0 z fs
        → New size pb fs
        → (f : PendingFragment) × (rest : List PendingFragment) × (resolve_block now t size pb
            ≡ some (f ∷ rest))
          × New size pb (f ∷ rest)
    first [] q c n = absurd (omega (arith, c))
    first (f ∷ rest) q c n = (f, rest, q, n)
