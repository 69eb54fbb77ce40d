-- ===== src/Picker/BlockStates.antt =====
-- The states of blocks in a container of pieces, by the numbers of their pieces.
use resource_cache.Common.{
  ℕ, zero, suc, ◌+◌, ◌<◌, ◌≡◌, ◌≢◌, ◌⊎◌, refl, sym, ap, ◌∙◌, inl, inr, Bool, true, false, Option,
  none, some, List, [], ◌∷◌, ◌==◌, if◌then◌else◌, ◌>>=◌, arith, Bool-cases, get_elem?, length,
}
use resource_cache.Picker.Pieces.{
  PieceBlock, BlockState, waiting, is_downloading, is_finished, DownloadPieceInfo, find_piece,
}
use resource_cache.Picker.Containers.{All, All-map, occurs, find_piece-none}
use resource_cache.Picker.Blocks.{count_blocks, AllTaken, get_elem?-AllTaken}

-- The state of a block, by the number of its piece.
abbrev pub block_state : List DownloadPieceInfo → PieceBlock → Option BlockState
block_state ds pb = find_piece pb.piece_index ds >>= λ d. get_elem? d.blocks pb.block_index

-- A downloading piece counts its finished blocks, and has others.
abbrev pub IsActive : DownloadPieceInfo → Type 0
IsActive d =
    (d.finished_blocks ≡ count_blocks is_finished d.blocks) × (d.finished_blocks < length d.blocks)

abbrev pub total_downloading : List DownloadPieceInfo → ℕ
total_downloading [] = 0
total_downloading (d ∷ ds) = count_blocks is_downloading d.blocks + total_downloading ds

pub block_state-cons :
    (d : DownloadPieceInfo) (ds : List DownloadPieceInfo) (pb : PieceBlock)
    → block_state (d ∷ ds) pb ≡ (
        if d.piece_index == pb.piece_index
        then get_elem? d.blocks pb.block_index
        else block_state ds pb)
unfolding find_piece
block_state-cons d ds pb = elim (Bool-cases (d.piece_index == pb.piece_index)) [
  | inl e ↦ rw e
  | inr e ↦ rw e
]

pub block_state-here :
    (d : DownloadPieceInfo) (ds : List DownloadPieceInfo) (pb : PieceBlock)
    → pb.piece_index ≡ d.piece_index
    → block_state (d ∷ ds) pb ≡ get_elem? d.blocks pb.block_index
block_state-here d ds pb e =
    let q : (d.piece_index == pb.piece_index) ≡ true = ground arith in
    block_state-cons d ds pb ∙ rw q

pub block_state-there :
    (d : DownloadPieceInfo) (ds : List DownloadPieceInfo) (pb : PieceBlock)
    → pb.piece_index ≢ d.piece_index
    → block_state (d ∷ ds) pb ≡ block_state ds pb
block_state-there d ds pb e =
    let q : (d.piece_index == pb.piece_index) ≡ false = ground arith in
    block_state-cons d ds pb ∙ rw q

-- A block with a state stands in a piece that is there.
pub block_state-absent :
    (ds : List DownloadPieceInfo) (pb : PieceBlock) {s : BlockState}
    → block_state ds pb ≡ some s
    → occurs pb.piece_index ds ≢ 0
block_state-absent ds pb e o =
    let n : block_state ds pb ≡ none = rw (find_piece-none pb.piece_index ds o) in cc

-- The blocks of one piece are apart from those of others.
pub pieces_apart :
    (piece : ℕ) (ds : List DownloadPieceInfo) (P Q : PieceBlock → Type 0) (xs ys : List PieceBlock)
    → occurs piece ds ≡ 0
    → ((pb : PieceBlock) → P pb → pb.piece_index ≡ piece)
    → ((pb : PieceBlock) → Q pb → block_state ds pb ≡ some waiting)
    → All P xs
    → All Q ys
    → All (λ x. All (λ y. x ≢ y) ys) xs
pieces_apart piece ds P Q xs ys o p q ps qs =
    All-map P _ xs
      (λ x h.
        All-map Q _ ys
          (λ y k e.
            block_state-absent ds y (q y k)
              (ap (λ i. occurs i ds) (ap (λ z. z.piece_index) (sym e) ∙ p x h) ∙ o))
          qs)
      ps

-- A block that waits behind the first piece, none of whose blocks waits, waits in the others.
pub waits_behind :
    (d : DownloadPieceInfo) (ds : List DownloadPieceInfo) (pb : PieceBlock)
    → AllTaken d.blocks
    → block_state (d ∷ ds) pb ≡ some waiting
    → block_state ds pb ≡ some waiting
waits_behind d ds pb a e = elim (Bool-cases (d.piece_index == pb.piece_index)) [
  | inl q ↦ absurd (
      get_elem?-AllTaken d.blocks pb.block_index a
        (sym (block_state-here d ds pb (ground arith)) ∙ e))
  | inr q ↦ sym (block_state-there d ds pb (ground arith)) ∙ e
]

-- A block of a piece that the filter admits is not in a piece that it excludes.
pub not_excluded :
    (filter : List Bool) (d : DownloadPieceInfo) (pb : PieceBlock)
    → get_elem? filter d.piece_index ≡ some false
    → get_elem? filter pb.piece_index ≡ some true
    → pb.piece_index ≢ d.piece_index
not_excluded filter d pb e f q =
    let g : get_elem? filter pb.piece_index ≡ some false = ap (get_elem? filter) q ∙ e in
    let h : some false ≡ some true = sym g ∙ f in cc

pub get_elem?-below :
    (bs : List Bool) (i : ℕ)
    → i < length bs
    → (get_elem? bs i ≡ some false) ⊎ (get_elem? bs i ≡ some true)
get_elem?-below [] i h = absurd (omega arith)
get_elem?-below (false ∷ bs) zero h = inl refl
get_elem?-below (true ∷ bs) zero h = inr refl
get_elem?-below (b ∷ bs) (suc i) h = get_elem?-below bs i (omega arith)
