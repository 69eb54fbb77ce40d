-- ===== src/Picker/Loops.antt =====
-- rcs/src/frame/piece_picker.cpp: the loops that pick blocks and pieces.
-- `added` counts what one call has picked; it stays below the number of blocks, so it does not wrap.
-- A bitmap is read at a number beyond its end only against an assertion of the bitset.
use resource_cache.Common.{
  ℕ, ◌+◌, Bool, true, false, Option, none, some, List, [], ◌∷◌, ◌++◌, leb, if◌then◌else◌, ◌>>=◌,
  get_elem?, map,
}
use resource_cache.Picker.Pieces.{
  PieceBlock, BlockState, waiting, downloading, DownloadPieceInfo, insert_downloading,
}

-- The blocks that a loop has pushed, how many they are, what it leaves, and whether it has enough.
pub record Picked (S : Type 0) : Type 0 where
  pub picked : List PieceBlock
  pub left : S
  pub added : ℕ
  pub full : Bool

-- The inner loop over the blocks of a downloading piece, from the block `b` on.
unfoldable pub pick_waiting_blocks : ℕ → ℕ → ℕ → ℕ → List BlockState → Picked (List BlockState)
pick_waiting_blocks piece num b added [] = record {
  picked = [];
  left = [];
  added = added;
  full = false;
}
pick_waiting_blocks piece num b added (waiting ∷ rest) =
    let r = pick_waiting_blocks piece num (b + 1) (added + 1) rest in
    if leb num (added + 1)
    then record {
      picked = record { piece_index = piece; block_index = b } ∷ [];
      left = downloading ∷ rest;
      added = added + 1;
      full = true;
    }
    else record {
      picked = record { piece_index = piece; block_index = b } ∷ r.picked;
      left = downloading ∷ r.left;
      added = r.added;
      full = r.full;
    }
pick_waiting_blocks piece num b added (s ∷ rest) =
    let r = pick_waiting_blocks piece num (b + 1) added rest in record r { left = s ∷ r.left }

-- A piece that the filter excludes stays as it is; of one that it admits, the blocks `r` are picked.
abbrev pub skip_piece :
    DownloadPieceInfo → Picked (List DownloadPieceInfo) → Picked (List DownloadPieceInfo)
skip_piece d q = record q { left = d ∷ q.left }

abbrev pub join_piece :
    DownloadPieceInfo
    → Picked (List BlockState)
    → Picked (List DownloadPieceInfo)
    → Picked (List DownloadPieceInfo)
join_piece d r q = record q {
  picked = r.picked ++ q.picked;
  left = record d { blocks = r.left } ∷ q.left;
}

-- The outer loop of `PickBlocksFromDownloadingPieces`, from the highest priority down.
unfoldable pub pick_downloading :
    List Bool → ℕ → ℕ → List DownloadPieceInfo → Option (Picked (List DownloadPieceInfo))
pick_downloading filter num added [] =
    some (record { picked = []; left = []; added = added; full = false })
pick_downloading filter num added (d ∷ ds) =
    let r = pick_waiting_blocks d.piece_index num 0 added d.blocks in
    elim (get_elem? filter d.piece_index) [
      | none ↦ none
      | some false ↦ (do q ← pick_downloading filter num added ds; some (skip_piece d q))
      | some true ↦ elim r.full [
        | true ↦ some (record {
          picked = r.picked;
          left = record d { blocks = r.left } ∷ ds;
          added = r.added;
          full = true;
        })
        | false ↦ (do q ← pick_downloading filter num r.added ds; some (join_piece d r q))
      ]
    ]

-- The inner loop over the blocks of a waiting piece, which looks at no state.
unfoldable pub pick_all_blocks : ℕ → ℕ → ℕ → ℕ → List BlockState → Picked (List BlockState)
pick_all_blocks piece num b added [] = record {
  picked = [];
  left = [];
  added = added;
  full = false;
}
pick_all_blocks piece num b added (s ∷ rest) =
    let r = pick_all_blocks piece num (b + 1) (added + 1) rest in
    if leb num (added + 1)
    then record {
      picked = record { piece_index = piece; block_index = b } ∷ [];
      left = downloading ∷ rest;
      added = added + 1;
      full = true;
    }
    else record {
      picked = record { piece_index = piece; block_index = b } ∷ r.picked;
      left = downloading ∷ r.left;
      added = r.added;
      full = r.full;
    }

-- The two containers of unfinished pieces.
pub record Containers : Type 0 where
  pub waiting_pieces : List DownloadPieceInfo
  pub downloading_pieces : List DownloadPieceInfo

abbrev pub skip_waiting : DownloadPieceInfo → Picked Containers → Picked Containers
skip_waiting d q = record q {
  left = record (q.left) { waiting_pieces = d ∷ q.left.waiting_pieces };
}

-- The outer loop of `PickBlocksFromWaitingPieces`, from the highest priority down.
unfoldable pub pick_waiting :
    List Bool → ℕ → ℕ → List DownloadPieceInfo → List DownloadPieceInfo → Option (Picked Containers)
pick_waiting filter num added ds [] = some (record {
  picked = [];
  left = record { waiting_pieces = []; downloading_pieces = ds };
  added = added;
  full = false;
})
pick_waiting filter num added ds (w ∷ ws) =
    let r = pick_all_blocks w.piece_index num 0 added w.blocks in
    let ds' = insert_downloading (record w { blocks = r.left }) ds in
    elim (get_elem? filter w.piece_index) [
      | none ↦ none
      | some false ↦ (do q ← pick_waiting filter num added ds ws; some (skip_waiting w q))
      | some true ↦ elim (leb num r.added) [
        | true ↦ some (record {
          picked = r.picked;
          left = record { waiting_pieces = ws; downloading_pieces = ds' };
          added = r.added;
          full = true;
        })
        | false ↦ (do
          q ← pick_waiting filter num r.added ds' ws
          some (record q { picked = r.picked ++ q.picked }))
      ]
    ]

-- The loop of `PickPieces`, which reads no filter: the first pieces move as a whole.
unfoldable pub pick_pieces_loop :
    ℕ → ℕ → List DownloadPieceInfo → List DownloadPieceInfo → List ℕ × Containers
pick_pieces_loop num added ds [] = ([], record { waiting_pieces = []; downloading_pieces = ds })
pick_pieces_loop num added ds (w ∷ ws) =
    let ds' = insert_downloading (record w { blocks = map (λ _. downloading) w.blocks }) ds in
    let more = pick_pieces_loop num (added + 1) ds' ws in
    elim (leb num (added + 1)) [
      | true ↦ (w.piece_index ∷ [], record { waiting_pieces = ws; downloading_pieces = ds' })
      | false ↦ (w.piece_index ∷ more.0, more.1)
    ]
