-- ===== src/Picker/Choose.antt =====
-- rcs/src/frame/piece_picker.cpp: the choice of what to download, and the priorities.
use resource_cache.Common.{
  ℕ, ◌-◌, Bool, false, Option, none, some, List, [], ◌∷◌, ◌++◌, length, ltb, leb, ◌==◌,
  if◌then◌else◌, ◌>>=◌, ◌>>◌, bc_assert,
}
use resource_cache.Picker.Pieces.{
  PieceBlock, DownloadPieceInfo, find_piece, erase_piece, insert_waiting, insert_downloading,
  find_finished,
}
use resource_cache.Picker.Loops.{Containers, pick_downloading, pick_waiting, pick_pieces_loop}
use resource_cache.Picker.State.{PiecePicker, with_containers}

unfoldable pub pick_blocks_from_downloading_pieces :
    PiecePicker → List Bool → ℕ → Option (PiecePicker × List PieceBlock)
pick_blocks_from_downloading_pieces s filter num_blocks = do
  q ← pick_downloading filter num_blocks 0 s.downloading_pieces
  some (with_containers s (record (s.containers) { downloading_pieces = q.left }), q.picked)

unfoldable pub pick_blocks_from_waiting_pieces :
    PiecePicker → List Bool → ℕ → Option (PiecePicker × List PieceBlock)
pick_blocks_from_waiting_pieces s filter num_blocks = do
  q ← pick_waiting filter num_blocks 0 s.downloading_pieces s.waiting_pieces
  some (with_containers s q.left, q.picked)

-- `PickBlocks`, called with an empty vector of blocks.
unfoldable pub pick_blocks : PiecePicker → List Bool → ℕ → Option (PiecePicker × List PieceBlock)
pick_blocks s filter num_blocks = do
  (s', blocks) ← pick_blocks_from_downloading_pieces s filter num_blocks
  bc_assert (leb (length blocks) num_blocks)
  if leb num_blocks (length blocks) then some (s', blocks) else (do
    (s'', more) ← pick_blocks_from_waiting_pieces s' filter (num_blocks - length blocks)
    some (s'', blocks ++ more))

-- `PickPieces`, whose filter nothing reads.
unfoldable pub pick_pieces : PiecePicker → List Bool → ℕ → PiecePicker × List ℕ
pick_pieces s filter num_pieces =
    let r = pick_pieces_loop num_pieces 0 s.downloading_pieces s.waiting_pieces in
    (with_containers s r.1, r.0)

-- `prio_view.rbegin()` is the downloading piece of the highest priority.
unfoldable pub should_piece_start_downloading : ℕ → List DownloadPieceInfo → Bool
should_piece_start_downloading priority [] = false
should_piece_start_downloading priority (d ∷ ds) = ltb d.priority priority

unfoldable pub update_waiting : Containers → DownloadPieceInfo → ℕ → Containers
update_waiting c d priority =
    let piece_info = record d { priority = priority } in
    let rest = erase_piece d.piece_index c.waiting_pieces in
    if d.priority == priority
    then c
    else if should_piece_start_downloading priority c.downloading_pieces
    then record {
      waiting_pieces = rest;
      downloading_pieces = insert_downloading piece_info c.downloading_pieces;
    }
    else record c { waiting_pieces = insert_waiting piece_info rest }

unfoldable pub update_downloading : Containers → DownloadPieceInfo → ℕ → Containers
update_downloading c d priority = if d.priority == priority then c else record c {
  downloading_pieces =
      insert_downloading (record d { priority = priority })
        (erase_piece d.piece_index c.downloading_pieces);
}

unfoldable pub update_piece_priority : PiecePicker → ℕ → ℕ → PiecePicker
update_piece_priority s piece priority = elim (find_piece piece s.downloading_pieces) [
  | some d ↦ with_containers s (update_downloading s.containers d priority)
  | none ↦ elim (find_piece piece s.waiting_pieces) [
    | some d ↦ with_containers s (update_waiting s.containers d priority)
    | none ↦ s
  ]
]

unfoldable pub set_piece_highest_priority : PiecePicker → ℕ → PiecePicker
set_piece_highest_priority s piece = update_piece_priority s piece 7

unfoldable pub is_piece_finished : PiecePicker → ℕ → Bool
is_piece_finished s piece = elim (find_finished piece s.finished_pieces) [
  | none ↦ false
  | some f ↦ f.verified
]
