-- ===== src/Picker/Pieces.antt =====
-- rcs/src/frame/inc/piece_picker.hpp: the pieces that a `PiecePicker` keeps, and its containers.
-- The multi-index `downloading_pieces_` is the list of its priority view from the back, so the highest
-- priority first and the newest first among equals; its other index forbids two pieces of one number.
-- The multiset `waiting_pieces_` is the list in its order: the highest priority first, the oldest
-- first among equals.
use resource_cache.Common.{
  ℕ, Bool, true, false, Option, none, some, List, [], ◌∷◌, ltb, leb, ◌==◌, if◌then◌else◌,
}

-- Two ints that the callers never make negative.
pub record PieceBlock : Type 0 where
  pub piece_index : ℕ
  pub block_index : ℕ

pub data BlockState : Type 0 where
  waiting downloading finished : BlockState

abbrev pub is_waiting : BlockState → Bool
is_waiting waiting = true
is_waiting _ = false

abbrev pub is_downloading : BlockState → Bool
is_downloading downloading = true
is_downloading _ = false

abbrev pub is_finished : BlockState → Bool
is_finished finished = true
is_finished _ = false

pub record DownloadPieceInfo : Type 0 where
  pub piece_index : ℕ
  pub priority : ℕ
  pub finished_blocks : ℕ
  pub blocks : List BlockState

pub record FinishedPieceInfo : Type 0 where
  pub piece_index : ℕ
  pub verified : Bool

-- `find` of the number index, and of the multiset by the loop of `UpdatePiecePriority`.
unfoldable pub find_piece : ℕ → List DownloadPieceInfo → Option DownloadPieceInfo
find_piece i [] = none
find_piece i (d ∷ ds) = if d.piece_index == i then some d else find_piece i ds

unfoldable pub erase_piece : ℕ → List DownloadPieceInfo → List DownloadPieceInfo
erase_piece i [] = []
erase_piece i (d ∷ ds) = if d.piece_index == i then ds else d ∷ erase_piece i ds

-- A write through the `const_cast` of an iterator: the element keeps its place.
unfoldable pub write_piece : DownloadPieceInfo → List DownloadPieceInfo → List DownloadPieceInfo
write_piece d [] = []
write_piece d (x ∷ xs) = if x.piece_index == d.piece_index then d ∷ xs else x ∷ write_piece d xs

-- `waiting_pieces_.insert`, behind the pieces of the same priority.
unfoldable pub insert_waiting : DownloadPieceInfo → List DownloadPieceInfo → List DownloadPieceInfo
insert_waiting d [] = d ∷ []
insert_waiting d (x ∷ xs) =
    if ltb x.priority d.priority then d ∷ x ∷ xs else x ∷ insert_waiting d xs

unfoldable pub place_downloading :
    DownloadPieceInfo → List DownloadPieceInfo → List DownloadPieceInfo
place_downloading d [] = d ∷ []
place_downloading d (x ∷ xs) =
    if leb x.priority d.priority then d ∷ x ∷ xs else x ∷ place_downloading d xs

-- `downloading_pieces_.insert`: refused, with no word to the caller, where the number is there.
unfoldable pub insert_downloading :
    DownloadPieceInfo → List DownloadPieceInfo → List DownloadPieceInfo
insert_downloading d xs = elim (find_piece d.piece_index xs) [
  | none ↦ place_downloading d xs
  | some _ ↦ xs
]

unfoldable pub find_finished : ℕ → List FinishedPieceInfo → Option FinishedPieceInfo
find_finished i [] = none
find_finished i (f ∷ fs) = if f.piece_index == i then some f else find_finished i fs

-- `finished_pieces_.insert`: a number that is there keeps its entry.
unfoldable pub insert_finished : FinishedPieceInfo → List FinishedPieceInfo → List FinishedPieceInfo
insert_finished f fs = elim (find_finished f.piece_index fs) [ none ↦ f ∷ fs | some _ ↦ fs ]

unfoldable pub erase_finished : ℕ → List FinishedPieceInfo → List FinishedPieceInfo
erase_finished i [] = []
erase_finished i (f ∷ fs) = if f.piece_index == i then fs else f ∷ erase_finished i fs

-- `iter->second.verified = true`.
unfoldable pub verify_finished : ℕ → List FinishedPieceInfo → List FinishedPieceInfo
verify_finished i [] = []
verify_finished i (f ∷ fs) =
    if f.piece_index == i then record f { verified = true } ∷ fs else f ∷ verify_finished i fs
