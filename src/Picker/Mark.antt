-- ===== src/Picker/Mark.antt =====
-- rcs/src/frame/piece_picker.cpp: what the picker is told of blocks and pieces.
use resource_cache.Common.{
  ℕ, ◌+◌, Bool, true, false, not, Option, none, some, List, [], ◌∷◌, length, get_elem?, set, ltb,
  ◌==◌, if◌then◌else◌, ◌>>=◌, ◌>>◌, bc_assert,
}
use resource_cache.Torrent
use resource_cache.Torrent.{Torrent}
use resource_cache.Picker.Pieces.{
  PieceBlock, waiting, finished, is_downloading, is_finished, DownloadPieceInfo, find_piece,
  erase_piece, write_piece, insert_waiting, insert_downloading, find_finished, insert_finished,
  erase_finished, verify_finished,
}
use resource_cache.Picker.Loops.{Containers}
use resource_cache.Picker.State.{
  PiecePicker, TorrentCall, set_seed, have_piece, async_verify_piece, with_containers,
  construct_download_piece,
}
use resource_cache.Picker.Choose.{should_piece_start_downloading}

-- `IsBlockFinished`; a block beyond the end of a downloading piece is read out of bounds: `none`.
unfoldable pub is_block_finished : PiecePicker → PieceBlock → Option Bool
is_block_finished s block = elim (find_finished block.piece_index s.finished_pieces) [
  | some _ ↦ some true
  | none ↦ elim (find_piece block.piece_index s.downloading_pieces) [
    | none ↦ some false
    | some d ↦ (do state ← get_elem? d.blocks block.block_index; some (is_finished state))
  ]
]

-- The assertions that `MarkBlockFailed` and `MarkBlockFinished` make: the block is being downloaded.
unfoldable pub downloading_piece_of : PiecePicker → PieceBlock → Option DownloadPieceInfo
downloading_piece_of s block = do
  d ← find_piece block.piece_index s.downloading_pieces
  state ← get_elem? d.blocks block.block_index
  bc_assert (is_downloading state)
  some d

abbrev pub write_downloading : PiecePicker → DownloadPieceInfo → PiecePicker
write_downloading s d =
    with_containers s
      (record (s.containers) { downloading_pieces = write_piece d s.downloading_pieces })

abbrev pub erase_downloading : PiecePicker → ℕ → PiecePicker
erase_downloading s piece =
    with_containers s
      (record (s.containers) { downloading_pieces = erase_piece piece s.downloading_pieces })

unfoldable pub mark_block_failed : PiecePicker → PieceBlock → Option PiecePicker
mark_block_failed s block = do
  d ← downloading_piece_of s block
  some (write_downloading s (record d { blocks = set d.blocks block.block_index waiting }))

-- The part of `MarkBlockFinished` that a piece whose last block is there goes through.
unfoldable pub finish_piece : Option Torrent → PiecePicker → ℕ → PiecePicker × List TorrentCall
finish_piece t s piece = (
  record (erase_downloading s piece) {
    finished_pieces =
        insert_finished (record { piece_index = piece; verified = false }) s.finished_pieces;
  },
  elim t [ none ↦ [] | some _ ↦ async_verify_piece piece ∷ [] ],
)

unfoldable pub mark_block_finished :
    Option Torrent → PiecePicker → PieceBlock → Option (PiecePicker × List TorrentCall)
mark_block_finished t s block = do
  d ← downloading_piece_of s block
  let d' = record d {
    blocks = set d.blocks block.block_index finished;
    finished_blocks = d.finished_blocks + 1;
  }
  let s' = write_downloading s d'
  if ltb d'.finished_blocks (length d'.blocks) then some (s', []) else (do
    bc_assert (d'.finished_blocks == length d'.blocks)
    some (finish_piece t s' block.piece_index))

-- Where a piece that has to be downloaded again goes.
unfoldable pub requeue_piece : Containers → DownloadPieceInfo → Containers
requeue_piece c d =
    if should_piece_start_downloading d.priority c.downloading_pieces
    then record c { downloading_pieces = insert_downloading d c.downloading_pieces }
    else record c { waiting_pieces = insert_waiting d c.waiting_pieces }

unfoldable pub mark_piece_failed : Option Torrent → PiecePicker → ℕ → Option PiecePicker
mark_piece_failed t s piece = do
  d ← find_piece piece s.downloading_pieces
  let s' = erase_downloading s piece
  elim t [
    | none ↦ some s'
    | some t ↦ (do
      piece_info ← construct_download_piece t piece
      some (with_containers s' (requeue_piece s'.containers piece_info)))
  ]

unfoldable pub fail_to_verify_piece_proc : Option Torrent → PiecePicker → ℕ → Option PiecePicker
fail_to_verify_piece_proc t s piece = do
  f ← find_finished piece s.finished_pieces
  elim t [
    | none ↦ some s
    | some t ↦ (do
      piece_info ← construct_download_piece t piece
      some (record s {
        containers = record (s.containers) {
          waiting_pieces = insert_waiting piece_info s.waiting_pieces;
        };
        finished_pieces = erase_finished piece s.finished_pieces;
      }))
  ]

-- `OnVerifyPiece(ok, job)`.
unfoldable pub on_verify_piece :
    Option Torrent → PiecePicker → Bool → ℕ → Option (PiecePicker × List TorrentCall)
on_verify_piece none s ok piece = some (s, [])
on_verify_piece (some t) s false piece = do
  s' ← fail_to_verify_piece_proc (some t) s piece
  some (s', [])
on_verify_piece (some t) s true piece = do
  f ← find_finished piece s.finished_pieces
  bit ← get_elem? s.piece_map piece
  bc_assert (not bit)
  piece_num ← Torrent.get_piece_num t
  let verified = s.verified_piece_num + 1
  some (
    record s {
      finished_pieces = verify_finished piece s.finished_pieces;
      piece_map = set s.piece_map piece true;
      verified_piece_num = verified;
    },
    have_piece piece ∷ (if verified == piece_num then set_seed ∷ [] else []),
  )
