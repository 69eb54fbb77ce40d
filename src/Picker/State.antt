-- ===== src/Picker/State.antt =====
-- rcs/src/frame/piece_picker.cpp: the state of a `PiecePicker` and its constructor.
use resource_cache.Common.{
  ℕ, ◌+◌, ◌%◌, ◌^◌, Bool, true, false, Option, some, List, [], ◌∷◌, length, replicate, ◌==◌,
  if◌then◌else◌, ◌>>=◌, ◌>>◌, bc_assert,
}
use resource_cache.Torrent
use resource_cache.Torrent.{Torrent}
use resource_cache.Picker.Pieces.{
  waiting, DownloadPieceInfo, FinishedPieceInfo, insert_waiting, insert_finished,
}
use resource_cache.Picker.Strategy.{get_priority}
use resource_cache.Picker.Loops.{Containers}

pub record PiecePicker : Type 0 where
  pub containers : Containers
  pub open containers use *
  pub finished_pieces : List FinishedPieceInfo
  pub verified_piece_num : ℕ
  pub piece_map : List Bool

-- What the picker calls of its torrent.
pub data TorrentCall : Type 0 where
  set_seed : TorrentCall
  have_piece : ℕ → TorrentCall
  async_verify_piece : ℕ → TorrentCall

abbrev pub with_containers : PiecePicker → Containers → PiecePicker
with_containers s c = record s { containers = c }

unfoldable pub construct_download_piece : Torrent → ℕ → Option DownloadPieceInfo
construct_download_piece t piece = do
  piece_num ← Torrent.get_piece_num t
  priority ← get_priority (piece_num % 2 ^ 32) piece
  block_num ← Torrent.get_block_num t piece
  some (record {
    piece_index = piece;
    priority = priority;
    finished_blocks = 0;
    blocks = replicate (block_num % 2 ^ 32) waiting;
  })

-- The loop of `ConstructPieceInfo` over the bits of the map from number `piece` on.
unfoldable pub construct_loop : Torrent → ℕ → List Bool → PiecePicker → Option PiecePicker
construct_loop t piece [] s = some s
construct_loop t piece (true ∷ bits) s = construct_loop t (piece + 1) bits (record s {
  finished_pieces =
      insert_finished (record { piece_index = piece; verified = true }) s.finished_pieces;
  verified_piece_num = s.verified_piece_num + 1;
})
construct_loop t piece (false ∷ bits) s = do
  piece_info ← construct_download_piece t piece
  construct_loop t (piece + 1) bits (
      with_containers s
        (record (s.containers) { waiting_pieces = insert_waiting piece_info s.waiting_pieces }))

-- The constructor, with `ConstructPieceInfo`.
unfoldable pub new : Torrent → List Bool → Option (PiecePicker × List TorrentCall)
new t piece_map = do
  piece_num ← Torrent.get_piece_num t
  bc_assert (piece_num == length piece_map)
  s ← construct_loop t 0 piece_map (record {
    containers = record { waiting_pieces = []; downloading_pieces = [] };
    finished_pieces = [];
    verified_piece_num = 0;
    piece_map = piece_map;
  })
  some (s, if s.verified_piece_num == piece_num then set_seed ∷ [] else [])
