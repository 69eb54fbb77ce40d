-- ===== src/Picker/Construct.antt =====
-- What the constructor of the picker builds.
use resource_cache.Common.{
  ℕ, zero, suc, ◌+◌, ◌-◌, ◌*◌, ◌/◌, ◌%◌, ◌^◌, ◌<◌, ◌≡◌, refl, sym, ◌∙◌, some, List, [], ◌∷◌, arith,
  length, replicate, length-replicate,
}
use resource_cache.Torrent
use resource_cache.Torrent.{Torrent}
use resource_cache.Torrent.Blocks
use resource_cache.Torrent.Blocks.{get_block_num_lem}
use resource_cache.Picker.Pieces.{BlockState, waiting, is_finished, DownloadPieceInfo}
use resource_cache.Picker.Strategy.{get_priority_lem}
use resource_cache.Picker.State.{construct_download_piece}
use resource_cache.Picker.Containers.{All}
use resource_cache.Picker.Blocks.{count_blocks}
use resource_cache.Picker.BlockStates.{IsActive}
use resource_cache.Picker.Waiting.{IsFresh}

-- A torrent for which the picker can construct every piece.
pub record Workable (t : Torrent) : Type 0 where
  pub valid : Blocks.IsValid t
  pub several : 1 < length t.piece_map
  pub few : length t.piece_map * 5 < 2 ^ 32

All-replicate : (n : ℕ) → All (λ s. s ≡ waiting) (replicate n waiting)
All-replicate zero = tt
All-replicate (suc n) = (refl, All-replicate n)

pub fresh-IsActive : (d : DownloadPieceInfo) → IsFresh d → IsActive d
fresh-IsActive d f = (f.0 ∙ sym (none_finished d.blocks f.1), omega arith)
  where
    none_finished :
        (bs : List BlockState) → All (λ s. s ≡ waiting) bs → count_blocks is_finished bs ≡ 0
    none_finished [] h = refl
    none_finished (s ∷ bs) h = rw h.0 (omega (arith, none_finished bs h.1))

module _ (t : Torrent) (w : Workable t) where
  pub construct_download_piece_lem :
      (piece : ℕ)
      → piece < length t.piece_map
      → (d : DownloadPieceInfo) × (construct_download_piece t piece ≡ some d)
        × (d.piece_index ≡ piece)
        × IsFresh d
  unfolding construct_download_piece Torrent.get_piece_num
  construct_download_piece_lem piece h =
      let (k, e, pos, small) = get_block_num_lem t w.valid piece h in
      let n : length t.piece_map % 2 ^ 32 ≡ length t.piece_map = omega (arith, w.few) in
      let m : k % 2 ^ 32 ≡ k = omega arith in
      let p = get_priority_lem (length t.piece_map) piece w.several w.few h in
      (
        record {
          piece_index = piece;
          priority = (length t.piece_map - piece - 1) * 5 / (length t.piece_map - 1) + 1;
          finished_blocks = 0;
          blocks = replicate k waiting;
        },
        rw (e, w.valid.ready, n, p, m),
        refl,
        (refl, All-replicate k, rw (length-replicate k waiting) pos),
      )
