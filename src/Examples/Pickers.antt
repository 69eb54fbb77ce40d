-- ===== src/Examples/Pickers.antt =====
-- A picker as its constructor leaves it, and what is reached from there.
use resource_cache.Common.{◌≡◌, refl, false, some, [], ◌∷◌}
use resource_cache.Torrent
use resource_cache.Torrent.{get_piece_size, calc_full_mult}
use resource_cache.Examples.{small_torrent, small_torrent-Workable}
use resource_cache.Picker.Pieces.{waiting, insert_waiting}
use resource_cache.Picker.Strategy.{get_priority}
use resource_cache.Picker.State.{PiecePicker, construct_download_piece, construct_loop, new}
use resource_cache.Picker.Choose.{update_piece_priority}
use resource_cache.Picker.Invariant.{IsValid}
use resource_cache.Picker.Verify.{Owns}
use resource_cache.Picker.Reached.{built, prioritised, Reached-IsValid}

abbrev started_picker : PiecePicker
started_picker = record {
  containers = record {
    waiting_pieces =
        record {
          piece_index = 0;
          priority = 6;
          finished_blocks = 0;
          blocks = waiting ∷ waiting ∷ waiting ∷ [];
        }
        ∷ record {
          piece_index = 1;
          priority = 3;
          finished_blocks = 0;
          blocks = waiting ∷ waiting ∷ waiting ∷ [];
        }
        ∷ record {
          piece_index = 2;
          priority = 1;
          finished_blocks = 0;
          blocks = waiting ∷ waiting ∷ [];
        }
        ∷ [];
    downloading_pieces = [];
  };
  finished_pieces = [];
  verified_piece_num = 0;
  piece_map = false ∷ false ∷ false ∷ [];
}

started : new small_torrent (false ∷ false ∷ false ∷ []) ≡ some (started_picker, [])
unfolding new construct_loop construct_download_piece Torrent.get_piece_num get_priority
    Torrent.get_block_num get_piece_size calc_full_mult insert_waiting
started = refl

Reached-IsValid_example :
    IsValid (update_piece_priority started_picker 2 7)
    × Owns small_torrent (update_piece_priority started_picker 2 7)
Reached-IsValid_example =
    Reached-IsValid small_torrent (update_piece_priority started_picker 2 7) small_torrent-Workable
      (prioritised started_picker 2 7
        (built started_picker (false ∷ false ∷ false ∷ []) [] refl started))
