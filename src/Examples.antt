-- ===== src/Examples.antt =====
-- Concrete torrents, pickers and filters, and what the theorems say of them.
pub mod Connections
pub mod Traffic
pub mod Pickers
pub mod Texts
pub mod Streams
pub mod Proxies
pub mod Downloads
pub mod Lifetimes
pub mod Disks
pub mod DiskJobs
use resource_cache.Common.{
  ℕ, ◌+◌, ◌*◌, ◌-◌, ◌≤◌, ◌<◌, ◌≡◌, refl, true, false, none, some, List, [], ◌∷◌, length, get_elem?,
  ltb, ◌==◌, if◌then◌else◌, arith, min, zero, suc,
}
use native.Mathlib.Decide.{ℕ_discrete}
use resource_cache.Filter.{Range, plus_one, minus_one, add_rule, access_of}
use resource_cache.Filter.Ranges
use resource_cache.Filter.Bytes.{
  value, AllBytes, plus_one_bytes, minus_one_bytes, less, value-plus_one_bytes, less-ltb,
}
use resource_cache.Filter.Rule.{access_of-add_rule}
use resource_cache.Torrent.{
  Torrent, get_piece_size, get_block_size, get_block_num, get_last_block_size, calc_full_mult,
}
use resource_cache.Torrent.Blocks
use resource_cache.Torrent.Blocks.{
  get_piece_size_lem, get_block_size_lem, get_last_block_size_aborts,
}
use resource_cache.Picker.Pieces.{
  DownloadPieceInfo, PieceBlock, waiting, downloading, finished, find_piece, find_finished,
}
use resource_cache.Picker.Waiting.{IsFresh}
use resource_cache.Picker.Strategy.{get_priority, get_priority_bounds, get_priority_single}
use resource_cache.Picker.State.{PiecePicker, new, set_seed, have_piece, async_verify_piece}
use resource_cache.Picker.Choose.{pick_blocks, update_piece_priority, is_piece_finished}
use resource_cache.Picker.Mark.{
  mark_block_failed, mark_block_finished, is_block_finished, mark_piece_failed, on_verify_piece,
}
use resource_cache.Picker.Finished.{bit_of, count_true}
use resource_cache.Picker.BlockStates.{block_state}
use resource_cache.Picker.Invariant.{IsValid, Chooses, pick_blocks_lem}
use resource_cache.Picker.Construct.{Workable}
use resource_cache.Picker.Start.{new_lem}
use resource_cache.Picker.Update.{update_piece_priority-IsValid}
use resource_cache.Picker.Marks.{mark_block_failed_lem, mark_block_finished_lem}
use resource_cache.Picker.Verify.{mark_piece_failed_lem, fail_to_verify_lem, verify_lem}

-- A torrent of 100 bytes: pieces of 40, 40 and 20 bytes, in blocks of 16.
abbrev pub small_torrent : Torrent
small_torrent = record {
  torrent_info = record {
    total_size = 100;
    piece_size = 40;
    block_size = 16;
    piece_map = false ∷ false ∷ false ∷ [];
  };
  is_ready = true;
}

small_torrent-IsValid : Blocks.IsValid small_torrent
small_torrent-IsValid = record {
  ready = refl;
  sized = omega arith;
  cut = omega arith;
  blocked = omega arith;
  fits = omega arith;
  fits_int = omega arith;
  mapped = omega arith;
  covered = omega arith;
}

pub small_torrent-Workable : Workable small_torrent
small_torrent-Workable = record {
  valid = small_torrent-IsValid;
  several = omega arith;
  few = omega arith;
}

get_piece_size_lem_example :
    (s : ℕ) × (get_piece_size small_torrent 2 ≡ some s) × (0 < s) × (2 * 40 + s ≡ min (3 * 40) 100)
get_piece_size_lem_example = get_piece_size_lem small_torrent small_torrent-IsValid 2 (omega arith)

last_piece : get_piece_size small_torrent 2 ≡ some 20
unfolding get_piece_size calc_full_mult
last_piece = refl

get_block_size_lem_example :
    (z : ℕ) × (k : ℕ) × (get_block_size small_torrent 2 1 ≡ some z)
    × (0 < z)
    × (1 * 16 + z ≡ min (2 * 16) 20)
    × (get_block_num small_torrent 2 ≡ some k)
    × ((k - 1) * 16 < 20)
    × (20 ≤ k * 16)
get_block_size_lem_example =
    get_block_size_lem small_torrent small_torrent-IsValid 2 1 20 last_piece (omega arith)

get_last_block_size_aborts_example : get_last_block_size small_torrent 1 ≡ none
get_last_block_size_aborts_example =
    get_last_block_size_aborts small_torrent small_torrent-IsValid 1 (omega arith)

-- A picker of that torrent: piece 0 is there but not verified, piece 1 lacks a block that is being downloaded, and piece 2 waits.
abbrev pub small_picker : PiecePicker
small_picker = record {
  containers = record {
    waiting_pieces =
        record {
          piece_index = 2;
          priority = 1;
          finished_blocks = 0;
          blocks = waiting ∷ waiting ∷ [];
        }
        ∷ [];
    downloading_pieces =
        record {
          piece_index = 1;
          priority = 3;
          finished_blocks = 2;
          blocks = finished ∷ downloading ∷ finished ∷ [];
        }
        ∷ [];
  };
  finished_pieces = record { piece_index = 0; verified = false } ∷ [];
  verified_piece_num = 0;
  piece_map = false ∷ false ∷ false ∷ [];
}

no_bit : (i : ℕ) → bit_of (get_elem? (false ∷ false ∷ false ∷ []) i) ≡ false
no_bit zero = refl
no_bit (suc zero) = refl
no_bit (suc (suc zero)) = refl
no_bit (suc (suc (suc i))) = refl

pub small_picker-IsValid : IsValid small_picker
unfolding find_finished
small_picker-IsValid = record {
  placed = λ i. ground arith;
  fresh = ((refl, (refl, (refl, tt)), omega arith), tt);
  active = ((refl, omega arith), tt);
  agrees = λ i. ground (arith, no_bit i);
  counted = refl;
}

pick_blocks_lem_example :
    (s' : PiecePicker) × (blocks : List PieceBlock) × (pick_blocks small_picker
        (true ∷ true ∷ true ∷ [])
        1
      ≡ some (s', blocks))
    × Chooses small_picker (true ∷ true ∷ true ∷ []) 1 s' blocks
pick_blocks_lem_example =
    pick_blocks_lem small_picker (true ∷ true ∷ true ∷ []) small_picker-IsValid (omega arith) 1
      (omega arith)

abbrev pub last_block : PieceBlock
last_block = record { piece_index = 1; block_index = 1 }

mark_block_failed_lem_example :
    (s' : PiecePicker) × (mark_block_failed small_picker last_block ≡ some s')
    × IsValid s'
    × (block_state s'.downloading_pieces last_block ≡ some waiting)
    × (s'.piece_map ≡ small_picker.piece_map)
unfolding find_piece
mark_block_failed_lem_example =
    mark_block_failed_lem small_picker small_picker-IsValid last_block _ refl refl

mark_block_finished_lem_example :
    (s' : PiecePicker) × (mark_block_finished (some small_torrent) small_picker last_block
      ≡ some (s', async_verify_piece 1 ∷ []))
    × IsValid s'
    × (is_block_finished s' last_block ≡ some true)
    × (s'.piece_map ≡ small_picker.piece_map)
unfolding find_piece
mark_block_finished_lem_example =
    mark_block_finished_lem small_picker small_picker-IsValid last_block _ refl refl
      (some small_torrent)

fail_to_verify_lem_example :
    (s' : PiecePicker) × (on_verify_piece (some small_torrent) small_picker false 0 ≡ some (s', []))
    × IsValid s'
    × (s'.piece_map ≡ small_picker.piece_map)
    × (find_finished 0 s'.finished_pieces ≡ none)
    × ((d : DownloadPieceInfo) × (find_piece 0 s'.waiting_pieces ≡ some d) × IsFresh d)
unfolding find_finished
fail_to_verify_lem_example =
    fail_to_verify_lem small_picker small_picker-IsValid small_torrent 0 _ small_torrent-Workable
      refl refl refl

verify_lem_example :
    (s' : PiecePicker) × (on_verify_piece (some small_torrent) small_picker true 0
      ≡ some (
        s',
        have_piece 0
            ∷ (if count_true s'.piece_map == length s'.piece_map then set_seed ∷ [] else []),
      ))
    × IsValid s'
    × (is_piece_finished s' 0 ≡ true)
    × (s'.piece_map ≡ true ∷ false ∷ false ∷ [])
unfolding find_finished
verify_lem_example =
    verify_lem small_picker small_picker-IsValid small_torrent 0 _ small_torrent-Workable refl refl
      refl

-- A filter on the addresses 0 to 255 whose accesses are numbers: 20 to 29 have access 1.
abbrev small_filter : List (Range ℕ)
small_filter =
    record { start = 0; access = 0 }
    ∷ record { start = 20; access = 1 }
    ∷ record { start = 30; access = 0 }
    ∷ []

small_filter-IsValid : Ranges.IsValid 255 small_filter
small_filter-IsValid = (
  refl,
  (
    omega arith,
    omega arith,
    (λ e. omega (arith, e)),
    (omega arith, omega arith, (λ e. omega (arith, e)), tt),
  ),
)

access_of-add_rule_example :
    (l' : List (Range ℕ)) × (add_rule 255 ℕ_discrete 25 40 1 small_filter ≡ some l')
    × Ranges.IsValid 255 l'
    × (access_of 35 l' ≡ some 1)
access_of-add_rule_example =
    access_of-add_rule 255 ℕ_discrete 25 40 35 1 small_filter (omega arith) (omega arith)
      (omega arith) small_filter-IsValid

value-plus_one_bytes_example :
    AllBytes (plus_one_bytes (1 ∷ 255 ∷ []))
    × AllBytes (minus_one_bytes (1 ∷ 255 ∷ []))
    × (value (plus_one_bytes (1 ∷ 255 ∷ [])) ≡ plus_one 65535 511)
    × (value (minus_one_bytes (1 ∷ 255 ∷ [])) ≡ minus_one 65535 511)
value-plus_one_bytes_example = value-plus_one_bytes (1 ∷ 255 ∷ []) (omega arith, (omega arith, tt))

less-ltb_example : less (1 ∷ 255 ∷ []) (2 ∷ 0 ∷ []) ≡ ltb 511 512
less-ltb_example =
    less-ltb (1 ∷ 255 ∷ []) (2 ∷ 0 ∷ []) (omega arith, (omega arith, tt))
      (omega arith, (omega arith, tt)) refl

new_lem_example :
    (s : PiecePicker) × (new small_torrent (true ∷ false ∷ true ∷ []) ≡ some (s, []))
    × IsValid s
    × (s.piece_map ≡ true ∷ false ∷ true ∷ [])
new_lem_example = new_lem small_torrent small_torrent-Workable (true ∷ false ∷ true ∷ []) refl
