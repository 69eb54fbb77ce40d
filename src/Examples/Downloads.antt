-- ===== src/Examples/Downloads.antt =====
-- A connection that downloads a block of 16 bytes in fragments of 6, 6 and 4 bytes.
use resource_cache.Common.{
  refl, ℕ, zero, suc, ◌^◌, get_elem?, inl, inr, Bool-cases, ◌==◌, subst, ◌+◌, ◌<◌, ◌≤◌, ◌≡◌, ◌⊎◌,
  true, false, some, List, [], ◌∷◌, map, arith, length,
}
use resource_cache.Common.Results.{ok}
use resource_cache.Examples.{small_torrent, small_picker, small_picker-IsValid, last_block}
use resource_cache.Torrent.{get_block_size, get_piece_size, calc_full_mult}
use resource_cache.Picker.Pieces.{find_piece, find_finished, waiting}
use resource_cache.Picker.State.{PiecePicker}
use resource_cache.Picker.Finished.{bit_of}
use resource_cache.Picker.Invariant.{IsValid}
use resource_cache.Traffic.Idle.{Sized, Turns, try_send_data_request_lem}
use resource_cache.Traffic.Speed.{
  is_speed_limited, count_bytes, get_speed, get_current_second_speed,
}
use resource_cache.Traffic.Fragments.{PendingFragment}
use resource_cache.Traffic.Download.{
  Downloads, Surroundings, request_of, stop_download, download_timeout_proc, received_all,
  try_send_data_request,
}
use resource_cache.Traffic.Stopping.{
  Downloading, GivenUp, AskedAgain, stop_download_lem, download_timeout_proc_lem,
}
use resource_cache.Traffic.Blocks.{Downloaded, Unlimited, received_all-block}

abbrev part : ℕ → ℕ → ℕ → PendingFragment
part frag_index block_offset frag_len = record {
  block = last_block;
  frag_index = frag_index;
  block_offset = block_offset;
  frag_len = frag_len;
  tried_times = 0;
  downloading = false;
  request_time = 50;
}

abbrev first_part : PendingFragment
first_part = record (part 0 0 6) { downloading = true; tried_times = 1 }

abbrev other_parts : List PendingFragment
other_parts = part 1 6 6 ∷ part 2 12 4 ∷ []

abbrev busy : Downloads
busy = record {
  download_frag_queue = first_part ∷ other_parts;
  picker = small_picker;
  download_speed = record { speed_queue = 0 ∷ []; total_size = 0; total_size_in_queue = 0 };
  download_speed_limit = 1000;
  current_download_speed_limit = 1100;
  fragment_size = 6;
  download_block_failed = false;
  sent = [];
  calls = [];
}

abbrev at : ℕ → Surroundings
at n = record {
  torrent = some small_torrent;
  is_proxy = false;
  piece_map = true ∷ true ∷ true ∷ [];
  now = 60 + n;
}

busy-Downloading : Downloading last_block busy
unfolding find_piece
busy-Downloading = record {
  valid = small_picker-IsValid;
  one_block = (refl, (refl, (refl, tt)));
  state = refl;
}

busy-Unlimited : Unlimited 1000 1100 busy.download_speed busy.download_frag_queue
unfolding is_speed_limited count_bytes get_speed get_current_second_speed
busy-Unlimited = (refl, (refl, (refl, tt)))

stop_download_lem_example :
    (s' : Downloads) × (stop_download (some small_torrent) busy ≡ ok s')
    × GivenUp last_block busy s'
stop_download_lem_example =
    stop_download_lem small_torrent last_block busy (omega arith) busy-Downloading

download_timeout_proc_lem_example :
    (s' : Downloads) × (download_timeout_proc (at 0) busy ≡ some s')
    × ((1 < 3) × AskedAgain 16 last_block 60 first_part other_parts busy s'
        ⊎ (3 ≤ 1) × GivenUp last_block busy s')
download_timeout_proc_lem_example =
    download_timeout_proc_lem (at 0) small_torrent last_block first_part other_parts busy refl refl
      refl (record { asked_for = refl; long_ago = omega arith }) busy-Downloading

received_all-block_example :
    (s' : Downloads) × (received_all at 0 (map (request_of 16 6) (first_part ∷ other_parts)) busy
      ≡ try_send_data_request (at (0 + length other_parts)) s')
    × Downloaded small_torrent refl 6 last_block other_parts busy s'
received_all-block_example =
    received_all-block small_torrent refl 6 other_parts at 0 last_block first_part busy (λ n. refl)
      (λ n. refl) busy-Downloading refl refl (omega arith, refl)
      (refl, (omega arith, refl), (refl, (omega arith, refl), tt)) refl refl busy-Unlimited

-- A picker of which only the last piece is missing.
abbrev idle_picker : PiecePicker
idle_picker = record {
  containers = record {
    waiting_pieces =
        record {
          piece_index = 2;
          priority = 1;
          finished_blocks = 0;
          blocks = waiting ∷ waiting ∷ [];
        }
        ∷ [];
    downloading_pieces = [];
  };
  finished_pieces =
      record { piece_index = 0; verified = false }
      ∷ record { piece_index = 1; verified = false }
      ∷ [];
  verified_piece_num = 0;
  piece_map = false ∷ false ∷ false ∷ [];
}

idle_bit : (i : ℕ) → bit_of (get_elem? (false ∷ false ∷ false ∷ []) i) ≡ false
idle_bit zero = refl
idle_bit (suc zero) = refl
idle_bit (suc (suc zero)) = refl
idle_bit (suc (suc (suc i))) = refl

idle_picker-IsValid : IsValid idle_picker
unfolding find_finished
idle_picker-IsValid = record {
  placed = λ i. ground arith;
  fresh = ((refl, (refl, (refl, tt)), omega arith), tt);
  active = tt;
  agrees = λ i. ground (arith, idle_bit i);
  counted = refl;
}

block_sizes :
    (b : ℕ)
    → get_elem? (waiting ∷ waiting ∷ []) b ≡ some waiting
    → (z : ℕ) × (get_block_size small_torrent 2 b ≡ some z) × (0 < z) × (z < 2 ^ 64)
unfolding get_block_size get_piece_size calc_full_mult
block_sizes zero e = (16, refl, omega arith, omega arith)
block_sizes (suc zero) e = (4, refl, omega arith, omega arith)
block_sizes (suc (suc b)) e = absurd (cc)

idle_picker-Sized : Sized small_torrent idle_picker
unfolding find_piece
idle_picker-Sized pb (inl e) = absurd (cc)
idle_picker-Sized pb (inr e) = elim (Bool-cases (2 == pb.piece_index)) [
  | inl q ↦
      let n : 2 ≡ pb.piece_index = ground (arith, q) in
      (
        omega (arith, n),
        subst
            (λ i.
              (z : ℕ) × (get_block_size small_torrent i pb.block_index ≡ some z)
              × (0 < z)
              × (z < 2 ^ 64))
            n (block_sizes pb.block_index (rw q at e)),
      )
  | inr q ↦ absurd (cc (rw q at e))
]

abbrev idle : Downloads
idle = record busy { download_frag_queue = []; picker = idle_picker }

try_send_data_request_lem_example :
    Turns small_torrent (at 0) idle (try_send_data_request (at 0) idle)
unfolding is_speed_limited get_speed get_current_second_speed
try_send_data_request_lem_example =
    try_send_data_request_lem small_torrent (at 0) idle refl refl (omega arith) refl refl refl refl
      idle_picker-IsValid (omega arith) idle_picker-Sized
