-- ===== src/Examples/Traffic.antt =====
-- Fragments, requests and speeds of a concrete connection, and what the theorems say of them.
use resource_cache.Common.{◌-◌, ◌^◌, ◌≡◌, refl, true, some, List, [], ◌∷◌, arith}
use resource_cache.Torrent.{get_block_size, get_piece_size, calc_full_mult}
use resource_cache.Examples.{small_torrent}
use resource_cache.Picker.Pieces.{PieceBlock}
use resource_cache.Traffic.Fragments.{PendingFragment, resolve_block, Covers, resolve_block_lem}
use resource_cache.Traffic.Speed.{
  new_speed, count_bytes, update_speed, is_speed_limited, is_speed_limited-update_speed,
}
use resource_cache.Traffic.Upload.{
  PeerRequest, Uploads, new_uploads, received_data_request, Served, started, received,
}
use resource_cache.Traffic.Order.{Ordered, Served-Ordered}

abbrev a_block : PieceBlock
a_block = record { piece_index = 0; block_index = 1 }

block_size : get_block_size small_torrent 0 1 ≡ some 16
unfolding get_block_size get_piece_size calc_full_mult
block_size = refl

resolve_block_lem_example :
    (fs : List PendingFragment) × (resolve_block 17 small_torrent 6 a_block ≡ some fs)
    × Covers a_block 6 0 0 16 fs
resolve_block_lem_example =
    resolve_block_lem 17 small_torrent 6 16 a_block (omega arith) block_size (omega arith)

is_speed_limited-update_speed_example :
    (let q = update_speed (update_speed (count_bytes 1000 new_speed)) in
      (q.speed_queue ≡ 1000 ∷ 0 ∷ 0 ∷ [])
      × (q.total_size_in_queue ≡ 2 ^ 64 - 1000)
      × (is_speed_limited 1000000 1100000 q ≡ true))
is_speed_limited-update_speed_example =
    is_speed_limited-update_speed 1000 1000000 1100000 (omega arith) (omega arith) (omega arith)

abbrev a_request : PeerRequest
a_request = record { piece = 0; start = 16; size = 16 }

abbrev one_request : Uploads
one_request = received_data_request a_request (new_uploads 1000 1100)

one_request-Served : Served (a_request ∷ []) one_request
one_request-Served = received a_request (started 1000 1100)

Served-Ordered_example : Ordered (a_request ∷ []) one_request
Served-Ordered_example = Served-Ordered one_request-Served
