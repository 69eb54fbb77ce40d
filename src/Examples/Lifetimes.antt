-- ===== src/Examples/Lifetimes.antt =====
-- A torrent that may be two ticks without a connection.
use resource_cache.Common.{ℕ, ◌≡◌, ◌↔◌, refl, true, List, [], ◌∷◌, ◌++◌, replicate, arith}
use resource_cache.Examples.{small_torrent}
use resource_cache.Torrent.Lifecycle.{Lifecycle, from_fastresume, new_torrent, is_inactive}
use resource_cache.Torrent.Inactive.{torrent_ticks, is_inactive-on_torrent_tick}

abbrev lonely_torrent : Lifecycle
unfolding new_torrent
lonely_torrent = new_torrent small_torrent.torrent_info from_fastresume 2

is_inactive-on_torrent_tick_example :
    (is_inactive 0 (torrent_ticks (0 ∷ 0 ∷ 3 ∷ []) lonely_torrent) ≡ true)
    ↔ ((before : List ℕ) × (0 ∷ 0 ∷ 3 ∷ [] ≡ replicate 2 0 ++ before))
unfolding lonely_torrent
is_inactive-on_torrent_tick_example =
    is_inactive-on_torrent_tick lonely_torrent (0 ∷ 0 ∷ 3 ∷ []) 0 refl refl (omega arith)
