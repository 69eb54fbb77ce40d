-- ===== src/Examples/Proxies.antt =====
-- A sponsor that has assigned a piece to its proxy, and a message between them.
use resource_cache.Common.{refl, ◌≡◌, inr, true, false, some, [], ◌∷◌, ◌++◌, arith}
use resource_cache.Examples.{
  small_torrent, small_torrent-Workable, small_picker, small_picker-IsValid,
}
use resource_cache.Recombiner.Recognizers.{message, recognize_distri_download}
use resource_cache.DistriDownload.Messages.{
  construct_msg, get_msg_type, parse_msg, construct_msg_lem,
}
use resource_cache.DistriDownload.Manager.{Manager, Around, sponsor_conn, on_have_piece}
use resource_cache.DistriDownload.Assigned.{Assigned, on_have_piece-Assigned}

construct_msg_lem_example :
    (recognize_distri_download (construct_msg 2 70000 ++ 9 ∷ []) 12 ≡ some (message 11))
    × (get_msg_type (construct_msg 2 70000 ++ 9 ∷ []) 11 ≡ some 2)
    × (parse_msg (construct_msg 2 70000 ++ 9 ∷ []) ≡ some 70000)
construct_msg_lem_example =
    construct_msg_lem 2 70000 12 (9 ∷ []) (omega arith) (omega arith) (omega arith)

abbrev sponsor : Manager
sponsor = record {
  support_cache_proxy = true;
  received_assign_piece_msg = false;
  cached_pieces = [];
  assigned_pieces = 1 ∷ [];
  after_assigned_piece_time = 4;
  conn_type = sponsor_conn;
  picker = some small_picker;
  calls = [];
}

sponsor-Assigned : Assigned small_torrent sponsor
sponsor-Assigned = record {
  picker = small_picker;
  there = refl;
  valid = small_picker-IsValid;
  owns = refl;
  one_piece = inr (1, refl, omega arith);
}

abbrev around : Around
around = record {
  torrent = some small_torrent;
  piece_map = false ∷ true ∷ false ∷ [];
  passive_peer_conn_num = 1;
}

on_have_piece-Assigned_example :
    (s' : Manager) × (on_have_piece around 1 sponsor ≡ some s') × Assigned small_torrent s'
on_have_piece-Assigned_example =
    on_have_piece-Assigned small_torrent around sponsor 1 small_torrent-Workable refl
      sponsor-Assigned
