-- ===== src/DistriDownload/Handlers.antt =====
-- rcs/src/frame/distri_download_mgr.cpp: what a `DistriDownloadMgr` does when messages come.
use resource_cache.Common.{
  ℕ, Bool, true, false, not, ◌||◌, Option, none, some, List, [], ◌∷◌, ◌++◌, get_elem?, length, ◌==◌,
  if◌then◌else◌, ◌>>=◌, ◌>>◌, bc_assert,
}
use resource_cache.Torrent.{Torrent}
use resource_cache.Picker.Choose.{set_piece_highest_priority}
use resource_cache.DistriDownload.Messages.{
  assign_piece, accept_piece, reject_piece, get_msg_type, parse_msg,
}
use resource_cache.DistriDownload.Manager.{
  is_sponsor, Manager, Around, call, send_msg, fail_piece, try_assign_pieces, proxy_conn,
  stop_connection, set_proxy,
}

-- The loop of `OnBitfield`: the assigned pieces that the proxy has leave the set, unless the torrent is
-- gone, which ends the function. A number beyond the bits is against an assertion of the bitset.
unfoldable pub bitfield_loop :
    Option Torrent → List Bool → List ℕ → Manager → Option (List ℕ × Manager × Bool)
bitfield_loop t piece_map [] s = some ([], s, true)
bitfield_loop t piece_map (piece ∷ pieces) s =
    let keep = (do
      (kept, s', ended) ← bitfield_loop t piece_map pieces s
      some (piece ∷ kept, s', ended)) in
    let drop_from =
      λ (t' : Torrent). (do s' ← fail_piece t' piece s; bitfield_loop t piece_map pieces s') in
    elim (get_elem? piece_map piece) [
      | none ↦ none
      | some false ↦ keep
      | some true ↦ elim t [ none ↦ some (piece ∷ pieces, s, false) | some t' ↦ drop_from t' ]
    ]

unfoldable pub on_bitfield : Around → List Bool → Manager → Option Manager
on_bitfield a piece_map s =
    let had = (do
      (kept, s', ended) ← bitfield_loop a.torrent piece_map s.assigned_pieces s
      let s'' = record s' { assigned_pieces = kept }
      some (if ended then try_assign_pieces a s'' else s'')) in
    if not (is_sponsor s.conn_type) || length s.assigned_pieces == 0 then some s else had

-- The first assignment makes the connection one to a proxy, and the first such connection makes the
-- torrent one of a proxy.
abbrev pub become_proxy : Around → Manager → Manager
become_proxy a s =
    let s' = record s { conn_type = proxy_conn; received_assign_piece_msg = true } in
    let s'' = if a.passive_peer_conn_num == 1 then call set_proxy s' else s' in
    if s.received_assign_piece_msg then s else s''

abbrev pub take_piece : Torrent → ℕ → Manager → Manager
take_piece t piece s =
    let cached = record s { cached_pieces = s.cached_pieces ++ piece ∷ [] } in
    elim s.picker [
      | none ↦ cached
      | some picker ↦
          if t.is_ready
          then record s { picker = some (set_piece_highest_priority picker piece) }
          else cached
    ]

unfoldable pub on_assign_piece_msg : Around → ℕ → Manager → Manager
on_assign_piece_msg a piece s =
    let taken : Manager = elim a.torrent [
      | none ↦ s
      | some t ↦ send_msg a accept_piece piece (take_piece t piece (become_proxy a s))
    ] in
    if s.support_cache_proxy then taken else send_msg a reject_piece piece s

unfoldable pub on_accept_piece_msg : ℕ → Manager → Option Manager
on_accept_piece_msg piece s = do bc_assert (is_sponsor s.conn_type); some s

unfoldable pub on_reject_piece_msg : ℕ → Manager → Option Manager
on_reject_piece_msg piece s = do bc_assert (is_sponsor s.conn_type); some (call stop_connection s)

-- The cases of `ProcDistriDownloadMsg`; any other type is against an assertion.
abbrev pub dispatch : Around → ℕ → ℕ → Manager → Option Manager
dispatch a msg_type piece s =
    let rejected = if msg_type == reject_piece then on_reject_piece_msg piece s else none in
    let accepted = if msg_type == accept_piece then on_accept_piece_msg piece s else rejected in
    if msg_type == assign_piece then some (on_assign_piece_msg a piece s) else accepted

-- `ProcDistriDownloadMsg`, for the memory from the message on and the length that is told.
unfoldable pub proc_distri_download_msg : Around → List ℕ → ℕ → Manager → Option Manager
proc_distri_download_msg a buf len s = do
  msg_type ← get_msg_type buf len
  piece ← parse_msg buf
  dispatch a msg_type piece s
