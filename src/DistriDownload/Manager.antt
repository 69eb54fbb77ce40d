-- ===== src/DistriDownload/Manager.antt =====
-- rcs/src/frame/distri_download_mgr.cpp: `DistriDownloadMgr`, with the picker of its torrent. What it
-- sends and what it calls of its connection and its torrent is in the state, in order.
use resource_cache.Common.{
  ℕ, ◌+◌, ◌%◌, ◌^◌, Bool, true, false, not, ◌||◌, Option, none, some, List, [], ◌∷◌, ◌++◌, length,
  ltb, leb, ◌==◌, if◌then◌else◌, ◌>>=◌,
}
use resource_cache.Torrent.{Torrent}
use resource_cache.Picker.State.{PiecePicker}
use resource_cache.Picker.Choose.{pick_pieces, set_piece_highest_priority}
use resource_cache.Picker.Mark.{mark_piece_failed}
use resource_cache.DistriDownload.Messages.{assign_piece, construct_msg}

pub data PeerConnType : Type 0 where
  common_conn sponsor_conn proxy_conn : PeerConnType

abbrev pub is_common : PeerConnType → Bool
is_common common_conn = true
is_common _ = false

abbrev pub is_sponsor : PeerConnType → Bool
is_sponsor sponsor_conn = true
is_sponsor _ = false

abbrev pub is_proxy : PeerConnType → Bool
is_proxy proxy_conn = true
is_proxy _ = false

-- `SendData` of the connection, its `Stop`, and `SetProxy` of the torrent.
pub data ManagerCall : Type 0 where
  send_data : List ℕ → ManagerCall
  stop_connection : ManagerCall
  set_proxy : ManagerCall

-- `assigned_pieces` is a set of numbers, in order; `conn_type` is the type of the connection, `picker`
-- the picker of the torrent, which is not there before the torrent is ready.
pub record Manager : Type 0 where
  pub support_cache_proxy : Bool
  pub received_assign_piece_msg : Bool
  pub cached_pieces : List ℕ
  pub assigned_pieces : List ℕ
  pub after_assigned_piece_time : ℕ
  pub conn_type : PeerConnType
  pub picker : Option PiecePicker
  pub calls : List ManagerCall

-- What an operation finds: the torrent, if it is still there, the pieces of the peer and the number of
-- passive connections of the torrent.
pub record Around : Type 0 where
  pub torrent : Option Torrent
  pub piece_map : List Bool
  pub passive_peer_conn_num : ℕ

abbrev pub max_wait_proxy_download_time : ℕ
max_wait_proxy_download_time = 30

abbrev pub call : ManagerCall → Manager → Manager
call c s = record s { calls = s.calls ++ c ∷ [] }

unfoldable pub new_manager : Bool → PeerConnType → Option PiecePicker → Manager
new_manager support conn_type picker = record {
  support_cache_proxy = support;
  received_assign_piece_msg = false;
  cached_pieces = [];
  assigned_pieces = [];
  after_assigned_piece_time = 0;
  conn_type = conn_type;
  picker = picker;
  calls = [];
}

-- `std::set`.
abbrev pub contains : ℕ → List ℕ → Bool
contains i [] = false
contains i (x ∷ xs) = (x == i) || contains i xs

abbrev pub erase : ℕ → List ℕ → List ℕ
erase i [] = []
erase i (x ∷ xs) = if x == i then xs else x ∷ erase i xs

abbrev pub insert_piece : ℕ → List ℕ → List ℕ
insert_piece i [] = i ∷ []
insert_piece i (x ∷ xs) =
    if ltb i x then i ∷ x ∷ xs else if x == i then x ∷ xs else x ∷ insert_piece i xs

-- `SendMsgImpl` with a constructor.
unfoldable pub send_msg : Around → ℕ → ℕ → Manager → Manager
send_msg a msg_type piece s = elim a.torrent [
  | none ↦ s
  | some t ↦ call (send_data (construct_msg msg_type piece)) s
]

-- `MarkPieceFailed` of the torrent's picker, which must be there.
unfoldable pub fail_piece : Torrent → ℕ → Manager → Option Manager
fail_piece t piece s = do
  picker ← s.picker
  picker' ← mark_piece_failed (some t) picker piece
  some (record s { picker = some picker' })

-- The loop of the destructor.
unfoldable pub fail_pieces : Torrent → List ℕ → Manager → Option Manager
fail_pieces t [] s = some s
fail_pieces t (piece ∷ pieces) s = do s' ← fail_piece t piece s; fail_pieces t pieces s'

unfoldable pub destroy : Around → Manager → Option Manager
destroy a s = elim a.torrent [ none ↦ some s | some t ↦ fail_pieces t s.assigned_pieces s ]

abbrev pub raise_pieces : List ℕ → PiecePicker → PiecePicker
raise_pieces [] picker = picker
raise_pieces (piece ∷ pieces) picker = raise_pieces pieces (set_piece_highest_priority picker piece)

-- `ProcCachedPieces`: the pieces that were assigned before the torrent was ready.
unfoldable pub proc_cached_pieces : Around → Manager → Option Manager
proc_cached_pieces a s =
    let raised = (do
      picker ← s.picker
      some
          (record s { picker = some (raise_pieces s.cached_pieces picker); cached_pieces = [] })) in
    let of_torrent : Option Manager = elim a.torrent [
      | none ↦ some s
      | some t ↦ if t.is_ready then raised else some s
    ] in
    if not (is_proxy s.conn_type) || length s.cached_pieces == 0 then some s else of_torrent

-- `TimeoutProc`.
unfoldable pub timeout_proc : Manager → Manager
timeout_proc s =
    let time = (s.after_assigned_piece_time + 1) % (2 ^ 32) in
    let s' = record s { after_assigned_piece_time = time } in
    if not (is_sponsor s.conn_type) || length s.assigned_pieces == 0
    then s
    else if leb max_wait_proxy_download_time time
    then call stop_connection s'
    else s'

-- The loop of `AssignPieces`.
unfoldable pub assign_each : Around → List ℕ → Manager → Manager
assign_each a [] s = s
assign_each a (piece ∷ pieces) s =
    let sent = send_msg a assign_piece piece s in
    assign_each a pieces (record sent { assigned_pieces = insert_piece piece s.assigned_pieces })

-- `AssignPieces` with a picker.
unfoldable pub assign_picked : Around → PiecePicker × List ℕ → Manager → Manager
assign_picked a (picker, []) s = record s { picker = some picker }
assign_picked a (picker, piece ∷ pieces) s =
    record (assign_each a (piece ∷ pieces) (record s { picker = some picker })) {
      after_assigned_piece_time = 0;
    }

unfoldable pub assign_pieces : Around → Manager → Manager
assign_pieces a s = elim s.picker [
  | none ↦ s
  | some picker ↦
      if length a.piece_map == 0 then s else assign_picked a (pick_pieces picker a.piece_map 1) s
]

unfoldable pub try_assign_pieces : Around → Manager → Manager
try_assign_pieces a s =
    let of_torrent : Manager = elim a.torrent [
      | none ↦ s
      | some t ↦ if t.is_ready then assign_pieces a s else s
    ] in
    if not (is_sponsor s.conn_type) || not (length s.assigned_pieces == 0) then s else of_torrent

unfoldable pub on_tick : Around → Manager → Option Manager
on_tick a s =
    let ticked = (do s' ← proc_cached_pieces a (try_assign_pieces a s); some (timeout_proc s')) in
    if is_common s.conn_type then some s else ticked

-- `OnHavePiece` of a sponsor: the proxy has got a piece that was assigned to it.
unfoldable pub had_piece : Around → ℕ → Option Torrent → Manager → Option Manager
had_piece a piece none s = some s
had_piece a piece (some t) s =
    let assigned = (do
      s' ← fail_piece t piece (record s { assigned_pieces = erase piece s.assigned_pieces })
      some (try_assign_pieces a s')) in
    if contains piece s.assigned_pieces then assigned else some s

unfoldable pub on_have_piece : Around → ℕ → Manager → Option Manager
on_have_piece a piece s =
    let had = had_piece a piece a.torrent s in if is_sponsor s.conn_type then had else some s
