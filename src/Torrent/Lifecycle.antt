-- ===== src/Torrent/Lifecycle.antt =====
-- rcs/src/frame/torrent.cpp: a torrent from its construction to its removal. What it calls of its policy,
-- its I/O manager and the protocol is logged, the latest first; the numbers of its connections are arguments.
use resource_cache.Common.{
  ℕ, ◌+◌, ◌%◌, ◌^◌, Bool, true, false, ◌&&◌, ◌||◌, not, Option, some, List, [], ◌∷◌, leb, ◌==◌,
  if◌then◌else◌, ◌>>◌, bc_assert,
}
use resource_cache.Torrent.{TorrentInfo}

pub data RetriveType : Type 0 where
  from_fastresume from_metadata from_baseinfo : RetriveType

abbrev is_from_metadata : RetriveType → Bool
is_from_metadata from_fastresume = false
is_from_metadata from_metadata = true
is_from_metadata from_baseinfo = false

pub data TorrentEvent : Type 0 where
  start_timer initialize set_seed_flag policy_tick tick_proc new_piece_picker : TorrentEvent
  clear_write_cache remove_all_files : TorrentEvent
  policy_have_piece have_piece_proc : ℕ → TorrentEvent
  set_stop_new_connection_flag : Bool → TorrentEvent

pub record Lifecycle : Type 0 where
  pub torrent_info : TorrentInfo
  pub retrive_type : RetriveType
  pub has_policy : Bool
  pub is_ready : Bool
  pub is_seed : Bool
  pub is_proxy : Bool
  pub alive_time : ℕ
  pub alive_time_without_conn : ℕ
  pub max_alive_time_without_conn : ℕ
  pub events : List TorrentEvent

abbrev note : TorrentEvent → Lifecycle → Lifecycle
note e t = record t { events = e ∷ t.events }

-- The configured limit is an argument, and so is what `torrent_info_` holds before it is set.
unfoldable pub new_torrent : TorrentInfo → RetriveType → ℕ → Lifecycle
new_torrent info retrive_type max_time = record {
  torrent_info = info;
  retrive_type = retrive_type;
  has_policy = false;
  is_ready = false;
  is_seed = false;
  is_proxy = false;
  alive_time = 0;
  alive_time_without_conn = 0;
  max_alive_time_without_conn = max_time;
  events = [];
}

-- `Init`, by the result of the I/O manager's own.
unfoldable pub init_torrent : Bool → Lifecycle → Bool × Lifecycle
init_torrent false t = (false, t)
init_torrent true t = (true, note initialize (note start_timer (record t { has_policy = true })))

unfoldable pub destroy_torrent : Lifecycle → Lifecycle
destroy_torrent t =
    let cleared = note clear_write_cache t in
    if t.is_proxy then note remove_all_files cleared else cleared

unfoldable pub set_torrent_info : TorrentInfo → RetriveType → Lifecycle → Option Lifecycle
set_torrent_info info retrive_type t = do
  bc_assert (not t.is_ready)
  some (
      note new_piece_picker (record t {
        torrent_info = info;
        retrive_type = retrive_type;
        is_ready = true;
        is_proxy = if t.is_proxy && not (is_from_metadata retrive_type) then false else t.is_proxy;
      }))

unfoldable pub set_torrent_seed : Lifecycle → Option Lifecycle
set_torrent_seed t = do
  bc_assert t.has_policy
  some (note set_seed_flag (record t { is_seed = true }))

unfoldable pub set_torrent_proxy : Lifecycle → Option Lifecycle
set_torrent_proxy t = do
  bc_assert (not t.is_proxy)
  some (
      if not t.is_ready || is_from_metadata t.retrive_type then record t { is_proxy = true } else t)

unfoldable pub torrent_have_piece : ℕ → Lifecycle → Lifecycle
torrent_have_piece piece t = note (have_piece_proc piece) (note (policy_have_piece piece) t)

unfoldable pub stop_launch_new_connection : Lifecycle → Lifecycle
stop_launch_new_connection t = note (set_stop_new_connection_flag true) t

unfoldable pub resume_launch_new_connection : Lifecycle → Lifecycle
resume_launch_new_connection t = note (set_stop_new_connection_flag false) t

-- Both times are uint32.
unfoldable pub update_alive_time_without_conn : ℕ → Lifecycle → Lifecycle
update_alive_time_without_conn peer_conn_num t = record t {
  alive_time_without_conn =
      if peer_conn_num == 0 then (t.alive_time_without_conn + 1) % 2 ^ 32 else 0;
}

unfoldable pub is_inactive : ℕ → Lifecycle → Bool
is_inactive proxy_peer_conn_num t =
    (t.is_proxy && (proxy_peer_conn_num == 0))
    || leb t.max_alive_time_without_conn t.alive_time_without_conn

unfoldable pub on_torrent_tick : ℕ → Lifecycle → Lifecycle
on_torrent_tick peer_conn_num t =
    let t' = note tick_proc (update_alive_time_without_conn peer_conn_num (note policy_tick t)) in
    record t' { alive_time = (t'.alive_time + 1) % 2 ^ 32 }
