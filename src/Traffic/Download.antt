-- ===== src/Traffic/Download.antt =====
-- rcs/src/frame/traffic_controller.cpp: the download side. The fragments of the blocks that are being
-- downloaded stand in a queue; the one in front is asked for.
use resource_cache.Common.{
  ℕ, zero, suc, ◌+◌, ◌-◌, ◌*◌, ◌%◌, ◌^◌, Bool, true, false, not, ◌&&◌, ◌||◌, Option, none, some,
  List, [], ◌∷◌, ◌++◌, length, ltb, leb, ◌==◌, if◌then◌else◌, ◌>>=◌, ◌>>◌, bc_assert,
}
use resource_cache.Common.Results
use resource_cache.Common.Results.{Result, ok, out_of_fuel, of_option}
use resource_cache.Torrent.{Torrent, u64, get_common_block_size}
use resource_cache.Picker.Pieces.{PieceBlock}
use resource_cache.Picker.State.{PiecePicker, TorrentCall}
use resource_cache.Picker.Choose.{pick_blocks}
use resource_cache.Picker.Mark.{mark_block_failed, mark_block_finished}
use resource_cache.Traffic.Speed.{SpeedQueue, is_speed_limited, count_bytes, update_speed}
use resource_cache.Traffic.Upload.{PeerRequest}
use resource_cache.Traffic.Fragments.{PendingFragment, resolve_block}

-- The download side of a `TrafficController` and the picker of its torrent; `sent` are the calls of
-- `SendDataRequest`, in order, and `calls` those that the picker makes of the torrent.
pub record Downloads : Type 0 where
  pub download_frag_queue : List PendingFragment
  pub picker : PiecePicker
  pub download_speed : SpeedQueue
  pub download_speed_limit : ℕ
  pub current_download_speed_limit : ℕ
  pub fragment_size : ℕ
  pub download_block_failed : Bool
  pub sent : List PeerRequest
  pub calls : List TorrentCall

-- What an operation finds: the torrent of the connection, if it is still there, whether the peer is a
-- proxy, the pieces of the peer, and the time in seconds.
pub record Surroundings : Type 0 where
  pub torrent : Option Torrent
  pub is_proxy : Bool
  pub piece_map : List Bool
  pub now : ℕ

abbrev pub wait_data_response_timeout : ℕ
wait_data_response_timeout = 3

abbrev pub try_download_fragment_times : ℕ
try_download_fragment_times = 3

abbrev pub apply_download_block_num : ℕ
apply_download_block_num = 1

abbrev pub same_block : PieceBlock → PieceBlock → Bool
same_block a b = (a.piece_index == b.piece_index) && (a.block_index == b.block_index)

-- The request of `SendFragmentDataRequest`.
abbrev pub request_of : ℕ → ℕ → PendingFragment → PeerRequest
request_of block_size fragment_size f = record {
  piece = f.block.piece_index;
  start = u64 (f.block.block_index * block_size + f.frag_index * fragment_size);
  size = f.frag_len;
}

unfoldable pub send_fragment_data_request :
    Option Torrent → PendingFragment → Downloads → Option Downloads
send_fragment_data_request none f s = some s
send_fragment_data_request (some t) f s = do
  block_size ← get_common_block_size t
  some (record s { sent = s.sent ++ request_of block_size s.fragment_size f ∷ [] })

-- The fragments of a block leave the front of the queue.
abbrev pub pop_block : PieceBlock → List PendingFragment → List PendingFragment
pop_block b [] = []
pop_block b (f ∷ fs) = let rest = pop_block b fs in if same_block f.block b then rest else f ∷ fs

-- `FailToDownloadFragment` for the fragment in front.
unfoldable pub fail_to_download_fragment :
    Option Torrent → PendingFragment → Downloads → Option Downloads
fail_to_download_fragment none f s =
    some (record s { download_frag_queue = pop_block f.block s.download_frag_queue })
fail_to_download_fragment (some t) f s = do
  picker ← mark_block_failed s.picker f.block
  some (record s {
    download_frag_queue = pop_block f.block s.download_frag_queue;
    picker = picker;
    download_block_failed = true;
  })

-- `ReDownloadFragment` for the fragment in front of `rest`.
unfoldable pub re_download_fragment :
    Surroundings → PendingFragment → List PendingFragment → Downloads → Option Downloads
re_download_fragment p f rest s = do
  bc_assert (ltb f.tried_times try_download_fragment_times)
  let f' = record f { tried_times = f.tried_times + 1; request_time = p.now }
  send_fragment_data_request p.torrent f' (record s { download_frag_queue = f' ∷ rest })

-- `DownloadTimeoutProc`, for a queue that is given.
unfoldable pub time_out : Surroundings → List PendingFragment → Downloads → Option Downloads
time_out p [] s = some s
time_out p (f ∷ rest) s =
    let again = re_download_fragment p f rest s in
    let failing = fail_to_download_fragment p.torrent f s in
    let late = if leb try_download_fragment_times f.tried_times then failing else again in
    let waited = (do
      bc_assert (leb f.request_time p.now)
      if leb wait_data_response_timeout (p.now - f.request_time) then late else some s) in
    if f.downloading then waited else some s

unfoldable pub download_timeout_proc : Surroundings → Downloads → Option Downloads
download_timeout_proc p s = time_out p s.download_frag_queue s

abbrev pub resolve_blocks : ℕ → Torrent → ℕ → List PieceBlock → Option (List PendingFragment)
resolve_blocks now t fragment_size [] = some []
resolve_blocks now t fragment_size (pb ∷ pbs) = do
  fs ← resolve_block now t fragment_size pb
  gs ← resolve_blocks now t fragment_size pbs
  some (fs ++ gs)

-- `ApplyDownloadBlock` once the picker has chosen blocks.
unfoldable pub queue_blocks : ℕ → Torrent → Downloads → List PieceBlock → Option (Downloads × Bool)
queue_blocks now t s [] = some (s, false)
queue_blocks now t s (pb ∷ pbs) = do
  fs ← resolve_blocks now t s.fragment_size (pb ∷ pbs)
  some (record s { download_frag_queue = s.download_frag_queue ++ fs }, true)

unfoldable pub apply_download_block :
    Surroundings → Option Torrent → Downloads → Option (Downloads × Bool)
apply_download_block p none s = some (s, false)
apply_download_block p (some t) s = do
  (picker, blocks) ← pick_blocks s.picker p.piece_map apply_download_block_num
  queue_blocks p.now t (record s { picker = picker }) blocks

-- The end of `TrySendDataRequest`; the front of an empty queue is never read.
unfoldable pub send_front : Surroundings → List PendingFragment → Downloads → Option Downloads
send_front p [] s = none
send_front p (f ∷ rest) s =
    let f' = record f {
      downloading = true;
      request_time = p.now;
      tried_times = f.tried_times + 1;
    } in
    let asked =
      send_fragment_data_request p.torrent f' (record s { download_frag_queue = f' ∷ rest }) in
    if f.downloading then some s else asked

abbrev pub is_empty : List PendingFragment → Bool
is_empty [] = true
is_empty (f ∷ fs) = false

-- `TrySendDataRequest` behind its guards.
unfoldable pub request_front : Surroundings → Downloads → Option Downloads
request_front p s =
    let applied = (do
      (s', found) ← apply_download_block p p.torrent s
      let go = (do
        bc_assert (not (is_empty s'.download_frag_queue))
        send_front p s'.download_frag_queue s')
      if found then go else some s') in
    let direct = send_front p s.download_frag_queue s in
    if is_empty s.download_frag_queue then applied else direct

unfoldable pub try_send_data_request : Surroundings → Downloads → Option Downloads
try_send_data_request p s =
    let request = request_front p s in
    if s.download_block_failed
      || p.is_proxy
      || is_speed_limited s.download_speed_limit s.current_download_speed_limit s.download_speed
    then some s
    else request

-- `IsEqual`; the number of the piece is cast to an int.
unfoldable pub is_equal : Option Torrent → PendingFragment → PeerRequest → Option Bool
is_equal none f r = some false
is_equal (some t) f r = do
  block_size ← get_common_block_size t
  some (
      (f.block.piece_index == r.piece % (2 ^ 32))
      && (u64 (f.block.block_index * block_size + f.block_offset) == r.start)
      && (f.frag_len == r.size))

-- Does the queue begin with another block, or with none?
abbrev pub block_done : PieceBlock → List PendingFragment → Bool
block_done b [] = true
block_done b (f ∷ fs) = not (same_block b f.block)

-- A response for the fragment in front.
unfoldable pub take_front :
    Option Torrent
    → PeerRequest
    → PendingFragment
    → List PendingFragment
    → Downloads
    → Option Downloads
take_front t r f rest s = do
  let s' = record s {
    download_frag_queue = rest;
    download_speed = count_bytes r.size s.download_speed;
  }
  let done = (do
    (picker, calls) ← mark_block_finished t s.picker f.block
    some (record s' { picker = picker; calls = s.calls ++ calls }))
  bc_assert (elim t [ none ↦ false | some _ ↦ true ])
  if block_done f.block rest then done else some s'

-- `ReceivedDataResponse`, for a queue that is given.
unfoldable pub on_response :
    Surroundings → PeerRequest → List PendingFragment → Downloads → Option Downloads
on_response p r [] s = some s
on_response p r (f ∷ rest) s = do
  bc_assert f.downloading
  expected ← is_equal p.torrent f r
  let taken = (do s' ← take_front p.torrent r f rest s; try_send_data_request p s')
  if expected then taken else some s

unfoldable pub received_data_response : Surroundings → PeerRequest → Downloads → Option Downloads
received_data_response p r s = on_response p r s.download_frag_queue s

-- The loop of `StopDownload`, on fuel.
unfoldable pub stop_loop : ℕ → Option Torrent → List PendingFragment → Downloads → Result Downloads
stop_loop fuel t [] s = ok s
stop_loop zero t (f ∷ fs) s = out_of_fuel
stop_loop (suc fuel) t (f ∷ fs) s =
    Results.◌>>=◌ (of_option (fail_to_download_fragment t f s))
      λ s'. stop_loop fuel t s'.download_frag_queue s'

unfoldable pub stop_download : Option Torrent → Downloads → Result Downloads
stop_download t s = stop_loop (length s.download_frag_queue) t s.download_frag_queue s

-- The part of `OnTick` that concerns downloads.
unfoldable pub tick_download : Surroundings → Downloads → Option Downloads
tick_download p s = do
  s' ← download_timeout_proc p s
  some (record s' { download_speed = update_speed s'.download_speed })

-- One response after another; the i-th comes in the i-th surroundings.
abbrev pub received_all : (ℕ → Surroundings) → ℕ → List PeerRequest → Downloads → Option Downloads
received_all p i [] s = some s
received_all p i (r ∷ rs) s = do s' ← received_data_response (p i) r s; received_all p (i + 1) rs s'
