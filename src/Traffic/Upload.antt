-- ===== src/Traffic/Upload.antt =====
-- rcs/src/frame/traffic_controller.cpp: the requests of the peer, and in which order they are answered.
use resource_cache.Common.{
  ℕ, ◌≡◌, Bool, true, false, ◌&&◌, Option, some, List, [], ◌∷◌, ◌++◌, ◌==◌, if◌then◌else◌, ◌>>◌,
  bc_assert,
}
use resource_cache.Traffic.Speed.{
  SpeedQueue, new_speed, is_speed_limited, count_bytes, update_speed,
}

pub record PeerRequest : Type 0 where
  pub piece : ℕ
  pub start : ℕ
  pub size : ℕ

pub record PendingRequest : Type 0 where
  pub request : PeerRequest
  pub processing : Bool

-- The upload side of a `TrafficController`; `sent` are the calls of `SendDataResponse`, in order.
pub record Uploads : Type 0 where
  pub peer_request_queue : List PendingRequest
  pub upload_speed : SpeedQueue
  pub upload_speed_limit : ℕ
  pub current_upload_speed_limit : ℕ
  pub sent : List PeerRequest

-- `TryProcPeerRequest` once the speed is not limited.
unfoldable pub proc_front : Uploads → List PendingRequest → Uploads
proc_front s [] = s
proc_front s (p ∷ ps) = if p.processing then s else record s {
  peer_request_queue = record p { processing = true } ∷ ps;
  sent = s.sent ++ p.request ∷ [];
}

unfoldable pub try_proc_peer_request : Uploads → Uploads
try_proc_peer_request s =
    if is_speed_limited s.upload_speed_limit s.current_upload_speed_limit s.upload_speed
    then s
    else proc_front s s.peer_request_queue

unfoldable pub received_data_request : PeerRequest → Uploads → Uploads
received_data_request r s = try_proc_peer_request (record s {
  peer_request_queue = s.peer_request_queue ++ record { request = r; processing = false } ∷ [];
})

abbrev pub same_request : PeerRequest → PeerRequest → Bool
same_request r s = (r.piece == s.piece) && (r.start == s.start) && (r.size == s.size)

-- `OnSendDataResponse`, for a queue that is given.
unfoldable pub on_sent : PeerRequest → Uploads → List PendingRequest → Option Uploads
on_sent r s [] = some s
on_sent r s (p ∷ ps) = do
  bc_assert (same_request p.request r)
  some (
      try_proc_peer_request
        (record s { peer_request_queue = ps; upload_speed = count_bytes r.size s.upload_speed }))

unfoldable pub on_send_data_response : PeerRequest → Uploads → Option Uploads
on_send_data_response r s = on_sent r s s.peer_request_queue

unfoldable pub stop_upload : Uploads → Uploads
stop_upload s = record s { peer_request_queue = [] }

-- The part of `OnTick` that concerns uploads.
unfoldable pub tick_upload : Uploads → Uploads
tick_upload s = record s { upload_speed = update_speed s.upload_speed }

-- The upload side as the constructor leaves it.
unfoldable pub new_uploads : ℕ → ℕ → Uploads
new_uploads limit current_limit = record {
  peer_request_queue = [];
  upload_speed = new_speed;
  upload_speed_limit = limit;
  current_upload_speed_limit = current_limit;
  sent = [];
}

-- The states that a connection reaches while its upload is not stopped, with the requests that its peer
-- has sent: a response that was passed on comes back when it is sent.
pub data Served : List PeerRequest → Uploads → Type 0 where
  started : (limit current_limit : ℕ) → Served [] (new_uploads limit current_limit)
  received :
      {rs : List PeerRequest} {s : Uploads} (r : PeerRequest)
      → Served rs s
      → Served (rs ++ r ∷ []) (received_data_request r s)
  tried : {rs : List PeerRequest} {s : Uploads} → Served rs s → Served rs (try_proc_peer_request s)
  ticked : {rs : List PeerRequest} {s : Uploads} → Served rs s → Served rs (tick_upload s)
  answered :
      {rs : List PeerRequest} {s : Uploads} (p : PendingRequest) (ps : List PendingRequest)
      (s' : Uploads)
      → s.peer_request_queue ≡ p ∷ ps
      → p.processing ≡ true
      → on_send_data_response p.request s ≡ some s'
      → Served rs s
      → Served rs s'
