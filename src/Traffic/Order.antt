-- ===== src/Traffic/Order.antt =====
-- The requests of a peer are answered in the order in which they come.
use resource_cache.Common.{
  ◌≡◌, refl, Bool, true, false, some, List, [], ◌∷◌, ◌++◌, if◌then◌else◌, Bool-cases, inl, inr, ap,
  sym, subst, arith, ◌∙◌, append_assoc,
}
use resource_cache.Traffic.Speed.{is_speed_limited, count_bytes}
use resource_cache.Traffic.Upload.{
  PeerRequest, PendingRequest, Uploads, proc_front, try_proc_peer_request, received_data_request,
  same_request, on_sent, on_send_data_response, tick_upload, new_uploads, Served, started, received,
  tried, ticked, answered,
}

-- The requests of the queue that were not passed on yet.
abbrev pub requests : List PendingRequest → List PeerRequest
requests [] = []
requests (p ∷ ps) = p.request ∷ requests ps

abbrev pub unsent : List PendingRequest → List PeerRequest
unsent [] = []
unsent (p ∷ ps) = if p.processing then requests ps else p.request ∷ requests ps

-- None of the requests is being answered.
abbrev pub Idle : List PendingRequest → Type 0
Idle [] = Unit
Idle (p ∷ ps) = (p.processing ≡ false) × Idle ps

abbrev pub OnlyFront : List PendingRequest → Type 0
OnlyFront [] = Unit
OnlyFront (p ∷ ps) = Idle ps

-- What was answered and what waits is what was received, in order; only the front is being answered.
abbrev pub Ordered : List PeerRequest → Uploads → Type 0
Ordered rs s = (s.sent ++ unsent s.peer_request_queue ≡ rs) × OnlyFront s.peer_request_queue

proc_front-Ordered :
    (rs : List PeerRequest) (s : Uploads) (ps : List PendingRequest)
    → s.peer_request_queue ≡ ps
    → Ordered rs s
    → Ordered rs (proc_front s ps)
unfolding proc_front
proc_front-Ordered rs s [] e o = o
proc_front-Ordered rs s (p ∷ ps) e o = elim (Bool-cases p.processing) [
  | inl f ↦ rw f o
  | inr f ↦
      let q : s.sent ++ unsent (p ∷ ps) ≡ rs = ap (λ z. s.sent ++ unsent z) (sym e) ∙ o.0 in
      let r : OnlyFront (p ∷ ps) = subst OnlyFront e o.1 in
      let w : s.sent ++ (p.request ∷ requests ps) ≡ rs =
        ap (λ b. s.sent ++ (if b then requests ps else p.request ∷ requests ps)) (sym f) ∙ q in
      rw f (append_assoc s.sent (p.request ∷ []) (requests ps) ∙ w, r)
]

try_proc_peer_request-Ordered :
    (rs : List PeerRequest) (s : Uploads) → Ordered rs s → Ordered rs (try_proc_peer_request s)
unfolding try_proc_peer_request
try_proc_peer_request-Ordered rs s o =
    either (is_speed_limited s.upload_speed_limit s.current_upload_speed_limit s.upload_speed)
  where
    either : (b : Bool) → Ordered rs (if b then s else proc_front s s.peer_request_queue)
    either true = o
    either false = proc_front-Ordered rs s s.peer_request_queue refl o

requests-append :
    (ps : List PendingRequest) (p : PendingRequest)
    → requests (ps ++ p ∷ []) ≡ requests ps ++ p.request ∷ []
requests-append [] p = refl
requests-append (x ∷ ps) p = ap (λ z. x.request ∷ z) (requests-append ps p)

unsent-append :
    (ps : List PendingRequest) (p : PendingRequest)
    → p.processing ≡ false
    → unsent (ps ++ p ∷ []) ≡ unsent ps ++ p.request ∷ []
unsent-append [] p f = rw f
unsent-append (x ∷ ps) p f = elim (Bool-cases x.processing) [
  | inl e ↦ rw e (requests-append ps p)
  | inr e ↦ rw e (ap (λ z. x.request ∷ z) (requests-append ps p))
]

Idle-append :
    (ps : List PendingRequest) (p : PendingRequest)
    → p.processing ≡ false
    → Idle ps
    → Idle (ps ++ p ∷ [])
Idle-append [] p f o = (f, tt)
Idle-append (x ∷ ps) p f o = (o.0, Idle-append ps p f o.1)

OnlyFront-append :
    (ps : List PendingRequest) (p : PendingRequest)
    → p.processing ≡ false
    → OnlyFront ps
    → OnlyFront (ps ++ p ∷ [])
OnlyFront-append [] p f o = tt
OnlyFront-append (x ∷ ps) p f o = Idle-append ps p f o

received_data_request-Ordered :
    (rs : List PeerRequest) (r : PeerRequest) (s : Uploads)
    → Ordered rs s
    → Ordered (rs ++ r ∷ []) (received_data_request r s)
unfolding received_data_request
received_data_request-Ordered rs r s o =
    let p : PendingRequest = record { request = r; processing = false } in
    try_proc_peer_request-Ordered _ _ (
      ap (λ z. s.sent ++ z) (unsent-append s.peer_request_queue p refl)
          ∙ sym (append_assoc s.sent (unsent s.peer_request_queue) (r ∷ []))
          ∙ ap (λ z. z ++ r ∷ []) o.0,
      OnlyFront-append s.peer_request_queue p refl o.1,
    )

unsent-Idle : (ps : List PendingRequest) → Idle ps → unsent ps ≡ requests ps
unsent-Idle [] o = refl
unsent-Idle (p ∷ ps) o = rw o.0

OnlyFront-Idle : (ps : List PendingRequest) → Idle ps → OnlyFront ps
OnlyFront-Idle [] o = tt
OnlyFront-Idle (p ∷ ps) o = o.1

same_request_refl : (r : PeerRequest) → same_request r r ≡ true
same_request_refl r = ground arith

on_send_data_response-Ordered :
    (rs : List PeerRequest) (s : Uploads) (p : PendingRequest) (ps : List PendingRequest)
    → s.peer_request_queue ≡ p ∷ ps
    → p.processing ≡ true
    → Ordered rs s
    → (s' : Uploads) × (on_send_data_response p.request s ≡ some s') × Ordered rs s'
unfolding on_send_data_response on_sent
on_send_data_response-Ordered rs s p ps e f o =
    let idle : Idle ps = subst OnlyFront e o.1 in
    let freed : Uploads = record s {
      peer_request_queue = ps;
      upload_speed = count_bytes p.request.size s.upload_speed;
    } in
    (
      try_proc_peer_request freed,
      ap (on_sent p.request s) e ∙ rw (same_request_refl p.request) refl,
      try_proc_peer_request-Ordered rs _ (
        ap (λ z. s.sent ++ z)
              (unsent-Idle ps idle
                ∙ ap (λ b. if b then requests ps else p.request ∷ requests ps) (sym f)
                ∙ ap unsent (sym e))
            ∙ o.0,
        OnlyFront-Idle ps idle,
      ),
    )

-- In every state that a connection reaches while its upload is not stopped, the responses passed on and then the requests that still wait are the requests received, in their order, none lost and none answered twice; and only the first request of the queue is being answered.
pub Served-Ordered : {rs : List PeerRequest} {s : Uploads} → Served rs s → Ordered rs s
unfolding new_uploads tick_upload
Served-Ordered (started limit current_limit) = (refl, tt)
Served-Ordered (received {rs} {s} r h) = received_data_request-Ordered rs r s (Served-Ordered h)
Served-Ordered (tried {rs} {s} h) = try_proc_peer_request-Ordered rs s (Served-Ordered h)
Served-Ordered (ticked h) = Served-Ordered h
Served-Ordered (answered {rs} {s} p ps s' e f g h) =
    let (t, q, o) = on_send_data_response-Ordered rs s p ps e f (Served-Ordered h) in
    let same : t ≡ s' = ground (arith, q, g) in subst (Ordered rs) same o

-- When the response to the first request of the queue has been sent, `OnSendDataResponse` passes its assertion, and the requests stay in order.
pub on_send_data_response_lem :
    {rs : List PeerRequest} {s : Uploads} (p : PendingRequest) (ps : List PendingRequest)
    → Served rs s
    → s.peer_request_queue ≡ p ∷ ps
    → p.processing ≡ true
    → (s' : Uploads) × (on_send_data_response p.request s ≡ some s') × Ordered rs s'
on_send_data_response_lem {rs} {s} p ps h e f =
    on_send_data_response-Ordered rs s p ps e f (Served-Ordered h)
