-- ===== src/Fsm/Quiet.antt =====
-- In which states a connection may be downloading or uploading.
use resource_cache.Common.{
  ◌≡◌, ◌⊎◌, inl, inr, refl, Bool, true, false, List, [], ◌∷◌, Bool-cases, ◌&&◌, if◌then◌else◌,
}
use resource_cache.Fsm.States.{
  FsmStateType, init, handshake, metadata, block, transfer, upload, download, seed, close, Fsm, Env,
  Call, try_proc_peer_request, try_send_data_request, stop_download, stop_upload, init_bitfield,
  and_then, log,
}
use resource_cache.Fsm.Jumps.{
  enter_plain, enter_upload, enter_download, enter_seed, enter_close, close_down, enter_first,
  enter_block, block_target, leave_block, enter_state, exit_metadata, exit_state, jump_with,
  jump_to,
}

-- No request for data since the downloading was stopped last.
abbrev pub download_stopped : List Call → Bool
download_stopped [] = true
download_stopped (stop_download ∷ cs) = true
download_stopped (try_send_data_request ∷ cs) = false
download_stopped (c ∷ cs) = download_stopped cs

-- No peer was served since the uploading was stopped last.
abbrev pub upload_stopped : List Call → Bool
upload_stopped [] = true
upload_stopped (stop_upload ∷ cs) = true
upload_stopped (try_proc_peer_request ∷ cs) = false
upload_stopped (c ∷ cs) = upload_stopped cs

abbrev pub QuietAt : FsmStateType → List Call → Type 0
QuietAt transfer cs = Unit
QuietAt upload cs = download_stopped cs ≡ true
QuietAt download cs = upload_stopped cs ≡ true
QuietAt seed cs = download_stopped cs ≡ true
QuietAt st cs = (download_stopped cs ≡ true) × (upload_stopped cs ≡ true)

-- A connection neither downloads nor uploads before `TRANSFER`, `UPLOAD` or `DOWNLOAD` nor after
-- `CLOSE`; it does not download in `UPLOAD` and `SEED`, and does not upload in `DOWNLOAD`.
abbrev pub Quiet : Fsm → Type 0
Quiet s = QuietAt s.current_state s.calls

-- Every hook that enters a state succeeds.
abbrev pub Enters : Env → Type 0
Enters e = (st : FsmStateType) → e.enter_proc st ≡ true

-- Data is asked for in `TRANSFER` and `DOWNLOAD`, and the peer is served in `TRANSFER`, `UPLOAD` and
-- `SEED`.
abbrev may_download : FsmStateType → Bool
may_download transfer = true
may_download download = true
may_download st = false

abbrev may_upload : FsmStateType → Bool
may_upload transfer = true
may_upload upload = true
may_upload seed = true
may_upload st = false

abbrev permits : Bool → Bool → Call → Bool
permits d u try_send_data_request = d
permits d u try_proc_peer_request = u
permits d u c = true

abbrev pub allows : FsmStateType → Call → Bool
allows st = permits (may_download st) (may_upload st)

no_download :
    (c : Call) (cs : List Call) (u : Bool)
    → permits false u c ≡ true
    → download_stopped cs ≡ true
    → download_stopped (c ∷ cs) ≡ true
no_download try_send_data_request cs u e q = e
no_download try_proc_peer_request cs u e q = q
no_download stop_download cs u e q = refl
no_download stop_upload cs u e q = q
no_download init_bitfield cs u e q = q

no_upload :
    (c : Call) (cs : List Call) (d : Bool)
    → permits d false c ≡ true
    → upload_stopped cs ≡ true
    → upload_stopped (c ∷ cs) ≡ true
no_upload try_send_data_request cs d e q = q
no_upload try_proc_peer_request cs d e q = e
no_upload stop_download cs d e q = q
no_upload stop_upload cs d e q = refl
no_upload init_bitfield cs d e q = q

pub QuietAt-allows :
    (st : FsmStateType) (c : Call) (cs : List Call)
    → allows st c ≡ true
    → QuietAt st cs
    → QuietAt st (c ∷ cs)
QuietAt-allows transfer c cs e q = tt
QuietAt-allows upload c cs e q = no_download c cs true e q
QuietAt-allows seed c cs e q = no_download c cs true e q
QuietAt-allows download c cs e q = no_upload c cs true e q
QuietAt-allows init c cs e q = (no_download c cs false e q.0, no_upload c cs false e q.1)
QuietAt-allows handshake c cs e q = (no_download c cs false e q.0, no_upload c cs false e q.1)
QuietAt-allows metadata c cs e q = (no_download c cs false e q.0, no_upload c cs false e q.1)
QuietAt-allows block c cs e q = (no_download c cs false e q.0, no_upload c cs false e q.1)
QuietAt-allows close c cs e q = (no_download c cs false e q.0, no_upload c cs false e q.1)

-- What has to hold before a state is entered: the first four need what they promise.
abbrev pub Needs : FsmStateType → List Call → Type 0
Needs transfer cs = Unit
Needs upload cs = Unit
Needs download cs = Unit
Needs seed cs = Unit
Needs close cs = Unit
Needs st cs = QuietAt st cs

-- Leaving a state keeps the machine, or logs the bitfield.
pub exit_state-cases :
    (e : Env) (st : FsmStateType) (s : Fsm)
    → (s' : Fsm) × (b : Bool) × (exit_state e st s ≡ (s', b))
      × ((s' ≡ s) ⊎ (s' ≡ log init_bitfield s))
unfolding exit_state exit_metadata
exit_state-cases e metadata s = elim (Bool-cases (e.exit_proc metadata)) [
  | inr f ↦ (s, false, rw f, inl refl)
  | inl f ↦ elim (Bool-cases (e.has_torrent && e.is_ready)) [
    | inl g ↦ (log init_bitfield s, true, rw (f, g), inr refl)
    | inr g ↦ (s, true, rw (f, g), inl refl)
  ]
]
exit_state-cases e close s = (s, true, refl, inl refl)
exit_state-cases e st s = (s, e.exit_proc st, refl, inl refl)

QuietAt-bitfield :
    (st : FsmStateType) (cs : List Call) → QuietAt st cs → QuietAt st (init_bitfield ∷ cs)
QuietAt-bitfield transfer cs q = q
QuietAt-bitfield upload cs q = q
QuietAt-bitfield download cs q = q
QuietAt-bitfield seed cs q = q
QuietAt-bitfield st cs q = q

Needs-bitfield : (st : FsmStateType) (cs : List Call) → Needs st cs → Needs st (init_bitfield ∷ cs)
Needs-bitfield transfer cs q = q
Needs-bitfield upload cs q = q
Needs-bitfield download cs q = q
Needs-bitfield seed cs q = q
Needs-bitfield close cs q = q
Needs-bitfield st cs q = q

-- A jump is quiet where entering its target is.
jump_with-Quiet :
    (enter : FsmStateType → Fsm → Fsm × Bool) (e : Env) (st : FsmStateType) (s : Fsm)
    → ((s' : Fsm) → Needs st s'.calls → Quiet (enter st (record s' { current_state = st })).0)
    → Needs st s.calls
    → Quiet s
    → Quiet (jump_with enter e st s).0
unfolding jump_with
jump_with-Quiet enter e st s k n q =
    let (s', b, p, c) = exit_state-cases e s.current_state s in rw p (after s' b c)
  where
    after :
        (s' : Fsm) (b : Bool)
        → (s' ≡ s) ⊎ (s' ≡ log init_bitfield s)
        → Quiet (and_then (s', b) (λ s'. enter st (record s' { current_state = st }))).0
    after s' false (inl p) = rw p q
    after s' false (inr p) = rw p (QuietAt-bitfield s.current_state s.calls q)
    after s' true (inl p) = k s' (rw p n)
    after s' true (inr p) = k s' (rw p (Needs-bitfield st s.calls n))

enter_first-Quiet :
    (e : Env) (st : FsmStateType) (s : Fsm)
    → Enters e
    → Needs st s.calls
    → Quiet (enter_first e st (record s { current_state = st })).0
unfolding enter_first enter_plain enter_upload enter_download enter_seed enter_close close_down
enter_first-Quiet e upload s h n = rw (h upload) refl
enter_first-Quiet e download s h n = rw (h download) refl
enter_first-Quiet e seed s h n = rw (h seed) refl
enter_first-Quiet e close s h n = (refl, refl)
enter_first-Quiet e transfer s h n = tt
enter_first-Quiet e st s h n = n

pub and_then-Quiet :
    (s : Fsm) (b : Bool) (f : Fsm → Fsm × Bool)
    → Quiet s
    → Quiet (f s).0
    → Quiet (and_then (s, b) f).0
and_then-Quiet s true f q r = r
and_then-Quiet s false f q r = q

if-Quiet : (b : Bool) (p q : Fsm × Bool) → Quiet p.0 → Quiet q.0 → Quiet (if b then p else q).0
if-Quiet true p q h k = h
if-Quiet false p q h k = k

-- Where nothing runs, every state may be entered.
Needs-any :
    (st : FsmStateType) (cs : List Call)
    → (download_stopped cs ≡ true) × (upload_stopped cs ≡ true)
    → Needs st cs
Needs-any init cs q = q
Needs-any handshake cs q = q
Needs-any metadata cs q = q
Needs-any block cs q = q
Needs-any st cs q = tt

leave_block-Quiet :
    (e : Env) (st : FsmStateType) (s : Fsm)
    → Enters e
    → Needs st s.calls
    → Quiet s
    → Quiet (leave_block e st s).0
unfolding leave_block
leave_block-Quiet e block s h n q = q
leave_block-Quiet e st s h n q =
    jump_with-Quiet (enter_first e) e st s (λ s'. enter_first-Quiet e st s' h) n q

enter_block-Quiet :
    (e : Env) (s : Fsm)
    → Enters e
    → Needs block s.calls
    → Quiet (enter_block e (record s { current_state = block })).0
unfolding enter_block
enter_block-Quiet e s h n =
    let here : Fsm = record s { current_state = block } in
    and_then-Quiet here (e.enter_proc block) _ n (
      if-Quiet e.has_torrent _ _
        (leave_block-Quiet e (block_target e here) here h
          (Needs-any (block_target e here) s.calls n) n)
        n)

enter_state-Quiet :
    (e : Env) (st : FsmStateType) (s : Fsm)
    → Enters e
    → Needs st s.calls
    → Quiet (enter_state e st (record s { current_state = st })).0
unfolding enter_state
enter_state-Quiet e block s h n = enter_block-Quiet e s h n
enter_state-Quiet e st s h n = enter_first-Quiet e st s h n

pub jump_to-Quiet :
    (e : Env) (st : FsmStateType) (s : Fsm)
    → Enters e
    → Needs st s.calls
    → Quiet s
    → Quiet (jump_to e st s).0
unfolding jump_to
jump_to-Quiet e st s h n q =
    jump_with-Quiet (enter_state e) e st s (λ s'. enter_state-Quiet e st s' h) n q
