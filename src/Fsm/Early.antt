-- ===== src/Fsm/Early.antt =====
-- What a connection does with the messages that come before its metadata.
use resource_cache.Common.{◌≡◌, refl, ap, ◌∙◌, Bool, true, false, ◌&&◌, if◌then◌else◌}
use resource_cache.Fsm.States.{
  FsmStateType, FsmMsgType, metadata, block, transfer, upload, download, seed, get_metadata,
  unchoked, interest, close, Fsm, Env, init_bitfield, and_then, log,
}
use resource_cache.Fsm.Jumps.{
  enter_first, enter_plain, enter_upload, enter_download, enter_seed, enter_close, close_down,
  enter_block, block_target, leave_block, enter_state, exit_state, exit_metadata, jump_with,
  jump_to,
}
use resource_cache.Fsm.Machine.{
  process_msg, process_state, process_metadata, remember, before_block,
}
use resource_cache.Fsm.Quiet.{Enters}
use resource_cache.Fsm.Closing.{Leaves, exit_state-true, and_then-true}

-- Where the torrent goes once its metadata is there.
abbrev pub next_state : Bool → Bool → Bool → FsmStateType
next_state true u i = seed
next_state false true true = transfer
next_state false true false = download
next_state false false true = upload
next_state false false false = block

pub block_target-next_state :
    (e : Env) (s : Fsm) → block_target e s ≡ next_state e.is_seed s.recv_unchoke s.recv_interest
unfolding block_target
block_target-next_state e s = same e.is_seed s.recv_unchoke s.recv_interest
  where
    same :
        (d u i : Bool)
        → (if d
            then seed
            else if u && i
            then transfer
            else if u
            then download
            else if i
            then upload
            else block)
          ≡ next_state d u i
    same true u i = refl
    same false true true = refl
    same false true false = refl
    same false false true = refl
    same false false false = refl

-- A jump succeeds where the hook lets the current state be left.
jump_with-left :
    (enter : FsmStateType → Fsm → Fsm × Bool) (e : Env) (st : FsmStateType) (s : Fsm)
    → Leaves e
    → jump_with enter e st s
      ≡ enter st (record ((exit_state e s.current_state s).0) { current_state = st })
unfolding jump_with
jump_with-left enter e st s h =
    and_then-true (exit_state e s.current_state s) _ (exit_state-true e s.current_state s h)

enter_first-reaches :
    (e : Env) (st : FsmStateType) (s : Fsm)
    → Enters e
    → (enter_first e st (record s { current_state = st })).0.current_state ≡ st
unfolding enter_first enter_plain enter_upload enter_download enter_seed enter_close close_down
enter_first-reaches e upload s h = rw (h upload) refl
enter_first-reaches e download s h = rw (h download) refl
enter_first-reaches e seed s h = rw (h seed) refl
enter_first-reaches e st s h = refl

leave_block-reaches :
    (e : Env) (st : FsmStateType) (s : Fsm)
    → Enters e
    → Leaves e
    → s.current_state ≡ block
    → (leave_block e st s).0.current_state ≡ st
unfolding leave_block
leave_block-reaches e block s h l c = c
leave_block-reaches e st s h l c =
    rw (jump_with-left (enter_first e) e st s l)
      (enter_first-reaches e st (exit_state e s.current_state s).0 h)

enter_block-reaches :
    (e : Env) (s : Fsm)
    → Enters e
    → Leaves e
    → e.has_torrent ≡ true
    → (enter_block e (record s { current_state = block })).0.current_state
      ≡ next_state e.is_seed s.recv_unchoke s.recv_interest
unfolding enter_block
enter_block-reaches e s h l t =
    let here : Fsm = record s { current_state = block } in
    passes here (e.enter_proc block) e.has_torrent (λ s'. leave_block e (block_target e s') s')
      (h block) t
      (leave_block-reaches e (block_target e here) here h l refl ∙ block_target-next_state e here)
  where
    passes :
        {st : FsmStateType} (s : Fsm) (b c : Bool) (f : Fsm → Fsm × Bool)
        → b ≡ true
        → c ≡ true
        → (f s).0.current_state ≡ st
        → (and_then (s, b) (λ s'. if c then f s' else (s', false))).0.current_state ≡ st
    passes s b c f h k r = rw (h, k) r

exit_state-flags :
    (e : Env) (st : FsmStateType) (s : Fsm)
    → ((exit_state e st s).0.recv_unchoke ≡ s.recv_unchoke)
      × ((exit_state e st s).0.recv_interest ≡ s.recv_interest)
unfolding exit_state exit_metadata
exit_state-flags e metadata s = flags (e.exit_proc metadata) (e.has_torrent && e.is_ready)
  where
    flags :
        (b c : Bool)
        → (let p : Fsm × Bool =
              and_then (s, b) (λ s. if c then (log init_bitfield s, true) else (s, true)) in
            (p.0.recv_unchoke ≡ s.recv_unchoke) × (p.0.recv_interest ≡ s.recv_interest))
    flags true true = (refl, refl)
    flags true false = (refl, refl)
    flags false c = (refl, refl)
exit_state-flags e close s = (refl, refl)
exit_state-flags e st s = (refl, refl)

-- What `GET_METADATA` does in `METADATA`.
get_metadata-reaches :
    (in_proc : Fsm → Fsm × Bool) (e : Env) (s : Fsm)
    → s.current_state ≡ metadata
    → Enters e
    → Leaves e
    → e.has_torrent ≡ true
    → (process_msg in_proc e get_metadata s).current_state
      ≡ next_state e.is_seed s.recv_unchoke s.recv_interest
unfolding process_msg remember process_state process_metadata jump_to enter_state
get_metadata-reaches in_proc e s c h l t = from s.current_state c
  where
    left : Fsm
    left = (exit_state e s.current_state s).0

    flags : (left.recv_unchoke ≡ s.recv_unchoke) × (left.recv_interest ≡ s.recv_interest)
    flags = exit_state-flags e s.current_state s

    from :
        (st : FsmStateType)
        → st ≡ metadata
        → (process_state in_proc e st get_metadata s).0.current_state
          ≡ next_state e.is_seed s.recv_unchoke s.recv_interest
    from st p =
        rw (p, jump_with-left (enter_state e) e block s l)
          (enter_block-reaches e left h l t ∙ (λ i. next_state e.is_seed (flags.0 i) (flags.1 i)))

early_message :
    (in_proc : Fsm → Fsm × Bool) (e : Env) (s : Fsm)
    → s.current_state ≡ metadata
    → (process_msg in_proc e unchoked s ≡ record s { recv_unchoke = true })
      × (process_msg in_proc e interest s ≡ record s { recv_interest = true })
unfolding process_msg remember process_state process_metadata
early_message in_proc e s c =
    (from unchoked (λ s. refl) s.current_state c _, from interest (λ s. refl) s.current_state c _)
  where
    ignored : (m : FsmMsgType) → Type 0
    ignored m = (s : Fsm) → process_state in_proc e metadata m s ≡ (s, true)

    from :
        (m : FsmMsgType)
        → ignored m
        → (st : FsmStateType) → st ≡ metadata
        → (s' : Fsm) → (process_state in_proc e st m (if before_block st then s' else s)).0 ≡ s'
    from m k st p s' = rw p (ap (λ z. z.0) (k s'))

-- An unchoke or an interest that comes in `METADATA` is not lost: once the metadata is there, and where the hooks succeed and the torrent is still there, the connection goes to `DOWNLOAD` or `UPLOAD`, to `TRANSFER` if the other one has come too, and to `SEED` if the torrent is a seed.
pub early_lem :
    (in_proc in_proc' : Fsm → Fsm × Bool) (e e' : Env) (s : Fsm)
    → s.current_state ≡ metadata
    → Enters e'
    → Leaves e'
    → e'.has_torrent ≡ true
    → ((process_msg in_proc' e' get_metadata (process_msg in_proc e unchoked s)).current_state
        ≡ next_state e'.is_seed true s.recv_interest)
      × ((process_msg in_proc' e' get_metadata (process_msg in_proc e interest s)).current_state
          ≡ next_state e'.is_seed s.recv_unchoke true)
early_lem in_proc in_proc' e e' s c h l t =
    let (u, i) = early_message in_proc e s c in
    (
      rw u (get_metadata-reaches in_proc' e' (record s { recv_unchoke = true }) c h l t),
      rw i (get_metadata-reaches in_proc' e' (record s { recv_interest = true }) c h l t),
    )
