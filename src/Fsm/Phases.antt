-- ===== src/Fsm/Phases.antt =====
-- A connection goes through its phases in one direction.
use resource_cache.Common.{
  ℕ, ◌≤◌, ◌≡◌, ◌⊎◌, inl, inr, refl, sym, subst, Bool, true, false, List, [], ◌∷◌, arith,
  if◌then◌else◌,
}
use resource_cache.Fsm.States.{
  FsmStateType, init, handshake, metadata, block, transfer, upload, download, seed, close,
  FsmMsgType, no_msg, tick, pkt, handshaked, get_metadata, choked, unchoked, interest, non_interest,
  seeding, close_msg, Fsm, Env, Script, finish, post, call, init_bitfield, and_then, log,
}
use resource_cache.Fsm.Jumps.{
  enter_plain, enter_upload, enter_download, enter_seed, enter_close, close_down, enter_first,
  enter_block, block_target, leave_block, enter_state, jump_with, jump_to,
}
use resource_cache.Fsm.Machine.{
  process_init, process_handshake, process_metadata, process_block, process_transfer,
  process_upload, process_download, process_seed, process_close, process_state, remember,
  process_msg, run_script, Event, handle, handle_all,
}
use resource_cache.Fsm.Quiet.{exit_state-cases}
use resource_cache.Fsm.Running.{remember-keeps}
use resource_cache.Fsm.Early.{next_state, block_target-next_state}

abbrev pub phase : FsmStateType → ℕ
phase init = 0
phase handshake = 1
phase metadata = 2
phase block = 3
phase transfer = 4
phase upload = 4
phase download = 4
phase seed = 5
phase close = 6

abbrev pub Later : Fsm → Fsm → Type 0
Later s s' = phase s.current_state ≤ phase s'.current_state

and_then-Later :
    (s : Fsm) (b : Bool) (f : Fsm → Fsm × Bool) → Later s (f s).0 → Later s (and_then (s, b) f).0
and_then-Later s true f l = l
and_then-Later s false f l = omega arith

jump_with-Later :
    (enter : FsmStateType → Fsm → Fsm × Bool) (e : Env) (st : FsmStateType) (s : Fsm)
    → ((s' : Fsm)
        → Later (record s' { current_state = st }) (enter st (record s' { current_state = st })).0)
    → phase s.current_state ≤ phase st
    → Later s (jump_with enter e st s).0
unfolding jump_with
jump_with-Later enter e st s k l =
    let (s', b, p, c) = exit_state-cases e s.current_state s in rw p (after s' b c)
  where
    after :
        (s' : Fsm) (b : Bool)
        → (s' ≡ s) ⊎ (s' ≡ log init_bitfield s)
        → Later s (and_then (s', b) (λ s'. enter st (record s' { current_state = st }))).0
    after s' false (inl p) = rw p (omega arith)
    after s' false (inr p) = rw p (omega arith)
    after s' true c = omega (arith, l, k s')

enter_first-Later :
    (e : Env) (st : FsmStateType) (s : Fsm)
    → Later (record s { current_state = st }) (enter_first e st (record s { current_state = st })).0
unfolding enter_first enter_plain enter_upload enter_download enter_seed enter_close close_down
enter_first-Later e upload s =
    and_then-Later (record s { current_state = upload }) (e.enter_proc upload) _ (omega arith)
enter_first-Later e download s =
    and_then-Later (record s { current_state = download }) (e.enter_proc download) _ (omega arith)
enter_first-Later e seed s =
    and_then-Later (record s { current_state = seed }) (e.enter_proc seed) _ (omega arith)
enter_first-Later e close s = omega arith
enter_first-Later e st s = omega arith

leave_block-Later :
    (e : Env) (st : FsmStateType) (s : Fsm)
    → phase s.current_state ≤ phase st
    → Later s (leave_block e st s).0
unfolding leave_block
leave_block-Later e block s l = omega arith
leave_block-Later e st s l =
    jump_with-Later (enter_first e) e st s (λ s'. enter_first-Later e st s') l

next_state-phase : (d u i : Bool) → 3 ≤ phase (next_state d u i)
next_state-phase true u i = omega arith
next_state-phase false true true = omega arith
next_state-phase false true false = omega arith
next_state-phase false false true = omega arith
next_state-phase false false false = omega arith

enter_block-Later :
    (e : Env) (s : Fsm)
    → Later
        (record s { current_state = block })
        (enter_block e (record s { current_state = block })).0
unfolding enter_block
enter_block-Later e s =
    let here : Fsm = record s { current_state = block } in
    let l : 3 ≤ phase (block_target e here) =
      subst (λ st. 3 ≤ phase st) (sym (block_target-next_state e here))
        (next_state-phase e.is_seed s.recv_unchoke s.recv_interest) in
    and_then-Later here (e.enter_proc block) _ (
      either e.has_torrent (leave_block e (block_target e here) here)
        (leave_block-Later e (block_target e here) here l))
  where
    either :
        (b : Bool) (p : Fsm × Bool)
        → 3 ≤ phase p.0.current_state
        → (let q : Fsm × Bool = if b then p else (record s { current_state = block }, false) in
            3 ≤ phase q.0.current_state)
    either true p l = l
    either false p l = omega arith

enter_state-Later :
    (e : Env) (st : FsmStateType) (s : Fsm)
    → Later (record s { current_state = st }) (enter_state e st (record s { current_state = st })).0
unfolding enter_state
enter_state-Later e block s = enter_block-Later e s
enter_state-Later e st s = enter_first-Later e st s

jump_to-Later :
    (e : Env) (from st : FsmStateType) (s : Fsm)
    → s.current_state ≡ from
    → phase from ≤ phase st
    → Later s (jump_to e st s).0
unfolding jump_to
jump_to-Later e from st s c l =
    jump_with-Later (enter_state e) e st s (λ s'. enter_state-Later e st s')
      (subst (λ x. phase x ≤ phase st) (sym c) l)

module _ (e : Env) (in_proc : Fsm → Fsm × Bool) (k : (s : Fsm) → Later s (in_proc s).0) where
  process_init-Later :
      (m : FsmMsgType) (s : Fsm) → s.current_state ≡ init → Later s (process_init in_proc e m s).0
  unfolding process_init
  process_init-Later m s c =
      and_then-Later s e.init_proc _ (jump_to-Later e init handshake s c (omega arith))

  process_handshake-Later :
      (m : FsmMsgType) (s : Fsm)
      → s.current_state ≡ handshake
      → Later s (process_handshake in_proc e m s).0
  unfolding process_handshake
  process_handshake-Later handshaked s c = jump_to-Later e handshake metadata s c (omega arith)
  process_handshake-Later m s c = k s

  process_metadata-Later :
      (m : FsmMsgType) (s : Fsm)
      → s.current_state ≡ metadata
      → Later s (process_metadata in_proc e m s).0
  unfolding process_metadata
  process_metadata-Later get_metadata s c = jump_to-Later e metadata block s c (omega arith)
  process_metadata-Later pkt s c = k s
  process_metadata-Later tick s c = k s
  process_metadata-Later m s c = omega arith

  process_block-Later :
      (m : FsmMsgType) (s : Fsm) → s.current_state ≡ block → Later s (process_block in_proc e m s).0
  unfolding process_block
  process_block-Later unchoked s c = jump_to-Later e block download s c (omega arith)
  process_block-Later interest s c = jump_to-Later e block upload s c (omega arith)
  process_block-Later pkt s c = k s
  process_block-Later m s c = omega arith

  process_transfer-Later :
      (m : FsmMsgType) (s : Fsm)
      → s.current_state ≡ transfer
      → Later s (process_transfer in_proc e m s).0
  unfolding process_transfer
  process_transfer-Later tick s c = omega arith
  process_transfer-Later choked s c = jump_to-Later e transfer upload s c (omega arith)
  process_transfer-Later non_interest s c = jump_to-Later e transfer download s c (omega arith)
  process_transfer-Later pkt s c = k s
  process_transfer-Later seeding s c = jump_to-Later e transfer seed s c (omega arith)
  process_transfer-Later m s c = omega arith

  process_upload-Later :
      (m : FsmMsgType) (s : Fsm)
      → s.current_state ≡ upload
      → Later s (process_upload in_proc e m s).0
  unfolding process_upload
  process_upload-Later tick s c = omega arith
  process_upload-Later pkt s c = k s
  process_upload-Later non_interest s c = jump_to-Later e upload close s c (omega arith)
  process_upload-Later unchoked s c = jump_to-Later e upload transfer s c (omega arith)
  process_upload-Later m s c = omega arith

  process_download-Later :
      (m : FsmMsgType) (s : Fsm)
      → s.current_state ≡ download
      → Later s (process_download in_proc e m s).0
  unfolding process_download
  process_download-Later tick s c = omega arith
  process_download-Later choked s c = jump_to-Later e download close s c (omega arith)
  process_download-Later interest s c = jump_to-Later e download transfer s c (omega arith)
  process_download-Later pkt s c = k s
  process_download-Later seeding s c = jump_to-Later e download seed s c (omega arith)
  process_download-Later m s c = omega arith

  process_seed-Later :
      (m : FsmMsgType) (s : Fsm) → s.current_state ≡ seed → Later s (process_seed in_proc e m s).0
  unfolding process_seed
  process_seed-Later tick s c = omega arith
  process_seed-Later pkt s c = k s
  process_seed-Later m s c = omega arith

  process_close-Later :
      (m : FsmMsgType) (s : Fsm) → s.current_state ≡ close → Later s (process_close in_proc e m s).0
  unfolding process_close close_down
  process_close-Later no_msg s c = omega arith
  process_close-Later m s c = omega arith

  process_state-Later :
      (st : FsmStateType) (m : FsmMsgType) (s : Fsm)
      → s.current_state ≡ st
      → Later s (process_state in_proc e st m s).0
  unfolding process_state
  process_state-Later init m s c = process_init-Later m s c
  process_state-Later handshake m s c = process_handshake-Later m s c
  process_state-Later metadata m s c = process_metadata-Later m s c
  process_state-Later block m s c = process_block-Later m s c
  process_state-Later transfer m s c = process_transfer-Later m s c
  process_state-Later upload m s c = process_upload-Later m s c
  process_state-Later download m s c = process_download-Later m s c
  process_state-Later seed m s c = process_seed-Later m s c
  process_state-Later close m s c = process_close-Later m s c

  process_msg-Later : (m : FsmMsgType) (s : Fsm) → Later s (process_msg in_proc e m s)
  unfolding process_msg
  process_msg-Later close_msg s =
      jump_to-Later e s.current_state close s refl (last s.current_state)
    where
      last : (st : FsmStateType) → phase st ≤ 6
      last st = ground arith
  process_msg-Later m s =
      let (c, _) = remember-keeps m s in
      subst
        (λ st.
          phase st
          ≤ phase (process_state in_proc e s.current_state m (remember m s)).0.current_state)
        c (process_state-Later s.current_state m (remember m s) c)

run_script-Later : (r : Script) (s : Fsm) → Later s (run_script r s).0
unfolding run_script
run_script-Later (finish ok) s = omega arith
run_script-Later (call c rest) s = run_script-Later rest (log c s)
run_script-Later (post m e inner rest) s = omega (
  arith,
  process_msg-Later e (run_script inner) (run_script-Later inner) m s,
  run_script-Later rest (process_msg (run_script inner) e m s),
)

-- Whatever messages come, and whatever the hooks do, post or return, a connection never goes back to an earlier phase: the phases are `INIT`, `HANDSHAKE`, `METADATA`, `BLOCK`, then `TRANSFER`, `UPLOAD` and `DOWNLOAD` as one, `SEED` and `CLOSE`.
pub handle_all-Later : (vs : List Event) (s : Fsm) → Later s (handle_all vs s)
unfolding handle_all handle
handle_all-Later [] s = omega arith
handle_all-Later (v ∷ vs) s = omega (
  arith,
  process_msg-Later v.env (run_script v.script) (run_script-Later v.script) v.msg s,
  handle_all-Later vs (process_msg (run_script v.script) v.env v.msg s),
)
