-- ===== src/Fsm/Jumps.antt =====
-- rcs/src/frame/p2p_fsm.cpp: entering and leaving states.
-- `EnterProc` and `ExitProc` post no message, as in both protocols.
use resource_cache.Common.{Bool, true, false, if◌then◌else◌, ◌&&◌}
use resource_cache.Fsm.States.{
  FsmStateType, metadata, block, transfer, upload, download, seed, close, Fsm, Env, stop_download,
  stop_upload, init_bitfield, and_then, log,
}

-- `EnterState` of a state that only calls its hook: `INIT`, `HANDSHAKE`, `METADATA`, `TRANSFER`.
unfoldable pub enter_plain : Env → FsmStateType → Fsm → Fsm × Bool
enter_plain e st s = (s, e.enter_proc st)

unfoldable pub enter_upload : Env → Fsm → Fsm × Bool
enter_upload e s = and_then (s, e.enter_proc upload) (λ s. (log stop_download s, true))

unfoldable pub enter_download : Env → Fsm → Fsm × Bool
enter_download e s = and_then (s, e.enter_proc download) (λ s. (log stop_upload s, true))

unfoldable pub enter_seed : Env → Fsm → Fsm × Bool
enter_seed e s = and_then (s, e.enter_proc seed) (λ s. (log stop_download s, true))

-- `ProcessState(FSM_MSG_NONE)` of `CLOSE`, whose hooks post no message and whose results nothing reads.
unfoldable pub close_down : Fsm → Fsm × Bool
close_down s = (log stop_upload (log stop_download s), true)

unfoldable pub enter_close : Env → Fsm → Fsm × Bool
enter_close e s = ((close_down s).0, true)

-- `EnterState`, but for the jumps that `BLOCK` makes from there.
unfoldable pub enter_first : Env → FsmStateType → Fsm → Fsm × Bool
enter_first e upload s = enter_upload e s
enter_first e download s = enter_download e s
enter_first e seed s = enter_seed e s
enter_first e close s = enter_close e s
enter_first e st s = enter_plain e st s

unfoldable pub exit_metadata : Env → Fsm → Fsm × Bool
exit_metadata e s =
    and_then (s, e.exit_proc metadata)
      (λ s. if e.has_torrent && e.is_ready then (log init_bitfield s, true) else (s, true))

unfoldable pub exit_state : Env → FsmStateType → Fsm → Fsm × Bool
exit_state e metadata s = exit_metadata e s
exit_state e close s = (s, true)
exit_state e st s = (s, e.exit_proc st)

-- `JumpTo`, with what entering a state does; `IsValidJump` accepts every jump.
unfoldable pub jump_with : (FsmStateType → Fsm → Fsm × Bool) → Env → FsmStateType → Fsm → Fsm × Bool
jump_with enter e st s =
    and_then (exit_state e s.current_state s) (λ s'. enter st (record s' { current_state = st }))

-- Where `BLOCK` jumps on entry.
unfoldable pub block_target : Env → Fsm → FsmStateType
block_target e s =
    if e.is_seed
    then seed
    else if s.recv_unchoke && s.recv_interest
    then transfer
    else if s.recv_unchoke
    then download
    else if s.recv_interest
    then upload
    else block

unfoldable pub leave_block : Env → FsmStateType → Fsm → Fsm × Bool
leave_block e block s = (s, true)
leave_block e st s = jump_with (enter_first e) e st s

unfoldable pub enter_block : Env → Fsm → Fsm × Bool
enter_block e s =
    and_then (s, e.enter_proc block)
      (λ s. if e.has_torrent then leave_block e (block_target e s) s else (s, false))

unfoldable pub enter_state : Env → FsmStateType → Fsm → Fsm × Bool
enter_state e block s = enter_block e s
enter_state e st s = enter_first e st s

unfoldable pub jump_to : Env → FsmStateType → Fsm → Fsm × Bool
jump_to e st s = jump_with (enter_state e) e st s
