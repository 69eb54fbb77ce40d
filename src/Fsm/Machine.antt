-- ===== src/Fsm/Machine.antt =====
-- rcs/src/frame/p2p_fsm.cpp: how each state processes a message, and the machine.
use resource_cache.Common.{Bool, true, false, List, [], ◌∷◌, if◌then◌else◌}
use resource_cache.Fsm.States.{
  FsmStateType, init, handshake, metadata, block, transfer, upload, download, seed, close,
  FsmMsgType, no_msg, tick, pkt, handshaked, get_metadata, choked, unchoked, interest, non_interest,
  seeding, close_msg, Fsm, Env, Script, finish, post, call, try_proc_peer_request,
  try_send_data_request, and_then, log,
}
use resource_cache.Fsm.Jumps.{jump_to, close_down, enter_state}

-- The handlers of the states; `in_proc` is the run of their hook `InProc`.
module _ (in_proc : Fsm → Fsm × Bool) (e : Env) where
  unfoldable pub process_init : FsmMsgType → Fsm → Fsm × Bool
  process_init m s = and_then (s, e.init_proc) (jump_to e handshake)

  unfoldable pub process_handshake : FsmMsgType → Fsm → Fsm × Bool
  process_handshake handshaked s = jump_to e metadata s
  process_handshake m s = in_proc s

  unfoldable pub process_metadata : FsmMsgType → Fsm → Fsm × Bool
  process_metadata get_metadata s = jump_to e block s
  process_metadata pkt s = in_proc s
  process_metadata tick s = in_proc s
  process_metadata m s = (s, true)

  unfoldable pub process_block : FsmMsgType → Fsm → Fsm × Bool
  process_block unchoked s = jump_to e download s
  process_block interest s = jump_to e upload s
  process_block pkt s = in_proc s
  process_block m s = (s, true)

  unfoldable pub process_transfer : FsmMsgType → Fsm → Fsm × Bool
  process_transfer tick s = (log try_send_data_request (log try_proc_peer_request s), true)
  process_transfer choked s = jump_to e upload s
  process_transfer non_interest s = jump_to e download s
  process_transfer pkt s = in_proc s
  process_transfer seeding s = jump_to e seed s
  process_transfer m s = (s, true)

  unfoldable pub process_upload : FsmMsgType → Fsm → Fsm × Bool
  process_upload tick s = (log try_proc_peer_request s, true)
  process_upload pkt s = in_proc s
  process_upload non_interest s = jump_to e close s
  process_upload unchoked s = jump_to e transfer s
  process_upload m s = (s, true)

  unfoldable pub process_download : FsmMsgType → Fsm → Fsm × Bool
  process_download tick s = (log try_send_data_request s, true)
  process_download choked s = jump_to e close s
  process_download interest s = jump_to e transfer s
  process_download pkt s = in_proc s
  process_download seeding s = jump_to e seed s
  process_download m s = (s, true)

  unfoldable pub process_seed : FsmMsgType → Fsm → Fsm × Bool
  process_seed tick s = (log try_proc_peer_request s, true)
  process_seed pkt s = in_proc s
  process_seed m s = (s, true)

  unfoldable pub process_close : FsmMsgType → Fsm → Fsm × Bool
  process_close no_msg s = close_down s
  process_close m s = (s, true)

  unfoldable pub process_state : FsmStateType → FsmMsgType → Fsm → Fsm × Bool
  process_state init m s = process_init m s
  process_state handshake m s = process_handshake m s
  process_state metadata m s = process_metadata m s
  process_state block m s = process_block m s
  process_state transfer m s = process_transfer m s
  process_state upload m s = process_upload m s
  process_state download m s = process_download m s
  process_state seed m s = process_seed m s
  process_state close m s = process_close m s

-- `current_state_ < FSM_STATE_BLOCK`.
abbrev pub before_block : FsmStateType → Bool
before_block init = true
before_block handshake = true
before_block metadata = true
before_block st = false

-- What `ProcessMsg` remembers of a message that comes before `BLOCK`.
unfoldable pub remember : FsmMsgType → Fsm → Fsm
remember unchoked s = if before_block s.current_state then record s { recv_unchoke = true } else s
remember interest s = if before_block s.current_state then record s { recv_interest = true } else s
remember m s = s

-- `ProcessMsg`.
unfoldable pub process_msg : (Fsm → Fsm × Bool) → Env → FsmMsgType → Fsm → Fsm
process_msg in_proc e close_msg s = (jump_to e close s).0
process_msg in_proc e m s = (process_state in_proc e s.current_state m (remember m s)).0

-- The run of a hook: a message that it posts is processed before it goes on.
unfoldable pub run_script : Script → Fsm → Fsm × Bool
run_script (finish ok) s = (s, ok)
run_script (post m e inner rest) s = run_script rest (process_msg (run_script inner) e m s)
run_script (call c rest) s = run_script rest (log c s)

-- A message from outside, with its environment and what the hook does if it is called.
pub record Event : Type 0 where
  pub msg : FsmMsgType
  pub env : Env
  pub script : Script

unfoldable pub handle : Event → Fsm → Fsm
handle v s = process_msg (run_script v.script) v.env v.msg s

unfoldable pub handle_all : List Event → Fsm → Fsm
handle_all [] s = s
handle_all (v ∷ vs) s = handle_all vs (handle v s)

-- `StartFsm` in `INIT`, as the code asserts, with all the state objects set.
unfoldable pub start_fsm : Env → Fsm → Fsm × Bool
start_fsm e s = and_then (enter_state e init s) (process_init (λ s. (s, true)) e no_msg)

-- `StopFsm`.
unfoldable pub stop_fsm : Env → Fsm → Fsm × Bool
stop_fsm e s = stop s.current_state
  where
    stop : FsmStateType → Fsm × Bool
    stop close = (s, true)
    stop st = jump_to e close s
