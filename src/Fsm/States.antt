-- ===== src/Fsm/States.antt =====
-- rcs/src/frame/inc/p2p_fsm.hpp: the states and messages of a connection, and the state that `P2PFsm` keeps.
-- The calls of the traffic controller and of the connection are logged, the latest first.
use resource_cache.Common.{Bool, true, false, List, [], ◌∷◌}

pub data FsmStateType : Type 0 where
  init handshake metadata block transfer upload download seed close : FsmStateType

pub data FsmMsgType : Type 0 where
  no_msg tick pkt handshaked get_metadata choked unchoked interest non_interest seeding close_msg :
      FsmMsgType

pub data Call : Type 0 where
  try_proc_peer_request try_send_data_request stop_download stop_upload init_bitfield : Call

pub record Fsm : Type 0 where
  pub current_state : FsmStateType
  pub recv_unchoke : Bool
  pub recv_interest : Bool
  pub calls : List Call

-- What a message finds: the results of the hooks `EnterProc` and `ExitProc` of each state and of the
-- `InProc` of `INIT`, which post no message in either protocol, and the torrent, if it is still there.
pub record Env : Type 0 where
  pub enter_proc : FsmStateType → Bool
  pub exit_proc : FsmStateType → Bool
  pub init_proc : Bool
  pub has_torrent : Bool
  pub is_ready : Bool
  pub is_seed : Bool

-- What a call of the hook `InProc` does: it posts messages to the machine, each of which finds its own
-- environment and its own run of the hook, calls the traffic controller, as `ReceivedDataRequest` and
-- `ReceivedDataResponse` do, and returns a result.
pub data Script : Type 0 where
  finish : Bool → Script
  post : FsmMsgType → Env → Script → Script → Script
  call : Call → Script → Script

-- A statement of a handler that returns `false` ends it.
abbrev pub and_then : Fsm × Bool → (Fsm → Fsm × Bool) → Fsm × Bool
and_then (s, true) f = f s
and_then (s, false) f = (s, false)

abbrev pub log : Call → Fsm → Fsm
log c s = record s { calls = c ∷ s.calls }

-- The constructor, which sets neither flag: their first values are what the memory holds.
unfoldable pub new_fsm : Bool → Bool → Fsm
new_fsm u i = record { current_state = init; recv_unchoke = u; recv_interest = i; calls = [] }
