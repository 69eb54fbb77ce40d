-- ===== src/Fsm/Closing.antt =====
-- A closed connection stays closed.
use resource_cache.Common.{◌≡◌, refl, Bool, true, false, List, [], ◌∷◌, ◌&&◌, if◌then◌else◌}
use resource_cache.Fsm.States.{
  FsmStateType, metadata, close, FsmMsgType, no_msg, unchoked, interest, close_msg, Fsm, Env,
  and_then, log, init_bitfield,
}
use resource_cache.Fsm.Jumps.{
  enter_close, close_down, enter_first, enter_state, exit_state, exit_metadata, jump_with, jump_to,
}
use resource_cache.Fsm.Machine.{
  process_close, process_state, remember, process_msg, run_script, Event, handle, handle_all,
}
use resource_cache.Fsm.Quiet.{download_stopped, upload_stopped}

-- The connection is closed and nothing runs.
abbrev pub IsClosed : Fsm → Type 0
IsClosed s =
    (s.current_state ≡ close) × (download_stopped s.calls ≡ true) × (upload_stopped s.calls ≡ true)

-- Every hook that leaves a state succeeds.
abbrev pub Leaves : Env → Type 0
Leaves e = (st : FsmStateType) → e.exit_proc st ≡ true

-- Where the hooks let a state be left, leaving it succeeds.
pub exit_state-true :
    (e : Env) (st : FsmStateType) (s : Fsm) → Leaves e → (exit_state e st s).1 ≡ true
unfolding exit_state exit_metadata
exit_state-true e metadata s h = rw (h metadata) (either (e.has_torrent && e.is_ready))
  where
    either :
        (b : Bool)
        → (let p : Fsm × Bool = if b then (log init_bitfield s, true) else (s, true) in p.1) ≡ true
    either true = refl
    either false = refl
exit_state-true e close s h = refl
exit_state-true e st s h = h st

pub and_then-true : (p : Fsm × Bool) (f : Fsm → Fsm × Bool) → p.1 ≡ true → and_then p f ≡ f p.0
and_then-true (s, b) f e = rw e

jump_to_close :
    (e : Env) (s : Fsm) → (exit_state e s.current_state s).1 ≡ true → IsClosed (jump_to e close s).0
unfolding jump_to jump_with enter_state enter_first enter_close close_down
jump_to_close e s h = rw (and_then-true (exit_state e s.current_state s) _ h) (refl, refl, refl)

exit_state_close :
    (e : Env) (st : FsmStateType) (s : Fsm) → st ≡ close → (exit_state e st s).1 ≡ true
unfolding exit_state
exit_state_close e st s h = rw h refl

process_state_close :
    (in_proc : Fsm → Fsm × Bool) (e : Env) (m : FsmMsgType) (s : Fsm)
    → IsClosed s
    → IsClosed (process_state in_proc e close m s).0
unfolding process_state process_close close_down
process_state_close in_proc e no_msg s c = (c.0, refl, refl)
process_state_close in_proc e m s c = c

remember_close : (m : FsmMsgType) (s : Fsm) → s.current_state ≡ close → remember m s ≡ s
unfolding remember
remember_close unchoked s c = rw c
remember_close interest s c = rw c
remember_close m s c = refl

process_msg-IsClosed :
    (in_proc : Fsm → Fsm × Bool) (e : Env) (m : FsmMsgType) (s : Fsm)
    → IsClosed s
    → IsClosed (process_msg in_proc e m s)
unfolding process_msg
process_msg-IsClosed in_proc e close_msg s c =
    jump_to_close e s (exit_state_close e s.current_state s c.0)
process_msg-IsClosed in_proc e m s c =
    still s.current_state c.0 (remember m s) (remember_close m s c.0)
  where
    still :
        (st : FsmStateType)
        → st ≡ close
        → (s' : Fsm) → s' ≡ s
        → IsClosed (process_state in_proc e st m s').0
    still st p s' q = rw (p, q) (process_state_close in_proc e m s c)

handle_all-IsClosed : (vs : List Event) (s : Fsm) → IsClosed s → IsClosed (handle_all vs s)
unfolding handle_all handle
handle_all-IsClosed [] s c = c
handle_all-IsClosed (v ∷ vs) s c =
    handle_all-IsClosed vs _ (process_msg-IsClosed (run_script v.script) v.env v.msg s c)

-- `FSM_MSG_CLOSE`, where the hook that leaves the current state succeeds, closes the connection from whatever state it is in, with its downloading and its uploading stopped; and it stays so whatever messages follow, whatever their hooks do or return.
pub handle_all-close_msg :
    (in_proc : Fsm → Fsm × Bool) (e : Env) (s : Fsm) (vs : List Event)
    → Leaves e
    → IsClosed (handle_all vs (process_msg in_proc e close_msg s))
unfolding process_msg
handle_all-close_msg in_proc e s vs h =
    handle_all-IsClosed vs _ (jump_to_close e s (exit_state-true e s.current_state s h))
