-- ===== src/Fsm/Running.antt =====
-- Whatever messages come, what runs is what the state allows.
use resource_cache.Common.{◌≡◌, inl, inr, refl, Bool, true, List, [], ◌∷◌, Bool-cases}
use resource_cache.Fsm.States.{
  FsmStateType, init, handshake, metadata, block, transfer, upload, download, seed, close,
  FsmMsgType, no_msg, tick, pkt, handshaked, get_metadata, choked, unchoked, interest, non_interest,
  seeding, close_msg, Fsm, Env, Script, finish, post, call, new_fsm, log,
}
use resource_cache.Fsm.Jumps.{enter_plain, close_down, enter_first, enter_state}
use resource_cache.Fsm.Machine.{
  process_init, process_handshake, process_metadata, process_block, process_transfer,
  process_upload, process_download, process_seed, process_close, process_state, before_block,
  remember, process_msg, run_script, Event, handle, handle_all, start_fsm,
}
use resource_cache.Fsm.Quiet.{
  QuietAt, QuietAt-allows, allows, Quiet, Enters, and_then-Quiet, jump_to-Quiet,
}

-- Only the flags change.
pub remember-keeps :
    (m : FsmMsgType) (s : Fsm)
    → ((remember m s).current_state ≡ s.current_state) × ((remember m s).calls ≡ s.calls)
unfolding remember
remember-keeps unchoked s = elim (Bool-cases (before_block s.current_state)) [
  | inl g ↦ rw g (refl, refl)
  | inr g ↦ rw g (refl, refl)
]
remember-keeps interest s = elim (Bool-cases (before_block s.current_state)) [
  | inl g ↦ rw g (refl, refl)
  | inr g ↦ rw g (refl, refl)
]
remember-keeps m s = (refl, refl)

-- The hook is called at most once, in the state that the machine is in when the message comes.
module _ (e : Env) (h : Enters e) (in_proc : Fsm → Fsm × Bool) (s : Fsm)
    (k : Quiet s → Quiet (in_proc s).0) where
  process_init-Quiet :
      (m : FsmMsgType) → QuietAt init s.calls → Quiet s → Quiet (process_init in_proc e m s).0
  unfolding process_init
  process_init-Quiet m n q = and_then-Quiet s e.init_proc _ q (jump_to-Quiet e handshake s h n q)

  process_handshake-Quiet :
      (m : FsmMsgType)
      → QuietAt handshake s.calls
      → Quiet s
      → Quiet (process_handshake in_proc e m s).0
  unfolding process_handshake
  process_handshake-Quiet handshaked n q = jump_to-Quiet e metadata s h n q
  process_handshake-Quiet m n q = k q

  process_metadata-Quiet :
      (m : FsmMsgType)
      → QuietAt metadata s.calls
      → Quiet s
      → Quiet (process_metadata in_proc e m s).0
  unfolding process_metadata
  process_metadata-Quiet get_metadata n q = jump_to-Quiet e block s h n q
  process_metadata-Quiet pkt n q = k q
  process_metadata-Quiet tick n q = k q
  process_metadata-Quiet m n q = q

  process_block-Quiet : (m : FsmMsgType) → Quiet s → Quiet (process_block in_proc e m s).0
  unfolding process_block
  process_block-Quiet unchoked q = jump_to-Quiet e download s h tt q
  process_block-Quiet interest q = jump_to-Quiet e upload s h tt q
  process_block-Quiet pkt q = k q
  process_block-Quiet m q = q

  process_transfer-Quiet :
      (m : FsmMsgType)
      → s.current_state ≡ transfer
      → Quiet s
      → Quiet (process_transfer in_proc e m s).0
  unfolding process_transfer
  process_transfer-Quiet tick c q = rw c tt
  process_transfer-Quiet choked c q = jump_to-Quiet e upload s h tt q
  process_transfer-Quiet non_interest c q = jump_to-Quiet e download s h tt q
  process_transfer-Quiet pkt c q = k q
  process_transfer-Quiet seeding c q = jump_to-Quiet e seed s h tt q
  process_transfer-Quiet m c q = q

  process_upload-Quiet :
      (m : FsmMsgType)
      → s.current_state ≡ upload
      → QuietAt upload s.calls
      → Quiet s
      → Quiet (process_upload in_proc e m s).0
  unfolding process_upload
  process_upload-Quiet tick c n q = rw c n
  process_upload-Quiet pkt c n q = k q
  process_upload-Quiet non_interest c n q = jump_to-Quiet e close s h tt q
  process_upload-Quiet unchoked c n q = jump_to-Quiet e transfer s h tt q
  process_upload-Quiet m c n q = q

  process_download-Quiet :
      (m : FsmMsgType)
      → s.current_state ≡ download
      → QuietAt download s.calls
      → Quiet s
      → Quiet (process_download in_proc e m s).0
  unfolding process_download
  process_download-Quiet tick c n q = rw c n
  process_download-Quiet choked c n q = jump_to-Quiet e close s h tt q
  process_download-Quiet interest c n q = jump_to-Quiet e transfer s h tt q
  process_download-Quiet pkt c n q = k q
  process_download-Quiet seeding c n q = jump_to-Quiet e seed s h tt q
  process_download-Quiet m c n q = q

  process_seed-Quiet :
      (m : FsmMsgType)
      → s.current_state ≡ seed
      → QuietAt seed s.calls
      → Quiet s
      → Quiet (process_seed in_proc e m s).0
  unfolding process_seed
  process_seed-Quiet tick c n q = rw c n
  process_seed-Quiet pkt c n q = k q
  process_seed-Quiet m c n q = q

  process_close-Quiet :
      (m : FsmMsgType) → s.current_state ≡ close → Quiet s → Quiet (process_close in_proc e m s).0
  unfolding process_close close_down
  process_close-Quiet no_msg c q = rw c (refl, refl)
  process_close-Quiet m c q = q

  process_state-Quiet :
      (st : FsmStateType) (m : FsmMsgType)
      → s.current_state ≡ st
      → QuietAt st s.calls
      → Quiet s
      → Quiet (process_state in_proc e st m s).0
  unfolding process_state
  process_state-Quiet init m c n q = process_init-Quiet m n q
  process_state-Quiet handshake m c n q = process_handshake-Quiet m n q
  process_state-Quiet metadata m c n q = process_metadata-Quiet m n q
  process_state-Quiet block m c n q = process_block-Quiet m q
  process_state-Quiet transfer m c n q = process_transfer-Quiet m c q
  process_state-Quiet upload m c n q = process_upload-Quiet m c n q
  process_state-Quiet download m c n q = process_download-Quiet m c n q
  process_state-Quiet seed m c n q = process_seed-Quiet m c n q
  process_state-Quiet close m c n q = process_close-Quiet m c q

process_msg-Quiet :
    (e : Env) (in_proc : Fsm → Fsm × Bool) (m : FsmMsgType) (s : Fsm)
    → Enters e
    → (Quiet (remember m s) → Quiet (in_proc (remember m s)).0)
    → Quiet s
    → Quiet (process_msg in_proc e m s)
unfolding process_msg
process_msg-Quiet e in_proc close_msg s h k q = jump_to-Quiet e close s h tt q
process_msg-Quiet e in_proc m s h k q =
    let (c, l) = remember-keeps m s in
    let n : QuietAt s.current_state (remember m s).calls = rw l q in
    process_state-Quiet e h in_proc (remember m s) k s.current_state m c n (rw c n)

-- Every hook that enters a state succeeds, and what the hooks that process packets call of the traffic
-- controller is what the state allows that the machine is in by then.
abbrev pub Behaves : Script → Fsm → Type 0
Behaves (finish ok) s = Unit
Behaves (post m e inner rest) s =
    Enters e × Behaves inner (remember m s) × Behaves rest (process_msg (run_script inner) e m s)
Behaves (call c rest) s = (allows s.current_state c ≡ true) × Behaves rest (log c s)

run_script-Quiet : (r : Script) (s : Fsm) → Behaves r s → Quiet s → Quiet (run_script r s).0
unfolding run_script
run_script-Quiet (finish ok) s a q = q
run_script-Quiet (post m e inner rest) s a q =
    run_script-Quiet rest _ a.2
      (process_msg-Quiet e (run_script inner) m s a.0 (run_script-Quiet inner (remember m s) a.1) q)
run_script-Quiet (call c rest) s a q =
    run_script-Quiet rest (log c s) a.1 (QuietAt-allows s.current_state c s.calls a.0 q)

abbrev pub AllBehave : List Event → Fsm → Type 0
AllBehave [] s = Unit
AllBehave (v ∷ vs) s =
    Enters v.env × Behaves v.script (remember v.msg s) × AllBehave vs (handle v s)

handle_all-Quiet : (vs : List Event) (s : Fsm) → AllBehave vs s → Quiet s → Quiet (handle_all vs s)
unfolding handle_all handle
handle_all-Quiet [] s a q = q
handle_all-Quiet (v ∷ vs) s a q = handle_all-Quiet vs _ a.2 (
    process_msg-Quiet v.env (run_script v.script) v.msg s a.0
      (run_script-Quiet v.script (remember v.msg s) a.1) q)

-- From its start on, whatever messages come and whatever their handlers post, as long as the hooks that enter states succeed and what the handlers call of the traffic controller themselves is what the state allows that the machine is in by then (to ask for data in `TRANSFER` and `DOWNLOAD`, to serve the peer in `TRANSFER`, `UPLOAD` and `SEED`): a connection in `UPLOAD`, `SEED` or `CLOSE` has asked for no data since its downloading was stopped last, one in `DOWNLOAD` or `CLOSE` has served no peer since its uploading was stopped last, and before `TRANSFER`, `UPLOAD` and `DOWNLOAD` neither is done. So entering and leaving a state, ticks and posted messages never break it.
pub handle_all-start_fsm :
    (u i : Bool) (e : Env) (vs : List Event)
    → Enters e
    → AllBehave vs (start_fsm e (new_fsm u i)).0
    → Quiet (handle_all vs (start_fsm e (new_fsm u i)).0)
unfolding start_fsm new_fsm enter_state enter_first enter_plain
handle_all-start_fsm u i e vs h a =
    let s : Fsm = new_fsm u i in
    let n : QuietAt init s.calls = (refl, refl) in
    handle_all-Quiet vs _ a (
      and_then-Quiet s (e.enter_proc init) _ n
        (process_init-Quiet e h (λ s. (s, true)) s (λ q. q) no_msg n n))
