-- ===== src/Examples/Connections.antt =====
-- A connection that is unchoked early, and what the theorems say of it.
use resource_cache.Common.{◌≡◌, refl, true, false, List, [], ◌∷◌}
use resource_cache.Fsm.States.{
  metadata, download, upload, pkt, tick, handshaked, get_metadata, unchoked, interest, close_msg,
  Fsm, Env, finish, post, call, try_send_data_request, new_fsm,
}
use resource_cache.Fsm.Jumps.{
  enter_plain, enter_download, enter_first, exit_metadata, exit_state, jump_with, block_target,
  leave_block, enter_block, enter_state, jump_to,
}
use resource_cache.Fsm.Machine.{
  process_init, process_handshake, process_metadata, process_download, process_state, remember,
  process_msg, run_script, Event, handle, handle_all, start_fsm,
}
use resource_cache.Fsm.Quiet.{Quiet}
use resource_cache.Fsm.Running.{AllBehave, handle_all-start_fsm}
use resource_cache.Fsm.Closing.{IsClosed, handle_all-close_msg}
use resource_cache.Fsm.Early.{early_lem}
use resource_cache.Fsm.Phases.{Later, handle_all-Later}

-- The torrent is there, its metadata is not, and every hook succeeds.
abbrev unready : Env
unready = record {
  enter_proc = λ _. true;
  exit_proc = λ _. true;
  init_proc = true;
  has_torrent = true;
  is_ready = false;
  is_seed = false;
}

-- A handshake, an unchoke that a packet carries, the metadata, a tick, and a response, whose handler asks
-- for more data.
abbrev some_events : List Event
some_events =
    record { msg = handshaked; env = unready; script = finish true }
    ∷ record {
      msg = pkt;
      env = unready;
      script = post unchoked unready (finish true) (finish true);
    }
    ∷ record { msg = get_metadata; env = unready; script = finish true }
    ∷ record { msg = tick; env = unready; script = finish true }
    ∷ record { msg = pkt; env = unready; script = call try_send_data_request (finish true) }
    ∷ []

abbrev in_metadata : Fsm
in_metadata = record {
  current_state = metadata;
  recv_unchoke = false;
  recv_interest = false;
  calls = [];
}

some_events-AllBehave : AllBehave some_events (start_fsm unready (new_fsm false false)).0
unfolding new_fsm start_fsm process_init process_handshake process_metadata process_download
    process_state remember process_msg run_script handle enter_plain enter_download enter_first
    exit_metadata exit_state jump_with block_target leave_block enter_block enter_state jump_to
some_events-AllBehave = (
  (λ st. refl),
  tt,
  (
    (λ st. refl),
    ((λ st. refl), tt, tt),
    ((λ st. refl), tt, ((λ st. refl), tt, ((λ st. refl), (refl, tt), tt))),
  ),
)

handle_all-start_fsm_example :
    Quiet (handle_all some_events (start_fsm unready (new_fsm false false)).0)
handle_all-start_fsm_example =
    handle_all-start_fsm false false unready some_events (λ st. refl) some_events-AllBehave

handle_all-close_msg_example :
    IsClosed (handle_all some_events (process_msg (λ s. (s, true)) unready close_msg in_metadata))
handle_all-close_msg_example =
    handle_all-close_msg (λ s. (s, true)) unready in_metadata some_events (λ st. refl)

early_lem_example :
    ((process_msg
        (λ s. (s, true))
        unready
        get_metadata
        (process_msg (λ s. (s, true)) unready unchoked in_metadata)).current_state
      ≡ download)
    × ((process_msg
          (λ s. (s, true))
          unready
          get_metadata
          (process_msg (λ s. (s, true)) unready interest in_metadata)).current_state
        ≡ upload)
early_lem_example =
    early_lem (λ s. (s, true)) (λ s. (s, true)) unready unready in_metadata refl (λ st. refl)
      (λ st. refl) refl

handle_all-Later_example : Later in_metadata (handle_all some_events in_metadata)
handle_all-Later_example = handle_all-Later some_events in_metadata
