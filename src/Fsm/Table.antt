-- ===== src/Fsm/Table.antt =====
-- rcs/src/frame/p2p_fsm.cpp: the table of the state objects, which a protocol fills before the start.
use resource_cache.Common.{
  ℕ, ◌≡◌, refl, ap, Bool, true, false, Option, none, some, List, length, set, replicate, leb, ◌==◌,
  if◌then◌else◌, length-set, Bool-cases, inl, inr,
}

-- `FSM_STATE_BUTT`, the number of states.
abbrev pub fsm_state_butt : ℕ
fsm_state_butt = 9

module _ {A : Type 0} where
  -- What the constructor makes of `states_`.
  unfoldable pub new_states : List (Option A)
  new_states = replicate fsm_state_butt none

  unfoldable pub set_fsm_state_obj : ℕ → Option A → List (Option A) → Bool × List (Option A)
  set_fsm_state_obj state_type none states = (false, states)
  set_fsm_state_obj state_type (some state) states =
      if leb fsm_state_butt state_type
      then (false, states)
      else (true, set states state_type (some state))

  -- The test at the start of `StartFsm`.
  unfoldable pub are_states_set : List (Option A) → Bool
  are_states_set states = length states == fsm_state_butt

  length-set_fsm_state_obj :
      (n : ℕ) (o : Option A) (states : List (Option A))
      → length (set_fsm_state_obj n o states).1 ≡ length states
  unfolding set_fsm_state_obj
  length-set_fsm_state_obj n none states = refl
  length-set_fsm_state_obj n (some a) states = elim (Bool-cases (leb fsm_state_butt n)) [
    | inl e ↦ rw e refl
    | inr e ↦ rw e (length-set states n (some a))
  ]

  -- The test holds before any state is set, and no call changes it.
  are_states_set-new :
      (n : ℕ) (o : Option A)
      → (are_states_set new_states ≡ true)
        × ((states : List (Option A))
            → are_states_set (set_fsm_state_obj n o states).1 ≡ are_states_set states)
  unfolding are_states_set new_states
  are_states_set-new n o =
      (refl, λ states. ap (λ l. l == fsm_state_butt) (length-set_fsm_state_obj n o states))
