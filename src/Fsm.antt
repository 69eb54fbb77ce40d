-- ===== src/Fsm.antt =====
-- rcs/src/frame/p2p_fsm.cpp: the state machine of a peer connection.
pub mod States
pub mod Table
pub mod Jumps
pub mod Machine
pub mod Quiet
pub mod Running
pub mod Closing
pub mod Early
pub mod Phases
