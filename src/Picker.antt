-- ===== src/Picker.antt =====
-- rcs/src/frame/piece_picker.cpp: `PiecePicker`, which decides what to download next.
-- A method takes the state and returns the new one with the calls that it makes of its torrent, in
-- order. `none` is a failed `BC_ASSERT`. The torrent, which the picker holds weakly, is `none` when it
-- is gone. Each method holds `piece_mutex_` for as long as it reads or writes the containers, so calls
-- of several threads come one after the other; only `PickBlocks` takes it twice, once in each half.
pub mod Pieces
pub mod Strategy
pub mod Loops
pub mod State
pub mod Choose
pub mod Mark
pub mod Containers
pub mod Finished
pub mod Blocks
pub mod BlockStates
pub mod Downloading
pub mod Waiting
pub mod Starting
pub mod Invariant
pub mod Construct
pub mod Start
pub mod Update
pub mod Marks
pub mod Verify
pub mod Reached
pub mod Whole
