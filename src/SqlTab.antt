-- ===== src/SqlTab.antt =====
-- internal/sqltab: a tab with an SQL editor, its runs and their results.
pub mod Types
pub mod State
pub mod Offsets
pub mod Editor
pub mod Results
pub mod Copying
pub mod Ended
pub mod Runs
pub mod Typing
pub mod Keys
pub mod Pointer
pub mod Update
pub mod Frame
pub mod Navigating
pub mod Running
pub mod Placing
pub mod Placement
pub mod Answering
pub mod Cursor
pub mod Undoing
pub mod Moving
pub mod Undone
pub mod TakingBack
pub mod Kept
mod Samples
