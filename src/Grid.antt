-- ===== src/Grid.antt =====
-- internal/grid.
pub mod Types
pub mod State
pub mod Rows
pub mod Scroll
pub mod Snapshot
pub mod Requests
pub mod Primitive
pub mod Editor
pub mod Stage
pub mod Actions
pub mod Overlay
pub mod Results
pub mod Pointer
pub mod Update
pub mod Identity
pub mod Sending
pub mod Staging
pub mod Outcome
pub mod Editing
pub mod Scrolling
pub mod Marking
pub mod Drafts
pub mod Frame
pub mod Issue
pub mod Waiting
pub mod Access
pub mod Races
mod Samples
pub mod Numbers
