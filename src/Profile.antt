-- ===== src/Profile.antt =====
-- internal/profile: saved connection profiles and their passwords.
pub mod Types
pub mod Parameters
pub mod Validation
pub mod Ports
pub mod Secrets
pub mod Commit
pub mod Undo
pub mod Placing
pub mod Changes
pub mod Restoring
pub mod Service
pub mod Deletion
pub mod Settling
pub mod Deleting
pub mod Valid
pub mod Saving
pub mod Forgetting
pub mod Keeping
pub mod Loading
mod Machine
mod Samples
