-- ===== src/Postgres.antt =====
-- internal/postgres: the statements that apply staged changes.
pub mod Statements
pub mod Execution
pub mod Numbering
pub mod Clauses
pub mod Changes
pub mod Applying
pub mod Staged
mod Samples
