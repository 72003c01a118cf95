-- ===== src/Store.antt =====
-- internal/store: the relay's metadata in SQLite.
pub mod Table
pub mod Sql
pub mod Rows
pub mod DropPoints
pub mod Queue
pub mod Submissions
pub mod ApiTokens
pub mod Sweep
pub mod Invariant
pub mod Refinement
pub mod Outcome
pub mod Tests
