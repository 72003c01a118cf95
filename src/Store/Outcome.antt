-- ===== src/Store/Outcome.antt =====
-- What the methods of `Repository` return and do on every branch.
pub mod Begin
pub mod Commit
pub mod Settled
pub mod Access
pub mod Quota
pub mod Tokens
pub mod Sweep
pub mod Status
pub mod Expiry
