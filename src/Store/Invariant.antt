-- ===== src/Store/Invariant.antt =====
-- The consistency of the tables of internal/store that every method keeps.
pub mod Updates
pub mod Inserts
pub mod Commit
pub mod Purge
pub mod Safe
pub mod DropPoints
pub mod Submissions
pub mod History
use drop_point.Base.{
  ◌≡◌, ◌≢◌, Bool, true, false, List, [], ◌∷◌, All, ℤ, pos, ◌≤ℤ◌, pos_part, neg_part, Bytes, ◌≤◌,
  ◌+◌,
}
use drop_point.Store.Table.{count_rows}
use drop_point.Store.Table.Keys.{Distinct}
use drop_point.Store.Rows.{DropPointRow, SubmissionRow, Tables, int_or_zero}
use drop_point.Store.DropPoints.{has_id, has_drop_token_hash}
use drop_point.Store.Queue.{has_key, pending_count, ready_bytes}

abbrev pub same_id : DropPointRow → DropPointRow → Bool
same_id r s = has_id r.id s

abbrev pub same_drop_token : DropPointRow → DropPointRow → Bool
same_drop_token r s = has_drop_token_hash r.drop_token_hash s

abbrev pub same_key : SubmissionRow → SubmissionRow → Bool
same_key r s = has_key r.drop_point_id r.id s

abbrev pub IsSized : SubmissionRow → Type 0
IsSized r = pos 0 ≤ℤ int_or_zero r.encrypted_size

abbrev pub HasParent : List DropPointRow → SubmissionRow → Type 0
HasParent rows s = count_rows (has_id s.drop_point_id) rows ≢ 0

-- The drop point's queue holds no more submissions and no more bytes than it allows.
pub record IsWithinQuota (rows : List SubmissionRow) (r : DropPointRow) : Type 0 where
  pub slots : pos (pending_count r.id rows) ≤ℤ r.max_pending_submissions
  pub bytes : ready_bytes r.id rows ≤ℤ r.max_pending_bytes

-- Keys are distinct, every submission has its drop point, no stored size is negative, and every
-- queue is within its quota.
pub record IsConsistent (t : Tables) : Type 0 where
  pub ids : Distinct same_id t.drop_points
  pub drop_tokens : Distinct same_drop_token t.drop_points
  pub keys : Distinct same_key t.submissions
  pub parents : All (HasParent t.drop_points) t.submissions
  pub sizes : All IsSized t.submissions
  pub quotas : All (IsWithinQuota t.submissions) t.drop_points
