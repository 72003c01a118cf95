-- ===== src/Store/Invariant/Purge.antt =====
-- `PurgeTerminalDropPoints` keeps the tables consistent, and what it may not delete.
use drop_point.Base.{◌≡◌, Bool, false, arith, ℤ}
use drop_point.Store.Table.{select_rows, delete_rows, count_rows}
use drop_point.Store.Table.Update.{All-zip, All-delete, All-delete_self, count-select-delete}
use drop_point.Store.Table.Keys.{Distinct-delete}
use drop_point.Store.Rows.{DropPointRow, SubmissionRow, Tables}
use drop_point.Store.DropPoints.{has_id}
use drop_point.Store.Sweep.{is_purgeable, is_child_of, remove_purgeable}
use drop_point.Store.Invariant.{same_id, same_drop_token, HasParent, IsWithinQuota, IsConsistent}
use drop_point.Store.Invariant.Updates.{delete_submissions-IsConsistent}

module _ (cutoff : ℤ) (t : Tables) where
  abbrev purged : DropPointRow → Bool
  purged = is_purgeable cutoff t.submissions

  abbrev orphaned : SubmissionRow → Bool
  orphaned = is_child_of (select_rows purged t.drop_points)

  -- A submission that stays has a parent that stays.
  parent_stays :
      (s : SubmissionRow)
      → HasParent t.drop_points s
      → orphaned s ≡ false
      → HasParent (delete_rows purged t.drop_points) s
  unfolding is_child_of
  parent_stays s there kept gone = there (
      omega
        (arith, count-select-delete (has_id s.drop_point_id) purged t.drop_points, gone, not_child))
    where
      not_child : count_rows (has_id s.drop_point_id) (select_rows purged t.drop_points) ≡ 0
      not_child = ground (arith, kept)

  pub remove_purgeable-IsConsistent : IsConsistent t → IsConsistent (remove_purgeable cutoff t).1
  unfolding remove_purgeable
  remove_purgeable-IsConsistent c = record {
    ids = Distinct-delete same_id purged t.drop_points rest.ids;
    drop_tokens = Distinct-delete same_drop_token purged t.drop_points rest.drop_tokens;
    keys = rest.keys;
    parents =
        All-zip (delete_rows orphaned t.submissions) parent_stays
          (All-delete (HasParent t.drop_points) orphaned t.submissions c.parents)
          (All-delete_self orphaned t.submissions);
    sizes = rest.sizes;
    quotas =
        All-delete (IsWithinQuota (delete_rows orphaned t.submissions)) purged t.drop_points
          rest.quotas;
  }
    where
      rest : IsConsistent (record t { submissions = delete_rows orphaned t.submissions })
      rest = delete_submissions-IsConsistent orphaned t c
