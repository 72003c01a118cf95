-- ===== src/Store/Invariant/Updates.antt =====
-- Updates and deletions of rows keep the tables consistent.
use drop_point.Base.{
  ◌≤◌, ◌≡◌, Bool, true, ◌&&◌, List, pos, ◌≤ℤ◌, int_laws, Bytes, Bool-cases, bytes_eq, inl, inr,
}
use drop_point.Store.Table.{update_rows, delete_rows, count_rows}
use drop_point.Store.Table.Update.{
  All-mono, All-update, All-delete, count-update, count-update_le, count-delete_le, sum-update_le,
  sum-delete_le,
}
use drop_point.Store.Table.Keys.{Distinct-update, Distinct-delete}
use drop_point.Store.Rows.{DropPointRow, SubmissionRow, Tables}
use drop_point.Store.DropPoints.{has_id}
use drop_point.Store.Queue.{is_pending, is_ready, pending_count, ready_size, ready_bytes}
use drop_point.Store.Invariant.{
  same_id, same_drop_token, same_key, IsSized, HasParent, IsWithinQuota, IsConsistent,
}

-- What an update of a drop point leaves alone.
pub record KeepsLimits (f : DropPointRow → DropPointRow) : Type 0 where
  pub id : (r : DropPointRow) → (f r).id ≡ r.id
  pub drop_token : (r : DropPointRow) → (f r).drop_token_hash ≡ r.drop_token_hash
  pub slots : (r : DropPointRow) → (f r).max_pending_submissions ≡ r.max_pending_submissions
  pub bytes : (r : DropPointRow) → (f r).max_pending_bytes ≡ r.max_pending_bytes

IsWithinQuota-keeps :
    (f : DropPointRow → DropPointRow) (rows : List SubmissionRow) (r : DropPointRow)
    → KeepsLimits f
    → IsWithinQuota rows r
    → IsWithinQuota rows (f r)
IsWithinQuota-keeps f rows r k q = record {
  slots = rw (k.id r, k.slots r) q.slots;
  bytes = rw (k.id r, k.bytes r) q.bytes;
}

pub update_drop_points-IsConsistent :
    (p : DropPointRow → Bool) (f : DropPointRow → DropPointRow) (t : Tables)
    → KeepsLimits f
    → IsConsistent t
    → IsConsistent (record t { drop_points = update_rows p f t.drop_points })
update_drop_points-IsConsistent p f t k c = record {
  ids = Distinct-update same_id p f t.drop_points (λ r s. rw (k.id r)) (λ r s. rw (k.id s)) c.ids;
  drop_tokens =
      Distinct-update same_drop_token p f t.drop_points (λ r s. rw (k.drop_token r))
        (λ r s. rw (k.drop_token s)) c.drop_tokens;
  keys = c.keys;
  parents = All-mono t.submissions (λ s h. rw (count_ids s.drop_point_id) h) c.parents;
  sizes = c.sizes;
  quotas =
      All-update p f t.drop_points (λ r _ q. IsWithinQuota-keeps f t.submissions r k q) c.quotas;
}
  where
    count_ids :
        (id : Bytes)
        → count_rows (has_id id) (update_rows p f t.drop_points)
          ≡ count_rows (has_id id) t.drop_points
    count_ids id = count-update (has_id id) p f t.drop_points (λ r _. rw (k.id r))

-- An update of submissions that makes none pending, and none weigh more.
pub record Releases (p : SubmissionRow → Bool) (f : SubmissionRow → SubmissionRow) : Type 0 where
  pub id : (r : SubmissionRow) → (f r).id ≡ r.id
  pub parent : (r : SubmissionRow) → (f r).drop_point_id ≡ r.drop_point_id
  pub pending :
      (d : Bytes) (r : SubmissionRow)
      → p r ≡ true
      → is_pending d (f r) ≡ true
      → is_pending d r ≡ true
  pub weight :
      (d : Bytes) (r : SubmissionRow)
      → p r ≡ true
      → IsSized r
      → ready_size d (f r) ≤ℤ ready_size d r
  pub sized : (r : SubmissionRow) → p r ≡ true → IsSized r → IsSized (f r)

IsWithinQuota-fewer :
    (rows rows' : List SubmissionRow) (r : DropPointRow)
    → pending_count r.id rows' ≤ pending_count r.id rows
    → ready_bytes r.id rows' ≤ℤ ready_bytes r.id rows
    → IsWithinQuota rows r
    → IsWithinQuota rows' r
IsWithinQuota-fewer rows rows' r h k q = record {
  slots = omega (int_laws, q.slots);
  bytes = omega (int_laws, q.bytes);
}

pub update_submissions-IsConsistent :
    (p : SubmissionRow → Bool) (f : SubmissionRow → SubmissionRow) (t : Tables)
    → Releases p f
    → IsConsistent t
    → IsConsistent (record t { submissions = update_rows p f t.submissions })
unfolding pending_count ready_bytes
update_submissions-IsConsistent p f t k c = record {
  ids = c.ids;
  drop_tokens = c.drop_tokens;
  keys =
      Distinct-update same_key p f t.submissions (λ r s. rw (k.id r, k.parent r))
        (λ r s. rw (k.id s, k.parent s)) c.keys;
  parents = All-update p f t.submissions (λ s _ h. rw (k.parent s) h) c.parents;
  sizes = All-update p f t.submissions k.sized c.sizes;
  quotas =
      All-mono t.drop_points
        (λ r.
          IsWithinQuota-fewer t.submissions (update_rows p f t.submissions) r (fewer r.id)
            (lighter r.id))
        c.quotas;
}
  where
    fewer :
        (d : Bytes)
        → pending_count d (update_rows p f t.submissions) ≤ pending_count d t.submissions
    fewer d = count-update_le (is_pending d) p f t.submissions (k.pending d)

    lighter :
        (d : Bytes) → ready_bytes d (update_rows p f t.submissions) ≤ℤ ready_bytes d t.submissions
    lighter d =
        sum-update_le (ready_size d) p f t.submissions
          (All-mono t.submissions (λ r s e. k.weight d r e s) c.sizes)

pub ready_size-nonneg : (d : Bytes) (r : SubmissionRow) → IsSized r → pos 0 ≤ℤ ready_size d r
unfolding ready_size
ready_size-nonneg d r h = elim (Bool-cases (bytes_eq r.drop_point_id d && is_ready r)) [
  | inl e ↦ rw e h
  | inr e ↦ rw e (omega int_laws)
]

pub delete_submissions-IsConsistent :
    (p : SubmissionRow → Bool) (t : Tables)
    → IsConsistent t
    → IsConsistent (record t { submissions = delete_rows p t.submissions })
unfolding pending_count ready_bytes
delete_submissions-IsConsistent p t c = record {
  ids = c.ids;
  drop_tokens = c.drop_tokens;
  keys = Distinct-delete same_key p t.submissions c.keys;
  parents = All-delete (HasParent t.drop_points) p t.submissions c.parents;
  sizes = All-delete IsSized p t.submissions c.sizes;
  quotas =
      All-mono t.drop_points
        (λ r.
          IsWithinQuota-fewer t.submissions (delete_rows p t.submissions) r
            (count-delete_le (is_pending r.id) p t.submissions)
            (sum-delete_le (ready_size r.id) p t.submissions
              (All-mono t.submissions (λ s h. ready_size-nonneg r.id s h) c.sizes)))
        c.quotas;
}
