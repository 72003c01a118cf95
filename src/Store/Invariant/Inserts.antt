-- ===== src/Store/Invariant/Inserts.antt =====
-- The inserts of `CreateDropPointWithinQuota` and `BeginSubmission` keep the tables consistent.
use drop_point.Base.{
  ℕ, suc, ◌≡◌, ◌≢◌, Bool, true, false, not, ◌||◌, List, ◌∷◌, All, arith, ℤ, pos, ◌≤ℤ◌, int_laws,
  Bytes, bytes_eq, bytes_eq→eq, bytes_eq_refl, bytes_eq_iff, if◌then◌else◌, ◌==◌, ◌⊎◌, if_elim,
  Bool-cases, inl, inr, ltb_ℤ, ltb_ℤ→lt, is_empty,
}
use drop_point.Errors.{Result}
use drop_point.Submission.{same_status}
use drop_point.Store.Table.{count_rows, sum_rows}
use drop_point.Store.Table.Update.{All-mono, All-zip, count_zero, sum_zero}
use drop_point.Store.Table.Keys.{exists_only, All→count_zero}
use drop_point.Store.Rows.{DropPointRow, SubmissionRow, Tables}
use drop_point.Store.Sql.Hoare.{Post}
use drop_point.Store.DropPoints.{
  has_id, has_drop_token_hash, is_active, insert_checked, insert_within_quota,
}
use drop_point.Store.Queue.{
  has_key, is_pending, pending_count, ready_size, ready_bytes, receiving_row, has_room,
  insert_submission,
}
use drop_point.Store.Invariant.{same_id, HasParent, IsWithinQuota, IsConsistent}

-- What a new drop point must bring: limits that an empty queue respects.
pub record HasLimits (r : DropPointRow) : Type 0 where
  pub slots : pos 0 ≤ℤ r.max_pending_submissions
  pub bytes : pos 0 ≤ℤ r.max_pending_bytes

bytes_eq_comm : (s t : Bytes) → bytes_eq s t ≡ bytes_eq t s
bytes_eq_comm s t = ground (arith, bytes_eq_iff s t, bytes_eq_iff t s)

-- A drop point that is not there has no submissions.
no_children :
    (t : Tables) (id : Bytes)
    → IsConsistent t
    → count_rows (has_id id) t.drop_points ≡ 0
    → All (λ s. bytes_eq s.drop_point_id id ≡ false) t.submissions
no_children t id c free =
    All-mono t.submissions (λ s h. go s h (Bool-cases (bytes_eq s.drop_point_id id))) c.parents
  where
    go :
        (s : SubmissionRow)
        → HasParent t.drop_points s
        → (bytes_eq s.drop_point_id id ≡ true) ⊎ (bytes_eq s.drop_point_id id ≡ false)
        → bytes_eq s.drop_point_id id ≡ false
    go s h (inl e) = absurd (h (rw (bytes_eq→eq _ _ e) free))
    go s h (inr e) = e

empty_queue-IsWithinQuota :
    (rows : List SubmissionRow) (r : DropPointRow)
    → HasLimits r
    → All (λ s. bytes_eq s.drop_point_id r.id ≡ false) rows
    → IsWithinQuota rows r
unfolding pending_count ready_bytes ready_size
empty_queue-IsWithinQuota rows r l none' = record {
  slots = rw (All→count_zero (is_pending r.id) rows (All-mono rows (λ s e. rw e) none')) l.slots;
  bytes = rw (sum_zero (ready_size r.id) rows (All-mono rows (λ s e. rw e) none')) l.bytes;
}

pub insert_drop_point-IsConsistent :
    (r : DropPointRow) (t : Tables)
    → HasLimits r
    → count_rows (has_id r.id) t.drop_points ≡ 0
    → count_rows (has_drop_token_hash r.drop_token_hash) t.drop_points ≡ 0
    → IsConsistent t
    → IsConsistent (record t { drop_points = r ∷ t.drop_points })
unfolding count_rows
insert_drop_point-IsConsistent r t l free unused c = record {
  ids = (free, c.ids);
  drop_tokens = (unused, c.drop_tokens);
  keys = c.keys;
  parents = All-mono t.submissions (λ s h. ground (arith, h)) c.parents;
  sizes = c.sizes;
  quotas = (empty_queue-IsWithinQuota t.submissions r l (no_children t r.id c free), c.quotas);
}

abbrev Kept : Result ℕ × Tables → Type 0
Kept out = Post {A = ℕ} (λ _. IsConsistent) IsConsistent out.0 out.1

not_zero : (n : ℕ) → not (n == 0) ≡ false → n ≡ 0
not_zero n h = ground arith

insert_checked-Kept :
    (r : DropPointRow) (t : Tables) → HasLimits r → IsConsistent t → Kept (insert_checked r t)
unfolding insert_checked
insert_checked-Kept r t l c =
    if_elim Kept (is_empty r.display_name) _ _ (λ _. c)
      λ _.
        if_elim Kept (taken || used) _ _ (λ _. c)
          λ free.
            insert_drop_point-IsConsistent r t l (not_zero _ (ground arith))
              (not_zero _ (ground arith)) c
  where
    taken : Bool
    taken = not (count_rows (has_id r.id) t.drop_points == 0)

    used : Bool
    used = not (count_rows (has_drop_token_hash r.drop_token_hash) t.drop_points == 0)

pub insert_within_quota-Kept :
    (r : DropPointRow) (max_active now : ℤ) (t : Tables)
    → HasLimits r
    → IsConsistent t
    → Kept (insert_within_quota r max_active now t)
unfolding insert_within_quota
insert_within_quota-Kept r max_active now t l c =
    if_elim Kept (ltb_ℤ (pos (count_rows (is_active r.api_token_id now) t.drop_points)) max_active)
      _ _ (λ _. insert_checked-Kept r t l c) (λ _. c)

pub same_id_of_has_id :
    (k : Bytes) (r s : DropPointRow) → has_id k r ≡ true → has_id k s ≡ true → same_id r s ≡ true
same_id_of_has_id k r s h g =
    ground (arith, bytes_eq_iff r.id k, bytes_eq_iff s.id k, bytes_eq_iff s.id r.id)

has_room-true :
    (dpid : Bytes) (now : ℤ) (rows : List SubmissionRow) (r : DropPointRow)
    → has_room dpid now rows r ≡ true
    → (has_id dpid r ≡ true)
      × (ltb_ℤ (pos (pending_count dpid rows)) r.max_pending_submissions ≡ true)
unfolding has_room
has_room-true dpid now rows r h = ground arith

pending_count-receiving :
    (d dpid sid : Bytes) (now : ℤ) (rows : List SubmissionRow)
    → pending_count d (receiving_row dpid sid now ∷ rows)
      ≡ (if bytes_eq dpid d then suc (pending_count d rows) else pending_count d rows)
unfolding pending_count receiving_row count_rows same_status
pending_count-receiving d dpid sid now rows = ground arith

ready_bytes-receiving :
    (d dpid sid : Bytes) (now : ℤ) (rows : List SubmissionRow)
    → ready_bytes d (receiving_row dpid sid now ∷ rows) ≡ ready_bytes d rows
unfolding ready_bytes sum_rows receiving_row ready_size same_status
ready_bytes-receiving d dpid sid now rows = elim (Bool-cases (bytes_eq dpid d)) [
  | inl e ↦ rw e (omega int_laws)
  | inr e ↦ rw e (omega int_laws)
]

-- A queue with room takes one more submission; the other queues do not change.
receiving-IsWithinQuota :
    (dpid sid : Bytes) (now : ℤ) (rows : List SubmissionRow) (r : DropPointRow)
    → (has_id dpid r ≡ true → has_room dpid now rows r ≡ true)
    → IsWithinQuota rows r
    → IsWithinQuota (receiving_row dpid sid now ∷ rows) r
receiving-IsWithinQuota dpid sid now rows r room q = record {
  slots = rw (pending_count-receiving r.id dpid sid now rows) slots;
  bytes = rw (ready_bytes-receiving r.id dpid sid now rows) q.bytes;
}
  where
    one_more : dpid ≡ r.id → pos (suc (pending_count r.id rows)) ≤ℤ r.max_pending_submissions
    one_more e =
        let free = (has_room-true dpid now rows r (room (rw e (bytes_eq_refl r.id)))).1 in
        omega (int_laws, rw e at (ltb_ℤ→lt _ _ free))

    slots :
        pos (if bytes_eq dpid r.id then suc (pending_count r.id rows) else pending_count r.id rows)
        ≤ℤ r.max_pending_submissions
    slots =
        if_elim (λ n. pos n ≤ℤ r.max_pending_submissions) (bytes_eq dpid r.id) _ _
          (λ e. one_more (bytes_eq→eq dpid r.id e)) (λ _. q.slots)

insert_receiving-IsConsistent :
    (dpid sid : Bytes) (now : ℤ) (t : Tables)
    → count_rows (has_room dpid now t.submissions) t.drop_points ≢ 0
    → count_rows (has_key dpid sid) t.submissions ≡ 0
    → IsConsistent t
    → IsConsistent (record t { submissions = receiving_row dpid sid now ∷ t.submissions })
unfolding receiving_row
insert_receiving-IsConsistent dpid sid now t room free c = record {
  ids = c.ids;
  drop_tokens = c.drop_tokens;
  keys = (free, c.keys);
  parents = (
    λ none'.
        room (count_zero (has_id dpid) (has_room dpid now t.submissions) t.drop_points named none'),
    c.parents,
  );
  sizes = (omega int_laws, c.sizes);
  quotas =
      All-zip t.drop_points (λ r h q. receiving-IsWithinQuota dpid sid now t.submissions r h q) only
        c.quotas;
}
  where
    named : (r : DropPointRow) → has_room dpid now t.submissions r ≡ true → has_id dpid r ≡ true
    named r h = (has_room-true dpid now t.submissions r h).0

    only : All (λ r. has_id dpid r ≡ true → has_room dpid now t.submissions r ≡ true) t.drop_points
    only =
        exists_only same_id (has_id dpid) (same_id_of_has_id dpid) (has_room dpid now t.submissions)
          t.drop_points named c.ids room

pub insert_submission-Kept :
    (dpid sid : Bytes) (now : ℤ) (t : Tables)
    → IsConsistent t
    → Kept (insert_submission dpid sid now t)
unfolding insert_submission
insert_submission-Kept dpid sid now t c =
    if_elim Kept (count_rows (has_room dpid now t.submissions) t.drop_points == 0) _ _ (λ _. c)
      λ room.
        if_elim Kept (not (count_rows (has_key dpid sid) t.submissions == 0)) _ _ (λ _. c)
          λ free. insert_receiving-IsConsistent dpid sid now t (ground arith) (not_zero _ free) c
