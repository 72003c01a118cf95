-- ===== src/Store/Invariant/History.antt =====
-- Any history of calls on the repository, from an empty database on.
use drop_point.Base.{
  ◌≡◌, Bool, List, [], ◌∷◌, ℤ, int_laws, Bytes, refl, if_elim, not, ◌||◌, ◌==◌, is_empty,
}
use drop_point.Errors.{Result, ok, err}
use drop_point.DropPoint.{DropPoint, CreateDropPointRequest, new}
use drop_point.DropPoint.Lifecycle.{new_opens}
use drop_point.Submission.{CommitSubmissionResult}
use drop_point.Store.Rows.{ApiTokenRow, Tables, no_tables}
use drop_point.Store.Table.{count_rows}
use drop_point.Store.Sql.{Conn, M, pure, fail, ◌>>=◌}
use drop_point.Store.Sql.Hoare.{Post, Triple-exec, Keeps-after}
use drop_point.Store.DropPoints
use drop_point.Store.Queue.{begin_submission, commit_submission, delete_receiving_submission}
use drop_point.Store.Submissions.{
  mark_submission_picked_up, acknowledge_submission, fail_submission, clear_submission_files,
  clear_drop_point_files,
}
use drop_point.Store.Sweep.{expire_drop_points, purge_terminal_drop_points}
use drop_point.Store.ApiTokens.{
  AddApiTokenParams, add_api_token, insert_api_token, disable_api_token, set_disabled,
  remove_api_token, drop_api_token, has_invalid_fields, is_zero_time, enabled_row, has_token_id,
  has_secret_hash,
}
use drop_point.Store.Invariant.{IsConsistent}
use drop_point.Store.Invariant.Safe.{Safe, Safe-pure, Safe-fail, Safe-bind, Safe-if}
use drop_point.Store.Invariant.DropPoints.{
  create_drop_point_within_quota-Safe, find_open_drop_point_by_drop_token_hash-Safe,
  authorize_pickup_token-Safe, close_drop_point-Safe, fail_drop_point-Safe,
}
use drop_point.Store.Invariant.Submissions.{
  begin_submission-Safe, delete_receiving_submission-Safe, mark_submission_picked_up-Safe,
  acknowledge_submission-Safe, fail_submission-Safe, clear_submission_files-Safe,
  clear_drop_point_files-Safe, expire_drop_points-Safe, purge_terminal_drop_points-Safe,
}
use drop_point.Store.Invariant.Commit.{commit_submission-IsConsistent}

-- The calls that may write. A drop point is stored only as `New` made it.
pub data Call : Type 0 where
  creates : CreateDropPointRequest → ℤ → ℤ → Call
  finds_open : Bytes → ℤ → Call
  authorizes : Bytes → Bytes → ℤ → Call
  begins : Bytes → Bytes → ℤ → Call
  commits : Bytes → Bytes → CommitSubmissionResult → ℤ → Call
  deletes_receiving : Bytes → Bytes → Call
  picks_up acknowledges fails_submission : Bytes → Bytes → ℤ → Call
  clears_submission : Bytes → Bytes → Call
  clears_drop_point : Bytes → Call
  closes fails_drop_point : Bytes → ℤ → Call
  expires purges : ℤ → Call
  adds_token : AddApiTokenParams → Call
  disables_token : Bytes → ℤ → Call
  removes_token : Bytes → Call

-- The value of a call, left out.
pub void : {A : Type 0} → M A → M (Unit {0})
void m = m >>= λ _. pure tt

pub create_made : Result DropPoint → ℤ → ℤ → M (Unit {0})
create_made (ok dp) max_active now = DropPoints.create_drop_point_within_quota dp max_active now
create_made (err e) max_active now = fail e

pub perform : Call → M (Unit {0})
unfolding void create_made
perform (creates req max_active now) = create_made (new req now) max_active now
perform (finds_open hash now) = void (DropPoints.find_open_drop_point_by_drop_token_hash hash now)
perform (authorizes id hash now) = void (DropPoints.authorize_pickup_token id hash now)
perform (begins dpid sid now) = begin_submission dpid sid now
perform (commits dpid sid stored now) = commit_submission dpid sid stored now
perform (deletes_receiving dpid sid) = delete_receiving_submission dpid sid
perform (picks_up dpid sid now) = mark_submission_picked_up dpid sid now
perform (acknowledges dpid sid now) = acknowledge_submission dpid sid now
perform (fails_submission dpid sid now) = fail_submission dpid sid now
perform (clears_submission dpid sid) = clear_submission_files dpid sid
perform (clears_drop_point dpid) = clear_drop_point_files dpid
perform (closes id now) = DropPoints.close_drop_point id now
perform (fails_drop_point id now) = DropPoints.fail_drop_point id now
perform (expires now) = void (expire_drop_points now)
perform (purges cutoff) = void (purge_terminal_drop_points cutoff)
perform (adds_token params) = add_api_token params
perform (disables_token id now) = disable_api_token id now
perform (removes_token id) = remove_api_token id

-- The connection after some calls, whatever each returned.
unfoldable pub run : Conn → List Call → Conn
unfolding perform
run c [] = c
run c (call ∷ calls) = run (perform call c).1 calls

void-Safe : {A : Type 0} {m : M A} → Safe m → Safe (void m)
unfolding void
void-Safe h = Safe-bind h (λ _. Safe-pure tt)

tokens-IsConsistent :
    (t : Tables) {tokens : List ApiTokenRow}
    → IsConsistent t
    → IsConsistent (record t { api_tokens = tokens })
tokens-IsConsistent t c = record {
  ids = c.ids;
  drop_tokens = c.drop_tokens;
  keys = c.keys;
  parents = c.parents;
  sizes = c.sizes;
  quotas = c.quotas;
}

create_made-Safe :
    (req : CreateDropPointRequest) (now : ℤ) (made : Result DropPoint) (max_active : ℤ)
    → new req now ≡ made
    → Safe (create_made made max_active now)
unfolding create_made
create_made-Safe req now (err e) max_active h = Safe-fail e
create_made-Safe req now (ok dp) max_active h =
    let recorded = (new_opens req now dp h).0 in
    create_drop_point_within_quota-Safe dp max_active now
      (omega (int_laws, recorded.slots_positive))
      (omega (int_laws, recorded.limit_positive, recorded.room_for_one))

add_api_token-Safe : (params : AddApiTokenParams) → Safe (add_api_token params)
unfolding add_api_token insert_api_token
add_api_token-Safe params =
    Safe-if (has_invalid_fields params.id params.secret_hash params.max_active_drop_points)
      (Safe-fail _)
      (Safe-if (is_zero_time params.created_at) (Safe-fail _)
        (Triple-exec _ (λ t c. added t c) (λ t c. c)))
  where
    added :
        (t : Tables)
        → IsConsistent t
        → Post {A = Unit {0}}
            (λ _. IsConsistent)
            IsConsistent
            (insert_api_token (enabled_row params) t).0
            (insert_api_token (enabled_row params) t).1
    added t c =
        if_elim
          (λ (out : Result (Unit {0}) × Tables).
            Post {A = Unit {0}} (λ _. IsConsistent) IsConsistent out.0 out.1)
          (not (count_rows (has_token_id (enabled_row params).id) t.api_tokens == 0)
            || not
                (count_rows (has_secret_hash (enabled_row params).secret_hash) t.api_tokens == 0))
          _ _ (λ _. c) (λ _. tokens-IsConsistent t c)

disable_api_token-Safe : (id : Bytes) (now : ℤ) → Safe (disable_api_token id now)
unfolding disable_api_token set_disabled
disable_api_token-Safe id now = Safe-if (is_empty id) (Safe-fail _) (
    Safe-if (is_zero_time now) (Safe-fail _) (
      Safe-bind (Triple-exec _ (λ t c. tokens-IsConsistent t c) (λ t c. c))
        (λ n. Safe-if (n == 0) (Safe-fail _) (Safe-pure tt))))

remove_api_token-Safe : (id : Bytes) → Safe (remove_api_token id)
unfolding remove_api_token drop_api_token
remove_api_token-Safe id = Safe-if (is_empty id) (Safe-fail _) (
    Safe-bind (Triple-exec _ (λ t c. tokens-IsConsistent t c) (λ t c. c))
      (λ n. Safe-if (n == 0) (Safe-fail _) (Safe-pure tt)))

perform-Safe : (call : Call) → Safe (perform call)
unfolding perform
perform-Safe (creates req max_active now) = create_made-Safe req now (new req now) max_active refl
perform-Safe (finds_open hash now) =
    void-Safe (find_open_drop_point_by_drop_token_hash-Safe hash now)
perform-Safe (authorizes id hash now) = void-Safe (authorize_pickup_token-Safe id hash now)
perform-Safe (begins dpid sid now) = begin_submission-Safe dpid sid now
perform-Safe (commits dpid sid stored now) = commit_submission-IsConsistent dpid sid stored now
perform-Safe (deletes_receiving dpid sid) = delete_receiving_submission-Safe dpid sid
perform-Safe (picks_up dpid sid now) = mark_submission_picked_up-Safe dpid sid now
perform-Safe (acknowledges dpid sid now) = acknowledge_submission-Safe dpid sid now
perform-Safe (fails_submission dpid sid now) = fail_submission-Safe dpid sid now
perform-Safe (clears_submission dpid sid) = clear_submission_files-Safe dpid sid
perform-Safe (clears_drop_point dpid) = clear_drop_point_files-Safe dpid
perform-Safe (closes id now) = close_drop_point-Safe id now
perform-Safe (fails_drop_point id now) = fail_drop_point-Safe id now
perform-Safe (expires now) = void-Safe (expire_drop_points-Safe now)
perform-Safe (purges cutoff) = void-Safe (purge_terminal_drop_points-Safe cutoff)
perform-Safe (adds_token params) = add_api_token-Safe params
perform-Safe (disables_token id now) = disable_api_token-Safe id now
perform-Safe (removes_token id) = remove_api_token-Safe id

run_from-IsConsistent :
    (c : Conn) (calls : List Call) → IsConsistent c.tables → IsConsistent (run c calls).tables
unfolding run
run_from-IsConsistent c [] h = h
run_from-IsConsistent c (call ∷ calls) h =
    run_from-IsConsistent (perform call c).1 calls (Keeps-after (perform-Safe call) c h)

-- From an empty database, after any history of calls, whichever driver calls failed: keys are
-- distinct, every submission has its drop point, no stored size is negative, and no drop point has
-- more pending submissions or more ready bytes than its limits.
pub run-IsConsistent :
    (faults : List Bool) (calls : List Call)
    → IsConsistent (run (record { tables = no_tables; faults = faults }) calls).tables
run-IsConsistent faults calls =
    run_from-IsConsistent _ calls
      (record { ids = tt; drop_tokens = tt; keys = tt; parents = tt; sizes = tt; quotas = tt })
