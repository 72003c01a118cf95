-- ===== src/Cleanup.antt =====
-- internal/cleanup/cleanup.go: the service that recovers, expires, deletes and purges. The database
-- is the connection of Store/Sql; the blob store is the interface `BlobStore`, on a state of its own.
-- `Repository` and `BlobStore` are not nil here, so `validate` has no part.
pub mod Kept
pub mod Files
pub mod Recovery
mod Tests
use drop_point.Base.{
  ℕ, suc, ◌+◌, Bool, true, false, not, ◌||◌, none, some, List, [], ◌∷◌, ℤ, pos, ◌-ℤ◌, ltb_ℤ, Bytes,
  bytes_eq, is_empty, length, if◌then◌else◌,
}
use drop_point.Errors.{Error, Result, ok, err}
use drop_point.DropPoint.{DropPoint}
use drop_point.Submission.{Submission}
use drop_point.Store.Sql.{Conn, M}
use drop_point.Store.Queue.{delete_receiving_submission}
use drop_point.Store.Submissions.{clear_submission_files, clear_drop_point_files}
use drop_point.Store.Sweep.{
  expire_drop_points, receiving_submissions, receiving_submissions_started_before,
  cleanup_submissions, submission_files_for_drop_point, terminal_drop_points, drop_point_ids,
  purge_terminal_drop_points,
}

-- `interface BlobStore`, each method on the state `B` of the files.
pub record BlobStore (B : Type 0) : Type 0 where
  pub drop_point_ids : B → Result (List Bytes) × B
  pub delete_drop_point : Bytes → B → Result (Unit {0}) × B
  pub delete_submission : Bytes → Bytes → B → Result (Unit {0}) × B

-- Go's `Result`, which is returned beside an error too.
pub record Counts : Type 0 where
  pub expired_drop_points : ℕ
  pub recovered_receiving : ℕ
  pub deleted_payloads : ℕ
  pub deleted_orphans : ℕ
  pub purged_rows : ℕ

abbrev pub no_counts : Counts
no_counts = record {
  expired_drop_points = 0;
  recovered_receiving = 0;
  deleted_payloads = 0;
  deleted_orphans = 0;
  purged_rows = 0;
}

pub record World (B : Type 0) : Type 0 where
  pub conn : Conn
  pub blobs : B
  pub counts : Counts

abbrev pub W : Type 0 → Type 0 → Type 0
W B A = World B → Result A × World B

pub record Service (B : Type 0) : Type 0 where
  pub blob_store : BlobStore B
  pub terminal_retention : ℤ
  pub receiving_stale_after : ℤ

resume : {A C B : Type 0} → Result A × World B → (A → W B C) → Result C × World B
resume (ok a, w) f = f a w
resume (err e, w) f = (err e, w)

infixl 5 ◌>>=◌ ◌>>◌
unfoldable pub ◌>>=◌ : {A C B : Type 0} → W B A → (A → W B C) → W B C
unfolding resume
◌>>=◌ m f w = resume (m w) f

abbrev pub ◌>>◌ : {C B : Type 0} → W B (Unit {0}) → W B C → W B C
m >> k = m >>= λ _. k

unfoldable pub pure : {A B : Type 0} → A → W B A
pure a w = (ok a, w)

-- A method of `Repository`, and a method of the blob store.
unfoldable pub repository : {A B : Type 0} → M A → W B A
repository m w = ((m w.conn).0, record w { conn = (m w.conn).1 })

unfoldable pub blob : {A B : Type 0} → (B → Result A × B) → W B A
blob f w = ((f w.blobs).0, record w { blobs = (f w.blobs).1 })

unfoldable pub count : {B : Type 0} → (Counts → Counts) → W B (Unit {0})
count f w = (ok tt, record w { counts = f w.counts })

abbrev pub one_recovered : Counts → Counts
one_recovered n = record n { recovered_receiving = suc n.recovered_receiving }

abbrev pub has_paths : Submission → Bool
has_paths s = not (is_empty s.payload_path) || not (is_empty s.envelope_path)

abbrev pub payloads_deleted : ℕ → Counts → Counts
payloads_deleted n c = record c { deleted_payloads = c.deleted_payloads + n }

abbrev pub one_orphan : Counts → Counts
one_orphan n = record n { deleted_orphans = suc n.deleted_orphans }

abbrev pub set_expired : ℕ → Counts → Counts
set_expired n c = record c { expired_drop_points = n }

abbrev pub set_purged : ℕ → Counts → Counts
set_purged n c = record c { purged_rows = n }

-- `if _, exists := rowIDs[id]; exists`
unfoldable pub contains : List Bytes → Bytes → Bool
contains [] id = false
contains (row_id ∷ ids) id = bytes_eq row_id id || contains ids id

module _ {B : Type 0} (service : Service B) where
  unfoldable pub recover_receiving : List Submission → W B (Unit {0})
  recover_receiving [] = pure tt
  recover_receiving (s ∷ rest) = do
    blob (service.blob_store.delete_submission s.drop_point_id s.id)
    repository (delete_receiving_submission s.drop_point_id s.id)
    count one_recovered
    recover_receiving rest

  -- The recovery at the head of `Expire`.
  unfoldable pub recover_stale : ℤ → W B (Unit {0})
  recover_stale now =
      if ltb_ℤ (pos 0) service.receiving_stale_after
      then (do
        receiving ←
            repository (receiving_submissions_started_before (now -ℤ service.receiving_stale_after))
        recover_receiving receiving)
      else pure tt

  -- The loops of `Expire`: over acknowledged and failed submissions, over terminal drop points, and
  -- over the blob store's drop points.
  unfoldable pub clean_submissions : List Submission → W B (Unit {0})
  clean_submissions [] = pure tt
  clean_submissions (s ∷ rest) = do
    blob (service.blob_store.delete_submission s.drop_point_id s.id)
    repository (clear_submission_files s.drop_point_id s.id)
    count (payloads_deleted (if has_paths s then 1 else 0))
    clean_submissions rest

  unfoldable pub clean_terminal : List DropPoint → W B (Unit {0})
  clean_terminal [] = pure tt
  clean_terminal (dp ∷ rest) = do
    files ← repository (submission_files_for_drop_point dp.id)
    blob (service.blob_store.delete_drop_point dp.id)
    repository (clear_drop_point_files dp.id)
    count (payloads_deleted (length files))
    clean_terminal rest

  unfoldable pub clean_orphans : List Bytes → List Bytes → W B (Unit {0})
  clean_orphans row_ids [] = pure tt
  clean_orphans row_ids (id ∷ rest) =
      let others = clean_orphans row_ids rest in
      if contains row_ids id
      then others
      else do blob (service.blob_store.delete_drop_point id); count one_orphan; others

  unfoldable pub purge : ℤ → W B (Unit {0})
  purge now =
      if ltb_ℤ (pos 0) service.terminal_retention
      then (do
        purged ← repository (purge_terminal_drop_points (now -ℤ service.terminal_retention))
        count (set_purged purged))
      else pure tt

  unfoldable pub expire : ℤ → W B (Unit {0})
  expire now = do
    recover_stale now
    expired ← repository (expire_drop_points now)
    count (set_expired (length expired))
    children ← repository cleanup_submissions
    clean_submissions children
    terminal ← repository terminal_drop_points
    clean_terminal terminal
    row_ids ← repository drop_point_ids
    blob_ids ← blob service.blob_store.drop_point_ids
    clean_orphans row_ids blob_ids
    purge now

  unfoldable pub reconcile_startup : ℤ → W B (Unit {0})
  reconcile_startup now = do
    receiving ← repository receiving_submissions
    recover_receiving receiving
    expire now
