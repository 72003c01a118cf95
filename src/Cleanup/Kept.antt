-- ===== src/Cleanup/Kept.antt =====
-- What recovery and a cleanup pass keep, whatever the blob store does, whatever calls fail, and wherever
-- the first error stops them: any property of the tables that the methods they call keep, each at the
-- point where it is called.
use drop_point.Base.{
  ◌≡◌, refl, ap, Bool, true, false, List, [], ◌∷◌, ℤ, pos, ◌-ℤ◌, ltb_ℤ, Bytes, if◌then◌else◌,
  length,
}
use drop_point.Errors.{Result, ok, err, is_ok}
use drop_point.Store.Rows.{Tables}
use drop_point.Store.Queue.{delete_receiving_submission}
use drop_point.Store.Submissions.{clear_submission_files, clear_drop_point_files}
use drop_point.DropPoint.{DropPoint}
use drop_point.Submission.{Submission}
use drop_point.Cleanup.{
  World, W, Service, Counts, resume, ◌>>=◌, pure, repository, blob, count, has_paths, one_recovered,
  payloads_deleted, one_orphan, set_expired, set_purged, contains, recover_receiving, recover_stale,
  clean_submissions, clean_terminal, clean_orphans, purge, expire, reconcile_startup,
}
use drop_point.Store.Sql.{M}
use drop_point.Store.Sql.Hoare.{Keeps, Keeps-after, Keeps-read}
use drop_point.Store.Sweep.{
  expire_drop_points, purge_terminal_drop_points, receiving_submissions,
  receiving_submissions_started_before, cleanup_submissions, submission_files_for_drop_point,
  terminal_drop_points, drop_point_ids, query_submissions, query_drop_points,
}
use drop_point.Store.Invariant.{IsConsistent}
use drop_point.Store.Invariant.Submissions.{
  delete_receiving_submission-Safe, clear_submission_files-Safe, clear_drop_point_files-Safe,
  expire_drop_points-Safe, purge_terminal_drop_points-Safe,
}

-- Some call for the deletion of a submission's files, or of a drop point's, reports success.
abbrev pub Deleted : {B : Type 0} → Service B → Bytes → Bytes → Type 0
Deleted {B} service dpid sid =
    (b : B) × (is_ok (service.blob_store.delete_submission dpid sid b).0 ≡ true)

abbrev pub DeletedAll : {B : Type 0} → Service B → Bytes → Type 0
DeletedAll {B} service dpid =
    (b : B) × (is_ok (service.blob_store.delete_drop_point dpid b).0 ≡ true)

-- The methods of the repository keep the property where the service calls them: rows are deleted or
-- cleared only once the deletion of the files succeeded, and purged only if a retention is set.
pub record Sound {B : Type 0} (service : Service B) (I : Tables → Type 0) : Type 0 where
  pub recovered :
      (dpid sid : Bytes) → Deleted service dpid sid → Keeps I (delete_receiving_submission dpid sid)
  pub cleared :
      (dpid sid : Bytes) → Deleted service dpid sid → Keeps I (clear_submission_files dpid sid)
  pub emptied : (dpid : Bytes) → DeletedAll service dpid → Keeps I (clear_drop_point_files dpid)
  pub expired : (now : ℤ) → Keeps I (expire_drop_points now)
  pub purged :
      ltb_ℤ (pos 0) service.terminal_retention ≡ true
      → (cutoff : ℤ) → Keeps I (purge_terminal_drop_points cutoff)

module _ {B : Type 0} (I : Tables → Type 0) where
  pub record Steady {A : Type 0} (m : W B A) : Type 0 where
    pub holds : (w : World B) → I w.conn.tables → I (m w).1.conn.tables

  resume-Steady :
      {A C : Type 0} (r : Result A) (w : World B) (f : A → W B C)
      → I w.conn.tables
      → ((a : A) → r ≡ ok a → Steady (f a))
      → I (resume (r, w) f).1.conn.tables
  unfolding resume
  resume-Steady (ok a) w f c k = (k a refl).holds w c
  resume-Steady (err e) w f c k = c

  bind :
      {A C : Type 0} {m : W B A} {f : A → W B C}
      → Steady m
      → ((a : A) → Steady (f a))
      → Steady (m >>= f)
  unfolding ◌>>=◌
  bind {m = m} {f} h k = record {
    holds = λ w c. resume-Steady (m w).0 (m w).1 f (h.holds w c) (λ a _. k a);
  }

  -- What follows a call of the blob store follows its success.
  files :
      {A C : Type 0} (f : B → Result A × B) {g : A → W B C}
      → ((a : A) → ((b : B) × (is_ok (f b).0 ≡ true)) → Steady (g a))
      → Steady (blob f >>= g)
  unfolding ◌>>=◌ blob
  files f {g} k = record {
    holds = λ w c.
        resume-Steady (f w.blobs).0 (record w { blobs = (f w.blobs).1 }) g c
          (λ a h. k a (w.blobs, ap is_ok h));
  }

  safe : {A : Type 0} {m : M A} → Keeps I m → Steady (repository m)
  unfolding repository
  safe h = record { holds = λ w c. Keeps-after h w.conn c }

  counted : (f : Counts → Counts) → Steady (count f)
  unfolding count
  counted f = record { holds = λ w c. c }

  done : {A : Type 0} (a : A) → Steady (pure a)
  unfolding pure
  done a = record { holds = λ w c. c }

  branch :
      {A : Type 0} (b : Bool) {m n : W B A}
      → (b ≡ true → Steady m)
      → Steady n
      → Steady (if b then m else n)
  branch true h k = h refl
  branch false h k = k

module _ {B : Type 0} {service : Service B} {I : Tables → Type 0} (sound : Sound service I) where
  recover_receiving-Steady : (list : List Submission) → Steady I (recover_receiving service list)
  unfolding recover_receiving
  recover_receiving-Steady [] = done I tt
  recover_receiving-Steady (s ∷ rest) = files I _ (λ _ deleted.
      bind I (safe I (sound.recovered s.drop_point_id s.id deleted))
        (λ _. bind I (counted I one_recovered) (λ _. recover_receiving-Steady rest)))

  recover_stale-Steady : (now : ℤ) → Steady I (recover_stale service now)
  unfolding recover_stale receiving_submissions_started_before query_submissions
  recover_stale-Steady now =
      branch I (ltb_ℤ (pos 0) service.receiving_stale_after)
        (λ _. bind I (safe I (Keeps-read _)) recover_receiving-Steady) (done I tt)

  clean_submissions-Steady : (list : List Submission) → Steady I (clean_submissions service list)
  unfolding clean_submissions
  clean_submissions-Steady [] = done I tt
  clean_submissions-Steady (s ∷ rest) = files I _ (λ _ deleted.
      bind I (safe I (sound.cleared s.drop_point_id s.id deleted)) (λ _.
        bind I (counted I (payloads_deleted (if has_paths s then 1 else 0)))
          (λ _. clean_submissions-Steady rest)))

  clean_terminal-Steady : (list : List DropPoint) → Steady I (clean_terminal service list)
  unfolding clean_terminal submission_files_for_drop_point query_submissions
  clean_terminal-Steady [] = done I tt
  clean_terminal-Steady (dp ∷ rest) = bind I (safe I (Keeps-read _)) (λ list.
      files I _ (λ _ deleted. bind I (safe I (sound.emptied dp.id deleted)) (λ _.
        bind I (counted I (payloads_deleted (length list))) (λ _. clean_terminal-Steady rest))))

  clean_orphans-Steady : (row_ids ids : List Bytes) → Steady I (clean_orphans service row_ids ids)
  unfolding clean_orphans
  clean_orphans-Steady row_ids [] = done I tt
  clean_orphans-Steady row_ids (id ∷ rest) =
      branch I (contains row_ids id) (λ _. clean_orphans-Steady row_ids rest)
        (files I _ (λ _ _. bind I (counted I one_orphan) (λ _. clean_orphans-Steady row_ids rest)))

  purge-Steady : (now : ℤ) → Steady I (purge service now)
  unfolding purge
  purge-Steady now =
      branch I (ltb_ℤ (pos 0) service.terminal_retention)
        (λ set.
          bind I (safe I (sound.purged set (now -ℤ service.terminal_retention)))
            (λ n. counted I (set_purged n)))
        (done I tt)

  pub expire-Steady : (now : ℤ) → Steady I (expire service now)
  unfolding expire cleanup_submissions terminal_drop_points drop_point_ids query_submissions
      query_drop_points
  expire-Steady now = bind I (recover_stale-Steady now) (λ _.
      bind I (safe I (sound.expired now)) (λ list.
        bind I (counted I (set_expired (length list))) (λ _.
          bind I (safe I (Keeps-read _)) (λ children.
            bind I (clean_submissions-Steady children) (λ _.
              bind I (safe I (Keeps-read _)) (λ terminal.
                bind I (clean_terminal-Steady terminal) (λ _.
                  bind I (safe I (Keeps-read _)) (λ row_ids. files I _ (λ ids _.
                    bind I (clean_orphans-Steady row_ids ids) (λ _. purge-Steady now))))))))))

  pub reconcile_startup-Steady : (now : ℤ) → Steady I (reconcile_startup service now)
  unfolding reconcile_startup receiving_submissions query_submissions
  reconcile_startup-Steady now =
      bind I (safe I (Keeps-read _))
        (λ list. bind I (recover_receiving-Steady list) (λ _. expire-Steady now))

-- Recovery at startup, with the pass that follows it, keeps the tables consistent.
reconcile_startup-IsConsistent :
    {B : Type 0} (service : Service B) (now : ℤ) (w : World B)
    → IsConsistent w.conn.tables
    → IsConsistent (reconcile_startup service now w).1.conn.tables
reconcile_startup-IsConsistent service now w = (reconcile_startup-Steady sound now).holds w
  where
    sound : Sound service IsConsistent
    sound = record {
      recovered = λ dpid sid _. delete_receiving_submission-Safe dpid sid;
      cleared = λ dpid sid _. clear_submission_files-Safe dpid sid;
      emptied = λ dpid _. clear_drop_point_files-Safe dpid;
      expired = expire_drop_points-Safe;
      purged = λ _. purge_terminal_drop_points-Safe;
    }
