-- ===== src/Cleanup/Tests.antt =====
-- A cleanup pass with a blob store that refuses to delete one submission.
use drop_point.Base.{◌≡◌, refl, inl, some, [], ◌∷◌, pos, bytes_eq, if◌then◌else◌, arith}
use drop_point.Errors.{ok, err, driver_failure}
use drop_point.Store.Table.{find_row}
use drop_point.Store.Queue.{has_key}
use drop_point.Store.Sql.{healthy}
use drop_point.Store.Tests.Data.{two_queued, waiting, stored}
use drop_point.Cleanup.{BlobStore, Service, World, no_counts, reconcile_startup}
use drop_point.Cleanup.Kept.{Deleted, DeletedAll}
use drop_point.Cleanup.Recovery.{NoneReceiving, reconcile_startup-NoneReceiving}
use drop_point.Cleanup.Files.{reconcile_startup-keeps_row}

abbrev stubborn : BlobStore (Unit {0})
stubborn = record {
  drop_point_ids = λ b. (ok [], b);
  delete_drop_point = λ id b. (err driver_failure, b);
  delete_submission =
      λ dpid sid b. (if bytes_eq sid (3 ∷ []) then err driver_failure else ok tt, b);
}

abbrev service : Service (Unit {0})
service = record {
  blob_store = stubborn;
  terminal_retention = pos 100;
  receiving_stale_after = pos 10;
}

abbrev world : World (Unit {0})
world = record { conn = healthy two_queued; blobs = tt; counts = no_counts }

submission_held : ¬ Deleted service (1 ∷ []) (3 ∷ [])
unfolding bytes_eq
submission_held d = ground (arith, d.1)

drop_point_held : ¬ DeletedAll service (1 ∷ [])
drop_point_held d = ground (arith, d.1)

-- A ready submission of an expired drop point, with files that cannot be deleted.
reconcile_startup-keeps_row_example :
    find_row
      (has_key (1 ∷ []) (3 ∷ []))
      (reconcile_startup service (pos 500) world).1.conn.tables.submissions
    ≡ some stored
unfolding find_row bytes_eq
reconcile_startup-keeps_row_example =
    reconcile_startup-keeps_row service (pos 500) world (1 ∷ []) (3 ∷ []) stored submission_held
      drop_point_held (inl refl) refl

-- The same store without that submission: the receiving one is recovered.
abbrev calm : World (Unit {0})
calm = record {
  conn = healthy (record two_queued { submissions = waiting ∷ [] });
  blobs = tt;
  counts = no_counts;
}

abbrev tidy : Service (Unit {0})
tidy = record service { blob_store = record stubborn { delete_drop_point = λ id b. (ok tt, b) } }

recovers : (reconcile_startup tidy (pos 50) calm).0 ≡ ok tt
unfolding reconcile_startup drop_point.Cleanup.◌>>=◌ drop_point.Cleanup.repository
    drop_point.Store.Sweep.receiving_submissions drop_point.Store.Sweep.query_submissions
    drop_point.Store.Sql.exec drop_point.Store.Sql.scan_all drop_point.Store.Table.order_by
    drop_point.Store.Table.select_rows drop_point.Submission.same_status
    drop_point.Store.Rows.scan_submission drop_point.Cleanup.recover_receiving
    drop_point.Cleanup.blob bytes_eq drop_point.Store.Queue.delete_receiving_submission
    drop_point.Store.Queue.remove_receiving drop_point.Cleanup.count drop_point.Cleanup.pure
    drop_point.Base.ltb_ℤ drop_point.Base.◌-ℤ◌ drop_point.Cleanup.clean_orphans
    drop_point.Cleanup.clean_submissions drop_point.Cleanup.clean_terminal
    drop_point.Cleanup.contains drop_point.Cleanup.expire drop_point.Cleanup.purge
    drop_point.Cleanup.recover_stale drop_point.DropPoint.same_status
    drop_point.Store.Rows.scan_drop_point drop_point.Store.Sql.pure drop_point.Store.Sql.◌>>=◌
    drop_point.Store.Sweep.cleanup_submissions drop_point.Store.Sweep.drop_point_ids
    drop_point.Store.Sweep.expire_drop_points drop_point.Store.Sweep.is_purgeable
    drop_point.Store.Sweep.is_terminal drop_point.Store.Sweep.mark_all_expired
    drop_point.Store.Sweep.purge_terminal_drop_points drop_point.Store.Sweep.query_drop_points
    drop_point.Store.Sweep.receiving_submissions_started_before
    drop_point.Store.Sweep.remove_purgeable drop_point.Store.Sweep.terminal_drop_points
    drop_point.Store.Table.count_rows drop_point.Store.Table.delete_rows
    drop_point.Store.Table.insert_row
recovers = refl

reconcile_startup-NoneReceiving_example :
    NoneReceiving (reconcile_startup tidy (pos 50) calm).1.conn.tables
reconcile_startup-NoneReceiving_example =
    reconcile_startup-NoneReceiving tidy (pos 50) calm recovers
