-- ===== src/Store/Tests/Data.antt =====
-- A small database: one open drop point with a receiving and a ready submission, and one API token.
use drop_point.Base.{refl, none, some, [], ◌∷◌, pos, Bytes, bytes_eq, int_laws, arith, codes}
use drop_point.DropPoint.{Status}
use drop_point.Submission.{SubmissionStatus, CommitSubmissionResult, same_status}
use drop_point.Store.Table.{count_rows, sum_rows, find_row}
use drop_point.Store.Rows.{
  DropPointRow, SubmissionRow, ApiTokenRow, Tables, drop_point_of, submission_of, scan_drop_point,
  scan_submission,
}
use drop_point.Store.Queue.{pending_count, ready_bytes, ready_size}
use drop_point.Store.Invariant.{IsConsistent}
use drop_point.Store.Refinement.DropPoints.{Stores}
use drop_point.Store.Refinement.Submissions.{Stores as StoresSubmission}

abbrev pub hash_a : Bytes
hash_a = codes "sha256:aaaaaaaaaaaaaaaaaaaaaaaaaaaaaaaaaaaaaaaaaaaaaaaaaaaaaaaaaaaaaaaa"

abbrev pub point : DropPointRow
point = record {
  id = 1 ∷ [];
  api_token_id = 7 ∷ [];
  client_name = none;
  display_name = 65 ∷ [];
  drop_token_hash = 8 ∷ [];
  pickup_token_hash = hash_a;
  status = Status.opened;
  created_at = pos 10;
  closed_at = none;
  failed_at = none;
  expires_at = pos 100;
  max_bytes = pos 50;
  max_pending_submissions = pos 3;
  max_pending_bytes = pos 60;
}

abbrev pub waiting : SubmissionRow
waiting = record {
  id = 2 ∷ [];
  drop_point_id = 1 ∷ [];
  status = SubmissionStatus.receiving;
  envelope_path = none;
  payload_path = none;
  encrypted_size = none;
  created_at = pos 20;
  receiving_started_at = pos 20;
  dropped_at = none;
  first_picked_up_at = none;
  acknowledged_at = none;
  failed_at = none;
}

abbrev pub stored : SubmissionRow
stored = record waiting {
  id = 3 ∷ [];
  status = SubmissionStatus.ready;
  envelope_path = some (9 ∷ []);
  payload_path = some (10 ∷ []);
  encrypted_size = some (pos 20);
  dropped_at = some (pos 30);
}

abbrev pub api_token : ApiTokenRow
api_token = record {
  id = 7 ∷ [];
  secret_hash = hash_a;
  enabled = 1;
  max_active_drop_points = none;
  created_at = pos 5;
  disabled_at = none;
}

abbrev pub two_queued : Tables
two_queued = record {
  drop_points = point ∷ [];
  submissions = waiting ∷ stored ∷ [];
  api_tokens = api_token ∷ [];
}

abbrev pub upload : CommitSubmissionResult
upload = record { envelope_path = 11 ∷ []; payload_path = 12 ∷ []; encrypted_size = pos 30 }

pub two_queued-IsConsistent : IsConsistent two_queued
unfolding count_rows sum_rows pending_count ready_bytes ready_size bytes_eq same_status
two_queued-IsConsistent = record {
  ids = (refl, tt);
  drop_tokens = (refl, tt);
  keys = (refl, (refl, tt));
  parents = (ground arith, (ground arith, tt));
  sizes = (omega int_laws, (omega int_laws, tt));
  quotas = (record { slots = omega int_laws; bytes = omega int_laws }, tt);
}

pub point_stored : Stores two_queued (1 ∷ []) (drop_point_of point)
unfolding find_row scan_drop_point bytes_eq
point_stored = (point, refl, refl)

pub waiting_stored : StoresSubmission two_queued (1 ∷ []) (2 ∷ []) (submission_of waiting)
unfolding find_row scan_submission bytes_eq
waiting_stored = (waiting, refl, refl)

pub stored_stored : StoresSubmission two_queued (1 ∷ []) (3 ∷ []) (submission_of stored)
unfolding find_row scan_submission bytes_eq
stored_stored = (stored, refl, refl)
