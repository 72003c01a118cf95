-- ===== src/Submission/Tests.antt =====
-- The lifecycle's theorems at work on one submission.
use drop_point.Base.{refl, none, List, [], ◌∷◌, pos, ltb_ℤ, is_blank}
use drop_point.DropPoint.{Status, DropPoint, require_open}
use drop_point.Submission.{Submission, CommitSubmissionResult, fresh, new_submission}
use drop_point.Submission.Lifecycle.{Call, run, IsRecorded, new_submission-run}

abbrev point : DropPoint
point = record {
  id = 65 ∷ [];
  api_token_id = 66 ∷ [];
  client_name = [];
  display_name = 67 ∷ [];
  drop_token_hash = 68 ∷ [];
  pickup_token_hash = 69 ∷ [];
  status = Status.opened;
  created_at = pos 10;
  closed_at = none;
  failed_at = none;
  expires_at = pos 100;
  max_bytes = pos 50;
  max_pending_submissions = pos 3;
  max_pending_bytes = pos 60;
}

abbrev started : Submission
started = fresh point (70 ∷ []) (pos 20)

abbrev upload : CommitSubmissionResult
upload = record { envelope_path = 71 ∷ []; payload_path = 72 ∷ []; encrypted_size = pos 5 }

abbrev calls : List Call
calls =
    Call.commits upload (pos 30)
    ∷ Call.picks_up (pos 40)
    ∷ Call.acknowledges (pos 50)
    ∷ Call.fails (pos 60)
    ∷ []

new_submission-run_example : IsRecorded (run started calls)
unfolding new_submission is_blank require_open ltb_ℤ
new_submission-run_example = new_submission-run point (70 ∷ []) (pos 20) started calls refl
