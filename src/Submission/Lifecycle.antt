-- ===== src/Submission/Lifecycle.antt =====
-- The lifecycle of a submission in internal/droppoint/droppoint.go, over any sequence of calls.
use drop_point.Base.{
  ℕ, ◌≤◌, ◌<◌, ◌≡◌, subst, ◌∙◌, ◌⊎◌, Bool, true, false, Option, none, some, List, [], ◌∷◌, arith, ℤ,
  pos, ltb_ℤ, is_empty, Bytes,
}
use drop_point.Errors.{ok}
use drop_point.DropPoint.{DropPoint}
use drop_point.Submission.{
  SubmissionStatus, Submission, CommitSubmissionResult, fresh, new_submission, commit,
  mark_picked_up, acknowledge, fail,
}

pub data Call : Type 0 where
  commits : CommitSubmissionResult → ℤ → Call
  picks_up acknowledges fails : ℤ → Call

pub apply : Submission → Call → Submission
apply s (commits result now) = (commit s result now).0
apply s (picks_up now) = (mark_picked_up s now).0
apply s (acknowledges now) = (acknowledge s now).0
apply s (fails now) = fail s now

pub run : Submission → List Call → Submission
unfolding apply
run s [] = s
run s (c ∷ cs) = run (apply s c) cs

-- How far a submission has come; a status of no meaning counts as no progress.
abbrev pub rank : SubmissionStatus → ℕ
rank SubmissionStatus.receiving = 0
rank SubmissionStatus.ready = 1
rank SubmissionStatus.acknowledged = 2
rank SubmissionStatus.failed = 3
rank (SubmissionStatus.other s) = 0

-- A stamp that is set stays as it is.
abbrev pub Keeps : Option ℤ → Option ℤ → Type 0
Keeps none after = Unit {0}
Keeps (some t) after = after ≡ some t

-- What no later call takes back: the progress made and the moments recorded.
pub record Follows (s t : Submission) : Type 0 where
  pub onward : rank s.status ≤ rank t.status
  pub same_id : t.id ≡ s.id
  pub same_parent : t.drop_point_id ≡ s.drop_point_id
  pub same_start : t.receiving_started_at ≡ s.receiving_started_at
  pub picked_up_once : Keeps s.first_picked_up_at t.first_picked_up_at
  -- once committed, the stored blobs and their size are fixed
  pub stored_once :
      0 < rank s.status
      → (t.envelope_path ≡ s.envelope_path)
        × (t.payload_path ≡ s.payload_path)
        × (t.encrypted_size ≡ s.encrypted_size)
        × (t.dropped_at ≡ s.dropped_at)

Keeps-trans : (a b c : Option ℤ) → Keeps a b → Keeps b c → Keeps a c
Keeps-trans none b c h k = tt
Keeps-trans (some t) b c h k = ground arith

Follows-refl : (s : Submission) → Follows s s
Follows-refl s = ground arith

Follows-trans : {s t u : Submission} → Follows s t → Follows t u → Follows s u
Follows-trans {s} {t} {u} f g = record {
  onward = omega (arith, f.onward, g.onward);
  same_id = g.same_id ∙ f.same_id;
  same_parent = g.same_parent ∙ f.same_parent;
  same_start = g.same_start ∙ f.same_start;
  picked_up_once = Keeps-trans _ _ _ f.picked_up_once g.picked_up_once;
  stored_once = λ h. ground (arith, f.onward, f.stored_once h, g.stored_once);
}

apply-Follows : (s : Submission) (c : Call) → Follows s (apply s c)
unfolding apply commit mark_picked_up acknowledge fail
apply-Follows s (commits result now) = ground arith
apply-Follows s (picks_up now) = ground arith
apply-Follows s (acknowledges now) = ground arith
apply-Follows s (fails now) = ground arith

-- Through any sequence of calls a submission only moves forward: its state never goes back, its
-- identity, parent and start stay, the first pick-up is recorded once, and once it is committed its
-- blob paths, size and commit time stay.
pub run-Follows : (s : Submission) (cs : List Call) → Follows s (run s cs)
unfolding run
run-Follows s [] = Follows-refl s
run-Follows s (c ∷ cs) = Follows-trans (apply-Follows s c) (run-Follows (apply s c) cs)

-- Whether a submission in some state has been committed, and whether it has been acknowledged.
abbrev pub IsCommitted : SubmissionStatus → Type 0
IsCommitted s = (s ≡ SubmissionStatus.ready) ⊎ (s ≡ SubmissionStatus.acknowledged)

abbrev pub is_some {ℓ} : {A : Type ℓ} → Option A → Bool
is_some none = false
is_some (some a) = true

-- A submission that a receiver may read has its commit time and both blob paths, and a size of at
-- least 0; an acknowledged one has its acknowledgement time.
pub record IsRecorded (s : Submission) : Type 0 where
  pub dropped_stamp : IsCommitted s.status → is_some s.dropped_at ≡ true
  pub envelope : IsCommitted s.status → is_empty s.envelope_path ≡ false
  pub payload : IsCommitted s.status → is_empty s.payload_path ≡ false
  pub size : IsCommitted s.status → ltb_ℤ s.encrypted_size (pos 0) ≡ false
  pub acknowledged_stamp :
      s.status ≡ SubmissionStatus.acknowledged → is_some s.acknowledged_at ≡ true

apply-IsRecorded : (s : Submission) (c : Call) → IsRecorded s → IsRecorded (apply s c)
unfolding apply commit mark_picked_up acknowledge fail
apply-IsRecorded s (commits result now) r = ground arith
apply-IsRecorded s (picks_up now) r = ground arith
apply-IsRecorded s (acknowledges now) r = ground arith
apply-IsRecorded s (fails now) r = ground arith

run-IsRecorded : (s : Submission) (cs : List Call) → IsRecorded s → IsRecorded (run s cs)
unfolding run
run-IsRecorded s [] r = r
run-IsRecorded s (c ∷ cs) r = run-IsRecorded (apply s c) cs (apply-IsRecorded s c r)

fresh-IsRecorded : (dp : DropPoint) (id : Bytes) (now : ℤ) → IsRecorded (fresh dp id now)
unfolding fresh
fresh-IsRecorded dp id now = ground arith

new_submission-ok :
    (dp : DropPoint) (id : Bytes) (now : ℤ) (s : Submission)
    → new_submission dp id now ≡ ok s
    → fresh dp id now ≡ s
unfolding new_submission
new_submission-ok dp id now s e = ground arith

-- Whatever calls follow its creation, a submission that is ready or acknowledged has what a
-- pick-up needs: two blob paths, a size of at least 0 and the stamps of its state.
pub new_submission-run :
    (dp : DropPoint) (id : Bytes) (now : ℤ) (s : Submission) (cs : List Call)
    → new_submission dp id now ≡ ok s
    → IsRecorded (run s cs)
new_submission-run dp id now s cs e =
    run-IsRecorded s cs
      (subst IsRecorded (new_submission-ok dp id now s e) (fresh-IsRecorded dp id now))

-- Acknowledging twice is acknowledging once, also in what is reported, at any two times.
pub acknowledge_idem :
    (s : Submission) (now later : ℤ)
    → ((acknowledge (acknowledge s now).0 later).0 ≡ (acknowledge s now).0)
      × ((acknowledge (acknowledge s now).0 later).1 ≡ (acknowledge s now).1)
unfolding acknowledge
acknowledge_idem s now later = ground arith
