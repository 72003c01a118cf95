-- ===== src/DropPoint/Tests.antt =====
-- The lifecycle's theorems at work on one drop point.
use drop_point.Base.{◌≡◌, ◌↔◌, ◌⊎◌, refl, none, some, List, [], ◌∷◌, pos, ◌≤ℤ◌, ltb_ℤ, is_blank}
use drop_point.Errors.{ok}
use drop_point.DropPoint.{
  Status, DropPoint, CreateDropPointRequest, is_malformed, opening, new, require_open, close,
}
use drop_point.DropPoint.Lifecycle.{Call, run, IsRecorded, new_opens, run-IsRecorded, close_outcome}

abbrev request : CreateDropPointRequest
request = record {
  id = 65 ∷ [];
  api_token_id = 66 ∷ [];
  client_name = [];
  display_name = 67 ∷ [];
  drop_token_hash = 68 ∷ [];
  pickup_token_hash = 69 ∷ [];
  ttl = pos 90;
  max_bytes = pos 50;
  max_pending_submissions = pos 3;
  max_pending_bytes = pos 60;
}

abbrev point : DropPoint
point = opening request (pos 10)

abbrev calls : List Call
calls = Call.closes (pos 20) ∷ Call.fails (pos 30) ∷ Call.expires (pos 200) ∷ []

made : new request (pos 10) ≡ ok point
unfolding new is_malformed is_blank ltb_ℤ
made = refl

run-IsRecorded_example : IsRecorded (run point calls)
run-IsRecorded_example = run-IsRecorded point calls (new_opens request (pos 10) point made).0

abbrev closed_point : DropPoint
closed_point = record point { status = Status.closed; closed_at = some (pos 20) }

close_outcome_example :
    (((close point (pos 500)).1 ≡ none)
      ↔ ((point.status ≡ Status.closed) ⊎ (require_open point (pos 500) ≡ none)))
    × (((close point (pos 500)).1 ≡ none) ↔ ((close point (pos 500)).0.status ≡ Status.closed))
    × (((close point (pos 500)).0.status ≡ Status.expired) ↔ (
        (point.status ≡ Status.expired)
        ⊎ ((point.status ≡ Status.opened) × (point.expires_at ≤ℤ pos 500))))
    × ((point.status ≡ Status.opened) ⊎ ((close point (pos 500)).0 ≡ point))
close_outcome_example = close_outcome point (pos 500)
