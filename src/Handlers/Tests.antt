-- ===== src/Handlers/Tests.antt =====
-- The theorems on the handlers at work on a small database and a blob store that knows one payload.
use drop_point.Base.{
  take, ◌≡◌, ◌↔◌, refl, true, false, none, some, [], ◌∷◌, ◌++◌, pos, ltb_ℤ, ◌≤ℤ◌, ◌<ℤ◌, ◌+ℤ◌, Bytes,
  bytes_eq, codes, strip_prefix, arith,
}
use drop_point.Errors.{ok}
use drop_point.DropPoint.{DropPoint, same_status as same_drop_status}
use drop_point.Submission.{SubmissionStatus, Submission, same_status}
use drop_point.Token.{
  submission_id_prefix, generate, valid_submission_id, hash_secret, equal_hash, valid_sha256_hash,
  all_hex, hex,
}
use drop_point.Token.Base64.{encode, char_of}
use drop_point.Token.Laws.{generate-valid_submission_id}
use drop_point.Crypto.Json.{scalar, scan_unique_json_value, reject_duplicate_json_fields}
use drop_point.Crypto.Envelope.{Decoder, validate_envelope_json}
use drop_point.Crypto.Tests.{sealed, sealed_accepted}
use drop_point.Api.{refused, accepted, bearer_token, has_space}
use drop_point.Store.Rows.{Tables, drop_point_of, scan_drop_point, scan_submission}
use drop_point.Store.Refinement.Submissions.{Stores}
use drop_point.Store.Sql.{Conn, healthy, ◌>>=◌ as bind_store, exec, pure}
use drop_point.Store.Table.{find_row, count_rows, update_rows}
use drop_point.Store.DropPoints.{
  authorize_pickup_token, find_drop_point_by_id, select_drop_point, expire_if_due,
}
use drop_point.Store.Queue.{find_submission, receiving_row, ready_row}
use drop_point.Store.Submissions.{
  acknowledge_submission, set_acknowledged, clear_submission_files, mark_submission_picked_up,
  set_picked_up,
}
use drop_point.Store.Tests.Data.{hash_a, point, stored, two_queued, upload}
use drop_point.Store.Outcome.Status.{Stands}
use drop_point.Handlers.{
  BlobStore, Server, ◌>>=◌ as bind_handler, respond, refuse, repository, blob, or_refuse,
  authorize_pickup, pickup_found, require_open_drop_point,
}
use drop_point.Handlers.Receiver.{
  handle_get_drop_point_status, handle_list_submissions, handle_acknowledge_submission,
  handle_close_drop_point, or_unavailable,
}
use drop_point.Handlers.Drop.{
  Request, no_more, part, drop_request_size_limit, framing_bytes, max_int64,
}
use drop_point.Handlers.Submit.{SubmitDropResponse}
use drop_point.Handlers.Pickup.{
  body, PickupRequest, read_blob, same_size, deliver, deliver_stored, handle_pickup_submission,
}
use drop_point.Handlers.Access.{Serves, Stops, authorize_pickup-Stops}
use drop_point.Handlers.Outcome.{
  handle_acknowledge_submission-Stands, drop_request_size_limit_bound,
}
use drop_point.Handlers.Downloads.{Delivers, handle_pickup_submission-Delivers}

drop_request_size_limit_bound_example : (drop_request_size_limit (pos 50) ≡ ok (pos 1114162)) ↔ (
    (pos 0 <ℤ pos 50)
    × (pos 50 +ℤ pos framing_bytes ≤ℤ pos max_int64)
    × (pos 1114162 ≡ pos 50 +ℤ pos framing_bytes))
drop_request_size_limit_bound_example = drop_request_size_limit_bound (pos 50) (pos 1114162)

abbrev sid : Bytes
sid =
    submission_id_prefix
    ++ encode (0 ∷ 1 ∷ 2 ∷ 3 ∷ 4 ∷ 5 ∷ 6 ∷ 7 ∷ 8 ∷ 9 ∷ 10 ∷ 11 ∷ 12 ∷ 13 ∷ 14 ∷ 255 ∷ [])

sid_valid : valid_submission_id sid ≡ true
unfolding generate take
sid_valid =
    generate-valid_submission_id
      (0 ∷ 1 ∷ 2 ∷ 3 ∷ 4 ∷ 5 ∷ 6 ∷ 7 ∷ 8 ∷ 9 ∷ 10 ∷ 11 ∷ 12 ∷ 13 ∷ 14 ∷ 255 ∷ []) sid (ground arith)
      (omega arith) refl

abbrev eight : Bytes → Bytes
eight s = 170 ∷ 170 ∷ 170 ∷ 170 ∷ 170 ∷ 170 ∷ 170 ∷ 170 ∷ s

-- The digest of every token, whose hash is `hash_a`.
abbrev digest : Bytes → Bytes
digest s = eight (eight (eight (eight [])))

abbrev same_bytes : Bytes → Bytes
same_bytes s = s

abbrev json : Decoder
json = record { tokens = λ text. scalar [] ∷ []; envelope = λ text. some sealed }

abbrev blob_store : BlobStore (Unit {0})
blob_store = record {
  write_submission = λ dpid sid envelope payload max b. (ok upload, b);
  read_envelope = λ path b. (ok (codes "e"), b);
  open_payload = λ path b. (ok (codes "payload", pos 20), b);
  delete_submission = λ dpid sid b. (ok tt, b);
  delete_drop_point = λ dpid b. (ok tt, b);
}

abbrev tables : Tables
tables = record two_queued {
  drop_points = record point { drop_token_hash = hash_a } ∷ [];
  submissions = record stored { id = sid } ∷ [];
}

abbrev server : Server (Unit {0})
server = record { conn = healthy tables; blobs = tt }

abbrev dpid : Bytes
dpid = 1 ∷ []

abbrev authorization : Bytes
authorization = codes "Bearer abc"

acknowledged :
    (handle_acknowledge_submission blob_store digest same_bytes
      (pos 50)
      (pos 51)
      dpid
      sid
      authorization
      server).0
    ≡ accepted tt
unfolding handle_acknowledge_submission authorize_pickup pickup_found require_open_drop_point
    or_unavailable or_refuse respond repository blob bind_handler bearer_token has_space
    strip_prefix authorize_pickup_token find_drop_point_by_id select_drop_point expire_if_due
    bind_store exec pure find_row bytes_eq scan_drop_point equal_hash valid_sha256_hash all_hex
    hash_secret hex ltb_ℤ same_drop_status acknowledge_submission set_acknowledged count_rows
    update_rows clear_submission_files same_status encode char_of
acknowledged = rw sid_valid refl

handle_acknowledge_submission-Stands_example :
    (dp : DropPoint) × Serves digest same_bytes (pos 50) dpid authorization tables dp
    × Stands dp.id sid SubmissionStatus.acknowledged
        (handle_acknowledge_submission blob_store digest same_bytes
          (pos 50)
          (pos 51)
          dpid
          sid
          authorization
          server).1.conn.tables
handle_acknowledge_submission-Stands_example =
    handle_acknowledge_submission-Stands blob_store digest same_bytes (pos 50) (pos 51) dpid sid
      authorization server acknowledged

abbrev pickup : Bytes → PickupRequest
pickup header = record {
  drop_point_id = dpid;
  submission_id = sid;
  authorization = header;
  is_head = false;
  now = pos 50;
  later = pos 51;
  written = true;
}

delivered :
    (handle_pickup_submission blob_store json digest same_bytes (pickup authorization) server).0
    ≡ accepted (body (codes "e") (codes "payload"))
unfolding handle_pickup_submission deliver_stored deliver read_blob same_size authorize_pickup
    pickup_found require_open_drop_point or_unavailable or_refuse respond repository blob
    bind_handler bearer_token has_space strip_prefix authorize_pickup_token find_drop_point_by_id
    select_drop_point expire_if_due bind_store exec pure find_row bytes_eq scan_drop_point
    scan_submission equal_hash valid_sha256_hash all_hex hash_secret hex ltb_ℤ same_drop_status
    find_submission mark_submission_picked_up set_picked_up count_rows update_rows same_status
    encode char_of validate_envelope_json reject_duplicate_json_fields scan_unique_json_value
delivered = rw (sid_valid, sealed_accepted) refl

handle_pickup_submission-Delivers_example :
    ((dp : DropPoint) × Serves digest same_bytes (pos 50) dpid authorization tables dp)
    × ((sub : Submission) × (Stores tables dpid sid sub × (sub.status ≡ SubmissionStatus.ready))
        × Delivers blob_store json sub (body (codes "e") (codes "payload")))
    × Stands dpid sid SubmissionStatus.ready
        (handle_pickup_submission blob_store json digest same_bytes
          (pickup authorization)
          server).1.conn.tables
handle_pickup_submission-Delivers_example =
    handle_pickup_submission-Delivers blob_store json digest same_bytes (pickup authorization)
      server (body (codes "e") (codes "payload")) delivered

no_token :
    (authorize_pickup digest same_bytes (pos 50) dpid [] server).0
    ≡ refused 401 (codes "pickup_token_invalid")
unfolding authorize_pickup bearer_token strip_prefix refuse
no_token = refl

authorize_pickup-Stops_example :
    Stops
      (handle_get_drop_point_status blob_store digest same_bytes (pos 50) dpid [])
      server
      401
      (codes "pickup_token_invalid")
    × Stops
        (handle_list_submissions blob_store digest same_bytes (pos 50) dpid [])
        server
        401
        (codes "pickup_token_invalid")
    × Stops
        (handle_acknowledge_submission blob_store digest same_bytes (pos 50) (pos 51) dpid sid [])
        server
        401
        (codes "pickup_token_invalid")
    × Stops
        (handle_close_drop_point blob_store digest same_bytes (pos 50) (pos 51) dpid [])
        server
        401
        (codes "pickup_token_invalid")
    × Stops
        (handle_pickup_submission blob_store json digest same_bytes (pickup []))
        server
        401
        (codes "pickup_token_invalid")
authorize_pickup-Stops_example =
    authorize_pickup-Stops blob_store json digest same_bytes (pos 51) sid (pickup []) server 401
      (codes "pickup_token_invalid") no_token

abbrev other_sid : Bytes
other_sid =
    submission_id_prefix
    ++ encode (1 ∷ 1 ∷ 2 ∷ 3 ∷ 4 ∷ 5 ∷ 6 ∷ 7 ∷ 8 ∷ 9 ∷ 10 ∷ 11 ∷ 12 ∷ 13 ∷ 14 ∷ 255 ∷ [])

abbrev request : Request
request = record {
  content_type = some (codes "multipart/form-data", codes "b");
  parts = λ limit boundary.
      part
        (record {
          form_name = codes "envelope";
          media_type = some (codes "application/json");
          content = codes "e";
          failure = none;
        })
        (part
          (record {
            form_name = codes "payload";
            media_type = some (codes "application/octet-stream");
            content = codes "payload";
            failure = none;
          })
          no_more);
}

abbrev submitted : SubmitDropResponse
submitted = record { submission_id = other_sid; status = SubmissionStatus.ready }

abbrev short : Bytes → Bytes
short t = []

abbrev empty_queue : Conn
empty_queue = healthy (record two_queued {
  drop_points = record point { drop_token_hash = codes "sha256:"; pickup_token_hash = [] } ∷ [];
  submissions = [];
})

abbrev idle : Server (Unit {0})
idle = record { conn = empty_queue; blobs = tt }

abbrev open_point : DropPoint
open_point =
    drop_point_of (record point { drop_token_hash = codes "sha256:"; pickup_token_hash = [] })

abbrev queued : Conn
queued =
    healthy (record empty_queue.tables { submissions = receiving_row dpid other_sid (pos 50) ∷ [] })

abbrev done : Conn
done = healthy (record empty_queue.tables {
  submissions = ready_row upload (pos 51) (receiving_row dpid other_sid (pos 50)) ∷ [];
})
