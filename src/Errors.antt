-- ===== src/Errors.antt =====
-- internal/droppoint/droppoint.go: the sentinel errors, with those of internal/store. Wrapping by
-- `fmt.Errorf("...: %w", err)` keeps the identity that `errors.Is` tests, so the text is left out.
use drop_point.Base.{Bool, true, false, ◌≡◌, refl, ap, arith}

pub data Error : Type 0 where
  -- the `var` block of droppoint.go
  drop_point_not_found drop_token_invalid pickup_token_invalid : Error
  drop_point_not_open drop_point_expired drop_point_closed drop_point_failed : Error
  submission_not_found submission_already_exists submission_not_ready : Error
  submission_acknowledged submission_failed : Error
  pending_submission_quota_exceeded pending_bytes_quota_exceeded payload_too_large : Error
  envelope_invalid invalid_transition invalid_drop_point invalid_submission : Error
  api_token_invalid api_token_disabled active_drop_point_quota_exceeded : Error
  api_token_not_found api_token_has_active_drop_points : Error
  -- a violated PRIMARY KEY or UNIQUE constraint, a violated CHECK, and any other driver failure
  unique_constraint check_constraint driver_failure : Error
  -- errors made by `fmt.Errorf` with no sentinel: a bad argument, a bad row, a lost update
  invalid_argument invalid_row lost_update generation_failed identifiers_exhausted : Error
  -- `http.MaxBytesError`; of internal/blobstore `ErrSourceRead`, a full and a busy file system, and
  -- `os.ErrNotExist`; and an error of a multipart reader
  request_too_large source_read storage_full storage_busy not_exist multipart_invalid : Error
  -- `io.ErrShortWrite`
  short_write : Error
  -- the fuel of a loop of the model ran out, which no loop does
  loop_unfinished : Error

pub data Result {ℓ} (A : Type ℓ) : Type ℓ where
  ok : A → Result A
  err : Error → Result A

abbrev pub is_ok {ℓ} : {A : Type ℓ} → Result A → Bool
is_ok (ok a) = true
is_ok (err e) = false

-- `if err != nil { return ..., err }`
infixl 5 ◌>>=◌ ◌>>◌
abbrev pub ◌>>=◌ {ℓ κ} : {A : Type ℓ} {B : Type κ} → Result A → (A → Result B) → Result B
ok a >>= f = f a
err e >>= f = err e

abbrev pub ◌>>◌ {ℓ κ} : {A : Type ℓ} {B : Type κ} → Result A → Result B → Result B
m >> k = m >>= λ _. k

-- What a chain of calls that returned a result went through.
pub bind-ok {ℓ κ} :
    {A : Type ℓ} {B : Type κ} (m : Result A) (f : A → Result B) (b : B)
    → (m >>= f) ≡ ok b
    → (a : A) × (m ≡ ok a) × (f a ≡ ok b)
bind-ok (ok a) f b h = (a, refl, h)
bind-ok (err e) f b h = absurd (ground (arith, h))

or_else {ℓ} : {A : Type ℓ} → A → Result A → A
or_else d (ok a) = a
or_else d (err e) = d

pub ok-injective {ℓ} : {A : Type ℓ} {a b : A} → ok a ≡ ok b → a ≡ b
unfolding or_else
ok-injective {a} h = ap (or_else a) h
