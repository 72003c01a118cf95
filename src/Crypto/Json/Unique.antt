-- ===== src/Crypto/Json/Unique.antt =====
-- The scan accepts exactly the values without a repeated field, at any depth.
use drop_point.Base.{
  ℕ, zero, suc, ◌+◌, ◌*◌, ◌≤◌, ◌≡◌, refl, Bool, true, not, ◌&&◌, List, [], ◌∷◌, Bytes,
  if◌then◌else◌, arith,
}
use drop_point.Errors.{Result, ok, err, invalid_argument}
use drop_point.Crypto.Json.{
  Token, open_object, close_object, open_array, close_array, text, scalar, more, seen_before,
  scan_unique_json_value, scan_members, scan_elements, count_tokens, reject_duplicate_json_fields,
}

-- A JSON value.
mutual
  pub data Json : Type 0 where
    string : Bytes → Json
    other : Bytes → Json
    array : Elements → Json
    object : Members → Json

  pub data Elements : Type 0 where
    no_elements : Elements
    element : Json → Elements → Elements

  pub data Members : Type 0 where
    no_members : Members
    member : Bytes → Json → Members → Members

-- The tokens of a value, in front of others.
unfoldable mutual
  pub tokens : Json → List Token → List Token
  tokens (string s) rest = text s ∷ rest
  tokens (other s) rest = scalar s ∷ rest
  tokens (array es) rest = open_array ∷ element_tokens es rest
  tokens (object ms) rest = open_object ∷ member_tokens ms rest

  element_tokens : Elements → List Token → List Token
  element_tokens no_elements rest = close_array ∷ rest
  element_tokens (element v es) rest = tokens v (element_tokens es rest)

  member_tokens : Members → List Token → List Token
  member_tokens no_members rest = close_object ∷ rest
  member_tokens (member key v ms) rest = text key ∷ tokens v (member_tokens ms rest)

-- No object repeats a field.
unfoldable mutual
  pub has_unique_fields : Json → Bool
  has_unique_fields (string s) = true
  has_unique_fields (other s) = true
  has_unique_fields (array es) = elements_unique es
  has_unique_fields (object ms) = members_unique [] ms

  elements_unique : Elements → Bool
  elements_unique no_elements = true
  elements_unique (element v es) = has_unique_fields v && elements_unique es

  members_unique : List Bytes → Members → Bool
  members_unique seen no_members = true
  members_unique seen (member key v ms) =
      not (seen_before seen key) && (has_unique_fields v && members_unique (key ∷ seen) ms)

-- The calls that a scan of the value makes.
mutual
  calls : Json → ℕ
  calls (string s) = 1
  calls (other s) = 1
  calls (array es) = suc (element_calls es)
  calls (object ms) = suc (member_calls ms)

  element_calls : Elements → ℕ
  element_calls no_elements = 1
  element_calls (element v es) = suc (calls v + element_calls es)

  member_calls : Members → ℕ
  member_calls no_members = 1
  member_calls (member key v ms) = suc (calls v + member_calls ms)

abbrev accept : Bool → List Token → Result (List Token)
accept good rest = if good then ok rest else err invalid_argument

-- The next element's first token closes nothing.
more-tokens : (v : Json) (rest : List Token) → more (tokens v rest) ≡ true
unfolding tokens
more-tokens (string s) rest = refl
more-tokens (other s) rest = refl
more-tokens (array es) rest = refl
more-tokens (object ms) rest = refl

mutual
  unfolding scan_unique_json_value tokens has_unique_fields calls

  scan-tokens :
      (fuel : ℕ) (v : Json) (rest : List Token)
      → calls v ≤ fuel
      → scan_unique_json_value fuel (tokens v rest) ≡ accept (has_unique_fields v) rest
  scan-tokens zero (string s) rest h = absurd (omega arith)
  scan-tokens zero (other s) rest h = absurd (omega arith)
  scan-tokens zero (array es) rest h = absurd (omega arith)
  scan-tokens zero (object ms) rest h = absurd (omega arith)
  scan-tokens (suc fuel) (string s) rest h = refl
  scan-tokens (suc fuel) (other s) rest h = refl
  scan-tokens (suc fuel) (array es) rest h = scan-elements fuel es rest (omega arith)
  scan-tokens (suc fuel) (object ms) rest h = scan-members fuel [] ms rest (omega arith)

  scan-elements :
      (fuel : ℕ) (es : Elements) (rest : List Token)
      → element_calls es ≤ fuel
      → scan_elements fuel (element_tokens es rest) ≡ accept (elements_unique es) rest
  scan-elements zero no_elements rest h = absurd (omega arith)
  scan-elements zero (element v es) rest h = absurd (omega arith)
  scan-elements (suc fuel) no_elements rest h = refl
  scan-elements (suc fuel) (element v es) rest h =
      rw
        (
          more-tokens v (element_tokens es rest),
          scan-tokens fuel v (element_tokens es rest) (omega arith),
        )
        (ground (arith, scan-elements fuel es rest (omega arith)))

  scan-members :
      (fuel : ℕ) (seen : List Bytes) (ms : Members) (rest : List Token)
      → member_calls ms ≤ fuel
      → scan_members fuel seen (member_tokens ms rest) ≡ accept (members_unique seen ms) rest
  scan-members zero seen no_members rest h = absurd (omega arith)
  scan-members zero seen (member key v ms) rest h = absurd (omega arith)
  scan-members (suc fuel) seen no_members rest h = refl
  scan-members (suc fuel) seen (member key v ms) rest h =
      rw (scan-tokens fuel v (member_tokens ms rest) (omega arith))
        (ground (arith, scan-members fuel (key ∷ seen) ms rest (omega arith)))

-- Two calls for each token suffice.
mutual
  unfolding tokens calls

  calls_bound :
      (v : Json) (rest : List Token)
      → suc (calls v) + 2 * count_tokens rest ≤ 2 * count_tokens (tokens v rest)
  calls_bound (string s) rest = omega arith
  calls_bound (other s) rest = omega arith
  calls_bound (array es) rest = omega (arith, element_calls_bound es rest)
  calls_bound (object ms) rest = omega (arith, member_calls_bound ms rest)

  element_calls_bound :
      (es : Elements) (rest : List Token)
      → element_calls es + 2 * count_tokens rest ≤ 2 * count_tokens (element_tokens es rest)
  element_calls_bound no_elements rest = omega arith
  element_calls_bound (element v es) rest =
      omega (arith, calls_bound v (element_tokens es rest), element_calls_bound es rest)

  member_calls_bound :
      (ms : Members) (rest : List Token)
      → member_calls ms + 2 * count_tokens rest ≤ 2 * count_tokens (member_tokens ms rest)
  member_calls_bound no_members rest = omega arith
  member_calls_bound (member key v ms) rest =
      omega (arith, calls_bound v (member_tokens ms rest), member_calls_bound ms rest)

-- On the tokens of any JSON value the scan ends, with success exactly if no object of the value, at
-- any depth, has a field twice.
pub reject_duplicate_json_fields_unique :
    (v : Json)
    → reject_duplicate_json_fields (tokens v [])
      ≡ (if has_unique_fields v then ok tt else err invalid_argument)
unfolding reject_duplicate_json_fields
reject_duplicate_json_fields_unique v = rw scanned (ground arith)
  where
    fuel : ℕ
    fuel = suc (count_tokens (tokens v []) + count_tokens (tokens v []))

    scanned : scan_unique_json_value fuel (tokens v []) ≡ accept (has_unique_fields v) []
    scanned = scan-tokens fuel v [] (omega (arith, calls_bound v []))
