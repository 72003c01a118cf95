-- ===== src/Crypto/Json.antt =====
-- internal/cryptoenv/envelope.go: the scan for duplicate fields, over the tokens that the JSON
-- decoder yields. Past the last token every call of `Token` is `io.EOF`, and `More` is false; where
-- the text is not JSON, a call of `Token` is another error, which the list shows in its place.
pub mod Unique
use drop_point.Base.{
  ℕ, zero, suc, ◌+◌, Bool, true, false, not, ◌&&◌, ◌||◌, List, [], ◌∷◌, ◌++◌, Bytes, bytes_eq,
  if◌then◌else◌,
}
use drop_point.Errors.{Result, ok, err, ◌>>=◌, invalid_argument}

-- The values of `json.Token`: delimiters, strings (also the keys), and all others; `malformed` is a
-- call that reports a syntax error.
pub data Token : Type 0 where
  open_object close_object open_array close_array : Token
  text : Bytes → Token
  scalar : Bytes → Token
  malformed : Token

-- `decoder.More()`
abbrev pub more : List Token → Bool
more [] = false
more (close_object ∷ ts) = false
more (close_array ∷ ts) = false
more _ = true

-- A call of `Token` whose value is not used.
abbrev pub skip_token : List Token → Result (List Token)
skip_token [] = err invalid_argument
skip_token (malformed ∷ ts) = err invalid_argument
skip_token (t ∷ ts) = ok ts

unfoldable pub seen_before : List Bytes → Bytes → Bool
seen_before [] key = false
seen_before (k ∷ ks) key = bytes_eq k key || seen_before ks key

-- The tokens left behind a value. `fuel` bounds the calls.
unfoldable mutual
  unfolding seen_before

  pub scan_unique_json_value : ℕ → List Token → Result (List Token)
  scan_unique_json_value zero ts = err invalid_argument
  scan_unique_json_value (suc fuel) [] = err invalid_argument
  scan_unique_json_value (suc fuel) (open_object ∷ ts) = scan_members fuel [] ts
  scan_unique_json_value (suc fuel) (open_array ∷ ts) = scan_elements fuel ts
  scan_unique_json_value (suc fuel) (close_object ∷ ts) = err invalid_argument
  scan_unique_json_value (suc fuel) (close_array ∷ ts) = err invalid_argument
  scan_unique_json_value (suc fuel) (malformed ∷ ts) = err invalid_argument
  scan_unique_json_value (suc fuel) (_ ∷ ts) = ok ts

  -- The loop over an object's fields.
  pub scan_members : ℕ → List Bytes → List Token → Result (List Token)
  scan_members zero seen ts = err invalid_argument
  scan_members (suc fuel) seen (text key ∷ ts) =
      if seen_before seen key
      then err invalid_argument
      else (do rest ← scan_unique_json_value fuel ts; scan_members fuel (key ∷ seen) rest)
  scan_members (suc fuel) seen ts = if more ts then err invalid_argument else skip_token ts

  -- The loop over an array's elements.
  pub scan_elements : ℕ → List Token → Result (List Token)
  scan_elements zero ts = err invalid_argument
  scan_elements (suc fuel) ts =
      let others = (do rest ← scan_unique_json_value fuel ts; scan_elements fuel rest) in
      if more ts then others else skip_token ts

-- `decoder.Token()` must now report `io.EOF`, neither a token nor another error.
abbrev pub at_end : Result (List Token) → Result (Unit {0})
at_end (err e) = err e
at_end (ok []) = ok tt
at_end (ok (t ∷ ts)) = err invalid_argument

abbrev pub count_tokens : List Token → ℕ
count_tokens [] = 0
count_tokens (t ∷ ts) = suc (count_tokens ts)

-- Each call but the first comes after a token was read.
unfoldable pub reject_duplicate_json_fields : List Token → Result (Unit {0})
reject_duplicate_json_fields ts =
    at_end (scan_unique_json_value (suc (count_tokens ts + count_tokens ts)) ts)
