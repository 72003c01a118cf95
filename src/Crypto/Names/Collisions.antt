-- ===== src/Crypto/Names/Collisions.antt =====
-- internal/cryptoenv/manifest.go: `CanonicalizeFilenames`, which numbers the names of a bundle that
-- collide. `used` holds the keys taken so far; the inner loop has fuel for one try more than they
-- can turn down.
pub mod Numbers
pub mod Distinct
use drop_point.Base.{
  ℕ, zero, suc, ◌+◌, ◌/◌, ◌%◌, Bool, true, false, Option, none, some, List, [], ◌∷◌, ◌++◌, Bytes,
  codes, length, ltb, ◌==◌, if◌then◌else◌, reverse,
}
use drop_point.Errors.{Result, ok, err, ◌>>=◌, ◌>>◌, loop_unfinished}
use drop_point.Crypto.Json.{seen_before}
use drop_point.Crypto.Names.{
  Unicode, max_manifest_files, refuse_if, canonicalize_filename, fit_filename,
  filename_collision_key,
}

-- The decimal digits of a number, the last one first. `fuel` above the number is enough.
unfoldable pub digits_reversed : ℕ → ℕ → Bytes
digits_reversed zero n = []
digits_reversed (suc fuel) n =
    let rest = digits_reversed fuel (n / 10) in (48 + n % 10) ∷ (if n / 10 == 0 then [] else rest)

-- `fmt.Sprintf(" (%d)", suffix)`
unfoldable pub suffix_text : ℕ → Bytes
suffix_text n = codes " (" ++ reverse (digits_reversed (suc n) n) ++ codes ")"

-- The inner loop: the first candidate whose key is free, from a candidate and the next suffix on.
unfoldable pub find_free : ℕ → Unicode → List Bytes → Bytes → Bytes → ℕ → Option Bytes
find_free zero u used base candidate suffix = none
find_free (suc fuel) u used base candidate suffix =
    let next = find_free fuel u used base (fit_filename base (suffix_text suffix)) (suc suffix) in
    if seen_before used (filename_collision_key u candidate) then next else some candidate

abbrev pub found : Option Bytes → Result Bytes
found none = err loop_unfinished
found (some candidate) = ok candidate

unfoldable pub canonicalize_from : Unicode → List Bytes → List Bytes → Result (List Bytes)
canonicalize_from u used [] = ok []
canonicalize_from u used (name ∷ names) = do
  base ← canonicalize_filename u name
  candidate ← found (find_free (suc (suc (length used))) u used base base 2)
  rest ← canonicalize_from u (filename_collision_key u candidate ∷ used) names
  ok (candidate ∷ rest)

unfoldable pub canonicalize_filenames : Unicode → List Bytes → Result (List Bytes)
canonicalize_filenames u names = do
  refuse_if (ltb max_manifest_files (length names))
  canonicalize_from u [] names
