-- ===== src/Crypto/Names/Collisions/Distinct.antt =====
-- `CanonicalizeFilenames`: the loop ends, and the names it returns do not collide.
use drop_point.Base.{
  ℕ, zero, suc, ◌+◌, ◌≤◌, ◌<◌, ◌≡◌, ◌⊎◌, inl, inr, refl, sym, ap, subst, ◌∙◌, Bool, true, false,
  ◌||◌, Option, none, some, List, [], ◌∷◌, Bytes, bytes_eq, bytes_eq→eq, length, ltb, ◌==◌,
  if◌then◌else◌, arith, All, Option-cases, Bool-cases,
}
use drop_point.Errors.{ok}
use drop_point.Crypto.Json.{seen_before}
use drop_point.Crypto.Names.{
  Unicode, max_manifest_files, canonicalize_filename, fit_filename, filename_collision_key,
}
use drop_point.Crypto.Names.Collisions.{
  suffix_text, find_free, canonicalize_from, canonicalize_filenames,
}
use drop_point.Crypto.Names.Collisions.Numbers.{
  UnicodeLaws, extension_of, number_of, number_of-candidate,
}

-- Numbers that a list of keys is read as.
has_number : (Bytes → ℕ) → ℕ → List Bytes → Bool
has_number g n [] = false
has_number g n (k ∷ ks) = g k == n || has_number g n ks

seen_before-has_number :
    (g : Bytes → ℕ) (used : List Bytes) (key : Bytes)
    → seen_before used key ≡ true
    → has_number g (g key) used ≡ true
unfolding seen_before has_number
seen_before-has_number g [] key h = absurd (ground (arith, h))
seen_before-has_number g (k ∷ ks) key h = elim (Bool-cases (bytes_eq k key)) [
  | inl same ↦ rw (bytes_eq→eq k key same) (ground arith)
  | inr other ↦ ground (arith, other, h, seen_before-has_number g ks key)
]

-- The keys that are not read as n.
without : (Bytes → ℕ) → ℕ → List Bytes → List Bytes
without g n [] = []
without g n (k ∷ ks) = let rest = without g n ks in if g k == n then rest else k ∷ rest

without-length-le : (g : Bytes → ℕ) (n : ℕ) (ks : List Bytes) → length (without g n ks) ≤ length ks
unfolding without
without-length-le g n [] = omega arith
without-length-le g n (k ∷ ks) = ground (arith, without-length-le g n ks)

without-length :
    (g : Bytes → ℕ) (n : ℕ) (ks : List Bytes)
    → has_number g n ks ≡ true
    → length (without g n ks) < length ks
unfolding without has_number
without-length g n [] h = absurd (ground (arith, h))
without-length g n (k ∷ ks) h = ground (arith, h, without-length g n ks, without-length-le g n ks)

without-has_number :
    (g : Bytes → ℕ) (n m : ℕ) (ks : List Bytes)
    → m < n
    → has_number g m ks ≡ true
    → has_number g m (without g n ks) ≡ true
unfolding without has_number
without-has_number g n m [] h p = p
without-has_number g n m (k ∷ ks) h p = ground (arith, h, p, without-has_number g n m ks h)

-- A list that holds all numbers from s up to s + count is no shorter than that.
pigeonhole :
    (g : Bytes → ℕ) (s count : ℕ) (ks : List Bytes)
    → ((m : ℕ) → s ≤ m → m < s + count → has_number g m ks ≡ true)
    → count ≤ length ks
pigeonhole g s zero ks all = omega arith
pigeonhole g s (suc count) ks all =
    let shorter =
      pigeonhole g s count (without g (s + count) ks)
        (λ m low high. without-has_number g (s + count) m ks high (all m low (omega arith))) in
    omega (
      arith,
      shorter,
      without-length g (s + count) ks (all (s + count) (omega arith) (omega arith)),
    )

untaken :
    (b : Bool) (x : Option Bytes) (y : Bytes)
    → (if b then x else some y) ≡ none
    → (b ≡ true) × (x ≡ none)
untaken true x y h = (refl, h)
untaken false x y h = absurd (ground (arith, h))

taken :
    (b : Bool) (x : Option Bytes) (y c : Bytes)
    → (if b then x else some y) ≡ some c
    → (x ≡ some c) ⊎ ((b ≡ false) × (y ≡ c))
taken true x y c h = inl h
taken false x y c h = inr (refl, ground (arith, h))

from_next : {P : ℕ → Type 0} (s : ℕ) → P s → ((m : ℕ) → suc s ≤ m → P m) → (m : ℕ) → s ≤ m → P m
from_next {P} s first later m low = elim (Bool-cases (ltb s m)) [
  | inl above ↦ later m (ground (arith, above))
  | inr same ↦ subst P (ground (arith, same, low)) first
]

find_free-none :
    (count : ℕ) (u : Unicode) (used : List Bytes) (base candidate : Bytes) (s : ℕ)
    → find_free (suc count) u used base candidate s ≡ none
    → (seen_before used (filename_collision_key u candidate) ≡ true)
      × ((m : ℕ)
          → s ≤ m
          → m < s + count
          → seen_before used (filename_collision_key u (fit_filename base (suffix_text m))) ≡ true)
unfolding find_free
find_free-none zero u used base candidate s h = (
  (untaken (seen_before used (filename_collision_key u candidate)) none candidate h).0,
  λ m low high. absurd (omega arith),
)
find_free-none (suc count) u used base candidate s h =
    let (seen, next) =
      untaken (seen_before used (filename_collision_key u candidate))
        (find_free (suc count) u used base (fit_filename base (suffix_text s)) (suc s)) candidate
        h in
    let (first, later) =
      find_free-none count u used base (fit_filename base (suffix_text s)) (suc s) next in
    (
      seen,
      from_next
          {P = λ m.
            m < s + suc count
            → seen_before used (filename_collision_key u (fit_filename base (suffix_text m)))
              ≡ true}
          s (λ _. first) (λ m low high. later m low (omega arith)),
    )

find_free-free :
    (fuel : ℕ) (u : Unicode) (used : List Bytes) (base candidate : Bytes) (s : ℕ) (c : Bytes)
    → find_free fuel u used base candidate s ≡ some c
    → seen_before used (filename_collision_key u c) ≡ false
unfolding find_free
find_free-free zero u used base candidate s c h = absurd (ground (arith, h))
find_free-free (suc fuel) u used base candidate s c h =
    elim (taken (seen_before used (filename_collision_key u candidate))
      (find_free fuel u used base (fit_filename base (suffix_text s)) (suc s)) candidate c h) [
        | inl next ↦
            find_free-free fuel u used base (fit_filename base (suffix_text s)) (suc s) c next
        | inr (free, same) ↦
            ap (λ x. seen_before used (filename_collision_key u x)) (sym same) ∙ free
      ]

-- Whatever keys are taken, the loop that looks for a free name ends.
pub find_free-ends :
    (u : Unicode)
    → UnicodeLaws u
    → (used : List Bytes) (base : Bytes) → length used ≤ max_manifest_files
    → (c : Bytes) × (find_free (suc (suc (length used))) u used base base 2 ≡ some c)
      × (seen_before used (filename_collision_key u c) ≡ false)
find_free-ends u laws used base few =
    elim (Option-cases (find_free (suc (suc (length used))) u used base base 2)) [
      | inr (c, e) ↦ (c, e, find_free-free (suc (suc (length used))) u used base base 2 c e)
      | inl none' ↦ absurd (
          omega (
            arith,
            pigeonhole g 2 (suc (length used)) used (λ m low high.
                subst (λ n. has_number g n used ≡ true)
                  (number_of-candidate u laws base m (omega arith))
                  (seen_before-has_number g used _
                    ((find_free-none (suc (length used)) u used base base 2 none').1 m low high))),
          ))
    ]
  where
    g : Bytes → ℕ
    g = number_of (filename_collision_key u (extension_of base))

-- No two names have the same key, and none has one that is taken.
abbrev pub Apart : Unicode → List Bytes → List Bytes → Type 0
Apart u used [] = Unit
Apart u used (name ∷ names) =
    (seen_before used (filename_collision_key u name) ≡ false)
    × Apart u (filename_collision_key u name ∷ used) names

abbrev Usable : Unicode → Bytes → Type 0
Usable u name = (base : Bytes) × (canonicalize_filename u name ≡ ok base)

canonicalize_from-Apart :
    (u : Unicode)
    → UnicodeLaws u
    → (used names : List Bytes) → length used + length names ≤ max_manifest_files
    → All (Usable u) names
    → (out : List Bytes) × (canonicalize_from u used names ≡ ok out)
      × (length out ≡ length names)
      × Apart u used out
unfolding canonicalize_from
canonicalize_from-Apart u laws used [] few usable = ([], refl, refl, tt)
canonicalize_from-Apart u laws used (name ∷ names) few ((base, usable), rest) =
    let (c, e, free) = find_free-ends u laws used base (omega arith) in
    let (out, done, size, apart) =
      canonicalize_from-Apart u laws (filename_collision_key u c ∷ used) names (omega arith) rest in
    (c ∷ out, rw (usable, e, done) refl, omega (arith, size), (free, apart))

-- A bundle of at most 1000 names, each of which can be made canonical, gets as many names, and no
-- two of these have the same key; the search for a free number ends.
pub canonicalize_filenames-Apart :
    (u : Unicode)
    → UnicodeLaws u
    → (names : List Bytes) → length names ≤ max_manifest_files
    → All (Usable u) names
    → (out : List Bytes) × (canonicalize_filenames u names ≡ ok out)
      × (length out ≡ length names)
      × Apart u [] out
unfolding canonicalize_filenames
canonicalize_filenames-Apart u laws names few usable =
    let (out, done, size, apart) = canonicalize_from-Apart u laws [] names (omega arith) usable in
    (out, rw (small, done) refl, size, apart)
  where
    small : ltb max_manifest_files (length names) ≡ false
    small = ground (arith, few)
