-- ===== src/Crypto/Names/Collisions/Numbers.antt =====
-- The number of a candidate can be read off its key, so the keys of the candidates differ.
use drop_point.Base.{
  ℕ, zero, suc, ◌+◌, ◌-◌, ◌*◌, ◌/◌, ◌%◌, ◌^◌, ◌≤◌, ◌<◌, ◌≡◌, refl, sym, ap, subst, ◌∙◌, Bool, false,
  Option, none, some, [], ◌∷◌, ◌++◌, Bytes, length, length-append, ◌==◌, if◌then◌else◌, reverse,
  arith, All, if_elim,
}
use mathlib.Core.List.{append_assoc, reverse-append, reverse-cons, reverse-reverse}
use native.Mathlib.Numerals.{unary_clauses}
use drop_point.Crypto.Names.{
  Unicode, max_filename_utf8_bytes, max_filename_extension_bytes, fit_filename, split_at_dot,
  stem_and_extension, or_file, trim_right, truncate_utf8, filename_collision_key,
}
use drop_point.Crypto.Names.Collisions.{digits_reversed, suffix_text}

abbrev IsDigit : ℕ → Type 0
IsDigit c = (48 ≤ c) × (c ≤ 57)

-- A map of strings that treats what stands on both sides of a parenthesis by itself, and leaves
-- digits alone.
pub record IsLocal (f : Bytes → Bytes) : Type 0 where
  pub split_opening : (a b : Bytes) → f (a ++ (40 ∷ b)) ≡ f a ++ (40 ∷ f b)
  pub split_closing : (a b : Bytes) → f (a ++ (41 ∷ b)) ≡ f a ++ (41 ∷ f b)
  pub keeps_digits : (ds : Bytes) → All IsDigit ds → f ds ≡ ds

-- No composition of NFC and no lower case spans or changes a parenthesis, or changes a digit.
pub record UnicodeLaws (u : Unicode) : Type 0 where
  pub nfc : IsLocal u.nfc
  pub to_lower : IsLocal u.to_lower

digits_reversed-digits : (fuel n : ℕ) → All IsDigit (digits_reversed fuel n)
unfolding digits_reversed
digits_reversed-digits zero n = tt
digits_reversed-digits (suc fuel) n = (
  (omega arith, omega arith),
  if_elim (All IsDigit) (n / 10 == 0) [] (digits_reversed fuel (n / 10)) (λ _. tt)
      (λ _. digits_reversed-digits fuel (n / 10)),
)

-- The number in front of the first opening parenthesis, the last digit first.
read_number : Bytes → ℕ
read_number [] = 0
read_number (c ∷ cs) = let rest = read_number cs in if c == 40 then 0 else (c - 48) + 10 * rest

read_number-digits :
    (fuel n : ℕ) (rest : Bytes) → n < fuel → read_number (digits_reversed fuel n ++ (40 ∷ rest)) ≡ n
unfolding read_number digits_reversed
read_number-digits zero n rest h = absurd (omega arith)
read_number-digits (suc fuel) n rest h =
    if_elim (λ ds. read_number (((48 + n % 10) ∷ ds) ++ (40 ∷ rest)) ≡ n) (n / 10 == 0) []
      (digits_reversed fuel (n / 10)) (λ small. ground (arith, small))
      (λ large.
        ground (arith, large, read_number-digits fuel (n / 10) rest (ground (arith, large))))

behind : Bytes → Bytes → Bytes
behind [] ys = ys
behind (x ∷ xs) [] = []
behind (x ∷ xs) (y ∷ ys) = behind xs ys

behind-append : (xs ys : Bytes) → behind xs (xs ++ ys) ≡ ys
unfolding behind
behind-append [] ys = refl
behind-append (x ∷ xs) ys = behind-append xs ys

-- The number of a key, given the key of the extension.
pub number_of : Bytes → Bytes → ℕ
unfolding behind read_number
number_of extension key = read_number (behind (reverse extension ++ (41 ∷ [])) (reverse key))

reverse-around :
    (a ds e : Bytes)
    → reverse (a ++ (40 ∷ (reverse ds ++ (41 ∷ e))))
      ≡ reverse e ++ (41 ∷ []) ++ (ds ++ (40 ∷ reverse a))
reverse-around a ds e =
    rw
      (
        reverse-append a (40 ∷ (reverse ds ++ (41 ∷ e))),
        reverse-cons 40 (reverse ds ++ (41 ∷ e)),
        reverse-append (reverse ds) (41 ∷ e),
        reverse-reverse ds,
        reverse-cons 41 e,
      )
      (simp append_assoc)

-- What the key of a numbered candidate is made of.
key-parts :
    (u : Unicode)
    → UnicodeLaws u
    → (a ds e : Bytes) → All IsDigit ds
    → filename_collision_key u (a ++ (40 ∷ (ds ++ (41 ∷ e))))
      ≡ filename_collision_key u a ++ (40 ∷ (ds ++ (41 ∷ filename_collision_key u e)))
unfolding filename_collision_key
key-parts u laws a ds e digits =
    ap u.to_lower (
      laws.nfc.split_opening a (ds ++ (41 ∷ e))
      ∙ ap (λ r. u.nfc a ++ (40 ∷ r)) (inner u.nfc laws.nfc e))
    ∙ laws.to_lower.split_opening (u.nfc a) (ds ++ (41 ∷ u.nfc e))
    ∙ ap (λ r. u.to_lower (u.nfc a) ++ (40 ∷ r)) (inner u.to_lower laws.to_lower (u.nfc e))
  where
    inner :
        (f : Bytes → Bytes)
        → IsLocal f
        → (rest : Bytes) → f (ds ++ (41 ∷ rest)) ≡ ds ++ (41 ∷ f rest)
    inner f l rest =
        l.split_closing ds rest ∙ ap (λ front. front ++ (41 ∷ f rest)) (l.keeps_digits ds digits)

All-append : (xs ys : Bytes) → All IsDigit xs → All IsDigit ys → All IsDigit (xs ++ ys)
All-append [] ys p q = q
All-append (x ∷ xs) ys p q = (p.0, All-append xs ys p.1 q)

All-reverse : (xs : Bytes) → All IsDigit xs → All IsDigit (reverse xs)
All-reverse [] p = tt
All-reverse (x ∷ xs) p =
    subst (All IsDigit) (sym (reverse-cons x xs))
      (All-append (reverse xs) (x ∷ []) (All-reverse xs p.1) (p.0, tt))

abbrev pub extension_of : Bytes → Bytes
extension_of base = (stem_and_extension base (split_at_dot [] (reverse base))).1

extension-short :
    (base : Bytes) (parts : Option (Bytes × Bytes))
    → length (stem_and_extension base parts).1 ≤ max_filename_extension_bytes
extension-short base none = omega arith
extension-short base (some (stem, extension)) = ground arith

-- A short suffix keeps the extension.
candidate-text :
    (base suffix : Bytes)
    → length suffix ≤ 200
    → (stem : Bytes) × (fit_filename base suffix ≡ stem ++ suffix ++ extension_of base)
unfolding fit_filename
candidate-text base suffix h = (
  or_file (
      trim_right (
        truncate_utf8 (stem_and_extension base (split_at_dot [] (reverse base))).0
          (max_filename_utf8_bytes - length suffix - length (extension_of base)))),
  if_false _ _ _ (
      positive (max_filename_utf8_bytes - length suffix - length (extension_of base))
        (omega (arith, extension-short base (split_at_dot [] (reverse base))))),
)
  where
    positive : (n : ℕ) → 0 < n → (n == 0) ≡ false
    positive n p = ground arith

    if_false : (b : Bool) (x y : Bytes) → b ≡ false → (if b then x else y) ≡ y
    if_false b x y e = rw e refl

digits-length : (fuel k n : ℕ) → n < 10 ^ suc k → length (digits_reversed fuel n) ≤ suc k
unfolding digits_reversed
digits-length zero k n h = omega arith
digits-length (suc fuel) zero n h = ground arith
digits-length (suc fuel) (suc k) n h =
    if_elim (λ ds. suc (length ds) ≤ suc (suc k)) (n / 10 == 0) [] (digits_reversed fuel (n / 10))
      (λ _. omega arith)
      (λ _. omega (
        arith,
        digits-length fuel k (n / 10)
            (simp unary_clauses (smaller (10 ^ k) (simp unary_clauses at h))),
      ))
  where
    smaller : (m : ℕ) → n < m * 10 * 10 → n / 10 < m * 10
    smaller m p = omega arith

length-reverse : (xs : Bytes) → length (reverse xs) ≡ length xs
length-reverse [] = refl
length-reverse (x ∷ xs) =
    rw (reverse-cons x xs, length-append (reverse xs) (x ∷ [])) (omega (arith, length-reverse xs))

pub suffix_text-length : (n : ℕ) → n < 10000 → length (suffix_text n) ≤ 7
unfolding suffix_text
suffix_text-length n h =
    rw
      (
        length-append (reverse (digits_reversed (suc n) n)) (41 ∷ []),
        length-reverse (digits_reversed (suc n) n),
      )
      (omega (arith, digits-length (suc n) 3 n h))

number_of-around :
    (a e : Bytes) (n : ℕ)
    → number_of e (a ++ (40 ∷ (reverse (digits_reversed (suc n) n) ++ (41 ∷ e)))) ≡ n
unfolding number_of
number_of-around a e n =
    ap (λ r. read_number (behind (reverse e ++ (41 ∷ [])) r))
      (reverse-around a (digits_reversed (suc n) n) e)
    ∙ ap read_number
        (behind-append (reverse e ++ (41 ∷ [])) (digits_reversed (suc n) n ++ (40 ∷ reverse a)))
    ∙ read_number-digits (suc n) n (reverse a) (omega arith)

-- The number of a candidate is that of its suffix.
pub number_of-candidate :
    (u : Unicode)
    → UnicodeLaws u
    → (base : Bytes) (n : ℕ) → n < 10000
    → number_of
        (filename_collision_key u (extension_of base))
        (filename_collision_key u (fit_filename base (suffix_text n)))
      ≡ n
unfolding suffix_text
number_of-candidate u laws base n h =
    let ds = digits_reversed (suc n) n in
    let (stem, text) =
      candidate-text base (suffix_text n) (omega (arith, suffix_text-length n h)) in
    let e = filename_collision_key u (extension_of base) in
    let split : stem ++ suffix_text n ++ extension_of base
        ≡ stem ++ (32 ∷ []) ++ (40 ∷ (reverse ds ++ (41 ∷ extension_of base))) =
      simp append_assoc in
    let key : filename_collision_key u (fit_filename base (suffix_text n))
        ≡ filename_collision_key u (stem ++ (32 ∷ [])) ++ (40 ∷ (reverse ds ++ (41 ∷ e))) =
      ap (filename_collision_key u) (text ∙ split)
      ∙ key-parts u laws (stem ++ (32 ∷ [])) (reverse ds) (extension_of base)
          (All-reverse ds (digits_reversed-digits (suc n) n)) in
    ap (number_of e) key ∙ number_of-around (filename_collision_key u (stem ++ (32 ∷ []))) e n
