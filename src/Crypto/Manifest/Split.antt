-- ===== src/Crypto/Manifest/Split.antt =====
-- `ValidateManifest` and `SplitPayload`: what is accepted, and what a split returns.
use drop_point.Base.{
  ℕ, zero, suc, ◌+◌, ◌-◌, ◌≤◌, ◌≡◌, refl, sym, ap, subst, ◌∙◌, Bool, true, false, not, ◌||◌, List,
  [], ◌∷◌, ◌++◌, ℤ, pos, pos_part, ltb_ℤ, ◌-ℤ◌, natural_of, ltb_ℤ-pos, -ℤ-pos, Bytes, length, take,
  drop, ltb, ◌==◌, arith,
}
use mathlib.Core.List.{append-nil, append_assoc}
use drop_point.Errors.{ok, bind-ok}
use drop_point.Crypto.Json.{seen_before}
use drop_point.Crypto.Envelope.{protocol_version}
use drop_point.Crypto.Names.{
  max_manifest_files, refuse_if, sanitize_filename, filename_collision_key,
}
use drop_point.Crypto.Manifest.{
  Formats, ManifestFile, Manifest, RecoveredFile, sanitize_mime_type, join, validate_entries,
  validate_manifest, split_from, split_payload,
}

refuse_if-ok : (b : Bool) → refuse_if b ≡ ok tt → b ≡ false
refuse_if-ok true h = absurd (ground (arith, h))
refuse_if-ok false h = refl

-- One entry of an accepted manifest.
record Accepted (f : Formats) (seen : List Bytes) (remaining : ℤ) (file : ManifestFile)
    : Type 0 where
  natural : ltb_ℤ file.size (pos 0) ≡ false
  fits : ltb_ℤ remaining file.size ≡ false
  safe_name : Bytes
  name_is_safe : sanitize_filename f.unicode file.name ≡ ok safe_name
  unseen : seen_before seen (filename_collision_key f.unicode safe_name) ≡ false
  safe_type : Bytes
  type_is_safe : sanitize_mime_type f file.type ≡ ok safe_type

validate_entries-Accepted :
    (f : Formats) (seen : List Bytes) (remaining left : ℤ) (file : ManifestFile)
    (files : List ManifestFile)
    → validate_entries f seen remaining (file ∷ files) ≡ ok left
    → (a : Accepted f seen remaining file) × (validate_entries f
          (filename_collision_key f.unicode a.safe_name ∷ seen)
          (remaining -ℤ file.size)
          files
        ≡ ok left)
unfolding validate_entries
validate_entries-Accepted f seen remaining left file files h =
    let (_, natural, h₁) = bind-ok (refuse_if (ltb_ℤ file.size (pos 0))) _ left h in
    let (_, fits, h₂) = bind-ok (refuse_if (ltb_ℤ remaining file.size)) _ left h₁ in
    let (safe_name, name_is_safe, h₃) = bind-ok (sanitize_filename f.unicode file.name) _ left h₂ in
    let (_, unseen, h₄) =
      bind-ok (refuse_if (seen_before seen (filename_collision_key f.unicode safe_name))) _ left
        h₃ in
    let (safe_type, type_is_safe, h₅) = bind-ok (sanitize_mime_type f file.type) _ left h₄ in
    (
      record {
        natural = refuse_if-ok _ natural;
        fits = refuse_if-ok _ fits;
        safe_name = safe_name;
        name_is_safe = name_is_safe;
        unseen = refuse_if-ok _ unseen;
        safe_type = safe_type;
        type_is_safe = type_is_safe;
      },
      h₅,
    )

-- A recovered file belongs to an entry: its name and type are the entry's, both passed the policy,
-- and its contents have the entry's size.
pub record Recovers (f : Formats) (entry : ManifestFile) (file : RecoveredFile) : Type 0 where
  pub name : file.name ≡ entry.name
  pub type : file.type ≡ entry.type
  pub size : pos (length file.contents) ≡ entry.size
  pub name_is_safe : sanitize_filename f.unicode entry.name ≡ ok file.safe_name
  pub type_is_safe : sanitize_mime_type f entry.type ≡ ok file.safe_type

-- The files belong to the entries in order, and no two safe names have the same key.
abbrev pub Recovered : Formats → List Bytes → List ManifestFile → List RecoveredFile → Type 0
Recovered f seen [] [] = Unit
Recovered f seen (entry ∷ entries) (file ∷ files) =
    Recovers f entry file
    × (seen_before seen (filename_collision_key f.unicode file.safe_name) ≡ false)
    × Recovered f (filename_collision_key f.unicode file.safe_name ∷ seen) entries files
Recovered f seen _ _ = ⊥

abbrev pub recovered_contents : List RecoveredFile → List Bytes
recovered_contents [] = []
recovered_contents (file ∷ files) = file.contents ∷ recovered_contents files

length-take : (n : ℕ) (xs : Bytes) → n ≤ length xs → length (take n xs) ≡ n
unfolding take
length-take zero xs h = refl
length-take (suc n) [] h = absurd (omega arith)
length-take (suc n) (x ∷ xs) h = omega (arith, length-take n xs (omega arith))

take-drop : (n : ℕ) (xs : Bytes) → take n xs ++ drop n xs ≡ xs
unfolding take drop
take-drop zero xs = refl
take-drop (suc n) [] = refl
take-drop (suc n) (x ∷ xs) = ap (λ r. x ∷ r) (take-drop n xs)

length-drop : (n : ℕ) (xs : Bytes) → length (drop n xs) ≡ length xs - n
unfolding drop
length-drop zero xs = omega arith
length-drop (suc n) [] = omega arith
length-drop (suc n) (x ∷ xs) = omega (arith, length-drop n xs)

drop-append : (xs ys : Bytes) → drop (length xs) (xs ++ ys) ≡ ys
unfolding drop
drop-append [] ys = refl
drop-append (x ∷ xs) ys = drop-append xs ys

length-append : (xs ys : Bytes) → length (xs ++ ys) ≡ length xs + length ys
length-append [] ys = omega arith
length-append (x ∷ xs) ys = omega (arith, length-append xs ys)

module _ (f : Formats) (before rest : Bytes) (entry : ManifestFile)
    (entries : List ManifestFile) where
  -- Behind the bytes already split off, the entries in front of the offset fit.
  at_offset :
      (n : ℕ)
      → entry.size ≡ pos n
      → n ≤ length rest
      → (ltb_ℤ (pos (length (before ++ rest) - length before)) entry.size ≡ false)
        × (ltb (length (before ++ rest)) (length before + n) ≡ false)
  at_offset n size within = (
    ap (λ z. ltb_ℤ (pos (length (before ++ rest) - length before)) z) size
        ∙ ltb_ℤ-pos (length (before ++ rest) - length before) n
        ∙ ground (arith, length-append before rest, within),
    ground (arith, length-append before rest, within),
  )

  split_step :
      {seen : List Bytes} (a : Accepted f seen (pos (length rest)) entry)
      (files : List RecoveredFile)
      → entry.size ≡ pos (pos_part entry.size)
      → pos_part entry.size ≤ length rest
      → split_from f (before ++ rest) (length before + pos_part entry.size) entries ≡ ok files
      → split_from f (before ++ rest) (length before) (entry ∷ entries)
        ≡ ok (
            record {
              name = entry.name;
              safe_name = a.safe_name;
              type = entry.type;
              safe_type = a.safe_type;
              contents = take (pos_part entry.size) rest;
            }
            ∷ files)
  unfolding split_from
  split_step a files size within further =
      let (fits, ends) = at_offset (pos_part entry.size) size within in
      rw (a.natural, fits, ends, a.name_is_safe, a.type_is_safe, further, drop-append before rest)
        refl

Divides : Formats → List Bytes → Bytes → Bytes → List ManifestFile → ℤ → Type 0
Divides f seen before rest entries left =
    (files : List RecoveredFile) × (over : Bytes) × (split_from f (before ++ rest) (length before)
        entries
      ≡ ok files)
    × (join (recovered_contents files) ++ over ≡ rest)
    × (left ≡ pos (length over))
    × Recovered f seen entries files

split_from-Divides :
    (f : Formats) (seen : List Bytes) (before rest : Bytes) (entries : List ManifestFile) (left : ℤ)
    → validate_entries f seen (pos (length rest)) entries ≡ ok left
    → Divides f seen before rest entries left
unfolding split_from validate_entries Divides join
split_from-Divides f seen before rest [] left h = ([], rest, refl, refl, ground (arith, h), tt)
split_from-Divides f seen before rest (entry ∷ entries) left h =
    let (a, further) = validate_entries-Accepted f seen (pos (length rest)) left entry entries h in
    let n = pos_part entry.size in
    let size : entry.size ≡ pos n = natural_of entry.size a.natural in
    let within : n ≤ length rest = room a.fits size in
    let taken = length-take n rest within in
    let (files, over, split, joined, leaves, recovered) =
      split_from-Divides f (filename_collision_key f.unicode a.safe_name ∷ seen)
        (before ++ take n rest) (drop n rest) entries left (remaining _ size within further) in
    let file : RecoveredFile = record {
      name = entry.name;
      safe_name = a.safe_name;
      type = entry.type;
      safe_type = a.safe_type;
      contents = take n rest;
    } in
    (
      file ∷ files,
      over,
      split_step f before rest entry entries a files size within (continued n split within),
      append_assoc (take n rest) (join (recovered_contents files)) over
          ∙ ap (λ r. take n rest ++ r) joined
          ∙ take-drop n rest,
      leaves,
      (
        record {
          name = refl;
          type = refl;
          size = ap pos taken ∙ sym size;
          name_is_safe = a.name_is_safe;
          type_is_safe = a.type_is_safe;
        },
        a.unseen,
        recovered,
      ),
    )
  where
    room :
        {n : ℕ}
        → ltb_ℤ (pos (length rest)) entry.size ≡ false
        → entry.size ≡ pos n
        → n ≤ length rest
    room {n} fits size = ground (arith, fits, ltb_ℤ-pos (length rest) n, size)

    remaining :
        {n : ℕ} (seen' : List Bytes)
        → entry.size ≡ pos n
        → n ≤ length rest
        → validate_entries f seen' (pos (length rest) -ℤ entry.size) entries ≡ ok left
        → validate_entries f seen' (pos (length (drop n rest))) entries ≡ ok left
    remaining {n} seen' size within further =
        subst (λ z. validate_entries f seen' z entries ≡ ok left)
          (ap (λ z. pos (length rest) -ℤ z) size
            ∙ -ℤ-pos (length rest) n within
            ∙ ap pos (sym (length-drop n rest)))
          further

    continued :
        (n : ℕ) {files : List RecoveredFile}
        → split_from f
            (before ++ take n rest ++ drop n rest)
            (length (before ++ take n rest))
            entries
          ≡ ok files
        → n ≤ length rest
        → split_from f (before ++ rest) (length before + n) entries ≡ ok files
    continued n split within =
        ap (λ whole. split_from f whole (length before + n) entries)
          (sym (
            append_assoc before (take n rest) (drop n rest)
            ∙ ap (λ r. before ++ r) (take-drop n rest)))
        ∙ ap (λ offset. split_from f (before ++ take n rest ++ drop n rest) offset entries)
            (sym (
              length-append before (take n rest)
              ∙ ap (λ k. length before + k) (length-take n rest within)))
        ∙ split

empty_of_size :
    (xs : Bytes)
    → (ltb_ℤ (pos (length xs)) (pos 0) || ltb_ℤ (pos 0) (pos (length xs))) ≡ false
    → xs ≡ []
empty_of_size [] h = refl
empty_of_size (x ∷ xs) h = absurd (ground (arith, h, ltb_ℤ-pos 0 (suc (length xs))))

entries_of_valid :
    (f : Formats) (m : Manifest) (payload : Bytes)
    → validate_manifest f m payload ≡ ok tt
    → (left : ℤ) × (validate_entries f [] (pos (length payload)) m.files ≡ ok left)
      × ((ltb_ℤ left (pos 0) || ltb_ℤ (pos 0) left) ≡ false)
unfolding validate_manifest
entries_of_valid f m payload h =
    let (_, _, h₁) =
      bind-ok
        (refuse_if
          (ltb_ℤ m.protocol_version protocol_version || ltb_ℤ protocol_version m.protocol_version))
        _ tt h in
    let (_, _, h₂) = bind-ok (refuse_if (length m.files == 0)) _ tt h₁ in
    let (_, _, h₃) = bind-ok (refuse_if (ltb max_manifest_files (length m.files))) _ tt h₂ in
    let (_, _, h₄) = bind-ok (refuse_if (not (f.is_time m.created_at))) _ tt h₃ in
    let (left, entries, h₅) =
      bind-ok (validate_entries f [] (pos (length payload)) m.files) _ tt h₄ in
    (left, entries, refuse_if-ok _ h₅)

-- A payload that its manifest describes is split without an error: one file for each entry, in order,
-- under the entry's name and type, which passed the policy, with as many bytes as the entry says; the
-- files make up the whole payload, and the keys of their safe names differ.
pub split_payload-Recovered :
    (f : Formats) (m : Manifest) (payload : Bytes)
    → validate_manifest f m payload ≡ ok tt
    → (files : List RecoveredFile) × (split_payload f m payload ≡ ok files)
      × (join (recovered_contents files) ≡ payload)
      × Recovered f [] m.files files
unfolding split_payload Divides
split_payload-Recovered f m payload valid =
    let (left, entries, nothing_left) = entries_of_valid f m payload valid in
    let (files, over, split, joined, leaves, recovered) =
      split_from-Divides f [] [] payload m.files left entries in
    let all_split =
      empty_of_size over
        (subst (λ z. (ltb_ℤ z (pos 0) || ltb_ℤ (pos 0) z) ≡ false) leaves nothing_left) in
    (
      files,
      rw (valid, split) refl,
      sym (append-nil (join (recovered_contents files)))
          ∙ ap (λ r. join (recovered_contents files) ++ r) (sym all_split)
          ∙ joined,
      recovered,
    )
