-- ===== src/Crypto/Manifest/Roundtrip.antt =====
-- `BuildManifest` and `SplitPayload`: the files that went into a bundle come out of it.
use drop_point.Base.{
  ℕ, suc, ◌≡◌, refl, sym, ap, subst, ◌∙◌, List, [], ◌∷◌, ◌++◌, ℤ, pos, pos_part, pos_part-pos,
  Bytes, length, ltb, ◌==◌, arith,
}
use mathlib.Core.List.{head-eq_of_cons-eq, tail-eq_of_cons-eq}
use drop_point.Errors.{ok, bind-ok, ok-injective}
use drop_point.Crypto.Names.{
  Unicode, max_manifest_files, refuse_if, canonicalize_filename, filename_collision_key,
}
use drop_point.Crypto.Names.Collisions.{find_free, found, canonicalize_from, canonicalize_filenames}
use drop_point.Crypto.Manifest.{
  Formats, ManifestFile, Manifest, PlainFile, RecoveredFile, sanitize_mime_type, build_entries,
  join, contents_of, names_of, build_manifest, validate_manifest, split_payload,
}
use drop_point.Crypto.Manifest.Split.{Recovered, recovered_contents, split_payload-Recovered}

-- The entries have the names at their indices, the files' types as sanitized, and the files' sizes.
abbrev pub Describes : Formats → List Bytes → List PlainFile → List ManifestFile → Type 0
Describes f [] [] [] = Unit
Describes f (name ∷ names) (file ∷ files) (entry ∷ entries) =
    (entry.name ≡ name)
    × (sanitize_mime_type f file.type ≡ ok entry.type)
    × (entry.size ≡ pos (length file.contents))
    × Describes f names files entries
Describes f _ _ _ = ⊥

build_entries-Describes :
    (f : Formats) (names : List Bytes) (files : List PlainFile) (entries : List ManifestFile)
    → length names ≡ length files
    → build_entries f names files ≡ ok entries
    → Describes f names files entries
unfolding build_entries
build_entries-Describes f [] [] [] size h = tt
build_entries-Describes f [] [] (entry ∷ entries) size h = absurd (ground (arith, h))
build_entries-Describes f (name ∷ names) [] entries size h = absurd (omega arith)
build_entries-Describes f [] (file ∷ files) entries size h = absurd (omega arith)
build_entries-Describes f (name ∷ names) (file ∷ files) entries size h =
    let (type, sanitized, h₁) = bind-ok (sanitize_mime_type f file.type) _ entries h in
    let (rest, built, h₂) = bind-ok (build_entries f names files) _ entries h₁ in
    let same = ok-injective h₂ in
    subst (Describes f (name ∷ names) (file ∷ files)) same
      (refl, sanitized, refl, build_entries-Describes f names files rest (omega arith) built)

canonicalize_from-length :
    (u : Unicode) (used names out : List Bytes)
    → canonicalize_from u used names ≡ ok out
    → length out ≡ length names
unfolding canonicalize_from
canonicalize_from-length u used [] out h = ap length (sym (ok-injective h))
canonicalize_from-length u used (name ∷ names) out h =
    let (base, _, h₁) = bind-ok (canonicalize_filename u name) _ out h in
    let (c, _, h₂) =
      bind-ok (found (find_free (suc (suc (length used))) u used base base 2)) _ out h₁ in
    let (rest, done, h₃) =
      bind-ok (canonicalize_from u (filename_collision_key u c ∷ used) names) _ out h₂ in
    sym (ap length (ok-injective h₃))
    ∙ ap suc (canonicalize_from-length u (filename_collision_key u c ∷ used) names rest done)

names-length : (files : List PlainFile) → length (names_of files) ≡ length files
names-length [] = refl
names-length (file ∷ files) = ap suc (names-length files)

pos-injective : {m n : ℕ} → pos m ≡ pos n → m ≡ n
pos-injective {m} {n} h = sym (pos_part-pos m) ∙ ap pos_part h ∙ pos_part-pos n

-- Blocks of the same length at the front of equal strings.
cancel : (a b x y : Bytes) → length a ≡ length b → a ++ x ≡ b ++ y → (a ≡ b) × (x ≡ y)
cancel [] [] x y size h = (refl, h)
cancel [] (b ∷ rest_b) x y size h = absurd (omega arith)
cancel (a ∷ rest_a) [] x y size h = absurd (omega arith)
cancel (a ∷ rest_a) (b ∷ rest_b) x y size h =
    let (same, rest) = cancel rest_a rest_b x y (omega arith) (tail-eq_of_cons-eq h) in
    ((λ i. head-eq_of_cons-eq h i ∷ same i), rest)

-- Each file came back under its new name, with its type as sanitized and its contents.
abbrev pub Returned : Formats → List Bytes → List PlainFile → List RecoveredFile → Type 0
Returned f [] [] [] = Unit
Returned f (name ∷ names) (file ∷ files) (out ∷ outs) =
    (out.name ≡ name)
    × (sanitize_mime_type f file.type ≡ ok out.type)
    × (out.contents ≡ file.contents)
    × Returned f names files outs
Returned f _ _ _ = ⊥

Recovered-Returned :
    (f : Formats) (seen names : List Bytes) (files : List PlainFile) (entries : List ManifestFile)
    (outs : List RecoveredFile)
    → Describes f names files entries
    → Recovered f seen entries outs
    → join (recovered_contents outs) ≡ join (contents_of files)
    → Returned f names files outs
unfolding join
Recovered-Returned f seen [] [] [] [] d r h = tt
Recovered-Returned f seen [] [] [] (out ∷ outs) d r h = r
Recovered-Returned f seen [] [] (entry ∷ entries) outs d r h = absurd d
Recovered-Returned f seen [] (file ∷ files) entries outs d r h = absurd d
Recovered-Returned f seen (name ∷ names) [] entries outs d r h = absurd d
Recovered-Returned f seen (name ∷ names) (file ∷ files) [] outs d r h = absurd d
Recovered-Returned f seen (name ∷ names) (file ∷ files) (entry ∷ entries) [] d r h = r
Recovered-Returned f seen (name ∷ names) (file ∷ files) (entry ∷ entries) (out ∷ outs)
      (d₁, d₂, d₃, d) (r₁, _, r) h =
    let size : length out.contents ≡ length file.contents = pos-injective (r₁.size ∙ d₃) in
    let (same, rest) = cancel out.contents file.contents _ _ size h in
    (
      r₁.name ∙ d₁,
      d₂ ∙ ap ok (sym r₁.type),
      same,
      Recovered-Returned f (filename_collision_key f.unicode out.safe_name ∷ seen) names files
          entries outs d r rest,
    )

-- The files of a bundle that its manifest describes validly come out of the split as they went in.
pub split_payload-build_manifest :
    (f : Formats) (files : List PlainFile) (created_at : ℤ) (m : Manifest) (payload : Bytes)
    → build_manifest f files created_at ≡ ok (m, payload)
    → validate_manifest f m payload ≡ ok tt
    → (names : List Bytes) × (outs : List RecoveredFile) × (canonicalize_filenames f.unicode
          (names_of files)
        ≡ ok names)
      × (split_payload f m payload ≡ ok outs)
      × Returned f names files outs
unfolding build_manifest canonicalize_filenames
split_payload-build_manifest f files created_at m payload built valid =
    let (_, _, h₁) = bind-ok (refuse_if (length files == 0)) _ (m, payload) built in
    let (_, _, h₂) =
      bind-ok (refuse_if (ltb max_manifest_files (length files))) _ (m, payload) h₁ in
    let (names, named, h₃) =
      bind-ok (canonicalize_filenames f.unicode (names_of files)) _ (m, payload) h₂ in
    let (entries, made, h₄) = bind-ok (build_entries f names files) _ (m, payload) h₃ in
    let same = ok-injective h₄ in
    let (outs, split, joined, recovered) = split_payload-Recovered f m payload valid in
    let (_, _, from) =
      bind-ok (refuse_if (ltb max_manifest_files (length (names_of files)))) _ names named in
    (
      names,
      outs,
      named,
      split,
      Recovered-Returned f [] names files m.files outs
          (subst (Describes f names files) (λ i. (same i).0.files)
            (build_entries-Describes f names files entries
              (canonicalize_from-length f.unicode [] (names_of files) names from
                ∙ names-length files)
              made))
          recovered (joined ∙ sym (λ i. (same i).1)),
    )
