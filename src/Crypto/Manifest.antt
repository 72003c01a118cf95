-- ===== src/Crypto/Manifest.antt =====
-- internal/cryptoenv/manifest.go: the manifest of a bundle, its validation, and the split of a payload.
-- `mime.ParseMediaType` and the RFC 3339 texts of package time are parameters.
pub mod Split
pub mod Roundtrip
use drop_point.Base.{
  ℕ, ◌+◌, ◌-◌, Bool, true, false, not, ◌&&◌, ◌||◌, Option, none, some, List, [], ◌∷◌, ◌++◌, map, ℤ,
  pos, pos_part, ltb_ℤ, ◌-ℤ◌, Bytes, codes, is_empty, length, take, drop, leb, ltb, ◌==◌,
  if◌then◌else◌, valid_string,
}
use drop_point.Errors.{Result, ok, err, ◌>>=◌, ◌>>◌, invalid_argument}
use drop_point.Crypto.Json.{seen_before}
use drop_point.Crypto.Envelope.{protocol_version}
use drop_point.Crypto.Names.{
  Unicode, max_manifest_files, refuse_if, sanitize_filename, filename_collision_key,
}
use drop_point.Crypto.Names.Collisions.{canonicalize_filenames}

abbrev pub max_mime_type_utf8_bytes : ℕ
max_mime_type_utf8_bytes = 255

pub record Formats : Type 0 where
  pub unicode : Unicode
  -- `mime.ParseMediaType`: the type, and whether there are parameters
  pub parse_media_type : Bytes → Option (Bytes × Bool)
  -- `t.UTC().Format(time.RFC3339Nano)`, and whether `time.Parse` takes a text
  pub format_time : ℤ → Bytes
  pub is_time : Bytes → Bool

pub record ManifestFile : Type 0 where
  pub name : Bytes
  pub type : Bytes
  pub size : ℤ

pub record Manifest : Type 0 where
  pub protocol_version : ℤ
  pub files : List ManifestFile
  pub created_at : Bytes

pub record PlainFile : Type 0 where
  pub name : Bytes
  pub type : Bytes
  pub contents : Bytes

pub record RecoveredFile : Type 0 where
  pub name : Bytes
  pub safe_name : Bytes
  pub type : Bytes
  pub safe_type : Bytes
  pub contents : Bytes

-- `safeMIMEPattern`: two parts around one slash, each with a letter or a digit in front.
pub data MimePlace : Type 0 where
  at_type in_type at_subtype in_subtype : MimePlace

abbrev is_alphanumeric : ℕ → Bool
is_alphanumeric c = (leb 65 c && leb c 90) || ((leb 97 c && leb c 122) || (leb 48 c && leb c 57))

-- ! # $ & ^ _ . + -
abbrev is_mime_char : ℕ → Bool
is_mime_char c =
    is_alphanumeric c
    || (c == 33
        || (c == 35
            || (c == 36
                || (c == 38 || (c == 94 || (c == 95 || (c == 46 || (c == 43 || c == 45))))))))

unfoldable pub is_safe_mime : MimePlace → Bytes → Bool
is_safe_mime in_subtype [] = true
is_safe_mime _ [] = false
is_safe_mime at_type (c ∷ cs) = is_alphanumeric c && is_safe_mime in_type cs
is_safe_mime in_type (c ∷ cs) =
    let further = is_safe_mime in_type cs in
    let next = is_safe_mime at_subtype cs in if c == 47 then next else is_mime_char c && further
is_safe_mime at_subtype (c ∷ cs) = is_alphanumeric c && is_safe_mime in_subtype cs
is_safe_mime in_subtype (c ∷ cs) = is_mime_char c && is_safe_mime in_subtype cs

abbrev pub parsed : Option (Bytes × Bool) → Result (Bytes × Bool)
parsed none = err invalid_argument
parsed (some p) = ok p

-- A type that is not empty.
abbrev pub sanitize_given_type : Formats → Bytes → Result Bytes
sanitize_given_type f value = do
  refuse_if (not (valid_string value) || ltb max_mime_type_utf8_bytes (length value))
  media ← parsed (f.parse_media_type value)
  refuse_if media.1
  refuse_if (not (is_safe_mime at_type (f.unicode.to_lower media.0)))
  ok (f.unicode.to_lower media.0)

unfoldable pub sanitize_mime_type : Formats → Bytes → Result Bytes
sanitize_mime_type f value =
    if is_empty value then ok (codes "application/octet-stream") else sanitize_given_type f value

-- The entries of the files, with the names at their indices.
unfoldable pub build_entries : Formats → List Bytes → List PlainFile → Result (List ManifestFile)
build_entries f names [] = ok []
-- the names are as many as the files
build_entries f [] (file ∷ files) = err invalid_argument
build_entries f (name ∷ names) (file ∷ files) = do
  type ← sanitize_mime_type f file.type
  entries ← build_entries f names files
  ok (record { name = name; type = type; size = pos (length file.contents) } ∷ entries)

unfoldable pub join : List Bytes → Bytes
join [] = []
join (b ∷ bs) = b ++ join bs

abbrev pub contents_of : List PlainFile → List Bytes
contents_of [] = []
contents_of (file ∷ files) = file.contents ∷ contents_of files

abbrev pub names_of : List PlainFile → List Bytes
names_of [] = []
names_of (file ∷ files) = file.name ∷ names_of files

unfoldable pub build_manifest : Formats → List PlainFile → ℤ → Result (Manifest × Bytes)
build_manifest f files created_at = do
  refuse_if (length files == 0)
  refuse_if (ltb max_manifest_files (length files))
  names ← canonicalize_filenames f.unicode (names_of files)
  entries ← build_entries f names files
  ok (
    record {
      protocol_version = protocol_version;
      files = entries;
      created_at = f.format_time created_at;
    },
    join (contents_of files),
  )

-- What the entries leave of the payload's length.
unfoldable pub validate_entries : Formats → List Bytes → ℤ → List ManifestFile → Result ℤ
validate_entries f seen remaining [] = ok remaining
validate_entries f seen remaining (file ∷ files) = do
  refuse_if (ltb_ℤ file.size (pos 0))
  refuse_if (ltb_ℤ remaining file.size)
  safe_name ← sanitize_filename f.unicode file.name
  refuse_if (seen_before seen (filename_collision_key f.unicode safe_name))
  safe_type ← sanitize_mime_type f file.type
  validate_entries f (filename_collision_key f.unicode safe_name ∷ seen) (remaining -ℤ file.size)
      files

unfoldable pub validate_manifest : Formats → Manifest → Bytes → Result (Unit {0})
validate_manifest f m payload = do
  refuse_if (ltb_ℤ m.protocol_version protocol_version || ltb_ℤ protocol_version m.protocol_version)
  refuse_if (length m.files == 0)
  refuse_if (ltb max_manifest_files (length m.files))
  refuse_if (not (f.is_time m.created_at))
  remaining ← validate_entries f [] (pos (length payload)) m.files
  refuse_if (ltb_ℤ remaining (pos 0) || ltb_ℤ (pos 0) remaining)

-- `payload[offset:offset+size]`
abbrev pub slice : Bytes → ℕ → ℕ → Bytes
slice payload offset size = take size (drop offset payload)

-- `next < offset` does not hold of numbers below 2 ^ 63.
unfoldable pub split_from : Formats → Bytes → ℕ → List ManifestFile → Result (List RecoveredFile)
split_from f payload offset [] = ok []
split_from f payload offset (entry ∷ entries) = do
  refuse_if (ltb_ℤ entry.size (pos 0) || ltb_ℤ (pos (length payload - offset)) entry.size)
  refuse_if (ltb (length payload) (offset + pos_part entry.size))
  safe_name ← sanitize_filename f.unicode entry.name
  safe_type ← sanitize_mime_type f entry.type
  rest ← split_from f payload (offset + pos_part entry.size) entries
  ok (
      record {
        name = entry.name;
        safe_name = safe_name;
        type = entry.type;
        safe_type = safe_type;
        contents = slice payload offset (pos_part entry.size);
      }
      ∷ rest)

unfoldable pub split_payload : Formats → Manifest → Bytes → Result (List RecoveredFile)
split_payload f m payload = do validate_manifest f m payload; split_from f payload 0 m.files
