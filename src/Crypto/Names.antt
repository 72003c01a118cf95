-- ===== src/Crypto/Names.antt =====
-- internal/cryptoenv/manifest.go: the policy for file names in a bundle. golang.org/x/text/unicode/norm
-- and the case and category tables of package unicode are the parameter `Unicode`.
pub mod Collisions
use drop_point.Base.{
  ℕ, zero, suc, ◌+◌, ◌-◌, ◌/◌, ◌%◌, Bool, true, false, not, ◌&&◌, ◌||◌, Option, none, some, List,
  [], ◌∷◌, ◌++◌, Bytes, bytes_eq, codes, is_empty, is_blank, length, leb, ltb, ◌==◌, if◌then◌else◌,
  Rune, runes, valid_string, last_rune_size, reverse,
}
use drop_point.Errors.{Result, ok, err, ◌>>=◌, ◌>>◌, invalid_argument}

pub record Unicode : Type 0 where
  -- `norm.NFC.String` and `norm.NFC.IsNormalString`
  pub nfc : Bytes → Bytes
  pub is_nfc : Bytes → Bool
  -- `strings.ToLower`
  pub to_lower : Bytes → Bytes
  -- `unicode.In(r, unicode.Cf)`
  pub is_format : ℕ → Bool

abbrev pub max_manifest_files : ℕ
max_manifest_files = 1000

abbrev pub max_filename_utf8_bytes : ℕ
max_filename_utf8_bytes = 240

abbrev pub max_filename_extension_bytes : ℕ
max_filename_extension_bytes = 32

-- `unicode.IsControl`
abbrev pub is_control : ℕ → Bool
is_control r = ltb r 32 || (leb 127 r && leb r 159)

-- `strings.ContainsRune` of the nine characters: / \ < > : " | ? *
abbrev pub is_platform_invalid : ℕ → Bool
is_platform_invalid r =
    r == 47
    || (r == 92
        || (r == 60 || (r == 62 || (r == 58 || (r == 34 || (r == 124 || (r == 63 || r == 42)))))))

unfoldable pub forbidden_filename_rune : Unicode → ℕ → Bool
forbidden_filename_rune u r = is_platform_invalid r || (is_control r || u.is_format r)

unfoldable pub any_forbidden : Unicode → List Rune → Bool
unfolding forbidden_filename_rune
any_forbidden u [] = false
any_forbidden u (r ∷ rs) = forbidden_filename_rune u r.number || any_forbidden u rs

-- `strings.TrimRight(s, " .")`, on the reversed string and on the string.
unfoldable pub trim_left : Bytes → Bytes
trim_left [] = []
trim_left (c ∷ cs) = let rest = trim_left cs in if c == 32 || c == 46 then rest else c ∷ cs

unfoldable pub trim_right : Bytes → Bytes
trim_right s = reverse (trim_left (reverse s))

abbrev pub is_dots : Bytes → Bool
is_dots s = bytes_eq s (codes ".") || bytes_eq s (codes "..")

-- `filenameBlank(s) || s == "." || s == ".."`
abbrev pub is_blank_or_dots : Bytes → Bool
is_blank_or_dots s = is_blank s || is_dots s

unfoldable pub before_dot : Bytes → Bytes
before_dot [] = []
before_dot (c ∷ cs) = let rest = before_dot cs in if c == 46 then [] else c ∷ rest

-- `strings.ToUpper` as far as it can meet a reserved name: no other rune has one of the letters of
-- those names as its upper case.
unfoldable pub upper : Bytes → Bytes
upper [] = []
upper (c ∷ cs) = (if leb 97 c && leb c 122 then c - 32 else c) ∷ upper cs

unfoldable pub trim_spaces : Bytes → Bytes
trim_spaces [] = []
trim_spaces (c ∷ cs) = let rest = trim_spaces cs in if c == 32 then rest else c ∷ cs

-- What follows COM and LPT: a digit from 1 to 9, or one of the superscripts ¹ ² ³ in UTF-8.
abbrev pub is_port_number : Bytes → Bool
is_port_number (d ∷ []) = leb 49 d && leb d 57
is_port_number (c ∷ d ∷ []) = c == 0xc2 && (d == 0xb9 || (d == 0xb2 || d == 0xb3))
is_port_number _ = false

abbrev pub is_port : Bytes → Bool
is_port (a ∷ b ∷ c ∷ rest) =
    (bytes_eq (a ∷ b ∷ c ∷ []) (codes "COM") || bytes_eq (a ∷ b ∷ c ∷ []) (codes "LPT"))
    && is_port_number rest
is_port _ = false

abbrev pub is_reserved_stem : Bytes → Bool
is_reserved_stem s =
    bytes_eq s (codes "CON")
    || (bytes_eq s (codes "PRN")
        || (bytes_eq s (codes "AUX") || (bytes_eq s (codes "NUL") || is_port s)))

unfoldable pub reserved_windows_name : Bytes → Bool
reserved_windows_name name =
    is_reserved_stem (upper (reverse (trim_spaces (reverse (before_dot name)))))

-- Every ſ (U+017F, in UTF-8 0xc5 0xbf) as an s; the flag tells that 0xc5 came before.
abbrev unless_long_s : Bool → ℕ → Bytes
unless_long_s false c = if c == 0xc5 then [] else c ∷ []
unless_long_s true c = if c == 0xbf then 115 ∷ [] else 0xc5 ∷ c ∷ []

unfoldable pub plain_s : Bool → Bytes → Bytes
plain_s false [] = []
plain_s true [] = 0xc5 ∷ []
plain_s after (c ∷ cs) = unless_long_s after c ++ plain_s (not after && c == 0xc5) cs

unfoldable pub lower_ascii : Bytes → Bytes
lower_ascii [] = []
lower_ascii (c ∷ cs) = (if leb 65 c && leb c 90 then c + 32 else c) ∷ lower_ascii cs

-- `strings.EqualFold(name, ".droppoint-receipt.json")`: besides the ASCII letters only ſ folds to a
-- letter of that name.
unfoldable pub is_receipt_name : Bytes → Bool
is_receipt_name name = bytes_eq (lower_ascii (plain_s false name)) (codes ".droppoint-receipt.json")

unfoldable pub is_reserved : Bytes → Bool
is_reserved name = reserved_windows_name name || is_receipt_name name

-- The error of the first check that fails has no sentinel.
abbrev pub refuse_if : Bool → Result (Unit {0})
refuse_if bad = if bad then err invalid_argument else ok tt

unfoldable pub sanitize_filename : Unicode → Bytes → Result Bytes
sanitize_filename u name = do
  refuse_if (not (valid_string name))
  refuse_if (is_empty name)
  refuse_if (ltb max_filename_utf8_bytes (length name))
  refuse_if (not (u.is_nfc name))
  refuse_if (not (bytes_eq (trim_right name) name))
  refuse_if (is_blank_or_dots name)
  refuse_if (any_forbidden u (runes name))
  refuse_if (is_reserved name)
  ok name

-- `truncateUTF8`, on the reversed string; the bytes to be skipped belong to the last rune.
unfoldable pub truncate_reversed : ℕ → ℕ → Bytes → Bytes
truncate_reversed max skip [] = []
truncate_reversed max (suc skip) (b ∷ rev) = truncate_reversed max skip rev
truncate_reversed max zero (b ∷ rev) =
    let shorter = truncate_reversed max (last_rune_size (b ∷ rev) - 1) rev in
    if ltb max (length (b ∷ rev)) then shorter else b ∷ rev

unfoldable pub truncate_utf8 : Bytes → ℕ → Bytes
truncate_utf8 value max = reverse (truncate_reversed max 0 (reverse value))

-- The string up to its last dot and the rest, if a dot stands behind the first byte; on the reversed
-- string, with what was passed over.
unfoldable pub split_at_dot : Bytes → Bytes → Option (Bytes × Bytes)
split_at_dot after [] = none
split_at_dot after (c ∷ rev) =
    let further = split_at_dot (c ∷ after) rev in
    if c == 46 then (if is_empty rev then none else some (reverse rev, c ∷ after)) else further

abbrev pub stem_and_extension : Bytes → Option (Bytes × Bytes) → Bytes × Bytes
stem_and_extension base none = (base, [])
stem_and_extension base (some (stem, extension)) =
    if leb (length extension) max_filename_extension_bytes then (stem, extension) else (base, [])

abbrev pub or_file : Bytes → Bytes
or_file stem = if is_blank_or_dots stem then codes "file" else stem

-- The stem is cut to what the limit leaves; the extension goes where nothing is left. Go's `int`
-- difference is below 1 exactly where the difference on ℕ is 0.
abbrev pub fit_parts : Bytes → Bytes × Bytes → Bytes
fit_parts suffix (stem, extension) =
    if max_filename_utf8_bytes - length suffix - length extension == 0
    then or_file (trim_right (truncate_utf8 stem (max_filename_utf8_bytes - length suffix)))
      ++ suffix
    else or_file (
        trim_right
          (truncate_utf8 stem (max_filename_utf8_bytes - length suffix - length extension)))
      ++ suffix
      ++ extension

unfoldable pub fit_filename : Bytes → Bytes → Bytes
fit_filename base suffix =
    fit_parts suffix (stem_and_extension base (split_at_dot [] (reverse base)))

-- `WriteRune` of an invalid rune writes U+FFFD; NFC of a valid string is valid.
abbrev pub written : Rune → Bytes
written r = if r.valid then r.encoded else 0xef ∷ 0xbf ∷ 0xbd ∷ []

unfoldable pub replace_forbidden : Unicode → List Rune → Bytes
replace_forbidden u [] = []
replace_forbidden u (r ∷ rs) =
    (if forbidden_filename_rune u r.number then 95 ∷ [] else written r) ++ replace_forbidden u rs

abbrev pub unreserved : Bytes → Bytes
unreserved name = if is_reserved name then 95 ∷ name else name

unfoldable pub canonicalize_filename : Unicode → Bytes → Result Bytes
canonicalize_filename u name = do
  refuse_if (not (valid_string name))
  sanitize_filename u (
      fit_filename (unreserved (or_file (trim_right (replace_forbidden u (runes (u.nfc name))))))
        [])

unfoldable pub filename_collision_key : Unicode → Bytes → Bytes
filename_collision_key u name = u.to_lower (u.nfc name)
