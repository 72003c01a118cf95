-- ===== src/Crypto/Tests/Names.antt =====
-- Names that collide, and their canonical forms.
use drop_point.Base.{
  ◌≡◌, refl, true, false, List, [], ◌∷◌, Bytes, codes, length, arith, runes, valid_string,
  last_rune_size, is_blank, bytes_eq,
}
use drop_point.Errors.{ok}
use drop_point.Crypto.Names.{
  Unicode, forbidden_filename_rune, any_forbidden, trim_left, trim_right, before_dot, upper,
  trim_spaces, reserved_windows_name, plain_s, lower_ascii, is_receipt_name, is_reserved,
  sanitize_filename, truncate_reversed, truncate_utf8, split_at_dot, fit_filename,
  replace_forbidden, canonicalize_filename,
}
use drop_point.Crypto.Names.Collisions.{canonicalize_filenames}
use drop_point.Crypto.Names.Collisions.Numbers.{UnicodeLaws, IsLocal}
use drop_point.Crypto.Names.Collisions.Distinct.{Apart, canonicalize_filenames-Apart}

-- Tables on which every string is normal and in lower case.
abbrev pub plain : Unicode
plain = record { nfc = λ s. s; is_nfc = λ s. true; to_lower = λ s. s; is_format = λ r. false }

same-IsLocal : IsLocal (λ s. s)
same-IsLocal = record {
  split_opening = λ a b. refl;
  split_closing = λ a b. refl;
  keeps_digits = λ ds h. refl;
}

plain_laws : UnicodeLaws plain
plain_laws = record { nfc = same-IsLocal; to_lower = same-IsLocal }

abbrev twice : List Bytes
twice = codes "a.b" ∷ codes "a.b" ∷ []

pub made : canonicalize_filename plain (codes "a.b") ≡ ok (codes "a.b")
unfolding canonicalize_filename runes valid_string replace_forbidden forbidden_filename_rune
    trim_right trim_left is_blank is_reserved reserved_windows_name upper before_dot trim_spaces
    is_receipt_name lower_ascii plain_s fit_filename split_at_dot truncate_utf8 truncate_reversed
    last_rune_size sanitize_filename any_forbidden bytes_eq
made = refl

canonicalize_filenames-Apart_example :
    (out : List Bytes) × (canonicalize_filenames plain twice ≡ ok out)
    × (length out ≡ 2)
    × Apart plain [] out
canonicalize_filenames-Apart_example =
    canonicalize_filenames-Apart plain plain_laws twice (omega arith)
      ((codes "a.b", made), ((codes "a.b", made), tt))
