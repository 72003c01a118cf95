-- ===== src/Base/Text.antt =====
-- Go strings as lists of bytes: literals, equality, prefixes, and the test `strings.TrimSpace(s) == ""`.
use Prim.Native.Nat.{ℕ}
use Prim.Native.Char.{code}
use Prim.Native.String.{String}
use mathlib.Core.Path.{◌≡◌, refl}
use mathlib.Core.Logic.{◌↔◌}
use mathlib.Core.Bool.{Bool, true, false, ◌&&◌, ◌||◌}
use mathlib.Core.List.{List, [], ◌∷◌}
use mathlib.Core.Option.{Option, none, some}
use native.Mathlib.Omega.{arith}
use drop_point.Base.Tests.{leb, ◌==◌, if◌then◌else◌}

abbrev pub Bytes : Type 0
Bytes = List ℕ

-- The bytes of an ASCII literal.
abbrev pub codes : String → Bytes
codes String.[] = []
codes (String.◌∷◌ c s) = code c ∷ codes s

unfoldable pub bytes_eq : Bytes → Bytes → Bool
bytes_eq [] [] = true
bytes_eq (x ∷ xs) (y ∷ ys) = (x == y) && bytes_eq xs ys
bytes_eq _ _ = false

pub bytes_eq→eq : (s t : Bytes) → bytes_eq s t ≡ true → s ≡ t
unfolding bytes_eq
bytes_eq→eq [] [] h = refl
bytes_eq→eq [] (y ∷ ys) h = cc
bytes_eq→eq (x ∷ xs) [] h = cc
bytes_eq→eq (x ∷ xs) (y ∷ ys) h = ground (arith, bytes_eq→eq xs ys)

pub bytes_eq_refl : (s : Bytes) → bytes_eq s s ≡ true
unfolding bytes_eq
bytes_eq_refl [] = refl
bytes_eq_refl (x ∷ xs) = ground (arith, bytes_eq_refl xs)

pub bytes_eq_iff : (s t : Bytes) → (bytes_eq s t ≡ true) ↔ (s ≡ t)
bytes_eq_iff s t = (bytes_eq→eq s t, λ e. rw e (bytes_eq_refl t))

-- `strings.HasPrefix` and `strings.TrimPrefix` in one: the rest behind the prefix.
unfoldable pub strip_prefix : Bytes → Bytes → Option Bytes
strip_prefix [] s = some s
strip_prefix (p ∷ ps) [] = none
strip_prefix (p ∷ ps) (c ∷ cs) = if p == c then strip_prefix ps cs else none

abbrev pub is_empty : Bytes → Bool
is_empty [] = true
is_empty _ = false

-- The UTF-8 encodings of the runes for which `unicode.IsSpace` holds, read byte by byte.
pub data SpaceState : Type 0 where
  between c2 e1 e1_9a e2 e2_80 e2_81 e3 e3_80 other : SpaceState

first_byte : ℕ → SpaceState
first_byte b =
    if (leb 9 b && leb b 13) || b == 32
    then between
    else if b == 0xc2
    then c2
    else if b == 0xe1
    then e1
    else if b == 0xe2
    then e2
    else if b == 0xe3
    then e3
    else other

next_byte : SpaceState → ℕ → SpaceState
unfolding first_byte
next_byte between b = first_byte b
next_byte c2 b = if b == 0x85 || b == 0xa0 then between else other
next_byte e1 b = if b == 0x9a then e1_9a else other
next_byte e1_9a b = if b == 0x80 then between else other
next_byte e2 b = if b == 0x80 then e2_80 else if b == 0x81 then e2_81 else other
next_byte e2_80 b =
    if (leb 0x80 b && leb b 0x8a) || b == 0xa8 || b == 0xa9 || b == 0xaf then between else other
next_byte e2_81 b = if b == 0x9f then between else other
next_byte e3 b = if b == 0x80 then e3_80 else other
next_byte e3_80 b = if b == 0x80 then between else other
next_byte other b = other

abbrev at_rune_end : SpaceState → Bool
at_rune_end between = true
at_rune_end _ = false

blank_from : SpaceState → Bytes → Bool
unfolding next_byte
blank_from s [] = at_rune_end s
blank_from s (b ∷ bs) = blank_from (next_byte s b) bs

-- `strings.TrimSpace(s) == ""`: every rune of the string is a space.
unfoldable pub is_blank : Bytes → Bool
unfolding blank_from
is_blank s = blank_from between s
