-- ===== src/Base/Utf8.antt =====
-- unicode/utf8 of Go's standard library: `for _, r := range s` on a string of any bytes, where a byte
-- that starts no rune counts as one invalid rune, and `DecodeLastRuneInString`.
use Prim.Native.Nat.{ℕ, zero, suc, ◌+◌, ◌-◌, ◌*◌}
use mathlib.Core.Bool.{Bool, true, false, not, ◌&&◌}
use mathlib.Core.List.{List, [], ◌∷◌}
use drop_point.Base.Tests.{leb, ltb, ◌==◌, if◌then◌else◌}
use drop_point.Base.Lists.{length}
use drop_point.Base.Text.{Bytes}

-- A rune's number, its bytes, and whether they encode it.
pub record Rune : Type 0 where
  pub number : ℕ
  pub encoded : Bytes
  pub valid : Bool

abbrev invalid_rune : ℕ → Rune
invalid_rune b = record { number = 65533; encoded = b ∷ []; valid = false }

abbrev within : ℕ → ℕ → ℕ → Bool
within lo hi b = leb lo b && leb b hi

abbrev continues : ℕ → Bool
continues b = within 128 191 b

-- The ranges of the second byte of three- and four-byte encodings.
abbrev second_of_three : ℕ → ℕ → Bool
second_of_three b c = within (if b == 0xe0 then 0xa0 else 128) (if b == 0xed then 0x9f else 191) c

abbrev second_of_four : ℕ → ℕ → Bool
second_of_four b c = within (if b == 0xf0 then 0x90 else 128) (if b == 0xf4 then 0x8f else 191) c

abbrev rune_of : ℕ → Bytes → Rune
rune_of number encoded = record { number = number; encoded = encoded; valid = true }

two_bytes : ℕ → Bytes → Rune
two_bytes b (c ∷ r) =
    if continues c then rune_of ((b - 192) * 64 + (c - 128)) (b ∷ c ∷ []) else invalid_rune b
two_bytes b _ = invalid_rune b

three_bytes : ℕ → Bytes → Rune
three_bytes b (c ∷ d ∷ r) =
    if second_of_three b c && continues d
    then rune_of ((b - 224) * 4096 + (c - 128) * 64 + (d - 128)) (b ∷ c ∷ d ∷ [])
    else invalid_rune b
three_bytes b _ = invalid_rune b

four_bytes : ℕ → Bytes → Rune
four_bytes b (c ∷ d ∷ e ∷ r) =
    if second_of_four b c && (continues d && continues e)
    then rune_of ((b - 240) * 262144 + (c - 128) * 4096 + (d - 128) * 64 + (e - 128))
        (b ∷ c ∷ d ∷ e ∷ [])
    else invalid_rune b
four_bytes b _ = invalid_rune b

-- The rune at the head of `b ∷ rest`.
pub first_rune : ℕ → Bytes → Rune
unfolding two_bytes three_bytes four_bytes
first_rune b rest =
    if ltb b 128
    then rune_of b (b ∷ [])
    else if within 0xc2 0xdf b
    then two_bytes b rest
    else if within 0xe0 0xef b
    then three_bytes b rest
    else if within 0xf0 0xf4 b
    then four_bytes b rest
    else invalid_rune b

-- The bytes still to be skipped belong to the last rune.
runes_behind : ℕ → Bytes → List Rune
unfolding first_rune
runes_behind skip [] = []
runes_behind (suc skip) (b ∷ bs) = runes_behind skip bs
runes_behind zero (b ∷ bs) =
    first_rune b bs ∷ runes_behind (length (first_rune b bs).encoded - 1) bs

unfoldable pub runes : Bytes → List Rune
unfolding runes_behind
runes s = runes_behind 0 s

all_valid : List Rune → Bool
all_valid [] = true
all_valid (r ∷ rs) = r.valid && all_valid rs

-- `utf8.ValidString`
unfoldable pub valid_string : Bytes → Bool
unfolding all_valid runes
valid_string s = all_valid (runes s)

-- `utf8.RuneStart`
abbrev starts_rune : ℕ → Bool
starts_rune b = not (continues b)

-- Looks back at most four bytes of the reversed string for a byte that starts a rune.
look_back : ℕ → Bytes → Bytes → ℕ
unfolding first_rune
look_back zero tail rev = 1
look_back (suc n) tail [] = 1
look_back (suc n) tail (b ∷ rev) =
    let further = look_back n (b ∷ tail) rev in
    if starts_rune b
    then (if length (first_rune b tail).encoded == suc (length tail) then suc (length tail) else 1)
    else further

-- The size of the last rune, of the reversed string.
unfoldable pub last_rune_size : Bytes → ℕ
unfolding look_back
last_rune_size rev = look_back 4 [] rev
