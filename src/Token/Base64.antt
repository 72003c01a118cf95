-- ===== src/Token/Base64.antt =====
-- `base64.RawURLEncoding` of Go's standard library, which internal/token and internal/cryptoenv use:
-- the URL alphabet without padding. The decoder skips carriage returns and line feeds, and in strict
-- mode it refuses trailing bits that are not 0.
use drop_point.Base.{
  ℕ, ◌+◌, ◌-◌, ◌*◌, ◌/◌, ◌%◌, Bool, not, ◌&&◌, ◌||◌, Option, none, some, List, [], ◌∷◌, Bytes, leb,
  ◌==◌, if◌then◌else◌,
}

unfoldable pub char_of : ℕ → ℕ
char_of v =
    if leb v 25
    then 65 + v
    else if leb v 51
    then 71 + v
    else if leb v 61
    then v - 4
    else if v == 62
    then 45
    else 95

unfoldable pub value_of : ℕ → Option ℕ
value_of c =
    if leb 65 c && leb c 90
    then some (c - 65)
    else if leb 97 c && leb c 122
    then some (c - 71)
    else if leb 48 c && leb c 57
    then some (c + 4)
    else if c == 45
    then some 62
    else if c == 95
    then some 63
    else none

unfoldable pub encode : Bytes → Bytes
encode [] = []
encode (x ∷ []) = char_of (x / 4) ∷ char_of (x % 4 * 16) ∷ []
encode (x ∷ y ∷ []) = char_of (x / 4) ∷ char_of (x % 4 * 16 + y / 16) ∷ char_of (y % 16 * 4) ∷ []
encode (x ∷ y ∷ z ∷ r) =
    char_of (x / 4)
    ∷ char_of (x % 4 * 16 + y / 16)
    ∷ char_of (y % 16 * 4 + z / 64)
    ∷ char_of (z % 64)
    ∷ encode r

unfoldable pub push : Option ℕ → Option (List ℕ) → Option (List ℕ)
push (some v) (some vs) = some (v ∷ vs)
push _ _ = none

-- The six-bit values of the characters, line ends left out; `none` at a character of no value.
unfoldable pub values : Bytes → Option (List ℕ)
unfolding push
values [] = some []
values (c ∷ cs) =
    let rest = values cs in if c == 13 || c == 10 then rest else push (value_of c) rest

unfoldable pub assemble : Bool → List ℕ → Option Bytes
unfolding push
assemble strict [] = some []
assemble strict (a ∷ []) = none
assemble strict (a ∷ b ∷ []) =
    if strict && not (b % 16 == 0) then none else some ((a * 4 + b / 16) ∷ [])
assemble strict (a ∷ b ∷ c ∷ []) =
    if strict && not (c % 4 == 0)
    then none
    else some ((a * 4 + b / 16) ∷ (b % 16 * 16 + c / 4) ∷ [])
assemble strict (a ∷ b ∷ c ∷ d ∷ r) =
    push (some (a * 4 + b / 16))
      (push (some (b % 16 * 16 + c / 4)) (push (some (c % 4 * 64 + d)) (assemble strict r)))

unfoldable pub assemble_values : Bool → Option (List ℕ) → Option Bytes
assemble_values strict none = none
assemble_values strict (some vs) = assemble strict vs

unfoldable pub decode : Bool → Bytes → Option Bytes
unfolding values assemble assemble_values
decode strict s = assemble_values strict (values s)
