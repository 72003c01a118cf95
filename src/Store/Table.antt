-- ===== src/Store/Table.antt =====
-- What the queries of internal/store do to one table, kept as a list of rows: `WHERE` is a test on
-- rows, `UPDATE`, `DELETE`, `count(*)` and `sum` are recursions, `ORDER BY` is a stable sort.
pub mod Update
pub mod Keys
use drop_point.Base.{
  ℕ, suc, Bool, true, false, Option, none, some, List, [], ◌∷◌, ℤ, pos, ◌+ℤ◌, Bytes, ltb, ◌==◌,
  if◌then◌else◌,
}

module _ {A : Type 0} where
  -- `SELECT ... WHERE key = ?`: the first row that fits.
  unfoldable pub find_row : (A → Bool) → List A → Option A
  find_row p [] = none
  find_row p (r ∷ rs) = if p r then some r else find_row p rs

  unfoldable pub select_rows : (A → Bool) → List A → List A
  select_rows p [] = []
  select_rows p (r ∷ rs) = let rest = select_rows p rs in if p r then r ∷ rest else rest

  unfoldable pub update_rows : (A → Bool) → (A → A) → List A → List A
  update_rows p f [] = []
  update_rows p f (r ∷ rs) = (if p r then f r else r) ∷ update_rows p f rs

  unfoldable pub delete_rows : (A → Bool) → List A → List A
  delete_rows p [] = []
  delete_rows p (r ∷ rs) = let rest = delete_rows p rs in if p r then rest else r ∷ rest

  -- `count(*)`, and the rows that an `UPDATE` or `DELETE` affects.
  unfoldable pub count_rows : (A → Bool) → List A → ℕ
  count_rows p [] = 0
  count_rows p (r ∷ rs) = let rest = count_rows p rs in if p r then suc rest else rest

  unfoldable pub sum_rows : (A → ℤ) → List A → ℤ
  sum_rows w [] = pos 0
  sum_rows w (r ∷ rs) = w r +ℤ sum_rows w rs

  -- `ORDER BY`, with the order as a test "does not come after".
  unfoldable pub insert_row : (A → A → Bool) → A → List A → List A
  insert_row le a [] = a ∷ []
  insert_row le a (r ∷ rs) =
      let rest = insert_row le a rs in if le a r then a ∷ r ∷ rs else r ∷ rest

  unfoldable pub order_by : (A → A → Bool) → List A → List A
  unfolding insert_row
  order_by le [] = []
  order_by le (r ∷ rs) = insert_row le r (order_by le rs)

-- SQLite compares TEXT values byte by byte.
unfoldable pub text_le : Bytes → Bytes → Bool
text_le [] t = true
text_le (x ∷ xs) [] = false
text_le (x ∷ xs) (y ∷ ys) =
    let rest = text_le xs ys in if ltb x y then true else if x == y then rest else false

-- Order on a first key, then on a second.
abbrev pub then_by : Bool → Bool → Bool → Bool
then_by le ge next = if le then if ge then next else true else false
