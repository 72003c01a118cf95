-- ===== src/Store/Table/Update.antt =====
-- How updates, deletions and insertions change the counts, sums and predicates of a table.
use drop_point.Base.{
  ◌+◌, ◌≤◌, ◌≡◌, refl, inl, inr, Bool, true, false, List, [], ◌∷◌, All, arith, ℤ, pos, ◌+ℤ◌, ◌≤ℤ◌,
  int_laws, Bool-cases,
}
use drop_point.Store.Table.{select_rows, update_rows, delete_rows, count_rows, sum_rows}

module _ {A : Type 0} where
  pub All-mono {κ λ'} :
      {P : A → Type κ} {Q : A → Type λ'} (rows : List A)
      → ((r : A) → P r → Q r)
      → All P rows
      → All Q rows
  All-mono [] imp h = tt
  All-mono (r ∷ rs) imp h = (imp r h.0, All-mono rs imp h.1)

  pub All-zip {κ λ' μ} :
      {P : A → Type κ} {Q : A → Type λ'} {R : A → Type μ} (rows : List A)
      → ((r : A) → P r → Q r → R r)
      → All P rows
      → All Q rows
      → All R rows
  All-zip [] imp h k = tt
  All-zip (r ∷ rs) imp h k = (imp r h.0 k.0, All-zip rs imp h.1 k.1)

  pub All-update {κ} :
      {P : A → Type κ} (p : A → Bool) (f : A → A) (rows : List A)
      → ((r : A) → p r ≡ true → P r → P (f r))
      → All P rows
      → All P (update_rows p f rows)
  unfolding update_rows
  All-update p f [] keep h = tt
  All-update {P} p f (r ∷ rs) keep h = elim (Bool-cases (p r)) [
    | inl e ↦ rw e (keep r e h.0, All-update p f rs keep h.1)
    | inr e ↦ rw e (h.0, All-update p f rs keep h.1)
  ]

  pub All-delete {κ} :
      (P : A → Type κ) (p : A → Bool) (rows : List A) → All P rows → All P (delete_rows p rows)
  unfolding delete_rows
  All-delete P p [] h = tt
  All-delete P p (r ∷ rs) h = elim (Bool-cases (p r)) [
    | inl e ↦ rw e (All-delete P p rs h.1)
    | inr e ↦ rw e (h.0, All-delete P p rs h.1)
  ]

  -- What survives a deletion failed its test.
  pub All-delete_self : (p : A → Bool) (rows : List A) → All (λ r. p r ≡ false) (delete_rows p rows)
  unfolding delete_rows
  All-delete_self p [] = tt
  All-delete_self p (r ∷ rs) = elim (Bool-cases (p r)) [
    | inl e ↦ rw e (All-delete_self p rs)
    | inr e ↦ rw e (e, All-delete_self p rs)
  ]

  pub count-update :
      (q p : A → Bool) (f : A → A) (rows : List A)
      → ((r : A) → p r ≡ true → q (f r) ≡ q r)
      → count_rows q (update_rows p f rows) ≡ count_rows q rows
  unfolding count_rows update_rows
  count-update q p f [] keep = refl
  count-update q p f (r ∷ rs) keep = ground (arith, keep r, count-update q p f rs keep)

  pub count-update_le :
      (q p : A → Bool) (f : A → A) (rows : List A)
      → ((r : A) → p r ≡ true → q (f r) ≡ true → q r ≡ true)
      → count_rows q (update_rows p f rows) ≤ count_rows q rows
  unfolding count_rows update_rows
  count-update_le q p f [] keep = omega arith
  count-update_le q p f (r ∷ rs) keep = ground (arith, keep r, count-update_le q p f rs keep)

  pub count-delete_le :
      (q p : A → Bool) (rows : List A) → count_rows q (delete_rows p rows) ≤ count_rows q rows
  unfolding count_rows delete_rows
  count-delete_le q p [] = omega arith
  count-delete_le q p (r ∷ rs) = ground (arith, count-delete_le q p rs)

  pub count-select-delete :
      (q p : A → Bool) (rows : List A)
      → count_rows q (select_rows p rows) + count_rows q (delete_rows p rows) ≡ count_rows q rows
  unfolding count_rows select_rows delete_rows
  count-select-delete q p [] = omega arith
  count-select-delete q p (r ∷ rs) = ground (arith, count-select-delete q p rs)

  pub count_zero :
      (p q : A → Bool) (rows : List A)
      → ((r : A) → q r ≡ true → p r ≡ true)
      → count_rows p rows ≡ 0
      → count_rows q rows ≡ 0
  unfolding count_rows
  count_zero p q [] imp h = refl
  count_zero p q (r ∷ rs) imp h = ground (arith, imp r, count_zero p q rs imp)

  pub update-none :
      (p : A → Bool) (f : A → A) (rows : List A)
      → count_rows p rows ≡ 0
      → update_rows p f rows ≡ rows
  unfolding count_rows update_rows
  update-none p f [] h = refl
  update-none p f (r ∷ rs) h = ground (arith, update-none p f rs)

  pub sum-update_le :
      (w : A → ℤ) (p : A → Bool) (f : A → A) (rows : List A)
      → All (λ r. p r ≡ true → w (f r) ≤ℤ w r) rows
      → sum_rows w (update_rows p f rows) ≤ℤ sum_rows w rows
  unfolding sum_rows update_rows
  sum-update_le w p f [] keep = omega int_laws
  sum-update_le w p f (r ∷ rs) keep = elim (Bool-cases (p r)) [
    | inl e ↦ rw e (omega (int_laws, keep.0 e, sum-update_le w p f rs keep.1))
    | inr e ↦ rw e (omega (int_laws, sum-update_le w p f rs keep.1))
  ]

  -- An update of one row raises a sum by what it adds to that row's weight at most.
  pub sum-update_one :
      (w : A → ℤ) (d : ℤ) (p : A → Bool) (f : A → A) (rows : List A)
      → pos 0 ≤ℤ d
      → count_rows p rows ≤ 1
      → ((r : A) → p r ≡ true → w (f r) ≤ℤ w r +ℤ d)
      → sum_rows w (update_rows p f rows) ≤ℤ sum_rows w rows +ℤ d
  unfolding sum_rows update_rows count_rows
  sum-update_one w d p f [] nonneg one raise = omega int_laws
  sum-update_one w d p f (r ∷ rs) nonneg one raise = elim (Bool-cases (p r)) [
    | inl e ↦
        let none' : count_rows p rs ≡ 0 = ground arith in
        rw (e, update-none p f rs none') (omega (int_laws, raise r e))
    | inr e ↦
        let one' : count_rows p rs ≤ 1 = ground arith in
        rw e (omega (int_laws, sum-update_one w d p f rs nonneg one' raise))
  ]

  pub sum-delete_le :
      (w : A → ℤ) (p : A → Bool) (rows : List A)
      → All (λ r. pos 0 ≤ℤ w r) rows
      → sum_rows w (delete_rows p rows) ≤ℤ sum_rows w rows
  unfolding sum_rows delete_rows
  sum-delete_le w p [] h = omega int_laws
  sum-delete_le w p (r ∷ rs) h = elim (Bool-cases (p r)) [
    | inl e ↦ rw e (omega (int_laws, h.0, sum-delete_le w p rs h.1))
    | inr e ↦ rw e (omega (int_laws, sum-delete_le w p rs h.1))
  ]

  pub sum_zero : (w : A → ℤ) (rows : List A) → All (λ r. w r ≡ pos 0) rows → sum_rows w rows ≡ pos 0
  unfolding sum_rows
  sum_zero w [] h = refl
  sum_zero w (r ∷ rs) h = rw (h.0, sum_zero w rs h.1) (omega int_laws)
