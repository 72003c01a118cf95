-- ===== src/Store/Table/Keys.antt =====
-- Tables whose rows have distinct keys. `same r s` tests whether two rows have the same key.
use drop_point.Base.{
  ◌==◌, ◌≡◌, ◌≢◌, ◌&&◌, refl, sym, ◌∙◌, inl, inr, Bool, true, false, none, some, List, [], ◌∷◌, All,
  arith, Bool-cases, if◌then◌else◌,
}
use drop_point.Store.Table.{find_row, update_rows, delete_rows, count_rows}
use drop_point.Store.Table.Update.{count-update, count-delete_le, count_zero, All-mono}

module _ {A : Type 0} (same : A → A → Bool) where
  abbrev pub Distinct : List A → Type 0
  Distinct [] = Unit {0}
  Distinct (r ∷ rs) = (count_rows (same r) rs ≡ 0) × Distinct rs

  pub Distinct-update :
      (p : A → Bool) (f : A → A) (rows : List A)
      → ((r s : A) → same (f r) s ≡ same r s)
      → ((r s : A) → same r (f s) ≡ same r s)
      → Distinct rows
      → Distinct (update_rows p f rows)
  unfolding update_rows
  Distinct-update p f [] left right h = tt
  Distinct-update p f (r ∷ rs) left right h = (head, Distinct-update p f rs left right h.1)
    where
      kept : count_rows (same r) (update_rows p f rs) ≡ 0
      kept = count-update (same r) p f rs (λ s _. right r s) ∙ h.0

      head : count_rows (same (if p r then f r else r)) (update_rows p f rs) ≡ 0
      head = elim (Bool-cases (p r)) [
        | inl e ↦ rw e (count_zero (same r) (same (f r)) _ (λ s t. sym (left r s) ∙ t) kept)
        | inr e ↦ rw e kept
      ]

  pub Distinct-delete :
      (p : A → Bool) (rows : List A) → Distinct rows → Distinct (delete_rows p rows)
  unfolding delete_rows
  Distinct-delete p [] h = tt
  Distinct-delete p (r ∷ rs) h = elim (Bool-cases (p r)) [
    | inl e ↦ rw e (Distinct-delete p rs h.1)
    | inr e ↦ rw e (omega (arith, h.0, count-delete_le (same r) p rs), Distinct-delete p rs h.1)
  ]

pub count_zero→All :
    {A : Type 0} (p : A → Bool) (rows : List A)
    → count_rows p rows ≡ 0
    → All (λ r. p r ≡ false) rows
unfolding count_rows
count_zero→All p [] h = tt
count_zero→All p (r ∷ rs) h = elim (Bool-cases (p r)) [
  | inl e ↦ absurd (ground (arith, e, h))
  | inr e ↦ (e, count_zero→All p rs (ground arith))
]

pub All→count_zero :
    {A : Type 0} (p : A → Bool) (rows : List A)
    → All (λ r. p r ≡ false) rows
    → count_rows p rows ≡ 0
unfolding count_rows
All→count_zero p [] h = refl
All→count_zero p (r ∷ rs) h = rw h.0 (All→count_zero p rs h.1)

-- A test `k` that all rows of one key pass alone.
module _ {A : Type 0} (same : A → A → Bool) (k : A → Bool)
    (alike : (r s : A) → k r ≡ true → k s ≡ true → same r s ≡ true) where
  others :
      (r : A) (rs : List A) → k r ≡ true → count_rows (same r) rs ≡ 0 → All (λ s. k s ≡ false) rs
  others r rs e h = count_zero→All k rs (count_zero (same r) k rs (λ s ks. alike r s e ks) h)

  pub found_only :
      (rows : List A) (a : A)
      → Distinct same rows
      → find_row k rows ≡ some a
      → All (λ s. k s ≡ true → s ≡ a) rows
  unfolding find_row
  found_only [] a d h = tt
  found_only (r ∷ rs) a d h = elim (Bool-cases (k r)) [
    | inl e ↦ (λ _. ground arith, All-mono rs (λ s f t. absurd (cc (f, t))) (others r rs e d.0))
    | inr e ↦ (λ t. absurd (cc (e, t)), found_only rs a d.1 (rw e at h))
  ]

  -- Where one row passes a further test, every row of the key does.
  pub exists_only :
      (q : A → Bool) (rows : List A)
      → ((r : A) → q r ≡ true → k r ≡ true)
      → Distinct same rows
      → count_rows q rows ≢ 0
      → All (λ s. k s ≡ true → q s ≡ true) rows
  unfolding count_rows
  exists_only q [] key d h = tt
  exists_only q (r ∷ rs) key d h = elim (Bool-cases (q r)) [
    | inl e ↦ (λ _. e, All-mono rs (λ s f t. absurd (cc (f, t))) (others r rs (key r e) d.0))
    | inr e ↦
        let there : count_rows q rs ≢ 0 = rw e at h in
        (
          λ t. absurd (there (count_zero k q rs key (All→count_zero k rs (others r rs t d.0)))),
          exists_only q rs key d.1 there,
        )
  ]

  -- The rows affected by a statement on one key.
  pub count_found :
      (q : A → Bool) (rows : List A) (a : A)
      → Distinct same rows
      → find_row k rows ≡ some a
      → count_rows (λ s. k s && q s) rows ≡ (if q a then 1 else 0)
  unfolding find_row count_rows
  count_found q [] a d h = cc
  count_found q (r ∷ rs) a d h = elim (Bool-cases (k r)) [
    | inl e ↦
        let none' : count_rows (λ s. k s && q s) rs ≡ 0 =
          All→count_zero _ rs (All-mono rs (λ s f. rw f) (others r rs e d.0)) in
        let same' : r ≡ a = ground arith in rw (e, none', same')
    | inr e ↦ rw e (count_found q rs a d.1 (rw e at h))
  ]

module _ {A : Type 0} (k : A → Bool) where
  pub count_missing :
      (q : A → Bool) (rows : List A)
      → find_row k rows ≡ none
      → count_rows (λ s. k s && q s) rows ≡ 0
  unfolding find_row count_rows
  count_missing q [] h = refl
  count_missing q (r ∷ rs) h = ground (arith, count_missing q rs)

  -- A key found before an update on it is found after it, changed if it passed the test.
  pub find-update_self :
      (q : A → Bool) (f : A → A) (rows : List A) (a : A)
      → ((s : A) → k (f s) ≡ k s)
      → find_row k rows ≡ some a
      → find_row k (update_rows (λ s. k s && q s) f rows) ≡ some (if q a then f a else a)
  unfolding find_row update_rows
  find-update_self q f [] a keep h = cc
  find-update_self q f (r ∷ rs) a keep h = elim (Bool-cases (k r)) [
    | inl e ↦ ground (arith, keep r)
    | inr e ↦ rw e (rw e (find-update_self q f rs a keep (rw e at h)))
  ]

  pub find-update_other :
      (p : A → Bool) (f : A → A) (rows : List A)
      → ((s : A) → p s ≡ true → (k s ≡ false) × (k (f s) ≡ false))
      → find_row k (update_rows p f rows) ≡ find_row k rows
  unfolding find_row update_rows
  find-update_other p f [] apart = refl
  find-update_other p f (r ∷ rs) apart = ground (arith, apart r, find-update_other p f rs apart)

  pub count_absent : (rows : List A) → find_row k rows ≡ none → count_rows k rows ≡ 0
  unfolding find_row count_rows
  count_absent [] h = refl
  count_absent (r ∷ rs) h = ground (arith, count_absent rs)

  pub count_present :
      (rows : List A) (a : A) → find_row k rows ≡ some a → (count_rows k rows == 0) ≡ false
  unfolding find_row count_rows
  count_present [] a h = cc
  count_present (r ∷ rs) a h = ground (arith, count_present rs a)
