-- ===== src/Store/Sql/Determined.antt =====
-- Methods that report a success only if every call of the driver did: what they did is then what
-- they do when no call fails. A transaction of one happens wholly or not at all.
use drop_point.Base.{
  ◌≡◌, refl, sym, ap, ◌∙◌, Bool, true, false, Option, none, some, List, [], ◌∷◌, ◌⊎◌, inl, inr,
  arith, if◌then◌else◌,
}
use drop_point.Errors.{Error, Result, ok, err, driver_failure}
use drop_point.Store.Rows.{Tables}
use drop_point.Store.Sql.{
  Conn, healthy, M, pure, fail, resume, ◌>>=◌, ◌>>◌, check, Statement, execute, exec, read,
  commit_or_undo, settle, transaction,
}

abbrev Same : {A : Type 0} → Result A × Conn → A → Result A × Conn → Type 0
Same whole a r = whole ≡ (ok a, healthy r.1.tables)

pub record Determined {A : Type 0} (m : M A) : Type 0 where
  pub holds : (c : Conn) (a : A) → (m c).0 ≡ ok a → Same (m (healthy c.tables)) a (m c)

execute-Same :
    {A : Type 0} (q : Statement A) (t : Tables) (fs : List Bool) (a : A)
    → (execute q t fs).0 ≡ ok a
    → Same (execute q t []) a (execute q t fs)
unfolding execute
execute-Same q t [] a h = ap (λ r. (r, healthy (q t).1)) h
execute-Same q t (true ∷ fs) a h = absurd (ground (arith, h))
execute-Same q t (false ∷ fs) a h = ap (λ r. (r, healthy (q t).1)) h

module _ {A : Type 0} where
  pub Determined-exec : (q : Statement A) → Determined (exec q)
  unfolding exec
  Determined-exec q = record { holds = λ c a h. execute-Same q c.tables c.faults a h }

  pub Determined-pure : (a : A) → Determined (pure a)
  unfolding pure
  Determined-pure a = record { holds = λ c b h. ap (λ r. (r, healthy c.tables)) h }

  pub Determined-fail : (e : Error) → Determined (fail {A = A} e)
  unfolding fail
  Determined-fail e = record { holds = λ c b h. absurd (ground (arith, h)) }

  pub Determined-if :
      (b : Bool) {m n : M A} → Determined m → Determined n → Determined (if b then m else n)
  Determined-if true h k = h
  Determined-if false h k = k

pub Determined-check : (e : Option Error) → Determined (check e)
unfolding check
Determined-check none = record { holds = λ c b h. ap (λ r. (r, healthy c.tables)) h }
Determined-check (some e) = record { holds = λ c b h. absurd (ground (arith, h)) }

resume-Same :
    {A B : Type 0} (f : A → M B) (whole : Result A × Conn) (r : Result A) (c : Conn) (b : B)
    → ((a : A) → r ≡ ok a → Same whole a (r, c))
    → ((a : A) → Determined (f a))
    → (resume (r, c) f).0 ≡ ok b
    → Same (resume whole f) b (resume (r, c) f)
unfolding resume
resume-Same f whole (ok a) c b h k e = ap (λ w. resume w f) (h a refl) ∙ (k a).holds c b e
resume-Same f whole (err x) c b h k e = absurd (ground (arith, e))

pub Determined-bind :
    {A B : Type 0} {m : M A} {f : A → M B}
    → Determined m
    → ((a : A) → Determined (f a))
    → Determined (m >>= f)
unfolding ◌>>=◌
Determined-bind {m = m} {f} h k = record {
  holds = λ c b e. resume-Same f (m (healthy c.tables)) (m c).0 (m c).1 b (h.holds c) k e;
}

-- The call reports an error and the tables are as they were; or the tables are what the call makes of
-- them when nothing fails, and it reports that success or a failure of the driver.
abbrev pub AllOrNothing : {A : Type 0} → M A → Conn → Type 0
AllOrNothing {A} m c =
    (((e : Error) × ((m c).0 ≡ err e)) × ((m c).1.tables ≡ c.tables))
    ⊎ ((a : A) × (((m c).0 ≡ ok a) ⊎ ((m c).0 ≡ err driver_failure))
        × (m (healthy c.tables) ≡ (ok a, healthy (m c).1.tables)))

abbrev Either : {A : Type 0} → Result A × Conn → A → Tables → Tables → Type 0
Either r a before behind =
    (((e : Error) × (r.0 ≡ err e)) × (r.1.tables ≡ before))
    ⊎ (((r.0 ≡ ok a) ⊎ (r.0 ≡ err driver_failure)) × (r.1.tables ≡ behind))

commit_or_undo-Either :
    {A : Type 0} (a : A) (before behind : Tables) (fs : List Bool)
    → Either (commit_or_undo a before behind fs) a before behind
unfolding commit_or_undo
commit_or_undo-Either a before behind [] = inr (inl refl, refl)
commit_or_undo-Either a before behind (false ∷ fs) = inr (inl refl, refl)
commit_or_undo-Either a before behind (true ∷ []) = inl ((driver_failure, refl), refl)
commit_or_undo-Either a before behind (true ∷ false ∷ fs) = inl ((driver_failure, refl), refl)
commit_or_undo-Either a before behind (true ∷ true ∷ fs) = inr (inr refl, refl)

abbrev Settles : {A : Type 0} → Result A × Conn → Result A × Conn → Tables → Type 0
Settles {A} r whole before =
    (((e : Error) × (r.0 ≡ err e)) × (r.1.tables ≡ before))
    ⊎ ((a : A) × ((r.0 ≡ ok a) ⊎ (r.0 ≡ err driver_failure)) × (whole ≡ (ok a, healthy r.1.tables)))

settle-Settles :
    {A : Type 0} (t : Tables) (whole : Result A × Conn) (r : Result A) (c : Conn)
    → ((a : A) → r ≡ ok a → Same whole a (r, c))
    → Settles (settle t (r, c)) (settle t whole) t
unfolding settle commit_or_undo
settle-Settles t whole (err e) c h = inl ((e, refl), refl)
settle-Settles t whole (ok a) c h = elim (commit_or_undo-Either a t c.tables c.faults) [
  | inl undone ↦ inl undone
  | inr (report, kept) ↦
      inr (a, report, ap (settle t) (h a refl) ∙ ap (λ u. (ok a, healthy u)) (sym kept))
]

pub transaction-AllOrNothing :
    {A : Type 0} {m : M A} → Determined m → (c : Conn) → AllOrNothing (transaction m) c
unfolding transaction
transaction-AllOrNothing {m = m} h c = settle-Settles c.tables _ _ _ (steps.holds c)
  where
    steps : Determined (do exec (read (λ _. ok tt)); m)
    steps = Determined-bind (Determined-exec _) (λ _. h)
