-- ===== src/Store/Sql/Hoare.antt =====
-- Postconditions of the monad `M` of Store/Sql, whatever calls of the driver fail.
use drop_point.Base.{
  ◌≡◌, refl, subst, Bool, true, false, Option, none, some, List, [], ◌∷◌, if◌then◌else◌,
}
use drop_point.Errors.{Error, Result, ok, err}
use drop_point.Store.Rows.{Tables}
use drop_point.Store.Sql.{
  Conn, M, pure, fail, resume, ◌>>=◌, ◌>>◌, attempt, check, Statement, execute, exec, read,
  commit_or_undo, settle, transaction,
}

-- `Q a t` holds after the value `a`, and `E t` after an error.
abbrev pub Post :
    {A : Type 0} → (A → Tables → Type 0) → (Tables → Type 0) → Result A → Tables → Type 0
Post Q E (ok a) t = Q a t
Post Q E (err e) t = E t

pub record Triple {A : Type 0} (P : Tables → Type 0) (m : M A) (Q : A → Tables → Type 0)
    (E : Tables → Type 0) : Type 0 where
  pub holds : (c : Conn) → P c.tables → Post Q E (m c).0 (m c).1.tables

-- The tables keep a property, whatever happens.
abbrev pub Keeps : {A : Type 0} → (Tables → Type 0) → M A → Type 0
Keeps P m = Triple P m (λ _. P) P

execute-Post :
    {A : Type 0} (Q : A → Tables → Type 0) (E : Tables → Type 0) (q : Statement A) (t : Tables)
    (fs : List Bool)
    → Post Q E (q t).0 (q t).1
    → E t
    → Post Q E (execute q t fs).0 (execute q t fs).1.tables
unfolding execute
execute-Post Q E q t [] h e = h
execute-Post Q E q t (true ∷ fs) h e = e
execute-Post Q E q t (false ∷ fs) h e = h

module _ {A : Type 0} {P E : Tables → Type 0} {Q : A → Tables → Type 0} where
  pub Triple-pure : (a : A) → ((t : Tables) → P t → Q a t) → Triple P (pure a) Q E
  unfolding pure
  Triple-pure a h = record { holds = λ c p. h c.tables p }

  pub Triple-fail : (e : Error) → ((t : Tables) → P t → E t) → Triple P (fail e) Q E
  unfolding fail
  Triple-fail e h = record { holds = λ c p. h c.tables p }

  pub Triple-if :
      (b : Bool) {m n : M A}
      → (b ≡ true → Triple P m Q E)
      → (b ≡ false → Triple P n Q E)
      → Triple P (if b then m else n) Q E
  Triple-if true h k = h refl
  Triple-if false h k = k refl

  pub Triple-exec :
      (q : Statement A)
      → ((t : Tables) → P t → Post Q E (q t).0 (q t).1)
      → ((t : Tables) → P t → E t)
      → Triple P (exec q) Q E
  unfolding exec
  Triple-exec q h e = record {
    holds = λ c p. execute-Post Q E q c.tables c.faults (h c.tables p) (e c.tables p);
  }

resume-Post :
    {A B : Type 0} (Q : A → Tables → Type 0) (E : Tables → Type 0) (R : B → Tables → Type 0)
    (r : Result A) (c : Conn) (f : A → M B)
    → Post Q E r c.tables
    → ((a : A) → Triple (Q a) (f a) R E)
    → Post R E (resume (r, c) f).0 (resume (r, c) f).1.tables
unfolding resume
resume-Post Q E R (ok a) c f h k = (k a).holds c h
resume-Post Q E R (err e) c f h k = h

pub Triple-bind :
    {A B : Type 0} {P E : Tables → Type 0} (Q : A → Tables → Type 0) {R : B → Tables → Type 0}
    {m : M A} {f : A → M B}
    → Triple P m Q E
    → ((a : A) → Triple (Q a) (f a) R E)
    → Triple P (m >>= f) R E
unfolding ◌>>=◌
Triple-bind {E = E} Q {R} {m} {f} h k = record {
  holds = λ c p. resume-Post Q E R (m c).0 (m c).1 f (h.holds c p) k;
}

Post-weaken :
    {A : Type 0} (Q Q' : A → Tables → Type 0) (E E' : Tables → Type 0) (r : Result A) (t : Tables)
    → ((a : A) → Q a t → Q' a t)
    → (E t → E' t)
    → Post Q E r t
    → Post Q' E' r t
Post-weaken Q Q' E E' (ok a) t post error h = post a h
Post-weaken Q Q' E E' (err e) t post error h = error h

pub Triple-weaken :
    {A : Type 0} {P P' E E' : Tables → Type 0} {Q Q' : A → Tables → Type 0} {m : M A}
    → ((t : Tables) → P' t → P t)
    → ((a : A) (t : Tables) → Q a t → Q' a t)
    → ((t : Tables) → E t → E' t)
    → Triple P m Q E
    → Triple P' m Q' E'
Triple-weaken {E = E} {E' = E'} {Q = Q} {Q' = Q'} {m = m} pre post error h = record {
  holds = λ c p.
      Post-weaken Q Q' E E' (m c).0 (m c).1.tables (λ a. post a _) (error _)
        (h.holds c (pre c.tables p));
}

read-Post :
    {A : Type 0} (P : Tables → Type 0) (f : Tables → Result A) (r : Result A) (t : Tables)
    → f t ≡ r
    → P t
    → Post (λ a t. P t × (f t ≡ ok a)) P r t
read-Post P f (ok a) t e p = (p, e)
read-Post P f (err x) t e p = p

-- A read changes nothing, and its result tells of the tables.
pub Triple-read :
    {A : Type 0} {P : Tables → Type 0} (f : Tables → Result A)
    → Triple P (exec (read f)) (λ a t. P t × (f t ≡ ok a)) P
Triple-read {P = P} f = Triple-exec (read f) (λ t p. read-Post P f (f t) t refl p) (λ t p. p)

pub Keeps-read :
    {A : Type 0} {P : Tables → Type 0} (f : Tables → Result A) → Keeps P (exec (read f))
Keeps-read f = Triple-weaken (λ t p. p) (λ a t h. h.0) (λ t p. p) (Triple-read f)

forget_post :
    {A : Type 0} (P : Tables → Type 0) (r : Result A) (t : Tables) → Post (λ _. P) P r t → P t
forget_post P (ok a) t h = h
forget_post P (err e) t h = h

-- What a call that keeps a property leaves behind, returned or failed.
pub Keeps-after :
    {A : Type 0} {P : Tables → Type 0} {m : M A}
    → Keeps P m
    → (c : Conn) → P c.tables
    → P (m c).1.tables
Keeps-after {P = P} {m = m} h c p = forget_post P (m c).0 (m c).1.tables (h.holds c p)

pub Keeps-attempt : {A : Type 0} {P : Tables → Type 0} {m : M A} → Keeps P m → Keeps P (attempt m)
unfolding attempt
Keeps-attempt h = record { holds = λ c p. Keeps-after h c p }

pub Keeps-check : {P : Tables → Type 0} (e : Option Error) → Keeps P (check e)
unfolding check
Keeps-check none = record { holds = λ c p. p }
Keeps-check (some e) = record { holds = λ c p. p }

commit_or_undo-Post :
    {A : Type 0} (Q : A → Tables → Type 0) (E : Tables → Type 0) (a : A) (before behind : Tables)
    (fs : List Bool)
    → Q a behind
    → E before
    → E behind
    → Post Q E (commit_or_undo a before behind fs).0 (commit_or_undo a before behind fs).1.tables
unfolding commit_or_undo
commit_or_undo-Post Q E a before behind [] q e f = q
commit_or_undo-Post Q E a before behind (false ∷ fs) q e f = q
commit_or_undo-Post Q E a before behind (true ∷ []) q e f = e
commit_or_undo-Post Q E a before behind (true ∷ false ∷ fs) q e f = e
commit_or_undo-Post Q E a before behind (true ∷ true ∷ fs) q e f = f

settle-Post :
    {A : Type 0} (Q : A → Tables → Type 0) (E F : Tables → Type 0) (t : Tables) (r : Result A)
    (c : Conn)
    → Post Q F r c.tables
    → E t
    → ((a : A) (u : Tables) → Q a u → E u)
    → Post Q E (settle t (r, c)).0 (settle t (r, c)).1.tables
unfolding settle
settle-Post Q E F t (ok a) c h e f =
    commit_or_undo-Post Q E a t c.tables c.faults h e (f a c.tables h)
settle-Post Q E F t (err x) c h e f = e

-- A transaction that reports an error has undone its body, or was recorded all the same.
pub Triple-transaction :
    {A : Type 0} {P : Tables → Type 0} (F E : Tables → Type 0) {Q : A → Tables → Type 0} {m : M A}
    → ((t : Tables) → P t → F t)
    → ((t : Tables) → P t → E t)
    → ((a : A) (t : Tables) → Q a t → E t)
    → Triple P m Q F
    → Triple P (transaction m) Q E
unfolding transaction
Triple-transaction {P = P} F E {Q} {m} begun undone recorded h = record {
  holds = λ c p. settle-Post Q E F c.tables _ _ (steps.holds c p) (undone c.tables p) recorded;
}
  where
    steps : Triple P (do exec (read (λ _. ok tt)); m) Q F
    steps =
        Triple-bind (λ _. P)
          (Triple-weaken (λ t p. p) (λ _ t p. p.0) begun (Triple-read {P = P} (λ _. ok tt)))
          (λ _. h)

pub nothing : {A : Type 0} (r : Result A) (t : Tables) → Post (λ _ _. Unit {0}) (λ _. Unit {0}) r t
nothing (ok a) t = tt
nothing (err e) t = tt

-- The postcondition of a call that is known to have failed, or to have returned.
pub after_error :
    {A : Type 0} {P E : Tables → Type 0} {Q : A → Tables → Type 0} {m : M A} (h : Triple P m Q E)
    (c : Conn) (e : Error)
    → P c.tables
    → (m c).0 ≡ err e
    → E (m c).1.tables
after_error {E = E} {Q = Q} {m = m} h c e p failed =
    subst (λ r. Post Q E r (m c).1.tables) failed (h.holds c p)

pub after_value :
    {A : Type 0} {P E : Tables → Type 0} {Q : A → Tables → Type 0} {m : M A} (h : Triple P m Q E)
    (c : Conn) (a : A)
    → P c.tables
    → (m c).0 ≡ ok a
    → Q a (m c).1.tables
after_value {E = E} {Q = Q} {m = m} h c a p returned =
    subst (λ r. Post Q E r (m c).1.tables) returned (h.holds c p)

-- Past a check its error is known to be nil.
pub Triple-check :
    {P : Tables → Type 0} (e : Option Error) → Triple P (check e) (λ _ t. P t × (e ≡ none)) P
unfolding check
Triple-check none = record { holds = λ c p. (p, refl) }
Triple-check (some e) = record { holds = λ c p. p }

-- The result of an attempt is a value that carries either postcondition.
pub Triple-attempt :
    {A : Type 0} {P E F : Tables → Type 0} {Q : A → Tables → Type 0} {m : M A}
    → Triple P m Q E
    → Triple P (attempt m) (λ r. Post Q E r) F
unfolding attempt
Triple-attempt h = record { holds = λ c p. h.holds c p }
