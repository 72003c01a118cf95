-- ===== src/Handlers/Hoare.antt =====
-- What holds after a handler that answered with a value, whatever calls of the driver fail and
-- whatever the blob store does.
use drop_point.Base.{◌≡◌, refl, subst, Bool, true, false, ℕ, Bytes, if◌then◌else◌}
use drop_point.Errors.{Result, ok, err}
use drop_point.Api.{Reply, refused, accepted}
use drop_point.Store.Rows.{Tables}
use drop_point.Store.Sql.{M}
use drop_point.Store.Sql.Hoare.{Post, Triple}
use drop_point.Handlers.{Server, H, resume, ◌>>=◌, respond, refuse, repository, blob, or_refuse}

module _ {B : Type 0} where
  abbrev pub After : {A : Type 0} → (A → Server B → Type 0) → Reply A → Server B → Type 0
  After Q (accepted a) s = Q a s
  After Q (refused status code) s = Unit

  pub record Answers {A : Type 0} (P : Server B → Type 0) (m : H B A) (Q : A → Server B → Type 0)
      : Type 0 where
    pub holds : (s : Server B) → P s → After Q (m s).0 (m s).1

  pub Answers-respond :
      {A : Type 0} {P : Server B → Type 0} {Q : A → Server B → Type 0} (a : A)
      → ((s : Server B) → P s → Q a s)
      → Answers P (respond a) Q
  unfolding respond
  Answers-respond a h = record { holds = h }

  pub Answers-refuse :
      {A : Type 0} {P : Server B → Type 0} {Q : A → Server B → Type 0} (status : ℕ) (code : Bytes)
      → Answers P (refuse status code) Q
  unfolding refuse
  Answers-refuse status code = record { holds = λ s p. tt }

  pub Answers-if :
      {A : Type 0} {P : Server B → Type 0} {Q : A → Server B → Type 0} (b : Bool) {m n : H B A}
      → (b ≡ true → Answers P m Q)
      → (b ≡ false → Answers P n Q)
      → Answers P (if b then m else n) Q
  Answers-if true h k = h refl
  Answers-if false h k = k refl

  -- A test whose failure is refused.
  pub tested :
      (b : Bool) {P : Server B → Type 0} (status : ℕ) (code : Bytes)
      → Answers P (if b then respond tt else refuse status code) (λ _ s. P s × (b ≡ true))
  tested true status code = Answers-respond tt (λ s p. (p, refl))
  tested false status code = Answers-refuse _ _

  resume-After :
      {A C : Type 0} (Q : A → Server B → Type 0) (R : C → Server B → Type 0) (r : Reply A)
      (s : Server B) (f : A → H B C)
      → After Q r s
      → ((a : A) → Answers (Q a) (f a) R)
      → After R (resume (r, s) f).0 (resume (r, s) f).1
  unfolding resume
  resume-After Q R (accepted a) s f h k = (k a).holds s h
  resume-After Q R (refused status code) s f h k = tt

  pub Answers-bind :
      {A C : Type 0} {P : Server B → Type 0} (Q : A → Server B → Type 0) {R : C → Server B → Type 0}
      {m : H B A} {f : A → H B C}
      → Answers P m Q
      → ((a : A) → Answers (Q a) (f a) R)
      → Answers P (m >>= f) R
  unfolding ◌>>=◌
  Answers-bind Q {R} {m} {f} h k = record {
    holds = λ s p. resume-After Q R (m s).0 (m s).1 f (h.holds s p) k;
  }

  After-weaken :
      {A : Type 0} (Q R : A → Server B → Type 0) (r : Reply A) (s : Server B)
      → ((a : A) → Q a s → R a s)
      → After Q r s
      → After R r s
  After-weaken Q R (accepted a) s post h = post a h
  After-weaken Q R (refused status code) s post h = tt

  pub Answers-weaken :
      {A : Type 0} {P P' : Server B → Type 0} {Q R : A → Server B → Type 0} {m : H B A}
      → ((s : Server B) → P' s → P s)
      → ((a : A) (s : Server B) → Q a s → R a s)
      → Answers P m Q
      → Answers P' m R
  Answers-weaken {Q = Q} {R = R} {m = m} pre post h = record {
    holds = λ s p. After-weaken Q R (m s).0 (m s).1 (λ a. post a (m s).1) (h.holds s (pre s p));
  }

  pub Answers-any : {A : Type 0} {P : Server B → Type 0} (m : H B A) → Answers P m (λ _ _. Unit {0})
  Answers-any m = record { holds = λ s p. any (m s).0 (m s).1 }
    where
      any : {A : Type 0} (r : Reply A) (s : Server B) → After (λ _ _. Unit {0}) r s
      any (accepted a) s = tt
      any (refused status code) s = tt

  -- A fact that does not speak of the server lasts.
  pub Answers-fact :
      {A : Type 0} {F : Type 0} {Q : A → Server B → Type 0} {m : H B A}
      → (F → Answers (λ _. Unit {0}) m Q)
      → Answers (λ _. F) m (λ a s. F × Q a s)
  Answers-fact {Q = Q} {m = m} h = record {
    holds = λ s p. After-weaken Q _ (m s).0 (m s).1 (λ a q. (p, q)) ((h p).holds s tt);
  }

  pub Answers-know :
      {A : Type 0} {F : Type 0} {P : Server B → Type 0} {Q : A → Server B → Type 0} {m : H B A}
      → (F → Answers P m Q)
      → Answers (λ s. F × P s) m Q
  Answers-know h = record { holds = λ s p. (h p.0).holds s p.1 }

  -- A method of the repository: its triple, and a fact that does not depend on the server.
  pub Answers-repository :
      {A : Type 0} (P E : Tables → Type 0) (Q : A → Tables → Type 0) {m : M A}
      → Triple P m Q E
      → Answers (λ s. P s.conn.tables) (repository m) (λ r s. Post Q E r s.conn.tables)
  unfolding repository
  Answers-repository P E Q h = record { holds = λ s p. h.holds s.conn p }

  -- The blob store leaves the database alone.
  pub Answers-blob :
      {A : Type 0} (P : Tables → Type 0) (f : B → Result A × B)
      → Answers (λ s. P s.conn.tables) (blob f) (λ _ s. P s.conn.tables)
  unfolding blob
  Answers-blob P f = record { holds = λ s p. p }

  pub Answers-or_refuse :
      {A : Type 0} (P : Result A → Server B → Type 0) (status : ℕ) (code : Bytes) (r : Result A)
      → Answers (P r) (or_refuse status code r) (λ a s. P (ok a) s)
  unfolding or_refuse respond refuse
  Answers-or_refuse P status code (ok a) = record { holds = λ s p. p }
  Answers-or_refuse P status code (err e) = record { holds = λ s p. tt }

  -- The value that a handler answered with.
  pub answered :
      {A : Type 0} {P : Server B → Type 0} {Q : A → Server B → Type 0} {m : H B A}
      → Answers P m Q
      → (s : Server B) (a : A) → P s
      → (m s).0 ≡ accepted a
      → Q a (m s).1
  answered {Q = Q} {m = m} h s a p same = subst (λ r. After Q r (m s).1) same (h.holds s p)
