-- ===== src/Store/Invariant/Safe.antt =====
-- Calls on the connection that keep the tables consistent, composed as the methods compose them.
use drop_point.Base.{Bool, if◌then◌else◌}
use drop_point.Errors.{Error}
use drop_point.Store.Sql.{M, pure, fail, ◌>>=◌}
use drop_point.Store.Sql.Hoare.{Keeps, Triple-pure, Triple-fail, Triple-if, Triple-bind}
use drop_point.Store.Invariant.{IsConsistent}

abbrev pub Safe : {A : Type 0} → M A → Type 0
Safe m = Keeps IsConsistent m

pub Safe-pure : {A : Type 0} (a : A) → Safe (pure a)
Safe-pure a = Triple-pure a (λ t c. c)

pub Safe-fail : {A : Type 0} (e : Error) → Safe (fail {A = A} e)
Safe-fail e = Triple-fail e (λ t c. c)

pub Safe-bind :
    {A B : Type 0} {m : M A} {f : A → M B} → Safe m → ((a : A) → Safe (f a)) → Safe (m >>= f)
Safe-bind h k = Triple-bind (λ _. IsConsistent) h k

pub Safe-if : {A : Type 0} (b : Bool) {m n : M A} → Safe m → Safe n → Safe (if b then m else n)
Safe-if b h k = Triple-if b (λ _. h) (λ _. k)
