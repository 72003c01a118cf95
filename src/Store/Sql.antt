-- ===== src/Store/Sql.antt =====
-- One database connection and the calls made on it (`db.SetMaxOpenConns(1)` in store.go makes the
-- statements run one after the other; here the methods do). A call of the driver may fail, and a
-- failing statement has no effect, while a failing `Commit` may have been recorded all the same. Which
-- calls fail is an input, the list `faults`, and past its end none fails. Methods of `Repository` are
-- functions in the monad `M`: they read and change the connection, and return a value or an error.
pub mod Hoare
pub mod Determined
use drop_point.Base.{Bool, true, false, Option, none, some, List, [], ◌∷◌}
use drop_point.Errors.{Error, Result, ok, err, driver_failure, unique_constraint}
use drop_point.Store.Rows.{Tables}

pub record Conn : Type 0 where
  pub tables : Tables
  pub faults : List Bool

-- A connection on which no call fails.
abbrev pub healthy : Tables → Conn
healthy t = record { tables = t; faults = [] }

abbrev pub M : Type 0 → Type 0
M A = Conn → Result A × Conn

unfoldable pub pure : {A : Type 0} → A → M A
pure a c = (ok a, c)

unfoldable pub fail : {A : Type 0} → Error → M A
fail e c = (err e, c)

resume : {A B : Type 0} → Result A × Conn → (A → M B) → Result B × Conn
resume (ok a, c) f = f a c
resume (err e, c) f = (err e, c)

infixl 5 ◌>>=◌ ◌>>◌
unfoldable pub ◌>>=◌ : {A B : Type 0} → M A → (A → M B) → M B
unfolding resume
◌>>=◌ m f c = resume (m c) f

abbrev pub ◌>>◌ : {B : Type 0} → M (Unit {0}) → M B → M B
m >> k = m >>= λ _. k

-- `if err := ...; err == nil { ... } else { ... }`: the error as a value.
unfoldable pub attempt : {A : Type 0} → M A → M (Result A)
attempt m c = (ok (m c).0, (m c).1)

-- `if err != nil { return err }` on an error that is a value.
unfoldable pub check : Option Error → M (Unit {0})
check none c = (ok tt, c)
check (some e) c = (err e, c)

-- What a statement does to the tables when the driver runs it.
abbrev pub Statement : Type 0 → Type 0
Statement A = Tables → Result A × Tables

execute : {A : Type 0} → Statement A → Tables → List Bool → Result A × Conn
execute q t [] = ((q t).0, record { tables = (q t).1; faults = [] })
execute q t (true ∷ fs) = (err driver_failure, record { tables = t; faults = fs })
execute q t (false ∷ fs) = ((q t).0, record { tables = (q t).1; faults = fs })

-- `ExecContext`, `QueryContext` and `QueryRowContext`.
unfoldable pub exec : {A : Type 0} → Statement A → M A
unfolding execute
exec q c = execute q c.tables c.faults

abbrev pub read : {A : Type 0} → (Tables → Result A) → Statement A
read f t = (f t, t)

-- `errors.Is(err, sql.ErrNoRows)`: a row that is not there is an error of the caller's choice.
abbrev pub row_or : {A : Type 0} → Error → Option A → Result A
row_or e none = err e
row_or e (some a) = ok a

-- `Commit`, with the tables before the body and those behind it. A commit that reports an error was
-- undone or was recorded all the same; the entry behind its fault tells which.
commit_or_undo : {A : Type 0} → A → Tables → Tables → List Bool → Result A × Conn
commit_or_undo a before behind [] = (ok a, record { tables = behind; faults = [] })
commit_or_undo a before behind (false ∷ fs) = (ok a, record { tables = behind; faults = fs })
commit_or_undo a before behind (true ∷ []) =
    (err driver_failure, record { tables = before; faults = [] })
commit_or_undo a before behind (true ∷ false ∷ fs) =
    (err driver_failure, record { tables = before; faults = fs })
commit_or_undo a before behind (true ∷ true ∷ fs) =
    (err driver_failure, record { tables = behind; faults = fs })

settle : {A : Type 0} → Tables → Result A × Conn → Result A × Conn
unfolding commit_or_undo
settle t (ok a, c) = commit_or_undo a t c.tables c.faults
settle t (err e, c) = (err e, record c { tables = t })

-- `BeginTx`, the body, `Commit`; the deferred `Rollback` undoes the body after an error.
unfoldable pub transaction : {A : Type 0} → M A → M A
unfolding settle
transaction m c = settle c.tables ((do exec (read (λ _. ok tt)); m) c)

-- Scans the rows of a result set, up to the first that is refused.
abbrev pub bind_result : {A B : Type 0} → Result A → (A → Result B) → Result B
bind_result (ok a) f = f a
bind_result (err e) f = err e

unfoldable pub scan_all : {R A : Type 0} → (R → Result A) → List R → Result (List A)
scan_all scan [] = ok []
scan_all scan (r ∷ rs) =
    bind_result (scan r) λ a. bind_result (scan_all scan rs) λ as'. ok (a ∷ as')

-- `IsUniqueConstraint`.
unfoldable pub is_unique_constraint : Error → Bool
is_unique_constraint unique_constraint = true
is_unique_constraint _ = false
