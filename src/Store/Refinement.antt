-- ===== src/Store/Refinement.antt =====
-- The methods of `Repository` (internal/store/repository.go) against the lifecycle functions of
-- internal/droppoint/droppoint.go: on a connection on which no call fails, a method does to the
-- stored row what the function does to the value that the row stands for.
pub mod Lookup
pub mod Submissions
pub mod DropPoints
use drop_point.Base.{Option, none, some}
use drop_point.Errors.{Error, Result, ok, err}

-- A Go error that may be nil, as the result of a method without a value.
abbrev pub to_result : Option Error → Result (Unit {0})
to_result none = ok tt
to_result (some e) = err e
