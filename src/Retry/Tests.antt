-- ===== src/Retry/Tests.antt =====
-- Calls of `RetryQuery` on small scripts.
use rethinkdb_python.Base.{ℕ, ◌≡◌, refl, true, false, some, [], ◌∷◌, arith}
use rethinkdb_python.Base.Exec.{ok, raised}
use rethinkdb_python.Errors.{driver_error, timeout_error}
use rethinkdb_python.Retry.{Local, call}
use rethinkdb_python.Retry.Attempts.{StaysOn, call-StaysOn, call_retries}

-- A kept connection, 7, on which the query fails twice and then gives 42.
abbrev kept : Local ℕ
kept = record {
  cached = some 7;
  connects = ok 8 ∷ [];
  checks = [];
  runs = raised driver_error ∷ raised timeout_error ∷ ok 42 ∷ [];
  used = [];
}

call-StaysOn_example : StaysOn 2 7 kept (call 2 true kept).1
call-StaysOn_example = call-StaysOn 2 7 true kept refl

call_retries_example : (call 5 false kept).0 ≡ ok (some 42)
call_retries_example =
    call_retries 5 7 false kept (driver_error ∷ timeout_error ∷ []) 42 [] refl refl
      (refl, (refl, tt)) (omega arith)
