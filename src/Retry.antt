-- ===== src/Retry.antt =====
-- utils_common.py, `class RetryQuery`: a query that is tried several times, on a connection that is
-- kept for it. One thread and one process are modelled, so the cache of connections holds at most one.
-- What the server does is a script: an entry for each `make_connection`, for each `expr(0).run(conn)`, and for
-- each run of the query, with the class of the exception where there is one.
pub mod Attempts
mod Tests
use rethinkdb_python.Base.{
  ℕ, zero, suc, Bool, true, false, ◌||◌, Option, none, some, List, [], ◌∷◌, ◌++◌, if◌then◌else◌,
}
use rethinkdb_python.Base.Exec.{Outcome, ok, raised, blocked, Exec, ◌>>◌}
use rethinkdb_python.Errors.{ErrorClass, reql_error, timeout_error, driver_error, is_instance}

-- How a call fails. The first two are `RuntimeError`s, with the texts that `call` gives them; `unbound_local` is
-- Python's error for a variable that has no value yet, and `not_positive` the `ValueError` for `times`.
pub data Failure : Type 0 where
  connecting during : ErrorClass → Failure
  bubbled : ErrorClass → Failure
  unbound_local not_positive : Failure

-- `used` lists the connections that the query was run on, in order.
pub record Local (R : Type 0) : Type 0 where
  pub cached : Option ℕ
  pub connects : List (Outcome ErrorClass ℕ)
  pub checks : List (Outcome ErrorClass R)
  pub runs : List (Outcome ErrorClass R)
  pub used : List ℕ

abbrev pub first : {A : Type 0} → List (Outcome ErrorClass A) → Outcome ErrorClass A
first [] = blocked
first (o ∷ os) = o

abbrev pub rest : {A : Type 0} → List (Outcome ErrorClass A) → List (Outcome ErrorClass A)
rest [] = []
rest (o ∷ os) = os

-- The rest of the loop, for `last_error`, the variable `conn` and `test_connection`.
abbrev pub Loop : Type 0 → Type 0
Loop R = Option Failure → Option ℕ → Bool → Exec Failure (Local R) (Option R)

module _ {R : Type 0} where
  -- `except errors.ReqlError: del connCache[...]`
  unfoldable pub drop_bad : Outcome ErrorClass R → Exec ErrorClass (Local R) (Unit {0})
  drop_bad (ok x) s = (ok tt, s)
  drop_bad (raised e) s =
      if is_instance e reql_error then (ok tt, record s { cached = none }) else (raised e, s)
  drop_bad blocked s = (blocked, s)

  unfoldable pub check_cached : Option ℕ → Bool → Exec ErrorClass (Local R) (Unit {0})
  check_cached (some c) true s = drop_bad (first s.checks) (record s { checks = rest s.checks })
  check_cached (some c) false s = (ok tt, s)
  check_cached none test s = (ok tt, s)

  unfoldable pub keep : Outcome ErrorClass ℕ → Exec ErrorClass (Local R) ℕ
  keep (ok c) s = (ok c, record s { cached = some c })
  keep (raised e) s = (raised e, s)
  keep blocked s = (blocked, s)

  unfoldable pub cache_new : Option ℕ → Exec ErrorClass (Local R) ℕ
  cache_new (some c) s = (ok c, s)
  cache_new none s = keep (first s.connects) (record s { connects = rest s.connects })

  -- `conn`
  unfoldable pub conn : Bool → Exec ErrorClass (Local R) ℕ
  conn test = (λ s. check_cached s.cached test s) >> (λ s. cache_new s.cached s)

  -- The second `try`, after `query_str.run(conn)`.
  unfoldable pub after_run :
      Loop R → Option Failure → ℕ → Bool → Outcome ErrorClass R → Exec Failure (Local R) (Option R)
  after_run next last c test (ok x) s = (ok (some x), s)
  after_run next last c test (raised e) s =
      let again = next (some (during e)) (some c) test s in
      if is_instance e timeout_error || is_instance e driver_error
      then again
      else (raised (bubbled e), s)
  after_run next last c test blocked s = (blocked, s)

  unfoldable pub run_on :
      Loop R → Option Failure → Option ℕ → Bool → Exec Failure (Local R) (Option R)
  run_on next last none test s = (raised unbound_local, s)
  run_on next last (some c) test s =
      after_run next last c test (first s.runs)
        (record s { runs = rest s.runs; used = s.used ++ c ∷ [] })

  -- The first `try`, after `self.conn(test_connection)`.
  unfoldable pub after_conn :
      Loop R
      → Option Failure
      → Option ℕ
      → Bool
      → Outcome ErrorClass ℕ
      → Exec Failure (Local R) (Option R)
  after_conn next last var test (ok c) s = run_on next last (some c) test s
  after_conn next last var test (raised e) s =
      if is_instance e reql_error
      then run_on next (some (connecting e)) var true s
      else (raised (bubbled e), s)
  after_conn next last var test blocked s = (blocked, s)

  abbrev pub give_up : Option Failure → Outcome Failure (Option R)
  give_up none = ok none
  give_up (some f) = raised f

  -- `for _ in range(times)`, and what follows it.
  unfoldable pub tries : ℕ → Loop R
  tries zero last var test s = (give_up last, s)
  tries (suc n) last var test s =
      let out = conn test s in after_conn (tries n) last var test out.0 out.1

  -- `__call__`, for a query and options of the right types. Its `test_connection` is overwritten.
  unfoldable pub call : ℕ → Bool → Exec Failure (Local R) (Option R)
  call zero test_connection s = (raised not_positive, s)
  call (suc n) test_connection s = tries (suc n) none none false s
