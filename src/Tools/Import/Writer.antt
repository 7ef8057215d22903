-- ===== src/Tools/Import/Writer.antt =====
-- _import.py, `table_writer`: the batches that come through the queue, written to the tables. The server is
-- a parameter: what `options.retryQuery` returns or raises, and the state in which it leaves the server.
pub mod Counts
pub mod Again
mod Tests
use rethinkdb_python.Base.{
  ℕ, zero, suc, ◌+◌, Bool, true, false, Option, none, some, List, [], ◌∷◌, length, ◌==◌, ltb,
  if◌then◌else◌,
}
use rethinkdb_python.Base.Exec.{
  Outcome, ok, raised, blocked, Exec, raise, pure, block, modify, skip, when, unless, gets, feed,
  ◌>>=◌, ◌>>◌,
}

-- Why a writer fails: a ReqlError, a RuntimeError, a KeyError for `res["first_error"]`, and the TypeError of
-- `None["errors"]`.
pub data Problem : Type 0 where
  reql_error runtime_error key_error type_error : Problem

-- The result of an insertion. It has a `first_error` only where there were errors.
pub record Result : Type 0 where
  pub errors : ℕ
  pub inserted : ℕ
  pub replaced : ℕ
  pub unchanged : ℕ

-- `insert force rows`, with the conflict action `replace` where `force` is set and `error` otherwise, and `get`.
pub record Server (D Row Key : Type 0) : Type 0 where
  pub insert : Bool → List Row → Exec Problem D Result
  pub get : Key → Exec Problem D (Option Row)

-- Rows as Python compares them, and the value under the table's primary key.
pub record Rows (Row Key : Type 0) : Type 0 where
  pub same : Row → Row → Bool
  pub key : Row → Option Key

-- `added` has an entry for each `add_rows_written`, the last first: the table, and the increment. `reported`
-- is what was put on the error queue, upon which the exit event is set.
pub record Writer (D : Type 0) : Type 0 where
  pub server : D
  pub added : List (ℕ × ℕ)
  pub reported : Option Problem

-- What the writer finds when it looks at the exit event and the queue.
pub data Task (Row : Type 0) : Type 0 where
  exit_set queue_empty stop : Task Row
  batch : ℕ → List Row → Task Row

unfoldable pub modified : Result → ℕ
modified res = res.inserted + res.replaced + res.unchanged

module _ {D Row Key : Type 0} (rows : Rows Row Key) (server : Server D Row Key) (force : Bool) where
  unfoldable pub at_server : {A : Type 0} → Exec Problem D A → Exec Problem (Writer D) A
  at_server m w = let (o, d) = m w.server in (o, record w { server = d })

  unfoldable pub add_rows_written : ℕ → ℕ → Exec Problem (Writer D) (Unit {0})
  add_rows_written table n = modify (λ w. record w { added = (table, n) ∷ w.added })

  -- `res["first_error"]`, in the message of a RuntimeError.
  unfoldable pub raise_first_error : Result → Exec Problem (Writer D) (Unit {0})
  raise_first_error res = if ltb 0 res.errors then raise Problem.runtime_error else raise key_error

  unfoldable pub check_batch : ℕ → ℕ → Result → Exec Problem (Writer D) (Unit {0})
  check_batch table n res =
      if ltb 0 res.errors
      then raise Problem.runtime_error
      else if modified res == n
      then add_rows_written table (modified res)
      else raise_first_error res

  unfoldable pub check_row : ℕ → Result → Exec Problem (Writer D) (Unit {0})
  check_row table res =
      if ltb 0 res.errors
      then raise Problem.runtime_error
      else if modified res == 1
      then add_rows_written table 1
      else raise Problem.runtime_error

  unfoldable pub insert_row : ℕ → Row → Exec Problem (Writer D) (Unit {0})
  insert_row table row = do res ← at_server (server.insert force (row ∷ [])); check_row table res

  -- A row that is there already leaves `res` at `None`.
  unfoldable pub unless_there : ℕ → Row → Option Row → Exec Problem (Writer D) (Unit {0})
  unless_there table row none = insert_row table row
  unless_there table row (some existing) =
      if rows.same existing row then raise Problem.type_error else raise Problem.runtime_error

  unfoldable pub write_with_key : ℕ → Row → Option Key → Exec Problem (Writer D) (Unit {0})
  write_with_key table row none = raise Problem.runtime_error
  write_with_key table row (some key) =
      if force
      then insert_row table row
      else (at_server (server.get key) >>= unless_there table row)

  -- The loop over the rows, after a ReqlError.
  unfoldable pub write_rows : ℕ → List Row → Exec Problem (Writer D) (Unit {0})
  write_rows table [] = skip
  write_rows table (row ∷ more) =
      let rest = write_rows table more in do write_with_key table row (rows.key row); rest

  unfoldable pub after_insert :
      ℕ → List Row → Outcome Problem Result → Exec Problem (Writer D) (Unit {0})
  after_insert table some_rows (ok res) = check_batch table (length some_rows) res
  after_insert table some_rows (raised reql_error) = write_rows table some_rows
  after_insert table some_rows (raised e) = raise e
  after_insert table some_rows blocked = block

  unfoldable pub write_batch : ℕ → List Row → Exec Problem (Writer D) (Unit {0})
  write_batch table some_rows w =
      let (o, u) = at_server (server.insert force some_rows) w in after_insert table some_rows o u

  unfoldable pub write_loop : List (Task Row) → Exec Problem (Writer D) (Unit {0})
  write_loop [] = block
  write_loop (exit_set ∷ tasks) = skip
  write_loop (queue_empty ∷ tasks) = write_loop tasks
  write_loop (stop ∷ tasks) = skip
  write_loop (batch table some_rows ∷ tasks) =
      let rest = write_loop tasks in do write_batch table some_rows; rest

  -- The error that is reported, if any.
  unfoldable pub report :
      Outcome Problem (Unit {0}) × Writer D → Outcome Problem (Unit {0}) × Writer D
  report (raised e, w) = (ok tt, record w { reported = some e })
  report o = o

  unfoldable pub table_writer : List (Task Row) → Exec Problem (Writer D) (Unit {0})
  table_writer tasks w = report (write_loop tasks w)
