-- ===== src/Tools/Import.antt =====
-- _import.py, `class SourceFile`: the reading of a file in batches, whatever its format.
pub mod Batches
pub mod Json
pub mod Csv
pub mod Writer
pub mod Queue
use rethinkdb_python.Base.{
  ℕ, zero, suc, ◌≡◌, Bool, true, false, List, [], ◌∷◌, ◌++◌, length, leb, if◌then◌else◌,
}
use rethinkdb_python.Base.Struct.{Bytes}
use rethinkdb_python.Base.Exec.{Outcome, ok, raised, blocked, Exec}
use rethinkdb_python.Errors.{Builtin, assertion_error}

-- Texts are lists of code points.
abbrev pub Text : Type 0
Text = Bytes

-- What the methods of a source raise: one of Python's classes, `Exception` itself, the RuntimeError
-- that a generator makes of a StopIteration, and the two that steer the reading.
pub data Raised : Type 0 where
  builtin : Builtin → Raised
  exception runtime_error need_more_data stop_iteration : Raised

-- The methods of a subclass.
pub record SourceFile (S Row : Type 0) : Type 0 where
  setup_file : Exec Raised S (Unit {0})
  fill_buffer : Exec Raised S (Unit {0})
  get_line : Exec Raised S Row
  teardown : Exec Raised S (Unit {0})

-- The batches that a generator yields, and how it ends.
abbrev pub Run : Type 0 → Type 0 → Type 0
Run S Row = List (List Row) × (Outcome Raised (Unit {0}) × S)

module _ {S Row : Type 0} where
  -- `yield batch`
  unfoldable pub yield : List Row → Run S Row → Run S Row
  yield batch (bs, o) = (batch ∷ bs, o)

  module _ (file : SourceFile S Row) where
    -- `except StopIteration`, with `if batch`.
    unfoldable pub stopped : List Row → S → Run S Row
    stopped [] s = ([], file.teardown s)
    stopped (row ∷ batch) s = yield (row ∷ batch) ([], file.teardown s)

    unfoldable pub on_raise : Raised → List Row → S → Run S Row
    on_raise stop_iteration batch s = stopped batch s
    on_raise e batch s = ([], (raised e, s))

    unfoldable pub after_fill :
        (List Row → S → Run S Row) → List Row → Outcome Raised (Unit {0}) × S → Run S Row
    after_fill loop batch (ok _, s) = loop batch s
    after_fill loop batch (raised e, s) = on_raise e batch s
    after_fill loop batch (blocked, s) = ([], (blocked, s))

    unfoldable pub after_line :
        (List Row → S → Run S Row) → List Row → Outcome Raised Row × S → Run S Row
    after_line loop batch (ok row, s) = loop (batch ++ row ∷ []) s
    after_line loop batch (raised need_more_data, s) = after_fill loop batch (file.fill_buffer s)
    after_line loop batch (raised e, s) = on_raise e batch s
    after_line loop batch (blocked, s) = ([], (blocked, s))

    -- The loop of `batches`, a call of `get_line` for each unit of fuel. A batch that is full is
    -- yielded first.
    unfoldable pub read_loop : ℕ → ℕ → List Row → S → Run S Row
    read_loop zero batch_size batch s = ([], (blocked, s))
    read_loop (suc n) batch_size batch s =
        let loop = read_loop n batch_size in
        if leb batch_size (length batch)
        then yield batch (after_line loop [] (file.get_line s))
        else after_line loop batch (file.get_line s)

    -- A StopIteration that leaves a generator.
    unfoldable pub leaves : Raised → Raised
    leaves stop_iteration = runtime_error
    leaves e = e

    unfoldable pub after_setup :
        (List Row → S → Run S Row) → Outcome Raised (Unit {0}) × S → Run S Row
    after_setup loop (ok _, s) = loop [] s
    after_setup loop (raised e, s) = ([], (raised (leaves e), s))
    after_setup loop (blocked, s) = ([], (blocked, s))

    -- `batches`, after `setup_table`, with no indexes.
    unfoldable pub batches : ℕ → ℕ → S → Run S Row
    batches fuel zero s = ([], (raised (builtin assertion_error), s))
    batches fuel (suc n) s = after_setup (read_loop fuel (suc n)) (file.setup_file s)
