-- ===== src/Tools/Import/Writer/Tests.antt =====
-- A writer with a server that takes one row at a time.
use rethinkdb_python.Base.{ℕ, ◌+◌, ◌≡◌, ◌≢◌, ◌⊎◌, Bool, false, none, some, List, [], ◌∷◌, ◌==◌}
use rethinkdb_python.Base.Exec.{Outcome, ok, raised}
use rethinkdb_python.Base.After.{After}
use rethinkdb_python.Tools.Import.Writer.{
  Problem, reql_error, Result, Server, Rows, Writer, batch, queue_empty, stop, table_writer,
}
use rethinkdb_python.Tools.Import.Writer.Counts.{count, due, table_writer_counts}

-- Rows that are their own keys.
abbrev numbers : Rows ℕ ℕ
numbers = record { same = λ a b. a == b; key = λ a. some a }

-- The number of rows that were inserted is the state.
abbrev one_row : Bool → List ℕ → ℕ → Outcome Problem Result × ℕ
one_row force (row ∷ []) d =
    (ok (record { errors = 0; inserted = 1; replaced = 0; unchanged = 0 }), d + 1)
one_row force rows d = (raised reql_error, d)

abbrev small_server : Server ℕ ℕ ℕ
small_server = record { insert = one_row; get = λ k d. (ok none, d) }

abbrev idle : Writer ℕ
idle = record { server = 0; added = []; reported = none }

table_writer_counts_example :
    After
      (λ u v.
        (v.reported ≢ none)
        ⊎ (count 4 v.added
            ≡ due {Row = ℕ} 4 (batch 4 (7 ∷ 9 ∷ []) ∷ queue_empty ∷ batch 5 (3 ∷ []) ∷ stop ∷ [])
              + count 4 []))
      (table_writer numbers small_server false
        (batch 4 (7 ∷ 9 ∷ []) ∷ queue_empty ∷ batch 5 (3 ∷ []) ∷ stop ∷ [])
        idle)
table_writer_counts_example =
    table_writer_counts numbers small_server false 4
      (batch 4 (7 ∷ 9 ∷ []) ∷ queue_empty ∷ batch 5 (3 ∷ []) ∷ stop ∷ []) idle
