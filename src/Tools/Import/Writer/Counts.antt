-- ===== src/Tools/Import/Writer/Counts.antt =====
-- _import.py, `table_writer`: the rows that are counted as written.
use rethinkdb_python.Base.{
  ℕ, suc, ◌+◌, ◌≡◌, ◌≢◌, ◌⊎◌, refl, ◌∙◌, subst, Bool, true, false, Option, none, some, List, [],
  ◌∷◌, length, ◌==◌, ==_iff, ltb, Bool-cases, inl, inr, arith, if◌then◌else◌,
}
use rethinkdb_python.Base.Exec.{Outcome, ok, raised, blocked, Exec, ◌>>=◌}
use rethinkdb_python.Base.After.{After, After-weaken, >>=-After}
use rethinkdb_python.Tools.Import.Writer.{
  Problem, reql_error, Result, Server, Rows, Writer, Task, exit_set, queue_empty, stop, batch,
  modified, at_server, add_rows_written, raise_first_error, check_batch, check_row, insert_row,
  unless_there, write_with_key, write_rows, after_insert, write_batch, write_loop, report,
  table_writer,
}

-- The rows written to a table.
unfoldable pub count : ℕ → List (ℕ × ℕ) → ℕ
count t [] = 0
count t ((table, n) ∷ added) = (if table == t then n else 0) + count t added

-- The rows for a table, up to the end of the queue or to the exit.
unfoldable pub due : {Row : Type 0} → ℕ → List (Task Row) → ℕ
due t [] = 0
due t (exit_set ∷ tasks) = 0
due t (queue_empty ∷ tasks) = due t tasks
due t (stop ∷ tasks) = 0
due t (batch table some_rows ∷ tasks) = (if table == t then length some_rows else 0) + due t tasks

-- Where an action returns, it has added `n` rows to those of the table `t`, and reported nothing.
abbrev Adds : {D A : Type 0} → ℕ → ℕ → Writer D → Outcome Problem A × Writer D → Type 0
Adds t n w x = After (λ a v. (count t v.added ≡ n + count t w.added) × (v.reported ≡ w.reported)) x

-- `n` rows for the table `table`, as those of `t`.
abbrev for_table : ℕ → ℕ → ℕ → ℕ
for_table t table n = if table == t then n else 0

module _ {D Row Key : Type 0} (rows : Rows Row Key) (server : Server D Row Key) (force : Bool)
    (t : ℕ) where
  at_server-Adds :
      {A : Type 0} (m : Exec Problem D A) (w : Writer D)
      → Adds t 0 w (at_server rows server force m w)
  unfolding at_server
  at_server-Adds {A} m w = go (m w.server).0 (m w.server).1
    where
      go : (o : Outcome Problem A) (d : D) → Adds t 0 w (o, record w { server = d })
      go (ok a) d = (omega arith, refl)
      go (raised e) d = tt
      go blocked d = tt

  then_Adds :
      {A B : Type 0} (m n k : ℕ)
      → m + n ≡ k
      → (first : Exec Problem (Writer D) A) (next : A → Exec Problem (Writer D) B) (w : Writer D)
      → Adds t m w (first w)
      → ((a : A) (v : Writer D) → Adds t n v (next a v))
      → Adds t k w ((first >>= next) w)
  then_Adds m n k sum first next w adds more =
      >>=-After (λ a v. (count t v.added ≡ m + count t w.added) × (v.reported ≡ w.reported))
        (λ a v. (count t v.added ≡ k + count t w.added) × (v.reported ≡ w.reported)) first next w
        adds
        (λ a v (e, r).
          After-weaken _ _ (next a v) (λ b u (f, s). (omega (arith, e, f), s ∙ r)) (more a v))

  either_Adds :
      {A : Type 0} (b : Bool) (m1 m2 : Exec Problem (Writer D) A) (n : ℕ) (w : Writer D)
      → Adds t n w (m1 w)
      → Adds t n w (m2 w)
      → Adds t n w ((if b then m1 else m2) w)
  either_Adds true m1 m2 n w p q = p
  either_Adds false m1 m2 n w p q = q

  add_rows_written-Adds :
      (table n : ℕ) (w : Writer D)
      → Adds t (for_table t table n) w (add_rows_written rows server force table n w)
  unfolding add_rows_written count
  add_rows_written-Adds table n w = (refl, refl)

  check_batch-Adds :
      (table n : ℕ) (res : Result) (w : Writer D)
      → Adds t (for_table t table n) w (check_batch rows server force table n res w)
  unfolding check_batch raise_first_error
  check_batch-Adds table n res w = elim (Bool-cases (ltb 0 res.errors)) [
    | inl failed ↦ rw failed tt
    | inr fine ↦ elim (Bool-cases (modified res == n)) [
      | inl all ↦
          let e : modified res ≡ n = (==_iff (modified res) n).0 all in
          rw (fine, all)
            (subst
              (λ k.
                Adds t (for_table t table k) w
                  (add_rows_written rows server force table (modified res) w))
              e (add_rows_written-Adds table (modified res) w))
      | inr some_not ↦ rw (fine, some_not) tt
    ]
  ]

  check_row-Adds :
      (table : ℕ) (res : Result) (w : Writer D)
      → Adds t (for_table t table 1) w (check_row rows server force table res w)
  unfolding check_row
  check_row-Adds table res w = elim (Bool-cases (ltb 0 res.errors)) [
    | inl failed ↦ rw failed tt
    | inr fine ↦ elim (Bool-cases (modified res == 1)) [
      | inl one ↦ rw (fine, one) (add_rows_written-Adds table 1 w)
      | inr other ↦ rw (fine, other) tt
    ]
  ]

  insert_row-Adds :
      (table : ℕ) (row : Row) (w : Writer D)
      → Adds t (for_table t table 1) w (insert_row rows server force table row w)
  unfolding insert_row
  insert_row-Adds table row w =
      then_Adds 0 (for_table t table 1) (for_table t table 1) (omega arith)
        (at_server rows server force (server.insert force (row ∷ [])))
        (λ res. check_row rows server force table res) w
        (at_server-Adds (server.insert force (row ∷ [])) w) (check_row-Adds table)

  unless_there-Adds :
      (table : ℕ) (row : Row) (o : Option Row) (w : Writer D)
      → Adds t (for_table t table 1) w (unless_there rows server force table row o w)
  unfolding unless_there
  unless_there-Adds table row none w = insert_row-Adds table row w
  unless_there-Adds table row (some existing) w = elim (Bool-cases (rows.same existing row)) [
    | inl e ↦ rw e tt
    | inr e ↦ rw e tt
  ]

  write_with_key-Adds :
      (table : ℕ) (row : Row) (o : Option Key) (w : Writer D)
      → Adds t (for_table t table 1) w (write_with_key rows server force table row o w)
  unfolding write_with_key
  write_with_key-Adds table row none w = tt
  write_with_key-Adds table row (some key) w =
      either_Adds force (insert_row rows server force table row)
        (at_server rows server force (server.get key) >>= unless_there rows server force table row)
        (for_table t table 1) w (insert_row-Adds table row w)
        (then_Adds 0 (for_table t table 1) (for_table t table 1) (omega arith)
          (at_server rows server force (server.get key)) (unless_there rows server force table row)
          w (at_server-Adds (server.get key) w) (unless_there-Adds table row))

  for_table-suc :
      (table n : ℕ) → for_table t table 1 + for_table t table n ≡ for_table t table (suc n)
  for_table-suc table n = elim (Bool-cases (table == t)) [
    | inl e ↦ rw e (omega arith)
    | inr e ↦ rw e refl
  ]

  write_rows-Adds :
      (table : ℕ) (some_rows : List Row) (w : Writer D)
      → Adds t
          (for_table t table (length some_rows))
          w
          (write_rows rows server force table some_rows w)
  unfolding write_rows
  write_rows-Adds table [] w = elim (Bool-cases (table == t)) [
    | inl e ↦ rw e (omega arith, refl)
    | inr e ↦ rw e (omega arith, refl)
  ]
  write_rows-Adds table (row ∷ more) w =
      then_Adds (for_table t table 1) (for_table t table (length more))
        (for_table t table (suc (length more))) (for_table-suc table (length more))
        (write_with_key rows server force table row (rows.key row))
        (λ u. write_rows rows server force table more) w
        (write_with_key-Adds table row (rows.key row) w) (λ u. write_rows-Adds table more)

  after_insert-Adds :
      (table : ℕ) (some_rows : List Row) (o : Outcome Problem Result) (w : Writer D)
      → Adds t
          (for_table t table (length some_rows))
          w
          (after_insert rows server force table some_rows o w)
  unfolding after_insert
  after_insert-Adds table some_rows (ok res) w = check_batch-Adds table (length some_rows) res w
  after_insert-Adds table some_rows (raised reql_error) w = write_rows-Adds table some_rows w
  after_insert-Adds table some_rows (raised e) w = tt
  after_insert-Adds table some_rows blocked w = tt

  write_batch-Adds :
      (table : ℕ) (some_rows : List Row) (w : Writer D)
      → Adds t
          (for_table t table (length some_rows))
          w
          (write_batch rows server force table some_rows w)
  unfolding write_batch at_server
  write_batch-Adds table some_rows w =
      after_insert-Adds table some_rows (server.insert force some_rows w.server).0
        (record w { server = (server.insert force some_rows w.server).1 })

  write_loop-Adds :
      (tasks : List (Task Row)) (w : Writer D)
      → Adds t (due t tasks) w (write_loop rows server force tasks w)
  unfolding write_loop due
  write_loop-Adds [] w = tt
  write_loop-Adds (exit_set ∷ tasks) w = (omega arith, refl)
  write_loop-Adds (queue_empty ∷ tasks) w = write_loop-Adds tasks w
  write_loop-Adds (stop ∷ tasks) w = (omega arith, refl)
  write_loop-Adds (batch table some_rows ∷ tasks) w =
      then_Adds (for_table t table (length some_rows)) (due t tasks) _ refl
        (write_batch rows server force table some_rows) (λ u. write_loop rows server force tasks) w
        (write_batch-Adds table some_rows w) (λ u. write_loop-Adds tasks)

  -- A writer that ends has reported an error, or it has counted, for each table, the rows of all the
  -- batches that it took, each once, also where a batch was written row by row.
  pub table_writer_counts :
      (tasks : List (Task Row)) (w : Writer D)
      → After
          (λ u v. (v.reported ≢ none) ⊎ (count t v.added ≡ due t tasks + count t w.added))
          (table_writer rows server force tasks w)
  unfolding table_writer report
  table_writer_counts tasks w = go (write_loop rows server force tasks w) (write_loop-Adds tasks w)
    where
      go :
          (x : Outcome Problem (Unit {0}) × Writer D)
          → Adds t (due t tasks) w x
          → After
              (λ u v. (v.reported ≢ none) ⊎ (count t v.added ≡ due t tasks + count t w.added))
              (report rows server force x)
      go (ok u, v) (e, r) = inr e
      go (raised e, v) adds = inl (λ unreported. cc)
      go (blocked, v) adds = tt
