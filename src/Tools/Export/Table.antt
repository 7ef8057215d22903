-- ===== src/Tools/Export/Table.antt =====
-- _export.py, `export_table`: the reading of a table, by a cursor that is set up again when the connection
-- breaks. The rows are those of a table that nobody changes, in the order of their primary keys.
mod Tests
use rethinkdb_python.Base.{
  ℕ, zero, suc, ◌+◌, ◌%◌, ◌≡◌, ◌≢◌, ◌⊎◌, inl, inr, refl, sym, ap, ◌∙◌, Bool, true, false, Option,
  none, some, List, [], ◌∷◌, ◌++◌, length, length-append, append-nil, append_assoc, ◌==◌,
  Bool-cases, inl, inr, arith, if◌then◌else◌,
}

-- What happens when the loop asks for the next row: the cursor gives it, or ends; the connection breaks;
-- the exit event is found set.
pub data Event : Type 0 where
  answered broken exit_set : Event

-- How the loop ends. In the first case the cursor has ended, in the third `retryQuery` has raised.
pub data End : Type 0 where
  done exited failed unfinished : End

-- The task queue, the last row first, `read_rows`, and the two counters of `progress_info`.
pub record Progress (Row : Type 0) : Type 0 where
  queue : List Row
  read_rows : ℕ
  rows_done : ℕ
  table_size : ℕ

module _ {Row Key : Type 0} (key : Row → Key) (backup : Option Key → Option (List Row)) where
  unfoldable pub put : Row → Progress Row → Progress Row
  put row p =
      let n = p.read_rows + 1 in
      record p {
        queue = p.queue ++ row ∷ [];
        read_rows = n;
        rows_done = if n % 20 == 0 then n else p.rows_done;
      }

  unfoldable pub finish : Progress Row → Progress Row
  finish p = record p { rows_done = p.read_rows; table_size = p.read_rows }

  -- The cursor that `retryQuery` gives for the rows after `lastPrimaryKey`, if it gives one.
  unfoldable pub set_up :
      (List Row → Progress Row → End × Progress Row)
      → Option (List Row)
      → Progress Row
      → End × Progress Row
  set_up loop none p = (failed, p)
  set_up loop (some cursor) p = loop cursor p

  unfoldable pub read_table : List Event → Option Key → List Row → Progress Row → End × Progress Row
  read_table [] last cursor p = (unfinished, p)
  read_table (exit_set ∷ events) last cursor p = (exited, p)
  read_table (broken ∷ events) last cursor p = set_up (read_table events last) (backup last) p
  read_table (answered ∷ events) last [] p = (done, finish p)
  read_table (answered ∷ events) last (row ∷ cursor) p =
      read_table events (some (key row)) cursor (put row p)

  unfoldable pub last_key : List Row → Option Key
  last_key [] = none
  last_key (row ∷ []) = some (key row)
  last_key (row ∷ next ∷ rows) = last_key (next ∷ rows)

  -- `all` is a table: after the key of a row, a cursor gives the rows behind that row.
  abbrev pub Serves : List Row → Type 0
  Serves all =
      (before after cursor : List Row)
      → all ≡ before ++ after
      → backup (last_key before) ≡ some cursor
      → cursor ≡ after

  pub last_key-append : (rows : List Row) (row : Row) → last_key (rows ++ row ∷ []) ≡ some (key row)
  unfolding last_key
  last_key-append [] row = refl
  last_key-append (a ∷ []) row = refl
  last_key-append (a ∷ b ∷ rows) row = last_key-append (b ∷ rows) row

  -- The queue has a part of the table, and all of it, counted in both counters, if the cursor has ended.
  abbrev pub Exports : List Row → End × Progress Row → Type 0
  Exports all x =
      ((rest : List Row) × (all ≡ x.1.queue ++ rest))
      × ((x.0 ≢ done)
          ⊎ (x.1.queue ≡ all) × (x.1.rows_done ≡ length all) × (x.1.table_size ≡ length all))

  module _ (all : List Row) (serves : Serves all) where
    set_up-Exports :
        (loop : List Row → Progress Row → End × Progress Row) (o : Option (List Row))
        (cursor : List Row) (p : Progress Row)
        → all ≡ p.queue ++ cursor
        → ((c : List Row) → o ≡ some c → Exports all (loop c p))
        → Exports all (set_up loop o p)
    unfolding set_up
    set_up-Exports loop none cursor p s given = ((cursor, s), inl (λ e. cc))
    set_up-Exports loop (some c) cursor p s given = given c refl

    read_table-Exports :
        (events : List Event) (last : Option Key) (cursor : List Row) (p : Progress Row)
        → last ≡ last_key p.queue
        → all ≡ p.queue ++ cursor
        → p.read_rows ≡ length p.queue
        → Exports all (read_table events last cursor p)
    unfolding read_table set_up put finish
    read_table-Exports [] last cursor p l s n = ((cursor, s), inl (λ e. cc))
    read_table-Exports (exit_set ∷ events) last cursor p l s n = ((cursor, s), inl (λ e. cc))
    read_table-Exports (broken ∷ events) last cursor p l s n =
        set_up-Exports (read_table events last) (backup last) cursor p s (λ c e.
          let same : c ≡ cursor = serves p.queue cursor c s (ap backup (sym l) ∙ e) in
          read_table-Exports events last c p l (s ∙ ap (λ x. p.queue ++ x) (sym same)) n)
    read_table-Exports (answered ∷ events) last [] p l s n =
        let whole : p.queue ≡ all = sym (s ∙ append-nil p.queue) in
        let size : p.read_rows ≡ length all = n ∙ ap length whole in
        (([], s), inr (whole, size, size))
    read_table-Exports (answered ∷ events) last (row ∷ cursor) p l s n =
        read_table-Exports events (some (key row)) cursor (put row p)
          (sym (last_key-append p.queue row)) (s ∙ sym (append_assoc p.queue (row ∷ []) cursor))
          (omega (arith, n, length-append p.queue (row ∷ [])))

    -- However the connection breaks, the rows that `export_table` puts on the queue are a part of the
    -- table from its beginning, in order and each once, and if the cursor has ended they are all, and
    -- both counters have their number. The condition is that a cursor that is set up again gives the
    -- rows behind the last one that was read.
    pub read_table_in_order :
        (events : List Event) (total : ℕ)
        → Exports all (
            read_table events none all
              (record { queue = []; read_rows = 0; rows_done = 0; table_size = total }))
    unfolding last_key
    read_table_in_order events total = read_table-Exports events none all _ refl refl refl
