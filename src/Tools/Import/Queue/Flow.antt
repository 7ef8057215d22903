-- ===== src/Tools/Import/Queue/Flow.antt =====
-- _import.py: the way of the rows from a file to the writers.
use rethinkdb_python.Base.{
  ℕ, ◌+◌, ◌≡◌, ◌≢◌, ◌⊎◌, inl, inr, refl, sym, ap, ◌∙◌, subst, Bool, none, List, [], ◌∷◌, ◌++◌, map,
  length, length-append, length-map, append-nil, append_assoc, ==_iff, arith,
}
use rethinkdb_python.Base.Exec.{Outcome}
use rethinkdb_python.Base.After.{After, After-weaken}
use rethinkdb_python.Tools.Import.{Text, Raised, Run}
use rethinkdb_python.Tools.Import.Batches.{concat, concat-append, Delivers}
use rethinkdb_python.Tools.Import.Queue.{
  Put, taken, queue_full, exit_set, Reading, done, Reader, filter_row, filter_batch, accept,
  put_batches, read_to_queue,
}
use rethinkdb_python.Tools.Import.Writer.{Server, Rows, Writer, Task, batch, stop, table_writer}
use rethinkdb_python.Tools.Import.Writer.Counts.{count, due, table_writer_counts}
use rethinkdb_python.Tools.Export.{Dictionary}

map-append : {A B : Type 0} (f : A → B) (xs ys : List A) → map f (xs ++ ys) ≡ map f xs ++ map f ys
map-append f [] ys = refl
map-append f (x ∷ xs) ys = ap (λ zs. f x ∷ zs) (map-append f xs ys)

module _ {Row V : Type 0} (dict : Dictionary Row V) (fields : List Text) where
  -- The queue has a part of the rows `due_rows`, filtered, from their beginning, and all of them if the
  -- reading is done; `rows_read` counts what it has.
  abbrev pub Queues : List Row → Reading × Reader Row → Type 0
  Queues all x =
      (x.1.rows_read ≡ length (concat x.1.queue))
      × ((rest : List Row) × (all ≡ concat x.1.queue ++ rest))
      × ((x.0 ≢ done) ⊎ (concat x.1.queue ≡ all))

  put_batches-Queues :
      (puts : List Put) (bs : List (List Row)) (o : Outcome Raised (Unit {0})) (r : Reader Row)
      → r.rows_read ≡ length (concat r.queue)
      → Queues
          (concat r.queue ++ map (filter_row dict fields) (concat bs))
          (put_batches dict fields puts bs o r)
  unfolding put_batches accept filter_batch concat
  put_batches-Queues puts [] o r n = (n, ([], refl), inr (sym (append-nil (concat r.queue))))
  put_batches-Queues [] (b ∷ bs) o r n = (n, (_, refl), inl (λ e. cc))
  put_batches-Queues (taken ∷ puts) (b ∷ bs) o r n =
      let f = filter_row dict fields in
      let added : concat (r.queue ++ map f b ∷ []) ≡ concat r.queue ++ map f b =
        concat-append r.queue (map f b) in
      let size : r.rows_read + length (map f b) ≡ length (concat (r.queue ++ map f b ∷ [])) =
        omega (arith, n, ap length added, length-append (concat r.queue) (map f b)) in
      let whole : concat (r.queue ++ map f b ∷ []) ++ map f (concat bs)
          ≡ concat r.queue ++ map f (b ++ concat bs) =
        ap (λ x. x ++ map f (concat bs)) added
        ∙ append_assoc (concat r.queue) (map f b) (map f (concat bs))
        ∙ ap (λ x. concat r.queue ++ x) (sym (map-append f b (concat bs))) in
      subst (λ x. Queues x (put_batches dict fields puts bs o (accept (map f b) r))) whole
        (put_batches-Queues puts bs o (accept (map f b) r) size)
  put_batches-Queues (queue_full ∷ puts) (b ∷ bs) o r n = put_batches-Queues puts (b ∷ bs) o r n
  put_batches-Queues (exit_set ∷ puts) (b ∷ bs) o r n = (n, (_, refl), inl (λ e. cc))

  -- `read_to_queue` puts the batches that the generator yields on the queue, with the fields asked for,
  -- in order and each once, however often the queue is full: what it has put is a part of the rows from
  -- their beginning, which `rows_read` counts, and all of them where it ends without an error and the
  -- exit event is not set.
  pub read_to_queue-Queues :
      {S : Type 0} (puts : List Put) (run : Run S Row) (r : Reader Row)
      → r.queue ≡ []
      → r.rows_read ≡ 0
      → Queues (map (filter_row dict fields) (concat run.0)) (read_to_queue dict fields puts run r)
  unfolding read_to_queue concat
  read_to_queue-Queues puts run r none_put none_read =
      let start : concat r.queue ≡ [] = ap concat none_put in
      subst
        (λ x.
          Queues (x ++ map (filter_row dict fields) (concat run.0))
            (put_batches dict fields puts run.0 run.1.0 r))
        start (put_batches-Queues puts run.0 run.1.0 r (none_read ∙ ap length (sym start)))

-- The tasks that the writers find: the batches on the queue, for a table, and the end.
unfoldable pub tasks_of : {Row : Type 0} → ℕ → List (List Row) → List (Task Row)
tasks_of table [] = stop ∷ []
tasks_of table (b ∷ queue) = batch table b ∷ tasks_of table queue

due-tasks_of :
    {Row : Type 0} (table : ℕ) (queue : List (List Row))
    → due table (tasks_of table queue) ≡ length (concat queue)
unfolding due tasks_of concat
due-tasks_of table [] = refl
due-tasks_of table (b ∷ queue) =
    rw ((==_iff table table).1 refl, length-append b (concat queue), due-tasks_of table queue) refl

module _ {Row V D Key : Type 0} (dict : Dictionary Row V) (fields : List Text) (keys : Rows Row Key)
    (server : Server D Row Key) (force : Bool) where
  -- The way of a file into a table: where its reading is done, and the one writer that takes all its
  -- batches has ended without an error to report, the writer has counted each row of the file once.
  pub import_counts :
      {S : Type 0} (size table : ℕ) (rows : List Row) (run : Run S Row) (puts : List Put)
      (r : Reader Row) (w : Writer D)
      → Delivers size [] rows run
      → r.queue ≡ []
      → r.rows_read ≡ 0
      → w.added ≡ []
      → ((read_to_queue dict fields puts run r).0 ≢ done)
        ⊎ After
            (λ u v. (v.reported ≢ none) ⊎ (count table v.added ≡ length rows))
            (table_writer keys server force
              (tasks_of table (read_to_queue dict fields puts run r).1.queue)
              w)
  unfolding count
  import_counts size table rows run puts r w (bs, s, e, all, cut) none_put none_read none_added =
      let f = filter_row dict fields in
      let x = read_to_queue dict fields puts run r in
      let batches : concat run.0 ≡ rows = ap (λ y. concat y.0) e ∙ all in
      elim (read_to_queue-Queues dict fields puts run r none_put none_read).2 [
        | inl not_done ↦ inl not_done
        | inr whole ↦
            let size : length (concat x.1.queue) ≡ length rows =
              ap length whole ∙ length-map f (concat run.0) ∙ ap length batches in
            inr (
              After-weaken _ _ (table_writer keys server force (tasks_of table x.1.queue) w)
                (λ u v counted. elim counted [
                  | inl reported ↦ inl reported
                  | inr n ↦ inr (
                      omega
                        (arith, n, due-tasks_of table x.1.queue, size, ap (count table) none_added))
                ])
                (table_writer_counts keys server force table (tasks_of table x.1.queue) w))
      ]
