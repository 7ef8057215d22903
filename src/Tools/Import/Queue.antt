-- ===== src/Tools/Import/Queue.antt =====
-- _import.py, `SourceFile.read_to_queue`: the batches of a file, put on the queue of the writers. What the
-- method finds when it tries to put a batch on the queue is a list.
pub mod Flow
mod Tests
use rethinkdb_python.Base.{
  ℕ, ◌+◌, ◌≡◌, ◌≢◌, ◌⊎◌, inl, inr, refl, sym, ap, ◌∙◌, Option, none, some, List, [], ◌∷◌, ◌++◌, map,
  length, length-append, append-nil, append_assoc, arith,
}
use rethinkdb_python.Base.Exec.{Outcome, ok, raised, blocked}
use rethinkdb_python.Tools.Import.{Text, Raised, Run}
use rethinkdb_python.Tools.Import.Batches.{concat}
use rethinkdb_python.Tools.Export.{Dictionary, delete_others}

-- The batch is taken; the queue is full, upon which the method tries again; the exit event is set.
pub data Put : Type 0 where
  taken queue_full exit_set : Put

-- How the method ends. `raises` has put an error on the error queue and set the exit event.
pub data Reading : Type 0 where
  done exited unfinished : Reading
  raises : Raised → Reading

-- `queue` is what was put on the queue, in order.
pub record Reader (Row : Type 0) : Type 0 where
  pub queue : List (List Row)
  pub rows_read : ℕ

unfoldable pub accept : {Row : Type 0} → List Row → Reader Row → Reader Row
accept batch r = record r { queue = r.queue ++ batch ∷ []; rows_read = r.rows_read + length batch }

unfoldable pub ending : Outcome Raised (Unit {0}) → Reading
ending (ok u) = done
ending (raised e) = raises e
ending blocked = unfinished

module _ {Row V : Type 0} (dict : Dictionary Row V) where
  -- No fields, or an empty list of them, filter nothing.
  unfoldable pub filter_row : List Text → Row → Row
  filter_row [] row = row
  filter_row (field ∷ more) row = delete_others dict (dict.keys row) (field ∷ more) row

  module _ (fields : List Text) where
    unfoldable pub filter_batch : List Row → List Row
    filter_batch batch = map (filter_row fields) batch

    -- The loop, on the batches that the generator yields, and on how it ends.
    unfoldable pub put_batches :
        List Put → List (List Row) → Outcome Raised (Unit {0}) → Reader Row → Reading × Reader Row
    put_batches puts [] o r = (ending o, r)
    put_batches [] (batch ∷ bs) o r = (unfinished, r)
    put_batches (taken ∷ puts) (batch ∷ bs) o r =
        put_batches puts bs o (accept (filter_batch batch) r)
    put_batches (queue_full ∷ puts) (batch ∷ bs) o r = put_batches puts (batch ∷ bs) o r
    put_batches (exit_set ∷ puts) (batch ∷ bs) o r = (exited, r)

    unfoldable pub read_to_queue :
        {S : Type 0} → List Put → Run S Row → Reader Row → Reading × Reader Row
    read_to_queue puts run r = put_batches puts run.0 run.1.0 r
