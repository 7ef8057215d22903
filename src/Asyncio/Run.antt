-- ===== src/Asyncio/Run.antt =====
-- asyncio_net/net_asyncio.py: what may happen to a connection, one event at a time.
use rethinkdb_python.Base.{ℕ, Bool, true, false, List, [], ◌∷◌, ◌++◌, if◌then◌else◌}
use rethinkdb_python.Base.Struct.{Bytes}
use rethinkdb_python.Base.Exec.{◌>>◌}
use rethinkdb_python.Errors.{connection_is_closed}
use rethinkdb_python.Net.Query.{Query}
use rethinkdb_python.Net.World.{Codec}
use rethinkdb_python.Asyncio.State.{
  cancelled, UserQuery, Instance, Action, check_open, update_query, is_pending, run_query,
}
use rethinkdb_python.Asyncio.Cursor.{run_task, close_cursor, get_next, fetch_next}
use rethinkdb_python.Asyncio.Reader.{close_now, close_waiting, finish_close, read_round}

-- Bytes come in, the stream ends, the reader or a task runs, or the user starts or cancels a query, takes
-- from, looks into or closes a cursor, or closes the connection, which then has no instance, or a `close` goes
-- on behind its NOREPLY_WAIT.
pub data Event (V : Type 0) : Type 0 where
  arrives : Bytes → Event V
  ends reads sends : Event V
  asks : Query V → Bool → Event V
  cancels takes peeks drops finishes : ℕ → Event V
  closes : Event V
  closes_waiting : Query V → Event V

module _ {Item V : Type 0} where
  -- `cancel()` of a future: it does nothing where the future is done.
  abbrev pub cancel : UserQuery Item V → UserQuery Item V
  cancel q = record q { future = if is_pending q.future then cancelled else q.future }

module _ {Item V : Type 0} (codec : Codec Item V) where
  -- `_start`, `noreply_wait` and `server` of the connection, with the query that they make.
  unfoldable pub ask : Query V → Bool → Action Item V (Unit {0})
  ask q noreply = do check_open; run_query codec q noreply

  unfoldable pub step : Event V → Instance Item V → Instance Item V
  step (arrives bytes) w = record w { input = w.input ++ bytes }
  step ends w = record w { at_end = true }
  step reads w = (read_round codec w).1
  step sends w = (run_task codec w).1
  step (asks q noreply) w = (ask q noreply w).1
  step (cancels t) w = record w { queries = update_query t cancel w.queries }
  step (takes t) w = (get_next codec t w).1
  step (peeks t) w = (fetch_next codec t w).1
  step (drops t) w = (close_cursor codec t w).1
  step closes w = (close_now codec connection_is_closed (record w { attached = false })).1
  step (finishes t) w = (finish_close codec t w).1
  step (closes_waiting q) w = (close_waiting codec q (record w { attached = false })).1

  unfoldable pub run : List (Event V) → Instance Item V → Instance Item V
  run [] w = w
  run (e ∷ es) w = run es (step e w)
