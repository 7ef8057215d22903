-- ===== src/Asyncio/Settled/Runs.antt =====
-- asyncio_net/net_asyncio.py: the queries of a connection, however its events interleave.
use rethinkdb_python.Base.{Bool, false, List, [], ◌∷◌}
use rethinkdb_python.Errors.{connection_is_closed}
use rethinkdb_python.Net.Query.{Query}
use rethinkdb_python.Net.World.{Codec}
use rethinkdb_python.Asyncio.State.{Instance, check_open}
use rethinkdb_python.Asyncio.Cursor.{run_task, close_cursor, get_next, fetch_next}
use rethinkdb_python.Asyncio.Reader.{begin_close, close_waiting, finish_close}
use rethinkdb_python.Asyncio.Frame.{
  run_task-Steady, close_cursor-Steady, get_next-Steady, fetch_next-Steady, finish_close-Steady,
  check_open-Steady,
}
use rethinkdb_python.Asyncio.Run.{
  Event, arrives, ends, reads, sends, asks, cancels, takes, peeks, drops, finishes, ask, closes,
  closes_waiting, cancel, step, run,
}
use rethinkdb_python.Asyncio.Settled.{
  Evolves, Evolves-refl, Evolves-trans, update_query-Evolves, Grows, Steady-Grows, >>=-Grows,
}
use rethinkdb_python.Asyncio.Settled.Steps.{
  cancel-Follows, begin_close-Grows, close_now-Grows, run_query-Grows, read_round-Grows,
}

module _ {Item V : Type 0} (codec : Codec Item V) where
  close_waiting-Grows : (q : Query V) → Grows (close_waiting codec q)
  unfolding close_waiting
  close_waiting-Grows q =
      >>=-Grows (begin_close codec connection_is_closed) _
        (begin_close-Grows codec connection_is_closed) (λ _. run_query-Grows codec q _)

  ask-Grows : (q : Query V) (noreply : Bool) → Grows (ask codec q noreply)
  unfolding ask
  ask-Grows q noreply =
      >>=-Grows check_open _ (Steady-Grows check_open check_open-Steady)
        (λ _. run_query-Grows codec q noreply)

  step-Evolves : (e : Event V) (w : Instance Item V) → Evolves w.queries (step codec e w).queries
  unfolding step
  step-Evolves (arrives bytes) w = Evolves-refl w.queries
  step-Evolves ends w = Evolves-refl w.queries
  step-Evolves reads w = (read_round-Grows codec).at w
  step-Evolves sends w = (Steady-Grows (run_task codec) (run_task-Steady codec)).at w
  step-Evolves (asks q noreply) w = (ask-Grows q noreply).at w
  step-Evolves (cancels t) w = update_query-Evolves t cancel w.queries (λ q _. cancel-Follows q)
  step-Evolves (takes t) w = (Steady-Grows (get_next codec t) (get_next-Steady codec t)).at w
  step-Evolves (peeks t) w = (Steady-Grows (fetch_next codec t) (fetch_next-Steady codec t)).at w
  step-Evolves (drops t) w =
      (Steady-Grows (close_cursor codec t) (close_cursor-Steady codec t)).at w
  step-Evolves (finishes t) w =
      (Steady-Grows (finish_close codec t) (finish_close-Steady codec t)).at w
  step-Evolves closes w =
      (close_now-Grows codec connection_is_closed).at (record w { attached = false })
  step-Evolves (closes_waiting q) w = (close_waiting-Grows q).at (record w { attached = false })

  -- However the events of a connection interleave, and whatever fails: a future that is done, or was
  -- cancelled, stays as it is; a query that is out of the table stays out; a query is only taken out
  -- when its future is done; and the queries that are new are in the table, or have their answers.
  pub run-Evolves :
      (es : List (Event V)) (w : Instance Item V) → Evolves w.queries (run codec es w).queries
  unfolding run
  run-Evolves [] w = Evolves-refl w.queries
  run-Evolves (e ∷ es) w =
      Evolves-trans w.queries (step codec e w).queries (run codec es (step codec e w)).queries
        (step-Evolves e w) (run-Evolves es (step codec e w))
