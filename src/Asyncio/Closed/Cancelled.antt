-- ===== src/Asyncio/Closed/Cancelled.antt =====
-- asyncio_net/net_asyncio.py: the answer to a query that its user has cancelled.
use rethinkdb_python.Base.{ℕ, ◌≡◌, ◌∙◌, true, false, [], All}
use rethinkdb_python.Base.Struct.{Bytes}
use rethinkdb_python.Base.Integer.{pos}
use rethinkdb_python.Base.Exec.{ok, raised}
use rethinkdb_python.Errors.{builtin, invalid_state_error, connection_is_closed_by}
use rethinkdb_python.Net.World.{Codec}
use rethinkdb_python.Asyncio.State.{Answer, cancelled, UserQuery, Instance, set_future}
use rethinkdb_python.Asyncio.Reader.{settle, read_frame, read_one, read_round}
use rethinkdb_python.Asyncio.Order.{IsAnswer, dispatch_lem}
use rethinkdb_python.Asyncio.Settled.{IsAccounted}
use rethinkdb_python.Asyncio.Closed.{HasDummy, Fresh, IsShut, read_round-IsShut}

module _ {Item V : Type 0} (codec : Codec Item V) where
  settle_cancelled :
      (t : ℕ) (q : UserQuery Item V) (a : Answer Item) (w : Instance Item V)
      → q.future ≡ cancelled
      → settle codec t q a w ≡ (raised (builtin invalid_state_error), w)
  unfolding settle set_future
  settle_cancelled t q a w e = rw e

  read_one_cancelled :
      (w v : Instance Item V) (t : ℕ) (q : UserQuery Item V) (buf : Bytes) (a : Answer Item)
      → read_frame w ≡ (ok (pos t, buf), v)
      → IsAnswer codec t q buf a v
      → q.future ≡ cancelled
      → read_one codec w ≡ (raised (builtin invalid_state_error), v)
  unfolding read_one
  read_one_cancelled w v t q buf a frame i e =
      rw frame (dispatch_lem codec t q buf a v i ∙ settle_cancelled t q a v e)

  -- The user has cancelled a query, as a timeout of `asyncio.wait_for` does, and its answer comes: the
  -- reader closes the whole connection, and every other query that waits for its answer is given the error
  -- that says so. The conditions are that the answer makes no cursor, that the connection is not being
  -- closed, that the queries that are out of the table have their answers, that the cursors have different
  -- tokens, and that the decoders read the dummy response.
  pub cancelled-IsShut :
      (w v : Instance Item V) (t : ℕ) (q : UserQuery Item V) (buf : Bytes) (a : Answer Item)
      → HasDummy codec
      → w.reading ≡ true
      → read_frame w ≡ (ok (pos t, buf), v)
      → IsAnswer codec t q buf a v
      → q.future ≡ cancelled
      → v.closing ≡ false
      → Fresh [] v.cursors
      → All IsAccounted v.queries
      → IsShut connection_is_closed_by v.queries (read_round codec w).1
  cancelled-IsShut w v t q buf a dummy reading frame i e open_ fresh accounted =
      read_round-IsShut codec w v (builtin invalid_state_error) dummy reading
        (read_one_cancelled w v t q buf a frame i e) open_ fresh accounted
