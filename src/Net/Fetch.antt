-- ===== src/Net/Fetch.antt =====
-- net.py, `class Cursor`: the methods that write to the socket, and the methods of `Connection` that
-- they call.
pub mod Frame
mod Tests
use rethinkdb_python.Base.{
  ℕ, Bool, true, false, not, ◌&&◌, Option, none, some, List, [], String, ltb, length, is_some,
  if◌then◌else◌,
}
use rethinkdb_python.Base.Struct.{Bytes}
use rethinkdb_python.Base.Integer.{ℤ, pos, incr, decr, is_zero}
use rethinkdb_python.Base.Exec.{
  Outcome, ok, raised, blocked, Exec, raise, pure, modify, skip, when, unless, gets, feed, ◌>>=◌,
  ◌>>◌,
}
use rethinkdb_python.Errors.{
  Exn, reql, builtin, attribute_error, value_error, driver_error, runtime_error,
  connection_is_closed, Message,
}
use rethinkdb_python.Net.Socket.{Socket, sendall}
use rethinkdb_python.Net.Query.{QueryType, Query, continue, stop, new_query, serialize}
use rethinkdb_python.Net.Response.{Response}
use rethinkdb_python.Net.World.{
  Codec, Cursor, World, Action, at_cursor, at_socket, of_outcome, find_cursor,
}
use rethinkdb_python.Net.Cursor.{
  empty_error, wants_batch, count_request, uncount_request, set_error, extend_internal,
}

module _ {Item V : Type 0} (codec : Codec Item V) where
  -- `ConnectionInstance.is_open`
  unfoldable pub instance_is_open : Action Item V Bool
  instance_is_open w = elim w.socket [
    | none ↦ (raised (builtin attribute_error), w)
    | some s ↦ (ok s.is_open, w)
  ]

  unfoldable pub closed_error : Bool → Action Item V (Unit {0})
  closed_error true = pure tt
  closed_error false = raise (reql driver_error connection_is_closed)

  -- `Connection.check_open`
  unfoldable pub check_open : Action Item V (Unit {0})
  check_open w = if w.attached then (instance_is_open >>= closed_error) w else closed_error false w

  -- `run_query(query, True)`. The method of the socket is looked up before the query is serialized.
  unfoldable pub post : Query V → Action Item V (Unit {0})
  post q = do
    at_socket skip
    bytes ← of_outcome (serialize (codec.encode q.json_encoder) q)
    at_socket (sendall bytes)

  -- `Connection._continue` and `Connection._stop`, for the cursor with token `t`.
  unfoldable pub post_for : QueryType → ℕ → Action Item V (Unit {0})
  post_for type t = do check_open; post (new_query type t none none)

  -- `_maybe_fetch_batch` of the cursor with token `t`.
  unfoldable pub maybe_fetch_batch : ℕ → Action Item V (Unit {0})
  maybe_fetch_batch t = do
    wanted ← at_cursor t (gets wants_batch)
    when wanted do at_cursor t count_request; post_for continue t

  -- `Response(self.query.token, res_buf, self._json_decoder)`
  unfoldable pub parse_response : Query V → Bytes → Action Item V (Response Item)
  parse_response q buf w = elim (codec.decode q buf) [
    | none ↦ (raised (builtin value_error), w)
    | some res ↦ (ok res, w)
  ]

  -- `_extend`
  unfoldable pub extend : ℕ → Bytes → Action Item V (Unit {0})
  extend t buf = do
    at_cursor t uncount_request
    maybe_fetch_batch t
    q ← at_cursor t (gets (λ c. c.query))
    res ← parse_response q buf
    at_cursor t (extend_internal codec res)

  -- `_error`
  unfoldable pub cursor_error : Message → ℕ → Action Item V (Unit {0})
  cursor_error m t = do
    has_error ← at_cursor t (gets (λ c. is_some c.error))
    unless has_error
        do at_cursor t (set_error (reql runtime_error m)); extend t codec.dummy_response

  -- `close`
  unfoldable pub close_cursor : ℕ → Action Item V (Unit {0})
  close_cursor t = do
    has_error ← at_cursor t (gets (λ c. is_some c.error))
    unless has_error do
      at_cursor t (set_error empty_error)
      live ← instance_is_open
      when live do at_cursor t count_request; post_for stop t
