-- ===== src/Asyncio/Reader.antt =====
-- asyncio_net/net_asyncio.py: `_reader` and `close` of `ConnectionInstance`.
use rethinkdb_python.Base.{
  ℕ, ◌==◌, true, false, none, some, List, [], ◌∷◌, ◌++◌, leb, length, take, drop, if◌then◌else◌,
}
use rethinkdb_python.Base.Struct.{Bytes}
use rethinkdb_python.Base.Integer.{ℤ, pos, negsuc}
use rethinkdb_python.Base.Exec.{
  Outcome, ok, raised, blocked, raise, block, pure, gets, modify, skip, ◌>>=◌, ◌>>◌,
}
use rethinkdb_python.Errors.{
  Exn, reql, builtin, index_error, incomplete_read_error, driver_error, Message,
  connection_is_closed, connection_is_closed_by, unexpected_response,
}
use rethinkdb_python.Net.Query.{Query, unpack_header}
use rethinkdb_python.Net.Response.{
  Response, ResponseType, success_atom, success_partial, success_sequence, wait_complete,
  server_info, make_error, nothing, value, cursor, maybe_profile,
}
use rethinkdb_python.Net.World.{Codec}
use rethinkdb_python.Net.Cursor.{extend_internal}
use rethinkdb_python.Net.Instance.{registered_tokens, unregister_all, cached_token}
use rethinkdb_python.Asyncio.State.{
  Future, pending, Answer, result, exception, answered, UserQuery, Instance, Action, at_cursor,
  find_query, update_query, unlist, is_pending, set_future, of_outcome, run_query,
}
use rethinkdb_python.Asyncio.Cursor.{maybe_fetch_batch, parse_response, extend, cursor_error}

module _ {Item V : Type 0} where
  -- What the loop of `close` does to the future of a query.
  abbrev pub fail_pending : Exn → UserQuery Item V → UserQuery Item V
  fail_pending e q = record q {
    future = if is_pending q.future then answered (exception e) else q.future;
    listed = false;
  }

  -- The loop of `close` over `_user_queries`, and `self._user_queries = {}`.
  abbrev pub fail_all : Exn → List (UserQuery Item V) → List (UserQuery Item V)
  fail_all e [] = []
  fail_all e (q ∷ qs) = (if q.listed then fail_pending e q else q) ∷ fail_all e qs

  -- The tables as `close` leaves them.
  abbrev pub clear_tables : Message → Instance Item V → Instance Item V
  clear_tables m w = record w {
    queries = fail_all (reql driver_error m) w.queries;
    cursors = unregister_all w.cursors;
  }

  -- `readexactly(n)`, as the documentation of asyncio has it: at the end of the stream it raises, and gives
  -- what there was with the exception.
  unfoldable pub readexactly : ℕ → Action Item V Bytes
  readexactly n w =
      if leb n (length w.input)
      then (ok (take n w.input), record w { input = drop n w.input })
      else if w.at_end
      then (raised (builtin incomplete_read_error), record w { input = [] })
      else (blocked, w)

  unfoldable pub start_header : Action Item V (ℤ × ℕ)
  start_header = do
    h ← readexactly 12
    modify (λ w. record w { header = some h })
    of_outcome (unpack_header h)

  unfoldable pub read_header : Action Item V (ℤ × ℕ)
  read_header w = elim w.header [ some h ↦ (unpack_header h, w) | none ↦ start_header w ]

  -- The two reads of `_reader`: a token, and the bytes of the response.
  unfoldable pub read_frame : Action Item V (ℤ × Bytes)
  read_frame = do
    header ← read_header
    buf ← readexactly header.1
    modify (λ w. record w { header = none })
    pure (header.0, buf)

module _ {Item V : Type 0} (codec : Codec Item V) where
  unfoldable pub error_each : Message → List ℕ → Action Item V (Unit {0})
  error_each m [] = skip
  error_each m (t ∷ ts) = do cursor_error codec m t; error_each m ts

  -- `close`, down to the NOREPLY_WAIT.
  unfoldable pub begin_close : Message → Action Item V (Unit {0})
  begin_close m = do
    modify (λ w. record w { closing = true })
    ts ← gets (λ w. registered_tokens w.cursors)
    error_each m ts
    modify (clear_tables m)

  -- The rest of `close`, which then waits for the stream to be closed and for the reader.
  unfoldable pub end_close : Action Item V (Unit {0})
  end_close = modify (λ w. record w { writer_closed = true })

  -- `close(noreply_wait=False)`, with the message that tells of the exception or of none.
  unfoldable pub close_now : Message → Action Item V (Unit {0})
  close_now m = do begin_close m; end_close

  -- `close(noreply_wait=True)`, down to where it waits for the NOREPLY_WAIT `q`.
  unfoldable pub close_waiting : Query V → Action Item V (Unit {0})
  close_waiting q = do begin_close connection_is_closed; run_query codec q false

  -- The future that the coroutine of the query with token `t` waits for.
  abbrev pub future_of : ℕ → List (UserQuery Item V) → Future Item
  future_of t [] = pending
  future_of t (q ∷ qs) = if q.query.token == t then q.future else future_of t qs

  -- `close` behind its NOREPLY_WAIT. One that was cancelled does not go on.
  unfoldable pub close_after : Future Item → Action Item V (Unit {0})
  close_after (answered (result v)) = end_close
  close_after (answered (exception e)) = raise e
  close_after _ = block

  unfoldable pub finish_close : ℕ → Action Item V (Unit {0})
  finish_close t w = close_after (future_of t w.queries) w

  -- `res.data[0]`
  abbrev pub first_item : List Item → Action Item V Item
  first_item [] = raise (builtin index_error)
  first_item (x ∷ xs) = pure x

  -- The cursor of a query, in `_cursor_cache`.
  abbrev pub add_cursor : Query V → Instance Item V → Instance Item V
  add_cursor q w = record w {
    cursors =
        w.cursors
        ++ record {
          query = q;
          items = [];
          outstanding_requests = pos 0;
          threshold = 1;
          error = none;
          registered = true;
        }
          ∷ [];
  }

  -- `AsyncioCursor(self, query, first_response)`
  unfoldable pub new_cursor : Query V → Response Item → Action Item V (Unit {0})
  new_cursor q first_response = do
    modify (add_cursor q)
    maybe_fetch_batch codec q.token
    at_cursor q.token (extend_internal codec first_response)

  -- What the future of a query is given for a response, by its type.
  unfoldable pub outcome_at : ResponseType → Query V → Response Item → Action Item V (Answer Item)
  outcome_at success_atom q res = do
    x ← first_item res.items
    pure (result (maybe_profile (value x) res))
  outcome_at success_sequence q res = do
    new_cursor q res
    pure (result (maybe_profile (cursor q.token) res))
  outcome_at success_partial q res = do
    new_cursor q res
    pure (result (maybe_profile (cursor q.token) res))
  outcome_at wait_complete q res = pure (result nothing)
  outcome_at server_info q res = do x ← first_item res.items; pure (result (value x))
  outcome_at _ q res = do e ← of_outcome (make_error codec.text res); pure (exception e)

  -- `set_result` or `set_exception`, and the `del`.
  unfoldable pub settle : ℕ → UserQuery Item V → Answer Item → Action Item V (Unit {0})
  settle t q a = do
    set_future t q a
    modify (λ w. record w { queries = update_query t unlist w.queries })

  -- The branch of `_reader` for the query `q`, which waits for a response with token `t`.
  unfoldable pub answer : ℕ → UserQuery Item V → Bytes → Action Item V (Unit {0})
  answer t q buf = do
    res ← parse_response codec q.query buf
    a ← outcome_at res.type q.query res
    settle t q a

  -- The last branch of `_reader`.
  unfoldable pub unexpected : Action Item V (Unit {0})
  unexpected w =
      if w.closing then (ok tt, w) else (raised (reql driver_error unexpected_response), w)

  -- The branches for a response that is for no cursor.
  unfoldable pub dispatch_other : ℤ → Bytes → Action Item V (Unit {0})
  dispatch_other (negsuc _) buf w = unexpected w
  dispatch_other (pos t) buf w = elim (find_query t w.queries) [
    | some q ↦ answer t q buf w
    | none ↦ unexpected w
  ]

  unfoldable pub dispatch : ℤ → Bytes → Action Item V (Unit {0})
  dispatch token buf w = elim (cached_token token w.cursors) [
    | some t ↦ extend codec t buf w
    | none ↦ dispatch_other token buf w
  ]

  unfoldable pub read_one : Action Item V (Unit {0})
  read_one = do frame ← read_frame; dispatch frame.0 frame.1

  -- The `except` of `_reader`, which then ends.
  unfoldable pub reader_failed : Action Item V (Unit {0})
  reader_failed w =
      if w.closing
      then (ok tt, record w { reading = false })
      else close_now connection_is_closed_by (record w { reading = false })

  abbrev pub handle :
      Outcome Exn (Unit {0}) × Instance Item V → Outcome Exn (Unit {0}) × Instance Item V
  handle (ok u, w) = (ok u, w)
  handle (raised e, w) = reader_failed w
  handle (blocked, w) = (blocked, w)

  -- A round of `_reader`, if it has not ended.
  unfoldable pub read_round : Action Item V (Unit {0})
  read_round w = if w.reading then handle (read_one w) else (ok tt, w)
