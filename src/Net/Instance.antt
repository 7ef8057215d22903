-- ===== src/Net/Instance.antt =====
-- net.py: `class ConnectionInstance`, and `_get_next` of the default cursor, which reads through it.
-- A KeyboardInterrupt during a read, upon which `_read_response` reconnects, is not modelled.
pub mod Quiet
pub mod Rounds
mod Tests
use rethinkdb_python.Base.{
  ℕ, zero, suc, ◌+◌, Bool, true, false, Option, none, some, List, [], ◌∷◌, ◌++◌, length,
  if◌then◌else◌, ◌==◌,
}
use rethinkdb_python.Base.Struct.{Bytes}
use rethinkdb_python.Base.Integer.{ℤ, pos, negsuc}
use rethinkdb_python.Base.Exec.{ok, raise, block, finally, pure, modify, skip, gets, ◌>>=◌, ◌>>◌}
use rethinkdb_python.Errors.{
  Exn, reql, builtin, attribute_error, index_error, driver_error, connection_is_closed,
  unexpected_response,
}
use rethinkdb_python.Net.Socket
use rethinkdb_python.Net.Socket.{Socket, recvall}
use rethinkdb_python.Net.Query.{Query, unpack_header}
use rethinkdb_python.Net.Response.{
  Response, success_atom, success_partial, success_sequence, wait_complete, server_info, make_error,
  Value, nothing, value, cursor, maybe_profile,
}
use rethinkdb_python.Net.World.{
  Codec, Cursor, World, Action, at_cursor, at_socket, of_outcome, find_cursor,
}
use rethinkdb_python.Net.Cursor.{extend_internal}
use rethinkdb_python.Net.Fetch.{post, maybe_fetch_batch, extend, cursor_error, parse_response}

module _ {Item V : Type 0} where
  -- The tokens of `list(self._cursor_cache.values())`, in the order of the dict.
  abbrev pub registered_tokens : List (Cursor Item V) → List ℕ
  registered_tokens [] = []
  registered_tokens (c ∷ cs) =
      let rest = registered_tokens cs in if c.registered then c.query.token ∷ rest else rest

  -- `self._cursor_cache = {}`
  abbrev pub unregister_all : List (Cursor Item V) → List (Cursor Item V)
  unregister_all [] = []
  unregister_all (c ∷ cs) = record c { registered = false } ∷ unregister_all cs

  -- `self._cursor_cache.get(res_token)`, as the token of the cursor that is found.
  abbrev pub cached_token : ℤ → List (Cursor Item V) → Option ℕ
  cached_token (pos t) cs = elim (find_cursor t cs) [
    | none ↦ none
    | some c ↦ if c.registered then some t else none
  ]
  cached_token (negsuc _) cs = none

-- `res_token == token`
abbrev pub is_token : ℤ → ℕ → Bool
is_token (pos t) token = t == token
is_token (negsuc _) token = false

module _ {Item V : Type 0} (codec : Codec Item V) where
  unfoldable pub error_each : List ℕ → Action Item V (Unit {0})
  error_each [] = skip
  error_each (t ∷ ts) = do cursor_error codec connection_is_closed t; error_each ts

  -- `close`, down to the `try`.
  unfoldable pub begin_close : Action Item V (Unit {0})
  begin_close = do
    modify (λ w. record w { closing = true })
    ts ← gets (λ w. registered_tokens w.cursors)
    error_each ts
    modify (λ w. record w { cursors = unregister_all w.cursors })

  -- The `finally` of `close`.
  unfoldable pub end_close : Action Item V (Unit {0})
  end_close = do
    at_socket (modify Socket.close)
    modify (λ w. record w { header_in_progress = none })

  -- `close(noreply_wait=False)`
  unfoldable pub close_now : Action Item V (Unit {0})
  close_now = do begin_close; end_close

  -- `recvall(12, deadline)`, unless a header is in progress, and its two numbers.
  unfoldable pub read_header : Action Item V (ℤ × ℕ)
  read_header w = elim w.header_in_progress [
    | some h ↦ (unpack_header h, w)
    | none ↦
        (do
          h ← at_socket (recvall 12)
          modify (λ w. record w { header_in_progress = some h })
          of_outcome (unpack_header h))
          w
  ]

  -- The `try` block of `_read_response`: a token, and the bytes of the response.
  unfoldable pub read_frame : Action Item V (ℤ × Bytes)
  read_frame = do
    header ← read_header
    buf ← at_socket (recvall header.1)
    modify (λ w. record w { header_in_progress = none })
    pure (header.0, buf)

  -- The rest of a round of `_read_response` when no cursor has the token: `none` goes on to the next
  -- round, `some r` returns `r`.
  unfoldable pub dispatch_other :
      Query V → ℤ → Bytes → Action Item V (Option (Option (Response Item)))
  dispatch_other q res_token buf w =
      if is_token res_token q.token
      then (do res ← parse_response codec q buf; pure (some (some res))) w
      else if w.closing
      then (ok none, w)
      else (do close_now; raise (reql driver_error unexpected_response)) w

  unfoldable pub dispatch : Query V → ℤ → Bytes → Action Item V (Option (Option (Response Item)))
  dispatch q res_token buf w = elim (cached_token res_token w.cursors) [
    | none ↦ dispatch_other q res_token buf w
    | some t ↦
        (do extend codec t buf; pure (if is_token res_token q.token then some none else none)) w
  ]

  -- At most `n` rounds of `_read_response`.
  unfoldable pub read_rounds : ℕ → Query V → Action Item V (Option (Response Item))
  read_rounds zero q = block
  read_rounds (suc n) q = do
    frame ← read_frame
    out ← dispatch q frame.0 frame.1
    elim out [ none ↦ read_rounds n q | some r ↦ pure r ]

  -- A round for each call of `recv` that the script has, and two more.
  abbrev pub rounds : World Item V → ℕ
  rounds w = elim w.socket [ none ↦ 2 | some s ↦ length s.arrivals + 2 ]

  -- `_read_response`
  unfoldable pub read_response : Query V → Action Item V (Option (Response Item))
  read_response q w = read_rounds (rounds w) q w

  -- `res.data[0]`
  abbrev pub first_item : List Item → Action Item V Item
  first_item [] = raise (builtin index_error)
  first_item (x ∷ xs) = pure x

  -- `DefaultCursor(self, query, first_response)`
  unfoldable pub new_cursor : Query V → Response Item → Action Item V (Unit {0})
  new_cursor q first_response = do
    modify (λ w. record w {
      cursors =
          w.cursors
          ++ record {
            query = q;
            items = [];
            outstanding_requests = pos 0;
            threshold = 1;
            error = none;
            registered = true;
          }
            ∷ [];
    })
    maybe_fetch_batch codec q.token
    at_cursor q.token (extend_internal codec first_response)

  -- The result of `run_query` for a response.
  unfoldable pub conclude : Query V → Option (Response Item) → Action Item V (Value Item)
  conclude q none = raise (builtin attribute_error)
  conclude q (some res) = elim res.type [
    | success_atom ↦ (do x ← first_item res.items; pure (maybe_profile (value x) res))
    | success_partial ↦ (do new_cursor q res; pure (maybe_profile (cursor q.token) res))
    | success_sequence ↦ (do new_cursor q res; pure (maybe_profile (cursor q.token) res))
    | wait_complete ↦ pure nothing
    | server_info ↦ (do x ← first_item res.items; pure (value x))
    | _ ↦ (do e ← of_outcome (make_error codec.text res); raise e)
  ]

  -- `run_query`
  unfoldable pub run_query : Query V → Bool → Action Item V (Value Item)
  run_query q noreply = do
    post codec q
    if noreply then pure nothing else (do res ← read_response q; conclude q res)

  -- `close`, with the query of NOREPLY_WAIT if there is one to send.
  unfoldable pub close : Option (Query V) → Action Item V (Unit {0})
  close none = do begin_close; end_close
  close (some q) = do begin_close; finally (do run_query q false; skip) end_close

  -- `popleft`, on a deque that is not empty.
  abbrev pub pop_item : Item → List Item → ℕ → Action Item V Item
  pop_item x xs t = do at_cursor t (modify (λ c. record c { items = xs })); pure x

  abbrev pub raise_error : Option Exn → Action Item V (Unit {0})
  raise_error none = skip
  raise_error (some e) = raise e

  -- At most `n` rounds of `_get_next`.
  unfoldable pub next_rounds : ℕ → Query V → Action Item V Item
  next_rounds zero q = block
  next_rounds (suc n) q = do
    items ← at_cursor q.token (gets (λ c. c.items))
    elim items [
      | x ∷ xs ↦ pop_item x xs q.token
      | [] ↦ (do
        maybe_fetch_batch codec q.token
        error ← at_cursor q.token (gets (λ c. c.error))
        raise_error error
        read_response q
        next_rounds n q)
    ]

  -- `_get_next`
  unfoldable pub get_next : Query V → Action Item V Item
  get_next q w = next_rounds (rounds w) q w
