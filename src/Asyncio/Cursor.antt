-- ===== src/Asyncio/Cursor.antt =====
-- asyncio_net/net_asyncio.py, `class AsyncioCursor`. A coroutine that waits for `new_response` runs its loop
-- again when the cursor was given a response, and finds it as it is then; so the future is left out.
use rethinkdb_python.Base.{
  ℕ, Bool, true, false, not, Option, none, some, List, [], ◌∷◌, ◌++◌, is_some,
}
use rethinkdb_python.Base.Struct.{Bytes}
use rethinkdb_python.Base.Exec.{
  ok, raised, block, raise, pure, gets, modify, when, unless, ◌>>=◌, ◌>>◌,
}
use rethinkdb_python.Errors.{
  Exn, reql, builtin, value_error, runtime_error, Message, cursor_empty, is_instance,
}
use rethinkdb_python.Net.Query.{Query, continue, stop, new_query}
use rethinkdb_python.Net.Response.{Response}
use rethinkdb_python.Net.World.{Codec}
use rethinkdb_python.Net.Cursor.{
  empty_error, wants_batch, count_request, uncount_request, set_error, extend_internal,
}
use rethinkdb_python.Asyncio.State.{Action, at_cursor, is_open, check_open, post}

-- `isinstance(e, RqlCursorEmpty)`
abbrev pub is_cursor_empty : Exn → Bool
is_cursor_empty (reql c m) = is_instance c cursor_empty
is_cursor_empty (builtin b) = false

module _ {Item V : Type 0} (codec : Codec Item V) where
  -- `_maybe_fetch_batch`. `_continue` is called, and checks the connection, before the task is made that
  -- sends the query.
  unfoldable pub maybe_fetch_batch : ℕ → Action Item V (Unit {0})
  maybe_fetch_batch t = do
    wanted ← at_cursor t (gets wants_batch)
    when wanted do
      at_cursor t count_request
      check_open
      modify (λ w. record w { tasks = w.tasks ++ t ∷ [] })

  -- The first task of `_continue` that has not started.
  unfoldable pub run_task : Action Item V (Unit {0})
  run_task w = elim w.tasks [
    | [] ↦ (ok tt, w)
    | t ∷ ts ↦ post codec (new_query continue t none none) (record w { tasks = ts })
  ]

  -- `Response(token, buf, decoder)`, for the decoder of the query.
  unfoldable pub parse_response : Query V → Bytes → Action Item V (Response Item)
  parse_response q buf w = elim (codec.decode q buf) [
    | none ↦ (raised (builtin value_error), w)
    | some res ↦ (ok res, w)
  ]

  -- `_extend`
  unfoldable pub extend : ℕ → Bytes → Action Item V (Unit {0})
  extend t buf = do
    at_cursor t uncount_request
    maybe_fetch_batch t
    q ← at_cursor t (gets (λ c. c.query))
    res ← parse_response q buf
    at_cursor t (extend_internal codec res)

  -- `_error`
  unfoldable pub cursor_error : Message → ℕ → Action Item V (Unit {0})
  cursor_error m t = do
    has_error ← at_cursor t (gets (λ c. is_some c.error))
    unless has_error
        do at_cursor t (set_error (reql runtime_error m)); extend t codec.dummy_response

  -- `close`, with `_stop`.
  unfoldable pub close_cursor : ℕ → Action Item V (Unit {0})
  close_cursor t = do
    has_error ← at_cursor t (gets (λ c. is_some c.error))
    unless has_error do
      at_cursor t (set_error empty_error)
      live ← gets is_open
      when live do at_cursor t count_request; check_open; post codec (new_query stop t none none)

  abbrev pub pop_item : Item → List Item → ℕ → Action Item V Item
  pop_item x xs t = do at_cursor t (modify (λ c. record c { items = xs })); pure x

  abbrev pub wait_or_raise : {A : Type 0} → Option Exn → Action Item V A
  wait_or_raise none = block
  wait_or_raise (some e) = raise e

  -- What `_get_next` does with the items that it finds.
  unfoldable pub next_from : List Item → ℕ → Action Item V Item
  next_from (x ∷ xs) t = pop_item x xs t
  next_from [] t = do
    maybe_fetch_batch t
    error ← at_cursor t (gets (λ c. c.error))
    wait_or_raise error

  -- A round of `_get_next`: it blocks where it waits for the next response.
  unfoldable pub get_next : ℕ → Action Item V Item
  get_next t = do items ← at_cursor t (gets (λ c. c.items)); next_from items t

  -- What `fetch_next` does with the items and the error that it finds, and with its result at the end.
  unfoldable pub fetch_from : List Item → Option Exn → ℕ → Action Item V Bool
  fetch_from (x ∷ xs) error t = pure true
  fetch_from [] (some e) t = pure (not (is_cursor_empty e))
  fetch_from [] none t = do
    maybe_fetch_batch t
    error ← at_cursor t (gets (λ c. c.error))
    wait_or_raise error

  -- A round of `fetch_next`.
  unfoldable pub fetch_next : ℕ → Action Item V Bool
  fetch_next t = do c ← at_cursor t (gets (λ c. c)); fetch_from c.items c.error t
