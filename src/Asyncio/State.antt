-- ===== src/Asyncio/State.antt =====
-- asyncio_net/net_asyncio.py: the objects of one connection. A cursor is named by the token of its query, which
-- is fresh while the instance lives.
use rethinkdb_python.Base.{
  ℕ, Bool, true, false, not, ◌&&◌, ◌||◌, Option, none, some, List, [], ◌∷◌, ◌++◌, ◌==◌, length,
  if◌then◌else◌,
}
use rethinkdb_python.Base.Struct.{Bytes}
use rethinkdb_python.Base.Exec.{Outcome, ok, raised, Exec, modify, skip, ◌>>=◌, ◌>>◌}
use rethinkdb_python.Errors.{
  Exn, reql, builtin, attribute_error, invalid_state_error, driver_error, connection_is_closed,
}
use rethinkdb_python.Net.Query.{Query, serialize}
use rethinkdb_python.Net.Response.{Value}
use rethinkdb_python.Net.World.{Codec, Cursor, find_cursor, replace_cursor}

-- What `set_result` and `set_exception` give to a future.
pub data Answer (Item : Type 0) : Type 0 where
  result : Value Item → Answer Item
  exception : Exn → Answer Item

-- An `asyncio.Future`, by what its methods tell of it.
pub data Future (Item : Type 0) : Type 0 where
  pending cancelled : Future Item
  answered : Answer Item → Future Item

-- A query, and the future that its coroutine waits for. `listed` says that `_user_queries[query.token]` is
-- this pair.
pub record UserQuery (Item V : Type 0) : Type 0 where
  pub query : Query V
  pub future : Future Item
  pub listed : Bool

-- `attached` says that the `_instance` of the connection is this instance. `reading` says that the task of
-- `_reader` has not ended, `header` is its `buf` while it waits for the rest of a response. `input` and
-- `at_end` are what the `StreamReader` has, `sent` and `writer_closed` what the `StreamWriter` was told.
-- `tasks` are the cursors, by token, for which a task of `_continue` has not started.
pub record Instance (Item V : Type 0) : Type 0 where
  pub attached : Bool
  pub closing : Bool
  pub reading : Bool
  pub header : Option Bytes
  pub input : Bytes
  pub at_end : Bool
  pub sent : Bytes
  pub writer_closed : Bool
  pub tasks : List ℕ
  pub cursors : List (Cursor Item V)
  pub queries : List (UserQuery Item V)

abbrev pub Action : Type 0 → Type 0 → Type 0 → Type 0
Action Item V A = Exec Exn (Instance Item V) A

abbrev pub is_pending : {Item : Type 0} → Future Item → Bool
is_pending pending = true
is_pending _ = false

module _ {Item V : Type 0} where
  -- A method on the cursor with token `t`.
  unfoldable pub at_cursor : {A : Type 0} → ℕ → Exec Exn (Cursor Item V) A → Action Item V A
  at_cursor t m w = elim (find_cursor t w.cursors) [
    | none ↦ (raised (builtin attribute_error), w)
    | some c ↦ ((m c).0, record w { cursors = replace_cursor t (m c).1 w.cursors })
  ]

  -- `self._user_queries.get(t)`
  abbrev pub find_query : ℕ → List (UserQuery Item V) → Option (UserQuery Item V)
  find_query t [] = none
  find_query t (q ∷ qs) = if q.listed && q.query.token == t then some q else find_query t qs

  abbrev pub update_query :
      ℕ → (UserQuery Item V → UserQuery Item V) → List (UserQuery Item V) → List (UserQuery Item V)
  update_query t f [] = []
  update_query t f (q ∷ qs) =
      if q.listed && q.query.token == t then f q ∷ qs else q ∷ update_query t f qs

  -- `del self._user_queries[t]`
  abbrev pub unlist : UserQuery Item V → UserQuery Item V
  unlist q = record q { listed = false }

  -- `set_result` and `set_exception` of the future of the query with token `t`, which is `q`: a future that
  -- is done, or was cancelled, is left alone, and an InvalidStateError is raised.
  unfoldable pub set_future : ℕ → UserQuery Item V → Answer Item → Action Item V (Unit {0})
  set_future t q a w =
      if is_pending q.future
      then (
        ok tt,
        record w { queries = update_query t (λ p. record p { future = answered a }) w.queries },
      )
      else (raised (builtin invalid_state_error), w)

  -- `is_open`
  abbrev pub is_open : Instance Item V → Bool
  is_open w = not (w.closing || (w.at_end && length w.input == 0))

  -- `check_open` of the connection
  unfoldable pub check_open : Action Item V (Unit {0})
  check_open w =
      if w.attached && is_open w
      then (ok tt, w)
      else (raised (reql driver_error connection_is_closed), w)

  abbrev pub of_outcome : {A : Type 0} → Outcome Exn A → Action Item V A
  of_outcome o w = (o, w)

  -- A query with a new future.
  abbrev pub waiting : Query V → UserQuery Item V
  waiting q = record { query = q; future = pending; listed = true }

  -- `self._user_queries[query.token] = (query, response_future)`
  unfoldable pub add_query : Query V → Action Item V (Unit {0})
  add_query q = modify (λ w. record w { queries = w.queries ++ waiting q ∷ [] })

module _ {Item V : Type 0} (codec : Codec Item V) where
  -- `run_query(query, True)`
  unfoldable pub post : Query V → Action Item V (Unit {0})
  post q = do
    bytes ← of_outcome (serialize (codec.encode q.json_encoder) q)
    modify (λ w. record w { sent = w.sent ++ bytes })

  -- `run_query`, down to where it waits for the future.
  unfoldable pub run_query : Query V → Bool → Action Item V (Unit {0})
  run_query q noreply = do post q; if noreply then skip else add_query q
