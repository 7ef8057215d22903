-- ===== src/Net/Connection.antt =====
-- net.py: `class Connection`, the methods after the constructor.
pub mod Closed
mod Tests
use rethinkdb_python.Base.{ℕ, ◌+◌, Bool, true, false, Option, none, some, if◌then◌else◌}
use rethinkdb_python.Base.Exec.{ok, pure, modify, gets, ◌>>=◌, ◌>>◌}
use rethinkdb_python.Net.Query.{
  QueryType, Query, Optargs, start, noreply_wait, new_query, get_optarg, set_optarg,
}
use rethinkdb_python.Net.Response.{Value}
use rethinkdb_python.Net.World.{Codec, Action}
use rethinkdb_python.Net.Fetch.{instance_is_open, check_open}
use rethinkdb_python.Net.Instance
use rethinkdb_python.Net.Instance.{run_query}

module _ {Item V : Type 0} (codec : Codec Item V) where
  -- `is_open`
  unfoldable pub is_open : Action Item V Bool
  is_open w = if w.attached then instance_is_open codec w else (ok false, w)

  -- `use`
  unfoldable pub use_db : Option V → Action Item V (Unit {0})
  use_db db = modify (λ w. record w { db = db })

  -- `_new_token`
  unfoldable pub new_token : Action Item V ℕ
  new_token = do
    res ← gets (λ w. w.next_token)
    modify (λ w. record w { next_token = w.next_token + 1 })
    pure res

  unfoldable pub wait_query : Bool → ℕ → Option (Query V)
  wait_query false token = none
  wait_query true token = some (new_query noreply_wait token none none)

  -- `close`
  unfoldable pub close : Bool → Action Item V (Unit {0})
  close wait w =
      if w.attached
      then (do
        token ← new_token
        modify (λ v. record v { attached = false; next_token = 0 })
        Instance.close codec (wait_query wait token))
          w
      else (ok tt, w)

  -- `noreply_wait` and `server`
  unfoldable pub ask : QueryType → Action Item V (Value Item)
  ask type = do
    check_open codec
    token ← new_token
    run_query codec (new_query type token none none) false

  -- `DB(global_optargs.get("db", self.db))`, where there is a database to name.
  abbrev pub with_db : Option V → Optargs V → Optargs V
  with_db db d = elim (get_optarg "db" d) [
    | some v ↦ set_optarg "db" (codec.db_term v) d
    | none ↦ elim db [ some v ↦ set_optarg "db" (codec.db_term v) d | none ↦ d ]
  ]

  abbrev pub noreply_of : Optargs V → Bool
  noreply_of d = elim (get_optarg "noreply" d) [ none ↦ false | some v ↦ codec.is_true v ]

  -- `_start`
  unfoldable pub start_query : V → Optargs V → Action Item V (Value Item)
  start_query term optargs = do
    check_open codec
    db ← gets (λ w. w.db)
    let d = with_db db optargs
    token ← new_token
    run_query codec (new_query start token (some term) (some d)) (noreply_of d)
