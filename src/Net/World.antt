-- ===== src/Net/World.antt =====
-- net.py: the objects of one connection and the actions on them.
-- A `World` is a `Connection`, one `ConnectionInstance` of it, the socket of that and its cursors.
-- A cursor object is named by the token of its query, which is fresh while the instance lives.
pub mod Laws
pub mod Quiet
use rethinkdb_python.Base.{
  ℕ, Bool, true, false, Option, none, some, List, [], ◌∷◌, String, ◌==◌, if◌then◌else◌,
}
use rethinkdb_python.Base.Struct.{Bytes}
use rethinkdb_python.Base.Integer.{ℤ}
use rethinkdb_python.Base.Exec.{Outcome, ok, raised, blocked, Exec}
use rethinkdb_python.Errors.{Exn, builtin, attribute_error, key_error}
use rethinkdb_python.Net.Socket.{Socket}
use rethinkdb_python.Net.Query.{Part, Query}
use rethinkdb_python.Net.Response.{Response}

-- What the connection takes from outside: the JSON codecs, the dummy response of `_error` in their
-- syntax, the text of a server's message, `DB(v)`, and whether a value is true.
pub record Codec (Item V : Type 0) : Type 0 where
  pub encode : Option V → List (Part V) → Bytes
  pub decode : Query V → Bytes → Option (Response Item)
  pub dummy_response : Bytes
  pub text : Item → String
  pub db_term : V → V
  pub is_true : V → Bool

-- `registered` says that `_cursor_cache[query.token]` is this cursor.
pub record Cursor (Item V : Type 0) : Type 0 where
  pub query : Query V
  pub items : List Item
  pub outstanding_requests : ℤ
  pub threshold : ℕ
  pub error : Option Exn
  pub registered : Bool

-- `attached` says that the `_instance` of the connection is this instance, which else is `None`.
pub record World (Item V : Type 0) : Type 0 where
  pub attached : Bool
  pub next_token : ℕ
  pub db : Option V
  pub closing : Bool
  pub header_in_progress : Option Bytes
  pub socket : Option Socket
  pub cursors : List (Cursor Item V)

abbrev pub Action : Type 0 → Type 0 → Type 0 → Type 0
Action Item V A = Exec Exn (World Item V) A

module _ {Item V : Type 0} where
  abbrev pub find_cursor : ℕ → List (Cursor Item V) → Option (Cursor Item V)
  find_cursor t [] = none
  find_cursor t (c ∷ cs) = if c.query.token == t then some c else find_cursor t cs

  abbrev pub replace_cursor : ℕ → Cursor Item V → List (Cursor Item V) → List (Cursor Item V)
  replace_cursor t d [] = []
  replace_cursor t d (c ∷ cs) = if c.query.token == t then d ∷ cs else c ∷ replace_cursor t d cs

  -- A method on the cursor with token `t`.
  unfoldable pub at_cursor : {A : Type 0} → ℕ → Exec Exn (Cursor Item V) A → Action Item V A
  at_cursor t m w = elim (find_cursor t w.cursors) [
    | none ↦ (raised (builtin attribute_error), w)
    | some c ↦ ((m c).0, record w { cursors = replace_cursor t (m c).1 w.cursors })
  ]

  -- A method on `self._socket`; on `None` it is an AttributeError.
  unfoldable pub at_socket : {A : Type 0} → Exec Exn Socket A → Action Item V A
  at_socket m w = elim w.socket [
    | none ↦ (raised (builtin attribute_error), w)
    | some s ↦ ((m s).0, record w { socket = some (m s).1 })
  ]

  abbrev pub of_outcome : {A : Type 0} → Outcome Exn A → Action Item V A
  of_outcome o w = (o, w)
