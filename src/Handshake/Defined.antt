-- ===== src/Handshake/Defined.antt =====
-- handshake.py: the fields that are read have been set.
use rethinkdb_python.Base.{Option, some}
use rethinkdb_python.Base.Exec.{Outcome, raised}
use rethinkdb_python.Errors.{Exn, builtin, type_error}
use rethinkdb_python.Handshake.Number.{JsonValue, no_number}
use rethinkdb_python.Handshake.State.{Handshake, Reply}

-- The exception of Python for an operation on `None`.
abbrev pub none_used : {A : Type 0} → Outcome Exn A
none_used = raised (builtin type_error)

-- The entry is missing, or Python can compare it with numbers.
abbrev pub IsNumber : Option JsonValue → Type 0
IsNumber (some no_number) = ⊥
IsNumber _ = Unit

-- No entry that the login compares with numbers is null, a text, a list or an object.
pub record HasNumbers (r : Reply) : Type 0 where
  pub error_code : IsNumber r.error_code
  pub min_protocol_version : IsNumber r.min_protocol_version
  pub max_protocol_version : IsNumber r.max_protocol_version

-- What the server sent is an object with such entries, or no object.
abbrev pub AnyNumbers : Option (Option Reply) → Type 0
AnyNumbers (some (some r)) = HasNumbers r
AnyNumbers _ = Unit
