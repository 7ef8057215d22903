-- ===== src/Handshake/Number.antt =====
-- handshake.py: the entries of a response that the login compares with numbers.
use rethinkdb_python.Base.{ℕ, suc, Bool, true, false, Option, none, some, leb}
use rethinkdb_python.Base.Integer.{ℤ, pos, negsuc}
use rethinkdb_python.Base.Exec.{Outcome, ok, raised}
use rethinkdb_python.Base.Outcome.{or_raise}
use rethinkdb_python.Errors.{Exn, builtin, type_error}

-- A value of JSON, as Python compares it with whole numbers: `true` and `false` are 1 and 0, `fraction z`
-- lies between z and z + 1, and no order holds of `nan`. What is no number is null, a text, a list or an object.
pub data JsonValue : Type 0 where
  whole fraction : ℤ → JsonValue
  infinity minus_infinity nan no_number : JsonValue

-- `n <= value`; none where Python has no such comparison.
abbrev pub at_least : ℕ → JsonValue → Option Bool
at_least n (whole (pos m)) = some (leb n m)
at_least n (whole (negsuc m)) = some false
at_least n (fraction (pos m)) = some (leb n m)
at_least n (fraction (negsuc m)) = some false
at_least n infinity = some true
at_least n minus_infinity = some false
at_least n nan = some false
at_least n no_number = none

-- `value <= n`
abbrev pub at_most : ℕ → JsonValue → Option Bool
at_most n (whole (pos m)) = some (leb m n)
at_most n (whole (negsuc m)) = some true
at_most n (fraction (pos m)) = some (leb (suc m) n)
at_most n (fraction (negsuc m)) = some true
at_most n infinity = some false
at_most n minus_infinity = some true
at_most n nan = some false
at_most n no_number = none

-- `a <= b <= c`: the second comparison is made where the first one holds.
abbrev pub chained : Option Bool → Option Bool → Outcome Exn Bool
chained none second = raised (builtin type_error)
chained (some false) second = ok false
chained (some true) second = or_raise (builtin type_error) second
