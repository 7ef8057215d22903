-- ===== src/Ast/Expr.antt =====
-- ast.py, `expr`: the conversion of a Python value to a term, with a limit on the nesting depth.
pub mod Depth
use rethinkdb_python.Base.{
  ℕ, zero, suc, ◌≤◌, ◌<◌, String, Bool, true, false, ◌||◌, Option, none, some, List, [], ◌∷◌,
  if◌then◌else◌,
}
use rethinkdb_python.Base.Struct.{Bytes}
use rethinkdb_python.Base.Exec.{Outcome, ok, raised, blocked}
use rethinkdb_python.Base.Outcome.{◌>>=◌}
use rethinkdb_python.Errors.{
  Exn, reql, driver_compile_error, nesting_depth_exceeded, missing_time_zone, keys_must_be_strings,
}
use rethinkdb_python.Ast.Classes.{Class, time_class, iso8601, array_class, object_class}
use rethinkdb_python.Ast.Term.{
  Term, Terms, Optargs, datum, node, binary_data, no_terms, term, no_optargs, optarg,
}

-- A Python value, by the branch of `expr` that takes it. `callable` holds what `Func(val)` does, which calls the
-- function; `moment` the text of a date, or none where it has no time zone; `atom` a string, a number or any
-- other value. A key of a mapping is none where it is not a string.
mutual
  pub data Val (D : Type 0) : Type 0 where
    query : Term D → Val D
    callable : Outcome Exn (Term D) → Val D
    moment : Option D → Val D
    binary : Bytes → Val D
    atom : D → Val D
    sequence : Vals D → Val D
    mapping : Entries D → Val D

  pub data Vals (D : Type 0) : Type 0 where
    no_vals : Vals D
    val : Val D → Vals D → Vals D

  pub data Entries (D : Type 0) : Type 0 where
    no_entries : Entries D
    entry : Option String → Val D → Entries D → Entries D

abbrev pub compile_error_exn : Exn
compile_error_exn = reql driver_compile_error nesting_depth_exceeded

module _ {D : Type 0} where
  abbrev pub to_time : Option D → Outcome Exn (Term D)
  to_time none = raised (reql driver_compile_error missing_time_zone)
  to_time (some d) = ok (node (time_class iso8601) false (term (datum d) no_terms) no_optargs)

  -- The constructor of `MakeObj`.
  abbrev pub to_optargs : List (Option String × Term D) → Outcome Exn (Optargs D)
  to_optargs [] = ok no_optargs
  to_optargs ((none, t) ∷ es) = raised (reql driver_compile_error keys_must_be_strings)
  to_optargs ((some k, t) ∷ es) = do os ← to_optargs es; ok (optarg k t os)

  abbrev pub make_array : Terms D → Outcome Exn (Term D)
  make_array ts = ok (node array_class false ts no_optargs)

  abbrev pub make_object : List (Option String × Term D) → Outcome Exn (Term D)
  make_object es = do os ← to_optargs es; ok (node object_class false no_terms os)

  -- The second argument is `nesting_depth`, where a number below 0 does what 0 does.
  unfoldable mutual
    pub expr : Val D → ℕ → Outcome Exn (Term D)
    expr v zero = raised compile_error_exn
    expr (query t) (suc n) = ok t
    expr (callable o) (suc n) = o
    expr (moment d) (suc n) = to_time d
    expr (binary b) (suc n) = ok (binary_data b)
    expr (atom d) (suc n) = ok (datum d)
    expr (sequence vs) (suc n) = expr_all vs n >>= make_array
    expr (mapping es) (suc n) = expr_entries es n >>= make_object

    pub expr_all : Vals D → ℕ → Outcome Exn (Terms D)
    expr_all no_vals n = ok no_terms
    expr_all (val v vs) n = do t ← expr v n; ts ← expr_all vs n; ok (term t ts)

    pub expr_entries : Entries D → ℕ → Outcome Exn (List (Option String × Term D))
    expr_entries no_entries n = ok []
    expr_entries (entry k v es) n = do t ← expr v n; ts ← expr_entries es n; ok ((k, t) ∷ ts)
