-- ===== src/Ast/Methods/Named.antt =====
-- ast.py and query.py: a term prints as a call of the method that makes it.
use rethinkdb_python.Base.{
  String, ◌≡◌, refl, subst, ◌⊎◌, inl, inr, Bool, true, false, Bool-cases, ◌&&◌, ◌||◌, Option, none,
  some, List, [], ◌∷◌, str_eq, eq_iff,
}
use rethinkdb_python.Ast.Classes.{Class, Form, top_level, method, bracketed, bool_oper, slice, form}
use rethinkdb_python.Ast.Methods.{
  operator_methods, document_methods, sequence_methods, value_methods, root_functions,
  operator_functions, value_functions, query_methods, database_methods, table_methods,
  module_functions, find, Receiver, any_query, database, a_table, the_module, or_inherited, lookup,
}

-- The name in the printed call, of the forms that print as a call by name.
unfoldable pub printed_name : Form → Option String
printed_name (top_level s) = some s
printed_name (method s) = some s
printed_name (bracketed s) = some s
printed_name (bool_oper s _) = some s
printed_name slice = some "slice"
printed_name _ = none

-- A name that prints as another.
abbrev is_alias : String → String → Bool
is_alias name s = str_eq name "to_json" && str_eq s "to_json_string"

abbrev prints_as : String → Option String → Bool
prints_as name none = true
prints_as name (some s) = str_eq s name || is_alias name s

all_print : List (String × Class) → Bool
all_print [] = true
all_print ((name, c) ∷ table) = prints_as name (printed_name (form c)) && all_print table

all_print-query_methods : all_print query_methods ≡ true
unfolding all_print operator_methods document_methods sequence_methods value_methods printed_name
all_print-query_methods = refl

all_print-database_methods : all_print database_methods ≡ true
unfolding all_print database_methods printed_name
all_print-database_methods = refl

all_print-table_methods : all_print table_methods ≡ true
unfolding all_print table_methods printed_name
all_print-table_methods = refl

all_print-module_functions : all_print module_functions ≡ true
unfolding all_print root_functions operator_functions value_functions printed_name
all_print-module_functions = refl

both_true : (a b : Bool) → (a && b) ≡ true → (a ≡ true) × (b ≡ true)
both_true true b e = (refl, e)
both_true false b e = cc

find_prints :
    (table : List (String × Class)) (name : String) (c : Class)
    → all_print table ≡ true
    → find name table ≡ some c
    → prints_as name (printed_name (form c)) ≡ true
unfolding find all_print
find_prints [] name c p e = cc
find_prints ((key, d) ∷ table) name c p e =
    let (here, rest) = both_true (prints_as key (printed_name (form d))) (all_print table) p in
    elim (Bool-cases (str_eq key name)) [
      | inl f ↦
          let same : key ≡ name = (eq_iff key name).0 f in
          let found : ◌≡◌ {A = Option Class} (some d) (some c) = rw f at e in
          let class : d ≡ c = cc in
          subst (λ x. prints_as name (printed_name (form x)) ≡ true) class
            (subst (λ x. prints_as x (printed_name (form d)) ≡ true) same here)
      | inr f ↦ find_prints table name c rest (rw f at e)
    ]

or_inherited_prints :
    (a b : Option Class) (name : String) (c : Class)
    → ((d : Class) → a ≡ some d → prints_as name (printed_name (form d)) ≡ true)
    → ((d : Class) → b ≡ some d → prints_as name (printed_name (form d)) ≡ true)
    → or_inherited a b ≡ some c
    → prints_as name (printed_name (form c)) ≡ true
or_inherited_prints none b name c p q e = q c e
or_inherited_prints (some d) b name c p q e = p c e

lookup_prints :
    (r : Receiver) (name : String) (c : Class)
    → lookup r name ≡ some c
    → prints_as name (printed_name (form c)) ≡ true
unfolding lookup
lookup_prints any_query name c e = find_prints query_methods name c all_print-query_methods e
lookup_prints database name c e =
    or_inherited_prints (find name database_methods) (find name query_methods) name c
      (λ d f. find_prints database_methods name d all_print-database_methods f)
      (λ d f. find_prints query_methods name d all_print-query_methods f) e
lookup_prints a_table name c e =
    or_inherited_prints (find name table_methods) (find name query_methods) name c
      (λ d f. find_prints table_methods name d all_print-table_methods f)
      (λ d f. find_prints query_methods name d all_print-query_methods f) e
lookup_prints the_module name c e = find_prints module_functions name c all_print-module_functions e

-- Whatever the name and the object it is an attribute of: if it makes a term whose class prints as a call by
-- name, then the name printed is the one that was called, or it is `to_json` and prints as
-- `to_json_string`, which makes the same term.
pub lookup-printed_name :
    (r : Receiver) (name s : String) (c : Class)
    → lookup r name ≡ some c
    → printed_name (form c) ≡ some s
    → (s ≡ name) ⊎ ((name ≡ "to_json") × (s ≡ "to_json_string"))
lookup-printed_name r name s c e p =
    let prints : prints_as name (some s) ≡ true =
      subst (λ o. prints_as name o ≡ true) p (lookup_prints r name c e) in
    elim (Bool-cases (str_eq s name)) [
      | inl f ↦ inl ((eq_iff s name).0 f)
      | inr f ↦
          let (a, b) =
            both_true (str_eq name "to_json") (str_eq s "to_json_string") (rw f at prints) in
          inr ((eq_iff name "to_json").0 a, (eq_iff s "to_json_string").0 b)
    ]
