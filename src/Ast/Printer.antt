-- ===== src/Ast/Printer.antt =====
-- errors.py: `class QueryPrinter`.
pub mod Align
pub mod Same
use rethinkdb_python.Base.{
  ℕ, zero, suc, ◌+◌, String, Bool, true, false, Option, none, some, List, [], ◌∷◌, ◌++◌, map, ◌==◌,
  str_eq, if◌then◌else◌,
}
use rethinkdb_python.Ast.Classes.{Class, form}
use rethinkdb_python.Ast.Term.{
  Term, Terms, Optargs, datum, node, binary_data, var, func, no_terms, term, no_optargs, optarg,
}
use rethinkdb_python.Ast.Compose.{Token, Text, codes, singles, chars, join, Arg, kind_of, compose}

-- A step of the path to the term that failed: an argument's number, or an optional argument's name.
pub data Frame : Type 0 where
  position : ℕ → Frame
  key : String → Frame

abbrev pub at_position : Frame → ℕ → Bool
at_position (position i) j = i == j
at_position (key k) j = false

abbrev pub at_key : Frame → String → Bool
at_key (position i) j = false
at_key (key k) j = str_eq k j

infixl 10 ◌>>=◌
abbrev pub ◌>>=◌ {ℓ κ} : {A : Type ℓ} {B : Type κ} → Option A → (A → Option B) → Option B
none >>= f = none
some a >>= f = f a

-- `"^"`, and `" " if i != "^" else "^"`
abbrev pub caret : Token → Token
caret t = codes "^"

abbrev pub is_caret : Token → Bool
is_caret [] = false
is_caret (c ∷ []) = c == b'^'
is_caret (c ∷ d ∷ s) = false

abbrev pub blank : Token → Token
blank t = if is_caret t then codes "^" else codes " "

abbrev pub pick : {A : Type 0} → Bool → A → A → A
pick true x y = x
pick false x y = y

-- `repr` of a value and of a key, of the standard library.
module _ {D : Type 0} (repr : D → Token) (repr_key : String → Token) where
  -- The string that `Var.compose` returns.
  abbrev pub var_text : D → Text
  var_text d = singles (codes "var_" ++ repr d)

  -- `Func.compose`, for the numbers of the arguments and the text of the body.
  abbrev pub func_text : List D → Text → Text
  func_text vars body =
      chars "lambda " ++ (join (chars ", ") (map var_text vars) ++ (chars ": " ++ body))

  unfoldable mutual
    pub compose_term : Term D → Option Text
    compose_term (datum d) = some (singles (repr d))
    compose_term (node c flag ts os) = do
      args ← compose_args ts
      opts ← compose_optargs os
      compose repr_key (form c) flag args opts
    compose_term (binary_data b) = some (chars "r.binary(bytes(<data>))")
    compose_term (var d) = some (var_text d)
    compose_term (func vars body) = do x ← compose_term body; some (func_text vars x)

    pub compose_args : Terms D → Option (List Arg)
    compose_args no_terms = some []
    compose_args (term t ts) = do
      x ← compose_term t
      xs ← compose_args ts
      some ((kind_of t, x) ∷ xs)

    pub compose_optargs : Optargs D → Option (List (String × Text))
    compose_optargs no_optargs = some []
    compose_optargs (optarg k t os) = do
      x ← compose_term t
      xs ← compose_optargs os
      some ((k, x) ∷ xs)

  abbrev pub carets : Term D → Option Text
  carets t = do x ← compose_term t; some (map caret x)

  -- `compose` of a `Var` whose number's carets are a list is a TypeError.
  abbrev pub var_carets : Bool → D → Option Text
  var_carets deeper d = if deeper then none else some (map blank (var_text d))

  unfoldable mutual
    pub compose_carrots : Term D → List Frame → Option Text
    compose_carrots t [] = carets t
    compose_carrots (datum d) (f ∷ fs) = some (map blank (singles (repr d)))
    compose_carrots (node c flag ts os) (f ∷ fs) = do
      args ← carrots_args 0 ts f fs
      opts ← carrots_optargs os f fs
      x ← compose repr_key (form c) flag args opts
      some (map blank x)
    compose_carrots (binary_data b) (f ∷ fs) = some (map blank (chars "r.binary(bytes(<data>))"))
    compose_carrots (var d) (f ∷ fs) = var_carets (at_position f 0) d
    compose_carrots (func vars body) (f ∷ fs) = do
      x ← pick (at_position f 1) (compose_carrots body fs) (compose_term body)
      some (map blank (func_text vars x))

    pub carrots_args : ℕ → Terms D → Frame → List Frame → Option (List Arg)
    carrots_args i no_terms f fs = some []
    carrots_args i (term t ts) f fs = do
      x ← pick (at_position f i) (compose_carrots t fs) (compose_term t)
      xs ← carrots_args (suc i) ts f fs
      some ((kind_of t, x) ∷ xs)

    pub carrots_optargs : Optargs D → Frame → List Frame → Option (List (String × Text))
    carrots_optargs no_optargs f fs = some []
    carrots_optargs (optarg k t os) f fs = do
      x ← pick (at_key f k) (compose_carrots t fs) (compose_term t)
      xs ← carrots_optargs os f fs
      some ((k, x) ∷ xs)

  -- `"".join(...)`
  abbrev pub concat : Text → Token
  concat [] = []
  concat (t ∷ ts) = t ++ concat ts

  abbrev pub print_query : Term D → Option Token
  print_query root = do x ← compose_term root; some (concat x)

  abbrev pub print_carrots : Term D → List Frame → Option Token
  print_carrots root frames = do x ← compose_carrots root frames; some (concat x)
