-- ===== src/Ast/Compose.antt =====
-- errors.py, `class T`, and the methods `compose` of ast.py.
-- A text under construction is the list of the strings that iteration over it yields. Iterating over a
-- Python string yields its characters; the parts of a separator that is a list come whole.
use rethinkdb_python.Base.{
  ℕ, String, Bool, true, false, Option, none, some, List, [], ◌∷◌, ◌++◌, map, if◌then◌else◌,
}
pub use rethinkdb_python.Base.Text.{codes}
use rethinkdb_python.Ast.Classes.{
  Form, bi_oper, top_level, method, bracketed, bool_oper, slice, make_array, make_obj, implicit_var,
  negation, fun_call, table, binary, db, array_class, object_class,
}
use rethinkdb_python.Ast.Term.{Term, datum, node}

-- The code points of a string.
abbrev pub Token : Type 0
Token = List ℕ

abbrev pub Text : Type 0
Text = List Token

-- What iteration over a string yields.
abbrev pub singles : Token → Text
singles [] = []
singles (c ∷ s) = (c ∷ []) ∷ singles s

abbrev pub chars : String → Text
chars s = singles (codes s)

-- `T(*seq, intsp=sep)`
abbrev pub join : Text → List Text → Text
join sep [] = []
join sep (t ∷ []) = t
join sep (t ∷ u ∷ ts) = t ++ (sep ++ join sep (u ∷ ts))

-- What `compose` asks of an argument's class.
pub data ArgKind : Type 0 where
  a_datum a_sequence a_db an_other : ArgKind

abbrev pub kind_of : {D : Type 0} → Term D → ArgKind
kind_of (datum d) = a_datum
kind_of (node array_class flag ts os) = a_sequence
kind_of (node object_class flag ts os) = a_sequence
kind_of (node db flag ts os) = a_db
kind_of _ = an_other

-- An entry of `args`, with the class of the entry of `self._args` beside it.
abbrev pub Arg : Type 0
Arg = ArgKind × Text

-- `needs_wrap`
abbrev pub needs_wrap : ArgKind → Bool
needs_wrap a_datum = true
needs_wrap a_sequence = true
needs_wrap _ = false

abbrev pub is_datum : ArgKind → Bool
is_datum a_datum = true
is_datum _ = false

abbrev pub is_db : ArgKind → Bool
is_db a_db = true
is_db _ = false

abbrev pub wrap_if : Bool → Text → Text
wrap_if b t = if b then chars "r.expr(" ++ (t ++ chars ")") else t

abbrev pub wrapped : Arg → Text
wrapped (k, t) = wrap_if (needs_wrap k) t

abbrev pub plain : Arg → Text
plain (k, t) = t

-- `T(key, "=", value)`
abbrev pub keyword : String × Text → Text
keyword (k, t) = chars k ++ (chars "=" ++ t)

abbrev pub call : String → List Text → Text
call st ts = chars st ++ (chars "(" ++ (join (chars ", ") ts ++ chars ")"))

-- `[" ", st, " "]`
abbrev pub spaced : String → Text
spaced st = codes " " ∷ codes st ∷ codes " " ∷ []

-- `RqlMethodQuery.compose`
abbrev pub compose_method : String → List Arg → List (String × Text) → Text
compose_method st [] opts = chars "r." ++ (chars st ++ chars "()")
compose_method st (a ∷ args) opts =
    wrapped a ++ (chars "." ++ call st (map plain args ++ map keyword opts))

module _ (repr_key : String → Token) where
  abbrev pub entry : String × Text → Text
  entry (k, t) = singles (repr_key k) ++ (chars ": " ++ t)

  -- `compose` of a node; `none` is an IndexError, or an AttributeError for a missing `st_infix`.
  unfoldable pub compose : Form → Bool → List Arg → List (String × Text) → Option Text
  compose (bi_oper st) flag args opts =
      some (chars "(" ++ (join (spaced st) (map wrapped args) ++ chars ")"))
  compose (bool_oper st (some st_infix)) true args opts =
      some (chars "(" ++ (join (spaced st_infix) (map wrapped args) ++ chars ")"))
  compose (bool_oper st none) true args opts = none
  compose (bool_oper st st_infix) false args opts = some (chars "r." ++ call st (map wrapped args))
  compose (top_level st) flag args opts =
      some (chars "r." ++ call st (map plain args ++ map keyword opts))
  compose (method st) flag args opts = some (compose_method st args opts)
  compose (bracketed st) true [] opts = none
  compose (bracketed st) true (a ∷ args) opts =
      some (wrapped a ++ (chars "[" ++ (join (chars ",") (map plain args) ++ chars "]")))
  compose (bracketed st) false args opts = some (compose_method st args opts)
  compose slice true (a ∷ (k, from) ∷ (l, to) ∷ rest) opts =
      some (wrapped a ++ (chars "[" ++ (from ++ (chars ":" ++ (to ++ chars "]")))))
  compose slice true _ opts = none
  compose slice false args opts = some (compose_method "slice" args opts)
  compose make_array flag args opts =
      some (chars "[" ++ (join (chars ", ") (map plain args) ++ chars "]"))
  compose make_obj flag args opts =
      some (chars "r.expr({" ++ (join (chars ", ") (map entry opts) ++ chars "})"))
  compose implicit_var flag args opts = some (chars "r.row")
  compose negation flag [] opts = none
  compose negation flag ((k, t) ∷ args) opts =
      some (chars "(~" ++ (wrap_if (is_datum k) t ++ chars ")"))
  compose fun_call flag [] opts = none
  compose fun_call flag ((k, f) ∷ (l, x) ∷ []) opts =
      some (wrap_if (is_datum l) x ++ (chars ".do(" ++ (f ++ chars ")")))
  compose fun_call flag ((k, f) ∷ args) opts = some (
      chars "r.do("
      ++ (join (chars ", ") (join (chars ", ") (map plain args) ∷ f ∷ []) ++ chars ")"))
  compose table flag [] opts = none
  compose table flag ((k, t) ∷ args) opts =
      let rest = map plain args ++ map keyword opts in
      some (
        if is_db k
        then t ++ (chars ".table(" ++ (join (chars ", ") rest ++ chars ")"))
        else chars "r.table(" ++ (join (chars ", ") (t ∷ rest) ++ chars ")"))
  compose binary flag args opts =
      some (chars "r." ++ call "binary" (map plain args ++ map keyword opts))
