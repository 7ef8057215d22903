-- ===== src/Ast/Printer/Same.antt =====
-- errors.py, `class T`, and the methods `compose` of ast.py: how many tokens a composed text has depends on
-- how many its parts have.
use rethinkdb_python.Base.{
  ◌≡◌, refl, String, Bool, true, false, Option, none, some, List, [], ◌∷◌, ◌++◌, map, length,
  length-append, if◌then◌else◌, arith,
}
use rethinkdb_python.Ast.Classes.{
  Form, bi_oper, top_level, method, bracketed, bool_oper, slice, make_array, make_obj, implicit_var,
  negation, fun_call, table, binary,
}
use rethinkdb_python.Ast.Compose.{
  Token, Text, singles, chars, join, Arg, ArgKind, compose, wrap_if, wrapped, plain, keyword, call,
  spaced, needs_wrap, is_db, compose_method, entry,
}

-- Texts of equally many tokens.
pub data Same : Text → Text → Type 0 where
  same : {t u : Text} → length t ≡ length u → Same t u

pub length-Same : {t u : Text} → Same t u → length t ≡ length u
length-Same (same e) = e

pub refl-Same : (t : Text) → Same t t
refl-Same t = same refl

abbrev pub SameAll : List Text → List Text → Type 0
SameAll [] [] = Unit
SameAll (t ∷ ts) (u ∷ us) = Same t u × SameAll ts us
SameAll _ _ = ⊥

pub data SameArgs : List Arg → List Arg → Type 0 where
  no_args : SameArgs [] []
  arg :
      {k : ArgKind} {t u : Text} {xs ys : List Arg}
      → Same t u
      → SameArgs xs ys
      → SameArgs ((k, t) ∷ xs) ((k, u) ∷ ys)

abbrev pub SameOptargs : List (String × Text) → List (String × Text) → Type 0
SameOptargs [] [] = Unit
SameOptargs ((k, t) ∷ ts) ((l, u) ∷ us) = (k ≡ l) × Same t u × SameOptargs ts us
SameOptargs _ _ = ⊥

append-Same : {a b c d : Text} → Same a b → Same c d → Same (a ++ c) (b ++ d)
append-Same {a = a} {b = b} {c = c} {d = d} (same p) (same q) =
    same (omega (arith, length-append a c, length-append b d))

pub prefix-Same : (a : Text) {c d : Text} → Same c d → Same (a ++ c) (a ++ d)
prefix-Same a q = append-Same (refl-Same a) q

join-Same : (sep : Text) (ts us : List Text) → SameAll ts us → Same (join sep ts) (join sep us)
join-Same sep [] [] s = refl-Same []
join-Same sep [] (u ∷ us) s = absurd s
join-Same sep (t ∷ ts) [] s = absurd s
join-Same sep (t ∷ []) (u ∷ []) (p, s) = p
join-Same sep (t ∷ []) (u ∷ v ∷ us) (p, s) = absurd s
join-Same sep (t ∷ w ∷ ts) (u ∷ []) (p, s) = absurd s
join-Same sep (t ∷ w ∷ ts) (u ∷ v ∷ us) (p, s) =
    append-Same p (prefix-Same sep (join-Same sep (w ∷ ts) (v ∷ us) s))

wrap_if-Same : (b : Bool) (t u : Text) → Same t u → Same (wrap_if b t) (wrap_if b u)
wrap_if-Same true t u p = prefix-Same (chars "r.expr(") (append-Same p (refl-Same (chars ")")))
wrap_if-Same false t u p = p

wrapped-Same : (k : ArgKind) {t u : Text} → Same t u → Same (wrapped (k, t)) (wrapped (k, u))
wrapped-Same k p = wrap_if-Same (needs_wrap k) _ _ p

map-wrapped-SameAll :
    {xs ys : List Arg} → SameArgs xs ys → SameAll (map wrapped xs) (map wrapped ys)
map-wrapped-SameAll no_args = tt
map-wrapped-SameAll (arg p s) = (wrapped-Same _ p, map-wrapped-SameAll s)

map-plain-SameAll : {xs ys : List Arg} → SameArgs xs ys → SameAll (map plain xs) (map plain ys)
map-plain-SameAll no_args = tt
map-plain-SameAll (arg p s) = (p, map-plain-SameAll s)

map-keyword-SameAll :
    (xs ys : List (String × Text)) → SameOptargs xs ys → SameAll (map keyword xs) (map keyword ys)
map-keyword-SameAll [] [] s = s
map-keyword-SameAll [] (b ∷ ys) s = absurd s
map-keyword-SameAll (a ∷ xs) [] s = absurd s
map-keyword-SameAll ((k, t) ∷ xs) ((l, u) ∷ ys) (e, p, s) =
    (rw e (prefix-Same (chars l) (prefix-Same (chars "=") p)), map-keyword-SameAll xs ys s)

both-SameAll :
    (ts us vs ws : List Text) → SameAll ts us → SameAll vs ws → SameAll (ts ++ vs) (us ++ ws)
both-SameAll [] [] vs ws p q = q
both-SameAll [] (u ∷ us) vs ws p q = absurd p
both-SameAll (t ∷ ts) [] vs ws p q = absurd p
both-SameAll (t ∷ ts) (u ∷ us) vs ws (p, s) q = (p, both-SameAll ts us vs ws s q)

call-Same : (st : String) (ts us : List Text) → SameAll ts us → Same (call st ts) (call st us)
call-Same st ts us s =
    prefix-Same (chars st) (
      prefix-Same (chars "(")
        (append-Same (join-Same (chars ", ") ts us s) (refl-Same (chars ")"))))

rest-SameAll :
    (xs ys : List Arg) (os qs : List (String × Text))
    → SameArgs xs ys
    → SameOptargs os qs
    → SameAll (map plain xs ++ map keyword os) (map plain ys ++ map keyword qs)
rest-SameAll xs ys os qs s r =
    both-SameAll (map plain xs) (map plain ys) (map keyword os) (map keyword qs)
      (map-plain-SameAll s) (map-keyword-SameAll os qs r)

-- Both are errors, or texts of equally many tokens.
abbrev pub SameResult : Option Text → Option Text → Type 0
SameResult none none = Unit
SameResult (some t) (some u) = Same t u
SameResult _ _ = ⊥

compose_method-Same :
    (st : String) {xs ys : List Arg} (os qs : List (String × Text))
    → SameArgs xs ys
    → SameOptargs os qs
    → Same (compose_method st xs os) (compose_method st ys qs)
compose_method-Same st os qs no_args r = refl-Same (compose_method st [] os)
compose_method-Same st os qs (arg p s) r =
    append-Same (wrapped-Same _ p)
      (prefix-Same (chars ".") (call-Same st _ _ (rest-SameAll _ _ os qs s r)))

-- A text with an end put to it.
ended-Same : (e : String) {t u : Text} → Same t u → Same (t ++ chars e) (u ++ chars e)
ended-Same e p = append-Same p (refl-Same (chars e))

do-Same :
    {f g : Text} {xs ys : List Arg}
    → Same f g
    → SameArgs xs ys
    → Same
        (chars "r.do("
          ++ (join (chars ", ") (join (chars ", ") (map plain xs) ∷ f ∷ []) ++ chars ")"))
        (chars "r.do("
          ++ (join (chars ", ") (join (chars ", ") (map plain ys) ∷ g ∷ []) ++ chars ")"))
do-Same p s = prefix-Same (chars "r.do(") (
    ended-Same ")"
      (append-Same (join-Same (chars ", ") _ _ (map-plain-SameAll s)) (prefix-Same (chars ", ") p)))

table-Same :
    (b : Bool) (t u : Text) (ts us : List Text)
    → Same t u
    → SameAll ts us
    → Same
        (if b
          then t ++ (chars ".table(" ++ (join (chars ", ") ts ++ chars ")"))
          else chars "r.table(" ++ (join (chars ", ") (t ∷ ts) ++ chars ")"))
        (if b
          then u ++ (chars ".table(" ++ (join (chars ", ") us ++ chars ")"))
          else chars "r.table(" ++ (join (chars ", ") (u ∷ us) ++ chars ")"))
table-Same true t u ts us p s = append-Same p (
    prefix-Same (chars ".table(")
      (append-Same (join-Same (chars ", ") ts us s) (refl-Same (chars ")"))))
table-Same false t u ts us p s =
    prefix-Same (chars "r.table(")
      (append-Same (join-Same (chars ", ") (t ∷ ts) (u ∷ us) (p, s)) (refl-Same (chars ")")))

module _ (repr_key : String → Token) where
  entries-SameAll :
      (os qs : List (String × Text))
      → SameOptargs os qs
      → SameAll (map (entry repr_key) os) (map (entry repr_key) qs)
  entries-SameAll [] [] s = s
  entries-SameAll [] (q ∷ qs) s = absurd s
  entries-SameAll (o ∷ os) [] s = absurd s
  entries-SameAll ((k, t) ∷ os) ((l, u) ∷ qs) (e, p, s) = (
    rw e (prefix-Same (singles (repr_key l)) (prefix-Same (chars ": ") p)),
    entries-SameAll os qs s,
  )

  pub compose-SameResult :
      (f : Form) (flag : Bool) {xs ys : List Arg} (os qs : List (String × Text))
      → SameArgs xs ys
      → SameOptargs os qs
      → SameResult (compose repr_key f flag xs os) (compose repr_key f flag ys qs)
  unfolding compose
  compose-SameResult (bi_oper st) flag os qs s r =
      prefix-Same (chars "(") (ended-Same ")" (join-Same (spaced st) _ _ (map-wrapped-SameAll s)))
  compose-SameResult (bool_oper st (some i)) true os qs s r =
      prefix-Same (chars "(") (ended-Same ")" (join-Same (spaced i) _ _ (map-wrapped-SameAll s)))
  compose-SameResult (bool_oper st none) true os qs s r = tt
  compose-SameResult (bool_oper st i) false os qs s r =
      prefix-Same (chars "r.") (call-Same st _ _ (map-wrapped-SameAll s))
  compose-SameResult (top_level st) flag os qs s r =
      prefix-Same (chars "r.") (call-Same st _ _ (rest-SameAll _ _ os qs s r))
  compose-SameResult (method st) flag os qs s r = compose_method-Same st os qs s r
  compose-SameResult (bracketed st) true os qs no_args r = tt
  compose-SameResult (bracketed st) true os qs (arg p s) r =
      append-Same (wrapped-Same _ p)
        (prefix-Same (chars "[") (ended-Same "]" (join-Same (chars ",") _ _ (map-plain-SameAll s))))
  compose-SameResult (bracketed st) false os qs s r = compose_method-Same st os qs s r
  compose-SameResult make_array flag os qs s r =
      prefix-Same (chars "[") (ended-Same "]" (join-Same (chars ", ") _ _ (map-plain-SameAll s)))
  compose-SameResult make_obj flag os qs s r =
      prefix-Same (chars "r.expr({")
        (ended-Same "})" (join-Same (chars ", ") _ _ (entries-SameAll os qs r)))
  compose-SameResult implicit_var flag os qs s r = refl-Same (chars "r.row")
  compose-SameResult binary flag os qs s r =
      prefix-Same (chars "r.") (call-Same "binary" _ _ (rest-SameAll _ _ os qs s r))
  compose-SameResult slice false os qs s r = compose_method-Same "slice" os qs s r
  compose-SameResult slice true os qs no_args r = tt
  compose-SameResult slice true os qs (arg p no_args) r = tt
  compose-SameResult slice true os qs (arg p (arg q no_args)) r = tt
  compose-SameResult slice true os qs (arg p (arg q (arg q2 s))) r =
      append-Same (wrapped-Same _ p)
        (prefix-Same (chars "[") (append-Same q (prefix-Same (chars ":") (ended-Same "]" q2))))
  compose-SameResult negation flag os qs no_args r = tt
  compose-SameResult negation flag os qs (arg p s) r =
      prefix-Same (chars "(~") (ended-Same ")" (wrap_if-Same _ _ _ p))
  compose-SameResult fun_call flag os qs no_args r = tt
  compose-SameResult fun_call flag os qs (arg p no_args) r = do-Same p no_args
  compose-SameResult fun_call flag os qs (arg p (arg q no_args)) r =
      append-Same (wrap_if-Same _ _ _ q) (prefix-Same (chars ".do(") (ended-Same ")" p))
  compose-SameResult fun_call flag os qs (arg p (arg {k = k} q (arg {k = l} q2 s))) r =
      do-Same p (arg {k = k} q (arg {k = l} q2 s))
  compose-SameResult table flag os qs no_args r = tt
  compose-SameResult table flag os qs (arg {k = k} p s) r =
      table-Same (is_db k) _ _ _ _ p (rest-SameAll _ _ os qs s r)
