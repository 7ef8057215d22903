-- ===== src/Ast/Printer/Align.antt =====
-- errors.py, `QueryPrinter`: the line of carets and the line of text above it.
use rethinkdb_python.Base.{
  ℕ, suc, ◌≡◌, refl, subst, sym, ◌∙◌, String, Bool, true, false, Option, none, some, List, [], ◌∷◌,
  map, length, length-map, All, ◌⊎◌, inl, inr, if◌then◌else◌,
}
use rethinkdb_python.Ast.Classes.{form}
use rethinkdb_python.Ast.Term.{
  Term, Terms, Optargs, datum, node, binary_data, var, func, no_terms, term, no_optargs, optarg,
}
use rethinkdb_python.Ast.Compose.{Token, Text, codes, chars, join, compose}
use rethinkdb_python.Ast.Printer.{
  Frame, at_position, at_key, ◌>>=◌, caret, blank, is_caret, pick, var_text, func_text,
  compose_term, compose_args, compose_optargs, var_carets, compose_carrots, carrots_args,
  carrots_optargs,
}
use rethinkdb_python.Ast.Printer.Same.{
  Same, same, length-Same, refl-Same, prefix-Same, SameArgs, no_args, arg, SameOptargs, SameResult,
  compose-SameResult,
}

-- The first computation fails, or both succeed with related results.
data Below {A : Type 0} (R : A → A → Type 0) : Option A → Option A → Type 0 where
  fails : {y : Option A} → Below R none y
  both : {x y : A} → R x y → Below R (some x) (some y)

module _ {A B : Type 0} {R : A → A → Type 0} {S : B → B → Type 0} where
  bind-Below :
      {x y : Option A} (f g : A → Option B)
      → Below R x y
      → ((a b : A) → R a b → Below S (f a) (g b))
      → Below S (x >>= f) (y >>= g)
  bind-Below f g fails k = fails
  bind-Below f g (both r) k = k _ _ r

SameResult-Below : (x y : Option Text) → SameResult x y → Below Same x y
SameResult-Below none y s = fails
SameResult-Below (some t) none s = absurd s
SameResult-Below (some t) (some u) s = both s

some-Below : {t u : Text} → Below Same (some t) (some u) → Same t u
some-Below (both s) = s

none-Below : {A : Type 0} {t : Text} → Below Same (some t) none → A
none-Below s = elim s [ ]

map-Same : (f : Token → Token) {t u : Text} → Same t u → Same (map f t) u
map-Same f {t = t} (same e) = same (length-map f t ∙ e)

module _ {D : Type 0} (repr : D → Token) (repr_key : String → Token) where
  refl-Below : (x : Option Text) → Below Same x x
  refl-Below none = fails
  refl-Below (some t) = both (refl-Same t)

  carets-Below : (x : Option Text) → Below Same (x >>= λ t. some (map caret t)) x
  carets-Below none = fails
  carets-Below (some t) = both (map-Same caret (refl-Same t))

  pick-Below : (b : Bool) (x y : Option Text) → Below Same x y → Below Same (pick b x y) y
  pick-Below true x y s = s
  pick-Below false x y s = refl-Below y

  var_carets-Below :
      (b : Bool) (d : D)
      → Below Same (var_carets repr repr_key b d) (some (var_text repr repr_key d))
  var_carets-Below true d = fails
  var_carets-Below false d = both (map-Same blank (refl-Same _))

  blanks-Below : (x y : Option Text) → Below Same x y → Below Same (x >>= λ t. some (map blank t)) y
  blanks-Below none y s = fails
  blanks-Below (some x) none s = none-Below s
  blanks-Below (some x) (some y) s = both (map-Same blank (some-Below s))

  func_text-Same :
      (vars : List D) {x y : Text}
      → Same x y
      → Same (func_text repr repr_key vars x) (func_text repr repr_key vars y)
  func_text-Same vars s = prefix-Same (chars "lambda ") (
      prefix-Same (join (chars ", ") (map (var_text repr repr_key) vars))
        (prefix-Same (chars ": ") s))

  mutual
    unfolding compose_carrots compose_term

    compose_carrots-Below :
        (t : Term D) (fs : List Frame)
        → Below Same (compose_carrots repr repr_key t fs) (compose_term repr repr_key t)
    compose_carrots-Below t [] = carets-Below (compose_term repr repr_key t)
    compose_carrots-Below (datum d) (f ∷ fs) = both (map-Same blank (refl-Same _))
    compose_carrots-Below (node c flag ts os) (f ∷ fs) =
        bind-Below _ _ (carrots_args-Below 0 ts f fs) (λ xs ys s.
          bind-Below _ _ (carrots_optargs-Below os f fs) (λ o q r.
            blanks-Below _ _
              (SameResult-Below _ _ (compose-SameResult repr_key (form c) flag o q s r))))
    compose_carrots-Below (binary_data b) (f ∷ fs) = both (map-Same blank (refl-Same _))
    compose_carrots-Below (var d) (f ∷ fs) = var_carets-Below (at_position f 0) d
    compose_carrots-Below (func vars body) (f ∷ fs) =
        bind-Below _ _ (pick-Below (at_position f 1) _ _ (compose_carrots-Below body fs))
          (λ x y s. both (map-Same blank (func_text-Same vars s)))

    carrots_args-Below :
        (i : ℕ) (ts : Terms D) (f : Frame) (fs : List Frame)
        → Below SameArgs (carrots_args repr repr_key i ts f fs) (compose_args repr repr_key ts)
    carrots_args-Below i no_terms f fs = both no_args
    carrots_args-Below i (term t ts) f fs =
        bind-Below _ _ (pick-Below (at_position f i) _ _ (compose_carrots-Below t fs))
          (λ x y p. bind-Below _ _ (carrots_args-Below (suc i) ts f fs) (λ xs ys s. both (arg p s)))

    carrots_optargs-Below :
        (os : Optargs D) (f : Frame) (fs : List Frame)
        → Below SameOptargs
            (carrots_optargs repr repr_key os f fs)
            (compose_optargs repr repr_key os)
    carrots_optargs-Below no_optargs f fs = both tt
    carrots_optargs-Below (optarg k t os) f fs =
        bind-Below _ _ (pick-Below (at_key f k) _ _ (compose_carrots-Below t fs))
          (λ x y p. bind-Below _ _ (carrots_optargs-Below os f fs) (λ xs ys s. both (refl, p, s)))

abbrev pub IsMark : Token → Type 0
IsMark k = (k ≡ codes "^") ⊎ (k ≡ codes " ")

abbrev AreMarks : Option Text → Type 0
AreMarks none = Unit
AreMarks (some c) = All IsMark c

blank-IsMark : (k : Token) → IsMark (blank k)
blank-IsMark k = blank_cases (is_caret k)
  where
    blank_cases : (b : Bool) → IsMark (if b then codes "^" else codes " ")
    blank_cases true = inl refl
    blank_cases false = inr refl

map-blank : (t : Text) → All IsMark (map blank t)
map-blank [] = tt
map-blank (k ∷ t) = (blank-IsMark k, map-blank t)

map-caret : (t : Text) → All IsMark (map caret t)
map-caret [] = tt
map-caret (k ∷ t) = (inl refl, map-caret t)

marks_bind :
    {A : Type 0} (x : Option A) (f : A → Option Text)
    → ((a : A) → AreMarks (f a))
    → AreMarks (x >>= f)
marks_bind none f h = tt
marks_bind (some a) f h = h a

abbrev pub IsAligned : Option Text → Text → Type 0
IsAligned none c = ⊥
IsAligned (some x) c = length c ≡ length x

module _ {D : Type 0} (repr : D → Token) (repr_key : String → Token) where
  var_carets-AreMarks : (b : Bool) (d : D) → AreMarks (var_carets repr repr_key b d)
  var_carets-AreMarks true d = tt
  var_carets-AreMarks false d = map-blank (var_text repr repr_key d)

  carrots-AreMarks : (t : Term D) (fs : List Frame) → AreMarks (compose_carrots repr repr_key t fs)
  unfolding compose_carrots
  carrots-AreMarks t [] = marks_bind (compose_term repr repr_key t) _ map-caret
  carrots-AreMarks (datum d) (f ∷ fs) = map-blank _
  carrots-AreMarks (node c flag ts os) (f ∷ fs) =
      marks_bind (carrots_args repr repr_key 0 ts f fs) _ (λ xs.
        marks_bind (carrots_optargs repr repr_key os f fs) _
          (λ o. marks_bind (compose repr_key (form c) flag xs o) _ map-blank))
  carrots-AreMarks (binary_data b) (f ∷ fs) = map-blank (chars "r.binary(bytes(<data>))")
  carrots-AreMarks (var d) (f ∷ fs) = var_carets-AreMarks (at_position f 0) d
  carrots-AreMarks (func vars body) (f ∷ fs) =
      marks_bind
        (pick (at_position f 1) (compose_carrots repr repr_key body fs)
          (compose_term repr repr_key body))
        _ (λ x. map-blank (func_text repr repr_key vars x))

  IsAligned-marks :
      (y : Option Text) (c : Text)
      → Below Same (some c) y
      → All IsMark c
      → IsAligned y c × All IsMark c
  IsAligned-marks none c s m = none-Below s
  IsAligned-marks (some x) c s m = (length-Same (some-Below s), m)

  -- Where the line of carets is made for a path, the text of the query is made too, the line has one
  -- token for each token of the text, and each token of the line is a caret or a space.
  pub carrots-IsAligned :
      (t : Term D) (fs : List Frame) (c : Text)
      → compose_carrots repr repr_key t fs ≡ some c
      → IsAligned (compose_term repr repr_key t) c × All IsMark c
  carrots-IsAligned t fs c e =
      IsAligned-marks (compose_term repr repr_key t) c
        (rw (sym e) (compose_carrots-Below repr repr_key t fs))
        (subst AreMarks e (carrots-AreMarks t fs))
