-- ===== src/Ast/Expr/Depth.antt =====
-- ast.py, `expr`: which values are too deep.
use Prim.Native.Nat.{max}
use rethinkdb_python.Base.{
  ℕ, zero, suc, ◌≤◌, ◌<◌, ◌≡◌, refl, String, false, Option, none, some, List, [], ◌∷◌, arith,
}
use rethinkdb_python.Base.Exec.{Outcome, ok, raised}
use rethinkdb_python.Base.Outcome.{◌>>=◌}
use rethinkdb_python.Errors.{Exn}
use rethinkdb_python.Ast.Classes.{object_class}
use rethinkdb_python.Ast.Term.{Term, Optargs, node, no_terms, optarg}
use rethinkdb_python.Ast.Expr.{
  Val, query, callable, moment, binary, atom, sequence, mapping, Vals, no_vals, val, Entries,
  no_entries, entry, compile_error_exn, to_optargs, make_array, make_object, expr, expr_all,
  expr_entries,
}

module _ {D : Type 0} where
  -- How many sequences and mappings are inside each other, and one for the innermost value.
  unfoldable mutual
    pub depth : Val D → ℕ
    depth (sequence vs) = suc (depth_all vs)
    depth (mapping es) = suc (depth_entries es)
    depth _ = 1

    pub depth_all : Vals D → ℕ
    depth_all no_vals = 0
    depth_all (val v vs) = max (depth v) (depth_all vs)

    pub depth_entries : Entries D → ℕ
    depth_entries no_entries = 0
    depth_entries (entry k v es) = max (depth v) (depth_entries es)

  -- A value without a function that fails, a date without time zone and a key that is not a string.
  mutual
    pub data IsPlain : Val D → Type 0 where
      plain_query : {t : Term D} → IsPlain (query t)
      plain_callable : {t : Term D} → IsPlain (callable (ok t))
      plain_moment : {d : D} → IsPlain (moment (some d))
      plain_binary : {b : List ℕ} → IsPlain (binary b)
      plain_atom : {d : D} → IsPlain (atom d)
      plain_sequence : {vs : Vals D} → ArePlain vs → IsPlain (sequence vs)
      plain_mapping : {es : Entries D} → ArePlainEntries es → IsPlain (mapping es)

    pub data ArePlain : Vals D → Type 0 where
      plain_none : ArePlain no_vals
      plain_val : {v : Val D} {vs : Vals D} → IsPlain v → ArePlain vs → ArePlain (val v vs)

    pub data ArePlainEntries : Entries D → Type 0 where
      plain_empty : ArePlainEntries no_entries
      plain_entry :
          {k : String} {v : Val D} {es : Entries D}
          → IsPlain v
          → ArePlainEntries es
          → ArePlainEntries (entry (some k) v es)

-- The limit `n` decides between a result, of which `P` holds, and the error.
pub data Limited {A : Type 0} (P : A → Type 0) : ℕ → ℕ → Outcome Exn A → Type 0 where
  fits : {d n : ℕ} {a : A} → d ≤ n → P a → Limited P d n (ok a)
  too_deep : {d n : ℕ} → n < d → Limited P d n (raised compile_error_exn)

abbrev pub Any : {A : Type 0} → A → Type 0
Any a = Unit

module _ {A : Type 0} {P : A → Type 0} where
  suc-Limited : {d n : ℕ} {o : Outcome Exn A} → Limited P d n o → Limited P (suc d) (suc n) o
  suc-Limited (fits h p) = fits (omega arith) p
  suc-Limited (too_deep h) = too_deep (omega arith)

  max-Limited : {d e n : ℕ} {o : Outcome Exn A} → d ≤ n → Limited P e n o → Limited P (max d e) n o
  max-Limited h (fits i p) = fits (omega arith) p
  max-Limited h (too_deep i) = too_deep (omega arith)

module _ {A B : Type 0} {P : A → Type 0} {Q : B → Type 0} where
  map-Limited :
      {d n : ℕ} {o : Outcome Exn A} (f : A → Outcome Exn B)
      → Limited P d n o
      → ((a : A) → P a → (b : B) × (f a ≡ ok b) × Q b)
      → Limited Q d n (o >>= f)
  map-Limited f (fits {a = a} h p) k = let (b, e, q) = k a p in rw e (fits h q)
  map-Limited f (too_deep h) k = too_deep h

  bind-Limited :
      {d e n : ℕ} {o : Outcome Exn A} (f : A → Outcome Exn B)
      → Limited P d n o
      → ((a : A) → P a → Limited Q e n (f a))
      → Limited Q (max d e) n (o >>= f)
  bind-Limited f (fits {a = a} h p) k = max-Limited h (k a p)
  bind-Limited f (too_deep h) k = too_deep (omega arith)

module _ {D : Type 0} where
  abbrev Named : List (Option String × Term D) → Type 0
  Named [] = Unit
  Named ((none, t) ∷ es) = ⊥
  Named ((some k, t) ∷ es) = Named es

  to_optargs-Named :
      (es : List (Option String × Term D)) → Named es → (os : Optargs D) × (to_optargs es ≡ ok os)
  to_optargs-Named [] h = (_, refl)
  to_optargs-Named ((none, t) ∷ es) h = absurd h
  to_optargs-Named ((some k, t) ∷ es) h =
      let (os, e) = to_optargs-Named es h in (optarg k t os, rw e)

  make_object-Named :
      (es : List (Option String × Term D))
      → Named es
      → (t : Term D) × (make_object es ≡ ok t) × Any t
  make_object-Named es h =
      let (os, e) = to_optargs-Named es h in (node object_class false no_terms os, rw e, tt)

  mutual
    unfolding expr depth

    expr-Limited : {v : Val D} (n : ℕ) → IsPlain v → Limited Any (depth v) n (expr v n)
    expr-Limited zero plain_query = too_deep (omega arith)
    expr-Limited zero plain_callable = too_deep (omega arith)
    expr-Limited zero plain_moment = too_deep (omega arith)
    expr-Limited zero plain_binary = too_deep (omega arith)
    expr-Limited zero plain_atom = too_deep (omega arith)
    expr-Limited zero (plain_sequence p) = too_deep (omega arith)
    expr-Limited zero (plain_mapping p) = too_deep (omega arith)
    expr-Limited (suc n) plain_query = fits (omega arith) tt
    expr-Limited (suc n) plain_callable = fits (omega arith) tt
    expr-Limited (suc n) plain_moment = fits (omega arith) tt
    expr-Limited (suc n) plain_binary = fits (omega arith) tt
    expr-Limited (suc n) plain_atom = fits (omega arith) tt
    expr-Limited (suc n) (plain_sequence p) =
        suc-Limited (map-Limited make_array (expr_all-Limited n p) (λ ts u. (_, refl, tt)))
    expr-Limited (suc n) (plain_mapping p) =
        suc-Limited (map-Limited make_object (expr_entries-Limited n p) make_object-Named)

    expr_all-Limited :
        {vs : Vals D} (n : ℕ) → ArePlain vs → Limited Any (depth_all vs) n (expr_all vs n)
    expr_all-Limited n plain_none = fits (omega arith) tt
    expr_all-Limited n (plain_val p ps) =
        bind-Limited _ (expr-Limited n p)
          (λ t u. map-Limited _ (expr_all-Limited n ps) (λ ts w. (_, refl, tt)))

    expr_entries-Limited :
        {es : Entries D} (n : ℕ)
        → ArePlainEntries es
        → Limited Named (depth_entries es) n (expr_entries es n)
    expr_entries-Limited n plain_empty = fits (omega arith) tt
    expr_entries-Limited n (plain_entry p ps) =
        bind-Limited _ (expr-Limited n p)
          (λ t u. map-Limited _ (expr_entries-Limited n ps) (λ ts w. (_, refl, w)))

  -- A plain value is converted exactly when its depth is at most the limit; else the error says that the
  -- limit is exceeded.
  pub expr_limit :
      (v : Val D) (n : ℕ)
      → IsPlain v
      → (depth v ≤ n → (t : Term D) × (expr v n ≡ ok t))
        × (n < depth v → expr v n ≡ raised compile_error_exn)
  expr_limit v n p = decide (expr-Limited n p)
    where
      decide :
          {o : Outcome Exn (Term D)}
          → Limited Any (depth v) n o
          → (depth v ≤ n → (t : Term D) × (o ≡ ok t)) × (n < depth v → o ≡ raised compile_error_exn)
      decide (fits h u) = ((λ i. (_, refl)), (λ i. absurd (omega arith)))
      decide (too_deep h) = ((λ i. absurd (omega arith)), (λ i. refl))
