-- ===== src/Ast/Term/Row.antt =====
-- ast.py, `_ivar_scan`: whether `r.row` occurs in a term.
use rethinkdb_python.Base.{◌≡◌, refl, ◌↔◌, ◌⊎◌, inl, inr, String, Bool, true, false, ◌||◌, List}
use rethinkdb_python.Ast.Classes.{Class, row_class}
use rethinkdb_python.Ast.Term.{
  Term, Terms, Optargs, datum, node, binary_data, var, func, no_terms, term, no_optargs, optarg,
  is_row, ivar_scan, ivar_scan_args, ivar_scan_optargs,
}

-- `r.row` is the term, or is in an argument, an optional argument or the body of a function.
mutual
  pub data HasRow {D : Type 0} : Term D → Type 0 where
    row : {flag : Bool} {ts : Terms D} {os : Optargs D} → HasRow (node row_class flag ts os)
    in_args :
        {c : Class} {flag : Bool} {ts : Terms D} {os : Optargs D}
        → HasRowArgs ts
        → HasRow (node c flag ts os)
    in_optargs :
        {c : Class} {flag : Bool} {ts : Terms D} {os : Optargs D}
        → HasRowOptargs os
        → HasRow (node c flag ts os)
    in_body : {vars : List D} {body : Term D} → HasRow body → HasRow (func vars body)

  pub data HasRowArgs {D : Type 0} : Terms D → Type 0 where
    in_first : {t : Term D} {ts : Terms D} → HasRow t → HasRowArgs (term t ts)
    in_rest : {t : Term D} {ts : Terms D} → HasRowArgs ts → HasRowArgs (term t ts)

  pub data HasRowOptargs {D : Type 0} : Optargs D → Type 0 where
    in_value : {k : String} {t : Term D} {os : Optargs D} → HasRow t → HasRowOptargs (optarg k t os)
    in_others :
        {k : String} {t : Term D} {os : Optargs D}
        → HasRowOptargs os
        → HasRowOptargs (optarg k t os)

is_row_lem : (c : Class) → is_row c ≡ true → c ≡ row_class
is_row_lem row_class e = refl
is_row_lem _ e = cc

or_cases : (a b : Bool) → a || b ≡ true → (a ≡ true) ⊎ (b ≡ true)
or_cases true b e = inl refl
or_cases false b e = inr e

or_left : (a b : Bool) → a ≡ true → a || b ≡ true
or_left a b e = rw e refl

or_right : (a b : Bool) → b ≡ true → a || b ≡ true
or_right true b e = refl
or_right false b e = e

module _ {D : Type 0} where
  mutual
    unfolding ivar_scan

    scan_sound : (t : Term D) → ivar_scan t ≡ true → HasRow t
    scan_sound (datum d) e = cc
    scan_sound (node c flag ts os) e = elim (or_cases _ _ e) [
      | inl h ↦ rw (is_row_lem c h) row
      | inr h ↦ elim (or_cases _ _ h) [
        | inl x ↦ in_args (scan_sound_args ts x)
        | inr x ↦ in_optargs (scan_sound_optargs os x)
      ]
    ]
    scan_sound (binary_data b) e = cc
    scan_sound (var d) e = cc
    scan_sound (func vars body) e = in_body (scan_sound body e)

    scan_sound_args : (ts : Terms D) → ivar_scan_args ts ≡ true → HasRowArgs ts
    scan_sound_args no_terms e = cc
    scan_sound_args (term t ts) e = elim (or_cases _ _ e) [
      | inl h ↦ in_first (scan_sound t h)
      | inr h ↦ in_rest (scan_sound_args ts h)
    ]

    scan_sound_optargs : (os : Optargs D) → ivar_scan_optargs os ≡ true → HasRowOptargs os
    scan_sound_optargs no_optargs e = cc
    scan_sound_optargs (optarg k t os) e = elim (or_cases _ _ e) [
      | inl h ↦ in_value (scan_sound t h)
      | inr h ↦ in_others (scan_sound_optargs os h)
    ]

  mutual
    unfolding ivar_scan

    scan_complete : {t : Term D} → HasRow t → ivar_scan t ≡ true
    scan_complete row = refl
    scan_complete (in_args {c = c} h) = or_right (is_row c) _ (or_left _ _ (scan_complete_args h))
    scan_complete (in_optargs {c = c} {ts = ts} h) =
        or_right (is_row c) _ (or_right (ivar_scan_args ts) _ (scan_complete_optargs h))
    scan_complete (in_body h) = scan_complete h

    scan_complete_args : {ts : Terms D} → HasRowArgs ts → ivar_scan_args ts ≡ true
    scan_complete_args (in_first h) = or_left _ _ (scan_complete h)
    scan_complete_args (in_rest {t = t} h) = or_right (ivar_scan t) _ (scan_complete_args h)

    scan_complete_optargs : {os : Optargs D} → HasRowOptargs os → ivar_scan_optargs os ≡ true
    scan_complete_optargs (in_value h) = or_left _ _ (scan_complete h)
    scan_complete_optargs (in_others {t = t} h) = or_right (ivar_scan t) _ (scan_complete_optargs h)

  -- The scan of a term finds `r.row` exactly where it occurs in it.
  pub ivar_scan_iff : (t : Term D) → (ivar_scan t ≡ true) ↔ HasRow t
  ivar_scan_iff t = (scan_sound t, scan_complete)
