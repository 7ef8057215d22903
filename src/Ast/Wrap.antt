-- ===== src/Ast/Wrap.antt =====
-- ast.py, `func_wrap`: an argument with `r.row` in it becomes a function of one variable.
mod Tests
use rethinkdb_python.Base.{◌≡◌, refl, ◌↔◌, Bool, true, false, List, [], ◌∷◌, if◌then◌else◌, ap}
use rethinkdb_python.Base.Exec.{Outcome, ok, raised}
use rethinkdb_python.Base.Outcome.{◌>>=◌}
use rethinkdb_python.Errors.{Exn}
use rethinkdb_python.Ast.Term.{Term, Terms, func, no_terms, term, ivar_scan}
use rethinkdb_python.Ast.Term.Row.{HasRow, ivar_scan_iff}
use rethinkdb_python.Ast.Expr.{Val, Vals, no_vals, val, expr}

differ : {b : Bool} → b ≡ true → b ≡ false → ⊥
differ e f = cc

module _ {D : Type 0} where
  -- The number is the one that `Func.nextVarId` gives. `Func` calls the function, which returns the term.
  unfoldable pub wrap_term : D → Term D → Term D
  wrap_term var_id t = if ivar_scan t then func (var_id ∷ []) t else t

  -- 20 is the default of `nesting_depth`.
  unfoldable pub func_wrap : D → Val D → Outcome Exn (Term D)
  func_wrap var_id v = do t ← expr v 20; ok (wrap_term var_id t)

  wrap_term_if :
      (var_id : D) (t : Term D) (b : Bool)
      → ivar_scan t ≡ b
      → (HasRow t → wrap_term var_id t ≡ func (var_id ∷ []) t)
        × (¬ HasRow t → wrap_term var_id t ≡ t)
  unfolding wrap_term
  wrap_term_if var_id t true e = ((λ h. rw e refl), λ no. absurd (no ((ivar_scan_iff t).0 e)))
  wrap_term_if var_id t false e =
      ((λ h. absurd (differ ((ivar_scan_iff t).1 h) e)), λ no. rw e refl)

  -- `func_wrap` raises what `expr` does. Of a value that is made into the term `t` it makes the function
  -- of one variable whose body is `t` where `r.row` occurs in `t`, and `t` itself where it does not.
  pub func_wrap_cases :
      (var_id : D) (v : Val D)
      → ((e : Exn) → expr v 20 ≡ raised e → func_wrap var_id v ≡ raised e)
        × ((t : Term D)
            → expr v 20 ≡ ok t
            → (HasRow t → func_wrap var_id v ≡ ok (func (var_id ∷ []) t))
              × (¬ HasRow t → func_wrap var_id v ≡ ok t))
  unfolding func_wrap
  func_wrap_cases var_id v = (
    (λ e h. rw h refl),
    λ t h. (
      (λ r. rw h (ap ok ((wrap_term_if var_id t _ refl).0 r))),
      λ no. rw h (ap ok ((wrap_term_if var_id t _ refl).1 no)),
    ),
  )
