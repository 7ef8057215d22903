-- ===== src/Ast/Wrap/Tests.antt =====
-- `r.row`, wrapped.
use rethinkdb_python.Base.{ℕ, ◌≡◌, refl, false, [], ◌∷◌}
use rethinkdb_python.Base.Exec.{ok}
use rethinkdb_python.Ast.Classes.{row_class}
use rethinkdb_python.Ast.Term.{Term, node, func, no_terms, no_optargs, ivar_scan}
use rethinkdb_python.Ast.Expr.{query, expr}
use rethinkdb_python.Ast.Wrap.{wrap_term, func_wrap}

abbrev row_term : Term ℕ
row_term = node row_class false no_terms no_optargs

wrapped : func_wrap 7 (query row_term) ≡ ok (func (7 ∷ []) row_term)
unfolding func_wrap wrap_term expr ivar_scan
wrapped = refl
