-- ===== src/Ast/Tests.antt =====
-- Terms, printed.
use rethinkdb_python.Base.{ℕ, ◌+◌, ◌≡◌, ◌≤◌, ◌<◌, refl, false, some, [], ◌∷◌, All}
use rethinkdb_python.Ast.Classes.{operator, eq, add}
use rethinkdb_python.Ast.Term.{Term, datum, node, no_terms, term, no_optargs}
use rethinkdb_python.Base.Exec.{ok, raised}
use rethinkdb_python.Ast.Expr.{Val, atom, sequence, val, no_vals, expr, compile_error_exn}
use rethinkdb_python.Ast.Expr.Depth.{
  IsPlain, plain_sequence, plain_val, plain_atom, plain_none, depth, expr_limit,
}
use rethinkdb_python.Ast.Compose.{Token, codes, chars, compose}
use rethinkdb_python.Ast.Printer.{
  position, compose_term, compose_carrots, print_query, print_carrots,
}
use rethinkdb_python.Ast.Printer.Align.{IsAligned, IsMark, carrots-IsAligned}

abbrev digit : ℕ → Token
digit d = (48 + d) ∷ []

abbrev sum : Term ℕ
sum = node (operator add) false (term (datum 1) (term (datum 2) no_terms)) no_optargs

sum_printed : print_query digit codes sum ≡ some (codes "(r.expr(1) + r.expr(2))")
unfolding compose_term compose
sum_printed = refl

sum_carrots :
    compose_carrots digit codes sum (position 1 ∷ []) ≡ some (chars "                    ^  ")
unfolding compose_carrots compose_term compose
sum_carrots = refl

carrots-IsAligned_example :
    IsAligned (compose_term digit codes sum) (chars "                    ^  ")
    × All IsMark (chars "                    ^  ")
carrots-IsAligned_example =
    carrots-IsAligned digit codes sum (position 1 ∷ []) (chars "                    ^  ")
      sum_carrots

-- `==` is one token, so its line of carets is a character short, and the caret stands under the bracket.
abbrev comparison : Term ℕ
comparison = node (operator eq) false (term (datum 1) (term (datum 2) no_terms)) no_optargs

comparison_printed : print_query digit codes comparison ≡ some (codes "(r.expr(1) == r.expr(2))")
unfolding compose_term compose
comparison_printed = refl

comparison_carrots :
    print_carrots digit codes comparison (position 1 ∷ []) ≡ some (codes "                    ^  ")
unfolding compose_carrots compose_term compose
comparison_carrots = refl

-- `[[1], 2]`
abbrev nested : Val ℕ
nested = sequence (val (sequence (val (atom 1) no_vals)) (val (atom 2) no_vals))

nested-IsPlain : IsPlain nested
nested-IsPlain =
    plain_sequence (
      plain_val (plain_sequence (plain_val plain_atom plain_none))
        (plain_val plain_atom plain_none))

expr_limit_example :
    (depth nested ≤ 3 → (t : Term ℕ) × (expr nested 3 ≡ ok t))
    × (3 < depth nested → expr nested 3 ≡ raised compile_error_exn)
expr_limit_example = expr_limit nested 3 nested-IsPlain

nested_too_deep : expr nested 2 ≡ raised compile_error_exn
unfolding expr
nested_too_deep = refl
