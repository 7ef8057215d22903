-- ===== src/Tools/Import/Json/Tests.antt =====
-- A small file of each kind.
use rethinkdb_python.Base.{refl, arith, true, [], ◌∷◌}
use rethinkdb_python.Base.Text.{codes}
use rethinkdb_python.Tools.Import.{batches}
use rethinkdb_python.Tools.Import.Batches.{Delivers}
use rethinkdb_python.Tools.Import.Json.{fresh, json_source}
use rethinkdb_python.Tools.Import.Json.View.{is_space}
use rethinkdb_python.Tools.Import.Json.Gap.{blank, comma, gap_text}
use rethinkdb_python.Tools.Import.Json.Step.{rest_text}
use rethinkdb_python.Tools.Import.Json.Document.{document, batches_rows}
use rethinkdb_python.Tools.Import.Json.Sample.{toy, toy_dumps, toy-Lawful}

batches_rows_example :
    Delivers 1 []
      (97 ∷ 98 ∷ [])
      (batches (json_source toy 300000 1) 20 1 (fresh (codes "[ {a} ,\n{b}\n]\n")))
unfolding document rest_text gap_text is_space
batches_rows_example =
    batches_rows toy toy_dumps (λ s. s) toy-Lawful 300000 (omega arith) (codes "[ {a} ,\n{b}\n]\n")
      true ((blank (codes " "), 97) ∷ (comma (codes " ") (codes "\n"), 98) ∷ []) (codes "\n")
      (codes "\n") 0 20 0 (omega arith) refl ((refl, tt), ((refl, (refl, tt), (refl, tt)), tt))
      (refl, tt) (refl, tt) (omega arith)
