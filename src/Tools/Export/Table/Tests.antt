-- ===== src/Tools/Export/Table/Tests.antt =====
-- A table of three rows.
use rethinkdb_python.Base.{
  ℕ, ◌≡◌, sym, ap, ◌∙◌, arith, Option, none, some, List, [], ◌∷◌, length, length-append, ◌==◌,
  if◌then◌else◌,
}
use rethinkdb_python.Tools.Export.Table.{
  Event, answered, broken, Progress, last_key, Serves, Exports, read_table, read_table_in_order,
}

abbrev table : List ℕ
table = 3 ∷ 5 ∷ 8 ∷ []

abbrev behind : List ℕ → ℕ → Option (List ℕ)
behind [] k = none
behind (row ∷ rows) k = if row == k then some rows else behind rows k

abbrev by_key : Option ℕ → Option (List ℕ)
by_key none = none
by_key (some k) = behind table k

table-Serves : Serves (λ row. row) by_key table
unfolding last_key
table-Serves [] after cursor e f = cc
table-Serves (a ∷ []) after cursor e f =
    let same : a ≡ 3 = cc in
    let given : some (5 ∷ 8 ∷ []) ≡ some cursor = ap (behind table) (sym same) ∙ f in cc
table-Serves (a ∷ b ∷ []) after cursor e f =
    let same : b ≡ 5 = cc in
    let given : some (8 ∷ []) ≡ some cursor = ap (behind table) (sym same) ∙ f in cc
table-Serves (a ∷ b ∷ c ∷ []) after cursor e f =
    let same : c ≡ 8 = cc in
    let given : some [] ≡ some cursor = ap (behind table) (sym same) ∙ f in cc
table-Serves (a ∷ b ∷ c ∷ d ∷ more) after cursor e f =
    absurd (omega (arith, ap length e, length-append more after))

abbrev start : Progress ℕ
start = record { queue = []; read_rows = 0; rows_done = 0; table_size = 4 }

-- The connection breaks twice.
abbrev rough : List Event
rough = broken ∷ answered ∷ broken ∷ answered ∷ answered ∷ []

read_table_in_order_example :
    Exports
      (λ row. row)
      by_key
      table
      (read_table (λ row. row) by_key (answered ∷ rough) none table start)
read_table_in_order_example =
    read_table_in_order (λ row. row) by_key table table-Serves (answered ∷ rough) 4
