-- ===== src/Tools/RoundTrip/Tests.antt =====
-- A table that is exported and imported again.
use rethinkdb_python.Base.{
  ℕ, ◌≡◌, refl, arith, true, false, none, some, [], ◌∷◌, map, if◌then◌else◌, inl,
}
use rethinkdb_python.Base.Text.{codes}
use rethinkdb_python.Tools.Import.{Text, batches}
use rethinkdb_python.Tools.Import.Batches.{Delivers}
use rethinkdb_python.Tools.Import.Json.{fresh, json_source}
use rethinkdb_python.Tools.Import.Json.Sample.{toy, toy_dumps, toy-Lawful}
use rethinkdb_python.Tools.Import.Csv.{CsvSourceFile, get_item, csv_source}
use rethinkdb_python.Tools.Export.{
  Dictionary, Value, string, is_in, delete_others, only_fields, separator, write_rows, json_writer,
  csv_records,
}
use rethinkdb_python.Tools.RoundTrip.Json.{export_import}
use rethinkdb_python.Tools.RoundTrip.Csv.{nonempty, text_of, imported, or_empty, csv_export_import}

-- A row has its own character as its only key, and is a space without it.
abbrev letters : Dictionary ℕ (Value ℕ ℕ)
letters = record {
  keys = λ r. (r ∷ []) ∷ [];
  del = λ key r. 32;
  get = λ key r. some (string (r ∷ []));
}

export_import_example :
    Delivers 1 []
      (map (only_fields letters (some (codes "a" ∷ []))) (97 ∷ 98 ∷ []))
      (batches (json_source toy 300000 1) 20 1 (fresh (codes "[\n{a},\n{ }\n]\n")))
unfolding json_writer write_rows separator only_fields delete_others is_in
export_import_example =
    export_import letters toy toy_dumps (λ s. s) toy-Lawful 300000 (omega arith)
      (some (codes "a" ∷ [])) true (97 ∷ 98 ∷ []) (codes "[\n{a},\n{ }\n]\n") 0 20 0 refl (inl refl)
      (omega arith) (omega arith)

abbrev unread : CsvSourceFile
unread = record {
  reader =
      map (map or_empty) (csv_records letters (λ n. []) (λ n. []) (codes "k" ∷ []) (97 ∷ 98 ∷ []));
  line_num = 0;
  columns = none;
  no_header_row = false;
  custom_header = none;
  warnings = 0;
}

csv_export_import_example :
    Delivers 2 []
      (map (imported letters (λ n. []) (λ n. []) (codes "k" ∷ [])) (97 ∷ 98 ∷ []))
      (batches csv_source 3 2 unread)
    × ((row : ℕ) (f : Text)
        → get_item f (imported letters (λ n. []) (λ n. []) (codes "k" ∷ []) row) ≡ (
            if is_in f (codes "k" ∷ [])
            then nonempty (text_of letters (λ n. []) (λ n. []) (codes "k" ∷ []) row f)
            else none))
csv_export_import_example =
    csv_export_import letters (λ n. []) (λ n. []) (codes "k" ∷ [])
      (λ records. map (map or_empty) records) (λ file. file) (λ records. refl) (97 ∷ 98 ∷ []) unread
      3 1 refl refl refl (omega arith)
