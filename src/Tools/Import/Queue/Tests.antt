-- ===== src/Tools/Import/Queue/Tests.antt =====
-- A CSV file that is imported.
use rethinkdb_python.Base.{
  ℕ, ◌+◌, ◌≡◌, ◌≢◌, ◌⊎◌, refl, arith, false, none, List, [], ◌∷◌, map, length, if◌then◌else◌, inl,
}
use rethinkdb_python.Base.Text.{codes}
use rethinkdb_python.Base.Exec.{ok}
use rethinkdb_python.Base.After.{After}
use rethinkdb_python.Handshake.Attributes.{same_bytes}
use rethinkdb_python.Tools.Import.{Text, Run, batches}
use rethinkdb_python.Tools.Import.Csv.{Row, CsvSourceFile, get_item, csv_source}
use rethinkdb_python.Tools.Import.Csv.Rows.{row_of, csv_batches_rows}
use rethinkdb_python.Tools.Import.Queue.{taken, queue_full, done, Reader, read_to_queue}
use rethinkdb_python.Tools.Import.Queue.Flow.{tasks_of, import_counts}
use rethinkdb_python.Tools.Import.Writer.{Server, Rows, Writer, table_writer}
use rethinkdb_python.Tools.Import.Writer.Counts.{count}
use rethinkdb_python.Tools.Export.{Dictionary}

abbrev without : Text → Row → Row
without key [] = []
without key ((k, v) ∷ row) = if same_bytes k key then row else (k, v) ∷ without key row

abbrev texts : Dictionary Row Text
texts = record { keys = λ row. map (λ p. p.0) row; del = without; get = get_item }

abbrev by_id : Rows Row Text
by_id = record { same = λ a b. false; key = get_item (codes "id") }

abbrev takes_all : Server ℕ Row Text
takes_all = record {
  insert = λ force rows d. (
    ok (record { errors = 0; inserted = length rows; replaced = 0; unchanged = 0 }),
    d + length rows,
  );
  get = λ k d. (ok none, d);
}

abbrev header : List Text
header = codes "id" ∷ codes "name" ∷ []

abbrev records : List (List Text)
records = (codes "1" ∷ codes "Ada" ∷ []) ∷ (codes "2" ∷ [] ∷ []) ∷ []

abbrev unread : CsvSourceFile
unread = record {
  reader = header ∷ records;
  line_num = 0;
  columns = none;
  no_header_row = false;
  custom_header = none;
  warnings = 0;
}

abbrev run : Run CsvSourceFile Row
run = batches csv_source 3 1 unread

abbrev nothing_read : Reader Row
nothing_read = record { queue = []; rows_read = 0 }

abbrev idle : Writer ℕ
idle = record { server = 0; added = []; reported = none }

import_counts_example :
    ((read_to_queue texts [] (taken ∷ queue_full ∷ taken ∷ []) run nothing_read).0 ≢ done)
    ⊎ After
        (λ u v. (v.reported ≢ none) ⊎ (count 7 v.added ≡ 2))
        (table_writer by_id takes_all false
          (tasks_of 7
            (read_to_queue texts [] (taken ∷ queue_full ∷ taken ∷ []) run nothing_read).1.queue)
          idle)
import_counts_example =
    import_counts texts [] by_id takes_all false 1 7 (map (row_of header) records) run
      (taken ∷ queue_full ∷ taken ∷ []) nothing_read idle
      (csv_batches_rows unread header records 3 0 (inl (refl, refl, refl)) (refl, (refl, tt))
        (omega arith))
      refl refl refl
