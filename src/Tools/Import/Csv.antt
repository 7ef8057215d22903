-- ===== src/Tools/Import/Csv.antt =====
-- _import.py, `class CsvSourceFile`. The records that `csv.reader` is going to give are part of the state.
pub mod Rows
use rethinkdb_python.Base.{
  ℕ, suc, ◌+◌, Bool, true, false, Option, none, some, List, [], ◌∷◌, ◌++◌, length, ◌==◌,
  if◌then◌else◌,
}
use rethinkdb_python.Base.Exec.{
  Outcome, ok, raised, Exec, raise, pure, modify, skip, when, unless, gets, feed, ◌>>=◌, ◌>>◌,
}
use rethinkdb_python.Errors.{value_error, type_error, attribute_error}
use rethinkdb_python.Handshake.Attributes.{same_bytes}
use rethinkdb_python.Tools.Import.{Text, Raised, builtin, exception, stop_iteration, SourceFile}

-- A dictionary of texts, in the order in which the keys were added.
abbrev pub Row : Type 0
Row = List (Text × Text)

-- `row[key] = value`
unfoldable pub set_item : Text → Text → Row → Row
set_item key value [] = (key, value) ∷ []
set_item key value ((k, v) ∷ row) =
    let rest = set_item key value row in
    if same_bytes k key then (k, value) ∷ row else (k, v) ∷ rest

unfoldable pub get_item : Text → Row → Option Text
get_item key [] = none
get_item key ((k, v) ∷ row) =
    let rest = get_item key row in if same_bytes k key then some v else rest

-- The loop over `zip(self._columns, raw_row)`: an empty field is no entry.
unfoldable pub add_fields : List Text → List Text → Row → Row
add_fields [] values row = row
add_fields (c ∷ columns) [] row = row
add_fields (c ∷ columns) ([] ∷ values) row = add_fields columns values row
add_fields (c ∷ columns) ((b ∷ value) ∷ values) row =
    add_fields columns values (set_item c (b ∷ value) row)

-- `warnings` counts what is put on the warning queue.
pub record CsvSourceFile : Type 0 where
  pub reader : List (List Text)
  pub line_num : ℕ
  pub columns : Option (List Text)
  pub no_header_row : Bool
  pub custom_header : Option (List Text)
  pub warnings : ℕ

unfoldable pub next_of : List (List Text) → Exec Raised CsvSourceFile (List Text)
next_of [] s = raise stop_iteration s
next_of (raw ∷ reader) s = (ok raw, record s { reader = reader; line_num = s.line_num + 1 })

-- `next(self._reader)`
unfoldable pub next : Exec Raised CsvSourceFile (List Text)
next s = next_of s.reader s

unfoldable pub set_columns : Option (List Text) → Exec Raised CsvSourceFile (Unit {0})
set_columns columns = modify (λ s. record s { columns = columns })

unfoldable pub warn : Exec Raised CsvSourceFile (Unit {0})
warn = modify (λ s. record s { warnings = s.warnings + 1 })

unfoldable pub read_header : Exec Raised CsvSourceFile (Unit {0})
read_header = do columns ← next; set_columns (some columns)

-- The header that the options give, in place of the one in the file, and the options' `no_header_row`.
unfoldable pub override_header : Option (List Text) → Bool → Exec Raised CsvSourceFile (Unit {0})
override_header (some columns) no_header_row = do
  unless no_header_row warn
  set_columns (some columns)
override_header none true = raise (builtin value_error)
override_header none false = skip

unfoldable pub setup_header : Option (List Text) → Bool → Exec Raised CsvSourceFile (Unit {0})
setup_header custom_header no_header_row = do
  unless no_header_row read_header
  override_header custom_header no_header_row

unfoldable pub setup_file : Exec Raised CsvSourceFile (Unit {0})
setup_file s = setup_header s.custom_header s.no_header_row s

-- The row of a record, with `len(None)` where there are no columns.
unfoldable pub to_row : Option (List Text) → List Text → Exec Raised CsvSourceFile Row
to_row none raw = raise (builtin type_error)
to_row (some columns) raw =
    if length columns == length raw then pure (add_fields columns raw []) else raise exception

unfoldable pub get_line : Exec Raised CsvSourceFile Row
get_line = do raw ← next; columns ← gets (λ s. s.columns); to_row columns raw

-- `fill_buffer` is no method of the class, and `teardown` is that of `SourceFile`.
unfoldable pub csv_source : SourceFile CsvSourceFile Row
csv_source = record {
  setup_file = setup_file;
  fill_buffer = raise (builtin attribute_error);
  get_line = get_line;
  teardown = skip;
}
