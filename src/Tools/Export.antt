-- ===== src/Tools/Export.antt =====
-- _export.py, `json_writer` and `csv_writer`: the text of a table's rows. A failure to write is not modelled.
pub mod Table
use rethinkdb_python.Base.{
  Bool, true, false, ◌||◌, Option, none, some, List, [], ◌∷◌, ◌++◌, map, if◌then◌else◌,
}
use rethinkdb_python.Base.Text.{codes}
use rethinkdb_python.Handshake.Attributes.{same_bytes}
use rethinkdb_python.Tools.Import.{Text}

-- `text in texts`
unfoldable pub is_in : Text → List Text → Bool
is_in t [] = false
is_in t (u ∷ texts) = same_bytes u t || is_in t texts

-- A dictionary: its keys, the `del` of one, and the look-up of one.
pub record Dictionary (Row Value : Type 0) : Type 0 where
  pub keys : Row → List Text
  pub del : Text → Row → Row
  pub get : Text → Row → Option Value

-- `options.format`
pub data Format : Type 0 where
  json ndjson csv : Format

-- The values that `csv_writer` tells apart; the last are written as JSON.
pub data Value (Number Other : Type 0) : Type 0 where
  number : Number → Value Number Other
  string : Text → Value Number Other
  other : Other → Value Number Other

module _ {Row V : Type 0} (dict : Dictionary Row V) where
  unfoldable pub delete_others : List Text → List Text → Row → Row
  delete_others [] fields row = row
  delete_others (key ∷ keys) fields row =
      delete_others keys fields (if is_in key fields then row else dict.del key row)

  -- `fields` is `None` or a list.
  unfoldable pub only_fields : Option (List Text) → Row → Row
  only_fields none row = row
  only_fields (some fields) row = delete_others (dict.keys row) fields row

  module _ (dumps : Row → Text) (fields : Option (List Text)) where
    unfoldable pub separator : Format → Bool → Text
    separator ndjson true = []
    separator ndjson false = codes "\n"
    separator _ true = codes "\n"
    separator _ false = codes ",\n"

    -- The loop, with its variable `first`, on the rows that come through the queue.
    unfoldable pub write_rows : Format → Bool → List Row → Text
    write_rows format first [] = []
    write_rows format first (row ∷ rows) =
        separator format first ++ (dumps (only_fields fields row) ++ write_rows format false rows)

    -- What `json_writer` writes to the file.
    unfoldable pub json_writer : Format → List Row → Text
    json_writer ndjson rows = write_rows ndjson true rows
    json_writer format rows = codes "[" ++ (write_rows format true rows ++ codes "\n]\n")

module _ {Row Number Other : Type 0} (dict : Dictionary Row (Value Number Other))
    (str : Number → Text) (dumps : Other → Text) where
  unfoldable pub cell_of : Option (Value Number Other) → Option Text
  cell_of none = none
  cell_of (some (number n)) = some (str n)
  cell_of (some (string t)) = some t
  cell_of (some (other o)) = some (dumps o)

  unfoldable pub info : List Text → Row → List (Option Text)
  info fields row = map (λ field. cell_of (dict.get field row)) fields

  -- The records that `csv_writer` gives to `csv.writer`, the header first.
  unfoldable pub csv_records : List Text → List Row → List (List (Option Text))
  csv_records fields rows = map some fields ∷ map (info fields) rows
