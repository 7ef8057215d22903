-- ===== src/Tools/RoundTrip/Json.antt =====
-- _export.py, `json_writer`, and _import.py, `JsonSourceFile`: a table that is exported and imported again.
use rethinkdb_python.Base.{
  ℕ, suc, ◌+◌, ◌*◌, ◌≤◌, ◌<◌, ◌≡◌, refl, sym, ap, ◌∙◌, subst, Bool, true, false, Option, List, [],
  ◌∷◌, ◌++◌, map, length, append_assoc, append-nil, ◌⊎◌, inl, inr, arith,
}
use rethinkdb_python.Base.Text.{codes}
use rethinkdb_python.Tools.Import.{Text, batches}
use rethinkdb_python.Tools.Import.Batches.{Delivers}
use rethinkdb_python.Tools.Import.Json.{Io, json_read_chunk_size, fresh, json_source}
use rethinkdb_python.Tools.Import.Json.View.{is_space, IsBlank, Lawful}
use rethinkdb_python.Tools.Import.Json.Gap.{Gap, blank, comma, gap_text}
use rethinkdb_python.Tools.Import.Json.End.{closing}
use rethinkdb_python.Tools.Import.Json.Step.{rest_text, IsItems}
use rethinkdb_python.Tools.Import.Json.Rows.{rows_of}
use rethinkdb_python.Tools.Import.Json.Document.{document, IsDocument, batches_rows}
use rethinkdb_python.Tools.Export.{
  Dictionary, Format, json, ndjson, only_fields, separator, write_rows, json_writer,
}

abbrev pub format_of : Bool → Format
format_of true = json
format_of false = ndjson

-- What the writer puts before a row.
gap_of : Bool → Bool → Gap
gap_of true true = blank (codes "\n")
gap_of true false = comma [] (codes "\n")
gap_of false true = blank []
gap_of false false = blank (codes "\n")

-- The spaces before the end of the file, and after it.
before_end : Bool → Text
before_end true = codes "\n"
before_end false = []

module _ {Row V : Type 0} (dict : Dictionary Row V) (dumps : Row → Text)
    (fields : Option (List Text)) where
  items_of : Bool → Bool → List Row → List (Gap × Row)
  items_of array first [] = []
  items_of array first (row ∷ rows) =
      (gap_of array first, only_fields dict fields row) ∷ items_of array false rows

  rows_of-items_of :
      (array first : Bool) (rows : List Row)
      → rows_of (items_of array first rows) ≡ map (only_fields dict fields) rows
  unfolding items_of
  rows_of-items_of array first [] = refl
  rows_of-items_of array first (row ∷ rows) =
      ap (λ x. only_fields dict fields row ∷ x) (rows_of-items_of array false rows)

  length-items_of :
      (array first : Bool) (rows : List Row) → length (items_of array first rows) ≡ length rows
  unfolding items_of
  length-items_of array first [] = refl
  length-items_of array first (row ∷ rows) = ap suc (length-items_of array false rows)

  separator-gap :
      (array first : Bool)
      → separator dict dumps fields (format_of array) first ≡ gap_text (gap_of array first)
  unfolding separator gap_text gap_of
  separator-gap true true = refl
  separator-gap true false = refl
  separator-gap false true = refl
  separator-gap false false = refl

  write_rows-text :
      (array first : Bool) (rows : List Row)
      → write_rows dict dumps fields (format_of array) first rows
          ++ (before_end array ++ closing array (before_end array))
        ≡ rest_text dumps array (before_end array) (items_of array first rows) (before_end array)
  unfolding write_rows rest_text items_of
  write_rows-text array first [] = refl
  write_rows-text array first (row ∷ rows) =
      let d : Text = dumps (only_fields dict fields row) in
      let w : Text = write_rows dict dumps fields (format_of array) false rows in
      let z : Text = before_end array ++ closing array (before_end array) in
      append_assoc (separator dict dumps fields (format_of array) first) (d ++ w) z
      ∙ ap (λ x. x ++ (d ++ w ++ z)) (separator-gap array first)
      ∙ ap (λ x. gap_text (gap_of array first) ++ x)
          (append_assoc d w z ∙ ap (λ x. d ++ x) (write_rows-text array false rows))

  json_writer-document :
      (array : Bool) (rows : List Row)
      → json_writer dict dumps fields (format_of array) rows
        ≡ document dumps array (items_of array true rows) (before_end array) (before_end array)
  unfolding json_writer document before_end
  json_writer-document true rows = ap (λ x. 91 ∷ x) (write_rows-text true true rows)
  json_writer-document false rows =
      sym (append-nil (write_rows dict dumps fields ndjson true rows))
      ∙ write_rows-text false true rows

  IsItems-items_of :
      (array : Bool) (rows : List Row)
      → IsItems dumps array (before_end array) true (items_of array false rows)
  unfolding items_of gap_of is_space
  IsItems-items_of array [] = tt
  IsItems-items_of true (row ∷ rows) = ((refl, tt, (refl, tt)), IsItems-items_of true rows)
  IsItems-items_of false (row ∷ rows) = ((refl, tt), IsItems-items_of false rows)

  IsDocument-items_of :
      (array : Bool) (rows : List Row)
      → (array ≡ true) ⊎ (0 < length rows)
      → IsDocument dumps array (items_of array true rows) (before_end array)
  unfolding items_of gap_of is_space
  IsDocument-items_of true [] started = tt
  IsDocument-items_of true (row ∷ rows) started = ((refl, tt), IsItems-items_of true rows)
  IsDocument-items_of false [] (inl not_array) = cc
  IsDocument-items_of false [] (inr some_row) = absurd (omega arith)
  IsDocument-items_of false (row ∷ rows) started = (refl, IsItems-items_of false rows)

before_end-IsBlank : (array : Bool) → IsBlank (before_end array)
unfolding before_end is_space
before_end-IsBlank true = (refl, tt)
before_end-IsBlank false = tt

module _ {Row V Src : Type 0} (dict : Dictionary Row V) (io : Io Src Row) (dumps : Row → Text)
    (left : Src → Text) (lawful : Lawful io dumps left) (max : ℕ)
    (chunk : json_read_chunk_size < max) where
  -- What `json_writer` wrote, as `json`, or as `ndjson` where the table has a row at least, is imported
  -- again: the batches have the rows of the table, with the fields asked for, in order, and all but the
  -- last are full. The conditions are that twice the length of the file is below the greatest size of the
  -- buffer, that a chunk fits in that size, that each row is written as an object that the parser of JSON
  -- reads back, and nothing shorter (`Lawful`), and that the fuel is at least the rows and the characters
  -- of the file together.
  pub export_import :
      (fields : Option (List Text)) (array : Bool) (rows : List Row) (source : Src)
      (k fuel size : ℕ)
      → left source ≡ json_writer dict dumps fields (format_of array) rows
      → (array ≡ true) ⊎ (0 < length rows)
      → 2 * length (left source) < max
      → length rows + length (left source) ≤ fuel
      → Delivers
          (suc size)
          []
          (map (only_fields dict fields) rows)
          (batches (json_source io max (suc k)) fuel (suc size) (fresh source))
  export_import fields array rows source k fuel size text started enough fuelled =
      subst
        (λ x.
          Delivers (suc size) [] x
            (batches (json_source io max (suc k)) fuel (suc size) (fresh source)))
        (rows_of-items_of dict dumps fields array true rows)
        (batches_rows io dumps left lawful max chunk source array
          (items_of dict dumps fields array true rows) (before_end array) (before_end array) k fuel
          size enough (text ∙ json_writer-document dict dumps fields array rows)
          (IsDocument-items_of dict dumps fields array rows started) (before_end-IsBlank array)
          (before_end-IsBlank array)
          (omega (arith, length-items_of dict dumps fields array true rows)))
