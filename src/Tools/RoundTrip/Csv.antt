-- ===== src/Tools/RoundTrip/Csv.antt =====
-- _export.py, `csv_writer`, and _import.py, `CsvSourceFile`: a table that is exported and imported again.
use rethinkdb_python.Base.{
  ℕ, suc, ◌<◌, ◌≡◌, refl, sym, ap, ◌∙◌, subst, Bool, true, false, Option, none, some, List, [], ◌∷◌,
  map, length, length-map, Bool-cases, inl, inr, if◌then◌else◌, arith,
}
use rethinkdb_python.Handshake.Attributes.{same_bytes, or_else, same_bytes-eq-true, same_bytes_refl}
use rethinkdb_python.Tools.Import.{Text, batches}
use rethinkdb_python.Tools.Import.Batches.{Delivers}
use rethinkdb_python.Tools.Import.Csv.{
  Row, CsvSourceFile, set_item, get_item, add_fields, csv_source,
}
use rethinkdb_python.Tools.Import.Csv.Rows.{row_of, AreWide, csv_batches_rows}
use rethinkdb_python.Tools.Export.{Dictionary, Value, is_in, cell_of, info, csv_records}

-- `csv.writer` writes `None` as the empty text.
abbrev pub or_empty : Option Text → Text
or_empty none = []
or_empty (some t) = t

-- A text, but for the empty one, which the import takes for no entry.
unfoldable pub nonempty : Text → Option Text
nonempty [] = none
nonempty (c ∷ t) = some (c ∷ t)

same_bytes-other :
    (k c f : Text) → same_bytes k c ≡ true → same_bytes c f ≡ false → same_bytes k f ≡ false
same_bytes-other k c f e n = subst (λ x. same_bytes x f ≡ false) (sym (same_bytes-eq-true k c e)) n

get_item-set_item :
    (f c v : Text) (row : Row)
    → get_item f (set_item c v row) ≡ (if same_bytes c f then some v else get_item f row)
unfolding get_item set_item
get_item-set_item f c v [] = refl
get_item-set_item f c v ((k, w) ∷ row) = elim (Bool-cases (same_bytes k c)) [
  | inl e ↦
      let same : k ≡ c = same_bytes-eq-true k c e in
      elim (Bool-cases (same_bytes c f)) [
        | inl found ↦
            let found2 : same_bytes k f ≡ true = rw same found in rw (e, found, found2) refl
        | inr other ↦ rw (e, other, same_bytes-other k c f e other) refl
      ]
  | inr n ↦ elim (Bool-cases (same_bytes k f)) [
    | inl found ↦
        let other : same_bytes c f ≡ false = elim (Bool-cases (same_bytes c f)) [
          | inl also ↦
              let same : k ≡ c = same_bytes-eq-true k f found ∙ sym (same_bytes-eq-true c f also) in
              cc (sym n ∙ subst (λ x. same_bytes k x ≡ true) same (same_bytes_refl k))
          | inr other ↦ other
        ] in
        rw (n, found, other) refl
    | inr other ↦ rw (n, other) (get_item-set_item f c v row)
  ]
]

if_same : {A : Type 0} (b : Bool) (x : A) → (if b then x else x) ≡ x
if_same true x = refl
if_same false x = refl

or_else-if : (b : Bool) (v : Text) → or_else (if b then some v else none) (some v) ≡ some v
or_else-if true v = refl
or_else-if false v = refl

-- One column.
module _ (f : Text) (g : Text → Text) (c : Text) (columns : List Text)
    (others : (row : Row)
      → get_item f (add_fields columns (map g columns) row)
        ≡ or_else (if is_in f columns then nonempty (g f) else none) (get_item f row)) where
  get_item-column :
      (v : Text) (row : Row)
      → g c ≡ v
      → get_item f (add_fields (c ∷ columns) (v ∷ map g columns) row)
        ≡ or_else (if is_in f (c ∷ columns) then nonempty (g f) else none) (get_item f row)
  unfolding add_fields is_in nonempty
  get_item-column [] row e = elim (Bool-cases (same_bytes c f)) [
    | inl found ↦
        let empty : g f ≡ [] = ap g (sym (same_bytes-eq-true c f found)) ∙ e in
        others row ∙ rw (found, empty, if_same {A = Option Text} (is_in f columns) none) refl
    | inr other ↦ others row ∙ rw other refl
  ]
  get_item-column (b ∷ v) row e =
      others (set_item c (b ∷ v) row) ∙ elim (Bool-cases (same_bytes c f)) [
        | inl found ↦
            let full : g f ≡ b ∷ v = ap g (sym (same_bytes-eq-true c f found)) ∙ e in
            rw
              (get_item-set_item f c (b ∷ v) row, found, full, or_else-if (is_in f columns) (b ∷ v))
              refl
        | inr other ↦ rw (get_item-set_item f c (b ∷ v) row, other) refl
      ]

-- What the import finds under `f`, where the columns `columns` had the texts `g`.
get_item-add_fields :
    (f : Text) (g : Text → Text) (columns : List Text) (row : Row)
    → get_item f (add_fields columns (map g columns) row)
      ≡ or_else (if is_in f columns then nonempty (g f) else none) (get_item f row)
unfolding add_fields is_in
get_item-add_fields f g [] row = refl
get_item-add_fields f g (c ∷ columns) row =
    get_item-column f g c columns (get_item-add_fields f g columns) (g c) row refl

map-map :
    {A B C : Type 0} (f : B → C) (g : A → B) (xs : List A)
    → map f (map g xs) ≡ map (λ x. f (g x)) xs
map-map f g [] = refl
map-map f g (x ∷ xs) = ap (λ ys. f (g x) ∷ ys) (map-map f g xs)

map_same : {A : Type 0} (f : A → A) (xs : List A) → ((x : A) → f x ≡ x) → map f xs ≡ xs
map_same f [] same = refl
map_same f (x ∷ xs) same = rw (same x, map_same f xs same) refl

module _ {R Number Other : Type 0} (dict : Dictionary R (Value Number Other)) (str : Number → Text)
    (dumps : Other → Text) (fields : List Text) where
  -- The text of a row's field.
  unfoldable pub text_of : R → Text → Text
  text_of row field = or_empty (cell_of dict str dumps (dict.get field row))

  unfoldable pub imported : R → Row
  imported row = row_of fields (map (text_of row) fields)

  -- The import finds under a field that was asked for the text of it, unless that is empty, and
  -- nothing under any other.
  get_item-imported :
      (row : R) (f : Text)
      → get_item f (imported row) ≡ (if is_in f fields then nonempty (text_of row f) else none)
  unfolding imported row_of get_item
  get_item-imported row f = elim (Bool-cases (is_in f fields)) [
    | inl asked ↦ get_item-add_fields f (text_of row) fields [] ∙ rw asked (empty_end _)
    | inr other ↦ get_item-add_fields f (text_of row) fields [] ∙ rw other refl
  ]
    where
      empty_end : (o : Option Text) → or_else o none ≡ o
      empty_end none = refl
      empty_end (some t) = refl

  info-texts :
      (rows : List R)
      → map (map or_empty) (map (info dict str dumps fields) rows)
        ≡ map (λ row. map (text_of row) fields) rows
  unfolding info text_of
  info-texts [] = refl
  info-texts (row ∷ rows) =
      rw
        (
          info-texts rows,
          map-map or_empty (λ field. cell_of dict str dumps (dict.get field row)) fields,
        )
        refl

  AreWide-texts : (rows : List R) → AreWide fields (map (λ row. map (text_of row) fields) rows)
  AreWide-texts [] = tt
  AreWide-texts (row ∷ rows) = (sym (length-map (text_of row) fields), AreWide-texts rows)

  -- What `csv_writer` wrote is imported again: the batches have a row for each row of the table, in
  -- order, and in it the import finds, under a field that was asked for, the text of the field,
  -- unless that is empty, and nothing under any other. The condition is that `csv` reads what it wrote,
  -- with `None` as the empty text.
  pub csv_export_import :
      {File : Type 0} (csv_write : List (List (Option Text)) → File)
      (csv_read : File → List (List Text))
      → ((records : List (List (Option Text)))
          → csv_read (csv_write records) ≡ map (map or_empty) records)
      → (rows : List R) (s : CsvSourceFile) (fuel size : ℕ) → s.no_header_row ≡ false
      → s.custom_header ≡ none
      → s.reader ≡ csv_read (csv_write (csv_records dict str dumps fields rows))
      → length rows < fuel
      → Delivers (suc size) [] (map imported rows) (batches csv_source fuel (suc size) s)
        × ((row : R) (f : Text)
            → get_item f (imported row)
              ≡ (if is_in f fields then nonempty (text_of row f) else none))
  unfolding csv_records imported
  csv_export_import csv_write csv_read reads rows s fuel size header custom file enough =
      let raws : List (List Text) = map (λ row. map (text_of row) fields) rows in
      let headed : s.reader ≡ fields ∷ raws =
        file
        ∙ reads (csv_records dict str dumps fields rows)
        ∙ rw (info-texts rows, map-map or_empty some fields, map_same (λ t. t) fields (λ t. refl))
            refl in
      (
        subst (λ x. Delivers (suc size) [] x (batches csv_source fuel (suc size) s))
            (map-map (row_of fields) (λ row. map (text_of row) fields) rows)
            (csv_batches_rows s fields raws fuel size (inl (header, custom, headed))
              (AreWide-texts rows)
              (omega (arith, length-map (λ row. map (text_of row) fields) rows))),
        get_item-imported,
      )
