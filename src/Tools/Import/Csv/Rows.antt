-- ===== src/Tools/Import/Csv/Rows.antt =====
-- _import.py, `SourceFile.batches` on a CSV file.
use rethinkdb_python.Base.{
  ℕ, suc, ◌+◌, ◌<◌, ◌≡◌, ◌≢◌, refl, sym, ap, ◌∙◌, Bool, true, false, ◌⊎◌, Option, none, some, List,
  [], ◌∷◌, ◌++◌, map, append-nil, subst, length, length-map, ◌==◌, ==_iff, inl, inr, All, arith,
}
use rethinkdb_python.Base.Exec.{ok, raised, gets, ◌>>=◌}
use rethinkdb_python.Tools.Import.{Text, exception, stop_iteration, on_raise, after_setup, batches}
use rethinkdb_python.Tools.Import.Batches.{
  concat, Delivers, Gives, read_loop-Ends, yield_all-append, Ends-Delivers,
}
use rethinkdb_python.Tools.Import.Csv.{
  Row, CsvSourceFile, add_fields, next_of, next, to_row, get_line, setup_file, read_header,
  set_columns, override_header, warn, setup_header, csv_source,
}

-- The record as a row.
unfoldable pub row_of : List Text → List Text → Row
row_of columns raw = add_fields columns raw []

-- The file has its columns' names, and these records.
abbrev pub IsAt : List Text → List (List Text) → CsvSourceFile → Type 0
IsAt columns raws s = (s.columns ≡ some columns) × (s.reader ≡ raws)

abbrev pub AreWide : List Text → List (List Text) → Type 0
AreWide columns raws = All (λ raw. length columns ≡ length raw) raws

module _ (columns : List Text) where
  next-IsAt :
      (raw : List Text) (raws : List (List Text)) (s : CsvSourceFile)
      → IsAt columns (raw ∷ raws) s
      → (t : CsvSourceFile) × (next s ≡ (ok raw, t)) × IsAt columns raws t
  unfolding next next_of
  next-IsAt raw raws s (has, more) = (_, ap (λ l. next_of l s) more, (has, refl))

  -- `get_line` on a record that is as wide as the header.
  get_line-wide :
      (raw : List Text) (raws : List (List Text)) (s : CsvSourceFile)
      → IsAt columns (raw ∷ raws) s
      → length columns ≡ length raw
      → (t : CsvSourceFile) × (get_line s ≡ (ok (row_of columns raw), t)) × IsAt columns raws t
  unfolding get_line to_row row_of
  get_line-wide raw raws s at wide =
      let (t, e, (has, more)) = next-IsAt raw raws s at in
      (t, rw (e, has, (==_iff (length columns) (length raw)).1 wide) refl, (has, more))

  -- `get_line` on a record of another width.
  get_line-uneven :
      (raw : List Text) (raws : List (List Text)) (s : CsvSourceFile)
      → IsAt columns (raw ∷ raws) s
      → length columns ≢ length raw
      → (t : CsvSourceFile) × (get_line s ≡ (raised exception, t))
  unfolding get_line to_row
  get_line-uneven raw raws s at uneven =
      let (t, e, (has, more)) = next-IsAt raw raws s at in
      let other : (length columns == length raw) ≡ false = ground arith in
      (t, rw (e, has, other) refl)

  Gives-rows :
      (raws rest : List (List Text)) (s : CsvSourceFile)
      → IsAt columns (raws ++ rest) s
      → AreWide columns raws
      → (t : CsvSourceFile) × Gives csv_source s (map (row_of columns) raws) t × IsAt columns rest t
  unfolding csv_source
  Gives-rows [] rest s at wide = (s, refl, at)
  Gives-rows (raw ∷ raws) rest s at (as_wide, wide) =
      let (u, e, at2) = get_line-wide raw (raws ++ rest) s at as_wide in
      let (t, gives, at3) = Gives-rows raws rest u at2 wide in (t, (u, e, gives), at3)

-- Where the columns' names stand: in the file, in the options with the file's names read over, or in the
-- options only.
abbrev pub IsHeaded : CsvSourceFile → List Text → List (List Text) → Type 0
IsHeaded s columns raws =
    ((s.no_header_row ≡ false) × (s.custom_header ≡ none) × (s.reader ≡ columns ∷ raws))
    ⊎ ((s.no_header_row ≡ false)
        × (s.custom_header ≡ some columns)
        × ((h : List Text) × (s.reader ≡ h ∷ raws)))
    ⊎ ((s.no_header_row ≡ true) × (s.custom_header ≡ some columns) × (s.reader ≡ raws))

read_header-first :
    (s : CsvSourceFile) (h : List Text) (raws : List (List Text))
    → s.reader ≡ h ∷ raws
    → (t : CsvSourceFile) × (read_header s ≡ (ok tt, t)) × (t.columns ≡ some h) × (t.reader ≡ raws)
unfolding read_header next set_columns next_of
read_header-first s h raws e = (
  record s { columns = some h; reader = raws; line_num = s.line_num + 1 },
  ap (λ l. (next_of l >>= λ columns. set_columns (some columns)) s) e,
  refl,
  refl,
)

setup_file-as :
    (s : CsvSourceFile) (custom : Option (List Text)) (no_header : Bool)
    → s.custom_header ≡ custom
    → s.no_header_row ≡ no_header
    → setup_file s ≡ setup_header custom no_header s
unfolding setup_file
setup_file-as s custom no_header e f =
    ap (λ c. setup_header c s.no_header_row s) e ∙ ap (λ b. setup_header custom b s) f

pub setup_file-IsAt :
    (s : CsvSourceFile) (columns : List Text) (raws : List (List Text))
    → IsHeaded s columns raws
    → (t : CsvSourceFile) × (setup_file s ≡ (ok tt, t)) × IsAt columns raws t
unfolding setup_header override_header set_columns warn
setup_file-IsAt s columns raws (inl (header, custom, e)) =
    let (t, read, names, more) = read_header-first s columns raws e in
    (t, setup_file-as s none false custom header ∙ rw read refl, (names, more))
setup_file-IsAt s columns raws (inr (inl (header, custom, (h, e)))) =
    let (t, read, names, more) = read_header-first s h raws e in
    (
      record t { columns = some columns; warnings = t.warnings + 1 },
      setup_file-as s (some columns) false custom header ∙ rw read refl,
      (refl, more),
    )
setup_file-IsAt s columns raws (inr (inr (header, custom, e))) = (
  record s { columns = some columns },
  setup_file-as s (some columns) true custom header,
  (refl, e),
)

get_line-end :
    (columns : List Text) (s : CsvSourceFile)
    → IsAt columns [] s
    → (t : CsvSourceFile) × (get_line s ≡ (raised stop_iteration, t))
unfolding get_line next next_of
get_line-end columns s (has, more) =
    (s, ap (λ l. (next_of l >>= λ raw. gets (λ s. s.columns) >>= λ c. to_row c raw) s) more)

-- The batches that are read from a CSV file have its records as rows, in order, and all but the last
-- are full, where each record has as many fields as there are columns.
pub csv_batches_rows :
    (s : CsvSourceFile) (columns : List Text) (raws : List (List Text)) (fuel size : ℕ)
    → IsHeaded s columns raws
    → AreWide columns raws
    → length raws < fuel
    → Delivers (suc size) [] (map (row_of columns) raws) (batches csv_source fuel (suc size) s)
unfolding batches after_setup
csv_batches_rows s columns raws fuel size headed wide enough =
    let (t, e, at) = setup_file-IsAt s columns raws headed in
    let at2 = subst (λ x. IsAt columns x t) (sym (append-nil raws)) at in
    let (u, gives, ended) = Gives-rows columns raws [] t at2 wide in
    let (v, ends) = get_line-end columns u ended in
    let reading =
      read_loop-Ends csv_source stop_iteration (λ x. cc) u v (unfold csv_source in ends) (suc size)
        (omega arith) fuel [] (map (row_of columns) raws) t gives
        (omega (arith, length-map (row_of columns) raws)) (omega arith) in
    unfold csv_source in
    rw e (
      Ends-Delivers csv_source v v (suc size) [] (map (row_of columns) raws) _ (omega arith) refl
        reading)

-- A CSV file with a record that has another number of fields than there are columns: the reading
-- raises an exception there. The rows before it are in batches, all full, but for those of a batch
-- that was begun, which are lost.
pub csv_batches_uneven :
    (s : CsvSourceFile) (columns : List Text) (raws : List (List Text)) (raw : List Text)
    (rest : List (List Text)) (fuel size : ℕ)
    → IsHeaded s columns (raws ++ raw ∷ rest)
    → AreWide columns raws
    → length columns ≢ length raw
    → length raws < fuel
    → (bs : List (List Row)) × (lost : List Row) × (t : CsvSourceFile) × (batches csv_source fuel
          (suc size)
          s
        ≡ (bs, (raised exception, t)))
      × (concat bs ++ lost ≡ map (row_of columns) raws)
      × All (λ b. length b ≡ suc size) bs
      × (length lost < suc size)
unfolding batches after_setup on_raise csv_source
csv_batches_uneven s columns raws raw rest fuel size headed wide uneven enough =
    let (t, e, at) = setup_file-IsAt s columns (raws ++ raw ∷ rest) headed in
    let (u, gives, ended) = Gives-rows columns raws (raw ∷ rest) t at wide in
    let (v, ends) = get_line-uneven columns raw rest u ended uneven in
    let (bs, lost, done, all, full, less) =
      read_loop-Ends csv_source exception (λ x. cc) u v ends (suc size) (omega arith) fuel []
        (map (row_of columns) raws) t gives (omega (arith, length-map (row_of columns) raws))
        (omega arith) in
    (
      bs,
      lost,
      v,
      rw e (
          done
          ∙ yield_all-append csv_source bs [] (raised exception, v)
          ∙ ap (λ x. (x, (raised exception, v))) (append-nil bs)),
      all,
      full,
      less,
    )
