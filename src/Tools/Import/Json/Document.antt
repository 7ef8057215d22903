-- ===== src/Tools/Import/Json/Document.antt =====
-- _import.py, `SourceFile.batches` on a whole JSON file.
use rethinkdb_python.Base.{
  ℕ, suc, ◌+◌, ◌*◌, ◌≤◌, ◌<◌, ◌≡◌, refl, sym, ap, ◌∙◌, subst, Bool, true, false, some, List, [],
  ◌∷◌, ◌++◌, length, drop, arith,
}
use rethinkdb_python.Base.Exec.{ok, pure}
use rethinkdb_python.Tools.Import.{Text, after_setup, batches}
use rethinkdb_python.Tools.Import.Json.{
  Io, Buffer, JsonSourceFile, json_read_chunk_size, fresh, fill_from, fill_buffer, on_buffer,
  moved_to, set_pos, buffer_str, check_first, unless_first, leading, setup_file, json_source,
}
use rethinkdb_python.Tools.Import.Json.View.{is_space, spaces, IsBlank, Lawful}
use rethinkdb_python.Tools.Import.Json.Gap.{Gap, blank, gap_text}
use rethinkdb_python.Tools.Import.Json.Fill.{IsRefilled, add_data-more}
use rethinkdb_python.Tools.Import.Json.Step.{rest_text, IsItems, IsReading}
use rethinkdb_python.Tools.Import.Json.Rows.{rows_of, read_loop-Delivers}
use rethinkdb_python.Tools.Import.Batches.{Delivers}

module _ {Row : Type 0} (dumps : Row → Text) where
  -- An array of rows, or rows one after the other.
  unfoldable pub document : Bool → List (Gap × Row) → Text → Text → Text
  document true items a z = 91 ∷ rest_text dumps true z items a
  document false items a z = rest_text dumps false z items a

  -- Rows without an array begin at once, and there is one at least.
  abbrev pub IsDocument : Bool → List (Gap × Row) → Text → Type 0
  IsDocument true items z = IsItems dumps true z false items
  IsDocument false [] z = ⊥
  IsDocument false ((g, r) ∷ items) z = (g ≡ blank []) × IsItems dumps false z true items

first_char :
    (t rest : Text) (c : ℕ) (l : Text)
    → t ++ rest ≡ c ∷ l
    → length rest < length (c ∷ l)
    → (u : Text) × (t ≡ c ∷ u) × (u ++ rest ≡ l)
first_char [] rest c l e fewer = absurd (omega (arith, ap length e))
first_char (b ∷ t) rest c l e fewer = let same : b ≡ c = cc in (t, ap (λ x. x ∷ t) same, cc)

module _ {Src Row : Type 0} (io : Io Src Row) (dumps : Row → Text) (left : Src → Text)
    (lawful : Lawful io dumps left) (max : ℕ) (chunk : json_read_chunk_size < max) where
  -- The first `fill_buffer` of a file.
  fill_buffer-fresh :
      (source : Src) (c : ℕ) (l : Text)
      → (enough : 2 * length (left source) < max) → left source ≡ c ∷ l
      → IsRefilled io dumps left lawful max
          (length (left source))
          enough
          (fresh source)
          (record { str = []; buffer_pos = 0; buffer_end = 0 })
          []
          (fill_buffer io max (fresh source))
  unfolding fill_buffer fill_from
  fill_buffer-fresh source c l enough e =
      add_data-more io dumps left lawful max (length (left source)) enough (fresh source)
        (record { str = []; buffer_pos = 0; buffer_end = 0 }) [] 131071 (omega arith, refl, refl)
        refl (omega arith) (omega arith) chunk (omega arith) c l e

  pub buffer_str-some :
      (s : JsonSourceFile Src) (b : Buffer) → s.buffer ≡ some b → buffer_str io s ≡ (ok b.str, s)
  unfolding buffer_str on_buffer
  buffer_str-some s b has = ap (λ o. on_buffer (λ b. pure b.str) o s) has

  -- `setup_file`, where the first text that is read begins with no space.
  setup_file-first :
      (k : ℕ) (s s2 : JsonSourceFile Src) (b : Buffer) (c : ℕ) (t : Text)
      → fill_buffer io max s ≡ (ok tt, s2)
      → s2.buffer ≡ some b
      → b.str ≡ c ∷ t
      → is_space c ≡ false
      → setup_file io max (suc k) s ≡ check_first io (c ∷ t) (set_pos io 0 s2)
  unfolding setup_file leading unless_first spaces
  setup_file-first k s s2 b c t e has whole solid =
      let count : spaces b.str ≡ 0 = rw (whole, solid) refl in
      let nothing : io.whitespace_end b.str 0 ≡ 0 =
        lawful.matches b.str 0 (omega arith) ∙ ap (λ n. 0 + n) count in
      let moved : (set_pos io 0 s2).buffer ≡ some (record b { buffer_pos = 0 }) =
        unfold set_pos moved_to in ap (moved_to 0) has in
      rw
        (
          e,
          buffer_str-some s2 b has,
          nothing,
          buffer_str-some (set_pos io 0 s2) (record b { buffer_pos = 0 }) moved,
          whole,
        )
        refl

  -- `setup_file` of an array.
  setup_file-array :
      (source : Src) (items : List (Gap × Row)) (a z : Text) (k : ℕ)
      → (enough : 2 * length (left source) < max) → left source ≡ document dumps true items a z
      → IsDocument dumps true items z
      → IsBlank a
      → (s : JsonSourceFile Src) × (setup_file io max (suc k) (fresh source) ≡ (ok tt, s))
        × IsReading io dumps left lawful max (length (left source)) true z s items a
        × (length (left s.source) < length (left source))
  unfolding check_first set_pos moved_to is_space document
  setup_file-array source items a z k enough text good m =
      let (s2, b, t, e, has, v, sized, same, fewer, as_array, as_found, start) =
        fill_buffer-fresh source 91 (rest_text dumps true z items a) enough text in
      let (u, head, behind) =
        first_char t (left s2.source) 91 (rest_text dumps true z items a) (same ∙ text)
          (omega (arith, fewer, ap length text)) in
      let whole : b.str ≡ 91 ∷ u = sym (ap (λ n. drop n b.str) start) ∙ v.1 ∙ head in
      let done = setup_file-first k (fresh source) s2 b 91 u e has whole refl in
      (
        set_pos io 1 (record (set_pos io 0 s2) { json_array = true }),
        done,
        (
          record b { buffer_pos = 1 },
          u,
          ap (λ o. moved_to 1 (moved_to 0 o)) has,
          (omega (arith, ap length whole), ap (drop 1) whole, v.2),
          sized,
          behind,
          refl,
          subst (λ x. IsItems dumps true z x items) (sym as_found) good,
          m,
        ),
        fewer,
      )

  -- `setup_file` of rows without an array.
  setup_file-rows :
      (source : Src) (r : Row) (items : List (Gap × Row)) (a z : Text) (k : ℕ)
      → (enough : 2 * length (left source) < max)
      → left source ≡ document dumps false ((blank [], r) ∷ items) a z
      → IsItems dumps false z true items
      → IsBlank a
      → (s : JsonSourceFile Src) × (setup_file io max (suc k) (fresh source) ≡ (ok tt, s))
        × IsReading io dumps left lawful max
            (length (left source))
            false
            z
            s
            ((blank [], r) ∷ items)
            a
        × (length (left s.source) < length (left source))
  unfolding check_first set_pos moved_to is_space document rest_text gap_text
  setup_file-rows source r items a z k enough text good m =
      let (d, w, brace) = lawful.braces r in
      let rest : Text = d ∷ w ++ rest_text dumps false z items a in
      let text2 : left source ≡ 123 ∷ rest =
        text ∙ ap (λ x. x ++ rest_text dumps false z items a) brace in
      let (s2, b, t, e, has, v, sized, same, fewer, as_array, as_found, start) =
        fill_buffer-fresh source 123 rest enough text2 in
      let (u, head, behind) =
        first_char t (left s2.source) 123 rest (same ∙ text2)
          (omega (arith, fewer, ap length text2)) in
      let whole : b.str ≡ 123 ∷ u = sym (ap (λ n. drop n b.str) start) ∙ v.1 ∙ head in
      let done = setup_file-first k (fresh source) s2 b 123 u e has whole refl in
      (
        record (set_pos io 0 s2) { json_array = false },
        done,
        (
          record b { buffer_pos = 0 },
          t,
          ap (moved_to 0) has,
          (omega arith, whole ∙ sym head, v.2),
          sized,
          same ∙ text,
          refl,
          (tt, good),
          m,
        ),
        fewer,
      )

  -- The batches that are read from a JSON file have its rows, in order, and all but the last are full.
  -- The conditions are that twice the length of the file is below the greatest size of the buffer, that a
  -- chunk fits in that size, that the file begins at once, with no white space, with `[` or with the first
  -- of one or more rows, that each row is an object that the parser of JSON reads back, and nothing
  -- shorter (`Lawful`), that the gaps between the rows are well formed and only white space follows the
  -- last, and that the fuel is at least the rows and the characters of the file together.
  pub batches_rows :
      (source : Src) (array : Bool) (items : List (Gap × Row)) (a z : Text) (k fuel size : ℕ)
      → 2 * length (left source) < max
      → left source ≡ document dumps array items a z
      → IsDocument dumps array items z
      → IsBlank a
      → IsBlank z
      → length items + length (left source) ≤ fuel
      → Delivers
          (suc size)
          []
          (rows_of items)
          (batches (json_source io max (suc k)) fuel (suc size) (fresh source))
  unfolding batches after_setup json_source
  batches_rows source true items a z k fuel size enough text good m clean fuelled =
      let (s, e, reading, fewer) = setup_file-array source items a z k enough text good m in
      rw e (
        read_loop-Delivers io dumps left lawful max (length (left source)) enough true z clean
          (suc k) (suc size) (omega arith) fuel [] s items a reading (omega arith) (omega arith))
  batches_rows source false [] a z k fuel size enough text good m clean fuelled = absurd good
  batches_rows source false ((g, r) ∷ items) a z k fuel size enough text (at_once, good) m clean
        fuelled =
      let text2 = text ∙ ap (λ x. document dumps false ((x, r) ∷ items) a z) at_once in
      let (s, e, reading, fewer) = setup_file-rows source r items a z k enough text2 good m in
      rw e (
        read_loop-Delivers io dumps left lawful max (length (left source)) enough false z clean
          (suc k) (suc size) (omega arith) fuel [] s ((blank [], r) ∷ items) a reading (omega arith)
          (omega arith))
