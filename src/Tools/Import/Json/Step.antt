-- ===== src/Tools/Import/Json/Step.antt =====
-- _import.py, `JsonSourceFile`: a file that is being read, with the rows that are still to come.
use rethinkdb_python.Base.{
  ℕ, ◌≡◌, ◌≢◌, refl, sym, ap, ◌∙◌, subst, Bool, true, ◌&&◌, some, List, [], ◌∷◌, ◌++◌, ◌⊎◌, inl,
  inr,
}
use rethinkdb_python.Base.Exec.{ok, raised}
use rethinkdb_python.Tools.Import.{Text, need_more_data}
use rethinkdb_python.Tools.Import.Json.{
  Io, Buffer, JsonSourceFile, read_line, with_line, line_of, on_buffer, get_line,
}
use rethinkdb_python.Tools.Import.Json.View.{IsBlank, Lawful, View}
use rethinkdb_python.Tools.Import.Json.Gap.{Gap, gap_text, IsGap, read_line-item}
use rethinkdb_python.Tools.Import.Json.End.{closing, read_line-closing}
use rethinkdb_python.Tools.Import.Json.Fill.{IsSized}
use rethinkdb_python.Tools.Import.Json.Kept.{read_line-str}

module _ {Row : Type 0} (dumps : Row → Text) (array : Bool) (z : Text) where
  -- The text of rows, each with the gap before it, and of the end of the file, with spaces before it.
  unfoldable pub rest_text : List (Gap × Row) → Text → Text
  rest_text [] a = a ++ closing array z
  rest_text ((g, r) ∷ items) a = gap_text g ++ (dumps r ++ rest_text items a)

  -- Commas stand in arrays only, and not before the first row.
  abbrev pub IsItems : Bool → List (Gap × Row) → Type 0
  IsItems found [] = Unit
  IsItems found ((g, r) ∷ items) = IsGap (array && found) g × IsItems true items

module _ {Src Row : Type 0} (io : Io Src Row) (dumps : Row → Text) (left : Src → Text)
    (lawful : Lawful io dumps left) (max total : ℕ) (array : Bool) (z : Text) where
  -- The rows `items` are still to come, in the buffer and in the file.
  abbrev pub IsReading : JsonSourceFile Src → List (Gap × Row) → Text → Type 0
  IsReading s items a =
      (b : Buffer) × (t : Text) × (s.buffer ≡ some b)
      × View b t
      × IsSized max total s.buffer_size b (left s.source)
      × (t ++ left s.source ≡ rest_text dumps array z items a)
      × (s.json_array ≡ array)
      × IsItems dumps array z s.found_first items
      × IsBlank a

  same_size :
      (s : JsonSourceFile Src) (b b2 : Buffer)
      → b2.str ≡ b.str
      → IsSized max total s.buffer_size b (left s.source)
      → IsSized max total s.buffer_size b2 (left s.source)
  same_size s b b2 e sized =
      subst (λ str. IsSized max total s.buffer_size (record b2 { str = str }) (left s.source))
        (sym e) sized

  get_line-some :
      (s : JsonSourceFile Src) (b : Buffer)
      → s.buffer ≡ some b
      → get_line io s ≡ with_line io s (read_line io (s.json_array && s.found_first) b)
  unfolding get_line line_of on_buffer
  get_line-some s b has = ap (λ o. on_buffer (line_of io) o s) has

  -- `get_line`, where a row is still to come, reads the row or asks for more data.
  pub get_line-item :
      (s : JsonSourceFile Src) (g : Gap) (r : Row) (items : List (Gap × Row)) (a : Text)
      → IsReading s ((g, r) ∷ items) a
      → ((s2 : JsonSourceFile Src) × (get_line io s ≡ (ok r, s2))
          × IsReading s2 items a
          × (s2.source ≡ s.source))
        ⊎ ((s2 : JsonSourceFile Src) × (g2 : Gap) × (get_line io s ≡ (raised need_more_data, s2))
            × IsReading s2 ((g2, r) ∷ items) a
            × (s2.source ≡ s.source)
            × (left s.source ≢ []))
  unfolding rest_text with_line
  get_line-item s g r items a (b, t, has, v, sized, text, is_array, (gap, others), m) =
      let allow : Bool = s.json_array && s.found_first in
      let allowed : IsGap allow g = subst (λ y. IsGap (y && s.found_first) g) (sym is_array) gap in
      let kept = read_line-str io allow b in
      elim (read_line-item io dumps left lawful allow b t g (left s.source) r _ v allowed text) [
        | inl (b2, t2, e, v2, text2) ↦ inl (
          record s { buffer = some b2; found_first = true },
          get_line-some s b has ∙ rw e refl,
          (
            b2,
            t2,
            refl,
            v2,
            same_size s b b2 (sym (ap (λ o. o.1.str) e) ∙ kept) sized,
            text2,
            is_array,
            others,
            m,
          ),
          refl,
        )
        | inr ((b2, t2, g2, e, v2, gap2, text2), more) ↦ inr (
          record s { buffer = some b2 },
          g2,
          get_line-some s b has ∙ rw e refl,
          (
            b2,
            t2,
            refl,
            v2,
            same_size s b b2 (sym (ap (λ o. o.1.str) e) ∙ kept) sized,
            text2,
            is_array,
            (subst (λ y. IsGap (y && s.found_first) g2) is_array gap2, others),
            m,
          ),
          refl,
          more,
        )
      ]

  -- `get_line`, where no row is still to come, asks for more data.
  pub get_line-closing :
      (s : JsonSourceFile Src) (a : Text)
      → IsReading s [] a
      → (s2 : JsonSourceFile Src) × (a2 : Text) × (get_line io s ≡ (raised need_more_data, s2))
        × IsReading s2 [] a2
        × (s2.source ≡ s.source)
  unfolding rest_text with_line
  get_line-closing s a (b, t, has, v, sized, text, is_array, others, m) =
      let allow : Bool = s.json_array && s.found_first in
      let kept = read_line-str io allow b in
      let (b2, t2, a2, e, v2, m2, text2) =
        read_line-closing io dumps left lawful allow b t a (left s.source) array z v m text in
      (
        record s { buffer = some b2 },
        a2,
        get_line-some s b has ∙ rw e refl,
        (
          b2,
          t2,
          refl,
          v2,
          same_size s b b2 (sym (ap (λ o. o.1.str) e) ∙ kept) sized,
          text2,
          is_array,
          others,
          m2,
        ),
        refl,
      )
