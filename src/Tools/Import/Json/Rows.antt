-- ===== src/Tools/Import/Json/Rows.antt =====
-- _import.py, `SourceFile.batches` on a JSON file that is being read.
use rethinkdb_python.Base.{
  ℕ, zero, suc, ◌+◌, ◌*◌, ◌≤◌, ◌<◌, ◌≡◌, ◌≢◌, refl, sym, ap, ◌∙◌, subst, Bool, some, List, [], ◌∷◌,
  ◌++◌, length, length-append, append-nil, append_assoc, leb, leb→le, leb-false→lt, Bool-cases, ◌⊎◌,
  inl, inr, arith,
}
use rethinkdb_python.Base.Exec.{ok, raised}
use rethinkdb_python.Tools.Import.{
  Text, stop_iteration, SourceFile, Run, yield, stopped, on_raise, after_fill, after_line,
  read_loop,
}
use rethinkdb_python.Tools.Import.Batches.{concat, IsCut-full, Delivers}
use rethinkdb_python.Tools.Import.Json.{
  Io, JsonSourceFile, fill_buffer, get_line, on_buffer, end_of, with_end, teardown, json_source,
}
use rethinkdb_python.Tools.Import.Json.View.{IsBlank, Lawful, View}
use rethinkdb_python.Tools.Import.Json.Gap.{Gap}
use rethinkdb_python.Tools.Import.Json.End.{closing, end_file-closing}
use rethinkdb_python.Tools.Import.Json.Fill.{fill_buffer-end, fill_buffer-more}
use rethinkdb_python.Tools.Import.Json.Step.{
  rest_text, IsItems, IsReading, get_line-item, get_line-closing,
}

abbrev pub rows_of : {Row : Type 0} → List (Gap × Row) → List Row
rows_of [] = []
rows_of ((g, r) ∷ items) = r ∷ rows_of items

module _ {Src Row : Type 0} (io : Io Src Row) (dumps : Row → Text) (left : Src → Text)
    (lawful : Lawful io dumps left) (max total : ℕ) (enough : 2 * total < max) (array : Bool)
    (z : Text) (clean : IsBlank z) (fuel size : ℕ) (positive : 0 < size) where
  abbrev File : Type 0
  File = JsonSourceFile Src

  abbrev Reading : File → List (Gap × Row) → Text → Type 0
  Reading = IsReading io dumps left lawful max total array z

  fill-Reading :
      (s : File) (items : List (Gap × Row)) (a : Text) (c : ℕ) (l : Text)
      → Reading s items a
      → left s.source ≡ c ∷ l
      → (s2 : File) × (fill_buffer io max s ≡ (ok tt, s2))
        × Reading s2 items a
        × (length (left s2.source) < length (left s.source))
  fill-Reading s items a c l (b, t, has, v, sized, text, is_array, others, m) more =
      let (s2, b2, t2, e, has2, v2, sized2, same, fewer, as_array, as_found, start) =
        fill_buffer-more io dumps left lawful max total enough s b t has v sized c l more in
      (
        s2,
        e,
        (
          b2,
          t2,
          has2,
          v2,
          sized2,
          same ∙ text,
          as_array ∙ is_array,
          subst (λ x. IsItems dumps array z x items) (sym as_found) others,
          m,
        ),
        fewer,
      )

  teardown-Reading :
      (s : File) (a : Text)
      → Reading s [] a
      → left s.source ≡ []
      → (s2 : File) × (s3 : File) × (fill_buffer io max s ≡ (raised stop_iteration, s2))
        × (teardown io s2 ≡ (ok tt, s3))
  unfolding rest_text teardown on_buffer end_of with_end
  teardown-Reading s a (b, t, has, v, sized, text, is_array, others, m) nothing =
      let (s2, e, has2, as_array) =
        fill_buffer-end io dumps left lawful max total enough s b t has v sized nothing in
      let all : t ≡ a ++ closing array z =
        sym (append-nil t) ∙ ap (λ x. t ++ x) (sym nothing) ∙ text in
      let v2 : View b (a ++ closing array z) = subst (λ x. View b x) all v in
      let (b3, e3) = end_file-closing io dumps left lawful b a array z v2 m clean in
      (
        s2,
        record s2 { buffer = some b3 },
        e,
        ap (λ o. on_buffer (end_of io) o s2) has2 ∙ rw (as_array, is_array, e3) refl,
      )

  abbrev file : SourceFile File Row
  file = json_source io max fuel

  abbrev loop : ℕ → List Row → File → Run File Row
  loop n = read_loop file n size

  -- `n` rounds are enough for what is still to come.
  abbrev Serves : ℕ → Type 0
  Serves n =
      (batch : List Row) (s : File) (items : List (Gap × Row)) (a : Text)
      → Reading s items a
      → length items + length (left s.source) < n
      → length batch ≤ size
      → Delivers size batch (rows_of items) (loop n batch s)

  after_fill-Delivers :
      (n : ℕ)
      → Serves n
      → (batch : List Row) (s : File) (items : List (Gap × Row)) (a : Text) (c : ℕ) (l : Text)
      → Reading s items a
      → left s.source ≡ c ∷ l
      → length items + length (left s.source) < suc n
      → length batch ≤ size
      → Delivers size batch (rows_of items) (after_fill file (loop n) batch (fill_buffer io max s))
  unfolding after_fill json_source
  after_fill-Delivers n serves batch s items a c l reading more small short =
      let (s2, e, reading2, fewer) = fill-Reading s items a c l reading more in
      rw e (serves batch s2 items a reading2 (omega arith) short)

  stopped-Delivers :
      (n : ℕ) (batch : List Row) (s : File) (a : Text)
      → Reading s [] a
      → left s.source ≡ []
      → length batch ≤ size
      → Delivers size batch [] (after_fill file (loop n) batch (fill_buffer io max s))
  unfolding after_fill json_source on_raise stopped yield concat
  stopped-Delivers n [] s a reading nothing short =
      let (s2, s3, e, ends) = teardown-Reading s a reading nothing in
      rw (e, ends) ([], s3, refl, refl, tt)
  stopped-Delivers n (row ∷ batch) s a reading nothing short =
      let (s2, s3, e, ends) = teardown-Reading s a reading nothing in
      rw (e, ends) ((row ∷ batch) ∷ [], s3, refl, refl, (omega arith, short))

  -- More data are asked for, and there are more, or no row is still to come.
  wait-Delivers :
      (n : ℕ)
      → Serves n
      → (batch : List Row) (s : File) (items : List (Gap × Row)) (a : Text) (l : Text)
      → Reading s items a
      → left s.source ≡ l
      → (l ≢ []) ⊎ (items ≡ [])
      → length items + length (left s.source) < suc n
      → length batch ≤ size
      → Delivers size batch (rows_of items) (after_fill file (loop n) batch (fill_buffer io max s))
  wait-Delivers n serves batch s items a (c ∷ l) reading e why small short =
      after_fill-Delivers n serves batch s items a c l reading e small short
  wait-Delivers n serves batch s items a [] reading e (inl more) small short = absurd (more refl)
  wait-Delivers n serves batch s [] a [] reading e (inr ended) small short =
      stopped-Delivers n batch s a reading e short
  wait-Delivers n serves batch s (i ∷ items) a [] reading e (inr ended) small short = cc

  after_line-Delivers :
      (n : ℕ)
      → Serves n
      → (batch : List Row) (s : File) (items : List (Gap × Row)) (a : Text) → Reading s items a
      → length items + length (left s.source) < suc n
      → length batch < size
      → Delivers size batch (rows_of items) (after_line file (loop n) batch (get_line io s))
  unfolding after_line json_source
  after_line-Delivers n serves batch s [] a reading small short =
      let (s2, a2, e, reading2, same) =
        get_line-closing io dumps left lawful max total array z s a reading in
      let size2 : length (left s2.source) ≡ length (left s.source) =
        ap (λ x. length (left x)) same in
      rw e (
        wait-Delivers n serves batch s2 [] a2 (left s2.source) reading2 refl (inr refl)
          (omega arith) (omega arith))
  after_line-Delivers n serves batch s ((g, r) ∷ items) a reading small short =
      elim (get_line-item io dumps left lawful max total array z s g r items a reading) [
        | inl (s2, e, reading2, same) ↦
            let size2 : length (left s2.source) ≡ length (left s.source) =
              ap (λ x. length (left x)) same in
            let longer = length-append batch (r ∷ []) in
            let (bs, s3, done, all, cut) =
              serves (batch ++ r ∷ []) s2 items a reading2 (omega arith) (omega arith) in
            rw e (bs, s3, done, all ∙ append_assoc batch (r ∷ []) (rows_of items), cut)
        | inr (s2, g2, e, reading2, same, more) ↦
            let size2 : length (left s2.source) ≡ length (left s.source) =
              ap (λ x. length (left x)) same in
            rw e (
              wait-Delivers n serves batch s2 ((g2, r) ∷ items) a (left s2.source) reading2 refl
                (inl (λ h. more (sym (ap left same) ∙ h))) (omega arith) (omega arith))
      ]

  -- The loop delivers the rows that are still to come, in order, in batches.
  pub read_loop-Delivers : (n : ℕ) → Serves n
  unfolding read_loop yield concat after_line json_source
  read_loop-Delivers zero batch s items a reading small short = absurd (omega arith)
  read_loop-Delivers (suc n) batch s items a reading small short =
      elim (Bool-cases (leb size (length batch))) [
        | inl full ↦
            let at_least = leb→le size (length batch) full in
            let (bs, s3, done, all, cut) =
              after_line-Delivers n (read_loop-Delivers n) [] s items a reading small positive in
            rw (full, done)
              (
                batch ∷ bs,
                s3,
                refl,
                ap (λ x. batch ++ x) all,
                IsCut-full size batch bs positive (omega arith) cut,
              )
        | inr part ↦ rw part (
            after_line-Delivers n (read_loop-Delivers n) batch s items a reading small
              (leb-false→lt size (length batch) part))
      ]
