-- ===== src/Tools/Import/Json/Leading.antt =====
-- _import.py, `JsonSourceFile.setup_file` on a file that begins with a space.
use rethinkdb_python.Base.{
  ℕ, suc, ◌+◌, ◌-◌, ◌*◌, ◌<◌, ◌≡◌, refl, ap, ◌∙◌, true, false, some, [], ◌∷◌, length, take,
  take_all, drop, ◌==◌, inl, arith,
}
use rethinkdb_python.Base.Integer.{negsuc, add}
use rethinkdb_python.Base.Exec.{ok, raised}
use rethinkdb_python.Tools.Import.{
  Text, runtime_error, stop_iteration, after_setup, leaves, batches,
}
use rethinkdb_python.Tools.Import.Json.{
  Io, Buffer, JsonSourceFile, json_read_chunk_size, fresh, refilled, with_chunk, add_data,
  fill_from, fill_buffer, moved_to, set_pos, unless_first, leading, setup_file, json_source,
}
use rethinkdb_python.Tools.Import.Json.View.{is_space, spaces, spaces-length, Lawful}
use rethinkdb_python.Tools.Import.Json.Fill.{drop_end, fill_buffer-end}
use rethinkdb_python.Tools.Import.Json.Document.{buffer_str-some}

module _ {Src Row : Type 0} (io : Io Src Row) (dumps : Row → Text) (left : Src → Text)
    (lawful : Lawful io dumps left) (max : ℕ) where
  -- A file that is read at once.
  fill_buffer-whole :
      (source : Src) (c : ℕ) (l : Text)
      → left source ≡ c ∷ l
      → length l < json_read_chunk_size
      → (s : JsonSourceFile Src) × (fill_buffer io max (fresh source) ≡ (ok tt, s))
        × (s.buffer ≡ some (refilled [] (c ∷ l)))
        × (left s.source ≡ [])
        × (s.buffer_size ≡ json_read_chunk_size)
  unfolding fill_buffer fill_from add_data with_chunk
  fill_buffer-whole source c l text small =
      let chunk : (io.read json_read_chunk_size source).0 ≡ c ∷ l =
        lawful.reads json_read_chunk_size source
        ∙ ap (take json_read_chunk_size) text
        ∙ take_all json_read_chunk_size (c ∷ l) (omega arith) in
      let after : left (io.read json_read_chunk_size source).1 ≡ [] =
        lawful.reads_on json_read_chunk_size source
        ∙ ap (drop json_read_chunk_size) text
        ∙ drop_end json_read_chunk_size (c ∷ l) (omega arith) in
      (
        record (fresh source) {
          source = (io.read json_read_chunk_size source).1;
          buffer = some (refilled [] (c ∷ l));
          bytes_read = add (length (c ∷ l)) (negsuc 0);
        },
        rw chunk refl,
        refl,
        after,
        refl,
      )

  -- The file ends at the second `fill_buffer` of `setup_file`.
  batches-ended :
      (s s1 s2 : JsonSourceFile Src) (b : Buffer) (n k fuel size : ℕ)
      → json_read_chunk_size < max
      → fill_buffer io max s ≡ (ok tt, s1)
      → s1.buffer ≡ some b
      → io.whitespace_end b.str 0 ≡ suc n
      → fill_buffer io max (set_pos io (suc n) s1) ≡ (raised stop_iteration, s2)
      → batches (json_source io max (suc (suc k))) fuel (suc size) s
        ≡ ([], (raised runtime_error, s2))
  unfolding batches after_setup json_source setup_file leading unless_first leaves
  batches-ended s s1 s2 b n k fuel size chunk e1 has to e2 =
      let moved : (suc n == 0) ≡ false = ground arith in
      rw (e1, buffer_str-some io dumps left lawful max chunk s1 b has, to, moved, e2) refl

  -- A file that begins with a space, and is read at once, is not imported: the file seems to end
  -- before the first row, and the generator raises a RuntimeError.
  pub leading_space :
      (source : Src) (c : ℕ) (l : Text) (k fuel size : ℕ)
      → left source ≡ c ∷ l
      → is_space c ≡ true
      → length l < json_read_chunk_size
      → json_read_chunk_size < max
      → 2 * length (left source) < max
      → (s : JsonSourceFile Src) × (batches
            (json_source io max (suc (suc k)))
            fuel
            (suc size)
            (fresh source)
          ≡ ([], (raised runtime_error, s)))
  unfolding set_pos moved_to refilled
  leading_space source c l k fuel size text space small chunk enough =
      let (s1, e1, has, ended, as_size) = fill_buffer-whole source c l text small in
      let n : ℕ = suc (spaces l) in
      let s2 : JsonSourceFile Src = set_pos io n s1 in
      let b2 : Buffer = record { str = c ∷ l; buffer_pos = n; buffer_end = length (c ∷ l) - 1 } in
      let count : spaces (c ∷ l) ≡ n = unfold spaces in rw space refl in
      let to : io.whitespace_end (c ∷ l) 0 ≡ n =
        lawful.matches (c ∷ l) 0 (omega arith) ∙ ap (λ m. 0 + m) count ∙ omega arith in
      let has2 : s2.buffer ≡ some b2 = ap (moved_to n) has in
      let short = spaces-length l in
      let (s3, e3, has3, kept) =
        fill_buffer-end io dumps left lawful max (length (left source)) enough s2 b2
          (drop (spaces l) l) has2 (omega arith, refl, refl)
          (
            omega (arith, as_size),
            omega (arith, as_size),
            omega (arith, as_size),
            inl ended,
            omega (arith, ap length text, ap length ended),
          )
          ended in
      (
        s3,
        batches-ended (fresh source) s1 s3 (refilled [] (c ∷ l)) (spaces l) k fuel size chunk e1 has
            to e3,
      )
