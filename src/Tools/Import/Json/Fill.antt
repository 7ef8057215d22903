-- ===== src/Tools/Import/Json/Fill.antt =====
-- _import.py, `JsonSourceFile.fill_buffer`: more of the file behind what the buffer still has.
use rethinkdb_python.Base.{
  ℕ, zero, suc, ◌+◌, ◌-◌, ◌*◌, ◌≤◌, ◌<◌, ◌≡◌, ◌≢◌, refl, sym, ap, ◌∙◌, false, some, List, [], ◌∷◌,
  ◌++◌, length, take, drop, min, ◌==◌, ==_iff, ◌⊎◌, inl, inr, Bool-cases, leb, leb→le, leb-false→lt,
  length-append, length-take, length-drop, take-append-drop, append_assoc, arith,
}
use rethinkdb_python.Base.Integer.{add}
use rethinkdb_python.Base.Exec.{Outcome, ok, raised, when}
use rethinkdb_python.Tools.Import.{Text, Raised, stop_iteration}
use rethinkdb_python.Tools.Import.Json.{
  Io, Buffer, JsonSourceFile, twice, grow, refilled, with_chunk, add_data, fill_from, fill_buffer,
}
use rethinkdb_python.Tools.Import.Json.View.{Lawful, View}

-- Nothing is left of a text, or the buffer is full.
abbrev pub IsFilled : ℕ → Buffer → Text → Type 0
IsFilled size b rest = (rest ≡ []) ⊎ (size ≤ length b.str)

-- The size of a buffer, for a text of `total` characters at most.
abbrev pub IsSized : ℕ → ℕ → ℕ → Buffer → Text → Type 0
IsSized max total size b rest =
    (0 < size)
    × (size < max)
    × (length b.str ≤ size + 1)
    × IsFilled size b rest
    × (length b.str + length rest ≤ total)

pub drop_end : {A : Type 0} (n : ℕ) (xs : List A) → length xs ≤ n → drop n xs ≡ []
drop_end zero [] h = refl
drop_end zero (x ∷ xs) h = absurd (omega arith)
drop_end (suc n) [] h = refl
drop_end (suc n) (x ∷ xs) h = drop_end n xs (omega arith)

positive : (n : ℕ) → 0 < n → (k : ℕ) × (n ≡ suc k)
positive zero h = absurd (omega arith)
positive (suc k) h = (k, refl)

module _ {Src Row : Type 0} (io : Io Src Row) (dumps : Row → Text) (left : Src → Text)
    (lawful : Lawful io dumps left) (max total : ℕ) (enough : 2 * total < max) where
  -- The buffer is made larger only where it could hold no more.
  grow-IsSized :
      (s : JsonSourceFile Src) (b : Buffer) (t : Text)
      → View b t
      → IsSized max total s.buffer_size b (left s.source)
      → (n : ℕ) × (when (b.buffer_pos == 0) (grow io max) s ≡ (ok tt, record s { buffer_size = n }))
        × (0 < n + b.buffer_pos - b.buffer_end)
        × (s.buffer_size ≤ n)
        × ((left s.source ≡ []) ⊎ (n < max))
  unfolding grow twice
  grow-IsSized s b t (p, e, q) (some_size, small, fits, filled, whole) =
      elim (Bool-cases (b.buffer_pos == 0)) [
        | inl at_start ↦
            let here : b.buffer_pos ≡ 0 = (==_iff b.buffer_pos 0).0 at_start in
            let other : (s.buffer_size == max) ≡ false = ground arith in
            let n : ℕ = min (s.buffer_size * 2) max in
            let size = length-drop b.buffer_pos b.str in
            (
              n,
              rw (at_start, other) refl,
              omega arith,
              omega arith,
              elim filled [
                | inl nothing ↦ inl nothing
                | inr full ↦ inr (omega (arith, size, ap length e))
              ],
            )
        | inr moved ↦
            let past : b.buffer_pos ≢ 0 = λ h. cc (sym moved ∙ (==_iff b.buffer_pos 0).1 h) in
            (s.buffer_size, rw moved refl, omega arith, omega arith, inr small)
      ]

  -- `fill_buffer`, where there is a buffer, which has been made larger or not.
  fill_buffer-some :
      (s : JsonSourceFile Src) (b : Buffer) (n : ℕ)
      → s.buffer ≡ some b
      → when (b.buffer_pos == 0) (grow io max) s ≡ (ok tt, record s { buffer_size = n })
      → fill_buffer io max s ≡ add_data io b (record s { buffer_size = n })
  unfolding fill_buffer fill_from
  fill_buffer-some s b n has e = ap (λ o. fill_from io max o s) has ∙ rw e refl

  add_data-end :
      (s : JsonSourceFile Src) (b : Buffer) (k : ℕ)
      → s.buffer_size + b.buffer_pos - b.buffer_end ≡ suc k
      → left s.source ≡ []
      → add_data io b s ≡ (
        raised stop_iteration,
        record s { source = (io.read (suc k) s.source).1; buffer = some b },
      )
  unfolding add_data with_chunk
  add_data-end s b k target nothing =
      let chunk : (io.read (suc k) s.source).0 ≡ [] =
        lawful.reads (suc k) s.source ∙ ap (take (suc k)) nothing in
      rw (add_data, target, chunk) refl

  -- The file has ended.
  pub fill_buffer-end :
      (s : JsonSourceFile Src) (b : Buffer) (t : Text)
      → s.buffer ≡ some b
      → View b t
      → IsSized max total s.buffer_size b (left s.source)
      → left s.source ≡ []
      → (s2 : JsonSourceFile Src) × (fill_buffer io max s ≡ (raised stop_iteration, s2))
        × (s2.buffer ≡ some b)
        × (s2.json_array ≡ s.json_array)
  fill_buffer-end s b t has v sized nothing =
      let (n, e, room, more, small) = grow-IsSized s b t v sized in
      let (k, target) = positive (n + b.buffer_pos - b.buffer_end) room in
      (
        _,
        fill_buffer-some s b n has e
            ∙ add_data-end (record s { buffer_size = n }) b k target nothing,
        refl,
        refl,
      )

  -- A file that has been read on from.
  abbrev pub IsRefilled :
      JsonSourceFile Src → Buffer → Text → Outcome Raised (Unit {0}) × JsonSourceFile Src → Type 0
  IsRefilled s b t o =
      (s2 : JsonSourceFile Src) × (b2 : Buffer) × (t2 : Text) × (o ≡ (ok tt, s2))
      × (s2.buffer ≡ some b2)
      × View b2 t2
      × IsSized max total s2.buffer_size b2 (left s2.source)
      × (t2 ++ left s2.source ≡ t ++ left s.source)
      × (length (left s2.source) < length (left s.source))
      × (s2.json_array ≡ s.json_array)
      × (s2.found_first ≡ s.found_first)
      × (b2.buffer_pos ≡ 0)

  pub add_data-more :
      (s : JsonSourceFile Src) (b : Buffer) (t : Text) (k : ℕ)
      → View b t
      → s.buffer_size + b.buffer_pos - b.buffer_end ≡ suc k
      → length b.str ≤ s.buffer_size + 1
      → 0 < s.buffer_size
      → s.buffer_size < max
      → length b.str + length (left s.source) ≤ total
      → (c : ℕ) (l : Text) → left s.source ≡ c ∷ l
      → IsRefilled s b t (add_data io b s)
  unfolding add_data with_chunk refilled
  add_data-more s b t k (p, here, q) target fits some_size small whole c l more_text =
      let chunk : (io.read (suc k) s.source).0 ≡ c ∷ take k l =
        lawful.reads (suc k) s.source ∙ ap (take (suc k)) more_text in
      let after : left (io.read (suc k) s.source).1 ≡ drop k l =
        lawful.reads_on (suc k) s.source ∙ ap (drop (suc k)) more_text in
      let joined = length-append t (c ∷ take k l) in
      let taken = length-take k l in
      let dropped = length-drop k l in
      let at_end = ap length after in
      let behind = ap length more_text in
      let gone = length-drop b.buffer_pos b.str in
      let before = ap length here in
      let filled : IsFilled s.buffer_size (refilled t (c ∷ take k l))
          (left (io.read (suc k) s.source).1) =
        elim (Bool-cases (leb (length l) k)) [
          | inl all ↦ inl (after ∙ drop_end k l (leb→le (length l) k all))
          | inr part ↦
              let short : k < length l = leb-false→lt (length l) k part in inr (omega arith)
        ] in
      (
        record s {
          source = (io.read (suc k) s.source).1;
          buffer = some (refilled t (c ∷ take k l));
          bytes_read = add (length (c ∷ take k l)) s.bytes_read;
        },
        refilled t (c ∷ take k l),
        t ++ (c ∷ take k l),
        rw (add_data, target, chunk, here) refl,
        refl,
        (omega arith, refl, refl),
        (some_size, small, omega arith, filled, omega arith),
        rw (after, more_text, append_assoc t (c ∷ take k l) (drop k l), take-append-drop k l) refl,
        omega arith,
        refl,
        refl,
        refl,
      )

  -- What was read stands behind what the buffer had before it.
  pub fill_buffer-more :
      (s : JsonSourceFile Src) (b : Buffer) (t : Text)
      → s.buffer ≡ some b
      → View b t
      → IsSized max total s.buffer_size b (left s.source)
      → (c : ℕ) (l : Text) → left s.source ≡ c ∷ l
      → IsRefilled s b t (fill_buffer io max s)
  fill_buffer-more s b t has v sized c l more_text =
      let (n, e, room, more, small) = grow-IsSized s b t v sized in
      let (k, target) = positive (n + b.buffer_pos - b.buffer_end) room in
      let (some_size, _, fits, filled, whole) = sized in
      let small2 : n < max = elim small [ inl nothing ↦ cc | inr less ↦ less ] in
      rw (fill_buffer-some s b n has e) (
        add_data-more (record s { buffer_size = n }) b t k v target (omega arith) (omega arith)
          small2 whole c l more_text)
