-- ===== src/Tools/Import/Json/Kept.antt =====
-- _import.py, `JsonSourceFile.get_line` moves the position in the buffer, and does not change its text.
use rethinkdb_python.Base.{
  ℕ, ◌+◌, ◌≡◌, refl, ◌∙◌, Bool, true, false, Option, none, some, drop, head?, leb, ◌==◌, inl, inr,
  Bool-cases,
}
use rethinkdb_python.Base.Exec.{Outcome, ok, raised, blocked, Exec, feed, ◌>>=◌, ◌>>◌}
use rethinkdb_python.Tools.Import.{Raised}
use rethinkdb_python.Tools.Import.Json.{
  Io, Buffer, indexed, decoded, check_more, char_at, over_comma, past_comma, over_whitespace,
  decode, read_item, read_from, read_line,
}

abbrev Keeps : {A : Type 0} → Exec Raised Buffer A → Type 0
Keeps m = (b : Buffer) → (m b).1.str ≡ b.str

Keeps->>= :
    {A B : Type 0} (m : Exec Raised Buffer A) (f : A → Exec Raised Buffer B)
    → Keeps m
    → ((a : A) → Keeps (f a))
    → Keeps (m >>= f)
Keeps->>= {A} m f first next b = go (m b).0 (m b).1 (first b)
  where
    go : (o : Outcome Raised A) (b1 : Buffer) → b1.str ≡ b.str → (feed o f b1).1.str ≡ b.str
    go (ok a) b1 e = next a b1 ∙ e
    go (raised x) b1 e = e
    go blocked b1 e = e

check_more-Keeps : Keeps check_more
unfolding check_more
check_more-Keeps b = elim (Bool-cases (leb b.buffer_end b.buffer_pos)) [
  | inl e ↦ rw e refl
  | inr e ↦ rw e refl
]

indexed-Keeps : (o : Option ℕ) → Keeps (indexed o)
unfolding indexed
indexed-Keeps none b = refl
indexed-Keeps (some c) b = refl

char_at-Keeps : Keeps char_at
unfolding char_at
char_at-Keeps b = indexed-Keeps (head? (drop b.buffer_pos b.str)) b

decoded-Keeps : {Row : Type 0} (o : Option (Row × ℕ)) → Keeps (decoded o)
unfolding decoded
decoded-Keeps none b = refl
decoded-Keeps (some (row, pos)) b = refl

over_comma-Keeps : (c : ℕ) → Keeps (over_comma c)
unfolding over_comma
over_comma-Keeps c b = elim (Bool-cases (c == 44)) [
  | inl e ↦ rw e (check_more-Keeps (record b { buffer_pos = b.buffer_pos + 1 }))
  | inr e ↦ rw e refl
]

past_comma-Keeps : (allow : Bool) → Keeps (past_comma allow)
unfolding past_comma
past_comma-Keeps true b = Keeps->>= char_at over_comma char_at-Keeps over_comma-Keeps b
past_comma-Keeps false b = refl

module _ {Src Row : Type 0} (io : Io Src Row) where
  over_whitespace-Keeps : Keeps (over_whitespace io)
  unfolding over_whitespace
  over_whitespace-Keeps b = refl

  decode-Keeps : Keeps (decode io)
  unfolding decode
  decode-Keeps b = decoded-Keeps (io.raw_decode b.str b.buffer_pos) b

  read_item-Keeps : Keeps (read_item io)
  unfolding read_item
  read_item-Keeps =
      Keeps->>= (over_whitespace io) (λ u. check_more >> decode io) over_whitespace-Keeps
        (λ u. Keeps->>= check_more (λ u. decode io) check_more-Keeps (λ u. decode-Keeps))

  read_from-Keeps : (allow : Bool) → Keeps (read_from io allow)
  unfolding read_from
  read_from-Keeps allow =
      Keeps->>= check_more (λ u. past_comma allow >> read_item io) check_more-Keeps
        (λ u.
          Keeps->>= (past_comma allow) (λ u. read_item io) (past_comma-Keeps allow)
            (λ u. read_item-Keeps))

  pub read_line-str : (allow : Bool) (b : Buffer) → (read_line io allow b).1.str ≡ b.str
  unfolding read_line
  read_line-str allow =
      Keeps->>= (over_whitespace io) (λ u. read_from io allow) over_whitespace-Keeps
        (λ u. read_from-Keeps allow)
