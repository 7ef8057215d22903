-- ===== src/Tools/Import/Json/View.antt =====
-- _import.py, `JsonSourceFile`: what the json module is relied on for, and the text that a buffer has
-- before it.
use rethinkdb_python.Base.{
  ℕ, zero, suc, ◌+◌, ◌-◌, ◌≤◌, ◌<◌, ◌≡◌, refl, sym, ap, ◌∙◌, Bool, true, ◌||◌, none, some, [], ◌∷◌,
  ◌++◌, length, drop, take, leb, ◌==◌, if◌then◌else◌, ◌⊎◌, inl, inr, Bool-cases, length-drop, arith,
}
use rethinkdb_python.Base.Exec.{ok, raised}
use rethinkdb_python.Tools.Import.{Text, need_more_data}
use rethinkdb_python.Tools.Import.Json.{Io, Buffer, check_more, indexed, char_at, over_whitespace}

-- Space, tab, line feed, carriage return.
unfoldable pub is_space : ℕ → Bool
is_space c = c == 32 || c == 9 || c == 10 || c == 13

-- How many of them a text begins with.
unfoldable pub spaces : Text → ℕ
spaces [] = 0
spaces (c ∷ t) = let n = spaces t in if is_space c then suc n else 0

unfoldable pub strip : Text → Text
strip [] = []
strip (c ∷ t) = let rest = strip t in if is_space c then rest else c ∷ t

abbrev pub IsBlank : Text → Type 0
IsBlank [] = Unit
IsBlank (c ∷ t) = (is_space c ≡ true) × IsBlank t

-- `left` is the text that a file has left. A row's text is an object's, and says where it ends.
pub record Lawful {Src Row : Type 0} (io : Io Src Row) (dumps : Row → Text) (left : Src → Text)
    : Type 0 where
  pub reads : (n : ℕ) (s : Src) → (io.read n s).0 ≡ take n (left s)
  pub reads_on : (n : ℕ) (s : Src) → left (io.read n s).1 ≡ drop n (left s)
  pub matches : (t : Text) (p : ℕ) → p ≤ length t → io.whitespace_end t p ≡ p + spaces (drop p t)
  pub decodes :
      (t : Text) (p : ℕ) (r : Row) (rest : Text)
      → p ≤ length t
      → drop p t ≡ dumps r ++ rest
      → io.raw_decode t p ≡ some (r, p + length (dumps r))
  pub too_short :
      (t : Text) (p : ℕ) (r : Row) (c : ℕ) (u : Text)
      → p ≤ length t
      → dumps r ≡ drop p t ++ c ∷ u
      → io.raw_decode t p ≡ none
  pub no_value :
      (t : Text) (p : ℕ) (rest : Text)
      → p ≤ length t
      → drop p t ≡ 93 ∷ rest
      → io.raw_decode t p ≡ none
  pub braces : (r : Row) → (c : ℕ) × (u : Text) × (dumps r ≡ 123 ∷ c ∷ u)

-- The buffer has `t` before it.
abbrev pub View : Buffer → Text → Type 0
View b t =
    (b.buffer_pos ≤ length b.str)
    × (drop b.buffer_pos b.str ≡ t)
    × (b.buffer_end ≡ length b.str - 1)

drop_nil : (n : ℕ) → drop {A = ℕ} n [] ≡ []
drop_nil zero = refl
drop_nil (suc n) = refl

pub drop-add : (m n : ℕ) (t : Text) → drop (m + n) t ≡ drop n (drop m t)
drop-add zero n t = ap (λ k. drop k t) (omega arith)
drop-add (suc m) n [] = rw (drop_nil n, drop_nil (suc m + n)) refl
drop-add (suc m) n (c ∷ t) =
    let e : suc m + n ≡ suc (m + n) = omega arith in ap (λ k. drop k (c ∷ t)) e ∙ drop-add m n t

pub spaces-length : (t : Text) → spaces t ≤ length t
unfolding spaces
spaces-length [] = omega arith
spaces-length (c ∷ t) = elim (Bool-cases (is_space c)) [
  | inl e ↦ rw e (omega (arith, spaces-length t))
  | inr e ↦ rw e (omega arith)
]

drop-spaces : (t : Text) → drop (spaces t) t ≡ strip t
unfolding spaces strip
drop-spaces [] = refl
drop-spaces (c ∷ t) = elim (Bool-cases (is_space c)) [
  | inl e ↦ rw e (drop-spaces t)
  | inr e ↦ rw e refl
]

-- A buffer whose position is moved within its text.
pub View-moved :
    (b : Buffer) (t : Text) (n : ℕ)
    → View b t
    → n ≤ length t
    → View (record b { buffer_pos = b.buffer_pos + n }) (drop n t)
View-moved b t n (p, e, q) small =
    let size : length (drop b.buffer_pos b.str) ≡ length t = ap length e in
    (
      omega (arith, size, length-drop b.buffer_pos b.str),
      rw (drop-add b.buffer_pos n b.str, e) refl,
      q,
    )

pub check_more-View :
    (b : Buffer) (t : Text)
    → View b t
    → (length t ≤ 1) × (check_more b ≡ (raised need_more_data, b))
      ⊎ (1 < length t) × (check_more b ≡ (ok tt, b))
unfolding check_more
check_more-View b t (p, e, q) =
    let size : length (drop b.buffer_pos b.str) ≡ length t = ap length e in
    let gap = length-drop b.buffer_pos b.str in
    elim (Bool-cases (leb b.buffer_end b.buffer_pos)) [
      | inl m ↦ inl (ground arith, rw m refl)
      | inr m ↦ inr (ground arith, rw m refl)
    ]

pub char_at-View : (b : Buffer) (c : ℕ) (t : Text) → View b (c ∷ t) → char_at b ≡ (ok c, b)
unfolding char_at indexed
char_at-View b c t (p, e, q) = rw (char_at, e) refl

-- The step over one character.
pub View-next :
    (b : Buffer) (c : ℕ) (t : Text)
    → View b (c ∷ t)
    → View (record b { buffer_pos = b.buffer_pos + 1 }) t
View-next b c t v = View-moved b (c ∷ t) 1 v (omega arith)

module _ {Src Row : Type 0} (io : Io Src Row) (dumps : Row → Text) (left : Src → Text)
    (lawful : Lawful io dumps left) where
  pub over_whitespace-View :
      (b : Buffer) (t : Text)
      → View b t
      → (b2 : Buffer) × (over_whitespace io b ≡ (ok tt, b2)) × View b2 (strip t) × (b2.str ≡ b.str)
  unfolding over_whitespace
  over_whitespace-View b t v =
      let (p, e, q) = v in
      let moved : View (record b { buffer_pos = b.buffer_pos + spaces t }) (strip t) =
        rw (sym (drop-spaces t)) (View-moved b t (spaces t) v (spaces-length t)) in
      let to : io.whitespace_end b.str b.buffer_pos ≡ b.buffer_pos + spaces t =
        lawful.matches b.str b.buffer_pos p ∙ ap (λ u. b.buffer_pos + spaces u) e in
      (record b { buffer_pos = b.buffer_pos + spaces t }, rw to refl, moved, refl)
