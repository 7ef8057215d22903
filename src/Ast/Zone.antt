-- ===== src/Ast/Zone.antt =====
-- ast.py, `RqlTzinfo`: the time zone of a date that the server sends, a text such as `+05:30`.
-- `int` is a parameter. An offset is counted in minutes.
mod Tests
use rethinkdb_python.Base.{
  ℕ, subst, zero, suc, ◌+◌, ◌-◌, ◌*◌, ◌≤◌, ◌≡◌, refl, sym, ap, ◌∙◌, ◌↔◌, ◌⊎◌, inl, inr, Bool, true,
  false, Option, none, some, List, [], ◌∷◌, ◌++◌, ltb, if◌then◌else◌, Bool-cases, arith,
}
use rethinkdb_python.Base.Split.{split, lacks, cons_first, split-one_part, split-append}
use rethinkdb_python.Base.Struct.{Bytes}
use rethinkdb_python.Base.Text.{codes}
use rethinkdb_python.Base.Integer.{ℤ, pos, negsuc}
use rethinkdb_python.Base.Exec.{Outcome, ok, raised, blocked}
use rethinkdb_python.Base.Outcome.{◌>>=◌, or_raise}
use rethinkdb_python.Errors.{Exn, builtin, value_error}
use rethinkdb_python.Handshake.Attributes.{}

-- `m - n`
abbrev pub minus : ℕ → ℕ → ℤ
minus m zero = pos m
minus zero (suc n) = negsuc n
minus (suc m) (suc n) = minus m n

-- `timedelta(hours=hours, minutes=minutes)`
abbrev pub delta : ℤ → ℤ → ℤ
delta (pos h) (pos m) = pos (60 * h + m)
delta (pos h) (negsuc m) = minus (60 * h) (suc m)
delta (negsuc h) (pos m) = minus m (60 * suc h)
delta (negsuc h) (negsuc m) = minus 0 (60 * suc h + suc m)

module _ (to_int : Bytes → Option ℤ) where
  abbrev pub int : Bytes → Outcome Exn ℤ
  int t = or_raise (builtin value_error) (to_int t)

  -- `hours, minutes = map(int, parts)`
  unfoldable pub read_parts : List Bytes → Outcome Exn ℤ
  read_parts (hours ∷ minutes ∷ []) = do h ← int hours; m ← int minutes; ok (delta h m)
  read_parts _ = raised (builtin value_error)

  -- `RqlTzinfo(offsetstr).utcoffset(dt)`
  unfoldable pub utcoffset : Bytes → Outcome Exn ℤ
  utcoffset offsetstr = read_parts (split b':' offsetstr)

-- The number of minutes that a text with the sign, the hours and the minutes means.
abbrev pub meant : Bool → ℕ → ℕ → ℤ
meant false h m = pos (60 * h + m)
meant true h m = minus 0 (60 * h + m)

-- What `int` reads in the hours.
abbrev pub signed : Bool → ℕ → ℤ
signed false h = pos h
signed true h = minus 0 h

-- The number is the first less the second.
abbrev Represents : ℤ → ℕ → ℕ → Type 0
Represents (pos k) m n = m ≡ n + k
Represents (negsuc k) m n = n ≡ m + suc k

minus-Represents : (m n : ℕ) → Represents (minus m n) m n
minus-Represents m zero = omega arith
minus-Represents zero (suc n) = omega arith
minus-Represents (suc m) (suc n) = Represents-suc (minus m n) (minus-Represents m n)
  where
    Represents-suc : (z : ℤ) → Represents z m n → Represents z (suc m) (suc n)
    Represents-suc (pos k) e = omega arith
    Represents-suc (negsuc k) e = omega arith

Represents-same : (z : ℤ) (a b c d : ℕ) → Represents z a b → Represents z c d → a + d ≡ c + b
Represents-same (pos k) a b c d e f = omega arith
Represents-same (negsuc k) a b c d e f = omega arith

minus-eq : (a b c d : ℕ) → minus a b ≡ minus c d → a + d ≡ c + b
minus-eq a b c d e =
    Represents-same (minus c d) a b c d (subst (λ z. Represents z a b) e (minus-Represents a b))
      (minus-Represents c d)

delta_iff :
    (sign : Bool) (h m : ℕ)
    → (delta (signed sign h) (pos m) ≡ meant sign h m) ↔ ((sign ≡ false) ⊎ (m ≡ 0))
delta_iff false h m = (λ e. inl refl, λ e. refl)
delta_iff true zero m = (
  λ e. inr (omega (arith, minus-eq (0 + m) 0 0 (0 + m) e)),
  λ c. elim c [ inl n ↦ cc | inr z ↦ rw z refl ],
)
delta_iff true (suc h) m =
    let count : 60 * suc h ≡ 60 * suc h + 0 = omega arith in
    (
      λ e. inr (omega (arith, minus-eq m (60 * suc h) 0 (60 * suc h + m) e)),
      λ c. elim c [ inl n ↦ cc | inr z ↦ rw z (ap (minus 0) count) ],
    )

utcoffset_lem :
    (to_int : Bytes → Option ℤ) (hours minutes : Bytes) (h m : ℤ)
    → lacks b':' hours ≡ true
    → lacks b':' minutes ≡ true
    → to_int hours ≡ some h
    → to_int minutes ≡ some m
    → utcoffset to_int (hours ++ b':' ∷ minutes) ≡ ok (delta h m)
unfolding utcoffset read_parts
utcoffset_lem to_int hours minutes h m p q e f =
    ap (read_parts to_int) (split-append b':' hours minutes p)
    ∙ rw (split-one_part b':' minutes q, e, f) refl

ok-injective : (a b : ℤ) → ◌≡◌ {A = Outcome Exn ℤ} (ok a) (ok b) → a ≡ b
ok-injective a b e = cc

-- The offset that the driver reads in a text of a sign, hours and minutes is the one that the text means
-- exactly where the sign is a plus or there are no minutes. The condition is that the two parts have no
-- colon, and that `int` reads the sign with the hours.
pub utcoffset_iff :
    (to_int : Bytes → Option ℤ) (sign : Bool) (hours minutes : Bytes) (h m : ℕ)
    → lacks b':' hours ≡ true
    → lacks b':' minutes ≡ true
    → to_int hours ≡ some (signed sign h)
    → to_int minutes ≡ some (pos m)
    → (utcoffset to_int (hours ++ b':' ∷ minutes) ≡ ok (meant sign h m))
      ↔ ((sign ≡ false) ⊎ (m ≡ 0))
utcoffset_iff to_int sign hours minutes h m p q e f =
    let read = utcoffset_lem to_int hours minutes (signed sign h) (pos m) p q e f in
    let same = delta_iff sign h m in
    (λ r. same.0 (ok-injective _ _ (sym read ∙ r)), λ c. read ∙ ap ok (same.1 c))
