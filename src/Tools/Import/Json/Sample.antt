-- ===== src/Tools/Import/Json/Sample.antt =====
-- Rows that are one character each, between braces, and a file that is a text.
use rethinkdb_python.Base.{
  ℕ, ◌+◌, ◌≡◌, refl, ap, ◌∙◌, Option, none, some, [], ◌∷◌, ◌++◌, length, take, drop, ◌==◌,
  if◌then◌else◌, arith,
}
use rethinkdb_python.Tools.Import.{Text}
use rethinkdb_python.Tools.Import.Json.{Io}
use rethinkdb_python.Tools.Import.Json.View.{spaces, Lawful}

abbrev pub toy_dumps : ℕ → Text
toy_dumps n = 123 ∷ n ∷ 125 ∷ []

abbrev pub parse : ℕ → Text → Option (ℕ × ℕ)
parse p [] = none
parse p (c ∷ []) = none
parse p (c ∷ n ∷ []) = none
parse p (c ∷ n ∷ d ∷ rest) = if c == 123 then some (n, p + 3) else none

abbrev pub toy : Io Text ℕ
toy = record {
  read = λ n s. (take n s, drop n s);
  raw_decode = λ t p. parse p (drop p t);
  whitespace_end = λ t p. p + spaces (drop p t);
}

parse-short :
    (p : ℕ) (r : ℕ) (t : Text) (c : ℕ) (u : Text) → toy_dumps r ≡ t ++ c ∷ u → parse p t ≡ none
parse-short p r [] c u e = refl
parse-short p r (x ∷ []) c u e = refl
parse-short p r (x ∷ y ∷ []) c u e = refl
parse-short p r (x ∷ y ∷ w ∷ []) c u e = absurd (omega (arith, ap length e))
parse-short p r (x ∷ y ∷ w ∷ v ∷ t) c u e = absurd (omega (arith, ap length e))

parse-bracket : (p : ℕ) (rest : Text) → parse p (93 ∷ rest) ≡ none
parse-bracket p [] = refl
parse-bracket p (x ∷ []) = refl
parse-bracket p (x ∷ y ∷ rest) = refl

pub toy-Lawful : Lawful toy toy_dumps (λ s. s)
toy-Lawful = record {
  reads = λ n s. refl;
  reads_on = λ n s. refl;
  matches = λ t p small. refl;
  decodes = λ t p r rest small e. rw e refl;
  too_short = λ t p r c u small e. parse-short p r (drop p t) c u e;
  no_value = λ t p rest small e. ap (parse p) e ∙ parse-bracket p rest;
  braces = λ r. (r, 125 ∷ [], refl);
}
