-- ===== src/Base/Outcome.antt =====
-- Computations that may raise and change nothing.
use mathlib.Core.Path.{◌≡◌, refl}
use mathlib.Core.Option.{Option, none, some}
use rethinkdb_python.Base.Exec.{Outcome, ok, raised, blocked}

module _ {E A : Type 0} where
  -- A value that may be missing, with the exception for that.
  abbrev pub or_raise : E → Option A → Outcome E A
  or_raise e none = raised e
  or_raise e (some a) = ok a

  pub or_raise-eq-ok : (e : E) (o : Option A) {a : A} → or_raise e o ≡ ok a → o ≡ some a
  or_raise-eq-ok e none h = cc
  or_raise-eq-ok e (some a) h = cc

module _ {E A B : Type 0} where
  infixl 10 ◌>>=◌
  abbrev pub ◌>>=◌ : Outcome E A → (A → Outcome E B) → Outcome E B
  blocked >>= next = blocked
  raised e >>= next = raised e
  ok a >>= next = next a

  -- A result came from results of both parts.
  pub >>=-eq-ok :
      (first : Outcome E A) (next : A → Outcome E B) {b : B}
      → (first >>= next) ≡ ok b
      → (a : A) × (first ≡ ok a) × (next a ≡ ok b)
  >>=-eq-ok blocked next e = cc
  >>=-eq-ok (raised x) next e = cc
  >>=-eq-ok (ok a) next e = (a, refl, e)

-- What holds of a result, if there is one.
abbrev pub Holds : {E A : Type 0} → (A → Type 0) → Outcome E A → Type 0
Holds P (ok a) = P a
Holds P (raised e) = Unit
Holds P blocked = Unit

module _ {E A B : Type 0} (P : A → Type 0) (Q : B → Type 0) where
  pub >>=-Holds :
      (first : Outcome E A) (next : A → Outcome E B)
      → Holds P first
      → ((a : A) → P a → Holds Q (next a))
      → Holds Q (first >>= next)
  >>=-Holds (ok a) next p then_q = then_q a p
  >>=-Holds (raised e) next p then_q = tt
  >>=-Holds blocked next p then_q = tt
