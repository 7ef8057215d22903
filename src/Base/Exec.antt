-- ===== src/Base/Exec.antt =====
-- Methods that change an object and may raise. What was written before a raise stays written, so
-- the state comes back beside the exception too. `blocked` is a call that never returns, since the
-- peer sends nothing more.
use mathlib.Core.Bool.{Bool, true, false}

pub data Outcome {ℓ κ} (E : Type κ) (A : Type ℓ) : Type (ℓ ⊔ κ) where
  ok : A → Outcome E A
  raised : E → Outcome E A
  blocked : Outcome E A

abbrev pub Exec {ℓ} : Type ℓ → Type ℓ → Type ℓ → Type ℓ
Exec E S A = S → Outcome E A × S

module _ {ℓ} {E S A : Type ℓ} where
  abbrev pub pure : A → Exec E S A
  pure a s = (ok a, s)

  abbrev pub raise : E → Exec E S A
  raise e s = (raised e, s)

  abbrev pub block : Exec E S A
  block s = (blocked, s)

  abbrev pub gets : (S → A) → Exec E S A
  gets f s = (ok (f s), s)

module _ {ℓ} {E S A B : Type ℓ} where
  abbrev pub feed : Outcome E A → (A → Exec E S B) → Exec E S B
  feed (ok a) f s = f a s
  feed (raised e) f s = (raised e, s)
  feed blocked f s = (blocked, s)

  infixl 10 ◌>>=◌ ◌>>◌
  abbrev pub ◌>>=◌ : Exec E S A → (A → Exec E S B) → Exec E S B
  ◌>>=◌ m f s = feed (m s).0 f (m s).1

  abbrev pub ◌>>◌ : Exec E S A → Exec E S B → Exec E S B
  m >> n = m >>= λ _. n

module _ {E S : Type 0} where
  abbrev pub modify : (S → S) → Exec E S (Unit {0})
  modify f s = (ok tt, f s)

  abbrev pub skip : Exec E S (Unit {0})
  skip s = (ok tt, s)

  abbrev pub when : Bool → Exec E S (Unit {0}) → Exec E S (Unit {0})
  when true m = m
  when false m = skip

  abbrev pub unless : Bool → Exec E S (Unit {0}) → Exec E S (Unit {0})
  unless true m = skip
  unless false m = m

module _ {E S A : Type 0} where
  -- `try: m finally: f`
  abbrev pub finally : Exec E S A → Exec E S (Unit {0}) → Exec E S A
  finally m f s = after (m s)
    where
      then_f : Outcome E A → Outcome E (Unit {0}) × S → Outcome E A × S
      then_f o (ok _, t) = (o, t)
      then_f o (raised e, t) = (raised e, t)
      then_f o (blocked, t) = (blocked, t)

      after : Outcome E A × S → Outcome E A × S
      after (blocked, t) = (blocked, t)
      after (ok a, t) = then_f (ok a) (f t)
      after (raised e, t) = then_f (raised e) (f t)
