-- ===== src/Base/After.antt =====
-- What holds of an action when it returns; nothing is said of one that raises or waits for ever.
use mathlib.Core.Path.{◌≡◌, refl}
use mathlib.Core.Bool.{Bool, true, false}
use rethinkdb_python.Base.Tests.{if◌then◌else◌}
use rethinkdb_python.Base.Exec.{Outcome, ok, raised, blocked, Exec, feed, ◌>>=◌}

abbrev pub After : {E A S : Type 0} → (A → S → Type 0) → Outcome E A × S → Type 0
After P (ok a, s) = P a s
After P (raised e, s) = Unit
After P (blocked, s) = Unit

module _ {E A S : Type 0} where
  pub After-self : (x : Outcome E A × S) → After (λ a s. x ≡ (ok a, s)) x
  After-self (ok a, s) = refl
  After-self (raised e, s) = tt
  After-self (blocked, s) = tt

  pub After-weaken :
      (P Q : A → S → Type 0) (x : Outcome E A × S)
      → ((a : A) (s : S) → P a s → Q a s)
      → After P x
      → After Q x
  After-weaken P Q (ok a, s) f p = f a s p
  After-weaken P Q (raised e, s) f p = tt
  After-weaken P Q (blocked, s) f p = tt

  pub After-both :
      (P Q : A → S → Type 0) (x : Outcome E A × S)
      → After P x
      → After Q x
      → After (λ a s. P a s × Q a s) x
  After-both P Q (ok a, s) p q = (p, q)
  After-both P Q (raised e, s) p q = tt
  After-both P Q (blocked, s) p q = tt

  pub After-if :
      (P : A → S → Type 0) (b : Bool) (x y : Outcome E A × S)
      → After P x
      → After P y
      → After P (if b then x else y)
  After-if P true x y p q = p
  After-if P false x y p q = q

module _ {E A B S : Type 0} (P : A → S → Type 0) (Q : B → S → Type 0) where
  feed-After :
      (x : Outcome E A × S) (f : A → Exec E S B)
      → After P x
      → ((a : A) (t : S) → P a t → After Q (f a t))
      → After Q (feed x.0 f x.1)
  feed-After (ok a, t) f p q = q a t p
  feed-After (raised e, t) f p q = tt
  feed-After (blocked, t) f p q = tt

  -- The rule for `m >>= f`.
  pub >>=-After :
      (m : Exec E S A) (f : A → Exec E S B) (s : S)
      → After P (m s)
      → ((a : A) (t : S) → P a t → After Q (f a t))
      → After Q ((m >>= f) s)
  >>=-After m f s p q = feed-After (m s) f p q

module _ {E A B S : Type 0} where
  -- Two ways to go on that agree where the first action returns.
  pub feed_cong :
      (x : Outcome E A × S) (f g : A → Exec E S B)
      → After (λ a t. f a t ≡ g a t) x
      → feed x.0 f x.1 ≡ feed x.0 g x.1
  feed_cong (ok a, t) f g p = p
  feed_cong (raised e, t) f g p = refl
  feed_cong (blocked, t) f g p = refl

pub After-any : {E A S : Type 0} (x : Outcome E A × S) → After (λ a s. Unit {0}) x
After-any (ok a, s) = tt
After-any (raised e, s) = tt
After-any (blocked, s) = tt
