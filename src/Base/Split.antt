-- ===== src/Base/Split.antt =====
-- `split` of a text at a character.
use Prim.Native.Nat.{ℕ}
use mathlib.Core.Path.{◌≡◌, refl}
use mathlib.Core.Logic.{inl, inr}
use mathlib.Core.Bool.{Bool, true, false}
use mathlib.Core.List.{List, [], ◌∷◌, ◌++◌}
use rethinkdb_python.Base.Tests.{◌==◌, ==_refl, Bool-cases, if◌then◌else◌}
use rethinkdb_python.Base.Struct.{Bytes}

abbrev pub cons_first : ℕ → List Bytes → List Bytes
cons_first b [] = (b ∷ []) ∷ []
cons_first b (w ∷ ws) = (b ∷ w) ∷ ws

-- `text.split(c)`
unfoldable pub split : ℕ → Bytes → List Bytes
split c [] = [] ∷ []
split c (b ∷ text) = let rest = split c text in if b == c then [] ∷ rest else cons_first b rest

-- The character is not in the text.
unfoldable pub lacks : ℕ → Bytes → Bool
lacks c [] = true
lacks c (b ∷ text) = if b == c then false else lacks c text

pub split-one_part : (c : ℕ) (a : Bytes) → lacks c a ≡ true → split c a ≡ a ∷ []
unfolding split lacks
split-one_part c [] l = refl
split-one_part c (b ∷ a) l = elim (Bool-cases (b == c)) [
  | inl e ↦ cc (rw e at l)
  | inr e ↦ rw (e, split-one_part c a (rw e at l)) refl
]

pub split-append :
    (c : ℕ) (a text : Bytes) → lacks c a ≡ true → split c (a ++ c ∷ text) ≡ a ∷ split c text
unfolding split lacks
split-append c [] text l = rw (==_refl c) refl
split-append c (b ∷ a) text l = elim (Bool-cases (b == c)) [
  | inl e ↦ cc (rw e at l)
  | inr e ↦ rw (e, split-append c a text (rw e at l)) refl
]
