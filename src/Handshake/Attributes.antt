-- ===== src/Handshake/Attributes.antt =====
-- handshake.py: the texts `a=b,c=d` of the login, and the user's name in them.
use rethinkdb_python.Base.{
  ℕ, Bool, true, false, ◌&&◌, Option, none, some, List, [], ◌∷◌, ◌++◌, ◌==◌, ==_iff, Bool-cases,
  inl, inr, ◌≡◌, refl, if◌then◌else◌,
}
use mathlib.Core.Path.{ap₂}
use rethinkdb_python.Base.Split.{split}
use rethinkdb_python.Base.Struct.{Bytes}
use rethinkdb_python.Base.Text.{codes}

abbrev pub cons_key : ℕ → Option (Bytes × Bytes) → Option (Bytes × Bytes)
cons_key b none = none
cons_key b (some (k, v)) = some (b ∷ k, v)

-- `text.split(c, 1)`, if it has two parts.
unfoldable pub split_once : ℕ → Bytes → Option (Bytes × Bytes)
split_once c [] = none
split_once c (b ∷ text) =
    let rest = split_once c text in if b == c then some ([], text) else cons_key b rest

abbrev pub and_then :
    Option (Bytes × Bytes) → Option (List (Bytes × Bytes)) → Option (List (Bytes × Bytes))
and_then (some p) (some ps) = some (p ∷ ps)
and_then _ _ = none

-- The pairs that `dict` is given; none where a part has no `=`.
unfoldable pub pairs : List Bytes → Option (List (Bytes × Bytes))
pairs [] = some []
pairs (w ∷ ws) = and_then (split_once b'=' w) (pairs ws)

unfoldable pub attributes : Bytes → Option (List (Bytes × Bytes))
attributes text = pairs (split b',' text)

abbrev pub same_bytes : Bytes → Bytes → Bool
same_bytes [] [] = true
same_bytes (a ∷ xs) (b ∷ ys) = a == b && same_bytes xs ys
same_bytes _ _ = false

abbrev pub or_else : Option Bytes → Option Bytes → Option Bytes
or_else (some v) o = some v
or_else none o = o

-- `dict(pairs)[k]`: the last of the pairs with that key counts.
unfoldable pub attribute : Bytes → List (Bytes × Bytes) → Option Bytes
attribute k [] = none
attribute k ((j, v) ∷ d) = or_else (attribute k d) (if same_bytes j k then some v else none)

unfoldable pub starts_with : Bytes → Bytes → Bool
starts_with [] text = true
starts_with (a ∷ p) [] = false
starts_with (a ∷ p) (b ∷ text) = a == b && starts_with p text

-- `text.replace(c, by)`
unfoldable pub replace : ℕ → Bytes → Bytes → Bytes
replace c by [] = []
replace c by (b ∷ text) = (if b == c then by else b ∷ []) ++ replace c by text

-- The user's name, as the constructor writes it.
unfoldable pub escape : Bytes → Bytes
escape name = replace b',' (codes "=2C") (replace b'=' (codes "=3D") name)

-- `chain_to_bytes("n=", self._username, ",r=", self._random_nonce)`
unfoldable pub first_message : Bytes → Bytes → Bytes
first_message name nonce = codes "n=" ++ (name ++ (codes ",r=" ++ nonce))

pub same_bytes_refl : (a : Bytes) → same_bytes a a ≡ true
same_bytes_refl [] = refl
same_bytes_refl (x ∷ a) = rw ((==_iff x x).1 refl, same_bytes_refl a) refl

pub same_bytes-eq-true : (a b : Bytes) → same_bytes a b ≡ true → a ≡ b
same_bytes-eq-true [] [] e = refl
same_bytes-eq-true [] (y ∷ b) e = cc
same_bytes-eq-true (x ∷ a) [] e = cc
same_bytes-eq-true (x ∷ a) (y ∷ b) e = elim (Bool-cases (x == y)) [
  | inl f ↦ ap₂ ◌∷◌ ((==_iff x y).0 f) (same_bytes-eq-true a b (rw f at e))
  | inr f ↦ cc (rw f at e)
]
