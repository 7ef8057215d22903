-- ===== src/Handshake/Digest.antt =====
-- handshake.py, `compare_digest`, which serves where `hmac` has none.
use Prim.Native.Nat.{bit_or, bit_xor}
use rethinkdb_python.Base.{
  ℕ, ◌≡◌, refl, ◌↔◌, Bool, true, [], ◌∷◌, length, ◌==◌, ==_iff, ==_refl, Bool-cases, inl, inr,
  if◌then◌else◌, arith,
}
use mathlib.Core.Path.{ap₂}
use rethinkdb_python.Base.Bits.{bit_or-eq-zero, bit_xor-eq-zero, bit_xor_self}
use rethinkdb_python.Base.Struct.{Bytes}

-- `for l, r in zip(left, right): result |= l ^ r`
or_differences : ℕ → Bytes → Bytes → ℕ
or_differences result [] right = result
or_differences result (l ∷ left) [] = result
or_differences result (l ∷ left) (r ∷ right) =
    or_differences (bit_or result (bit_xor l r)) left right

unfoldable pub compare_digest : Bytes → Bytes → Bool
unfolding or_differences
compare_digest a b =
    let same = length a == length b in
    or_differences (if same then 0 else 1) (if same then a else b) b == 0

-- A bit that is set stays set.
or_differences-eq-zero : (n : ℕ) (a b : Bytes) → or_differences n a b ≡ 0 → n ≡ 0
unfolding or_differences
or_differences-eq-zero n [] b e = e
or_differences-eq-zero n (x ∷ a) [] e = e
or_differences-eq-zero n (x ∷ a) (y ∷ b) e =
    (bit_or-eq-zero n (bit_xor x y) (or_differences-eq-zero (bit_or n (bit_xor x y)) a b e)).0

or_differences_eq : (n : ℕ) (a b : Bytes) → length a ≡ length b → or_differences n a b ≡ 0 → a ≡ b
unfolding or_differences
or_differences_eq n [] [] h e = refl
or_differences_eq n [] (y ∷ b) h e = absurd (omega arith)
or_differences_eq n (x ∷ a) [] h e = absurd (omega arith)
or_differences_eq n (x ∷ a) (y ∷ b) h e =
    let none_set = or_differences-eq-zero (bit_or n (bit_xor x y)) a b e in
    let here = bit_xor-eq-zero x y (bit_or-eq-zero n (bit_xor x y) none_set).1 in
    ap₂ ◌∷◌ here (or_differences_eq (bit_or n (bit_xor x y)) a b (omega arith) e)

or_differences_self : (a : Bytes) → or_differences 0 a a ≡ 0
unfolding or_differences
or_differences_self [] = refl
or_differences_self (x ∷ a) = rw bit_xor_self (or_differences_self a)

-- The comparison, which reads all the bytes whatever they are, holds exactly where the two texts are
-- the same.
pub compare_digest_iff : (a b : Bytes) → (compare_digest a b ≡ true) ↔ (a ≡ b)
unfolding compare_digest
compare_digest_iff a b = (sound, complete)
  where
    sound : compare_digest a b ≡ true → a ≡ b
    sound e = elim (Bool-cases (length a == length b)) [
      | inl s ↦ or_differences_eq 0 a b ((==_iff _ _).0 s) ((==_iff _ _).0 (rw s at e))
      | inr s ↦ absurd (omega (arith, or_differences-eq-zero 1 b b ((==_iff _ _).0 (rw s at e))))
    ]

    complete : a ≡ b → compare_digest a b ≡ true
    complete e = rw (e, ==_refl (length b), or_differences_self b) refl
