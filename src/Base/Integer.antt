-- ===== src/Base/Integer.antt =====
-- Signed integers over the native numbers, for counters that the source may take below zero.
use Prim.Native.Nat.{ℕ, zero, suc, ◌+◌}
use mathlib.Core.Bool.{Bool, true, false}
use mathlib.Core.Path.{◌≡◌, ap}
use rethinkdb_python.Base.Tests.{◌==◌, ==_iff}

-- `negsuc n` is -(n + 1).
pub data ℤ : Type 0 where
  pos : ℕ → ℤ
  negsuc : ℕ → ℤ

abbrev pub incr : ℤ → ℤ
incr (pos n) = pos (n + 1)
incr (negsuc zero) = pos 0
incr (negsuc (suc n)) = negsuc n

abbrev pub decr : ℤ → ℤ
decr (pos zero) = negsuc 0
decr (pos (suc n)) = pos n
decr (negsuc n) = negsuc (n + 1)

abbrev pub is_zero : ℤ → Bool
is_zero (pos zero) = true
is_zero (pos (suc n)) = false
is_zero (negsuc n) = false

abbrev pub is_int : ℤ → ℤ → Bool
is_int (pos m) (pos n) = m == n
is_int (negsuc m) (negsuc n) = m == n
is_int _ _ = false

pub is_int-eq-true : (a b : ℤ) → is_int a b ≡ true → a ≡ b
is_int-eq-true (pos m) (pos n) e = ap pos ((==_iff m n).0 e)
is_int-eq-true (pos m) (negsuc n) e = cc
is_int-eq-true (negsuc m) (pos n) e = cc
is_int-eq-true (negsuc m) (negsuc n) e = ap negsuc ((==_iff m n).0 e)

-- `z + n`
abbrev pub add : ℕ → ℤ → ℤ
add zero z = z
add (suc n) z = incr (add n z)
