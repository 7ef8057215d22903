-- ===== src/Base/Struct.antt =====
-- What the driver uses of the standard library's `struct`: little-endian integers of w bytes.
use Prim.Native.Nat.{ℕ, zero, suc, ◌+◌, ◌*◌, ◌/◌, ◌%◌, ◌^◌, ◌<◌}
use mathlib.Core.Path.{◌≡◌, refl}
use mathlib.Core.List.{List, [], ◌∷◌}
use native.Mathlib.Omega.{arith}
use native.Mathlib.Nat.{pow-suc}
use rethinkdb_python.Base.Lists.{length}

abbrev pub Bytes : Type 0
Bytes = List ℕ

-- The w low bytes of x, the lowest first.
unfoldable pub to_le : ℕ → ℕ → Bytes
to_le zero x = []
to_le (suc w) x = (x % 256) ∷ to_le w (x / 256)

unfoldable pub from_le : Bytes → ℕ
from_le [] = 0
from_le (b ∷ bs) = b + 256 * from_le bs

pub length-to_le : (w x : ℕ) → length (to_le w x) ≡ w
unfolding to_le
length-to_le zero x = refl
length-to_le (suc w) x = omega (arith, length-to_le w (x / 256))

pub from_le-to_le : (w x : ℕ) → x < 256 ^ w → from_le (to_le w x) ≡ x
unfolding to_le from_le
from_le-to_le zero x h = omega arith
from_le-to_le (suc w) x h =
    let h' : x < 256 ^ w * 256 = rw pow-suc at h in
    omega (arith, from_le-to_le w (x / 256) (omega arith))
