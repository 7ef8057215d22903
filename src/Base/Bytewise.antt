-- ===== src/Base/Bytewise.antt =====
-- Big-endian numbers, and `^` of two of them, byte by byte.
use Prim.Native.Nat.{ℕ, zero, suc, ◌+◌, ◌*◌, ◌/◌, ◌%◌, ◌<◌, bit_xor, differ, bit_xor-bitwise}
use mathlib.Core.Path.{◌≡◌, refl, sym, ap, ap₂, ◌∙◌}
use mathlib.Core.List.{[], ◌∷◌, ◌++◌, append-nil, append_assoc}
use native.Mathlib.Omega.{arith}
use rethinkdb_python.Base.Lists.{length, All}
use rethinkdb_python.Base.Struct.{Bytes}
use rethinkdb_python.Base.Bits.{bit_xor_step}

-- `int(hexlify(value), 16)`, after a number `n` that has been read.
unfoldable pub from_be : ℕ → Bytes → ℕ
from_be n [] = n
from_be n (b ∷ value) = from_be (n * 256 + b) value

-- `unhexlify("%0…x" % n)`, for w bytes.
unfoldable pub to_be : ℕ → ℕ → Bytes
to_be zero n = []
to_be (suc w) n = to_be w (n / 256) ++ ((n % 256) ∷ [])

abbrev pub xor_all : Bytes → Bytes → Bytes
xor_all (a ∷ xs) (b ∷ ys) = bit_xor a b ∷ xor_all xs ys
xor_all _ _ = []

abbrev pub IsByte : ℕ → Type 0
IsByte b = b < 256

xor_half : (a b : ℕ) → bit_xor a b ≡ bit_xor (a / 2) (b / 2) * 2 + differ (a % 2) (b % 2)
xor_half zero b = omega (arith, bit_xor-bitwise 0 b, bit_xor-bitwise 0 (b / 2))
xor_half (suc a) b = bit_xor_step a b

differ_bit : (x y : ℕ) → x < 2 → y < 2 → (differ x y ≡ bit_xor x y) × (differ x y < 2)
differ_bit zero y p q = (omega (arith, bit_xor-bitwise 0 y), omega arith)
differ_bit (suc zero) zero p q = (refl, omega arith)
differ_bit (suc zero) (suc zero) p q = (refl, omega arith)
differ_bit (suc zero) (suc (suc y)) p q = absurd (omega arith)
differ_bit (suc (suc x)) y p q = absurd (omega arith)

xor_2 : (a b : ℕ) → bit_xor a b ≡ bit_xor (a / 2) (b / 2) * 2 + bit_xor (a % 2) (b % 2)
xor_2 a b = omega (arith, xor_half a b, differ_bit (a % 2) (b % 2) (omega arith) (omega arith))

xor_4 : (a b : ℕ) → bit_xor a b ≡ bit_xor (a / 4) (b / 4) * 4 + bit_xor (a % 4) (b % 4)
xor_4 a b =
    let high : bit_xor (a / 2 / 2) (b / 2 / 2) ≡ bit_xor (a / 4) (b / 4) =
      ap₂ bit_xor (omega arith) (omega arith) in
    let middle : bit_xor (a % 4 / 2) (b % 4 / 2) ≡ bit_xor (a / 2 % 2) (b / 2 % 2) =
      ap₂ bit_xor (omega arith) (omega arith) in
    let low : bit_xor (a % 4 % 2) (b % 4 % 2) ≡ bit_xor (a % 2) (b % 2) =
      ap₂ bit_xor (omega arith) (omega arith) in
    omega (arith, xor_2 a b, xor_2 (a / 2) (b / 2), xor_2 (a % 4) (b % 4))

xor_16 : (a b : ℕ) → bit_xor a b ≡ bit_xor (a / 16) (b / 16) * 16 + bit_xor (a % 16) (b % 16)
xor_16 a b =
    let high : bit_xor (a / 4 / 4) (b / 4 / 4) ≡ bit_xor (a / 16) (b / 16) =
      ap₂ bit_xor (omega arith) (omega arith) in
    let middle : bit_xor (a % 16 / 4) (b % 16 / 4) ≡ bit_xor (a / 4 % 4) (b / 4 % 4) =
      ap₂ bit_xor (omega arith) (omega arith) in
    let low : bit_xor (a % 16 % 4) (b % 16 % 4) ≡ bit_xor (a % 4) (b % 4) =
      ap₂ bit_xor (omega arith) (omega arith) in
    omega (arith, xor_4 a b, xor_4 (a / 4) (b / 4), xor_4 (a % 16) (b % 16))

xor_256 : (a b : ℕ) → bit_xor a b ≡ bit_xor (a / 256) (b / 256) * 256 + bit_xor (a % 256) (b % 256)
xor_256 a b =
    let high : bit_xor (a / 16 / 16) (b / 16 / 16) ≡ bit_xor (a / 256) (b / 256) =
      ap₂ bit_xor (omega arith) (omega arith) in
    let middle : bit_xor (a % 256 / 16) (b % 256 / 16) ≡ bit_xor (a / 16 % 16) (b / 16 % 16) =
      ap₂ bit_xor (omega arith) (omega arith) in
    let low : bit_xor (a % 256 % 16) (b % 256 % 16) ≡ bit_xor (a % 16) (b % 16) =
      ap₂ bit_xor (omega arith) (omega arith) in
    omega (arith, xor_16 a b, xor_16 (a / 16) (b / 16), xor_16 (a % 256) (b % 256))

xor_below_2 : (x y : ℕ) → x < 2 → y < 2 → bit_xor x y < 2
xor_below_2 x y p q = omega (arith, differ_bit x y p q)

xor_below_4 : (x y : ℕ) → x < 4 → y < 4 → bit_xor x y < 4
xor_below_4 x y p q = omega (
  arith,
  xor_2 x y,
  xor_below_2 (x / 2) (y / 2) (omega arith) (omega arith),
  xor_below_2 (x % 2) (y % 2) (omega arith) (omega arith),
)

xor_below_16 : (x y : ℕ) → x < 16 → y < 16 → bit_xor x y < 16
xor_below_16 x y p q = omega (
  arith,
  xor_4 x y,
  xor_below_4 (x / 4) (y / 4) (omega arith) (omega arith),
  xor_below_4 (x % 4) (y % 4) (omega arith) (omega arith),
)

pub bit_xor-IsByte : (x y : ℕ) → IsByte x → IsByte y → IsByte (bit_xor x y)
bit_xor-IsByte x y p q = omega (
  arith,
  xor_16 x y,
  xor_below_16 (x / 16) (y / 16) (omega arith) (omega arith),
  xor_below_16 (x % 16) (y % 16) (omega arith) (omega arith),
)

xor_byte :
    (a b x y : ℕ)
    → IsByte x
    → IsByte y
    → bit_xor (a * 256 + x) (b * 256 + y) ≡ bit_xor a b * 256 + bit_xor x y
xor_byte a b x y p q =
    let high : bit_xor ((a * 256 + x) / 256) ((b * 256 + y) / 256) ≡ bit_xor a b =
      ap₂ bit_xor (omega arith) (omega arith) in
    let low : bit_xor ((a * 256 + x) % 256) ((b * 256 + y) % 256) ≡ bit_xor x y =
      ap₂ bit_xor (omega arith) (omega arith) in
    omega (arith, xor_256 (a * 256 + x) (b * 256 + y))

pub bit_xor-from_be :
    (a b : ℕ) (xs ys : Bytes)
    → length xs ≡ length ys
    → All IsByte xs
    → All IsByte ys
    → bit_xor (from_be a xs) (from_be b ys) ≡ from_be (bit_xor a b) (xor_all xs ys)
unfolding from_be
bit_xor-from_be a b [] [] e p q = refl
bit_xor-from_be a b [] (y ∷ ys) e p q = absurd (omega arith)
bit_xor-from_be a b (x ∷ xs) [] e p q = absurd (omega arith)
bit_xor-from_be a b (x ∷ xs) (y ∷ ys) e (p, ps) (q, qs) =
    bit_xor-from_be (a * 256 + x) (b * 256 + y) xs ys (omega arith) ps qs
    ∙ ap (λ n. from_be n (xor_all xs ys)) (xor_byte a b x y p q)

to_be_after :
    (w n : ℕ) (xs : Bytes) → All IsByte xs → to_be (length xs + w) (from_be n xs) ≡ to_be w n ++ xs
unfolding from_be to_be
to_be_after w n [] p =
    let count : 0 + w ≡ w = omega arith in ap (λ k. to_be k n) count ∙ sym (append-nil (to_be w n))
to_be_after w n (x ∷ xs) (p, ps) =
    let rest : to_be w ((n * 256 + x) / 256) ++ (((n * 256 + x) % 256) ∷ []) ≡ to_be w n ++ x ∷ [] =
      ap₂ (λ m b. to_be w m ++ b ∷ []) (omega arith) (omega arith) in
    let count : length (x ∷ xs) + w ≡ length xs + suc w = omega arith in
    ap (λ k. to_be k (from_be (n * 256 + x) xs)) count
    ∙ to_be_after (suc w) (n * 256 + x) xs ps
    ∙ ap (◌++ xs) rest
    ∙ append_assoc (to_be w n) (x ∷ []) xs

-- The bytes of a number that was read from bytes.
pub to_be-from_be : (xs : Bytes) → All IsByte xs → to_be (length xs) (from_be 0 xs) ≡ xs
unfolding to_be
to_be-from_be xs p =
    let count : length xs ≡ length xs + 0 = omega arith in
    ap (λ k. to_be k (from_be 0 xs)) count ∙ to_be_after 0 0 xs p
