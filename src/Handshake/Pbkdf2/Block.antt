-- ===== src/Handshake/Pbkdf2/Block.antt =====
-- handshake.py: `pbkdf2_hmac` against the definition of PBKDF2 in RFC 8018.
use rethinkdb_python.Base.{
  ℕ, zero, suc, ◌+◌, ◌≡◌, refl, sym, ap, subst, ◌∙◌, true, Bool-cases, inl, inr, Option, none, some,
  [], ◌∷◌, ◌++◌, length, All, arith,
}
use Prim.Native.Nat.{bit_xor}
use rethinkdb_python.Base.Struct.{Bytes}
use rethinkdb_python.Base.Integer.{ℤ, pos, negsuc, is_int-eq-true}
use rethinkdb_python.Base.Bytewise.{
  from_be, to_be, xor_all, IsByte, bit_xor-IsByte, bit_xor-from_be, to_be-from_be,
}
use rethinkdb_python.Handshake.Attributes.{same_bytes, same_bytes-eq-true}
use rethinkdb_python.Handshake.Pbkdf2.{
  Key, same_key, Cache, set, get, rounds, xor_loop, derive, derive_and_keep, pbkdf2_hmac,
}

-- A digest of SHA-256.
pub record IsDigest (a : Bytes) : Type 0 where
  pub size : length a ≡ 32
  pub bytes : All IsByte a

xor_all-IsByte : (xs ys : Bytes) → All IsByte xs → All IsByte ys → All IsByte (xor_all xs ys)
xor_all-IsByte [] ys p q = tt
xor_all-IsByte (x ∷ xs) [] p q = tt
xor_all-IsByte (x ∷ xs) (y ∷ ys) (p, ps) (q, qs) =
    (bit_xor-IsByte x y p q, xor_all-IsByte xs ys ps qs)

length-xor_all : (xs ys : Bytes) → length xs ≡ length ys → length (xor_all xs ys) ≡ length xs
length-xor_all [] ys e = refl
length-xor_all (x ∷ xs) [] e = absurd (omega arith)
length-xor_all (x ∷ xs) (y ∷ ys) e = ap suc (length-xor_all xs ys (omega arith))

xor_all-IsDigest : (a b : Bytes) → IsDigest a → IsDigest b → IsDigest (xor_all a b)
xor_all-IsDigest a b p q = record {
  size = omega (arith, length-xor_all a b (omega (arith, p.size, q.size)), p.size);
  bytes = xor_all-IsByte a b p.bytes q.bytes;
}

from_be-xor_all :
    (a b : Bytes)
    → IsDigest a
    → IsDigest b
    → bit_xor (from_be 0 a) (from_be 0 b) ≡ from_be 0 (xor_all a b)
from_be-xor_all a b p q = bit_xor-from_be 0 0 a b (omega (arith, p.size, q.size)) p.bytes q.bytes

to_be-IsDigest : (a : Bytes) → IsDigest a → to_be 32 (from_be 0 a) ≡ a
to_be-IsDigest a p = ap (λ n. to_be n (from_be 0 a)) (sym p.size) ∙ to_be-from_be a p.bytes

module _ (hmac : Bytes → Bytes → Bytes) where
  -- The `n+1`-st hash of the chain in RFC 8018.
  unfoldable pub chain : Key → ℕ → Bytes
  chain k zero = hmac k.password (k.salt ++ 0 ∷ 0 ∷ 0 ∷ 1 ∷ [])
  chain k (suc n) = hmac k.password (chain k n)

  -- The first block: the exclusive or of the first `n+1` hashes, byte by byte.
  unfoldable pub block : Key → ℕ → Bytes
  block k zero = chain k 0
  block k (suc n) = xor_all (block k n) (chain k (suc n))

  -- The block for as many hashes as the number of iterations says, where it is positive.
  abbrev pub IsBlock : ℤ → Key → Bytes → Type 0
  IsBlock (pos (suc n)) k v = v ≡ block k n
  IsBlock _ k v = Unit

  -- Every entry is what the key asks for.
  abbrev pub IsSound : Cache → Type 0
  IsSound cache = All (λ e. IsBlock e.0.iterations e.0 e.1) cache

  same_key-eq-true : (j k : Key) → same_key j k ≡ true → j ≡ k
  same_key-eq-true j k e = elim (Bool-cases (same_bytes j.password k.password)) [
    | inr f ↦ cc (rw f at e)
    | inl f ↦ elim (Bool-cases (same_bytes j.salt k.salt)) [
      | inr g ↦ cc (rw (f, g) at e)
      | inl g ↦
          let p : j.password ≡ k.password = same_bytes-eq-true _ _ f in
          let q : j.salt ≡ k.salt = same_bytes-eq-true _ _ g in
          let r : j.iterations ≡ k.iterations = is_int-eq-true _ _ (rw (f, g) at e) in
          λ i. record { password = p i; salt = q i; iterations = r i }
    ]
  ]

  get-IsSound :
      (k : Key) (cache : Cache) (v : Bytes)
      → IsSound cache
      → get k cache ≡ some v
      → IsBlock k.iterations k v
  unfolding get
  get-IsSound k [] v s e = cc
  get-IsSound k ((j, u) ∷ cache) v (s, ss) e = elim (Bool-cases (same_key j k)) [
    | inl f ↦
        let same : j ≡ k = same_key-eq-true j k f in
        let given : u ≡ v = cc (rw f at e) in
        subst (IsBlock k.iterations k) given (subst (λ l. IsBlock l.iterations l u) same s)
    | inr f ↦ get-IsSound k cache v ss (rw f at e)
  ]

  module _ (digests : (k m : Bytes) → IsDigest (hmac k m)) where
    chain-IsDigest : (k : Key) (n : ℕ) → IsDigest (chain k n)
    unfolding chain
    chain-IsDigest k zero = digests k.password _
    chain-IsDigest k (suc n) = digests k.password _

    block-IsDigest : (k : Key) (n : ℕ) → IsDigest (block k n)
    unfolding block
    block-IsDigest k zero = chain-IsDigest k 0
    block-IsDigest k (suc n) = xor_all-IsDigest _ _ (block-IsDigest k n) (chain-IsDigest k (suc n))

    xor_loop-block :
        (k : Key) (n i : ℕ)
        → xor_loop hmac k.password n (chain k i) (from_be 0 (block k i))
          ≡ from_be 0 (block k (i + n))
    unfolding xor_loop block chain
    xor_loop-block k zero i =
        let count : i ≡ i + 0 = omega arith in ap (λ m. from_be 0 (block k m)) count
    xor_loop-block k (suc n) i =
        let count : suc i + n ≡ i + suc n = omega arith in
        ap (xor_loop hmac k.password n (chain k (suc i))) (
          from_be-xor_all (block k i) (chain k (suc i)) (block-IsDigest k i)
            (chain-IsDigest k (suc i)))
        ∙ xor_loop-block k n (suc i)
        ∙ ap (λ m. from_be 0 (block k m)) count

    derive-block : (k : Key) → derive hmac k ≡ block k (rounds k.iterations)
    unfolding derive chain block
    derive-block k =
        let count : 0 + rounds k.iterations ≡ rounds k.iterations = omega arith in
        ap (to_be 32) (xor_loop-block k (rounds k.iterations) 0)
        ∙ ap (λ n. to_be 32 (from_be 0 (block k n))) count
        ∙ to_be-IsDigest _ (block-IsDigest k (rounds k.iterations))

    derive-IsBlock : (k : Key) (i : ℤ) → k.iterations ≡ i → IsBlock i k (derive hmac k)
    derive-IsBlock k (pos zero) e = tt
    derive-IsBlock k (pos (suc n)) e = derive-block k ∙ ap (λ i. block k (rounds i)) e
    derive-IsBlock k (negsuc n) e = tt

    derive_and_keep-IsSound :
        (k : Key) (o : Option Bytes) (cache : Cache)
        → IsSound cache
        → get k cache ≡ o
        → IsBlock k.iterations k (derive_and_keep hmac k o cache).0
          × IsSound (derive_and_keep hmac k o cache).1
    unfolding derive_and_keep set
    derive_and_keep-IsSound k none cache s e =
        let block_given = derive-IsBlock k k.iterations refl in (block_given, (block_given, s))
    derive_and_keep-IsSound k (some v) cache s e = (get-IsSound k cache v s e, s)

    -- For a number of iterations that is not below 1, `pbkdf2_hmac` returns the first block of PBKDF2, which
    -- is the exclusive or of as many hashes as there are iterations, byte by byte, though it works on big
    -- numbers, and however the cache has been used for other keys; and every entry of the cache with
    -- such a number of iterations is right afterwards too. The conditions are that these entries are right
    -- before, and that `hmac` gives 32 bytes, each below 256.
    pub pbkdf2_hmac-block :
        (k : Key) (cache : Cache) (n : ℕ)
        → k.iterations ≡ pos (suc n)
        → IsSound cache
        → ((pbkdf2_hmac hmac k cache).0 ≡ block k n) × IsSound (pbkdf2_hmac hmac k cache).1
    unfolding pbkdf2_hmac
    pbkdf2_hmac-block k cache n e s =
        let (given, sound) = derive_and_keep-IsSound k (get k cache) cache s refl in
        (subst (λ i. IsBlock i k (pbkdf2_hmac hmac k cache).0) e given, sound)
