-- ===== src/Handshake/Pbkdf2.antt =====
-- handshake.py, `pbkdf2_hmac` of SHA-256, which serves where `hashlib` has none, and its cache.
-- There is one thread, so `LocalThreadCache` is one dict.
pub mod Block
use Prim.Native.Nat.{bit_xor}
use rethinkdb_python.Base.{
  ℕ, zero, suc, Bool, true, false, ◌&&◌, Option, none, some, List, [], ◌∷◌, ◌++◌, if◌then◌else◌,
}
use rethinkdb_python.Base.Struct.{Bytes}
use rethinkdb_python.Base.Bytewise.{from_be, to_be}
use rethinkdb_python.Base.Integer.{ℤ, pos, negsuc, is_int}
use rethinkdb_python.Handshake.Attributes.{same_bytes}

-- `(password, salt, iterations)`
pub record Key : Type 0 where
  pub password : Bytes
  pub salt : Bytes
  pub iterations : ℤ

abbrev pub same_key : Key → Key → Bool
same_key j k =
    same_bytes j.password k.password
    && (same_bytes j.salt k.salt && is_int j.iterations k.iterations)

abbrev pub Cache : Type 0
Cache = List (Key × Bytes)

-- `set`
unfoldable pub set : Key → Bytes → Cache → Cache
set key val cache = (key, val) ∷ cache

-- `get`
unfoldable pub get : Key → Cache → Option Bytes
get key [] = none
get key ((j, val) ∷ cache) = if same_key j key then some val else get key cache

-- `xrange(iterations - 1)`
abbrev pub rounds : ℤ → ℕ
rounds (pos zero) = 0
rounds (pos (suc n)) = n
rounds (negsuc n) = 0

module _ (hmac : Bytes → Bytes → Bytes) where
  -- The loop, with `t` and `u`, for `n` more rounds.
  unfoldable pub xor_loop : Bytes → ℕ → Bytes → ℕ → ℕ
  xor_loop password zero t u = u
  xor_loop password (suc n) t u =
      let t' = hmac password t in xor_loop password n t' (bit_xor u (from_be 0 t'))

  -- Below the test of the cache.
  unfoldable pub derive : Key → Bytes
  derive k =
      let t = hmac k.password (k.salt ++ 0 ∷ 0 ∷ 0 ∷ 1 ∷ []) in
      to_be 32 (xor_loop k.password (rounds k.iterations) t (from_be 0 t))

  unfoldable pub derive_and_keep : Key → Option Bytes → Cache → Bytes × Cache
  derive_and_keep k (some cached) cache = (cached, cache)
  derive_and_keep k none cache = let u = derive k in (u, set k u cache)

  -- `pbkdf2_hmac`
  unfoldable pub pbkdf2_hmac : Key → Cache → Bytes × Cache
  pbkdf2_hmac k cache = derive_and_keep k (get k cache) cache
