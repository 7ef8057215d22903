-- ===== src/Net/Query/Header.antt =====
-- The twelve bytes that frame a query and a response.
use rethinkdb_python.Base.{
  ℕ, ◌^◌, ◌<◌, ◌≤◌, ◌≡◌, refl, true, List, ◌++◌, arith, length, length-append, take, drop,
  take-append_length, drop-append_length, ltb, ◌↔◌, ◌⊎◌,
}
use rethinkdb_python.Base.Struct.{Bytes, to_le, length-to_le, from_le-to_le}
use rethinkdb_python.Base.Integer.{pos}
use rethinkdb_python.Base.Exec.{Outcome, ok, raised, blocked}
use rethinkdb_python.Errors.{Exn, builtin, struct_error}
use rethinkdb_python.Net.Query.{Part, Query, message, prefix, pack_header, unpack_header, serialize}

pack_header_ok :
    (token size : ℕ) (header : Bytes)
    → pack_header token size ≡ ok header
    → (token < 2 ^ 64) × (size < 2 ^ 32) × (header ≡ to_le 8 token ++ to_le 4 size)
unfolding pack_header
pack_header_ok token size header e = ground arith

unpack_fields :
    (token size : ℕ)
    → token < 2 ^ 63
    → size < 2 ^ 32
    → unpack_header (to_le 8 token ++ to_le 4 size) ≡ ok (pos token, size)
unfolding unpack_header
unpack_fields token size small fits =
    let whole : length (to_le 8 token ++ to_le 4 size) ≡ 12 = omega (
      arith,
      length-append (to_le 8 token) (to_le 4 size),
      length-to_le 8 token,
      length-to_le 4 size,
    ) in
    let low : ltb token 9223372036854775808 ≡ true = ground arith in
    simp (
      whole,
      take-append_length 8 (to_le 8 token) (to_le 4 size) (length-to_le 8 token),
      drop-append_length 8 (to_le 8 token) (to_le 4 size) (length-to_le 8 token),
      from_le-to_le 8 token (omega arith),
      from_le-to_le 4 size (omega arith),
      low,
    )

-- What `pack` wrote for a token below 2^63, `unpack` reads back, from twelve bytes. (`pack` takes
-- tokens up to 2^64, and `unpack` reads those from 2^63 on as negative numbers.)
pub unpack-pack :
    (token size : ℕ) (header : Bytes)
    → token < 2 ^ 63
    → pack_header token size ≡ ok header
    → (unpack_header header ≡ ok (pos token, size)) × (length header ≡ 12)
unpack-pack token size header small e =
    let (_, fits, shape) = pack_header_ok token size header e in
    rw shape (
      unpack_fields token size small fits,
      omega (
        arith,
        length-append (to_le 8 token) (to_le 4 size),
        length-to_le 8 token,
        length-to_le 4 size,
      ),
    )

prefix_ok :
    (o : Outcome Exn Bytes) (body bytes : Bytes)
    → prefix o body ≡ ok bytes
    → (header : Bytes) × (o ≡ ok header) × (bytes ≡ header ++ body)
prefix_ok (ok header) body bytes e = (header, refl, cc)
prefix_ok (raised x) body bytes e = cc
prefix_ok blocked body bytes e = cc

-- A serialized query is a header of twelve bytes and the encoded message, and `unpack` reads the
-- query's token and the length of the message from the header, for a token below 2^63.
pub serialize_frame :
    {V : Type 0} (encode : List (Part V) → Bytes) (q : Query V) (bytes : Bytes)
    → q.token < 2 ^ 63
    → serialize encode q ≡ ok bytes
    → (unpack_header (take 12 bytes) ≡ ok (pos q.token, length (encode (message q))))
      × (drop 12 bytes ≡ encode (message q))
unfolding serialize
serialize_frame encode q bytes small e =
    let body = encode (message q) in
    let (header, packed, shape) = prefix_ok (pack_header q.token (length body)) body bytes e in
    let (back, size) = unpack-pack q.token (length body) header small packed in
    rw shape
      (rw (take-append_length 12 header body size) back, drop-append_length 12 header body size)

-- `pack` raises exactly when the token or the length does not fit its field.
pub pack_header_raises :
    (token size : ℕ)
    → (pack_header token size ≡ raised (builtin struct_error))
      ↔ ((2 ^ 64 ≤ token) ⊎ (2 ^ 32 ≤ size))
unfolding pack_header
pack_header_raises token size = ground arith
