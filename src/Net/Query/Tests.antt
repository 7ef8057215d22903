-- ===== src/Net/Query/Tests.antt =====
-- Runs of `serialize` and of the header's format on small queries.
use rethinkdb_python.Base.{ℕ, ◌≡◌, refl, some, List, [], ◌∷◌, take, drop, length, arith}
use rethinkdb_python.Base.Struct.{Bytes, to_le}
use rethinkdb_python.Base.Integer.{pos}
use rethinkdb_python.Base.Exec.{ok}
use rethinkdb_python.Net.Query.{
  Query, Part, start, new_query, message, pack_header, unpack_header, serialize,
}
use rethinkdb_python.Net.Query.Header.{serialize_frame}

-- A codec whose texts have one byte for each part of the message.
abbrev part_bytes : List (Part ℕ) → Bytes
part_bytes [] = []
part_bytes (p ∷ ps) = 65 ∷ part_bytes ps

abbrev query : Query ℕ
query = new_query start 258 (some 7) (some (("json_encoder", 1) ∷ ("db", 2) ∷ []))

packed : pack_header 258 3 ≡ ok (2 ∷ 1 ∷ 0 ∷ 0 ∷ 0 ∷ 0 ∷ 0 ∷ 0 ∷ 3 ∷ 0 ∷ 0 ∷ 0 ∷ [])
unfolding pack_header to_le
packed = refl

abbrev query_bytes : Bytes
query_bytes = 2 ∷ 1 ∷ 0 ∷ 0 ∷ 0 ∷ 0 ∷ 0 ∷ 0 ∷ 3 ∷ 0 ∷ 0 ∷ 0 ∷ 65 ∷ 65 ∷ 65 ∷ []

query_serialized : serialize part_bytes query ≡ ok query_bytes
unfolding serialize pack_header to_le
query_serialized = refl

serialize_frame_example :
    (unpack_header (take 12 query_bytes) ≡ ok (pos 258, length (part_bytes (message query))))
    × (drop 12 query_bytes ≡ part_bytes (message query))
serialize_frame_example =
    serialize_frame part_bytes query query_bytes (omega arith) query_serialized
