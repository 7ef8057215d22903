-- ===== src/Handshake/Sample.antt =====
-- Toy functions in place of the hash functions, for the tests of a login.
use rethinkdb_python.Base.{ℕ, zero, suc, true, none, some, [], ◌∷◌}
use rethinkdb_python.Base.Struct.{Bytes}
use rethinkdb_python.Base.Integer.{pos}
use rethinkdb_python.Handshake.Number.{whole}
use rethinkdb_python.Handshake.State.{Reply, Crypto}

abbrev pub sevens : ℕ → Bytes
sevens zero = []
sevens (suc n) = 7 ∷ sevens n

abbrev pub digest : Bytes
digest = sevens 32

abbrev pub reply : Bytes → Reply
reply text = record {
  success = true;
  error_code = none;
  error = none;
  min_protocol_version = some (whole (pos 0));
  max_protocol_version = some (whole (pos 0));
  authentication = some (some text);
}

abbrev pub toy : Crypto
toy = record {
  hmac = λ k m. digest;
  sha256 = λ m. digest;
  pbkdf2 = λ password salt rounds. some password;
  digest_test = none;
  b64encode = λ b. b;
  b64decode = λ b. some b;
  to_int = λ b. some (pos 1);
  is_utf8 = λ b. true;
  decode = λ b. some (some (reply b));
  encode_login = λ version b. b;
  encode_proof = λ b. [];
  version = 0;
}
