-- ===== src/Handshake.antt =====
-- handshake.py: the SCRAM-SHA-256 login, as a state machine that is given the server's responses.
-- The hash functions, base64, JSON and `int` are parameters; texts are the bytes that are sent.
pub mod Digest
pub mod Attributes
pub mod Number
pub mod State
pub mod Server
pub mod Invariant
pub mod Defined
pub mod Advance
pub mod Proof
pub mod Pbkdf2
pub mod Refused
pub mod Exchange
pub mod Completed
pub mod Names
pub mod Ascii
pub mod Sample
mod Tests
use rethinkdb_python.Base.{
  ℕ, zero, suc, ◌+◌, Bool, true, false, ◌&&◌, Option, none, some, List, [], ◌∷◌, ◌++◌, leb, ◌==◌,
  length, if◌then◌else◌,
}
use rethinkdb_python.Base.Struct.{Bytes, to_le}
use rethinkdb_python.Base.Bytewise.{xor_all}
use rethinkdb_python.Base.Text.{codes}
use rethinkdb_python.Base.Exec.{Outcome, ok, raised, blocked, Exec}
use rethinkdb_python.Base.Outcome.{◌>>=◌}
use rethinkdb_python.Errors.{
  Exn, reql, builtin, value_error, type_error, struct_error, driver_error, auth_error,
  unexpected_handshake_response, unsupported_protocol_version, invalid_server_signature,
  unexpected_handshake_state,
}
use rethinkdb_python.Handshake.Digest.{compare_digest}
use rethinkdb_python.Handshake.Attributes.{first_message}
use rethinkdb_python.Handshake.State.{Crypto, Handshake, Challenge, next_state}
use rethinkdb_python.Handshake.Server.{ascii, is_supported, read_challenge, read_signature}

-- An answer to a message: a request, or none, with the handshake after it.
abbrev pub Request : Type 0
Request = Option Bytes

-- `b",".join((first, second, third))`
abbrev pub join_three : Bytes → Bytes → Bytes → Bytes
join_three a b c = a ++ (codes "," ++ (b ++ (codes "," ++ c)))

abbrev pub without_proof : Bytes → Bytes
without_proof nonce = codes "c=biws,r=" ++ nonce

-- `unpack("32B", …)` of both, `zip`, and `pack("32B", …)`.
abbrev pub xor_digests : Bytes → Bytes → Outcome Exn Bytes
xor_digests a b =
    if length a == 32 && (length b == 32) then ok (xor_all a b) else raised (builtin struct_error)

module _ (crypto : Crypto) where
  -- `.decode("ascii")` of the text, and the message with it.
  unfoldable pub send_login : Outcome Exn Bytes → Exec Exn Handshake Request
  send_login (ok text) h =
      let json = crypto.encode_login h.protocol_version text in
      (ok (some (to_le 4 crypto.version ++ (json ++ 0 ∷ []))), next_state h)
  send_login (raised e) h = (raised e, h)
  send_login blocked h = (blocked, h)

  -- `_init_connection`, for 18 random bytes.
  unfoldable pub init_connection : Bytes → Option Bytes → Exec Exn Handshake Request
  init_connection entropy (some response) h =
      (raised (reql driver_error unexpected_handshake_response), h)
  init_connection entropy none h =
      let nonce = crypto.b64encode entropy in
      let first = first_message h.username nonce in
      send_login (ascii (codes "n,," ++ first))
        (record h { random_nonce = some nonce; first_client_message = some first })

  abbrev pub check_range : Outcome Exn Bool → Exec Exn Handshake Request
  check_range (ok true) h = (ok (some []), next_state h)
  check_range (ok false) h = (raised (reql driver_error unsupported_protocol_version), h)
  check_range (raised e) h = (raised e, h)
  check_range blocked h = (blocked, h)

  -- `_read_response`
  unfoldable pub read_response : Option Bytes → Exec Exn Handshake Request
  read_response response h = check_range (is_supported crypto h.protocol_version response) h

  abbrev pub auth_message : Bytes → Challenge → Bytes
  auth_message first c = join_three first c.text (without_proof c.nonce)

  -- `_server_signature`
  abbrev pub signature : Bytes → Challenge → Bytes
  signature first c =
      crypto.hmac (crypto.hmac c.salted_password (codes "Server Key")) (auth_message first c)

  unfoldable pub client_proof : Bytes → Challenge → Outcome Exn Bytes
  client_proof first c =
      let client_key = crypto.hmac c.salted_password (codes "Client Key") in
      xor_digests client_key (crypto.hmac (crypto.sha256 client_key) (auth_message first c))

  abbrev pub send_proof : Bytes → Outcome Exn Bytes → Exec Exn Handshake Request
  send_proof nonce (ok proof) h =
      let text = without_proof nonce ++ (codes ",p=" ++ crypto.b64encode proof) in
      (ok (some (crypto.encode_proof text ++ 0 ∷ [])), next_state h)
  send_proof nonce (raised e) h = (raised e, h)
  send_proof nonce blocked h = (blocked, h)

  unfoldable pub sign : Challenge → Option Bytes → Exec Exn Handshake Request
  sign c none h = (raised (builtin type_error), h)
  sign c (some first) h =
      send_proof c.nonce (client_proof first c)
        (record h { server_signature = some (signature first c) })

  abbrev pub answer : Outcome Exn Challenge → Exec Exn Handshake Request
  answer (ok c) h = sign c h.first_client_message h
  answer (raised e) h = (raised e, h)
  answer blocked h = (blocked, h)

  -- `_prepare_auth_request`
  unfoldable pub prepare_auth_request : Option Bytes → Exec Exn Handshake Request
  prepare_auth_request response h = answer (read_challenge crypto h response) h

  abbrev pub choose : Option (Bytes → Bytes → Bool) → Bytes → Bytes → Bool
  choose none = compare_digest
  choose (some test) = test

  -- `_compare_digest`
  unfoldable pub same_digest : Bytes → Bytes → Bool
  same_digest = choose crypto.digest_test

  unfoldable pub check_signature : Option Bytes → Bytes → Outcome Exn (Unit {0})
  check_signature none given = raised (builtin type_error)
  check_signature (some own) given =
      if same_digest given own then ok tt else raised (reql auth_error invalid_server_signature)

  abbrev pub finish : Outcome Exn (Unit {0}) → Exec Exn Handshake Request
  finish (ok _) h = (ok none, next_state h)
  finish (raised e) h = (raised e, h)
  finish blocked h = (blocked, h)

  -- `_read_auth_response`
  unfoldable pub read_auth_response : Option Bytes → Exec Exn Handshake Request
  read_auth_response response h =
      finish (read_signature crypto response >>= check_signature h.server_signature) h

  -- The branches of `next_message`, for `self._state`.
  unfoldable pub in_state : ℕ → Bytes → Option Bytes → Exec Exn Handshake Request
  in_state zero entropy response h = init_connection entropy response h
  in_state (suc zero) entropy response h = read_response response h
  in_state (suc (suc zero)) entropy response h = prepare_auth_request response h
  in_state (suc (suc (suc zero))) entropy response h = read_auth_response response h
  in_state (suc (suc (suc (suc n)))) entropy response h =
      (raised (reql driver_error unexpected_handshake_state), h)

  abbrev pub is_text : Option Bytes → Bool
  is_text none = true
  is_text (some response) = crypto.is_utf8 response

  -- `next_message`
  unfoldable pub next_message : Bytes → Option Bytes → Exec Exn Handshake Request
  next_message entropy response h =
      if is_text response
      then in_state h.state entropy response h
      else (raised (builtin value_error), h)
