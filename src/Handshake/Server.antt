-- ===== src/Handshake/Server.antt =====
-- handshake.py: what a login reads in the responses of the server.
use rethinkdb_python.Base.{
  ℕ, Bool, true, false, ◌&&◌, Option, none, some, List, [], ◌∷◌, leb, if◌then◌else◌,
}
use rethinkdb_python.Base.Struct.{Bytes}
use rethinkdb_python.Base.Text.{codes}
use rethinkdb_python.Base.Exec.{Outcome, ok, raised}
use rethinkdb_python.Base.Outcome.{◌>>=◌, or_raise}
use rethinkdb_python.Errors.{
  ErrorClass, Exn, reql, builtin, key_error, attribute_error, value_error, type_error, driver_error,
  auth_error, from_server, invalid_nonce,
}
use rethinkdb_python.Handshake.Number.{JsonValue, at_least, at_most, chained}
use rethinkdb_python.Handshake.State.{Reply, Crypto, Handshake, Challenge}
use rethinkdb_python.Handshake.Attributes.{attributes, attribute, starts_with}

-- The class of the error for a code of the server.
abbrev pub login_error : JsonValue → Outcome Exn ErrorClass
login_error code = do
  is_auth ← chained (at_least 10 code) (at_most 20 code)
  ok (if is_auth then auth_error else driver_error)

abbrev pub check_success : Bool → Reply → Outcome Exn Reply
check_success true r = ok r
check_success false r = do
  code ← or_raise (builtin key_error) r.error_code
  c ← login_error code
  text ← or_raise (builtin key_error) r.error
  raised (reql c (from_server text))

abbrev pub is_ascii : Bytes → Bool
is_ascii [] = true
is_ascii (b ∷ text) = leb b 127 && is_ascii text

abbrev pub ascii : Bytes → Outcome Exn Bytes
ascii text = if is_ascii text then ok text else raised (builtin value_error)

module _ (crypto : Crypto) where
  -- `_decode_json_response`
  unfoldable pub decode_json_response : Option Bytes → Outcome Exn Reply
  decode_json_response none = raised (builtin type_error)
  decode_json_response (some response) = do
    json ← or_raise (builtin value_error) (crypto.decode response)
    r ← or_raise (builtin attribute_error) json
    check_success r.success r

  -- `_get_authentication_and_first_client_message`
  unfoldable pub get_authentication : Reply → Outcome Exn (Bytes × List (Bytes × Bytes))
  get_authentication r = do
    value ← or_raise (builtin key_error) r.authentication
    text ← or_raise (builtin attribute_error) value
    first ← ascii text
    authentication ← or_raise (builtin value_error) (attributes first)
    ok (first, authentication)

  abbrev pub item : Bytes → List (Bytes × Bytes) → Outcome Exn Bytes
  item k d = or_raise (builtin key_error) (attribute k d)

  abbrev pub base64 : Bytes → Outcome Exn Bytes
  base64 text = or_raise (builtin value_error) (crypto.b64decode text)

  -- Whether the server supports the version.
  unfoldable pub is_supported : ℕ → Option Bytes → Outcome Exn Bool
  is_supported version response = do
    r ← decode_json_response response
    low ← or_raise (builtin key_error) r.min_protocol_version
    high ← or_raise (builtin key_error) r.max_protocol_version
    chained (at_most version low) (at_least version high)

  unfoldable pub check_nonce : Option Bytes → Bytes → Outcome Exn (Unit {0})
  check_nonce none nonce = raised (builtin type_error)
  check_nonce (some own) nonce =
      if starts_with own nonce then ok tt else raised (reql auth_error invalid_nonce)

  -- The password, salted as the attributes of the server's message ask.
  unfoldable pub salt_password : Bytes → List (Bytes × Bytes) → Outcome Exn Bytes
  salt_password password authentication = do
    encoded ← item (codes "s") authentication
    salt ← base64 encoded
    digits ← item (codes "i") authentication
    rounds ← or_raise (builtin value_error) (crypto.to_int digits)
    or_raise (builtin value_error) (crypto.pbkdf2 password salt rounds)

  -- `_prepare_auth_request`, down to the salted password.
  unfoldable pub read_challenge : Handshake → Option Bytes → Outcome Exn Challenge
  read_challenge h response = do
    r ← decode_json_response response
    auth ← get_authentication r
    nonce ← item (codes "r") auth.1
    checked ← check_nonce h.random_nonce nonce
    salted ← salt_password h.password auth.1
    ok (record { text = auth.0; nonce = nonce; salted_password = salted })

  unfoldable pub read_signature : Option Bytes → Outcome Exn Bytes
  read_signature response = do
    r ← decode_json_response response
    auth ← get_authentication r
    encoded ← item (codes "v") auth.1
    base64 encoded
