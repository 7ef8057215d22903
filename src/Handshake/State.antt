-- ===== src/Handshake/State.antt =====
-- handshake.py: the objects of a login, and what it takes from outside.
use rethinkdb_python.Base.{ℕ, ◌+◌, String, Bool, Option, none}
use rethinkdb_python.Base.Struct.{Bytes}
use rethinkdb_python.Base.Integer.{ℤ}
use rethinkdb_python.Handshake.Attributes.{escape}
use rethinkdb_python.Handshake.Number.{JsonValue}

-- The keys of a response that the login reads, none where one is missing. `success` is whether `get` of
-- it is true, `error` the text of its value, and `authentication` has no text where its value is none.
pub record Reply : Type 0 where
  pub success : Bool
  pub error_code : Option JsonValue
  pub error : Option String
  pub min_protocol_version : Option JsonValue
  pub max_protocol_version : Option JsonValue
  pub authentication : Option (Option Bytes)

-- What is not of this program. `digest_test` is `hmac.compare_digest`, where there is one, and
-- `pbkdf2` of SHA-256 fails on a number of rounds below 1. `decode` fails on what is not JSON, and gives
-- no reply for JSON that is not an object.
pub record Crypto : Type 0 where
  pub hmac : Bytes → Bytes → Bytes
  pub sha256 : Bytes → Bytes
  pub pbkdf2 : Bytes → Bytes → ℤ → Option Bytes
  pub digest_test : Option (Bytes → Bytes → Bool)
  pub b64encode : Bytes → Bytes
  pub b64decode : Bytes → Option Bytes
  pub to_int : Bytes → Option ℤ
  pub is_utf8 : Bytes → Bool
  pub decode : Bytes → Option (Option Reply)
  pub encode_login : ℕ → Bytes → Bytes
  pub encode_proof : Bytes → Bytes
  pub version : ℕ

pub record Handshake : Type 0 where
  pub username : Bytes
  pub password : Bytes
  pub protocol_version : ℕ
  pub random_nonce : Option Bytes
  pub first_client_message : Option Bytes
  pub server_signature : Option Bytes
  pub state : ℕ

-- `__init__`, for the bytes of the name and the password.
unfoldable pub new_handshake : Bytes → Bytes → Handshake
new_handshake name password = record {
  username = escape name;
  password = password;
  protocol_version = 0;
  random_nonce = none;
  first_client_message = none;
  server_signature = none;
  state = 0;
}

unfoldable pub reset : Handshake → Handshake
reset h = record h {
  random_nonce = none;
  first_client_message = none;
  server_signature = none;
  state = 0;
}

-- `_next_state`
abbrev pub next_state : Handshake → Handshake
next_state h = record h { state = h.state + 1 }

-- What a server said in its message of the second state, and the salted password.
pub record Challenge : Type 0 where
  pub text : Bytes
  pub nonce : Bytes
  pub salted_password : Bytes
