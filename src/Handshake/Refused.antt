-- ===== src/Handshake/Refused.antt =====
-- handshake.py: a login that the server refuses.
use rethinkdb_python.Base.{
  ℕ, zero, suc, ◌≤◌, ◌<◌, ◌≡◌, refl, Bool, true, false, some, String, arith,
}
use rethinkdb_python.Base.Struct.{Bytes}
use rethinkdb_python.Base.Exec.{ok, raised}
use rethinkdb_python.Errors.{ErrorClass, Exn, reql, from_server}
use rethinkdb_python.Handshake.Number.{JsonValue}
use rethinkdb_python.Handshake.State.{Reply, Crypto, Handshake}
use rethinkdb_python.Handshake.Server.{
  login_error, check_success, decode_json_response, is_supported, read_challenge, read_signature,
}
use rethinkdb_python.Handshake.{
  read_response, prepare_auth_request, read_auth_response, in_state, next_message,
}

check_success-refused :
    (s : Bool) (r : Reply) (code : JsonValue) (c : ErrorClass) (text : String)
    → s ≡ false
    → r.error_code ≡ some code
    → r.error ≡ some text
    → login_error code ≡ ok c
    → check_success s r ≡ raised (reql c (from_server text))
check_success-refused true r code c text s e t k = cc
check_success-refused false r code c text s e t k = rw (e, k, t) refl

module _ (crypto : Crypto) where
  in_state_refuses :
      (n : ℕ) (entropy b : Bytes) (h : Handshake) (e : Exn)
      → 0 < n
      → n ≤ 3
      → decode_json_response crypto (some b) ≡ raised e
      → in_state crypto n entropy (some b) h ≡ (raised e, h)
  unfolding in_state read_response prepare_auth_request read_auth_response is_supported
      read_challenge read_signature
  in_state_refuses zero entropy b h e p q d = absurd (omega arith)
  in_state_refuses (suc zero) entropy b h e p q d = rw d refl
  in_state_refuses (suc (suc zero)) entropy b h e p q d = rw d refl
  in_state_refuses (suc (suc (suc zero))) entropy b h e p q d = rw d refl
  in_state_refuses (suc (suc (suc (suc n)))) entropy b h e p q d = absurd (omega arith)

  -- When a response after the first message says that it has no success, the login raises the server's
  -- text, as a `ReqlAuthError` for a code from 10 to 20 and as a `ReqlDriverError` for any other number,
  -- and leaves the handshake as it was.
  pub next_message_refused :
      (entropy b : Bytes) (h : Handshake) (r : Reply) (code : JsonValue) (c : ErrorClass)
      (text : String)
      → 0 < h.state
      → h.state ≤ 3
      → crypto.is_utf8 b ≡ true
      → crypto.decode b ≡ some (some r)
      → r.success ≡ false
      → r.error_code ≡ some code
      → r.error ≡ some text
      → login_error code ≡ ok c
      → next_message crypto entropy (some b) h ≡ (raised (reql c (from_server text)), h)
  unfolding next_message decode_json_response
  next_message_refused entropy b h r code c text p q u d s e t k = rw u (
      in_state_refuses h.state entropy b h _ p q
        (rw d (check_success-refused r.success r code c text s e t k)))
