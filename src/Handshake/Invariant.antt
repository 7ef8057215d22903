-- ===== src/Handshake/Invariant.antt =====
-- handshake.py: what holds of a login between two messages.
use rethinkdb_python.Base.{
  ℕ, zero, suc, ◌≤◌, ◌<◌, ◌≡◌, refl, Bool, true, false, Bool-cases, inl, inr, Option, none, some,
  is_some, arith,
}
use rethinkdb_python.Base.Struct.{Bytes}
use rethinkdb_python.Base.Exec.{Outcome, ok, raised, blocked}
use rethinkdb_python.Errors.{Exn}
use rethinkdb_python.Handshake.State.{Crypto, Handshake, Challenge}
use rethinkdb_python.Handshake.Server.{read_challenge}
use rethinkdb_python.Handshake.{
  send_login, init_connection, check_range, read_response, send_proof, client_proof, signature,
  sign, answer, prepare_auth_request, finish, read_auth_response, in_state, next_message,
}

-- A field is set from the state on in which it is read, and the state is at most 4.
pub record IsReady (h : Handshake) : Type 0 where
  pub bounded : h.state ≤ 4
  pub nonce_set : 0 < h.state → is_some h.random_nonce ≡ true
  pub message_set : 0 < h.state → is_some h.first_client_message ≡ true
  pub signature_set : 2 < h.state → is_some h.server_signature ≡ true

module _ (crypto : Crypto) where
  send_login-IsReady :
      (o : Outcome Exn Bytes) (h : Handshake)
      → h.state ≡ 0
      → is_some h.random_nonce ≡ true
      → is_some h.first_client_message ≡ true
      → IsReady (send_login crypto o h).1
  unfolding send_login
  send_login-IsReady (ok text) h z n m = record {
    bounded = omega arith;
    nonce_set = λ p. n;
    message_set = λ p. m;
    signature_set = λ p. absurd (omega arith);
  }
  send_login-IsReady (raised e) h z n m = record {
    bounded = omega arith;
    nonce_set = λ p. n;
    message_set = λ p. m;
    signature_set = λ p. absurd (omega arith);
  }
  send_login-IsReady blocked h z n m = record {
    bounded = omega arith;
    nonce_set = λ p. n;
    message_set = λ p. m;
    signature_set = λ p. absurd (omega arith);
  }

  check_range-IsReady :
      (o : Outcome Exn Bool) (h : Handshake)
      → h.state ≡ 1
      → IsReady h
      → IsReady (check_range crypto o h).1
  check_range-IsReady (ok true) h s r = ground arith
  check_range-IsReady (ok false) h s r = r
  check_range-IsReady (raised e) h s r = r
  check_range-IsReady blocked h s r = r

  send_proof-IsReady :
      (nonce : Bytes) (o : Outcome Exn Bytes) (h : Handshake)
      → h.state ≡ 2
      → is_some h.server_signature ≡ true
      → IsReady h
      → IsReady (send_proof crypto nonce o h).1
  send_proof-IsReady nonce o h s g r = ground arith

  finish-IsReady :
      (o : Outcome Exn (Unit {0})) (h : Handshake)
      → h.state ≡ 3
      → IsReady h
      → IsReady (finish crypto o h).1
  finish-IsReady o h s r = ground arith

  sign-IsReady :
      (c : Challenge) (o : Option Bytes) (h : Handshake)
      → h.state ≡ 2
      → IsReady h
      → IsReady (sign crypto c o h).1
  unfolding sign
  sign-IsReady c none h s r = r
  sign-IsReady c (some first) h s r =
      send_proof-IsReady c.nonce (client_proof crypto first c)
        (record h { server_signature = some (signature crypto first c) }) s refl
        (record {
          bounded = r.bounded;
          nonce_set = r.nonce_set;
          message_set = r.message_set;
          signature_set = λ p. refl;
        })

  answer-IsReady :
      (o : Outcome Exn Challenge) (h : Handshake)
      → h.state ≡ 2
      → IsReady h
      → IsReady (answer crypto o h).1
  answer-IsReady (ok c) h s r = sign-IsReady c h.first_client_message h s r
  answer-IsReady (raised e) h s r = r
  answer-IsReady blocked h s r = r

  in_state-IsReady :
      (n : ℕ) (entropy : Bytes) (response : Option Bytes) (h : Handshake)
      → h.state ≡ n
      → IsReady h
      → IsReady (in_state crypto n entropy response h).1
  unfolding in_state init_connection read_response prepare_auth_request read_auth_response
  in_state-IsReady zero entropy (some response) h s r = r
  in_state-IsReady zero entropy none h s r = send_login-IsReady _ _ s refl refl
  in_state-IsReady (suc zero) entropy response h s r = check_range-IsReady _ h s r
  in_state-IsReady (suc (suc zero)) entropy response h s r =
      answer-IsReady (read_challenge crypto h response) h s r
  in_state-IsReady (suc (suc (suc zero))) entropy response h s r = finish-IsReady _ h s r
  in_state-IsReady (suc (suc (suc (suc n)))) entropy response h s r = r

  -- Every message, whatever the response and whether or not it raises, keeps the fields of a login set
  -- from the state on in which they are read, and the state at most 4.
  pub next_message-IsReady :
      (entropy : Bytes) (response : Option Bytes) (h : Handshake)
      → IsReady h
      → IsReady (next_message crypto entropy response h).1
  unfolding next_message
  next_message-IsReady entropy none h r = in_state-IsReady h.state entropy none h refl r
  next_message-IsReady entropy (some b) h r = elim (Bool-cases (crypto.is_utf8 b)) [
    | inl e ↦ rw e (in_state-IsReady h.state entropy (some b) h refl r)
    | inr e ↦ rw e r
  ]
