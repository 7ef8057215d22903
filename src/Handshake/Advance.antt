-- ===== src/Handshake/Advance.antt =====
-- handshake.py: how far a message takes the login.
use rethinkdb_python.Base.{
  ℕ, zero, suc, ◌+◌, ◌<◌, ◌≡◌, refl, Bool, true, false, Bool-cases, inl, inr, Option, none, some,
  arith,
}
use rethinkdb_python.Base.Struct.{Bytes}
use rethinkdb_python.Base.Exec.{Outcome, ok, raised, blocked}
use rethinkdb_python.Base.After.{After}
use rethinkdb_python.Errors.{Exn}
use rethinkdb_python.Handshake.State.{Crypto, Handshake, Challenge}
use rethinkdb_python.Handshake.Server.{is_supported, read_challenge}
use rethinkdb_python.Handshake.{
  Request, send_login, init_connection, check_range, read_response, send_proof, sign, answer,
  prepare_auth_request, finish, read_auth_response, in_state, next_message,
}

-- The states of a message that asks for a reply, and of the last one.
abbrev pub IsStep : ℕ → Request → Handshake → Type 0
IsStep n none t = (n ≡ 3) × (t.state ≡ 4)
IsStep n (some q) t = (n < 3) × (t.state ≡ n + 1)

module _ (crypto : Crypto) (entropy : Bytes) where
  abbrev pub KeepsNonce : ℕ → Handshake → Handshake → Type 0
  KeepsNonce zero h t = t.random_nonce ≡ some (crypto.b64encode entropy)
  KeepsNonce (suc n) h t = t.random_nonce ≡ h.random_nonce

  -- What a message in state `n` has done when it returns.
  pub record Advances (n : ℕ) (h : Handshake) (q : Request) (t : Handshake) : Type 0 where
    pub step : IsStep n q t
    pub password_kept : t.password ≡ h.password
    pub nonce : KeepsNonce n h t

  send_login-Advances :
      (o : Outcome Exn Bytes) (h g : Handshake)
      → g.state ≡ 0
      → g.password ≡ h.password
      → g.random_nonce ≡ some (crypto.b64encode entropy)
      → After (Advances 0 h) (send_login crypto o g)
  unfolding send_login
  send_login-Advances (ok text) h g s p n = record {
    step = (omega arith, omega arith);
    password_kept = p;
    nonce = n;
  }
  send_login-Advances (raised x) h g s p n = tt
  send_login-Advances blocked h g s p n = tt

  check_range-Advances :
      (o : Outcome Exn Bool) (h : Handshake)
      → h.state ≡ 1
      → After (Advances 1 h) (check_range crypto o h)
  check_range-Advances (ok true) h s = record {
    step = (omega arith, omega arith);
    password_kept = refl;
    nonce = refl;
  }
  check_range-Advances (ok false) h s = tt
  check_range-Advances (raised x) h s = tt
  check_range-Advances blocked h s = tt

  send_proof-Advances :
      (nonce : Bytes) (o : Outcome Exn Bytes) (h g : Handshake)
      → g.state ≡ 2
      → g.password ≡ h.password
      → g.random_nonce ≡ h.random_nonce
      → After (Advances 2 h) (send_proof crypto nonce o g)
  send_proof-Advances nonce (ok p) h g s k n = record {
    step = (omega arith, omega arith);
    password_kept = k;
    nonce = n;
  }
  send_proof-Advances nonce (raised x) h g s k n = tt
  send_proof-Advances nonce blocked h g s k n = tt

  sign-Advances :
      (c : Challenge) (o : Option Bytes) (h : Handshake)
      → h.state ≡ 2
      → After (Advances 2 h) (sign crypto c o h)
  unfolding sign
  sign-Advances c none h s = tt
  sign-Advances c (some first) h s = send_proof-Advances c.nonce _ h _ s refl refl

  answer-Advances :
      (o : Outcome Exn Challenge) (h : Handshake)
      → h.state ≡ 2
      → After (Advances 2 h) (answer crypto o h)
  answer-Advances (ok c) h s = sign-Advances c h.first_client_message h s
  answer-Advances (raised x) h s = tt
  answer-Advances blocked h s = tt

  finish-Advances :
      (o : Outcome Exn (Unit {0})) (h : Handshake)
      → h.state ≡ 3
      → After (Advances 3 h) (finish crypto o h)
  finish-Advances (ok u) h s = record {
    step = (refl, omega arith);
    password_kept = refl;
    nonce = refl;
  }
  finish-Advances (raised x) h s = tt
  finish-Advances blocked h s = tt

  in_state-Advances :
      (n : ℕ) (o : Option Bytes) (h : Handshake)
      → h.state ≡ n
      → After (Advances n h) (in_state crypto n entropy o h)
  unfolding in_state init_connection read_response prepare_auth_request read_auth_response
  in_state-Advances zero (some b) h s = tt
  in_state-Advances zero none h s = send_login-Advances _ h _ s refl refl
  in_state-Advances (suc zero) o h s =
      check_range-Advances (is_supported crypto h.protocol_version o) h s
  in_state-Advances (suc (suc zero)) o h s = answer-Advances (read_challenge crypto h o) h s
  in_state-Advances (suc (suc (suc zero))) o h s = finish-Advances _ h s
  in_state-Advances (suc (suc (suc (suc n)))) o h s = tt

  pub next_message-Advances :
      (o : Option Bytes) (h : Handshake)
      → After (Advances h.state h) (next_message crypto entropy o h)
  unfolding next_message
  next_message-Advances none h = in_state-Advances h.state none h refl
  next_message-Advances (some b) h = elim (Bool-cases (crypto.is_utf8 b)) [
    | inl u ↦ rw u (in_state-Advances h.state (some b) h refl)
    | inr u ↦ rw u tt
  ]
