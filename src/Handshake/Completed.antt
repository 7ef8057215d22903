-- ===== src/Handshake/Completed.antt =====
-- handshake.py: a login with a server that answers by RFC 5802 comes to its end.
use rethinkdb_python.Base.{
  ℕ, ◌+◌, ◌≡◌, refl, ap, ◌∙◌, Bool, true, Option, none, some, [], ◌∷◌, ◌++◌, length, append_assoc,
  arith,
}
use rethinkdb_python.Base.Struct.{Bytes}
use rethinkdb_python.Base.Text.{codes}
use rethinkdb_python.Base.Bytewise.{xor_all}
use rethinkdb_python.Base.Exec.{Outcome, ok}
use rethinkdb_python.Handshake.Digest.{compare_digest_iff}
use rethinkdb_python.Errors.{Exn}
use rethinkdb_python.Handshake.State.{Crypto, Handshake}
use rethinkdb_python.Handshake.Server.{read_signature}
use rethinkdb_python.Handshake.Exchange.{
  Exchange, whole_nonce, signed_text, server_signature, login_proof, client_final, IsHonest,
  challenge, read_challenge-IsHonest, read_signature-IsHonest,
}
use rethinkdb_python.Handshake.{
  Request, client_proof, sign, answer, prepare_auth_request, choose, same_digest, xor_digests,
  check_signature, read_auth_response, in_state, next_message,
}

-- What `hmac.compare_digest` promises of a digest and itself, where it is used.
abbrev pub AcceptsEqual : Option (Bytes → Bytes → Bool) → Type 0
AcceptsEqual none = Unit
AcceptsEqual (some test) = (a : Bytes) → test a a ≡ true

xor_digests-eq-ok :
    (a b : Bytes) → length a ≡ 32 → length b ≡ 32 → xor_digests a b ≡ ok (xor_all a b)
xor_digests-eq-ok a b p q = rw (p, q) refl

module _ (crypto : Crypto) where
  choose_complete :
      (o : Option (Bytes → Bytes → Bool))
      → AcceptsEqual o
      → (a : Bytes) → choose crypto o a a ≡ true
  choose_complete none p a = (compare_digest_iff a a).1 refl
  choose_complete (some test) p a = p a

  module _ (size : (k m : Bytes) → length (crypto.hmac k m) ≡ 32) where
    client_proof-eq-ok :
        (x : Exchange)
        → client_proof crypto x.client_first (challenge crypto x) ≡ ok (login_proof crypto x)
    unfolding client_proof login_proof signed_text
    client_proof-eq-ok x = xor_digests-eq-ok _ _ (size _ _) (size _ _)

    next_message-in_state :
        (n : ℕ) (entropy b : Bytes) (h : Handshake)
        → h.state ≡ n
        → crypto.is_utf8 b ≡ true
        → next_message crypto entropy (some b) h ≡ in_state crypto n entropy (some b) h
    unfolding next_message
    next_message-in_state n entropy b h s u =
        rw u (ap (λ m. in_state crypto m entropy (some b) h) s)

    -- What the client sends for its proof, and what it keeps of the server's.
    abbrev proved : Exchange → Handshake → Outcome Exn Request × Handshake
    proved x h = (
      ok (some (crypto.encode_proof (client_final crypto x) ++ 0 ∷ [])),
      record h { server_signature = some (server_signature crypto x); state = h.state + 1 },
    )

    sign_sent :
        (o : Option Bytes) (h : Handshake) (x : Exchange)
        → o ≡ some x.client_first
        → sign crypto (challenge crypto x) o h ≡ proved x h
    unfolding sign client_final server_signature signed_text
    sign_sent none h x f = cc
    sign_sent (some own) h x f =
        let same : own ≡ x.client_first = cc in
        rw same (
          rw (client_proof-eq-ok x) (
            ap
              (λ t. (
                ok (some (crypto.encode_proof t ++ 0 ∷ [])),
                record h {
                  server_signature = some (server_signature crypto x);
                  state = h.state + 1;
                },
              ))
              (append_assoc (codes "c=biws,r=") (whole_nonce x) _)))

    challenge_sent :
        (entropy second third : Bytes) (h : Handshake) (x : Exchange)
        → h.state ≡ 2
        → IsHonest crypto h second third x
        → next_message crypto entropy (some second) h ≡ proved x h
    unfolding in_state prepare_auth_request
    challenge_sent entropy second third h x s e =
        next_message-in_state 2 entropy second h s e.challenged.utf8
        ∙ ap (λ o. answer crypto o h) (read_challenge-IsHonest crypto h second third x e)
        ∙ sign_sent h.first_client_message h x e.message

    proof_checked :
        AcceptsEqual crypto.digest_test
        → (entropy third own : Bytes) (h : Handshake) → h.state ≡ 3
        → crypto.is_utf8 third ≡ true
        → h.server_signature ≡ some own
        → read_signature crypto (some third) ≡ ok own
        → next_message crypto entropy (some third) h ≡ (ok none, record h { state = h.state + 1 })
    unfolding in_state read_auth_response check_signature same_digest
    proof_checked p entropy third own h s u f e =
        next_message-in_state 3 entropy third h s u
        ∙ rw (e, f, choose_complete crypto.digest_test p own) refl

    -- A login with a server that answers by RFC 5802 comes to its end. From the second state, it answers the
    -- server's first message with the client's last one, which holds the proof that the RFC describes, and it
    -- accepts the server's signature, computed as the RFC describes. The conditions are that the client has
    -- kept its nonce and its first message; that each of the two responses is UTF-8, reports success and gives
    -- its text, in ASCII; that the nonce of the server's first message extends the client's, and that no
    -- part of its messages has a comma; that base64, `int` and `pbkdf2` can read the salt, the count and the
    -- signature and salt the password (all this is `IsHonest`); that `hmac` gives 32 bytes; and that
    -- `hmac.compare_digest`, where there is one, finds a digest equal to itself.
    pub login_complete :
        AcceptsEqual crypto.digest_test
        → (entropy second third : Bytes) (h : Handshake) (x : Exchange) → h.state ≡ 2
        → IsHonest crypto h second third x
        → (g : Handshake) × (t : Handshake) × (next_message crypto entropy (some second) h
            ≡ (ok (some (crypto.encode_proof (client_final crypto x) ++ 0 ∷ [])), g))
          × (next_message crypto entropy (some third) g ≡ (ok none, t))
          × (t.state ≡ 4)
    login_complete p entropy second third h x s e =
        let over =
          proof_checked p entropy third (server_signature crypto x) (proved x h).1 (omega arith)
            e.signed.utf8 refl (read_signature-IsHonest crypto h second third x e) in
        let last : h.state + 1 + 1 ≡ 4 = omega arith in
        (_, _, challenge_sent entropy second third h x s e, over, last)
