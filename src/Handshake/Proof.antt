-- ===== src/Handshake/Proof.antt =====
-- handshake.py: a login that is completed has checked the server's proof.
use rethinkdb_python.Base.{
  ℕ, ◌+◌, ◌≡◌, refl, sym, ap, ◌∙◌, Bool, true, Bool-cases, inl, inr, Option, none, some, arith,
}
use rethinkdb_python.Base.Struct.{Bytes}
use rethinkdb_python.Base.Text.{codes}
use rethinkdb_python.Base.Exec.{Outcome, ok, raised, blocked}
use rethinkdb_python.Base.Outcome.{>>=-eq-ok}
use rethinkdb_python.Errors.{Exn}
use rethinkdb_python.Handshake.Digest.{compare_digest_iff}
use rethinkdb_python.Handshake.Attributes.{starts_with}
use rethinkdb_python.Handshake.State.{Crypto, Handshake, Challenge, Reply}
use rethinkdb_python.Handshake.Server.{
  decode_json_response, get_authentication, item, salt_password, read_challenge, read_signature,
  check_nonce,
}
use rethinkdb_python.Handshake.{
  Request, send_proof, signature, sign, answer, prepare_auth_request, choose, same_digest,
  check_signature, finish, read_auth_response, in_state, next_message,
}

-- What `hmac.compare_digest` promises, where it is used.
abbrev pub ComparesDigests : Option (Bytes → Bytes → Bool) → Type 0
ComparesDigests none = Unit
ComparesDigests (some test) = (a b : Bytes) → test a b ≡ true → a ≡ b

challenge_nonce :
    (c d : Challenge) → ◌≡◌ {A = Outcome Exn Challenge} (ok c) (ok d) → d.nonce ≡ c.nonce
challenge_nonce c d e = cc

module _ (crypto : Crypto) where
  choose_sound :
      (o : Option (Bytes → Bytes → Bool))
      → ComparesDigests o
      → (a b : Bytes) → choose crypto o a b ≡ true
      → a ≡ b
  choose_sound none p a b e = (compare_digest_iff a b).0 e
  choose_sound (some test) p a b e = p a b e

  same_digest_sound :
      ComparesDigests crypto.digest_test → (a b : Bytes) → same_digest crypto a b ≡ true → a ≡ b
  unfolding same_digest
  same_digest_sound p = choose_sound crypto.digest_test p

  in_state-eq-ok :
      (n : ℕ) (entropy : Bytes) (o : Option Bytes) (h t : Handshake) (q : Request)
      → h.state ≡ n
      → next_message crypto entropy o h ≡ (ok q, t)
      → in_state crypto n entropy o h ≡ (ok q, t)
  unfolding next_message
  in_state-eq-ok n entropy none h t q s e = rw (sym s) e
  in_state-eq-ok n entropy (some b) h t q s e = elim (Bool-cases (crypto.is_utf8 b)) [
    | inl u ↦ rw (sym s) (rw u at e)
    | inr u ↦ cc (rw u at e)
  ]

  check_nonce-eq-ok :
      (o : Option Bytes) (nonce : Bytes) (u : Unit {0})
      → check_nonce crypto o nonce ≡ ok u
      → (own : Bytes) × (o ≡ some own) × (starts_with own nonce ≡ true)
  unfolding check_nonce
  check_nonce-eq-ok none nonce u e = cc
  check_nonce-eq-ok (some own) nonce u e = (own, refl, ground arith)

  read_challenge-eq-ok :
      (h : Handshake) (o : Option Bytes) (c : Challenge)
      → read_challenge crypto h o ≡ ok c
      → (own : Bytes) × (h.random_nonce ≡ some own) × (starts_with own c.nonce ≡ true)
  unfolding read_challenge
  read_challenge-eq-ok h o c e =
      let (r, e1, f1) = >>=-eq-ok {A = Reply} (decode_json_response crypto o) _ e in
      let (auth, e2, f2) = >>=-eq-ok (get_authentication crypto r) _ f1 in
      let (nonce, e3, f3) = >>=-eq-ok (item crypto (codes "r") auth.1) _ f2 in
      let (u, e4, f4) = >>=-eq-ok (check_nonce crypto h.random_nonce nonce) _ f3 in
      let (salted, e5, f5) = >>=-eq-ok (salt_password crypto h.password auth.1) _ f4 in
      let (own, set, start) = check_nonce-eq-ok h.random_nonce nonce u e4 in
      let read : Challenge = record { text = auth.0; nonce = nonce; salted_password = salted } in
      (own, set, ap (starts_with own) (challenge_nonce read c f5) ∙ start)

  -- What a step of the second state that does not raise has done.
  record IsSigned (h : Handshake) (c : Challenge) (first : Bytes) (t : Handshake) : Type 0 where
    first_set : h.first_client_message ≡ some first
    kept : t.server_signature ≡ some (signature crypto first c)
    proved : t.state ≡ h.state + 1

  send_proof-state :
      (nonce : Bytes) (o : Outcome Exn Bytes) (h t : Handshake) (q : Request)
      → send_proof crypto nonce o h ≡ (ok q, t)
      → (t.server_signature ≡ h.server_signature) × (t.state ≡ h.state + 1)
  send_proof-state nonce (ok p) h t q e = (cc, cc)
  send_proof-state nonce (raised x) h t q e = cc
  send_proof-state nonce blocked h t q e = cc

  sign-IsSigned :
      (c : Challenge) (o : Option Bytes) (h t : Handshake) (q : Request)
      → h.first_client_message ≡ o
      → sign crypto c o h ≡ (ok q, t)
      → (first : Bytes) × IsSigned h c first t
  unfolding sign
  sign-IsSigned c none h t q m e = cc
  sign-IsSigned c (some first) h t q m e =
      let (kept, proved) = send_proof-state _ _ _ _ _ e in
      (first, record { first_set = m; kept = kept; proved = proved })

  answer-IsSigned :
      (o : Outcome Exn Challenge) (h t : Handshake) (q : Request)
      → answer crypto o h ≡ (ok q, t)
      → (c : Challenge) × (first : Bytes) × (o ≡ ok c) × IsSigned h c first t
  answer-IsSigned (ok c) h t q e =
      let (first, s) = sign-IsSigned c _ h t q refl e in (c, first, refl, s)
  answer-IsSigned (raised x) h t q e = cc
  answer-IsSigned blocked h t q e = cc

  finish-eq-ok :
      (o : Outcome Exn (Unit {0})) (h t : Handshake) (q : Request)
      → finish crypto o h ≡ (ok q, t)
      → (u : Unit {0}) × (o ≡ ok u) × (q ≡ none) × (t.state ≡ h.state + 1)
  finish-eq-ok (ok u) h t q e = (u, refl, cc, cc)
  finish-eq-ok (raised x) h t q e = cc
  finish-eq-ok blocked h t q e = cc

  check_signature-eq-ok :
      (o : Option Bytes) (own given : Bytes) (u : Unit {0})
      → o ≡ some own
      → check_signature crypto o given ≡ ok u
      → same_digest crypto given own ≡ true
  unfolding check_signature
  check_signature-eq-ok none own given u s e = cc
  check_signature-eq-ok (some b) own given u s e = ground arith

  -- The server's message: its nonce is an extension of the client's own.
  pub record IsChallenge (h : Handshake) (response : Bytes) (c : Challenge) : Type 0 where
    pub read : read_challenge crypto h (some response) ≡ ok c
    pub own_nonce : Bytes
    pub own : h.random_nonce ≡ some own_nonce
    pub extends : starts_with own_nonce c.nonce ≡ true

  challenged :
      (entropy response : Bytes) (h t : Handshake) (q : Request)
      → h.state ≡ 2
      → next_message crypto entropy (some response) h ≡ (ok q, t)
      → (c : Challenge) × (first : Bytes) × IsChallenge h response c × IsSigned h c first t
  unfolding in_state prepare_auth_request
  challenged entropy response h t q s e =
      let step = in_state-eq-ok 2 entropy (some response) h t q s e in
      let (c, first, got, signed) = answer-IsSigned _ h t q step in
      let (own, set, start) = read_challenge-eq-ok h (some response) c got in
      (c, first, record { read = got; own_nonce = own; own = set; extends = start }, signed)

  proof_accepted :
      ComparesDigests crypto.digest_test
      → (entropy response own : Bytes) (h t : Handshake) (q : Request) → h.state ≡ 3
      → h.server_signature ≡ some own
      → next_message crypto entropy (some response) h ≡ (ok q, t)
      → (read_signature crypto (some response) ≡ ok own) × (q ≡ none) × (t.state ≡ 4)
  unfolding in_state read_auth_response
  proof_accepted p entropy response own h t q s m e =
      let step = in_state-eq-ok 3 entropy (some response) h t q s e in
      let (u, checked, over, last) = finish-eq-ok _ h t q step in
      let (given, got, same) = >>=-eq-ok _ _ checked in
      let equal = same_digest_sound p given own (check_signature-eq-ok _ own given u m same) in
      (rw (sym equal) got, over, omega arith)

  -- A login that gets from the second state to its end by two responses has authenticated the server:
  -- the nonce of the first response extends the client's own, and the second response holds the
  -- signature that the password, the salt and the texts exchanged give. The condition is that
  -- `hmac.compare_digest`, where there is one, tells different digests apart.
  pub login_sound :
      ComparesDigests crypto.digest_test
      → (entropy second third : Bytes) (h g t : Handshake) (q x : Request) → h.state ≡ 2
      → next_message crypto entropy (some second) h ≡ (ok q, g)
      → next_message crypto entropy (some third) g ≡ (ok x, t)
      → (c : Challenge) × (first : Bytes) × (h.first_client_message ≡ some first)
        × IsChallenge h second c
        × (read_signature crypto (some third) ≡ ok (signature crypto first c))
        × (x ≡ none)
        × (t.state ≡ 4)
  login_sound p entropy second third h g t q x s e f =
      let (c, first, challenge, signed) = challenged entropy second h g q s e in
      let (got, over, last) =
        proof_accepted p entropy third (signature crypto first c) g t x (omega arith) signed.kept
          f in
      (c, first, signed.first_set, challenge, got, over, last)
