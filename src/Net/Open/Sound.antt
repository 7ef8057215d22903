-- ===== src/Net/Open/Sound.antt =====
-- net.py, `SocketWrapper.__init__`: a login that returns has authenticated the server.
use rethinkdb_python.Base.{
  ℕ, zero, suc, ◌≡◌, refl, sym, ap, ◌∙◌, subst, Option, true, none, some, arith,
}
use rethinkdb_python.Base.Struct.{Bytes}
use rethinkdb_python.Base.Exec.{ok, Exec}
use rethinkdb_python.Base.After.{After, After-self, After-both, >>=-After}
use rethinkdb_python.Errors.{Exn}
use rethinkdb_python.Handshake.State.{Crypto, Handshake, Challenge, reset}
use rethinkdb_python.Handshake.Server.{read_signature}
use rethinkdb_python.Handshake.{Request, signature, next_message}
use rethinkdb_python.Handshake.Advance.{Advances, next_message-Advances}
use rethinkdb_python.Handshake.Proof.{ComparesDigests, IsChallenge, login_sound}
use rethinkdb_python.Net.Socket.Fresh.{IsFresh}
use rethinkdb_python.Net.Open.{
  Opening, on_handshake, on_socket, read_null_terminated, send_request, after_message, login_rounds,
  login,
}
use rethinkdb_python.Net.Open.Lift.{OnHandshake, OnSocket, on_handshake-After, on_socket-After}
use rethinkdb_python.Net.Open.Rounds.{send_request-IsFresh, read_null_terminated-IsFresh}

module _ (crypto : Crypto) (entropy password : Bytes) where
  -- The server has proved that it knows the password, on a nonce that extends this login's.
  pub record Authenticated : Type 0 where
    pub asked : Handshake
    pub second : Bytes
    pub third : Bytes
    pub challenge : Challenge
    pub first : Bytes
    pub own_password : asked.password ≡ password
    pub own_nonce : asked.random_nonce ≡ some (crypto.b64encode entropy)
    pub own_message : asked.first_client_message ≡ some first
    pub challenged : IsChallenge crypto asked second challenge
    pub signed : read_signature crypto (some third) ≡ ok (signature crypto first challenge)

  abbrev Given : Option Bytes → Type 0
  Given r = (text : Bytes) × (r ≡ some text)

  record Asked (h : Handshake) : Type 0 where
    same_password : h.password ≡ password
    own_nonce : h.random_nonce ≡ some (crypto.b64encode entropy)

  -- The step from the second state to the third.
  record Answered (t : Handshake) : Type 0 where
    before : Handshake
    second : Bytes
    request : Request
    at_two : before.state ≡ 2
    asked : Asked before
    step : next_message crypto entropy (some second) before ≡ (ok request, t)

  -- What holds in state `n` when the message for the response `r` is due.
  abbrev Stage : ℕ → Handshake → Option Bytes → Type 0
  Stage zero h r = h.password ≡ password
  Stage (suc zero) h r = Asked h × Given r
  Stage (suc (suc zero)) h r = Asked h × Given r
  Stage (suc (suc (suc zero))) h r = Answered h × Given r
  Stage (suc (suc (suc (suc n)))) h r = Unit

  moves_on :
      (n : ℕ) (h t : Handshake) (r : Option Bytes) (request text : Bytes)
      → h.state ≡ n
      → Stage n h r
      → next_message crypto entropy r h ≡ (ok (some request), t)
      → Advances crypto entropy n h (some request) t
      → Stage (suc n) t (some text)
  moves_on zero h t r request text s g e a =
      (record { same_password = a.password_kept ∙ g; own_nonce = a.nonce }, (text, refl))
  moves_on (suc zero) h t r request text s (g, _) e a = (
    record { same_password = a.password_kept ∙ g.same_password; own_nonce = a.nonce ∙ g.own_nonce },
    (text, refl),
  )
  moves_on (suc (suc zero)) h t r request text s (g, (second, given)) e a = (
    record {
      before = h;
      second = second;
      request = some request;
      at_two = s;
      asked = g;
      step = ap (λ o. next_message crypto entropy o h) (sym given) ∙ e;
    },
    (text, refl),
  )
  moves_on (suc (suc (suc zero))) h t r request text s g e a = tt
  moves_on (suc (suc (suc (suc n)))) h t r request text s g e a = tt

  comes_to_end :
      ComparesDigests crypto.digest_test
      → (n : ℕ) (h t : Handshake) (r : Option Bytes) → Stage n h r
      → next_message crypto entropy r h ≡ (ok none, t)
      → Advances crypto entropy n h none t
      → Authenticated
  comes_to_end c zero h t r g e a = absurd (omega (arith, a.step))
  comes_to_end c (suc zero) h t r g e a = absurd (omega (arith, a.step))
  comes_to_end c (suc (suc zero)) h t r g e a = absurd (omega (arith, a.step))
  comes_to_end c (suc (suc (suc zero))) h t r (g, (third, given)) e a =
      let last = ap (λ o. next_message crypto entropy o h) (sym given) ∙ e in
      let (challenge, first, message, challenged, signed, _, _) =
        login_sound crypto c entropy g.second third g.before h t g.request none g.at_two g.step
          last in
      record {
        asked = g.before;
        second = g.second;
        third = third;
        challenge = challenge;
        first = first;
        own_password = g.asked.same_password;
        own_nonce = g.asked.own_nonce;
        own_message = message;
        challenged = challenged;
        signed = signed;
      }
  comes_to_end c (suc (suc (suc (suc n)))) h t r g e a = absurd (omega (arith, a.step))

  -- What the constructor leaves when it returns.
  abbrev pub LoggedIn : Unit {0} → Opening → Type 0
  LoggedIn _ t = (t.socket.is_open ≡ true) × (t.handshake.state ≡ 4) × Authenticated

  -- What a message that returns has done.
  abbrev Stepped : Option Bytes → Handshake → Request → Handshake → Type 0
  Stepped r h q t =
      Advances crypto entropy h.state h q t × (next_message crypto entropy r h ≡ (ok q, t))

  next_message-Stepped :
      (r : Option Bytes) (h : Handshake) → After (Stepped r h) (next_message crypto entropy r h)
  next_message-Stepped r h =
      After-both (Advances crypto entropy h.state h)
        (λ q t. next_message crypto entropy r h ≡ (ok q, t)) (next_message crypto entropy r h)
        (next_message-Advances crypto entropy r h) (After-self (next_message crypto entropy r h))

  module _ (compares : ComparesDigests crypto.digest_test) where
    after_message-LoggedIn :
        (k : ℕ) (next : Option Bytes → Exec Exn Opening (Unit {0})) (r : Option Bytes)
        (h : Handshake) (q : Request) (o : Opening)
        → ((text : Bytes) (t : Opening)
            → IsFresh k t.socket
            → Stage t.handshake.state t.handshake (some text)
            → After LoggedIn (next (some text) t))
        → IsFresh k o.socket
        → Stage h.state h r
        → Stepped r h q o.handshake
        → After LoggedIn (after_message next q o)
    unfolding after_message
    after_message-LoggedIn k next r h none o ih f g (a, e) =
        (f.is_open, a.step.1, comes_to_end compares h.state h o.handshake r g e a)
    after_message-LoggedIn k next r h (some request) o ih f g (a, e) =
        >>=-After (OnSocket (λ u t. IsFresh k t) o.handshake) LoggedIn
          (on_socket (send_request request)) _ o
          (on_socket-After (λ u t. IsFresh k t) (send_request request) o
            (send_request-IsFresh request k o.socket f))
          (λ u s (fs, same).
            >>=-After (OnSocket (λ b t. IsFresh k t) s.handshake) LoggedIn
              (on_socket read_null_terminated) _ s
              (on_socket-After (λ b t. IsFresh k t) read_null_terminated s
                (read_null_terminated-IsFresh k s.socket fs))
              (λ text t (ft, kept).
                let count : suc h.state ≡ o.handshake.state = omega (arith, a.step) in
                let here = moves_on h.state h o.handshake r request text refl g e a in
                ih text t ft (
                  subst (λ x. Stage x.state x (some text)) (sym (kept ∙ same))
                    (subst (λ n. Stage n o.handshake (some text)) count here))))

    login_rounds-LoggedIn :
        (n k : ℕ) (r : Option Bytes) (o : Opening)
        → IsFresh k o.socket
        → Stage o.handshake.state o.handshake r
        → After LoggedIn (login_rounds crypto entropy n r o)
    unfolding login_rounds
    login_rounds-LoggedIn zero k r o f g = tt
    login_rounds-LoggedIn (suc n) k r o f g =
        >>=-After (OnHandshake (Stepped r o.handshake) o.socket) LoggedIn
          (on_handshake (next_message crypto entropy r))
          (after_message (login_rounds crypto entropy n)) o
          (on_handshake-After (Stepped r o.handshake) (next_message crypto entropy r) o
            (next_message-Stepped r o.handshake))
          (λ q t (stepped, same).
            after_message-LoggedIn k (login_rounds crypto entropy n) r o.handshake q t
              (λ text s fs gs. login_rounds-LoggedIn n k (some text) s fs gs)
              (subst (IsFresh k) (sym same) f) g stepped)

    pub login-LoggedIn :
        (k : ℕ) (o : Opening)
        → IsFresh k o.socket
        → o.handshake.password ≡ password
        → After LoggedIn (login crypto entropy o)
    unfolding login reset
    login-LoggedIn k o f p = login_rounds-LoggedIn 5 k none _ f p
