-- ===== src/Net/Open/Fuel.antt =====
-- net.py, `SocketWrapper.__init__`: the rounds that the two loops are given are enough.
use rethinkdb_python.Base.{
  ap, ◌∙◌, true, ℕ, zero, suc, ◌+◌, ◌≤◌, ◌<◌, ◌≡◌, refl, Option, none, some, [], length, arith,
}
use rethinkdb_python.Base.Struct.{Bytes}
use rethinkdb_python.Base.Exec.{Exec}
use rethinkdb_python.Errors.{Exn}
use rethinkdb_python.Base.After.{After-weaken, After-any, feed_cong}
use rethinkdb_python.Handshake.State.{Crypto, Handshake, reset}
use rethinkdb_python.Handshake.{Request, next_message}
use rethinkdb_python.Handshake.Advance.{Advances, next_message-Advances}
use rethinkdb_python.Net.Socket.{Socket}
use rethinkdb_python.Net.Open.{
  Opening, on_handshake, on_socket, read_text, read_null_terminated, send_request, after_message,
  login_rounds, login,
}
use rethinkdb_python.Net.Open.Lift.{OnHandshake, OnSocket, on_handshake-After, on_socket-After}
use rethinkdb_python.Net.Open.Rounds.{read_text_fuel}

abbrev Any : {A : Type 0} → A → Socket → Type 0
Any _ _ = Unit

-- Two ways to go on that agree on the handshake that the round leaves.
after_message_cong :
    (f g : Option Bytes → Exec Exn Opening (Unit {0})) (q : Request) (o : Opening)
    → ((request : Bytes) (r : Option Bytes) (t : Opening)
        → q ≡ some request
        → t.handshake ≡ o.handshake
        → f r t ≡ g r t)
    → after_message f q o ≡ after_message g q o
unfolding after_message
after_message_cong f g none o e = refl
after_message_cong f g (some request) o e = feed_cong (on_socket (send_request request) o) _ _ (
    After-weaken (OnSocket Any o.handshake) _ (on_socket (send_request request) o)
      (λ u s k. feed_cong (on_socket read_null_terminated s) _ _ (
        After-weaken (OnSocket Any s.handshake) _ (on_socket read_null_terminated s)
          (λ text t l. e request (some text) t refl (l.1 ∙ k.1))
          (on_socket-After Any read_null_terminated s (After-any _))))
      (on_socket-After Any (send_request request) o (After-any _)))

module _ (crypto : Crypto) (entropy : Bytes) where
  next_state :
      (h t : Handshake) (q : Request) (request : Bytes)
      → q ≡ some request
      → Advances crypto entropy h.state h q t
      → (t.state ≤ 3) × (t.state ≡ h.state + 1)
  next_state h t none request e a = cc
  next_state h t (some r) request e a = (omega (arith, a.step), omega (arith, a.step))

  login_rounds_fuel :
      (m n : ℕ) (response : Option Bytes) (o : Opening)
      → o.handshake.state ≤ 4
      → 4 < o.handshake.state + m
      → 4 < o.handshake.state + n
      → login_rounds crypto entropy m response o ≡ login_rounds crypto entropy n response o
  unfolding login_rounds
  login_rounds_fuel zero n response o l p q = absurd (omega arith)
  login_rounds_fuel (suc m) zero response o l p q = absurd (omega arith)
  login_rounds_fuel (suc m) (suc n) response o l p q =
      feed_cong (on_handshake (next_message crypto entropy response) o)
        (after_message (login_rounds crypto entropy m))
        (after_message (login_rounds crypto entropy n))
        (After-weaken (OnHandshake (Advances crypto entropy o.handshake.state o.handshake) o.socket)
          _ (on_handshake (next_message crypto entropy response) o)
          (λ request s a. after_message_cong _ _ request s (λ b r t some_request same.
            let (low, next) = next_state o.handshake s.handshake request b some_request a.0 in
            let step : t.handshake.state ≡ s.handshake.state = ap (λ h. h.state) same in
            login_rounds_fuel m n r t (omega arith) (omega arith) (omega arith)))
          (on_handshake-After _ (next_message crypto entropy response) o
            (next_message-Advances crypto entropy response o.handshake)))

-- The loops of the login end without running out of rounds: with more than `length s.arrivals`
-- characters the reading of a response does the same whatever their number, on a socket that is open
-- and keeps no bytes; and with 5 or more messages so does the login.
pub login_fuel :
    (crypto : Crypto) (entropy : Bytes) (m n : ℕ) (s : Socket) (o : Opening)
    → s.is_open ≡ true
    → s.read_buffer ≡ none
    → length s.arrivals < m
    → 5 ≤ n
    → (read_text m [] s ≡ read_null_terminated s)
      × (login_rounds crypto entropy n none (record o { handshake = reset o.handshake })
          ≡ login crypto entropy o)
unfolding login read_null_terminated reset
login_fuel crypto entropy m n s o e b p q = (
  read_text_fuel m (length s.arrivals + 1) (length s.arrivals) [] s
      (record { is_open = e; no_bytes = b; left = omega arith }) p (omega arith),
  login_rounds_fuel crypto entropy n 5 none _ (omega arith) (omega arith) (omega arith),
)
