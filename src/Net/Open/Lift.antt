-- ===== src/Net/Open/Lift.antt =====
-- net.py, `SocketWrapper.__init__`: steps of the handshake and of the socket, in the login.
use rethinkdb_python.Base.{◌≡◌, refl}
use rethinkdb_python.Base.Exec.{Outcome, ok, raised, blocked, Exec}
use rethinkdb_python.Base.After.{After}
use rethinkdb_python.Errors.{Exn}
use rethinkdb_python.Handshake.State.{Handshake}
use rethinkdb_python.Net.Socket.{Socket}
use rethinkdb_python.Net.Open.{Opening, on_handshake, on_socket}

-- A step of the handshake leaves the socket, and a step of the socket the handshake.
abbrev pub OnHandshake : {A : Type 0} → (A → Handshake → Type 0) → Socket → A → Opening → Type 0
OnHandshake P s a t = P a t.handshake × (t.socket ≡ s)

abbrev pub OnSocket : {A : Type 0} → (A → Socket → Type 0) → Handshake → A → Opening → Type 0
OnSocket P h a t = P a t.socket × (t.handshake ≡ h)

module _ {A : Type 0} where
  lift_handshake :
      (P : A → Handshake → Type 0) (x : Outcome Exn A × Handshake) (o : Opening)
      → After P x
      → After (OnHandshake P o.socket) (x.0, record o { handshake = x.1 })
  lift_handshake P (ok a, h) o p = (p, refl)
  lift_handshake P (raised e, h) o p = tt
  lift_handshake P (blocked, h) o p = tt

  lift_socket :
      (P : A → Socket → Type 0) (x : Outcome Exn A × Socket) (o : Opening)
      → After P x
      → After (OnSocket P o.handshake) (x.0, record o { socket = x.1 })
  lift_socket P (ok a, s) o p = (p, refl)
  lift_socket P (raised e, s) o p = tt
  lift_socket P (blocked, s) o p = tt

  pub on_handshake-After :
      (P : A → Handshake → Type 0) (m : Exec Exn Handshake A) (o : Opening)
      → After P (m o.handshake)
      → After (OnHandshake P o.socket) (on_handshake m o)
  on_handshake-After P m o p = lift_handshake P (m o.handshake) o p

  pub on_socket-After :
      (P : A → Socket → Type 0) (m : Exec Exn Socket A) (o : Opening)
      → After P (m o.socket)
      → After (OnSocket P o.handshake) (on_socket m o)
  on_socket-After P m o p = lift_socket P (m o.socket) o p
