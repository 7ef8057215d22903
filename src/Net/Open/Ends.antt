-- ===== src/Net/Open/Ends.antt =====
-- net.py, `SocketWrapper.__init__`: how the constructor ends.
use rethinkdb_python.Base.{
  ◌≡◌, refl, ap, ◌∙◌, ◌⊎◌, inl, inr, true, false, Bool-cases, Option, none, some, length, arith,
}
use rethinkdb_python.Base.Struct.{Bytes}
use rethinkdb_python.Base.Exec.{Outcome, ok, raised, blocked}
use rethinkdb_python.Base.After.{After, >>=-After}
use rethinkdb_python.Errors.{
  ErrorClass, Message, Exn, reql, builtin, is_instance, driver_error, auth_error, timeout_error,
  attribute_error, key_error, index_error, value_error, struct_error, type_error, socket_timeout,
  os_error, not_implemented_error, assertion_error, certificate_error, keyboard_interrupt,
  incomplete_read_error, invalid_state_error,
}
use rethinkdb_python.Errors.Hierarchy.{Inherits, itself, from_base, is_instance_iff}
use rethinkdb_python.Handshake.State.{Crypto, Handshake}
use rethinkdb_python.Handshake.Proof.{ComparesDigests}
use rethinkdb_python.Net.Socket.Fresh.{IsFresh}
use rethinkdb_python.Net.Open.{
  Dial, answered, refused, timed_out, Tls, plain, accepted, failed, bad_certificate,
  no_certificates, Opening, dial_server, secure, try_open, reql_handler, handler, close_opening,
  handled, open_socket,
}
use rethinkdb_python.Net.Open.Sound.{LoggedIn, login-LoggedIn}

-- A `ReqlDriverError`, or one of its subclasses.
abbrev pub IsDriverError : Exn → Type 0
IsDriverError e =
    (c : ErrorClass) × (m : Message) × (e ≡ reql c m) × (is_instance c driver_error ≡ true)

Inherits-trans : {b c d : ErrorClass} → Inherits b c → Inherits c d → Inherits b d
Inherits-trans itself j = j
Inherits-trans (from_base e i) j = from_base e (Inherits-trans i j)

is_driver :
    (c b : ErrorClass)
    → Inherits b driver_error
    → is_instance c b ≡ true
    → is_instance c driver_error ≡ true
is_driver c b i e =
    (is_instance_iff c driver_error).1 (Inherits-trans ((is_instance_iff c b).0 e) i)

reql_handler-IsDriverError : (c : ErrorClass) (m : Message) → IsDriverError (reql_handler c m)
unfolding reql_handler
reql_handler-IsDriverError c m = elim (Bool-cases (is_instance c auth_error)) [
  | inl e ↦ rw e (c, m, refl, is_driver c auth_error (from_base refl itself) e)
  | inr e ↦ elim (Bool-cases (is_instance c timeout_error)) [
    | inl f ↦ rw (e, f) (c, m, refl, is_driver c timeout_error (from_base refl itself) f)
    | inr f ↦ elim (Bool-cases (is_instance c driver_error)) [
      | inl g ↦ rw (e, f, g) (_, _, refl, refl)
      | inr g ↦ rw (e, f, g) (_, _, refl, refl)
    ]
  ]
]

-- The handlers catch everything but a KeyboardInterrupt.
abbrev Handles : Exn → Option Exn → Type 0
Handles e none = e ≡ builtin keyboard_interrupt
Handles e (some f) = IsDriverError f

handler-Handles : (e : Exn) → Handles e (handler e)
unfolding handler
handler-Handles (reql c m) = reql_handler-IsDriverError c m
handler-Handles (builtin keyboard_interrupt) = refl
handler-Handles (builtin socket_timeout) = (_, _, refl, refl)
handler-Handles (builtin attribute_error) = (_, _, refl, refl)
handler-Handles (builtin key_error) = (_, _, refl, refl)
handler-Handles (builtin index_error) = (_, _, refl, refl)
handler-Handles (builtin value_error) = (_, _, refl, refl)
handler-Handles (builtin struct_error) = (_, _, refl, refl)
handler-Handles (builtin type_error) = (_, _, refl, refl)
handler-Handles (builtin os_error) = (_, _, refl, refl)
handler-Handles (builtin not_implemented_error) = (_, _, refl, refl)
handler-Handles (builtin assertion_error) = (_, _, refl, refl)
handler-Handles (builtin certificate_error) = (_, _, refl, refl)
handler-Handles (builtin incomplete_read_error) = (_, _, refl, refl)
handler-Handles (builtin invalid_state_error) = (_, _, refl, refl)

module _ (crypto : Crypto) (entropy password : Bytes) where
  -- How the constructor ends.
  abbrev pub Ends : Outcome Exn (Unit {0}) × Opening → Type 0
  Ends (ok u, t) = LoggedIn crypto entropy password u t
  Ends (raised e, t) =
      (IsDriverError e × (t.socket.is_open ≡ false)) ⊎ (e ≡ builtin keyboard_interrupt)
  Ends (blocked, t) = Unit

  handled-Ends :
      (x : Outcome Exn (Unit {0}) × Opening)
      → After (LoggedIn crypto entropy password) x
      → Ends (handled x)
  unfolding handled close_opening
  handled-Ends (ok u, t) p = p
  handled-Ends (blocked, t) p = tt
  handled-Ends (raised e, t) p = caught (handler e) (handler-Handles e)
    where
      caught :
          (o : Option Exn)
          → Handles e o
          → Ends (elim o [ none ↦ (raised e, t) | some f ↦ (raised f, close_opening t) ])
      caught none h = inr h
      caught (some f) h = inl (h, refl)

  -- The wrapper after `create_connection`.
  abbrev Dialled : Handshake → Opening → Type 0
  Dialled h t = IsFresh (length t.socket.arrivals) t.socket × (t.handshake ≡ h)

  dial_server-Dialled :
      (dial : Dial) (o : Opening) → After (λ u t. Dialled o.handshake t) (dial_server dial o)
  unfolding dial_server
  dial_server-Dialled (answered stream arrivals departures) o =
      (record { is_open = refl; no_bytes = refl; left = omega arith }, refl)
  dial_server-Dialled timed_out o = tt
  dial_server-Dialled refused o = tt
  dial_server-Dialled Dial.interrupted o = tt

  secure-Dialled :
      (tls : Tls) (h : Handshake) (o : Opening)
      → Dialled h o
      → After (λ u t. Dialled h t) (secure tls o)
  unfolding secure
  secure-Dialled plain h o d = d
  secure-Dialled accepted h o d = d
  secure-Dialled failed h o d = tt
  secure-Dialled bad_certificate h o d = tt
  secure-Dialled no_certificates h o d = tt

  try_open-LoggedIn :
      ComparesDigests crypto.digest_test
      → (dial : Dial) (tls : Tls) (o : Opening) → o.handshake.password ≡ password
      → After (LoggedIn crypto entropy password) (try_open crypto entropy dial tls o)
  unfolding try_open
  try_open-LoggedIn c dial tls o p =
      >>=-After (λ u t. Dialled o.handshake t) (LoggedIn crypto entropy password) (dial_server dial)
        _ o (dial_server-Dialled dial o)
        (λ u t d.
          >>=-After (λ v s. Dialled o.handshake s) (LoggedIn crypto entropy password) (secure tls) _
            t (secure-Dialled tls o.handshake t d)
            (λ v s e.
              login-LoggedIn crypto entropy password c _ s e.0 (ap (λ x. x.password) e.1 ∙ p)))

pub open_socket-Ends :
    (crypto : Crypto) (entropy : Bytes) (dial : Dial) (tls : Tls) (h : Handshake)
    → ComparesDigests crypto.digest_test
    → Ends crypto entropy h.password (open_socket crypto entropy dial tls h)
unfolding open_socket
open_socket-Ends crypto entropy dial tls h c =
    handled-Ends crypto entropy h.password _
      (try_open-LoggedIn crypto entropy h.password c dial tls _ refl)
