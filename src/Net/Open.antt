-- ===== src/Net/Open.antt =====
-- net.py, `SocketWrapper.__init__`: the connection to the server, TLS, and the login.
-- What `create_connection` and the TLS library do is given by `Dial` and `Tls`.
pub mod Lift
pub mod Rounds
pub mod Fuel
pub mod Sound
pub mod Ends
pub mod Sample
mod Tests
use rethinkdb_python.Base.{
  ℕ, zero, suc, ◌+◌, Bool, true, false, ◌||◌, Option, none, some, List, [], ◌∷◌, ◌++◌, length,
  if◌then◌else◌,
}
use rethinkdb_python.Base.Struct.{Bytes}
use rethinkdb_python.Base.Exec.{
  Outcome, ok, raised, blocked, Exec, pure, raise, block, skip, feed, ◌>>=◌, ◌>>◌,
}
use rethinkdb_python.Errors.{
  Exn, reql, builtin, Message, ErrorClass, Builtin, is_instance, driver_error, auth_error,
  timeout_error, keyboard_interrupt, socket_timeout, os_error, certificate_error, key_error,
  ssl_handshake_failed, operation_timed_out, could_not_connect, during_handshake,
}
use rethinkdb_python.Handshake.State.{Crypto, Handshake, reset}
use rethinkdb_python.Handshake.{Request, next_message}
use rethinkdb_python.Net.Socket
use rethinkdb_python.Net.Socket.{Arrival, Departure, Socket, recvall, sendall}

-- What `create_connection` and `setsockopt` do. A connection comes with what the server will send, and
-- with the script of its calls.
pub data Dial : Type 0 where
  answered : Bytes → List Arrival → List Departure → Dial
  timed_out refused interrupted : Dial

-- What the TLS library does, where `ssl` is not empty: the exceptions are an IOError of `wrap_socket`, a
-- CertificateError of `match_hostname`, and the KeyError of an `ssl` without `ca_certs`.
pub data Tls : Type 0 where
  plain accepted failed bad_certificate no_certificates : Tls

pub record Opening : Type 0 where
  pub handshake : Handshake
  pub socket : Socket

-- The fields of the wrapper before there is a connection.
abbrev pub no_socket : Socket
no_socket = record {
  is_open = false;
  read_buffer = none;
  stream = [];
  arrivals = [];
  departures = [];
  sent = [];
}

abbrev pub on_handshake : {A : Type 0} → Exec Exn Handshake A → Exec Exn Opening A
on_handshake m o = ((m o.handshake).0, record o { handshake = (m o.handshake).1 })

abbrev pub on_socket : {A : Type 0} → Exec Exn Socket A → Exec Exn Opening A
on_socket m o = ((m o.socket).0, record o { socket = (m o.socket).1 })

unfoldable pub dial_server : Dial → Exec Exn Opening (Unit {0})
dial_server (answered stream arrivals departures) o = (
  ok tt,
  record o {
    socket = record {
      is_open = true;
      read_buffer = none;
      stream = stream;
      arrivals = arrivals;
      departures = departures;
      sent = [];
    };
  },
)
dial_server Dial.timed_out o = (raised (builtin socket_timeout), o)
dial_server refused o = (raised (builtin os_error), o)
dial_server Dial.interrupted o = (raised (builtin keyboard_interrupt), o)

unfoldable pub secure : Tls → Exec Exn Opening (Unit {0})
secure plain o = (ok tt, o)
secure accepted o = (ok tt, o)
secure failed o =
    (raised (reql driver_error ssl_handshake_failed), record o { socket = Socket.close o.socket })
secure bad_certificate o =
    (raised (builtin certificate_error), record o { socket = Socket.close o.socket })
secure no_certificates o = (raised (builtin key_error), o)

-- `char == b"\0"`
abbrev pub is_end : Bytes → Bool
is_end (zero ∷ []) = true
is_end _ = false

-- At most `n` characters of a response, after `response`.
unfoldable pub read_text : ℕ → Bytes → Exec Exn Socket Bytes
read_text zero response = block
read_text (suc n) response = do
  char ← recvall 1
  if is_end char then pure response else read_text n (response ++ char)

-- A character for each call of `recv` that the script has, and one more.
unfoldable pub read_null_terminated : Exec Exn Socket Bytes
read_null_terminated s = read_text (length s.arrivals + 1) [] s

-- `if request != "": self.sendall(request)`
abbrev pub send_request : Bytes → Exec Exn Socket (Unit {0})
send_request [] = skip
send_request (b ∷ request) = sendall (b ∷ request)

-- A round of the loop of the login, after its message; `next` is the rest of the loop.
unfoldable pub after_message :
    (Option Bytes → Exec Exn Opening (Unit {0})) → Request → Exec Exn Opening (Unit {0})
after_message next none = pure tt
after_message next (some request) = do
  on_socket (send_request request)
  response ← on_socket read_null_terminated
  next (some response)

module _ (crypto : Crypto) (entropy : Bytes) where
  -- At most `n` rounds.
  unfoldable pub login_rounds : ℕ → Option Bytes → Exec Exn Opening (Unit {0})
  login_rounds zero response = block
  login_rounds (suc n) response =
      on_handshake (next_message crypto entropy response) >>= after_message (login_rounds n)

  -- The login: a message for each state of the handshake, and one more.
  unfoldable pub login : Exec Exn Opening (Unit {0})
  login o = login_rounds 5 none (record o { handshake = reset o.handshake })

  -- The `try` block.
  unfoldable pub try_open : Dial → Tls → Exec Exn Opening (Unit {0})
  try_open dial tls = do dial_server dial; secure tls; login

-- What the handlers raise for a `ReqlError`.
unfoldable pub reql_handler : ErrorClass → Message → Exn
reql_handler c m =
    if is_instance c auth_error || is_instance c timeout_error
    then reql c m
    else if is_instance c driver_error
    then reql driver_error (during_handshake m)
    else reql driver_error could_not_connect

-- What the handlers raise, where they catch. A KeyboardInterrupt is no `Exception`.
unfoldable pub handler : Exn → Option Exn
handler (reql c m) = some (reql_handler c m)
handler (builtin socket_timeout) = some (reql timeout_error operation_timed_out)
handler (builtin keyboard_interrupt) = none
handler (builtin _) = some (reql driver_error could_not_connect)

unfoldable pub close_opening : Opening → Opening
close_opening o = record o { socket = Socket.close o.socket }

-- The `except` clauses.
unfoldable pub handled : Outcome Exn (Unit {0}) × Opening → Outcome Exn (Unit {0}) × Opening
handled (raised e, o) = elim (handler e) [
  | none ↦ (raised e, o)
  | some f ↦ (raised f, close_opening o)
]
handled (ok u, o) = (ok u, o)
handled (blocked, o) = (blocked, o)

-- `SocketWrapper(parent, timeout)`, with the handshake of the connection.
unfoldable pub open_socket :
    Crypto → Bytes → Dial → Tls → Handshake → Outcome Exn (Unit {0}) × Opening
open_socket crypto entropy dial tls h =
    handled (try_open crypto entropy dial tls (record { handshake = h; socket = no_socket }))
