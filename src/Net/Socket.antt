-- ===== src/Net/Socket.antt =====
-- net.py, `class SocketWrapper`: `recvall`, `sendall`, `close` and `is_open`.
-- The environment is a script: `stream` is what the server has still to send, each call of `recv`
-- takes one entry of `arrivals`, and each call of `send` one of `departures`. A deadline shows only in
-- that a script may hold `timed_out` or `would_block`. A script that has run out is a call that waits
-- for ever.
pub mod Recv
pub mod Progress
pub mod Faults
pub mod Send
pub mod Fresh
mod Tests
use rethinkdb_python.Base.{
  ℕ, ◌-◌, Bool, true, false, Option, none, some, List, [], ◌∷◌, ◌++◌, min, ltb, leb, take, drop,
  length, if◌then◌else◌,
}
use rethinkdb_python.Base.Struct.{Bytes}
use rethinkdb_python.Base.Exec.{Outcome, ok, raised, blocked, Exec}
use rethinkdb_python.Errors.{
  Exn, reql, builtin, attribute_error, keyboard_interrupt, driver_error, timeout_error,
  connection_is_closed, operation_timed_out, interrupted_receiving, error_receiving,
  interrupted_sending, error_sending,
}

-- What one `recv` does. `deliver k` hands over at most `k` bytes, and none means that the peer has
-- shut its side. The others are the exceptions that `recvall` tells apart, EINTR among them.
pub data Arrival : Type 0 where
  deliver : ℕ → Arrival
  timed_out would_block interrupted connection_reset io_error other_error : Arrival

-- What one `send` does. `accept k` takes at most `k` bytes.
pub data Departure : Type 0 where
  accept : ℕ → Departure
  interrupted connection_reset io_error other_error base_exception : Departure

pub record Socket : Type 0 where
  pub is_open : Bool
  pub read_buffer : Option Bytes
  pub stream : Bytes
  pub arrivals : List Arrival
  pub departures : List Departure
  pub sent : Bytes

-- A failure to shut the socket down is logged, and `_socket` is `None` in any case.
abbrev pub close : Socket → Socket
close s = record s { is_open = false }

-- How one round of `while True` ends: `break` with a chunk, the next round, or a raise.
pub data Round : Type 0 where
  got : Bytes → Socket → Round
  again : Socket → Round
  failed : Exn → Socket → Round

-- The call of `recv` for at most `n` more bytes, and its handlers; `res` is what has been read.
unfoldable pub recv_round : Arrival → Bytes → ℕ → Socket → Round
recv_round (deliver k) res n s =
    got (take (min k n) s.stream) (record s { stream = drop (min k n) s.stream })
recv_round timed_out res n s =
    failed (reql timeout_error operation_timed_out) (record s { read_buffer = some res })
recv_round would_block res n s = failed (reql timeout_error operation_timed_out) s
recv_round Arrival.interrupted res n s = again s
recv_round Arrival.connection_reset res n s =
    failed (reql driver_error connection_is_closed) (close s)
recv_round Arrival.io_error res n s = failed (reql driver_error interrupted_receiving) s
recv_round Arrival.other_error res n s = failed (reql driver_error error_receiving) (close s)

-- After a round: an empty chunk closes the socket, any other is added to `res`.
unfoldable pub next_round :
    (Bytes → Socket → Outcome Exn Bytes × Socket) → Bytes → Round → Outcome Exn Bytes × Socket
next_round loop res (got [] s) = (raised (reql driver_error connection_is_closed), close s)
next_round loop res (got (b ∷ chunk) s) = loop (res ++ b ∷ chunk) s
next_round loop res (again s) = loop res s
next_round loop res (failed e s) = (raised e, s)

-- `while len(res) < length`, with a round for each arrival.
unfoldable pub recv_loop : List Arrival → ℕ → Bytes → Socket → Outcome Exn Bytes × Socket
unfolding recv_round next_round
recv_loop [] n res s =
    let s' : Socket = record s { arrivals = [] } in
    if leb n (length res) then (ok res, s') else (blocked, s')
recv_loop (a ∷ es) n res s =
    let out =
      next_round (recv_loop es n) res
        (recv_round a res (n - length res) (record s { arrivals = es })) in
    if leb n (length res) then (ok res, record s { arrivals = a ∷ es }) else out

abbrev pub or_empty : Option Bytes → Bytes
or_empty none = []
or_empty (some b) = b

-- `b"" if self._read_buffer is None else self._read_buffer`
abbrev pub buffered : Socket → Bytes
buffered s = or_empty s.read_buffer

-- `settimeout` on a socket that is `None` raises before the first `recv`.
unfoldable pub recvall : ℕ → Exec Exn Socket Bytes
recvall n s =
    if s.is_open
    then recv_loop s.arrivals n (buffered s) s
    else (raised (builtin attribute_error), s)

-- `left` is `data[offset:]`. On a socket that is `None` the call of `send` raises AttributeError,
-- which is an `Exception`.
unfoldable pub send_loop : List Departure → Bytes → Socket → Outcome Exn (Unit {0}) × Socket
send_loop ds [] s = (ok tt, record s { departures = ds })
send_loop [] (b ∷ left) s = (blocked, record s { departures = [] })
send_loop (accept k ∷ ds) (b ∷ left) s =
    send_loop ds (drop k (b ∷ left)) (record s { sent = s.sent ++ take k (b ∷ left) })
send_loop (Departure.interrupted ∷ ds) (b ∷ left) s = send_loop ds (b ∷ left) s
send_loop (Departure.connection_reset ∷ ds) (b ∷ left) s =
    (raised (reql driver_error connection_is_closed), record s { is_open = false; departures = ds })
send_loop (Departure.io_error ∷ ds) (b ∷ left) s =
    (raised (reql driver_error interrupted_sending), record s { is_open = false; departures = ds })
send_loop (Departure.other_error ∷ ds) (b ∷ left) s =
    (raised (reql driver_error error_sending), record s { is_open = false; departures = ds })
send_loop (Departure.base_exception ∷ ds) (b ∷ left) s =
    (raised (builtin keyboard_interrupt), record s { is_open = false; departures = ds })

unfoldable pub sendall : Bytes → Exec Exn Socket (Unit {0})
sendall bytes s =
    if s.is_open
    then send_loop s.departures bytes s
    else (if ltb 0 (length bytes)
        then (raised (reql driver_error error_sending), s)
        else (ok tt, s))
