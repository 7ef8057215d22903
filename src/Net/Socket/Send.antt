-- ===== src/Net/Socket/Send.antt =====
-- `sendall`: every byte once and in order, or a closed socket.
use rethinkdb_python.Base.{
  suc, ◌≤◌, ◌<◌, ◌≡◌, refl, ◌∙◌, sym, true, false, List, [], ◌∷◌, ◌++◌, append_assoc, append-nil,
  arith, ltb, take, drop, All, length, length-drop, take-append-drop, Bool-cases, inl, inr,
  if◌then◌else◌,
}
use mathlib.Core.Path.{subst}
use rethinkdb_python.Base.Struct.{Bytes}
use rethinkdb_python.Base.Exec.{Outcome, ok, raised, blocked}
use rethinkdb_python.Errors.{Exn, reql, driver_error, error_sending}
use rethinkdb_python.Net.Socket.{Departure, accept, Socket, send_loop, sendall}

-- How a call that had `bytes` to write ends, from a socket that had sent `before`.
abbrev pub Writes : Bytes → Bytes → Outcome Exn (Unit {0}) × Socket → Type 0
Writes before bytes (ok _, t) = t.sent ≡ before ++ bytes
Writes before bytes (raised _, t) =
    (part : Bytes) × (left : Bytes) × (bytes ≡ part ++ left)
    × (t.sent ≡ before ++ part)
    × (t.is_open ≡ false)
Writes before bytes (blocked, t) =
    (part : Bytes) × (left : Bytes) × (bytes ≡ part ++ left) × (t.sent ≡ before ++ part)

-- A call for what is left, after `part` was accepted.
Writes-after :
    (before part left : Bytes) (o : Outcome Exn (Unit {0}) × Socket)
    → Writes (before ++ part) left o
    → Writes before (part ++ left) o
Writes-after before part left (ok _, t) h = h ∙ append_assoc before part left
Writes-after before part left (raised _, t) (p, l, e, w, c) =
    (part ++ p, l, rw e (sym (append_assoc part p l)), w ∙ append_assoc before part p, c)
Writes-after before part left (blocked, t) (p, l, e, w) =
    (part ++ p, l, rw e (sym (append_assoc part p l)), w ∙ append_assoc before part p)

send_loop-Writes :
    (ds : List Departure) (left : Bytes) (s : Socket) → Writes s.sent left (send_loop ds left s)
unfolding send_loop
send_loop-Writes ds [] s = rw append-nil
send_loop-Writes [] (b ∷ left) s = ([], b ∷ left, refl, rw append-nil)
send_loop-Writes (accept k ∷ ds) (b ∷ left) s =
    let rest = send_loop ds (drop k (b ∷ left)) (record s { sent = s.sent ++ take k (b ∷ left) }) in
    subst (λ x. Writes s.sent x rest) (take-append-drop k (b ∷ left))
      (Writes-after s.sent (take k (b ∷ left)) (drop k (b ∷ left)) rest
        (send_loop-Writes ds (drop k (b ∷ left)) _))
send_loop-Writes (Departure.interrupted ∷ ds) (b ∷ left) s = send_loop-Writes ds (b ∷ left) s
send_loop-Writes (Departure.connection_reset ∷ ds) (b ∷ left) s =
    ([], b ∷ left, refl, rw append-nil, refl)
send_loop-Writes (Departure.io_error ∷ ds) (b ∷ left) s = ([], b ∷ left, refl, rw append-nil, refl)
send_loop-Writes (Departure.other_error ∷ ds) (b ∷ left) s =
    ([], b ∷ left, refl, rw append-nil, refl)
send_loop-Writes (Departure.base_exception ∷ ds) (b ∷ left) s =
    ([], b ∷ left, refl, rw append-nil, refl)

Writes-closed :
    (xs : Bytes) (s : Socket)
    → s.is_open ≡ false
    → Writes s.sent xs
        (if ltb 0 (length xs) then (raised (reql driver_error error_sending), s) else (ok tt, s))
Writes-closed [] s e = rw append-nil
Writes-closed (x ∷ xs) s e =
    let some_left : ltb 0 (suc (length xs)) ≡ true = ground arith in
    rw some_left ([], x ∷ xs, refl, rw append-nil, e)

-- `sendall` writes every byte once and in order when it returns. When it raises it has written a
-- prefix of them and has closed the socket; if it never returns it has written a prefix.
pub sendall-Writes : (bytes : Bytes) (s : Socket) → Writes s.sent bytes (sendall bytes s)
unfolding sendall
sendall-Writes bytes s = elim (Bool-cases s.is_open) [
  | inl e ↦ simp e (send_loop-Writes s.departures bytes s)
  | inr e ↦ simp e (Writes-closed bytes s e)
]

-- A call of `send` that takes some bytes.
abbrev pub IsProgress : Departure → Type 0
IsProgress (accept k) = 0 < k
IsProgress _ = ⊥

send_loop_total :
    (ds : List Departure) (left : Bytes) (s : Socket)
    → All IsProgress ds
    → length left ≤ length ds
    → (t : Socket) × (send_loop ds left s ≡ (ok tt, t))
unfolding send_loop
send_loop_total ds [] s ready enough = (record s { departures = ds }, refl)
send_loop_total [] (b ∷ left) s ready enough = absurd (omega arith)
send_loop_total (accept k ∷ ds) (b ∷ left) s ready enough =
    send_loop_total ds (drop k (b ∷ left)) _ ready.1
      (omega (arith, ready.0, length-drop k (b ∷ left)))
send_loop_total (Departure.interrupted ∷ ds) (b ∷ left) s ready enough = absurd ready.0
send_loop_total (Departure.connection_reset ∷ ds) (b ∷ left) s ready enough = absurd ready.0
send_loop_total (Departure.io_error ∷ ds) (b ∷ left) s ready enough = absurd ready.0
send_loop_total (Departure.other_error ∷ ds) (b ∷ left) s ready enough = absurd ready.0
send_loop_total (Departure.base_exception ∷ ds) (b ∷ left) s ready enough = absurd ready.0

-- `sendall` returns, with all of `bytes` written once and in order, if the socket is open, the script
-- has at least as many calls of `send` as there are bytes, and each takes some.
pub sendall_total :
    (bytes : Bytes) (s : Socket)
    → s.is_open ≡ true
    → All IsProgress s.departures
    → length bytes ≤ length s.departures
    → (t : Socket) × (sendall bytes s ≡ (ok tt, t)) × (t.sent ≡ s.sent ++ bytes)
unfolding sendall
sendall_total bytes s live ready enough =
    let (t, e) = send_loop_total s.departures bytes s ready enough in
    (t, simp live e, rw e at (send_loop-Writes s.departures bytes s))
