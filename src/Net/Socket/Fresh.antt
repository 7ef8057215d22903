-- ===== src/Net/Socket/Fresh.antt =====
-- net.py: a call on the socket that returns leaves it open.
use rethinkdb_python.Base.{
  ℕ, suc, ◌≤◌, ◌-◌, ◌≡◌, true, false, none, List, [], ◌∷◌, ◌++◌, length, leb, drop, arith,
}
use rethinkdb_python.Base.Struct.{Bytes}
use rethinkdb_python.Base.Exec.{Outcome}
use rethinkdb_python.Base.After.{After, After-if, After-weaken}
use rethinkdb_python.Errors.{Exn}
use rethinkdb_python.Net.Socket.{
  Arrival, deliver, Departure, accept, Socket, Round, got, again, failed, recv_round, next_round,
  recv_loop, recvall, send_loop, sendall,
}

-- The wrapper as it is between two calls of the login, with `n` calls of `recv` left.
pub record IsFresh (n : ℕ) (s : Socket) : Type 0 where
  pub is_open : s.is_open ≡ true
  pub no_bytes : s.read_buffer ≡ none
  pub left : length s.arrivals ≤ n

abbrev Fresh : ℕ → Bytes → Socket → Type 0
Fresh n _ t = IsFresh n t

-- A round that goes on, or gets a chunk, leaves the wrapper as it was.
abbrev RoundFresh : ℕ → Round → Type 0
RoundFresh n (got c t) = IsFresh n t
RoundFresh n (again t) = IsFresh n t
RoundFresh n (failed e t) = Unit

recv_round-IsFresh :
    (a : Arrival) (res : Bytes) (n k : ℕ) (s : Socket)
    → IsFresh k s
    → RoundFresh k (recv_round a res n s)
unfolding recv_round
recv_round-IsFresh (deliver m) res n k s f = record {
  is_open = f.is_open;
  no_bytes = f.no_bytes;
  left = f.left;
}
recv_round-IsFresh Arrival.interrupted res n k s f = f
recv_round-IsFresh _ res n k s f = tt

next_round-IsFresh :
    (k : ℕ) (res : Bytes) (r : Round) (loop : Bytes → Socket → Outcome Exn Bytes × Socket)
    → ((res : Bytes) (t : Socket) → IsFresh k t → After (Fresh k) (loop res t))
    → RoundFresh k r
    → After (Fresh k) (next_round loop res r)
unfolding next_round
next_round-IsFresh k res (got [] t) loop ih f = tt
next_round-IsFresh k res (got (b ∷ c) t) loop ih f = ih (res ++ b ∷ c) t f
next_round-IsFresh k res (again t) loop ih f = ih res t f
next_round-IsFresh k res (failed e t) loop ih f = tt

pub IsFresh-fewer : (m n : ℕ) (s : Socket) → m ≤ n → IsFresh m s → IsFresh n s
IsFresh-fewer m n s p f = record {
  is_open = f.is_open;
  no_bytes = f.no_bytes;
  left = omega (arith, f.left);
}

with_arrivals :
    (es : List Arrival) (n : ℕ) (s : Socket)
    → IsFresh n s
    → IsFresh (length es) (record s { arrivals = es })
with_arrivals es n s f = record { is_open = f.is_open; no_bytes = f.no_bytes; left = omega arith }

recv_loop-IsFresh :
    (es : List Arrival) (n k : ℕ) (res : Bytes) (s : Socket)
    → IsFresh k s
    → After (Fresh (length es)) (recv_loop es n res s)
unfolding recv_loop
recv_loop-IsFresh [] n k res s f =
    After-if (Fresh 0) (leb n (length res)) _ _ (with_arrivals [] k s f) tt
recv_loop-IsFresh (a ∷ es) n k res s f =
    After-if (Fresh (length (a ∷ es))) (leb n (length res)) _ _ (with_arrivals (a ∷ es) k s f) (
      After-weaken (Fresh (length es)) (Fresh (length (a ∷ es))) _
        (λ b t g. IsFresh-fewer (length es) (length (a ∷ es)) t (omega arith) g)
        (next_round-IsFresh (length es) res _ (recv_loop es n)
          (λ r t g. recv_loop-IsFresh es n (length es) r t g)
          (recv_round-IsFresh a res _ (length es) _ (with_arrivals es k s f))))

-- A loop that wants some bytes calls `recv` at least once.
recv_loop_calls :
    (es : List Arrival) (n k : ℕ) (s : Socket)
    → IsFresh k s
    → After (Fresh (length es - 1)) (recv_loop es (suc n) [] s)
unfolding recv_loop
recv_loop_calls [] n k s f =
    After-if (Fresh (0 - 1)) (leb (suc n) 0) _ _
      (IsFresh-fewer 0 (0 - 1) _ (omega arith) (with_arrivals [] k s f)) tt
recv_loop_calls (a ∷ es) n k s f =
    let shorter : length es ≤ length (a ∷ es) - 1 = omega arith in
    let wanted : leb (suc n) 0 ≡ false = ground arith in
    rw wanted (
      After-weaken (Fresh (length es)) (Fresh (length (a ∷ es) - 1)) _
        (λ b t g. IsFresh-fewer (length es) (length (a ∷ es) - 1) t shorter g)
        (next_round-IsFresh (length es) [] _ (recv_loop es (suc n))
          (λ r t g. recv_loop-IsFresh es (suc n) (length es) r t g)
          (recv_round-IsFresh a [] _ (length es) _ (with_arrivals es k s f))))

-- A `recvall` for some bytes that returns leaves the wrapper as it was, with one call of `recv` fewer.
pub recvall-IsFresh :
    (n k : ℕ) (s : Socket) → IsFresh (suc k) s → After (λ b t. IsFresh k t) (recvall (suc n) s)
unfolding recvall
recvall-IsFresh n k s f =
    simp (f.is_open, f.no_bytes)
      (After-weaken (Fresh (length s.arrivals - 1)) (Fresh k) _
        (λ b t g. IsFresh-fewer (length s.arrivals - 1) k t (omega (arith, f.left)) g)
        (recv_loop_calls s.arrivals n (suc k) s f))

send_loop-IsFresh :
    (ds : List Departure) (left : Bytes) (k : ℕ) (s : Socket)
    → IsFresh k s
    → After (λ u t. IsFresh k t) (send_loop ds left s)
unfolding send_loop
send_loop-IsFresh ds [] k s f = record { is_open = f.is_open; no_bytes = f.no_bytes; left = f.left }
send_loop-IsFresh [] (b ∷ bytes) k s f = tt
send_loop-IsFresh (accept m ∷ ds) (b ∷ bytes) k s f =
    send_loop-IsFresh ds (drop m (b ∷ bytes)) k _
      (record { is_open = f.is_open; no_bytes = f.no_bytes; left = f.left })
send_loop-IsFresh (Departure.interrupted ∷ ds) (b ∷ bytes) k s f =
    send_loop-IsFresh ds (b ∷ bytes) k s f
send_loop-IsFresh (Departure.connection_reset ∷ ds) (b ∷ bytes) k s f = tt
send_loop-IsFresh (Departure.io_error ∷ ds) (b ∷ bytes) k s f = tt
send_loop-IsFresh (Departure.other_error ∷ ds) (b ∷ bytes) k s f = tt
send_loop-IsFresh (Departure.base_exception ∷ ds) (b ∷ bytes) k s f = tt

pub sendall-IsFresh :
    (bytes : Bytes) (k : ℕ) (s : Socket)
    → IsFresh k s
    → After (λ u t. IsFresh k t) (sendall bytes s)
unfolding sendall
sendall-IsFresh bytes k s f = simp f.is_open (send_loop-IsFresh s.departures bytes k s f)

recv_loop_waits :
    (es : List Arrival) (n : ℕ) (s : Socket)
    → length es ≤ 0
    → After (λ b t. ⊥) (recv_loop es (suc n) [] s)
unfolding recv_loop
recv_loop_waits [] n s l = let wanted : leb (suc n) 0 ≡ false = ground arith in rw wanted tt
recv_loop_waits (a ∷ es) n s l = absurd (omega arith)

-- With no call of `recv` left, a `recvall` for some bytes does not return.
pub recvall_waits : (n : ℕ) (s : Socket) → IsFresh 0 s → After (λ b t. ⊥) (recvall (suc n) s)
unfolding recvall
recvall_waits n s f = simp (f.is_open, f.no_bytes) (recv_loop_waits s.arrivals n s f.left)

-- A `recvall` of any length that returns leaves the wrapper as it was.
pub recvall_any-IsFresh :
    (n k : ℕ) (s : Socket) → IsFresh k s → After (λ b t. IsFresh k t) (recvall n s)
unfolding recvall
recvall_any-IsFresh n k s f =
    simp (f.is_open, f.no_bytes)
      (After-weaken (Fresh (length s.arrivals)) (Fresh k) _
        (λ b t g. IsFresh-fewer (length s.arrivals) k t f.left g)
        (recv_loop-IsFresh s.arrivals n k [] s f))
