-- ===== src/Net/Socket/Recv.antt =====
-- `recvall`: what it returns, what it takes off the stream, and what a timeout leaves behind.
use rethinkdb_python.Base.{
  ℕ, ◌-◌, ◌≤◌, ◌≡◌, refl, sym, List, [], ◌∷◌, ◌++◌, append_assoc, arith, min, leb, take, All,
  length, length-append, length-take, take-append-drop, Bool-cases, inl, inr, leb→le,
}
use rethinkdb_python.Base.Struct.{Bytes}
use rethinkdb_python.Base.Exec.{Outcome, ok, raised}
use rethinkdb_python.Errors.{Exn, Message, reql, timeout_error}
use rethinkdb_python.Net.Socket.{
  Arrival, deliver, timed_out, would_block, Socket, buffered, Round, got, again, failed, recv_loop,
  recv_round, next_round, recvall,
}

-- What the client holds of the stream and what is still to come, in order.
abbrev pub pending : Bytes → Socket → Bytes
pending res s = res ++ s.stream

-- A run of the loop that returns has split what was pending at `n`.
abbrev Splits : ℕ → Bytes → Outcome Exn Bytes × Socket → Type 0
Splits n all (ok bytes, s) = (all ≡ bytes ++ s.stream) × (length bytes ≡ n)
Splits n all _ = Unit

-- A round takes its chunk off the front of the stream, and at most what is still wanted.
abbrev RoundSplits : ℕ → Bytes → Bytes → Round → Type 0
RoundSplits n res xs (got c s) = (xs ≡ c ++ s.stream) × (length (res ++ c) ≤ n)
RoundSplits n res xs (again s) = xs ≡ s.stream
RoundSplits n res xs (failed e s) = Unit

recv_round-Splits :
    (a : Arrival) (n : ℕ) (res : Bytes) (s : Socket)
    → length res ≤ n
    → RoundSplits n res s.stream (recv_round a res (n - length res) s)
unfolding recv_round
recv_round-Splits (deliver k) n res s h =
    let m : ℕ = min k (n - length res) in
    (
      sym (take-append-drop m s.stream),
      omega (arith, length-append res (take m s.stream), length-take m s.stream),
    )
recv_round-Splits Arrival.interrupted n res s h = refl
recv_round-Splits _ n res s h = tt

next_round-Splits :
    (n : ℕ) (res : Bytes) (s : Socket) (r : Round)
    (loop : Bytes → Socket → Outcome Exn Bytes × Socket)
    → ((res : Bytes) (t : Socket) → length res ≤ n → Splits n (res ++ t.stream) (loop res t))
    → length res ≤ n
    → RoundSplits n res s.stream r
    → Splits n (res ++ s.stream) (next_round loop res r)
unfolding next_round
next_round-Splits n res s (got [] t) loop ih h (e, l) = tt
next_round-Splits n res s (got (b ∷ c) t) loop ih h (e, l) =
    rw (e, ← append_assoc) (ih (res ++ b ∷ c) t l)
next_round-Splits n res s (again t) loop ih h e = rw e (ih res t h)
next_round-Splits n res s (failed x t) loop ih h e = tt

recv_loop-Splits :
    (es : List Arrival) (n : ℕ) (res : Bytes) (s : Socket)
    → length res ≤ n
    → Splits n (res ++ s.stream) (recv_loop es n res s)
unfolding recv_loop
recv_loop-Splits [] n res s h = elim (Bool-cases (leb n (length res))) [
  | inl e ↦ rw e (refl, omega (arith, leb→le n (length res) e))
  | inr e ↦ rw e tt
]
recv_loop-Splits (a ∷ es) n res s h = elim (Bool-cases (leb n (length res))) [
  | inl e ↦ rw e (refl, omega (arith, leb→le n (length res) e))
  | inr e ↦ rw e (
      next_round-Splits n res s _ (recv_loop es n) (recv_loop-Splits es n) h
        (recv_round-Splits a n res (record s { arrivals = es }) h))
]

recvall-Splits :
    (n : ℕ) (s : Socket) → length (buffered s) ≤ n → Splits n (buffered s ++ s.stream) (recvall n s)
unfolding recvall
recvall-Splits n s h = elim (Bool-cases s.is_open) [
  | inl e ↦ simp e (recv_loop-Splits s.arrivals n (buffered s) s h)
  | inr e ↦ simp e tt
]

-- A `recvall` that returns has cut what was pending, the buffer and then the stream, at `n`: it
-- returns the first `n` bytes, however they were delivered, and the rest is still on the stream.
-- The buffer must hold at most `n` bytes.
pub recvall_exact :
    (n : ℕ) (s t : Socket) (bytes : Bytes)
    → length (buffered s) ≤ n
    → recvall n s ≡ (ok bytes, t)
    → (buffered s ++ s.stream ≡ bytes ++ t.stream) × (length bytes ≡ n)
recvall_exact n s t bytes h returned = rw returned at (recvall-Splits n s h)

-- What a timeout leaves is still pending.
abbrev Resumes : ℕ → Bytes → Outcome Exn Bytes × Socket → Type 0
Resumes n all (raised (reql timeout_error m), t) =
    (all ≡ buffered t ++ t.stream) × (length (buffered t) ≤ n)
Resumes n all _ = Unit

abbrev pub NotWouldBlock : Arrival → Type 0
NotWouldBlock would_block = ⊥
NotWouldBlock _ = Unit

abbrev RoundResumes : ℕ → Bytes → Bytes → Round → Type 0
RoundResumes n res xs (failed e s) = Resumes n (res ++ xs) (raised e, s)
RoundResumes n res xs r = RoundSplits n res xs r

recv_round-Resumes :
    (a : Arrival) (n : ℕ) (res : Bytes) (s : Socket)
    → length res ≤ n
    → NotWouldBlock a
    → RoundResumes n res s.stream (recv_round a res (n - length res) s)
unfolding recv_round
recv_round-Resumes (deliver k) n res s h w = recv_round-Splits (deliver k) n res s h
recv_round-Resumes timed_out n res s h w = (refl, h)
recv_round-Resumes would_block n res s h w = absurd w
recv_round-Resumes Arrival.interrupted n res s h w = refl
recv_round-Resumes _ n res s h w = tt

next_round-Resumes :
    (n : ℕ) (res : Bytes) (s : Socket) (r : Round)
    (loop : Bytes → Socket → Outcome Exn Bytes × Socket)
    → ((res : Bytes) (t : Socket) → length res ≤ n → Resumes n (res ++ t.stream) (loop res t))
    → length res ≤ n
    → RoundResumes n res s.stream r
    → Resumes n (res ++ s.stream) (next_round loop res r)
unfolding next_round
next_round-Resumes n res s (got [] t) loop ih h (e, l) = tt
next_round-Resumes n res s (got (b ∷ c) t) loop ih h (e, l) =
    rw (e, ← append_assoc) (ih (res ++ b ∷ c) t l)
next_round-Resumes n res s (again t) loop ih h e = rw e (ih res t h)
next_round-Resumes n res s (failed x t) loop ih h e = e

recv_loop-Resumes :
    (es : List Arrival) (n : ℕ) (res : Bytes) (s : Socket)
    → length res ≤ n
    → All NotWouldBlock es
    → Resumes n (res ++ s.stream) (recv_loop es n res s)
unfolding recv_loop
recv_loop-Resumes [] n res s h w = elim (Bool-cases (leb n (length res))) [
  | inl e ↦ rw e tt
  | inr e ↦ rw e tt
]
recv_loop-Resumes (a ∷ es) n res s h w = elim (Bool-cases (leb n (length res))) [
  | inl e ↦ rw e tt
  | inr e ↦ rw e (
      next_round-Resumes n res s _ (recv_loop es n) (λ r t l. recv_loop-Resumes es n r t l w.1) h
        (recv_round-Resumes a n res (record s { arrivals = es }) h w.0))
]

recvall-Resumes :
    (n : ℕ) (s : Socket)
    → length (buffered s) ≤ n
    → All NotWouldBlock s.arrivals
    → Resumes n (buffered s ++ s.stream) (recvall n s)
unfolding recvall
recvall-Resumes n s h w = elim (Bool-cases s.is_open) [
  | inl e ↦ simp e (recv_loop-Resumes s.arrivals n (buffered s) s h w)
  | inr e ↦ simp e tt
]

-- A `recvall` that timed out loses nothing: if the same read is made again and returns, it returns
-- the first `n` of the bytes that were pending before the timeout, and leaves the rest. The buffer
-- must hold at most `n` bytes at first, and the timeout must not be an EWOULDBLOCK.
pub recvall_resumes :
    (n : ℕ) (s t u : Socket) (m : Message) (bytes : Bytes)
    → length (buffered s) ≤ n
    → All NotWouldBlock s.arrivals
    → recvall n s ≡ (raised (reql timeout_error m), t)
    → recvall n t ≡ (ok bytes, u)
    → (buffered s ++ s.stream ≡ bytes ++ u.stream) × (length bytes ≡ n)
recvall_resumes n s t u m bytes h w late back =
    let kept : Resumes n (buffered s ++ s.stream) (raised (reql timeout_error m), t) =
      rw late at (recvall-Resumes n s h w) in
    rw kept.0 (recvall_exact n t u bytes kept.1 back)
