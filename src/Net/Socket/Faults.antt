-- ===== src/Net/Socket/Faults.antt =====
-- `recvall`: two ways in which a read that timed out spoils what comes after it.
use rethinkdb_python.Base.{
  ℕ, zero, suc, ◌-◌, ◌≤◌, ◌<◌, ◌≡◌, refl, ap, ◌∙◌, true, false, some, List, [], ◌∷◌, ◌++◌, arith,
  min, leb, take, drop, length, length-take, Bool-cases, inl, inr,
}
use mathlib.Core.Path.{subst}
use rethinkdb_python.Base.Struct.{Bytes}
use rethinkdb_python.Base.Exec.{Outcome, ok, raised, blocked}
use rethinkdb_python.Errors.{Exn, reql, timeout_error, operation_timed_out}
use rethinkdb_python.Net.Socket.{
  Arrival, deliver, would_block, Socket, or_empty, buffered, Round, got, again, failed, recv_loop,
  recv_round, next_round, recvall,
}

-- A read that returns leaves the buffer and the socket as they were.
abbrev Leaves : Socket → Outcome Exn Bytes × Socket → Type 0
Leaves s (ok bytes, t) = (t.read_buffer ≡ s.read_buffer) × (t.is_open ≡ s.is_open)
Leaves s _ = Unit

abbrev RoundLeaves : Socket → Round → Type 0
RoundLeaves s (got c t) = (t.read_buffer ≡ s.read_buffer) × (t.is_open ≡ s.is_open)
RoundLeaves s (again t) = (t.read_buffer ≡ s.read_buffer) × (t.is_open ≡ s.is_open)
RoundLeaves s (failed e t) = Unit

recv_round-Leaves :
    (a : Arrival) (n : ℕ) (res : Bytes) (s : Socket) → RoundLeaves s (recv_round a res n s)
unfolding recv_round
recv_round-Leaves (deliver k) n res s = (refl, refl)
recv_round-Leaves Arrival.interrupted n res s = (refl, refl)
recv_round-Leaves _ n res s = tt

Leaves-trans :
    (s t : Socket) (o : Outcome Exn Bytes × Socket)
    → (t.read_buffer ≡ s.read_buffer) × (t.is_open ≡ s.is_open)
    → Leaves t o
    → Leaves s o
Leaves-trans s t (ok bytes, u) e h = (h.0 ∙ e.0, h.1 ∙ e.1)
Leaves-trans s t (raised x, u) e h = tt
Leaves-trans s t (blocked, u) e h = tt

next_round-Leaves :
    (s : Socket) (res : Bytes) (r : Round) (loop : Bytes → Socket → Outcome Exn Bytes × Socket)
    → ((res : Bytes) (t : Socket) → Leaves t (loop res t))
    → RoundLeaves s r
    → Leaves s (next_round loop res r)
unfolding next_round
next_round-Leaves s res (got [] t) loop ih h = tt
next_round-Leaves s res (got (b ∷ c) t) loop ih h = Leaves-trans s t _ h (ih (res ++ b ∷ c) t)
next_round-Leaves s res (again t) loop ih h = Leaves-trans s t _ h (ih res t)
next_round-Leaves s res (failed e t) loop ih h = tt

recv_loop-Leaves :
    (es : List Arrival) (n : ℕ) (res : Bytes) (s : Socket) → Leaves s (recv_loop es n res s)
unfolding recv_loop
recv_loop-Leaves [] n res s = elim (Bool-cases (leb n (length res))) [
  | inl e ↦ rw e (refl, refl)
  | inr e ↦ rw e tt
]
recv_loop-Leaves (a ∷ es) n res s = elim (Bool-cases (leb n (length res))) [
  | inl e ↦ rw e (refl, refl)
  | inr e ↦ rw e (
      next_round-Leaves s res _ (recv_loop es n) (recv_loop-Leaves es n)
        (recv_round-Leaves a (n - length res) res (record s { arrivals = es })))
]

-- With enough in hand the loop makes no call.
recv_loop_done :
    (es : List Arrival) (n : ℕ) (res : Bytes) (s : Socket)
    → n ≤ length res
    → recv_loop es n res s ≡ (ok res, record s { arrivals = es })
unfolding recv_loop
recv_loop_done [] n res s h = let e : leb n (length res) ≡ true = ground arith in rw e
recv_loop_done (a ∷ es) n res s h = let e : leb n (length res) ≡ true = ground arith in rw e

recvall_open :
    (n : ℕ) (s : Socket) → s.is_open ≡ true → recvall n s ≡ recv_loop s.arrivals n (buffered s) s
unfolding recvall
recvall_open n s e = simp e

recvall-Leaves : (n : ℕ) (s : Socket) → s.is_open ≡ true → Leaves s (recvall n s)
unfolding recvall
recvall-Leaves n s e = simp e (recv_loop-Leaves s.arrivals n (buffered s) s)

recvall_done :
    (k : ℕ) (t : Socket)
    → t.is_open ≡ true
    → k ≤ length (buffered t)
    → recvall k t ≡ (ok (buffered t), t)
unfolding recvall
recvall_done k t live short = simp live (recv_loop_done t.arrivals k (buffered t) t short)

-- The buffer is not emptied by the read that uses it. After a timeout has left `b` in it, and the
-- read of `n` bytes was completed on the open socket, every later read of at most `length b` bytes returns `b` again
-- and takes nothing off the stream.
pub recvall_stale :
    (n k : ℕ) (s t : Socket) (b bytes : Bytes)
    → s.is_open ≡ true
    → s.read_buffer ≡ some b
    → recvall n s ≡ (ok bytes, t)
    → k ≤ length b
    → recvall k t ≡ (ok b, t)
recvall_stale n k s t b bytes live held returned short =
    let kept : Leaves s (ok bytes, t) = rw returned at (recvall-Leaves n s live) in
    let same : buffered t ≡ b = ap or_empty (kept.0 ∙ held) in
    let enough : k ≤ length (buffered t) = omega (arith, ap length same) in
    subst (λ x. recvall k t ≡ (ok x, t)) same (recvall_done k t (kept.1 ∙ live) enough)

recv_loop_loses :
    (k n : ℕ) (es : List Arrival) (s : Socket) (xs : Bytes)
    → s.stream ≡ xs
    → 0 < k
    → k < n
    → k ≤ length xs
    → recv_loop (deliver k ∷ would_block ∷ es) n [] s ≡ (
      raised (reql timeout_error operation_timed_out),
      record s { stream = drop k xs; arrivals = es },
    )
unfolding recv_loop recv_round next_round
recv_loop_loses zero n es s xs e pos more there = absurd (omega arith)
recv_loop_loses (suc j) n es s [] e pos more there = absurd (omega arith)
recv_loop_loses (suc j) n es s (b ∷ bs) e pos more there =
    let m : min (suc j) (n - 0) ≡ suc j = omega arith in
    let first : leb n 0 ≡ false = ground arith in
    let second : leb n (suc (length (take j bs))) ≡ false = ground (arith, length-take j bs) in
    simp (first, m, e, second)

-- An EWOULDBLOCK loses what the call has read. From an empty buffer, if `k` bytes arrive, fewer than the
-- `n` that are wanted, and then nothing, the call raises a timeout, those bytes are gone from the
-- stream, and the buffer is as it was.
pub recvall_would_block :
    (n k : ℕ) (s : Socket) (es : List Arrival)
    → s.is_open ≡ true
    → buffered s ≡ []
    → s.arrivals ≡ deliver k ∷ would_block ∷ es
    → 0 < k
    → k < n
    → k ≤ length s.stream
    → recvall n s ≡ (
      raised (reql timeout_error operation_timed_out),
      record s { stream = drop k s.stream; arrivals = es },
    )
recvall_would_block n k s es live clean script pos more there =
    recvall_open n s live
    ∙ simp (clean, script) (recv_loop_loses k n es s s.stream refl pos more there)
