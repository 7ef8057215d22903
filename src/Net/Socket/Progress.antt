-- ===== src/Net/Socket/Progress.antt =====
-- `recvall` returns when the peer delivers.
use rethinkdb_python.Base.{
  ℕ, ◌+◌, ◌-◌, ◌≤◌, ◌<◌, ◌≡◌, refl, true, List, [], ◌∷◌, ◌++◌, arith, min, leb, take, drop, All,
  length, length-append, length-take, length-drop, Bool-cases, inl, inr, leb-false→lt,
}
use rethinkdb_python.Base.Struct.{Bytes}
use rethinkdb_python.Base.Exec.{Outcome, ok}
use rethinkdb_python.Errors.{Exn}
use rethinkdb_python.Net.Socket.{
  Arrival, deliver, Socket, buffered, got, recv_loop, recv_round, next_round, recvall,
}
use rethinkdb_python.Net.Socket.Recv.{recvall_exact}

-- A call of `recv` that hands over what is there, one byte at least.
abbrev pub IsDelivery : Arrival → Type 0
IsDelivery (deliver k) = 0 < k
IsDelivery Arrival.interrupted = ⊥
IsDelivery _ = ⊥

next_round-got :
    (loop : Bytes → Socket → Outcome Exn Bytes × Socket) (res c : Bytes) (t : Socket)
    → 0 < length c
    → next_round loop res (got c t) ≡ loop (res ++ c) t
unfolding next_round
next_round-got loop res [] t h = absurd (omega arith)
next_round-got loop res (b ∷ c) t h = refl

abbrev Returns : Outcome Exn Bytes × Socket → Type 0
Returns o = (bytes : Bytes) × (t : Socket) × (o ≡ (ok bytes, t))

recv_loop-Returns :
    (es : List Arrival) (n : ℕ) (res : Bytes) (s : Socket)
    → All IsDelivery es
    → n ≤ length res + length es
    → n ≤ length res + length s.stream
    → Returns (recv_loop es n res s)
unfolding recv_loop
recv_loop-Returns [] n res s ready calls there =
    let e : leb n (length res) ≡ true = ground arith in rw e (res, _, refl)
recv_loop-Returns (deliver k ∷ es) n res s ready calls there =
    elim (Bool-cases (leb n (length res))) [
      | inl e ↦ rw e (res, _, refl)
      | inr e ↦
          let m : ℕ = min k (n - length res) in
          let c : Bytes = take m s.stream in
          let t : Socket = record s { stream = drop m s.stream; arrivals = es } in
          let wanted : length res < n = leb-false→lt n (length res) e in
          let size : length c ≡ min m (length s.stream) = length-take m s.stream in
          rw e (
            unfold recv_round in
            rw (next_round-got (recv_loop es n) res c t (omega (arith, ready.0))) (
              recv_loop-Returns es n (res ++ c) t ready.1
                (omega (arith, ready.0, length-append res c))
                (omega (arith, length-append res c, length-drop m s.stream))))
    ]
recv_loop-Returns (_ ∷ es) n res s ready calls there = absurd ready.0

-- `recvall` returns, with the first `n` pending bytes, if the socket is open, the buffer holds at
-- most `n` bytes, buffer and stream hold `n` together, and the script has a delivery for each
-- byte that is missing.
pub recvall_total :
    (n : ℕ) (s : Socket)
    → s.is_open ≡ true
    → All IsDelivery s.arrivals
    → length (buffered s) ≤ n
    → n ≤ length (buffered s) + length s.arrivals
    → n ≤ length (buffered s) + length s.stream
    → (bytes : Bytes) × (t : Socket) × (recvall n s ≡ (ok bytes, t))
      × (buffered s ++ s.stream ≡ bytes ++ t.stream)
      × (length bytes ≡ n)
unfolding recvall
recvall_total n s live ready small calls there =
    let (bytes, t, e) = recv_loop-Returns s.arrivals n (buffered s) s ready calls there in
    let back : recvall n s ≡ (ok bytes, t) = simp live e in
    let (split, size) = recvall_exact n s t bytes small back in (bytes, t, back, split, size)
