-- ===== src/Net/Open/Rounds.antt =====
-- net.py, `SocketWrapper.__init__`: the rounds of the login, on a socket that stays open.
use rethinkdb_python.Base.{
  ℕ, zero, suc, ◌+◌, ◌<◌, ◌≡◌, refl, Bool-cases, inl, inr, [], ◌∷◌, ◌++◌, length, arith,
}
use rethinkdb_python.Base.Struct.{Bytes}
use rethinkdb_python.Base.After.{After, After-weaken, >>=-After, feed_cong}
use rethinkdb_python.Net.Socket.{Socket, recvall}
use rethinkdb_python.Net.Socket.Fresh.{
  IsFresh, IsFresh-fewer, recvall-IsFresh, recvall_waits, sendall-IsFresh,
}
use rethinkdb_python.Net.Open.{is_end, read_text, read_null_terminated, send_request}

-- A reading that returns leaves the wrapper as it was.
pub read_text-IsFresh :
    (n k : ℕ) (response : Bytes) (s : Socket)
    → IsFresh k s
    → After (λ b t. IsFresh k t) (read_text n response s)
unfolding read_text
read_text-IsFresh zero k response s f = tt
read_text-IsFresh (suc n) zero response s f =
    >>=-After (λ b t. ⊥) (λ b t. IsFresh 0 t) (recvall 1) _ s (recvall_waits 0 s f)
      (λ char t e. absurd e)
read_text-IsFresh (suc n) (suc k) response s f =
    >>=-After (λ b t. IsFresh k t) (λ b t. IsFresh (suc k) t) (recvall 1) _ s
      (recvall-IsFresh 0 k s f)
      (λ char t g. elim (Bool-cases (is_end char)) [
        | inl e ↦ rw e (IsFresh-fewer k (suc k) t (omega arith) g)
        | inr e ↦ rw e (
            read_text-IsFresh n (suc k) (response ++ char) t
              (IsFresh-fewer k (suc k) t (omega arith) g))
      ])

pub read_text_fuel :
    (m n k : ℕ) (response : Bytes) (s : Socket)
    → IsFresh k s
    → k < m
    → k < n
    → read_text m response s ≡ read_text n response s
unfolding read_text
read_text_fuel zero n k response s f p q = absurd (omega arith)
read_text_fuel (suc m) zero k response s f p q = absurd (omega arith)
read_text_fuel (suc m) (suc n) zero response s f p q =
    feed_cong (recvall 1 s) _ _
      (After-weaken (λ b t. ⊥) _ (recvall 1 s) (λ b t e. absurd e) (recvall_waits 0 s f))
read_text_fuel (suc m) (suc n) (suc k) response s f p q = feed_cong (recvall 1 s) _ _ (
    After-weaken (λ b t. IsFresh k t) _ (recvall 1 s)
      (λ char t g. elim (Bool-cases (is_end char)) [
        | inl e ↦ rw e refl
        | inr e ↦ rw e (read_text_fuel m n k (response ++ char) t g (omega arith) (omega arith))
      ])
      (recvall-IsFresh 0 k s f))

pub send_request-IsFresh :
    (q : Bytes) (k : ℕ) (s : Socket) → IsFresh k s → After (λ u t. IsFresh k t) (send_request q s)
send_request-IsFresh [] k s f = f
send_request-IsFresh (b ∷ q) k s f = sendall-IsFresh (b ∷ q) k s f

pub read_null_terminated-IsFresh :
    (k : ℕ) (s : Socket) → IsFresh k s → After (λ b t. IsFresh k t) (read_null_terminated s)
unfolding read_null_terminated
read_null_terminated-IsFresh k s f = read_text-IsFresh (length s.arrivals + 1) k [] s f
