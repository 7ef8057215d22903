-- ===== src/Net/Instance/Rounds.antt =====
-- net.py, `_read_response`: the rounds that the loop is given are enough.
use rethinkdb_python.Base.{
  ℕ, subst, sym, zero, suc, ◌+◌, ◌<◌, ◌≡◌, refl, true, Bool-cases, inl, inr, Option, none, some,
  length, arith,
}
use rethinkdb_python.Base.Struct.{Bytes}
use rethinkdb_python.Base.Integer.{ℤ}
use rethinkdb_python.Base.Exec.{Outcome, ok, raised, blocked, pure, modify, ◌>>=◌, ◌>>◌}
use rethinkdb_python.Base.After.{After, After-weaken, >>=-After, feed_cong}
use rethinkdb_python.Errors.{Exn, builtin, attribute_error}
use rethinkdb_python.Net.Socket.{Socket, recvall}
use rethinkdb_python.Net.Socket.Fresh.{IsFresh, recvall-IsFresh, recvall_waits, recvall_any-IsFresh}
use rethinkdb_python.Net.Query.{Query, unpack_header}
use rethinkdb_python.Net.Response.{Response}
use rethinkdb_python.Net.World.{Codec, World, Action, at_socket, of_outcome}
use rethinkdb_python.Net.World.Quiet.{Keeps, IsIdle}
use rethinkdb_python.Net.Instance.{
  read_header, read_frame, dispatch, read_rounds, rounds, read_response,
}
use rethinkdb_python.Net.Instance.Quiet.{dispatch-Quiet}

-- An open wrapper that keeps no bytes.
fresh : (k : ℕ) (s : Socket) → s.is_open ≡ true → Keeps k (some s) → IsFresh k s
fresh k s e p = record { is_open = e; no_bytes = p.0; left = p.1 }

-- On a wrapper that is closed a `recvall` raises, so it is enough to know what it does on an open one.
recvall_open :
    (P : Bytes → Socket → Type 0) (n : ℕ) (s : Socket)
    → (s.is_open ≡ true → After P (recvall n s))
    → After P (recvall n s)
unfolding recvall
recvall_open P n s f = elim (Bool-cases s.is_open) [ inl e ↦ f e | inr e ↦ simp e tt ]

recvall-Keeps :
    (n k : ℕ) (s : Socket) → Keeps k (some s) → After (λ b t. Keeps k (some t)) (recvall n s)
recvall-Keeps n k s p =
    recvall_open (λ b t. Keeps k (some t)) n s
      (λ e.
        After-weaken (λ b t. IsFresh k t) (λ b t. Keeps k (some t)) (recvall n s)
          (λ b t g. (g.no_bytes, g.left)) (recvall_any-IsFresh n k s (fresh k s e p)))

recvall_fewer :
    (n k : ℕ) (s : Socket)
    → Keeps (suc k) (some s)
    → After (λ b t. Keeps k (some t)) (recvall (suc n) s)
recvall_fewer n k s p =
    recvall_open (λ b t. Keeps k (some t)) (suc n) s
      (λ e.
        After-weaken (λ b t. IsFresh k t) (λ b t. Keeps k (some t)) (recvall (suc n) s)
          (λ b t g. (g.no_bytes, g.left)) (recvall-IsFresh n k s (fresh (suc k) s e p)))

recvall_never : (n : ℕ) (s : Socket) → Keeps 0 (some s) → After (λ b t. ⊥) (recvall (suc n) s)
recvall_never n s p = recvall_open (λ b t. ⊥) (suc n) s (λ e. recvall_waits n s (fresh 0 s e p))

module _ {Item V : Type 0} where
  -- `recvall` as an action of the instance, which has a socket or raises.
  at_recvall :
      (P : Bytes → World Item V → Type 0) (n : ℕ) (w : World Item V)
      → ((s : Socket)
          → w.socket ≡ some s
          → After (λ b t. P b (record w { socket = some t })) (recvall n s))
      → After P (at_socket (recvall n) w)
  unfolding at_socket
  at_recvall P n w f = found w.socket f
    where
      moved :
          (x : Outcome Exn Bytes × Socket)
          → After (λ b t. P b (record w { socket = some t })) x
          → After P (x.0, record w { socket = some x.1 })
      moved (ok b, t) p = p
      moved (raised e, t) p = tt
      moved (blocked, t) p = tt

      found :
          (o : Option Socket)
          → ((s : Socket)
              → o ≡ some s
              → After (λ b t. P b (record w { socket = some t })) (recvall n s))
          → After P (elim o as (λ x. Outcome Exn Bytes × World Item V) [
            | none ↦ (raised (builtin attribute_error), w)
            | some s ↦ ((recvall n s).0, record w { socket = some (recvall n s).1 })
          ])
      found none g = tt
      found (some s) g = moved (recvall n s) (g s refl)

  of_outcome-After :
      {A : Type 0} (P : World Item V → Type 0) (o : Outcome Exn A) (w : World Item V)
      → P w
      → After (λ a t. P t) (of_outcome o w)
  of_outcome-After P (ok a) w p = p
  of_outcome-After P (raised e) w p = tt
  of_outcome-After P blocked w p = tt

  -- What holds however an action ends holds when it returns.
  After-always :
      {A : Type 0} (P : World Item V → Type 0) (x : Outcome Exn A × World Item V)
      → P x.1
      → After (λ a t. P t) x
  After-always P (ok a, t) p = p
  After-always P (raised e, t) p = tt
  After-always P (blocked, t) p = tt

module _ {Item V : Type 0} (codec : Codec Item V) where
  abbrev Holds : ℕ → World Item V → Type 0
  Holds k w = Keeps k w.socket

  -- A header that is not in progress is read by `recvall`.
  header_from :
      (P : ℤ × ℕ → World Item V → Type 0) (w : World Item V)
      → w.header_in_progress ≡ none
      → After P (
          (do
            h ← at_socket (recvall 12)
            modify (λ w. record w { header_in_progress = some h })
            of_outcome (unpack_header h))
            w)
      → After P (read_header codec w)
  unfolding read_header
  header_from P w e p = found w.header_in_progress e
    where
      found :
          (o : Option Bytes)
          → o ≡ none
          → After P (elim o as (λ x. Outcome Exn (ℤ × ℕ) × World Item V) [
            | some h ↦ (unpack_header h, w)
            | none ↦
                (do
                  h ← at_socket (recvall 12)
                  modify (λ w. record w { header_in_progress = some h })
                  of_outcome (unpack_header h))
                  w
          ])
      found none e = p
      found (some h) e = cc

  -- A header that is read takes a call of `recv`.
  read_header_fewer :
      (k : ℕ) (w : World Item V) → IsIdle (suc k) w → After (λ h t. Holds k t) (read_header codec w)
  read_header_fewer k w i =
      header_from (λ h t. Holds k t) w i.header
        (>>=-After (λ b t. Holds k t) (λ h t. Holds k t) (at_socket (recvall 12)) _ w
          (at_recvall (λ b t. Holds k t) 12 w
            (λ s e. recvall_fewer 11 k s (subst (Keeps (suc k)) e i.socket)))
          (λ h t p.
            of_outcome-After (Holds k) (unpack_header h) (record t { header_in_progress = some h })
              p))

  read_header_never : (w : World Item V) → IsIdle 0 w → After (λ h t. ⊥) (read_header codec w)
  read_header_never w i =
      header_from (λ h t. ⊥) w i.header
        (>>=-After (λ b t. ⊥) (λ h t. ⊥) (at_socket (recvall 12)) _ w
          (at_recvall (λ b t. ⊥) 12 w (λ s e. recvall_never 11 s (subst (Keeps 0) e i.socket)))
          (λ h t p. absurd p))

  read_frame_fewer :
      (k : ℕ) (w : World Item V) → IsIdle (suc k) w → After (λ f t. IsIdle k t) (read_frame codec w)
  unfolding read_frame
  read_frame_fewer k w i =
      >>=-After (λ h t. Holds k t) (λ f t. IsIdle k t) (read_header codec) _ w
        (read_header_fewer k w i)
        (λ h t p.
          >>=-After (λ b u. Holds k u) (λ f u. IsIdle k u) (at_socket (recvall h.1)) _ t
            (at_recvall (λ b u. Holds k u) h.1 t
              (λ s e. recvall-Keeps h.1 k s (subst (Keeps k) e p)))
            (λ b u q. record { header = refl; socket = q }))

  read_frame_never : (w : World Item V) → IsIdle 0 w → After (λ f t. ⊥) (read_frame codec w)
  unfolding read_frame
  read_frame_never w i =
      >>=-After (λ h t. ⊥) (λ f t. ⊥) (read_header codec) _ w (read_header_never w i)
        (λ h t p. absurd p)

  read_rounds_fuel :
      (m n k : ℕ) (q : Query V) (w : World Item V)
      → IsIdle k w
      → k < m
      → k < n
      → read_rounds codec m q w ≡ read_rounds codec n q w
  unfolding read_rounds
  read_rounds_fuel zero n k q w i a b = absurd (omega arith)
  read_rounds_fuel (suc m) zero k q w i a b = absurd (omega arith)
  read_rounds_fuel (suc m) (suc n) zero q w i a b =
      feed_cong (read_frame codec w) _ _
        (After-weaken (λ f t. ⊥) _ (read_frame codec w) (λ f t e. absurd e) (read_frame_never w i))
  read_rounds_fuel (suc m) (suc n) (suc k) q w i a b = feed_cong (read_frame codec w) _ _ (
      After-weaken (λ f t. IsIdle k t) _ (read_frame codec w)
        (λ frame t j. feed_cong (dispatch codec q frame.0 frame.1 t) _ _ (
          After-weaken (λ out u. IsIdle k u) _ (dispatch codec q frame.0 frame.1 t)
            (λ out u idle.
              elim out
                as (λ o.
                  (elim o as (λ x. Action Item V (Option (Response Item))) [
                    | none ↦ read_rounds codec m q
                    | some r ↦ pure r
                  ])
                    u
                  ≡ (elim o as (λ x. Action Item V (Option (Response Item))) [
                    | none ↦ read_rounds codec n q
                    | some r ↦ pure r
                  ])
                      u) [
                        | none ↦ read_rounds_fuel m n k q u idle (omega arith) (omega arith)
                        | some r ↦ refl
                      ])
            (After-always (IsIdle k) (dispatch codec q frame.0 frame.1 t)
              (dispatch-Quiet codec q frame.0 frame.1 k t j))))
        (read_frame_fewer k w i))

  -- `_read_response` ends without running out of rounds: with more rounds than the script has calls of
  -- `recv` the loop does the same whatever their number. The conditions are that no header is in
  -- progress, and that the wrapper keeps no bytes of a read that timed out.
  pub read_response_fuel :
      (n : ℕ) (q : Query V) (w : World Item V) (s : Socket)
      → w.header_in_progress ≡ none
      → w.socket ≡ some s
      → s.read_buffer ≡ none
      → length s.arrivals < n
      → read_rounds codec n q w ≡ read_response codec q w
  unfolding read_response
  read_response_fuel n q w s h e b l =
      let idle : IsIdle (length s.arrivals) w = record {
        header = h;
        socket = subst (Keeps (length s.arrivals)) (sym e) (b, omega arith);
      } in
      let enough : length s.arrivals + 2 ≡ rounds codec w =
        subst
          (λ o.
            length s.arrivals + 2
            ≡ elim o as (λ x. ℕ) [ none ↦ 2 | some t ↦ length t.arrivals + 2 ])
          (sym e) refl in
      read_rounds_fuel n (rounds codec w) (length s.arrivals) q w idle l (omega arith)
