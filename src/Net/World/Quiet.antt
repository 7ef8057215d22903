-- ===== src/Net/World/Quiet.antt =====
-- net.py: actions that make no call of `recv`.
use rethinkdb_python.Base.{
  ℕ, ◌≤◌, ◌≡◌, Bool, true, false, Option, none, some, length, if◌then◌else◌,
}
use rethinkdb_python.Base.Exec.{Outcome, ok, raised, blocked, Exec, feed, ◌>>=◌}
use rethinkdb_python.Errors.{Exn, builtin, attribute_error}
use rethinkdb_python.Net.Socket.{Socket}
use rethinkdb_python.Net.World.{
  Cursor, World, Action, at_cursor, at_socket, find_cursor, replace_cursor,
}

-- A wrapper that keeps no bytes, with at most `k` calls of `recv` left.
abbrev pub Keeps : ℕ → Option Socket → Type 0
Keeps k none = Unit
Keeps k (some s) = (s.read_buffer ≡ none) × (length s.arrivals ≤ k)

-- An action on the socket that makes no call of `recv`.
abbrev pub QuietSocket : {A : Type 0} → Exec Exn Socket A → Type 0
QuietSocket m = (k : ℕ) (s : Socket) → Keeps k (some s) → Keeps k (some (m s).1)

module _ {Item V : Type 0} where
  -- No header is in progress either.
  pub record IsIdle (k : ℕ) (w : World Item V) : Type 0 where
    pub header : w.header_in_progress ≡ none
    pub socket : Keeps k w.socket

  -- The action makes no call of `recv`, however it ends.
  abbrev pub Quiet : {A : Type 0} → Action Item V A → Type 0
  Quiet m = (k : ℕ) (w : World Item V) → IsIdle k w → IsIdle k (m w).1

  feed-IsIdle :
      {A B : Type 0} (k : ℕ) (x : Outcome Exn A × World Item V) (f : A → Action Item V B)
      → ((a : A) → Quiet (f a))
      → IsIdle k x.1
      → IsIdle k (feed x.0 f x.1).1
  feed-IsIdle k (ok a, t) f q i = q a k t i
  feed-IsIdle k (raised e, t) f q i = i
  feed-IsIdle k (blocked, t) f q i = i

  pub >>=-Quiet :
      {A B : Type 0} (m : Action Item V A) (f : A → Action Item V B)
      → Quiet m
      → ((a : A) → Quiet (f a))
      → Quiet (m >>= f)
  >>=-Quiet m f p q k w i = feed-IsIdle k (m w) f q (p k w i)

  pub at_cursor-Quiet :
      {A : Type 0} (t : ℕ) (m : Exec Exn (Cursor Item V) A) → Quiet (at_cursor t m)
  unfolding at_cursor
  at_cursor-Quiet {A} t m k w i = found (find_cursor t w.cursors)
    where
      found :
          (o : Option (Cursor Item V))
          → IsIdle k
              (elim o as (λ x. Outcome Exn A × World Item V) [
                | none ↦ (raised (builtin attribute_error), w)
                | some c ↦ ((m c).0, record w { cursors = replace_cursor t (m c).1 w.cursors })
              ]).1
      found none = i
      found (some c) = record { header = i.header; socket = i.socket }

  with_socket :
      (k : ℕ) (w : World Item V) (o : Option Socket)
      → w.header_in_progress ≡ none
      → Keeps k o
      → IsIdle k (record w { socket = o })
  with_socket k w o h p = record { header = h; socket = p }

  pub at_socket-Quiet : {A : Type 0} (m : Exec Exn Socket A) → QuietSocket m → Quiet (at_socket m)
  unfolding at_socket
  at_socket-Quiet {A} m q k w i = found w.socket i.socket
    where
      found :
          (o : Option Socket)
          → Keeps k o
          → IsIdle k
              (elim o as (λ x. Outcome Exn A × World Item V) [
                | none ↦ (raised (builtin attribute_error), w)
                | some s ↦ ((m s).0, record w { socket = some (m s).1 })
              ]).1
      found none p = i
      found (some s) p = with_socket k w (some (m s).1) i.header (q k s p)

-- What holds of both branches holds of the choice.
pub both_branches :
    {R : Type 0} (P : R → Type 0) (b : Bool) (x y : R) → P x → P y → P (if b then x else y)
both_branches P true x y p q = p
both_branches P false x y p q = q
