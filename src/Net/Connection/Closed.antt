-- ===== src/Net/Connection/Closed.antt =====
-- net.py, `class Connection`: a connection that is closed.
use rethinkdb_python.Base.{ℕ, ◌≡◌, true, false, some}
use rethinkdb_python.Base.Exec.{ok, raised, ◌>>=◌}
use rethinkdb_python.Errors.{Exn, reql, driver_error, connection_is_closed}
use rethinkdb_python.Net.Socket.{Socket}
use rethinkdb_python.Net.Query.{QueryType, Optargs}
use rethinkdb_python.Net.World.{Codec, World}
use rethinkdb_python.Net.Fetch.{instance_is_open, closed_error, check_open, post_for}
use rethinkdb_python.Net.Connection.{is_open, ask, start_query}

-- `close` was called, or the instance has lost its socket.
pub data IsClosed {Item V : Type 0} (w : World Item V) : Type 0 where
  detached : w.attached ≡ false → IsClosed w
  socket_lost :
      (s : Socket) → w.attached ≡ true → w.socket ≡ some s → s.is_open ≡ false → IsClosed w

module _ {Item V : Type 0} (codec : Codec Item V) where
  abbrev closed_exn : Exn
  closed_exn = reql driver_error connection_is_closed

  instance_is_open-lost :
      (w : World Item V) (s : Socket)
      → w.socket ≡ some s
      → s.is_open ≡ false
      → instance_is_open codec w ≡ (ok false, w)
  unfolding instance_is_open
  instance_is_open-lost w s h o = rw (h, o)

  check_open-IsClosed :
      (w : World Item V) → IsClosed w → check_open codec w ≡ (raised closed_exn, w)
  unfolding check_open closed_error
  check_open-IsClosed w (detached h) = simp h
  check_open-IsClosed w (socket_lost s a h o) = simp (a, ◌>>=◌, instance_is_open-lost w s h o)

  is_open-IsClosed : (w : World Item V) → IsClosed w → is_open codec w ≡ (ok false, w)
  unfolding is_open
  is_open-IsClosed w (detached h) = simp h
  is_open-IsClosed w (socket_lost s a h o) = simp (a, instance_is_open-lost w s h o)

  -- On a closed connection `is_open` says so; a query, NOREPLY_WAIT, a request for the server's data, and a
  -- CONTINUE or STOP for a cursor all raise the driver error for a closed connection; and none of them
  -- changes anything: no token is taken and nothing is written.
  pub closed_raises :
      (w : World Item V) (term : V) (d : Optargs V) (type : QueryType) (t : ℕ)
      → IsClosed w
      → (is_open codec w ≡ (ok false, w))
        × (start_query codec term d w ≡ (raised (reql driver_error connection_is_closed), w))
        × (ask codec type w ≡ (raised (reql driver_error connection_is_closed), w))
        × (post_for codec type t w ≡ (raised (reql driver_error connection_is_closed), w))
  unfolding start_query ask post_for
  closed_raises w term d type t h =
      let e = check_open-IsClosed w h in (is_open-IsClosed w h, rw e, rw e, rw e)
