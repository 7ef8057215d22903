-- ===== src/Net/Connection/Tests.antt =====
-- A query on a connection whose socket was closed by the server.
use rethinkdb_python.Base.{ℕ, ◌≡◌, refl, true, false, none, some, []}
use rethinkdb_python.Base.Exec.{ok, raised}
use rethinkdb_python.Errors.{reql, driver_error, connection_is_closed}
use rethinkdb_python.Net.Socket.{Socket}
use rethinkdb_python.Net.Query.{noreply_wait}
use rethinkdb_python.Net.World.{Codec, World}
use rethinkdb_python.Net.Fetch.{post_for}
use rethinkdb_python.Net.Connection.{is_open, ask, start_query}
use rethinkdb_python.Net.Connection.Closed.{socket_lost, closed_raises}

abbrev no_codec : Codec ℕ ℕ
no_codec = record {
  encode = λ e ps. [];
  decode = λ q b. none;
  dummy_response = [];
  text = λ x. "message";
  db_term = λ v. v;
  is_true = λ v. true;
}

abbrev shut : Socket
shut = record {
  is_open = false;
  read_buffer = none;
  stream = [];
  arrivals = [];
  departures = [];
  sent = [];
}

abbrev lost : World ℕ ℕ
lost = record {
  attached = true;
  next_token = 6;
  db = none;
  closing = false;
  header_in_progress = none;
  socket = some shut;
  cursors = [];
}

closed_raises_example :
    (is_open no_codec lost ≡ (ok false, lost))
    × (start_query no_codec 7 [] lost ≡ (raised (reql driver_error connection_is_closed), lost))
    × (ask no_codec noreply_wait lost ≡ (raised (reql driver_error connection_is_closed), lost))
    × (post_for no_codec noreply_wait 5 lost
        ≡ (raised (reql driver_error connection_is_closed), lost))
closed_raises_example =
    closed_raises no_codec lost 7 [] noreply_wait 5 (socket_lost shut refl refl refl)
