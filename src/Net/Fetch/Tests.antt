-- ===== src/Net/Fetch/Tests.antt =====
-- A response on a connection whose socket accepts the request for the next batch.
use rethinkdb_python.Base.{ℕ, refl, true, false, none, some, [], ◌∷◌}
use rethinkdb_python.Base.Integer.{pos}
use rethinkdb_python.Net.Socket.{accept}
use rethinkdb_python.Net.Query.{start, new_query}
use rethinkdb_python.Net.Response.{Response, success_partial, other}
use rethinkdb_python.Net.World.{Codec, Cursor, World}
use rethinkdb_python.Net.Fetch.{extend}
use rethinkdb_python.Net.Fetch.Frame.{Extends, extend_frame}

abbrev items_codec : Codec ℕ ℕ
items_codec = record {
  encode = λ e ps. [];
  decode = λ q b.
      some (record { type = success_partial; items = b; profile = none; error_type = other });
  dummy_response = [];
  text = λ x. "message";
  db_term = λ v. v;
  is_true = λ v. true;
}

abbrev waiting : Cursor ℕ ℕ
waiting = record {
  query = new_query start 5 (some 7) none;
  items = [];
  outstanding_requests = pos 1;
  threshold = 2;
  error = none;
  registered = true;
}

abbrev connected : World ℕ ℕ
connected = record {
  attached = true;
  next_token = 6;
  db = none;
  closing = false;
  header_in_progress = none;
  socket = some (record {
    is_open = true;
    read_buffer = none;
    stream = [];
    arrivals = [];
    departures = accept 12 ∷ [];
    sent = [];
  });
  cursors = [];
}

abbrev three : Response ℕ
three = record { type = success_partial; items = 3 ∷ []; profile = none; error_type = other }

extend_frame_example :
    Extends items_codec connected [] [] waiting three
      (extend items_codec 5 (3 ∷ []) (record connected { cursors = waiting ∷ [] }))
extend_frame_example = extend_frame items_codec connected [] [] waiting (3 ∷ []) three tt refl
