-- ===== src/Net/Instance/Tests.antt =====
-- `_read_response` on a socket with one call of `recv` left.
use rethinkdb_python.Base.{ℕ, ◌≡◌, refl, arith, true, false, none, some, [], ◌∷◌}
use rethinkdb_python.Net.Socket.{Socket, deliver}
use rethinkdb_python.Net.Query.{Query, noreply_wait, new_query}
use rethinkdb_python.Net.World.{Codec, World}
use rethinkdb_python.Net.Instance.{read_rounds, read_response}
use rethinkdb_python.Net.Instance.Rounds.{read_response_fuel}

abbrev no_codec : Codec ℕ ℕ
no_codec = record {
  encode = λ e ps. [];
  decode = λ q b. none;
  dummy_response = [];
  text = λ x. "message";
  db_term = λ v. v;
  is_true = λ v. true;
}

abbrev half_read : Socket
half_read = record {
  is_open = true;
  read_buffer = none;
  stream = 1 ∷ 0 ∷ [];
  arrivals = deliver 2 ∷ [];
  departures = [];
  sent = [];
}

abbrev connected : World ℕ ℕ
connected = record {
  attached = true;
  next_token = 1;
  db = none;
  closing = false;
  header_in_progress = none;
  socket = some half_read;
  cursors = [];
}

abbrev waiting_query : Query ℕ
waiting_query = new_query noreply_wait 0 none none

read_response_fuel_example :
    read_rounds no_codec 7 waiting_query connected ≡ read_response no_codec waiting_query connected
read_response_fuel_example =
    read_response_fuel no_codec 7 waiting_query connected half_read refl refl refl (omega arith)
