-- ===== src/Net/Cursor/Tests.antt =====
-- Runs of a cursor on small streams.
use rethinkdb_python.Base.{ℕ, ◌≡◌, ◌≢◌, refl, true, none, some, List, [], ◌∷◌, ◌++◌, arith}
use rethinkdb_python.Base.Integer.{pos}
use rethinkdb_python.Base.Exec.{raised}
use rethinkdb_python.Errors.{builtin, key_error}
use rethinkdb_python.Net.Query.{start, new_query}
use rethinkdb_python.Net.Response.{Response, ResponseType, success_sequence, success_partial, other}
use rethinkdb_python.Net.World.{Codec, Cursor}
use rethinkdb_python.Net.Cursor.{received}
use rethinkdb_python.Net.Cursor.Stream.{Event, arrives, taken, run, contents, run-contents}
use rethinkdb_python.Net.Cursor.Credit.{IsTracked, left_open, received-IsTracked}
use rethinkdb_python.Net.Cursor.Stall.{IsStalled, received_twice_stalls}

abbrev batch : ResponseType → List ℕ → Response ℕ
batch type items = record { type = type; items = items; profile = none; error_type = other }

-- A codec that reads the bytes of a text as the items of a partial result.
abbrev bytes_codec : Codec ℕ ℕ
bytes_codec = record {
  encode = λ e ps. [];
  decode = λ q b. some (batch success_partial b);
  dummy_response = [];
  text = λ x. "message";
  db_term = λ v. v;
  is_true = λ v. true;
}

-- A cursor that holds two items and has one request open.
abbrev fresh : Cursor ℕ ℕ
fresh = record {
  query = new_query start 5 (some 7) none;
  items = 1 ∷ 2 ∷ [];
  outstanding_requests = pos 1;
  threshold = 2;
  error = none;
  registered = true;
}

abbrev events : List (Event ℕ)
events =
    taken
    ∷ arrives (batch success_partial (3 ∷ 4 ∷ []))
    ∷ taken
    ∷ arrives (batch success_sequence (5 ∷ []))
    ∷ arrives (batch success_sequence (6 ∷ []))
    ∷ []

events-contents : contents bytes_codec none events ≡ 3 ∷ 4 ∷ 5 ∷ []
events-contents = refl

run-contents_example :
    (run bytes_codec events fresh).0 ++ (run bytes_codec events fresh).1.items
    ≡ fresh.items ++ contents bytes_codec fresh.error events
run-contents_example = run-contents bytes_codec events fresh

received-IsTracked_example :
    ((received bytes_codec (batch success_partial (3 ∷ [])) fresh).0 ≢ raised (builtin key_error))
    × ((received bytes_codec (batch success_partial (3 ∷ [])) fresh).1.outstanding_requests
        ≡ pos (left_open bytes_codec fresh 0))
    × IsTracked (received bytes_codec (batch success_partial (3 ∷ [])) fresh).1
received-IsTracked_example =
    received-IsTracked bytes_codec (batch success_partial (3 ∷ [])) fresh 0 refl refl

abbrev drained : Cursor ℕ ℕ
drained = record fresh { items = [] }

received_twice_stalls_example :
    IsStalled
      (received bytes_codec
        (batch success_partial [])
        (received bytes_codec (batch success_partial []) drained).1).1
received_twice_stalls_example =
    received_twice_stalls bytes_codec (batch success_partial []) (batch success_partial []) drained
      refl refl refl (omega arith) (refl, refl) (refl, refl)
