-- ===== src/Asyncio/Tests.antt =====
-- A connection for asyncio with two queries that wait.
use rethinkdb_python.Base.{ℕ, ◌≡◌, refl, true, false, none, some, [], ◌∷◌}
use rethinkdb_python.Base.Struct.{Bytes, from_le}
use rethinkdb_python.Base.Integer.{pos}
use rethinkdb_python.Base.Exec.{ok, ◌>>◌}
use rethinkdb_python.Errors.{builtin, incomplete_read_error, connection_is_closed_by}
use rethinkdb_python.Net.Query.{start, noreply_wait, new_query, unpack_header}
use rethinkdb_python.Net.Response.{Response, nothing, wait_complete, other}
use rethinkdb_python.Net.World.{Codec, Cursor}
use rethinkdb_python.Asyncio.State.{
  cancelled, result, UserQuery, Instance, waiting, update_query, at_cursor,
}
use rethinkdb_python.Asyncio.Reader.{
  readexactly, start_header, read_header, read_frame, dispatch, read_round,
}
use rethinkdb_python.Asyncio.Run.{arrives, ends, reads, takes, closes, run}
use rethinkdb_python.Asyncio.Settled.{Evolves}
use rethinkdb_python.Asyncio.Settled.Steps.{given}
use rethinkdb_python.Asyncio.Settled.Runs.{run-Evolves}
use rethinkdb_python.Asyncio.Order.{waited, responses_commute}
use rethinkdb_python.Asyncio.Cursor.{fetch_from, fetch_next, get_next}
use rethinkdb_python.Asyncio.Ahead.{Foretold, fetch_next-Foretold}
use rethinkdb_python.Asyncio.Closed.{IsShut, read_round-IsShut}
use rethinkdb_python.Asyncio.Closed.Cancelled.{cancelled-IsShut}
use rethinkdb_python.Asyncio.Closed.Lost.{Keeps, read_one_ended, lost_while_closing}

abbrev done : Response ℕ
done = record { type = wait_complete; items = []; profile = none; error_type = other }

abbrev codec : Codec ℕ ℕ
codec = record {
  encode = λ e ps. [];
  decode = λ q b. some done;
  dummy_response = [];
  text = λ x. "message";
  db_term = λ v. v;
  is_true = λ v. true;
}

abbrev ask : ℕ → UserQuery ℕ ℕ
ask t = waiting (new_query noreply_wait t none none)

abbrev connected : Instance ℕ ℕ
connected = record {
  attached = true;
  closing = false;
  reading = true;
  header = none;
  input = [];
  at_end = false;
  sent = [];
  writer_closed = false;
  tasks = [];
  cursors = [];
  queries = ask 3 ∷ ask 4 ∷ [];
}

-- The header of an empty response with token 3.
abbrev frame : Bytes
frame = 3 ∷ 0 ∷ 0 ∷ 0 ∷ 0 ∷ 0 ∷ 0 ∷ 0 ∷ 0 ∷ 0 ∷ 0 ∷ 0 ∷ []

run-Evolves_example :
    Evolves connected.queries
      (run codec (arrives frame ∷ reads ∷ closes ∷ ends ∷ reads ∷ []) connected).queries
run-Evolves_example =
    run-Evolves codec (arrives frame ∷ reads ∷ closes ∷ ends ∷ reads ∷ []) connected

responses_commute_example :
    ((dispatch codec (pos 3) [] >> dispatch codec (pos 4) []) connected ≡ (
      ok tt,
      record connected {
        queries =
            update_query 3
              (given (result nothing))
              (update_query 4 (given (result nothing)) connected.queries);
      },
    ))
    × ((dispatch codec (pos 4) [] >> dispatch codec (pos 3) []) connected
        ≡ (dispatch codec (pos 3) [] >> dispatch codec (pos 4) []) connected)
responses_commute_example =
    responses_commute codec 3 4 (ask 3) (ask 4) [] [] (result nothing) (result nothing) connected
      refl
      (record {
        response = done;
        no_cursor = refl;
        found = refl;
        decoded = refl;
        says = waited refl refl;
      })
      (record {
        response = done;
        no_cursor = refl;
        found = refl;
        decoded = refl;
        says = waited refl refl;
      })
      refl refl

-- A cursor that has one item.
abbrev cursor : Cursor ℕ ℕ
cursor = record {
  query = new_query start 5 none none;
  items = 8 ∷ [];
  outstanding_requests = pos 0;
  threshold = 1;
  error = none;
  registered = true;
}

fetch_next-Foretold_example :
    Foretold codec connected [] [] true cursor
      (get_next codec 5 (fetch_next codec 5 (record connected { cursors = cursor ∷ [] })).1)
unfolding fetch_from fetch_next at_cursor
fetch_next-Foretold_example = fetch_next-Foretold codec connected [] [] cursor true tt refl

-- The server has gone, while two queries wait.
abbrev ended : Instance ℕ ℕ
ended = record connected { at_end = true }

read_round-IsShut_example :
    IsShut connection_is_closed_by connected.queries (read_round codec ended).1
read_round-IsShut_example =
    read_round-IsShut codec ended ended (builtin incomplete_read_error) (λ q. (done, refl)) refl
      (read_one_ended codec ended refl refl refl) refl tt ((λ e. cc), ((λ e. cc), tt))

-- The user has cancelled the query with token 3, whose answer is there.
abbrev given_up : Instance ℕ ℕ
given_up = record connected {
  input = frame;
  queries = record (ask 3) { future = cancelled } ∷ ask 4 ∷ [];
}

given_up_frame : read_frame given_up ≡ (ok (pos 3, []), record given_up { input = [] })
unfolding read_frame read_header start_header readexactly unpack_header from_le
given_up_frame = refl

cancelled-IsShut_example :
    IsShut connection_is_closed_by given_up.queries (read_round codec given_up).1
cancelled-IsShut_example =
    cancelled-IsShut codec given_up (record given_up { input = [] }) 3
      (record (ask 3) { future = cancelled }) [] (result nothing) (λ q. (done, refl)) refl
      given_up_frame
      (record {
        response = done;
        no_cursor = refl;
        found = refl;
        decoded = refl;
        says = waited refl refl;
      })
      refl refl tt ((λ e. cc), ((λ e. cc), tt))

-- `close` waits for the answer to its NOREPLY_WAIT, and the server goes.
abbrev closing_down : Instance ℕ ℕ
closing_down = record ended { closing = true; queries = ask 4 ∷ [] }

lost_while_closing_example :
    Keeps closing_down (run codec (reads ∷ takes 3 ∷ reads ∷ []) closing_down)
lost_while_closing_example =
    lost_while_closing codec closing_down (takes 3 ∷ reads ∷ []) refl refl refl refl refl
      (tt, (tt, tt))
