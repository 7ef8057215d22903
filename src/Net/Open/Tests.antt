-- ===== src/Net/Open/Tests.antt =====
-- A connection to a server that is honest, by way of a network that splits its messages.
use rethinkdb_python.Base.{◌≡◌, refl, arith, true, none, [], ◌∷◌}
use rethinkdb_python.Base.Text.{codes}
use rethinkdb_python.Handshake.State.{reset}
use rethinkdb_python.Handshake.Sample.{toy}
use rethinkdb_python.Net.Socket.{Socket, deliver}
use rethinkdb_python.Net.Open.Sample.{user}
use rethinkdb_python.Net.Open.{no_socket, read_text, read_null_terminated, login_rounds, login}
use rethinkdb_python.Net.Open.Fuel.{login_fuel}
use rethinkdb_python.Net.Open.Ends.{Ends}

abbrev half : Socket
half = record no_socket { is_open = true; stream = codes "a"; arrivals = deliver 1 ∷ [] }

login_fuel_example :
    (read_text 7 [] half ≡ read_null_terminated half)
    × (login_rounds toy (codes "n") 9 none (record { handshake = reset user; socket = half })
        ≡ login toy (codes "n") (record { handshake = user; socket = half }))
login_fuel_example =
    login_fuel toy (codes "n") 7 9 half (record { handshake = user; socket = half }) refl refl
      (omega arith) (omega arith)
