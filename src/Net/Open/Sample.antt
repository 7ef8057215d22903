-- ===== src/Net/Open/Sample.antt =====
-- A server that is honest, behind a network that splits its messages, for the tests.
use rethinkdb_python.Base.{ℕ, zero, suc, List, [], ◌∷◌, ◌++◌}
use rethinkdb_python.Base.Struct.{Bytes}
use rethinkdb_python.Base.Text.{codes}
use rethinkdb_python.Handshake.State.{Handshake, new_handshake}
use rethinkdb_python.Handshake.Sample.{digest}
use rethinkdb_python.Net.Socket.{Arrival, deliver, accept}
use rethinkdb_python.Net.Open.{Dial, answered}

abbrev pub calls : ℕ → List Arrival
calls zero = []
calls (suc n) = deliver 1 ∷ calls n

abbrev pub server : Bytes
server = codes "{}" ++ (0 ∷ codes "r=nx,s=salt,i=1") ++ (0 ∷ codes "v=") ++ digest ++ (0 ∷ [])

abbrev pub dial : Dial
dial =
    answered server (Arrival.interrupted ∷ calls 60)
      (accept 2 ∷ accept 100 ∷ accept 100 ∷ accept 100 ∷ [])

abbrev pub user : Handshake
user = new_handshake (codes "u") (codes "p")
