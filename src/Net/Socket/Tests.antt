-- ===== src/Net/Socket/Tests.antt =====
-- Runs of `recvall` and `sendall` on small scripts.
use rethinkdb_python.Base.{ℕ, ◌≡◌, refl, true, none, some, List, [], ◌∷◌, ◌++◌, length, arith}
use rethinkdb_python.Base.Struct.{Bytes}
use rethinkdb_python.Base.Exec.{ok, raised}
use rethinkdb_python.Errors.{reql, timeout_error, operation_timed_out}
use rethinkdb_python.Net.Socket.{
  Arrival, deliver, timed_out, Departure, accept, Socket, buffered, recv_loop, recv_round,
  next_round, recvall, sendall,
}
use rethinkdb_python.Net.Socket.Recv.{recvall_exact, recvall_resumes}
use rethinkdb_python.Net.Socket.Progress.{recvall_total}
use rethinkdb_python.Net.Socket.Send.{Writes, sendall-Writes}
use rethinkdb_python.Net.Socket.Faults.{recvall_stale}

-- A socket with six bytes to come.
abbrev server : List Arrival → List Departure → Socket
server arrivals departures = record {
  is_open = true;
  read_buffer = none;
  stream = 10 ∷ 11 ∷ 12 ∷ 13 ∷ 14 ∷ 15 ∷ [];
  arrivals = arrivals;
  departures = departures;
  sent = 1 ∷ [];
}

abbrev chopped : Socket
chopped = server (deliver 2 ∷ deliver 1 ∷ deliver 9 ∷ deliver 9 ∷ []) (accept 1 ∷ accept 5 ∷ [])

abbrev chopped_after : Socket
chopped_after = record chopped { stream = 14 ∷ 15 ∷ []; arrivals = deliver 9 ∷ [] }

chopped_read : recvall 4 chopped ≡ (ok (10 ∷ 11 ∷ 12 ∷ 13 ∷ []), chopped_after)
unfolding recvall recv_loop recv_round next_round
chopped_read = refl

recvall_exact_example :
    (buffered chopped ++ chopped.stream ≡ (10 ∷ 11 ∷ 12 ∷ 13 ∷ []) ++ chopped_after.stream)
    × (length {A = ℕ} (10 ∷ 11 ∷ 12 ∷ 13 ∷ []) ≡ 4)
recvall_exact_example =
    recvall_exact 4 chopped chopped_after (10 ∷ 11 ∷ 12 ∷ 13 ∷ []) (omega arith) chopped_read

sendall-Writes_example : Writes (1 ∷ []) (7 ∷ 8 ∷ 9 ∷ []) (sendall (7 ∷ 8 ∷ 9 ∷ []) chopped)
sendall-Writes_example = sendall-Writes (7 ∷ 8 ∷ 9 ∷ []) chopped

recvall_total_example :
    (bytes : Bytes) × (t : Socket) × (recvall 4 chopped ≡ (ok bytes, t))
    × (buffered chopped ++ chopped.stream ≡ bytes ++ t.stream)
    × (length bytes ≡ 4)
recvall_total_example =
    recvall_total 4 chopped refl (omega arith, (omega arith, (omega arith, (omega arith, tt))))
      (omega arith) (omega arith) (omega arith)

-- Two bytes come, then the deadline passes, and two reads follow.
abbrev slow : Socket
slow = server (deliver 2 ∷ timed_out ∷ deliver 9 ∷ deliver 9 ∷ []) []

abbrev slow_after : Socket
slow_after = record slow {
  read_buffer = some (10 ∷ 11 ∷ []);
  stream = 12 ∷ 13 ∷ 14 ∷ 15 ∷ [];
  arrivals = deliver 9 ∷ deliver 9 ∷ [];
}

abbrev slow_end : Socket
slow_end = record slow_after { stream = 14 ∷ 15 ∷ []; arrivals = deliver 9 ∷ [] }

slow_times_out : recvall 4 slow ≡ (raised (reql timeout_error operation_timed_out), slow_after)
unfolding recvall recv_loop recv_round next_round
slow_times_out = refl

slow_resumes : recvall 4 slow_after ≡ (ok (10 ∷ 11 ∷ 12 ∷ 13 ∷ []), slow_end)
unfolding recvall recv_loop recv_round next_round
slow_resumes = refl

recvall_resumes_example :
    (buffered slow ++ slow.stream ≡ (10 ∷ 11 ∷ 12 ∷ 13 ∷ []) ++ slow_end.stream)
    × (length {A = ℕ} (10 ∷ 11 ∷ 12 ∷ 13 ∷ []) ≡ 4)
recvall_resumes_example =
    recvall_resumes 4 slow slow_after slow_end operation_timed_out (10 ∷ 11 ∷ 12 ∷ 13 ∷ [])
      (omega arith) (tt, (tt, (tt, (tt, tt)))) slow_times_out slow_resumes

recvall_stale_example : recvall 2 slow_end ≡ (ok (10 ∷ 11 ∷ []), slow_end)
recvall_stale_example =
    recvall_stale 4 2 slow_after slow_end (10 ∷ 11 ∷ []) (10 ∷ 11 ∷ 12 ∷ 13 ∷ []) refl refl
      slow_resumes (omega arith)
