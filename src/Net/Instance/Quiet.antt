-- ===== src/Net/Instance/Quiet.antt =====
-- net.py: what a response does to a cursor, or to the instance, makes no call of `recv`.
use rethinkdb_python.Base.{
  ℕ, refl, Bool, true, false, Option, none, some, List, [], ◌∷◌, length, ltb, drop, is_some,
  if◌then◌else◌,
}
use rethinkdb_python.Base.Struct.{Bytes}
use rethinkdb_python.Base.Integer.{ℤ}
use rethinkdb_python.Base.Exec.{Outcome, ok, raised, modify, skip, when, unless, gets, pure, ◌>>◌}
use rethinkdb_python.Errors.{
  Exn, reql, runtime_error, connection_is_closed, Message, builtin, attribute_error, value_error,
}
use rethinkdb_python.Net.Socket
use rethinkdb_python.Net.Socket.{Departure, accept, Socket, send_loop, sendall}
use rethinkdb_python.Net.Query.{QueryType, continue, Query, serialize}
use rethinkdb_python.Net.Response.{Response}
use rethinkdb_python.Net.World.{Codec, World, Action, at_cursor, at_socket, of_outcome}
use rethinkdb_python.Net.World.Quiet.{
  Keeps, IsIdle, Quiet, QuietSocket, >>=-Quiet, at_cursor-Quiet, at_socket-Quiet, both_branches,
}
use rethinkdb_python.Net.Fetch.{
  instance_is_open, closed_error, check_open, post, post_for, maybe_fetch_batch, parse_response,
  extend, cursor_error,
}
use rethinkdb_python.Net.Cursor.{
  wants_batch, count_request, uncount_request, set_error, extend_internal,
}
use rethinkdb_python.Net.Instance.{
  error_each, begin_close, end_close, close_now, dispatch_other, dispatch, is_token, cached_token,
  registered_tokens, unregister_all,
}

send_loop-Keeps :
    (ds : List Departure) (left : Bytes) (k : ℕ) (s : Socket)
    → Keeps k (some s)
    → Keeps k (some (send_loop ds left s).1)
unfolding send_loop
send_loop-Keeps ds [] k s p = p
send_loop-Keeps [] (b ∷ bytes) k s p = p
send_loop-Keeps (accept m ∷ ds) (b ∷ bytes) k s p = send_loop-Keeps ds (drop m (b ∷ bytes)) k _ p
send_loop-Keeps (Departure.interrupted ∷ ds) (b ∷ bytes) k s p =
    send_loop-Keeps ds (b ∷ bytes) k s p
send_loop-Keeps (Departure.connection_reset ∷ ds) (b ∷ bytes) k s p = p
send_loop-Keeps (Departure.io_error ∷ ds) (b ∷ bytes) k s p = p
send_loop-Keeps (Departure.other_error ∷ ds) (b ∷ bytes) k s p = p
send_loop-Keeps (Departure.base_exception ∷ ds) (b ∷ bytes) k s p = p

sendall-Quiet : (bytes : Bytes) → QuietSocket (sendall bytes)
unfolding sendall
sendall-Quiet bytes k s p =
    both_branches (λ (x : Outcome Exn (Unit {0}) × Socket). Keeps k (some x.1)) s.is_open _ _
      (send_loop-Keeps s.departures bytes k s p)
      (both_branches (λ (x : Outcome Exn (Unit {0}) × Socket). Keeps k (some x.1))
        (ltb 0 (length bytes)) _ _ p p)

module _ {Item V : Type 0} where
  of_outcome-Quiet : {A : Type 0} (o : Outcome Exn A) → Quiet {Item = Item} {V = V} (of_outcome o)
  of_outcome-Quiet o k w i = i

  when-Quiet : (b : Bool) (m : Action Item V (Unit {0})) → Quiet m → Quiet (when b m)
  when-Quiet true m q k w i = q k w i
  when-Quiet false m q k w i = i

  unless-Quiet : (b : Bool) (m : Action Item V (Unit {0})) → Quiet m → Quiet (unless b m)
  unless-Quiet true m q k w i = i
  unless-Quiet false m q k w i = q k w i

module _ {Item V : Type 0} (codec : Codec Item V) where
  instance_is_open-Quiet : Quiet (instance_is_open codec)
  unfolding instance_is_open
  instance_is_open-Quiet k w i = found w.socket
    where
      found :
          (o : Option Socket)
          → IsIdle k
              (elim o as (λ x. Outcome Exn Bool × World Item V) [
                | none ↦ (raised (builtin attribute_error), w)
                | some s ↦ (ok s.is_open, w)
              ]).1
      found none = i
      found (some s) = i

  closed_error-Quiet : (b : Bool) → Quiet (closed_error codec b)
  unfolding closed_error
  closed_error-Quiet true k w i = i
  closed_error-Quiet false k w i = i

  check_open-Quiet : Quiet (check_open codec)
  unfolding check_open
  check_open-Quiet k w i =
      both_branches (λ (x : Outcome Exn (Unit {0}) × World Item V). IsIdle k x.1) w.attached _ _
        (>>=-Quiet (instance_is_open codec) (closed_error codec) instance_is_open-Quiet
          closed_error-Quiet k w i)
        (closed_error-Quiet false k w i)

  post-Quiet : (q : Query V) → Quiet (post codec q)
  unfolding post
  post-Quiet q = >>=-Quiet (at_socket skip) _ (at_socket-Quiet skip (λ k s p. p)) (λ u.
      >>=-Quiet (of_outcome (serialize (codec.encode q.json_encoder) q)) _
        (of_outcome-Quiet (serialize (codec.encode q.json_encoder) q))
        (λ bytes. at_socket-Quiet (sendall bytes) (sendall-Quiet bytes)))

  post_for-Quiet : (type : QueryType) (t : ℕ) → Quiet (post_for codec type t)
  unfolding post_for
  post_for-Quiet type t = >>=-Quiet (check_open codec) _ check_open-Quiet (λ u. post-Quiet _)

  maybe_fetch_batch-Quiet : (t : ℕ) → Quiet (maybe_fetch_batch codec t)
  unfolding maybe_fetch_batch
  maybe_fetch_batch-Quiet t =
      >>=-Quiet (at_cursor t (gets wants_batch)) _ (at_cursor-Quiet t (gets wants_batch)) (λ wanted.
        when-Quiet wanted _ (
          >>=-Quiet (at_cursor t count_request) _ (at_cursor-Quiet t count_request)
            (λ u. post_for-Quiet continue t)))

  parse_response-Quiet : (q : Query V) (buf : Bytes) → Quiet (parse_response codec q buf)
  unfolding parse_response
  parse_response-Quiet q buf k w i = found (codec.decode q buf)
    where
      found :
          (o : Option (Response Item))
          → IsIdle k
              (elim o as (λ x. Outcome Exn (Response Item) × World Item V) [
                | none ↦ (raised (builtin value_error), w)
                | some res ↦ (ok res, w)
              ]).1
      found none = i
      found (some res) = i

  extend-Quiet : (t : ℕ) (buf : Bytes) → Quiet (extend codec t buf)
  unfolding extend
  extend-Quiet t buf =
      >>=-Quiet (at_cursor t uncount_request) _ (at_cursor-Quiet t uncount_request) (λ u.
        >>=-Quiet (maybe_fetch_batch codec t) _ (maybe_fetch_batch-Quiet t) (λ v.
          >>=-Quiet (at_cursor t (gets (λ c. c.query))) _ (at_cursor-Quiet t (gets (λ c. c.query)))
            (λ q.
              >>=-Quiet (parse_response codec q buf) _ (parse_response-Quiet q buf)
                (λ res. at_cursor-Quiet t (extend_internal codec res)))))

  cursor_error-Quiet : (m : Message) (t : ℕ) → Quiet (cursor_error codec m t)
  unfolding cursor_error
  cursor_error-Quiet m t =
      >>=-Quiet (at_cursor t (gets (λ c. is_some c.error))) _ (at_cursor-Quiet t _) (λ has_error.
        unless-Quiet has_error _ (
          >>=-Quiet (at_cursor t (set_error (reql runtime_error m))) _ (at_cursor-Quiet t _)
            (λ u. extend-Quiet t codec.dummy_response)))

  error_each-Quiet : (ts : List ℕ) → Quiet (error_each codec ts)
  unfolding error_each
  error_each-Quiet [] k w i = i
  error_each-Quiet (t ∷ ts) k w i =
      >>=-Quiet (cursor_error codec connection_is_closed t) _
        (cursor_error-Quiet connection_is_closed t) (λ u. error_each-Quiet ts) k w i

  begin_close-Quiet : Quiet (begin_close codec)
  unfolding begin_close
  begin_close-Quiet k w i =
      >>=-Quiet (error_each codec (registered_tokens w.cursors))
        (λ v. modify (λ w. record w { cursors = unregister_all w.cursors }))
        (error_each-Quiet (registered_tokens w.cursors))
        (λ v k w i. record { header = i.header; socket = i.socket }) k (record w { closing = true })
        (record { header = i.header; socket = i.socket })

  end_close-Quiet : Quiet (end_close codec)
  unfolding end_close
  end_close-Quiet =
      >>=-Quiet (at_socket (modify Socket.close)) _
        (at_socket-Quiet (modify Socket.close) (λ k s p. p))
        (λ u k w i. record { header = refl; socket = i.socket })

  close_now-Quiet : Quiet (close_now codec)
  unfolding close_now
  close_now-Quiet = >>=-Quiet (begin_close codec) _ begin_close-Quiet (λ u. end_close-Quiet)

  dispatch_other-Quiet :
      (q : Query V) (res_token : ℤ) (buf : Bytes) → Quiet (dispatch_other codec q res_token buf)
  unfolding dispatch_other
  dispatch_other-Quiet q res_token buf k w i =
      both_branches Idle (is_token res_token q.token) _ _
        (>>=-Quiet {B = Option (Option (Response Item))} (parse_response codec q buf) _
          (parse_response-Quiet q buf) (λ res k w i. i) k w i)
        (both_branches Idle w.closing _ _ i (
          >>=-Quiet {B = Option (Option (Response Item))} (close_now codec) _ close_now-Quiet
            (λ u k w i. i) k w i))
    where
      Idle : Outcome Exn (Option (Option (Response Item))) × World Item V → Type 0
      Idle x = IsIdle k x.1

  -- A round of `_read_response` makes no call of `recv` after it has its frame.
  pub dispatch-Quiet :
      (q : Query V) (res_token : ℤ) (buf : Bytes) → Quiet (dispatch codec q res_token buf)
  unfolding dispatch
  dispatch-Quiet q res_token buf k w i = found (cached_token res_token w.cursors)
    where
      found :
          (o : Option ℕ)
          → IsIdle k
              (elim o as (λ x. Outcome Exn (Option (Option (Response Item))) × World Item V) [
                | none ↦ dispatch_other codec q res_token buf w
                | some t ↦
                    (do
                      extend codec t buf
                      pure (if is_token res_token q.token then some none else none))
                      w
              ]).1
      found none = dispatch_other-Quiet q res_token buf k w i
      found (some t) =
          >>=-Quiet {B = Option (Option (Response Item))} (extend codec t buf) _
            (extend-Quiet t buf) (λ u k w i. i) k w i
