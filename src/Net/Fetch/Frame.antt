-- ===== src/Net/Fetch/Frame.antt =====
-- The methods of a cursor change that cursor and the socket, and nothing else.
use rethinkdb_python.Base.{
  ℕ, ◌≡◌, ◌≢◌, ◌⊎◌, refl, Bool, true, false, Option, none, some, List, ◌∷◌, ◌++◌, arith, Bool-cases,
  inl, inr,
}
use rethinkdb_python.Base.Struct.{Bytes}
use rethinkdb_python.Base.Integer.{incr}
use rethinkdb_python.Base.Exec.{Outcome, ok, raised, blocked, feed, gets, ◌>>=◌}
use rethinkdb_python.Errors.{Exn}
use rethinkdb_python.Net.Socket.{Socket}
use rethinkdb_python.Net.Query.{QueryType, Query, continue, new_query}
use rethinkdb_python.Net.Response.{Response}
use rethinkdb_python.Net.World.{Codec, Cursor, World, at_cursor, at_socket}
use rethinkdb_python.Net.World.Laws.{Lacks, at_cursor_lem}
use rethinkdb_python.Net.Cursor.{
  refill, answered, received, wants_batch, count_request, uncount_request, extend_internal,
}
use rethinkdb_python.Net.Fetch.{
  instance_is_open, closed_error, check_open, post, post_for, maybe_fetch_batch, extend,
  parse_response,
}

true_of_not_false : (b : Bool) → ¬ (b ≡ false) → b ≡ true
true_of_not_false true h = refl
true_of_not_false false h = absurd (h refl)

module _ {Item V : Type 0} (codec : Codec Item V) where
  check_open_frame : (w : World Item V) → (check_open codec w).1 ≡ w
  unfolding check_open instance_is_open closed_error
  check_open_frame w = ground arith

  post_frame :
      (q : Query V) (w : World Item V)
      → (post codec q w).1 ≡ record w { socket = (post codec q w).1.socket }
  unfolding post at_socket
  post_frame q w = ground arith

  post_for_frame :
      (type : QueryType) (t : ℕ) (w : World Item V)
      → (post_for codec type t w).1 ≡ record w { socket = (post_for codec type t w).1.socket }
  unfolding post_for
  post_for_frame type t w =
      ground (arith, check_open_frame w, post_frame (new_query type t none none) w)

  module _ (w : World Item V) (before after : List (Cursor Item V)) (c : Cursor Item V) where
    abbrev pub focus : Cursor Item V → World Item V
    focus d = record w { cursors = before ++ d ∷ after }

    -- `_maybe_fetch_batch` changes the cursor to `refill c`, whether or not it raises, and otherwise
    -- only the socket; if no batch is wanted, it does nothing.
    pub maybe_fetch_batch_frame :
        Lacks c.query.token before
        → (o : Outcome Exn (Unit {0})) × (s : Option Socket) × (maybe_fetch_batch codec
              c.query.token
              (focus c)
            ≡ (o, record w { socket = s; cursors = before ++ refill c ∷ after }))
          × (wants_batch c ≡ false → (o ≡ ok tt) × (s ≡ w.socket))
    unfolding maybe_fetch_batch count_request
    maybe_fetch_batch_frame h = elim (Bool-cases (wants_batch c)) [
      | inl e ↦
          let counted = record c { outstanding_requests = incr c.outstanding_requests } in
          let out = post_for codec continue c.query.token (focus counted) in
          (
            out.0,
            out.1.socket,
            rw (at_cursor_lem w before after c _ h) (
                rw e (
                  rw (at_cursor_lem w before after c _ h)
                    (λ i. (out.0, post_for_frame continue c.query.token (focus counted) i)))),
            λ f. cc,
          )
      | inr e ↦ (ok tt, w.socket, rw (at_cursor_lem w before after c _ h) (rw e), λ _. (refl, refl))
    ]

  module _ (w : World Item V) (before after : List (Cursor Item V)) (c : Cursor Item V) where
    -- How `_extend` ends: `received codec res` was run on the cursor, or the request for the next batch,
    -- which was wanted, was not sent.
    abbrev pub Extends : Response Item → Outcome Exn (Unit {0}) × World Item V → Type 0
    Extends res out =
        ((s : Option Socket) × (out ≡ (
          (received codec res c).0,
          record w { socket = s; cursors = before ++ (received codec res c).1 ∷ after },
        )))
        ⊎ ((s : Option Socket) × (o : Outcome Exn (Unit {0})) × (wants_batch (answered c) ≡ true)
            × (o ≢ ok tt)
            × (out ≡ (o, record w { socket = s; cursors = before ++ refill (answered c) ∷ after })))

    parse_response_ok :
        (q : Query V) (buf : Bytes) (res : Response Item) (v : World Item V)
        → codec.decode q buf ≡ some res
        → parse_response codec q buf v ≡ (ok res, v)
    unfolding parse_response
    parse_response_ok q buf res v e = rw (e, parse_response)

    extend_rest :
        (buf : Bytes) (res : Response Item) (o : Outcome Exn (Unit {0})) (s : Option Socket)
        → Lacks c.query.token before
        → codec.decode c.query buf ≡ some res
        → (wants_batch (answered c) ≡ false → o ≡ ok tt)
        → Extends res (
            feed o
              (λ _. do
                q ← at_cursor c.query.token (gets (λ c. c.query))
                r ← parse_response codec q buf
                at_cursor c.query.token (extend_internal codec r))
              (record w { socket = s; cursors = before ++ refill (answered c) ∷ after }))
    extend_rest buf res (ok _) s h e quiet =
        let v = record w { socket = s } in
        let d = refill (answered c) in
        inl (
          s,
          rw (at_cursor_lem v before after d _ h) (
              rw (parse_response_ok c.query buf res _ e, ◌>>=◌)
                (at_cursor_lem v before after d _ h)),
        )
    extend_rest buf res (raised x) s h e quiet =
        inr (s, raised x, true_of_not_false _ (λ f. cc (quiet f)), (λ f. cc), refl)
    extend_rest buf res blocked s h e quiet =
        inr (s, blocked, true_of_not_false _ (λ f. cc (quiet f)), (λ f. cc), refl)

    -- `_extend`, with a buffer that decodes to `res`, runs `received codec res` on the cursor and changes
    -- nothing else but the socket. Only where a batch is wanted can it stop before that, at a request
    -- that is not sent, and then the response is lost.
    pub extend_frame :
        (buf : Bytes) (res : Response Item)
        → Lacks c.query.token before
        → codec.decode c.query buf ≡ some res
        → Extends res (extend codec c.query.token buf (record w { cursors = before ++ c ∷ after }))
    unfolding extend uncount_request
    extend_frame buf res h e =
        let (o, s, run, quiet) = maybe_fetch_batch_frame w before after (answered c) h in
        rw (at_cursor_lem w before after c _ h)
          (rw run (extend_rest buf res o s h e (λ f. (quiet f).0)))
