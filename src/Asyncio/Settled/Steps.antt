-- ===== src/Asyncio/Settled/Steps.antt =====
-- asyncio_net/net_asyncio.py: what each event does to the queries of a connection.
use rethinkdb_python.Base.{
  ℕ, ◌≡◌, refl, ap, ◌∙◌, Bool, true, false, Option, some, List, [], ◌∷◌, if◌then◌else◌, Bool-cases,
  Option-cases, inl, inr,
}
use rethinkdb_python.Base.Struct.{Bytes}
use rethinkdb_python.Base.Integer.{ℤ, pos, negsuc}
use rethinkdb_python.Base.Exec.{Outcome, ok, raised, blocked, gets, modify, skip}
use rethinkdb_python.Errors.{Exn, reql, driver_error, Message, connection_is_closed_by}
use rethinkdb_python.Net.Query.{Query}
use rethinkdb_python.Net.Instance.{registered_tokens, cached_token}
use rethinkdb_python.Net.World.{Codec}
use rethinkdb_python.Asyncio.State.{
  Answer, answered, UserQuery, Instance, find_query, update_query, unlist, is_pending, set_future,
  add_query, waiting, post, run_query,
}
use rethinkdb_python.Asyncio.Cursor.{parse_response, extend}
use rethinkdb_python.Asyncio.Reader.{
  fail_pending, fail_all, clear_tables, unexpected, read_frame, error_each, begin_close, end_close,
  close_now, outcome_at, settle, answer, dispatch_other, dispatch, read_one, reader_failed, handle,
  read_round,
}
use rethinkdb_python.Asyncio.Frame.{
  post-Steady, extend-Steady, error_each-Steady, read_frame-Steady, parse_response-Steady,
  outcome_at-Steady, unexpected-Steady,
}
use rethinkdb_python.Asyncio.Run.{cancel}
use rethinkdb_python.Asyncio.Settled.{
  Follows, Follows-refl, Evolves, Evolves-refl, Evolves-trans, Evolves-append, update_query-Evolves,
  update_query-update_query, Grows, Steady-Grows, >>=-Grows, >>=-Evolves,
}

same_found : {A : Type 0} {o : Option A} {x y : A} → o ≡ some x → o ≡ some y → x ≡ y
same_found e f = cc

module _ {Item V : Type 0} where
  -- A query that waited, with its answer, out of the table.
  abbrev pub given : Answer Item → UserQuery Item V → UserQuery Item V
  given a q = unlist (record q { future = answered a })

  given-Follows :
      (a : Answer Item) (q : UserQuery Item V) → is_pending q.future ≡ true → Follows q (given a q)
  given-Follows a q h = record {
    same = refl;
    settled = λ e. cc;
    gone = λ e. refl;
    accounted = λ e f. refl;
  }

  pub cancel-Follows : (q : UserQuery Item V) → Follows q (cancel q)
  cancel-Follows q = elim (Bool-cases (is_pending q.future)) [
    | inl e ↦
        rw e (record { same = refl; settled = λ h. cc; gone = λ h. h; accounted = λ h k. refl })
    | inr e ↦
        rw e (record { same = refl; settled = λ h. refl; gone = λ h. h; accounted = λ h k. e })
  ]

  fail_pending-Follows : (e : Exn) (q : UserQuery Item V) → Follows q (fail_pending e q)
  fail_pending-Follows e q = elim (Bool-cases (is_pending q.future)) [
    | inl h ↦
        rw h (record { same = refl; settled = λ k. cc; gone = λ k. refl; accounted = λ k l. refl })
    | inr h ↦
        rw h (record { same = refl; settled = λ k. refl; gone = λ k. refl; accounted = λ k l. h })
  ]

  if-Follows : (b : Bool) (q p : UserQuery Item V) → Follows q p → Follows q (if b then p else q)
  if-Follows true q p f = f
  if-Follows false q p f = Follows-refl q

  fail_all-Evolves : (e : Exn) (qs : List (UserQuery Item V)) → Evolves qs (fail_all e qs)
  fail_all-Evolves e [] = tt
  fail_all-Evolves e (q ∷ qs) =
      (if-Follows q.listed q _ (fail_pending-Follows e q), fail_all-Evolves e qs)

  if-Evolves :
      (w : Instance Item V) (b : Bool) (x y : Outcome Exn (Unit {0}) × Instance Item V)
      → Evolves w.queries x.1.queries
      → Evolves w.queries y.1.queries
      → Evolves w.queries (if b then x else y).1.queries
  if-Evolves w true x y p q = p
  if-Evolves w false x y p q = q

module _ {Item V : Type 0} (codec : Codec Item V) where
  -- `settle` of the query that is found gives it the answer and takes it out of the table, or raises and
  -- does nothing.
  pub settle_pending :
      (t : ℕ) (q : UserQuery Item V) (a : Answer Item) (w : Instance Item V)
      → is_pending q.future ≡ true
      → settle codec t q a w ≡ (ok tt, record w { queries = update_query t (given a) w.queries })
  unfolding settle set_future
  settle_pending t q a w h = rw h (λ i. (
    ok tt,
    record w {
      queries =
          update_query-update_query t (λ p. record p { future = answered a }) unlist w.queries
            (λ p. refl) i;
    },
  ))

  settle-Evolves :
      (t : ℕ) (q : UserQuery Item V) (a : Answer Item) (w : Instance Item V)
      → find_query t w.queries ≡ some q
      → Evolves w.queries (settle codec t q a w).1.queries
  settle-Evolves t q a w found = elim (Bool-cases (is_pending q.future)) [
    | inl h ↦ rw (settle_pending t q a w h) (
        update_query-Evolves t (given a) w.queries (λ p e.
          given-Follows a p
            (ap (λ (x : UserQuery Item V). is_pending x.future) (same_found e found) ∙ h)))
    | inr h ↦ unfold settle in unfold set_future in rw h (Evolves-refl w.queries)
  ]

  answer-Evolves :
      (t : ℕ) (q : UserQuery Item V) (buf : Bytes) (w : Instance Item V)
      → find_query t w.queries ≡ some q
      → Evolves w.queries (answer codec t q buf w).1.queries
  unfolding answer
  answer-Evolves t q buf w found =
      >>=-Evolves (parse_response codec q.query buf) _ w (parse_response-Steady codec q.query buf)
        (λ res v e.
          >>=-Evolves (outcome_at codec res.type q.query res) _ v
            (outcome_at-Steady codec res.type q.query res)
            (λ a u f. settle-Evolves t q a u (ap (find_query t) (f ∙ e) ∙ found)))

  dispatch_other-Grows : (token : ℤ) (buf : Bytes) → Grows (dispatch_other codec token buf)
  unfolding dispatch_other
  dispatch_other-Grows (negsuc k) buf = Steady-Grows (unexpected codec) (unexpected-Steady codec)
  dispatch_other-Grows (pos t) buf = record {
    at = λ w. elim (Option-cases (find_query t w.queries)) [
      | inl e ↦
          rw (e, dispatch_other) ((Steady-Grows (unexpected codec) (unexpected-Steady codec)).at w)
      | inr (q, e) ↦ rw (e, dispatch_other) (answer-Evolves t q buf w e)
    ];
  }

  dispatch-Grows : (token : ℤ) (buf : Bytes) → Grows (dispatch codec token buf)
  unfolding dispatch
  dispatch-Grows token buf = record {
    at = λ w. elim (Option-cases (cached_token token w.cursors)) [
      | inl e ↦ rw (e, dispatch) ((dispatch_other-Grows token buf).at w)
      | inr (t, e) ↦
          rw (e, dispatch) ((Steady-Grows (extend codec t buf) (extend-Steady codec t buf)).at w)
    ];
  }

  pub read_one-Grows : Grows (read_one codec)
  unfolding read_one
  read_one-Grows =
      >>=-Grows read_frame _ (Steady-Grows _ (read_frame-Steady codec))
        (λ frame. dispatch-Grows frame.0 frame.1)

  pub begin_close-Grows : (m : Message) → Grows (begin_close codec m)
  unfolding begin_close
  begin_close-Grows m =
      >>=-Grows (modify (λ w. record w { closing = true })) _
        (record { at = λ w. Evolves-refl w.queries })
        (λ _.
          >>=-Grows (gets (λ w. registered_tokens w.cursors)) _
            (record { at = λ w. Evolves-refl w.queries })
            (λ ts.
              >>=-Grows (error_each codec m ts) (λ _. modify (clear_tables m))
                (Steady-Grows _ (error_each-Steady codec m ts))
                (λ _. record { at = λ w. fail_all-Evolves (reql driver_error m) w.queries })))

  pub close_now-Grows : (m : Message) → Grows (close_now codec m)
  unfolding close_now end_close
  close_now-Grows m =
      >>=-Grows (begin_close codec m) _ (begin_close-Grows m)
        (λ _. record { at = λ w. Evolves-refl w.queries })

  pub run_query-Grows : (q : Query V) (noreply : Bool) → Grows (run_query codec q noreply)
  unfolding run_query
  run_query-Grows q noreply =
      >>=-Grows (post codec q) _ (Steady-Grows _ (post-Steady codec q)) (λ _. added noreply)
    where
      added : (b : Bool) → Grows {Item = Item} {V = V} (if b then skip else add_query q)
      added true = record { at = λ w. Evolves-refl w.queries }
      added false =
          unfold add_query in record { at = λ w. Evolves-append w.queries (waiting q) refl }

  reader_failed-Grows : Grows (reader_failed codec)
  unfolding reader_failed
  reader_failed-Grows = record {
    at = λ w.
        if-Evolves w w.closing (ok tt, record w { reading = false })
          (close_now codec connection_is_closed_by (record w { reading = false }))
          (Evolves-refl w.queries)
          ((close_now-Grows connection_is_closed_by).at (record w { reading = false }));
  }

  handle-Evolves :
      (x : Outcome Exn (Unit {0}) × Instance Item V)
      → Evolves x.1.queries (handle codec x).1.queries
  handle-Evolves (ok u, w) = Evolves-refl w.queries
  handle-Evolves (raised e, w) = reader_failed-Grows.at w
  handle-Evolves (blocked, w) = Evolves-refl w.queries

  pub read_round-Grows : Grows (read_round codec)
  unfolding read_round
  read_round-Grows = record {
    at = λ w.
        if-Evolves w w.reading (handle codec (read_one codec w)) (ok tt, w)
          (Evolves-trans w.queries (read_one codec w).1.queries
            (handle codec (read_one codec w)).1.queries (read_one-Grows.at w)
            (handle-Evolves (read_one codec w)))
          (Evolves-refl w.queries);
  }
