-- ===== src/Asyncio/Closed/Lost.antt =====
-- asyncio_net/net_asyncio.py: the stream ends while `close` waits for the answer to its NOREPLY_WAIT.
use rethinkdb_python.Base.{
  ◌≡◌, refl, sym, ap, ◌∙◌, subst, Bool, true, false, none, List, [], ◌∷◌, ◌++◌, All, arith,
  append-nil, append_assoc, length, leb, if◌then◌else◌,
}
use rethinkdb_python.Base.Exec.{Outcome, ok, raised, blocked, feed, skip}
use rethinkdb_python.Errors.{Exn, builtin, incomplete_read_error}
use rethinkdb_python.Net.Query.{Query}
use rethinkdb_python.Net.World.{Codec}
use rethinkdb_python.Asyncio.State.{
  UserQuery, Instance, check_open, add_query, waiting, post, run_query,
}
use rethinkdb_python.Asyncio.Cursor.{run_task, close_cursor, get_next, fetch_next}
use rethinkdb_python.Asyncio.Reader.{
  readexactly, start_header, read_header, read_frame, finish_close, read_one, handle, read_round,
}
use rethinkdb_python.Asyncio.Frame.{
  IsSteady, IsSteady-trans, check_open-Steady, fetch_next-Steady, finish_close-Steady, post-Steady,
  run_task-Steady, close_cursor-Steady, get_next-Steady,
}
use rethinkdb_python.Asyncio.Run.{
  Event, arrives, ends, reads, sends, asks, cancels, takes, peeks, drops, finishes, ask, closes,
  closes_waiting, step, run,
}
use rethinkdb_python.Asyncio.Closed.{read_round_failed}

-- Nobody cancels a query, and nobody closes the connection again.
abbrev pub IsOrdinary : {V : Type 0} → Event V → Type 0
IsOrdinary (cancels t) = ⊥
IsOrdinary closes = ⊥
IsOrdinary (closes_waiting q) = ⊥
IsOrdinary _ = Unit

module _ {Item V : Type 0} where
  -- The reader has ended, and the queries are those of `w`, with new ones behind them.
  pub record Keeps (w v : Instance Item V) : Type 0 where
    pub more : List (UserQuery Item V)
    pub queries : v.queries ≡ w.queries ++ more
    pub reading : v.reading ≡ false

  Keeps-trans : {u v w : Instance Item V} → Keeps u v → Keeps v w → Keeps u w
  Keeps-trans {u = u} p q = record {
    more = p.more ++ q.more;
    queries = q.queries ∙ ap (λ qs. qs ++ q.more) p.queries ∙ append_assoc u.queries p.more q.more;
    reading = q.reading;
  }

  same_queries : (w v : Instance Item V) → v.queries ≡ w.queries → v.reading ≡ false → Keeps w v
  same_queries w v e ended = record {
    more = [];
    queries = e ∙ sym (append-nil w.queries);
    reading = ended;
  }

  Steady-Keeps : (w v : Instance Item V) → w.reading ≡ false → IsSteady w v → Keeps w v
  Steady-Keeps w v ended s = same_queries w v s.queries (s.reading ∙ ended)

  asked-Keeps :
      (w : Instance Item V) (q : Query V) (b : Bool) (x : Outcome Exn (Unit {0}) × Instance Item V)
      → w.reading ≡ false
      → IsSteady w x.1
      → Keeps w (feed x.0 (λ _. if b then skip else add_query q) x.1).1
  unfolding add_query
  asked-Keeps w q true (ok u, v) ended s = Steady-Keeps w v ended s
  asked-Keeps w q false (ok u, v) ended s = record {
    more = waiting q ∷ [];
    queries = ap (λ qs. qs ++ waiting q ∷ []) s.queries;
    reading = s.reading ∙ ended;
  }
  asked-Keeps w q b (raised e, v) ended s = Steady-Keeps w v ended s
  asked-Keeps w q b (blocked, v) ended s = Steady-Keeps w v ended s

module _ {Item V : Type 0} (codec : Codec Item V) where
  idle_round : (w : Instance Item V) → w.reading ≡ false → read_round codec w ≡ (ok tt, w)
  unfolding read_round
  idle_round w ended =
      ap (λ (b : Bool). if b then handle codec (read_one codec w) else (ok tt, w)) ended

  checked-Keeps :
      (q : Query V) (b : Bool) (w : Instance Item V) (x : Outcome Exn (Unit {0}) × Instance Item V)
      → w.reading ≡ false
      → IsSteady w x.1
      → Keeps w (feed x.0 (λ _. run_query codec q b) x.1).1
  unfolding run_query
  checked-Keeps q b w (ok u, v) ended s =
      asked-Keeps w q b (post codec q v) ended (IsSteady-trans s ((post-Steady codec q).at v))
  checked-Keeps q b w (raised e, v) ended s = Steady-Keeps w v ended s
  checked-Keeps q b w (blocked, v) ended s = Steady-Keeps w v ended s

  step-Keeps :
      (e : Event V) (w : Instance Item V)
      → IsOrdinary e
      → w.reading ≡ false
      → Keeps w (step codec e w)
  unfolding step ask
  step-Keeps (arrives bytes) w i ended = same_queries w _ refl ended
  step-Keeps ends w i ended = same_queries w _ refl ended
  step-Keeps reads w i ended =
      subst (λ r. Keeps w r.1) (sym (idle_round w ended)) (same_queries w w refl ended)
  step-Keeps sends w i ended =
      Steady-Keeps w (run_task codec w).1 ended ((run_task-Steady codec).at w)
  step-Keeps (asks q noreply) w i ended =
      checked-Keeps q noreply w (check_open w) ended (check_open-Steady.at w)
  step-Keeps (cancels t) w i ended = absurd i
  step-Keeps (takes t) w i ended =
      Steady-Keeps w (get_next codec t w).1 ended ((get_next-Steady codec t).at w)
  step-Keeps (peeks t) w i ended =
      Steady-Keeps w (fetch_next codec t w).1 ended ((fetch_next-Steady codec t).at w)
  step-Keeps (drops t) w i ended =
      Steady-Keeps w (close_cursor codec t w).1 ended ((close_cursor-Steady codec t).at w)
  step-Keeps (finishes t) w i ended =
      Steady-Keeps w (finish_close codec t w).1 ended ((finish_close-Steady codec t).at w)
  step-Keeps closes w i ended = absurd i
  step-Keeps (closes_waiting q) w i ended = absurd i

  run-Keeps :
      (es : List (Event V)) (w : Instance Item V)
      → All IsOrdinary es
      → w.reading ≡ false
      → Keeps w (run codec es w)
  unfolding run
  run-Keeps [] w i ended = same_queries w w refl ended
  run-Keeps (e ∷ es) w (i, is) ended =
      let one = step-Keeps e w i ended in
      Keeps-trans one (run-Keeps es (step codec e w) is one.reading)

  -- The stream ended before a header was complete.
  pub read_one_ended :
      (w : Instance Item V)
      → w.header ≡ none
      → w.at_end ≡ true
      → leb 12 (length w.input) ≡ false
      → read_one codec w ≡ (raised (builtin incomplete_read_error), record w { input = [] })
  unfolding read_one read_frame read_header start_header readexactly
  read_one_ended w header at_end short = ground arith

  -- The server ends the stream while the connection is being closed, and before the next response: the
  -- reader ends without a word, and no query that waits then, such as the NOREPLY_WAIT of `close`, is ever
  -- answered or failed, whatever happens, unless somebody cancels a query or closes the connection again.
  pub lost_while_closing :
      (w : Instance Item V) (es : List (Event V))
      → w.reading ≡ true
      → w.closing ≡ true
      → w.header ≡ none
      → w.at_end ≡ true
      → leb 12 (length w.input) ≡ false
      → All IsOrdinary es
      → Keeps w (run codec (reads ∷ es) w)
  unfolding run step
  lost_while_closing w es reading is_closing header at_end short ordinary =
      let ended =
        read_round_failed codec w (record w { input = [] }) _ true reading
          (read_one_ended w header at_end short) is_closing in
      subst (λ r. Keeps w (run codec es r.1)) (sym ended)
        (Keeps-trans (same_queries w (record w { input = []; reading = false }) refl refl)
          (run-Keeps es (record w { input = []; reading = false }) ordinary refl))
