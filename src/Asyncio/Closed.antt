-- ===== src/Asyncio/Closed.antt =====
-- asyncio_net/net_asyncio.py: `close`, and the reader where it fails.
pub mod Cancelled
pub mod Lost
use rethinkdb_python.Base.{
  ℕ, ◌≡◌, refl, sym, ap, ◌∙◌, Bool, true, false, ◌&&◌, Option, none, some, List, [], ◌∷◌, ◌++◌, All,
  ◌==◌, append_assoc, arith, if◌then◌else◌, Bool-cases, Option-cases, inl, inr, length, is_some,
}
use rethinkdb_python.Base.Integer.{is_zero, decr}
use rethinkdb_python.Base.Exec.{
  Outcome, ok, raised, Exec, feed, gets, modify, skip, unless, ◌>>=◌, ◌>>◌,
}
use rethinkdb_python.Errors.{
  Exn, reql, driver_error, runtime_error, Message, connection_is_closed_by,
}
use rethinkdb_python.Net.Query.{Query}
use rethinkdb_python.Net.Response.{Response}
use rethinkdb_python.Net.World.{Codec, Cursor}
use rethinkdb_python.Net.World.Laws.{Lacks, find_cursor-append, replace_cursor-append}
use rethinkdb_python.Net.Cursor.{
  set_error, uncount_request, accept_at, accept, unregister, drop_finished, extend_internal,
}
use rethinkdb_python.Net.Instance.{registered_tokens}
use rethinkdb_python.Asyncio.State.{UserQuery, Instance, at_cursor, is_pending, answered, exception}
use rethinkdb_python.Asyncio.Cursor.{maybe_fetch_batch, parse_response, extend, cursor_error}
use rethinkdb_python.Asyncio.Reader.{
  fail_pending, fail_all, clear_tables, error_each, begin_close, end_close, close_now, read_one,
  reader_failed, handle, read_round,
}
use rethinkdb_python.Asyncio.Settled.{IsAccounted}

module _ {Item V : Type 0} where
  abbrev tokens : List (Cursor Item V) → List ℕ
  tokens [] = []
  tokens (c ∷ cs) = c.query.token ∷ tokens cs

  tokens-append :
      (cs : List (Cursor Item V)) (c : Cursor Item V)
      → tokens (cs ++ c ∷ []) ≡ tokens cs ++ c.query.token ∷ []
  tokens-append [] c = refl
  tokens-append (d ∷ cs) c = ap (λ ts. d.query.token ∷ ts) (tokens-append cs c)

  -- No cursor has the token of one before it, nor one of `ts`.
  abbrev pub Fresh : List ℕ → List (Cursor Item V) → Type 0
  Fresh ts [] = Unit
  Fresh ts (c ∷ cs) =
      All (λ s. (s == c.query.token) ≡ false) ts × Fresh (ts ++ c.query.token ∷ []) cs

  Lacks-tokens :
      (t : ℕ) (cs : List (Cursor Item V)) → All (λ s. (s == t) ≡ false) (tokens cs) → Lacks t cs
  Lacks-tokens t [] h = tt
  Lacks-tokens t (c ∷ cs) h = (h.0, Lacks-tokens t cs h.1)

  -- A method runs on the one cursor that has the token.
  pub at_cursor_lem :
      {A : Type 0} (w : Instance Item V) (before after : List (Cursor Item V)) (c : Cursor Item V)
      (m : Exec Exn (Cursor Item V) A)
      → Lacks c.query.token before
      → at_cursor c.query.token m (record w { cursors = before ++ c ∷ after })
        ≡ ((m c).0, record w { cursors = before ++ (m c).1 ∷ after })
  unfolding at_cursor
  at_cursor_lem w before after c m h =
      rw (find_cursor-append c.query.token before after c h refl, at_cursor)
        (rw (replace_cursor-append c.query.token before after c (m c).1 h refl))

  -- What a connection that fails with the error `e` owes to a query `q`, of which `p` is what became: it is
  -- the same query, out of the table; a future that was done is as it was; one of the table that waited
  -- has `e`; and none waits.
  pub record IsFailed (e : Exn) (q p : UserQuery Item V) : Type 0 where
    pub same : p.query ≡ q.query
    pub gone : p.listed ≡ false
    pub kept : is_pending q.future ≡ false → p.future ≡ q.future
    pub failed : q.listed ≡ true → is_pending q.future ≡ true → p.future ≡ answered (exception e)
    pub done : is_pending p.future ≡ false

  abbrev pub AllFailed : Exn → List (UserQuery Item V) → List (UserQuery Item V) → Type 0
  AllFailed e [] [] = Unit
  AllFailed e (q ∷ qs) (p ∷ ps) = IsFailed e q p × AllFailed e qs ps
  AllFailed e _ _ = ⊥

  fail_pending-IsFailed :
      (e : Exn) (q : UserQuery Item V) → q.listed ≡ true → IsFailed e q (fail_pending e q)
  fail_pending-IsFailed e q h = elim (Bool-cases (is_pending q.future)) [
    | inl k ↦
        rw k
          (record { same = refl; gone = refl; kept = λ d. cc; failed = λ l d. refl; done = refl })
    | inr k ↦
        rw k (record { same = refl; gone = refl; kept = λ d. refl; failed = λ l d. cc; done = k })
  ]

  if-IsFailed :
      (b : Bool) (e : Exn) (q p : UserQuery Item V)
      → (b ≡ true → IsFailed e q p)
      → (b ≡ false → IsFailed e q q)
      → IsFailed e q (if b then p else q)
  if-IsFailed true e q p f g = f refl
  if-IsFailed false e q p f g = g refl

  fail_all-AllFailed :
      (e : Exn) (qs : List (UserQuery Item V)) → All IsAccounted qs → AllFailed e qs (fail_all e qs)
  fail_all-AllFailed e [] a = tt
  fail_all-AllFailed e (q ∷ qs) (a, as_) = (
    if-IsFailed q.listed e q (fail_pending e q) (fail_pending-IsFailed e q)
        (λ h. record { same = refl; gone = h; kept = λ d. refl; failed = λ l d. cc; done = a h }),
    fail_all-AllFailed e qs as_,
  )

  -- The connection is closed, and each of the queries `qs` has what a failure with the message `m` owes it.
  pub record IsShut (m : Message) (qs : List (UserQuery Item V)) (w : Instance Item V)
      : Type 0 where
    pub closing : w.closing ≡ true
    pub reading : w.reading ≡ false
    pub writer : w.writer_closed ≡ true
    pub queries : AllFailed (reql driver_error m) qs w.queries

module _ {Item V : Type 0} (codec : Codec Item V) where
  -- The dummy response is one that the decoders read.
  abbrev pub HasDummy : Type 0
  HasDummy =
      (q : Query V) → (res : Response Item) × (codec.decode q codec.dummy_response ≡ some res)

  -- A cursor that has an error ignores a response, and leaves the cache when it was the last.
  ended_extend :
      (res : Response Item) (c : Cursor Item V) (x : Exn)
      → c.registered ≡ true
      → c.error ≡ some x
      → (d : Cursor Item V) × (d.query ≡ c.query) × (extend_internal codec res c ≡ (ok tt, d))
  unfolding extend_internal accept accept_at drop_finished unregister
  ended_extend res c x h e = elim (Bool-cases (is_zero c.outstanding_requests)) [
    | inl z ↦ (record c { threshold = length res.items; registered = false }, refl, rw (e, z, h))
    | inr z ↦ (record c { threshold = length res.items }, refl, rw (e, z))
  ]

  pub quiet_fetch :
      (w : Instance Item V) (before after : List (Cursor Item V)) (c : Cursor Item V) (x : Exn)
      → c.error ≡ some x
      → Lacks c.query.token before
      → maybe_fetch_batch codec c.query.token (record w { cursors = before ++ c ∷ after })
        ≡ (ok tt, record w { cursors = before ++ c ∷ after })
  unfolding maybe_fetch_batch
  quiet_fetch w before after c x e lacks = rw (at_cursor_lem w before after c _ lacks) (rw e)

  parse_lem :
      (q : Query V) (res : Response Item) (w : Instance Item V)
      → codec.decode q codec.dummy_response ≡ some res
      → parse_response codec q codec.dummy_response w ≡ (ok res, w)
  unfolding parse_response
  parse_lem q res w e = rw (e, parse_response)

  extend_lem :
      (w : Instance Item V) (before after : List (Cursor Item V)) (c d : Cursor Item V) (x : Exn)
      (res : Response Item)
      → c.error ≡ some x
      → codec.decode c.query codec.dummy_response ≡ some res
      → extend_internal codec res (record c { outstanding_requests = decr c.outstanding_requests })
        ≡ (ok tt, d)
      → Lacks c.query.token before
      → extend codec c.query.token codec.dummy_response (record w { cursors = before ++ c ∷ after })
        ≡ (ok tt, record w { cursors = before ++ d ∷ after })
  unfolding extend uncount_request
  extend_lem w before after c d x res e decoded run lacks =
      let c' = record c { outstanding_requests = decr c.outstanding_requests } in
      rw (at_cursor_lem w before after c _ lacks) (
        rw (quiet_fetch w before after c' x e lacks) (
          rw (at_cursor_lem w before after c' _ lacks) (
            rw (parse_lem c.query res _ decoded)
              (rw (at_cursor_lem w before after c' _ lacks) (rw run)))))

  -- `_error` of a cursor in the cache ends it, and does not raise.
  cursor_error_lem :
      (m : Message) (w : Instance Item V) (before after : List (Cursor Item V)) (c : Cursor Item V)
      → HasDummy
      → c.registered ≡ true
      → Lacks c.query.token before
      → (d : Cursor Item V) × (d.query ≡ c.query)
        × (cursor_error codec m c.query.token (record w { cursors = before ++ c ∷ after })
            ≡ (ok tt, record w { cursors = before ++ d ∷ after }))
  unfolding cursor_error set_error
  cursor_error_lem m w before after c dummy h lacks =
      let x = reql runtime_error m in
      let start = record w { cursors = before ++ c ∷ after } in
      let rest = λ (b : Bool).
        unless b
          (at_cursor c.query.token (set_error x) >> extend codec c.query.token codec.dummy_response)
          start in
      elim (Option-cases c.error) [
        | inr (y, e) ↦
            (c, refl, rw (at_cursor_lem w before after c _ lacks) (ap rest (ap is_some e)))
        | inl e ↦
            let failed = record c { error = some x } in
            let (res, decoded) = dummy c.query in
            let (d, same, run) =
              ended_extend res
                (record failed { outstanding_requests = decr c.outstanding_requests }) x h refl in
            (
              d,
              same,
              rw (at_cursor_lem w before after c _ lacks) (
                  ap rest (ap is_some e)
                  ∙ rw (at_cursor_lem w before after c _ lacks)
                      (extend_lem w before after failed d x res refl decoded run lacks)),
            )
      ]

  -- The loop of `close` over the cursors does not raise, and changes nothing but cursors.
  error_each_lem :
      (m : Message) (w : Instance Item V) (before cs : List (Cursor Item V))
      → HasDummy
      → Fresh (tokens before) cs
      → (ds : List (Cursor Item V)) × (error_each codec m
            (registered_tokens cs)
            (record w { cursors = before ++ cs })
          ≡ (ok tt, record w { cursors = ds }))
  unfolding error_each
  error_each_lem m w before [] dummy fresh = (before ++ [], refl)
  error_each_lem m w before (c ∷ cs) dummy (lacks, fresh) =
      let ts = registered_tokens cs in
      let start = record w { cursors = before ++ c ∷ cs } in
      let rest = λ (b : Bool). error_each codec m (if b then c.query.token ∷ ts else ts) start in
      elim (Bool-cases c.registered) [
        | inr h ↦
            let (ds, run) =
              error_each_lem m w (before ++ c ∷ []) cs dummy (rw (tokens-append before c) fresh) in
            (ds, ap rest h ∙ rw (append_assoc before (c ∷ []) cs) at run)
        | inl h ↦
            let (d, same, one) =
              cursor_error_lem m w before cs c dummy h (Lacks-tokens c.query.token before lacks) in
            let (ds, run) =
              error_each_lem m w (before ++ d ∷ []) cs dummy
                (rw (tokens-append before d) (rw same fresh)) in
            (ds, ap rest h ∙ rw one (rw (append_assoc before (d ∷ []) cs) at run))
      ]

  begin_close_lem :
      (m : Message) (w : Instance Item V)
      → HasDummy
      → Fresh [] w.cursors
      → (ds : List (Cursor Item V)) × (begin_close codec m w
          ≡ (ok tt, clear_tables m (record w { closing = true; cursors = ds })))
  unfolding begin_close
  begin_close_lem m w dummy fresh =
      let (ds, run) = error_each_lem m (record w { closing = true }) [] w.cursors dummy fresh in
      (ds, rw run)

  -- `close` of a connection whose reader has ended leaves it shut.
  close_now-IsShut :
      (m : Message) (w : Instance Item V)
      → HasDummy
      → Fresh [] w.cursors
      → All IsAccounted w.queries
      → w.reading ≡ false
      → IsShut m w.queries (close_now codec m w).1
  unfolding close_now end_close
  close_now-IsShut m w dummy fresh accounted ended =
      let (ds, run) = begin_close_lem m w dummy fresh in
      rw run (record {
        closing = refl;
        reading = ended;
        writer = refl;
        queries = fail_all-AllFailed (reql driver_error m) w.queries accounted;
      })

  -- A round that fails, by whether the connection was being closed.
  pub read_round_failed :
      (w v : Instance Item V) (e : Exn) (b : Bool)
      → w.reading ≡ true
      → read_one codec w ≡ (raised e, v)
      → v.closing ≡ b
      → read_round codec w ≡ (
          if b
          then (ok tt, record v { reading = false })
          else close_now codec connection_is_closed_by (record v { reading = false }))
  unfolding read_round reader_failed
  read_round_failed w v e b reading fails is_closing =
      ap (λ (r : Bool). if r then handle codec (read_one codec w) else (ok tt, w)) reading
      ∙ ap (handle codec) fails
      ∙ ap
          (λ (c : Bool).
            if c
            then (ok tt, record v { reading = false })
            else close_now codec connection_is_closed_by (record v { reading = false }))
          is_closing

  -- The reader of a connection that is not being closed: where it fails, whatever the exception, it closes
  -- the connection; each query that is in the table and waits is given the error that says so, the others
  -- keep what they have, and none waits any longer. The conditions are that the queries that are out of the
  -- table have their answers, that the cursors have different tokens, and that the decoders read the dummy
  -- response.
  pub read_round-IsShut :
      (w v : Instance Item V) (e : Exn)
      → HasDummy
      → w.reading ≡ true
      → read_one codec w ≡ (raised e, v)
      → v.closing ≡ false
      → Fresh [] v.cursors
      → All IsAccounted v.queries
      → IsShut connection_is_closed_by v.queries (read_round codec w).1
  read_round-IsShut w v e dummy reading fails open_ fresh accounted =
      rw (read_round_failed w v e false reading fails open_) (
        close_now-IsShut connection_is_closed_by (record v { reading = false }) dummy fresh
          accounted refl)
