-- ===== src/Asyncio/Frame.antt =====
-- asyncio_net/net_asyncio.py: what is done to cursors and to the stream leaves the queries alone.
use rethinkdb_python.Base.{
  ℕ, ◌≡◌, refl, ◌∙◌, Bool, true, false, Option, none, some, List, [], ◌∷◌, ◌++◌, arith, is_some,
  Option-cases, inl, inr,
}
use rethinkdb_python.Base.Struct.{Bytes}
use rethinkdb_python.Base.Integer.{ℤ}
use rethinkdb_python.Base.Exec.{
  Outcome, ok, raised, blocked, Exec, feed, gets, modify, skip, when, unless, pure, ◌>>=◌, ◌>>◌,
}
use rethinkdb_python.Errors.{Exn, reql, runtime_error, Message}
use rethinkdb_python.Net.Query.{Query, continue, stop, new_query, serialize, unpack_header}
use rethinkdb_python.Net.Response.{
  Response, ResponseType, success_atom, success_partial, success_sequence, wait_complete,
  server_info, make_error, nothing,
}
use rethinkdb_python.Net.World.{Codec, Cursor, find_cursor}
use rethinkdb_python.Net.Cursor.{
  empty_error, wants_batch, count_request, uncount_request, set_error, extend_internal,
}
use rethinkdb_python.Asyncio.State.{
  Future, answered, Answer, result, exception, Instance, Action, at_cursor, is_open, check_open,
  of_outcome, post,
}
use rethinkdb_python.Asyncio.Cursor.{
  maybe_fetch_batch, run_task, parse_response, extend, cursor_error, close_cursor, wait_or_raise,
  next_from, get_next, fetch_from, fetch_next,
}
use rethinkdb_python.Asyncio.Reader.{
  end_close, future_of, close_after, finish_close, readexactly, start_header, read_header,
  read_frame, error_each, add_cursor, unexpected, first_item, new_cursor, outcome_at,
}

-- The queries, and how far the connection is, are as before.
pub record IsSteady {Item V : Type 0} (w v : Instance Item V) : Type 0 where
  pub queries : v.queries ≡ w.queries
  pub closing : v.closing ≡ w.closing
  pub reading : v.reading ≡ w.reading

-- However the action ends, the queries are as before.
pub record Steady {Item V A : Type 0} (m : Action Item V A) : Type 0 where
  pub at : (w : Instance Item V) → IsSteady w (m w).1

module _ {Item V : Type 0} where
  pub IsSteady-refl : (w : Instance Item V) → IsSteady w w
  IsSteady-refl w = record { queries = refl; closing = refl; reading = refl }

  pub IsSteady-trans : {u v w : Instance Item V} → IsSteady u v → IsSteady v w → IsSteady u w
  IsSteady-trans p q = record {
    queries = q.queries ∙ p.queries;
    closing = q.closing ∙ p.closing;
    reading = q.reading ∙ p.reading;
  }

  feed-IsSteady :
      {A B : Type 0} (x : Outcome Exn A × Instance Item V) (f : A → Action Item V B)
      → ((a : A) → Steady (f a))
      → IsSteady x.1 (feed x.0 f x.1).1
  feed-IsSteady (ok a, t) f q = (q a).at t
  feed-IsSteady (raised e, t) f q = IsSteady-refl t
  feed-IsSteady (blocked, t) f q = IsSteady-refl t

  pub >>=-Steady :
      {A B : Type 0} (m : Action Item V A) (f : A → Action Item V B)
      → Steady m
      → ((a : A) → Steady (f a))
      → Steady (m >>= f)
  >>=-Steady m f p q = record { at = λ w. IsSteady-trans (p.at w) (feed-IsSteady (m w) f q) }

  -- An action that ends in the state where it began.
  still : {A : Type 0} (m : Action Item V A) → ((w : Instance Item V) → (m w).1 ≡ w) → Steady m
  still m e = record { at = λ w. rw (e w) (IsSteady-refl w) }

  modify-Steady :
      (f : Instance Item V → Instance Item V)
      → ((w : Instance Item V) → IsSteady w (f w))
      → Steady (modify f)
  modify-Steady f e = record { at = e }

  when-Steady : (b : Bool) (m : Action Item V (Unit {0})) → Steady m → Steady (when b m)
  when-Steady true m p = p
  when-Steady false m p = still skip (λ w. refl)

  unless-Steady : (b : Bool) (m : Action Item V (Unit {0})) → Steady m → Steady (unless b m)
  unless-Steady true m p = still skip (λ w. refl)
  unless-Steady false m p = p

  pub at_cursor-Steady :
      {A : Type 0} (t : ℕ) (m : Exec Exn (Cursor Item V) A) → Steady (at_cursor t m)
  unfolding at_cursor
  at_cursor-Steady t m = record {
    at = λ w. elim (Option-cases (find_cursor t w.cursors)) [
      | inl e ↦ rw (e, at_cursor) (IsSteady-refl w)
      | inr (c, e) ↦ rw (e, at_cursor) (record { queries = refl; closing = refl; reading = refl })
    ];
  }

  pub check_open-Steady : Steady {Item = Item} {V = V} check_open
  unfolding check_open
  check_open-Steady = still _ (λ w. ground arith)

  of_outcome-Steady : {A : Type 0} (o : Outcome Exn A) → Steady {Item = Item} {V = V} (of_outcome o)
  of_outcome-Steady o = still _ (λ w. refl)

  readexactly-Steady : (n : ℕ) → Steady {Item = Item} {V = V} (readexactly n)
  unfolding readexactly
  readexactly-Steady n = record { at = λ w. ground arith }

module _ {Item V : Type 0} (codec : Codec Item V) where
  pub post-Steady : (q : Query V) → Steady (post codec q)
  unfolding post
  post-Steady q =
      >>=-Steady (of_outcome (serialize (codec.encode q.json_encoder) q)) _ (of_outcome-Steady _)
        (λ bytes.
          modify-Steady (λ w. record w { sent = w.sent ++ bytes })
            (λ w. record { queries = refl; closing = refl; reading = refl }))

  maybe_fetch_batch-Steady : (t : ℕ) → Steady (maybe_fetch_batch codec t)
  unfolding maybe_fetch_batch
  maybe_fetch_batch-Steady t =
      >>=-Steady (at_cursor t (gets wants_batch)) _ (at_cursor-Steady t _) (λ wanted.
        when-Steady wanted _ (
          >>=-Steady (at_cursor t count_request) _ (at_cursor-Steady t _) (λ _.
            >>=-Steady check_open _ check_open-Steady (λ _. record {
              at = λ w. record { queries = refl; closing = refl; reading = refl };
            }))))

  pub parse_response-Steady : (q : Query V) (buf : Bytes) → Steady (parse_response codec q buf)
  unfolding parse_response
  parse_response-Steady q buf = still _ (λ w. ground arith)

  pub extend-Steady : (t : ℕ) (buf : Bytes) → Steady (extend codec t buf)
  unfolding extend
  extend-Steady t buf = >>=-Steady (at_cursor t uncount_request) _ (at_cursor-Steady t _) (λ _.
      >>=-Steady (maybe_fetch_batch codec t) _ (maybe_fetch_batch-Steady t) (λ _.
        >>=-Steady (at_cursor t (gets (λ c. c.query))) _ (at_cursor-Steady t _) (λ q.
          >>=-Steady (parse_response codec q buf) _ (parse_response-Steady q buf)
            (λ res. at_cursor-Steady t _))))

  cursor_error-Steady : (m : Message) (t : ℕ) → Steady (cursor_error codec m t)
  unfolding cursor_error
  cursor_error-Steady m t =
      >>=-Steady (at_cursor t (gets (λ c. is_some c.error))) _ (at_cursor-Steady t _) (λ has_error.
        unless-Steady has_error _ (
          >>=-Steady (at_cursor t (set_error (reql runtime_error m))) _ (at_cursor-Steady t _)
            (λ _. extend-Steady t codec.dummy_response)))

  pub error_each-Steady : (m : Message) (ts : List ℕ) → Steady (error_each codec m ts)
  unfolding error_each
  error_each-Steady m [] = still skip (λ w. refl)
  error_each-Steady m (t ∷ ts) =
      >>=-Steady (cursor_error codec m t) _ (cursor_error-Steady m t) (λ _. error_each-Steady m ts)

  new_cursor-Steady : (q : Query V) (res : Response Item) → Steady (new_cursor codec q res)
  unfolding new_cursor
  new_cursor-Steady q res =
      >>=-Steady (modify (add_cursor codec q)) _
        (modify-Steady _ (λ w. record { queries = refl; closing = refl; reading = refl }))
        (λ _.
          >>=-Steady (maybe_fetch_batch codec q.token) _ (maybe_fetch_batch-Steady q.token)
            (λ _. at_cursor-Steady q.token (extend_internal codec res)))

  pub unexpected-Steady : Steady (unexpected codec)
  unfolding unexpected
  unexpected-Steady = still _ (λ w. ground arith)

  first_item-Steady : (xs : List Item) → Steady {Item = Item} {V = V} (first_item codec xs)
  first_item-Steady [] = still _ (λ w. refl)
  first_item-Steady (x ∷ xs) = still _ (λ w. refl)

  pub run_task-Steady : Steady (run_task codec)
  unfolding run_task
  run_task-Steady = record { at = λ w. sent w.tasks w }
    where
      sent :
          (ts : List ℕ) (w : Instance Item V)
          → IsSteady w
              (elim ts as (λ x. Outcome Exn (Unit {0}) × Instance Item V) [
                | [] ↦ (ok tt, w)
                | t ∷ ts ↦ post codec (new_query continue t none none) (record w { tasks = ts })
              ]).1
      sent [] w = IsSteady-refl w
      sent (t ∷ ts) w =
          IsSteady-trans (record { queries = refl; closing = refl; reading = refl })
            ((post-Steady (new_query continue t none none)).at (record w { tasks = ts }))

  pub close_cursor-Steady : (t : ℕ) → Steady (close_cursor codec t)
  unfolding close_cursor
  close_cursor-Steady t =
      >>=-Steady (at_cursor t (gets (λ c. is_some c.error))) _ (at_cursor-Steady t _) (λ has_error.
        unless-Steady has_error _ (
          >>=-Steady (at_cursor t (set_error empty_error)) _ (at_cursor-Steady t _) (λ _.
            >>=-Steady (gets is_open) _ (still _ (λ w. refl)) (λ live. when-Steady live _ (
              >>=-Steady (at_cursor t count_request) _ (at_cursor-Steady t _) (λ _.
                >>=-Steady check_open _ check_open-Steady
                  (λ _. post-Steady (new_query stop t none none))))))))

  waits-Steady : {A : Type 0} (o : Option Exn) → Steady (wait_or_raise codec {A = A} o)
  waits-Steady none = still _ (λ w. refl)
  waits-Steady (some e) = still _ (λ w. refl)

  fetch_from-Steady :
      (items : List Item) (o : Option Exn) (t : ℕ) → Steady (fetch_from codec items o t)
  unfolding fetch_from
  fetch_from-Steady (x ∷ xs) o t = still _ (λ w. refl)
  fetch_from-Steady [] (some e) t = still _ (λ w. refl)
  fetch_from-Steady [] none t =
      >>=-Steady (maybe_fetch_batch codec t) _ (maybe_fetch_batch-Steady t)
        (λ _. >>=-Steady (at_cursor t (gets (λ c. c.error))) _ (at_cursor-Steady t _) waits-Steady)

  pub fetch_next-Steady : (t : ℕ) → Steady (fetch_next codec t)
  unfolding fetch_next
  fetch_next-Steady t =
      >>=-Steady (at_cursor t (gets (λ c. c))) _ (at_cursor-Steady t _)
        (λ c. fetch_from-Steady c.items c.error t)

  next_from-Steady : (items : List Item) (t : ℕ) → Steady (next_from codec items t)
  unfolding next_from
  next_from-Steady (x ∷ xs) t =
      >>=-Steady (at_cursor t (modify (λ c. record c { items = xs }))) _ (at_cursor-Steady t _)
        (λ _. still _ (λ w. refl))
  next_from-Steady [] t =
      >>=-Steady (maybe_fetch_batch codec t) _ (maybe_fetch_batch-Steady t)
        (λ _. >>=-Steady (at_cursor t (gets (λ c. c.error))) _ (at_cursor-Steady t _) waits-Steady)

  pub get_next-Steady : (t : ℕ) → Steady (get_next codec t)
  unfolding get_next
  get_next-Steady t =
      >>=-Steady (at_cursor t (gets (λ c. c.items))) _ (at_cursor-Steady t _)
        (λ items. next_from-Steady items t)

  start_header-Steady : Steady {Item = Item} {V = V} start_header
  unfolding start_header
  start_header-Steady = >>=-Steady (readexactly 12) _ (readexactly-Steady 12) (λ h.
      >>=-Steady (modify (λ w. record w { header = some h })) _
        (modify-Steady _ (λ v. record { queries = refl; closing = refl; reading = refl }))
        (λ _. of_outcome-Steady (unpack_header h)))

  read_header-Steady : Steady {Item = Item} {V = V} read_header
  unfolding read_header
  read_header-Steady = record { at = λ w. begun w.header w }
    where
      begun :
          (o : Option Bytes) (w : Instance Item V)
          → IsSteady w
              (elim o as (λ x. Outcome Exn (ℤ × ℕ) × Instance Item V) [
                | some h ↦ (unpack_header h, w)
                | none ↦ start_header w
              ]).1
      begun none w = start_header-Steady.at w
      begun (some h) w = IsSteady-refl w

  pub read_frame-Steady : Steady {Item = Item} {V = V} read_frame
  unfolding read_frame
  read_frame-Steady = >>=-Steady read_header _ read_header-Steady (λ header.
      >>=-Steady (readexactly header.1) _ (readexactly-Steady header.1) (λ buf.
        >>=-Steady (modify (λ w. record w { header = none })) _
          (modify-Steady _ (λ v. record { queries = refl; closing = refl; reading = refl }))
          (λ _. still (pure (header.0, buf)) (λ w. refl))))

  with_cursor-Steady :
      (q : Query V) (res : Response Item) (f : Answer Item)
      → Steady (do new_cursor codec q res; pure f)
  with_cursor-Steady q res f =
      >>=-Steady (new_cursor codec q res) _ (new_cursor-Steady q res)
        (λ _. still (pure f) (λ w. refl))

  with_item-Steady :
      (xs : List Item) (f : Item → Answer Item) → Steady (do x ← first_item codec xs; pure (f x))
  with_item-Steady xs f =
      >>=-Steady (first_item codec xs) _ (first_item-Steady xs)
        (λ x. still (pure (f x)) (λ w. refl))

  pub outcome_at-Steady :
      (type : ResponseType) (q : Query V) (res : Response Item)
      → Steady (outcome_at codec type q res)
  unfolding outcome_at
  outcome_at-Steady success_atom q res = with_item-Steady res.items _
  outcome_at-Steady success_sequence q res = with_cursor-Steady q res _
  outcome_at-Steady success_partial q res = with_cursor-Steady q res _
  outcome_at-Steady wait_complete q res = still (pure (result nothing)) (λ w. refl)
  outcome_at-Steady server_info q res = with_item-Steady res.items _
  outcome_at-Steady _ q res =
      >>=-Steady (of_outcome (make_error codec.text res)) _ (of_outcome-Steady _)
        (λ e. still (pure (exception e)) (λ w. refl))

  close_after-Steady : (f : Future Item) → Steady (close_after codec f)
  unfolding close_after end_close
  close_after-Steady (answered (result v)) =
      modify-Steady _ (λ w. record { queries = refl; closing = refl; reading = refl })
  close_after-Steady (answered (exception e)) = still _ (λ w. refl)
  close_after-Steady _ = still _ (λ w. refl)

  pub finish_close-Steady : (t : ℕ) → Steady (finish_close codec t)
  unfolding finish_close
  finish_close-Steady t = record {
    at = λ w. (close_after-Steady (future_of codec t w.queries)).at w;
  }
