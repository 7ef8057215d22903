-- ===== src/Asyncio/Order.antt =====
-- asyncio_net/net_asyncio.py: responses that come in another order than their queries.
use rethinkdb_python.Base.{
  ℕ, ◌≡◌, refl, sym, ap, ◌∙◌, true, false, none, some, List, [], ◌∷◌, arith, ◌==◌,
}
use rethinkdb_python.Base.Struct.{Bytes}
use rethinkdb_python.Base.Integer.{pos}
use rethinkdb_python.Base.Exec.{ok, ◌>>◌}
use rethinkdb_python.Errors.{Exn}
use rethinkdb_python.Net.Query.{Query}
use rethinkdb_python.Net.Response.{
  Response, ResponseType, success_atom, success_partial, success_sequence, wait_complete,
  server_info, make_error, nothing, value, maybe_profile,
}
use rethinkdb_python.Net.World.{Codec}
use rethinkdb_python.Net.Instance.{cached_token}
use rethinkdb_python.Asyncio.State.{
  Answer, result, exception, UserQuery, Instance, find_query, update_query, is_pending,
}
use rethinkdb_python.Asyncio.Cursor.{parse_response}
use rethinkdb_python.Asyncio.Reader.{outcome_at, settle, answer, dispatch_other, dispatch}
use rethinkdb_python.Asyncio.Settled.Steps.{given, settle_pending}

-- A type of response that is neither for a value nor for a cursor.
abbrev pub IsErrorType : ResponseType → Type 0
IsErrorType success_atom = ⊥
IsErrorType success_sequence = ⊥
IsErrorType success_partial = ⊥
IsErrorType wait_complete = ⊥
IsErrorType server_info = ⊥
IsErrorType _ = Unit

module _ {Item V : Type 0} (codec : Codec Item V) where
  -- What the user is given for a response that makes no cursor.
  pub data Answers (res : Response Item) (a : Answer Item) : Type 0 where
    atom :
        (x : Item) (xs : List Item)
        → res.type ≡ success_atom
        → res.items ≡ x ∷ xs
        → a ≡ result (maybe_profile (value x) res)
        → Answers res a
    waited : res.type ≡ wait_complete → a ≡ result nothing → Answers res a
    info :
        (x : Item) (xs : List Item)
        → res.type ≡ server_info
        → res.items ≡ x ∷ xs
        → a ≡ result (value x)
        → Answers res a
    failed :
        (e : Exn)
        → IsErrorType res.type
        → make_error codec.text res ≡ ok e
        → a ≡ exception e
        → Answers res a

  failed_lem :
      (type : ResponseType) (q : Query V) (res : Response Item) (e : Exn) (w : Instance Item V)
      → IsErrorType type
      → make_error codec.text res ≡ ok e
      → outcome_at codec type q res w ≡ (ok (exception e), w)
  unfolding outcome_at
  failed_lem success_atom q res e w i h = absurd i
  failed_lem success_sequence q res e w i h = absurd i
  failed_lem success_partial q res e w i h = absurd i
  failed_lem wait_complete q res e w i h = absurd i
  failed_lem server_info q res e w i h = absurd i
  failed_lem _ q res e w i h = rw h

  outcome_lem :
      (q : Query V) (res : Response Item) (a : Answer Item) (w : Instance Item V)
      → Answers res a
      → outcome_at codec res.type q res w ≡ (ok a, w)
  unfolding outcome_at
  outcome_lem q res a w (atom x xs type items e) = rw (e, type, items)
  outcome_lem q res a w (waited type e) = rw (e, type)
  outcome_lem q res a w (info x xs type items e) = rw (e, type, items)
  outcome_lem q res a w (failed e type made same) =
      failed_lem res.type q res e w type made ∙ rw same

  -- `buf` is for the query `q`, and says `a` to its user.
  pub record IsAnswer (t : ℕ) (q : UserQuery Item V) (buf : Bytes) (a : Answer Item)
      (w : Instance Item V) : Type 0 where
    pub response : Response Item
    pub no_cursor : cached_token (pos t) w.cursors ≡ none
    pub found : find_query t w.queries ≡ some q
    pub decoded : codec.decode q.query buf ≡ some response
    pub says : Answers response a

  pub dispatch_lem :
      (t : ℕ) (q : UserQuery Item V) (buf : Bytes) (a : Answer Item) (w : Instance Item V)
      → IsAnswer t q buf a w
      → dispatch codec (pos t) buf w ≡ settle codec t q a w
  unfolding dispatch dispatch_other answer parse_response
  dispatch_lem t q buf a w i =
      rw (i.no_cursor, dispatch)
        (rw (i.found, dispatch_other)
          (rw (i.decoded, parse_response) (rw (outcome_lem q.query i.response a w i.says))))

==_comm : (t u : ℕ) → (t == u) ≡ false → (u == t) ≡ false
==_comm t u h = ground arith

module _ {Item V : Type 0} (t u : ℕ) (differ : (t == u) ≡ false) where
  find_query-given :
      (a : Answer Item) (qs : List (UserQuery Item V))
      → find_query u (update_query t (given a) qs) ≡ find_query u qs
  find_query-given a [] = refl
  find_query-given a (q ∷ qs) = ground (arith, find_query-given a qs)

  update_query-given :
      (a b : Answer Item) (qs : List (UserQuery Item V))
      → update_query u (given b) (update_query t (given a) qs)
        ≡ update_query t (given a) (update_query u (given b) qs)
  update_query-given a b [] = refl
  update_query-given a b (q ∷ qs) = ground (arith, update_query-given a b qs)

module _ {Item V : Type 0} (codec : Codec Item V) where
  -- A response to a query that waits gives its user the answer, and changes nothing else.
  pub dispatch_pending :
      (t : ℕ) (q : UserQuery Item V) (buf : Bytes) (a : Answer Item) (w : Instance Item V)
      → IsAnswer codec t q buf a w
      → is_pending q.future ≡ true
      → dispatch codec (pos t) buf w
        ≡ (ok tt, record w { queries = update_query t (given a) w.queries })
  dispatch_pending t q buf a w i waits =
      dispatch_lem codec t q buf a w i ∙ settle_pending codec t q a w waits

  both_answered :
      (t u : ℕ) (p q : UserQuery Item V) (bt bu : Bytes) (a b : Answer Item) (w : Instance Item V)
      → (t == u) ≡ false
      → IsAnswer codec t p bt a w
      → IsAnswer codec u q bu b w
      → is_pending p.future ≡ true
      → is_pending q.future ≡ true
      → (dispatch codec (pos t) bt >> dispatch codec (pos u) bu) w ≡ (
        ok tt,
        record w { queries = update_query u (given b) (update_query t (given a) w.queries) },
      )
  both_answered t u p q bt bu a b w differ i j waits also =
      let w' = record w { queries = update_query t (given a) w.queries } in
      let j' : IsAnswer codec u q bu b w' = record {
        response = j.response;
        no_cursor = j.no_cursor;
        found = find_query-given t u differ a w.queries ∙ j.found;
        decoded = j.decoded;
        says = j.says;
      } in
      rw (dispatch_pending t p bt a w i waits) (dispatch_pending u q bu b w' j' also)

  -- Two queries wait, and their responses come in either order: each gets its own answer and leaves the
  -- table, nothing else is changed, and the connection is the same whichever came first. The condition
  -- is that neither response makes a cursor.
  pub responses_commute :
      (t u : ℕ) (p q : UserQuery Item V) (bt bu : Bytes) (a b : Answer Item) (w : Instance Item V)
      → (t == u) ≡ false
      → IsAnswer codec t p bt a w
      → IsAnswer codec u q bu b w
      → is_pending p.future ≡ true
      → is_pending q.future ≡ true
      → ((dispatch codec (pos t) bt >> dispatch codec (pos u) bu) w ≡ (
        ok tt,
        record w { queries = update_query t (given a) (update_query u (given b) w.queries) },
      ))
        × ((dispatch codec (pos u) bu >> dispatch codec (pos t) bt) w
            ≡ (dispatch codec (pos t) bt >> dispatch codec (pos u) bu) w)
  responses_commute t u p q bt bu a b w differ i j waits also =
      let first = both_answered t u p q bt bu a b w differ i j waits also in
      let second = both_answered u t q p bu bt b a w (==_comm t u differ) j i also waits in
      let same = update_query-given t u differ a b w.queries in
      let swapped = ap (λ qs. (ok tt, record w { queries = qs })) same in
      (first ∙ swapped, second ∙ sym (first ∙ swapped))
