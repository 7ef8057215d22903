-- ===== src/Net/Cursor/Credit.antt =====
-- The count of requests of a cursor, and its place in the cursor cache.
use rethinkdb_python.Base.{
  ℕ, suc, ◌≡◌, ◌≢◌, refl, sym, ap, ◌∙◌, Bool, true, false, not, ◌&&◌, Option, none, some, arith,
  is_some, length, if◌then◌else◌,
}
use mathlib.Core.Path.{ap₂}
use rethinkdb_python.Base.Integer.{ℤ, pos, is_zero}
use rethinkdb_python.Base.Exec.{Outcome, ok, raised, blocked, feed}
use rethinkdb_python.Errors.{Exn, builtin, key_error, index_error}
use rethinkdb_python.Net.Response.{
  Response, ResponseType, success_partial, success_sequence, make_error, MakesError,
  make_error-MakesError,
}
use rethinkdb_python.Net.World.{Codec, Cursor}
use rethinkdb_python.Net.Cursor.{
  fail_with, accept_new, accept_at, accept, unregister, drop_finished, extend_internal, wants_batch,
  refill, answered, received,
}

-- The count is not negative, and the cursor is in the cache as long as it may still get a response:
-- until it has ended and no request is open.
pub record IsTracked {Item V : Type 0} (c : Cursor Item V) : Type 0 where
  pub requests : ℕ
  pub counted : c.outstanding_requests ≡ pos requests
  pub cached : c.registered ≡ not (is_zero c.outstanding_requests && is_some c.error)

module _ {Item V : Type 0} (codec : Codec Item V) where
  not_and_false : (b : Bool) → not (b && false) ≡ true
  not_and_false true = refl
  not_and_false false = refl

  abbrev SameCount : Cursor Item V → Cursor Item V → Type 0
  SameCount c d = (d.outstanding_requests ≡ c.outstanding_requests) × (d.registered ≡ c.registered)

  fail_with-count : (o : Outcome Exn Exn) (c : Cursor Item V) → SameCount c (fail_with codec o c).1
  fail_with-count (ok e) c = (refl, refl)
  fail_with-count (raised x) c = (refl, refl)
  fail_with-count blocked c = (refl, refl)

  accept_new-count :
      (type : ResponseType) (res : Response Item) (c : Cursor Item V)
      → SameCount c (accept_new codec type res c).1
  unfolding accept_new
  accept_new-count success_partial res c = (refl, refl)
  accept_new-count success_sequence res c = (refl, refl)
  accept_new-count _ res c = fail_with-count (make_error codec.text res) c

  accept_at-count :
      (o : Option Exn) (res : Response Item) (c : Cursor Item V)
      → SameCount c (accept_at codec o res c).1
  unfolding accept_at
  accept_at-count none res c = accept_new-count res.type res c
  accept_at-count (some e) res c = (refl, refl)

  -- An exception on the way is one of `make_error`, and leaves the cursor without an error.
  abbrev Fails : Outcome Exn (Unit {0}) × Cursor Item V → Type 0
  Fails (ok _, c) = Unit
  Fails (raised x, c) = (c.error ≡ none) × (x ≡ builtin index_error)
  Fails (blocked, c) = ⊥

  fail_with-Fails :
      (o : Outcome Exn Exn) (c : Cursor Item V)
      → c.error ≡ none
      → MakesError codec.text o
      → Fails (fail_with codec o c)
  fail_with-Fails (ok e) c h m = tt
  fail_with-Fails (raised x) c h m = (h, m)
  fail_with-Fails blocked c h m = m

  accept_new-Fails :
      (type : ResponseType) (res : Response Item) (c : Cursor Item V)
      → c.error ≡ none
      → Fails (accept_new codec type res c)
  unfolding accept_new
  accept_new-Fails success_partial res c h = tt
  accept_new-Fails success_sequence res c h = tt
  accept_new-Fails _ res c h =
      fail_with-Fails (make_error codec.text res) c h (make_error-MakesError codec.text res)

  accept_at-Fails :
      (o : Option Exn) (res : Response Item) (c : Cursor Item V)
      → c.error ≡ o
      → Fails (accept_at codec o res c)
  unfolding accept_at
  accept_at-Fails none res c h = accept_new-Fails res.type res c h
  accept_at-Fails (some e) res c h = tt

  drop_finished_lem :
      (c : Cursor Item V)
      → c.registered ≡ true
      → ((drop_finished codec c).0 ≡ ok tt)
        × ((drop_finished codec c).1.outstanding_requests ≡ c.outstanding_requests)
        × ((drop_finished codec c).1.registered
            ≡ not (is_zero c.outstanding_requests && is_some c.error))
        × ((drop_finished codec c).1.error ≡ c.error)
  unfolding drop_finished unregister
  drop_finished_lem c h = ground arith

  -- How a response leaves a cursor that had `n + 1` requests open: the count is `n`, or 1 if the last was
  -- answered and the next batch asked for.
  abbrev pub left_open : Cursor Item V → ℕ → ℕ
  left_open c n = if wants_batch (answered c) then 1 else n

  refill_lem :
      (c : Cursor Item V) (n : ℕ)
      → c.outstanding_requests ≡ pos (suc n)
      → (refill (answered c)).outstanding_requests ≡ pos (left_open c n)
  refill_lem c n h = ground arith

  finish :
      (o : Outcome Exn (Unit {0})) (d : Cursor Item V) (z : ℤ)
      → d.registered ≡ true
      → d.outstanding_requests ≡ z
      → Fails (o, d)
      → ((feed o (λ _. drop_finished codec) d).0 ≢ raised (builtin key_error))
        × ((feed o (λ _. drop_finished codec) d).1.outstanding_requests ≡ z)
        × ((feed o (λ _. drop_finished codec) d).1.registered
            ≡ not (is_zero z && is_some (feed o (λ _. drop_finished codec) d).1.error))
  finish (ok _) d z h e f =
      let (out, count, cache, error) = drop_finished_lem d h in
      ((λ k. cc), count ∙ e, cache ∙ ap₂ (λ y o. not (is_zero y && is_some o)) e (sym error))
  finish (raised x) d z h e (none_yet, index) = (
    (λ k. cc),
    e,
    h ∙ sym (ap (λ o. not (is_zero z && is_some o)) none_yet ∙ not_and_false (is_zero z)),
  )
  finish blocked d z h e f = absurd f

  -- A response to one of `n + 1` open requests is taken off the count, and the request for the next
  -- batch, if one is wanted, is added. The cursor leaves the cache exactly when it has ended and no
  -- request is open, and the `del` does not fail.
  pub received-IsTracked :
      (res : Response Item) (c : Cursor Item V) (n : ℕ)
      → c.outstanding_requests ≡ pos (suc n)
      → c.registered ≡ true
      → ((received codec res c).0 ≢ raised (builtin key_error))
        × ((received codec res c).1.outstanding_requests ≡ pos (left_open c n))
        × IsTracked (received codec res c).1
  unfolding extend_internal accept
  received-IsTracked res c n h r =
      let asked : Cursor Item V = record (refill (answered c)) { threshold = length res.items } in
      let m = accept_at codec c.error res asked in
      let (count, cache) = accept_at-count c.error res asked in
      let (out, left, place) =
        finish m.0 m.1 (pos (left_open c n)) (cache ∙ r) (count ∙ refill_lem c n h)
          (accept_at-Fails c.error res asked refl) in
      (
        out,
        left,
        record {
          requests = left_open c n;
          counted = left;
          cached =
              place
              ∙ ap (λ z. not (is_zero z && is_some (received codec res c).1.error)) (sym left);
        },
      )
