-- ===== src/Asyncio/Ahead.antt =====
-- asyncio_net/net_asyncio.py: what `fetch_next` of a cursor says of its next item.
use rethinkdb_python.Base.{
  ◌≡◌, ◌≢◌, sym, subst, ◌⊎◌, inl, inr, arith, refl, ap, ◌∙◌, Bool, true, false, Option, none, some,
  List, [], ◌∷◌, ◌++◌,
}
use rethinkdb_python.Base.Exec.{Outcome, ok, raised, blocked, Exec, feed, gets}
use rethinkdb_python.Errors.{Exn}
use rethinkdb_python.Net.World.{Codec, Cursor}
use rethinkdb_python.Net.World.Laws.{Lacks}
use rethinkdb_python.Asyncio.State.{Instance, at_cursor}
use rethinkdb_python.Asyncio.Cursor.{
  is_cursor_empty, maybe_fetch_batch, wait_or_raise, fetch_from, next_from, fetch_next, get_next,
}
use rethinkdb_python.Asyncio.Closed.{at_cursor_lem, quiet_fetch}

-- An action that comes after another, and never returns, does not return.
feed_never :
    {S A B : Type 0} (x : Outcome Exn A × S) (f : A → Exec Exn S B)
    → ((a : A) (s : S) (b : B) → (f a s).0 ≢ ok b)
    → (b : B) → (feed x.0 f x.1).0 ≢ ok b
feed_never (ok a, s) f h b = h a s b
feed_never (raised e, s) f h b = λ k. cc
feed_never (blocked, s) f h b = λ k. cc

module _ {Item V : Type 0} (codec : Codec Item V) (w : Instance Item V)
    (before after : List (Cursor Item V)) where
  abbrev pub with_cursor : Cursor Item V → Instance Item V
  with_cursor c = record w { cursors = before ++ c ∷ after }

  -- What the next call for an item does where `fetch_next` has returned `b`.
  abbrev pub Foretold : Bool → Cursor Item V → Outcome Exn Item × Instance Item V → Type 0
  Foretold true c out =
      ((x : Item) × (xs : List Item) × (c.items ≡ x ∷ xs)
        × (out ≡ (ok x, with_cursor (record c { items = xs }))))
      ⊎ ((e : Exn) × (c.error ≡ some e)
          × (is_cursor_empty e ≡ false)
          × (out ≡ (raised e, with_cursor c)))
  Foretold false c out =
      (e : Exn) × (c.items ≡ []) × (is_cursor_empty e ≡ true) × (out ≡ (raised e, with_cursor c))

  get_next_item :
      (c : Cursor Item V) (x : Item) (xs : List Item)
      → Lacks c.query.token before
      → c.items ≡ x ∷ xs
      → get_next codec c.query.token (with_cursor c) ≡ (ok x, with_cursor (record c { items = xs }))
  unfolding get_next next_from
  get_next_item c x xs lacks e = rw (at_cursor_lem w before after c _ lacks) (
      ap (λ is. next_from codec is c.query.token (with_cursor c)) e
      ∙ rw (at_cursor_lem w before after c _ lacks))

  get_next_error :
      (c : Cursor Item V) (e : Exn)
      → Lacks c.query.token before
      → c.items ≡ []
      → c.error ≡ some e
      → get_next codec c.query.token (with_cursor c) ≡ (raised e, with_cursor c)
  unfolding get_next next_from
  get_next_error c e lacks empty failed = rw (at_cursor_lem w before after c _ lacks) (
      ap (λ is. next_from codec is c.query.token (with_cursor c)) empty
      ∙ rw (quiet_fetch codec w before after c e failed lacks) (
          rw (at_cursor_lem w before after c _ lacks)
            (ap (λ o. wait_or_raise codec o (with_cursor c)) failed)))

  -- `fetch_next`, by the items and the error of the cursor.
  fetch_next_lem :
      (c : Cursor Item V)
      → Lacks c.query.token before
      → fetch_next codec c.query.token (with_cursor c)
        ≡ fetch_from codec c.items c.error c.query.token (with_cursor c)
  unfolding fetch_next
  fetch_next_lem c lacks = rw (at_cursor_lem w before after c _ lacks)

  waits_never :
      (o : Option Exn) (v : Instance Item V) (b : Bool) → (wait_or_raise codec o v).0 ≢ ok b
  waits_never none v b = λ k. cc
  waits_never (some e) v b = λ k. cc

  fetch_from-Foretold :
      (items : List Item) (error : Option Exn) (c : Cursor Item V) (b : Bool)
      → Lacks c.query.token before
      → c.items ≡ items
      → c.error ≡ error
      → (fetch_from codec items error c.query.token (with_cursor c)).0 ≡ ok b
      → Foretold b c (
          get_next codec c.query.token
            (fetch_from codec items error c.query.token (with_cursor c)).1)
  unfolding fetch_from
  fetch_from-Foretold (x ∷ xs) error c true lacks e f h =
      inl (x, xs, e, get_next_item c x xs lacks e)
  fetch_from-Foretold (x ∷ xs) error c false lacks e f h = cc
  fetch_from-Foretold [] (some y) c true lacks e f h =
      inr (y, f, ground (arith), get_next_error c y lacks e f)
  fetch_from-Foretold [] (some y) c false lacks e f h =
      (y, e, ground (arith), get_next_error c y lacks e f)
  fetch_from-Foretold [] none c b lacks e f h = absurd (
      feed_never (maybe_fetch_batch codec c.query.token (with_cursor c)) _
        (λ _ v. feed_never (at_cursor c.query.token (gets (λ d. d.error)) v) _ waits_never) b h)

  -- What `fetch_next` returns is true of the call of `_get_next` that follows it: after True that takes the
  -- first item, or raises the error of the cursor, which is not that of an empty cursor; after False there is no
  -- item, and it raises the error of an empty cursor. The condition is that no cursor before this one has its
  -- token.
  pub fetch_next-Foretold :
      (c : Cursor Item V) (b : Bool)
      → Lacks c.query.token before
      → (fetch_next codec c.query.token (with_cursor c)).0 ≡ ok b
      → Foretold b c
          (get_next codec c.query.token (fetch_next codec c.query.token (with_cursor c)).1)
  fetch_next-Foretold c b lacks h =
      subst (λ r. Foretold b c (get_next codec c.query.token r.1)) (sym (fetch_next_lem c lacks))
        (fetch_from-Foretold c.items c.error c b lacks refl refl
          (ap (λ r. r.0) (sym (fetch_next_lem c lacks)) ∙ h))
