-- ===== src/Net/Cursor/Stream.antt =====
-- A cursor hands out what the server sent, once and in order.
use rethinkdb_python.Base.{
  ◌≡◌, refl, sym, ap, ◌∙◌, Option, none, some, List, [], ◌∷◌, ◌++◌, append_assoc, append-nil, arith,
  Option-cases, inl, inr, length,
}
use mathlib.Core.Path.{ap₂}
use rethinkdb_python.Base.Exec.{Outcome, ok, raised, blocked, feed}
use rethinkdb_python.Errors.{Exn}
use rethinkdb_python.Net.Response.{
  Response, ResponseType, success_partial, success_sequence, make_error,
}
use rethinkdb_python.Net.World.{Codec, Cursor}
use rethinkdb_python.Net.Cursor.{
  empty_error, fail_with, accept_new, accept_at, accept, unregister, drop_finished, extend_internal,
  refill, answered, received,
}

-- What happens to a cursor: a response for it arrives, or its user takes an item.
pub data Event (Item : Type 0) : Type 0 where
  arrives : Response Item → Event Item
  taken : Event Item

module _ {Item V : Type 0} (codec : Codec Item V) where
  abbrev error_of : Outcome Exn Exn → Option Exn
  error_of (ok e) = some e
  error_of _ = none

  -- What a response adds to the stream, and how it ends it.
  abbrev payload : ResponseType → Response Item → List Item
  payload success_partial res = res.items
  payload success_sequence res = res.items
  payload _ res = []

  abbrev verdict : ResponseType → Response Item → Option Exn
  verdict success_partial res = none
  verdict success_sequence res = some empty_error
  verdict _ res = error_of (make_error codec.text res)

  fail_with-keeps :
      (o : Outcome Exn Exn) (c : Cursor Item V)
      → c.error ≡ none
      → ((fail_with codec o c).1.items ≡ c.items) × ((fail_with codec o c).1.error ≡ error_of o)
  fail_with-keeps (ok e) c h = (refl, refl)
  fail_with-keeps (raised x) c h = (refl, h)
  fail_with-keeps blocked c h = (refl, h)

  accept_new_lem :
      (type : ResponseType) (res : Response Item) (c : Cursor Item V)
      → c.error ≡ none
      → ((accept_new codec type res c).1.items ≡ c.items ++ payload type res)
        × ((accept_new codec type res c).1.error ≡ verdict type res)
  unfolding accept_new
  accept_new_lem success_partial res c h = (refl, h)
  accept_new_lem success_sequence res c h = (refl, refl)
  accept_new_lem _ res c h = rw append-nil (fail_with-keeps (make_error codec.text res) c h)

  drop_finished_keeps :
      (c : Cursor Item V)
      → ((drop_finished codec c).1.items ≡ c.items) × ((drop_finished codec c).1.error ≡ c.error)
  unfolding drop_finished unregister
  drop_finished_keeps c = ground arith

  then_drop_keeps :
      (o : Outcome Exn (Unit {0})) (c : Cursor Item V)
      → ((feed o (λ _. drop_finished codec) c).1.items ≡ c.items)
        × ((feed o (λ _. drop_finished codec) c).1.error ≡ c.error)
  then_drop_keeps (ok _) c = drop_finished_keeps c
  then_drop_keeps (raised x) c = (refl, refl)
  then_drop_keeps blocked c = (refl, refl)

  accept_at_new :
      (o : Option Exn) (res : Response Item) (c : Cursor Item V)
      → o ≡ none
      → c.error ≡ none
      → ((accept_at codec o res c).1.items ≡ c.items ++ payload res.type res)
        × ((accept_at codec o res c).1.error ≡ verdict res.type res)
  unfolding accept_at
  accept_at_new none res c e h = accept_new_lem res.type res c h
  accept_at_new (some x) res c e h = cc

  accept_at_ended :
      (o : Option Exn) (res : Response Item) (c : Cursor Item V) (x : Exn)
      → o ≡ some x
      → accept_at codec o res c ≡ (ok tt, c)
  unfolding accept_at
  accept_at_ended none res c x e = cc
  accept_at_ended (some y) res c x e = refl

  -- The cursor as `accept` finds it, in `_extend_internal`.
  abbrev asked : Response Item → Cursor Item V → Cursor Item V
  asked res c = record (refill (answered c)) { threshold = length res.items }

  -- A cursor that has not ended adds the items of the response behind its own, and ends as the response
  -- says.
  pub received_new :
      (res : Response Item) (c : Cursor Item V)
      → c.error ≡ none
      → ((received codec res c).1.items ≡ c.items ++ payload res.type res)
        × ((received codec res c).1.error ≡ verdict res.type res)
  unfolding extend_internal accept
  received_new res c h =
      let kept =
        then_drop_keeps (accept_at codec c.error res (asked res c)).0
          (accept_at codec c.error res (asked res c)).1 in
      let new = accept_at_new c.error res (asked res c) h h in (kept.0 ∙ new.0, kept.1 ∙ new.1)

  -- A cursor that has ended ignores what else comes.
  pub received_ended :
      (res : Response Item) (c : Cursor Item V) (e : Exn)
      → c.error ≡ some e
      → ((received codec res c).1.items ≡ c.items) × ((received codec res c).1.error ≡ c.error)
  unfolding extend_internal accept
  received_ended res c e h =
      let kept =
        then_drop_keeps (accept_at codec c.error res (asked res c)).0
          (accept_at codec c.error res (asked res c)).1 in
      let same = accept_at_ended c.error res (asked res c) e h in
      (kept.0 ∙ ap (λ r. r.1.items) same, kept.1 ∙ ap (λ r. r.1.error) same)

  -- `popleft`, if there is an item.
  abbrev pop_from : List Item → Cursor Item V → List Item × Cursor Item V
  pop_from [] c = ([], c)
  pop_from (x ∷ xs) c = (x ∷ [], record c { items = xs })

  -- The items that the user got, and the cursor at the end.
  unfoldable pub run : List (Event Item) → Cursor Item V → List Item × Cursor Item V
  run [] c = ([], c)
  run (arrives res ∷ es) c = run es (received codec res c).1
  run (taken ∷ es) c = let (xs, d) = pop_from c.items c in let (ys, e) = run es d in (xs ++ ys, e)

  -- The stream that the responses carry, up to the one that ends it; of a stream that has ended, nothing.
  abbrev pub contents : Option Exn → List (Event Item) → List Item
  contents none [] = []
  contents none (arrives res ∷ es) = payload res.type res ++ contents (verdict res.type res) es
  contents none (taken ∷ es) = contents none es
  contents (some e) es = []

  contents_nil : (o : Option Exn) → contents o [] ≡ []
  contents_nil none = refl
  contents_nil (some e) = refl

  contents_taken :
      (o : Option Exn) (es : List (Event Item)) → contents o (taken ∷ es) ≡ contents o es
  contents_taken none es = refl
  contents_taken (some e) es = refl

  -- The step of the theorem for an arrival.
  contents_arrives :
      (res : Response Item) (es : List (Event Item)) (c : Cursor Item V)
      → (received codec res c).1.items ++ contents (received codec res c).1.error es
        ≡ c.items ++ contents c.error (arrives res ∷ es)
  contents_arrives res es c = elim (Option-cases c.error) [
    | inl h ↦
        let (items, error) = received_new res c h in
        ap₂ (λ xs o. xs ++ contents o es) items error
        ∙ append_assoc c.items _ _
        ∙ ap (λ o. c.items ++ contents o (arrives res ∷ es)) (sym h)
    | inr (x, h) ↦
        let (items, error) = received_ended res c x h in
        ap₂ (λ xs o. xs ++ contents o es) items (error ∙ h)
        ∙ ap (λ o. c.items ++ contents o (arrives res ∷ es)) (sym h)
  ]

  pop_from_lem :
      (xs : List Item) (c : Cursor Item V)
      → c.items ≡ xs
      → ((pop_from xs c).0 ++ (pop_from xs c).1.items ≡ c.items)
        × ((pop_from xs c).1.error ≡ c.error)
  pop_from_lem [] c h = (refl, refl)
  pop_from_lem (x ∷ xs) c h = (sym h, refl)

  -- However the arrivals and the reads interleave, what the user got and what the cursor still holds are
  -- together what it held before and the items of the responses, in order, up to the response that
  -- ended the stream; if the stream had ended before, nothing is added.
  pub run-contents :
      (es : List (Event Item)) (c : Cursor Item V)
      → (run es c).0 ++ (run es c).1.items ≡ c.items ++ contents c.error es
  unfolding run
  run-contents [] c = rw contents_nil (sym (append-nil c.items))
  run-contents (arrives res ∷ es) c =
      run-contents es (received codec res c).1 ∙ contents_arrives res es c
  run-contents (taken ∷ es) c =
      let (xs, d) = pop_from c.items c in
      let (items, error) = pop_from_lem c.items c refl in
      append_assoc xs _ _
      ∙ ap (λ ys. xs ++ ys) (run-contents es d)
      ∙ sym (append_assoc xs d.items _)
      ∙ ap₂ (λ ys o. ys ++ contents o es) items error
      ∙ ap (λ ys. c.items ++ ys) (sym (contents_taken c.error es))
