-- ===== src/Net/World/Laws.antt =====
-- An action on one cursor of several, with the others written out.
use rethinkdb_python.Base.{ℕ, ◌≡◌, refl, false, some, List, [], ◌∷◌, ◌++◌, All, ◌==◌, ==_refl}
use rethinkdb_python.Base.Exec.{Exec}
use rethinkdb_python.Errors.{Exn}
use rethinkdb_python.Net.World.{Cursor, World, find_cursor, replace_cursor, at_cursor}

module _ {Item V : Type 0} where
  -- No cursor of the list has token `t`.
  abbrev pub Lacks : ℕ → List (Cursor Item V) → Type 0
  Lacks t = All (λ c. (c.query.token == t) ≡ false)

  pub find_cursor-append :
      (t : ℕ) (before after : List (Cursor Item V)) (c : Cursor Item V)
      → Lacks t before
      → c.query.token ≡ t
      → find_cursor t (before ++ c ∷ after) ≡ some c
  find_cursor-append t [] after c h e = rw (e, ==_refl t)
  find_cursor-append t (b ∷ before) after c h e = rw h.0 (find_cursor-append t before after c h.1 e)

  pub replace_cursor-append :
      (t : ℕ) (before after : List (Cursor Item V)) (c d : Cursor Item V)
      → Lacks t before
      → c.query.token ≡ t
      → replace_cursor t d (before ++ c ∷ after) ≡ before ++ d ∷ after
  replace_cursor-append t [] after c d h e = rw (e, ==_refl t)
  replace_cursor-append t (b ∷ before) after c d h e =
      rw h.0 (rw (replace_cursor-append t before after c d h.1 e))

  -- `at_cursor` runs the method on the one cursor, and leaves the others and the rest alone.
  pub at_cursor_lem :
      {A : Type 0} (w : World Item V) (before after : List (Cursor Item V)) (c : Cursor Item V)
      (m : Exec Exn (Cursor Item V) A)
      → Lacks c.query.token before
      → at_cursor c.query.token m (record w { cursors = before ++ c ∷ after })
        ≡ ((m c).0, record w { cursors = before ++ (m c).1 ∷ after })
  unfolding at_cursor
  at_cursor_lem w before after c m h =
      rw (find_cursor-append c.query.token before after c h refl, at_cursor)
        (rw (replace_cursor-append c.query.token before after c (m c).1 h refl))
