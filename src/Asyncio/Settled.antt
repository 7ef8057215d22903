-- ===== src/Asyncio/Settled.antt =====
-- asyncio_net/net_asyncio.py: what may become of the queries of a connection.
pub mod Steps
pub mod Runs
use rethinkdb_python.Base.{
  ℕ, ◌≡◌, refl, sym, ap, ◌∙◌, subst, Bool, true, false, ◌&&◌, Option, none, some, List, [], ◌∷◌,
  ◌++◌, arith, All, ◌==◌, if◌then◌else◌, Bool-cases, inl, inr,
}
use rethinkdb_python.Base.Exec.{Outcome, ok, raised, blocked, feed, ◌>>=◌}
use rethinkdb_python.Errors.{Exn}
use rethinkdb_python.Asyncio.State.{
  Future, pending, UserQuery, Instance, Action, find_query, update_query, unlist, is_pending,
}
use rethinkdb_python.Asyncio.Frame.{IsSteady, Steady}

module _ {Item V : Type 0} where
  -- A query that is not in the table has its answer.
  abbrev pub IsAccounted : UserQuery Item V → Type 0
  IsAccounted q = q.listed ≡ false → is_pending q.future ≡ false

  -- `p` is what became of `q`: a future that is done stays as it is, and a query is only taken out of the
  -- table, for good, when its future is done.
  pub record Follows (q p : UserQuery Item V) : Type 0 where
    pub same : p.query ≡ q.query
    pub settled : is_pending q.future ≡ false → p.future ≡ q.future
    pub gone : q.listed ≡ false → p.listed ≡ false
    pub accounted : IsAccounted q → IsAccounted p

  pub Follows-refl : (q : UserQuery Item V) → Follows q q
  Follows-refl q = record { same = refl; settled = λ h. refl; gone = λ h. h; accounted = λ h. h }

  Follows-trans : {q p r : UserQuery Item V} → Follows q p → Follows p r → Follows q r
  Follows-trans f g = record {
    same = g.same ∙ f.same;
    settled = λ h. g.settled (ap is_pending (f.settled h) ∙ h) ∙ f.settled h;
    gone = λ h. g.gone (f.gone h);
    accounted = λ h. g.accounted (f.accounted h);
  }

  -- Each query becomes one that follows it, and those that are new are in the table.
  abbrev pub Evolves : List (UserQuery Item V) → List (UserQuery Item V) → Type 0
  Evolves [] ps = All IsAccounted ps
  Evolves (q ∷ qs) [] = ⊥
  Evolves (q ∷ qs) (p ∷ ps) = Follows q p × Evolves qs ps

  pub Evolves-refl : (qs : List (UserQuery Item V)) → Evolves qs qs
  Evolves-refl [] = tt
  Evolves-refl (q ∷ qs) = (Follows-refl q, Evolves-refl qs)

  pub Evolves-IsAccounted :
      (qs ps : List (UserQuery Item V)) → Evolves qs ps → All IsAccounted qs → All IsAccounted ps
  Evolves-IsAccounted [] ps e a = e
  Evolves-IsAccounted (q ∷ qs) [] e a = absurd e
  Evolves-IsAccounted (q ∷ qs) (p ∷ ps) (f, e) (a, as_) =
      (f.accounted a, Evolves-IsAccounted qs ps e as_)

  pub Evolves-trans :
      (qs ps rs : List (UserQuery Item V)) → Evolves qs ps → Evolves ps rs → Evolves qs rs
  Evolves-trans [] ps rs e f = Evolves-IsAccounted ps rs f e
  Evolves-trans (q ∷ qs) [] rs e f = absurd e
  Evolves-trans (q ∷ qs) (p ∷ ps) [] e f = absurd f
  Evolves-trans (q ∷ qs) (p ∷ ps) (r ∷ rs) (a, e) (b, f) =
      (Follows-trans a b, Evolves-trans qs ps rs e f)

  pub Evolves-append :
      (qs : List (UserQuery Item V)) (q : UserQuery Item V)
      → q.listed ≡ true
      → Evolves qs (qs ++ q ∷ [])
  Evolves-append [] q h = ((λ e. cc), tt)
  Evolves-append (p ∷ qs) q h = (Follows-refl p, Evolves-append qs q h)

  -- To change the query that `find_query` finds.
  pub update_query-Evolves :
      (t : ℕ) (f : UserQuery Item V → UserQuery Item V) (qs : List (UserQuery Item V))
      → ((q : UserQuery Item V) → find_query t qs ≡ some q → Follows q (f q))
      → Evolves qs (update_query t f qs)
  update_query-Evolves t f [] h = tt
  update_query-Evolves t f (q ∷ qs) h = elim (Bool-cases (q.listed && q.query.token == t)) [
    | inl e ↦ rw e (h q (rw e), Evolves-refl qs)
    | inr e ↦ rw e (Follows-refl q, update_query-Evolves t f qs (λ p k. h p (rw e k)))
  ]

  -- Two changes of the same query, the first of which leaves it in the table.
  pub update_query-update_query :
      (t : ℕ) (f g : UserQuery Item V → UserQuery Item V) (qs : List (UserQuery Item V))
      → ((q : UserQuery Item V)
          → ((f q).listed && (f q).query.token == t) ≡ (q.listed && q.query.token == t))
      → update_query t g (update_query t f qs) ≡ update_query t (λ q. g (f q)) qs
  update_query-update_query t f g [] h = refl
  update_query-update_query t f g (q ∷ qs) h = elim (Bool-cases (q.listed && q.query.token == t)) [
    | inl e ↦ rw e (rw (h q ∙ e))
    | inr e ↦ rw e (rw e (rw (update_query-update_query t f g qs h)))
  ]

  -- However the action ends, the queries became others that follow them.
  pub record Grows {A : Type 0} (m : Action Item V A) : Type 0 where
    pub at : (w : Instance Item V) → Evolves w.queries (m w).1.queries

  pub of_same : (w v : Instance Item V) → v.queries ≡ w.queries → Evolves w.queries v.queries
  of_same w v e = rw e (Evolves-refl w.queries)

  pub Steady-Grows : {A : Type 0} (m : Action Item V A) → Steady m → Grows m
  Steady-Grows m s = record { at = λ w. of_same w (m w).1 (s.at w).queries }

  feed-Evolves :
      {A B : Type 0} (x : Outcome Exn A × Instance Item V) (f : A → Action Item V B)
      → ((a : A) → Evolves x.1.queries (f a x.1).1.queries)
      → Evolves x.1.queries (feed x.0 f x.1).1.queries
  feed-Evolves (ok a, t) f q = q a
  feed-Evolves (raised e, t) f q = Evolves-refl t.queries
  feed-Evolves (blocked, t) f q = Evolves-refl t.queries

  pub >>=-Grows :
      {A B : Type 0} (m : Action Item V A) (f : A → Action Item V B)
      → Grows m
      → ((a : A) → Grows (f a))
      → Grows (m >>= f)
  >>=-Grows m f p q = record {
    at = λ w.
        Evolves-trans w.queries (m w).1.queries (feed (m w).0 f (m w).1).1.queries (p.at w)
          (feed-Evolves (m w) f (λ a. (q a).at (m w).1));
  }

  -- What comes after a steady action finds the queries as they were.
  pub >>=-Evolves :
      {A B : Type 0} (m : Action Item V A) (f : A → Action Item V B) (w : Instance Item V)
      → Steady m
      → ((a : A) (v : Instance Item V)
          → v.queries ≡ w.queries
          → Evolves v.queries (f a v).1.queries)
      → Evolves w.queries ((m >>= f) w).1.queries
  >>=-Evolves m f w s q =
      Evolves-trans w.queries (m w).1.queries (feed (m w).0 f (m w).1).1.queries
        (of_same w (m w).1 (s.at w).queries)
        (feed-Evolves (m w) f (λ a. q a (m w).1 (s.at w).queries))
