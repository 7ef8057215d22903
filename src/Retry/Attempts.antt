-- ===== src/Retry/Attempts.antt =====
-- utils_common.py, `RetryQuery`: which connections a call uses, and what it returns.
use rethinkdb_python.Base.{
  ℕ, zero, suc, ◌≤◌, ◌<◌, ◌≡◌, refl, sym, ◌∙◌, Bool, true, false, ◌||◌, Bool-cases, inl, inr,
  Option, none, some, List, [], ◌∷◌, ◌++◌, map, append_assoc, append-nil, All, length, drop, arith,
}
use rethinkdb_python.Base.Exec.{Outcome, ok, raised, blocked}
use rethinkdb_python.Errors.{ErrorClass, reql_error, timeout_error, driver_error, is_instance}
use rethinkdb_python.Retry.{
  Failure, during, unbound_local, Local, Loop, first, rest, keep, conn, check_cached, cache_new,
  after_conn, run_on, after_run, tries, call,
}

-- What `__call__` takes for an error of the connection.
abbrev pub is_connection_error : ErrorClass → Bool
is_connection_error e = is_instance e timeout_error || is_instance e driver_error

abbrev pub repeat : ℕ → ℕ → List ℕ
repeat zero c = []
repeat (suc k) c = c ∷ repeat k c

module _ {R : Type 0} where
  -- The cached connection `c` is still cached, no connection was opened or tested, and the query was run
  -- on `c` at most `n` times and on no other.
  abbrev pub StaysOn : ℕ → ℕ → Local R → Local R → Type 0
  StaysOn n c s t =
      (t.cached ≡ some c)
      × (t.connects ≡ s.connects)
      × (t.checks ≡ s.checks)
      × ((k : ℕ) × (k ≤ n) × (t.used ≡ s.used ++ repeat k c) × (t.runs ≡ drop k s.runs))

  conn-cached : (c : ℕ) (s : Local R) → s.cached ≡ some c → conn false s ≡ (ok c, s)
  unfolding conn check_cached cache_new
  conn-cached c s h = simp h

  -- A round with a cached connection runs the query on it.
  tries-cached :
      (n c : ℕ) (last : Option Failure) (var : Option ℕ) (s : Local R)
      → s.cached ≡ some c
      → tries (suc n) last var false s
        ≡ after_run
            (tries n)
            last
            c
            false
            (first s.runs)
            (record s { runs = rest s.runs; used = s.used ++ c ∷ [] })
  unfolding tries after_conn run_on
  tries-cached n c last var s h = rw (conn-cached c s h)

  -- The script and the list of connections after a run on `c`.
  abbrev after : ℕ → Local R → Local R
  after c s = record s { runs = rest s.runs; used = s.used ++ c ∷ [] }

  drop-rest : (k : ℕ) (os : List (Outcome ErrorClass R)) → drop k (rest os) ≡ drop (suc k) os
  drop-rest zero [] = refl
  drop-rest (suc k) [] = refl
  drop-rest k (o ∷ os) = refl

  StaysOn-here : (n c : ℕ) (s : Local R) → s.cached ≡ some c → StaysOn n c s s
  StaysOn-here n c s h = (h, refl, refl, (0, omega arith, sym (append-nil s.used), refl))

  StaysOn-after : (n c : ℕ) (s t : Local R) → StaysOn n c (after c s) t → StaysOn (suc n) c s t
  StaysOn-after n c s t (cached, connects, checks, (k, few, used, runs)) = (
    cached,
    connects,
    checks,
    (
      suc k,
      omega (arith, few),
      used ∙ append_assoc s.used (c ∷ []) (repeat k c),
      runs ∙ drop-rest k s.runs,
    ),
  )

  after_run-StaysOn :
      (n c : ℕ) (next : Loop R) (last : Option Failure) (o : Outcome ErrorClass R) (s : Local R)
      → s.cached ≡ some c
      → ((f : Option Failure) → StaysOn n c (after c s) (next f (some c) false (after c s)).1)
      → StaysOn (suc n) c s (after_run next last c false o (after c s)).1
  unfolding after_run
  after_run-StaysOn n c next last (ok x) s h ih =
      StaysOn-after n c s _ (StaysOn-here n c (after c s) h)
  after_run-StaysOn n c next last (raised e) s h ih = elim (Bool-cases (is_connection_error e)) [
    | inl b ↦ rw b (StaysOn-after n c s _ (ih (some (during e))))
    | inr b ↦ rw b (StaysOn-after n c s _ (StaysOn-here n c (after c s) h))
  ]
  after_run-StaysOn n c next last blocked s h ih =
      StaysOn-after n c s _ (StaysOn-here n c (after c s) h)

  tries-StaysOn :
      (n c : ℕ) (last : Option Failure) (var : Option ℕ) (s : Local R)
      → s.cached ≡ some c
      → StaysOn n c s (tries n last var false s).1
  tries-StaysOn zero c last var s h = unfold tries in StaysOn-here zero c s h
  tries-StaysOn (suc n) c last var s h = rw (tries-cached n c last var s h) (
      after_run-StaysOn n c (tries n) last (first s.runs) s h
        (λ f. tries-StaysOn n c f (some c) (after c s) h))

  -- A call with a cached connection `c` keeps it, whatever happens: it opens and tests no connection, and
  -- runs the query on `c` only, at most `times` times. So a connection that is broken is not replaced.
  pub call-StaysOn :
      (n c : ℕ) (test : Bool) (s : Local R) → s.cached ≡ some c → StaysOn n c s (call n test s).1
  unfolding call
  call-StaysOn zero c test s h = StaysOn-here zero c s h
  call-StaysOn (suc n) c test s h = tries-StaysOn (suc n) c none none s h

  -- If the first connection cannot be made, the variable `conn` has no value when the query is to be
  -- run, and the call fails with Python's own error at once, whatever `times` is.
  pub call_unbound :
      (n : ℕ) (test : Bool) (s : Local R) (e : ErrorClass) (os : List (Outcome ErrorClass ℕ))
      → s.cached ≡ none
      → s.connects ≡ raised e ∷ os
      → is_instance e reql_error ≡ true
      → call (suc n) test s ≡ (raised unbound_local, record s { connects = os })
  unfolding call tries conn check_cached cache_new keep after_conn run_on
  call_unbound n test s e os h script bad = simp (h, script, bad)

  tries_retries :
      (n c : ℕ) (last : Option Failure) (var : Option ℕ) (s : Local R) (es : List ErrorClass)
      (x : R) (os : List (Outcome ErrorClass R))
      → s.cached ≡ some c
      → s.runs ≡ map raised es ++ ok x ∷ os
      → All (λ e. is_connection_error e ≡ true) es
      → length es < n
      → (tries n last var false s).0 ≡ ok (some x)
  unfolding after_run
  tries_retries zero c last var s es x os h script bad enough = absurd (omega arith)
  tries_retries (suc n) c last var s [] x os h script bad enough =
      rw (tries-cached n c last var s h) (simp script)
  tries_retries (suc n) c last var s (e ∷ es) x os h script bad enough =
      rw (tries-cached n c last var s h) (
        simp (script, bad.0)
          (tries_retries n c (some (during e)) (some c) _ es x os h refl bad.1 (omega arith)))

  -- A call on a cached connection returns the result of the first run that succeeds, where all before it
  -- failed with errors of the connection, and there are fewer of these than `times`.
  pub call_retries :
      (n c : ℕ) (test : Bool) (s : Local R) (es : List ErrorClass) (x : R)
      (os : List (Outcome ErrorClass R))
      → s.cached ≡ some c
      → s.runs ≡ map raised es ++ ok x ∷ os
      → All (λ e. is_connection_error e ≡ true) es
      → length es < n
      → (call n test s).0 ≡ ok (some x)
  unfolding call
  call_retries zero c test s es x os h script bad enough = absurd (omega arith)
  call_retries (suc n) c test s es x os h script bad enough =
      tries_retries (suc n) c none none s es x os h script bad enough
