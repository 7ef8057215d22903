-- ===== src/Tools/Import/Batches.antt =====
-- _import.py, `SourceFile.batches`: what the batches are that the loop yields, on a source that gives its
-- rows without asking for more data.
use rethinkdb_python.Base.{
  ℕ, zero, suc, ◌≤◌, ◌<◌, ◌≡◌, ◌≢◌, refl, sym, ap, ◌∙◌, List, [], ◌∷◌, ◌++◌, length, length-append,
  append-nil, append_assoc, leb, leb→le, leb-false→lt, Bool-cases, inl, inr, All, arith,
}
use rethinkdb_python.Base.Exec.{Outcome, ok, raised}
use rethinkdb_python.Tools.Import.{
  Raised, need_more_data, stop_iteration, SourceFile, Run, yield, stopped, on_raise, after_line,
  read_loop,
}

module _ {A : Type 0} where
  unfoldable pub concat : List (List A) → List A
  concat [] = []
  concat (xs ∷ xss) = xs ++ concat xss

  pub concat-append : (bs : List (List A)) (b : List A) → concat (bs ++ b ∷ []) ≡ concat bs ++ b
  unfolding concat
  concat-append [] b = append-nil b
  concat-append (c ∷ bs) b =
      ap (λ x. c ++ x) (concat-append bs b) ∙ sym (append_assoc c (concat bs) b)

  -- All batches are full but the last, which has a row.
  abbrev pub IsCut : ℕ → List (List A) → Type 0
  IsCut size [] = Unit
  IsCut size (batch ∷ []) = (0 < length batch) × (length batch ≤ size)
  IsCut size (batch ∷ rest) = (length batch ≡ size) × IsCut size rest

  pub IsCut-full :
      (size : ℕ) (batch : List A) (rest : List (List A))
      → 0 < size
      → length batch ≡ size
      → IsCut size rest
      → IsCut size (batch ∷ rest)
  IsCut-full size batch [] positive full cut = (omega arith, omega arith)
  IsCut-full size batch (b ∷ rest) positive full cut = (full, cut)

-- A run that has ended well, with the rows of `batch` and then `rows`.
abbrev pub Delivers : {S Row : Type 0} → ℕ → List Row → List Row → Run S Row → Type 0
Delivers {S} {Row} size batch rows run =
    (bs : List (List Row)) × (s : S) × (run ≡ (bs, (ok tt, s)))
    × (concat bs ≡ batch ++ rows)
    × IsCut size bs

module _ {S Row : Type 0} (file : SourceFile S Row) where
  -- `get_line` gives the rows, one after the other, and the source is then in the last state.
  abbrev pub Gives : S → List Row → S → Type 0
  Gives s [] t = s ≡ t
  Gives s (row ∷ rows) t = (u : S) × (file.get_line s ≡ (ok row, u)) × Gives u rows t

  unfoldable pub yield_all : List (List Row) → Run S Row → Run S Row
  yield_all [] run = run
  yield_all (batch ∷ bs) run = yield batch (yield_all bs run)

  after_line-raised :
      (e : Raised) (loop : List Row → S → Run S Row) (batch : List Row) (s t : S)
      → file.get_line s ≡ (raised e, t)
      → e ≢ need_more_data
      → after_line file loop batch (file.get_line s) ≡ on_raise file e batch t
  unfolding after_line
  after_line-raised need_more_data loop batch s t h other = absurd (other refl)
  after_line-raised e loop batch s t h other = rw h refl

  -- Full batches, and then `e`, with the rows of `over` in no batch yet.
  abbrev pub Ends : Raised → S → ℕ → List Row → List Row → Run S Row → Type 0
  Ends e u size batch rows run =
      (bs : List (List Row)) × (over : List Row) × (run ≡ yield_all bs (on_raise file e over u))
      × (concat bs ++ over ≡ batch ++ rows)
      × All (λ b. length b ≡ size) bs
      × (length over < size)

  module _ (e : Raised) (other : e ≢ need_more_data) (t u : S)
      (ends : file.get_line t ≡ (raised e, u)) (size : ℕ) (positive : 0 < size) where
    abbrev Serves : ℕ → Type 0
    Serves n =
        (batch rows : List Row) (s : S)
        → Gives s rows t
        → length rows < n
        → length batch ≤ size
        → Ends e u size batch rows (read_loop file n size batch s)

    after_line-Ends :
        (n : ℕ)
        → Serves n
        → (batch rows : List Row) (s : S) → Gives s rows t
        → length rows < suc n
        → length batch < size
        → Ends e u size batch rows (after_line file (read_loop file n size) batch (file.get_line s))
    unfolding yield_all concat
    after_line-Ends n serves batch [] s gives small short = (
      [],
      batch,
      after_line-raised e (read_loop file n size) batch s u (ap file.get_line gives ∙ ends) other,
      sym (append-nil batch),
      tt,
      short,
    )
    after_line-Ends n serves batch (row ∷ rows) s (v, reads, gives) small short =
        let longer = length-append batch (row ∷ []) in
        let (bs, over, done, all, full, less) =
          serves (batch ++ row ∷ []) rows v gives (omega arith) (omega arith) in
        (
          bs,
          over,
          unfold after_line in rw reads done,
          all ∙ append_assoc batch (row ∷ []) rows,
          full,
          less,
        )

    -- The loop on a source that gives `rows`, and then raises `e`.
    pub read_loop-Ends : (n : ℕ) → Serves n
    unfolding read_loop yield_all concat
    read_loop-Ends zero batch rows s gives small short = absurd (omega arith)
    read_loop-Ends (suc n) batch rows s gives small short =
        elim (Bool-cases (leb size (length batch))) [
          | inl full ↦
              let at_least = leb→le size (length batch) full in
              let (bs, over, done, all, filled, less) =
                after_line-Ends n (read_loop-Ends n) [] rows s gives small positive in
              (
                batch ∷ bs,
                over,
                rw full (ap (yield batch) done),
                append_assoc batch (concat bs) over ∙ ap (λ x. batch ++ x) all,
                (omega arith, filled),
                less,
              )
          | inr part ↦ rw part (
              after_line-Ends n (read_loop-Ends n) batch rows s gives small
                (leb-false→lt size (length batch) part))
        ]

  pub yield_all-append :
      (bs cs : List (List Row)) (o : Outcome Raised (Unit {0}) × S)
      → yield_all bs (cs, o) ≡ (bs ++ cs, o)
  unfolding yield_all yield
  yield_all-append [] cs o = refl
  yield_all-append (b ∷ bs) cs o = ap (yield b) (yield_all-append bs cs o)

  IsCut-append :
      (size : ℕ) (bs cs : List (List Row))
      → 0 < size
      → All (λ b. length b ≡ size) bs
      → IsCut size cs
      → IsCut size (bs ++ cs)
  IsCut-append size [] cs positive full cut = cut
  IsCut-append size (b ∷ bs) cs positive (at_size, full) cut =
      IsCut-full size b (bs ++ cs) positive at_size (IsCut-append size bs cs positive full cut)

  -- A source that has ended, and is torn down well.
  pub Ends-Delivers :
      (u w : S) (size : ℕ) (batch rows : List Row) (run : Run S Row)
      → 0 < size
      → file.teardown u ≡ (ok tt, w)
      → Ends stop_iteration u size batch rows run
      → Delivers size batch rows run
  unfolding on_raise
  Ends-Delivers u w size batch rows run positive torn (bs, [], done, all, full, less) = (
    bs ++ [],
    w,
    done ∙ unfold stopped in (rw torn (yield_all-append bs [] (ok tt, w))),
    rw (append-nil bs) (sym (append-nil (concat bs)) ∙ all),
    IsCut-append size bs [] positive full tt,
  )
  Ends-Delivers u w size batch rows run positive torn (bs, row ∷ over, done, all, full, less) = (
    bs ++ (row ∷ over) ∷ [],
    w,
    done ∙ unfold stopped yield in (rw torn (yield_all-append bs ((row ∷ over) ∷ []) (ok tt, w))),
    concat-append bs (row ∷ over) ∙ all,
    IsCut-append size bs ((row ∷ over) ∷ []) positive full (omega arith, omega arith),
  )
