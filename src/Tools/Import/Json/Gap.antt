-- ===== src/Tools/Import/Json/Gap.antt =====
-- _import.py, `JsonSourceFile.get_line`: the spaces and the comma before a row.
use rethinkdb_python.Base.{
  ℕ, ◌+◌, ◌<◌, ◌≡◌, ◌≢◌, refl, sym, ap, subst, ◌∙◌, Bool, true, false, [], ◌∷◌, ◌++◌, length, ◌==◌,
  ◌⊎◌, inl, inr, length-append, append_assoc, arith,
}
use rethinkdb_python.Base.Exec.{Outcome, ok, raised, ◌>>◌}
use rethinkdb_python.Tools.Import.{Text, Raised, need_more_data}
use rethinkdb_python.Tools.Import.Json.{
  Io, Buffer, check_more, over_comma, past_comma, read_item, read_from, read_line,
}
use rethinkdb_python.Tools.Import.Json.View.{
  is_space, strip, IsBlank, Lawful, View, check_more-View, char_at-View, View-next,
  over_whitespace-View,
}
use rethinkdb_python.Tools.Import.Json.Line.{
  strip-append, nonempty, Reads, Waits, dumps_long, dumps-IsSolid, dumps_nonempty, read_item-item,
}

-- What stands before a row: spaces, or spaces, a comma and spaces.
pub data Gap : Type 0 where
  blank : Text → Gap
  comma : Text → Text → Gap

unfoldable pub gap_text : Gap → Text
gap_text (blank a) = a
gap_text (comma a b) = a ++ 44 ∷ b

abbrev pub IsGap : Bool → Gap → Type 0
IsGap allow (blank a) = IsBlank a
IsGap allow (comma a b) = (allow ≡ true) × IsBlank a × IsBlank b

-- More data are asked for, and all of `T` is still to come, after a gap.
abbrev pub WaitsGap : {Row : Type 0} → Bool → Outcome Raised Row × Buffer → Text → Text → Type 0
WaitsGap allow o T rest =
    (b : Buffer) × (t : Text) × (g : Gap) × (o ≡ (raised need_more_data, b))
    × View b t
    × IsGap allow g
    × (t ++ rest ≡ gap_text g ++ T)

to_gap :
    {Row : Type 0} (allow : Bool) (o : Outcome Raised Row × Buffer) (T rest : Text)
    → Waits o T rest
    → WaitsGap allow o T rest
unfolding gap_text
to_gap allow o T rest (b, t, a, e, v, m, s) = (b, t, blank a, e, v, m, s)

-- No comma is read over where there is another character.
pub past_comma-other :
    (allow : Bool) (b : Buffer) (c : ℕ) (t : Text)
    → View b (c ∷ t)
    → (c == 44) ≡ false
    → past_comma allow b ≡ (ok tt, b)
unfolding past_comma over_comma
past_comma-other true b c t v e = rw (char_at-View b c t v, e) refl
past_comma-other false b c t v e = refl

past_comma-comma :
    (b : Buffer) (t : Text)
    → View b (44 ∷ t)
    → past_comma true b ≡ check_more (record b { buffer_pos = b.buffer_pos + 1 })
unfolding past_comma over_comma
past_comma-comma b t v = rw (char_at-View b 44 t v) refl

module _ {Src Row : Type 0} (io : Io Src Row) (dumps : Row → Text) (left : Src → Text)
    (lawful : Lawful io dumps left) where
  abbrev ReadsOrWaits : Bool → Outcome Raised Row × Buffer → Row → Text → Text → Type 0
  ReadsOrWaits allow o r T rest =
      Reads o r T rest ⊎ WaitsGap allow o (dumps r ++ T) rest × (rest ≢ [])

  item-to_gap :
      (allow : Bool) (b : Buffer) (t a rest : Text) (r : Row) (T : Text)
      → View b t
      → IsBlank a
      → t ++ rest ≡ a ++ (dumps r ++ T)
      → ReadsOrWaits allow (read_item io b) r T rest
  item-to_gap allow b t a rest r T v m s =
      elim (read_item-item io dumps left lawful b t a rest r T v m s) [
        | inl done ↦ inl done
        | inr (w, more) ↦ inr (to_gap allow (read_item io b) (dumps r ++ T) rest w, more)
      ]

  -- There is more to come, where the buffer has less than a row.
  more_left : (u rest D : Text) → length u < length D → u ++ rest ≡ D → rest ≢ []
  more_left u rest D small s e =
      absurd (omega (arith, length-append u rest, ap length s, ap length e))

  pub read_from-nothing :
      (allow : Bool) (b : Buffer) → View b [] → read_from io allow b ≡ (raised need_more_data, b)
  unfolding read_from
  read_from-nothing allow b v = elim (check_more-View b [] v) [
    | inl (small, e) ↦ rw e refl
    | inr (big, e) ↦ absurd (omega arith)
  ]

  read_from-item :
      (allow : Bool) (b : Buffer) (u rest : Text) (r : Row) (T : Text)
      → View b u
      → u ++ rest ≡ dumps r ++ T
      → ReadsOrWaits allow (read_from io allow b) r T rest
  unfolding read_from gap_text
  read_from-item allow b u rest r T v s = elim (check_more-View b u v) [
    | inl (small, e) ↦ inr (
      (b, u, blank [], rw e refl, v, tt, s),
      more_left u rest (dumps r ++ T)
          (omega (arith, dumps_long io dumps left lawful r, length-append (dumps r) T)) s,
    )
    | inr (big, e) ↦ rw e (go u v s big)
  ]
    where
      go :
          (u : Text)
          → View b u
          → u ++ rest ≡ dumps r ++ T
          → 1 < length u
          → ReadsOrWaits allow ((past_comma allow >> read_item io) b) r T rest
      go [] v s big = absurd (omega arith)
      go (c ∷ u) v s big =
          let (d, w, brace) = lawful.braces r in
          let same : c ≡ 123 = cc in
          let other : (c == 44) ≡ false = rw same refl in
          rw (past_comma-other allow b c u v other) (item-to_gap allow b (c ∷ u) [] rest r T v tt s)

  read_from-comma :
      (b : Buffer) (u a rest : Text) (r : Row) (T : Text)
      → View b u
      → IsBlank a
      → u ++ rest ≡ 44 ∷ (a ++ (dumps r ++ T))
      → ReadsOrWaits true (read_from io true b) r T rest
  unfolding read_from gap_text
  read_from-comma b [] a rest r T v m s = elim (check_more-View b [] v) [
    | inl (small, e) ↦ inr (
      (b, [], comma [] a, rw e refl, v, (refl, tt, m), s),
      more_left [] rest (44 ∷ (a ++ (dumps r ++ T))) (omega arith) s,
    )
    | inr (big, e) ↦ absurd (omega arith)
  ]
  read_from-comma b (c ∷ u) a rest r T v m s =
      let same : c ≡ 44 = cc in
      let v44 : View b (44 ∷ u) = subst (λ x. View b (x ∷ u)) same v in
      let long = dumps_long io dumps left lawful r in
      let size = length-append a (dumps r ++ T) in
      let size2 = length-append (dumps r) T in
      elim (check_more-View b (c ∷ u) v) [
        | inl (small, e) ↦ inr (
          (b, c ∷ u, comma [] a, rw e refl, v, (refl, tt, m), s),
          more_left (c ∷ u) rest (44 ∷ (a ++ (dumps r ++ T))) (omega (arith, long, size, size2)) s,
        )
        | inr (big, e) ↦
            let b2 : Buffer = record b { buffer_pos = b.buffer_pos + 1 } in
            let v2 : View b2 u = View-next b 44 u v44 in
            elim (check_more-View b2 u v2) [
              | inl (small, e2) ↦ inr (
                (b2, u, blank a, rw (e, past_comma-comma b u v44, e2) refl, v2, m, cc),
                more_left u rest (a ++ (dumps r ++ T)) (omega (arith, long, size, size2)) cc,
              )
              | inr (big2, e2) ↦
                  rw (e, past_comma-comma b u v44, e2) (item-to_gap true b2 u a rest r T v2 m cc)
            ]
      ]

  -- `get_line` where a row is still to come, after a gap.
  pub read_line-item :
      (allow : Bool) (b : Buffer) (t : Text) (g : Gap) (rest : Text) (r : Row) (T : Text)
      → View b t
      → IsGap allow g
      → t ++ rest ≡ gap_text g ++ (dumps r ++ T)
      → ReadsOrWaits allow (read_line io allow b) r T rest
  unfolding read_line gap_text is_space
  read_line-item allow b t (blank a) rest r T v m s =
      let (b1, e1, v1, k) = over_whitespace-View io dumps left lawful b t v in
      elim (strip-append t rest a (dumps r ++ T) m (dumps-IsSolid io dumps left lawful r T) s) [
        | inl s1 ↦ rw e1 (read_from-item allow b1 (strip t) rest r T v1 s1)
        | inr (a2, none_here, m2, q) ↦
            let v2 : View b1 [] = subst (λ x. View b1 x) none_here v1 in
            inr (
              (b1, [], blank a2, rw (e1, read_from-nothing allow b1 v2) refl, v2, m2, q),
              λ e. dumps_nonempty io dumps left lawful a2 r T (sym q ∙ e),
            )
      ]
  read_line-item allow b t (comma a a1) rest r T v (allowed, m, m1) s =
      let (b1, e1, v1, k) = over_whitespace-View io dumps left lawful b t v in
      elim (strip-append t rest a (44 ∷ (a1 ++ (dumps r ++ T))) m refl
        (s ∙ append_assoc a (44 ∷ a1) (dumps r ++ T))) [
          | inl s1 ↦ rw (e1, allowed) (read_from-comma b1 (strip t) a1 rest r T v1 m1 s1)
          | inr (a2, none_here, m2, q) ↦
              let v2 : View b1 [] = subst (λ x. View b1 x) none_here v1 in
              inr (
                (
                  b1,
                  [],
                  comma a2 a1,
                  rw (e1, read_from-nothing allow b1 v2) refl,
                  v2,
                  (allowed, m2, m1),
                  q ∙ sym (append_assoc a2 (44 ∷ a1) (dumps r ++ T)),
                ),
                λ e. nonempty a2 44 (a1 ++ (dumps r ++ T)) (sym q ∙ e),
              )
        ]
