-- ===== src/Tools/Import/Json/End.antt =====
-- _import.py, `JsonSourceFile`: `get_line` after the last row, and `teardown`.
use rethinkdb_python.Base.{
  ◌+◌, ◌<◌, ◌≡◌, refl, sym, ap, ◌∙◌, subst, Bool, true, false, [], ◌∷◌, ◌++◌, length, ◌==◌, inl,
  inr, append-nil, arith,
}
use rethinkdb_python.Base.Exec.{ok, raised, ◌>>◌}
use rethinkdb_python.Tools.Import.{Text, need_more_data}
use rethinkdb_python.Tools.Import.Json.{
  Io, Buffer, past_comma, decode, decoded, over_whitespace, read_item, read_from, read_line,
  end_array, check_rest, end_file,
}
use rethinkdb_python.Tools.Import.Json.View.{
  is_space, strip, IsBlank, Lawful, View, check_more-View, char_at-View, View-next,
  over_whitespace-View,
}
use rethinkdb_python.Tools.Import.Json.Line.{IsSolid, strip-append, Waits}
use rethinkdb_python.Tools.Import.Json.Gap.{past_comma-other, read_from-nothing}

-- What follows the last row.
abbrev pub closing : Bool → Text → Text
closing true z = 93 ∷ z
closing false z = []

closing-IsSolid : (array : Bool) (z : Text) → IsSolid (closing array z)
unfolding is_space
closing-IsSolid true z = refl
closing-IsSolid false z = tt

module _ {Src Row : Type 0} (io : Io Src Row) (dumps : Row → Text) (left : Src → Text)
    (lawful : Lawful io dumps left) where
  -- No row is read at the end of the rows.
  decode-closing :
      (b : Buffer) (t rest : Text) (array : Bool) (z : Text)
      → View b t
      → 1 < length t
      → t ++ rest ≡ closing array z
      → decode io b ≡ (raised need_more_data, b)
  unfolding decode decoded
  decode-closing b [] rest array z v big s = absurd (omega arith)
  decode-closing b (c ∷ t) rest false z v big s = cc
  decode-closing b (c ∷ t) rest true z v big s =
      let same : c ≡ 93 = cc in
      rw (decode, lawful.no_value b.str b.buffer_pos t v.0 (v.1 ∙ ap (λ x. x ∷ t) same)) refl

  read_item-closing :
      (b : Buffer) (t a rest : Text) (array : Bool) (z : Text)
      → View b t
      → IsBlank a
      → t ++ rest ≡ a ++ closing array z
      → Waits (read_item io b) (closing array z) rest
  unfolding read_item
  read_item-closing b t a rest array z v m s =
      let (b1, e1, v1, k) = over_whitespace-View io dumps left lawful b t v in
      elim (check_more-View b1 (strip t) v1) [
        | inl (small, e2) ↦
            elim (strip-append t rest a (closing array z) m (closing-IsSolid array z) s) [
              | inl s1 ↦ (b1, strip t, [], rw (e1, e2) refl, v1, tt, s1)
              | inr (a2, none_here, m2, q) ↦
                  (b1, strip t, a2, rw (e1, e2) refl, v1, m2, rw none_here q)
            ]
        | inr (big, e2) ↦
            elim (strip-append t rest a (closing array z) m (closing-IsSolid array z) s) [
              | inl s1 ↦ (
                b1,
                strip t,
                [],
                rw (e1, e2) (decode-closing b1 (strip t) rest array z v1 big s1),
                v1,
                tt,
                s1,
              )
              | inr (a2, none_here, m2, q) ↦ absurd (omega (arith, ap length none_here))
            ]
      ]

  read_from-closing :
      (allow : Bool) (b : Buffer) (u rest : Text) (array : Bool) (z : Text)
      → View b u
      → u ++ rest ≡ closing array z
      → Waits (read_from io allow b) (closing array z) rest
  unfolding read_from
  read_from-closing allow b u rest array z v s = elim (check_more-View b u v) [
    | inl (small, e) ↦ (b, u, [], rw e refl, v, tt, s)
    | inr (big, e) ↦ rw e (go array u v s big)
  ]
    where
      go :
          (array : Bool) (u : Text)
          → View b u
          → u ++ rest ≡ closing array z
          → 1 < length u
          → Waits ((past_comma allow >> read_item io) b) (closing array z) rest
      go array [] v s big = absurd (omega arith)
      go false (c ∷ u) v s big = cc
      go true (c ∷ u) v s big =
          let same : c ≡ 93 = cc in
          let other : (c == 44) ≡ false = rw same refl in
          rw (past_comma-other allow b c u v other)
            (read_item-closing b (c ∷ u) [] rest true z v tt s)

  -- `get_line` where no row is still to come.
  pub read_line-closing :
      (allow : Bool) (b : Buffer) (t a rest : Text) (array : Bool) (z : Text)
      → View b t
      → IsBlank a
      → t ++ rest ≡ a ++ closing array z
      → Waits (read_line io allow b) (closing array z) rest
  unfolding read_line
  read_line-closing allow b t a rest array z v m s =
      let (b1, e1, v1, k) = over_whitespace-View io dumps left lawful b t v in
      elim (strip-append t rest a (closing array z) m (closing-IsSolid array z) s) [
        | inl s1 ↦ rw e1 (read_from-closing allow b1 (strip t) rest array z v1 s1)
        | inr (a2, none_here, m2, q) ↦
            let v2 : View b1 [] = subst (λ x. View b1 x) none_here v1 in
            (
              b1,
              [],
              a2,
              rw (e1, read_from-nothing io dumps left lawful allow b1 v2) refl,
              v2,
              m2,
              q,
            )
      ]

  strip-blank : (a t : Text) → IsBlank a → strip (a ++ t) ≡ strip t
  unfolding strip
  strip-blank [] t m = refl
  strip-blank (c ∷ a) t (space, m) = rw space (strip-blank a t m)

  nothing_after :
      (b : Buffer) (z : Text)
      → View b z
      → IsBlank z
      → (b2 : Buffer) × (over_whitespace io b ≡ (ok tt, b2)) × View b2 []
  unfolding strip
  nothing_after b z v m =
      let (b1, e1, v1, k) = over_whitespace-View io dumps left lawful b z v in
      let blank : strip z ≡ [] = ap strip (sym (append-nil z)) ∙ strip-blank z [] m in
      (b1, e1, subst (λ x. View b1 x) blank v1)

  -- `teardown` where the buffer has the end of the file, as it should be.
  pub end_file-closing :
      (b : Buffer) (a : Text) (array : Bool) (z : Text)
      → View b (a ++ closing array z)
      → IsBlank a
      → IsBlank z
      → (b2 : Buffer) × (end_file io array b ≡ (ok tt, b2))
  unfolding end_file end_array check_rest strip is_space
  end_file-closing b a false z v m mz =
      let v0 : View b a = subst (λ x. View b x) (append-nil a) v in
      let (b1, e1, v1) = nothing_after b a v0 m in
      let (b2, e2, v2) = nothing_after b1 [] v1 tt in (b2, rw (e1, e2, v2.1) refl)
  end_file-closing b a true z v m mz =
      let (b1, e1, w, k) = over_whitespace-View io dumps left lawful b (a ++ 93 ∷ z) v in
      let v1 : View b1 (93 ∷ z) = subst (λ x. View b1 x) (strip-blank a (93 ∷ z) m) w in
      let v2 = View-next b1 93 z v1 in
      let (b2, e2, v3) = nothing_after (record b1 { buffer_pos = b1.buffer_pos + 1 }) z v2 mz in
      (b2, rw (e1, char_at-View b1 93 z v1, e2, v3.1) refl)
