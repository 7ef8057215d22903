-- ===== src/Tools/Import/Json/Line.antt =====
-- _import.py, `JsonSourceFile.get_line`: what it reads from a buffer that has a part of the file.
use rethinkdb_python.Base.{
  ℕ, ◌+◌, ◌≤◌, ◌<◌, ◌≡◌, ◌≢◌, refl, sym, ap, ◌∙◌, true, false, [], ◌∷◌, ◌++◌, length, drop, ◌⊎◌,
  inl, inr, length-append, drop-append_length, arith,
}
use rethinkdb_python.Base.Exec.{Outcome, ok, raised}
use rethinkdb_python.Tools.Import.{Text, Raised, need_more_data}
use rethinkdb_python.Tools.Import.Json.{Io, Buffer, decode, decoded, read_item}
use rethinkdb_python.Tools.Import.Json.View.{
  is_space, strip, IsBlank, Lawful, View, check_more-View, over_whitespace-View, View-moved,
}

-- The text does not begin with a space.
abbrev pub IsSolid : Text → Type 0
IsSolid [] = Unit
IsSolid (c ∷ t) = is_space c ≡ false

-- Where `t` and what is left make up a blank text and a solid one, stripping `t` leaves the solid one,
-- or uses `t` up.
pub strip-append :
    (t left a T : Text)
    → IsBlank a
    → IsSolid T
    → t ++ left ≡ a ++ T
    → (strip t ++ left ≡ T) ⊎ (a2 : Text) × (strip t ≡ []) × IsBlank a2 × (left ≡ a2 ++ T)
unfolding strip
strip-append [] left [] T blank solid e = inl e
strip-append (c ∷ t) left [] [] blank solid e = cc
strip-append (c ∷ t) left [] (d ∷ T) blank solid e =
    let same : c ≡ d = cc in let p : is_space c ≡ false = rw same solid in inl (rw p e)
strip-append [] left (d ∷ a) T blank solid e = inr (d ∷ a, refl, blank, e)
strip-append (c ∷ t) left (d ∷ a) T (space, blank) solid e =
    let same : c ≡ d = cc in
    let p : is_space c ≡ true = rw same space in rw p (strip-append t left a T blank solid cc)

-- A part of a text that begins with `d` has all of `d`, or less.
pub append-cases :
    (t left d T : Text)
    → t ++ left ≡ d ++ T
    → ((rest : Text) × (t ≡ d ++ rest) × (rest ++ left ≡ T))
      ⊎ (c : ℕ) × (u : Text) × (d ≡ t ++ c ∷ u) × (left ≡ c ∷ u ++ T)
append-cases t left [] T e = inl (t, refl, e)
append-cases [] left (c ∷ d) T e = inr (c, d, refl, e)
append-cases (b ∷ t) left (c ∷ d) T e =
    let same : b ≡ c = cc in
    elim (append-cases t left d T cc) [
      | inl (rest, p, q) ↦ inl (rest, rw (same, p) refl, q)
      | inr (c2, u, p, q) ↦ inr (c2, u, rw (same, p) refl, q)
    ]

pub nonempty : (a : Text) (c : ℕ) (T : Text) → a ++ c ∷ T ≢ []
nonempty [] c T e = cc
nonempty (b ∷ a) c T e = cc

-- The row `r` is read, and the text `T` is still to come: a part of it in the buffer, then `rest`.
abbrev pub Reads : {Row : Type 0} → Outcome Raised Row × Buffer → Row → Text → Text → Type 0
Reads o r T rest = (b : Buffer) × (t : Text) × (o ≡ (ok r, b)) × View b t × (t ++ rest ≡ T)

-- More data are asked for, and all of `T` is still to come, with some spaces before it.
abbrev pub Waits : {Row : Type 0} → Outcome Raised Row × Buffer → Text → Text → Type 0
Waits o T rest =
    (b : Buffer) × (t : Text) × (a : Text) × (o ≡ (raised need_more_data, b))
    × View b t
    × IsBlank a
    × (t ++ rest ≡ a ++ T)

module _ {Src Row : Type 0} (io : Io Src Row) (dumps : Row → Text) (left : Src → Text)
    (lawful : Lawful io dumps left) where
  pub dumps-IsSolid : (r : Row) (T : Text) → IsSolid (dumps r ++ T)
  unfolding is_space
  dumps-IsSolid r T = let (c, u, e) = lawful.braces r in rw e refl

  pub dumps_long : (r : Row) → 1 < length (dumps r)
  dumps_long r = let (c, u, e) = lawful.braces r in rw e (omega arith)

  pub dumps_nonempty : (a : Text) (r : Row) (T : Text) → a ++ (dumps r ++ T) ≢ []
  dumps_nonempty a r T = let (c, u, e) = lawful.braces r in rw e (nonempty a 123 (c ∷ u ++ T))

  -- A row, where the buffer is at it.
  decode-item :
      (b : Buffer) (t rest : Text) (r : Row) (T : Text)
      → View b t
      → t ++ rest ≡ dumps r ++ T
      → Reads (decode io b) r T rest ⊎ Waits (decode io b) (dumps r ++ T) rest × (rest ≢ [])
  unfolding decode decoded
  decode-item b t rest r T v s = elim (append-cases t rest (dumps r) T s) [
    | inl (after, p, q) ↦
        let d : drop b.buffer_pos b.str ≡ dumps r ++ after = v.1 ∙ p in
        let small : length (dumps r) ≤ length t =
          omega (arith, ap length p, length-append (dumps r) after) in
        let to : drop (length (dumps r)) t ≡ after =
          ap (drop (length (dumps r))) p
          ∙ drop-append_length (length (dumps r)) (dumps r) after refl in
        let moved = View-moved b t (length (dumps r)) v small in
        inl (
          record b { buffer_pos = b.buffer_pos + length (dumps r) },
          after,
          rw (decode, lawful.decodes b.str b.buffer_pos r after v.0 d) refl,
          rw to at moved,
          q,
        )
    | inr (c, u, p, q) ↦
        let d : dumps r ≡ drop b.buffer_pos b.str ++ c ∷ u = p ∙ ap (λ x. x ++ c ∷ u) (sym v.1) in
        inr (
          (b, t, [], rw (decode, lawful.too_short b.str b.buffer_pos r c u v.0 d) refl, v, tt, s),
          λ e. cc,
        )
  ]

  -- The end of `get_line`, at a row.
  pub read_item-item :
      (b : Buffer) (t a rest : Text) (r : Row) (T : Text)
      → View b t
      → IsBlank a
      → t ++ rest ≡ a ++ (dumps r ++ T)
      → Reads (read_item io b) r T rest ⊎ Waits (read_item io b) (dumps r ++ T) rest × (rest ≢ [])
  unfolding read_item
  read_item-item b t a rest r T v blank s =
      let (b1, e1, v1, k) = over_whitespace-View io dumps left lawful b t v in
      elim (strip-append t rest a (dumps r ++ T) blank (dumps-IsSolid r T) s) [
        | inl s1 ↦ elim (check_more-View b1 (strip t) v1) [
          | inl (small, e2) ↦ inr (
            (b1, strip t, [], rw (e1, e2) refl, v1, tt, s1),
            λ none_left. absurd (
                omega (
                  arith,
                  dumps_long r,
                  length-append (dumps r) T,
                  length-append (strip t) rest,
                  ap length s1,
                  ap length none_left,
                )),
          )
          | inr (big, e2) ↦ rw (e1, e2) (decode-item b1 (strip t) rest r T v1 s1)
        ]
        | inr (a2, none_here, blank2, q) ↦ elim (check_more-View b1 (strip t) v1) [
          | inl (small, e2) ↦ inr (
            (b1, strip t, a2, rw (e1, e2) refl, v1, blank2, rw none_here q),
            λ none_left. dumps_nonempty a2 r T (sym q ∙ none_left),
          )
          | inr (big, e2) ↦ absurd (omega (arith, ap length none_here))
        ]
      ]
