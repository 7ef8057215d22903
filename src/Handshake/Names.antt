-- ===== src/Handshake/Names.antt =====
-- handshake.py: the user's name in the first message of a login.
use rethinkdb_python.Base.{
  ℕ, ◌≡◌, refl, ap, ◌∙◌, true, false, Bool-cases, inl, inr, some, [], ◌∷◌, ◌++◌, ◌==◌, ==_iff,
  if◌then◌else◌,
}
use rethinkdb_python.Base.Split.{split, lacks, split-one_part, split-append}
use rethinkdb_python.Base.Struct.{Bytes}
use rethinkdb_python.Base.Text.{codes}
use rethinkdb_python.Handshake.Attributes.{
  split_once, pairs, attributes, replace, escape, first_message,
}

-- How RFC 5802 reads a name.
unfoldable pub unescape : Bytes → Bytes
unescape [] = []
unescape (a ∷ []) = a ∷ []
unescape (a ∷ b ∷ []) = a ∷ b ∷ []
unescape (a ∷ b ∷ c ∷ text) =
    let past = unescape text in
    let rest = unescape (b ∷ c ∷ text) in
    if a == b'=' then (if b == b'2' then b',' else b'=') ∷ past else a ∷ rest

unfoldable pub escape_byte : ℕ → Bytes
escape_byte b = if b == b'=' then codes "=3D" else if b == b',' then codes "=2C" else b ∷ []

pub escape_cons : (b : ℕ) (name : Bytes) → escape (b ∷ name) ≡ escape_byte b ++ escape name
unfolding escape replace escape_byte
escape_cons b name = elim (Bool-cases (b == b'=')) [
  | inl e ↦ rw e refl
  | inr e ↦ elim (Bool-cases (b == b',')) [ inl f ↦ rw (e, f) refl | inr f ↦ rw (e, f) refl ]
]

lacks-append : (c : ℕ) (a b : Bytes) → lacks c a ≡ true → lacks c b ≡ true → lacks c (a ++ b) ≡ true
unfolding lacks
lacks-append c [] b l m = m
lacks-append c (x ∷ a) b l m = elim (Bool-cases (x == c)) [
  | inl e ↦ cc (rw e at l)
  | inr e ↦ rw e (lacks-append c a b (rw e at l) m)
]

escape_byte-lacks : (b : ℕ) → lacks b',' (escape_byte b) ≡ true
unfolding escape_byte lacks
escape_byte-lacks b = elim (Bool-cases (b == b'=')) [
  | inl e ↦ rw e refl
  | inr e ↦ elim (Bool-cases (b == b',')) [ inl f ↦ rw (e, f) refl | inr f ↦ rw (e, f, f) refl ]
]

escape-lacks : (name : Bytes) → lacks b',' (escape name) ≡ true
unfolding escape replace lacks
escape-lacks [] = refl
escape-lacks (b ∷ name) =
    rw (escape_cons b name)
      (lacks-append b',' (escape_byte b) (escape name) (escape_byte-lacks b) (escape-lacks name))

unescape_cons :
    (b : ℕ) (text : Bytes) → (b == b'=') ≡ false → unescape (b ∷ text) ≡ b ∷ unescape text
unfolding unescape
unescape_cons b [] e = refl
unescape_cons b (c ∷ []) e = refl
unescape_cons b (c ∷ d ∷ text) e = rw e refl

unescape-escape_byte : (b : ℕ) (text : Bytes) → unescape (escape_byte b ++ text) ≡ b ∷ unescape text
unfolding escape_byte unescape
unescape-escape_byte b text = elim (Bool-cases (b == b'=')) [
  | inl e ↦ rw (e, (==_iff _ _).0 e) refl
  | inr e ↦ elim (Bool-cases (b == b',')) [
    | inl f ↦ rw (e, f, (==_iff _ _).0 f) refl
    | inr f ↦ rw (e, f) (unescape_cons b text e)
  ]
]

unescape-escape : (name : Bytes) → unescape (escape name) ≡ name
unfolding escape replace unescape
unescape-escape [] = refl
unescape-escape (b ∷ name) =
    rw (escape_cons b name, unescape-escape_byte b (escape name), unescape-escape name) refl

-- In the first message of a login the attribute `n` is the user's name, escaped, and `r` is the nonce,
-- where the nonce has no comma, and the name is got back from it by the rules of RFC 5802, whatever
-- commas and equals signs it has.
pub first_message_name :
    (name nonce : Bytes)
    → lacks b',' nonce ≡ true
    → (attributes (first_message (escape name) nonce)
        ≡ some ((codes "n", escape name) ∷ (codes "r", nonce) ∷ []))
      × (unescape (escape name) ≡ name)
unfolding attributes first_message pairs split_once split lacks
first_message_name name nonce l = (
  ap pairs (split-append b',' (codes "n=" ++ escape name) (codes "r=" ++ nonce) (escape-lacks name))
      ∙ rw (split-one_part b',' (codes "r=" ++ nonce) l) refl,
  unescape-escape name,
)
