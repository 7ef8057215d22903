-- ===== src/Handshake/Ascii.antt =====
-- handshake.py: `_init_connection` decodes its message as ASCII.
use rethinkdb_python.Base.{
  ℕ, ◌≡◌, refl, false, Bool-cases, ◌&&◌, inl, inr, none, [], ◌∷◌, ◌++◌, ◌==◌, ==_iff, leb, arith,
}
use rethinkdb_python.Base.Struct.{Bytes}
use rethinkdb_python.Base.Text.{codes}
use rethinkdb_python.Base.Exec.{raised}
use rethinkdb_python.Errors.{builtin, value_error}
use rethinkdb_python.Handshake.Attributes.{replace, escape, first_message}
use rethinkdb_python.Handshake.State.{Crypto, new_handshake}
use rethinkdb_python.Handshake.Server.{is_ascii}
use rethinkdb_python.Handshake.Names.{escape_byte, escape_cons}
use rethinkdb_python.Handshake.{init_connection, in_state, next_message, send_login}

is_ascii-append : (a b : Bytes) → is_ascii (a ++ b) ≡ (is_ascii a && is_ascii b)
is_ascii-append [] b = refl
is_ascii-append (x ∷ a) b = rw (is_ascii-append a b) (ground arith)

is_ascii-escape_byte :
    (b : ℕ) (text : Bytes) → is_ascii (escape_byte b ++ text) ≡ (leb b 127 && is_ascii text)
unfolding escape_byte
is_ascii-escape_byte b text = elim (Bool-cases (b == b'=')) [
  | inl e ↦ rw (e, (==_iff _ _).0 e) refl
  | inr e ↦ elim (Bool-cases (b == b',')) [
    | inl f ↦ rw (e, f, (==_iff _ _).0 f) refl
    | inr f ↦ rw (e, f) refl
  ]
]

is_ascii-escape : (name : Bytes) → is_ascii (escape name) ≡ is_ascii name
unfolding escape replace
is_ascii-escape [] = refl
is_ascii-escape (b ∷ name) =
    rw (escape_cons b name, is_ascii-escape_byte b (escape name), is_ascii-escape name) refl

-- A name with a byte above 127 cannot log in: the first message raises Python's error for text that
-- is not ASCII, whatever the password and the nonce.
pub non_ascii_raises :
    (crypto : Crypto) (entropy name password : Bytes)
    → is_ascii name ≡ false
    → (next_message crypto entropy none (new_handshake name password)).0
      ≡ raised (builtin value_error)
unfolding next_message in_state init_connection new_handshake first_message send_login
non_ascii_raises crypto entropy name password e =
    rw
      (
        is_ascii-append (escape name) (codes ",r=" ++ crypto.b64encode entropy),
        is_ascii-escape name,
        e,
      )
      refl
