-- ===== src/Ast/Zone/Tests.antt =====
-- The time zone `-03:30`.
use rethinkdb_python.Base.{
  ℕ, ◌≡◌, refl, ◌↔◌, ◌⊎◌, if◌then◌else◌, true, false, Option, some, ◌∷◌, ◌++◌,
}
use rethinkdb_python.Base.Struct.{Bytes}
use rethinkdb_python.Base.Split.{lacks}
use rethinkdb_python.Base.Text.{codes}
use rethinkdb_python.Base.Integer.{ℤ, pos, negsuc}
use rethinkdb_python.Base.Exec.{ok}
use rethinkdb_python.Handshake.Attributes.{starts_with}
use rethinkdb_python.Ast.Zone.{utcoffset, meant, utcoffset_iff}

-- `int`, for texts with and without a minus sign.
abbrev to_int : Bytes → Option ℤ
to_int t = if starts_with (codes "-") t then some (negsuc 2) else some (pos 30)

utcoffset_iff_example :
    (utcoffset to_int (codes "-03" ++ b':' ∷ codes "30") ≡ ok (meant true 3 30))
    ↔ ((true ≡ false) ⊎ (◌≡◌ {A = ℕ} 30 0))
unfolding lacks starts_with
utcoffset_iff_example =
    utcoffset_iff to_int true (codes "-03") (codes "30") 3 30 refl refl refl refl
