-- ===== src/Ast/Term.antt =====
-- ast.py: the objects of `RqlQuery` and its subclasses, as the driver builds them.
-- `D` is a Python value that a `Datum` holds.
pub mod Row
use rethinkdb_python.Base.{String, Bool, true, false, ◌||◌, List}
use rethinkdb_python.Base.Struct.{Bytes}
use rethinkdb_python.Ast.Classes.{Class, row_class}

-- The flag of a node is `infix` of the boolean operators and `bracket_operator` of the bracket terms.
-- A `var` is a `Var` with its number as the one argument, and a `func` has the argument numbers, which
-- the constructor of `Func` makes into an array, and the body.
mutual
  pub data Term (D : Type 0) : Type 0 where
    datum : D → Term D
    node : Class → Bool → Terms D → Optargs D → Term D
    binary_data : Bytes → Term D
    var : D → Term D
    func : List D → Term D → Term D

  pub data Terms (D : Type 0) : Type 0 where
    no_terms : Terms D
    term : Term D → Terms D → Terms D

  pub data Optargs (D : Type 0) : Type 0 where
    no_optargs : Optargs D
    optarg : String → Term D → Optargs D → Optargs D

abbrev pub is_row : Class → Bool
is_row row_class = true
is_row _ = false

module _ {D : Type 0} where
  -- `_ivar_scan`
  unfoldable mutual
    pub ivar_scan : Term D → Bool
    ivar_scan (datum d) = false
    ivar_scan (node c flag ts os) = is_row c || (ivar_scan_args ts || ivar_scan_optargs os)
    ivar_scan (binary_data b) = false
    ivar_scan (var d) = false
    ivar_scan (func vars body) = ivar_scan body

    pub ivar_scan_args : Terms D → Bool
    ivar_scan_args no_terms = false
    ivar_scan_args (term t ts) = ivar_scan t || ivar_scan_args ts

    pub ivar_scan_optargs : Optargs D → Bool
    ivar_scan_optargs no_optargs = false
    ivar_scan_optargs (optarg k t os) = ivar_scan t || ivar_scan_optargs os
