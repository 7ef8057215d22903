-- ===== src/Ast/Classes/Forms.antt =====
-- ast.py: the ways in which a class of terms prints.
use rethinkdb_python.Base.{String, Option}

-- How a class prints: which `compose` it has, and its `statement`; `st_infix` too for the classes that have
-- one. `RqlBiCompareOperQuery` prints as `RqlBiOperQuery` does. The last eight have a `compose` of their own.
pub data Form : Type 0 where
  bi_oper top_level method bracketed : String → Form
  bool_oper : String → Option String → Form
  slice make_array make_obj implicit_var negation fun_call table binary : Form
