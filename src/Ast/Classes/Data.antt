-- ===== src/Ast/Classes/Data.antt =====
-- ast.py: the classes of terms from `JavaScript` to `TableListTL` that differ only in their base class and `statement`.
-- `term_type` is a number of `ql2_pb2` and is left out.
use rethinkdb_python.Base.{none}
use rethinkdb_python.Ast.Classes.Forms.{Form, bi_oper, top_level, method, bracketed, bool_oper}

-- ast.py, from `JavaScript` to `Default`.
pub data TopClass : Type 0 where
  javascript http user_error random changes default : TopClass

abbrev pub top_class_form : TopClass → Form
top_class_form javascript = top_level "js"
top_class_form http = top_level "http"
top_class_form user_error = top_level "error"
top_class_form random = top_level "random"
top_class_form changes = method "changes"
top_class_form default = method "default"

-- ast.py, from `Eq` to `SetDifference`.
pub data OperatorClass : Type 0 where
  eq ne lt le gt ge : OperatorClass
  add sub mul div modulo bit_and : OperatorClass
  bit_or bit_xor bit_not bit_sal bit_sar floor : OperatorClass
  ceil round append prepend difference set_insert : OperatorClass
  set_union set_intersection set_difference : OperatorClass

abbrev pub operator_form : OperatorClass → Form
operator_form eq = bi_oper "=="
operator_form ne = bi_oper "!="
operator_form lt = bi_oper "<"
operator_form le = bi_oper "<="
operator_form gt = bi_oper ">"
operator_form ge = bi_oper ">="
operator_form add = bi_oper "+"
operator_form sub = bi_oper "-"
operator_form mul = bi_oper "*"
operator_form div = bi_oper "/"
operator_form modulo = bi_oper "%"
operator_form bit_and = bool_oper "bit_and" none
operator_form bit_or = bool_oper "bit_or" none
operator_form bit_xor = bool_oper "bit_xor" none
operator_form bit_not = method "bit_not"
operator_form bit_sal = bool_oper "bit_sal" none
operator_form bit_sar = bool_oper "bit_sar" none
operator_form floor = method "floor"
operator_form ceil = method "ceil"
operator_form round = method "round"
operator_form append = method "append"
operator_form prepend = method "prepend"
operator_form difference = method "difference"
operator_form set_insert = method "set_insert"
operator_form set_union = method "set_union"
operator_form set_intersection = method "set_intersection"
operator_form set_difference = method "set_difference"

-- ast.py, from `Skip` to `Between`.
pub data FieldClass : Type 0 where
  skip limit get_field bracket contains has_fields : FieldClass
  with_fields keys values object pluck without : FieldClass
  merge between : FieldClass

abbrev pub field_class_form : FieldClass → Form
field_class_form skip = method "skip"
field_class_form limit = method "limit"
field_class_form get_field = bracketed "get_field"
field_class_form bracket = bracketed "bracket"
field_class_form contains = method "contains"
field_class_form has_fields = method "has_fields"
field_class_form with_fields = method "with_fields"
field_class_form keys = method "keys"
field_class_form values = method "values"
field_class_form object = method "object"
field_class_form pluck = method "pluck"
field_class_form without = method "without"
field_class_form merge = method "merge"
field_class_form between = method "between"

-- ast.py, from `Get` to `EqJoin`.
pub data SequenceClass : Type 0 where
  get get_all get_intersecting get_nearest uuid reduce : SequenceClass
  sum avg min_term max_term map_term fold : SequenceClass
  filter_term concat_map order_by distinct count union : SequenceClass
  nth match_term to_json_string split upcase downcase : SequenceClass
  offsets_of is_empty group inner_join outer_join eq_join : SequenceClass

abbrev pub sequence_form : SequenceClass → Form
sequence_form get = method "get"
sequence_form get_all = method "get_all"
sequence_form get_intersecting = method "get_intersecting"
sequence_form get_nearest = method "get_nearest"
sequence_form uuid = method "uuid"
sequence_form reduce = method "reduce"
sequence_form sum = method "sum"
sequence_form avg = method "avg"
sequence_form min_term = method "min"
sequence_form max_term = method "max"
sequence_form map_term = method "map"
sequence_form fold = method "fold"
sequence_form filter_term = method "filter"
sequence_form concat_map = method "concat_map"
sequence_form order_by = method "order_by"
sequence_form distinct = method "distinct"
sequence_form count = method "count"
sequence_form union = method "union"
sequence_form nth = bracketed "nth"
sequence_form match_term = method "match"
sequence_form to_json_string = method "to_json_string"
sequence_form split = method "split"
sequence_form upcase = method "upcase"
sequence_form downcase = method "downcase"
sequence_form offsets_of = method "offsets_of"
sequence_form is_empty = method "is_empty"
sequence_form group = method "group"
sequence_form inner_join = method "inner_join"
sequence_form outer_join = method "outer_join"
sequence_form eq_join = method "eq_join"

-- ast.py, from `Zip` to `TableListTL`.
pub data WriteClass : Type 0 where
  zip_term coerce_to ungroup type_of update delete : WriteClass
  replace insert db_create db_drop db_list table_create : WriteClass
  table_create_top table_drop table_drop_top table_list table_list_top : WriteClass

abbrev pub write_form : WriteClass → Form
write_form zip_term = method "zip"
write_form coerce_to = method "coerce_to"
write_form ungroup = method "ungroup"
write_form type_of = method "type_of"
write_form update = method "update"
write_form delete = method "delete"
write_form replace = method "replace"
write_form insert = method "insert"
write_form db_create = top_level "db_create"
write_form db_drop = top_level "db_drop"
write_form db_list = top_level "db_list"
write_form table_create = method "table_create"
write_form table_create_top = top_level "table_create"
write_form table_drop = method "table_drop"
write_form table_drop_top = top_level "table_drop"
write_form table_list = method "table_list"
write_form table_list_top = top_level "table_list"
