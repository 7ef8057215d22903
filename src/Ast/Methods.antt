-- ===== src/Ast/Methods.antt =====
-- ast.py and query.py: the class of the term that a method makes, by the method's name. How the arguments
-- are wrapped is left out, and so are the operators, `[]` and `for`, which have no name.
pub mod Named
use rethinkdb_python.Base.{String, Option, none, some, List, [], ◌∷◌, ◌++◌, str_eq, if◌then◌else◌}
use rethinkdb_python.Ast.Classes.{
  Class, add, admin, and_term, append, args, asc, avg, between, binary_class, bit_and, bit_not,
  bit_or, bit_sal, bit_sar, bit_xor, branch, ceil, change_at, changes, circle, coerce_to,
  concat_map, config, contains, control, count, date, day, day_of_week, day_of_year, db, db_create,
  db_drop, db_list, default, delete, delete_at, desc, difference, distance, distinct, div, do_class,
  downcase, during, epoch_time, eq, eq_join, field_class, fill, filter_term, floor, fold, for_each,
  ge, geo, geojson, get, get_all, get_field, get_intersecting, get_nearest, get_write_hook, grant,
  grant_top, group, gt, has_fields, hours, http, in_timezone, includes, index_create, index_drop,
  index_list, index_rename, index_status, index_wait, info, inner_join, insert, insert_at,
  intersects, is_empty, iso8601, javascript, json, keys, le, limit, line, literal, lt, map_term,
  match_term, max_term, merge, min_term, minutes, modulo, month, mul, ne, not_class, now, nth,
  object, offsets_of, operator, or_term, order, order_by, outer_join, pluck, point, polygon,
  polygon_sub, prepend, random, range, rebalance, reconfigure, reduce, replace, round, sample,
  seconds, sequence, set_difference, set_insert, set_intersection, set_union, set_write_hook, skip,
  slice_class, splice_at, split, status, sub, sum, sync, table_class, table_create,
  table_create_top, table_drop, table_drop_top, table_list, table_list_top, time, time_class,
  time_of_day, timezone, to_epoch_time, to_geojson, to_iso8601, to_json_string, top_class, type_of,
  ungroup, union, upcase, update, user_error, uuid, values, wait_term, with_fields, without, write,
  year, zip_term,
}

-- `class RqlQuery`, from `eq` to `not_`.
unfoldable pub operator_methods : List (String × Class)
operator_methods =
    ("eq", operator eq)
    ∷ ("ne", operator ne)
    ∷ ("lt", operator lt)
    ∷ ("le", operator le)
    ∷ ("gt", operator gt)
    ∷ ("ge", operator ge)
    ∷ ("add", operator add)
    ∷ ("sub", operator sub)
    ∷ ("mul", operator mul)
    ∷ ("div", operator div)
    ∷ ("mod", operator modulo)
    ∷ ("bit_and", operator bit_and)
    ∷ ("bit_or", operator bit_or)
    ∷ ("bit_xor", operator bit_xor)
    ∷ ("bit_not", operator bit_not)
    ∷ ("bit_sal", operator bit_sal)
    ∷ ("bit_sar", operator bit_sar)
    ∷ ("floor", operator floor)
    ∷ ("ceil", operator ceil)
    ∷ ("round", operator round)
    ∷ ("and_", control and_term)
    ∷ ("or_", control or_term)
    ∷ ("not_", not_class)
    ∷ []

-- `class RqlQuery`, from `contains` to `set_difference`.
unfoldable pub document_methods : List (String × Class)
document_methods =
    ("contains", field_class contains)
    ∷ ("has_fields", field_class has_fields)
    ∷ ("with_fields", field_class with_fields)
    ∷ ("keys", field_class keys)
    ∷ ("values", field_class values)
    ∷ ("changes", top_class changes)
    ∷ ("pluck", field_class pluck)
    ∷ ("without", field_class without)
    ∷ ("do", do_class)
    ∷ ("default", top_class default)
    ∷ ("update", write update)
    ∷ ("replace", write replace)
    ∷ ("delete", write delete)
    ∷ ("coerce_to", write coerce_to)
    ∷ ("ungroup", write ungroup)
    ∷ ("type_of", write type_of)
    ∷ ("merge", field_class merge)
    ∷ ("append", operator append)
    ∷ ("prepend", operator prepend)
    ∷ ("difference", operator difference)
    ∷ ("set_insert", operator set_insert)
    ∷ ("set_union", operator set_union)
    ∷ ("set_intersection", operator set_intersection)
    ∷ ("set_difference", operator set_difference)
    ∷ []

-- `class RqlQuery`, from `get_field` to `info`.
unfoldable pub sequence_methods : List (String × Class)
sequence_methods =
    ("get_field", field_class get_field)
    ∷ ("nth", sequence nth)
    ∷ ("to_json", sequence to_json_string)
    ∷ ("to_json_string", sequence to_json_string)
    ∷ ("match", sequence match_term)
    ∷ ("split", sequence split)
    ∷ ("upcase", sequence upcase)
    ∷ ("downcase", sequence downcase)
    ∷ ("is_empty", sequence is_empty)
    ∷ ("offsets_of", sequence offsets_of)
    ∷ ("slice", slice_class)
    ∷ ("skip", field_class skip)
    ∷ ("limit", field_class limit)
    ∷ ("reduce", sequence reduce)
    ∷ ("sum", sequence sum)
    ∷ ("avg", sequence avg)
    ∷ ("min", sequence min_term)
    ∷ ("max", sequence max_term)
    ∷ ("map", sequence map_term)
    ∷ ("fold", sequence fold)
    ∷ ("filter", sequence filter_term)
    ∷ ("concat_map", sequence concat_map)
    ∷ ("order_by", sequence order_by)
    ∷ ("between", field_class between)
    ∷ ("distinct", sequence distinct)
    ∷ ("count", sequence count)
    ∷ ("union", sequence union)
    ∷ ("inner_join", sequence inner_join)
    ∷ ("outer_join", sequence outer_join)
    ∷ ("eq_join", sequence eq_join)
    ∷ ("zip", write zip_term)
    ∷ ("group", sequence group)
    ∷ ("branch", control branch)
    ∷ ("for_each", control for_each)
    ∷ []

-- `class RqlQuery`, from `insert_at` on.
unfoldable pub value_methods : List (String × Class)
value_methods =
    ("info", control info)
    ∷ ("insert_at", control insert_at)
    ∷ ("splice_at", control splice_at)
    ∷ ("delete_at", control delete_at)
    ∷ ("change_at", control change_at)
    ∷ ("sample", control sample)
    ∷ ("to_iso8601", time_class to_iso8601)
    ∷ ("to_epoch_time", time_class to_epoch_time)
    ∷ ("during", time_class during)
    ∷ ("date", time_class date)
    ∷ ("time_of_day", time_class time_of_day)
    ∷ ("timezone", time_class timezone)
    ∷ ("year", time_class year)
    ∷ ("month", time_class month)
    ∷ ("day", time_class day)
    ∷ ("day_of_week", time_class day_of_week)
    ∷ ("day_of_year", time_class day_of_year)
    ∷ ("hours", time_class hours)
    ∷ ("minutes", time_class minutes)
    ∷ ("seconds", time_class seconds)
    ∷ ("in_timezone", time_class in_timezone)
    ∷ ("to_geojson", geo to_geojson)
    ∷ ("distance", geo distance)
    ∷ ("intersects", geo intersects)
    ∷ ("includes", geo includes)
    ∷ ("fill", geo fill)
    ∷ ("polygon_sub", geo polygon_sub)
    ∷ []

-- `class DB`
unfoldable pub database_methods : List (String × Class)
database_methods =
    ("table_list", write table_list)
    ∷ ("config", admin config)
    ∷ ("wait", admin wait_term)
    ∷ ("reconfigure", admin reconfigure)
    ∷ ("rebalance", admin rebalance)
    ∷ ("grant", admin grant)
    ∷ ("table_create", write table_create)
    ∷ ("table_drop", write table_drop)
    ∷ ("table", table_class)
    ∷ []

-- `class Table`
unfoldable pub table_methods : List (String × Class)
table_methods =
    ("insert", write insert)
    ∷ ("get", sequence get)
    ∷ ("get_all", sequence get_all)
    ∷ ("set_write_hook", admin set_write_hook)
    ∷ ("get_write_hook", admin get_write_hook)
    ∷ ("index_create", admin index_create)
    ∷ ("index_drop", admin index_drop)
    ∷ ("index_rename", admin index_rename)
    ∷ ("index_list", admin index_list)
    ∷ ("index_status", admin index_status)
    ∷ ("index_wait", admin index_wait)
    ∷ ("status", admin status)
    ∷ ("config", admin config)
    ∷ ("wait", admin wait_term)
    ∷ ("reconfigure", admin reconfigure)
    ∷ ("rebalance", admin rebalance)
    ∷ ("sync", admin sync)
    ∷ ("grant", admin grant)
    ∷ ("get_intersecting", sequence get_intersecting)
    ∷ ("get_nearest", sequence get_nearest)
    ∷ ("uuid", sequence uuid)
    ∷ []

-- query.py, down to `desc`. `db_config` is not here, since it names a class that there is not.
unfoldable pub root_functions : List (String × Class)
root_functions =
    ("json", control json)
    ∷ ("js", top_class javascript)
    ∷ ("args", control args)
    ∷ ("http", top_class http)
    ∷ ("error", top_class user_error)
    ∷ ("random", top_class random)
    ∷ ("do", do_class)
    ∷ ("table", table_class)
    ∷ ("db", db)
    ∷ ("db_create", write db_create)
    ∷ ("db_drop", write db_drop)
    ∷ ("db_list", write db_list)
    ∷ ("table_create", write table_create_top)
    ∷ ("table_drop", write table_drop_top)
    ∷ ("table_list", write table_list_top)
    ∷ ("grant", admin grant_top)
    ∷ ("branch", control branch)
    ∷ ("union", sequence union)
    ∷ ("map", sequence map_term)
    ∷ ("group", sequence group)
    ∷ ("reduce", sequence reduce)
    ∷ ("count", sequence count)
    ∷ ("sum", sequence sum)
    ∷ ("avg", sequence avg)
    ∷ ("min", sequence min_term)
    ∷ ("max", sequence max_term)
    ∷ ("distinct", sequence distinct)
    ∷ ("contains", field_class contains)
    ∷ ("asc", order asc)
    ∷ ("desc", order desc)
    ∷ []

-- query.py, from `eq` to `now`.
unfoldable pub operator_functions : List (String × Class)
operator_functions =
    ("eq", operator eq)
    ∷ ("ne", operator ne)
    ∷ ("lt", operator lt)
    ∷ ("le", operator le)
    ∷ ("gt", operator gt)
    ∷ ("ge", operator ge)
    ∷ ("add", operator add)
    ∷ ("sub", operator sub)
    ∷ ("mul", operator mul)
    ∷ ("div", operator div)
    ∷ ("mod", operator modulo)
    ∷ ("bit_and", operator bit_and)
    ∷ ("bit_or", operator bit_or)
    ∷ ("bit_xor", operator bit_xor)
    ∷ ("bit_not", operator bit_not)
    ∷ ("bit_sal", operator bit_sal)
    ∷ ("bit_sar", operator bit_sar)
    ∷ ("floor", operator floor)
    ∷ ("ceil", operator ceil)
    ∷ ("round", operator round)
    ∷ ("not_", not_class)
    ∷ ("and_", control and_term)
    ∷ ("or_", control or_term)
    ∷ ("type_of", write type_of)
    ∷ ("info", control info)
    ∷ ("binary", binary_class)
    ∷ ("range", time_class range)
    ∷ ("time", time_class time)
    ∷ ("iso8601", time_class iso8601)
    ∷ ("epoch_time", time_class epoch_time)
    ∷ ("now", time_class now)
    ∷ []

-- query.py, from `literal` on.
unfoldable pub value_functions : List (String × Class)
value_functions =
    ("literal", order literal)
    ∷ ("object", field_class object)
    ∷ ("uuid", sequence uuid)
    ∷ ("geojson", geo geojson)
    ∷ ("point", geo point)
    ∷ ("line", geo line)
    ∷ ("polygon", geo polygon)
    ∷ ("distance", geo distance)
    ∷ ("intersects", geo intersects)
    ∷ ("circle", geo circle)
    ∷ []

abbrev pub query_methods : List (String × Class)
query_methods = operator_methods ++ (document_methods ++ (sequence_methods ++ value_methods))

abbrev pub module_functions : List (String × Class)
module_functions = root_functions ++ (operator_functions ++ value_functions)

-- A name is looked up in one of the tables.
unfoldable pub find : String → List (String × Class) → Option Class
find name [] = none
find name ((key, c) ∷ table) = if str_eq key name then some c else find name table

-- What a name is an attribute of.
pub data Receiver : Type 0 where
  any_query database a_table the_module : Receiver

abbrev pub or_inherited : Option Class → Option Class → Option Class
or_inherited none inherited = inherited
or_inherited (some c) inherited = some c

-- `DB` and `Table` inherit from `RqlQuery`.
unfoldable pub lookup : Receiver → String → Option Class
lookup any_query name = find name query_methods
lookup database name = or_inherited (find name database_methods) (find name query_methods)
lookup a_table name = or_inherited (find name table_methods) (find name query_methods)
lookup the_module name = find name module_functions
