-- ===== src/Ast/Decoder/Tests.antt =====
-- Grouped data with a list for a key.
use rethinkdb_python.Base.{ℕ, ◌≡◌, refl, none}
use rethinkdb_python.Base.Exec.{ok, raised}
use rethinkdb_python.Base.Outcome.{Holds}
use rethinkdb_python.Errors.{builtin, type_error}
use rethinkdb_python.Ast.Decoder.{
  Value, null, atom, text, list, object, groups, tuple, no_values, value, no_members, member,
  no_groups, group, FormatOpts, Library, get, field, make_hashable, make_all, pair_of, groups_of,
  items_of, convert_grouped_data, by_format, convert_type, convert_as, convert_pseudotype, decode,
  decode_all, decode_members,
}
use rethinkdb_python.Ast.Decoder.Keys.{IsKeyed, IsSound}
use rethinkdb_python.Ast.Decoder.Decoded.{IsJson, AreJson, AreJsonMembers, decode_groups}

abbrev numbers : Library ℕ
numbers = record {
  from_timestamp = λ t zone. ok 0;
  b64decode = λ t. ok 0;
  unpack = λ v. raised (builtin type_error);
  iterate = λ v. raised (builtin type_error);
}

abbrev native : FormatOpts
native = record { time_format = none; group_format = none; binary_format = none }

abbrev sent : Value ℕ
sent = object (
    member "$reql_type$" (text "GROUPED_DATA") (
      member "data"
        (list
          (value (list (value (list (value (atom 4) no_values)) (value null no_values))) no_values))
        no_members))

decoded_groups :
    decode numbers native sent
    ≡ ok (groups (group (tuple (value (atom 4) no_values)) null no_groups))
unfolding decode decode_all decode_members convert_pseudotype convert_as convert_type by_format
    convert_grouped_data items_of groups_of pair_of field get make_hashable make_all
decoded_groups = refl

numbers-IsSound : IsSound numbers
numbers-IsSound = record { unpacks = λ v k. tt; iterates = λ v k. tt }

decode_groups_example : Holds IsKeyed (decode numbers native sent)
unfolding IsJson AreJson AreJsonMembers
decode_groups_example =
    decode_groups numbers native numbers-IsSound sent (tt, ((((tt, tt), (tt, tt)), tt), tt))
