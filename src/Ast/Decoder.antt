-- ===== src/Ast/Decoder.antt =====
-- ast.py, `ReQLDecoder`: the conversion of the server's pseudo-types. The hook of Python's JSON decoder is
-- called on each object, from the inside out.
pub mod Keys
pub mod Decoded
mod Tests
use rethinkdb_python.Base.{
  Bool, true, false, String, Option, none, some, List, if◌then◌else◌, str_eq,
}
use rethinkdb_python.Base.Exec.{Outcome, ok, raised, blocked}
use rethinkdb_python.Base.Outcome.{◌>>=◌, or_raise}
use rethinkdb_python.Errors.{
  Exn, reql, builtin, driver_error, value_error, unknown_pseudotype, unknown_format, missing_field,
}

-- Python values. `atom` is a number, a boolean, a date or bytes. `groups` is the dictionary of grouped data, by the
-- pairs that `dict` is given; the last three are what the keys of it are made of.
mutual
  pub data Value (D : Type 0) : Type 0 where
    null : Value D
    atom : D → Value D
    text : String → Value D
    list : Values D → Value D
    object : Members D → Value D
    groups : Groups D → Value D
    tuple : Values D → Value D
    frozen_object : Members D → Value D
    frozen_groups : Groups D → Value D

  pub data Values (D : Type 0) : Type 0 where
    no_values : Values D
    value : Value D → Values D → Values D

  pub data Members (D : Type 0) : Type 0 where
    no_members : Members D
    member : String → Value D → Members D → Members D

  pub data Groups (D : Type 0) : Type 0 where
    no_groups : Groups D
    group : Value D → Value D → Groups D → Groups D

-- `reql_format_opts`
pub record FormatOpts : Type 0 where
  pub time_format : Option String
  pub group_format : Option String
  pub binary_format : Option String

-- `fromtimestamp`, with the text of a time zone or without, `b64decode`, and what Python does with a value that is
-- no list where one is unpacked into a pair or iterated over.
pub record Library (D : Type 0) : Type 0 where
  pub from_timestamp : Value D → Option (Value D) → Outcome Exn D
  pub b64decode : Value D → Outcome Exn D
  pub unpack : Value D → Outcome Exn (Value D × Value D)
  pub iterate : Value D → Outcome Exn (Values D)

module _ {D : Type 0} where
  unfoldable pub get : String → Members D → Option (Value D)
  get k no_members = none
  get k (member j v ms) = let rest = get k ms in if str_eq j k then some v else rest

  unfoldable mutual
    pub make_hashable : Value D → Value D
    make_hashable (list vs) = tuple (make_all vs)
    make_hashable (object ms) = frozen_object (make_members ms)
    make_hashable (groups gs) = frozen_groups (make_groups gs)
    make_hashable v = v

    pub make_all : Values D → Values D
    make_all no_values = no_values
    make_all (value v vs) = value (make_hashable v) (make_all vs)

    pub make_members : Members D → Members D
    make_members no_members = no_members
    make_members (member k v ms) = member k (make_hashable v) (make_members ms)

    pub make_groups : Groups D → Groups D
    make_groups no_groups = no_groups
    make_groups (group k v gs) = group k (make_hashable v) (make_groups gs)

  unfoldable pub field : String → Members D → Outcome Exn (Value D)
  field k ms = or_raise (reql driver_error missing_field) (get k ms)

  module _ (lib : Library D) (opts : FormatOpts) where
    unfoldable pub convert_time : Members D → Outcome Exn (Value D)
    convert_time ms = do
      t ← field "epoch_time" ms
      d ← lib.from_timestamp t (get "timezone" ms)
      ok (atom d)

    unfoldable pub convert_binary : Members D → Outcome Exn (Value D)
    convert_binary ms = do t ← field "data" ms; d ← lib.b64decode t; ok (atom d)

    -- `for k, v in`, on one item.
    unfoldable pub pair_of : Value D → Outcome Exn (Value D × Value D)
    pair_of (list (value k (value v no_values))) = ok (k, v)
    pair_of (list vs) = raised (builtin value_error)
    pair_of v = lib.unpack v

    unfoldable pub groups_of : Values D → Outcome Exn (Groups D)
    groups_of no_values = ok no_groups
    groups_of (value v vs) = do
      p ← pair_of v
      gs ← groups_of vs
      ok (group (make_hashable p.0) p.1 gs)

    unfoldable pub items_of : Value D → Outcome Exn (Values D)
    items_of (list vs) = ok vs
    items_of v = lib.iterate v

    unfoldable pub convert_grouped_data : Members D → Outcome Exn (Value D)
    convert_grouped_data ms = do
      t ← field "data" ms
      vs ← items_of t
      gs ← groups_of vs
      ok (groups gs)

    -- The value for the format `native`, the object for `raw`, and an error for any other.
    unfoldable pub by_format :
        Option String → Outcome Exn (Value D) → Members D → Outcome Exn (Value D)
    by_format none native ms = native
    by_format (some f) native ms =
        if str_eq f "native"
        then native
        else if str_eq f "raw"
        then ok (object ms)
        else raised (reql driver_error unknown_format)

    unfoldable pub convert_type : String → Members D → Outcome Exn (Value D)
    convert_type t ms =
        if str_eq t "TIME"
        then by_format opts.time_format (convert_time ms) ms
        else if str_eq t "GROUPED_DATA"
        then by_format opts.group_format (convert_grouped_data ms) ms
        else if str_eq t "GEOMETRY"
        then ok (object ms)
        else if str_eq t "BINARY"
        then by_format opts.binary_format (convert_binary ms) ms
        else raised (reql driver_error unknown_pseudotype)

    unfoldable pub convert_as : Option (Value D) → Members D → Outcome Exn (Value D)
    convert_as none ms = ok (object ms)
    convert_as (some null) ms = ok (object ms)
    convert_as (some (text t)) ms = convert_type t ms
    convert_as (some v) ms = raised (reql driver_error unknown_pseudotype)

    unfoldable pub convert_pseudotype : Members D → Outcome Exn (Value D)
    convert_pseudotype ms = convert_as (get "$reql_type$" ms) ms

    -- `decode`, on the tree that the JSON text has.
    unfoldable mutual
      pub decode : Value D → Outcome Exn (Value D)
      decode (list vs) = do us ← decode_all vs; ok (list us)
      decode (object ms) = decode_members ms >>= convert_pseudotype
      decode v = ok v

      pub decode_all : Values D → Outcome Exn (Values D)
      decode_all no_values = ok no_values
      decode_all (value v vs) = do u ← decode v; us ← decode_all vs; ok (value u us)

      pub decode_members : Members D → Outcome Exn (Members D)
      decode_members no_members = ok no_members
      decode_members (member k v ms) = do u ← decode v; us ← decode_members ms; ok (member k u us)
