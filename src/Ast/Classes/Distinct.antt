-- ===== src/Ast/Classes/Distinct.antt =====
-- How a term prints names its class.
use rethinkdb_python.Base.{
  ◌≡◌, refl, sym, ap, ◌∙◌, String, Bool, true, false, ◌&&◌, Option, none, some, List, [], ◌∷◌, ◌++◌,
  map, str_eq, if◌then◌else◌,
}
use rethinkdb_python.Ast.Classes.{
  Form, bi_oper, top_level, method, bracketed, bool_oper, slice, make_array, make_obj, implicit_var,
  negation, fun_call, table, binary, Class, db, slice_class, array_class, object_class, row_class,
  not_class, do_class, table_class, binary_class, form, TopClass, top_class, top_class_form,
  OperatorClass, operator, operator_form, FieldClass, field_class, field_class_form, SequenceClass,
  sequence, sequence_form, WriteClass, write, write_form, AdminClass, admin, admin_form,
  ControlClass, control, control_form, TimeClass, time_class, time_class_form, GeoClass, geo,
  geo_form, OrderClass, order, order_form,
}

same_infix : Option String → Option String → Bool
same_infix none none = true
same_infix (some s) (some t) = str_eq s t
same_infix _ _ = false

same_form : Form → Form → Bool
same_form (bi_oper s) (bi_oper t) = str_eq s t
same_form (top_level s) (top_level t) = str_eq s t
same_form (method s) (method t) = str_eq s t
same_form (bracketed s) (bracketed t) = str_eq s t
same_form (bool_oper s i) (bool_oper t j) = str_eq s t && same_infix i j
same_form slice slice = true
same_form make_array make_array = true
same_form make_obj make_obj = true
same_form implicit_var implicit_var = true
same_form negation negation = true
same_form fun_call fun_call = true
same_form table table = true
same_form binary binary = true
same_form _ _ = false

find_class : Form → List Class → Option Class
find_class f [] = none
find_class f (c ∷ cs) = if same_form f (form c) then some c else find_class f cs

top_class_list : List Class
top_class_list = map top_class (
    TopClass.javascript ∷ TopClass.http ∷ TopClass.user_error ∷ TopClass.random ∷ TopClass.changes
    ∷ TopClass.default ∷ [])

operator_list : List Class
operator_list = map operator (
    OperatorClass.eq ∷ OperatorClass.ne ∷ OperatorClass.lt ∷ OperatorClass.le ∷ OperatorClass.gt
    ∷ OperatorClass.ge ∷ OperatorClass.add ∷ OperatorClass.sub ∷ OperatorClass.mul
    ∷ OperatorClass.div ∷ OperatorClass.modulo ∷ OperatorClass.bit_and ∷ OperatorClass.bit_or
    ∷ OperatorClass.bit_xor ∷ OperatorClass.bit_not ∷ OperatorClass.bit_sal ∷ OperatorClass.bit_sar
    ∷ OperatorClass.floor ∷ OperatorClass.ceil ∷ OperatorClass.round ∷ OperatorClass.append
    ∷ OperatorClass.prepend ∷ OperatorClass.difference ∷ OperatorClass.set_insert
    ∷ OperatorClass.set_union ∷ OperatorClass.set_intersection ∷ OperatorClass.set_difference ∷ [])

field_class_list : List Class
field_class_list = map field_class (
    FieldClass.skip ∷ FieldClass.limit ∷ FieldClass.get_field ∷ FieldClass.bracket
    ∷ FieldClass.contains ∷ FieldClass.has_fields ∷ FieldClass.with_fields ∷ FieldClass.keys
    ∷ FieldClass.values ∷ FieldClass.object ∷ FieldClass.pluck ∷ FieldClass.without
    ∷ FieldClass.merge ∷ FieldClass.between ∷ [])

sequence_list : List Class
sequence_list = map sequence (
    SequenceClass.get ∷ SequenceClass.get_all ∷ SequenceClass.get_intersecting
    ∷ SequenceClass.get_nearest ∷ SequenceClass.uuid ∷ SequenceClass.reduce ∷ SequenceClass.sum
    ∷ SequenceClass.avg ∷ SequenceClass.min_term ∷ SequenceClass.max_term ∷ SequenceClass.map_term
    ∷ SequenceClass.fold ∷ SequenceClass.filter_term ∷ SequenceClass.concat_map
    ∷ SequenceClass.order_by ∷ SequenceClass.distinct ∷ SequenceClass.count ∷ SequenceClass.union
    ∷ SequenceClass.nth ∷ SequenceClass.match_term ∷ SequenceClass.to_json_string
    ∷ SequenceClass.split ∷ SequenceClass.upcase ∷ SequenceClass.downcase ∷ SequenceClass.offsets_of
    ∷ SequenceClass.is_empty ∷ SequenceClass.group ∷ SequenceClass.inner_join
    ∷ SequenceClass.outer_join ∷ SequenceClass.eq_join ∷ [])

write_list : List Class
write_list = map write (
    WriteClass.zip_term ∷ WriteClass.coerce_to ∷ WriteClass.ungroup ∷ WriteClass.type_of
    ∷ WriteClass.update ∷ WriteClass.delete ∷ WriteClass.replace ∷ WriteClass.insert
    ∷ WriteClass.db_create ∷ WriteClass.db_drop ∷ WriteClass.db_list ∷ WriteClass.table_create
    ∷ WriteClass.table_create_top ∷ WriteClass.table_drop ∷ WriteClass.table_drop_top
    ∷ WriteClass.table_list ∷ WriteClass.table_list_top ∷ [])

admin_list : List Class
admin_list = map admin (
    AdminClass.set_write_hook ∷ AdminClass.get_write_hook ∷ AdminClass.index_create
    ∷ AdminClass.index_drop ∷ AdminClass.index_rename ∷ AdminClass.index_list
    ∷ AdminClass.index_status ∷ AdminClass.index_wait ∷ AdminClass.config ∷ AdminClass.status
    ∷ AdminClass.wait_term ∷ AdminClass.reconfigure ∷ AdminClass.rebalance ∷ AdminClass.sync
    ∷ AdminClass.grant ∷ AdminClass.grant_top ∷ [])

control_list : List Class
control_list = map control (
    ControlClass.branch ∷ ControlClass.or_term ∷ ControlClass.and_term ∷ ControlClass.for_each
    ∷ ControlClass.info ∷ ControlClass.insert_at ∷ ControlClass.splice_at ∷ ControlClass.delete_at
    ∷ ControlClass.change_at ∷ ControlClass.sample ∷ ControlClass.json ∷ ControlClass.args ∷ [])

time_class_list : List Class
time_class_list = map time_class (
    TimeClass.range ∷ TimeClass.to_iso8601 ∷ TimeClass.during ∷ TimeClass.date
    ∷ TimeClass.time_of_day ∷ TimeClass.timezone ∷ TimeClass.year ∷ TimeClass.month ∷ TimeClass.day
    ∷ TimeClass.day_of_week ∷ TimeClass.day_of_year ∷ TimeClass.hours ∷ TimeClass.minutes
    ∷ TimeClass.seconds ∷ TimeClass.time ∷ TimeClass.iso8601 ∷ TimeClass.epoch_time ∷ TimeClass.now
    ∷ TimeClass.in_timezone ∷ TimeClass.to_epoch_time ∷ [])

geo_list : List Class
geo_list = map geo (
    GeoClass.geojson ∷ GeoClass.to_geojson ∷ GeoClass.point ∷ GeoClass.line ∷ GeoClass.polygon
    ∷ GeoClass.distance ∷ GeoClass.intersects ∷ GeoClass.includes ∷ GeoClass.circle ∷ GeoClass.fill
    ∷ GeoClass.polygon_sub ∷ [])

order_list : List Class
order_list = map order (OrderClass.asc ∷ OrderClass.desc ∷ OrderClass.literal ∷ [])

special_list : List Class
special_list =
    db ∷ slice_class ∷ array_class ∷ object_class ∷ row_class ∷ not_class ∷ do_class ∷ table_class
    ∷ binary_class ∷ []

-- The class that prints in the given way.
class_of : Form → Option Class
unfolding find_class same_form same_infix special_list top_class_list operator_list field_class_list
    sequence_list write_list admin_list control_list time_class_list geo_list order_list
class_of f = find_class f (
    top_class_list
    ++ (operator_list
        ++ (field_class_list
            ++ (sequence_list
                ++ (write_list
                    ++ (admin_list
                        ++ (control_list
                            ++ (time_class_list
                                ++ (geo_list ++ (order_list ++ special_list))))))))))

class_of-top_class_form : (c : TopClass) → class_of (top_class_form c) ≡ some (top_class c)
unfolding class_of
class_of-top_class_form TopClass.javascript = refl
class_of-top_class_form _ = refl

class_of-operator_form : (c : OperatorClass) → class_of (operator_form c) ≡ some (operator c)
unfolding class_of
class_of-operator_form OperatorClass.eq = refl
class_of-operator_form _ = refl

class_of-field_class_form : (c : FieldClass) → class_of (field_class_form c) ≡ some (field_class c)
unfolding class_of
class_of-field_class_form FieldClass.skip = refl
class_of-field_class_form _ = refl

class_of-sequence_form : (c : SequenceClass) → class_of (sequence_form c) ≡ some (sequence c)
unfolding class_of
class_of-sequence_form SequenceClass.get = refl
class_of-sequence_form _ = refl

class_of-write_form : (c : WriteClass) → class_of (write_form c) ≡ some (write c)
unfolding class_of
class_of-write_form WriteClass.zip_term = refl
class_of-write_form _ = refl

class_of-admin_form : (c : AdminClass) → class_of (admin_form c) ≡ some (admin c)
unfolding class_of
class_of-admin_form AdminClass.set_write_hook = refl
class_of-admin_form _ = refl

class_of-control_form : (c : ControlClass) → class_of (control_form c) ≡ some (control c)
unfolding class_of
class_of-control_form ControlClass.branch = refl
class_of-control_form _ = refl

class_of-time_class_form : (c : TimeClass) → class_of (time_class_form c) ≡ some (time_class c)
unfolding class_of
class_of-time_class_form TimeClass.range = refl
class_of-time_class_form _ = refl

class_of-geo_form : (c : GeoClass) → class_of (geo_form c) ≡ some (geo c)
unfolding class_of
class_of-geo_form GeoClass.geojson = refl
class_of-geo_form _ = refl

class_of-order_form : (c : OrderClass) → class_of (order_form c) ≡ some (order c)
unfolding class_of
class_of-order_form OrderClass.asc = refl
class_of-order_form _ = refl

class_of-form : (c : Class) → class_of (form c) ≡ some c
unfolding class_of
class_of-form (top_class c) = class_of-top_class_form c
class_of-form (operator c) = class_of-operator_form c
class_of-form (field_class c) = class_of-field_class_form c
class_of-form (sequence c) = class_of-sequence_form c
class_of-form (write c) = class_of-write_form c
class_of-form (admin c) = class_of-admin_form c
class_of-form (control c) = class_of-control_form c
class_of-form (time_class c) = class_of-time_class_form c
class_of-form (geo c) = class_of-geo_form c
class_of-form (order c) = class_of-order_form c
class_of-form db = refl
class_of-form _ = refl

some-injective : (c d : Class) → some c ≡ some d → c ≡ d
some-injective c d e = cc

-- Two classes with the same `compose` and the same `statement` (and `st_infix`) are one class, so the text of
-- a query tells which term each part of it is.
pub form-injective : (c d : Class) → form c ≡ form d → c ≡ d
form-injective c d e = some-injective c d (sym (class_of-form c) ∙ ap class_of e ∙ class_of-form d)
