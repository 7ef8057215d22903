-- ===== src/Ast/Classes.antt =====
-- ast.py: the classes of terms that differ only in their base class and `statement`, in the order of the
-- file. `term_type` is a number of `ql2_pb2` and is left out.
mod Forms
mod Data
pub mod Distinct
pub use Forms.*
pub use Data.*
use rethinkdb_python.Base.{String, Option, none, some}

-- ast.py, from `SetWriteHook` to `GrantTL`.
pub data AdminClass : Type 0 where
  set_write_hook get_write_hook index_create index_drop index_rename index_list : AdminClass
  index_status index_wait config status wait_term reconfigure : AdminClass
  rebalance sync grant grant_top : AdminClass

abbrev pub admin_form : AdminClass → Form
admin_form set_write_hook = method "set_write_hook"
admin_form get_write_hook = method "get_write_hook"
admin_form index_create = method "index_create"
admin_form index_drop = method "index_drop"
admin_form index_rename = method "index_rename"
admin_form index_list = method "index_list"
admin_form index_status = method "index_status"
admin_form index_wait = method "index_wait"
admin_form config = method "config"
admin_form status = method "status"
admin_form wait_term = method "wait"
admin_form reconfigure = method "reconfigure"
admin_form rebalance = method "rebalance"
admin_form sync = method "sync"
admin_form grant = method "grant"
admin_form grant_top = top_level "grant"

-- ast.py, from `Branch` to `Args`.
pub data ControlClass : Type 0 where
  branch or_term and_term for_each info insert_at : ControlClass
  splice_at delete_at change_at sample json args : ControlClass

abbrev pub control_form : ControlClass → Form
control_form branch = top_level "branch"
control_form or_term = bool_oper "or_" (some "|")
control_form and_term = bool_oper "and_" (some "&")
control_form for_each = method "for_each"
control_form info = method "info"
control_form insert_at = method "insert_at"
control_form splice_at = method "splice_at"
control_form delete_at = method "delete_at"
control_form change_at = method "change_at"
control_form sample = method "sample"
control_form json = top_level "json"
control_form args = top_level "args"

-- ast.py, from `Range` to `ToEpochTime`.
pub data TimeClass : Type 0 where
  range to_iso8601 during date time_of_day timezone : TimeClass
  year month day day_of_week day_of_year hours : TimeClass
  minutes seconds time iso8601 epoch_time now : TimeClass
  in_timezone to_epoch_time : TimeClass

abbrev pub time_class_form : TimeClass → Form
time_class_form range = top_level "range"
time_class_form to_iso8601 = method "to_iso8601"
time_class_form during = method "during"
time_class_form date = method "date"
time_class_form time_of_day = method "time_of_day"
time_class_form timezone = method "timezone"
time_class_form year = method "year"
time_class_form month = method "month"
time_class_form day = method "day"
time_class_form day_of_week = method "day_of_week"
time_class_form day_of_year = method "day_of_year"
time_class_form hours = method "hours"
time_class_form minutes = method "minutes"
time_class_form seconds = method "seconds"
time_class_form time = top_level "time"
time_class_form iso8601 = top_level "iso8601"
time_class_form epoch_time = top_level "epoch_time"
time_class_form now = top_level "now"
time_class_form in_timezone = method "in_timezone"
time_class_form to_epoch_time = method "to_epoch_time"

-- ast.py, from `GeoJson` to `PolygonSub`.
pub data GeoClass : Type 0 where
  geojson to_geojson point line polygon distance : GeoClass
  intersects includes circle fill polygon_sub : GeoClass

abbrev pub geo_form : GeoClass → Form
geo_form geojson = top_level "geojson"
geo_form to_geojson = method "to_geojson"
geo_form point = top_level "point"
geo_form line = top_level "line"
geo_form polygon = top_level "polygon"
geo_form distance = method "distance"
geo_form intersects = method "intersects"
geo_form includes = method "includes"
geo_form circle = top_level "circle"
geo_form fill = method "fill"
geo_form polygon_sub = method "polygon_sub"

-- ast.py, from `Asc` to `Literal`.
pub data OrderClass : Type 0 where
  asc desc literal : OrderClass

abbrev pub order_form : OrderClass → Form
order_form asc = top_level "asc"
order_form desc = top_level "desc"
order_form literal = top_level "literal"

pub data Class : Type 0 where
  top_class : TopClass → Class
  operator : OperatorClass → Class
  field_class : FieldClass → Class
  sequence : SequenceClass → Class
  write : WriteClass → Class
  admin : AdminClass → Class
  control : ControlClass → Class
  time_class : TimeClass → Class
  geo : GeoClass → Class
  order : OrderClass → Class
  db slice_class array_class object_class row_class not_class do_class table_class binary_class :
      Class

abbrev pub form : Class → Form
form (top_class c) = top_class_form c
form (operator c) = operator_form c
form (field_class c) = field_class_form c
form (sequence c) = sequence_form c
form (write c) = write_form c
form (admin c) = admin_form c
form (control c) = control_form c
form (time_class c) = time_class_form c
form (geo c) = geo_form c
form (order c) = order_form c
form db = top_level "db"
form slice_class = slice
form array_class = make_array
form object_class = make_obj
form row_class = implicit_var
form not_class = negation
form do_class = fun_call
form table_class = table
form binary_class = binary
