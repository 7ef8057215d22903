-- ===== src/Errors.antt =====
-- errors.py: the exception classes of the driver, the exceptions of Python that its code may let
-- through, and `isinstance`, by which every handler chooses what it catches.
pub mod Hierarchy
use rethinkdb_python.Base.{ℕ, zero, suc, String, Bool, false, Option, none, some, ◌||◌, ◌==◌}

pub data ErrorClass : Type 0 where
  cursor_empty : ErrorClass
  reql_error : ErrorClass
  compile_error driver_compile_error server_compile_error : ErrorClass
  runtime_error query_logic_error non_existence_error resource_limit_error : ErrorClass
  user_error internal_error availability_error op_failed_error op_indeterminate_error : ErrorClass
  permission_error : ErrorClass
  driver_error auth_error timeout_error : ErrorClass

-- The class named in the brackets of each `class` line; `none` for `Exception`. The two classes
-- for a timeout, `_ReqlTimeoutError` and `ReqlTimeoutError`, are one here.
abbrev pub base_class : ErrorClass → Option ErrorClass
base_class cursor_empty = none
base_class reql_error = none
base_class compile_error = some reql_error
base_class driver_compile_error = some compile_error
base_class server_compile_error = some compile_error
base_class runtime_error = some reql_error
base_class query_logic_error = some runtime_error
base_class non_existence_error = some query_logic_error
base_class resource_limit_error = some runtime_error
base_class user_error = some runtime_error
base_class internal_error = some runtime_error
base_class availability_error = some runtime_error
base_class op_failed_error = some availability_error
base_class op_indeterminate_error = some availability_error
base_class permission_error = some runtime_error
base_class driver_error = some reql_error
base_class auth_error = some driver_error
base_class timeout_error = some driver_error

-- A number for each class, to compare two of them.
abbrev pub class_index : ErrorClass → ℕ
class_index cursor_empty = 0
class_index reql_error = 1
class_index compile_error = 2
class_index driver_compile_error = 3
class_index server_compile_error = 4
class_index runtime_error = 5
class_index query_logic_error = 6
class_index non_existence_error = 7
class_index resource_limit_error = 8
class_index user_error = 9
class_index internal_error = 10
class_index availability_error = 11
class_index op_failed_error = 12
class_index op_indeterminate_error = 13
class_index permission_error = 14
class_index driver_error = 15
class_index auth_error = 16
class_index timeout_error = 17

-- `isinstance(e, d)` for an `e` of class `c`, looking at most `n` classes up.
abbrev pub is_a : ℕ → ErrorClass → ErrorClass → Bool
is_a zero c d = false
is_a (suc n) c d =
    class_index c == class_index d || elim (base_class c) [ none ↦ false | some b ↦ is_a n b d ]

-- The longest chain has four classes: ReqlNonExistenceError, ReqlQueryLogicError,
-- ReqlRuntimeError, ReqlError.
abbrev pub is_instance : ErrorClass → ErrorClass → Bool
is_instance = is_a 4

-- The texts that the driver puts into an exception, one constructor for each format string, without
-- the host, port and numbers that are formatted into them.
pub data Message : Type 0 where
  cursor_is_empty connection_is_closed operation_timed_out unexpected_response : Message
  connection_is_closed_by : Message
  interrupted_receiving error_receiving interrupted_sending error_sending : Message
  could_not_connect unexpected_handshake_response unsupported_protocol_version : Message
  invalid_nonce invalid_server_signature unexpected_handshake_state : Message
  invalid_wait_timeout keys_both_set bad_port ssl_handshake_failed : Message
  from_server : String → Message
  unknown_response_type : Message
  nesting_depth_exceeded missing_time_zone keys_must_be_strings : Message
  unknown_pseudotype unknown_format missing_field : Message
  during_handshake : Message → Message

-- Exceptions of Python itself and of its libraries.
pub data Builtin : Type 0 where
  attribute_error key_error index_error value_error struct_error type_error socket_timeout
        os_error :
      Builtin
  not_implemented_error assertion_error certificate_error keyboard_interrupt : Builtin
  incomplete_read_error invalid_state_error : Builtin

pub data Exn : Type 0 where
  reql : ErrorClass → Message → Exn
  builtin : Builtin → Exn
