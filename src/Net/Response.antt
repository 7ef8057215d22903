-- ===== src/Net/Response.antt =====
-- net.py: `class Response`, `make_error` and `maybe_profile`.
use rethinkdb_python.Base.{ℕ, ◌≡◌, refl, String, Option, none, some, List, [], ◌∷◌}
use rethinkdb_python.Base.Exec.{Outcome, ok, raised, blocked}
use rethinkdb_python.Errors.{
  ErrorClass, Exn, reql, builtin, index_error, driver_error, server_compile_error, runtime_error,
  internal_error, resource_limit_error, query_logic_error, non_existence_error, op_failed_error,
  op_indeterminate_error, user_error, permission_error, from_server, unknown_response_type,
}

-- The numbers of `ql2_pb2.Response.ResponseType` that the driver tells apart; any other is `unknown`.
pub data ResponseType : Type 0 where
  success_atom success_sequence success_partial wait_complete server_info : ResponseType
  client_error compile_error runtime_failure : ResponseType
  unknown : ℕ → ResponseType

-- `ql2_pb2.Response.ErrorType`; `other` is a number that is not in the table, or no number at all.
pub data ErrorType : Type 0 where
  internal resource_limit query_logic non_existence op_failed op_indeterminate user : ErrorType
  permission other : ErrorType

-- `t`, `r`, `p` and `e` of the decoded object; the backtrace is not kept.
pub record Response (Item : Type 0) : Type 0 where
  pub type : ResponseType
  pub items : List Item
  pub profile : Option Item
  pub error_type : ErrorType

abbrev pub error_class : ErrorType → ErrorClass
error_class internal = internal_error
error_class resource_limit = resource_limit_error
error_class query_logic = query_logic_error
error_class non_existence = non_existence_error
error_class op_failed = op_failed_error
error_class op_indeterminate = op_indeterminate_error
error_class user = user_error
error_class permission = permission_error
error_class other = runtime_error

-- `text` is an entry of `r` as the message of an exception.
module _ {Item : Type 0} (text : Item → String) where
  -- An error made from `self.data[0]`.
  abbrev first_error : ErrorClass → List Item → Outcome Exn Exn
  first_error c [] = raised (builtin index_error)
  first_error c (x ∷ xs) = ok (reql c (from_server (text x)))

  unfoldable pub make_error_of : ResponseType → Response Item → Outcome Exn Exn
  make_error_of client_error res = first_error driver_error res.items
  make_error_of compile_error res = first_error server_compile_error res.items
  make_error_of runtime_failure res = first_error (error_class res.error_type) res.items
  make_error_of _ res = ok (reql driver_error unknown_response_type)

  -- `raised` is an exception of `make_error` itself, `ok` the one that it returns.
  unfoldable pub make_error : Response Item → Outcome Exn Exn
  make_error res = make_error_of res.type res

  -- `make_error` returns an exception, or fails for want of a message.
  abbrev pub MakesError : Outcome Exn Exn → Type 0
  MakesError (ok e) = Unit
  MakesError (raised x) = x ≡ builtin index_error
  MakesError blocked = ⊥

  first_error-MakesError : (c : ErrorClass) (xs : List Item) → MakesError (first_error c xs)
  first_error-MakesError c [] = refl
  first_error-MakesError c (x ∷ xs) = tt

  make_error_of-MakesError :
      (type : ResponseType) (res : Response Item) → MakesError (make_error_of type res)
  unfolding make_error_of
  make_error_of-MakesError client_error res = first_error-MakesError driver_error res.items
  make_error_of-MakesError compile_error res = first_error-MakesError server_compile_error res.items
  make_error_of-MakesError runtime_failure res =
      first_error-MakesError (error_class res.error_type) res.items
  make_error_of-MakesError _ res = tt

  pub make_error-MakesError : (res : Response Item) → MakesError (make_error res)
  unfolding make_error
  make_error-MakesError res = make_error_of-MakesError res.type res

-- A result of `run_query`: nothing, a value, or a cursor, which is named by its token. A profile
-- comes with it where the server sent one.
pub data Value (Item : Type 0) : Type 0 where
  nothing : Value Item
  value : Item → Value Item
  cursor : ℕ → Value Item
  profiled : Value Item → Item → Value Item

abbrev pub maybe_profile : {Item : Type 0} → Value Item → Response Item → Value Item
maybe_profile v res = elim res.profile [ none ↦ v | some p ↦ profiled v p ]
