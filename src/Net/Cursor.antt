-- ===== src/Net/Cursor.antt =====
-- net.py, `class Cursor`: what a response does to the cursor that it is for.
pub mod Stream
pub mod Credit
pub mod Stall
mod Tests
use rethinkdb_python.Base.{
  Bool, false, not, ◌&&◌, Option, none, some, ◌++◌, ltb, length, is_some, if◌then◌else◌,
}
use rethinkdb_python.Base.Integer.{incr, decr, is_zero}
use rethinkdb_python.Base.Exec.{Outcome, ok, raised, blocked, Exec, modify, skip, ◌>>◌}
use rethinkdb_python.Errors.{Exn, reql, builtin, key_error, cursor_empty, cursor_is_empty}
use rethinkdb_python.Net.Response.{
  Response, ResponseType, success_partial, success_sequence, make_error,
}
use rethinkdb_python.Net.World.{Codec, Cursor}

-- `_empty_error()` of the default cursor.
abbrev pub empty_error : Exn
empty_error = reql cursor_empty cursor_is_empty

module _ {Item V : Type 0} where
  unfoldable pub count_request : Exec Exn (Cursor Item V) (Unit {0})
  count_request = modify (λ c. record c { outstanding_requests = incr c.outstanding_requests })

  -- The test of `_maybe_fetch_batch`.
  abbrev pub wants_batch : Cursor Item V → Bool
  wants_batch c =
      not (is_some c.error) && ltb (length c.items) c.threshold && is_zero c.outstanding_requests

  unfoldable pub uncount_request : Exec Exn (Cursor Item V) (Unit {0})
  uncount_request = modify (λ c. record c { outstanding_requests = decr c.outstanding_requests })

  unfoldable pub set_error : Exn → Exec Exn (Cursor Item V) (Unit {0})
  set_error e = modify (λ c. record c { error = some e })

module _ {Item V : Type 0} where
  -- The cursor after `_maybe_fetch_batch`.
  abbrev pub refill : Cursor Item V → Cursor Item V
  refill c = record c {
    outstanding_requests =
        if wants_batch c then incr c.outstanding_requests else c.outstanding_requests;
  }

  -- The cursor when a response to one of its requests has come.
  abbrev pub answered : Cursor Item V → Cursor Item V
  answered c = record c { outstanding_requests = decr c.outstanding_requests }

module _ {Item V : Type 0} (codec : Codec Item V) where
  abbrev pub fail_with : Outcome Exn Exn → Exec Exn (Cursor Item V) (Unit {0})
  fail_with (ok e) c = (ok tt, record c { error = some e })
  fail_with (raised x) c = (raised x, c)
  fail_with blocked c = (blocked, c)

  unfoldable pub accept_new : ResponseType → Response Item → Exec Exn (Cursor Item V) (Unit {0})
  accept_new success_partial res c = (ok tt, record c { items = c.items ++ res.items })
  accept_new success_sequence res c =
      (ok tt, record c { items = c.items ++ res.items; error = some empty_error })
  accept_new _ res c = fail_with (make_error codec.text res) c

  -- The `if self.error is None` block of `_extend_internal`, for `self.error`.
  unfoldable pub accept_at : Option Exn → Response Item → Exec Exn (Cursor Item V) (Unit {0})
  accept_at none res = accept_new res.type res
  accept_at (some e) res = skip

  unfoldable pub accept : Response Item → Exec Exn (Cursor Item V) (Unit {0})
  accept res c = accept_at c.error res c

  -- `del self.conn._cursor_cache[res.token]`
  unfoldable pub unregister : Exec Exn (Cursor Item V) (Unit {0})
  unregister c =
      if c.registered
      then (ok tt, record c { registered = false })
      else (raised (builtin key_error), c)

  unfoldable pub drop_finished : Exec Exn (Cursor Item V) (Unit {0})
  drop_finished c =
      if is_zero c.outstanding_requests && is_some c.error then unregister c else (ok tt, c)

  unfoldable pub extend_internal : Response Item → Exec Exn (Cursor Item V) (Unit {0})
  extend_internal res = do
    modify (λ c. record c { threshold = length res.items })
    accept res
    drop_finished

  -- What a response `res` does to its cursor, where the request for the next batch is sent.
  abbrev pub received : Response Item → Cursor Item V → Outcome Exn (Unit {0}) × Cursor Item V
  received res c = extend_internal res (refill (answered c))
