-- ===== src/Net/Cursor/Stall.antt =====
-- Two defects of the cursor's count of requests.
use rethinkdb_python.Base.{◌<◌, ◌≡◌, ◌∙◌, false, none, some, [], arith}
use rethinkdb_python.Base.Integer.{pos, negsuc}
use rethinkdb_python.Errors.{Exn}
use rethinkdb_python.Net.Response.{Response, success_partial}
use rethinkdb_python.Net.World.{Codec, Cursor}
use rethinkdb_python.Net.Cursor.{
  accept_new, accept_at, accept, unregister, drop_finished, extend_internal, wants_batch, refill,
  answered, received,
}

-- A cursor that waits for items, has no request open, and does not ask for any.
pub record IsStalled {Item V : Type 0} (c : Cursor Item V) : Type 0 where
  pub empty : c.items ≡ []
  pub going_on : c.error ≡ none
  pub no_request : c.outstanding_requests ≡ pos 0
  pub quiet : wants_batch c ≡ false

-- A batch of the server with no items in it, the stream going on.
abbrev pub IsEmptyBatch : {Item : Type 0} → Response Item → Type 0
IsEmptyBatch res = (res.type ≡ success_partial) × (res.items ≡ [])

module _ {Item V : Type 0} (c : Cursor Item V) where
  refill_asks :
      c.items ≡ []
      → c.error ≡ none
      → c.outstanding_requests ≡ pos 1
      → 0 < c.threshold
      → (refill (answered c)).outstanding_requests ≡ pos 1
  refill_asks i e n t = ground arith

  refill_silent :
      c.items ≡ []
      → c.error ≡ none
      → c.outstanding_requests ≡ pos 1
      → c.threshold ≡ 0
      → (refill (answered c)).outstanding_requests ≡ pos 0
  refill_silent i e n t = ground arith

  wants_batch_zero : c.threshold ≡ 0 → wants_batch c ≡ false
  wants_batch_zero t = ground arith

module _ {Item V : Type 0} (codec : Codec Item V) where
  -- Such a batch leaves the cursor as it was, but for the count and a threshold of 0.
  received_empty :
      (res : Response Item) (c : Cursor Item V)
      → IsEmptyBatch res
      → c.error ≡ none
      → c.items ≡ []
      → ((received codec res c).1.items ≡ [])
        × ((received codec res c).1.error ≡ none)
        × ((received codec res c).1.outstanding_requests
            ≡ (refill (answered c)).outstanding_requests)
        × ((received codec res c).1.threshold ≡ 0)
  unfolding extend_internal accept accept_at accept_new drop_finished unregister
  received_empty res c (t, i) e l = ground arith

  -- Two empty batches in a row stall a cursor. From a cursor that waits with one request open, and asks for
  -- more when that is answered, the first empty batch sets the threshold to 0; so the second is not
  -- followed by a request, and none is made later, though the server has not ended the stream.
  pub received_twice_stalls :
      (first second : Response Item) (c : Cursor Item V)
      → c.items ≡ []
      → c.error ≡ none
      → c.outstanding_requests ≡ pos 1
      → 0 < c.threshold
      → IsEmptyBatch first
      → IsEmptyBatch second
      → IsStalled (received codec second (received codec first c).1).1
  received_twice_stalls first second c items error count asks f s =
      let d = (received codec first c).1 in
      let (items1, error1, count1, threshold1) = received_empty first c f error items in
      let open1 : d.outstanding_requests ≡ pos 1 = count1 ∙ refill_asks c items error count asks in
      let (items2, error2, count2, threshold2) = received_empty second d s error1 items1 in
      record {
        empty = items2;
        going_on = error2;
        no_request = count2 ∙ refill_silent d items1 error1 open1 threshold1;
        quiet = wants_batch_zero (received codec second d).1 threshold2;
      }

-- When a connection is closed, `_error` gives each cursor a dummy response, which is taken off the count
-- though nothing was asked for: a cursor in the cache that has no request open and has not ended, such as
-- one with items that are not read yet, is left with a count of -1.
pub closed_count :
    {Item V : Type 0} (codec : Codec Item V) (dummy : Response Item) (c : Cursor Item V) (e : Exn)
    → c.outstanding_requests ≡ pos 0
    → (received codec dummy (record c { error = some e })).1.outstanding_requests ≡ negsuc 0
unfolding extend_internal accept accept_at drop_finished unregister
closed_count codec dummy c e h = ground arith
