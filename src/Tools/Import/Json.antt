-- ===== src/Tools/Import/Json.antt =====
-- _import.py, `class JsonSourceFile`.
pub mod View
pub mod Line
pub mod Gap
pub mod End
pub mod Fill
pub mod Kept
pub mod Step
pub mod Rows
pub mod Document
pub mod Leading
pub mod Sample
mod Tests
use rethinkdb_python.Base.{
  ℕ, zero, suc, ◌+◌, ◌-◌, ◌*◌, ◌≡◌, Bool, true, false, ◌&&◌, Option, none, some, List, [], ◌∷◌,
  ◌++◌, length, drop, head?, min, leb, ◌==◌, if◌then◌else◌,
}
use rethinkdb_python.Base.Integer.{ℤ, negsuc, add}
use rethinkdb_python.Base.Exec.{
  Outcome, ok, raised, blocked, Exec, raise, pure, modify, skip, when, unless, gets, feed, ◌>>=◌,
  ◌>>◌,
}
use rethinkdb_python.Errors.{attribute_error, assertion_error, value_error, type_error, index_error}
use rethinkdb_python.Tools.Import.{
  Text, Raised, builtin, need_more_data, stop_iteration, SourceFile,
}

-- `JSON_READ_CHUNK_SIZE`
abbrev pub json_read_chunk_size : ℕ
json_read_chunk_size = 128 * 1024

-- The file that is read, and Python's json module: `_source.read`, `JSONDecoder.raw_decode`, and the
-- end of the match of `WHITESPACE`.
pub record Io (Src Row : Type 0) : Type 0 where
  pub read : ℕ → Src → Text × Src
  pub raw_decode : Text → ℕ → Option (Row × ℕ)
  pub whitespace_end : Text → ℕ → ℕ

-- `_buffer_str`, `_buffer_pos`, `_buffer_end`, which are `None` together.
pub record Buffer : Type 0 where
  str : Text
  buffer_pos : ℕ
  buffer_end : ℕ

-- `json_array` is read as a condition only, where `None` is false.
pub record JsonSourceFile (Src : Type 0) : Type 0 where
  source : Src
  buffer : Option Buffer
  buffer_size : ℕ
  bytes_read : ℤ
  json_array : Bool
  found_first : Bool

abbrev pub fresh : {Src : Type 0} → Src → JsonSourceFile Src
fresh file = record {
  source = file;
  buffer = none;
  buffer_size = json_read_chunk_size;
  bytes_read = negsuc 0;
  json_array = false;
  found_first = false;
}

-- `if self._buffer_pos >= self._buffer_end: raise NeedMoreData()`
unfoldable pub check_more : Exec Raised Buffer (Unit {0})
check_more b = if leb b.buffer_end b.buffer_pos then raise need_more_data b else skip b

unfoldable pub indexed : Option ℕ → Exec Raised Buffer ℕ
indexed none = raise (builtin index_error)
indexed (some c) = pure c

-- `self._buffer_str[self._buffer_pos]`
unfoldable pub char_at : Exec Raised Buffer ℕ
char_at b = indexed (head? (drop b.buffer_pos b.str)) b

unfoldable pub over_comma : ℕ → Exec Raised Buffer (Unit {0})
over_comma c =
    when (c == 44) do modify (λ b. record b { buffer_pos = b.buffer_pos + 1 }); check_more

-- A method that reads `_buffer_str`, which is `None` until the first `fill_buffer`.
unfoldable pub on_buffer :
    {Src A : Type 0}
    → (Buffer → Exec Raised (JsonSourceFile Src) A)
    → Option Buffer
    → Exec Raised (JsonSourceFile Src) A
on_buffer f none = raise (builtin type_error)
on_buffer f (some b) = f b

unfoldable pub moved_to : ℕ → Option Buffer → Option Buffer
moved_to n none = none
moved_to n (some b) = some (record b { buffer_pos = n })

-- Reading over a comma, where there may be one.
unfoldable pub past_comma : Bool → Exec Raised Buffer (Unit {0})
past_comma comma = when comma (char_at >>= over_comma)

unfoldable pub end_array : ℕ → Exec Raised Buffer (Unit {0})
end_array c =
    if c == 93
    then modify (λ b. record b { buffer_pos = b.buffer_pos + 1 })
    else raise (builtin value_error)

unfoldable pub check_rest : Text → Exec Raised Buffer (Unit {0})
check_rest [] = skip
check_rest (c ∷ snippit) = raise (builtin value_error)

unfoldable pub refilled : Text → Text → Buffer
refilled kept chunk = record {
  str = kept ++ chunk;
  buffer_pos = 0;
  buffer_end = length (kept ++ chunk) - 1;
}

-- A ValueError of `raw_decode` asks for more data.
unfoldable pub decoded : {Row : Type 0} → Option (Row × ℕ) → Exec Raised Buffer Row
decoded none b = raise need_more_data b
decoded (some (row, pos)) b = (ok row, record b { buffer_pos = pos })

module _ {Src Row : Type 0} (io : Io Src Row) where
  unfoldable pub over_whitespace : Exec Raised Buffer (Unit {0})
  over_whitespace = modify (λ b. record b { buffer_pos = io.whitespace_end b.str b.buffer_pos })

  unfoldable pub decode : Exec Raised Buffer Row
  decode b = decoded (io.raw_decode b.str b.buffer_pos) b

  -- The end of `get_line`, from the whitespace after a comma on.
  unfoldable pub read_item : Exec Raised Buffer Row
  read_item = do over_whitespace; check_more; decode

  -- `get_line` after its first whitespace.
  unfoldable pub read_from : Bool → Exec Raised Buffer Row
  read_from comma = do check_more; past_comma comma; read_item

  unfoldable pub read_line : Bool → Exec Raised Buffer Row
  read_line comma = do over_whitespace; read_from comma

  unfoldable pub with_line :
      JsonSourceFile Src → Outcome Raised Row × Buffer → Outcome Raised Row × JsonSourceFile Src
  with_line s (ok row, b) = (ok row, record s { buffer = some b; found_first = true })
  with_line s (o, b) = (o, record s { buffer = some b })

  unfoldable pub line_of : Buffer → Exec Raised (JsonSourceFile Src) Row
  line_of b s = with_line s (read_line (s.json_array && s.found_first) b)

  unfoldable pub get_line : Exec Raised (JsonSourceFile Src) Row
  get_line s = on_buffer line_of s.buffer s

  unfoldable pub with_chunk :
      Buffer → JsonSourceFile Src → Text × Src → Outcome Raised (Unit {0}) × JsonSourceFile Src
  with_chunk b s ([], source) = raise stop_iteration (record s { source = source; buffer = some b })
  with_chunk b s (c ∷ chunk, source) = (
    ok tt,
    record s {
      source = source;
      buffer = some (refilled (drop b.buffer_pos b.str) (c ∷ chunk));
      bytes_read = add (length (c ∷ chunk)) s.bytes_read;
    },
  )

  -- The second half of `fill_buffer`. `read_target` below 1 is 0 here.
  unfoldable pub add_data : Buffer → Exec Raised (JsonSourceFile Src) (Unit {0})
  add_data b s = elim (s.buffer_size + b.buffer_pos - b.buffer_end) [
    | zero ↦ raise (builtin assertion_error) (record s { buffer = some b })
    | suc n ↦ with_chunk b s (io.read (suc n) s.source)
  ]

  unfoldable pub set_pos : ℕ → JsonSourceFile Src → JsonSourceFile Src
  set_pos n s = record s { buffer = moved_to n s.buffer }

  unfoldable pub buffer_str : Exec Raised (JsonSourceFile Src) Text
  buffer_str s = on_buffer (λ b. pure b.str) s.buffer s

  unfoldable pub check_first : Text → Exec Raised (JsonSourceFile Src) (Unit {0})
  check_first [] = raise (builtin value_error)
  check_first (c ∷ str) =
      if c == 91
      then modify (λ s. set_pos 1 (record s { json_array = true }))
      else if c == 123
      then modify (λ s. record s { json_array = false })
      else raise (builtin value_error)

  unfoldable pub unless_first :
      Exec Raised (JsonSourceFile Src) (Unit {0}) → ℕ → Exec Raised (JsonSourceFile Src) (Unit {0})
  unless_first rest pos = do modify (set_pos pos); unless (pos == 0) rest

  unfoldable pub end_file : Bool → Exec Raised Buffer (Unit {0})
  end_file array = do
    over_whitespace
    when array (char_at >>= end_array)
    over_whitespace
    snippit ← gets (λ b. drop b.buffer_pos b.str)
    check_rest snippit

  unfoldable pub with_end :
      JsonSourceFile Src
      → Outcome Raised (Unit {0}) × Buffer
      → Outcome Raised (Unit {0}) × JsonSourceFile Src
  with_end s (o, b) = (o, record s { buffer = some b })

  unfoldable pub end_of : Buffer → Exec Raised (JsonSourceFile Src) (Unit {0})
  end_of b s = with_end s (end_file s.json_array b)

  unfoldable pub teardown : Exec Raised (JsonSourceFile Src) (Unit {0})
  teardown s = on_buffer end_of s.buffer s

  -- `json_max_buffer_size` is the global, which `--max-document-size` sets.
  module _ (json_max_buffer_size : ℕ) where
    unfoldable pub twice : ℕ → ℕ
    twice size = min (size * 2) json_max_buffer_size

    -- The message of the error asks for `self.bytes_processed`, which there is not.
    unfoldable pub grow : Exec Raised (JsonSourceFile Src) (Unit {0})
    grow s =
        if s.buffer_size == json_max_buffer_size
        then raise (builtin attribute_error) s
        else (ok tt, record s { buffer_size = twice s.buffer_size })

    unfoldable pub fill_from : Option Buffer → Exec Raised (JsonSourceFile Src) (Unit {0})
    fill_from none = add_data (record { str = []; buffer_pos = 0; buffer_end = 0 })
    fill_from (some b) = do when (b.buffer_pos == 0) grow; add_data b

    unfoldable pub fill_buffer : Exec Raised (JsonSourceFile Src) (Unit {0})
    fill_buffer s = fill_from s.buffer s

    -- The loop of `setup_file`, a `fill_buffer` for each unit of fuel.
    unfoldable pub leading : ℕ → Exec Raised (JsonSourceFile Src) (Unit {0})
    leading zero = λ s. (blocked, s)
    leading (suc n) =
        let rest = leading n in
        do fill_buffer; str ← buffer_str; unless_first rest (io.whitespace_end str 0)

    unfoldable pub setup_file : ℕ → Exec Raised (JsonSourceFile Src) (Unit {0})
    setup_file fuel = do leading fuel; str ← buffer_str; check_first str

    unfoldable pub json_source : ℕ → SourceFile (JsonSourceFile Src) Row
    json_source fuel = record {
      setup_file = setup_file fuel;
      fill_buffer = fill_buffer;
      get_line = get_line;
      teardown = teardown;
    }
