-- ===== src/Net/Query.antt =====
-- net.py: `class Query`, and the header of a response as `_read_response` takes it apart.
-- `V` is a Python value that the driver passes through: a term, an option, a codec class.
pub mod Header
mod Tests
use rethinkdb_python.Base.{
  ℕ, ◌+◌, ◌-◌, ◌^◌, String, Bool, Option, none, some, List, [], ◌∷◌, ◌++◌, str_eq, ltb, ◌==◌, ◌&&◌,
  take, drop, length, if◌then◌else◌,
}
use rethinkdb_python.Base.Struct.{Bytes, to_le, from_le}
use rethinkdb_python.Base.Integer.{ℤ, pos, negsuc}
use rethinkdb_python.Base.Exec.{Outcome, ok, raised, blocked}
use rethinkdb_python.Errors.{Exn, builtin, struct_error}

pub data QueryType : Type 0 where
  start continue stop noreply_wait server_info : QueryType

abbrev pub Optargs : Type 0 → Type 0
Optargs V = List (String × V)

module _ {V : Type 0} where
  -- `d.get(k)`
  abbrev pub get_optarg : String → Optargs V → Option V
  get_optarg k [] = none
  get_optarg k ((j, v) ∷ d) = if str_eq j k then some v else get_optarg k d

  -- `d` after `d.pop(k, None)`
  abbrev pub without_optarg : String → Optargs V → Optargs V
  without_optarg k [] = []
  without_optarg k ((j, v) ∷ d) =
      let rest = without_optarg k d in if str_eq j k then rest else (j, v) ∷ rest

  -- `d` after `d[k] = v`
  abbrev pub set_optarg : String → V → Optargs V → Optargs V
  set_optarg k v [] = (k, v) ∷ []
  set_optarg k v ((j, w) ∷ d) = if str_eq j k then (k, v) ∷ d else (j, w) ∷ set_optarg k v d

pub record Query (V : Type 0) : Type 0 where
  pub type : QueryType
  pub token : ℕ
  pub term : Option V
  pub global_optargs : Option (Optargs V)
  pub json_encoder : Option V
  pub json_decoder : Option V

-- An entry of the list that the encoder is given.
pub data Part (V : Type 0) : Type 0 where
  kind : QueryType → Part V
  term_part : V → Part V
  optargs_part : Optargs V → Part V

module _ {V : Type 0} where
  abbrev popped : Option (Optargs V) → Option (Optargs V)
  popped none = none
  popped (some d) = some (without_optarg "json_decoder" (without_optarg "json_encoder" d))

  abbrev codec_of : String → Option (Optargs V) → Option V
  codec_of k none = none
  codec_of k (some d) = get_optarg k d

  -- `Query.__init__`. The dict that it pops from is the one that it keeps.
  abbrev pub new_query : QueryType → ℕ → Option V → Option (Optargs V) → Query V
  new_query type token term d = record {
    type = type;
    token = token;
    term = term;
    global_optargs = popped d;
    json_encoder = codec_of "json_encoder" d;
    json_decoder = codec_of "json_decoder" d;
  }

  abbrev term_parts : Option V → List (Part V)
  term_parts none = []
  term_parts (some t) = term_part t ∷ []

  abbrev optarg_parts : Option (Optargs V) → List (Part V)
  optarg_parts none = []
  optarg_parts (some d) = optargs_part d ∷ []

  -- The list `message` of `serialize`.
  abbrev pub message : Query V → List (Part V)
  message q = kind q.type ∷ (term_parts q.term ++ optarg_parts q.global_optargs)

-- `struct.pack("<QL", token, size)`
unfoldable pub pack_header : ℕ → ℕ → Outcome Exn Bytes
pack_header token size =
    if ltb token (2 ^ 64) && ltb size (2 ^ 32)
    then ok (to_le 8 token ++ to_le 4 size)
    else raised (builtin struct_error)

-- A 64-bit two's complement number, the `q` of a format string.
abbrev pub signed : ℕ → ℤ
signed x = if ltb x (2 ^ 63) then pos x else negsuc (2 ^ 64 - 1 - x)

-- `struct.unpack("<qL", header)`
unfoldable pub unpack_header : Bytes → Outcome Exn (ℤ × ℕ)
unpack_header header =
    if length header == 12
    then ok (signed (from_le (take 8 header)), from_le (drop 8 header))
    else raised (builtin struct_error)

abbrev pub prefix : Outcome Exn Bytes → Bytes → Outcome Exn Bytes
prefix (ok header) body = ok (header ++ body)
prefix (raised e) body = raised e
prefix blocked body = blocked

-- `serialize`, with `encode` for `reql_encoder.encode` and the UTF-8 encoding of its text.
unfoldable pub serialize : {V : Type 0} → (List (Part V) → Bytes) → Query V → Outcome Exn Bytes
unfolding pack_header
serialize encode q =
    let body = encode (message q) in prefix (pack_header q.token (length body)) body
