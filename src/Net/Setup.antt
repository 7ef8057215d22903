-- ===== src/Net/Setup.antt =====
-- net.py: `make_connection`, the constructor of `Connection`, and `reconnect`.
-- Texts are the bytes that are sent. A timeout shows only in what the scripts hold.
pub mod Reconnect
pub mod Opened
mod Tests
use rethinkdb_python.Base.{
  ℕ, zero, suc, Bool, true, false, Option, none, some, List, [], ◌∷◌, ◌==◌, if◌then◌else◌,
}
use rethinkdb_python.Base.Struct.{Bytes}
use rethinkdb_python.Base.Text.{codes}
use rethinkdb_python.Base.Integer.{ℤ, pos, negsuc}
use rethinkdb_python.Base.Exec.{Outcome, ok, raised, blocked, Exec, modify, ◌>>=◌, ◌>>◌}
use rethinkdb_python.Base.Outcome
use rethinkdb_python.Base.Outcome.{or_raise}
use rethinkdb_python.Errors.{
  Exn, reql, builtin, driver_error, keys_both_set, bad_port, value_error, not_implemented_error,
}
use rethinkdb_python.Handshake.State.{Crypto, Handshake, new_handshake}
use rethinkdb_python.Handshake.Attributes.{replace}
use rethinkdb_python.Net.World.{Codec, World, Action}
use rethinkdb_python.Net.Connection
use rethinkdb_python.Net.Open.{Dial, Tls, Opening, open_socket}

-- A port as the user gives it.
pub data Port : Type 0 where
  number : ℕ → Port
  text : Bytes → Port

-- What `urlparse` and `parse_qs` read in a URL; a missing key of the query is an empty list.
pub record Url : Type 0 where
  pub username : Option Bytes
  pub password : Option Bytes
  pub hostname : Option Bytes
  pub port : Option ℕ
  pub path : Bytes
  pub auth_key : List Bytes
  pub timeout : List Bytes

pub record Keywords : Type 0 where
  pub host : Option Bytes
  pub port : Option Port
  pub db : Option Bytes
  pub auth_key : Option Bytes
  pub user : Option Bytes
  pub password : Option Bytes
  pub timeout : Option ℤ
  pub url : Option Url
  pub handshake_version : Option ℕ

-- `Connection`, less its instance.
pub record Settings : Type 0 where
  pub host : Bytes
  pub port : ℤ
  pub db : Option Bytes
  pub connect_timeout : ℤ
  pub handshake : Handshake

-- `t or default`
abbrev pub or_text : Option Bytes → Bytes → Bytes
or_text none default = default
or_text (some []) default = default
or_text (some (b ∷ t)) default = b ∷ t

-- `t or None`
abbrev pub or_none : Bytes → Option Bytes
or_none [] = none
or_none (b ∷ t) = some (b ∷ t)

abbrev pub or_number : Option ℤ → ℕ → ℤ
or_number none default = pos default
or_number (some (pos zero)) default = pos default
or_number (some z) default = z

abbrev pub or_port : Option Port → ℕ → Port
or_port none default = number default
or_port (some (number zero)) default = number default
or_port (some (text [])) default = number default
or_port (some p) default = p

abbrev pub or_version : Option ℕ → ℕ → ℕ
or_version none default = default
or_version (some zero) default = default
or_version (some v) default = v

-- `if not password and not password is None: password = None`
abbrev pub password_of : Option Bytes → Option Bytes
password_of none = none
password_of (some p) = or_none p

abbrev pub head_of : List Bytes → Option Bytes
head_of [] = none
head_of (t ∷ ts) = some t

abbrev pub port_of : Option ℕ → Option Port
port_of none = none
port_of (some n) = some (number n)

-- The password of the handshake, from `auth_key` and `password`.
unfoldable pub secret : Option Bytes → Option Bytes → Outcome Exn Bytes
secret none none = ok []
secret none (some password) = ok password
secret (some auth_key) none = ok auth_key
secret (some auth_key) (some password) = raised (reql driver_error keys_both_set)

abbrev pub settings_of : Keywords → ℤ → Bytes → Settings
settings_of k port password = record {
  host = or_text k.host (codes "localhost");
  port = port;
  db = k.db;
  connect_timeout = or_number k.timeout 20;
  handshake = new_handshake (or_text k.user (codes "admin")) password;
}

module _ (to_int : Bytes → Option ℤ) where
  abbrev pub timeout_of : Option Bytes → Outcome Exn (Option ℤ)
  timeout_of none = ok none
  timeout_of (some []) = ok none
  timeout_of (some (b ∷ t)) =
      Outcome.◌>>=◌ (or_raise (builtin value_error) (to_int (b ∷ t))) (λ z. ok (some z))

  -- The branch of `make_connection` for a URL.
  unfoldable pub read_url : Keywords → Option Url → Outcome Exn Keywords
  read_url k none = ok k
  read_url k (some url) = Outcome.◌>>=◌ (timeout_of (head_of url.timeout)) (λ timeout.
      ok (record k {
        user = url.username;
        password = url.password;
        host = url.hostname;
        port = port_of url.port;
        db = or_none (replace b'/' [] url.path);
        auth_key = head_of url.auth_key;
        timeout = timeout;
      }))

  abbrev pub int_of : Port → Option ℤ
  int_of (number n) = some (pos n)
  int_of (text t) = to_int t

  abbrev pub check_version : ℕ → Settings → Outcome Exn Settings
  check_version v c = if v == 4 then raised (builtin not_implemented_error) else ok c

  -- `Connection.__init__`, for the arguments that `make_connection` passes on.
  unfoldable pub new_connection : Keywords → Outcome Exn Settings
  new_connection k =
      Outcome.◌>>=◌ (or_raise (reql driver_error bad_port) (int_of (or_port k.port 28015))) (λ port.
        Outcome.◌>>=◌ (secret k.auth_key (password_of k.password)) (λ password.
          check_version (or_version k.handshake_version 10) (settings_of k port password)))

pub record Client (Item V : Type 0) : Type 0 where
  pub world : World Item V
  pub handshake : Handshake

-- A connection that has never had an instance; `term` makes the database a value.
unfoldable pub new_client : {Item V : Type 0} → (Bytes → V) → Settings → Client Item V
new_client term c = record {
  world = record {
    attached = false;
    next_token = 0;
    db = elim c.db [ none ↦ none | some d ↦ some (term d) ];
    closing = false;
    header_in_progress = none;
    socket = none;
    cursors = [];
  };
  handshake = c.handshake;
}

module _ {Item V : Type 0} where
  abbrev pub on_world : {A : Type 0} → Action Item V A → Exec Exn (Client Item V) A
  on_world m c = ((m c.world).0, record c { world = (m c.world).1 })

  -- `self._instance = self._conn_type(self)`. The cursors of the last instance are not followed further.
  unfoldable pub new_instance : Client Item V → Client Item V
  new_instance c = record c {
    world = record (c.world) {
      attached = true;
      closing = false;
      header_in_progress = none;
      socket = none;
      cursors = [];
    };
  }

  abbrev pub connected :
      Outcome Exn (Unit {0}) × Opening → Client Item V → Outcome Exn (Unit {0}) × Client Item V
  connected (ok u, o) c = (
    ok u,
    record { world = record (c.world) { socket = some o.socket }; handshake = o.handshake },
  )
  connected (raised e, o) c = (raised e, record c { handshake = o.handshake })
  connected (blocked, o) c = (blocked, record c { handshake = o.handshake })

  -- `ConnectionInstance.connect`
  unfoldable pub connect : Crypto → Bytes → Dial → Tls → Exec Exn (Client Item V) (Unit {0})
  connect crypto entropy dial tls c = connected (open_socket crypto entropy dial tls c.handshake) c

  -- `reconnect`
  unfoldable pub reconnect :
      Codec Item V → Crypto → Bytes → Dial → Tls → Bool → Exec Exn (Client Item V) (Unit {0})
  reconnect codec crypto entropy dial tls noreply_wait = do
    on_world (Connection.close codec noreply_wait)
    modify new_instance
    connect crypto entropy dial tls

  -- `conn.reconnect(timeout=timeout)`, for a connection that was made.
  unfoldable pub reconnect_new :
      Codec Item V
      → Crypto
      → Bytes
      → Dial
      → Tls
      → (Bytes → V)
      → Outcome Exn Settings
      → Outcome Exn (Unit {0}) × Option (Client Item V)
  reconnect_new codec crypto entropy dial tls term (ok c) =
      let r = reconnect codec crypto entropy dial tls true (new_client term c) in (r.0, some r.1)
  reconnect_new codec crypto entropy dial tls term (raised e) = (raised e, none)
  reconnect_new codec crypto entropy dial tls term blocked = (blocked, none)

  -- `make_connection`
  unfoldable pub make_connection :
      Codec Item V
      → Crypto
      → Bytes
      → Dial
      → Tls
      → (Bytes → V)
      → Keywords
      → Outcome Exn (Unit {0}) × Option (Client Item V)
  make_connection codec crypto entropy dial tls term k =
      reconnect_new codec crypto entropy dial tls term
        (Outcome.◌>>=◌ (read_url crypto.to_int k k.url) (new_connection crypto.to_int))
