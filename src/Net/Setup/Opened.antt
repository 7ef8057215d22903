-- ===== src/Net/Setup/Opened.antt =====
-- net.py, `make_connection`: the connection that it returns.
use rethinkdb_python.Base.{
  ℕ, ◌≡◌, refl, ap, ◌∙◌, sym, subst, ◌==◌, Bool-cases, true, inl, inr, Option, none, some, [],
}
use rethinkdb_python.Base.Struct.{Bytes}
use rethinkdb_python.Base.Exec.{Outcome, ok, raised, blocked}
use rethinkdb_python.Base.Outcome
use rethinkdb_python.Base.Outcome.{or_raise, >>=-eq-ok}
use rethinkdb_python.Errors.{Exn, reql, driver_error, bad_port}
use rethinkdb_python.Handshake.State.{Crypto, new_handshake}
use rethinkdb_python.Handshake.Proof.{ComparesDigests}
use rethinkdb_python.Net.World.{Codec}
use rethinkdb_python.Net.Fetch.{instance_is_open}
use rethinkdb_python.Net.Connection.{is_open}
use rethinkdb_python.Net.Open.{Dial, Tls, Opening, open_socket}
use rethinkdb_python.Net.Open.Sound.{Authenticated}
use rethinkdb_python.Net.Open.Ends.{Ends, open_socket-Ends}
use rethinkdb_python.Net.Setup.{
  Settings, Keywords, Client, secret, int_of, or_port, settings_of, password_of, read_url,
  new_connection, new_client, new_instance, connected, reconnect, reconnect_new, make_connection,
  check_version,
}
use rethinkdb_python.Net.Setup.Reconnect.{reconnect_detached}

-- The password that the user gave, by one of the two keywords or by neither.
pub data Secret : Option Bytes → Option Bytes → Bytes → Type 0 where
  no_secret : Secret none none []
  only_password : (p : Bytes) → Secret none (some p) p
  only_auth_key : (p : Bytes) → Secret (some p) none p

module _ {Item V : Type 0} (codec : Codec Item V) (crypto : Crypto) (entropy : Bytes) where
  -- An open connection to a server that has proved that it knows the password.
  pub record IsConnected (password : Bytes) (c : Client Item V) : Type 0 where
    pub is_opened : (is_open codec (c.world)).0 ≡ ok true
    pub no_cursors : c.world.cursors ≡ []
    pub first_token : c.world.next_token ≡ 0
    pub finished : c.handshake.state ≡ 4
    pub authenticated : Authenticated crypto entropy password

  secret-eq-ok : (a p : Option Bytes) (s : Bytes) → secret a p ≡ ok s → Secret a p s
  unfolding secret
  secret-eq-ok none none s e = let same : [] ≡ s = cc in subst (Secret none none) same no_secret
  secret-eq-ok none (some p) s e =
      let same : p ≡ s = cc in subst (Secret none (some p)) same (only_password p)
  secret-eq-ok (some a) none s e =
      let same : a ≡ s = cc in subst (Secret (some a) none) same (only_auth_key a)
  secret-eq-ok (some a) (some p) s e = cc

  connected-IsConnected :
      (c : Client Item V) (password : Bytes) (x : Outcome Exn (Unit {0}) × Opening)
      → c.world.next_token ≡ 0
      → Ends crypto entropy password x
      → (connected x (new_instance c)).0 ≡ ok tt
      → IsConnected password (connected x (new_instance c)).1
  unfolding new_instance is_open instance_is_open
  connected-IsConnected c password (ok u, o) z (up, last, proved) e = record {
    is_opened = ap ok up;
    no_cursors = refl;
    first_token = z;
    finished = last;
    authenticated = proved;
  }
  connected-IsConnected c password (raised x, o) z l e = cc
  connected-IsConnected c password (blocked, o) z l e = cc

  check_version-eq-ok :
      (v : ℕ) (c s : Settings) → check_version crypto.to_int v c ≡ ok s → c.handshake ≡ s.handshake
  check_version-eq-ok v c s e = elim (Bool-cases (v == 4)) [
    | inl f ↦ cc (rw f at e)
    | inr f ↦ cc (rw f at e)
  ]

  -- The settings that a constructor that returns has made.
  new_connection-eq-ok :
      (k : Keywords) (s : Settings)
      → new_connection crypto.to_int k ≡ ok s
      → Secret k.auth_key (password_of k.password) s.handshake.password
  unfolding new_connection new_handshake
  new_connection-eq-ok k s e =
      let (port, e1, f1) =
        >>=-eq-ok
          (or_raise (reql driver_error bad_port) (int_of crypto.to_int (or_port k.port 28015))) _
          e in
      let (password, e2, f2) = >>=-eq-ok (secret k.auth_key (password_of k.password)) _ f1 in
      let same = ap (λ h. h.password) (check_version-eq-ok _ (settings_of k port password) s f2) in
      subst (Secret k.auth_key (password_of k.password)) same (secret-eq-ok _ _ password e2)

  reconnect_new-IsConnected :
      ComparesDigests crypto.digest_test
      → (dial : Dial) (tls : Tls) (term : Bytes → V) (s : Settings)
      → (reconnect codec crypto entropy dial tls true (new_client term s)).0 ≡ ok tt
      → IsConnected s.handshake.password
          (reconnect codec crypto entropy dial tls true (new_client term s)).1
  unfolding new_client
  reconnect_new-IsConnected compares dial tls term s e =
      let direct = reconnect_detached codec crypto entropy dial tls true (new_client term s) refl in
      subst (λ x. IsConnected s.handshake.password x.1) (sym direct)
        (connected-IsConnected (new_client term s) s.handshake.password
          (open_socket crypto entropy dial tls s.handshake) refl
          (open_socket-Ends crypto entropy dial tls s.handshake compares)
          (ap (λ x. x.0) (sym direct) ∙ e))

  -- How `make_connection` has got the connection that it returns.
  pub record IsMade (k : Keywords) (out : Option (Client Item V)) : Type 0 where
    pub client : Client Item V
    pub read : Keywords
    pub password : Bytes
    pub returned : out ≡ some client
    pub from_url : read_url crypto.to_int k k.url ≡ ok read
    pub given : Secret read.auth_key (password_of read.password) password
    pub is_connected : IsConnected password client

  reconnect_new-IsMade :
      ComparesDigests crypto.digest_test
      → (dial : Dial) (tls : Tls) (term : Bytes → V) (k : Keywords) (o : Outcome Exn Settings)
      → Outcome.◌>>=◌ (read_url crypto.to_int k k.url) (new_connection crypto.to_int) ≡ o
      → (reconnect_new codec crypto entropy dial tls term o).0 ≡ ok tt
      → IsMade k (reconnect_new codec crypto entropy dial tls term o).1
  unfolding reconnect_new
  reconnect_new-IsMade compares dial tls term k (ok s) h e =
      let (read, from_url, made) = >>=-eq-ok (read_url crypto.to_int k k.url) _ h in
      record {
        client = (reconnect codec crypto entropy dial tls true (new_client term s)).1;
        read = read;
        password = s.handshake.password;
        returned = refl;
        from_url = from_url;
        given = new_connection-eq-ok read s made;
        is_connected = reconnect_new-IsConnected compares dial tls term s e;
      }
  reconnect_new-IsMade compares dial tls term k (raised x) h e = cc
  reconnect_new-IsMade compares dial tls term k blocked h e = cc

  -- When `make_connection` returns, the connection is open, has no cursors, and its first token is 0; the
  -- login is finished, and the server has proved that it knows the password that was given, by one of
  -- `password` and `auth_key`, or the empty one if there is neither, after the URL has been read. The
  -- condition is that `hmac.compare_digest`, where there is one, tells different digests apart.
  pub make_connection-IsMade :
      ComparesDigests crypto.digest_test
      → (dial : Dial) (tls : Tls) (term : Bytes → V) (k : Keywords)
      → (make_connection codec crypto entropy dial tls term k).0 ≡ ok tt
      → IsMade k (make_connection codec crypto entropy dial tls term k).1
  unfolding make_connection reconnect_new
  make_connection-IsMade compares dial tls term k e =
      reconnect_new-IsMade compares dial tls term k _ refl e
