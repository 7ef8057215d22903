-- ===== src/Net/Setup/Reconnect.antt =====
-- net.py, `reconnect`: what a failure to connect leaves behind.
use rethinkdb_python.Base.{◌≡◌, refl, ap, ◌∙◌, Bool, true, false, none, []}
use rethinkdb_python.Base.Struct.{Bytes}
use rethinkdb_python.Base.Exec.{ok, raised}
use rethinkdb_python.Errors.{Exn, builtin, attribute_error}
use rethinkdb_python.Handshake.State.{Crypto}
use rethinkdb_python.Net.World.{Codec, World, at_socket}
use rethinkdb_python.Net.Fetch.{instance_is_open, post}
use rethinkdb_python.Net.Instance
use rethinkdb_python.Net.Instance.{begin_close, end_close, error_each, run_query}
use rethinkdb_python.Net.Connection
use rethinkdb_python.Net.Connection.{is_open, new_token, wait_query}
use rethinkdb_python.Net.Open.{Dial, Tls, Opening, open_socket}
use rethinkdb_python.Net.Setup.{Client, new_instance, connected, connect, reconnect}

module _ {Item V : Type 0} where
  -- An instance whose constructor has raised, and the connection that keeps it.
  abbrev pub stillborn : World Item V → World Item V
  stillborn w = record w {
    attached = true;
    closing = false;
    header_in_progress = none;
    socket = none;
    cursors = [];
  }

  -- The client that a constructor that raised leaves.
  abbrev pub failed_client : Opening → Client Item V → Client Item V
  failed_client o c = record { world = stillborn (c.world); handshake = o.handshake }

  module _ (codec : Codec Item V) where
    close_detached :
        (wait : Bool) (w : World Item V)
        → w.attached ≡ false
        → Connection.close codec wait w ≡ (ok tt, w)
    unfolding Connection.close
    close_detached wait w d = simp d

    is_open-stillborn :
        (w : World Item V)
        → is_open codec (stillborn w) ≡ (raised (builtin attribute_error), stillborn w)
    unfolding is_open instance_is_open
    is_open-stillborn w = refl

    close-stillborn :
        (wait : Bool) (w : World Item V)
        → Connection.close codec wait (stillborn w) ≡ (
          raised (builtin attribute_error),
          record (stillborn w) { attached = false; next_token = 0; closing = true },
        )
    unfolding Connection.close new_token wait_query Instance.close begin_close end_close error_each
        at_socket run_query post
    close-stillborn true w = refl
    close-stillborn false w = refl

    module _ (crypto : Crypto) (entropy : Bytes) (dial : Dial) (tls : Tls) where
      pub reconnect_detached :
          (wait : Bool) (c : Client Item V)
          → c.world.attached ≡ false
          → reconnect codec crypto entropy dial tls wait c
            ≡ connected (open_socket crypto entropy dial tls c.handshake) (new_instance c)
      unfolding reconnect connect new_instance
      reconnect_detached wait c d = rw (close_detached wait (c.world) d) refl

      reconnect-stillborn :
          (wait : Bool) (c : Client Item V)
          → reconnect codec crypto entropy dial tls wait (record c { world = stillborn (c.world) })
            ≡ (
              raised (builtin attribute_error),
              record c {
                world = record (stillborn (c.world)) {
                  attached = false;
                  next_token = 0;
                  closing = true;
                };
              },
            )
      unfolding reconnect
      reconnect-stillborn wait c = rw (close-stillborn wait (c.world)) refl

      -- When a connection that is closed is made again and that fails, `reconnect` raises the error of
      -- the constructor and keeps the instance, which has no socket: `is_open` then raises an
      -- AttributeError, and so does the next `reconnect`, which does not try to connect, but drops the
      -- instance.
      pub reconnect_failed :
          (wait again : Bool) (c : Client Item V) (e : Exn) (o : Opening)
          → c.world.attached ≡ false
          → open_socket crypto entropy dial tls c.handshake ≡ (raised e, o)
          → (reconnect codec crypto entropy dial tls wait c ≡ (raised e, failed_client o c))
            × ((is_open codec (failed_client o c).world).0 ≡ raised (builtin attribute_error))
            × ((reconnect codec crypto entropy dial tls again (failed_client o c)).0
                ≡ raised (builtin attribute_error))
            × ((reconnect codec crypto entropy dial tls again (failed_client o c)).1.world.attached
                ≡ false)
      unfolding new_instance
      reconnect_failed wait again c e o d f =
          let next = reconnect-stillborn again (failed_client o c) in
          (
            reconnect_detached wait c d ∙ ap (λ x. connected x (new_instance c)) f,
            ap (λ x. x.0) (is_open-stillborn (c.world)),
            ap (λ x. x.0) next,
            ap (λ x. x.1.world.attached) next,
          )
