-- ===== src/Net/Setup/Tests.antt =====
-- `make_connection` for a server that is honest, and for one that is away.
use rethinkdb_python.Base.{ℕ, ◌≡◌, refl, true, false, none, some, []}
use rethinkdb_python.Base.Split.{split}
use rethinkdb_python.Base.Struct.{to_le}
use rethinkdb_python.Base.Text.{codes}
use rethinkdb_python.Base.Exec.{raised}
use rethinkdb_python.Errors.{reql, builtin, driver_error, attribute_error, could_not_connect}
use rethinkdb_python.Handshake.Digest.{compare_digest}
use rethinkdb_python.Handshake.Attributes.{
  split_once, pairs, attributes, attribute, starts_with, replace, escape, first_message,
}
use rethinkdb_python.Handshake.State.{new_handshake, reset}
use rethinkdb_python.Handshake.Server.{
  decode_json_response, get_authentication, is_supported, check_nonce, salt_password,
  read_challenge, read_signature,
}
use rethinkdb_python.Handshake.{
  init_connection, read_response, client_proof, sign, send_login, prepare_auth_request, same_digest,
  check_signature, read_auth_response, in_state, next_message,
}
use rethinkdb_python.Handshake.Sample.{toy}
use rethinkdb_python.Net.Socket.{recv_round, next_round, recv_loop, recvall, send_loop, sendall}
use rethinkdb_python.Net.World.{Codec}
use rethinkdb_python.Net.Connection
use rethinkdb_python.Net.Connection.{is_open}
use rethinkdb_python.Net.Open.{
  Opening, refused, plain, accepted, no_socket, dial_server, secure, read_text,
  read_null_terminated, after_message, login_rounds, login, try_open, handler, close_opening,
  handled, open_socket,
}
use rethinkdb_python.Net.Open.Sample.{dial, user}
use rethinkdb_python.Net.Setup.{
  Keywords, Client, number, secret, read_url, new_connection, new_client, new_instance, connect,
  reconnect, reconnect_new, make_connection,
}
use rethinkdb_python.Net.Setup.Reconnect.{failed_client, reconnect_failed}
use rethinkdb_python.Net.Setup.Opened.{IsMade, make_connection-IsMade}

abbrev no_codec : Codec ℕ ℕ
no_codec = record {
  encode = λ e ps. [];
  decode = λ q b. none;
  dummy_response = [];
  text = λ x. "message";
  db_term = λ v. v;
  is_true = λ v. true;
}

abbrev keywords : Keywords
keywords = record {
  host = none;
  port = some (number 28015);
  db = none;
  auth_key = none;
  user = some (codes "u");
  password = some (codes "p");
  timeout = none;
  url = none;
  handshake_version = none;
}

abbrev closed : Client ℕ ℕ
closed = record {
  world = record {
    attached = false;
    next_token = 0;
    db = none;
    closing = false;
    header_in_progress = none;
    socket = none;
    cursors = [];
  };
  handshake = user;
}

abbrev unopened : Opening
unopened = record { handshake = user; socket = no_socket }

reconnect_failed_example :
    (reconnect no_codec toy [] refused plain true closed
      ≡ (raised (reql driver_error could_not_connect), failed_client unopened closed))
    × ((is_open no_codec (failed_client unopened closed).world).0
        ≡ raised (builtin attribute_error))
    × ((reconnect no_codec toy [] refused plain false (failed_client unopened closed)).0
        ≡ raised (builtin attribute_error))
    × ((reconnect no_codec toy [] refused plain false
          (failed_client unopened closed)).1.world.attached
        ≡ false)
unfolding open_socket handled try_open dial_server handler close_opening
reconnect_failed_example =
    reconnect_failed no_codec toy [] refused plain true false closed
      (reql driver_error could_not_connect) unopened refl refl

make_connection-IsMade_example :
    IsMade no_codec toy
      (codes "n")
      keywords
      (make_connection no_codec toy (codes "n") dial accepted (λ d. 0) keywords).1
unfolding make_connection reconnect_new read_url new_connection secret new_client reconnect
    Connection.close new_instance connect new_handshake escape replace open_socket handled try_open
    dial_server secure login reset login_rounds after_message read_null_terminated read_text recvall
    recv_loop recv_round next_round sendall send_loop next_message in_state init_connection
    send_login first_message read_response is_supported decode_json_response prepare_auth_request
    read_challenge get_authentication attributes pairs split split_once attribute starts_with
    check_nonce salt_password sign client_proof read_auth_response read_signature check_signature
    same_digest compare_digest to_le
make_connection-IsMade_example =
    make_connection-IsMade no_codec toy (codes "n") tt dial accepted (λ d. 0) keywords refl
