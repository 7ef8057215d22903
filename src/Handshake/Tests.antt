-- ===== src/Handshake/Tests.antt =====
-- A login with a server that is honest, with toy functions in place of the hash functions.
use rethinkdb_python.Base.{ℕ, zero, suc, All, ◌≡◌, refl, arith, true, none, some, [], ◌∷◌, ◌++◌}
use rethinkdb_python.Base.Split.{split, lacks}
use rethinkdb_python.Base.Struct.{Bytes}
use rethinkdb_python.Base.Text.{codes}
use rethinkdb_python.Base.Integer.{pos}
use rethinkdb_python.Base.Exec.{ok}
use rethinkdb_python.Handshake.Digest.{compare_digest}
use rethinkdb_python.Handshake.Attributes.{split_once, pairs, attributes, attribute, starts_with}
use rethinkdb_python.Handshake.State.{Handshake, Challenge}
use rethinkdb_python.Handshake.Server.{
  is_ascii, decode_json_response, get_authentication, check_nonce, salt_password, read_challenge,
  read_signature,
}
use rethinkdb_python.Handshake.{
  Request, client_proof, sign, prepare_auth_request, same_digest, check_signature,
  read_auth_response, in_state, next_message, signature,
}
use rethinkdb_python.Handshake.Invariant.{IsReady, next_message-IsReady}
use rethinkdb_python.Handshake.Proof.{IsChallenge, login_sound}
use rethinkdb_python.Base.Bytewise.{IsByte}
use rethinkdb_python.Handshake.Pbkdf2.{Key, pbkdf2_hmac}
use rethinkdb_python.Handshake.Pbkdf2.Block.{IsDigest, IsSound, block, pbkdf2_hmac-block}
use rethinkdb_python.Handshake.Completed.{login_complete}
use rethinkdb_python.Handshake.Exchange.{
  Exchange, server_first, server_final, server_signature, client_final, Says, IsHonest,
}
use rethinkdb_python.Handshake.Sample.{sevens, digest, reply, toy}

sevens_bytes : (n : ℕ) → All IsByte (sevens n)
sevens_bytes zero = tt
sevens_bytes (suc n) = (omega arith, sevens_bytes n)

digest_lem : (k m : Bytes) → IsDigest digest
digest_lem k m = record { size = refl; bytes = sevens_bytes 32 }

abbrev waiting : Handshake
waiting = record {
  username = codes "u";
  password = codes "p";
  protocol_version = 0;
  random_nonce = some (codes "n");
  first_client_message = some (codes "n=u,r=n");
  server_signature = none;
  state = 2;
}

abbrev challenge : Bytes
challenge = codes "r=nx,s=salt,i=1"

abbrev signed : Handshake
signed = record waiting { server_signature = some digest; state = 3 }

abbrev over : Handshake
over = record signed { state = 4 }

next_message-IsReady_example : IsReady (next_message toy [] (some challenge) waiting).1
next_message-IsReady_example = next_message-IsReady toy [] (some challenge) waiting (record {
  bounded = omega arith;
  nonce_set = λ p. refl;
  message_set = λ p. refl;
  signature_set = λ p. absurd (omega arith);
})

login_sound_example :
    (c : Challenge) × (first : Bytes) × (waiting.first_client_message ≡ some first)
    × IsChallenge toy waiting challenge c
    × (read_signature toy (some (codes "v=" ++ digest)) ≡ ok (signature toy first c))
    × (◌≡◌ {A = Request} none none)
    × (over.state ≡ 4)
unfolding next_message in_state prepare_auth_request read_challenge decode_json_response
    get_authentication attributes pairs split split_once attribute starts_with check_nonce
    salt_password sign client_proof read_auth_response read_signature check_signature same_digest
    compare_digest
login_sound_example =
    login_sound toy tt [] challenge (codes "v=" ++ digest) waiting signed over (some (0 ∷ [])) none
      refl refl refl

abbrev key : Key
key = record { password = codes "p"; salt = codes "s"; iterations = pos 3 }

pbkdf2_hmac-block_example :
    ((pbkdf2_hmac (λ k m. digest) key []).0 ≡ block (λ k m. digest) key 2)
    × IsSound (λ k m. digest) (pbkdf2_hmac (λ k m. digest) key []).1
pbkdf2_hmac-block_example = pbkdf2_hmac-block (λ k m. digest) digest_lem key [] 2 refl tt

abbrev exchange : Exchange
exchange = record {
  client_first = codes "n=u,r=n";
  client_nonce = codes "n";
  server_nonce = codes "x";
  sent_salt = codes "salt";
  salt = codes "salt";
  sent_count = codes "1";
  count = pos 1;
  salted_password = codes "p";
  sent_signature = digest;
}

toy-Says : (text : Bytes) → is_ascii text ≡ true → Says toy text text
toy-Says text a = record {
  utf8 = refl;
  reply = reply text;
  decoded = refl;
  success = refl;
  authentication = refl;
  ascii_text = a;
}

exchange-IsHonest : IsHonest toy waiting challenge (codes "v=" ++ digest) exchange
unfolding server_first server_final server_signature lacks
exchange-IsHonest = record {
  nonce = refl;
  message = refl;
  challenged = toy-Says challenge refl;
  nonce_part = refl;
  salt_part = refl;
  count_part = refl;
  salt = refl;
  count = refl;
  salted = refl;
  signed = toy-Says (codes "v=" ++ digest) refl;
  signature_part = refl;
  signature = refl;
}

login_complete_example :
    (g : Handshake) × (t : Handshake) × (next_message toy [] (some challenge) waiting
      ≡ (ok (some (toy.encode_proof (client_final toy exchange) ++ 0 ∷ [])), g))
    × (next_message toy [] (some (codes "v=" ++ digest)) g ≡ (ok none, t))
    × (t.state ≡ 4)
login_complete_example =
    login_complete toy (λ k m. refl) tt [] challenge (codes "v=" ++ digest) waiting exchange refl
      exchange-IsHonest
