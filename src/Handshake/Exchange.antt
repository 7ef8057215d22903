-- ===== src/Handshake/Exchange.antt =====
-- handshake.py: the messages of a SCRAM-SHA-256 login, as RFC 5802 describes them.
use rethinkdb_python.Base.{◌≡◌, refl, ap, ◌∙◌, true, some, List, [], ◌∷◌, ◌++◌, ==_refl}
use rethinkdb_python.Base.Split.{split, lacks, split-one_part, split-append}
use rethinkdb_python.Base.Struct.{Bytes}
use rethinkdb_python.Base.Bytewise.{xor_all}
use rethinkdb_python.Base.Text.{codes}
use rethinkdb_python.Base.Integer.{ℤ}
use rethinkdb_python.Base.Exec.{ok}
use rethinkdb_python.Handshake.Attributes.{split_once, pairs, attributes, attribute, starts_with}
use rethinkdb_python.Handshake.State.{Reply, Crypto, Handshake, Challenge}
use rethinkdb_python.Handshake.Server.{
  check_success, is_ascii, decode_json_response, get_authentication, check_nonce, salt_password,
  read_challenge, read_signature,
}

-- What the two sides of a login choose and send: the client's first message and its nonce, what the
-- server adds to the nonce, the salt and the number of iterations as they are sent and as they are meant,
-- the salted password, and the server's signature as it is sent.
pub record Exchange : Type 0 where
  pub client_first : Bytes
  pub client_nonce : Bytes
  pub server_nonce : Bytes
  pub sent_salt : Bytes
  pub salt : Bytes
  pub sent_count : Bytes
  pub count : ℤ
  pub salted_password : Bytes
  pub sent_signature : Bytes

abbrev pub whole_nonce : Exchange → Bytes
whole_nonce x = x.client_nonce ++ x.server_nonce

-- `r=…,s=…,i=…`
unfoldable pub server_first : Exchange → Bytes
server_first x =
    codes "r=" ++ (whole_nonce x ++ (codes ",s=" ++ (x.sent_salt ++ (codes ",i=" ++ x.sent_count))))

-- `v=…`
unfoldable pub server_final : Exchange → Bytes
server_final x = codes "v=" ++ x.sent_signature

-- The texts that both sides sign: the client's first message, the server's, and the client's last without
-- its proof.
unfoldable pub signed_text : Exchange → Bytes
signed_text x =
    x.client_first ++ (codes "," ++ (server_first x ++ (codes ",c=biws,r=" ++ whole_nonce x)))

module _ (crypto : Crypto) where
  -- ServerSignature
  unfoldable pub server_signature : Exchange → Bytes
  server_signature x =
      crypto.hmac (crypto.hmac x.salted_password (codes "Server Key")) (signed_text x)

  -- ClientProof, the exclusive or of ClientKey and ClientSignature
  unfoldable pub login_proof : Exchange → Bytes
  login_proof x =
      let client_key = crypto.hmac x.salted_password (codes "Client Key") in
      xor_all client_key (crypto.hmac (crypto.sha256 client_key) (signed_text x))

  -- The client's last message.
  unfoldable pub client_final : Exchange → Bytes
  client_final x =
      codes "c=biws,r=" ++ (whole_nonce x ++ (codes ",p=" ++ crypto.b64encode (login_proof x)))

  -- The response reports success and gives the text for the login, which is ASCII.
  pub record Says (response text : Bytes) : Type 0 where
    pub utf8 : crypto.is_utf8 response ≡ true
    pub reply : Reply
    pub decoded : crypto.decode response ≡ some (some reply)
    pub success : reply.success ≡ true
    pub authentication : reply.authentication ≡ some (some text)
    pub ascii_text : is_ascii text ≡ true

  -- The client has sent its first message, with its nonce, and the server answers by the rules: no part of its
  -- messages has a comma, the salt and the count can be read, the password salted with them is the one in
  -- the exchange, and the signature is that of the exchange.
  pub record IsHonest (h : Handshake) (second third : Bytes) (x : Exchange) : Type 0 where
    pub nonce : h.random_nonce ≡ some x.client_nonce
    pub message : h.first_client_message ≡ some x.client_first
    pub challenged : Says second (server_first x)
    pub nonce_part : lacks b',' (whole_nonce x) ≡ true
    pub salt_part : lacks b',' x.sent_salt ≡ true
    pub count_part : lacks b',' x.sent_count ≡ true
    pub salt : crypto.b64decode x.sent_salt ≡ some x.salt
    pub count : crypto.to_int x.sent_count ≡ some x.count
    pub salted : crypto.pbkdf2 h.password x.salt x.count ≡ some x.salted_password
    pub signed : Says third (server_final x)
    pub signature_part : lacks b',' x.sent_signature ≡ true
    pub signature : crypto.b64decode x.sent_signature ≡ some (server_signature x)

  first_attributes : Exchange → List (Bytes × Bytes)
  first_attributes x =
      (codes "r", whole_nonce x) ∷ (codes "s", x.sent_salt) ∷ (codes "i", x.sent_count) ∷ []

  attributes-server_first :
      (x : Exchange)
      → lacks b',' (whole_nonce x) ≡ true
      → lacks b',' x.sent_salt ≡ true
      → lacks b',' x.sent_count ≡ true
      → attributes (server_first x) ≡ some (first_attributes x)
  unfolding attributes server_first first_attributes pairs split_once split lacks
  attributes-server_first x n s c =
      let behind = codes "s=" ++ (x.sent_salt ++ (codes ",i=" ++ x.sent_count)) in
      ap pairs (
        split-append b',' (codes "r=" ++ whole_nonce x) behind n
        ∙ ap (λ ws. (codes "r=" ++ whole_nonce x) ∷ ws)
            (split-append b',' (codes "s=" ++ x.sent_salt) (codes "i=" ++ x.sent_count) s
              ∙ ap (λ ws. (codes "s=" ++ x.sent_salt) ∷ ws)
                  (split-one_part b',' (codes "i=" ++ x.sent_count) c)))

  attributes-server_final :
      (x : Exchange)
      → lacks b',' x.sent_signature ≡ true
      → attributes (server_final x) ≡ some ((codes "v", x.sent_signature) ∷ [])
  unfolding attributes server_final pairs split_once split lacks
  attributes-server_final x l = ap pairs (split-one_part b',' (codes "v=" ++ x.sent_signature) l)

  starts_with-append : (a b : Bytes) → starts_with a (a ++ b) ≡ true
  unfolding starts_with
  starts_with-append [] b = refl
  starts_with-append (x ∷ a) b = rw (==_refl x) (starts_with-append a b)

  decode-Says :
      (response text : Bytes) (s : Says response text)
      → decode_json_response crypto (some response) ≡ ok s.reply
  unfolding decode_json_response
  decode-Says response text s = rw s.decoded (ap (λ b. check_success b s.reply) s.success)

  authentication-Says :
      (response text : Bytes) (d : List (Bytes × Bytes)) (s : Says response text)
      → attributes text ≡ some d
      → get_authentication crypto s.reply ≡ ok (text, d)
  unfolding get_authentication
  authentication-Says response text d s e = rw (s.authentication, s.ascii_text, e) refl

  salt_password-IsHonest :
      (h : Handshake) (second third : Bytes) (x : Exchange)
      → IsHonest h second third x
      → salt_password crypto h.password (first_attributes x) ≡ ok x.salted_password
  unfolding salt_password attribute first_attributes
  salt_password-IsHonest h second third x e = rw (e.salt, e.count, e.salted) refl

  -- The challenge that the client reads.
  abbrev pub challenge : Exchange → Challenge
  challenge x = record {
    text = server_first x;
    nonce = whole_nonce x;
    salted_password = x.salted_password;
  }

  pub read_challenge-IsHonest :
      (h : Handshake) (second third : Bytes) (x : Exchange)
      → IsHonest h second third x
      → read_challenge crypto h (some second) ≡ ok (challenge x)
  unfolding read_challenge check_nonce attribute first_attributes
  read_challenge-IsHonest h second third x e =
      let d = attributes-server_first x e.nonce_part e.salt_part e.count_part in
      rw
        (
          decode-Says second (server_first x) e.challenged,
          authentication-Says second (server_first x) (first_attributes x) e.challenged d,
          e.nonce,
          starts_with-append x.client_nonce x.server_nonce,
          salt_password-IsHonest h second third x e,
        )
        refl

  pub read_signature-IsHonest :
      (h : Handshake) (second third : Bytes) (x : Exchange)
      → IsHonest h second third x
      → read_signature crypto (some third) ≡ ok (server_signature x)
  unfolding read_signature attribute
  read_signature-IsHonest h second third x e =
      rw
        (
          decode-Says third (server_final x) e.signed,
          authentication-Says third (server_final x) _ e.signed
              (attributes-server_final x e.signature_part),
          e.signature,
        )
        refl
