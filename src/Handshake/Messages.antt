-- ===== src/Handshake/Messages.antt =====
-- handshake.py: hellos and answers that were made, inverted, and a tagged answer at the client.
use matf_master_vpn.Prelude.{
  ℕ, ◌-◌, ◌≡◌, refl, sym, ap, ◌∙◌, true, false, ◌++◌, length, take, ok, >>=-eq-ok, arith,
  length-append, take-append, drop-append, append_assoc,
}
use matf_master_vpn.Prelude.Int.{ℤ, pos, ==ℤ_refl}
use matf_master_vpn.Prelude.Equality.{bytes_beq→eq, bytes_beq_refl}
use matf_master_vpn.Bytes.{Bytes, ascii}
use matf_master_vpn.Primitives.{Primitives, AgreementLaws}
use matf_master_vpn.Protocol.{Packet, MessageType, client_hello, server_hello}
use matf_master_vpn.Crypto.{int_to_bytes}
use matf_master_vpn.KeyAgreement.{derive_shared_secret}
use matf_master_vpn.Handshake.{
  Draw, ClientHandshakeState, body_of, tag_of, validate_hello, authentication_tag, hello_tag,
  handshake_context, check_tag, derive_session_secret, create_client_hello, answer_hello,
  accept_client_hello, finish_client_handshake, authentication_tag_size,
}

-- The sizes of what `generate_keypair` and `token_bytes` draw.
pub record IsDraw (d : Draw) : Type 0 where
  pub private_size : length d.private_key ≡ 32
  pub random_drawn : length d.random ≡ 32

pub body_of-append : (body tag : Bytes) → length tag ≡ 32 → body_of (body ++ tag) ≡ body
unfolding body_of
body_of-append body tag h =
    let size : length (body ++ tag) - authentication_tag_size ≡ length body =
      omega (arith, length-append body tag, h) in
    rw size (take-append (length body) body tag refl)

pub tag_of-append : (body tag : Bytes) → length tag ≡ 32 → tag_of (body ++ tag) ≡ tag
unfolding tag_of
tag_of-append body tag h =
    let size : length (body ++ tag) - authentication_tag_size ≡ length body =
      omega (arith, length-append body tag, h) in
    rw size (drop-append (length body) body tag refl)

abbrev pub hello_packet : MessageType → ℤ → Bytes → Packet
hello_packet t session payload = record {
  message_type = t;
  session_id = session;
  sequence_number = pos 0;
  payload = payload;
}

abbrev pub session_of : Bytes → ℤ → Bytes → Bytes → Bytes → ClientHandshakeState
session_of payload session a peer x = record {
  session_id = session;
  static_private_key = a;
  peer_static_public_key = peer;
  ephemeral_private_key = x;
  client_hello_payload = payload;
}

module _ (c : Primitives) where
  pub derive_comm :
      (laws : AgreementLaws c) (a b : Bytes)
      → length a ≡ 32
      → length b ≡ 32
      → derive_shared_secret c a (c.x25519_public b) ≡ derive_shared_secret c b (c.x25519_public a)
  unfolding derive_shared_secret
  derive_comm laws a b ha hb =
      rw (ha, hb, laws.length-public a, laws.length-public b, laws.exchange_comm a b)

  pub derive-size : (a p : Bytes) {s : Bytes} → derive_shared_secret c a p ≡ ok s → length a ≡ 32
  unfolding derive_shared_secret
  derive-size a p e = ground arith

  pub take-public :
      (laws : AgreementLaws c) (x random tag : Bytes)
      → take 32 ((c.x25519_public x ++ random) ++ tag) ≡ c.x25519_public x
  take-public laws x random tag =
      ap (take 32) (append_assoc (c.x25519_public x) random tag)
      ∙ take-append 32 (c.x25519_public x) (random ++ tag) (laws.length-public x)

  -- A hello that was created, inverted.
  pub record IsCreated (session : ℕ) (draw : Draw) (a peer : Bytes) (hello : Packet)
      (state : ClientHandshakeState) : Type 0 where
    pub static_secret : Bytes
    pub tag : Bytes
    pub shared : derive_shared_secret c a peer ≡ ok static_secret
    pub tagged :
        hello_tag c static_secret
          (ascii "client")
          (pos session)
          (c.x25519_public draw.private_key ++ draw.random)
        ≡ ok tag
    pub payload_is : hello.payload ≡ (c.x25519_public draw.private_key ++ draw.random) ++ tag
    pub hello_is : hello ≡ hello_packet client_hello (pos session) hello.payload
    pub state_is : state ≡ session_of hello.payload hello.session_id a peer draw.private_key

  pub create_client_hello-IsCreated :
      (session : ℕ) (draw : Draw) (a peer : Bytes) {hello : Packet} {state : ClientHandshakeState}
      → create_client_hello c session draw a peer ≡ ok (hello, state)
      → IsCreated session draw a peer hello state
  unfolding create_client_hello
  create_client_hello-IsCreated session draw a peer {hello} {state} e =
      let (secret, shared, e₁) = >>=-eq-ok (derive_shared_secret c a peer) _ e in
      let (tag, tagged, e₂) =
        >>=-eq-ok
          (hello_tag c secret (ascii "client") (pos session)
            (c.x25519_public draw.private_key ++ draw.random))
          _ e₁ in
      record {
        static_secret = secret;
        tag = tag;
        shared = shared;
        tagged = tagged;
        payload_is = cc e₂;
        hello_is = cc e₂;
        state_is = cc e₂;
      }

  pub hello_tag-size :
      (laws : AgreementLaws c) (secret label : Bytes) (session : ℤ) (rest : Bytes) {tag : Bytes}
      → hello_tag c secret label session rest ≡ ok tag
      → length tag ≡ 32
  unfolding hello_tag authentication_tag
  hello_tag-size laws secret label session rest {tag} e =
      let (bytes, packed, e₁) = >>=-eq-ok (int_to_bytes 4 session) _ e in
      let tag_is : c.hmac_sha256 secret (handshake_context ++ (label ++ bytes ++ rest)) ≡ tag =
        cc e₁ in
      ap length (sym tag_is) ∙ laws.length-hmac secret _

  -- A server hello with the right tag, at the client.
  pub finish-tagged :
      (payload : Bytes) (session : ℤ) (a peer x body tag : Bytes) {secret : Bytes}
      → length body ≡ 64
      → length tag ≡ 32
      → derive_shared_secret c a peer ≡ ok secret
      → hello_tag c secret (ascii "server") session (payload ++ body) ≡ ok tag
      → finish_client_handshake c
          (session_of payload session a peer x)
          (hello_packet server_hello session (body ++ tag))
        ≡ derive_session_secret c x (take 32 (body ++ tag)) a peer payload (body ++ tag) true
  unfolding finish_client_handshake validate_hello check_tag
  finish-tagged payload session a peer x body tag hb ht shared tagged =
      let size : length (body ++ tag) ≡ 96 = omega (arith, length-append body tag) in
      rw
        (
          size,
          ==ℤ_refl session,
          shared,
          body_of-append body tag ht,
          tag_of-append body tag ht,
          tagged,
          bytes_beq_refl tag,
        )
        refl

  -- An answer that was given, inverted.
  pub record IsAnswer (draw : Draw) (hello : Packet) (b peer : Bytes) (response : Packet)
      (secret : Bytes) : Type 0 where
    pub static_secret : Bytes
    pub tag : Bytes
    pub valid : validate_hello hello client_hello ≡ ok tt
    pub shared : derive_shared_secret c b peer ≡ ok static_secret
    pub authentic :
        hello_tag c static_secret (ascii "client") hello.session_id (body_of hello.payload)
        ≡ ok (tag_of hello.payload)
    pub tagged :
        hello_tag c static_secret
          (ascii "server")
          hello.session_id
          (hello.payload ++ (c.x25519_public draw.private_key ++ draw.random))
        ≡ ok tag
    pub response_is :
        response
        ≡ hello_packet server_hello hello.session_id
            ((c.x25519_public draw.private_key ++ draw.random) ++ tag)
    pub secret_is :
        derive_session_secret c draw.private_key
          (take 32 hello.payload)
          b
          peer
          hello.payload
          ((c.x25519_public draw.private_key ++ draw.random) ++ tag)
          false
        ≡ ok secret

  check_tag-eq : (s t : Bytes) {u : Unit {0}} → check_tag c s t ≡ ok u → s ≡ t
  unfolding check_tag
  check_tag-eq s t e = bytes_beq→eq s t (ground arith)

  pub accept_client_hello-IsAnswer :
      (draw : Draw) (hello : Packet) (b peer : Bytes) {response : Packet} {secret : Bytes}
      → accept_client_hello c draw hello b peer ≡ ok (response, secret)
      → IsAnswer draw hello b peer response secret
  unfolding accept_client_hello answer_hello
  accept_client_hello-IsAnswer draw hello b peer {response} {secret} e =
      let (done, valid, e₁) = >>=-eq-ok (validate_hello hello client_hello) _ e in
      let (static, shared, e₂) = >>=-eq-ok (derive_shared_secret c b peer) _ e₁ in
      let (expected, tagged, e₃) =
        >>=-eq-ok (hello_tag c static (ascii "client") hello.session_id (body_of hello.payload)) _
          e₂ in
      let (done', checked, e₄) = >>=-eq-ok (check_tag c (tag_of hello.payload) expected) _ e₃ in
      let body = c.x25519_public draw.private_key ++ draw.random in
      let (tag, answered, e₅) =
        >>=-eq-ok (hello_tag c static (ascii "server") hello.session_id (hello.payload ++ body)) _
          e₄ in
      let (key, derived, e₆) =
        >>=-eq-ok
          (derive_session_secret c draw.private_key (take 32 hello.payload) b peer hello.payload
            (body ++ tag) false)
          _ e₅ in
      record {
        static_secret = static;
        tag = tag;
        valid = valid;
        shared = shared;
        authentic = tagged ∙ ap ok (sym (check_tag-eq _ _ checked));
        tagged = answered;
        response_is = cc e₆;
        secret_is = derived ∙ cc e₆;
      }
