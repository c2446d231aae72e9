-- ===== src/Handshake.antt =====
-- handshake.py: the messages of the authenticated handshake. What the program draws at random, a
-- session id, a private key or a nonce, is an argument.
pub mod Messages
pub mod Rounds
pub mod Agreement
pub mod Authenticity
pub mod Attempts
pub mod Sessions
pub mod Server
pub mod Traffic
pub mod Survival
use matf_master_vpn.Prelude.{
  ℕ, ◌+◌, ◌-◌, Bool, true, false, not, ◌||◌, List, ◌++◌, length, take, drop, ◌==◌, Error, Result,
  ok, err, raise_if, ◌>>=◌, ◌>>◌, if◌then◌else◌,
}
use matf_master_vpn.Prelude.Int.{ℤ, pos, ◌==ℤ◌}
use matf_master_vpn.Prelude.Equality.{bytes_beq}
use matf_master_vpn.Bytes.{Bytes, ascii}
use matf_master_vpn.Primitives.{Primitives}
use matf_master_vpn.Protocol.{Packet, MessageType, client_hello, server_hello, same_type}
use matf_master_vpn.Crypto.{int_to_bytes}
use matf_master_vpn.KeyAgreement.{generate_keypair, derive_shared_secret}

abbrev pub random_size : ℕ
random_size = 32

abbrev pub authentication_tag_size : ℕ
authentication_tag_size = 32

abbrev pub hello_payload_size : ℕ
hello_payload_size = 32 + random_size + authentication_tag_size

abbrev pub handshake_context : Bytes
handshake_context = ascii "matf-vpn-v1 authenticated ephemeral handshake"

pub record ClientHandshakeState : Type 0 where
  pub session_id : ℤ
  pub static_private_key : Bytes
  pub peer_static_public_key : Bytes
  pub ephemeral_private_key : Bytes
  pub client_hello_payload : Bytes

-- What `generate_keypair` and `secrets.token_bytes` draw for one hello.
pub record Draw : Type 0 where
  pub private_key : Bytes
  pub random : Bytes

-- `payload[:-AUTHENTICATION_TAG_SIZE]`
unfoldable pub body_of : Bytes → Bytes
body_of payload = take (length payload - authentication_tag_size) payload

-- `payload[-AUTHENTICATION_TAG_SIZE:]`
unfoldable pub tag_of : Bytes → Bytes
tag_of payload = drop (length payload - authentication_tag_size) payload

-- _validate_hello
unfoldable pub validate_hello : Packet → MessageType → Result (Unit {0})
validate_hello packet expected_type = do
  raise_if (not (same_type packet.message_type expected_type)) Error.value_error
  raise_if
      (not (packet.sequence_number ==ℤ pos 0) || not (length packet.payload == hello_payload_size))
      Error.value_error

module _ (c : Primitives) where
  -- _authentication_tag
  unfoldable pub authentication_tag : Bytes → Bytes → Bytes
  authentication_tag key transcript = c.hmac_sha256 key (handshake_context ++ transcript)

  -- `_authentication_tag` of a label, the session id and the rest of a transcript
  unfoldable pub hello_tag : Bytes → Bytes → ℤ → Bytes → Result Bytes
  hello_tag static_secret label session_id rest = do
    session ← int_to_bytes 4 session_id
    ok (authentication_tag static_secret (label ++ session ++ rest))

  -- `hmac.compare_digest`, which decides equality
  unfoldable pub check_tag : Bytes → Bytes → Result (Unit {0})
  check_tag tag expected_tag = raise_if (not (bytes_beq tag expected_tag)) Error.value_error

  -- The two middle secrets of `_derive_session_secret`
  unfoldable pub mixed_secrets : Bytes → Bytes → Bytes → Bytes → Bool → Result (Bytes × Bytes)
  mixed_secrets ephemeral_private_key peer_ephemeral_public_key static_private_key
        peer_static_public_key true =
      do
        ephemeral_static ← derive_shared_secret c ephemeral_private_key peer_static_public_key
        static_ephemeral ← derive_shared_secret c static_private_key peer_ephemeral_public_key
        ok (ephemeral_static, static_ephemeral)
  mixed_secrets ephemeral_private_key peer_ephemeral_public_key static_private_key
        peer_static_public_key false =
      do
        ephemeral_static ← derive_shared_secret c static_private_key peer_ephemeral_public_key
        static_ephemeral ← derive_shared_secret c ephemeral_private_key peer_static_public_key
        ok (ephemeral_static, static_ephemeral)

  -- The key of the session from the four shared secrets and the transcript
  unfoldable pub session_key : Bytes → Bytes → Bytes → Bytes → Bytes → Bytes → Bytes
  session_key client_hello_payload server_hello_payload ephemeral_ephemeral ephemeral_static
        static_ephemeral static_static =
      c.hkdf 32 (c.sha256 (client_hello_payload ++ server_hello_payload)) handshake_context
        (ephemeral_ephemeral ++ ephemeral_static ++ static_ephemeral ++ static_static)

  -- _derive_session_secret
  unfoldable pub derive_session_secret :
      Bytes → Bytes → Bytes → Bytes → Bytes → Bytes → Bool → Result Bytes
  derive_session_secret ephemeral_private_key peer_ephemeral_public_key static_private_key
        peer_static_public_key client_hello_payload server_hello_payload local_is_client =
      do
        ephemeral_ephemeral ← derive_shared_secret c ephemeral_private_key peer_ephemeral_public_key
        (ephemeral_static, static_ephemeral) ←
            mixed_secrets ephemeral_private_key peer_ephemeral_public_key static_private_key
              peer_static_public_key local_is_client
        static_static ← derive_shared_secret c static_private_key peer_static_public_key
        ok (
            session_key client_hello_payload server_hello_payload ephemeral_ephemeral
              ephemeral_static static_ephemeral static_static)

  -- create_client_hello
  unfoldable pub create_client_hello :
      ℕ → Draw → Bytes → Bytes → Result (Packet × ClientHandshakeState)
  create_client_hello session_id draw static_private_key peer_static_public_key = do
    let (ephemeral_private, ephemeral_public) = generate_keypair c draw.private_key
    let body = ephemeral_public ++ draw.random
    static_secret ← derive_shared_secret c static_private_key peer_static_public_key
    tag ← hello_tag static_secret (ascii "client") (pos session_id) body
    let payload = body ++ tag
    ok (
      record {
        message_type = client_hello;
        session_id = pos session_id;
        sequence_number = pos 0;
        payload = payload;
      },
      record {
        session_id = pos session_id;
        static_private_key = static_private_key;
        peer_static_public_key = peer_static_public_key;
        ephemeral_private_key = ephemeral_private;
        client_hello_payload = payload;
      },
    )

  -- The answer of `accept_client_hello` to a hello whose tag is right
  unfoldable pub answer_hello : Draw → Packet → Bytes → Bytes → Bytes → Result (Packet × Bytes)
  answer_hello draw packet static_private_key peer_static_public_key static_secret = do
    let (ephemeral_private, ephemeral_public) = generate_keypair c draw.private_key
    let server_body = ephemeral_public ++ draw.random
    server_tag ←
        hello_tag static_secret (ascii "server") packet.session_id (packet.payload ++ server_body)
    session_secret ←
        derive_session_secret ephemeral_private (take 32 packet.payload) static_private_key
          peer_static_public_key packet.payload (server_body ++ server_tag) false
    ok (
      record {
        message_type = server_hello;
        session_id = packet.session_id;
        sequence_number = pos 0;
        payload = server_body ++ server_tag;
      },
      session_secret,
    )

  -- accept_client_hello
  unfoldable pub accept_client_hello : Draw → Packet → Bytes → Bytes → Result (Packet × Bytes)
  accept_client_hello draw packet static_private_key peer_static_public_key = do
    validate_hello packet client_hello
    static_secret ← derive_shared_secret c static_private_key peer_static_public_key
    expected_tag ←
        hello_tag static_secret (ascii "client") packet.session_id (body_of packet.payload)
    check_tag (tag_of packet.payload) expected_tag
    answer_hello draw packet static_private_key peer_static_public_key static_secret

  -- finish_client_handshake
  unfoldable pub finish_client_handshake : ClientHandshakeState → Packet → Result Bytes
  finish_client_handshake state response = do
    validate_hello response server_hello
    raise_if (not (response.session_id ==ℤ state.session_id)) Error.value_error
    static_secret ← derive_shared_secret c state.static_private_key state.peer_static_public_key
    expected_tag ←
        hello_tag static_secret (ascii "server") state.session_id
          (state.client_hello_payload ++ body_of response.payload)
    check_tag (tag_of response.payload) expected_tag
    derive_session_secret state.ephemeral_private_key (take 32 response.payload)
        state.static_private_key state.peer_static_public_key state.client_hello_payload
        response.payload true
