-- ===== src/Crypto.antt =====
-- crypto.py, but for `ReplayWindow`: traffic ciphers, key derivation and key rotation.
pub mod Creation
pub mod Rotation
pub mod Delivery
pub mod Sessions
pub mod Nonces
use matf_master_vpn.Prelude.{
  ℕ, zero, suc, ◌+◌, ◌-◌, ◌^◌, ◌/◌, ◌≡◌, refl, Bool, true, false, ◌||◌, not, Option, none, some,
  List, [], ◌∷◌, ◌++◌, length, take, drop, ltb, leb, ◌==◌, if◌then◌else◌, Error, Result, ok, err,
  raise_if, ◌>>=◌, ◌>>◌, ◌*◌,
}
use matf_master_vpn.Prelude.Int.{ℤ, pos, pos_part, ltbℤ, lebℤ, outside}
use matf_master_vpn.Prelude.Equality.{Eq, nat_eq}
use matf_master_vpn.Bytes.{Bytes, ascii, to_bytes}
use matf_master_vpn.OrderedDict.{OrderedDict, get, move_to_end, put_bounded}
use matf_master_vpn.Primitives.{Primitives}
use matf_master_vpn.Protocol.{Packet, header_pack, protocol_version, max_payload_size}

abbrev pub aes_key_size : ℕ
aes_key_size = 32

abbrev pub aes_gcm_tag_size : ℕ
aes_gcm_tag_size = 16

abbrev pub minimum_preshared_key_size : ℕ
minimum_preshared_key_size = 32

abbrev pub key_derivation_context : Bytes
key_derivation_context = ascii "matf-vpn-v1 directional keys"

abbrev pub key_rotation_context : Bytes
key_rotation_context = ascii "matf-vpn-v1 packet-count key rotation"

abbrev pub rotation_cipher_cache_size : ℕ
rotation_cipher_cache_size = 2

pub data EndpointRole : Type 0 where
  client server : EndpointRole

-- `value.to_bytes(width, "big")`; a value that does not fit is an `OverflowError`.
unfoldable pub int_to_bytes : ℕ → ℤ → Result Bytes
int_to_bytes width value = do
  raise_if (outside (256 ^ width - 1) value) Error.overflow_error
  ok (to_bytes width (pos_part value))

-- `AESGCM(key)` is its key.
pub record PacketCipher : Type 0 where
  pub send_key : Bytes
  pub receive_key : Bytes

-- PacketCipher.__init__
unfoldable pub packet_cipher : Bytes → Bytes → Result PacketCipher
packet_cipher send_key receive_key = do
  raise_if (not (length send_key == aes_key_size) || not (length receive_key == aes_key_size))
      Error.value_error
  ok (record { send_key = send_key; receive_key = receive_key })

-- The keys of `cls(client_to_server, server_to_client)` by role.
unfoldable pub by_role : EndpointRole → Bytes → Bytes → Result PacketCipher
by_role client client_to_server server_to_client = packet_cipher client_to_server server_to_client
by_role server client_to_server server_to_client = packet_cipher server_to_client client_to_server

-- _nonce
unfoldable pub nonce : Packet → Result Bytes
nonce p = do
  session ← int_to_bytes 4 p.session_id
  sequence ← int_to_bytes 8 p.sequence_number
  ok (session ++ sequence)

-- _authenticated_header
unfoldable pub authenticated_header : Packet → ℕ → Result Bytes
authenticated_header p payload_size =
    header_pack protocol_version p.message_type p.session_id p.sequence_number payload_size

abbrev pub or_invalid_tag : Option Bytes → Result Bytes
or_invalid_tag none = err Error.invalid_tag
or_invalid_tag (some plaintext) = ok plaintext

module _ (c : Primitives) where
  -- PacketCipher.from_preshared_key
  unfoldable pub from_preshared_key : Bytes → ℤ → EndpointRole → Result PacketCipher
  from_preshared_key preshared_key session_id role = do
    raise_if (ltb (length preshared_key) minimum_preshared_key_size) Error.value_error
    raise_if (outside 0xffffffff session_id) Error.value_error
    salt ← int_to_bytes 4 session_id
    let key_material = c.hkdf (2 * aes_key_size) salt key_derivation_context preshared_key
    by_role role (take aes_key_size key_material) (drop aes_key_size key_material)

  -- PacketCipher.encrypt
  unfoldable pub encrypt : PacketCipher → Packet → Result Packet
  encrypt cipher p = do
    raise_if (ltb (max_payload_size - aes_gcm_tag_size) (length p.payload)) Error.value_error
    n ← nonce p
    header ← authenticated_header p (length p.payload + aes_gcm_tag_size)
    ok (record p { payload = c.aead_encrypt cipher.send_key n p.payload header })

  -- PacketCipher.decrypt
  unfoldable pub decrypt : PacketCipher → Packet → Result Packet
  decrypt cipher p = do
    n ← nonce p
    header ← authenticated_header p (length p.payload)
    plaintext ← or_invalid_tag (c.aead_decrypt cipher.receive_key n p.payload header)
    ok (record p { payload = plaintext })

pub record RotatingPacketCipher : Type 0 where
  pub master_secret : Bytes
  pub session_id : ℤ
  pub role : EndpointRole
  pub packets_per_key : ℕ
  pub ciphers : OrderedDict ℕ PacketCipher

-- RotatingPacketCipher.__init__
unfoldable pub rotating_packet_cipher : Bytes → ℤ → EndpointRole → ℤ → Result RotatingPacketCipher
rotating_packet_cipher master_secret session_id role packets_per_key = do
  raise_if (ltb (length master_secret) minimum_preshared_key_size) Error.value_error
  raise_if (outside 0xffffffff session_id) Error.value_error
  raise_if (lebℤ packets_per_key (pos 0)) Error.value_error
  ok (record {
    master_secret = master_secret;
    session_id = session_id;
    role = role;
    packets_per_key = pos_part packets_per_key;
    ciphers = [];
  })

-- RotatingPacketCipher.epoch_for
unfoldable pub epoch_for : RotatingPacketCipher → ℤ → Result ℕ
epoch_for r sequence_number = do
  raise_if (ltbℤ sequence_number (pos 0)) Error.value_error
  ok (pos_part sequence_number / r.packets_per_key)

module _ (c : Primitives) where
  -- The lines of `_cipher_for` that derive the cipher of an epoch.
  unfoldable pub derive_cipher : RotatingPacketCipher → ℕ → Result PacketCipher
  derive_cipher r epoch = do
    session ← int_to_bytes 4 r.session_id
    index ← int_to_bytes 8 (pos epoch)
    let epoch_secret = c.hkdf 32 (session ++ index) key_rotation_context r.master_secret
    from_preshared_key c epoch_secret r.session_id r.role

  -- The lines of `_cipher_for` after the look-up, on a miss and on a hit.
  with_cached :
      RotatingPacketCipher → ℕ → Option PacketCipher → Result (PacketCipher × RotatingPacketCipher)
  with_cached r epoch (some cipher) =
      ok (cipher, record r { ciphers = move_to_end epoch r.ciphers })
  with_cached r epoch none = do
    cipher ← derive_cipher r epoch
    ok (
      cipher,
      record r { ciphers = put_bounded rotation_cipher_cache_size epoch cipher r.ciphers },
    )

  -- RotatingPacketCipher._cipher_for; when it raises, the cache is as before.
  unfoldable pub cipher_for :
      RotatingPacketCipher → ℤ → Result (PacketCipher × RotatingPacketCipher)
  unfolding with_cached
  cipher_for r sequence_number = do
    epoch ← epoch_for r sequence_number
    with_cached r epoch (get epoch r.ciphers)

-- `Cipher = Union[PacketCipher, RotatingPacketCipher]`
pub data Cipher : Type 0 where
  fixed : PacketCipher → Cipher
  rotating : RotatingPacketCipher → Cipher

-- An operation of the packet cipher that a `_cipher_for` call found, beside the cache after it.
finish :
    (PacketCipher → Packet → Result Packet)
    → RotatingPacketCipher
    → Packet
    → Result (PacketCipher × RotatingPacketCipher)
    → Result Packet × Cipher
finish operation r p (ok (cipher, r')) = (operation cipher p, rotating r')
finish operation r p (err e) = (err e, rotating r)

module _ (c : Primitives) where
  apply : (PacketCipher → Packet → Result Packet) → Cipher → Packet → Result Packet × Cipher
  unfolding finish
  apply operation (fixed cipher) p = (operation cipher p, fixed cipher)
  apply operation (rotating r) p = finish operation r p (cipher_for c r p.sequence_number)

  -- The method `encrypt` of either class. The cache of a rotating cipher changes also when the
  -- packet is then refused.
  unfoldable pub cipher_encrypt : Cipher → Packet → Result Packet × Cipher
  unfolding apply
  cipher_encrypt = apply (encrypt c)

  -- The method `decrypt` of either class
  unfoldable pub cipher_decrypt : Cipher → Packet → Result Packet × Cipher
  unfolding apply
  cipher_decrypt = apply (decrypt c)

  -- create_cipher
  unfoldable pub create_cipher : Bytes → ℤ → EndpointRole → ℤ → Result Cipher
  create_cipher master_secret session_id role packets_per_key = do
    raise_if (ltbℤ packets_per_key (pos 0)) Error.value_error
    if pos_part packets_per_key == 0
        then (from_preshared_key c master_secret session_id role >>= λ cipher. ok (fixed cipher))
        else (rotating_packet_cipher master_secret session_id role packets_per_key >>= λ cipher.
            ok (rotating cipher))
