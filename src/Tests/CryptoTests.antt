-- ===== src/Tests/CryptoTests.antt =====
-- Ciphers of both roles from one secret, with fixed and with rotating keys.
use matf_master_vpn.Prelude.{◌≡◌, refl, [], ◌∷◌, Error, ok, err}
use matf_master_vpn.Prelude.Int.{pos, negsuc}
use matf_master_vpn.Bytes.{Bytes, ascii, to_bytes}
use matf_master_vpn.OrderedDict.{get}
use matf_master_vpn.Protocol.{Packet, data_message, header_pack}
use matf_master_vpn.Crypto.{
  PacketCipher, RotatingPacketCipher, fixed, rotating, client, server, EndpointRole, create_cipher,
  from_preshared_key, by_role, packet_cipher, int_to_bytes, rotating_packet_cipher, encrypt,
  cipher_encrypt, cipher_decrypt, cipher_for, epoch_for, derive_cipher, nonce, authenticated_header,
}
use matf_master_vpn.Crypto.Rotation.{IsCache, Agrees, uncached, cipher_for-Agrees, IsCache-new}
use matf_master_vpn.Crypto.Sessions.{create_cipher-IsKeyed, cipher_decrypt-encrypt}
use matf_master_vpn.Crypto.Nonces.{nonce_injective}
use matf_master_vpn.Tests.Toy.{toy, toy_aead, zeros}

abbrev pub secret : Bytes
secret = ascii "0123456789abcdef0123456789abcdef"

abbrev other_key : Bytes
other_key = 0 ∷ 0 ∷ 0 ∷ 7 ∷ zeros 28

abbrev pub client_cipher : PacketCipher
client_cipher = record { send_key = secret; receive_key = other_key }

abbrev pub server_cipher : PacketCipher
server_cipher = record { send_key = other_key; receive_key = secret }

client_made : from_preshared_key toy secret (pos 7) client ≡ ok client_cipher
unfolding from_preshared_key by_role packet_cipher int_to_bytes to_bytes
client_made = refl

server_made : create_cipher toy secret (pos 7) server (pos 0) ≡ ok (fixed server_cipher)
unfolding create_cipher from_preshared_key by_role packet_cipher int_to_bytes to_bytes
server_made = refl

short_secret : create_cipher toy (1 ∷ []) (pos 7) server (pos 0) ≡ err Error.value_error
unfolding create_cipher from_preshared_key
short_secret = refl

negative_rate : create_cipher toy secret (pos 7) server (negsuc 0) ≡ err Error.value_error
unfolding create_cipher
negative_rate = refl

abbrev fresh_rotation : EndpointRole → RotatingPacketCipher
fresh_rotation role = record {
  master_secret = secret;
  session_id = pos 7;
  role = role;
  packets_per_key = 10;
  ciphers = [];
}

rotation_made :
    (role : EndpointRole)
    → create_cipher toy secret (pos 7) role (pos 10) ≡ ok (rotating (fresh_rotation role))
unfolding create_cipher rotating_packet_cipher
rotation_made role = refl

rotation-IsCache : IsCache toy (fresh_rotation client)
unfolding rotating_packet_cipher
rotation-IsCache = IsCache-new toy secret (pos 7) client (pos 10) refl

cipher_for-Agrees_example :
    Agrees toy
      (fresh_rotation client)
      (uncached toy (fresh_rotation client) (pos 25))
      (cipher_for toy (fresh_rotation client) (pos 25))
cipher_for-Agrees_example = cipher_for-Agrees toy (fresh_rotation client) (pos 25) rotation-IsCache

abbrev pub packet : Packet
packet = record {
  message_type = data_message;
  session_id = pos 7;
  sequence_number = pos 25;
  payload = 1 ∷ 2 ∷ [];
}

sealed : Packet
sealed = record packet { payload = 1 ∷ 2 ∷ ascii "0123456789abcdef" }

rotation_seals : (cipher_encrypt toy (rotating (fresh_rotation client)) packet).0 ≡ ok sealed
unfolding sealed cipher_encrypt cipher_for epoch_for get derive_cipher int_to_bytes to_bytes
    from_preshared_key by_role packet_cipher encrypt nonce authenticated_header header_pack
rotation_seals = refl

cipher_decrypt-encrypt_example :
    (cipher_decrypt toy (rotating (fresh_rotation server)) sealed).0 ≡ ok packet
cipher_decrypt-encrypt_example =
    cipher_decrypt-encrypt toy toy_aead secret (pos 7) client (pos 10)
      (rotating (fresh_rotation client)) (rotating (fresh_rotation server)) packet
      (create_cipher-IsKeyed toy secret (pos 7) client (pos 10) (rotation_made client))
      (create_cipher-IsKeyed toy secret (pos 7) server (pos 10) (rotation_made server))
      rotation_seals

packet-nonce : nonce packet ≡ ok (0 ∷ 0 ∷ 0 ∷ 7 ∷ 0 ∷ 0 ∷ 0 ∷ 0 ∷ 0 ∷ 0 ∷ 0 ∷ 25 ∷ [])
unfolding nonce int_to_bytes to_bytes
packet-nonce = refl

sealed-nonce : nonce sealed ≡ ok (0 ∷ 0 ∷ 0 ∷ 7 ∷ 0 ∷ 0 ∷ 0 ∷ 0 ∷ 0 ∷ 0 ∷ 0 ∷ 25 ∷ [])
unfolding sealed nonce int_to_bytes to_bytes
sealed-nonce = refl

nonce_injective_example :
    (packet.session_id ≡ sealed.session_id) × (packet.sequence_number ≡ sealed.sequence_number)
nonce_injective_example = nonce_injective packet sealed packet-nonce sealed-nonce
