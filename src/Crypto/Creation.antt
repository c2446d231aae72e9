-- ===== src/Crypto/Creation.antt =====
-- crypto.py: when `create_cipher` gives a cipher.
use matf_master_vpn.Prelude.{
  ℕ, ◌≤◌, ◌≡◌, refl, false, [], ok, ltb, length, take, drop, arith, length-take, length-drop,
  Bool-cases, inl, inr, ◌==◌,
}
use matf_master_vpn.Prelude.Int.{pos, outside, ltbℤ}
use matf_master_vpn.Bytes.{Bytes, to_bytes}
use matf_master_vpn.Primitives.{Primitives, HkdfLaws}
use matf_master_vpn.Crypto.{
  Cipher, fixed, rotating, PacketCipher, EndpointRole, client, server, int_to_bytes, packet_cipher,
  by_role, from_preshared_key, rotating_packet_cipher, create_cipher, key_derivation_context,
}

by_role_total :
    (role : EndpointRole) (a b : Bytes)
    → length a ≡ 32
    → length b ≡ 32
    → (x : PacketCipher) × (by_role role a b ≡ ok x)
unfolding by_role packet_cipher
by_role_total client a b ha hb = (record { send_key = a; receive_key = b }, ground arith)
by_role_total server a b ha hb = (record { send_key = b; receive_key = a }, ground arith)

module _ (c : Primitives) (laws : HkdfLaws c) (secret : Bytes) (session : ℕ) (role : EndpointRole)
    (long : 32 ≤ length secret) (fits : session ≤ 0xffffffff) where
  from_preshared_key_total :
      (x : PacketCipher) × (from_preshared_key c secret (pos session) role ≡ ok x)
  unfolding from_preshared_key int_to_bytes
  from_preshared_key_total =
      let keys = c.hkdf 64 (to_bytes 4 session) key_derivation_context secret in
      let size : length keys ≡ 64 = laws.length-hkdf 64 _ _ _ in
      let front : length (take 32 keys) ≡ 32 = length-take 32 keys (omega arith) in
      let back : length (drop 32 keys) ≡ 32 = omega (arith, length-drop 32 keys) in
      let (x, made) = by_role_total role (take 32 keys) (drop 32 keys) front back in
      let enough : ltb (length secret) 32 ≡ false = ground arith in
      let inside : outside 0xffffffff (pos session) ≡ false = ground arith in
      (x, rw (enough, inside) made)

  -- A secret of 32 bytes, a session id of 32 bits and a number of packets that is not negative give a
  -- cipher.
  pub create_cipher_total :
      (rate : ℕ) → (x : Cipher) × (create_cipher c secret (pos session) role (pos rate) ≡ ok x)
  unfolding create_cipher rotating_packet_cipher
  create_cipher_total rate = elim (Bool-cases (rate == 0)) [
    | inl never ↦
        let (x, made) = from_preshared_key_total in
        let signed : ltbℤ (pos rate) (pos 0) ≡ false = ground arith in
        (fixed x, rw (signed, never, made) refl)
    | inr often ↦ (
      rotating (record {
        master_secret = secret;
        session_id = pos session;
        role = role;
        packets_per_key = rate;
        ciphers = [];
      }),
      ground arith,
    )
  ]
