-- ===== src/Crypto/Delivery.antt =====
-- What one endpoint encrypts, the other decrypts, with fixed and with rotating keys.
use matf_master_vpn.Prelude.{◌+◌, ◌≡◌, length, ok, arith, Result-cases, inl, inr, take, drop}
use matf_master_vpn.Prelude.Int.{ℤ}
use matf_master_vpn.Bytes.{Bytes}
use matf_master_vpn.Primitives.{Primitives, AeadLaws}
use matf_master_vpn.Protocol.{Packet}
use matf_master_vpn.Crypto.{
  PacketCipher, EndpointRole, client, server, nonce, authenticated_header, encrypt, decrypt,
  from_preshared_key, packet_cipher, by_role, int_to_bytes, key_derivation_context,
}

abbrev pub peer : EndpointRole → EndpointRole
peer client = server
peer server = client

-- The other end of a session: each sends with the key that the other receives with.
abbrev pub swap : PacketCipher → PacketCipher
swap a = record { send_key = a.receive_key; receive_key = a.send_key }

by_role-swap :
    (role : EndpointRole) (x y : Bytes) {a : PacketCipher}
    → by_role role x y ≡ ok a
    → by_role (peer role) x y ≡ ok (swap a)
unfolding by_role packet_cipher
by_role-swap client x y e = ground arith
by_role-swap server x y e = ground arith

module _ (c : Primitives) where
  -- The key material of a session, and the end's part of it.
  derived_by_role :
      (secret : Bytes) (session : ℤ) (role : EndpointRole) (salt : Bytes) {a : PacketCipher}
      → int_to_bytes 4 session ≡ ok salt
      → from_preshared_key c secret session role ≡ ok a
      → by_role role
          (take 32 (c.hkdf 64 salt key_derivation_context secret))
          (drop 32 (c.hkdf 64 salt key_derivation_context secret))
        ≡ ok a
  unfolding from_preshared_key
  derived_by_role secret session role salt s e = ground arith

  salted :
      (secret : Bytes) (session : ℤ) (role : EndpointRole) {a : PacketCipher}
      → from_preshared_key c secret session role ≡ ok a
      → (salt : Bytes) × (int_to_bytes 4 session ≡ ok salt)
  unfolding from_preshared_key
  salted secret session role e = elim (Result-cases (int_to_bytes 4 session)) [
    | inl found ↦ found
    | inr (x, failed) ↦ absurd (ground arith)
  ]

  -- From one secret, the two ends of a session derive the same keys in opposite directions.
  pub from_preshared_key-swap :
      (secret : Bytes) (session : ℤ) (role : EndpointRole) {a : PacketCipher}
      → from_preshared_key c secret session role ≡ ok a
      → from_preshared_key c secret session (peer role) ≡ ok (swap a)
  unfolding from_preshared_key
  from_preshared_key-swap secret session role e =
      let (salt, s) = salted secret session role e in
      rw (s, by_role-swap role _ _ (derived_by_role secret session role salt s e)) (ground arith)

  -- A packet that was encrypted, inverted.
  encrypted :
      (a : PacketCipher) (p : Packet) {q : Packet}
      → encrypt c a p ≡ ok q
      → (n h : Bytes) × (nonce p ≡ ok n)
        × (authenticated_header p (length p.payload + 16) ≡ ok h)
        × (q ≡ record p { payload = c.aead_encrypt a.send_key n p.payload h })
  unfolding encrypt
  encrypted a p e = elim (Result-cases (nonce p)) [
    | inr (x, no_nonce) ↦ absurd (ground arith)
    | inl (n, has_nonce) ↦ elim (Result-cases (authenticated_header p (length p.payload + 16))) [
      | inr (x, no_header) ↦ absurd (ground arith)
      | inl (h, has_header) ↦ (n, h, has_nonce, has_header, ground arith)
    ]
  ]

  sealed : PacketCipher → Packet → Bytes → Bytes → Packet
  sealed a p n h = record p { payload = c.aead_encrypt a.send_key n p.payload h }

  decrypt-sealed :
      (laws : AeadLaws c) (a : PacketCipher) (p : Packet) (n h : Bytes)
      → nonce p ≡ ok n
      → authenticated_header p (length p.payload + 16) ≡ ok h
      → decrypt c (swap a) (sealed a p n h) ≡ ok p
  unfolding decrypt sealed nonce authenticated_header
  decrypt-sealed laws a p n h has_nonce has_header = rw (
    has_nonce,
    laws.length-encrypt a.send_key n p.payload h,
    has_header,
    laws.decrypt-encrypt a.send_key n p.payload h,
  )

  -- The other end recovers the packet that an end encrypted.
  pub decrypt-encrypt :
      (laws : AeadLaws c) (a : PacketCipher) (p : Packet) {q : Packet}
      → encrypt c a p ≡ ok q
      → decrypt c (swap a) q ≡ ok p
  unfolding sealed
  decrypt-encrypt laws a p e =
      let (n, h, has_nonce, has_header, q_is) = encrypted a p e in
      rw q_is (decrypt-sealed laws a p n h has_nonce has_header)

  pub encrypt-sequence :
      (a : PacketCipher) (p : Packet) {q : Packet}
      → encrypt c a p ≡ ok q
      → q.sequence_number ≡ p.sequence_number
  encrypt-sequence a p e = let (n, h, has_nonce, has_header, q_is) = encrypted a p e in cc q_is

  -- Encryption changes the payload alone.
  pub encrypt-fields :
      (a : PacketCipher) (p : Packet) {q : Packet}
      → encrypt c a p ≡ ok q
      → (q.message_type ≡ p.message_type)
        × (q.session_id ≡ p.session_id)
        × (q.sequence_number ≡ p.sequence_number)
  encrypt-fields a p e =
      let (n, h, has_nonce, has_header, q_is) = encrypted a p e in (cc q_is, cc q_is, cc q_is)
