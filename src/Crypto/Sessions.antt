-- ===== src/Crypto/Sessions.antt =====
-- The ciphers of the two ends of a session, whatever packets each has handled before.
use matf_master_vpn.Prelude.{
  ℕ, ◌≡◌, ◌≢◌, sym, ap, ◌∙◌, ◌==◌, Result, ok, arith, Result-cases, Bool-cases, inl, inr, >>=-eq-ok,
  length,
}
use matf_master_vpn.Prelude.Int.{ℤ, pos, pos_part}
use matf_master_vpn.Bytes.{Bytes}
use matf_master_vpn.Primitives.{Primitives, AeadLaws}
use matf_master_vpn.Protocol.{Packet}
use matf_master_vpn.Crypto.{
  PacketCipher, RotatingPacketCipher, EndpointRole, Cipher, fixed, rotating, encrypt, decrypt,
  from_preshared_key, epoch_for, derive_cipher, cipher_for, rotating_packet_cipher, cipher_encrypt,
  cipher_decrypt, create_cipher, apply, int_to_bytes, nonce, authenticated_header, or_invalid_tag,
}
use matf_master_vpn.Crypto.Rotation.{
  IsCache, uncached, cipher_for-ok, cipher_for-found, IsCache-new,
}
use matf_master_vpn.Crypto.Delivery.{
  peer, swap, from_preshared_key-swap, decrypt-encrypt, encrypt-sequence, encrypt-fields,
}

-- A rotating cipher of a session, with a valid cache.
pub record IsRotating (c : Primitives) (secret : Bytes) (session : ℤ) (role : EndpointRole)
    (rate : ℤ) (r : RotatingPacketCipher) : Type 0 where
  pub master : r.master_secret ≡ secret
  pub session_is : r.session_id ≡ session
  pub role_is : r.role ≡ role
  pub rate_is : r.packets_per_key ≡ pos_part rate
  pub cache : IsCache c r

module _ (c : Primitives) (secret : Bytes) (session : ℤ) (role : EndpointRole) (rate : ℤ) where
  -- The ciphers that an end of the session can hold: fixed if the rate is 0, else rotating.
  abbrev pub IsKeyed : Cipher → Type 0
  IsKeyed (fixed x) = (pos_part rate ≡ 0) × (from_preshared_key c secret session role ≡ ok x)
  IsKeyed (rotating r) = (pos_part rate ≢ 0) × IsRotating c secret session role rate r

  rotating_packet_cipher-IsRotating :
      {r : RotatingPacketCipher}
      → rotating_packet_cipher secret session role rate ≡ ok r
      → IsRotating c secret session role rate r
  unfolding rotating_packet_cipher
  rotating_packet_cipher-IsRotating made = record {
    master = ground arith;
    session_is = ground arith;
    role_is = ground arith;
    rate_is = ground arith;
    cache = IsCache-new c secret session role rate made;
  }

  -- What `create_cipher` returns is keyed.
  pub create_cipher-IsKeyed :
      {x : Cipher} → create_cipher c secret session role rate ≡ ok x → IsKeyed x
  unfolding create_cipher
  create_cipher-IsKeyed {x} e = elim (Bool-cases (pos_part rate == 0)) [
    | inl never ↦ elim (Result-cases (from_preshared_key c secret session role)) [
      | inl (y, made) ↦ let x_is : x ≡ fixed y = ground arith in rw x_is (ground arith, made)
      | inr (f, failed) ↦ absurd (ground arith)
    ]
    | inr often ↦ elim (Result-cases (rotating_packet_cipher secret session role rate)) [
      | inl (r, made) ↦
          let x_is : x ≡ rotating r = ground arith in
          rw x_is (ground arith, rotating_packet_cipher-IsRotating made)
      | inr (f, failed) ↦ absurd (ground arith)
    ]
  ]

  apply-IsKeyed :
      (operation : PacketCipher → Packet → Result Packet) (x : Cipher) (p : Packet)
      → IsKeyed x
      → IsKeyed (apply c operation x p).1
  unfolding apply
  apply-IsKeyed operation (fixed x) p k = k
  apply-IsKeyed operation (rotating r) p (often, k) =
      elim (Result-cases (cipher_for c r p.sequence_number)) [
        | inr (f, failed) ↦ rw failed (often, k)
        | inl ((x, s), found) ↦
            let u = (cipher_for-ok c r p.sequence_number k.cache found).1 in
            rw found (
              often,
              record {
                master = u.master ∙ k.master;
                session_is = u.session ∙ k.session_is;
                role_is = u.role ∙ k.role_is;
                rate_is = u.rate ∙ k.rate_is;
                cache = u.cache;
              },
            )
      ]

  -- A keyed cipher stays keyed, whatever packets it is given, also those that it refuses.
  pub cipher_encrypt-IsKeyed :
      (x : Cipher) (p : Packet) → IsKeyed x → IsKeyed (cipher_encrypt c x p).1
  unfolding cipher_encrypt
  cipher_encrypt-IsKeyed = apply-IsKeyed (encrypt c)

  pub cipher_decrypt-IsKeyed :
      (x : Cipher) (p : Packet) → IsKeyed x → IsKeyed (cipher_decrypt c x p).1
  unfolding cipher_decrypt
  cipher_decrypt-IsKeyed = apply-IsKeyed (decrypt c)

module _ (c : Primitives) (r s : RotatingPacketCipher) where
  derive_cipher-swap :
      (epoch : ℕ) {x : PacketCipher}
      → s.master_secret ≡ r.master_secret
      → s.session_id ≡ r.session_id
      → s.role ≡ peer r.role
      → derive_cipher c r epoch ≡ ok x
      → derive_cipher c s epoch ≡ ok (swap x)
  unfolding derive_cipher
  derive_cipher-swap epoch master session role e =
      rw (master, session, role)
        (elim (Result-cases (int_to_bytes 4 r.session_id)) [
          | inr (f, failed) ↦ absurd (ground arith)
          | inl (id, id_is) ↦ elim (Result-cases (int_to_bytes 8 (pos epoch))) [
            | inr (f, failed) ↦ absurd (ground arith)
            | inl (index, index_is) ↦
                rw (id_is, index_is)
                  (from_preshared_key-swap c _ r.session_id r.role (rw (id_is, index_is) at e))
          ]
        ])

  epoch_for-same :
      (sequence_number : ℤ)
      → s.packets_per_key ≡ r.packets_per_key
      → epoch_for s sequence_number ≡ epoch_for r sequence_number
  unfolding epoch_for
  epoch_for-same sequence_number rate = rw rate

  uncached-swap :
      (sequence_number : ℤ) {x : PacketCipher}
      → s.master_secret ≡ r.master_secret
      → s.session_id ≡ r.session_id
      → s.role ≡ peer r.role
      → s.packets_per_key ≡ r.packets_per_key
      → uncached c r sequence_number ≡ ok x
      → uncached c s sequence_number ≡ ok (swap x)
  uncached-swap sequence_number master session role rate e =
      let (epoch, epoch_is, derived) =
        >>=-eq-ok (epoch_for r sequence_number) (derive_cipher c r) e in
      rw (epoch_for-same sequence_number rate, epoch_is)
        (derive_cipher-swap epoch master session role derived)

module _ (c : Primitives) (laws : AeadLaws c) (secret : Bytes) (session : ℤ) (role : EndpointRole)
    (rate : ℤ) where
  rotating-decrypt-encrypt :
      (r s : RotatingPacketCipher) (p : Packet) {q : Packet}
      → IsRotating c secret session role rate r
      → IsRotating c secret session (peer role) rate s
      → (cipher_encrypt c (rotating r) p).0 ≡ ok q
      → (cipher_decrypt c (rotating s) q).0 ≡ ok p
  unfolding cipher_encrypt cipher_decrypt
  rotating-decrypt-encrypt r s p {q} k l e =
      elim (Result-cases (cipher_for c r p.sequence_number)) [
        | inr (f, failed) ↦ absurd (ground arith)
        | inl ((x, r'), found) ↦
            let sealed : encrypt c x p ≡ ok q = rw found at e in
            let derived =
              uncached-swap c r s p.sequence_number (l.master ∙ sym k.master)
                (l.session_is ∙ sym k.session_is) (l.role_is ∙ ap peer (sym k.role_is))
                (l.rate_is ∙ sym k.rate_is) (cipher_for-ok c r p.sequence_number k.cache found).0 in
            let (s', there) = cipher_for-found c s p.sequence_number l.cache derived in
            let lookup : cipher_for c s q.sequence_number ≡ ok (swap x, s') =
              ap (cipher_for c s) (encrypt-sequence c x p sealed) ∙ there in
            rw lookup (decrypt-encrypt c laws x p sealed)
      ]

  -- Whatever both ends have handled so far, a packet that one end encrypts is what the other end
  -- decrypts it to.
  pub cipher_decrypt-encrypt :
      (x y : Cipher) (p : Packet) {q : Packet}
      → IsKeyed c secret session role rate x
      → IsKeyed c secret session (peer role) rate y
      → (cipher_encrypt c x p).0 ≡ ok q
      → (cipher_decrypt c y q).0 ≡ ok p
  unfolding cipher_encrypt cipher_decrypt
  cipher_decrypt-encrypt (fixed x) (fixed y) p {q} k l e =
      let y_is : y ≡ swap x = cc (l.1, from_preshared_key-swap c secret session role k.1) in
      let sealed : encrypt c x p ≡ ok q = e in rw y_is (decrypt-encrypt c laws x p sealed)
  cipher_decrypt-encrypt (fixed x) (rotating s) p k l e = absurd (l.0 k.0)
  cipher_decrypt-encrypt (rotating r) (fixed y) p k l e = absurd (k.0 l.0)
  cipher_decrypt-encrypt (rotating r) (rotating s) p k l e =
      rotating-decrypt-encrypt r s p k.1 l.1 e

-- Either kind of cipher changes the payload alone.
pub cipher_encrypt-fields :
    (c : Primitives) (x : Cipher) (p : Packet) {q : Packet}
    → (cipher_encrypt c x p).0 ≡ ok q
    → (q.message_type ≡ p.message_type)
      × (q.session_id ≡ p.session_id)
      × (q.sequence_number ≡ p.sequence_number)
unfolding cipher_encrypt
cipher_encrypt-fields c (fixed x) p e = encrypt-fields c x p e
cipher_encrypt-fields c (rotating r) p e = elim (Result-cases (cipher_for c r p.sequence_number)) [
  | inr (f, failed) ↦ absurd (ground arith)
  | inl ((x, s), found) ↦ encrypt-fields c x p (rw found at e)
]

decrypt-fields :
    (c : Primitives) (a : PacketCipher) (p : Packet) {q : Packet}
    → decrypt c a p ≡ ok q
    → (q.message_type ≡ p.message_type)
      × (q.session_id ≡ p.session_id)
      × (q.sequence_number ≡ p.sequence_number)
unfolding decrypt
decrypt-fields c a p e =
    let (n, has_nonce, rest) = >>=-eq-ok (nonce p) _ e in
    let (h, has_header, last) = >>=-eq-ok (authenticated_header p (length p.payload)) _ rest in
    let (m, plain, done) = >>=-eq-ok (or_invalid_tag _) (λ m. ok (record p { payload = m })) last in
    (cc done, cc done, cc done)

-- Decryption too changes the payload alone.
pub cipher_decrypt-fields :
    (c : Primitives) (x : Cipher) (p : Packet) {q : Packet}
    → (cipher_decrypt c x p).0 ≡ ok q
    → (q.message_type ≡ p.message_type)
      × (q.session_id ≡ p.session_id)
      × (q.sequence_number ≡ p.sequence_number)
unfolding cipher_decrypt
cipher_decrypt-fields c (fixed x) p e = decrypt-fields c x p e
cipher_decrypt-fields c (rotating r) p e = elim (Result-cases (cipher_for c r p.sequence_number)) [
  | inr (f, failed) ↦ absurd (ground arith)
  | inl ((x, s), found) ↦ decrypt-fields c x p (rw found at e)
]
