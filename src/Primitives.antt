-- ===== src/Primitives.antt =====
-- The primitives of the `cryptography` package and of `hashlib` and `hmac` that the program calls,
-- as parameters, with the documented facts that the proofs use.
use matf_master_vpn.Prelude.{ℕ, ◌+◌, ◌≡◌, Option, some, length}
use matf_master_vpn.Bytes.{Bytes}

pub record Primitives : Type 0 where
  -- AESGCM(key).encrypt(nonce, data, associated_data)
  pub aead_encrypt : Bytes → Bytes → Bytes → Bytes → Bytes
  -- AESGCM(key).decrypt(nonce, data, associated_data); `none` is `InvalidTag`
  pub aead_decrypt : Bytes → Bytes → Bytes → Bytes → Option Bytes
  -- HKDF(SHA256, length, salt, info).derive(key_material)
  pub hkdf : ℕ → Bytes → Bytes → Bytes → Bytes
  -- hashlib.sha256(m).digest()
  pub sha256 : Bytes → Bytes
  -- hmac.new(key, m, sha256).digest()
  pub hmac_sha256 : Bytes → Bytes → Bytes
  -- The public key of an X25519 private key
  pub x25519_public : Bytes → Bytes
  -- X25519PrivateKey.exchange; `none` is its `ValueError` for an all-zero result
  pub x25519_exchange : Bytes → Bytes → Option Bytes

-- AES-GCM recovers what it encrypted, and appends a tag of 16 bytes.
pub record AeadLaws (c : Primitives) : Type 0 where
  pub decrypt-encrypt :
      (key nonce plaintext header : Bytes)
      → c.aead_decrypt key nonce (c.aead_encrypt key nonce plaintext header) header ≡ some plaintext
  pub length-encrypt :
      (key nonce plaintext header : Bytes)
      → length (c.aead_encrypt key nonce plaintext header) ≡ length plaintext + 16

-- HKDF derives as many bytes as it is asked for.
pub record HkdfLaws (c : Primitives) : Type 0 where
  pub length-hkdf : (n : ℕ) (salt info key : Bytes) → length (c.hkdf n salt info key) ≡ n

-- X25519 is commutative, HMAC-SHA256 tags have 32 bytes, and public keys have 32 bytes.
pub record AgreementLaws (c : Primitives) : Type 0 where
  pub exchange_comm :
      (a b : Bytes)
      → c.x25519_exchange a (c.x25519_public b) ≡ c.x25519_exchange b (c.x25519_public a)
  pub length-public : (a : Bytes) → length (c.x25519_public a) ≡ 32
  pub length-hmac : (key m : Bytes) → length (c.hmac_sha256 key m) ≡ 32
