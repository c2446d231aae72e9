-- ===== src/KeyAgreement.antt =====
-- key_agreement.py: X25519 key pairs and shared secrets.
pub mod Files
pub mod Disk
use matf_master_vpn.Prelude.{
  ℕ, not, Option, none, some, length, ◌==◌, Error, Result, ok, err, raise_if, ◌>>◌,
}
use matf_master_vpn.Bytes.{Bytes}
use matf_master_vpn.Primitives.{Primitives}

abbrev pub x25519_key_size : ℕ
x25519_key_size = 32

-- `exchange` raises `ValueError` where it has no result.
abbrev pub or_value_error : Option Bytes → Result Bytes
or_value_error none = err Error.value_error
or_value_error (some secret) = ok secret

module _ (c : Primitives) where
  -- generate_keypair, from the private key that the generator drew
  abbrev pub generate_keypair : Bytes → Bytes × Bytes
  generate_keypair private_key = (private_key, c.x25519_public private_key)

  -- derive_shared_secret
  unfoldable pub derive_shared_secret : Bytes → Bytes → Result Bytes
  derive_shared_secret private_key peer_public_key = do
    raise_if (not (length private_key == x25519_key_size)) Error.value_error
    raise_if (not (length peer_public_key == x25519_key_size)) Error.value_error
    or_value_error (c.x25519_exchange private_key peer_public_key)
