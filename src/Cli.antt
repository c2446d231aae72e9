-- ===== src/Cli.antt =====
-- cli.py: the checks of the options, the keys and the cipher of a session. The options have the
-- fields of `EndpointConfig`, which is what a configuration file is turned into.
pub mod Agreement
pub mod Keys
use mathlib.Core.Bool.{xor}
use matf_master_vpn.Prelude.{
  ℕ, ◌&&◌, ◌||◌, not, Bool, true, false, Option, none, some, length, ltb, ◌==◌, if◌then◌else◌,
  String, Error, Result, ok, err, raise_if, ◌>>=◌, ◌>>◌,
}
use matf_master_vpn.Prelude.Int.{ℤ, pos, ltbℤ, lebℤ, truthy}
use matf_master_vpn.Bytes.{Bytes}
use matf_master_vpn.Primitives.{Primitives}
use matf_master_vpn.Crypto.{Cipher, EndpointRole, create_cipher}
use matf_master_vpn.KeyAgreement.{derive_shared_secret, x25519_key_size}
pub use matf_master_vpn.KeyAgreement.Files.{KeyFile}
use matf_master_vpn.Texts.{strip}
use matf_master_vpn.Hex.{from_hex}
use matf_master_vpn.Config.{EndpointConfig, given, either_file, required}
use Prim.Native.Nat.{bit_and}

-- The checks at the start of `main`, each a `SystemExit`
unfoldable pub check_options : EndpointConfig → Result (Unit {0})
check_options options = do
  let uses_preshared_key = given options.key_file
  let uses_x25519 = either_file options
  raise_if (uses_preshared_key && uses_x25519) Error.system_exit
  raise_if
      (uses_x25519
        && (not (given options.private_key_file) || not (given options.peer_public_key_file)))
      Error.system_exit
  let uses_encryption = uses_preshared_key || uses_x25519
  raise_if (xor uses_encryption (given options.role)) Error.system_exit
  raise_if (options.ephemeral_handshake && not uses_x25519) Error.system_exit
  raise_if (lebℤ options.handshake_timeout (pos 0)) Error.system_exit
  raise_if (ltbℤ options.packets_per_key (pos 0)) Error.system_exit
  raise_if (ltbℤ options.reconnect_delay (pos 0)) Error.system_exit
  raise_if (ltbℤ (pos 0) options.packets_per_key && not uses_encryption) Error.system_exit
  raise_if (ltbℤ options.keepalive_interval (pos 0) || ltbℤ options.liveness_timeout (pos 0))
      Error.system_exit
  raise_if (xor (truthy options.keepalive_interval) (truthy options.liveness_timeout))
      Error.system_exit
  raise_if
      (truthy options.liveness_timeout && lebℤ options.liveness_timeout options.keepalive_interval)
      Error.system_exit
  raise_if (truthy options.liveness_timeout && not options.ephemeral_handshake) Error.system_exit

-- `mode & (S_IRWXG | S_IRWXO)`
abbrev pub open_to_others : ℕ → Bool
open_to_others mode = not (bit_and mode 63 == 0)

-- `bytes.fromhex(path.read_text(encoding="ascii").strip())`
unfoldable pub read_key : KeyFile → Result Bytes
read_key file = do contents ← required file.contents; required (from_hex none (strip contents))

-- load_preshared_key
unfoldable pub load_preshared_key : KeyFile → Result Bytes
load_preshared_key file = do
  mode ← required file.mode
  raise_if (open_to_others mode) Error.value_error
  key ← read_key file
  raise_if (ltb (length key) 32) Error.value_error
  ok key

-- The check of the permissions, for a private key only
unfoldable pub check_private : Bool → KeyFile → Result (Unit {0})
check_private false file = ok tt
check_private true file = do
  mode ← required file.mode
  raise_if (open_to_others mode) Error.value_error

-- load_x25519_key
unfoldable pub load_x25519_key : KeyFile → Bool → Result Bytes
load_x25519_key file private = do
  check_private private file
  key ← read_key file
  raise_if (not (length key == x25519_key_size)) Error.value_error
  ok key

-- `EndpointRole(options.role)`, a `ValueError` without a role
abbrev pub role_given : Option EndpointRole → Result EndpointRole
role_given = required

module _ (c : Primitives) (files : String → KeyFile) where
  -- The cipher from a preshared key
  unfoldable pub preshared_cipher : EndpointConfig → String → Result (Option Cipher)
  preshared_cipher options path = do
    key ← load_preshared_key (files path)
    role ← role_given options.role
    cipher ← create_cipher c key options.session_id role options.packets_per_key
    ok (some cipher)

  -- The cipher from X25519 keys, none before an ephemeral handshake
  unfoldable pub x25519_cipher : EndpointConfig → String → String → Result (Option Cipher)
  x25519_cipher options private_path public_path = do
    private_key ← load_x25519_key (files private_path) true
    public_key ← load_x25519_key (files public_path) false
    if options.ephemeral_handshake
        then ok none
        else (derive_shared_secret c private_key public_key >>= λ secret.
            (role_given options.role >>= λ role.
            (create_cipher c secret options.session_id role options.packets_per_key >>= λ cipher.
            ok (some cipher))))

  -- The branches of `main` on the key options; with X25519 both files are given once the options
  -- were checked.
  unfoldable pub by_keys :
      EndpointConfig → Option String → Option String → Option String → Result (Option Cipher)
  by_keys options (some path) private public = preshared_cipher options path
  by_keys options none (some private) (some public) = x25519_cipher options private public
  by_keys options none none none = ok none
  by_keys options none _ _ = err Error.system_exit

  -- The part of `main` up to the session: the checks and the cipher
  unfoldable pub prepare : EndpointConfig → Result (Option Cipher)
  prepare options = do
    check_options options
    by_keys options options.key_file options.private_key_file options.peer_public_key_file
