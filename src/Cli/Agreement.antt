-- ===== src/Cli/Agreement.antt =====
-- cli.py and config.py: the checks of the command line agree with those of the configuration.
use mathlib.Core.Bool.{xor}
use matf_master_vpn.Prelude.{
  ◌≡◌, true, false, Option, none, some, ok, arith, String, >>=-eq-ok, ◌>>=◌, ◌||◌,
}
use matf_master_vpn.Primitives.{Primitives}
use matf_master_vpn.Crypto.{Cipher, create_cipher}
use matf_master_vpn.KeyAgreement.{derive_shared_secret}
use matf_master_vpn.Config.{
  EndpointConfig, Parsers, given, validate_config, validate_numbers, validate_keys,
}
use matf_master_vpn.Config.Validation.{validated}
use matf_master_vpn.Cli.{
  check_options, KeyFile, by_keys, prepare, preshared_cipher, x25519_cipher, load_preshared_key,
  load_x25519_key, role_given,
}

checked :
    (options : EndpointConfig)
    → validate_numbers options ≡ ok tt
    → validate_keys options ≡ ok tt
    → check_options options ≡ ok tt
unfolding validate_numbers validate_keys check_options xor
checked options numbers keys = ground arith

-- A configuration that `load_config` accepts passes every check of the command line.
pub validate_config-check_options :
    (p : Parsers) (config : EndpointConfig)
    → validate_config p config ≡ ok tt
    → check_options config ≡ ok tt
validate_config-check_options p config valid =
    let (numbers, keys) = validated p config valid in checked config numbers keys

keys_given :
    (options : EndpointConfig)
    → check_options options ≡ ok tt
    → given options.role ≡ true
    → (given options.key_file
        || (given options.private_key_file || given options.peer_public_key_file))
      ≡ true
unfolding check_options xor
keys_given options checks role = ground arith

module _ (c : Primitives) (files : String → KeyFile) where
  preshared_cipher-some :
      (options : EndpointConfig) (path : String) {cipher : Option Cipher}
      → preshared_cipher c files options path ≡ ok cipher
      → (x : Cipher) × (cipher ≡ some x)
  unfolding preshared_cipher
  preshared_cipher-some options path e =
      let (key, loaded, e₁) = >>=-eq-ok (load_preshared_key (files path)) _ e in
      let (role, chosen, e₂) = >>=-eq-ok (role_given options.role) _ e₁ in
      let (x, created, e₃) =
        >>=-eq-ok (create_cipher c key options.session_id role options.packets_per_key) _ e₂ in
      (x, cc e₃)

  x25519_cipher-some :
      (options : EndpointConfig) (private public : String) {cipher : Option Cipher}
      → options.ephemeral_handshake ≡ false
      → x25519_cipher c files options private public ≡ ok cipher
      → (x : Cipher) × (cipher ≡ some x)
  unfolding x25519_cipher
  x25519_cipher-some options private public {cipher} fixed_keys e =
      let (a, a_loaded, e₁) = >>=-eq-ok (load_x25519_key (files private) true) _ e in
      let (b, b_loaded, e₂) = >>=-eq-ok (load_x25519_key (files public) false) _ e₁ in
      let e₃ : (derive_shared_secret c a b >>= λ secret.
      (role_given options.role >>= λ role.
      (create_cipher c secret options.session_id role options.packets_per_key >>= λ x.
      ok (some x))))
          ≡ ok cipher =
        rw fixed_keys at e₂ in
      let (secret, shared, e₄) = >>=-eq-ok (derive_shared_secret c a b) _ e₃ in
      let (role, chosen, e₅) = >>=-eq-ok (role_given options.role) _ e₄ in
      let (x, created, e₆) =
        >>=-eq-ok (create_cipher c secret options.session_id role options.packets_per_key) _ e₅ in
      (x, cc e₆)

  by_keys-some :
      (options : EndpointConfig) (key private public : Option String) {cipher : Option Cipher}
      → (given key || (given private || given public)) ≡ true
      → options.ephemeral_handshake ≡ false
      → by_keys c files options key private public ≡ ok cipher
      → (x : Cipher) × (cipher ≡ some x)
  unfolding by_keys
  by_keys-some options (some path) private public h fixed_keys e =
      preshared_cipher-some options path e
  by_keys-some options none (some a) (some b) h fixed_keys e =
      x25519_cipher-some options a b fixed_keys e
  by_keys-some options none none none h fixed_keys e = cc
  by_keys-some options none (some a) none h fixed_keys e = cc
  by_keys-some options none none (some b) h fixed_keys e = cc

  -- An endpoint with a role and without the ephemeral handshake never runs unencrypted: when its
  -- options are accepted and its keys load, there is a cipher.
  pub prepare-some :
      (options : EndpointConfig) {cipher : Option Cipher}
      → given options.role ≡ true
      → options.ephemeral_handshake ≡ false
      → prepare c files options ≡ ok cipher
      → (x : Cipher) × (cipher ≡ some x)
  unfolding prepare
  prepare-some options role fixed_keys e =
      let (done, checks, rest) = >>=-eq-ok (check_options options) _ e in
      by_keys-some options options.key_file options.private_key_file options.peer_public_key_file
        (keys_given options checks role) fixed_keys rest
