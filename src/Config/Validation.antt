-- ===== src/Config/Validation.antt =====
-- config.py: what a configuration that is accepted guarantees, and how one is refused.
use mathlib.Core.Bool.{xor}
use matf_master_vpn.Prelude.{
  ℕ, ◌≡◌, true, false, Option, inl, inr, ok, arith, Bool-cases, Result-cases, >>=-eq-ok,
}
use matf_master_vpn.Prelude.Int.{pos, ltbℤ, truthy}
use matf_master_vpn.Replay.{new_window}
use matf_master_vpn.Crypto.{Cipher}
use matf_master_vpn.Transport.{Address, UdpTransport}
use matf_master_vpn.Tun.{TunDevice}
use matf_master_vpn.Engine.{TunnelEngine, new_engine}
use matf_master_vpn.Config.{
  Parsers, EndpointConfig, given, required, validate_config, validate_name, validate_numbers,
  validate_keys,
}

numbers_in_range :
    (config : EndpointConfig) (device : TunDevice) (t : UdpTransport) (remote : Address)
    (cipher : Option Cipher) (now : ℕ)
    → validate_numbers config ≡ ok tt
    → (e : TunnelEngine) × (new_engine device t remote config.session_id cipher
          config.keepalive_interval config.liveness_timeout now
        ≡ ok e)
unfolding validate_numbers new_engine new_window xor
numbers_in_range config device t remote cipher now valid =
    elim (Result-cases (
      new_engine device t remote config.session_id cipher config.keepalive_interval
        config.liveness_timeout now)) [ inl made ↦ made | inr (x, failed) ↦ absurd (ground arith) ]

module _ (p : Parsers) where
  pub validated :
      (config : EndpointConfig)
      → validate_config p config ≡ ok tt
      → (validate_numbers config ≡ ok tt) × (validate_keys config ≡ ok tt)
  unfolding validate_config
  validated config valid =
      let (interface, found, e₁) =
        >>=-eq-ok (required (p.ipv4_interface config.tun_address)) _ valid in
      let (u, named, e₂) = >>=-eq-ok (validate_name config.tun_name) _ e₁ in
      let (v, numbers, e₃) = >>=-eq-ok (validate_numbers config) _ e₂ in (numbers, e₃)

-- The three ways to run: without encryption, with a preshared key, with X25519 keys.
pub data Mode (config : EndpointConfig) : Type 0 where
  plaintext :
      given config.key_file ≡ false
      → given config.private_key_file ≡ false
      → given config.peer_public_key_file ≡ false
      → given config.role ≡ false
      → config.ephemeral_handshake ≡ false
      → truthy config.liveness_timeout ≡ false
      → ltbℤ (pos 0) config.packets_per_key ≡ false
      → Mode config
  preshared :
      given config.key_file ≡ true
      → given config.private_key_file ≡ false
      → given config.peer_public_key_file ≡ false
      → given config.role ≡ true
      → config.ephemeral_handshake ≡ false
      → truthy config.liveness_timeout ≡ false
      → Mode config
  x25519 :
      given config.key_file ≡ false
      → given config.private_key_file ≡ true
      → given config.peer_public_key_file ≡ true
      → given config.role ≡ true
      → Mode config

validate_keys-Mode : (config : EndpointConfig) → validate_keys config ≡ ok tt → Mode config
unfolding validate_keys xor
validate_keys-Mode config valid = elim (Bool-cases (given config.key_file)) [
  | inl psk ↦
      preshared psk (ground arith) (ground arith) (ground arith) (ground arith) (ground arith)
  | inr no_psk ↦ elim (Bool-cases (given config.private_key_file)) [
    | inl private ↦ x25519 no_psk private (ground arith) (ground arith)
    | inr no_private ↦
        plaintext no_psk no_private (ground arith) (ground arith) (ground arith) (ground arith)
          (ground arith)
  ]
]

-- With a configuration that was accepted, the engine can be built: the session id and the liveness
-- values that `TunnelEngine` checks again are in range.
pub validate_config-new_engine :
    (p : Parsers) (config : EndpointConfig) (device : TunDevice) (t : UdpTransport)
    (remote : Address) (cipher : Option Cipher) (now : ℕ)
    → validate_config p config ≡ ok tt
    → (e : TunnelEngine) × (new_engine device t remote config.session_id cipher
          config.keepalive_interval config.liveness_timeout now
        ≡ ok e)
validate_config-new_engine p config device t remote cipher now valid =
    numbers_in_range config device t remote cipher now (validated p config valid).0

-- A configuration that was accepted runs in one of three modes: with no key, role, handshake,
-- liveness or rotation; with a preshared key and a role, and no handshake or liveness; or with both
-- X25519 keys and a role.
pub validate_config-Mode :
    (p : Parsers) (config : EndpointConfig) → validate_config p config ≡ ok tt → Mode config
validate_config-Mode p config valid = validate_keys-Mode config (validated p config valid).1
