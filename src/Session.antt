-- ===== src/Session.antt =====
-- cli.py: `run_session` and the end of `main`. What a session meets is an argument: the socket, the
-- device, what arrives, the random draws, the clock and the rounds of the engine.
pub mod Secured
use matf_master_vpn.Prelude.{
  ℕ, Bool, true, false, not, Option, none, some, List, [], ◌∷◌, String, map, Error, Result, ok, err,
  ◌>>=◌, ◌>>◌, if◌then◌else◌,
}
use matf_master_vpn.Prelude.Int.{ℤ, pos}
use matf_master_vpn.Bytes.{Bytes}
use matf_master_vpn.Primitives.{Primitives}
use matf_master_vpn.Crypto.{Cipher, EndpointRole, client, server}
use matf_master_vpn.Handshake.{Draw}
use matf_master_vpn.Handshake.Rounds.{
  run_client_handshake, run_server_handshake, default_handshake_attempts,
}
use matf_master_vpn.Transport.{Datagram, UdpTransport}
use matf_master_vpn.Tun.{TunDevice, check_device_name}
use matf_master_vpn.Engine.{TunnelEngine, new_engine}
use matf_master_vpn.Engine.Steps.{Round, run}
use matf_master_vpn.Config.{EndpointConfig, required}
use matf_master_vpn.Cli.{KeyFile, load_x25519_key, prepare}
use matf_master_vpn.Operations.{Event, Ending, returned, raised, check_mtu, run_with_reconnect}

pub record Surroundings : Type 0 where
  pub socket : Result UdpTransport
  pub session_number : ℕ
  pub draw : Draw
  pub draws : ℕ → Draw
  pub arrivals : List (Option Datagram)
  pub device : Result TunDevice
  -- The two `ip` commands of `configure_tun`
  pub configured : Result (Unit {0})
  pub now : ℕ
  pub rounds : List Round

-- `options.role == EndpointRole.CLIENT.value`
abbrev pub is_client : Option EndpointRole → Bool
is_client (some EndpointRole.client) = true
is_client (some EndpointRole.server) = false
is_client none = false

abbrev pub with_cipher :
    Result (ℤ × Cipher) × UdpTransport → Result (ℤ × Option Cipher) × UdpTransport
with_cipher (result, transport) = (result >>= λ session. ok (session.0, some session.1), transport)

-- The keys that `main` has loaded for a handshake
unfoldable pub handshake_keys : (String → KeyFile) → EndpointConfig → Result (Bytes × Bytes)
handshake_keys files options = do
  private_path ← required options.private_key_file
  public_path ← required options.peer_public_key_file
  private_key ← load_x25519_key (files private_path) true
  public_key ← load_x25519_key (files public_path) false
  ok (private_key, public_key)

module _ (c : Primitives) (options : EndpointConfig) where
  -- The handshake of the endpoint's role
  unfoldable pub handshake :
      Bytes × Bytes → Surroundings → UdpTransport → Result (ℤ × Cipher) × UdpTransport
  handshake keys around transport =
      if is_client options.role
      then run_client_handshake c around.session_number around.draw options.peer keys.0 keys.1
          (pos default_handshake_attempts) options.packets_per_key around.arrivals transport
      else run_server_handshake c around.draws options.peer keys.0 keys.1
          (pos default_handshake_attempts) options.packets_per_key around.arrivals transport

  -- The session id and the cipher, from the handshake if there is one
  unfoldable pub negotiate :
      Option Cipher
      → Bytes × Bytes
      → Surroundings
      → UdpTransport
      → Result (ℤ × Option Cipher) × UdpTransport
  negotiate cipher keys around transport =
      if options.ephemeral_handshake
      then with_cipher (handshake keys around transport)
      else (ok (options.session_id, cipher), transport)

  -- The device and the engine of a session
  unfoldable pub build_engine :
      Surroundings → Result (ℤ × Option Cipher) × UdpTransport → Result TunnelEngine
  build_engine around (negotiated, transport) = do
    session ← negotiated
    check_device_name options.tun_name
    device ← around.device
    check_mtu options.mtu
    around.configured
    new_engine device transport options.peer session.0 session.1 options.keepalive_interval
        options.liveness_timeout around.now

  -- `run_session` up to the engine
  unfoldable pub establish_session :
      Option Cipher → Bytes × Bytes → Surroundings → Result TunnelEngine
  establish_session cipher keys around = do
    transport ← around.socket
    build_engine around (negotiate cipher keys around transport)

  -- run_session, which returns only where the rounds end
  unfoldable pub run_session : Option Cipher → Bytes × Bytes → Surroundings → Result (Unit {0})
  run_session cipher keys around = do
    engine ← establish_session cipher keys around
    (run c around.rounds engine).0

  -- `run_session()` of `main` without a handshake
  abbrev pub run_once_only : List (Result (Unit {0})) → List Event × Ending
  run_once_only [] = ([], Ending.unfinished)
  run_once_only (ok done ∷ sessions) = ([], returned)
  run_once_only (err e ∷ sessions) = ([], raised e)

  -- The end of `main`, over the sessions to come
  unfoldable pub supervise : Option Cipher → Bytes × Bytes → List Surroundings → List Event × Ending
  supervise cipher keys sessions =
      if options.ephemeral_handshake
      then run_with_reconnect options.reconnect_delay (map (run_session cipher keys) sessions)
      else run_once_only (map (run_session cipher keys) sessions)

module _ (c : Primitives) (files : String → KeyFile) where
  -- The keys of a session, which one without a handshake does not use
  abbrev pub keys_of : EndpointConfig → Result (Bytes × Bytes)
  keys_of options =
      if options.ephemeral_handshake then handshake_keys files options else ok ([], [])

  -- What `main` has when the session starts: the cipher and the keys
  unfoldable pub prepare_session : EndpointConfig → Result (Option Cipher × (Bytes × Bytes))
  prepare_session options = do
    cipher ← prepare c files options
    keys ← keys_of options
    ok (cipher, keys)

  -- `main` after the arguments are parsed. A session whose rounds end was interrupted.
  unfoldable pub main : EndpointConfig → List Surroundings → List Event × Ending
  main options sessions = elim (prepare_session options) [
    | err e ↦ ([], raised e)
    | ok (cipher, keys) ↦ supervise c options cipher keys sessions
  ]
