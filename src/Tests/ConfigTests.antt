-- ===== src/Tests/ConfigTests.antt =====
-- Configurations of an endpoint and of a server.
use mathlib.Core.Bool.{xor}
use matf_master_vpn.Prelude.{
  ℕ, zero, suc, ◌≡◌, refl, true, false, Option, none, some, [], ◌∷◌, String, Error, Result, ok, err,
  ◌⊎◌,
}
use matf_master_vpn.Prelude.Int.{pos}
use matf_master_vpn.Prelude.Equality.{string_eq, nat_eq}
use matf_master_vpn.Bytes.{to_bytes}
use matf_master_vpn.OrderedDict.{get}
use matf_master_vpn.Crypto.{
  Cipher, client, create_cipher, from_preshared_key, by_role, packet_cipher, int_to_bytes,
}
use matf_master_vpn.Engine.{TunnelEngine, new_engine}
use matf_master_vpn.Json.{Json, integer, text, object, member, no_members, dict_of}
use matf_master_vpn.Config.{
  Parsers, Raw, EndpointConfig, validate_config, validate_name, validate_numbers, validate_keys,
  load_config, config_of, string_field, optional_string, integer_field, boolean_field, checked_port,
  role_of, number_field, path_field, endpoint_of,
}
use matf_master_vpn.Config.Validation.{Mode, validate_config-Mode, validate_config-new_engine}
use matf_master_vpn.Config.Errors.{load_config-errors, IsObject, HasHuge}
use matf_master_vpn.ServerConfig.{MultiClientServerConfig, validate_server}
use matf_master_vpn.Hex.{from_hex}
use matf_master_vpn.Texts.{Text, strip}
use matf_master_vpn.Operations.{
  returned, run_with_reconnect, after_failures, failures, run_with_reconnect-failures,
}
use matf_master_vpn.Cli.{
  KeyFile, check_options, prepare, by_keys, preshared_cipher, load_preshared_key, read_key,
}
use matf_master_vpn.Cli.Agreement.{validate_config-check_options}
use matf_master_vpn.Tests.Toy.{toy}
use matf_master_vpn.Tests.EngineTests.{device, socket, client_address}

-- Parsers that take every text for one address with one port.
abbrev pub parsers : Parsers
parsers = record {
  ipv4_address = λ s. some s;
  ipv4_interface = λ s. some (1, λ a. true);
  rsplit_colon = λ s. some (s, "4000");
  parse_int = λ s. some (pos 4000);
  resolve = λ s. s;
  seconds = λ z. some z;
  literal_seconds = pos;
}

abbrev pub config : EndpointConfig
config = record {
  tun_name = "mvpn0";
  tun_address = "10.9.0.2/24";
  bind = client_address;
  peer = client_address;
  mtu = pos 1400;
  session_id = pos 1;
  key_file = some "psk";
  private_key_file = none;
  peer_public_key_file = none;
  role = some client;
  ephemeral_handshake = false;
  handshake_timeout = pos 3;
  packets_per_key = pos 0;
  reconnect_delay = pos 1;
  json_logs = false;
  keepalive_interval = pos 0;
  liveness_timeout = pos 0;
}

config-accepted : validate_config parsers config ≡ ok tt
unfolding validate_config validate_name validate_numbers validate_keys xor
config-accepted = refl

without_role : validate_config parsers (record config { role = none }) ≡ err Error.value_error
unfolding validate_config validate_name validate_numbers validate_keys xor
without_role = refl

validate_config-new_engine_example :
    (e : TunnelEngine) × (new_engine device socket client_address (pos 1) none (pos 0) (pos 0) 100
      ≡ ok e)
validate_config-new_engine_example =
    validate_config-new_engine parsers config device socket client_address none 100 config-accepted

validate_config-Mode_example : Mode config
validate_config-Mode_example = validate_config-Mode parsers config config-accepted

validate_config-check_options_example : check_options config ≡ ok tt
validate_config-check_options_example = validate_config-check_options parsers config config-accepted

abbrev document : Json
document = object (
    member "tun_address" (text "10.9.0.2/24")
      (member "bind" (text "10.0.0.2:4000") (member "peer" (text "10.0.0.1:4000") no_members)))

loaded :
    load_config parsers (some document)
    ≡ ok (record config {
      bind = ("10.0.0.2:4000", 4000);
      peer = ("10.0.0.1:4000", 4000);
      key_file = none;
      role = none;
    })
unfolding load_config config_of string_field optional_string integer_field boolean_field
    checked_port role_of number_field path_field endpoint_of get validate_config validate_name
    validate_numbers validate_keys xor dict_of
loaded = refl

-- Parsers for which no integer fits a float.
abbrev narrow_parsers : Parsers
narrow_parsers = record parsers { seconds = λ z. none }

abbrev huge_document : Json
huge_document = object (
    member "tun_address" (text "10.9.0.2/24") (
      member "bind" (text "10.0.0.2:4000") (
        member "peer" (text "10.0.0.1:4000")
          (member "handshake_timeout" (integer (pos 1)) no_members))))

huge_refused : load_config narrow_parsers (some huge_document) ≡ err Error.overflow_error
unfolding load_config config_of string_field optional_string integer_field boolean_field
    checked_port role_of number_field path_field endpoint_of get dict_of
huge_refused = refl

load_config-errors_example :
    (Error.overflow_error ≡ Error.value_error)
    ⊎ ((Error.overflow_error ≡ Error.overflow_error)
        × ((raw : Raw) × IsObject narrow_parsers (some huge_document) raw
            × HasHuge narrow_parsers raw))
load_config-errors_example =
    load_config-errors narrow_parsers (some huge_document) Error.overflow_error huge_refused

abbrev server_config : MultiClientServerConfig
server_config = record {
  tun_name = "mvpn0";
  tun_address = "10.9.0.1/24";
  bind = client_address;
  private_key_file = "server.key";
  clients =
      record { name = "laptop"; tunnel_address = 2; public_key_file = "laptop.pub" }
      ∷ record { name = "phone"; tunnel_address = 3; public_key_file = "phone.pub" }
      ∷ [];
  mtu = pos 1400;
  packets_per_key = pos 0;
  json_logs = false;
}

server_config-accepted : validate_server parsers server_config ≡ ok tt
unfolding validate_server validate_name
server_config-accepted = refl

run_with_reconnect-failures_example :
    run_with_reconnect
      (pos 1)
      (after_failures (Error.timeout_error ∷ Error.os_error ∷ []) (ok tt ∷ []))
    ≡ (failures (pos 1) 0 (Error.timeout_error ∷ Error.os_error ∷ []), returned)
run_with_reconnect-failures_example =
    run_with_reconnect-failures 1 (Error.timeout_error ∷ Error.os_error ∷ []) [] refl

-- The digit 0 so many times, with a line feed
abbrev repeated : ℕ → Text
repeated zero = 10 ∷ []
repeated (suc n) = 48 ∷ repeated n

abbrev pub key_files : String → KeyFile
key_files s = record { mode = some 384; contents = some (repeated 64) }

abbrev pub prepared : Result (Option Cipher)
prepared = prepare toy key_files config

abbrev pub prepared_cipher : Option Cipher
prepared_cipher = elim prepared [ ok x ↦ x | err e ↦ none ]

pub prepare-prepared : prepare toy key_files config ≡ ok prepared_cipher
unfolding prepare check_options by_keys preshared_cipher load_preshared_key read_key from_hex strip
    create_cipher from_preshared_key by_role packet_cipher int_to_bytes to_bytes xor
prepare-prepared = refl
