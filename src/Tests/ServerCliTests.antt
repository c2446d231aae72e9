-- ===== src/Tests/ServerCliTests.antt =====
-- A server with one client, from its configuration.
use matf_master_vpn.Prelude.{◌≡◌, refl, true, false, some, [], ◌∷◌, List, Option, ok, ℕ}
use matf_master_vpn.Prelude.Int.{pos}
use matf_master_vpn.Bytes.{ascii}
use matf_master_vpn.Tun.{has_zero}
use matf_master_vpn.OrderedDict.{get}
use matf_master_vpn.Json.{
  Json, text, array, object, value, no_values, member, no_members, dict_of, list_of,
}
use matf_master_vpn.Config.{integer_field, boolean_field, checked_port, endpoint_of, validate_name}
use matf_master_vpn.Cli.{load_x25519_key, check_private, read_key}
use matf_master_vpn.Hex.{from_hex}
use matf_master_vpn.Texts.{strip}
use matf_master_vpn.MultiServer.{ClientIdentity}
use matf_master_vpn.MultiServer.Rounds.{MultiClientServer, Arrivals, server_run}
use matf_master_vpn.MultiServer.Invariant.{IsServing}
use matf_master_vpn.ServerConfig.{
  MultiClientServerConfig, load_server_config, client_configs, client_config, key_path,
  filled_field, server_config_of, validate_server,
}
use matf_master_vpn.ServerCli.{ServerSurroundings, load_identity, load_identities, open_server}
use matf_master_vpn.ServerCli.Start.{open_server-IsServing}
use matf_master_vpn.Tests.Toy.{toy, zeros}
use matf_master_vpn.Tests.ConfigTests.{parsers, key_files}
use matf_master_vpn.Tests.EngineTests.{device, socket}
use matf_master_vpn.Tests.ServerTests.{session}

abbrev document : Json
document = object (
    member "tun_address" (text "10.9.0.1/24") (
      member "bind" (text "10.0.0.1:4000") (
        member "private_key_file" (text "server.key") (
          member "clients"
            (array (
              value
                (object (
                  member "name" (text "laptop") (
                    member "tunnel_address" (text "10.9.0.2")
                      (member "public_key_file" (text "laptop.pub") no_members))))
                no_values))
            no_members))))

-- Every text is read as the address 10.9.0.2.
abbrev number_of : Json → Option ℕ
number_of v = some 168361986

abbrev config : MultiClientServerConfig
config = record {
  tun_name = "mvpn0";
  tun_address = "10.9.0.1/24";
  bind = ("10.0.0.1:4000", 4000);
  private_key_file = "server.key";
  clients =
      record { name = "laptop"; tunnel_address = 168361986; public_key_file = "laptop.pub" } ∷ [];
  mtu = pos 1400;
  packets_per_key = pos 0;
  json_logs = false;
}

loaded : load_server_config parsers number_of (some document) ≡ ok config
unfolding load_server_config client_configs client_config key_path filled_field server_config_of
    validate_server validate_name integer_field boolean_field endpoint_of checked_port get dict_of
    list_of
loaded = refl

abbrev around : ServerSurroundings
around = record {
  socket = ok socket;
  device = ok device;
  configured = ok tt;
  objects = λ r. session;
  rounds = [];
}

abbrev identity : ClientIdentity
identity = record { name = "laptop"; tunnel_address = 168361986; public_key = zeros 32 }

key_held : load_x25519_key (key_files "server.key") true ≡ ok (zeros 32)
unfolding load_x25519_key check_private read_key from_hex strip
key_held = refl

identified : load_identities key_files config.clients ≡ ok (identity ∷ [])
unfolding load_identities load_identity load_x25519_key check_private read_key from_hex strip
identified = refl

name_clean : has_zero (ascii "mvpn0") ≡ false
unfolding has_zero
name_clean = refl

open_server-IsServing_example :
    (server : MultiClientServer) × (open_server key_files config around ≡ ok server)
    × ((rounds : List Arrivals) → IsServing (server_run toy rounds server).1)
open_server-IsServing_example =
    open_server-IsServing toy parsers number_of key_files (some document) around loaded key_held
      identified name_clean refl refl refl
