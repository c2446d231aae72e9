-- ===== src/ServerCli.antt =====
-- multi_server_cli.py: `main` of the server with many clients. What it meets is an argument: the
-- socket, the device, the memory where sessions are made, and what its rounds find.
pub mod Start
use matf_master_vpn.Prelude.{
  ℕ, true, false, Option, List, [], ◌∷◌, String, Result, ok, err, ◌>>=◌, ◌>>◌,
}
use matf_master_vpn.Primitives.{Primitives}
use matf_master_vpn.Transport.{UdpTransport}
use matf_master_vpn.Tun.{TunDevice, check_device_name}
use matf_master_vpn.Json.{Json}
use matf_master_vpn.Config.{Parsers}
use matf_master_vpn.Cli.{KeyFile, load_x25519_key}
use matf_master_vpn.Operations.{check_mtu}
use matf_master_vpn.MultiClient.{ClientSession, Ref, new_server_engine}
use matf_master_vpn.MultiServer.{ClientIdentity, new_registry}
use matf_master_vpn.MultiServer.Rounds.{MultiClientServer, Arrivals, server_run}
use matf_master_vpn.ServerConfig.{ServerClientConfig, MultiClientServerConfig, load_server_config}

pub record ServerSurroundings : Type 0 where
  pub socket : Result UdpTransport
  pub device : Result TunDevice
  -- The two `ip` commands of `configure_tun`
  pub configured : Result (Unit {0})
  pub objects : Ref → ClientSession
  pub rounds : List Arrivals

module _ (files : String → KeyFile) where
  unfoldable pub load_identity : ServerClientConfig → Result ClientIdentity
  load_identity client = do
    public_key ← load_x25519_key (files client.public_key_file) false
    ok (record {
      name = client.name;
      tunnel_address = client.tunnel_address;
      public_key = public_key;
    })

  unfoldable pub load_identities : List ServerClientConfig → Result (List ClientIdentity)
  load_identities [] = ok []
  load_identities (client ∷ clients) = do
    identity ← load_identity client
    identities ← load_identities clients
    ok (identity ∷ identities)

  -- `main` from the configuration up to `run`
  unfoldable pub open_server :
      MultiClientServerConfig → ServerSurroundings → Result MultiClientServer
  open_server config around = do
    private_key ← load_x25519_key (files config.private_key_file) true
    identities ← load_identities config.clients
    registry ← new_registry private_key identities config.packets_per_key
    transport ← around.socket
    check_device_name config.tun_name
    device ← around.device
    check_mtu config.mtu
    around.configured
    ok (record {
      registry = registry;
      engine = new_server_engine device transport around.objects;
      next_ref = 0;
    })

  -- main, from the document of the configuration; it returns only where the rounds end, at an
  -- interrupt.
  unfoldable pub serve :
      Primitives
      → Parsers
      → (Json → Option ℕ)
      → Option Json
      → ServerSurroundings
      → Result (Unit {0})
  serve c p ipv4_number document around = do
    config ← load_server_config p ipv4_number document
    server ← open_server config around
    (server_run c around.rounds server).0
