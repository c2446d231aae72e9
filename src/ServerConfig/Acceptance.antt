-- ===== src/ServerConfig/Acceptance.antt =====
-- server_config.py and multi_server.py: the checks of the configuration cover those of the registry.
use matf_master_vpn.Prelude.{◌≡◌, refl, ap, false, List, [], ◌∷◌, map, String, ok, arith, >>=-eq-ok}
use matf_master_vpn.Prelude.Equality.{string_eq, nat_eq}
use matf_master_vpn.Bytes.{Bytes}
use matf_master_vpn.Config.{Parsers, required, validate_name}
use matf_master_vpn.MultiServer.{ClientIdentity, ClientRegistry, has_repeats, new_registry}
use matf_master_vpn.ServerConfig.{
  ServerClientConfig, MultiClientServerConfig, validate_server, client_names, client_addresses,
}

-- multi_server_cli.py: the identity of a client, with the key that its file holds
abbrev pub identity_of : (String → Bytes) → ServerClientConfig → ClientIdentity
identity_of key_in i = record {
  name = i.name;
  tunnel_address = i.tunnel_address;
  public_key = key_in i.public_key_file;
}

names-identity_of :
    (key_in : String → Bytes) (clients : List ServerClientConfig)
    → map (λ (i : ClientIdentity). i.name) (map (identity_of key_in) clients) ≡ client_names clients
names-identity_of key_in [] = refl
names-identity_of key_in (i ∷ is) = ap (◌∷◌ i.name) (names-identity_of key_in is)

addresses-identity_of :
    (key_in : String → Bytes) (clients : List ServerClientConfig)
    → map (λ (i : ClientIdentity). i.tunnel_address) (map (identity_of key_in) clients)
      ≡ client_addresses clients
addresses-identity_of key_in [] = refl
addresses-identity_of key_in (i ∷ is) = ap (◌∷◌ i.tunnel_address) (addresses-identity_of key_in is)

pub no_repeats :
    (p : Parsers) (config : MultiClientServerConfig)
    → validate_server p config ≡ ok tt
    → (has_repeats (client_names config.clients) ≡ false)
      × (has_repeats (client_addresses config.clients) ≡ false)
unfolding validate_server
no_repeats p config valid =
    let (interface, found, e₁) =
      >>=-eq-ok (required (p.ipv4_interface config.tun_address)) _ valid in
    let (u, named, e₂) = >>=-eq-ok (validate_name config.tun_name) _ e₁ in
    (ground arith, ground arith)

-- With a server configuration that was accepted, and any keys in its clients' files, the registry of
-- its clients can be built.
pub validate_server-new_registry :
    (p : Parsers) (config : MultiClientServerConfig) (key : Bytes) (key_in : String → Bytes)
    → validate_server p config ≡ ok tt
    → (registry : ClientRegistry) × (new_registry key
          (map (identity_of key_in) config.clients)
          config.packets_per_key
        ≡ ok registry)
unfolding new_registry
validate_server-new_registry p config key key_in valid =
    let (names, addresses) = no_repeats p config valid in
    rw
      (
        names-identity_of key_in config.clients,
        addresses-identity_of key_in config.clients,
        names,
        addresses,
      )
      (_, refl)
