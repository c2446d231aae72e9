-- ===== src/ServerCli/Start.antt =====
-- multi_server_cli.py, with server_config.py and multi_server.py: what an accepted configuration is
-- enough for.
use matf_master_vpn.Prelude.{
  ◌≡◌, refl, sym, ap, true, false, List, [], ◌∷◌, map, String, Option, Error, ok, raise_if, arith,
  length, ℕ, >>=-eq-ok,
}
use matf_master_vpn.Prelude.Equality.{string_eq, nat_eq}
use matf_master_vpn.Bytes.{Bytes, ascii}
use matf_master_vpn.Primitives.{Primitives}
use matf_master_vpn.Transport.{UdpTransport}
use matf_master_vpn.Tun.{TunDevice, has_zero, check_name, check_device_name}
use matf_master_vpn.Json.{Json, null}
use matf_master_vpn.OrderedDict.{get}
use matf_master_vpn.Config.{
  Parsers, required, validate_name, as_object, has_unknown, lacks_one, or_default,
}
use matf_master_vpn.Cli.{KeyFile, load_x25519_key}
use matf_master_vpn.Operations.{check_mtu}
use matf_master_vpn.MultiClient.{ClientSession, Ref, new_server_engine}
use matf_master_vpn.MultiClient.Tables.{IsTable-new_server_engine}
use matf_master_vpn.MultiServer.{ClientIdentity, ClientRegistry, new_registry}
use matf_master_vpn.MultiServer.Rounds.{MultiClientServer, Arrivals, server_run}
use matf_master_vpn.MultiServer.Invariant.{IsServing, server_run-IsServing}
use matf_master_vpn.ServerConfig.{
  ServerClientConfig, MultiClientServerConfig, validate_server, load_server_config, client_names,
  client_addresses, server_fields, as_array, client_configs, server_config_of,
}
use matf_master_vpn.ServerConfig.Acceptance.{no_repeats}
use matf_master_vpn.ServerCli.{ServerSurroundings, load_identity, load_identities, open_server}

module _ (files : String → KeyFile) where
  -- The identities that were loaded have the names and the addresses of the clients.
  load_identities-eq :
      (clients : List ServerClientConfig) (identities : List ClientIdentity)
      → load_identities files clients ≡ ok identities
      → (map (λ (i : ClientIdentity). i.name) identities ≡ client_names clients)
        × (map (λ (i : ClientIdentity). i.tunnel_address) identities ≡ client_addresses clients)
  unfolding load_identities load_identity
  load_identities-eq [] identities e =
      let none_left : [] ≡ identities = cc e in rw (sym none_left) (refl, refl)
  load_identities-eq (client ∷ clients) identities e =
      let (first, loaded, e₁) = >>=-eq-ok (load_identity files client) _ e in
      let (rest, loaded_rest, e₂) = >>=-eq-ok (load_identities files clients) _ e₁ in
      let (key, held, made) =
        >>=-eq-ok (load_x25519_key (files client.public_key_file) false) _ loaded in
      let (names, addresses) = load_identities-eq clients rest loaded_rest in
      let identity : ClientIdentity = record {
        name = client.name;
        tunnel_address = client.tunnel_address;
        public_key = key;
      } in
      let is : identity ≡ first = cc made in
      let all : first ∷ rest ≡ identities = cc e₂ in
      rw (sym all, sym is) (ap (◌∷◌ client.name) names, ap (◌∷◌ client.tunnel_address) addresses)

  validate_name-check_device_name :
      (name : String)
      → validate_name name ≡ ok tt
      → has_zero (ascii name) ≡ false
      → check_device_name name ≡ ok tt
  unfolding validate_name check_device_name check_name
  validate_name-check_device_name name valid clean = ground arith

  registry_made :
      (p : Parsers) (config : MultiClientServerConfig) (key : Bytes)
      (identities : List ClientIdentity)
      → validate_server p config ≡ ok tt
      → load_identities files config.clients ≡ ok identities
      → (registry : ClientRegistry) × (new_registry key identities config.packets_per_key
          ≡ ok registry)
        × (registry.accepted_hellos ≡ [])
  unfolding new_registry
  registry_made p config key identities valid loaded =
      let (names, addresses) = no_repeats p config valid in
      let (named, addressed) = load_identities-eq config.clients identities loaded in
      rw (named, addressed, names, addresses) (_, refl, refl)

-- The checks of `_validate` on the name and the MTU are those of the device and of `configure_tun`.
valid_device :
    (p : Parsers) (config : MultiClientServerConfig)
    → validate_server p config ≡ ok tt
    → (validate_name config.tun_name ≡ ok tt) × (check_mtu config.mtu ≡ ok tt)
unfolding validate_server check_mtu
valid_device p config valid =
    let (interface, found, e₁) =
      >>=-eq-ok (required (p.ipv4_interface config.tun_address)) _ valid in
    let (u, named, e₂) = >>=-eq-ok (validate_name config.tun_name) _ e₁ in
    let (w, sized, e₃) = >>=-eq-ok (check_mtu config.mtu) _ e₂ in (named, sized)

loaded-valid :
    (p : Parsers) (ipv4_number : Json → Option ℕ) (document : Option Json)
    {config : MultiClientServerConfig}
    → load_server_config p ipv4_number document ≡ ok config
    → validate_server p config ≡ ok tt
unfolding load_server_config
loaded-valid p ipv4_number document {config} e =
    let (root, read, e₁) = >>=-eq-ok (required document) _ e in
    let (raw, object, e₂) = >>=-eq-ok (as_object p root) _ e₁ in
    let (u, known, e₃) =
      >>=-eq-ok (raise_if (has_unknown server_fields raw) Error.value_error) _ e₂ in
    let (v, complete, e₄) =
      >>=-eq-ok
        (raise_if (lacks_one ("tun_address" ∷ "bind" ∷ "private_key_file" ∷ "clients" ∷ []) raw)
          Error.value_error)
        _ e₃ in
    let (values, listed, e₅) = >>=-eq-ok (as_array (or_default null (get "clients" raw))) _ e₄ in
    let (clients, parsed, e₆) = >>=-eq-ok (client_configs p ipv4_number values) _ e₅ in
    let (made, composed, e₇) = >>=-eq-ok (server_config_of p raw clients) _ e₆ in
    let (w, valid, e₈) = >>=-eq-ok (validate_server p made) _ e₇ in
    let same : made ≡ config = cc e₈ in rw (sym same) valid

new_server-IsServing :
    (registry : ClientRegistry) (t : UdpTransport) (d : TunDevice) (objects : Ref → ClientSession)
    → registry.accepted_hellos ≡ []
    → IsServing
        (record { registry = registry; engine = new_server_engine d t objects; next_ref = 0 })
unfolding get
new_server-IsServing registry t d objects fresh = record {
  table = IsTable-new_server_engine d t objects;
  below = λ k r h. cc h;
  bounded = omega (arith, ap length fresh);
}

-- With a server configuration that `load_server_config` returned, key files that load, no zero byte
-- in the name of the device, and a socket, a device and `ip` commands that do not fail, `main`
-- builds the server. Whatever arrives in the rounds of its run, and however the run ends, its
-- tables of sessions and routes are consistent, no session in them is at the reference of the next
-- one, and its cache has at most 1024 hellos.
pub open_server-IsServing :
    (c : Primitives) (p : Parsers) (ipv4_number : Json → Option ℕ) (files : String → KeyFile)
    (document : Option Json) (around : ServerSurroundings) {config : MultiClientServerConfig}
    {private_key : Bytes} {identities : List ClientIdentity} {transport : UdpTransport}
    {device : TunDevice}
    → load_server_config p ipv4_number document ≡ ok config
    → load_x25519_key (files config.private_key_file) true ≡ ok private_key
    → load_identities files config.clients ≡ ok identities
    → has_zero (ascii config.tun_name) ≡ false
    → around.socket ≡ ok transport
    → around.device ≡ ok device
    → around.configured ≡ ok tt
    → (server : MultiClientServer) × (open_server files config around ≡ ok server)
      × ((rounds : List Arrivals) → IsServing (server_run c rounds server).1)
unfolding open_server
open_server-IsServing c p ipv4_number files document around {config} {private_key} {identities}
      {transport} {device} loaded held identified clean socket opened configured =
    let valid = loaded-valid p ipv4_number document loaded in
    let (named, sized) = valid_device p config valid in
    let checked = validate_name-check_device_name files config.tun_name named clean in
    let (registry, made, fresh) =
      registry_made files p config private_key identities valid identified in
    let server : MultiClientServer = record {
      registry = registry;
      engine = new_server_engine device transport around.objects;
      next_ref = 0;
    } in
    (
      server,
      rw (held, identified, made, socket, checked, opened, sized, configured) refl,
      λ rounds.
          server_run-IsServing c rounds server
            (new_server-IsServing registry transport device around.objects fresh),
    )
