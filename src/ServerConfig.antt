-- ===== src/ServerConfig.antt =====
-- server_config.py: the configuration of a server with many clients.
pub mod Acceptance
use matf_master_vpn.Prelude.{
  ℕ, ◌&&◌, ◌||◌, not, Bool, true, false, Option, none, some, List, [], ◌∷◌, length, map, ltb, ◌==◌,
  String, Error, Result, ok, err, raise_if, ◌>>=◌, ◌>>◌, if◌then◌else◌,
}
use matf_master_vpn.Prelude.Int.{ℤ, pos, ltbℤ}
use matf_master_vpn.Prelude.Equality.{Eq, string_eq, nat_eq}
use matf_master_vpn.OrderedDict.{get}
use matf_master_vpn.Transport.{Address}
use matf_master_vpn.Json.{Json, null, text, array, object, dict_of, list_of}
use matf_master_vpn.Config.{
  Parsers, Raw, as_text, or_default, required, has_unknown, lacks_one, as_object, integer_field,
  boolean_field, endpoint_of, validate_name,
}
use matf_master_vpn.MultiServer.{has_repeats}

pub record ServerClientConfig : Type 0 where
  pub name : String
  pub tunnel_address : ℕ
  pub public_key_file : String

pub record MultiClientServerConfig : Type 0 where
  pub tun_name : String
  pub tun_address : String
  pub bind : Address
  pub private_key_file : String
  pub clients : List ServerClientConfig
  pub mtu : ℤ
  pub packets_per_key : ℤ
  pub json_logs : Bool

abbrev pub server_fields : List String
server_fields =
    "tun_name" ∷ "tun_address" ∷ "mtu" ∷ "bind" ∷ "private_key_file" ∷ "packets_per_key"
    ∷ "json_logs" ∷ "clients" ∷ []

abbrev pub client_fields : List String
client_fields = "name" ∷ "tunnel_address" ∷ "public_key_file" ∷ []

-- `not isinstance(value, str) or not value`
abbrev pub as_filled : Json → Result String
as_filled (text s) = if string_eq.beq s "" then err Error.value_error else ok s
as_filled v = err Error.value_error

-- _string, which refuses the empty string too
unfoldable pub filled_field : Raw → String → Json → Result String
filled_field raw field default = as_filled (or_default default (get field raw))

-- The addresses of `_validate`: each is inside the network and not the server's own.
abbrev pub any_misplaced : ℕ → (ℕ → Bool) → List ℕ → Bool
any_misplaced own inside [] = false
any_misplaced own inside (a ∷ others) =
    (not (inside a) || a == own) || any_misplaced own inside others

abbrev pub client_names : List ServerClientConfig → List String
client_names = map (λ (i : ServerClientConfig). i.name)

abbrev pub client_addresses : List ServerClientConfig → List ℕ
client_addresses = map (λ (i : ServerClientConfig). i.tunnel_address)

-- `not isinstance(clients_raw, list) or not clients_raw`
abbrev pub as_array : Json → Result (List Json)
as_array (array values) = elim (list_of values) [
  | [] ↦ err Error.value_error
  | v ∷ vs ↦ ok (v ∷ vs)
]
as_array v = err Error.value_error

module _ (p : Parsers) where
  -- _path
  unfoldable pub key_path : Json → Result String
  key_path value = do s ← as_filled value; ok (p.resolve s)

  -- _validate
  unfoldable pub validate_server : MultiClientServerConfig → Result (Unit {0})
  validate_server config = do
    (own, inside) ← required (p.ipv4_interface config.tun_address)
    validate_name config.tun_name
    raise_if (ltbℤ config.mtu (pos 576) || ltbℤ (pos 65535) config.mtu) Error.value_error
    raise_if (ltbℤ config.packets_per_key (pos 0)) Error.value_error
    raise_if (has_repeats (client_names config.clients)) Error.value_error
    raise_if (has_repeats (client_addresses config.clients)) Error.value_error
    raise_if (any_misplaced own inside (client_addresses config.clients)) Error.value_error

  unfoldable pub server_config_of : Raw → List ServerClientConfig → Result MultiClientServerConfig
  server_config_of raw clients = do
    tun_name ← filled_field raw "tun_name" (text "mvpn0")
    tun_address ← filled_field raw "tun_address" null
    bind ← endpoint_of p (or_default null (get "bind" raw))
    private_key_file ← key_path (or_default null (get "private_key_file" raw))
    mtu ← integer_field raw "mtu" (pos 1400)
    packets_per_key ← integer_field raw "packets_per_key" (pos 0)
    json_logs ← boolean_field raw "json_logs" false
    ok (record {
      tun_name = tun_name;
      tun_address = tun_address;
      bind = bind;
      private_key_file = private_key_file;
      clients = clients;
      mtu = mtu;
      packets_per_key = packets_per_key;
      json_logs = json_logs;
    })

module _ (p : Parsers) (ipv4_number : Json → Option ℕ) where
  -- _client_config; `ipv4_number` is `IPv4Address` of a JSON value
  unfoldable pub client_config : Json → Result ServerClientConfig
  client_config value = do
    raw ← as_object p value
    raise_if (has_unknown client_fields raw) Error.value_error
    raise_if (lacks_one client_fields raw) Error.value_error
    tunnel_address ← required (ipv4_number (or_default null (get "tunnel_address" raw)))
    name ← filled_field raw "name" null
    public_key_file ← key_path p (or_default null (get "public_key_file" raw))
    ok (record { name = name; tunnel_address = tunnel_address; public_key_file = public_key_file })

  unfoldable pub client_configs : List Json → Result (List ServerClientConfig)
  client_configs [] = ok []
  client_configs (value ∷ values) = do
    config ← client_config value
    configs ← client_configs values
    ok (config ∷ configs)

  -- load_server_config, from the document, `none` where it cannot be read or is not JSON
  unfoldable pub load_server_config : Option Json → Result MultiClientServerConfig
  load_server_config document = do
    root ← required document
    raw ← as_object p root
    raise_if (has_unknown server_fields raw) Error.value_error
    raise_if (lacks_one ("tun_address" ∷ "bind" ∷ "private_key_file" ∷ "clients" ∷ []) raw)
        Error.value_error
    clients_raw ← as_array (or_default null (get "clients" raw))
    clients ← client_configs clients_raw
    config ← server_config_of p raw clients
    validate_server p config
    ok config
