-- ===== src/Config.antt =====
-- config.py: the configuration of one endpoint, read from JSON and validated. The parsers of
-- `ipaddress`, `pathlib` and `int` are arguments.
pub mod Fields
pub mod Validation
pub mod Errors
use mathlib.Core.Bool.{xor}
use matf_master_vpn.Prelude.{
  ℕ, ◌*◌, ◌&&◌, ◌||◌, not, Bool, true, false, Option, none, some, List, [], ◌∷◌, length, ltb, leb,
  ◌==◌, if◌then◌else◌, String, Error, Result, ok, err, raise_if, ◌>>=◌, ◌>>◌,
}
use matf_master_vpn.Prelude.Int.{ℤ, pos, negsuc, ltbℤ, lebℤ, truthy, outside}
use matf_master_vpn.Prelude.Equality.{Eq, string_eq}
use matf_master_vpn.Bytes.{all_ascii, Bytes, ascii}
use matf_master_vpn.OrderedDict.{OrderedDict, get}
use matf_master_vpn.Crypto.{EndpointRole, client, server}
use matf_master_vpn.Transport.{Address}
use matf_master_vpn.Json.{Json, null, boolean, integer, real, text, array, object, dict_of}
pub use matf_master_vpn.Config.Fields.{
  Raw, given, or_default, required, as_text, as_integer, as_boolean, as_optional_text, in_list,
  has_unknown, lacks_one,
}
unfoldable pub use matf_master_vpn.Config.Fields.{
  string_field, optional_string, integer_field, boolean_field, checked_port, role_of,
}

-- What the program asks of the standard library about text.
pub record Parsers : Type 0 where
  -- str(IPv4Address(s))
  pub ipv4_address : String → Option String
  -- IPv4Interface(s): the address, and the test for membership of its network
  pub ipv4_interface : String → Option (ℕ × (ℕ → Bool))
  -- s.rsplit(":", 1), where it has two parts
  pub rsplit_colon : String → Option (String × String)
  -- int(s)
  pub parse_int : String → Option ℤ
  -- Path(s), taken relative to the directory of the configuration unless it is absolute
  pub resolve : String → String
  -- float(z) of an integer, in ticks; `none` is its `OverflowError`
  pub seconds : ℤ → Option ℤ
  -- The ticks of the literals `0.0`, `1.0` and `3.0`
  pub literal_seconds : ℕ → ℤ

pub record EndpointConfig : Type 0 where
  pub tun_name : String
  pub tun_address : String
  pub bind : Address
  pub peer : Address
  pub mtu : ℤ
  pub session_id : ℤ
  pub key_file : Option String
  pub private_key_file : Option String
  pub peer_public_key_file : Option String
  pub role : Option EndpointRole
  pub ephemeral_handshake : Bool
  pub handshake_timeout : ℤ
  pub packets_per_key : ℤ
  pub reconnect_delay : ℤ
  pub json_logs : Bool
  pub keepalive_interval : ℤ
  pub liveness_timeout : ℤ

abbrev pub allowed_fields : List String
allowed_fields =
    "tun_name" ∷ "tun_address" ∷ "mtu" ∷ "bind" ∷ "peer" ∷ "session_id" ∷ "key_file"
    ∷ "private_key_file" ∷ "peer_public_key_file" ∷ "role" ∷ "ephemeral_handshake"
    ∷ "handshake_timeout" ∷ "packets_per_key" ∷ "reconnect_delay" ∷ "json_logs"
    ∷ "keepalive_interval" ∷ "liveness_timeout" ∷ []

abbrev pub either_file : EndpointConfig → Bool
either_file config = given config.private_key_file || given config.peer_public_key_file

-- The key options, in the order of `_validate`
unfoldable pub validate_keys : EndpointConfig → Result (Unit {0})
validate_keys config = do
  let uses_psk = given config.key_file
  let uses_x25519 = either_file config
  raise_if (uses_psk && uses_x25519) Error.value_error
  raise_if
      (uses_x25519
        && (not (given config.private_key_file) || not (given config.peer_public_key_file)))
      Error.value_error
  let encrypted = uses_psk || uses_x25519
  raise_if (xor encrypted (given config.role)) Error.value_error
  raise_if (config.ephemeral_handshake && not uses_x25519) Error.value_error
  raise_if (ltbℤ (pos 0) config.packets_per_key && not encrypted) Error.value_error
  raise_if (truthy config.liveness_timeout && not config.ephemeral_handshake) Error.value_error

-- The numbers, in the order of `_validate`
unfoldable pub validate_numbers : EndpointConfig → Result (Unit {0})
validate_numbers config = do
  raise_if (ltbℤ config.mtu (pos 576) || ltbℤ (pos 65535) config.mtu) Error.value_error
  raise_if (outside 0xffffffff config.session_id) Error.value_error
  raise_if (lebℤ config.handshake_timeout (pos 0) || ltbℤ config.reconnect_delay (pos 0))
      Error.value_error
  raise_if (ltbℤ config.packets_per_key (pos 0)) Error.value_error
  raise_if (ltbℤ config.keepalive_interval (pos 0) || ltbℤ config.liveness_timeout (pos 0))
      Error.value_error
  raise_if (xor (truthy config.keepalive_interval) (truthy config.liveness_timeout))
      Error.value_error
  raise_if
      (truthy config.liveness_timeout && lebℤ config.liveness_timeout config.keepalive_interval)
      Error.value_error

-- `not name or len(name.encode("ascii")) > 15`; a character outside ASCII is a `ValueError` of
-- `encode`.
unfoldable pub validate_name : String → Result (Unit {0})
validate_name name =
    raise_if
      (length (ascii name) == 0 || (not (all_ascii (ascii name)) || ltb 15 (length (ascii name))))
      Error.value_error

-- `OverflowError` where an integer is too large for a float
abbrev pub in_range {ℓ} : {A : Type ℓ} → Option A → Result A
in_range none = err Error.overflow_error
in_range (some a) = ok a

module _ (p : Parsers) where
  abbrev pub as_number : Json → Result ℤ
  as_number (integer z) = in_range (p.seconds z)
  as_number (real t) = ok t
  as_number v = err Error.value_error

  -- _number
  unfoldable pub number_field : Raw → String → ℤ → Result ℤ
  number_field raw field default = as_number (or_default (real default) (get field raw))

  abbrev pub as_path : Json → Result (Option String)
  as_path null = ok none
  as_path (text s) = ok (some (p.resolve s))
  as_path v = err Error.value_error

  -- _path
  unfoldable pub path_field : Raw → String → Result (Option String)
  path_field raw field = as_path (or_default null (get field raw))

  -- _endpoint
  unfoldable pub endpoint_of : Json → Result Address
  endpoint_of value = do
    s ← as_text value
    (raw_host, raw_port) ← required (p.rsplit_colon s)
    host ← required (p.ipv4_address raw_host)
    port ← required (p.parse_int raw_port)
    checked_port host port

  -- _validate
  unfoldable pub validate_config : EndpointConfig → Result (Unit {0})
  validate_config config = do
    interface ← required (p.ipv4_interface config.tun_address)
    validate_name config.tun_name
    validate_numbers config
    validate_keys config

  -- The fields of `load_config`, in the order of the source; times default to seconds.
  unfoldable pub config_of : Raw → Option EndpointRole → Result EndpointConfig
  config_of raw role = do
    tun_name ← string_field raw "tun_name" (text "mvpn0")
    tun_address ← string_field raw "tun_address" null
    bind ← endpoint_of (or_default null (get "bind" raw))
    peer ← endpoint_of (or_default null (get "peer" raw))
    mtu ← integer_field raw "mtu" (pos 1400)
    session_id ← integer_field raw "session_id" (pos 1)
    key_file ← path_field raw "key_file"
    private_key_file ← path_field raw "private_key_file"
    peer_public_key_file ← path_field raw "peer_public_key_file"
    ephemeral_handshake ← boolean_field raw "ephemeral_handshake" false
    handshake_timeout ← number_field raw "handshake_timeout" (p.literal_seconds 3)
    packets_per_key ← integer_field raw "packets_per_key" (pos 0)
    reconnect_delay ← number_field raw "reconnect_delay" (p.literal_seconds 1)
    json_logs ← boolean_field raw "json_logs" false
    keepalive_interval ← number_field raw "keepalive_interval" (p.literal_seconds 0)
    liveness_timeout ← number_field raw "liveness_timeout" (p.literal_seconds 0)
    ok (record {
      tun_name = tun_name;
      tun_address = tun_address;
      bind = bind;
      peer = peer;
      mtu = mtu;
      session_id = session_id;
      key_file = key_file;
      private_key_file = private_key_file;
      peer_public_key_file = peer_public_key_file;
      role = role;
      ephemeral_handshake = ephemeral_handshake;
      handshake_timeout = handshake_timeout;
      packets_per_key = packets_per_key;
      reconnect_delay = reconnect_delay;
      json_logs = json_logs;
      keepalive_interval = keepalive_interval;
      liveness_timeout = liveness_timeout;
    })

  -- The root of the document, which must be an object
  abbrev pub as_object : Json → Result Raw
  as_object (object members) = ok (dict_of members)
  as_object v = err Error.value_error

  -- load_config, from the document, `none` where it cannot be read or is not JSON
  unfoldable pub load_config : Option Json → Result EndpointConfig
  load_config document = do
    root ← required document
    raw ← as_object root
    raise_if (has_unknown allowed_fields raw) Error.value_error
    raise_if (lacks_one ("tun_address" ∷ "bind" ∷ "peer" ∷ []) raw) Error.value_error
    role_name ← optional_string raw "role"
    role ← role_of role_name
    config ← config_of raw role
    validate_config config
    ok config
