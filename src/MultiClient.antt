-- ===== src/MultiClient.antt =====
-- multi_client.py: the data plane of a server with many clients. A `ClientSession` is shared by the
-- table of sessions, the table of routes and the server's cache of accepted hellos, so the tables
-- hold references, and `objects` is the memory that they point into. An IPv4 address is its number.
pub mod Steps
pub mod Keeps
pub mod Tables
pub mod Replacement
pub mod Invariant
pub mod Receipt
pub mod Routing
use matf_master_vpn.Prelude.{
  ℕ, ◌*◌, ◌/◌, ◌||◌, not, Bool, true, false, Option, none, some, List, [], ◌∷◌, length, take, drop,
  ltb, ◌==◌, if◌then◌else◌, Error, Result, ok, err, raise_if, ◌>>=◌, ◌>>◌,
}
use matf_master_vpn.Prelude.Int.{ℤ, pos}
use matf_master_vpn.Prelude.Equality.{Eq, pair_eq, string_eq, nat_eq}
use matf_master_vpn.Bytes.{Bytes, from_bytes}
use matf_master_vpn.OrderedDict.{OrderedDict, get, put, remove}
use matf_master_vpn.Replay.{ReplayWindow}
use matf_master_vpn.Crypto.{Cipher}
use matf_master_vpn.Transport.{Address, UdpTransport}
use matf_master_vpn.Tun.{TunDevice}
use Prim.Native.Nat.{bit_and}

pub record ClientSession : Type 0 where
  pub remote_address : Address
  pub tunnel_address : ℕ
  pub session_id : ℤ
  pub cipher : Cipher
  pub send_sequence : ℕ
  pub replay_window : ReplayWindow

abbrev pub SessionKey : Type 0
SessionKey = Address × ℤ

-- A reference to a session.
abbrev pub Ref : Type 0
Ref = ℕ

pub record MultiClientServerEngine : Type 0 where
  pub tun_device : TunDevice
  pub transport : UdpTransport
  pub objects : Ref → ClientSession
  pub sessions : OrderedDict SessionKey Ref
  pub routes : OrderedDict ℕ Ref

-- MultiClientServerEngine.__init__, in a memory
abbrev pub new_server_engine :
    TunDevice → UdpTransport → (Ref → ClientSession) → MultiClientServerEngine
new_server_engine tun_device transport objects = record {
  tun_device = tun_device;
  transport = transport;
  objects = objects;
  sessions = [];
  routes = [];
}

abbrev pub key_of : ClientSession → SessionKey
key_of session = (session.remote_address, session.session_id)

-- The memory after a session was changed or made.
unfoldable pub assign : Ref → ClientSession → (Ref → ClientSession) → Ref → ClientSession
assign ref session objects r = if r == ref then session else objects r

abbrev pub first_byte : Bytes → ℕ
first_byte [] = 0
first_byte (b ∷ bs) = b

-- _validate_ipv4_packet
unfoldable pub validate_ipv4_packet : Bytes → Result (Unit {0})
validate_ipv4_packet packet = do
  raise_if (ltb (length packet) 20 || not (first_byte packet / 16 == 4)) Error.value_error
  let header_length = bit_and (first_byte packet) 15 * 4
  raise_if (ltb header_length 20 || ltb (length packet) header_length) Error.value_error

-- _ipv4_source
unfoldable pub ipv4_source : Bytes → Result ℕ
ipv4_source packet = do validate_ipv4_packet packet; ok (from_bytes (take 4 (drop 12 packet)))

-- _ipv4_destination
unfoldable pub ipv4_destination : Bytes → Result ℕ
ipv4_destination packet = do validate_ipv4_packet packet; ok (from_bytes (take 4 (drop 16 packet)))
