-- ===== src/Protocol.antt =====
-- protocol.py: the packet, its header and the wire format.
pub mod Wire
pub mod Codec
use matf_master_vpn.Prelude.{
  ℕ, zero, suc, ◌+◌, ◌-◌, ◌^◌, ◌≤◌, ◌≡◌, refl, Bool, true, false, ◌||◌, not, Option, none, some,
  List, [], ◌∷◌, ◌++◌, length, take, drop, ltb, leb, ◌==◌, if◌then◌else◌, Error, Result, ok, err,
  raise_if, ◌>>=◌, ◌>>◌, arith,
}
use matf_master_vpn.Prelude.Int.{ℤ, pos, pos_part, outside}
use matf_master_vpn.Bytes.{Bytes, to_bytes, from_bytes}

abbrev pub protocol_version : ℕ
protocol_version = 1

-- `struct.Struct("!BBIQH").size`: 1 + 1 + 4 + 8 + 2, with no padding.
abbrev pub header_size : ℕ
header_size = 16

abbrev pub max_udp_datagram_size : ℕ
max_udp_datagram_size = 65507

abbrev pub max_payload_size : ℕ
max_payload_size = max_udp_datagram_size - header_size

pub data MessageType : Type 0 where
  data_message keepalive client_hello server_hello : MessageType

-- The value of the `IntEnum` member.
abbrev pub message_code : MessageType → ℕ
message_code data_message = 1
message_code keepalive = 2
message_code client_hello = 3
message_code server_hello = 4

-- `MessageType(raw_type)`; `none` is its `ValueError`.
abbrev pub message_type_of : ℕ → Option MessageType
message_type_of raw =
    if raw == 1
    then some data_message
    else if raw == 2
    then some keepalive
    else if raw == 3
    then some client_hello
    else if raw == 4
    then some server_hello
    else none

-- `a is b` on members of the enumeration.
abbrev pub same_type : MessageType → MessageType → Bool
same_type a b = message_code a == message_code b

pub same_type→eq : (a b : MessageType) → same_type a b ≡ true → a ≡ b
same_type→eq a b h = ground arith

pub record Packet : Type 0 where
  pub message_type : MessageType
  pub session_id : ℤ
  pub sequence_number : ℤ
  pub payload : Bytes

-- `HEADER.pack(version, message_type, session_id, sequence_number, size)`, in network byte order;
-- a field that does not fit its format is a `struct.error`.
unfoldable pub header_pack : ℕ → MessageType → ℤ → ℤ → ℕ → Result Bytes
header_pack version message_type session_id sequence_number size = do
  raise_if (ltb 0xff version) Error.struct_error
  raise_if (outside 0xffffffff session_id) Error.struct_error
  raise_if (outside 0xffffffffffffffff sequence_number) Error.struct_error
  raise_if (ltb 0xffff size) Error.struct_error
  ok (
      to_bytes 1 version
      ++ (to_bytes 1 (message_code message_type)
          ++ (to_bytes 4 (pos_part session_id)
              ++ (to_bytes 8 (pos_part sequence_number) ++ to_bytes 2 size))))

-- Packet.encode
unfoldable pub encode : Packet → Result Bytes
encode p = do
  raise_if (outside 0xffffffff p.session_id) Error.value_error
  raise_if (outside 0xffffffffffffffff p.sequence_number) Error.value_error
  raise_if (ltb max_payload_size (length p.payload)) Error.value_error
  header ←
      header_pack protocol_version p.message_type p.session_id p.sequence_number (length p.payload)
  ok (header ++ p.payload)

pub record Header : Type 0 where
  pub version : ℕ
  pub raw_type : ℕ
  pub session_id : ℕ
  pub sequence_number : ℕ
  pub payload_size : ℕ

-- `HEADER.unpack_from(datagram)` of a datagram that holds a header.
unfoldable pub header_unpack : Bytes → Header
header_unpack datagram = record {
  version = from_bytes (take 1 datagram);
  raw_type = from_bytes (take 1 (drop 1 datagram));
  session_id = from_bytes (take 4 (drop 2 datagram));
  sequence_number = from_bytes (take 8 (drop 6 datagram));
  payload_size = from_bytes (take 2 (drop 14 datagram));
}

or_invalid_packet : Option MessageType → Result MessageType
or_invalid_packet none = err Error.invalid_packet
or_invalid_packet (some t) = ok t

-- Packet.decode
unfoldable pub decode : Bytes → Result Packet
unfolding or_invalid_packet
decode datagram = do
  raise_if (ltb (length datagram) header_size) Error.invalid_packet
  let header = header_unpack datagram
  raise_if (not (header.version == protocol_version)) Error.invalid_packet
  raise_if (not (length datagram == header_size + header.payload_size)) Error.invalid_packet
  message_type ← or_invalid_packet (message_type_of header.raw_type)
  ok (record {
    message_type = message_type;
    session_id = pos header.session_id;
    sequence_number = pos header.sequence_number;
    payload = drop header_size datagram;
  })
