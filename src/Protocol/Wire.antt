-- ===== src/Protocol/Wire.antt =====
-- protocol.py: the datagram of a packet whose fields fit, and how it is encoded and decoded.
use matf_master_vpn.Prelude.{
  ℕ, ◌+◌, ◌≤◌, ◌<◌, ◌≡◌, refl, false, some, ◌++◌, length, drop, ok, arith,
}
use matf_master_vpn.Prelude.Int.{ℤ, pos, negsuc, outside}
use matf_master_vpn.Bytes.{Bytes, to_bytes, from_bytes-to_bytes}
use matf_master_vpn.Protocol.{
  Packet, MessageType, data_message, keepalive, client_hello, server_hello, message_code,
  message_type_of, header_pack, header_unpack, encode, decode, max_payload_size, protocol_version,
  header_size,
}

-- The datagram of a packet whose fields fit.
abbrev pub wire : MessageType → ℕ → ℕ → Bytes → Bytes
wire t s q payload =
    (to_bytes 1 protocol_version
      ++ (to_bytes 1 (message_code t)
          ++ (to_bytes 4 s ++ (to_bytes 8 q ++ to_bytes 2 (length payload)))))
    ++ payload

-- The fields of a packet fit their formats.
pub record IsEncodable (p : Packet) : Type 0 where
  pub session : ℕ
  pub sequence : ℕ
  pub session_is : p.session_id ≡ pos session
  pub sequence_is : p.sequence_number ≡ pos sequence
  pub session_fits : session ≤ 0xffffffff
  pub sequence_fits : sequence ≤ 0xffffffffffffffff
  pub payload_fits : length p.payload ≤ max_payload_size

outside-pos : (limit : ℕ) (z : ℤ) → outside limit z ≡ false → (n : ℕ) × (z ≡ pos n) × (n ≤ limit)
outside-pos limit (pos n) h = (n, refl, ground arith)
outside-pos limit (negsuc n) h = absurd (ground arith)

-- A packet that is encoded had fields that fit, and the datagram is its header and its payload.
pub encode-IsEncodable : (p : Packet) {d : Bytes} → encode p ≡ ok d → IsEncodable p
unfolding encode
encode-IsEncodable p h =
    let (s, s_is, s_fits) = outside-pos 0xffffffff p.session_id (ground arith) in
    let (q, q_is, q_fits) = outside-pos 0xffffffffffffffff p.sequence_number (ground arith) in
    record {
      session = s;
      sequence = q;
      session_is = s_is;
      sequence_is = q_is;
      session_fits = s_fits;
      sequence_fits = q_fits;
      payload_fits = ground arith;
    }

message_code-lt : (t : MessageType) → message_code t < 256
message_code-lt data_message = omega arith
message_code-lt keepalive = omega arith
message_code-lt client_hello = omega arith
message_code-lt server_hello = omega arith

pub encode-eq-wire :
    (p : Packet) (e : IsEncodable p)
    → encode p ≡ ok (wire p.message_type e.session e.sequence p.payload)
unfolding encode header_pack
encode-eq-wire p e = rw (e.session_is, e.sequence_is) (ground arith)

message_type_of-code : (t : MessageType) → message_type_of (message_code t) ≡ some t
message_type_of-code data_message = refl
message_type_of-code keepalive = refl
message_type_of-code client_hello = refl
message_type_of-code server_hello = refl

header_unpack-wire :
    (t : MessageType) (s q : ℕ) (payload : Bytes)
    → s ≤ 0xffffffff
    → q ≤ 0xffffffffffffffff
    → length payload ≤ max_payload_size
    → header_unpack (wire t s q payload) ≡ record {
      version = protocol_version;
      raw_type = message_code t;
      session_id = s;
      sequence_number = q;
      payload_size = length payload;
    }
unfolding header_unpack to_bytes
header_unpack-wire t s q payload hs hq hp = λ i. record {
  version = from_bytes-to_bytes 1 protocol_version (omega arith) i;
  raw_type = from_bytes-to_bytes 1 (message_code t) (message_code-lt t) i;
  session_id = from_bytes-to_bytes 4 s (omega arith) i;
  sequence_number = from_bytes-to_bytes 8 q (omega arith) i;
  payload_size = from_bytes-to_bytes 2 (length payload) (omega arith) i;
}

pub length-wire :
    (t : MessageType) (s q : ℕ) (payload : Bytes)
    → length (wire t s q payload) ≡ header_size + length payload
unfolding to_bytes
length-wire t s q payload = omega arith

drop-wire :
    (t : MessageType) (s q : ℕ) (payload : Bytes) → drop header_size (wire t s q payload) ≡ payload
unfolding to_bytes
drop-wire t s q payload = refl

pub decode-wire :
    (t : MessageType) (s q : ℕ) (payload : Bytes)
    → s ≤ 0xffffffff
    → q ≤ 0xffffffffffffffff
    → length payload ≤ max_payload_size
    → decode (wire t s q payload)
      ≡ ok (record {
        message_type = t;
        session_id = pos s;
        sequence_number = pos q;
        payload = payload;
      })
unfolding decode
decode-wire t s q payload hs hq hp =
    rw
      (
        header_unpack-wire t s q payload hs hq hp,
        length-wire t s q payload,
        drop-wire t s q payload,
        message_type_of-code t,
      )
      (ground arith)
