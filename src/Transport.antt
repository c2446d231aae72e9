-- ===== src/Transport.antt =====
-- transport.py: packets over a UDP socket. The socket is the log of the datagrams that it sent and
-- the answer of the operating system to each.
use matf_master_vpn.Prelude.{
  ℕ, Bool, not, Option, none, some, List, ◌∷◌, take, Error, Result, ok, err, raise_if, ◌>>=◌, ◌>>◌,
  String, ◌+◌,
}
use matf_master_vpn.Bytes.{Bytes}
use matf_master_vpn.Protocol.{Packet, encode, decode, header_size, max_payload_size}

-- A host and a port.
abbrev pub Address : Type 0
Address = String × ℕ

pub record Datagram : Type 0 where
  pub contents : Bytes
  pub address : Address

-- `sent` is newest first. `accepts d` is false where `sendto` raises `OSError` for `d`.
pub record UdpTransport : Type 0 where
  pub sent : List Datagram
  pub accepts : Datagram → Bool

-- UdpTransport.send; a send that raises sends nothing.
unfoldable pub send : UdpTransport → Packet → Address → Result UdpTransport
send transport packet remote_address = do
  contents ← encode packet
  let datagram : Datagram = record { contents = contents; address = remote_address }
  raise_if (not (transport.accepts datagram)) Error.os_error
  ok (record transport { sent = datagram ∷ transport.sent })

-- UdpTransport.receive of what arrives next; `none` is `socket.timeout`. `recvfrom` cuts a datagram
-- off at the size of its buffer.
unfoldable pub receive : Option Datagram → Result (Packet × Address)
receive none = err Error.timeout_error
receive (some datagram) = do
  packet ← decode (take (header_size + max_payload_size) datagram.contents)
  ok (packet, datagram.address)
