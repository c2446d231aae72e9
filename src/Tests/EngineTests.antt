-- ===== src/Tests/EngineTests.antt =====
-- Two engines, a client and a server, joined by hand.
use matf_master_vpn.Prelude.{◌≡◌, refl, true, false, none, some, [], ◌∷◌, Error, ok, err, length}
use matf_master_vpn.Prelude.Int.{pos, negsuc}
use matf_master_vpn.Bytes.{Bytes, ascii, to_bytes, from_bytes}
use matf_master_vpn.Protocol.{data_message, header_pack, header_unpack, encode, decode}
use matf_master_vpn.Replay.{
  ReplayWindow, new_window, is_replay, mark_authenticated, distance, advance,
}
use matf_master_vpn.Crypto.{
  fixed, client, server, encrypt, decrypt, cipher_encrypt, cipher_decrypt, nonce,
  authenticated_header, int_to_bytes, from_preshared_key, by_role, packet_cipher, create_cipher,
}
use matf_master_vpn.Crypto.Sessions.{IsKeyed, create_cipher-IsKeyed}
use matf_master_vpn.Transport.{Address, Datagram, UdpTransport, send, receive}
use matf_master_vpn.Tun.{TunDevice, write, require_open}
use matf_master_vpn.Engine.{TunnelEngine, new_engine}
use matf_master_vpn.Engine.Steps.{
  Round, send_packet, protect, transmit, receive_udp_packet, received, handle_packet, open_packet,
  decrypted, authenticated, deliver, run_once, run, forward_tun, forward_udp, maintain,
  require_descriptor,
}
use matf_master_vpn.Engine.Accepted.{
  with_rounds, with_round, with_datagram, with_packet, with_opened,
}
use matf_master_vpn.Engine.Sound.{IsSound}
use matf_master_vpn.Engine.Invariant.{IsSound-run, IsSound-new_engine}
use matf_master_vpn.Engine.Receipt.{receive_udp_packet-IsAuthentic, Writes, IsAuthentic}
use matf_master_vpn.Engine.Replays.{receive_udp_packet-again}
use matf_master_vpn.Engine.Delivery.{IsReady, end_to_end}
use matf_master_vpn.Tests.Toy.{toy, toy_aead}
use matf_master_vpn.Tests.CryptoTests.{secret, client_cipher, server_cipher}

abbrev pub device : TunDevice
device = record { descriptor = some 5; written = []; takes = λ p. some (length p) }

abbrev pub socket : UdpTransport
socket = record { sent = []; accepts = λ d. true }

abbrev pub client_address : Address
client_address = ("10.0.0.2", 4000)

abbrev server_address : Address
server_address = ("10.0.0.1", 4001)

abbrev pub window : ReplayWindow
window = record { size = 64; highest_sequence = negsuc 0; bitmap = 0 }

abbrev client_engine : TunnelEngine
client_engine = record {
  tun_device = device;
  transport = socket;
  remote_address = server_address;
  session_id = pos 7;
  sequence_number = 0;
  cipher = some (fixed client_cipher);
  replay_window = window;
  keepalive_interval = 0;
  liveness_timeout = 0;
  last_authenticated_receive = 100;
  next_keepalive = 100;
}

abbrev pub server_engine : TunnelEngine
server_engine = record client_engine {
  remote_address = client_address;
  cipher = some (fixed server_cipher);
}

server_engine_made :
    new_engine device socket client_address (pos 7) (some (fixed server_cipher)) (pos 0) (pos 0) 100
    ≡ ok server_engine
unfolding new_engine new_window mathlib.Core.Bool.xor
server_engine_made = refl

needs_both :
    new_engine device socket client_address (pos 7) none (pos 3) (pos 0) 100 ≡ err Error.value_error
unfolding new_engine mathlib.Core.Bool.xor
needs_both = refl

abbrev payload : Bytes
payload = 69 ∷ 1 ∷ 2 ∷ []

client-IsKeyed : IsKeyed toy secret (pos 7) client (pos 0) (fixed client_cipher)
unfolding create_cipher from_preshared_key by_role packet_cipher int_to_bytes to_bytes
client-IsKeyed = create_cipher-IsKeyed toy secret (pos 7) client (pos 0) refl

server-IsKeyed : IsKeyed toy secret (pos 7) server (pos 0) (fixed server_cipher)
unfolding create_cipher from_preshared_key by_role packet_cipher int_to_bytes to_bytes
server-IsKeyed = create_cipher-IsKeyed toy secret (pos 7) server (pos 0) refl

client_sends : (send_packet toy data_message payload client_engine).0 ≡ ok tt
unfolding send_packet protect transmit send encode header_pack to_bytes cipher_encrypt encrypt nonce
    int_to_bytes authenticated_header
client_sends = refl

server-IsReady : IsReady server_engine 0 payload
unfolding is_replay
server-IsReady = record { fresh = refl; descriptor = 5; is_open = refl; takes = refl }

end_to_end_example :
    (contents : Bytes) × ((send_packet toy data_message payload client_engine).1.transport.sent
      ≡ record { contents = contents; address = server_address } ∷ [])
    × ((receive_udp_packet toy
          (record { contents = contents; address = client_address })
          120
          server_engine).0
        ≡ ok true)
    × ((receive_udp_packet toy
          (record { contents = contents; address = client_address })
          120
          server_engine).1.tun_device.written
        ≡ payload ∷ [])
end_to_end_example =
    end_to_end toy toy_aead secret (pos 7) client (pos 0) client_engine server_engine
      (fixed client_cipher) (fixed server_cipher) payload 120 refl refl client-IsKeyed
      server-IsKeyed refl server-IsReady client_sends

-- The datagram that the client sent.
abbrev on_the_wire : Datagram
on_the_wire = record {
  contents =
      1
      ∷ 1
      ∷ 0
      ∷ 0
      ∷ 0
      ∷ 7
      ∷ 0
      ∷ 0
      ∷ 0
      ∷ 0
      ∷ 0
      ∷ 0
      ∷ 0
      ∷ 0
      ∷ 0
      ∷ 19
      ∷ 69
      ∷ 1
      ∷ 2
      ∷ ascii "0123456789abcdef";
  address = client_address;
}

server_takes : (receive_udp_packet toy on_the_wire 120 server_engine).0 ≡ ok true
unfolding receive_udp_packet received receive decode header_unpack from_bytes handle_packet
    open_packet is_replay cipher_decrypt decrypt nonce int_to_bytes to_bytes authenticated_header
    header_pack decrypted authenticated mark_authenticated advance deliver write require_open
server_takes = refl

server-IsSound : IsSound [] server_engine
server-IsSound =
    IsSound-new_engine device socket client_address (pos 7) (some (fixed server_cipher)) (pos 0)
      (pos 0) 100 server_engine_made

receive_udp_packet-again_example :
    receive_udp_packet toy on_the_wire 130 (receive_udp_packet toy on_the_wire 120 server_engine).1
    ≡ (ok false, (receive_udp_packet toy on_the_wire 120 server_engine).1)
receive_udp_packet-again_example =
    receive_udp_packet-again toy (fixed server_cipher) on_the_wire 120 130 server_engine
      server-IsSound refl server_takes

receive_udp_packet-IsAuthentic_example :
    Writes server_engine
      (receive_udp_packet toy on_the_wire 120 server_engine).1
      (IsAuthentic toy (fixed server_cipher) server_engine on_the_wire)
receive_udp_packet-IsAuthentic_example =
    receive_udp_packet-IsAuthentic toy (fixed server_cipher) on_the_wire 120 server_engine refl

abbrev busy : Round
busy = record {
  tun_packet = some payload;
  datagram = some (ok on_the_wire);
  received_at = 120;
  checked_at = 121;
}

accepted-busy : with_rounds toy (busy ∷ busy ∷ []) server_engine [] ≡ 0 ∷ []
unfolding with_rounds with_round with_datagram with_packet with_opened run run_once
    require_descriptor forward_tun forward_udp maintain send_packet protect transmit send encode
    header_pack to_bytes cipher_encrypt encrypt nonce int_to_bytes authenticated_header
    receive_udp_packet received receive decode header_unpack from_bytes handle_packet open_packet
    is_replay distance cipher_decrypt decrypt decrypted authenticated mark_authenticated advance
    deliver write require_open
accepted-busy = refl

IsSound-run_example :
    IsSound
      (with_rounds toy (busy ∷ busy ∷ []) server_engine [])
      (run toy (busy ∷ busy ∷ []) server_engine).1
IsSound-run_example = IsSound-run toy (busy ∷ busy ∷ []) server_engine server-IsSound

run-busy : (run toy (busy ∷ busy ∷ []) server_engine).1.sequence_number ≡ 2
unfolding run run_once require_descriptor forward_tun forward_udp maintain send_packet protect
    transmit send encode header_pack to_bytes cipher_encrypt encrypt nonce int_to_bytes
    authenticated_header receive_udp_packet received receive decode header_unpack from_bytes
    handle_packet open_packet is_replay distance cipher_decrypt decrypt decrypted authenticated
    mark_authenticated advance deliver write require_open
run-busy = refl
