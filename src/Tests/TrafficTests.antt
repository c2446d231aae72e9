-- ===== src/Tests/TrafficTests.antt =====
-- The first packet after the toy handshake, from the client to the server.
use matf_master_vpn.Prelude.{◌≡◌, refl, some, [], ◌∷◌, ok, inl}
use matf_master_vpn.Prelude.Int.{pos, negsuc}
use matf_master_vpn.Bytes.{Bytes, to_bytes}
use matf_master_vpn.Protocol.{data_message, encode, header_pack}
use matf_master_vpn.Replay.{new_window}
use matf_master_vpn.Crypto.{
  cipher_encrypt, encrypt, nonce, int_to_bytes, authenticated_header, create_cipher,
  from_preshared_key, by_role, packet_cipher,
}
use matf_master_vpn.KeyAgreement.{derive_shared_secret}
use matf_master_vpn.Transport.{send}
use matf_master_vpn.Engine.{TunnelEngine, new_engine}
use matf_master_vpn.Engine.Steps.{send_packet, protect, transmit, receive_udp_packet}
use matf_master_vpn.Handshake.{
  create_client_hello, accept_client_hello, answer_hello, validate_hello, hello_tag, check_tag,
  authentication_tag, mixed_secrets, session_key, derive_session_secret, body_of, tag_of,
}
use matf_master_vpn.Handshake.Rounds.{session_cipher}
use matf_master_vpn.Handshake.Agreement.{handshake_agreement}
use matf_master_vpn.Handshake.Traffic.{handshake_traffic}
use matf_master_vpn.Tests.Toy.{toy, toy_aead, toy_agreement}
use matf_master_vpn.Tests.EngineTests.{device, socket, client_address}
use matf_master_vpn.Tests.HandshakeTests.{
  client_draw, server_draw, client_draw-IsDraw, server_draw-IsDraw, client_key, server_key,
  create-made, accept-answered, client-client_end, server-server_end, client_end, server_end, far,
}

abbrev client_engine : TunnelEngine
client_engine = record {
  tun_device = device;
  transport = socket;
  remote_address = far;
  session_id = client_end.0;
  sequence_number = 0;
  cipher = some client_end.1;
  replay_window = record { size = 64; highest_sequence = negsuc 0; bitmap = 0 };
  keepalive_interval = 0;
  liveness_timeout = 0;
  last_authenticated_receive = 7;
  next_keepalive = 7;
}

abbrev server_engine : TunnelEngine
server_engine = record client_engine {
  remote_address = client_address;
  session_id = server_end.0;
  cipher = some server_end.1;
  last_authenticated_receive = 9;
  next_keepalive = 9;
}

client-built :
    new_engine device socket far client_end.0 (some client_end.1) (pos 0) (pos 0) 7
    ≡ ok client_engine
unfolding new_engine new_window mathlib.Core.Bool.xor session_cipher create_cipher
    from_preshared_key by_role packet_cipher accept_client_hello answer_hello create_client_hello
    derive_shared_secret hello_tag int_to_bytes to_bytes authentication_tag validate_hello check_tag
    body_of tag_of derive_session_secret mixed_secrets session_key
client-built = refl

server-built :
    new_engine device socket client_address server_end.0 (some server_end.1) (pos 0) (pos 0) 9
    ≡ ok server_engine
unfolding new_engine new_window mathlib.Core.Bool.xor session_cipher create_cipher
    from_preshared_key by_role packet_cipher accept_client_hello answer_hello create_client_hello
    derive_shared_secret hello_tag int_to_bytes to_bytes authentication_tag validate_hello check_tag
    body_of tag_of derive_session_secret mixed_secrets session_key
server-built = refl

abbrev greeting : Bytes
greeting = 69 ∷ 1 ∷ []

first-sent : (send_packet toy data_message greeting client_engine).0 ≡ ok tt
unfolding send_packet protect transmit send encode header_pack to_bytes cipher_encrypt encrypt nonce
    int_to_bytes authenticated_header session_cipher create_cipher from_preshared_key by_role
    packet_cipher accept_client_hello answer_hello create_client_hello derive_shared_secret
    hello_tag authentication_tag validate_hello check_tag body_of tag_of derive_session_secret
    mixed_secrets session_key
first-sent = refl

handshake_traffic_example :
    (contents : Bytes) × ((send_packet toy data_message greeting client_engine).1.transport.sent
      ≡ record { contents = contents; address = far } ∷ [])
    × ((receive_udp_packet toy
          (record { contents = contents; address = client_address })
          120
          server_engine).1.tun_device.written
        ≡ greeting ∷ [])
handshake_traffic_example =
    handshake_traffic toy toy_aead toy_agreement 258 client_draw server_draw client_key server_key
      (pos 0) device device socket socket far client_address (pos 0) (pos 0) (pos 0) (pos 0) 7 9
      client_engine server_engine greeting 120 5 client_draw-IsDraw server_draw-IsDraw create-made
      accept-answered
      (handshake_agreement toy toy_agreement 258 client_draw server_draw client_key server_key
        client_draw-IsDraw server_draw-IsDraw create-made accept-answered)
      client-client_end server-server_end client-built server-built (inl (refl, refl)) refl refl
      first-sent
