-- ===== src/Tests/ServerTests.antt =====
-- A server with one client, with the toy primitives.
use matf_master_vpn.Prelude.{
  true, ◌≡◌, ◌++◌, refl, false, Option, none, some, List, [], ◌∷◌, Error, ok, err, arith,
}
use matf_master_vpn.Prelude.Int.{pos}
use matf_master_vpn.Bytes.{Bytes, to_bytes, from_bytes}
use matf_master_vpn.OrderedDict.{get, put}
use matf_master_vpn.Protocol.{Packet, data_message, encode, header_pack}
use matf_master_vpn.Replay.{new_window}
use matf_master_vpn.Crypto.{
  cipher_encrypt, encrypt, nonce, authenticated_header, fixed, int_to_bytes, create_cipher,
  from_preshared_key, by_role, packet_cipher,
}
use matf_master_vpn.KeyAgreement.{derive_shared_secret}
use matf_master_vpn.Handshake.{
  accept_client_hello, create_client_hello, answer_hello, validate_hello, hello_tag, check_tag,
  authentication_tag, mixed_secrets, session_key, derive_session_secret, body_of, tag_of,
}
use matf_master_vpn.MultiClient.{
  ClientSession, MultiClientServerEngine, new_server_engine, ipv4_source, ipv4_destination,
  validate_ipv4_packet, assign,
}
use matf_master_vpn.MultiServer.Rounds.{MultiClientServer, Arrivals, server_run}
use matf_master_vpn.MultiServer.Invariant.{IsServing, server_run-IsServing}
use matf_master_vpn.MultiClient.Routing.{IsRouted, handle_tun_packet-IsRouted}
use matf_master_vpn.Transport.{send}
use matf_master_vpn.MultiClient.Steps.{
  handle_tun_packet, link, route_to, route, forward_to, send_to, update, add_session,
  replace_session, handle_udp_packet,
}
use matf_master_vpn.MultiClient.Tables.{IsTable, IsTable-new_server_engine, IsTable-add_session}
use matf_master_vpn.MultiClient.Replacement.{Outcome, replace_session_outcomes}
use matf_master_vpn.MultiClient.Invariant.{add, replace, from_udp, perform_all, IsTable-perform_all}
use matf_master_vpn.MultiClient.Receipt.{WritesOne, IsFromClient, handle_udp_packet-IsFromClient}
use matf_master_vpn.MultiServer.{
  ClientIdentity, AcceptedSession, ClientRegistry, new_registry, accept, fingerprinted, recall,
  identified, identify, admit, new_session, fingerprint_of,
}
use matf_master_vpn.MultiServer.Cache.{Call, accept_all}
use matf_master_vpn.MultiServer.Registry.{accept-again, as_known}
use matf_master_vpn.MultiServer.Authenticity.{IsAdmitted, accept-IsAdmitted}
use matf_master_vpn.Tests.Toy.{toy, zeros}
use matf_master_vpn.Tests.CryptoTests.{server_cipher}
use matf_master_vpn.Tests.HandshakeTests.{
  made, value_of, client_key, server_key, server_draw, nothing, far,
}
use matf_master_vpn.Tests.EngineTests.{device, socket, window, client_address}

abbrev pub session : ClientSession
session = record {
  remote_address = client_address;
  tunnel_address = 168361986;
  session_id = pos 7;
  cipher = fixed server_cipher;
  send_sequence = 0;
  replay_window = window;
}

abbrev empty : MultiClientServerEngine
empty = new_server_engine device socket (λ r. session)

-- An IPv4 packet from 10.9.0.2 to 10.9.0.1.
abbrev ip_packet : Bytes
ip_packet = 69 ∷ (zeros 11 ++ (10 ∷ 9 ∷ 0 ∷ 2 ∷ 10 ∷ 9 ∷ 0 ∷ 1 ∷ []))

ip_source : ipv4_source ip_packet ≡ ok 168361986
unfolding ipv4_source validate_ipv4_packet from_bytes
ip_source = refl

ip_short : ipv4_source (69 ∷ []) ≡ err Error.value_error
unfolding ipv4_source validate_ipv4_packet
ip_short = refl

abbrev arrival : Packet
arrival = record {
  message_type = data_message;
  session_id = pos 7;
  sequence_number = pos 0;
  payload = ip_packet ++ zeros 16;
}

IsTable-perform_all_example :
    IsTable (perform_all toy (add 0 ∷ from_udp arrival client_address ∷ replace 1 ∷ []) empty)
IsTable-perform_all_example =
    IsTable-perform_all toy (add 0 ∷ from_udp arrival client_address ∷ replace 1 ∷ []) empty
      (IsTable-new_server_engine device socket (λ r. session))

replace_session_outcomes_example : Outcome 0 empty (replace_session 0 empty)
replace_session_outcomes_example =
    replace_session_outcomes 0 empty (IsTable-new_server_engine device socket (λ r. session))

handle_udp_packet-IsFromClient_example :
    WritesOne
      (add_session 0 empty).1
      (handle_udp_packet toy arrival client_address (add_session 0 empty).1).1
      (IsFromClient toy (add_session 0 empty).1 arrival client_address)
handle_udp_packet-IsFromClient_example =
    handle_udp_packet-IsFromClient toy arrival client_address (add_session 0 empty).1

abbrev identity : ClientIdentity
identity = record { name = "laptop"; tunnel_address = 168361986; public_key = client_key }

abbrev registry : ClientRegistry
registry = record {
  server_private_key = server_key;
  clients = identity ∷ [];
  packets_per_key = pos 0;
  accepted_hellos = [];
}

registry_made : new_registry server_key (identity ∷ []) (pos 0) ≡ ok registry
unfolding new_registry
registry_made = refl

names_repeated : new_registry server_key (identity ∷ identity ∷ []) (pos 0) ≡ err Error.value_error
unfolding new_registry
names_repeated = refl

abbrev welcome : AcceptedSession × Option ClientSession
welcome = elim (value_of none (accept toy (λ i. server_draw) 0 made.0 far registry).0) [
  | none ↦ (record { response = nothing; session = 0; identity = identity; is_new = false }, none)
  | some w ↦ w
]

abbrev welcome_session : ClientSession
welcome_session = elim welcome.1 [ none ↦ session | some x ↦ x ]

accept-welcome :
    (accept toy (λ i. server_draw) 0 made.0 far registry).0
    ≡ ok (some (welcome.0, some welcome_session))
unfolding accept fingerprinted recall identified identify admit new_session fingerprint_of get
    encode header_pack accept_client_hello answer_hello create_client_hello derive_shared_secret
    hello_tag int_to_bytes to_bytes authentication_tag validate_hello check_tag body_of tag_of
    derive_session_secret mixed_secrets session_key create_cipher from_preshared_key by_role
    packet_cipher new_window
accept-welcome = refl

accept-IsAdmitted_example :
    IsAdmitted toy (λ i. server_draw) made.0 far registry welcome.0 welcome_session
accept-IsAdmitted_example =
    accept-IsAdmitted toy (λ i. server_draw) made.0 0 far registry accept-welcome

-- The packets between the two: the response itself, and the hello from elsewhere.
abbrev calls_between : List Call
calls_between =
    record {
      draws = λ i. server_draw;
      fresh = 1;
      packet = welcome.0.response;
      remote_address = far;
    }
    ∷ record {
      draws = λ i. server_draw;
      fresh = 1;
      packet = made.0;
      remote_address = client_address;
    }
    ∷ []

accept-again_example :
    (accept toy
      (λ i. server_draw)
      2
      made.0
      client_address
      (accept_all toy calls_between (accept toy (λ i. server_draw) 0 made.0 far registry).1)).0
    ≡ ok (some (as_known welcome.0, none))
accept-again_example =
    accept-again toy (λ i. server_draw) (λ i. server_draw) 0 2 made.0 far client_address registry
      calls_between accept-welcome (omega arith)

abbrev serving : MultiClientServer
serving = record { registry = registry; engine = empty; next_ref = 0 }

serving-IsServing : IsServing serving
unfolding get
serving-IsServing = record {
  table = IsTable-new_server_engine device socket (λ r. session);
  below = λ k r h. cc h;
  bounded = omega arith;
}

-- A hello of the client, then a datagram too short beside a packet for nobody.
abbrev rounds : List Arrivals
rounds =
    record {
      draws = λ i. server_draw;
      tun_packet = none;
      datagram = elim (encode made.0) [
        | ok contents ↦ some (record { contents = contents; address = client_address })
        | err e ↦ none
      ];
    }
    ∷ record {
      draws = λ i. server_draw;
      tun_packet = some ip_packet;
      datagram = some (record { contents = 1 ∷ []; address = client_address });
    }
    ∷ []

server_run-IsServing_example : IsServing (server_run toy rounds serving).1
server_run-IsServing_example = server_run-IsServing toy rounds serving serving-IsServing

-- An IPv4 packet from 10.9.0.1 to 10.9.0.2.
abbrev reply : Bytes
reply = 69 ∷ (zeros 11 ++ (10 ∷ 9 ∷ 0 ∷ 1 ∷ 10 ∷ 9 ∷ 0 ∷ 2 ∷ []))

reply_forwarded : (handle_tun_packet toy reply (add_session 0 empty).1).0 ≡ ok true
unfolding handle_tun_packet add_session link route_to route forward_to send_to update assign
    ipv4_destination validate_ipv4_packet from_bytes get put cipher_encrypt encrypt nonce
    authenticated_header int_to_bytes to_bytes header_pack send encode
reply_forwarded = refl

handle_tun_packet-IsRouted_example :
    IsRouted toy
      (add_session 0 empty).1
      (handle_tun_packet toy reply (add_session 0 empty).1).1
      reply
handle_tun_packet-IsRouted_example =
    handle_tun_packet-IsRouted toy reply (add_session 0 empty).1
      (IsTable-add_session 0 empty (IsTable-new_server_engine device socket (λ r. session)))
      reply_forwarded
