-- ===== src/Tests/HandshakeTests.antt =====
-- A handshake of two ends with the toy primitives.
use matf_master_vpn.Prelude.{
  List, Option, ◌⊎◌, is_os_error, ◌≡◌, refl, none, some, [], ◌∷◌, Error, Result, ok, err, true,
  arith, ◌≤◌,
}
use matf_master_vpn.Prelude.Int.{ℤ, pos}
use matf_master_vpn.Bytes.{Bytes, to_bytes}
use matf_master_vpn.Protocol.{Packet, client_hello, encode, header_pack}
use matf_master_vpn.Crypto.{
  Cipher, fixed, client, server, int_to_bytes, create_cipher, from_preshared_key, by_role,
  packet_cipher,
}
use matf_master_vpn.Crypto.Sessions.{IsKeyed}
use matf_master_vpn.Handshake.Sessions.{handshake_ciphers}
use matf_master_vpn.Handshake.Survival.{run_server_handshake-Survives}
use matf_master_vpn.KeyAgreement.{derive_shared_secret}
use matf_master_vpn.Transport.{Address, Datagram, UdpTransport}
use matf_master_vpn.Handshake.{
  Draw, ClientHandshakeState, create_client_hello, accept_client_hello, finish_client_handshake,
  answer_hello, validate_hello, hello_tag, check_tag, authentication_tag, mixed_secrets,
  session_key, derive_session_secret, body_of, tag_of,
}
use matf_master_vpn.Handshake.Messages.{IsDraw}
use matf_master_vpn.Handshake.Agreement.{handshake_agreement}
use matf_master_vpn.Handshake.Authenticity.{IsServerAnswer, finish_client_handshake-IsServerAnswer}
use matf_master_vpn.Handshake.Attempts.{client_attempts-first_answer, client_answer, having_sent}
use matf_master_vpn.Handshake.Rounds.{client_attempts, run_server_handshake, session_cipher}
use matf_master_vpn.Tests.Toy.{toy, toy_agreement, toy_hkdf, zeros}

-- The value of a call that does not raise.
abbrev pub value_of {ℓ} : {A : Type ℓ} → A → Result A → A
value_of default (ok a) = a
value_of default (err e) = default

abbrev pub client_key : Bytes
client_key = 1 ∷ zeros 31

abbrev pub server_key : Bytes
server_key = 2 ∷ zeros 31

abbrev pub client_draw : Draw
client_draw = record { private_key = 3 ∷ zeros 31; random = 4 ∷ zeros 31 }

abbrev pub server_draw : Draw
server_draw = record { private_key = 5 ∷ zeros 31; random = 6 ∷ zeros 31 }

pub client_draw-IsDraw : IsDraw client_draw
client_draw-IsDraw = record { private_size = refl; random_drawn = refl }

pub server_draw-IsDraw : IsDraw server_draw
server_draw-IsDraw = record { private_size = refl; random_drawn = refl }

abbrev pub nothing : Packet
nothing = record {
  message_type = client_hello;
  session_id = pos 0;
  sequence_number = pos 0;
  payload = [];
}

abbrev pub made : Packet × ClientHandshakeState
made =
    value_of
      (
        nothing,
        record {
          session_id = pos 0;
          static_private_key = [];
          peer_static_public_key = [];
          ephemeral_private_key = [];
          client_hello_payload = [];
        },
      )
      (create_client_hello toy 258 client_draw client_key server_key)

pub create-made : create_client_hello toy 258 client_draw client_key server_key ≡ ok made
unfolding create_client_hello derive_shared_secret hello_tag int_to_bytes to_bytes
    authentication_tag
create-made = refl

abbrev pub answered : Packet × Bytes
answered = value_of (nothing, []) (accept_client_hello toy server_draw made.0 server_key client_key)

pub accept-answered : accept_client_hello toy server_draw made.0 server_key client_key ≡ ok answered
unfolding accept_client_hello answer_hello create_client_hello derive_shared_secret hello_tag
    int_to_bytes to_bytes authentication_tag validate_hello check_tag body_of tag_of
    derive_session_secret mixed_secrets session_key
accept-answered = refl

-- The shared secret is the sum of the key bytes.
answered_key : answered.1 ≡ 8 ∷ zeros 31
unfolding accept_client_hello answer_hello create_client_hello derive_shared_secret hello_tag
    int_to_bytes to_bytes authentication_tag validate_hello check_tag body_of tag_of
    derive_session_secret mixed_secrets session_key
answered_key = refl

handshake_agreement_example : finish_client_handshake toy made.1 answered.0 ≡ ok answered.1
handshake_agreement_example =
    handshake_agreement toy toy_agreement 258 client_draw server_draw client_key server_key
      client_draw-IsDraw server_draw-IsDraw create-made accept-answered

finish_client_handshake-IsServerAnswer_example : IsServerAnswer toy made.1 answered.0
finish_client_handshake-IsServerAnswer_example =
    finish_client_handshake-IsServerAnswer toy made.1 answered.0 (
      handshake_agreement toy toy_agreement 258 client_draw server_draw client_key server_key
        client_draw-IsDraw server_draw-IsDraw create-made accept-answered)

abbrev pub socket : UdpTransport
socket = record { sent = []; accepts = λ d. true }

abbrev pub far : Address
far = ("10.0.0.1", 4001)

abbrev hello_wire : Bytes
hello_wire = value_of [] (encode made.0)

encode-hello_wire : encode made.0 ≡ ok hello_wire
unfolding encode header_pack create_client_hello derive_shared_secret hello_tag int_to_bytes
    to_bytes authentication_tag
encode-hello_wire = refl

client_attempts-first_answer_example :
    (client_attempts toy made.0 made.1 far 3 (none ∷ []) socket ≡ (
      (client_answer toy made.0 made.1 far 3 (none ∷ [])).0,
      having_sent
          (client_answer toy made.0 made.1 far 3 (none ∷ [])).1
          (record { contents = hello_wire; address = far })
          socket,
    ))
    × ((client_answer toy made.0 made.1 far 3 (none ∷ [])).1 ≤ 3)
client_attempts-first_answer_example =
    client_attempts-first_answer toy made.0 made.1 far 3 (none ∷ []) socket encode-hello_wire refl

abbrev no_cipher : ℤ × Cipher
no_cipher = (pos 0, fixed (record { send_key = []; receive_key = [] }))

abbrev pub client_end : ℤ × Cipher
client_end = value_of no_cipher (session_cipher toy made.1.session_id client (pos 0) answered.1)

abbrev pub server_end : ℤ × Cipher
server_end = value_of no_cipher (session_cipher toy made.0.session_id server (pos 0) answered.1)

pub client-client_end :
    session_cipher toy made.1.session_id client (pos 0) answered.1 ≡ ok client_end
unfolding session_cipher create_cipher from_preshared_key by_role packet_cipher accept_client_hello
    answer_hello create_client_hello derive_shared_secret hello_tag int_to_bytes to_bytes
    authentication_tag validate_hello check_tag body_of tag_of derive_session_secret mixed_secrets
    session_key
client-client_end = refl

pub server-server_end :
    session_cipher toy made.0.session_id server (pos 0) answered.1 ≡ ok server_end
unfolding session_cipher create_cipher from_preshared_key by_role packet_cipher accept_client_hello
    answer_hello create_client_hello derive_shared_secret hello_tag int_to_bytes to_bytes
    authentication_tag validate_hello check_tag body_of tag_of derive_session_secret mixed_secrets
    session_key
server-server_end = refl

handshake_ciphers_example :
    (client_end.0 ≡ server_end.0)
    × IsKeyed toy answered.1 client_end.0 client (pos 0) client_end.1
    × IsKeyed toy answered.1 client_end.0 server (pos 0) server_end.1
handshake_ciphers_example =
    handshake_ciphers toy toy_agreement 258 client_draw server_draw client_key server_key (pos 0)
      client_draw-IsDraw server_draw-IsDraw create-made accept-answered
      (handshake_agreement toy toy_agreement 258 client_draw server_draw client_key server_key
        client_draw-IsDraw server_draw-IsDraw create-made accept-answered)
      client-client_end server-server_end

abbrev strays : List (Option Datagram)
strays = none ∷ some (record { contents = 1 ∷ []; address = far }) ∷ []

-- An instant without a datagram, then one byte from the client's address
run_server_handshake-Survives_example :
    ((i : ℤ) × (cipher : Cipher) × ((run_server_handshake toy
          (λ k. server_draw)
          far
          server_key
          client_key
          (pos 3)
          (pos 0)
          strays
          socket).0
        ≡ ok (i, cipher)))
    ⊎ ((x : Error) × ((run_server_handshake toy
            (λ k. server_draw)
            far
            server_key
            client_key
            (pos 3)
            (pos 0)
            strays
            socket).0
          ≡ err x)
        × (is_os_error x ≡ true))
run_server_handshake-Survives_example =
    run_server_handshake-Survives toy server_key client_key far (λ k. server_draw) toy_agreement
      toy_hkdf 0 (pos 3) strays socket (λ k. server_draw-IsDraw) ((omega arith, tt), tt)
