-- ===== src/Handshake/Rounds.antt =====
-- handshake.py: the loops over attempts of the two ends. What the socket delivers in each attempt is
-- an argument, `none` for a timeout; an attempt past the end of the list is a timeout too.
use matf_master_vpn.Prelude.{
  ℕ, zero, suc, not, Option, none, some, List, [], ◌∷◌, Error, Result, ok, err, is_value_error,
  if◌then◌else◌, ◌>>=◌,
}
use matf_master_vpn.Prelude.Int.{ℤ, pos_part}
use matf_master_vpn.Prelude.Exec.{Exec}
use matf_master_vpn.Bytes.{Bytes}
use matf_master_vpn.Primitives.{Primitives}
use matf_master_vpn.Protocol.{Packet}
use matf_master_vpn.Crypto.{Cipher, EndpointRole, client, server, create_cipher}
use matf_master_vpn.Transport.{Address, Datagram, UdpTransport, send, receive}
use matf_master_vpn.Engine.Steps.{same_address}
use matf_master_vpn.Handshake.{
  Draw, ClientHandshakeState, create_client_hello, accept_client_hello, finish_client_handshake,
}

abbrev pub default_handshake_attempts : ℕ
default_handshake_attempts = 3

abbrev pub first_arrival : List (Option Datagram) → Option Datagram
first_arrival [] = none
first_arrival (arrival ∷ arrivals) = arrival

abbrev pub later_arrivals : List (Option Datagram) → List (Option Datagram)
later_arrivals [] = []
later_arrivals (arrival ∷ arrivals) = arrivals

-- `except (socket.timeout, InvalidPacketError): continue`
unfoldable pub or_retry_receive {ℓ} : {A : Type ℓ} → Result A → Result (Option A)
or_retry_receive (ok a) = ok (some a)
or_retry_receive (err Error.timeout_error) = ok none
or_retry_receive (err Error.invalid_packet) = ok none
or_retry_receive (err e) = err e

-- `except ValueError: continue`
unfoldable pub or_retry_value {ℓ} : {A : Type ℓ} → Result A → Result (Option A)
or_retry_value (ok a) = ok (some a)
or_retry_value (err e) = if is_value_error e then ok none else err e

-- A packet of another sender is passed over.
unfoldable pub from_remote {ℓ} :
    {A : Type ℓ} → Address → (Packet → Result A) → Option (Packet × Address) → Result (Option A)
from_remote remote_address handle none = ok none
from_remote remote_address handle (some (packet, sender)) =
    if not (same_address sender remote_address) then ok none else or_retry_value (handle packet)

-- One attempt of either loop: the result of `handle`, or `none` where the loop continues.
unfoldable pub attempt {ℓ} :
    {A : Type ℓ} → Address → (Packet → Result A) → Option Datagram → Result (Option A)
attempt remote_address handle arrival =
    or_retry_receive (receive arrival) >>= from_remote remote_address handle

-- The end of an attempt, with the rest of the loop.
unfoldable pub or_continue {ℓ} :
    {A : Type ℓ}
    → Result (Option A)
    → UdpTransport
    → Result A × UdpTransport
    → Result A × UdpTransport
or_continue (ok none) transport rest = rest
or_continue (ok (some a)) transport rest = (ok a, transport)
or_continue (err e) transport rest = (err e, transport)

module _ (c : Primitives) where
  -- The loop of `run_client_handshake`
  unfoldable pub client_attempts :
      Packet → ClientHandshakeState → Address → ℕ → List (Option Datagram) → Exec UdpTransport Bytes
  client_attempts hello state remote_address zero arrivals transport =
      (err Error.timeout_error, transport)
  client_attempts hello state remote_address (suc attempts) arrivals transport =
      elim (send transport hello remote_address) [
        | err e ↦ (err e, transport)
        | ok transport' ↦
            or_continue
              (attempt remote_address (finish_client_handshake c state) (first_arrival arrivals))
              transport'
              (client_attempts hello state remote_address attempts (later_arrivals arrivals)
                transport')
      ]

  -- `create_cipher` of either end, beside the session id
  unfoldable pub session_cipher : ℤ → EndpointRole → ℤ → Bytes → Result (ℤ × Cipher)
  session_cipher session_id role packets_per_key session_secret = do
    cipher ← create_cipher c session_secret session_id role packets_per_key
    ok (session_id, cipher)

  unfoldable pub client_session :
      ClientHandshakeState → ℤ → Result Bytes × UdpTransport → Result (ℤ × Cipher) × UdpTransport
  client_session state packets_per_key (secret, transport) =
      (secret >>= session_cipher state.session_id client packets_per_key, transport)

  unfoldable pub client_handshake :
      Address
      → ℤ
      → ℤ
      → List (Option Datagram)
      → UdpTransport
      → Result (Packet × ClientHandshakeState)
      → Result (ℤ × Cipher) × UdpTransport
  client_handshake remote_address attempts packets_per_key arrivals transport (err e) =
      (err e, transport)
  client_handshake remote_address attempts packets_per_key arrivals transport (ok (hello, state)) =
      client_session state packets_per_key
        (client_attempts hello state remote_address (pos_part attempts) arrivals transport)

  -- run_client_handshake; `range` of a negative number is empty
  unfoldable pub run_client_handshake :
      ℕ
      → Draw
      → Address
      → Bytes
      → Bytes
      → ℤ
      → ℤ
      → List (Option Datagram)
      → Exec UdpTransport (ℤ × Cipher)
  run_client_handshake session_id draw remote_address static_private_key peer_static_public_key
        attempts packets_per_key arrivals transport =
      client_handshake remote_address attempts packets_per_key arrivals transport
        (create_client_hello c session_id draw static_private_key peer_static_public_key)

  -- `accept_client_hello` of a received hello, beside the hello
  unfoldable pub accept_received :
      Draw → Bytes → Bytes → Packet → Result (Packet × (Packet × Bytes))
  accept_received draw static_private_key peer_static_public_key hello = do
    answer ← accept_client_hello c draw hello static_private_key peer_static_public_key
    ok (hello, answer)

  -- The loop of `run_server_handshake` up to the first hello that is accepted. `draws k` is what an
  -- attempt with `k` more to come draws, if it draws.
  unfoldable pub server_attempts :
      (ℕ → Draw)
      → Bytes
      → Bytes
      → Address
      → ℕ
      → List (Option Datagram)
      → Exec UdpTransport (Packet × (Packet × Bytes))
  server_attempts draws static_private_key peer_static_public_key remote_address zero arrivals
        transport =
      (err Error.timeout_error, transport)
  server_attempts draws static_private_key peer_static_public_key remote_address (suc attempts)
        arrivals transport =
      or_continue
        (attempt remote_address
          (accept_received (draws attempts) static_private_key peer_static_public_key)
          (first_arrival arrivals))
        transport
        (server_attempts draws static_private_key peer_static_public_key remote_address attempts
          (later_arrivals arrivals) transport)

  -- The answer is sent, and the session's cipher created.
  unfoldable pub server_session :
      Address
      → ℤ
      → Result (Packet × (Packet × Bytes)) × UdpTransport
      → Result (ℤ × Cipher) × UdpTransport
  server_session remote_address packets_per_key (err e, transport) = (err e, transport)
  server_session remote_address packets_per_key (ok (hello, (response, secret)), transport) =
      elim (send transport response remote_address) [
        | err e ↦ (err e, transport)
        | ok transport' ↦
            (session_cipher hello.session_id server packets_per_key secret, transport')
      ]

  -- run_server_handshake
  unfoldable pub run_server_handshake :
      (ℕ → Draw)
      → Address
      → Bytes
      → Bytes
      → ℤ
      → ℤ
      → List (Option Datagram)
      → Exec UdpTransport (ℤ × Cipher)
  run_server_handshake draws remote_address static_private_key peer_static_public_key attempts
        packets_per_key arrivals transport =
      server_session remote_address packets_per_key (
        server_attempts draws static_private_key peer_static_public_key remote_address
          (pos_part attempts) arrivals transport)
