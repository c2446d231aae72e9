-- ===== src/Handshake/Traffic.antt =====
-- handshake.py and engine.py: the engines that two ends build after a handshake.
use matf_master_vpn.Prelude.{
  ℕ, ◌≡◌, sym, ap, ◌∙◌, false, Option, some, ◌∷◌, ok, arith, inl, inr, ◌⊎◌, length,
}
use matf_master_vpn.Prelude.Int.{ℤ, pos}
use matf_master_vpn.Bytes.{Bytes}
use matf_master_vpn.Primitives.{Primitives, AeadLaws, AgreementLaws}
use matf_master_vpn.Protocol.{Packet, data_message}
use matf_master_vpn.Replay.{new_window, is_replay}
use matf_master_vpn.Crypto.{Cipher, EndpointRole, client, server}
use matf_master_vpn.Crypto.Delivery.{peer}
use matf_master_vpn.Crypto.Sessions.{IsKeyed}
use matf_master_vpn.Transport.{Address, UdpTransport}
use matf_master_vpn.Tun.{TunDevice}
use matf_master_vpn.Engine.{TunnelEngine, new_engine}
use matf_master_vpn.Engine.Steps.{send_packet, receive_udp_packet}
use matf_master_vpn.Engine.Delivery.{IsReady, end_to_end}
use matf_master_vpn.Handshake.{
  Draw, ClientHandshakeState, create_client_hello, accept_client_hello, finish_client_handshake,
}
use matf_master_vpn.Handshake.Messages.{IsDraw}
use matf_master_vpn.Handshake.Rounds.{session_cipher}
use matf_master_vpn.Handshake.Sessions.{handshake_ciphers}

-- A new engine: it has sent nothing, and refuses no number.
pub record IsNew (session : ℤ) (x : Option Cipher) (e : TunnelEngine) : Type 0 where
  pub session_is : e.session_id ≡ session
  pub cipher_is : e.cipher ≡ x
  pub number_is : e.sequence_number ≡ 0
  pub fresh : is_replay e.replay_window (pos 0) ≡ false

pub new_engine-IsNew :
    (tun : TunDevice) (t : UdpTransport) (a : Address) (session : ℤ) (x : Option Cipher)
    (interval timeout : ℤ) (now : ℕ) {e : TunnelEngine}
    → new_engine tun t a session x interval timeout now ≡ ok e
    → IsNew session x e
unfolding new_engine new_window is_replay
new_engine-IsNew tun t a session x interval timeout now {e} made = record {
  session_is = ground arith;
  cipher_is = ground arith;
  number_is = ground arith;
  fresh = ground arith;
}

module _ (c : Primitives) where
  -- Two new engines of one session with the ciphers of opposite roles
  new_end_to_end :
      (laws : AeadLaws c) (secret : Bytes) (session : ℤ) (role : EndpointRole) (rate : ℤ)
      (a b : TunnelEngine) (x y : Cipher) (payload : Bytes) (now descriptor : ℕ)
      → IsKeyed c secret session role rate x
      → IsKeyed c secret session (peer role) rate y
      → IsNew session (some x) a
      → IsNew session (some y) b
      → b.tun_device.descriptor ≡ some descriptor
      → b.tun_device.takes payload ≡ some (length payload)
      → (send_packet c data_message payload a).0 ≡ ok tt
      → (contents : Bytes) × ((send_packet c data_message payload a).1.transport.sent
          ≡ record { contents = contents; address = a.remote_address } ∷ a.transport.sent)
        × ((receive_udp_packet c
              (record { contents = contents; address = b.remote_address })
              now
              b).1.tun_device.written
            ≡ payload ∷ b.tun_device.written)
  new_end_to_end laws secret session role rate a b x y payload now descriptor kx ky na nb is_open
        takes done =
      let ready : IsReady b a.sequence_number payload = record {
        fresh = ap (λ n. is_replay b.replay_window (pos n)) na.number_is ∙ nb.fresh;
        descriptor = descriptor;
        is_open = is_open;
        takes = takes;
      } in
      let (contents, sent, reported, written) =
        end_to_end c laws secret session role rate a b x y payload now na.cipher_is nb.cipher_is kx
          ky (nb.session_is ∙ sym na.session_is) ready done in
      (contents, sent, written)

  -- The first packet after a handshake. Both ends complete the handshake, each with the other's public
  -- key and with one rotation interval, and build their engines with the session id and the cipher that it gave them. Whichever end
  -- sends, when its first packet is sent and arrives at the other, whose device is open and takes it
  -- whole, the other writes the payload to its device.
  pub handshake_traffic :
      (aead : AeadLaws c) (laws : AgreementLaws c) (number : ℕ) (client_draw server_draw : Draw)
      (ka kb : Bytes) (rate : ℤ) {hello response : Packet} {state : ClientHandshakeState}
      {secret own : Bytes} {i j : ℤ} {x y : Cipher} (tun_a tun_b : TunDevice) (ta tb : UdpTransport)
      (to_b to_a : Address) (interval_a timeout_a interval_b timeout_b : ℤ) (since_a since_b : ℕ)
      {ea eb : TunnelEngine} (a b : TunnelEngine) (payload : Bytes) (now descriptor : ℕ)
      → IsDraw client_draw
      → IsDraw server_draw
      → create_client_hello c number client_draw ka (c.x25519_public kb) ≡ ok (hello, state)
      → accept_client_hello c server_draw hello kb (c.x25519_public ka) ≡ ok (response, secret)
      → finish_client_handshake c state response ≡ ok own
      → session_cipher c state.session_id client rate own ≡ ok (i, x)
      → session_cipher c hello.session_id server rate secret ≡ ok (j, y)
      → new_engine tun_a ta to_b i (some x) interval_a timeout_a since_a ≡ ok ea
      → new_engine tun_b tb to_a j (some y) interval_b timeout_b since_b ≡ ok eb
      → ((a ≡ ea) × (b ≡ eb)) ⊎ ((a ≡ eb) × (b ≡ ea))
      → b.tun_device.descriptor ≡ some descriptor
      → b.tun_device.takes payload ≡ some (length payload)
      → (send_packet c data_message payload a).0 ≡ ok tt
      → (contents : Bytes) × ((send_packet c data_message payload a).1.transport.sent
          ≡ record { contents = contents; address = a.remote_address } ∷ a.transport.sent)
        × ((receive_udp_packet c
              (record { contents = contents; address = b.remote_address })
              now
              b).1.tun_device.written
            ≡ payload ∷ b.tun_device.written)
  handshake_traffic aead laws number client_draw server_draw ka kb rate {secret} {i} {x} {y} tun_a
        tun_b ta tb to_b to_a interval_a timeout_a interval_b timeout_b since_a since_b {ea} {eb} a
        b payload now descriptor dx dy created answered finished from_client from_server made_a
        made_b ends is_open takes done =
      let (same, kx, ky) =
        handshake_ciphers c laws number client_draw server_draw ka kb rate dx dy created answered
          finished from_client from_server in
      let na = new_engine-IsNew tun_a ta to_b _ (some x) interval_a timeout_a since_a made_a in
      let nb : IsNew i (some y) eb =
        rw same (new_engine-IsNew tun_b tb to_a _ (some y) interval_b timeout_b since_b made_b) in
      elim ends [
        | inl (a_is, b_is) ↦
            new_end_to_end aead secret i client rate a b x y payload now descriptor kx ky
              (rw a_is na) (rw b_is nb) is_open takes done
        | inr (a_is, b_is) ↦
            new_end_to_end aead secret i server rate a b y x payload now descriptor ky kx
              (rw a_is nb) (rw b_is na) is_open takes done
      ]
