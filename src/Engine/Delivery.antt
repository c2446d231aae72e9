-- ===== src/Engine/Delivery.antt =====
-- A packet read from the TUN device of one end is written to that of the other.
use matf_master_vpn.Prelude.{
  ℕ, zero, suc, ◌≤◌, ◌≡◌, refl, sym, ap, ◌∙◌, true, false, ◌||◌, some, List, [], ◌∷◌, Result, ok,
  err, arith, Result-cases, Bool-cases, inl, inr, length, take, ltb,
}
use matf_master_vpn.Prelude.Int.{ℤ, pos, ◌==ℤ◌, ==ℤ_refl}
use matf_master_vpn.Prelude.Equality.{pair_eq, string_eq, nat_eq}
use matf_master_vpn.Bytes.{Bytes}
use matf_master_vpn.Primitives.{Primitives, AeadLaws}
use matf_master_vpn.Protocol.{Packet, data_message, keepalive, same_type, encode}
use matf_master_vpn.Protocol.Codec.{decode-encode, encode-length}
use matf_master_vpn.Replay.{is_replay, mark_authenticated}
use matf_master_vpn.Crypto.{Cipher, EndpointRole, cipher_encrypt, cipher_decrypt}
use matf_master_vpn.Crypto.Delivery.{peer}
use matf_master_vpn.Crypto.Sessions.{IsKeyed, cipher_encrypt-fields, cipher_decrypt-encrypt}
use matf_master_vpn.Transport.{Address, send, receive}
use matf_master_vpn.Tun.{write, require_open}
use matf_master_vpn.Engine.{TunnelEngine, max_sequence_number}
use matf_master_vpn.Engine.Steps.{
  transmit, protect, send_packet, deliver, authenticated, decrypted, open_packet, handle_packet,
  received, receive_udp_packet, same_address,
}
use matf_master_vpn.Engine.Invariant.{mark_fresh}
use matf_master_vpn.Engine.Sound.{outgoing, send-sent}

same_address_refl : (a : Address) → same_address a a ≡ true
same_address_refl a = ((pair_eq {A = Prim.Native.String.String} {B = ℕ}).beq_iff a a).1 refl

module _ (c : Primitives) where
  -- What a call of `_send_packet` that succeeds has sent.
  record HasSent (x : Cipher) (p : Packet) (e f : TunnelEngine) : Type 0 where
    secured : Packet
    contents : Bytes
    encryption : (cipher_encrypt c x p).0 ≡ ok secured
    encoding : encode secured ≡ ok contents
    sent :
        f.transport.sent
        ≡ record { contents = contents; address = e.remote_address } ∷ e.transport.sent

  transmitted :
      (r : Result Packet) (e : TunnelEngine)
      → (transmit r e).0 ≡ ok tt
      → (q : Packet) × (b : Bytes) × (r ≡ ok q)
        × (encode q ≡ ok b)
        × ((transmit r e).1.transport.sent
            ≡ record { contents = b; address = e.remote_address } ∷ e.transport.sent)
  unfolding transmit
  transmitted (err f) e done = absurd (ground arith)
  transmitted (ok q) e done = elim (Result-cases (send e.transport q e.remote_address)) [
    | inr (f, failed) ↦ absurd (ground arith)
    | inl (t, went) ↦
        let (b, encoded, t_is) = send-sent e.transport q e.remote_address went in
        (q, b, refl, encoded, rw (went, transmit, t_is) refl)
  ]

  send_packet-HasSent :
      (x : Cipher) (payload : Bytes) (e : TunnelEngine)
      → e.cipher ≡ some x
      → (send_packet c data_message payload e).0 ≡ ok tt
      → HasSent x (outgoing data_message payload e) e (send_packet c data_message payload e).1
  unfolding send_packet protect
  send_packet-HasSent x payload e keyed done =
      let p = outgoing data_message payload e in
      let sealed = cipher_encrypt c x p in
      let protection : protect c e.cipher p ≡ (sealed.0, some sealed.1) =
        ap (λ y. protect c y p) keyed in
      elim (Bool-cases (ltb max_sequence_number e.sequence_number)) [
        | inl spent ↦ absurd (ground arith)
        | inr left ↦
            let (q, b, q_is, encoded, sent) =
              transmitted sealed.0 (record e { cipher = some sealed.1 })
                (rw (left, protection) at done) in
            rw (left, protection)
              (record {
                secured = q;
                contents = b;
                encryption = q_is;
                encoding = encoded;
                sent = sent;
              })
      ]

-- The receiving end can take the packet: its window does not refuse the number, its device is open,
-- and the kernel takes the payload whole.
pub record IsReady (e : TunnelEngine) (number : ℕ) (payload : Bytes) : Type 0 where
  pub fresh : is_replay e.replay_window (pos number) ≡ false
  pub descriptor : ℕ
  pub is_open : e.tun_device.descriptor ≡ some descriptor
  pub takes : e.tun_device.takes payload ≡ some (length payload)

deliver-data :
    (p : Packet) (e : TunnelEngine) (descriptor : ℕ)
    → p.message_type ≡ data_message
    → e.tun_device.descriptor ≡ some descriptor
    → e.tun_device.takes p.payload ≡ some (length p.payload)
    → ((deliver p e).0 ≡ ok true)
      × ((deliver p e).1.tun_device.written ≡ p.payload ∷ e.tun_device.written)
unfolding deliver write require_open
deliver-data p e descriptor kind is_open takes = ground arith

authenticated-data :
    (p : Packet) (now : ℕ) (e : TunnelEngine) (n : ℕ)
    → p.message_type ≡ data_message
    → p.sequence_number ≡ pos n
    → IsReady e n p.payload
    → ((authenticated p now e).0 ≡ ok true)
      × ((authenticated p now e).1.tun_device.written ≡ p.payload ∷ e.tun_device.written)
unfolding authenticated
authenticated-data p now e n kind number r =
    let (v, marked) = mark_fresh e.replay_window n r.fresh in
    let marks : mark_authenticated e.replay_window p.sequence_number ≡ ok v =
      ap (mark_authenticated e.replay_window) number ∙ marked in
    rw (marks, authenticated)
      (deliver-data p (record e { replay_window = v; last_authenticated_receive = now })
        r.descriptor kind r.is_open r.takes)

take-all {ℓ} : {A : Type ℓ} (n : ℕ) (xs : List A) → length xs ≤ n → take n xs ≡ xs
take-all zero [] h = refl
take-all zero (x ∷ xs) h = absurd (omega arith)
take-all (suc n) [] h = refl
take-all (suc n) (x ∷ xs) h = ap (◌∷◌ x) (take-all n xs (omega arith))

receive-encoded :
    (p : Packet) (b : Bytes) (a : Address)
    → encode p ≡ ok b
    → receive (some (record { contents = b; address = a })) ≡ ok (p, a)
unfolding receive
receive-encoded p b a encoded =
    let whole = take-all 65507 b (encode-length p encoded) in rw (whole, decode-encode p encoded)

module _ (c : Primitives) where
  -- A secured data packet that arrives from the peer is opened and written.
  received-data :
      (y : Cipher) (q p : Packet) (now : ℕ) (e : TunnelEngine) (n : ℕ)
      → e.cipher ≡ some y
      → q.message_type ≡ data_message
      → q.session_id ≡ e.session_id
      → q.sequence_number ≡ pos n
      → (cipher_decrypt c y q).0 ≡ ok p
      → p.message_type ≡ data_message
      → p.sequence_number ≡ pos n
      → IsReady e n p.payload
      → ((received c (ok (q, e.remote_address)) now e).0 ≡ ok true)
        × ((received c (ok (q, e.remote_address)) now e).1.tun_device.written
            ≡ p.payload ∷ e.tun_device.written)
  unfolding received handle_packet open_packet decrypted
  received-data y q p now e n keyed kind session number opened kind' number' r =
      let address = same_address_refl e.remote_address in
      let in_session : (q.session_id ==ℤ e.session_id) ≡ true =
        ap (λ z. z ==ℤ e.session_id) session ∙ ==ℤ_refl e.session_id in
      let expected : (same_type q.message_type data_message || same_type q.message_type keepalive)
          ≡ true =
        ap (λ t. same_type t data_message || same_type t keepalive) kind in
      let opens : open_packet c e.cipher q now e ≡ open_packet c (some y) q now e =
        ap (λ x. open_packet c x q now e) keyed in
      let fresh : is_replay e.replay_window q.sequence_number ≡ false =
        ap (is_replay e.replay_window) number ∙ r.fresh in
      rw (address, in_session, expected, opens, fresh, opened)
        (authenticated-data p now (record e { cipher = some (cipher_decrypt c y q).1 }) n kind'
          number'
          (record {
            fresh = r.fresh;
            descriptor = r.descriptor;
            is_open = r.is_open;
            takes = r.takes;
          }))

  -- The two ends of a session, with ciphers of the two roles under one secret and one rotation
  -- interval, each with any cache of keys that its rotation may leave. The receiving end is ready: its
  -- window does not refuse the number of the packet, its TUN device is open, and the kernel takes the
  -- payload whole. When the first end's send of a packet succeeds, and the datagram that it sent
  -- arrives at the second end from its peer's address, the second end reports a forwarded packet and
  -- writes the same payload to its device.
  pub end_to_end :
      (laws : AeadLaws c) (secret : Bytes) (session : ℤ) (role : EndpointRole) (rate : ℤ)
      (a b : TunnelEngine) (x y : Cipher) (payload : Bytes) (now : ℕ)
      → a.cipher ≡ some x
      → b.cipher ≡ some y
      → IsKeyed c secret session role rate x
      → IsKeyed c secret session (peer role) rate y
      → b.session_id ≡ a.session_id
      → IsReady b a.sequence_number payload
      → (send_packet c data_message payload a).0 ≡ ok tt
      → (contents : Bytes) × ((send_packet c data_message payload a).1.transport.sent
          ≡ record { contents = contents; address = a.remote_address } ∷ a.transport.sent)
        × ((receive_udp_packet c
              (record { contents = contents; address = b.remote_address })
              now
              b).0
            ≡ ok true)
        × ((receive_udp_packet c
              (record { contents = contents; address = b.remote_address })
              now
              b).1.tun_device.written
            ≡ payload ∷ b.tun_device.written)
  unfolding receive_udp_packet
  end_to_end laws secret session role rate a b x y payload now ax by kx ky same ready done =
      let p = outgoing data_message payload a in
      let went = send_packet-HasSent c x payload a ax done in
      let (kind, in_session, number) = cipher_encrypt-fields c x p went.encryption in
      let opened =
        cipher_decrypt-encrypt c laws secret session role rate x y p kx ky went.encryption in
      let arrival = receive-encoded went.secured went.contents b.remote_address went.encoding in
      let result =
        received-data y went.secured p now b a.sequence_number by kind (in_session ∙ sym same)
          number opened refl refl ready in
      (went.contents, went.sent, rw arrival result.0, rw arrival result.1)
