-- ===== src/Engine/Receipt.antt =====
-- What `_receive_udp_packet` writes to the TUN device, and when.
use mathlib.Core.Path.{subst}
use matf_master_vpn.Prelude.{
  ℕ, ◌≡◌, refl, ap, ◌∙◌, true, false, ◌||◌, some, ◌∷◌, Error, Result, ok, err, arith, Result-cases,
  Bool-cases, inl, inr, ◌⊎◌,
}
use matf_master_vpn.Prelude.Int.{◌==ℤ◌, ==ℤ→eq}
use matf_master_vpn.Bytes.{Bytes}
use matf_master_vpn.Primitives.{Primitives}
use matf_master_vpn.Protocol.{MessageType, Packet, data_message, keepalive, same_type, same_type→eq}
use matf_master_vpn.Replay.{is_replay, mark_authenticated}
use matf_master_vpn.Crypto.{Cipher, cipher_decrypt}
use matf_master_vpn.Crypto.Sessions.{cipher_decrypt-fields}
use matf_master_vpn.Transport.{Address, Datagram, receive}
use matf_master_vpn.Tun.{write, write-written}
use matf_master_vpn.Engine.{TunnelEngine}
use matf_master_vpn.Engine.Steps.{
  deliver, authenticated, decrypted, open_packet, handle_packet, received, receive_udp_packet,
  same_address,
}

-- Why a payload may be written: the datagram came from the peer, in the session, with a number that
-- the window does not refuse, and it decrypted to a data packet with this payload.
pub record IsAuthentic (c : Primitives) (x : Cipher) (e : TunnelEngine) (d : Datagram)
    (payload : Bytes) : Type 0 where
  pub arrived : Packet
  pub opened : Packet
  pub arrival : receive (some d) ≡ ok (arrived, d.address)
  pub from_peer : same_address d.address e.remote_address ≡ true
  pub in_session : arrived.session_id ≡ e.session_id
  pub fresh : is_replay e.replay_window arrived.sequence_number ≡ false
  pub decryption : (cipher_decrypt c x arrived).0 ≡ ok opened
  pub is_data : opened.message_type ≡ data_message
  pub payload_is : opened.payload ≡ payload

-- What a step of the receiving side may do to the packets written: nothing, or one more.
abbrev pub Writes : TunnelEngine → TunnelEngine → (Bytes → Type 0) → Type 0
Writes e f Allowed =
    (f.tun_device.written ≡ e.tun_device.written)
    ⊎ ((payload : Bytes) × (f.tun_device.written ≡ payload ∷ e.tun_device.written)
        × Allowed payload)

deliver-Writes :
    (p : Packet) (e : TunnelEngine)
    → Writes e
        (deliver p e).1
        (λ payload. (same_type p.message_type keepalive ≡ false) × (p.payload ≡ payload))
unfolding deliver
deliver-Writes p e = elim (Bool-cases (same_type p.message_type keepalive)) [
  | inl kept ↦ inl (ground arith)
  | inr other ↦ elim (Result-cases (write e.tun_device p.payload)) [
    | inr (f, closed) ↦ inl (ground arith)
    | inl ((n, d), done) ↦
        let d_is = write-written e.tun_device p.payload done in
        inr (p.payload, ground arith, (other, refl))
  ]
]

-- The packet is no keepalive and has this payload.
abbrev IsPayload : Packet → Bytes → Type 0
IsPayload p payload = (same_type p.message_type keepalive ≡ false) × (p.payload ≡ payload)

authenticated-Writes :
    (p : Packet) (now : ℕ) (e : TunnelEngine) → Writes e (authenticated p now e).1 (IsPayload p)
unfolding authenticated
authenticated-Writes p now e =
    elim (Result-cases (mark_authenticated e.replay_window p.sequence_number)) [
      | inr (f, failed) ↦ inl (rw (failed, authenticated) refl)
      | inl (w, marked) ↦ rw (marked, authenticated) (deliver-Writes p _)
    ]

decrypted-Writes :
    (r : Result Packet) (now : ℕ) (e : TunnelEngine)
    → Writes e (decrypted r now e).1 (λ payload. (q : Packet) × (r ≡ ok q) × (IsPayload q payload))
unfolding decrypted
decrypted-Writes (ok p) now e = elim (authenticated-Writes p now e) [
  | inl same ↦ inl same
  | inr (m, more, is_data) ↦ inr (m, more, (p, refl, is_data))
]
decrypted-Writes (err Error.invalid_tag) now e = inl refl
decrypted-Writes (err _) now e = inl refl

-- Of the two types that a tunnel expects, the one that is not a keepalive is data.
expected-data :
    (t : MessageType)
    → (same_type t data_message || same_type t keepalive) ≡ true
    → same_type t keepalive ≡ false
    → t ≡ data_message
expected-data t h k = same_type→eq t data_message (ground arith)

module _ (c : Primitives) (x : Cipher) where
  open_packet-Writes :
      (p : Packet) (now : ℕ) (e : TunnelEngine)
      → Writes e (open_packet c (some x) p now e).1 (λ payload.
        (is_replay e.replay_window p.sequence_number ≡ false)
        × ((q : Packet) × ((cipher_decrypt c x p).0 ≡ ok q) × (IsPayload q payload)))
  unfolding open_packet
  open_packet-Writes p now e = elim (Bool-cases (is_replay e.replay_window p.sequence_number)) [
    | inl replay ↦ inl (rw replay refl)
    | inr fresh ↦
        elim (decrypted-Writes (cipher_decrypt c x p).0 now
          (record e { cipher = some (cipher_decrypt c x p).1 })) [
            | inl same ↦ inl (rw fresh same)
            | inr (m, more, plain) ↦ inr (m, rw fresh more, (fresh, plain))
          ]
  ]

  handle_packet-Writes :
      (p : Packet) (a : Address) (now : ℕ) (e : TunnelEngine)
      → e.cipher ≡ some x
      → Writes e (handle_packet c p a now e).1 (λ payload.
        (same_address a e.remote_address ≡ true)
        × (p.session_id ≡ e.session_id)
        × (is_replay e.replay_window p.sequence_number ≡ false)
        × ((q : Packet) × ((cipher_decrypt c x p).0 ≡ ok q)
            × (q.message_type ≡ data_message)
            × (q.payload ≡ payload)))
  unfolding handle_packet
  handle_packet-Writes p a now e keyed =
      let opens : open_packet c e.cipher p now e ≡ open_packet c (some x) p now e =
        ap (λ y. open_packet c y p now e) keyed in
      elim (Bool-cases (same_address a e.remote_address)) [
        | inr stranger ↦ inl (rw stranger refl)
        | inl from_peer ↦ elim (Bool-cases (p.session_id ==ℤ e.session_id)) [
          | inr other ↦ inl (rw (from_peer, other) refl)
          | inl same ↦
              elim (Bool-cases
                (same_type p.message_type data_message || same_type p.message_type keepalive)) [
                  | inr unexpected ↦ inl (rw (from_peer, same, unexpected) refl)
                  | inl expected ↦ elim (open_packet-Writes p now e) [
                    | inl kept ↦ inl (rw (from_peer, same, expected, opens) kept)
                    | inr (m, more, (fresh, (q, opened, (kind, payload_is)))) ↦
                        let same_kind = (cipher_decrypt-fields c x p opened).0 in
                        inr (
                          m,
                          rw (from_peer, same, expected, opens) more,
                          (
                            from_peer,
                            ==ℤ→eq p.session_id e.session_id same,
                            fresh,
                            (
                              q,
                              opened,
                              expected-data q.message_type (rw same_kind expected) kind,
                              payload_is,
                            ),
                          ),
                        )
                  ]
                ]
        ]
      ]

  unwritten :
      (f : Error) (now : ℕ) (e : TunnelEngine)
      → (received c (err f) now e).1.tun_device.written ≡ e.tun_device.written
  unfolding received
  unwritten Error.invalid_packet now e = refl
  unwritten _ now e = refl

  receive-address :
      (d : Datagram) {p : Packet} {a : Address} → receive (some d) ≡ ok (p, a) → a ≡ d.address
  unfolding receive
  receive-address d e = ground arith

  -- With a cipher, receiving a datagram, whatever it holds and however the call ends, writes nothing
  -- to the TUN device or exactly one payload, and that only if the datagram came from the peer in
  -- this session, was no replay, and decrypted to a packet of the type for data with this payload.
  pub receive_udp_packet-IsAuthentic :
      (d : Datagram) (now : ℕ) (e : TunnelEngine)
      → e.cipher ≡ some x
      → Writes e (receive_udp_packet c d now e).1 (IsAuthentic c x e d)
  unfolding receive_udp_packet received
  receive_udp_packet-IsAuthentic d now e keyed = elim (Result-cases (receive (some d))) [
    | inr (f, failed) ↦ inl (rw (failed, receive_udp_packet) (unwritten f now e))
    | inl ((p, a), arrived) ↦
        let source = receive-address d arrived in
        elim (handle_packet-Writes p a now e keyed) [
          | inl same ↦ inl (rw arrived same)
          | inr (m, more, (from_peer, session, fresh, (q, opened, kind, payload_is))) ↦ inr (
            m,
            rw arrived more,
            record {
              arrived = p;
              opened = q;
              arrival = arrived ∙ ap (λ b. ok (p, b)) source;
              from_peer = subst (λ b. same_address b e.remote_address ≡ true) source from_peer;
              in_session = session;
              fresh = fresh;
              decryption = opened;
              is_data = kind;
              payload_is = payload_is;
            },
          )
        ]
  ]
