-- ===== src/MultiClient/Routing.antt =====
-- multi_client.py: where a packet from the TUN device of the server goes.
use matf_master_vpn.Prelude.{
  ◌≡◌, refl, sym, ap, ◌∙◌, true, false, ◌∷◌, inl, inr, Error, Result, ok, err, Bool-cases,
  Option-cases, Result-cases, ltb,
}
use matf_master_vpn.Prelude.Int.{pos}
use matf_master_vpn.Prelude.Equality.{nat_eq}
use matf_master_vpn.Bytes.{Bytes}
use matf_master_vpn.Primitives.{Primitives}
use matf_master_vpn.OrderedDict.{get}
use matf_master_vpn.Protocol.{Packet, data_message, encode}
use matf_master_vpn.Crypto.{cipher_encrypt}
use matf_master_vpn.Transport.{UdpTransport, send}
use matf_master_vpn.Engine.{max_sequence_number}
use matf_master_vpn.Engine.Sound.{send-sent}
use matf_master_vpn.MultiClient.{
  ClientSession, MultiClientServerEngine, Ref, assign, ipv4_destination,
}
use matf_master_vpn.MultiClient.Keeps.{assign_cases}
use matf_master_vpn.MultiClient.Steps.{
  update, send_to, forward_to, route, route_to, handle_tun_packet,
}
use matf_master_vpn.MultiClient.Tables.{IsTable, tunnel_at}

-- The data packet with a payload that the session at `ref` sends next.
abbrev pub next_packet : MultiClientServerEngine → Ref → Bytes → Packet
next_packet e ref payload = record {
  message_type = data_message;
  session_id = (e.objects ref).session_id;
  sequence_number = pos (e.objects ref).send_sequence;
  payload = payload;
}

-- A payload went to the client that has the destination address, encrypted under its session, as the
-- only datagram sent.
pub record IsRouted (c : Primitives) (e f : MultiClientServerEngine) (payload : Bytes)
    : Type 0 where
  pub ref : Ref
  pub sealed : Packet
  pub contents : Bytes
  pub destination : ipv4_destination payload ≡ ok (tunnel_at e ref)
  pub encryption :
      (cipher_encrypt c (e.objects ref).cipher (next_packet e ref payload)).0 ≡ ok sealed
  pub encoding : encode sealed ≡ ok contents
  pub sent :
      f.transport.sent
      ≡ record { contents = contents; address = (e.objects ref).remote_address } ∷ e.transport.sent

send_to-sent :
    (ref : Ref) (r : Result Packet) (e : MultiClientServerEngine)
    → (send_to ref r e).0 ≡ ok true
    → (q : Packet) × (b : Bytes) × (r ≡ ok q)
      × (encode q ≡ ok b)
      × ((send_to ref r e).1.transport.sent
          ≡ record { contents = b; address = (e.objects ref).remote_address } ∷ e.transport.sent)
unfolding send_to update
send_to-sent ref (err x) e h = cc
send_to-sent ref (ok q) e h =
    elim (Result-cases (send e.transport q (e.objects ref).remote_address)) [
      | inr (x, failed) ↦
          let clash : err x ≡ ok true = rw (send_to, failed) at h in absurd (cc clash)
      | inl (t, done) ↦
          let (b, encoded, is) = send-sent e.transport q (e.objects ref).remote_address done in
          (q, b, refl, encoded, rw (send_to, done) (ap (λ (u : UdpTransport). u.sent) is))
    ]

-- The session at `ref` with another cipher keeps its remote address.
same_remote :
    (ref : Ref) (s : ClientSession) (objects : Ref → ClientSession)
    → s.remote_address ≡ (objects ref).remote_address
    → (assign ref s objects ref).remote_address ≡ (objects ref).remote_address
same_remote ref s objects same = elim (assign_cases ref s objects ref) [
  | inl (here, value) ↦ ap (λ (t : ClientSession). t.remote_address) value ∙ same
  | inr value ↦ ap (λ (t : ClientSession). t.remote_address) value
]

module _ (c : Primitives) where
  forward_to-sent :
      (payload : Bytes) (ref : Ref) (e : MultiClientServerEngine)
      → (forward_to c payload ref e).0 ≡ ok true
      → (q : Packet) × (b : Bytes) × ((cipher_encrypt c
            (e.objects ref).cipher
            (next_packet e ref payload)).0
          ≡ ok q)
        × (encode q ≡ ok b)
        × ((forward_to c payload ref e).1.transport.sent
            ≡ record { contents = b; address = (e.objects ref).remote_address } ∷ e.transport.sent)
  unfolding forward_to update
  forward_to-sent payload ref e h =
      elim (Bool-cases (ltb max_sequence_number (e.objects ref).send_sequence)) [
        | inl spent ↦
            let clash : err Error.overflow_error ≡ ok true = rw spent at h in absurd (cc clash)
        | inr left ↦
            let sealed = cipher_encrypt c (e.objects ref).cipher (next_packet e ref payload) in
            let s : ClientSession = record (e.objects ref) { cipher = sealed.1 } in
            let (q, b, is, encoded, sent) =
              send_to-sent ref sealed.0 (update ref s e) (rw left at h) in
            (
              q,
              b,
              is,
              encoded,
              rw left (
                  sent
                  ∙ ap (λ a. record { contents = b; address = a } ∷ e.transport.sent)
                      (same_remote ref s e.objects refl)),
            )
      ]

  -- With consistent tables, when a packet from the TUN device is reported as forwarded, exactly one
  -- datagram was sent: to the remote address of the session whose tunnel address is the packet's
  -- IPv4 destination, and it holds the packet encrypted under that session.
  pub handle_tun_packet-IsRouted :
      (payload : Bytes) (e : MultiClientServerEngine)
      → IsTable e
      → (handle_tun_packet c payload e).0 ≡ ok true
      → IsRouted c e (handle_tun_packet c payload e).1 payload
  unfolding handle_tun_packet route_to route
  handle_tun_packet-IsRouted payload e t h = elim (Result-cases (ipv4_destination payload)) [
    | inr (x, failed) ↦ let clash : ok false ≡ ok true = rw failed at h in absurd (cc clash)
    | inl (a, found) ↦ elim (Option-cases (get a e.routes)) [
      | inl missing ↦ let clash : ok false ≡ ok true = rw (found, missing) at h in absurd (cc clash)
      | inr (ref, routed) ↦
          let (own, held) = t.by_tunnel a ref routed in
          let (q, b, is, encoded, sent) = forward_to-sent payload ref e (rw (found, routed) at h) in
          record {
            ref = ref;
            sealed = q;
            contents = b;
            destination = found ∙ ap ok (sym own);
            encryption = is;
            encoding = encoded;
            sent = rw (found, routed) sent;
          }
    ]
  ]
