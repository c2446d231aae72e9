-- ===== src/MultiClient/Receipt.antt =====
-- multi_client.py: what `handle_udp_packet` writes to the TUN device, and what `handle_tun_packet`
-- sends to whom.
use matf_master_vpn.Prelude.{
  ℕ, ◌≡◌, ◌⊎◌, refl, ap, ◌∙◌, true, false, Option, none, some, ◌∷◌, inl, inr, Error, Result, ok,
  err, arith, Bool-cases, Result-cases, ◌==◌, ==_iff,
}
use matf_master_vpn.Prelude.Int.{ℤ, int_eq}
use matf_master_vpn.Prelude.Equality.{pair_eq, string_eq, nat_eq}
use matf_master_vpn.Bytes.{Bytes}
use matf_master_vpn.Primitives.{Primitives}
use matf_master_vpn.OrderedDict.{get}
use matf_master_vpn.Protocol.{Packet, data_message, same_type}
use matf_master_vpn.Replay.{is_replay, mark_authenticated}
use matf_master_vpn.Crypto.{cipher_decrypt}
use matf_master_vpn.Transport.{Address}
use matf_master_vpn.Tun.{write, write-written}
use matf_master_vpn.MultiClient.{ClientSession, MultiClientServerEngine, Ref, assign, ipv4_source}
use matf_master_vpn.MultiClient.Keeps.{assign_cases}
use matf_master_vpn.MultiClient.Steps.{
  update, deliver_payload, accept_from, check_source, opened_by, open_from, dispatch,
  handle_udp_packet,
}

-- Why a payload may be written: a session is known for the sender and the packet's session id, the
-- packet is a data packet whose number its window does not refuse, it decrypts under the session's
-- cipher to this payload, and the payload's IPv4 source is the session's tunnel address.
pub record IsFromClient (c : Primitives) (e : MultiClientServerEngine) (p : Packet) (a : Address)
    (payload : Bytes) : Type 0 where
  pub ref : Ref
  pub opened : Packet
  pub known : get (a, p.session_id) e.sessions ≡ some ref
  pub is_data : same_type p.message_type data_message ≡ true
  pub fresh : is_replay (e.objects ref).replay_window p.sequence_number ≡ false
  pub decryption : (cipher_decrypt c (e.objects ref).cipher p).0 ≡ ok opened
  pub source : ipv4_source opened.payload ≡ ok (e.objects ref).tunnel_address
  pub payload_is : opened.payload ≡ payload

-- Nothing more was written, or one payload for which `Allowed` holds.
abbrev pub WritesOne : MultiClientServerEngine → MultiClientServerEngine → (Bytes → Type 0) → Type 0
WritesOne e f Allowed =
    (f.tun_device.written ≡ e.tun_device.written)
    ⊎ ((payload : Bytes) × (f.tun_device.written ≡ payload ∷ e.tun_device.written)
        × Allowed payload)

deliver_payload-WritesOne :
    (payload : Bytes) (e : MultiClientServerEngine)
    → WritesOne e (deliver_payload payload e).1 (λ x. payload ≡ x)
unfolding deliver_payload
deliver_payload-WritesOne payload e = elim (Result-cases (write e.tun_device payload)) [
  | inr (x, closed) ↦ inl (ground arith)
  | inl ((n, d), done) ↦
      let d_is = write-written e.tun_device payload done in inr (payload, ground arith, refl)
]

accept_from-WritesOne :
    (ref : Ref) (z : ℤ) (payload : Bytes) (e : MultiClientServerEngine)
    → WritesOne e (accept_from ref z payload e).1 (λ x. payload ≡ x)
unfolding accept_from update
accept_from-WritesOne ref z payload e =
    elim (Result-cases (mark_authenticated (e.objects ref).replay_window z)) [
      | inr (x, failed) ↦ inl (rw (accept_from, failed) refl)
      | inl (w, marked) ↦ rw (accept_from, marked) (deliver_payload-WritesOne payload _)
    ]

check_source-WritesOne :
    (ref : Ref) (z : ℤ) (payload : Bytes) (r : Result ℕ) (e : MultiClientServerEngine)
    → WritesOne e
        (check_source ref z payload r e).1
        (λ x. (r ≡ ok (e.objects ref).tunnel_address) × (payload ≡ x))
unfolding check_source
check_source-WritesOne ref z payload (err x) e = inl refl
check_source-WritesOne ref z payload (ok a) e =
    elim (Bool-cases (a == (e.objects ref).tunnel_address)) [
      | inr other ↦ inl (rw other refl)
      | inl same ↦ rw same (elim (accept_from-WritesOne ref z payload e) [
        | inl kept ↦ inl kept
        | inr (x, more, is) ↦
            inr (x, more, (ap ok ((==_iff a (e.objects ref).tunnel_address).0 same), is))
      ])
    ]

opened_by-WritesOne :
    (ref : Ref) (z : ℤ) (r : Result Packet) (e : MultiClientServerEngine)
    → WritesOne e (opened_by ref z r e).1 (λ x.
      (q : Packet) × (r ≡ ok q)
      × (ipv4_source q.payload ≡ ok (e.objects ref).tunnel_address)
      × (q.payload ≡ x))
unfolding opened_by
opened_by-WritesOne ref z (ok q) e =
    elim (check_source-WritesOne ref z q.payload (ipv4_source q.payload) e) [
      | inl kept ↦ inl kept
      | inr (x, more, (source, is)) ↦ inr (x, more, (q, refl, source, is))
    ]
opened_by-WritesOne ref z (err Error.invalid_tag) e = inl refl
opened_by-WritesOne ref z (err _) e = inl refl

module _ (c : Primitives) where
  -- The facts of `IsFromClient` on a packet of the session at `ref`.
  abbrev Opens : MultiClientServerEngine → Packet → Ref → Bytes → Type 0
  Opens e p ref x =
      (q : Packet) × (is_replay (e.objects ref).replay_window p.sequence_number ≡ false)
      × ((cipher_decrypt c (e.objects ref).cipher p).0 ≡ ok q)
      × (ipv4_source q.payload ≡ ok (e.objects ref).tunnel_address)
      × (q.payload ≡ x)

  open_from-WritesOne :
      (p : Packet) (ref : Ref) (e : MultiClientServerEngine)
      → WritesOne e (open_from c p ref e).1 (Opens e p ref)
  unfolding open_from update
  open_from-WritesOne p ref e =
      elim (Bool-cases (is_replay (e.objects ref).replay_window p.sequence_number)) [
        | inl seen ↦ inl (rw seen refl)
        | inr fresh ↦
            let after = record (e.objects ref) {
              cipher = (cipher_decrypt c (e.objects ref).cipher p).1;
            } in
            let tunnel : (assign ref after e.objects ref).tunnel_address
                ≡ (e.objects ref).tunnel_address =
              elim (assign_cases ref after e.objects ref) [
                | inl (same, value) ↦ ap (λ (t : ClientSession). t.tunnel_address) value
                | inr value ↦ ap (λ (t : ClientSession). t.tunnel_address) value
              ] in
            rw fresh
              (elim (opened_by-WritesOne ref p.sequence_number
                (cipher_decrypt c (e.objects ref).cipher p).0 (update ref after e)) [
                  | inl kept ↦ inl kept
                  | inr (x, more, (q, opened, source, is)) ↦
                      inr (x, more, (q, refl, opened, source ∙ ap ok tunnel, is))
                ])
      ]

  dispatch-WritesOne :
      (p : Packet) (o : Option Ref) (e : MultiClientServerEngine)
      → WritesOne e (dispatch c p o e).1 (λ x.
        (ref : Ref) × (o ≡ some ref)
        × (same_type p.message_type data_message ≡ true)
        × Opens e p ref x)
  unfolding dispatch
  dispatch-WritesOne p none e = inl refl
  dispatch-WritesOne p (some ref) e = elim (Bool-cases (same_type p.message_type data_message)) [
    | inr other ↦ inl (rw other refl)
    | inl is_data ↦ rw is_data (elim (open_from-WritesOne p ref e) [
      | inl kept ↦ inl kept
      | inr (x, more, opens) ↦ inr (x, more, (ref, refl, refl, opens))
    ])
  ]

  -- A packet from the network writes nothing to the TUN device, or exactly one payload, and that
  -- only if it is a fresh data packet of a known session from that session's remote address, decrypts
  -- to the payload, and the payload's IPv4 source is the tunnel address of that client.
  pub handle_udp_packet-IsFromClient :
      (p : Packet) (a : Address) (e : MultiClientServerEngine)
      → WritesOne e (handle_udp_packet c p a e).1 (IsFromClient c e p a)
  unfolding handle_udp_packet
  handle_udp_packet-IsFromClient p a e =
      elim (dispatch-WritesOne p (get (a, p.session_id) e.sessions) e) [
        | inl kept ↦ inl kept
        | inr (x, more, (ref, known, is_data, (q, fresh, opened, source, is))) ↦ inr (
          x,
          more,
          record {
            ref = ref;
            opened = q;
            known = known;
            is_data = is_data;
            fresh = fresh;
            decryption = opened;
            source = source;
            payload_is = is;
          },
        )
      ]
