-- ===== src/MultiClient/Keeps.antt =====
-- multi_client.py: handling packets changes no session's addresses or id.
use matf_master_vpn.Prelude.{
  ℕ, ◌≡◌, refl, sym, ap, ◌∙◌, not, Option, none, some, inl, inr, ◌⊎◌, Error, Result, ok, err,
  Bool-cases, Option-cases, Result-cases, ltb, ◌==◌, ==_iff, length,
}
use matf_master_vpn.Prelude.Int.{ℤ, int_eq}
use matf_master_vpn.Prelude.Equality.{pair_eq, string_eq, nat_eq}
use matf_master_vpn.Bytes.{Bytes}
use matf_master_vpn.Primitives.{Primitives}
use matf_master_vpn.OrderedDict.{get}
use matf_master_vpn.Protocol.{Packet, data_message, same_type}
use matf_master_vpn.Replay.{is_replay, mark_authenticated}
use matf_master_vpn.Transport.{Address, UdpTransport, send}
use matf_master_vpn.Tun.{TunDevice, write}
use matf_master_vpn.Engine.{max_sequence_number}
use matf_master_vpn.MultiClient.{
  ClientSession, MultiClientServerEngine, Ref, key_of, assign, ipv4_source, ipv4_destination,
}
use matf_master_vpn.MultiClient.Steps.{
  update, send_to, deliver_payload, accept_from, check_source, opened_by, forward_to, route,
  route_to, handle_tun_packet, open_from, dispatch, handle_udp_packet,
}
use matf_master_vpn.MultiClient.Tables.{IsTable, key_at, tunnel_at}

-- The same tables, and sessions of the same addresses and ids.
pub record Keeps (e f : MultiClientServerEngine) : Type 0 where
  pub same_sessions : f.sessions ≡ e.sessions
  pub same_routes : f.routes ≡ e.routes
  pub same_keys : (r : Ref) → key_at f r ≡ key_at e r
  pub same_tunnels : (r : Ref) → tunnel_at f r ≡ tunnel_at e r

pub Keeps-refl : (e : MultiClientServerEngine) → Keeps e e
Keeps-refl e = record {
  same_sessions = refl;
  same_routes = refl;
  same_keys = λ r. refl;
  same_tunnels = λ r. refl;
}

pub Keeps-trans : {e f g : MultiClientServerEngine} → Keeps e f → Keeps f g → Keeps e g
Keeps-trans a b = record {
  same_sessions = b.same_sessions ∙ a.same_sessions;
  same_routes = b.same_routes ∙ a.same_routes;
  same_keys = λ r. b.same_keys r ∙ a.same_keys r;
  same_tunnels = λ r. b.same_tunnels r ∙ a.same_tunnels r;
}

pub IsTable-Keeps : {e f : MultiClientServerEngine} → Keeps e f → IsTable e → IsTable f
IsTable-Keeps {e} {f} k t = record {
  by_key = λ key r found.
      (let (own, routed) = t.by_key key r (ap (get key) (sym k.same_sessions) ∙ found) in
        (
          k.same_keys r ∙ own,
          rw (k.same_tunnels r) (ap (get (tunnel_at e r)) k.same_routes ∙ routed),
        ));
  by_tunnel = λ a r found.
      (let (own, held) = t.by_tunnel a r (ap (get a) (sym k.same_routes) ∙ found) in
        (
          k.same_tunnels r ∙ own,
          rw (k.same_keys r) (ap (get (key_at e r)) k.same_sessions ∙ held),
        ));
}

-- What every lookup of a memory shows after an assignment.
pub assign_cases :
    (ref : Ref) (s : ClientSession) (objects : Ref → ClientSession) (r : Ref)
    → ((r ≡ ref) × (assign ref s objects r ≡ s)) ⊎ (assign ref s objects r ≡ objects r)
unfolding assign
assign_cases ref s objects r = elim (Bool-cases (r == ref)) [
  | inl same ↦ inl ((==_iff r ref).0 same, rw same refl)
  | inr other ↦ inr (rw other refl)
]

-- A session that keeps its addresses and its id.
update-Keeps :
    (ref : Ref) (s : ClientSession) (e : MultiClientServerEngine)
    → key_of s ≡ key_at e ref
    → s.tunnel_address ≡ tunnel_at e ref
    → Keeps e (update ref s e)
unfolding update
update-Keeps ref s e key tunnel = record {
  same_sessions = refl;
  same_routes = refl;
  same_keys = λ r. elim (assign_cases ref s e.objects r) [
    | inl (same, value) ↦ ap key_of value ∙ key ∙ ap (key_at e) (sym same)
    | inr value ↦ ap key_of value
  ];
  same_tunnels = λ r. elim (assign_cases ref s e.objects r) [
    | inl (same, value) ↦
        ap (λ (t : ClientSession). t.tunnel_address) value ∙ tunnel ∙ ap (tunnel_at e) (sym same)
    | inr value ↦ ap (λ (t : ClientSession). t.tunnel_address) value
  ];
}

-- The same sessions, after a packet was sent or written.
outside_tables :
    (e : MultiClientServerEngine) (d : TunDevice) (t : UdpTransport)
    → Keeps e (record e { tun_device = d; transport = t })
outside_tables e d t = record {
  same_sessions = refl;
  same_routes = refl;
  same_keys = λ r. refl;
  same_tunnels = λ r. refl;
}

send_to-Keeps :
    (ref : Ref) (r : Result Packet) (e : MultiClientServerEngine) → Keeps e (send_to ref r e).1
unfolding send_to
send_to-Keeps ref (err x) e = Keeps-refl e
send_to-Keeps ref (ok p) e =
    elim (Result-cases (send e.transport p (e.objects ref).remote_address)) [
      | inr (x, failed) ↦ rw (send_to, failed) (Keeps-refl e)
      | inl (t, sent) ↦
          rw (send_to, sent)
            (Keeps-trans (outside_tables e e.tun_device t) (update-Keeps ref _ _ refl refl))
    ]

deliver_payload-Keeps :
    (payload : Bytes) (e : MultiClientServerEngine) → Keeps e (deliver_payload payload e).1
unfolding deliver_payload
deliver_payload-Keeps payload e = elim (Result-cases (write e.tun_device payload)) [
  | inr (x, failed) ↦ rw (deliver_payload, failed) (Keeps-refl e)
  | inl ((n, d), written) ↦ elim (Bool-cases (not (n == length payload))) [
    | inl short ↦ rw (deliver_payload, written, short) (outside_tables e d e.transport)
    | inr whole ↦ rw (deliver_payload, written, whole) (outside_tables e d e.transport)
  ]
]

accept_from-Keeps :
    (ref : Ref) (z : ℤ) (payload : Bytes) (e : MultiClientServerEngine)
    → Keeps e (accept_from ref z payload e).1
unfolding accept_from
accept_from-Keeps ref z payload e =
    elim (Result-cases (mark_authenticated (e.objects ref).replay_window z)) [
      | inr (x, failed) ↦ rw (accept_from, failed) (Keeps-refl e)
      | inl (w, marked) ↦
          rw (accept_from, marked)
            (Keeps-trans (update-Keeps ref _ e refl refl) (deliver_payload-Keeps payload _))
    ]

check_source-Keeps :
    (ref : Ref) (z : ℤ) (payload : Bytes) (r : Result ℕ) (e : MultiClientServerEngine)
    → Keeps e (check_source ref z payload r e).1
unfolding check_source
check_source-Keeps ref z payload (err x) e = Keeps-refl e
check_source-Keeps ref z payload (ok a) e =
    elim (Bool-cases (a == (e.objects ref).tunnel_address)) [
      | inl same ↦ rw same (accept_from-Keeps ref z payload e)
      | inr other ↦ rw other (Keeps-refl e)
    ]

opened_by-Keeps :
    (ref : Ref) (z : ℤ) (r : Result Packet) (e : MultiClientServerEngine)
    → Keeps e (opened_by ref z r e).1
unfolding opened_by
opened_by-Keeps ref z (ok p) e = check_source-Keeps ref z p.payload (ipv4_source p.payload) e
opened_by-Keeps ref z (err Error.invalid_tag) e = Keeps-refl e
opened_by-Keeps ref z (err _) e = Keeps-refl e

module _ (c : Primitives) where
  forward_to-Keeps :
      (payload : Bytes) (ref : Ref) (e : MultiClientServerEngine)
      → Keeps e (forward_to c payload ref e).1
  unfolding forward_to
  forward_to-Keeps payload ref e =
      elim (Bool-cases (ltb max_sequence_number (e.objects ref).send_sequence)) [
        | inl spent ↦ rw spent (Keeps-refl e)
        | inr left ↦ rw left (Keeps-trans (update-Keeps ref _ e refl refl) (send_to-Keeps ref _ _))
      ]

  route_to-Keeps :
      (payload : Bytes) (r : Result ℕ) (e : MultiClientServerEngine)
      → Keeps e (route_to c payload r e).1
  unfolding route_to route
  route_to-Keeps payload (err x) e = Keeps-refl e
  route_to-Keeps payload (ok a) e = elim (Option-cases (get a e.routes)) [
    | inl missing ↦ rw missing (Keeps-refl e)
    | inr (ref, found) ↦ rw found (forward_to-Keeps payload ref e)
  ]

  pub handle_tun_packet-Keeps :
      (payload : Bytes) (e : MultiClientServerEngine) → Keeps e (handle_tun_packet c payload e).1
  unfolding handle_tun_packet
  handle_tun_packet-Keeps payload e = route_to-Keeps payload (ipv4_destination payload) e

  open_from-Keeps :
      (p : Packet) (ref : Ref) (e : MultiClientServerEngine) → Keeps e (open_from c p ref e).1
  unfolding open_from
  open_from-Keeps p ref e =
      elim (Bool-cases (is_replay (e.objects ref).replay_window p.sequence_number)) [
        | inl seen ↦ rw seen (Keeps-refl e)
        | inr fresh ↦
            rw fresh (Keeps-trans (update-Keeps ref _ e refl refl) (opened_by-Keeps ref _ _ _))
      ]

  dispatch-Keeps :
      (p : Packet) (o : Option Ref) (e : MultiClientServerEngine) → Keeps e (dispatch c p o e).1
  unfolding dispatch
  dispatch-Keeps p none e = Keeps-refl e
  dispatch-Keeps p (some ref) e = elim (Bool-cases (same_type p.message_type data_message)) [
    | inl is_data ↦ rw is_data (open_from-Keeps p ref e)
    | inr other ↦ rw other (Keeps-refl e)
  ]

  pub handle_udp_packet-Keeps :
      (p : Packet) (a : Address) (e : MultiClientServerEngine)
      → Keeps e (handle_udp_packet c p a e).1
  unfolding handle_udp_packet
  handle_udp_packet-Keeps p a e = dispatch-Keeps p (get (a, p.session_id) e.sessions) e
