-- ===== src/MultiServer/Invariant.antt =====
-- multi_server.py: the tables of the server stay consistent over its rounds.
use matf_master_vpn.Prelude.{
  ℕ, suc, ◌<◌, ◌≡◌, refl, sym, ap, ◌∙◌, true, false, Option, none, some, List, [], ◌∷◌, inl, inr,
  Error, Result, ok, err, arith, Bool-cases, Result-cases,
}
use matf_master_vpn.Prelude.Exec.{Exec, continue}
use matf_master_vpn.Bytes.{Bytes}
use matf_master_vpn.Primitives.{Primitives}
use matf_master_vpn.Prelude.Equality.{bytes_eq}
use matf_master_vpn.Protocol.{Packet}
use matf_master_vpn.Handshake.{Draw}
use matf_master_vpn.Transport.{Address, Datagram, send, receive}
use matf_master_vpn.Tun.{require_open}
use matf_master_vpn.MultiClient.{ClientSession, MultiClientServerEngine}
use matf_master_vpn.MultiClient.Steps.{update, handle_tun_packet, handle_udp_packet}
use matf_master_vpn.MultiClient.Keeps.{
  Keeps, IsTable-Keeps, handle_tun_packet-Keeps, handle_udp_packet-Keeps,
}
use matf_master_vpn.MultiClient.Tables.{IsTable, IsTable-replace_session}
use matf_master_vpn.MultiServer.{ClientIdentity, AcceptedSession, accept}
use matf_master_vpn.MultiServer.References.{
  AreBelow, Keeps-AreBelow, replace_session-AreBelow, IsTable-fresh,
}
use matf_master_vpn.MultiServer.Bounds.{IsBounded, accept-IsBounded}
use matf_master_vpn.MultiServer.Answers.{AnswersAt, accept-AnswersAt}
use matf_master_vpn.MultiServer.Rounds.{
  MultiClientServer, on_engine, count, respond, establish, allocate, keep_session, admitted,
  accept_on, serve_received, serve_tun, serve_udp, require_server, server_round, Arrivals,
  server_run,
}

-- The tables are consistent, no session in them stands where the next one will be made, and the cache
-- of hellos is within its size.
pub record IsServing (s : MultiClientServer) : Type 0 where
  pub table : IsTable s.engine
  pub below : AreBelow s.next_ref s.engine
  pub bounded : IsBounded s.registry

IsServing-bind :
    {A B : Type 0} (m : Result A × MultiClientServer) (f : A → Exec MultiClientServer B)
    → IsServing m.1
    → ((x : A) (s : MultiClientServer) → IsServing s → IsServing (f x s).1)
    → IsServing (continue m f).1
IsServing-bind (ok x, s) f h next = next x s h
IsServing-bind (err e, s) f h next = h

on_engine-IsServing :
    {A : Type 0} (method : Exec MultiClientServerEngine A) (s : MultiClientServer)
    → Keeps s.engine (method s.engine).1
    → IsServing s
    → IsServing (on_engine method s).1
unfolding on_engine
on_engine-IsServing method s k h = record {
  table = IsTable-Keeps k h.table;
  below = Keeps-AreBelow s.next_ref k h.below;
  bounded = h.bounded;
}

-- A server that is about to establish the session of an answer.
record Awaits (accepted : AcceptedSession) (s : MultiClientServer) : Type 0 where
  serving : IsServing s
  placed : accepted.is_new ≡ true → accepted.session < s.next_ref

allocate-Awaits :
    (accepted : AcceptedSession) (o : Option ClientSession) (s : MultiClientServer)
    → AnswersAt s.next_ref accepted o
    → IsServing s
    → Awaits accepted (allocate o s)
unfolding allocate update
allocate-Awaits accepted none s (inl (known, is)) h = record {
  serving = h;
  placed = λ new. (let clash : true ≡ false = sym new ∙ known in absurd (cc clash));
}
allocate-Awaits accepted none s (inr (at, (session, is))) h = absurd (cc is)
allocate-Awaits accepted (some x) s (inl (known, is)) h = absurd (cc is)
allocate-Awaits accepted (some x) s (inr (at, (session, is))) h = record {
  serving = record {
    table = IsTable-fresh s.next_ref x s.engine h.below h.table;
    below = below_next;
    bounded = h.bounded;
  };
  placed = λ new. omega arith;
}
  where
    below_next : AreBelow (suc s.next_ref) (update s.next_ref x s.engine)
    below_next k r found = omega (arith, h.below k r found)

respond-Awaits :
    (accepted : AcceptedSession) (p : Packet) (a : Address) (s : MultiClientServer)
    → Awaits accepted s
    → Awaits accepted (respond p a s).1
unfolding respond
respond-Awaits accepted p a s h = elim (Result-cases (send s.engine.transport p a)) [
  | inr (x, failed) ↦ rw (respond, failed) h
  | inl (t, sent) ↦
      rw (respond, sent)
        (record {
          serving = record {
            table = record {
              by_key = h.serving.table.by_key;
              by_tunnel = h.serving.table.by_tunnel;
            };
            below = h.serving.below;
            bounded = h.serving.bounded;
          };
          placed = h.placed;
        })
]

establish-IsServing :
    (accepted : AcceptedSession) (s : MultiClientServer)
    → Awaits accepted s
    → IsServing (establish accepted s).1
unfolding establish on_engine
establish-IsServing accepted s h = elim (Bool-cases accepted.is_new) [
  | inr known ↦ rw known h.serving
  | inl new ↦ rw new (record {
    table = IsTable-replace_session accepted.session s.engine h.serving.table;
    below =
        replace_session-AreBelow s.next_ref accepted.session s.engine (h.placed new)
          h.serving.below;
    bounded = h.serving.bounded;
  })
]

module _ (c : Primitives) where
  admitted-IsServing :
      (p : Packet) (a : Address) (answer : Option (AcceptedSession × Option ClientSession))
      (s : MultiClientServer)
      → ((accepted : AcceptedSession) (o : Option ClientSession)
          → answer ≡ some (accepted, o)
          → AnswersAt s.next_ref accepted o)
      → IsServing s
      → IsServing (admitted c p a answer s).1
  unfolding admitted keep_session
  admitted-IsServing p a none s at h =
      IsServing-bind (on_engine (handle_udp_packet c p a) s)
        (λ forwarded s. (ok (count forwarded), s))
        (on_engine-IsServing (handle_udp_packet c p a) s (handle_udp_packet-Keeps c p a s.engine) h)
        (λ x t g. g)
  admitted-IsServing p a (some (accepted, o)) s at h =
      go (respond accepted.response a (allocate o s)) (
        respond-Awaits accepted accepted.response a (allocate o s)
          (allocate-Awaits accepted o s (at accepted o refl) h))
    where
      go :
          (r : Result (Unit {0}) × MultiClientServer)
          → Awaits accepted r.1
          → IsServing
              (continue {B = ℕ} r
                (λ u s. continue {B = ℕ} (establish accepted s) (λ v s. (ok 0, s)))).1
      go (ok u, s) g =
          IsServing-bind (establish accepted s) (λ v s. (ok 0, s))
            (establish-IsServing accepted s g) (λ x t i. i)
      go (err x, s) g = g.serving

  serve_received-IsServing :
      (draws : ClientIdentity → Draw) (r : Result (Packet × Address)) (s : MultiClientServer)
      → IsServing s
      → IsServing (serve_received c draws r s).1
  unfolding serve_received accept_on
  serve_received-IsServing draws (err Error.invalid_packet) s h = h
  serve_received-IsServing draws (err _) s h = h
  serve_received-IsServing draws (ok (p, a)) s h =
      elim (Result-cases (accept c draws s.next_ref p a s.registry).0) [
        | inr (x, failed) ↦ rw failed (record {
          table = h.table;
          below = h.below;
          bounded = accept-IsBounded c draws s.next_ref p a s.registry h.bounded;
        })
        | inl (answer, answered) ↦ rw answered (
            admitted-IsServing p a answer
              (record s { registry = (accept c draws s.next_ref p a s.registry).1 })
              (λ accepted o is.
                accept-AnswersAt c draws s.next_ref p a s.registry (answered ∙ ap ok is))
              (record {
                table = h.table;
                below = h.below;
                bounded = accept-IsBounded c draws s.next_ref p a s.registry h.bounded;
              }))
      ]

  serve_tun-IsServing :
      (o : Option Bytes) (s : MultiClientServer) → IsServing s → IsServing (serve_tun c o s).1
  unfolding serve_tun
  serve_tun-IsServing none s h = h
  serve_tun-IsServing (some payload) s h =
      IsServing-bind (on_engine (handle_tun_packet c payload) s)
        (λ forwarded s. (ok (count forwarded), s))
        (on_engine-IsServing (handle_tun_packet c payload) s
          (handle_tun_packet-Keeps c payload s.engine) h)
        (λ x t g. g)

  serve_udp-IsServing :
      (draws : ClientIdentity → Draw) (o : Option Datagram) (s : MultiClientServer)
      → IsServing s
      → IsServing (serve_udp c draws o s).1
  unfolding serve_udp
  serve_udp-IsServing draws none s h = h
  serve_udp-IsServing draws (some d) s h = serve_received-IsServing draws (receive (some d)) s h

  server_round-IsServing :
      (draws : ClientIdentity → Draw) (packet : Option Bytes) (datagram : Option Datagram)
      (s : MultiClientServer)
      → IsServing s
      → IsServing (server_round c draws packet datagram s).1
  unfolding server_round require_server
  server_round-IsServing draws packet datagram s h =
      IsServing-bind (require_open s.engine.tun_device, s) _ h
        (λ descriptor t g.
          IsServing-bind (serve_tun c packet t) _ (serve_tun-IsServing packet t g) (λ from_tun u i.
            IsServing-bind (serve_udp c draws datagram u) _ (serve_udp-IsServing draws datagram u i)
              (λ from_udp v j. j)))

  -- Whatever arrives in the rounds of the server's run, in whatever order, and however the run
  -- ends, the tables of sessions and routes stay consistent, with every session in them at a
  -- reference below the one where the next session will be made, and the cache of hellos stays
  -- within 1024 entries.
  pub server_run-IsServing :
      (rounds : List Arrivals) (s : MultiClientServer)
      → IsServing s
      → IsServing (server_run c rounds s).1
  unfolding server_run
  server_run-IsServing [] s h = h
  server_run-IsServing (found ∷ rest) s h =
      IsServing-bind (server_round c found.draws found.tun_packet found.datagram s)
        (λ forwarded. server_run c rest)
        (server_round-IsServing found.draws found.tun_packet found.datagram s h)
        (λ forwarded t g. server_run-IsServing rest t g)
