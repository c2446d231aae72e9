-- ===== src/MultiServer/Rounds.antt =====
-- multi_server.py: the server's round.
use matf_master_vpn.Prelude.{
  ℕ, suc, ◌+◌, Bool, Option, none, some, List, [], ◌∷◌, Error, Result, ok, err, if◌then◌else◌,
}
use matf_master_vpn.Prelude.Exec.{Exec, continue, ◌>>=◌, ◌>>◌, pure}
use matf_master_vpn.Bytes.{Bytes}
use matf_master_vpn.Primitives.{Primitives}
use matf_master_vpn.Protocol.{Packet}
use matf_master_vpn.Handshake.{Draw}
use matf_master_vpn.Transport.{Address, Datagram, send, receive}
use matf_master_vpn.Tun.{require_open}
use matf_master_vpn.MultiClient.{ClientSession, MultiClientServerEngine, Ref}
use matf_master_vpn.MultiClient.Steps.{
  update, replace_session, handle_tun_packet, handle_udp_packet,
}
use matf_master_vpn.MultiServer.{ClientIdentity, AcceptedSession, ClientRegistry, accept}

-- The engine holds the TUN device and the transport, which it shares with the server. `next_ref` is
-- where the next session object is made.
pub record MultiClientServer : Type 0 where
  pub registry : ClientRegistry
  pub engine : MultiClientServerEngine
  pub next_ref : Ref

-- A method of the engine that the server calls.
unfoldable pub on_engine {ℓ} :
    {A : Type ℓ} → Exec MultiClientServerEngine A → Exec MultiClientServer A
on_engine method s = let (r, e) = method s.engine in (r, record s { engine = e })

unfoldable pub count : Bool → ℕ
count forwarded = if forwarded then 1 else 0

-- `self._transport.send(accepted.response, remote_address)`
unfoldable pub respond : Packet → Address → Exec MultiClientServer (Unit {0})
respond response remote_address s = elim (send s.engine.transport response remote_address) [
  | err e ↦ (err e, s)
  | ok transport ↦ (ok tt, record s { engine = record s.engine { transport = transport } })
]

-- `if accepted.is_new: self._engine.replace_session(accepted.session)`
unfoldable pub establish : AcceptedSession → Exec MultiClientServer (Unit {0})
establish accepted s =
    if accepted.is_new then on_engine (replace_session accepted.session) s else (ok tt, s)

-- A new session takes its place in memory.
unfoldable pub allocate : Option ClientSession → MultiClientServer → MultiClientServer
allocate none s = s
allocate (some session) s = record s {
  engine = update s.next_ref session s.engine;
  next_ref = suc s.next_ref;
}

unfoldable pub keep_session : Option ClientSession → Exec MultiClientServer (Unit {0})
keep_session session s = (ok tt, allocate session s)

module _ (c : Primitives) where
  -- The branches of `run_once` on what the registry answered
  unfoldable pub admitted :
      Packet → Address → Option (AcceptedSession × Option ClientSession) → Exec MultiClientServer ℕ
  admitted packet remote_address none = do
    forwarded ← on_engine (handle_udp_packet c packet remote_address)
    pure (count forwarded)
  admitted packet remote_address (some (accepted, session)) = do
    keep_session session
    respond accepted.response remote_address
    establish accepted
    pure 0

  unfoldable pub accept_on :
      (ClientIdentity → Draw)
      → Packet
      → Address
      → Exec MultiClientServer (Option (AcceptedSession × Option ClientSession))
  accept_on draws packet remote_address s =
      let (r, registry) = accept c draws s.next_ref packet remote_address s.registry in
      (r, record s { registry = registry })

  unfoldable pub serve_received :
      (ClientIdentity → Draw) → Result (Packet × Address) → Exec MultiClientServer ℕ
  serve_received draws (err Error.invalid_packet) = pure 0
  serve_received draws (err e) = λ s. (err e, s)
  serve_received draws (ok (packet, remote_address)) = do
    answer ← accept_on draws packet remote_address
    admitted packet remote_address answer

  unfoldable pub serve_tun : Option Bytes → Exec MultiClientServer ℕ
  serve_tun none = pure 0
  serve_tun (some payload) = do
    forwarded ← on_engine (handle_tun_packet c payload)
    pure (count forwarded)

  unfoldable pub serve_udp : (ClientIdentity → Draw) → Option Datagram → Exec MultiClientServer ℕ
  serve_udp draws none = pure 0
  serve_udp draws (some datagram) = serve_received draws (receive (some datagram))

  unfoldable pub require_server : Exec MultiClientServer ℕ
  require_server s = (require_open s.engine.tun_device, s)

  -- MultiClientServer.run_once, after `select`
  unfoldable pub server_round :
      (ClientIdentity → Draw) → Option Bytes → Option Datagram → Exec MultiClientServer ℕ
  server_round draws tun_packet datagram = do
    require_server
    from_tun ← serve_tun tun_packet
    from_udp ← serve_udp draws datagram
    pure (from_tun + from_udp)

-- What `select` finds in one round: a packet of the device, a datagram of the socket, and what the
-- answers to a hello would draw.
pub record Arrivals : Type 0 where
  pub draws : ClientIdentity → Draw
  pub tun_packet : Option Bytes
  pub datagram : Option Datagram

-- MultiClientServer.run over what its rounds find; an exception ends it. In the source the loop has
-- no other end.
unfoldable pub server_run : Primitives → List Arrivals → Exec MultiClientServer (Unit {0})
server_run c [] s = (ok tt, s)
server_run c (found ∷ rest) s =
    continue (server_round c found.draws found.tun_packet found.datagram s)
      (λ forwarded. server_run c rest)
