-- ===== src/Engine/Steps.antt =====
-- engine.py: the methods of `TunnelEngine` that run.
use matf_master_vpn.Prelude.{
  ℕ, ◌+◌, ◌-◌, min, Bool, true, false, not, ◌||◌, Option, none, some, List, [], ◌∷◌, length, ltb,
  leb, ◌==◌, if◌then◌else◌, Error, Result, ok, err,
}
use matf_master_vpn.Prelude.Int.{pos, ◌==ℤ◌}
use matf_master_vpn.Prelude.Equality.{pair_eq, string_eq, nat_eq}
use matf_master_vpn.Prelude.Exec.{Exec, ◌>>=◌, ◌>>◌, pure}
use matf_master_vpn.Bytes.{Bytes}
use matf_master_vpn.Primitives.{Primitives}
use matf_master_vpn.Protocol.{Packet, MessageType, data_message, keepalive, same_type}
use matf_master_vpn.Replay.{is_replay, mark_authenticated}
use matf_master_vpn.Crypto.{Cipher, cipher_encrypt, cipher_decrypt}
use matf_master_vpn.Transport.{Address, Datagram, send, receive}
use matf_master_vpn.Tun.{require_open, write}
use matf_master_vpn.Engine.{TunnelEngine, max_sequence_number}

abbrev pub same_address : Address → Address → Bool
same_address = (pair_eq {A = Prim.Native.String.String} {B = ℕ}).beq

-- What `select` and the devices report in one round: a packet of the TUN device, a datagram of the
-- socket or the exception of `recvfrom`, and the clock when a packet was authenticated and when the keepalive was checked.
pub record Round : Type 0 where
  pub tun_packet : Option Bytes
  pub datagram : Option (Result Datagram)
  pub received_at : ℕ
  pub checked_at : ℕ

-- A packet handed to the transport: the number moves on only when it was sent.
unfoldable pub transmit : Result Packet → Exec TunnelEngine (Unit {0})
transmit (err e) engine = (err e, engine)
transmit (ok packet) engine = elim (send engine.transport packet engine.remote_address) [
  | err e ↦ (err e, engine)
  | ok transport ↦
      (ok tt, record engine { transport = transport; sequence_number = engine.sequence_number + 1 })
]

-- The packet after decryption: a keepalive is dropped, the payload of a data packet is written.
unfoldable pub deliver : Packet → Exec TunnelEngine Bool
deliver packet engine =
    if same_type packet.message_type keepalive
    then (ok false, engine)
    else elim (write engine.tun_device packet.payload) [
      | err e ↦ (err e, engine)
      | ok (written, device) ↦
          let after = record engine { tun_device = device } in
          if not (written == length packet.payload)
          then (err Error.os_error, after)
          else (ok true, after)
    ]

-- After a successful decryption: the mark of the window and the time of the receipt.
unfoldable pub authenticated : Packet → ℕ → Exec TunnelEngine Bool
authenticated packet now engine =
    elim (mark_authenticated engine.replay_window packet.sequence_number) [
      | err e ↦ (err e, engine)
      | ok window ↦
          deliver packet
            (record engine { replay_window = window; last_authenticated_receive = now })
    ]

unfoldable pub decrypted : Result Packet → ℕ → Exec TunnelEngine Bool
decrypted (ok packet) now engine = authenticated packet now engine
decrypted (err Error.invalid_tag) now engine = (ok false, engine)
decrypted (err e) now engine = (err e, engine)

-- `now - last >= timeout`; a timeout that is checked is positive, so `-` may stop at 0.
unfoldable pub check_liveness : ℕ → Exec TunnelEngine (Unit {0})
check_liveness now engine =
    if leb engine.liveness_timeout (now - engine.last_authenticated_receive)
    then (err Error.timeout_error, engine)
    else (ok tt, engine)

-- `fileno` of the TUN device, which raises when it is closed.
unfoldable pub require_descriptor : Exec TunnelEngine ℕ
require_descriptor engine = (require_open engine.tun_device, engine)

module _ (c : Primitives) where
  unfoldable pub protect : Option Cipher → Packet → Result Packet × Option Cipher
  protect none packet = (ok packet, none)
  protect (some cipher) packet =
      let (r, cipher') = cipher_encrypt c cipher packet in (r, some cipher')

  -- TunnelEngine._send_packet
  unfoldable pub send_packet : MessageType → Bytes → Exec TunnelEngine (Unit {0})
  send_packet message_type payload engine =
      if ltb max_sequence_number engine.sequence_number
      then (err Error.overflow_error, engine)
      else (let (packet, cipher) = protect engine.cipher (record {
        message_type = message_type;
        session_id = engine.session_id;
        sequence_number = pos engine.sequence_number;
        payload = payload;
      }) in
          transmit packet (record engine { cipher = cipher }))

  unfoldable pub open_packet : Option Cipher → Packet → ℕ → Exec TunnelEngine Bool
  open_packet none packet now engine = deliver packet engine
  open_packet (some cipher) packet now engine =
      if is_replay engine.replay_window packet.sequence_number
      then (ok false, engine)
      else (let (r, cipher') = cipher_decrypt c cipher packet in
          decrypted r now (record engine { cipher = some cipher' }))

  -- The tests of `_receive_udp_packet` on the packet, in the order of the source.
  unfoldable pub handle_packet : Packet → Address → ℕ → Exec TunnelEngine Bool
  handle_packet packet remote_address now engine =
      if not (same_address remote_address engine.remote_address)
      then (ok false, engine)
      else if not (packet.session_id ==ℤ engine.session_id)
      then (ok false, engine)
      else if not
          (same_type packet.message_type data_message || same_type packet.message_type keepalive)
      then (ok false, engine)
      else open_packet engine.cipher packet now engine

  unfoldable pub received : Result (Packet × Address) → ℕ → Exec TunnelEngine Bool
  received (ok (packet, remote_address)) now engine = handle_packet packet remote_address now engine
  received (err Error.invalid_packet) now engine = (ok false, engine)
  received (err e) now engine = (err e, engine)

  -- TunnelEngine._receive_udp_packet of the next datagram
  unfoldable pub receive_udp_packet : Datagram → ℕ → Exec TunnelEngine Bool
  receive_udp_packet datagram now engine = received (receive (some datagram)) now engine

  unfoldable pub forward_tun : Option Bytes → Exec TunnelEngine ℕ
  forward_tun none = pure 0
  forward_tun (some payload) = do send_packet data_message payload; pure 1

  unfoldable pub forward_udp : Option (Result Datagram) → ℕ → Exec TunnelEngine ℕ
  forward_udp none now = pure 0
  forward_udp (some (err e)) now = λ engine. (err e, engine)
  forward_udp (some (ok datagram)) now = do
    forwarded ← receive_udp_packet datagram now
    pure (if forwarded then 1 else 0)

  -- `if now >= self._next_keepalive`
  unfoldable pub send_keepalive : ℕ → Exec TunnelEngine (Unit {0})
  send_keepalive now engine =
      if leb engine.next_keepalive now
      then ((send_packet keepalive []
            >> (λ e. (ok tt, record e { next_keepalive = now + e.keepalive_interval })))
          engine)
      else (ok tt, engine)

  unfoldable pub maintain : ℕ → Exec TunnelEngine (Unit {0})
  maintain now engine =
      if engine.keepalive_interval == 0
      then (ok tt, engine)
      else (do send_keepalive now; check_liveness now) engine

  -- TunnelEngine.run_once, after `select`
  unfoldable pub run_once : Round → Exec TunnelEngine ℕ
  run_once round = do
    require_descriptor
    from_tun ← forward_tun round.tun_packet
    from_udp ← forward_udp round.datagram round.received_at
    maintain round.checked_at
    pure (from_tun + from_udp)

-- TunnelEngine._select_timeout; `none` waits without limit. `max(0, a - b)` is the subtraction that
-- stops at 0.
unfoldable pub select_timeout : TunnelEngine → Option ℕ → ℕ → Option ℕ
select_timeout engine requested now =
    if engine.keepalive_interval == 0
    then requested
    else (let internal =
          min (engine.next_keepalive - now)
            (engine.liveness_timeout + engine.last_authenticated_receive - now) in
        elim requested [ none ↦ some internal | some limit ↦ some (min limit internal) ])

module _ (c : Primitives) where
  -- TunnelEngine.run over the rounds to come; it ends at the first that raises.
  unfoldable pub run : List Round → Exec TunnelEngine (Unit {0})
  run [] = pure tt
  run (round ∷ rounds) = do run_once c round; run rounds
