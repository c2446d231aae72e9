-- ===== src/MultiClient/Steps.antt =====
-- multi_client.py: the methods of `MultiClientServerEngine`.
use matf_master_vpn.Prelude.{
  ℕ, ◌+◌, Bool, true, false, not, Option, none, some, length, ltb, ◌==◌, if◌then◌else◌, Error,
  Result, ok, err,
}
use matf_master_vpn.Prelude.Int.{ℤ, pos, int_eq}
use matf_master_vpn.Prelude.Equality.{pair_eq, string_eq, nat_eq}
use matf_master_vpn.Prelude.Exec.{Exec, ◌>>=◌, ◌>>◌, pure}
use matf_master_vpn.Bytes.{Bytes}
use matf_master_vpn.Primitives.{Primitives}
use matf_master_vpn.OrderedDict.{get, put, remove}
use matf_master_vpn.Protocol.{Packet, data_message, same_type}
use matf_master_vpn.Replay.{is_replay, mark_authenticated}
use matf_master_vpn.Crypto.{cipher_encrypt, cipher_decrypt}
use matf_master_vpn.Transport.{Address, Datagram, send, receive}
use matf_master_vpn.Tun.{write, require_open}
use matf_master_vpn.Engine.{max_sequence_number}
use matf_master_vpn.MultiClient.{
  ClientSession, MultiClientServerEngine, SessionKey, Ref, key_of, assign, ipv4_source,
  ipv4_destination,
}

abbrev pub is_some {ℓ} : {A : Type ℓ} → Option A → Bool
is_some none = false
is_some (some a) = true

-- `ClientSession.x = v` on the session at a reference
unfoldable pub update : Ref → ClientSession → MultiClientServerEngine → MultiClientServerEngine
update ref session e = record e { objects = assign ref session e.objects }

-- The two stores of `add_session`
unfoldable pub link : Ref → MultiClientServerEngine → MultiClientServerEngine
link ref e = record e {
  sessions = put (key_of (e.objects ref)) ref e.sessions;
  routes = put (e.objects ref).tunnel_address ref e.routes;
}

-- MultiClientServerEngine.add_session
unfoldable pub add_session : Ref → Exec MultiClientServerEngine (Unit {0})
add_session ref e =
    if is_some (get (key_of (e.objects ref)) e.sessions)
    then (err Error.value_error, e)
    else if is_some (get (e.objects ref).tunnel_address e.routes)
    then (err Error.value_error, e)
    else (ok tt, link ref e)

-- The two pops of `remove_session`, of the session at a reference
unfoldable pub unlink : SessionKey → Ref → MultiClientServerEngine → MultiClientServerEngine
unlink key ref e = record e {
  sessions = remove key e.sessions;
  routes = remove (e.objects ref).tunnel_address e.routes;
}

unfoldable pub remove_found : SessionKey → Option Ref → Exec MultiClientServerEngine (Unit {0})
remove_found key none e = (err Error.key_error, e)
remove_found key (some ref) e = (ok tt, unlink key ref e)

-- MultiClientServerEngine.remove_session
unfoldable pub remove_session : Address → ℤ → Exec MultiClientServerEngine (Unit {0})
remove_session remote_address session_id e =
    remove_found (remote_address, session_id) (get (remote_address, session_id) e.sessions) e

unfoldable pub remove_existing : Option Ref → Exec MultiClientServerEngine (Unit {0})
remove_existing none e = (ok tt, e)
remove_existing (some existing) e =
    remove_session (e.objects existing).remote_address (e.objects existing).session_id e

-- MultiClientServerEngine.replace_session
unfoldable pub replace_session : Ref → Exec MultiClientServerEngine (Unit {0})
replace_session ref e =
    (remove_existing (get (e.objects ref).tunnel_address e.routes) >> add_session ref) e

-- The send of `handle_tun_packet`; the sequence number moves on only when it succeeds.
unfoldable pub send_to : Ref → Result Packet → Exec MultiClientServerEngine Bool
send_to ref (err e) engine = (err e, engine)
send_to ref (ok packet) engine =
    elim (send engine.transport packet (engine.objects ref).remote_address) [
      | err e ↦ (err e, engine)
      | ok transport ↦ (
        ok true,
        update ref
            (record (engine.objects ref) { send_sequence = (engine.objects ref).send_sequence + 1 })
            (record engine { transport = transport }),
      )
    ]

-- `written` after the write of `handle_udp_packet`
unfoldable pub deliver_payload : Bytes → Exec MultiClientServerEngine Bool
deliver_payload payload engine = elim (write engine.tun_device payload) [
  | err e ↦ (err e, engine)
  | ok (written, device) ↦
      let after = record engine { tun_device = device } in
      if not (written == length payload) then (err Error.os_error, after) else (ok true, after)
]

-- The packet of a session whose source address is right: mark its number, and write its payload.
unfoldable pub accept_from : Ref → ℤ → Bytes → Exec MultiClientServerEngine Bool
accept_from ref sequence_number payload engine =
    elim (mark_authenticated (engine.objects ref).replay_window sequence_number) [
      | err e ↦ (err e, engine)
      | ok window ↦
          deliver_payload payload
            (update ref (record (engine.objects ref) { replay_window = window }) engine)
    ]

-- The check of the source address.
unfoldable pub check_source : Ref → ℤ → Bytes → Result ℕ → Exec MultiClientServerEngine Bool
check_source ref sequence_number payload (err e) engine = (ok false, engine)
check_source ref sequence_number payload (ok source) engine =
    if not (source == (engine.objects ref).tunnel_address)
    then (ok false, engine)
    else accept_from ref sequence_number payload engine

unfoldable pub opened_by : Ref → ℤ → Result Packet → Exec MultiClientServerEngine Bool
opened_by ref sequence_number (ok decrypted) engine =
    check_source ref sequence_number decrypted.payload (ipv4_source decrypted.payload) engine
opened_by ref sequence_number (err Error.invalid_tag) engine = (ok false, engine)
opened_by ref sequence_number (err e) engine = (err e, engine)

module _ (c : Primitives) where
  -- `handle_tun_packet` once the route is found
  unfoldable pub forward_to : Bytes → Ref → Exec MultiClientServerEngine Bool
  forward_to payload ref engine =
      if ltb max_sequence_number (engine.objects ref).send_sequence
      then (err Error.overflow_error, engine)
      else (let (packet, cipher) = cipher_encrypt c (engine.objects ref).cipher (record {
        message_type = data_message;
        session_id = (engine.objects ref).session_id;
        sequence_number = pos (engine.objects ref).send_sequence;
        payload = payload;
      }) in
          send_to ref packet (update ref (record (engine.objects ref) { cipher = cipher }) engine))

  unfoldable pub route : Bytes → Option Ref → Exec MultiClientServerEngine Bool
  route payload none engine = (ok false, engine)
  route payload (some ref) engine = forward_to payload ref engine

  unfoldable pub route_to : Bytes → Result ℕ → Exec MultiClientServerEngine Bool
  route_to payload (err e) engine = (ok false, engine)
  route_to payload (ok destination) engine = route payload (get destination engine.routes) engine

  -- MultiClientServerEngine.handle_tun_packet
  unfoldable pub handle_tun_packet : Bytes → Exec MultiClientServerEngine Bool
  handle_tun_packet payload engine = route_to payload (ipv4_destination payload) engine

  -- `handle_udp_packet` of a data packet of the session at a reference
  unfoldable pub open_from : Packet → Ref → Exec MultiClientServerEngine Bool
  open_from packet ref engine =
      if is_replay (engine.objects ref).replay_window packet.sequence_number
      then (ok false, engine)
      else (let (r, cipher) = cipher_decrypt c (engine.objects ref).cipher packet in
          opened_by ref packet.sequence_number r
            (update ref (record (engine.objects ref) { cipher = cipher }) engine))

  unfoldable pub dispatch : Packet → Option Ref → Exec MultiClientServerEngine Bool
  dispatch packet none engine = (ok false, engine)
  dispatch packet (some ref) engine =
      if not (same_type packet.message_type data_message)
      then (ok false, engine)
      else open_from packet ref engine

  -- MultiClientServerEngine.handle_udp_packet
  unfoldable pub handle_udp_packet : Packet → Address → Exec MultiClientServerEngine Bool
  handle_udp_packet packet remote_address engine =
      dispatch packet (get (remote_address, packet.session_id) engine.sessions) engine

  unfoldable pub handle_received : Result (Packet × Address) → Exec MultiClientServerEngine Bool
  handle_received (ok (packet, remote_address)) engine =
      handle_udp_packet packet remote_address engine
  handle_received (err Error.invalid_packet) engine = (ok false, engine)
  handle_received (err e) engine = (err e, engine)

  -- MultiClientServerEngine._forward_udp_packet of the next datagram
  unfoldable pub forward_udp_packet : Datagram → Exec MultiClientServerEngine Bool
  forward_udp_packet datagram engine = handle_received (receive (some datagram)) engine

  unfoldable pub tun_forwarded : Option Bytes → Exec MultiClientServerEngine ℕ
  tun_forwarded none = pure 0
  tun_forwarded (some payload) = do
    forwarded ← handle_tun_packet payload
    pure (if forwarded then 1 else 0)

  unfoldable pub udp_forwarded : Option Datagram → Exec MultiClientServerEngine ℕ
  udp_forwarded none = pure 0
  udp_forwarded (some datagram) = do
    forwarded ← forward_udp_packet datagram
    pure (if forwarded then 1 else 0)

  unfoldable pub require_server_descriptor : Exec MultiClientServerEngine ℕ
  require_server_descriptor engine = (require_open engine.tun_device, engine)

  -- MultiClientServerEngine.run_once, after `select`
  unfoldable pub serve_once : Option Bytes → Option Datagram → Exec MultiClientServerEngine ℕ
  serve_once tun_packet datagram = do
    require_server_descriptor
    from_tun ← tun_forwarded tun_packet
    from_udp ← udp_forwarded datagram
    pure (from_tun + from_udp)
