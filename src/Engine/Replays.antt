-- ===== src/Engine/Replays.antt =====
-- A datagram that was delivered is not delivered again.
use matf_master_vpn.Prelude.{
  ℕ, ◌≡◌, refl, ap, ◌∙◌, true, false, ◌||◌, some, List, Error, Result, ok, err, arith, Result-cases,
  Bool-cases, inl, inr,
}
use matf_master_vpn.Prelude.Int.{ℤ, pos, ◌==ℤ◌}
use matf_master_vpn.Primitives.{Primitives}
use matf_master_vpn.Protocol.{Packet, data_message, keepalive, same_type}
use matf_master_vpn.Replay.{ReplayWindow, is_replay, mark_authenticated}
use matf_master_vpn.Replay.History.{is_replay-history}
use matf_master_vpn.Replay.Tracks.{accept, Reaches}
use matf_master_vpn.Crypto.{Cipher, cipher_decrypt}
use matf_master_vpn.Crypto.Sessions.{cipher_decrypt-fields}
use matf_master_vpn.Transport.{Address, Datagram, receive}
use matf_master_vpn.Tun.{write}
use matf_master_vpn.Engine.{TunnelEngine}
use matf_master_vpn.Engine.Steps.{
  deliver, authenticated, decrypted, open_packet, handle_packet, received, receive_udp_packet,
  same_address,
}
use matf_master_vpn.Engine.Sound.{IsSound}
use matf_master_vpn.Engine.Invariant.{mark-pos}

-- What delivery keeps of an engine.
record SameSession (e f : TunnelEngine) : Type 0 where
  address : f.remote_address ≡ e.remote_address
  session : f.session_id ≡ e.session_id
  cipher : f.cipher ≡ e.cipher
  window : f.replay_window ≡ e.replay_window

deliver-SameSession : (p : Packet) (e : TunnelEngine) → SameSession e (deliver p e).1
unfolding deliver write
deliver-SameSession p e = ground arith

-- The engine after a packet with this number was authenticated.
record HasAccepted (e f : TunnelEngine) (z : ℤ) : Type 0 where
  address : f.remote_address ≡ e.remote_address
  session : f.session_id ≡ e.session_id
  cipher : f.cipher ≡ e.cipher
  refused : is_replay f.replay_window z ≡ true

mark-is_replay :
    {w v : ReplayWindow} {h : List ℕ} (z : ℤ)
    → Reaches 64 w h
    → mark_authenticated w z ≡ ok v
    → is_replay v z ≡ true
mark-is_replay {w} {v} {h} z r marked =
    let (n, n_is) = mark-pos w z marked in
    let again : is_replay v (pos n) ≡ true =
      is_replay-history (accept n r (rw n_is at marked)) n ∙ ground arith in
    rw n_is again

authenticated-HasAccepted :
    (p : Packet) (now : ℕ) (e : TunnelEngine) {h : List ℕ}
    → Reaches 64 e.replay_window h
    → (authenticated p now e).0 ≡ ok true
    → HasAccepted e (authenticated p now e).1 p.sequence_number
unfolding authenticated
authenticated-HasAccepted p now e r done =
    elim (Result-cases (mark_authenticated e.replay_window p.sequence_number)) [
      | inr (f, failed) ↦ absurd (ground arith)
      | inl (w, marked) ↦
          let kept =
            deliver-SameSession p
              (record e { replay_window = w; last_authenticated_receive = now }) in
          rw (marked, authenticated)
            (record {
              address = kept.address;
              session = kept.session;
              cipher = kept.cipher;
              refused =
                  ap (λ v. is_replay v p.sequence_number) kept.window
                  ∙ mark-is_replay p.sequence_number r marked;
            })
    ]

decrypted-HasAccepted :
    (m : Result Packet) (now : ℕ) (e : TunnelEngine) (z : ℤ) {h : List ℕ}
    → Reaches 64 e.replay_window h
    → ((q : Packet) → m ≡ ok q → q.sequence_number ≡ z)
    → (decrypted m now e).0 ≡ ok true
    → HasAccepted e (decrypted m now e).1 z
unfolding decrypted
decrypted-HasAccepted (ok p) now e z r same done =
    rw (← same p refl) (authenticated-HasAccepted p now e r done)
decrypted-HasAccepted (err Error.invalid_tag) now e z r same done = cc done
decrypted-HasAccepted (err _) now e z r same done = cc done

module _ (c : Primitives) (x : Cipher) where
  -- A packet that was delivered once is refused with no effect.
  record IsSpent (p : Packet) (e f : TunnelEngine) : Type 0 where
    address : f.remote_address ≡ e.remote_address
    session : f.session_id ≡ e.session_id
    again : (now : ℕ) → open_packet c f.cipher p now f ≡ (ok false, f)

  refused_open :
      (y : Cipher) (p : Packet) (now : ℕ) (f : TunnelEngine)
      → is_replay f.replay_window p.sequence_number ≡ true
      → open_packet c (some y) p now f ≡ (ok false, f)
  unfolding open_packet
  refused_open y p now f refused = rw refused

  open_packet-IsSpent :
      (p : Packet) (now : ℕ) (e : TunnelEngine) {h : List ℕ}
      → Reaches 64 e.replay_window h
      → (open_packet c (some x) p now e).0 ≡ ok true
      → IsSpent p e (open_packet c (some x) p now e).1
  unfolding open_packet
  open_packet-IsSpent p now e r done =
      elim (Bool-cases (is_replay e.replay_window p.sequence_number)) [
        | inl replay ↦ absurd (ground arith)
        | inr fresh ↦
            let opened = cipher_decrypt c x p in
            let e' : TunnelEngine = record e { cipher = some opened.1 } in
            let f = (decrypted opened.0 now e').1 in
            let k =
              decrypted-HasAccepted opened.0 now e' p.sequence_number r
                (λ q plain. (cipher_decrypt-fields c x p plain).2) (rw fresh at done) in
            rw fresh (record {
              address = k.address;
              session = k.session;
              again = λ later.
                  ap (λ y. open_packet c y p later f) k.cipher
                  ∙ refused_open opened.1 p later f k.refused;
            })
      ]

  handle_packet-again :
      (p : Packet) (a : Address) (now later : ℕ) (e : TunnelEngine) {h : List ℕ}
      → e.cipher ≡ some x
      → Reaches 64 e.replay_window h
      → (handle_packet c p a now e).0 ≡ ok true
      → handle_packet c p a later (handle_packet c p a now e).1
        ≡ (ok false, (handle_packet c p a now e).1)
  unfolding handle_packet
  handle_packet-again p a now later e keyed r done =
      let opens : open_packet c e.cipher p now e ≡ open_packet c (some x) p now e =
        ap (λ y. open_packet c y p now e) keyed in
      elim (Bool-cases (same_address a e.remote_address)) [
        | inr stranger ↦ absurd (ground arith)
        | inl from_peer ↦ elim (Bool-cases (p.session_id ==ℤ e.session_id)) [
          | inr other ↦ absurd (ground arith)
          | inl same ↦
              elim (Bool-cases
                (same_type p.message_type data_message || same_type p.message_type keepalive)) [
                  | inr unexpected ↦ absurd (ground arith)
                  | inl expected ↦
                      let k =
                        open_packet-IsSpent p now e r
                          (rw (from_peer, same, expected, opens) at done) in
                      rw (from_peer, same, expected, opens, k.address, k.session, from_peer, same)
                        (k.again later)
                ]
        ]
      ]

  unaccepted : (f : Error) (now : ℕ) (e : TunnelEngine) → ¬ ((received c (err f) now e).0 ≡ ok true)
  unfolding received
  unaccepted Error.invalid_packet now e h = cc h
  unaccepted _ now e h = cc h

  -- In a sound engine with a cipher, a datagram whose payload was delivered is dropped when it is the
  -- next to arrive again, and the engine is left exactly as it was, cipher, window and clock included.
  pub receive_udp_packet-again :
      (d : Datagram) (now later : ℕ) {h : List ℕ} (e : TunnelEngine)
      → IsSound h e
      → e.cipher ≡ some x
      → (receive_udp_packet c d now e).0 ≡ ok true
      → receive_udp_packet c d later (receive_udp_packet c d now e).1
        ≡ (ok false, (receive_udp_packet c d now e).1)
  unfolding receive_udp_packet
  receive_udp_packet-again d now later e s keyed done = elim (Result-cases (receive (some d))) [
    | inr (f, failed) ↦ absurd (unaccepted f now e (rw failed at done))
    | inl ((p, a), arrived) ↦ rw arrived (
        unfold received in
        handle_packet-again p a now later e keyed s.window (unfold received in rw arrived at done))
  ]
