-- ===== src/Engine/Invariant.antt =====
-- The state of a `TunnelEngine` over any run: the numbers of the packets that it sent, and the
-- history behind its replay window.
use matf_master_vpn.Prelude.{
  ℕ, ◌+◌, ◌-◌, ◌||◌, ◌≡◌, refl, sym, ap, ◌∙◌, false, Option, none, some, List, [], ◌∷◌, Error,
  Result, ok, err, arith, Result-cases, Bool-cases, inl, inr, leb, ◌==◌,
}
use matf_master_vpn.Prelude.Int.{ℤ, pos, negsuc, ◌==ℤ◌}
use matf_master_vpn.Bytes.{Bytes}
use matf_master_vpn.Primitives.{Primitives}
use matf_master_vpn.Protocol.{Packet, data_message, keepalive, same_type}
use matf_master_vpn.Replay.{ReplayWindow, new_window, is_replay, mark_authenticated}
use matf_master_vpn.Replay.Tracks.{start, accept, Reaches}
use matf_master_vpn.Replay.History.{is_replay-history}
use matf_master_vpn.Prelude.Exec.{Exec, continue, ◌>>=◌}
use matf_master_vpn.Crypto.{Cipher, cipher_decrypt}
use matf_master_vpn.Crypto.Sessions.{cipher_decrypt-fields}
use matf_master_vpn.Transport.{Address, Datagram, UdpTransport, receive}
use matf_master_vpn.Tun.{TunDevice, write}
use matf_master_vpn.Engine.{TunnelEngine, new_engine}
use matf_master_vpn.Engine.Steps.{
  Round, deliver, send_packet, authenticated, decrypted, open_packet, handle_packet,
  receive_udp_packet, require_descriptor, forward_tun, forward_udp, send_keepalive, check_liveness,
  maintain, received, run_once, run, same_address,
}
use matf_master_vpn.Engine.Accepted.{
  is_old, with_number, if_returned, with_opened, with_packet, with_received, with_datagram,
  with_round, with_rounds,
}
use matf_master_vpn.Engine.Sound.{
  IsSound, SameSending, IsSound-SameSending, IsSound-cipher, IsSound-keepalive, IsSound-bind,
  IsSound-send_packet,
}

-- The second call runs where the first returned, and may accept more.
IsSound-then :
    {h : List ℕ} {A B : Type 0} (m : Exec TunnelEngine A) (f : A → Exec TunnelEngine B)
    (e : TunnelEngine) (next : TunnelEngine → List ℕ → List ℕ)
    → IsSound h (m e).1
    → ((a : A) (s : TunnelEngine) → IsSound h s → IsSound (next s h) (f a s).1)
    → IsSound (if_returned (m e) next h) ((m >>= f) e).1
IsSound-then {h} {A} m f e next sound k = go (m e) sound
  where
    go :
        (r : Result A × TunnelEngine)
        → IsSound h r.1
        → IsSound (if_returned r next h) (continue r f).1
    go (ok a, s) g = k a s g
    go (err x, s) g = g

-- The receiving side, from the inside out.
deliver-SameSending : (p : Packet) (e : TunnelEngine) → SameSending e (deliver p e).1
unfolding deliver write
deliver-SameSending p e = ground arith

deliver-window : (p : Packet) (e : TunnelEngine) → (deliver p e).1.replay_window ≡ e.replay_window
unfolding deliver write
deliver-window p e = ground arith

IsSound-deliver :
    {h : List ℕ} (p : Packet) (e : TunnelEngine) → IsSound h e → IsSound h (deliver p e).1
IsSound-deliver p e s = IsSound-SameSending s (deliver-SameSending p e) (deliver-window p e)

pub mark_fresh :
    (w : ReplayWindow) (n : ℕ)
    → is_replay w (pos n) ≡ false
    → (v : ReplayWindow) × (mark_authenticated w (pos n) ≡ ok v)
unfolding mark_authenticated
mark_fresh w n fresh = rw fresh (_, refl)

pub mark-pos :
    (w : ReplayWindow) (z : ℤ) {v : ReplayWindow}
    → mark_authenticated w z ≡ ok v
    → (n : ℕ) × (z ≡ pos n)
unfolding mark_authenticated is_replay
mark-pos w (pos n) e = (n, refl)
mark-pos w (negsuc n) e = absurd (ground arith)

-- The window refuses just the numbers that are old.
is_replay-is_old :
    {w : ReplayWindow} {h : List ℕ} (z : ℤ) → Reaches 64 w h → is_replay w z ≡ is_old h z
unfolding is_replay
is_replay-is_old (pos n) r = is_replay-history r n
is_replay-is_old (negsuc n) r = ground arith

IsSound-authenticated :
    {h : List ℕ} (p : Packet) (n now : ℕ) (e : TunnelEngine)
    → IsSound h e
    → p.sequence_number ≡ pos n
    → is_replay e.replay_window (pos n) ≡ false
    → IsSound (n ∷ h) (authenticated p now e).1
unfolding authenticated
IsSound-authenticated p n now e s number fresh =
    let (w, marked) = mark_fresh e.replay_window n fresh in
    let marks : mark_authenticated e.replay_window p.sequence_number ≡ ok w =
      ap (mark_authenticated e.replay_window) number ∙ marked in
    rw (marks, authenticated)
      (IsSound-deliver p _ (record {
        own = s.own;
        earlier = s.earlier;
        sent_is = s.sent_is;
        numbered = s.numbered;
        window = accept n s.window marked;
      }))

IsSound-decrypted :
    {h : List ℕ} (z : ℤ) (r : Result Packet) (now : ℕ) (e : TunnelEngine)
    → IsSound h e
    → ((p : Packet) → r ≡ ok p → p.sequence_number ≡ z)
    → is_replay e.replay_window z ≡ false
    → IsSound (with_number z r h) (decrypted r now e).1
unfolding decrypted is_replay
IsSound-decrypted (pos n) (ok p) now e s number fresh =
    IsSound-authenticated p n now e s (number p refl) fresh
IsSound-decrypted (negsuc n) (ok p) now e s number fresh = absurd (ground arith)
IsSound-decrypted (pos n) (err Error.invalid_tag) now e s number fresh = s
IsSound-decrypted (pos n) (err _) now e s number fresh = s
IsSound-decrypted (negsuc n) (err Error.invalid_tag) now e s number fresh = s
IsSound-decrypted (negsuc n) (err _) now e s number fresh = s

module _ (c : Primitives) where
  IsSound-open_packet :
      {h : List ℕ} (x : Option Cipher) (p : Packet) (now : ℕ) (e : TunnelEngine)
      → IsSound h e
      → IsSound (with_opened c x p h) (open_packet c x p now e).1
  unfolding open_packet with_opened
  IsSound-open_packet none p now e s = IsSound-deliver p e s
  IsSound-open_packet {h} (some x) p now e s =
      let tested = is_replay-is_old p.sequence_number s.window in
      elim (Bool-cases (is_replay e.replay_window p.sequence_number)) [
        | inl replay ↦ rw (replay, sym tested ∙ replay) s
        | inr fresh ↦
            let opened = cipher_decrypt c x p in
            rw (fresh, sym tested ∙ fresh)
              (IsSound-decrypted p.sequence_number opened.0 now _ (IsSound-cipher _ s)
                (λ q is. (cipher_decrypt-fields c x p is).2) fresh)
      ]

  IsSound-handle_packet :
      {h : List ℕ} (p : Packet) (a : Address) (now : ℕ) (e : TunnelEngine)
      → IsSound h e
      → IsSound (with_packet c p a e h) (handle_packet c p a now e).1
  unfolding handle_packet with_packet
  IsSound-handle_packet p a now e s = elim (Bool-cases (same_address a e.remote_address)) [
    | inr stranger ↦ rw stranger s
    | inl from_peer ↦ elim (Bool-cases (p.session_id ==ℤ e.session_id)) [
      | inr other ↦ rw (from_peer, other) s
      | inl same ↦
          elim (Bool-cases
            (same_type p.message_type data_message || same_type p.message_type keepalive)) [
              | inr unexpected ↦ rw (from_peer, same, unexpected) s
              | inl expected ↦
                  rw (from_peer, same, expected) (IsSound-open_packet e.cipher p now e s)
            ]
    ]
  ]

  IsSound-received :
      {h : List ℕ} (r : Result (Packet × Address)) (now : ℕ) (e : TunnelEngine)
      → IsSound h e
      → IsSound (with_received c r e h) (received c r now e).1
  unfolding received
  IsSound-received (ok (p, a)) now e s = IsSound-handle_packet p a now e s
  IsSound-received (err Error.invalid_packet) now e s = s
  IsSound-received (err _) now e s = s

  IsSound-forward_tun :
      {h : List ℕ} (payload : Option Bytes) (e : TunnelEngine)
      → IsSound h e
      → IsSound h (forward_tun c payload e).1
  unfolding forward_tun
  IsSound-forward_tun none e s = s
  IsSound-forward_tun (some payload) e s =
      IsSound-bind (send_packet c data_message payload) _ e
        (IsSound-send_packet c data_message payload e s) (λ a f t. t)

  IsSound-forward_udp :
      {h : List ℕ} (d : Option (Result Datagram)) (now : ℕ) (e : TunnelEngine)
      → IsSound h e
      → IsSound (with_datagram c d e h) (forward_udp c d now e).1
  unfolding forward_udp with_datagram receive_udp_packet
  IsSound-forward_udp none now e s = s
  IsSound-forward_udp (some (err x)) now e s = s
  IsSound-forward_udp (some (ok d)) now e s =
      IsSound-bind (receive_udp_packet c d now) _ e (IsSound-received (receive (some d)) now e s)
        (λ a f t. t)

  IsSound-send_keepalive :
      {h : List ℕ} (now : ℕ) (e : TunnelEngine) → IsSound h e → IsSound h (send_keepalive c now e).1
  unfolding send_keepalive
  IsSound-send_keepalive now e s =
      let due =
        IsSound-bind (send_packet c keepalive [])
          (λ _ f. (ok tt, record f { next_keepalive = now + f.keepalive_interval })) e
          (IsSound-send_packet c keepalive [] e s)
          (λ a f t. IsSound-keepalive (now + f.keepalive_interval) t) in
      elim (Bool-cases (leb e.next_keepalive now)) [
        | inl now_due ↦ rw now_due due
        | inr later ↦ rw later s
      ]

  IsSound-check_liveness :
      {h : List ℕ} (now : ℕ) (e : TunnelEngine) → IsSound h e → IsSound h (check_liveness now e).1
  unfolding check_liveness
  IsSound-check_liveness now e s =
      elim (Bool-cases (leb e.liveness_timeout (now - e.last_authenticated_receive))) [
        | inl silent ↦ rw silent s
        | inr alive ↦ rw alive s
      ]

  IsSound-maintain :
      {h : List ℕ} (now : ℕ) (e : TunnelEngine) → IsSound h e → IsSound h (maintain c now e).1
  unfolding maintain
  IsSound-maintain now e s =
      let upkeep =
        IsSound-bind (send_keepalive c now) (λ _. check_liveness now) e
          (IsSound-send_keepalive now e s) (λ a f t. IsSound-check_liveness now f t) in
      elim (Bool-cases (e.keepalive_interval == 0)) [
        | inl disabled ↦ rw disabled s
        | inr enabled ↦ rw enabled upkeep
      ]

  IsSound-run_once :
      {h : List ℕ} (round : Round) (e : TunnelEngine)
      → IsSound h e
      → IsSound (with_round c round e h) (run_once c round e).1
  unfolding run_once with_round require_descriptor
  IsSound-run_once round e s = IsSound-then require_descriptor _ e _ s λ descriptor e1 s1.
      IsSound-then (forward_tun c round.tun_packet) _ e1 _
        (IsSound-forward_tun round.tun_packet e1 s1)
        λ from_tun e2 s2.
          IsSound-bind (forward_udp c round.datagram round.received_at) _ e2
            (IsSound-forward_udp round.datagram round.received_at e2 s2)
            λ from_udp e3 s3.
              IsSound-bind (maintain c round.checked_at) _ e3
                (IsSound-maintain round.checked_at e3 s3) (λ a f t. t)

  -- A run of any rounds, ended by an exception or not, numbers the packets that it sends from 0 on
  -- without a gap or a repetition, and its replay window is what marking leads to of the numbers
  -- that it accepted: of each round whose datagram came from the peer, in the session, with an
  -- expected type and a number that was not old, and that the cipher decrypted, the number, in
  -- order, and no other.
  pub IsSound-run :
      (rounds : List Round) {h : List ℕ} (e : TunnelEngine)
      → IsSound h e
      → IsSound (with_rounds c rounds e h) (run c rounds e).1
  unfolding run with_rounds
  IsSound-run [] e s = s
  IsSound-run (round ∷ rounds) e s =
      IsSound-then (run_once c round) _ e _ (IsSound-run_once round e s)
        (λ a f t. IsSound-run rounds f t)

-- A new engine has sent nothing of its own, and its window is new.
pub IsSound-new_engine :
    (tun : TunDevice) (t : UdpTransport) (a : Address) (session : ℤ) (x : Option Cipher)
    (interval timeout : ℤ) (now : ℕ) {e : TunnelEngine}
    → new_engine tun t a session x interval timeout now ≡ ok e
    → IsSound [] e
unfolding new_engine
IsSound-new_engine tun t a session x interval timeout now {e} made =
    elim (Result-cases (new_window (pos 64))) [
      | inr (f, failed) ↦ absurd (ground arith)
      | inl (w, made_window) ↦
          let zero_sent : e.sequence_number ≡ 0 = ground arith in
          let window : e.replay_window ≡ w = ground arith in
          record {
            own = [];
            earlier = e.transport.sent;
            sent_is = refl;
            numbered = rw zero_sent tt;
            window = rw window (start made_window);
          }
    ]
