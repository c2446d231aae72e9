-- ===== src/Engine/Sound.antt =====
-- The invariant of a `TunnelEngine`, and that sending a packet keeps it.
use native.Mathlib.Numerals.{add-one}
use matf_master_vpn.Prelude.{
  ℕ, zero, suc, ◌≡◌, refl, ap, ◌∙◌, Option, none, some, List, [], ◌∷◌, ◌++◌, Result, ok, err, arith,
  Result-cases, Bool-cases, inl, inr, ltb,
}
use matf_master_vpn.Prelude.Int.{ℤ, pos}
use matf_master_vpn.Prelude.Exec.{Exec, continue, ◌>>=◌}
use matf_master_vpn.Bytes.{Bytes}
use matf_master_vpn.Primitives.{Primitives}
use matf_master_vpn.Protocol.{Packet, MessageType, encode, decode}
use matf_master_vpn.Protocol.Codec.{decode-encode}
use matf_master_vpn.Replay.Tracks.{Reaches}
use matf_master_vpn.Crypto.{Cipher}
use matf_master_vpn.Crypto.Sessions.{cipher_encrypt-fields}
use matf_master_vpn.Transport.{Address, Datagram, UdpTransport, send}
use matf_master_vpn.Engine.{TunnelEngine, max_sequence_number}
use matf_master_vpn.Engine.Steps.{transmit, protect, send_packet}

-- The datagram decodes to a packet of the session with this number.
abbrev pub IsNumber : ℤ → ℕ → Datagram → Type 0
IsNumber session n d =
    (p : Packet) × (decode d.contents ≡ ok p)
    × (p.session_id ≡ session)
    × (p.sequence_number ≡ pos n)

-- The datagrams, newest first, carry the numbers below `n`, each once and in order.
abbrev pub Numbered : ℤ → List Datagram → ℕ → Type 0
Numbered session [] zero = Unit
Numbered session [] (suc n) = ⊥
Numbered session (d ∷ ds) zero = ⊥
Numbered session (d ∷ ds) (suc n) = IsNumber session n d × Numbered session ds n

-- The datagrams that the engine sent are numbered below its next number, after those that were there
-- before it, and its window is that of the history `h`.
pub record IsSound (h : List ℕ) (e : TunnelEngine) : Type 0 where
  pub own : List Datagram
  pub earlier : List Datagram
  pub sent_is : e.transport.sent ≡ own ++ earlier
  pub numbered : Numbered e.session_id own e.sequence_number
  pub window : Reaches 64 e.replay_window h

-- What the receiving side leaves alone.
pub record SameSending (e f : TunnelEngine) : Type 0 where
  pub sent : f.transport.sent ≡ e.transport.sent
  pub number : f.sequence_number ≡ e.sequence_number
  pub session : f.session_id ≡ e.session_id

pub IsSound-SameSending :
    {h : List ℕ} {e f : TunnelEngine} (s : IsSound h e)
    → SameSending e f
    → f.replay_window ≡ e.replay_window
    → IsSound h f
IsSound-SameSending s k w = record {
  own = s.own;
  earlier = s.earlier;
  sent_is = k.sent ∙ s.sent_is;
  numbered = rw (k.number, k.session) s.numbered;
  window = rw w s.window;
}

pub send-sent :
    (t : UdpTransport) (p : Packet) (a : Address) {u : UdpTransport}
    → send t p a ≡ ok u
    → (b : Bytes) × (encode p ≡ ok b)
      × (u ≡ record t { sent = record { contents = b; address = a } ∷ t.sent })
unfolding send
send-sent t p a e = elim (Result-cases (encode p)) [
  | inl (b, encoded) ↦ (b, encoded, ground arith)
  | inr (x, failed) ↦ absurd (ground arith)
]

IsSound-transmit :
    {h : List ℕ} (e : TunnelEngine) (p : Packet)
    → IsSound h e
    → p.session_id ≡ e.session_id
    → p.sequence_number ≡ pos e.sequence_number
    → IsSound h (transmit (ok p) e).1
unfolding transmit
IsSound-transmit e p s session number = elim (Result-cases (send e.transport p e.remote_address)) [
  | inr (x, failed) ↦ rw (failed, transmit) s
  | inl (t, done) ↦
      let (b, encoded, t_is) = send-sent e.transport p e.remote_address done in
      rw (done, transmit, t_is, add-one)
        (record {
          own = record { contents = b; address = e.remote_address } ∷ s.own;
          earlier = s.earlier;
          sent_is = ap (◌∷◌ (record { contents = b; address = e.remote_address })) s.sent_is;
          numbered = ((p, decode-encode p encoded, session, number), s.numbered);
          window = s.window;
        })
]

IsSound-transmit_any :
    {h : List ℕ} (r : Result Packet) (e : TunnelEngine)
    → IsSound h e
    → ((p : Packet)
        → r ≡ ok p
        → (p.session_id ≡ e.session_id) × (p.sequence_number ≡ pos e.sequence_number))
    → IsSound h (transmit r e).1
unfolding transmit
IsSound-transmit_any (err x) e s fields = s
IsSound-transmit_any (ok p) e s fields = IsSound-transmit e p s (fields p refl).0 (fields p refl).1

pub IsSound-cipher :
    {h : List ℕ} {e : TunnelEngine} (x : Option Cipher)
    → IsSound h e
    → IsSound h (record e { cipher = x })
IsSound-cipher x s = record {
  own = s.own;
  earlier = s.earlier;
  sent_is = s.sent_is;
  numbered = s.numbered;
  window = s.window;
}

pub IsSound-keepalive :
    {h : List ℕ} {e : TunnelEngine} (n : ℕ)
    → IsSound h e
    → IsSound h (record e { next_keepalive = n })
IsSound-keepalive n s = record {
  own = s.own;
  earlier = s.earlier;
  sent_is = s.sent_is;
  numbered = s.numbered;
  window = s.window;
}

-- The packet that `_send_packet` builds.
abbrev pub outgoing : MessageType → Bytes → TunnelEngine → Packet
outgoing t payload e = record {
  message_type = t;
  session_id = e.session_id;
  sequence_number = pos e.sequence_number;
  payload = payload;
}

pub IsSound-bind :
    {h : List ℕ} {A B : Type 0} (m : Exec TunnelEngine A) (f : A → Exec TunnelEngine B)
    (e : TunnelEngine)
    → IsSound h (m e).1
    → ((a : A) (s : TunnelEngine) → IsSound h s → IsSound h (f a s).1)
    → IsSound h ((m >>= f) e).1
IsSound-bind {h} {A} m f e sound k = go (m e) sound
  where
    go : (r : Result A × TunnelEngine) → IsSound h r.1 → IsSound h (continue r f).1
    go (ok a, s) g = k a s g
    go (err x, s) g = g

module _ (c : Primitives) where
  protect-fields :
      (x : Option Cipher) (p : Packet) {q : Packet}
      → (protect c x p).0 ≡ ok q
      → (q.session_id ≡ p.session_id) × (q.sequence_number ≡ p.sequence_number)
  unfolding protect
  protect-fields none p e = (cc e, cc e)
  protect-fields (some x) p e =
      let (kind, session, number) = cipher_encrypt-fields c x p e in (session, number)

  -- Sending a packet, whether it succeeds or raises.
  pub IsSound-send_packet :
      {h : List ℕ} (t : MessageType) (payload : Bytes) (e : TunnelEngine)
      → IsSound h e
      → IsSound h (send_packet c t payload e).1
  unfolding send_packet
  IsSound-send_packet t payload e s =
      elim (Bool-cases (ltb max_sequence_number e.sequence_number)) [
        | inl spent ↦ rw spent s
        | inr left ↦ rw left (
            IsSound-transmit_any _ _ (IsSound-cipher _ s)
              (λ q sealed. protect-fields e.cipher (outgoing t payload e) sealed))
      ]
