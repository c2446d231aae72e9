-- ===== src/Engine/Accepted.antt =====
-- The numbers that an engine accepts, described without its replay window: from what arrives, and the
-- numbers that it accepted before.
use matf_master_vpn.Prelude.{
  ℕ, Bool, true, ◌||◌, Option, none, some, List, [], ◌∷◌, Result, ok, err, if◌then◌else◌,
}
use matf_master_vpn.Prelude.Int.{ℤ, pos, negsuc, ◌==ℤ◌}
use matf_master_vpn.Primitives.{Primitives}
use matf_master_vpn.Protocol.{Packet, data_message, keepalive, same_type}
use matf_master_vpn.Replay.Tracks.{refuses}
use matf_master_vpn.Crypto.{Cipher, cipher_decrypt}
use matf_master_vpn.Transport.{Address, Datagram, receive}
use matf_master_vpn.Engine.{TunnelEngine}
use matf_master_vpn.Engine.Steps.{Round, forward_tun, require_descriptor, run_once, same_address}

-- A number that is negative, was accepted before, or is 64 or more below the greatest accepted one
abbrev pub is_old : List ℕ → ℤ → Bool
is_old h (pos n) = refuses 64 h n
is_old h (negsuc n) = true

-- The history with the number of a packet that decrypted
abbrev pub with_number : ℤ → Result Packet → List ℕ → List ℕ
with_number (pos n) (ok opened) h = n ∷ h
with_number (negsuc n) (ok opened) h = h
with_number z (err e) h = h

-- What follows a call that returned, in the state that it left
abbrev pub if_returned :
    {A : Type 0} → Result A × TunnelEngine → (TunnelEngine → List ℕ → List ℕ) → List ℕ → List ℕ
if_returned (ok a, e) next h = next e h
if_returned (err x, e) next h = h

module _ (c : Primitives) where
  -- Without a cipher no number is accepted.
  unfoldable pub with_opened : Option Cipher → Packet → List ℕ → List ℕ
  with_opened none p h = h
  with_opened (some x) p h =
      if is_old h p.sequence_number
      then h
      else with_number p.sequence_number (cipher_decrypt c x p).0 h

  -- A packet of the peer, in the session, of an expected type
  unfoldable pub with_packet : Packet → Address → TunnelEngine → List ℕ → List ℕ
  with_packet p a e h =
      if same_address a e.remote_address
      then (if p.session_id ==ℤ e.session_id
          then (if same_type p.message_type data_message || same_type p.message_type keepalive
              then with_opened e.cipher p h
              else h)
          else h)
      else h

  abbrev pub with_received : Result (Packet × Address) → TunnelEngine → List ℕ → List ℕ
  with_received (ok (p, a)) e h = with_packet p a e h
  with_received (err x) e h = h

  unfoldable pub with_datagram : Option (Result Datagram) → TunnelEngine → List ℕ → List ℕ
  with_datagram none e h = h
  with_datagram (some (err x)) e h = h
  with_datagram (some (ok d)) e h = with_received (receive (some d)) e h

  -- A round: the datagram meets the state that the send of the packet from the device left.
  unfoldable pub with_round : Round → TunnelEngine → List ℕ → List ℕ
  with_round round e h =
      if_returned (require_descriptor e)
        (λ f. if_returned (forward_tun c round.tun_packet f) (with_datagram round.datagram)) h

  -- The history after a run
  unfoldable pub with_rounds : List Round → TunnelEngine → List ℕ → List ℕ
  with_rounds [] e h = h
  with_rounds (round ∷ rounds) e h =
      if_returned (run_once c round e) (with_rounds rounds) (with_round round e h)
