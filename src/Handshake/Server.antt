-- ===== src/Handshake/Server.antt =====
-- handshake.py: the loop of `run_server_handshake` and what may arrive in it.
use matf_master_vpn.Prelude.{
  ℕ, zero, suc, ◌≤◌, ◌≡◌, refl, Option, none, some, List, [], ◌∷◌, inl, inr, Error, Result, ok, err,
  Raises, ◌⊎◌, ◌>>=◌, Bool-cases, Result-cases, take, length, arith, ◌+◌,
}
use matf_master_vpn.Bytes.{Bytes, AreBytes}
use matf_master_vpn.Primitives.{Primitives}
use matf_master_vpn.Protocol.{Packet, decode, header_size, max_payload_size, max_udp_datagram_size}
use matf_master_vpn.Protocol.Wire.{IsEncodable, encode-IsEncodable}
use matf_master_vpn.Protocol.Codec.{decode_errors, encode-decode, AreBytes-take}
use matf_master_vpn.Transport.{Address, Datagram, UdpTransport, receive}
use matf_master_vpn.Engine.Steps.{same_address}
use matf_master_vpn.Handshake.{Draw, accept_client_hello}
use matf_master_vpn.Handshake.Authenticity.{accept_client_hello-Raises}
use matf_master_vpn.Handshake.Rounds.{
  attempt, or_retry_receive, or_retry_value, from_remote, or_continue, accept_received,
  server_attempts, first_arrival, later_arrivals,
}

-- What arrives holds bytes.
abbrev pub AreArrivals : List (Option Datagram) → Type 0
AreArrivals [] = Unit
AreArrivals (none ∷ arrivals) = AreArrivals arrivals
AreArrivals (some d ∷ arrivals) = AreBytes d.contents × AreArrivals arrivals

-- A result that is no exception.
abbrev Returns {ℓ} : {A : Type ℓ} → Result A → Type ℓ
Returns {A} r = (a : A) × (r ≡ ok a)

module _ (c : Primitives) (draw : Draw) (b peer : Bytes) (remote : Address) where
  value-Returns :
      (p : Packet) → IsEncodable p → Returns (or_retry_value (accept_received c draw b peer p))
  unfolding or_retry_value accept_received
  value-Returns p fits = elim (Result-cases (accept_client_hello c draw p b peer)) [
    | inl (answer, accepted) ↦ rw accepted (some (p, answer), refl)
    | inr (x, refused) ↦
        let value : x ≡ Error.value_error =
          accept_client_hello-Raises c draw p fits.session b peer fits.session_is fits.session_fits
            x refused in
        rw (refused, value) (none, refl)
  ]

  from_remote-Returns :
      (p : Packet) (a : Address)
      → IsEncodable p
      → Returns (from_remote remote (accept_received c draw b peer) (some (p, a)))
  unfolding from_remote
  from_remote-Returns p a fits = elim (Bool-cases (same_address a remote)) [
    | inr other ↦ rw other (none, refl)
    | inl same ↦ rw same (value-Returns p fits)
  ]

  received-Returns :
      (r : Result (Packet × Address))
      → (r ≡ err Error.timeout_error)
        ⊎ ((r ≡ err Error.invalid_packet)
            ⊎ ((p : Packet) × (a : Address) × (r ≡ ok (p, a)) × IsEncodable p))
      → Returns (or_retry_receive r >>= from_remote remote (accept_received c draw b peer))
  unfolding or_retry_receive from_remote
  received-Returns r (inl late) = rw late (none, refl)
  received-Returns r (inr (inl invalid)) = rw invalid (none, refl)
  received-Returns r (inr (inr (p, a, is, fits))) = rw is (from_remote-Returns p a fits)

length-take_bounded : {A : Type 0} (n : ℕ) (xs : List A) → length (take n xs) ≤ n
length-take_bounded zero xs = omega arith
length-take_bounded (suc n) [] = omega arith
length-take_bounded (suc n) (x ∷ xs) = omega (arith, length-take_bounded n xs)

pub receive-cases :
    (d : Datagram)
    → AreBytes d.contents
    → (receive (some d) ≡ err Error.timeout_error)
      ⊎ ((receive (some d) ≡ err Error.invalid_packet)
          ⊎ ((p : Packet) × (a : Address) × (receive (some d) ≡ ok (p, a)) × IsEncodable p))
unfolding receive
receive-cases d bytes =
    let front = take (header_size + max_payload_size) d.contents in
    elim (Result-cases (decode front)) [
      | inr (x, failed) ↦
          let invalid : x ≡ Error.invalid_packet = decode_errors front failed in
          inr (inl (rw (failed, invalid) refl))
      | inl (p, decoded) ↦
          let fits : length front ≤ max_udp_datagram_size =
            omega (arith, length-take_bounded (header_size + max_payload_size) d.contents) in
          let encoded =
            encode-decode front (AreBytes-take (header_size + max_payload_size) d.contents bytes)
              fits decoded in
          inr (inr (p, d.address, rw decoded refl, encode-IsEncodable p encoded))
    ]

module _ (c : Primitives) (b peer : Bytes) (remote : Address) where
  attempt-Returns :
      (draw : Draw) (arrivals : List (Option Datagram))
      → AreArrivals arrivals
      → Returns (attempt remote (accept_received c draw b peer) (first_arrival arrivals))
  unfolding attempt receive
  attempt-Returns draw [] h = received-Returns c draw b peer remote _ (inl refl)
  attempt-Returns draw (none ∷ arrivals) h = received-Returns c draw b peer remote _ (inl refl)
  attempt-Returns draw (some d ∷ arrivals) h =
      received-Returns c draw b peer remote _ (receive-cases d h.0)

  pub later-AreArrivals :
      (arrivals : List (Option Datagram))
      → AreArrivals arrivals
      → AreArrivals (later_arrivals arrivals)
  later-AreArrivals [] h = h
  later-AreArrivals (none ∷ arrivals) h = h
  later-AreArrivals (some d ∷ arrivals) h = h.1

  or_continue-timeout :
      (r : Result (Option (Packet × (Packet × Bytes)))) (t : UdpTransport)
      (rest : Result (Packet × (Packet × Bytes)) × UdpTransport)
      → Returns r
      → Raises Error.timeout_error rest.0
      → Raises Error.timeout_error (or_continue r t rest).0
  unfolding or_continue
  or_continue-timeout (ok none) t rest returns h raised e = h raised e
  or_continue-timeout (ok (some x)) t rest returns h raised e = cc
  or_continue-timeout (err x) t rest returns h raised e = absurd (cc returns.1)

  -- Whatever datagrams of bytes arrive, from whomever, the loop of the server raises nothing but
  -- `TimeoutError`, after which the endpoint reconnects.
  pub server_attempts-Raises :
      (draws : ℕ → Draw) (attempts : ℕ) (arrivals : List (Option Datagram)) (t : UdpTransport)
      → AreArrivals arrivals
      → Raises Error.timeout_error (server_attempts c draws b peer remote attempts arrivals t).0
  unfolding server_attempts
  server_attempts-Raises draws zero arrivals t h raised e = cc
  server_attempts-Raises draws (suc n) arrivals t h raised e =
      or_continue-timeout _ t _ (attempt-Returns (draws n) arrivals h)
        (server_attempts-Raises draws n (later_arrivals arrivals) t (later-AreArrivals arrivals h))
        raised e
