-- ===== src/Handshake/Attempts.antt =====
-- handshake.py: the loops end, with bounded traffic, and take the first good answer.
use matf_master_vpn.Prelude.{
  ℕ, zero, suc, ◌≤◌, ◌≡◌, refl, ap, true, Option, none, some, List, [], ◌∷◌, ◌++◌, Error, Result,
  ok, err, arith,
}
use matf_master_vpn.Bytes.{Bytes}
use matf_master_vpn.Primitives.{Primitives}
use matf_master_vpn.Protocol.{Packet, encode}
use matf_master_vpn.Transport.{Address, Datagram, UdpTransport, send}
use matf_master_vpn.Handshake.{ClientHandshakeState, finish_client_handshake}
use matf_master_vpn.Handshake.Rounds.{
  attempt, or_continue, client_attempts, first_arrival, later_arrivals,
}

-- `n` copies of a datagram, the traffic of `n` attempts.
abbrev pub copies : ℕ → Datagram → List Datagram
copies zero d = []
copies (suc n) d = d ∷ copies n d

-- The answer of one attempt before those of the later ones, with the number of attempts made.
abbrev pub before_others {ℓ} : {A : Type ℓ} → Result (Option A) → Result A × ℕ → Result A × ℕ
before_others (err e) others = (err e, 1)
before_others (ok none) others = (others.0, suc others.1)
before_others (ok (some a)) others = (ok a, 1)

-- The specification of both loops: the first attempt that ends them, by an answer or an exception.
abbrev pub first_answer {ℓ} :
    {A : Type ℓ} → ℕ → (Option Datagram → Result (Option A)) → List (Option Datagram) → Result A × ℕ
first_answer zero handle arrivals = (err Error.timeout_error, 0)
first_answer (suc n) handle arrivals =
    before_others (handle (first_arrival arrivals))
      (first_answer n handle (later_arrivals arrivals))

-- The socket after `n` more copies of a datagram.
abbrev pub having_sent : ℕ → Datagram → UdpTransport → UdpTransport
having_sent n d t = record t { sent = copies n d ++ t.sent }

copies-cons :
    (n : ℕ) (d : Datagram) (ds : List Datagram) → copies n d ++ (d ∷ ds) ≡ d ∷ (copies n d ++ ds)
copies-cons zero d ds = refl
copies-cons (suc n) d ds = ap (◌∷◌ d) (copies-cons n d ds)

send-accepted :
    (t : UdpTransport) (p : Packet) (a : Address) {b : Bytes}
    → encode p ≡ ok b
    → t.accepts (record { contents = b; address = a }) ≡ true
    → send t p a ≡ ok (record t { sent = record { contents = b; address = a } ∷ t.sent })
unfolding send
send-accepted t p a encoded accepted = rw (encoded, accepted) refl

before_others_bound {ℓ} :
    {A : Type ℓ} (r : Result (Option A)) (others : Result A × ℕ) (n : ℕ)
    → others.1 ≤ n
    → (before_others r others).1 ≤ suc n
before_others_bound (err e) others n h = omega arith
before_others_bound (ok none) others n h = omega arith
before_others_bound (ok (some a)) others n h = omega arith

first_answer_bound {ℓ} :
    {A : Type ℓ} (n : ℕ) (handle : Option Datagram → Result (Option A))
    (arrivals : List (Option Datagram))
    → (first_answer n handle arrivals).1 ≤ n
first_answer_bound zero handle arrivals = omega arith
first_answer_bound (suc n) handle arrivals =
    before_others_bound (handle (first_arrival arrivals)) _ n
      (first_answer_bound n handle (later_arrivals arrivals))

or_continue-sent :
    (d : Datagram) (r : Result (Option Bytes)) (others : Result Bytes × ℕ) (t : UdpTransport)
    → or_continue r (having_sent 1 d t) (others.0, having_sent others.1 d (having_sent 1 d t))
      ≡ ((before_others r others).0, having_sent (before_others r others).1 d t)
unfolding or_continue
or_continue-sent d (err e) others t = refl
or_continue-sent d (ok none) others t =
    ap (λ sent. (others.0, record t { sent = sent })) (copies-cons others.1 d t.sent)
or_continue-sent d (ok (some a)) others t = refl

module _ (c : Primitives) (hello : Packet) (state : ClientHandshakeState)
    (remote_address : Address) where
  abbrev pub client_answer : ℕ → List (Option Datagram) → Result Bytes × ℕ
  client_answer attempts arrivals =
      first_answer attempts (attempt remote_address (finish_client_handshake c state)) arrivals

  -- The client's loop over any arrivals gives the first answer that ends it, within `attempts`
  -- attempts, and has then sent the hello once for each attempt that it made, when the hello can be
  -- encoded and the system accepts it; without such an answer it raises `TimeoutError`.
  pub client_attempts-first_answer :
      (attempts : ℕ) (arrivals : List (Option Datagram)) (t : UdpTransport) {contents : Bytes}
      → encode hello ≡ ok contents
      → t.accepts (record { contents = contents; address = remote_address }) ≡ true
      → (client_attempts c hello state remote_address attempts arrivals t ≡ (
        (client_answer attempts arrivals).0,
        having_sent
            (client_answer attempts arrivals).1
            (record { contents = contents; address = remote_address })
            t,
      ))
        × ((client_answer attempts arrivals).1 ≤ attempts)
  unfolding client_attempts
  client_attempts-first_answer attempts arrivals t {contents} encoded accepted =
      (go attempts arrivals t accepted, first_answer_bound attempts _ arrivals)
    where
      go :
          (attempts : ℕ) (arrivals : List (Option Datagram)) (t : UdpTransport)
          → t.accepts (record { contents = contents; address = remote_address }) ≡ true
          → client_attempts c hello state remote_address attempts arrivals t ≡ (
            (client_answer attempts arrivals).0,
            having_sent
                (client_answer attempts arrivals).1
                (record { contents = contents; address = remote_address })
                t,
          )
      go zero arrivals t accepted = refl
      go (suc n) arrivals t accepted =
          rw
            (
              client_attempts,
              send-accepted t hello remote_address encoded accepted,
              go n (later_arrivals arrivals)
                  (having_sent 1 (record { contents = contents; address = remote_address }) t)
                  accepted,
            )
            (or_continue-sent (record { contents = contents; address = remote_address })
              (attempt remote_address (finish_client_handshake c state) (first_arrival arrivals))
              (client_answer n (later_arrivals arrivals)) t)
