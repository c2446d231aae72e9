-- ===== src/Handshake/Survival.antt =====
-- handshake.py: how `run_server_handshake` can end.
use matf_master_vpn.Prelude.{
  ℕ, zero, suc, ◌≤◌, ◌≡◌, refl, sym, ap, ◌∙◌, Bool, true, Option, none, some, List, [], ◌∷◌, ◌++◌,
  Error, Result, ok, err, Result-cases, Bool-cases, inl, inr, ◌⊎◌, >>=-eq-ok, is_os_error,
  is_value_error, length, length-append, arith,
}
use matf_master_vpn.Prelude.Int.{ℤ, pos, pos_part}
use matf_master_vpn.Bytes.{Bytes}
use matf_master_vpn.Primitives.{Primitives, AgreementLaws, HkdfLaws}
use matf_master_vpn.Protocol.{Packet, max_payload_size}
use matf_master_vpn.Protocol.Wire.{IsEncodable, encode-eq-wire}
use matf_master_vpn.Crypto.{Cipher, server, create_cipher}
use matf_master_vpn.Crypto.Creation.{create_cipher_total}
use matf_master_vpn.Transport.{Address, Datagram, UdpTransport, send, receive}
use matf_master_vpn.KeyAgreement.{derive_shared_secret}
use matf_master_vpn.Engine.Steps.{same_address}
use matf_master_vpn.Handshake.{
  Draw, accept_client_hello, derive_session_secret, mixed_secrets, session_key, handshake_context,
}
use matf_master_vpn.Handshake.Messages.{IsDraw, hello_tag-size, accept_client_hello-IsAnswer}
use matf_master_vpn.Handshake.Rounds.{
  attempt, or_retry_receive, or_retry_value, from_remote, or_continue, accept_received,
  server_attempts, server_session, run_server_handshake, session_cipher, first_arrival,
  later_arrivals,
}
use matf_master_vpn.Handshake.Server.{
  AreArrivals, server_attempts-Raises, receive-cases, later-AreArrivals,
}

module _ (c : Primitives) where
  length-derive_session_secret :
      (laws : HkdfLaws c) (x px s ps ch sh : Bytes) (own : Bool) {secret : Bytes}
      → derive_session_secret c x px s ps ch sh own ≡ ok secret
      → length secret ≡ 32
  unfolding derive_session_secret session_key
  length-derive_session_secret laws x px s ps ch sh own {secret} e =
      let (ee, a, e₁) = >>=-eq-ok (derive_shared_secret c x px) _ e in
      let ((es, se), b, e₂) = >>=-eq-ok (mixed_secrets c x px s ps own) _ e₁ in
      let (ss, d, e₃) = >>=-eq-ok (derive_shared_secret c s ps) _ e₂ in
      let key = c.hkdf 32 (c.sha256 (ch ++ sh)) handshake_context (ee ++ es ++ se ++ ss) in
      let is : key ≡ secret = cc e₃ in ap length (sym is) ∙ laws.length-hkdf 32 _ _ _

  -- What an accepted hello leads to: an answer that can be encoded and a secret of 32 bytes
  record IsUsable (hello response : Packet) (secret : Bytes) : Type 0 where
    session : ℕ
    session_is : hello.session_id ≡ pos session
    session_fits : session ≤ 0xffffffff
    answer : IsEncodable response
    long : 32 ≤ length secret

  accepted-IsUsable :
      (laws : AgreementLaws c) (kdf : HkdfLaws c) (draw : Draw) (hello : Packet) (b peer : Bytes)
      {response : Packet} {secret : Bytes}
      → IsDraw draw
      → IsEncodable hello
      → accept_client_hello c draw hello b peer ≡ ok (response, secret)
      → IsUsable hello response secret
  accepted-IsUsable laws kdf draw hello b peer {response} {secret} d fits accepted =
      let a = accept_client_hello-IsAnswer c draw hello b peer accepted in
      let body = c.x25519_public draw.private_key ++ draw.random in
      let tag_size = hello_tag-size c laws a.static_secret _ hello.session_id _ a.tagged in
      let size : length (body ++ a.tag) ≤ max_payload_size = omega (
        arith,
        length-append body a.tag,
        length-append (c.x25519_public draw.private_key) draw.random,
        laws.length-public draw.private_key,
        d.random_drawn,
        tag_size,
      ) in
      let secret_size : length secret ≡ 32 =
        length-derive_session_secret kdf _ _ _ _ _ _ _ a.secret_is in
      record {
        session = fits.session;
        session_is = fits.session_is;
        session_fits = fits.session_fits;
        answer = rw a.response_is (record {
          session = fits.session;
          sequence = 0;
          session_is = fits.session_is;
          sequence_is = refl;
          session_fits = fits.session_fits;
          sequence_fits = omega arith;
          payload_fits = size;
        });
        long = omega (arith, secret_size);
      }

-- The attempt accepted this hello with this answer.
abbrev Accepts : Primitives → Draw → Bytes → Bytes → Packet → Packet × Bytes → Type 0
Accepts c draw b peer hello answer =
    IsEncodable hello × (accept_client_hello c draw hello b peer ≡ ok answer)

module _ (c : Primitives) (draw : Draw) (b peer : Bytes) (remote : Address) where
  value-Accepts :
      (p hello : Packet) (answer : Packet × Bytes)
      → IsEncodable p
      → or_retry_value (accept_received c draw b peer p) ≡ ok (some (hello, answer))
      → Accepts c draw b peer hello answer
  unfolding or_retry_value accept_received
  value-Accepts p hello answer fits e = elim (Result-cases (accept_client_hello c draw p b peer)) [
    | inl (given, accepted) ↦
        let same : Result.ok (some (p, given)) ≡ ok (some (hello, answer)) =
          rw (accepted, or_retry_value, accept_received) at e in
        let hello_is : p ≡ hello = cc same in
        let answer_is : given ≡ answer = cc same in
        (rw (← hello_is) fits, rw (← hello_is, ← answer_is) accepted)
    | inr (x, refused) ↦ elim (Bool-cases (is_value_error x)) [
      | inl value ↦ absurd (cc (rw (refused, or_retry_value, accept_received, value) at e))
      | inr other ↦ absurd (cc (rw (refused, or_retry_value, accept_received, other) at e))
    ]
  ]

  remote-Accepts :
      (p hello : Packet) (a : Address) (answer : Packet × Bytes)
      → IsEncodable p
      → from_remote remote (accept_received c draw b peer) (some (p, a)) ≡ ok (some (hello, answer))
      → Accepts c draw b peer hello answer
  unfolding from_remote
  remote-Accepts p hello a answer fits e = elim (Bool-cases (same_address a remote)) [
    | inr other ↦ absurd (cc (rw (other, from_remote) at e))
    | inl same ↦ value-Accepts p hello answer fits (rw (same, from_remote) at e)
  ]

  attempt-Accepts :
      (arrivals : List (Option Datagram)) (hello : Packet) (answer : Packet × Bytes)
      → AreArrivals arrivals
      → attempt remote (accept_received c draw b peer) (first_arrival arrivals)
        ≡ ok (some (hello, answer))
      → Accepts c draw b peer hello answer
  unfolding attempt or_retry_receive from_remote receive
  attempt-Accepts [] hello answer h e = absurd (cc e)
  attempt-Accepts (none ∷ arrivals) hello answer h e = absurd (cc e)
  attempt-Accepts (some d ∷ arrivals) hello answer h e = elim (receive-cases d h.0) [
    | inl late ↦ absurd (cc (rw (late, or_retry_receive, from_remote) at e))
    | inr (inl invalid) ↦ absurd (cc (rw (invalid, or_retry_receive, from_remote) at e))
    | inr (inr (p, a, is, fits)) ↦
        remote-Accepts p hello a answer fits (rw (is, or_retry_receive) at e)
  ]

send_errors :
    (t : UdpTransport) (p : Packet) (a : Address) {x : Error}
    → IsEncodable p
    → send t p a ≡ err x
    → x ≡ Error.os_error
unfolding send
send_errors t p a fits e = let encoded = encode-eq-wire p fits in ground arith

or_continue-ok :
    (r : Result (Option (Packet × (Packet × Bytes)))) (t : UdpTransport)
    (rest : Result (Packet × (Packet × Bytes)) × UdpTransport) (a : Packet × (Packet × Bytes))
    → (or_continue r t rest).0 ≡ ok a
    → (r ≡ ok (some a)) ⊎ (rest.0 ≡ ok a)
unfolding or_continue
or_continue-ok (ok none) t rest a e = inr e
or_continue-ok (ok (some b)) t rest a e = inl (cc e)
or_continue-ok (err x) t rest a e = absurd (cc e)

module _ (c : Primitives) (b peer : Bytes) (remote : Address) (draws : ℕ → Draw) where
  server_attempts-Accepts :
      (attempts : ℕ) (arrivals : List (Option Datagram)) (t : UdpTransport) (hello : Packet)
      (answer : Packet × Bytes)
      → AreArrivals arrivals
      → (server_attempts c draws b peer remote attempts arrivals t).0 ≡ ok (hello, answer)
      → (k : ℕ) × Accepts c (draws k) b peer hello answer
  unfolding server_attempts
  server_attempts-Accepts zero arrivals t hello answer h e = absurd (cc e)
  server_attempts-Accepts (suc n) arrivals t hello answer h e =
      let r = attempt remote (accept_received c (draws n) b peer) (first_arrival arrivals) in
      let rest = server_attempts c draws b peer remote n (later_arrivals arrivals) t in
      elim (or_continue-ok r t rest (hello, answer) e) [
        | inl here ↦ (n, attempt-Accepts c (draws n) b peer remote arrivals hello answer h here)
        | inr later ↦
            server_attempts-Accepts n (later_arrivals arrivals) t hello answer
              (later-AreArrivals c b peer remote arrivals h) later
      ]

  module _ (laws : AgreementLaws c) (kdf : HkdfLaws c) (rate : ℕ) where
    -- What is left to fail is the socket.
    session-Survives :
        (r : Result (Packet × (Packet × Bytes))) (t : UdpTransport)
        → ((x : Error) → r ≡ err x → is_os_error x ≡ true)
        → ((hello response : Packet) (secret : Bytes)
            → r ≡ ok (hello, (response, secret))
            → IsUsable c hello response secret)
        → (x : Error) → (server_session c remote (pos rate) (r, t)).0 ≡ err x
        → is_os_error x ≡ true
    unfolding server_session session_cipher
    session-Survives (err y) t fails usable x e = let same : y ≡ x = cc e in fails x (ap err same)
    session-Survives (ok (hello, (response, secret))) t fails usable x e =
        let u = usable hello response secret refl in
        let (cipher, made) =
          create_cipher_total c kdf secret u.session server u.long u.session_fits rate in
        let created : create_cipher c secret hello.session_id server (pos rate) ≡ ok cipher =
          ap (λ s. create_cipher c secret s server (pos rate)) u.session_is ∙ made in
        elim (Result-cases (send t response remote)) [
          | inr (y, failed) ↦
              let same : y ≡ x = cc (rw (failed, server_session) at e) in
              let socket : y ≡ Error.os_error = send_errors t response remote u.answer failed in
              rw (← same, socket) refl
          | inl (t', went) ↦ absurd (cc (rw (went, server_session, session_cipher, created) at e))
        ]

    -- Whatever datagrams of bytes arrive, from whomever: the handshake of the server ends with a
    -- session id and a cipher, or with an `OSError`, a timeout included, after which the endpoint tries
    -- again. No other exception is raised.
    pub run_server_handshake-Survives :
        (attempts : ℤ) (arrivals : List (Option Datagram)) (t : UdpTransport)
        → ((k : ℕ) → IsDraw (draws k))
        → AreArrivals arrivals
        → ((i : ℤ) × (cipher : Cipher) × ((run_server_handshake c draws remote b peer attempts
                (pos rate)
                arrivals
                t).0
              ≡ ok (i, cipher)))
          ⊎ ((x : Error) × ((run_server_handshake c draws remote b peer attempts
                  (pos rate)
                  arrivals
                  t).0
                ≡ err x)
              × (is_os_error x ≡ true))
    unfolding run_server_handshake
    run_server_handshake-Survives attempts arrivals t drawn h =
        let loop = server_attempts c draws b peer remote (pos_part attempts) arrivals t in
        let late = λ (y : Error) (failed : loop.0 ≡ err y).
          let is : y ≡ Error.timeout_error =
            server_attempts-Raises c b peer remote draws (pos_part attempts) arrivals t h y
              failed in
          let caught : is_os_error y ≡ true = rw is refl in caught in
        let usable =
          λ (hello response : Packet) (secret : Bytes)
              (accepted : loop.0 ≡ ok (hello, (response, secret))).
            let (k, got) =
              server_attempts-Accepts (pos_part attempts) arrivals t hello (response, secret) h
                accepted in
            accepted-IsUsable c laws kdf (draws k) hello b peer (drawn k) got.0 got.1 in
        elim (Result-cases (server_session c remote (pos rate) loop).0) [
          | inl (session, is) ↦ inl (session.0, session.1, is)
          | inr (x, failed) ↦ inr (x, failed, session-Survives loop.0 loop.1 late usable x failed)
        ]
