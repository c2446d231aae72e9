-- ===== src/MultiServer/Answers.antt =====
-- multi_server.py: which reference an answer of the registry holds.
use matf_master_vpn.Prelude.{
  ◌⊎◌, ◌≡◌, true, false, Option, none, some, inl, inr, Result, ok, err, Bool-cases, Result-cases,
}
use matf_master_vpn.Bytes.{Bytes}
use matf_master_vpn.Primitives.{Primitives}
use matf_master_vpn.OrderedDict.{get}
use matf_master_vpn.Prelude.Equality.{bytes_eq}
use matf_master_vpn.Protocol.{Packet, client_hello, same_type}
use matf_master_vpn.Handshake.{Draw}
use matf_master_vpn.Transport.{Address}
use matf_master_vpn.MultiClient.{ClientSession, Ref}
use matf_master_vpn.MultiServer.{
  ClientIdentity, AcceptedSession, ClientRegistry, new_session, identify, admit, identified, recall,
  fingerprinted, fingerprint_of, accept,
}

-- What `accept` answers: a known session with no new object, or a new one at `fresh`.
abbrev pub AnswersAt : Ref → AcceptedSession → Option ClientSession → Type 0
AnswersAt fresh accepted o =
    ((accepted.is_new ≡ false) × (o ≡ none))
    ⊎ ((accepted.session ≡ fresh) × ((s : ClientSession) × (o ≡ some s)))

module _ (c : Primitives) (draws : ClientIdentity → Draw) (fresh : Ref) (p : Packet) (a : Address)
    (registry : ClientRegistry) where
  admit-AnswersAt :
      (print : Bytes) (found : Option (ClientIdentity × (Packet × Bytes)))
      {accepted : AcceptedSession} {o : Option ClientSession}
      → (admit c print fresh p a registry found).0 ≡ ok (some (accepted, o))
      → AnswersAt fresh accepted o
  unfolding admit
  admit-AnswersAt print none e = cc
  admit-AnswersAt print (some (identity, (response, secret))) {accepted} {o} e =
      elim (Result-cases (new_session c registry.packets_per_key p a identity secret)) [
        | inr (x, failed) ↦
            let clash : err x ≡ ok (some (accepted, o)) = rw (admit, failed) at e in
            absurd (cc clash)
        | inl (s, made) ↦
            let made_now : AcceptedSession = record {
              response = response;
              session = fresh;
              identity = identity;
              is_new = true;
            } in
            let answer : ok (some (made_now, some s)) ≡ ok (some (accepted, o)) =
              rw (admit, made) at e in
            inr (cc answer, (s, cc answer))
      ]

  identified-AnswersAt :
      (print : Bytes) (r : Result (Option (ClientIdentity × (Packet × Bytes))))
      {accepted : AcceptedSession} {o : Option ClientSession}
      → (identified c print fresh p a registry r).0 ≡ ok (some (accepted, o))
      → AnswersAt fresh accepted o
  unfolding identified
  identified-AnswersAt print (err x) e = cc
  identified-AnswersAt print (ok found) e = admit-AnswersAt print found e

  recall-AnswersAt :
      (print : Bytes) (cached : Option AcceptedSession) {accepted : AcceptedSession}
      {o : Option ClientSession}
      → (recall c draws print fresh p a registry cached).0 ≡ ok (some (accepted, o))
      → AnswersAt fresh accepted o
  unfolding recall
  recall-AnswersAt print none e =
      identified-AnswersAt print (identify c registry.server_private_key p draws registry.clients) e
  recall-AnswersAt print (some known) e = inl (cc e, cc e)

  pub accept-AnswersAt :
      {accepted : AcceptedSession} {o : Option ClientSession}
      → (accept c draws fresh p a registry).0 ≡ ok (some (accepted, o))
      → AnswersAt fresh accepted o
  unfolding accept fingerprinted
  accept-AnswersAt {accepted} {o} e = elim (Bool-cases (same_type p.message_type client_hello)) [
    | inr other ↦ let clash : ok none ≡ ok (some (accepted, o)) = rw other at e in absurd (cc clash)
    | inl hello ↦ elim (Result-cases (fingerprint_of c p)) [
      | inr (x, failed) ↦
          let clash : err x ≡ ok (some (accepted, o)) = rw (hello, failed) at e in absurd (cc clash)
      | inl (print, printed) ↦
          recall-AnswersAt print (get print registry.accepted_hellos) (rw (hello, printed) at e)
    ]
  ]
