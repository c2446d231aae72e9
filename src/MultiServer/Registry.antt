-- ===== src/MultiServer/Registry.antt =====
-- multi_server.py: what `ClientRegistry.accept` answers, and its cache.
use matf_master_vpn.Prelude.{
  arith, ◌<◌, List, length, ◌≡◌, refl, sym, ap, ◌∙◌, true, false, Option, none, some, inl, inr,
  Result, ok, err, Bool-cases, Option-cases, Result-cases,
}
use matf_master_vpn.Prelude.Equality.{bytes_eq}
use matf_master_vpn.Bytes.{Bytes}
use matf_master_vpn.Primitives.{Primitives}
use matf_master_vpn.OrderedDict.{get}
use matf_master_vpn.OrderedDict.Recent.{Recent-put_bounded, Recent-move_to_end}
use matf_master_vpn.Protocol.{Packet, client_hello, same_type}
use matf_master_vpn.Handshake.{Draw}
use matf_master_vpn.Transport.{Address}
use matf_master_vpn.MultiClient.{ClientSession, Ref}
use matf_master_vpn.MultiServer.{
  ClientIdentity, AcceptedSession, ClientRegistry, fingerprint_of, new_session, identify, admit,
  identified, recall, fingerprinted, accept, handshake_cache_size,
}
use matf_master_vpn.MultiServer.Cache.{Call, Keeps, accept_all, accept_all-Keeps}

-- The answer as the cache gives it again.
abbrev pub as_known : AcceptedSession → AcceptedSession
as_known accepted = record accepted { is_new = false }

-- The cache has the answer under the hello's fingerprint, as its newest.
abbrev Remembers : Bytes → ClientRegistry → AcceptedSession → Type 0
Remembers print registry accepted =
    (cached : AcceptedSession) × Keeps print cached 0 registry
    × (as_known cached ≡ as_known accepted)

module _ (c : Primitives) (draws : ClientIdentity → Draw) (fresh : Ref) (p : Packet) (a : Address)
    (registry : ClientRegistry) where
  admit-Remembers :
      (print : Bytes) (found : Option (ClientIdentity × (Packet × Bytes)))
      {accepted : AcceptedSession} {o : Option ClientSession}
      → get print registry.accepted_hellos ≡ none
      → (admit c print fresh p a registry found).0 ≡ ok (some (accepted, o))
      → Remembers print (admit c print fresh p a registry found).1 accepted
  unfolding admit
  admit-Remembers print none absent e = cc
  admit-Remembers print (some (identity, (response, secret))) {accepted} {o} absent e =
      elim (Result-cases (new_session c registry.packets_per_key p a identity secret)) [
        | inr (x, failed) ↦
            let clash : err x ≡ ok (some (accepted, o)) = rw (admit, failed) at e in
            absurd (cc clash)
        | inl (s, made) ↦
            let made_now : AcceptedSession = record {
              response = response;
              session = fresh;
              identity = identity;
              is_new = true;
            } in
            let answer : ok (some (made_now, some s)) ≡ ok (some (accepted, o)) =
              rw (admit, made) at e in
            let same : made_now ≡ accepted = cc answer in
            rw (admit, made)
              (
                made_now,
                Recent-put_bounded 1023 print made_now registry.accepted_hellos absent,
                ap as_known same,
              )
      ]

  identified-Remembers :
      (print : Bytes) (r : Result (Option (ClientIdentity × (Packet × Bytes))))
      {accepted : AcceptedSession} {o : Option ClientSession}
      → get print registry.accepted_hellos ≡ none
      → (identified c print fresh p a registry r).0 ≡ ok (some (accepted, o))
      → Remembers print (identified c print fresh p a registry r).1 accepted
  unfolding identified
  identified-Remembers print (err x) absent e = cc
  identified-Remembers print (ok found) absent e = admit-Remembers print found absent e

  recall-Remembers :
      (print : Bytes) {accepted : AcceptedSession} {o : Option ClientSession}
      → (recall c draws print fresh p a registry (get print registry.accepted_hellos)).0
        ≡ ok (some (accepted, o))
      → Remembers print
          (recall c draws print fresh p a registry (get print registry.accepted_hellos)).1
          accepted
  unfolding recall
  recall-Remembers print {accepted} {o} e =
      elim (Option-cases (get print registry.accepted_hellos)) [
        | inl absent ↦ rw absent (
            identified-Remembers print
              (identify c registry.server_private_key p draws registry.clients) absent
              (rw absent at e))
        | inr (cached, found) ↦
            let answer : ok (some (as_known cached, none)) ≡ ok (some (accepted, o)) =
              rw found at e in
            let same : as_known cached ≡ accepted = cc answer in
            rw found (
              cached,
              Recent-move_to_end print cached registry.accepted_hellos found,
              ap as_known same,
            )
      ]

pub accept-recall :
    (c : Primitives) (draws : ClientIdentity → Draw) (fresh : Ref) (p : Packet) (a : Address)
    (registry : ClientRegistry) {print : Bytes}
    → same_type p.message_type client_hello ≡ true
    → fingerprint_of c p ≡ ok print
    → accept c draws fresh p a registry
      ≡ recall c draws print fresh p a registry (get print registry.accepted_hellos)
unfolding accept fingerprinted
accept-recall c draws fresh p a registry hello printed = rw (hello, printed) refl

pub accept-printed :
    (c : Primitives) (draws : ClientIdentity → Draw) (fresh : Ref) (p : Packet) (a : Address)
    (registry : ClientRegistry) {accepted : AcceptedSession} {o : Option ClientSession}
    → (accept c draws fresh p a registry).0 ≡ ok (some (accepted, o))
    → (same_type p.message_type client_hello ≡ true)
      × ((print : Bytes) × (fingerprint_of c p ≡ ok print))
unfolding accept fingerprinted
accept-printed c draws fresh p a registry {accepted} {o} e =
    elim (Bool-cases (same_type p.message_type client_hello)) [
      | inr other ↦
          let clash : ok none ≡ ok (some (accepted, o)) = rw other at e in absurd (cc clash)
      | inl hello ↦ elim (Result-cases (fingerprint_of c p)) [
        | inr (x, failed) ↦
            let clash : err x ≡ ok (some (accepted, o)) = rw (hello, failed) at e in
            absurd (cc clash)
        | inl (print, printed) ↦ (hello, (print, printed))
      ]
    ]

recalled :
    (c : Primitives) (draws : ClientIdentity → Draw) (print : Bytes) (fresh : Ref) (p : Packet)
    (a : Address) (registry : ClientRegistry) (cached : AcceptedSession)
    → (recall c draws print fresh p a registry (some cached)).0 ≡ ok (some (as_known cached, none))
unfolding recall
recalled c draws print fresh p a registry cached = refl

-- A hello that was accepted, and arrives again from any address after fewer than 1024 other packets
-- were given to the registry, is answered with the same response and session, as no new session,
-- and no session is made.
pub accept-again :
    (c : Primitives) (draws later_draws : ClientIdentity → Draw) (fresh later_fresh : Ref)
    (p : Packet) (a later_address : Address) (registry : ClientRegistry) (calls : List Call)
    {accepted : AcceptedSession} {o : Option ClientSession}
    → (accept c draws fresh p a registry).0 ≡ ok (some (accepted, o))
    → length calls < handshake_cache_size
    → (accept c later_draws later_fresh p later_address
        (accept_all c calls (accept c draws fresh p a registry).1)).0
      ≡ ok (some (as_known accepted, none))
accept-again c draws later_draws fresh later_fresh p a later_address registry calls {accepted} {o} e
      few =
    let (hello, (print, printed)) = accept-printed c draws fresh p a registry e in
    let first = accept-recall c draws fresh p a registry hello printed in
    let (cached, kept, same) = recall-Remembers c draws fresh p a registry print (
      ap (λ (r : Result (Option (AcceptedSession × Option ClientSession)) × ClientRegistry). r.0)
        (sym first)
      ∙ e) in
    let now : Keeps print cached 0 (accept c draws fresh p a registry).1 = rw first kept in
    let after = accept_all c calls (accept c draws fresh p a registry).1 in
    let held : get print after.accepted_hellos ≡ some cached =
      accept_all-Keeps c print cached 0 calls (accept c draws fresh p a registry).1 (omega arith)
        now in
    rw
      (accept-recall c later_draws later_fresh p later_address after hello printed
        ∙ ap (recall c later_draws print later_fresh p later_address after) held)
      (recalled c later_draws print later_fresh p later_address after cached
        ∙ ap (λ x. ok (some (x, none))) same)
