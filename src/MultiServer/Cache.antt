-- ===== src/MultiServer/Cache.antt =====
-- multi_server.py: the cached answers of `ClientRegistry.accept` while other packets are accepted.
use matf_master_vpn.Prelude.{
  ℕ, suc, ◌+◌, ◌<◌, ◌≡◌, true, Option, none, some, inl, inr, List, [], ◌∷◌, length, Result, ok, err,
  arith, Bool-cases, Option-cases, Result-cases,
}
use matf_master_vpn.Prelude.Equality.{bytes_eq}
use matf_master_vpn.Bytes.{Bytes}
use matf_master_vpn.Primitives.{Primitives}
use matf_master_vpn.OrderedDict.{get}
use matf_master_vpn.OrderedDict.Recent.{
  Recent, Recent-more, Recent-put_other, get-Recent, Recent-moved,
}
use matf_master_vpn.Protocol.{Packet, client_hello, same_type}
use matf_master_vpn.Handshake.{Draw}
use matf_master_vpn.Transport.{Address}
use matf_master_vpn.MultiClient.{Ref}
use matf_master_vpn.MultiServer.{
  ClientIdentity, AcceptedSession, ClientRegistry, fingerprint_of, new_session, identify, admit,
  identified, recall, fingerprinted, accept, handshake_cache_size,
}

-- A call of `accept`: what its attempts draw, the reference for a new session, the packet and the
-- address.
pub record Call : Type 0 where
  pub draws : ClientIdentity → Draw
  pub fresh : Ref
  pub packet : Packet
  pub remote_address : Address

-- The cache has this answer, and at most `n` newer ones.
abbrev pub Keeps : Bytes → AcceptedSession → ℕ → ClientRegistry → Type 0
Keeps print cached n registry = Recent print cached n registry.accepted_hellos

module _ (c : Primitives) where
  abbrev pub accept_all : List Call → ClientRegistry → ClientRegistry
  accept_all [] registry = registry
  accept_all (call ∷ calls) registry =
      accept_all calls (accept c call.draws call.fresh call.packet call.remote_address registry).1

  module _ (print : Bytes) (cached : AcceptedSession) (n : ℕ) (few : suc n < handshake_cache_size)
      (fresh : Ref) (p : Packet) (a : Address) (registry : ClientRegistry)
      (kept : Keeps print cached n registry) where
    older : Keeps print cached (suc n) registry
    older = Recent-more print cached n (suc n) registry.accepted_hellos (omega arith) kept

    admit-Keeps :
        (other : Bytes) (found : Option (ClientIdentity × (Packet × Bytes)))
        → get other registry.accepted_hellos ≡ none
        → Keeps print cached (suc n) (admit c other fresh p a registry found).1
    unfolding admit
    admit-Keeps other none absent = older
    admit-Keeps other (some (identity, (response, secret))) absent =
        elim (Result-cases (new_session c registry.packets_per_key p a identity secret)) [
          | inr (x, failed) ↦ rw (admit, failed) older
          | inl (s, made) ↦
              rw (admit, made)
                (Recent-put_other handshake_cache_size print other cached
                  (record {
                    response = response;
                    session = fresh;
                    identity = identity;
                    is_new = true;
                  })
                  n registry.accepted_hellos few absent kept)
        ]

    identified-Keeps :
        (other : Bytes) (r : Result (Option (ClientIdentity × (Packet × Bytes))))
        → get other registry.accepted_hellos ≡ none
        → Keeps print cached (suc n) (identified c other fresh p a registry r).1
    unfolding identified
    identified-Keeps other (err x) absent = older
    identified-Keeps other (ok found) absent = admit-Keeps other found absent

    moved-Keeps :
        (draws : ClientIdentity → Draw) (other : Bytes) (held : AcceptedSession)
        → get other registry.accepted_hellos ≡ some held
        → Keeps print cached (suc n) (recall c draws other fresh p a registry (some held)).1
    unfolding recall
    moved-Keeps draws other held found =
        Recent-moved print other cached held n registry.accepted_hellos found kept

    recall-Keeps :
        (draws : ClientIdentity → Draw) (other : Bytes)
        → Keeps print cached
            (suc n)
            (recall c draws other fresh p a registry (get other registry.accepted_hellos)).1
    unfolding recall
    recall-Keeps draws other = elim (Option-cases (get other registry.accepted_hellos)) [
      | inl absent ↦ rw absent (
          identified-Keeps other (identify c registry.server_private_key p draws registry.clients)
            absent)
      | inr (held, found) ↦ rw found (moved-Keeps draws other held found)
    ]

    accept-Keeps :
        (draws : ClientIdentity → Draw)
        → Keeps print cached (suc n) (accept c draws fresh p a registry).1
    unfolding accept fingerprinted
    accept-Keeps draws = elim (Bool-cases (same_type p.message_type client_hello)) [
      | inr other ↦ rw other older
      | inl hello ↦ elim (Result-cases (fingerprint_of c p)) [
        | inr (x, failed) ↦ rw (hello, failed) older
        | inl (other, printed) ↦ rw (hello, printed) (recall-Keeps draws other)
      ]
    ]

  -- The answer is kept while fewer packets than the cache has room for are accepted.
  pub accept_all-Keeps :
      (print : Bytes) (cached : AcceptedSession) (n : ℕ) (calls : List Call)
      (registry : ClientRegistry)
      → n + length calls < handshake_cache_size
      → Keeps print cached n registry
      → get print (accept_all calls registry).accepted_hellos ≡ some cached
  accept_all-Keeps print cached n [] registry few kept =
      get-Recent print cached n registry.accepted_hellos kept
  accept_all-Keeps print cached n (call ∷ calls) registry few kept =
      accept_all-Keeps print cached (suc n) calls
        (accept c call.draws call.fresh call.packet call.remote_address registry).1 (omega arith)
        (accept-Keeps print cached n (omega arith) call.fresh call.packet call.remote_address
          registry kept call.draws)
