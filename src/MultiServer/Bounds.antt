-- ===== src/MultiServer/Bounds.antt =====
-- multi_server.py: the size of the registry's cache.
use matf_master_vpn.Prelude.{
  ◌≤◌, true, Option, none, some, inl, inr, Result, ok, err, arith, Bool-cases, Result-cases, length,
}
use matf_master_vpn.Prelude.Equality.{bytes_eq}
use matf_master_vpn.Bytes.{Bytes}
use matf_master_vpn.Primitives.{Primitives}
use matf_master_vpn.OrderedDict.{get, length-put_bounded, length-move_to_end}
use matf_master_vpn.Protocol.{Packet, client_hello, same_type}
use matf_master_vpn.Handshake.{Draw}
use matf_master_vpn.Transport.{Address}
use matf_master_vpn.MultiClient.{Ref}
use matf_master_vpn.MultiServer.{
  ClientIdentity, AcceptedSession, ClientRegistry, handshake_cache_size, fingerprint_of,
  new_session, identify, admit, identified, recall, fingerprinted, accept,
}

-- The cache is within its size.
abbrev pub IsBounded : ClientRegistry → Type 0
IsBounded registry = length registry.accepted_hellos ≤ handshake_cache_size

module _ (c : Primitives) (draws : ClientIdentity → Draw) (fresh : Ref) (p : Packet) (a : Address)
    (registry : ClientRegistry) where
  admit-IsBounded :
      (print : Bytes) (o : Option (ClientIdentity × (Packet × Bytes)))
      → IsBounded registry
      → IsBounded (admit c print fresh p a registry o).1
  unfolding admit
  admit-IsBounded print none h = h
  admit-IsBounded print (some (identity, (response, secret))) h =
      elim (Result-cases (new_session c registry.packets_per_key p a identity secret)) [
        | inr (e, failed) ↦ rw (admit, failed) h
        | inl (s, made) ↦
            rw (admit, made)
              (length-put_bounded handshake_cache_size print
                (record {
                  response = response;
                  session = fresh;
                  identity = identity;
                  is_new = true;
                })
                registry.accepted_hellos h)
      ]

  identified-IsBounded :
      (print : Bytes) (r : Result (Option (ClientIdentity × (Packet × Bytes))))
      → IsBounded registry
      → IsBounded (identified c print fresh p a registry r).1
  unfolding identified
  identified-IsBounded print (err e) h = h
  identified-IsBounded print (ok o) h = admit-IsBounded print o h

  recall-IsBounded :
      (print : Bytes) (o : Option AcceptedSession)
      → IsBounded registry
      → IsBounded (recall c draws print fresh p a registry o).1
  unfolding recall
  recall-IsBounded print (some cached) h =
      omega (arith, length-move_to_end print registry.accepted_hellos)
  recall-IsBounded print none h =
      identified-IsBounded print (identify c registry.server_private_key p draws registry.clients) h

  -- Accepting any packet keeps the cache of hellos within 1024 entries.
  pub accept-IsBounded : IsBounded registry → IsBounded (accept c draws fresh p a registry).1
  unfolding accept fingerprinted
  accept-IsBounded h = elim (Bool-cases (same_type p.message_type client_hello)) [
    | inr other ↦ rw other h
    | inl hello ↦ elim (Result-cases (fingerprint_of c p)) [
      | inr (e, failed) ↦ rw (hello, failed) h
      | inl (print, printed) ↦
          rw (hello, printed) (recall-IsBounded print (get print registry.accepted_hellos) h)
    ]
  ]
