-- ===== src/MultiServer.antt =====
-- multi_server.py: the registry of clients, with its cache of accepted hellos, and the server.
pub mod Rounds
pub mod Bounds
pub mod Cache
pub mod Registry
pub mod References
pub mod Answers
pub mod Authenticity
pub mod Invariant
use matf_master_vpn.Prelude.{
  ℕ, Bool, true, false, not, ◌||◌, Option, none, some, List, [], ◌∷◌, Error, Result, ok, err,
  raise_if, ◌>>=◌, ◌>>◌, is_value_error, if◌then◌else◌, map, ◌==◌, String,
}
use matf_master_vpn.Prelude.Int.{ℤ}
use matf_master_vpn.Prelude.Exec.{Exec}
use matf_master_vpn.Prelude.Equality.{Eq, bytes_eq, string_eq, nat_eq}
use matf_master_vpn.Bytes.{Bytes}
use matf_master_vpn.Primitives.{Primitives}
use matf_master_vpn.OrderedDict.{OrderedDict, get, move_to_end, put_bounded}
use matf_master_vpn.Protocol.{Packet, client_hello, same_type, encode}
use matf_master_vpn.Replay.{new_window, default_replay_window_size}
use matf_master_vpn.Crypto.{Cipher, server, create_cipher}
use matf_master_vpn.Handshake.{Draw, accept_client_hello}
use matf_master_vpn.Transport.{Address}
use matf_master_vpn.MultiClient.{ClientSession, Ref}
use matf_master_vpn.Prelude.Int.{pos}

pub record ClientIdentity : Type 0 where
  pub name : String
  pub tunnel_address : ℕ
  pub public_key : Bytes

abbrev pub handshake_cache_size : ℕ
handshake_cache_size = 1024

-- `session` refers to the memory of the engine.
pub record AcceptedSession : Type 0 where
  pub response : Packet
  pub session : Ref
  pub identity : ClientIdentity
  pub is_new : Bool

pub record ClientRegistry : Type 0 where
  pub server_private_key : Bytes
  pub clients : List ClientIdentity
  pub packets_per_key : ℤ
  pub accepted_hellos : OrderedDict Bytes AcceptedSession

module _ {ℓ} {A : Type ℓ} ⦃e : Eq A⦄ where
  abbrev pub occurs : A → List A → Bool
  occurs a [] = false
  occurs a (b ∷ bs) = e.beq b a || occurs a bs

  -- `len(set(xs)) != len(xs)`
  abbrev pub has_repeats : List A → Bool
  has_repeats [] = false
  has_repeats (a ∷ bs) = occurs a bs || has_repeats bs

-- ClientRegistry.__init__
unfoldable pub new_registry : Bytes → List ClientIdentity → ℤ → Result ClientRegistry
new_registry server_private_key clients packets_per_key = do
  raise_if (has_repeats (map (λ (i : ClientIdentity). i.name) clients)) Error.value_error
  raise_if (has_repeats (map (λ (i : ClientIdentity). i.tunnel_address) clients)) Error.value_error
  ok (record {
    server_private_key = server_private_key;
    clients = clients;
    packets_per_key = packets_per_key;
    accepted_hellos = [];
  })

module _ (c : Primitives) where
  -- `hashlib.sha256(packet.encode()).digest()`
  unfoldable pub fingerprint_of : Packet → Result Bytes
  fingerprint_of packet = do contents ← encode packet; ok (c.sha256 contents)

  -- The cipher and the session of an accepted hello
  unfoldable pub new_session : ℤ → Packet → Address → ClientIdentity → Bytes → Result ClientSession
  new_session packets_per_key packet remote_address identity session_secret = do
    cipher ← create_cipher c session_secret packet.session_id server packets_per_key
    window ← new_window (pos default_replay_window_size)
    ok (record {
      remote_address = remote_address;
      tunnel_address = identity.tunnel_address;
      session_id = packet.session_id;
      cipher = cipher;
      send_sequence = 0;
      replay_window = window;
    })

  -- The first identity whose key the hello is authentic under, with the answer: the loop of
  -- `accept`, where a refusal by `ValueError` continues. `draws` holds what each attempt draws.
  unfoldable pub identify :
      Bytes
      → Packet
      → (ClientIdentity → Draw)
      → List ClientIdentity
      → Result (Option (ClientIdentity × (Packet × Bytes)))
  identify server_private_key packet draws [] = ok none
  identify server_private_key packet draws (identity ∷ identities) =
      let rest = identify server_private_key packet draws identities in
      elim (accept_client_hello c (draws identity) packet server_private_key identity.public_key) [
        | ok answer ↦ ok (some (identity, answer))
        | err e ↦ if is_value_error e then rest else err e
      ]

  -- The end of `accept` for an identified client: the answer is cached, and the session is made at
  -- the reference `fresh`.
  unfoldable pub admit :
      Bytes
      → Ref
      → Packet
      → Address
      → ClientRegistry
      → Option (ClientIdentity × (Packet × Bytes))
      → Result (Option (AcceptedSession × Option ClientSession)) × ClientRegistry
  admit fingerprint fresh packet remote_address registry none = (ok none, registry)
  admit fingerprint fresh packet remote_address registry (some (identity, (response, secret))) =
      let accepted : AcceptedSession = record {
        response = response;
        session = fresh;
        identity = identity;
        is_new = true;
      } in
      elim (new_session registry.packets_per_key packet remote_address identity secret) [
        | err e ↦ (err e, registry)
        | ok session ↦ (
          ok (some (accepted, some session)),
          record registry {
            accepted_hellos =
                put_bounded handshake_cache_size fingerprint accepted registry.accepted_hellos;
          },
        )
      ]

  unfoldable pub identified :
      Bytes
      → Ref
      → Packet
      → Address
      → ClientRegistry
      → Result (Option (ClientIdentity × (Packet × Bytes)))
      → Result (Option (AcceptedSession × Option ClientSession)) × ClientRegistry
  identified fingerprint fresh packet remote_address registry (err e) = (err e, registry)
  identified fingerprint fresh packet remote_address registry (ok found) =
      admit fingerprint fresh packet remote_address registry found

  -- `accept` after the look-up in the cache
  unfoldable pub recall :
      (ClientIdentity → Draw)
      → Bytes
      → Ref
      → Packet
      → Address
      → ClientRegistry
      → Option AcceptedSession
      → Result (Option (AcceptedSession × Option ClientSession)) × ClientRegistry
  recall draws fingerprint fresh packet remote_address registry (some cached) = (
    ok (some (record cached { is_new = false }, none)),
    record registry { accepted_hellos = move_to_end fingerprint registry.accepted_hellos },
  )
  recall draws fingerprint fresh packet remote_address registry none =
      identified fingerprint fresh packet remote_address registry
        (identify registry.server_private_key packet draws registry.clients)

  unfoldable pub fingerprinted :
      (ClientIdentity → Draw)
      → Ref
      → Packet
      → Address
      → ClientRegistry
      → Result Bytes
      → Result (Option (AcceptedSession × Option ClientSession)) × ClientRegistry
  fingerprinted draws fresh packet remote_address registry (err e) = (err e, registry)
  fingerprinted draws fresh packet remote_address registry (ok fingerprint) =
      recall draws fingerprint fresh packet remote_address registry
        (get fingerprint registry.accepted_hellos)

  -- ClientRegistry.accept; the session beside the result is the one that a new hello made.
  unfoldable pub accept :
      (ClientIdentity → Draw)
      → Ref
      → Packet
      → Address
      → Exec ClientRegistry (Option (AcceptedSession × Option ClientSession))
  accept draws fresh packet remote_address registry =
      if not (same_type packet.message_type client_hello)
      then (ok none, registry)
      else fingerprinted draws fresh packet remote_address registry (fingerprint_of packet)
