-- ===== src/MultiServer/Authenticity.antt =====
-- multi_server.py: who a new session of the registry belongs to.
use matf_master_vpn.Prelude.{
  ◌≡◌, refl, sym, ap, ◌∙◌, true, Option, none, some, inl, inr, List, [], ◌∷◌, Result, ok, err,
  is_value_error, Bool-cases, Result-cases, >>=-eq-ok,
}
use mathlib.Core.List.{Mem, mem-cons_self, mem-cons_of_mem}
use matf_master_vpn.Prelude.Int.{pos}
use matf_master_vpn.Bytes.{Bytes}
use matf_master_vpn.Primitives.{Primitives}
use matf_master_vpn.OrderedDict.{get}
use matf_master_vpn.Prelude.Equality.{bytes_eq}
use matf_master_vpn.Protocol.{Packet}
use matf_master_vpn.Replay.{new_window, default_replay_window_size}
use matf_master_vpn.Crypto.{server, create_cipher}
use matf_master_vpn.Handshake.{Draw, accept_client_hello}
use matf_master_vpn.Handshake.Messages.{IsAnswer, accept_client_hello-IsAnswer}
use matf_master_vpn.Transport.{Address}
use matf_master_vpn.MultiClient.{ClientSession, Ref}
use matf_master_vpn.MultiServer.{
  ClientIdentity, AcceptedSession, ClientRegistry, new_session, identify, admit, identified, recall,
  accept,
}
use matf_master_vpn.MultiServer.Registry.{accept-printed, accept-recall}

module _ (c : Primitives) (draws : ClientIdentity → Draw) (p : Packet) where
  -- What `identify` found: a client of the list, which answers the hello.
  abbrev pub Identifies : Bytes → List ClientIdentity → ClientIdentity → Packet × Bytes → Type 0
  Identifies key clients identity answer =
      Mem identity clients
      × (accept_client_hello c (draws identity) p key identity.public_key ≡ ok answer)

  identify-Identifies :
      (key : Bytes) (clients : List ClientIdentity) (identity : ClientIdentity)
      (answer : Packet × Bytes)
      → identify c key p draws clients ≡ ok (some (identity, answer))
      → Identifies key clients identity answer
  unfolding identify
  identify-Identifies key [] identity answer e = absurd (cc e)
  identify-Identifies key (i ∷ clients) identity answer e =
      elim (Result-cases (accept_client_hello c (draws i) p key i.public_key)) [
        | inl (a, answered) ↦
            let here : ok (some (i, a)) ≡ ok (some (identity, answer)) =
              rw (identify, answered) at e in
            let same : i ≡ identity = cc here in
            let given : a ≡ answer = cc here in rw (sym same, sym given) (mem-cons_self, answered)
        | inr (x, refused) ↦ elim (Bool-cases (is_value_error x)) [
          | inr raised ↦
              let clash : err x ≡ ok (some (identity, answer)) =
                rw (identify, refused, raised) at e in
              absurd (cc clash)
          | inl passed ↦
              let (listed, answered) =
                identify-Identifies key clients identity answer
                  (rw (identify, refused, passed) at e) in
              (mem-cons_of_mem i listed, answered)
        ]
      ]

  -- A session that was made for a hello from `a`, which the client `identity` sent.
  pub record IsAdmitted (a : Address) (registry : ClientRegistry) (accepted : AcceptedSession)
      (s : ClientSession) : Type 0 where
    pub secret : Bytes
    pub new : accepted.is_new ≡ true
    pub listed : Mem accepted.identity registry.clients
    pub answer :
        IsAnswer c
          (draws accepted.identity)
          p
          registry.server_private_key
          accepted.identity.public_key
          accepted.response
          secret
    pub cipher_is :
        create_cipher c secret p.session_id server registry.packets_per_key ≡ ok s.cipher
    pub tunnel_is : s.tunnel_address ≡ accepted.identity.tunnel_address
    pub remote_is : s.remote_address ≡ a
    pub session_is : s.session_id ≡ p.session_id

  module _ (fresh : Ref) (a : Address) (registry : ClientRegistry) where
    admit-IsAdmitted :
        (print : Bytes) (identity : ClientIdentity) (response : Packet) (secret : Bytes)
        {accepted : AcceptedSession} {s : ClientSession}
        → Identifies registry.server_private_key registry.clients identity (response, secret)
        → (admit c print fresh p a registry (some (identity, (response, secret)))).0
          ≡ ok (some (accepted, some s))
        → IsAdmitted a registry accepted s
    unfolding admit new_session
    admit-IsAdmitted print identity response secret {accepted} {s} (listed, answered) e =
        elim (Result-cases (new_session c registry.packets_per_key p a identity secret)) [
          | inr (x, failed) ↦
              let clash : err x ≡ ok (some (accepted, some s)) = rw (admit, failed) at e in
              absurd (cc clash)
          | inl (t, made) ↦
              let made_now : AcceptedSession = record {
                response = response;
                session = fresh;
                identity = identity;
                is_new = true;
              } in
              let told : ok (some (made_now, some t)) ≡ ok (some (accepted, some s)) =
                rw (admit, made) at e in
              let is : made_now ≡ accepted = cc told in
              let (cipher, created, made₁) =
                >>=-eq-ok (create_cipher c secret p.session_id server registry.packets_per_key) _
                  made in
              let (window, opened, made₂) =
                >>=-eq-ok (new_window (pos default_replay_window_size)) _ made₁ in
              let made_session : ClientSession = record {
                remote_address = a;
                tunnel_address = identity.tunnel_address;
                session_id = p.session_id;
                cipher = cipher;
                send_sequence = 0;
                replay_window = window;
              } in
              let one : made_session ≡ t = cc made₂ in
              let other : t ≡ s = cc told in
              let same : made_session ≡ s = one ∙ other in
              rw (sym is, sym same)
                (record {
                  secret = secret;
                  new = refl;
                  listed = listed;
                  answer =
                      accept_client_hello-IsAnswer c (draws identity) p registry.server_private_key
                        identity.public_key answered;
                  cipher_is = created;
                  tunnel_is = refl;
                  remote_is = refl;
                  session_is = refl;
                })
        ]

    identified-IsAdmitted :
        (print : Bytes) (r : Result (Option (ClientIdentity × (Packet × Bytes))))
        {accepted : AcceptedSession} {s : ClientSession}
        → ((identity : ClientIdentity) (answer : Packet × Bytes)
            → r ≡ ok (some (identity, answer))
            → Identifies registry.server_private_key registry.clients identity answer)
        → (identified c print fresh p a registry r).0 ≡ ok (some (accepted, some s))
        → IsAdmitted a registry accepted s
    unfolding identified admit
    identified-IsAdmitted print (err x) found e = absurd (cc e)
    identified-IsAdmitted print (ok none) found e = absurd (cc e)
    identified-IsAdmitted print (ok (some (identity, (response, secret)))) found e =
        admit-IsAdmitted print identity response secret (found identity (response, secret) refl) e

    recall-IsAdmitted :
        (print : Bytes) (cached : Option AcceptedSession) {accepted : AcceptedSession}
        {s : ClientSession}
        → (recall c draws print fresh p a registry cached).0 ≡ ok (some (accepted, some s))
        → IsAdmitted a registry accepted s
    unfolding recall
    recall-IsAdmitted print (some known) e = absurd (cc e)
    recall-IsAdmitted print none e =
        identified-IsAdmitted print
          (identify c registry.server_private_key p draws registry.clients)
          (identify-Identifies registry.server_private_key registry.clients) e

    -- When `accept` makes a session, its answer is new and belongs to one of the registry's clients:
    -- the hello is valid and its tag is authentic under the static secret of the server's key and
    -- that client's key, the response is the server's answer to it, and the session holds the
    -- cipher of the server's end under the secret of that handshake, the client's tunnel address,
    -- the hello's session id and the address the hello came from.
    pub accept-IsAdmitted :
        {accepted : AcceptedSession} {s : ClientSession}
        → (accept c draws fresh p a registry).0 ≡ ok (some (accepted, some s))
        → IsAdmitted a registry accepted s
    accept-IsAdmitted {accepted} {s} e =
        let (hello, (print, printed)) = accept-printed c draws fresh p a registry e in
        recall-IsAdmitted print (get print registry.accepted_hellos) (
          ap
            (λ (r : Result (Option (AcceptedSession × Option ClientSession)) × ClientRegistry). r.0)
            (sym (accept-recall c draws fresh p a registry hello printed))
          ∙ e)
