-- ===== src/Handshake/Authenticity.antt =====
-- handshake.py: what an accepted message proves, and how a refused one is reported.
use matf_master_vpn.Prelude.{
  ℕ, Bool, true, false, not, raise_if, ◌≡◌, ◌≤◌, sym, ap, ◌∙◌, ◌++◌, ok, Error, arith, >>=-eq-ok,
  Raises, Raises-raise_if, Raises-bind, length,
}
use matf_master_vpn.Prelude.Int.{ℤ, pos, ◌==ℤ◌, ==ℤ→eq}
use matf_master_vpn.Prelude.Equality.{bytes_beq→eq}
use matf_master_vpn.Bytes.{Bytes, ascii}
use matf_master_vpn.Primitives.{Primitives}
use matf_master_vpn.Protocol.{
  Packet, MessageType, server_hello, client_hello, same_type, same_type→eq,
}
use matf_master_vpn.Crypto.{int_to_bytes}
use matf_master_vpn.KeyAgreement.{derive_shared_secret}
use matf_master_vpn.Handshake.{
  ClientHandshakeState, Draw, body_of, tag_of, validate_hello, hello_tag, check_tag,
  derive_session_secret, finish_client_handshake, accept_client_hello, answer_hello, mixed_secrets,
}

module _ (c : Primitives) where
  -- Why a client may end the handshake with a secret.
  pub record IsServerAnswer (state : ClientHandshakeState) (response : Packet) : Type 0 where
    pub static_secret : Bytes
    pub kind : response.message_type ≡ server_hello
    pub session : response.session_id ≡ state.session_id
    pub size : length response.payload ≡ 96
    pub shared :
        derive_shared_secret c state.static_private_key state.peer_static_public_key
        ≡ ok static_secret
    pub authentic :
        hello_tag c static_secret
          (ascii "server")
          state.session_id
          (state.client_hello_payload ++ body_of response.payload)
        ≡ ok (tag_of response.payload)

  validate-type :
      (p : Packet) (t : MessageType) {u : Unit {0}}
      → validate_hello p t ≡ ok u
      → same_type p.message_type t ≡ true
  unfolding validate_hello
  validate-type p t e = ground arith

  validate-size :
      (p : Packet) (t : MessageType) {u : Unit {0}}
      → validate_hello p t ≡ ok u
      → length p.payload ≡ 96
  unfolding validate_hello
  validate-size p t e = ground arith

  check_tag-eq : (s t : Bytes) {u : Unit {0}} → check_tag c s t ≡ ok u → s ≡ t
  unfolding check_tag
  check_tag-eq s t e = bytes_beq→eq s t (ground arith)

  -- A client that ends the handshake with a secret has a server hello of its session whose tag is
  -- that of the static secret which it shares with the server, over its own hello and the body of
  -- the answer.
  pub finish_client_handshake-IsServerAnswer :
      (state : ClientHandshakeState) (response : Packet) {secret : Bytes}
      → finish_client_handshake c state response ≡ ok secret
      → IsServerAnswer state response
  unfolding finish_client_handshake
  finish_client_handshake-IsServerAnswer state response e =
      let (done, valid, e₁) = >>=-eq-ok (validate_hello response server_hello) _ e in
      let (done', same, e₂) =
        >>=-eq-ok (raise_if (not (response.session_id ==ℤ state.session_id)) Error.value_error) _
          e₁ in
      let (static, shared, e₃) =
        >>=-eq-ok (derive_shared_secret c state.static_private_key state.peer_static_public_key) _
          e₂ in
      let (expected, tagged, e₄) =
        >>=-eq-ok
          (hello_tag c static (ascii "server") state.session_id
            (state.client_hello_payload ++ body_of response.payload))
          _ e₃ in
      let (done'', checked, e₅) = >>=-eq-ok (check_tag c (tag_of response.payload) expected) _ e₄ in
      record {
        static_secret = static;
        kind =
            same_type→eq response.message_type server_hello
              (validate-type response server_hello valid);
        session = ==ℤ→eq response.session_id state.session_id (ground arith);
        size = validate-size response server_hello valid;
        shared = shared;
        authentic = tagged ∙ ap ok (sym (check_tag-eq _ _ checked));
      }

  derive_errors : (a p : Bytes) → Raises Error.value_error (derive_shared_secret c a p)
  unfolding derive_shared_secret
  derive_errors a p e h = ground arith

  check_errors : (s t : Bytes) → Raises Error.value_error (check_tag c s t)
  unfolding check_tag
  check_errors s t = Raises-raise_if _ _

  validate_errors : (p : Packet) (t : MessageType) → Raises Error.value_error (validate_hello p t)
  unfolding validate_hello
  validate_errors p t e h = ground arith

  tag_errors :
      (s label : Bytes) (z : ℤ) (n : ℕ) (rest : Bytes)
      → z ≡ pos n
      → n ≤ 0xffffffff
      → Raises Error.value_error (hello_tag c s label z rest)
  unfolding hello_tag int_to_bytes
  tag_errors s label z n rest session fits = rw session (λ e h. ground arith)

  mixed_errors :
      (x peer_x a peer_a : Bytes) (local_is_client : Bool)
      → Raises Error.value_error (mixed_secrets c x peer_x a peer_a local_is_client)
  unfolding mixed_secrets
  mixed_errors x peer_x a peer_a true =
      Raises-bind _ _ _ (derive_errors x peer_a)
        (λ s e. Raises-bind _ _ _ (derive_errors a peer_x) (λ t f raised h. cc h))
  mixed_errors x peer_x a peer_a false =
      Raises-bind _ _ _ (derive_errors a peer_x)
        (λ s e. Raises-bind _ _ _ (derive_errors x peer_a) (λ t f raised h. cc h))

  derive_session_errors :
      (x peer_x a peer_a payload answer : Bytes) (local_is_client : Bool)
      → Raises Error.value_error
          (derive_session_secret c x peer_x a peer_a payload answer local_is_client)
  unfolding derive_session_secret
  derive_session_errors x peer_x a peer_a payload answer local_is_client =
      Raises-bind _ _ _ (derive_errors x peer_x) (λ ee e.
        Raises-bind _ _ _ (mixed_errors x peer_x a peer_a local_is_client)
          (λ m f. Raises-bind _ _ _ (derive_errors a peer_a) (λ ss g raised h. cc h)))

  answer_errors :
      (draw : Draw) (hello : Packet) (n : ℕ) (b peer s : Bytes)
      → hello.session_id ≡ pos n
      → n ≤ 0xffffffff
      → Raises Error.value_error (answer_hello c draw hello b peer s)
  unfolding answer_hello
  answer_errors draw hello n b peer s session fits =
      Raises-bind _ _ _ (tag_errors s (ascii "server") hello.session_id n _ session fits) (λ tag e.
        Raises-bind _ _ _ (derive_session_errors _ _ b peer hello.payload _ false)
          (λ key f raised h. cc h))

  -- Whatever packet with a session id of 32 bits the server is given, a refusal is a `ValueError`,
  -- which `run_server_handshake` and the registry of clients catch.
  pub accept_client_hello-Raises :
      (draw : Draw) (hello : Packet) (n : ℕ) (b peer : Bytes)
      → hello.session_id ≡ pos n
      → n ≤ 0xffffffff
      → Raises Error.value_error (accept_client_hello c draw hello b peer)
  unfolding accept_client_hello
  accept_client_hello-Raises draw hello n b peer session fits =
      Raises-bind _ _ _ (validate_errors hello client_hello) (λ u e.
        Raises-bind _ _ _ (derive_errors b peer) (λ s f.
          Raises-bind _ _ _ (tag_errors s (ascii "client") hello.session_id n _ session fits)
            (λ expected g.
              Raises-bind _ _ _ (check_errors _ expected)
                (λ v h. answer_errors draw hello n b peer s session fits))))
