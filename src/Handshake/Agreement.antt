-- ===== src/Handshake/Agreement.antt =====
-- handshake.py: the two ends derive one secret.
use matf_master_vpn.Prelude.{
  ℕ, ◌≡◌, refl, sym, ap, ◌∙◌, true, false, ◌++◌, length, take, ok, arith, length-append,
}
use matf_master_vpn.Bytes.{Bytes, ascii}
use matf_master_vpn.Primitives.{Primitives, AgreementLaws}
use matf_master_vpn.Protocol.{Packet}
use matf_master_vpn.Handshake.{
  Draw, ClientHandshakeState, mixed_secrets, derive_session_secret, create_client_hello,
  accept_client_hello, finish_client_handshake,
}
use matf_master_vpn.Handshake.Messages.{
  IsDraw, derive_comm, derive-size, take-public, create_client_hello-IsCreated, hello_tag-size,
  finish-tagged, accept_client_hello-IsAnswer,
}

module _ (c : Primitives) where
  derive_session_secret_comm :
      (laws : AgreementLaws c) (x y a b payload answer : Bytes)
      → length x ≡ 32
      → length y ≡ 32
      → length a ≡ 32
      → length b ≡ 32
      → derive_session_secret c x (c.x25519_public y) a (c.x25519_public b) payload answer true
        ≡ derive_session_secret c y (c.x25519_public x) b (c.x25519_public a) payload answer false
  unfolding derive_session_secret mixed_secrets
  derive_session_secret_comm laws x y a b payload answer hx hy ha hb =
      rw
        (
          derive_comm c laws x y hx hy,
          derive_comm c laws x b hx hb,
          derive_comm c laws a y ha hy,
          derive_comm c laws a b ha hb,
        )
        refl

  -- When the server accepts a hello that the client created, each with the other's public key, the
  -- client accepts the answer, and both derive the same session secret.
  pub handshake_agreement :
      (laws : AgreementLaws c) (session : ℕ) (client_draw server_draw : Draw) (a b : Bytes)
      {hello response : Packet} {state : ClientHandshakeState} {secret : Bytes}
      → IsDraw client_draw
      → IsDraw server_draw
      → create_client_hello c session client_draw a (c.x25519_public b) ≡ ok (hello, state)
      → accept_client_hello c server_draw hello b (c.x25519_public a) ≡ ok (response, secret)
      → finish_client_handshake c state response ≡ ok secret
  handshake_agreement laws session client_draw server_draw a b {hello} {response} {state} {secret}
        dx dy created answered =
      let i = create_client_hello-IsCreated c session client_draw a (c.x25519_public b) created in
      let j = accept_client_hello-IsAnswer c server_draw hello b (c.x25519_public a) answered in
      let ha = derive-size c a (c.x25519_public b) i.shared in
      let hb = derive-size c b (c.x25519_public a) j.shared in
      let x = client_draw.private_key in
      let y = server_draw.private_key in
      let body = c.x25519_public y ++ server_draw.random in
      let size : length body ≡ 64 = omega (
        arith,
        length-append (c.x25519_public y) server_draw.random,
        laws.length-public y,
        dy.random_drawn,
      ) in
      let tag_size =
        hello_tag-size c laws j.static_secret (ascii "server") hello.session_id
          (hello.payload ++ body) j.tagged in
      let client_key : take 32 hello.payload ≡ c.x25519_public x =
        ap (take 32) i.payload_is ∙ take-public c laws x client_draw.random i.tag in
      rw (i.state_is, j.response_is)
        (finish-tagged c hello.payload hello.session_id a (c.x25519_public b) x body j.tag size
            tag_size (derive_comm c laws a b ha hb ∙ j.shared) j.tagged
          ∙ ap
              (λ key.
                derive_session_secret c x key a (c.x25519_public b) hello.payload (body ++ j.tag)
                  true)
              (take-public c laws y server_draw.random j.tag)
          ∙ derive_session_secret_comm laws x y a b hello.payload (body ++ j.tag) dx.private_size
              dy.private_size ha hb
          ∙ ap
              (λ key.
                derive_session_secret c y key b (c.x25519_public a) hello.payload (body ++ j.tag)
                  false)
              (sym client_key)
          ∙ j.secret_is)
