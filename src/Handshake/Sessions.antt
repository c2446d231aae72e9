-- ===== src/Handshake/Sessions.antt =====
-- handshake.py: the ciphers that the two ends hold after a handshake.
use matf_master_vpn.Prelude.{ℕ, ◌≡◌, sym, ap, ◌∙◌, ok, >>=-eq-ok}
use matf_master_vpn.Prelude.Int.{ℤ}
use matf_master_vpn.Bytes.{Bytes}
use matf_master_vpn.Primitives.{Primitives, AgreementLaws}
use matf_master_vpn.Protocol.{Packet}
use matf_master_vpn.Crypto.{Cipher, EndpointRole, client, server, create_cipher}
use matf_master_vpn.Crypto.Sessions.{IsKeyed, create_cipher-IsKeyed}
use matf_master_vpn.Handshake.{
  Draw, ClientHandshakeState, create_client_hello, accept_client_hello, finish_client_handshake,
}
use matf_master_vpn.Handshake.Messages.{IsDraw, create_client_hello-IsCreated}
use matf_master_vpn.Handshake.Agreement.{handshake_agreement}
use matf_master_vpn.Handshake.Rounds.{session_cipher}

module _ (c : Primitives) where
  session_cipher-IsKeyed :
      (session : ℤ) (role : EndpointRole) (rate : ℤ) (secret : Bytes) {id : ℤ} {x : Cipher}
      → session_cipher c session role rate secret ≡ ok (id, x)
      → (id ≡ session) × IsKeyed c secret session role rate x
  unfolding session_cipher
  session_cipher-IsKeyed session role rate secret {id} {x} e =
      let (y, created, e₁) = >>=-eq-ok (create_cipher c secret session role rate) _ e in
      let same : y ≡ x = cc e₁ in
      let named : session ≡ id = cc e₁ in
      (sym named, create_cipher-IsKeyed c secret session role rate (created ∙ ap ok same))

  -- A handshake that both ends complete, each with the other's public key, leaves them with one
  -- session id, and with the client's and the server's cipher of one secret.
  pub handshake_ciphers :
      (laws : AgreementLaws c) (number : ℕ) (client_draw server_draw : Draw) (a b : Bytes)
      (rate : ℤ) {hello response : Packet} {state : ClientHandshakeState} {secret own : Bytes}
      {i j : ℤ} {x y : Cipher}
      → IsDraw client_draw
      → IsDraw server_draw
      → create_client_hello c number client_draw a (c.x25519_public b) ≡ ok (hello, state)
      → accept_client_hello c server_draw hello b (c.x25519_public a) ≡ ok (response, secret)
      → finish_client_handshake c state response ≡ ok own
      → session_cipher c state.session_id client rate own ≡ ok (i, x)
      → session_cipher c hello.session_id server rate secret ≡ ok (j, y)
      → (i ≡ j) × IsKeyed c secret i client rate x × IsKeyed c secret i server rate y
  handshake_ciphers laws number client_draw server_draw a b rate {hello} {response} {state} {secret}
        {own} {i} {j} {x} {y} dx dy created answered finished from_client from_server =
      let agreed =
        handshake_agreement c laws number client_draw server_draw a b dx dy created answered in
      let together : ok own ≡ ok secret = sym finished ∙ agreed in
      let one : own ≡ secret = cc together in
      let made = create_client_hello-IsCreated c number client_draw a (c.x25519_public b) created in
      let session : state.session_id ≡ hello.session_id =
        ap (λ (s : ClientHandshakeState). s.session_id) made.state_is in
      let (i_is, keyed_x) = session_cipher-IsKeyed state.session_id client rate own from_client in
      let (j_is, keyed_y) =
        session_cipher-IsKeyed hello.session_id server rate secret from_server in
      let at_i : hello.session_id ≡ i = sym session ∙ sym i_is in
      (i_is ∙ session ∙ sym j_is, rw (i_is, ← one) keyed_x, rw (← at_i) keyed_y)
