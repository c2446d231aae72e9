-- ===== src/Session/Secured.antt =====
-- cli.py: the engine of a session.
use matf_master_vpn.Prelude.{
  ◌≡◌, sym, ap, ◌∙◌, true, false, Option, some, [], String, Result, ok, err, if◌then◌else◌,
  Bool-cases, >>=-eq-ok, inl, inr,
}
use matf_master_vpn.Prelude.Int.{ℤ}
use matf_master_vpn.Bytes.{Bytes}
use matf_master_vpn.Primitives.{Primitives}
use matf_master_vpn.Crypto.{Cipher}
use matf_master_vpn.Transport.{UdpTransport}
use matf_master_vpn.Tun.{check_device_name}
use matf_master_vpn.Engine.{TunnelEngine}
use matf_master_vpn.Engine.Steps.{run}
use matf_master_vpn.Engine.Accepted.{with_rounds}
use matf_master_vpn.Engine.Sound.{IsSound}
use matf_master_vpn.Engine.Invariant.{IsSound-new_engine, IsSound-run}
use matf_master_vpn.Handshake.Traffic.{new_engine-IsNew}
use matf_master_vpn.Config.{EndpointConfig, given}
use matf_master_vpn.Operations.{check_mtu}
use matf_master_vpn.Cli.{KeyFile, prepare}
use matf_master_vpn.Cli.Agreement.{prepare-some}
use matf_master_vpn.Session.{
  Surroundings, with_cipher, handshake, negotiate, build_engine, establish_session, keys_of,
  prepare_session,
}

module _ (c : Primitives) (options : EndpointConfig) where
  -- A handshake that succeeds gives a cipher.
  with_cipher-some :
      (r : Result (ℤ × Cipher) × UdpTransport) {session : ℤ} {cipher : Option Cipher}
      → (with_cipher r).0 ≡ ok (session, cipher)
      → (x : Cipher) × (cipher ≡ some x)
  with_cipher-some (ok (i, x), transport) e = (x, cc e)
  with_cipher-some (err f, transport) e = cc

  negotiate-some :
      (cipher : Option Cipher) (keys : Bytes × Bytes) (around : Surroundings) (t : UdpTransport)
      {session : ℤ} {chosen : Option Cipher}
      → options.ephemeral_handshake ≡ true
      → (negotiate c options cipher keys around t).0 ≡ ok (session, chosen)
      → (x : Cipher) × (chosen ≡ some x)
  unfolding negotiate
  negotiate-some cipher keys around t on e =
      let agreed = with_cipher (handshake c options keys around t) in
      let branch : negotiate c options cipher keys around t ≡ agreed =
        ap (λ test. if test then agreed else (ok (options.session_id, cipher), t)) on in
      with_cipher-some (handshake c options keys around t)
        (sym (ap (λ (r : Result (ℤ × Option Cipher) × UdpTransport). r.0) branch) ∙ e)

  negotiate-fixed :
      (cipher : Option Cipher) (keys : Bytes × Bytes) (around : Surroundings) (t : UdpTransport)
      {session : ℤ} {chosen : Option Cipher}
      → options.ephemeral_handshake ≡ false
      → (negotiate c options cipher keys around t).0 ≡ ok (session, chosen)
      → chosen ≡ cipher
  unfolding negotiate
  negotiate-fixed cipher keys around t {session} {chosen} off e =
      let same : Result.ok (options.session_id, cipher) ≡ ok (session, chosen) = rw off at e in
      cc same

  -- What the engine is built from
  record IsBuilt (r : Result (ℤ × Option Cipher) × UdpTransport) (e : TunnelEngine) : Type 0 where
    session : ℤ
    chosen : Option Cipher
    negotiated : r.0 ≡ ok (session, chosen)
    cipher_is : e.cipher ≡ chosen
    sound : IsSound [] e

  build_engine-IsBuilt :
      (around : Surroundings) (r : Result (ℤ × Option Cipher) × UdpTransport) {e : TunnelEngine}
      → build_engine c options around r ≡ ok e
      → IsBuilt r e
  unfolding build_engine
  build_engine-IsBuilt around (r, t) made =
      let (session, negotiated, e₁) = >>=-eq-ok r _ made in
      let (named, checked_name, e₂) = >>=-eq-ok (check_device_name options.tun_name) _ e₁ in
      let (device, opened, e₃) = >>=-eq-ok around.device _ e₂ in
      let (sized, checked_mtu, e₄) = >>=-eq-ok (check_mtu options.mtu) _ e₃ in
      let (done, configured, built) = >>=-eq-ok around.configured _ e₄ in
      let new =
        new_engine-IsNew device t options.peer session.0 session.1 options.keepalive_interval
          options.liveness_timeout around.now built in
      record {
        session = session.0;
        chosen = session.1;
        negotiated = negotiated;
        cipher_is = new.cipher_is;
        sound =
            IsSound-new_engine device t options.peer session.0 session.1 options.keepalive_interval
              options.liveness_timeout around.now built;
      }

module _ (c : Primitives) (files : String → KeyFile) (options : EndpointConfig) where
  chosen-some :
      {cipher chosen : Option Cipher} {session : ℤ} (keys : Bytes × Bytes) (around : Surroundings)
      (t : UdpTransport)
      → given options.role ≡ true
      → prepare c files options ≡ ok cipher
      → (negotiate c options cipher keys around t).0 ≡ ok (session, chosen)
      → (x : Cipher) × (chosen ≡ some x)
  chosen-some {cipher} keys around t role prepared e =
      elim (Bool-cases options.ephemeral_handshake) [
        | inl on ↦ negotiate-some c options cipher keys around t on e
        | inr off ↦
            let (x, is) = prepare-some c files options role off prepared in
            (x, negotiate-fixed c options cipher keys around t off e ∙ is)
      ]

  -- An endpoint with a role never runs unencrypted: whichever way it agrees on its keys, whatever
  -- arrives in the handshake, the engine of each of its sessions has a cipher, and after any rounds the
  -- engine has numbered the packets that it sent from 0 on, each once, and its replay window is what
  -- marking leads to of the numbers that it accepted, of those authenticated packets of the peer
  -- whose number was not old, in order, and no other.
  pub establish_session-some :
      {cipher : Option Cipher} {keys : Bytes × Bytes} (around : Surroundings) {e : TunnelEngine}
      → given options.role ≡ true
      → prepare_session c files options ≡ ok (cipher, keys)
      → establish_session c options cipher keys around ≡ ok e
      → (x : Cipher) × (e.cipher ≡ some x)
        × IsSound (with_rounds c around.rounds e []) (run c around.rounds e).1
  unfolding establish_session prepare_session
  establish_session-some {cipher} {keys} around {e} role ready made =
      let (first, prepared, e₁) = >>=-eq-ok (prepare c files options) _ ready in
      let (second, loaded, e₂) = >>=-eq-ok (keys_of c files options) _ e₁ in
      let same : first ≡ cipher = cc e₂ in
      let (t, opened, built) = >>=-eq-ok around.socket _ made in
      let b =
        build_engine-IsBuilt c options around (negotiate c options cipher keys around t) built in
      let (x, is) = chosen-some keys around t role (rw same at prepared) b.negotiated in
      (x, b.cipher_is ∙ is, IsSound-run c around.rounds e b.sound)
