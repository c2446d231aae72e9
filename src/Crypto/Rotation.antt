-- ===== src/Crypto/Rotation.antt =====
-- `RotatingPacketCipher`: its cache holds at most two ciphers and changes no result.
use matf_master_vpn.Prelude.{
  ℕ, ◌≤◌, ◌≡◌, refl, sym, ap, none, some, [], length, Result, ok, err, ◌>>=◌, arith, Option-cases,
  Result-cases, inl, inr,
}
use matf_master_vpn.Prelude.Int.{ℤ}
use matf_master_vpn.Prelude.Equality.{nat_eq}
use matf_master_vpn.Bytes.{Bytes}
use matf_master_vpn.OrderedDict.{get, move_to_end, length-move_to_end, length-put_bounded}
use matf_master_vpn.OrderedDict.Entries.{
  Entries, Entries-get, Entries-move_to_end, Entries-put_bounded,
}
use matf_master_vpn.Primitives.{Primitives}
use matf_master_vpn.Crypto.{
  PacketCipher, RotatingPacketCipher, EndpointRole, epoch_for, derive_cipher, with_cached,
  cipher_for, rotating_packet_cipher, rotation_cipher_cache_size,
}

-- The cipher of a sequence number with no cache: the specification of `_cipher_for`.
abbrev pub uncached : Primitives → RotatingPacketCipher → ℤ → Result PacketCipher
uncached c r sequence_number = do epoch ← epoch_for r sequence_number; derive_cipher c r epoch

module _ (c : Primitives) where
  -- Every cached cipher is the one that its epoch derives, and there are at most two.
  pub record IsCache (r : RotatingPacketCipher) : Type 0 where
    pub derived : Entries (λ epoch cipher. derive_cipher c r epoch ≡ ok cipher) r.ciphers
    pub bounded : length r.ciphers ≤ rotation_cipher_cache_size

  -- What a call of `_cipher_for` leaves: the same cipher but for its cache, which is still valid.
  pub record Uses (r s : RotatingPacketCipher) : Type 0 where
    pub master : s.master_secret ≡ r.master_secret
    pub session : s.session_id ≡ r.session_id
    pub role : s.role ≡ r.role
    pub rate : s.packets_per_key ≡ r.packets_per_key
    pub cache : IsCache s

  pub IsCache-new :
      (secret : Bytes) (session : ℤ) (role : EndpointRole) (rate : ℤ) {r : RotatingPacketCipher}
      → rotating_packet_cipher secret session role rate ≡ ok r
      → IsCache r
  unfolding rotating_packet_cipher
  IsCache-new secret session role rate {r} e =
      let empty : r.ciphers ≡ [] = ground arith in
      record { derived = rw empty tt; bounded = rw empty (omega arith) }

  -- A call with the cache against one without.
  abbrev pub Agrees :
      RotatingPacketCipher
      → Result PacketCipher
      → Result (PacketCipher × RotatingPacketCipher)
      → Type 0
  Agrees r (ok x) (ok (y, s)) = (y ≡ x) × Uses r s
  Agrees r (err e) (err f) = f ≡ e
  Agrees r _ _ = ⊥

  hit :
      (r : RotatingPacketCipher) (epoch : ℕ) (cipher : PacketCipher)
      → IsCache r
      → get epoch r.ciphers ≡ some cipher
      → Agrees r
          (derive_cipher c r epoch)
          (ok (cipher, record r { ciphers = move_to_end epoch r.ciphers }))
  hit r epoch cipher v found = rw (Entries-get _ epoch cipher r.ciphers v.derived found) (
    refl,
    record {
      master = refl;
      session = refl;
      role = refl;
      rate = refl;
      cache = record {
        derived = unfold derive_cipher in Entries-move_to_end _ epoch r.ciphers v.derived;
        bounded = omega (arith, length-move_to_end epoch r.ciphers, v.bounded);
      };
    },
  )

  miss :
      (r : RotatingPacketCipher) (epoch : ℕ)
      → IsCache r
      → Agrees r (derive_cipher c r epoch) (with_cached c r epoch none)
  unfolding with_cached
  miss r epoch v = elim (Result-cases (derive_cipher c r epoch)) [
    | inr (e, failed) ↦ rw failed refl
    | inl (cipher, derived) ↦ rw derived (
      refl,
      record {
        master = refl;
        session = refl;
        role = refl;
        rate = refl;
        cache = record {
          derived =
              unfold derive_cipher in
              Entries-put_bounded _ rotation_cipher_cache_size epoch cipher r.ciphers derived
                v.derived;
          bounded = length-put_bounded rotation_cipher_cache_size epoch cipher r.ciphers v.bounded;
        };
      },
    )
  ]

  with_cached-Agrees :
      (r : RotatingPacketCipher) (epoch : ℕ)
      → IsCache r
      → Agrees r (derive_cipher c r epoch) (with_cached c r epoch (get epoch r.ciphers))
  with_cached-Agrees r epoch v = elim (Option-cases (get epoch r.ciphers)) [
    | inl missing ↦ rw missing (miss r epoch v)
    | inr (cipher, found) ↦ rw found (unfold with_cached in hit r epoch cipher v found)
  ]

  -- With a valid cache a look-up gives the cipher that the epoch derives, or the error of deriving
  -- it, and leaves a valid cache of at most two ciphers under the same secret, session, role and rate.
  pub cipher_for-Agrees :
      (r : RotatingPacketCipher) (sequence_number : ℤ)
      → IsCache r
      → Agrees r (uncached c r sequence_number) (cipher_for c r sequence_number)
  unfolding cipher_for
  cipher_for-Agrees r sequence_number v = elim (Result-cases (epoch_for r sequence_number)) [
    | inl (epoch, e) ↦ rw e (with_cached-Agrees r epoch v)
    | inr (x, e) ↦ rw e refl
  ]

  Agrees-ok :
      (r : RotatingPacketCipher) (u : Result PacketCipher) (x : PacketCipher)
      (s : RotatingPacketCipher)
      → Agrees r u (ok (x, s))
      → (u ≡ ok x) × Uses r s
  Agrees-ok r (ok y) x s (e, v) = (ap ok (sym e), v)
  Agrees-ok r (err e) x s h = elim h [ ]

  Agrees-found :
      (r : RotatingPacketCipher) (x : PacketCipher)
      (w : Result (PacketCipher × RotatingPacketCipher))
      → Agrees r (ok x) w
      → (s : RotatingPacketCipher) × (w ≡ ok (x, s))
  Agrees-found r x (ok (y, s)) (e, v) = (s, rw e refl)
  Agrees-found r x (err e) h = elim h [ ]

  -- A look-up that succeeds found the derived cipher, and keeps the cache valid.
  pub cipher_for-ok :
      (r : RotatingPacketCipher) (sequence_number : ℤ) {x : PacketCipher} {s : RotatingPacketCipher}
      → IsCache r
      → cipher_for c r sequence_number ≡ ok (x, s)
      → (uncached c r sequence_number ≡ ok x) × Uses r s
  cipher_for-ok r sequence_number {x} {s} v e =
      Agrees-ok r (uncached c r sequence_number) x s
        (rw e at (cipher_for-Agrees r sequence_number v))

  -- A cipher that can be derived is found.
  pub cipher_for-found :
      (r : RotatingPacketCipher) (sequence_number : ℤ) {x : PacketCipher}
      → IsCache r
      → uncached c r sequence_number ≡ ok x
      → (s : RotatingPacketCipher) × (cipher_for c r sequence_number ≡ ok (x, s))
  cipher_for-found r sequence_number {x} v e =
      Agrees-found r x (cipher_for c r sequence_number)
        (rw e at (cipher_for-Agrees r sequence_number v))
