-- ===== src/Cli/Keys.antt =====
-- key_agreement.py and cli.py: the key pair that `write_keypair` leaves on the disk, as
-- `load_x25519_key` reads it.
use matf_master_vpn.Prelude.{
  ℕ, ◌≡◌, refl, sym, ap, ◌∙◌, ◌⊎◌, inl, inr, Bool, true, false, Option, none, some, [], String,
  Error, Result, ok, err, length,
}
use matf_master_vpn.Prelude.Exec.{Exec, ◌>>◌}
use matf_master_vpn.Prelude.Equality.{string_eq}
use matf_master_vpn.Bytes.{Bytes, AreBytes}
use matf_master_vpn.Primitives.{Primitives, AgreementLaws}
use matf_master_vpn.Hex.{from_hex-strip}
use matf_master_vpn.KeyAgreement.Files.{
  Disk, place, create, private_mode, public_mode, unless_raised, write_keys_guarded, write_keypair,
}
use matf_master_vpn.KeyAgreement.Disk.{
  line_of, file_of, create_outcomes, place-same, place-other, unlink_lem, published, kept,
  write_keys_outcomes, absent-other, opened,
}
use matf_master_vpn.Cli.{KeyFile, open_to_others, read_key, check_private, load_x25519_key}

load_line :
    (private : Bool) (mode : ℕ) (key : Bytes)
    → AreBytes key
    → length key ≡ 32
    → check_private private (file_of mode (line_of key)) ≡ ok tt
    → load_x25519_key (file_of mode (line_of key)) private ≡ ok key
unfolding load_x25519_key read_key
load_line private mode key bytes size safe = rw (safe, from_hex-strip key bytes, size) refl

-- What `load_x25519_key` meets at a path
abbrev as_file : Option KeyFile → KeyFile
as_file none = record { mode = none; contents = none }
as_file (some file) = file

abbrev pub file_at : Disk → String → KeyFile
file_at d path = as_file (d.files path)

-- Both files were new, and the program loads the pair from them.
pub record IsWritten (private_path public_path : String) (private_key public_key : Bytes) (d : Disk)
    (r : Result (Unit {0}) × Disk) : Type 0 where
  pub returned : r.0 ≡ ok tt
  pub private_new : d.files private_path ≡ none
  pub public_new : d.files public_path ≡ none
  pub private_loaded : load_x25519_key (file_at r.1 private_path) true ≡ ok private_key
  pub public_loaded : load_x25519_key (file_at r.1 public_path) false ≡ ok public_key

-- `OSError`, with the private path as it was before if it can be unlinked
pub record IsUndone (private_path : String) (d : Disk) (r : Result (Unit {0}) × Disk) : Type 0 where
  pub raised : r.0 ≡ err Error.os_error
  pub restored : d.unlinks private_path ≡ true → r.1.files private_path ≡ d.files private_path

module _ (private_path public_path : String) (private_key public_key : Bytes) where
  -- A key of 32 bytes
  abbrev IsKey : Bytes → Type 0
  IsKey key = AreBytes key × (length key ≡ 32)

  -- What the two writes leave, from the disk with the empty private file
  published-IsWritten :
      (d : Disk)
      → IsKey private_key
      → IsKey public_key
      → open_to_others (d.granted private_mode) ≡ false
      → d.files private_path ≡ none
      → (kept private_path private_key (opened private_path d)).files public_path ≡ none
      → IsWritten private_path public_path private_key public_key d (
        ok tt,
        published public_path public_key (kept private_path private_key (opened private_path d)),
      )
  unfolding place check_private
  published-IsWritten d (bytes, size) (public_bytes, public_size) safe new absent =
      let e = opened private_path d in
      let k = kept private_path private_key e in
      let (other, apart, unused) = absent-other private_path public_path private_key e absent in
      let empty = some (file_of (d.granted public_mode) []) in
      let full = some (file_of (d.granted public_mode) (line_of public_key)) in
      let private_file = some (file_of (d.granted private_mode) (line_of private_key)) in
      let private_found =
        place-other public_path private_path full (place public_path empty k) apart
        ∙ place-other public_path private_path empty k apart
        ∙ place-same private_path private_file e in
      let public_found = place-same public_path full (place public_path empty k) in
      record {
        returned = refl;
        private_new = new;
        public_new =
            sym (
              place-other private_path public_path (some (file_of (d.granted private_mode) [])) d
                other)
            ∙ unused;
        private_loaded =
            ap (λ o. load_x25519_key (as_file o) true) private_found
            ∙ load_line true (d.granted private_mode) private_key bytes size (rw safe refl);
        public_loaded =
            ap (λ o. load_x25519_key (as_file o) false) public_found
            ∙ load_line false (d.granted public_mode) public_key public_bytes public_size refl;
      }

  abbrev write_pair : Exec Disk (Unit {0})
  write_pair =
      create private_path private_mode
      >> write_keys_guarded private_path public_path (private_key, public_key)

  write_pair_outcomes :
      (d : Disk)
      → IsKey private_key
      → IsKey public_key
      → open_to_others (d.granted private_mode) ≡ false
      → IsWritten private_path public_path private_key public_key d (write_pair d)
        ⊎ IsUndone private_path d (write_pair d)
  unfolding write_keys_guarded unless_raised place
  write_pair_outcomes d key public safe = elim (create_outcomes private_path private_mode d) [
    | inr failed ↦ inr (rw failed (record { raised = refl; restored = λ h. refl }))
    | inl (absent, made) ↦
        elim (write_keys_outcomes private_path public_path private_key public_key
          (opened private_path d)) [
            | inl (free, done) ↦
                inl (rw (made, done) (published-IsWritten d key public safe absent free))
            | inr (after, failed, same) ↦
                let (raised, gone) = unlink_lem private_path after in
                inr (
                  rw (made, failed)
                    (record {
                      raised = raised;
                      restored = λ h. gone (ap (λ f. f private_path) same ∙ h) ∙ sym absent;
                    }))
          ]
  ]

-- Where the generator draws 32 bytes, and files that are created with mode 0600 are closed to others,
-- `write_keypair` ends in one of two ways. It returns: then there was no file at either path, and
-- `load_x25519_key` reads the private key from the one and its public key from the other. Or it
-- raises `OSError`: then, if the private path can be unlinked, it holds what it held before.
pub write_keypair_outcomes :
    (c : Primitives) (laws : AgreementLaws c) (drawn : Bytes) (private_path public_path : String)
    (d : Disk)
    → AreBytes drawn
    → length drawn ≡ 32
    → AreBytes (c.x25519_public drawn)
    → open_to_others (d.granted private_mode) ≡ false
    → IsWritten private_path public_path drawn
        (c.x25519_public drawn)
        d
        (write_keypair c drawn private_path public_path d)
      ⊎ IsUndone private_path d (write_keypair c drawn private_path public_path d)
unfolding write_keypair
write_keypair_outcomes c laws drawn private_path public_path d bytes size public_bytes safe =
    write_pair_outcomes private_path public_path drawn (c.x25519_public drawn) d (bytes, size)
      (public_bytes, laws.length-public drawn) safe
