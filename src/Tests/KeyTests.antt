-- ===== src/Tests/KeyTests.antt =====
-- A key pair on an empty disk.
use matf_master_vpn.Prelude.{
  ℕ, zero, suc, ◌≡◌, ◌⊎◌, refl, true, none, some, [], ◌∷◌, Error, ok, err, arith,
}
use matf_master_vpn.Prelude.Equality.{string_eq}
use matf_master_vpn.Bytes.{AreBytes}
use matf_master_vpn.Hex.{hex, from_hex}
use matf_master_vpn.KeyAgreement.Files.{
  Disk, place, create, write_line, write_keys, write_keys_guarded, unless_raised, unlink,
  write_keypair,
}
use matf_master_vpn.Cli.Keys.{IsWritten, IsUndone, write_keypair_outcomes}
use matf_master_vpn.Tests.Toy.{toy, zeros, toy_agreement}

abbrev disk : Disk
disk = record {
  files = λ p. none;
  granted = λ mode. mode;
  creates = λ p. true;
  writes = λ p. true;
  unlinks = λ p. true;
  left = λ p line. [];
}

hex_written : hex (0 ∷ 171 ∷ []) ≡ 48 ∷ 48 ∷ 97 ∷ 98 ∷ []
unfolding hex
hex_written = refl

hex_read : from_hex none (48 ∷ 48 ∷ 32 ∷ 65 ∷ 98 ∷ []) ≡ some (0 ∷ 171 ∷ [])
unfolding from_hex
hex_read = refl

hex_odd : from_hex none (48 ∷ 48 ∷ 65 ∷ []) ≡ none
unfolding from_hex
hex_odd = refl

pair_written : (write_keypair toy (zeros 32) "a" "b" disk).0 ≡ ok tt
unfolding write_keypair create write_keys_guarded unless_raised write_keys write_line place
pair_written = refl

same_path : (write_keypair toy (zeros 32) "a" "a" disk).0 ≡ err Error.os_error
unfolding write_keypair create write_keys_guarded unless_raised write_keys write_line place unlink
same_path = refl

zeros-AreBytes : (n : ℕ) → AreBytes (zeros n)
zeros-AreBytes zero = tt
zeros-AreBytes (suc n) = (omega arith, zeros-AreBytes n)

write_keypair_outcomes_example :
    IsWritten "a" "b"
      (zeros 32)
      (toy.x25519_public (zeros 32))
      disk
      (write_keypair toy (zeros 32) "a" "b" disk)
    ⊎ IsUndone "a" disk (write_keypair toy (zeros 32) "a" "b" disk)
write_keypair_outcomes_example =
    write_keypair_outcomes toy toy_agreement (zeros 32) "a" "b" disk (zeros-AreBytes 32) refl
      (zeros-AreBytes 32) refl
