-- ===== src/KeyAgreement/Files.antt =====
-- key_agreement.py: the files of a key pair, in `write_keypair`.
use matf_master_vpn.Prelude.{
  ℕ, Bool, Option, none, some, [], ◌∷◌, ◌++◌, String, Error, Result, ok, err, if◌then◌else◌,
}
use matf_master_vpn.Prelude.Exec.{Exec, ◌>>◌}
use matf_master_vpn.Prelude.Equality.{string_eq}
use matf_master_vpn.Bytes.{Bytes}
use matf_master_vpn.Primitives.{Primitives}
use matf_master_vpn.Texts.{Text}
use matf_master_vpn.Hex.{hex}
use matf_master_vpn.KeyAgreement.{generate_keypair}

-- A file as the program sees it: its permissions, `none` where `stat` fails, and its text, `none`
-- where it cannot be read or is not ASCII.
pub record KeyFile : Type 0 where
  pub mode : Option ℕ
  pub contents : Option Text

-- `files p` is `none` where there is no file `p`. The rest is what the operating system does: the
-- permissions it gives for those that are asked for, the paths it lets the program create, write
-- and unlink, and what a failed write leaves in the file.
pub record Disk : Type 0 where
  pub files : String → Option KeyFile
  pub granted : ℕ → ℕ
  pub creates : String → Bool
  pub writes : String → Bool
  pub unlinks : String → Bool
  pub left : String → Text → Text

unfoldable pub place : String → Option KeyFile → Disk → Disk
place path file disk = record disk {
  files = λ q. if string_eq.beq q path then file else disk.files q;
}

-- `os.open(path, os.O_WRONLY | os.O_CREAT | os.O_EXCL, mode)`
unfoldable pub create : String → ℕ → Exec Disk (Unit {0})
create path mode disk = elim (disk.files path) [
  | some file ↦ (err Error.os_error, disk)
  | none ↦
      if disk.creates path
      then (
        ok tt,
        place path (some (record { mode = some (disk.granted mode); contents = some [] })) disk,
      )
      else (err Error.os_error, disk)
]

-- `write` of a line to the file that was created with `mode`, up to its closing
unfoldable pub write_line : String → ℕ → Text → Exec Disk (Unit {0})
write_line path mode line disk =
    if disk.writes path
    then (
      ok tt,
      place path
          (some (record { mode = some (disk.granted mode); contents = some (line ++ (10 ∷ [])) }))
          disk,
    )
    else (
      err Error.os_error,
      place path
          (some (record {
            mode = some (disk.granted mode);
            contents = some (disk.left path (line ++ (10 ∷ [])));
          }))
          disk,
    )

-- `0o600` and `0o644`
abbrev pub private_mode : ℕ
private_mode = 384

abbrev pub public_mode : ℕ
public_mode = 420

-- The body of the `try`
unfoldable pub write_keys : String → String → Bytes × Bytes → Exec Disk (Unit {0})
write_keys private_path public_path (private_key, public_key) = do
  write_line private_path private_mode (hex private_key)
  create public_path public_mode
  write_line public_path public_mode (hex public_key)

-- `private_path.unlink(missing_ok=True)`, then `raise`
unfoldable pub unlink : String → Error → Disk → Result (Unit {0}) × Disk
unlink path e disk =
    if disk.unlinks path then (err e, place path none disk) else (err Error.os_error, disk)

-- `except BaseException`
unfoldable pub unless_raised : String → Result (Unit {0}) × Disk → Result (Unit {0}) × Disk
unless_raised private_path (ok done, disk) = (ok done, disk)
unless_raised private_path (err e, disk) = unlink private_path e disk

unfoldable pub write_keys_guarded : String → String → Bytes × Bytes → Exec Disk (Unit {0})
write_keys_guarded private_path public_path keys disk =
    unless_raised private_path (write_keys private_path public_path keys disk)

-- write_keypair, from the private key that the generator drew
unfoldable pub write_keypair : Primitives → Bytes → String → String → Exec Disk (Unit {0})
write_keypair c drawn private_path public_path = do
  create private_path private_mode
  write_keys_guarded private_path public_path (generate_keypair c drawn)
