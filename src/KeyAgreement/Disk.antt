-- ===== src/KeyAgreement/Disk.antt =====
-- key_agreement.py: how each step of `write_keypair` can end.
use matf_master_vpn.Prelude.{
  ℕ, ◌≡◌, refl, sym, ◌∙◌, ◌⊎◌, inl, inr, true, false, Option, none, some, [], ◌∷◌, ◌++◌, String,
  Error, ok, err, Bool-cases, Option-cases,
}
use matf_master_vpn.Prelude.Exec.{Exec, ◌>>◌}
use matf_master_vpn.Prelude.Equality.{string_eq}
use matf_master_vpn.Bytes.{Bytes}
use matf_master_vpn.Texts.{Text}
use matf_master_vpn.Hex.{hex}
use matf_master_vpn.KeyAgreement.Files.{
  KeyFile, Disk, place, create, write_line, private_mode, public_mode, write_keys, unlink,
}

abbrev pub line_of : Bytes → Text
line_of key = hex key ++ (10 ∷ [])

abbrev pub file_of : ℕ → Text → KeyFile
file_of mode contents = record { mode = some mode; contents = some contents }

pub create_outcomes :
    (path : String) (mode : ℕ) (d : Disk)
    → ((d.files path ≡ none)
        × (create path mode d ≡ (ok tt, place path (some (file_of (d.granted mode) [])) d)))
      ⊎ (create path mode d ≡ (err Error.os_error, d))
unfolding create
create_outcomes path mode d = elim (Option-cases (d.files path)) [
  | inr (file, there) ↦ inr (rw (create, there) refl)
  | inl absent ↦ elim (Bool-cases (d.creates path)) [
    | inl allowed ↦ inl (absent, rw (create, absent, allowed) refl)
    | inr refused ↦ inr (rw (create, absent, refused) refl)
  ]
]

write_outcomes :
    (path : String) (mode : ℕ) (line : Text) (d : Disk)
    → (write_line path mode line d
        ≡ (ok tt, place path (some (file_of (d.granted mode) (line ++ (10 ∷ [])))) d))
      ⊎ ((file : KeyFile) × (write_line path mode line d
            ≡ (err Error.os_error, place path (some file) d)))
unfolding write_line
write_outcomes path mode line d = elim (Bool-cases (d.writes path)) [
  | inl allowed ↦ inl (rw allowed refl)
  | inr refused ↦ inr (file_of (d.granted mode) (d.left path (line ++ (10 ∷ []))), rw refused refl)
]

pub place-same :
    (path : String) (file : Option KeyFile) (d : Disk) → (place path file d).files path ≡ file
unfolding place
place-same path file d = rw ((string_eq.beq_iff path path).1 refl) refl

pub place-other :
    (path q : String) (file : Option KeyFile) (d : Disk)
    → string_eq.beq q path ≡ false
    → (place path file d).files q ≡ d.files q
unfolding place
place-other path q file d other = rw other refl

pub unlink_lem :
    (path : String) (d : Disk)
    → ((unlink path Error.os_error d).0 ≡ err Error.os_error)
      × (d.unlinks path ≡ true → (unlink path Error.os_error d).1.files path ≡ none)
unfolding unlink
unlink_lem path d = elim (Bool-cases (d.unlinks path)) [
  | inl allowed ↦ rw allowed (refl, λ h. place-same path none d)
  | inr refused ↦ rw refused (refl, λ h. absurd (cc h))
]

-- The public file, and the disk with it
abbrev pub publish : String → Bytes → Exec Disk (Unit {0})
publish path key = create path public_mode >> write_line path public_mode (hex key)

abbrev pub published : String → Bytes → Disk → Disk
published path key d =
    place path (some (file_of (d.granted public_mode) (line_of key)))
      (place path (some (file_of (d.granted public_mode) [])) d)

publish_outcomes :
    (path : String) (key : Bytes) (d : Disk)
    → ((d.files path ≡ none) × (publish path key d ≡ (ok tt, published path key d)))
      ⊎ ((after : Disk) × (publish path key d ≡ (err Error.os_error, after))
          × (after.unlinks ≡ d.unlinks))
unfolding place
publish_outcomes path key d = elim (create_outcomes path public_mode d) [
  | inr failed ↦ inr (d, rw failed refl, refl)
  | inl (absent, made) ↦
      let made_disk = place path (some (file_of (d.granted public_mode) [])) d in
      elim (write_outcomes path public_mode (hex key) made_disk) [
        | inl done ↦ inl (absent, rw made done)
        | inr (file, failed) ↦ inr (place path (some file) made_disk, rw made failed, refl)
      ]
]

-- The disk with the private file
abbrev pub kept : String → Bytes → Disk → Disk
kept path key d = place path (some (file_of (d.granted private_mode) (line_of key))) d

-- The body of the `try` ends in the one way or the other.
pub write_keys_outcomes :
    (private_path public_path : String) (private_key public_key : Bytes) (d : Disk)
    → (((kept private_path private_key d).files public_path ≡ none)
        × (write_keys private_path public_path (private_key, public_key) d
            ≡ (ok tt, published public_path public_key (kept private_path private_key d))))
      ⊎ ((after : Disk) × (write_keys private_path public_path (private_key, public_key) d
            ≡ (err Error.os_error, after))
          × (after.unlinks ≡ d.unlinks))
unfolding write_keys place
write_keys_outcomes private_path public_path private_key public_key d =
    elim (write_outcomes private_path private_mode (hex private_key) d) [
      | inr (file, failed) ↦ inr (place private_path (some file) d, rw failed refl, refl)
      | inl done ↦
          elim (publish_outcomes public_path public_key (kept private_path private_key d)) [
            | inl (absent, made) ↦ inl (absent, rw done made)
            | inr (after, failed, same) ↦ inr (after, rw done failed, same)
          ]
    ]

-- A name without a file on the disk after the private file was written is another name.
pub absent-other :
    (path q : String) (key : Bytes) (d : Disk)
    → (kept path key d).files q ≡ none
    → (string_eq.beq q path ≡ false) × (string_eq.beq path q ≡ false) × (d.files q ≡ none)
unfolding place
absent-other path q key d absent = elim (Bool-cases (string_eq.beq q path)) [
  | inl same ↦
      let there : some (file_of (d.granted private_mode) (line_of key)) ≡ none =
        rw same at absent in
      absurd (cc there)
  | inr other ↦ elim (Bool-cases (string_eq.beq path q)) [
    | inr apart ↦ (other, apart, rw other at absent)
    | inl same ↦
        let is : q ≡ path = sym ((string_eq.beq_iff path q).0 same) in
        let clash : true ≡ false = sym ((string_eq.beq_iff q path).1 is) ∙ other in
        absurd (cc clash)
  ]
]

-- The disk with the private file, still empty
abbrev pub opened : String → Disk → Disk
opened path d = place path (some (file_of (d.granted private_mode) [])) d
