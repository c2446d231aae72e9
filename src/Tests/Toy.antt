-- ===== src/Tests/Toy.antt =====
-- Primitives that satisfy the assumed laws, for the tests. They are no cryptography: a tag is the
-- front of the key, a derived key mixes nothing, and an exchange adds its keys byte by byte.
use matf_master_vpn.Prelude.{
  ℕ, zero, suc, ◌+◌, ◌-◌, ◌≡◌, refl, sym, ap, ◌∙◌, Option, none, some, [], ◌∷◌, ◌++◌, arith, length,
  take, drop, if◌then◌else◌, length-append, take-append, drop-append,
}
use matf_master_vpn.Prelude.Equality.{bytes_beq, bytes_beq_refl}
use matf_master_vpn.Bytes.{Bytes}
use matf_master_vpn.Primitives.{Primitives, AeadLaws, AgreementLaws, HkdfLaws}

abbrev pub zeros : ℕ → Bytes
zeros zero = []
zeros (suc n) = 0 ∷ zeros n

-- The first `n` bytes, filled up with zeros.
abbrev fit : ℕ → Bytes → Bytes
fit zero bs = []
fit (suc n) [] = 0 ∷ fit n []
fit (suc n) (b ∷ bs) = b ∷ fit n bs

abbrev add : Bytes → Bytes → Bytes
add [] ys = []
add (x ∷ xs) [] = []
add (x ∷ xs) (y ∷ ys) = (x + y) ∷ add xs ys

abbrev toy_decrypt : Bytes → Bytes → Bytes → Bytes → Option Bytes
toy_decrypt key nonce message header =
    if bytes_beq (drop (length message - 16) message) (fit 16 key)
    then some (take (length message - 16) message)
    else none

abbrev pub toy : Primitives
toy = record {
  aead_encrypt = λ key nonce message header. message ++ fit 16 key;
  aead_decrypt = toy_decrypt;
  hkdf = λ n salt info key. fit n (key ++ salt);
  sha256 = λ m. m;
  hmac_sha256 = λ key m. add (fit 32 key) (fit 32 (drop 45 m));
  x25519_public = λ a. fit 32 a;
  x25519_exchange = λ a b. some (add (fit 32 a) (fit 32 b));
}

length-fit : (n : ℕ) (bs : Bytes) → length (fit n bs) ≡ n
length-fit zero bs = refl
length-fit (suc n) [] = ap suc (length-fit n [])
length-fit (suc n) (b ∷ bs) = ap suc (length-fit n bs)

toy_decrypt-encrypt :
    (key nonce message header : Bytes)
    → toy_decrypt key nonce (message ++ fit 16 key) header ≡ some message
toy_decrypt-encrypt key nonce message header =
    let size : length (message ++ fit 16 key) - 16 ≡ length message =
      omega (arith, length-append message (fit 16 key), length-fit 16 key) in
    rw (
      size,
      drop-append (length message) message (fit 16 key) refl,
      take-append (length message) message (fit 16 key) refl,
      bytes_beq_refl (fit 16 key),
    )

toy_length-encrypt :
    (key nonce message header : Bytes) → length (message ++ fit 16 key) ≡ length message + 16
toy_length-encrypt key nonce message header =
    omega (arith, length-append message (fit 16 key), length-fit 16 key)

pub toy_aead : AeadLaws toy
toy_aead = record { decrypt-encrypt = toy_decrypt-encrypt; length-encrypt = toy_length-encrypt }

fit-fit : (n : ℕ) (bs : Bytes) → fit n (fit n bs) ≡ fit n bs
fit-fit zero bs = refl
fit-fit (suc n) [] = ap (◌∷◌ 0) (fit-fit n [])
fit-fit (suc n) (b ∷ bs) = ap (◌∷◌ b) (fit-fit n bs)

add_comm : (xs ys : Bytes) → add xs ys ≡ add ys xs
add_comm [] [] = refl
add_comm [] (y ∷ ys) = refl
add_comm (x ∷ xs) [] = refl
add_comm (x ∷ xs) (y ∷ ys) = let sum : x + y ≡ y + x = omega arith in rw (sum, add_comm xs ys)

toy_exchange_comm :
    (a b : Bytes)
    → some (add (fit 32 a) (fit 32 (fit 32 b))) ≡ some (add (fit 32 b) (fit 32 (fit 32 a)))
toy_exchange_comm a b = rw (fit-fit 32 b, fit-fit 32 a) (ap some (add_comm (fit 32 a) (fit 32 b)))

length-add : (xs ys : Bytes) → length xs ≡ length ys → length (add xs ys) ≡ length xs
length-add [] ys h = refl
length-add (x ∷ xs) [] h = absurd (omega arith)
length-add (x ∷ xs) (y ∷ ys) h = ap suc (length-add xs ys (omega arith))

toy_length-hmac : (key m : Bytes) → length (add (fit 32 key) (fit 32 (drop 45 m))) ≡ 32
toy_length-hmac key m =
    length-add (fit 32 key) (fit 32 (drop 45 m))
      (length-fit 32 key ∙ sym (length-fit 32 (drop 45 m)))
    ∙ length-fit 32 key

pub toy_agreement : AgreementLaws toy
toy_agreement = record {
  exchange_comm = toy_exchange_comm;
  length-public = length-fit 32;
  length-hmac = toy_length-hmac;
}

pub toy_hkdf : HkdfLaws toy
toy_hkdf = record { length-hkdf = λ n salt info key. length-fit n (key ++ salt) }
