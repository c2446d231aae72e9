-- ===== src/Hex.antt =====
-- `bytes.hex` and `bytes.fromhex`, with which key_agreement.py writes keys and cli.py reads them.
use matf_master_vpn.Prelude.{
  ℕ, ◌+◌, ◌-◌, ◌*◌, ◌/◌, ◌%◌, ◌<◌, ◌≡◌, refl, ap, ◌∙◌, Bool, true, false, ◌&&◌, ◌||◌, Option, none,
  some, List, [], ◌∷◌, ◌++◌, ltb, leb, ◌==◌, if◌then◌else◌, arith, All,
}
use matf_master_vpn.Bytes.{Bytes, AreBytes}
use matf_master_vpn.Texts.{Text, is_space, strip, strip_line}

abbrev hex_digit : ℕ → ℕ
hex_digit n = if ltb n 10 then 48 + n else 87 + n

-- `bytes.hex`
unfoldable pub hex : Bytes → Text
hex [] = []
hex (b ∷ bs) = hex_digit (b / 16) ∷ hex_digit (b % 16) ∷ hex bs

abbrev digit_value : ℕ → Option ℕ
digit_value c =
    if leb 48 c && leb c 57
    then some (c - 48)
    else (if leb 97 c && leb c 102
        then some (c - 87)
        else (if leb 65 c && leb c 70 then some (c - 55) else none))

abbrev is_ascii_space : ℕ → Bool
is_ascii_space c = (leb 9 c && leb c 13) || c == 32

abbrev before {ℓ} : {A : Type ℓ} → A → Option (List A) → Option (List A)
before a none = none
before a (some items) = some (a ∷ items)

-- `bytes.fromhex`, where the first argument is the first digit of a byte that is not complete:
-- spaces may stand between two bytes, not inside one. `none` is its `ValueError`.
unfoldable pub from_hex : Option ℕ → Text → Option Bytes
from_hex none [] = some []
from_hex (some high) [] = none
from_hex none (c ∷ rest) = elim (is_ascii_space c) [
  | true ↦ from_hex none rest
  | false ↦ elim (digit_value c) [ none ↦ none | some high ↦ from_hex (some high) rest ]
]
from_hex (some high) (c ∷ rest) = elim (digit_value c) [
  | none ↦ none
  | some low ↦ before (high * 16 + low) (from_hex none rest)
]

digit_value-hex_digit : (n : ℕ) → n < 16 → digit_value (hex_digit n) ≡ some n
digit_value-hex_digit n h = ground arith

hex_digit-is_space : (n : ℕ) → n < 16 → is_space (hex_digit n) ≡ false
hex_digit-is_space n h = ground arith

hex_digit-is_ascii_space : (n : ℕ) → n < 16 → is_ascii_space (hex_digit n) ≡ false
hex_digit-is_ascii_space n h = ground arith

from_hex_low :
    (high d : ℕ) (rest : Text) {low : ℕ}
    → digit_value d ≡ some low
    → from_hex (some high) (d ∷ rest) ≡ before (high * 16 + low) (from_hex none rest)
unfolding from_hex
from_hex_low high d rest {low} second =
    ap
      (λ (o : Option ℕ). elim o as (λ _. Option Bytes) [
        | none ↦ none
        | some v ↦ before (high * 16 + v) (from_hex none rest)
      ])
      second

-- Two digits are a byte.
from_hex_pair :
    (c d : ℕ) (rest : Text) {high low : ℕ}
    → is_ascii_space c ≡ false
    → digit_value c ≡ some high
    → digit_value d ≡ some low
    → from_hex none (c ∷ d ∷ rest) ≡ before (high * 16 + low) (from_hex none rest)
unfolding from_hex
from_hex_pair c d rest solid first second =
    rw (from_hex, solid, first) (from_hex_low _ d rest second)

from_hex-hex : (bs : Bytes) → AreBytes bs → from_hex none (hex bs) ≡ some bs
unfolding from_hex hex
from_hex-hex [] h = refl
from_hex-hex (b ∷ bs) (small, rest) =
    let high : b / 16 < 16 = omega arith in
    let low : b % 16 < 16 = omega arith in
    let whole : b / 16 * 16 + b % 16 ≡ b = omega arith in
    from_hex_pair (hex_digit (b / 16)) (hex_digit (b % 16)) (hex bs)
      (hex_digit-is_ascii_space (b / 16) high) (digit_value-hex_digit (b / 16) high)
      (digit_value-hex_digit (b % 16) low)
    ∙ ap (before (b / 16 * 16 + b % 16)) (from_hex-hex bs rest)
    ∙ ap (λ n. some (n ∷ bs)) whole

hex-AreSolid : (bs : Bytes) → AreBytes bs → All (λ c. is_space c ≡ false) (hex bs)
unfolding hex
hex-AreSolid [] h = tt
hex-AreSolid (b ∷ bs) (small, rest) =
    let high : b / 16 < 16 = omega arith in
    let low : b % 16 < 16 = omega arith in
    (hex_digit-is_space (b / 16) high, (hex_digit-is_space (b % 16) low, hex-AreSolid bs rest))

-- What `bytes.hex` wrote on a line of its own, `bytes.fromhex` reads from the stripped text.
pub from_hex-strip :
    (bs : Bytes) → AreBytes bs → from_hex none (strip (hex bs ++ (10 ∷ []))) ≡ some bs
from_hex-strip bs h =
    ap (from_hex none) (strip_line (hex bs) (hex-AreSolid bs h)) ∙ from_hex-hex bs h
