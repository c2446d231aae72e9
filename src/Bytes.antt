-- ===== src/Bytes.antt =====
-- Byte strings as lists of byte values, and the big-endian integers of `int.to_bytes` and of
-- `struct` formats with `!`.
use matf_master_vpn.Prelude.{
  ℕ, zero, suc, ◌+◌, ◌*◌, ◌/◌, ◌%◌, ◌^◌, ◌<◌, ◌≤◌, ◌≡◌, sym, ap, ◌∙◌, List, [], ◌∷◌, ◌++◌, arith,
  length, All, append-nil, Bool, true, ltb, ◌&&◌,
}
use Prim.Native.Char.{code}
use Prim.Native.String.{String}
use native.Mathlib.Nat.{zero-add, pow-suc, mul-le-mul_right}

abbrev pub Bytes : Type 0
Bytes = List ℕ

-- A list of numbers that can be a byte string.
abbrev pub AreBytes : Bytes → Type 0
AreBytes = All (λ b. b < 256)

-- `b"text"`, for a text of ASCII characters.
abbrev pub ascii : String → Bytes
ascii String.[] = []
ascii (String.◌∷◌ c s) = code c ∷ ascii s

-- A character outside ASCII is a `UnicodeEncodeError`, a `ValueError`, of `encode("ascii")`.
abbrev pub all_ascii : Bytes → Bool
all_ascii [] = true
all_ascii (b ∷ bs) = ltb b 128 && all_ascii bs

-- The low `width` bytes of `n`, most significant first, in front of `rest`.
to_bytes_onto : ℕ → ℕ → Bytes → Bytes
to_bytes_onto zero n rest = rest
to_bytes_onto (suc width) n rest = to_bytes_onto width (n / 256) ((n % 256) ∷ rest)

-- `n.to_bytes(width, "big")` for an `n` that fits.
unfoldable pub to_bytes : ℕ → ℕ → Bytes
unfolding to_bytes_onto
to_bytes width n = to_bytes_onto width n []

from_bytes_onto : ℕ → Bytes → ℕ
from_bytes_onto n [] = n
from_bytes_onto n (b ∷ bs) = from_bytes_onto (n * 256 + b) bs

-- `int.from_bytes(bs, "big")`
unfoldable pub from_bytes : Bytes → ℕ
unfolding from_bytes_onto
from_bytes bs = from_bytes_onto 0 bs

length-to_bytes_onto : (w n : ℕ) (rest : Bytes) → length (to_bytes_onto w n rest) ≡ w + length rest
unfolding to_bytes_onto
length-to_bytes_onto zero n rest = omega arith
length-to_bytes_onto (suc w) n rest =
    omega (arith, length-to_bytes_onto w (n / 256) ((n % 256) ∷ rest))

pub length-to_bytes : (w n : ℕ) → length (to_bytes w n) ≡ w
unfolding to_bytes
length-to_bytes w n = omega (arith, length-to_bytes_onto w n [])

pow_step : (x w : ℕ) → x * 256 ^ suc w ≡ 256 * (x * 256 ^ w)
pow_step x w = omega (arith, ap (λ (t : ℕ). x * t) (pow-suc 256 w))

from_bytes_onto-to_bytes_onto :
    (x w n : ℕ) (rest : Bytes)
    → n < 256 ^ w
    → from_bytes_onto x (to_bytes_onto w n rest) ≡ from_bytes_onto (x * 256 ^ w + n) rest
unfolding to_bytes_onto from_bytes_onto
from_bytes_onto-to_bytes_onto x zero n rest h = ap (λ (t : ℕ). from_bytes_onto t rest) (omega arith)
from_bytes_onto-to_bytes_onto x (suc w) n rest h =
    from_bytes_onto-to_bytes_onto x w (n / 256) ((n % 256) ∷ rest) (omega (arith, pow-suc 256 w))
    ∙ ap (λ (t : ℕ). from_bytes_onto t rest) (omega (arith, pow_step x w))

pub from_bytes-to_bytes : (w n : ℕ) → n < 256 ^ w → from_bytes (to_bytes w n) ≡ n
unfolding to_bytes from_bytes from_bytes_onto
from_bytes-to_bytes w n h = from_bytes_onto-to_bytes_onto 0 w n [] h ∙ omega arith

to_bytes_onto-from_bytes_onto :
    (w a : ℕ) (bs rest : Bytes)
    → AreBytes bs
    → to_bytes_onto (length bs + w) (from_bytes_onto a bs) rest ≡ to_bytes_onto w a (bs ++ rest)
unfolding to_bytes_onto from_bytes_onto
to_bytes_onto-from_bytes_onto w a [] rest h = rw zero-add
to_bytes_onto-from_bytes_onto w a (b ∷ bs) rest h =
    let shift : suc (length bs) + w ≡ length bs + suc w = omega arith in
    let quotient : (a * 256 + b) / 256 ≡ a = omega (arith, h.0) in
    let remainder : (a * 256 + b) % 256 ≡ b = omega (arith, h.0) in
    rw shift
      (to_bytes_onto-from_bytes_onto (suc w) (a * 256 + b) bs rest h.1 ∙ rw (quotient, remainder))

pub to_bytes-from_bytes :
    (w : ℕ) (bs : Bytes) → AreBytes bs → length bs ≡ w → to_bytes w (from_bytes bs) ≡ bs
unfolding to_bytes from_bytes to_bytes_onto
to_bytes-from_bytes w bs h e =
    let width : w ≡ length bs + 0 = omega arith in
    rw width (to_bytes_onto-from_bytes_onto 0 0 bs [] h ∙ append-nil bs)

to_bytes_onto-AreBytes :
    (w n : ℕ) (rest : Bytes) → AreBytes rest → AreBytes (to_bytes_onto w n rest)
unfolding to_bytes_onto
to_bytes_onto-AreBytes zero n rest h = h
to_bytes_onto-AreBytes (suc w) n rest h =
    to_bytes_onto-AreBytes w (n / 256) ((n % 256) ∷ rest) (omega arith, h)

pub to_bytes-AreBytes : (w n : ℕ) → AreBytes (to_bytes w n)
unfolding to_bytes
to_bytes-AreBytes w n = to_bytes_onto-AreBytes w n [] tt

-- Equal encodings of one width come from equal numbers.
pub to_bytes_injective :
    (w m n : ℕ) → m < 256 ^ w → n < 256 ^ w → to_bytes w m ≡ to_bytes w n → m ≡ n
to_bytes_injective w m n hm hn e =
    sym (from_bytes-to_bytes w m hm) ∙ ap from_bytes e ∙ from_bytes-to_bytes w n hn

from_bytes_onto-lt :
    (a : ℕ) (bs : Bytes) → AreBytes bs → from_bytes_onto a bs < (a + 1) * 256 ^ length bs
unfolding from_bytes_onto
from_bytes_onto-lt a [] h = omega arith
from_bytes_onto-lt a (b ∷ bs) h =
    let fits : a * 256 + b + 1 ≤ (a + 1) * 256 = omega (arith, h.0) in
    omega (
      arith,
      from_bytes_onto-lt (a * 256 + b) bs h.1,
      mul-le-mul_right (256 ^ length bs) fits,
      pow_step (a + 1) (length bs),
    )

pub from_bytes-lt : (bs : Bytes) → AreBytes bs → from_bytes bs < 256 ^ length bs
unfolding from_bytes
from_bytes-lt bs h = omega (arith, from_bytes_onto-lt 0 bs h)
