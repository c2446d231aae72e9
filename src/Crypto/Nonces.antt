-- ===== src/Crypto/Nonces.antt =====
-- AES-GCM nonces: one for each session and sequence number.
use matf_master_vpn.Prelude.{
  ℕ, ◌-◌, ◌^◌, ◌≤◌, ◌<◌, ◌≡◌, refl, sym, ap, ◌∙◌, ◌++◌, length, take, drop, ok, arith, >>=-eq-ok,
  take-append, drop-append,
}
use matf_master_vpn.Prelude.Int.{ℤ, pos, negsuc}
use matf_master_vpn.Bytes.{Bytes, to_bytes, length-to_bytes, to_bytes_injective}
use matf_master_vpn.Protocol.{Packet}
use matf_master_vpn.Crypto.{int_to_bytes, nonce}

int_to_bytes-range :
    (width : ℕ) (z : ℤ) {b : Bytes}
    → int_to_bytes width z ≡ ok b
    → (n : ℕ) × (z ≡ pos n) × (n ≤ 256 ^ width - 1) × (b ≡ to_bytes width n)
unfolding int_to_bytes
int_to_bytes-range width (pos n) e = (n, refl, ground arith, ground arith)
int_to_bytes-range width (negsuc n) e = absurd (ground arith)

int_to_bytes_injective :
    (width : ℕ) (y z : ℤ) {b : Bytes}
    → 0 < 256 ^ width
    → int_to_bytes width y ≡ ok b
    → int_to_bytes width z ≡ ok b
    → y ≡ z
int_to_bytes_injective width y z some_width e f =
    let (m, m_is, m_fits, b_is) = int_to_bytes-range width y e in
    let (n, n_is, n_fits, b_is') = int_to_bytes-range width z f in
    let same : m ≡ n =
      to_bytes_injective width m n (omega arith) (omega arith) (sym b_is ∙ b_is') in
    cc

length-int_to_bytes :
    (width : ℕ) (z : ℤ) {b : Bytes} → int_to_bytes width z ≡ ok b → length b ≡ width
length-int_to_bytes width z e =
    let (n, n_is, n_fits, b_is) = int_to_bytes-range width z e in rw b_is (length-to_bytes width n)

-- Two packets with one nonce are of one session and have one sequence number.
pub nonce_injective :
    (p q : Packet) {n : Bytes}
    → nonce p ≡ ok n
    → nonce q ≡ ok n
    → (p.session_id ≡ q.session_id) × (p.sequence_number ≡ q.sequence_number)
unfolding nonce
nonce_injective p q {n} e f =
    let (a, a_is, rest) = >>=-eq-ok (int_to_bytes 4 p.session_id) _ e in
    let (b, b_is, last) = >>=-eq-ok (int_to_bytes 8 p.sequence_number) _ rest in
    let (a', a'_is, rest') = >>=-eq-ok (int_to_bytes 4 q.session_id) _ f in
    let (b', b'_is, last') = >>=-eq-ok (int_to_bytes 8 q.sequence_number) _ rest' in
    let n_is : n ≡ a ++ b = cc last in
    let n_is' : n ≡ a' ++ b' = cc last' in
    let whole : a ++ b ≡ a' ++ b' = sym n_is ∙ n_is' in
    let front : a ≡ a' =
      sym (take-append 4 a b (length-int_to_bytes 4 p.session_id a_is))
      ∙ ap (take 4) whole
      ∙ take-append 4 a' b' (length-int_to_bytes 4 q.session_id a'_is) in
    let behind : b ≡ b' =
      sym (drop-append 4 a b (length-int_to_bytes 4 p.session_id a_is))
      ∙ ap (drop 4) whole
      ∙ drop-append 4 a' b' (length-int_to_bytes 4 q.session_id a'_is) in
    (
      int_to_bytes_injective 4 p.session_id q.session_id (omega arith) a_is (rw front a'_is),
      int_to_bytes_injective 8 p.sequence_number q.sequence_number (omega arith) b_is
          (rw behind b'_is),
    )
