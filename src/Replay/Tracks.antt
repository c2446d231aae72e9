-- ===== src/Replay/Tracks.antt =====
-- The specification of the replay window, and the reading of its bitmap as a history.
use matf_master_vpn.Prelude.{
  ℕ, zero, suc, ◌+◌, ◌-◌, ◌*◌, ◌^◌, ◌≤◌, ◌<◌, max, ◌≡◌, ◌∙◌, Bool, true, false, not, ◌&&◌, ◌||◌,
  List, [], ◌∷◌, ltb, leb, ◌==◌, if◌then◌else◌, ok, arith, Bool-cases, inl, inr,
}
use matf_master_vpn.Prelude.Int.{ℤ, pos, negsuc, ltbℤ, pos_part, ◌-ℤ◌}
use matf_master_vpn.Bits.{bit, bit-lt, bit-zero, bit_and-pow}
use matf_master_vpn.Replay.{ReplayWindow, new_window, is_replay, mark_authenticated, distance}
use Prim.Native.Nat.{bit_and}
use native.Mathlib.Nat.{one-le-pow}

-- One more than the greatest number of a history, 0 for the empty one.
abbrev pub top : List ℕ → ℕ
top [] = 0
top (s ∷ h) = max (suc s) (top h)

abbrev pub contains : ℕ → List ℕ → Bool
contains s [] = false
contains s (t ∷ h) = s == t || contains s h

-- The specification: a number is refused when it was accepted before, or when the greatest
-- accepted number is at least `size` above it.
abbrev pub refuses : ℕ → List ℕ → ℕ → Bool
refuses size h s = contains s h || ltb (s + size) (top h)

-- The windows that the marks of a history, newest first, lead to.
pub data Reaches (size : ℕ) : ReplayWindow → List ℕ → Type 0 where
  start : {w : ReplayWindow} → new_window (pos size) ≡ ok w → Reaches size w []
  accept :
      {w v : ReplayWindow} {h : List ℕ} (s : ℕ)
      → Reaches size w h
      → mark_authenticated w (pos s) ≡ ok v
      → Reaches size v (s ∷ h)

abbrev below_top : ℕ → ℤ
below_top zero = negsuc 0
below_top (suc n) = pos n

-- Bit `d` of the bitmap stands for the number `d` below the greatest one.
abbrev pub recent_at : ℕ → ℕ → List ℕ → ℕ → Bool
recent_at size n h d = ltb d size && (ltb d n && contains (n - 1 - d) h)

abbrev pub recent : ℕ → List ℕ → ℕ → Bool
recent size h d = recent_at size (top h) h d

pub record Tracks (size : ℕ) (w : ReplayWindow) (h : List ℕ) : Type 0 where
  pub positive : 0 < size
  pub sized : w.size ≡ size
  pub highest : w.highest_sequence ≡ below_top (top h)
  pub bits : (d : ℕ) → bit d w.bitmap ≡ (if recent size h d then 1 else 0)

pub contains-lt-top : (s : ℕ) (h : List ℕ) → contains s h ≡ true → s < top h
contains-lt-top s [] e = cc
contains-lt-top s (t ∷ h) e = ground (arith, contains-lt-top s h)

pub Tracks-new : (size : ℕ) {w : ReplayWindow} → new_window (pos size) ≡ ok w → Tracks size w []
unfolding new_window
Tracks-new size e = record {
  positive = ground arith;
  sized = ground arith;
  highest = ground arith;
  bits = λ d. ground (arith, bit-zero d);
}

pow_pos : (d : ℕ) → 0 < 2 ^ d
pow_pos d = one-le-pow d 2 (omega arith)

-- `bool(n & (1 << d))`
bit_test : (n d : ℕ) → not (bit_and n (2 ^ d) == 0) ≡ (bit d n == 1)
bit_test n d = rw (bit_and-pow n d) (zero_or_one (bit d n) (bit-lt d n))
  where
    zero_or_one : (x : ℕ) → x < 2 → not (x * 2 ^ d == 0) ≡ (x == 1)
    zero_or_one zero h = ground arith
    zero_or_one (suc zero) h = ground (arith, pow_pos d)
    zero_or_one (suc (suc x)) h = absurd (omega arith)

above_lem : (n s : ℕ) → ltbℤ (below_top n) (pos s) ≡ leb n s
above_lem zero s = ground arith
above_lem (suc n) s = ground arith

distance_lem : (n s : ℕ) → s < n → pos_part (below_top n -ℤ pos s) ≡ n - 1 - s
distance_lem zero s h = elim h [ ]
distance_lem (suc n) s h = ground arith

pub shift_lem : (n s : ℕ) → n ≤ s → pos_part (pos s -ℤ below_top n) ≡ suc s - n
shift_lem zero s h = ground arith
shift_lem (suc n) s h = ground arith

module _ (size : ℕ) (w : ReplayWindow) (h : List ℕ) (s : ℕ) (t : Tracks size w h) where
  pub above : ltbℤ w.highest_sequence (pos s) ≡ leb (top h) s
  above = rw t.highest (above_lem (top h) s)

  pub distance-below : s < top h → distance w (pos s) ≡ top h - 1 - s
  unfolding distance
  distance-below below = rw t.highest (distance_lem (top h) s below)

  stored :
      s < top h
      → bit (top h - 1 - s) w.bitmap ≡ (if ltb (top h - 1 - s) size && contains s h then 1 else 0)
  stored below =
      let back : top h - 1 - (top h - 1 - s) ≡ s = omega arith in
      t.bits (top h - 1 - s) ∙ rw back (ground arith)

  is_replay_below : s < top h → is_replay w (pos s) ≡ refuses size h s
  unfolding is_replay
  is_replay_below below =
      rw (above, distance-below below, t.sized, bit_test w.bitmap (top h - 1 - s), stored below)
        (ground arith)

  is_replay_above : top h ≤ s → is_replay w (pos s) ≡ refuses size h s
  unfolding is_replay
  is_replay_above over = rw above (ground (arith, contains-lt-top s h))

  pub is_replay-refuses : is_replay w (pos s) ≡ refuses size h s
  is_replay-refuses = elim (Bool-cases (leb (top h) s)) [
    | inl over ↦ is_replay_above (ground arith)
    | inr below ↦ is_replay_below (ground arith)
  ]
