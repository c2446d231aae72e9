-- ===== src/Replay/History.antt =====
-- The replay window implements a specification over the whole history of accepted numbers.
use matf_master_vpn.Prelude.{
  ℕ, suc, ◌-◌, ◌*◌, ◌^◌, ◌≤◌, ◌<◌, max, ◌≡◌, refl, ap, ◌∙◌, false, ◌&&◌, ◌||◌, List, [], ◌∷◌, ltb,
  leb, ◌==◌, if◌then◌else◌, ok, arith, Bool-cases, inl, inr, ltb→lt, leb→le,
}
use matf_master_vpn.Prelude.Int.{pos, ltbℤ}
use matf_master_vpn.Bits.{bit, bit-lt, bit-bit_and, bit-bit_or, bit-pow, bit-mask, bit-shift}
use matf_master_vpn.Replay.{ReplayWindow, is_replay, mark_authenticated, advance, distance}
use Prim.Native.Nat.{bit_and, bit_or}
use matf_master_vpn.Replay.Tracks.{
  start, accept, top, contains, refuses, Reaches, recent_at, recent, Tracks, contains-lt-top,
  Tracks-new, shift_lem, above, distance-below, is_replay-refuses,
}

module _ (size : ℕ) (w : ReplayWindow) (h : List ℕ) (s : ℕ) (t : Tracks size w h) where
  -- Bits of the bitmap after a shift that keeps some of it.
  shifted_bit :
      (shift d : ℕ)
      → bit d (bit_and (w.bitmap * 2 ^ shift) (2 ^ size - 1))
        ≡ (if ltb d size && leb shift d then bit (d - shift) w.bitmap else 0)
  shifted_bit shift d =
      rw
        (
          bit-bit_and d (w.bitmap * 2 ^ shift) (2 ^ size - 1),
          bit-shift d shift w.bitmap,
          bit-mask d size,
        )
        (ground (arith, bit-lt (d - shift) w.bitmap))

  bit-one : (d : ℕ) → bit d 1 ≡ (if d == 0 then 1 else 0)
  bit-one d = bit-pow d 0

  recent-above :
      (d : ℕ)
      → top h ≤ s
      → recent size (s ∷ h) d
        ≡ (ltb d size && (ltb d (suc s) && (s - d == s || contains (s - d) h)))
  recent-above d over =
      let highest : max (suc s) (top h) ≡ suc s = omega arith in
      let back : suc s - 1 - d ≡ s - d = omega arith in
      ap (λ n. recent_at size n (s ∷ h) d) highest
      ∙ ap (λ k. ltb d size && (ltb d (suc s) && contains k (s ∷ h))) back

  recent-below : (d : ℕ) → s < top h → recent size (s ∷ h) d ≡ recent_at size (top h) (s ∷ h) d
  recent-below d below =
      let highest : max (suc s) (top h) ≡ top h = omega arith in
      ap (λ n. recent_at size n (s ∷ h) d) highest

  recent-back :
      (d : ℕ)
      → top h ≤ s
      → suc s - top h ≤ d
      → recent size h (d - (suc s - top h))
        ≡ (ltb (d - (suc s - top h)) size && (ltb d (suc s) && contains (s - d) h))
  recent-back d over far = elim (Bool-cases (ltb d (suc s))) [
    | inl inside ↦
        let back : top h - 1 - (d - (suc s - top h)) ≡ s - d =
          omega (arith, ltb→lt d (suc s) inside) in
        ap
          (λ k.
            ltb (d - (suc s - top h)) size && (ltb (d - (suc s - top h)) (top h) && contains k h))
          back
        ∙ ground arith
    | inr outside ↦ ground arith
  ]

  advance-bits :
      (d : ℕ)
      → top h ≤ s
      → bit d (advance w (pos s)).bitmap ≡ (if recent size (s ∷ h) d then 1 else 0)
  unfolding advance
  advance-bits d over =
      rw (recent-above d over, t.highest, t.sized, shift_lem (top h) s over)
        (elim (Bool-cases (leb size (suc s - top h))) [
          | inl gone ↦ rw (gone, bit-one d) (ground (arith, contains-lt-top (s - d) h, t.positive))
          | inr kept ↦
              rw
                (
                  kept,
                  bit-bit_or d (bit_and (w.bitmap * 2 ^ (suc s - top h)) (2 ^ size - 1)) 1,
                  bit-one d,
                  shifted_bit (suc s - top h) d,
                  t.bits (d - (suc s - top h)),
                )
                (ground (arith, contains-lt-top (s - d) h, recent-back d over, t.positive))
        ])

  mark-bits :
      (d : ℕ)
      → s < top h
      → top h - 1 - s < size
      → bit d (bit_or w.bitmap (2 ^ (top h - 1 - s))) ≡ (if recent size (s ∷ h) d then 1 else 0)
  mark-bits d below near =
      rw
        (
          recent-below d below,
          bit-bit_or d w.bitmap (2 ^ (top h - 1 - s)),
          bit-pow d (top h - 1 - s),
          t.bits d,
        )
        (ground arith)

mark_accepted :
    (w : ReplayWindow) (s : ℕ) {v : ReplayWindow}
    → mark_authenticated w (pos s) ≡ ok v
    → (is_replay w (pos s) ≡ false)
      × (v ≡ (
          if ltbℤ w.highest_sequence (pos s)
          then advance w (pos s)
          else record w { bitmap = bit_or w.bitmap (2 ^ distance w (pos s)) }))
unfolding mark_authenticated
mark_accepted w s e = elim (Bool-cases (is_replay w (pos s))) [
  | inl refused ↦ absurd (ground arith)
  | inr fresh ↦ (fresh, ground arith)
]

Tracks-advance :
    (size : ℕ) (w : ReplayWindow) (h : List ℕ) (s : ℕ)
    → Tracks size w h
    → top h ≤ s
    → Tracks size (advance w (pos s)) (s ∷ h)
unfolding advance
Tracks-advance size w h s t over =
    let highest : max (suc s) (top h) ≡ suc s = omega arith in
    record {
      positive = t.positive;
      sized = t.sized;
      highest = rw highest refl;
      bits = λ d. advance-bits size w h s t d over;
    }

Tracks-mark :
    (size : ℕ) (w : ReplayWindow) (h : List ℕ) (s : ℕ) {v : ReplayWindow}
    → Tracks size w h
    → mark_authenticated w (pos s) ≡ ok v
    → Tracks size v (s ∷ h)
Tracks-mark size w h s {v} t e = elim (Bool-cases (leb (top h) s)) [
  | inl over ↦
      let v_is : v ≡ advance w (pos s) =
        (mark_accepted w s e).1 ∙ rw (above size w h s t ∙ over) refl in
      rw v_is (Tracks-advance size w h s t (leb→le (top h) s over))
  | inr below ↦
      let under : s < top h = ground arith in
      let v_is : v ≡ record w { bitmap = bit_or w.bitmap (2 ^ (top h - 1 - s)) } =
        (mark_accepted w s e).1
        ∙ rw (above size w h s t ∙ below, distance-below size w h s t under) refl in
      let near : top h - 1 - s < size =
        ground (arith, is_replay-refuses size w h s t, (mark_accepted w s e).0) in
      let highest : max (suc s) (top h) ≡ top h = omega arith in
      rw v_is (record {
        positive = t.positive;
        sized = t.sized;
        highest = rw highest t.highest;
        bits = λ d. mark-bits size w h s t d under near;
      })
]

Reaches-Tracks : {size : ℕ} {w : ReplayWindow} {h : List ℕ} → Reaches size w h → Tracks size w h
Reaches-Tracks {size} (start e) = Tracks-new size e
Reaches-Tracks {size} (accept {w = w} {h = h} s r e) = Tracks-mark size w h s (Reaches-Tracks r) e

-- After any history of marks, the window refuses exactly the numbers that were accepted before and
-- those at least `size` below the greatest accepted one.
pub is_replay-history :
    {size : ℕ} {w : ReplayWindow} {h : List ℕ} (r : Reaches size w h) (s : ℕ)
    → is_replay w (pos s) ≡ refuses size h s
is_replay-history {size} {w} {h} r s = is_replay-refuses size w h s (Reaches-Tracks r)

abbrev pub Distinct : List ℕ → Type 0
Distinct [] = Unit
Distinct (s ∷ h) = (contains s h ≡ false) × Distinct h

-- No history of marks holds a number twice.
pub Reaches-Distinct : {size : ℕ} {w : ReplayWindow} {h : List ℕ} → Reaches size w h → Distinct h
Reaches-Distinct (start e) = tt
Reaches-Distinct {size} (accept {w = w} {h = h} s r e) =
    (ground (arith, is_replay-history r s, (mark_accepted w s e).0), Reaches-Distinct r)

-- However many packets a window has accepted, its bitmap has no bit at or above the window's size.
pub bitmap_bounded :
    {size : ℕ} {w : ReplayWindow} {h : List ℕ} (r : Reaches size w h) (d : ℕ)
    → size ≤ d
    → bit d w.bitmap ≡ 0
bitmap_bounded r d far = ground (arith, (Reaches-Tracks r).bits d)
