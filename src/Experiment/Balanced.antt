-- ===== src/Experiment/Balanced.antt =====
-- experiment.py: what a balanced schedule is, independently of how it is made.
use mathlib.Core.List.{Perm}
use matf_master_vpn.Prelude.{
  ℕ, suc, ◌+◌, ◌≤◌, ◌<◌, ◌≡◌, ◌≢◌, refl, Option, none, some, List, [], ◌∷◌, ◌++◌, String, ok, ◌==◌,
  length, if◌then◌else◌, arith, Bool-cases, inl, inr, All,
}
use matf_master_vpn.Prelude.Int.{ℤ}
use matf_master_vpn.Prelude.Equality.{string_eq}
use matf_master_vpn.Experiment.{ScheduledBlock, round_blocks, last_mode}

-- Blocks numbered on from here
abbrev pub Numbered : ℕ → List ScheduledBlock → Type 0
Numbered n [] = Unit
Numbered n (b ∷ blocks) = (b.sequence ≡ n) × Numbered (suc n) blocks

-- No block has the mode of the block before it.
abbrev pub Alternates : Option String → List ScheduledBlock → Type 0
Alternates previous [] = Unit
Alternates previous (b ∷ blocks) = (previous ≢ some b.mode) × Alternates (some b.mode) blocks

-- The modes of one round, in their order
unfoldable pub modes_of : ℕ → List ScheduledBlock → List String
modes_of round [] = []
modes_of round (b ∷ blocks) =
    let rest = modes_of round blocks in if b.round_number == round then b.mode ∷ rest else rest

-- A schedule of `rounds` rounds, each of which has every mode once
pub record IsBalanced (modes : List String) (rounds : ℕ) (repetitions : ℤ)
    (blocks : List ScheduledBlock) : Type 0 where
  pub numbered : Numbered 1 blocks
  pub alternates : Alternates none blocks
  pub every_round : (r : ℕ) → 1 ≤ r → r ≤ rounds → Perm (modes_of r blocks) modes
  pub no_earlier : modes_of 0 blocks ≡ []
  pub no_later : (r : ℕ) → rounds < r → modes_of r blocks ≡ []
  pub repeated : All (λ (b : ScheduledBlock). b.repetitions ≡ repetitions) blocks

-- Modes of which none is the one before it
abbrev pub Chain : Option String → List String → Type 0
Chain previous [] = Unit
Chain previous (m ∷ modes) = (previous ≢ some m) × Chain (some m) modes

pub Alternates-round :
    (order : List String) (previous : Option String) (s r : ℕ) (n : ℤ) (last : String)
    (rest : List ScheduledBlock)
    → Chain previous order
    → last_mode order ≡ ok last
    → Alternates (some last) rest
    → Alternates previous (round_blocks s r n order ++ rest)
unfolding round_blocks last_mode
Alternates-round [] previous s r n last rest h e t = absurd (cc e)
Alternates-round (m ∷ []) previous s r n last rest h e t =
    let is : m ≡ last = cc e in (h.0, rw is t)
Alternates-round (m ∷ k ∷ order) previous s r n last rest h e t =
    (h.0, Alternates-round (k ∷ order) (some m) (suc s) r n last rest h.1 e t)

pub Numbered-round :
    (order : List String) (s r : ℕ) (n : ℤ) (rest : List ScheduledBlock)
    → Numbered (s + length order) rest
    → Numbered s (round_blocks s r n order ++ rest)
unfolding round_blocks
Numbered-round [] s r n rest h = let zero_more : s + 0 ≡ s = omega arith in rw zero_more at h
Numbered-round (m ∷ order) s r n rest h =
    let more : s + suc (length order) ≡ suc s + length order = omega arith in
    (refl, Numbered-round order (suc s) r n rest (rw more at h))

pub modes_of-round :
    (order : List String) (s r k : ℕ) (n : ℤ) (rest : List ScheduledBlock)
    → modes_of k (round_blocks s r n order ++ rest)
      ≡ (if r == k then order ++ modes_of k rest else modes_of k rest)
unfolding round_blocks modes_of
modes_of-round [] s r k n rest = ground arith
modes_of-round (m ∷ order) s r k n rest = elim (Bool-cases (r == k)) [
  | inl here ↦ rw (here, modes_of-round order (suc s) r k n rest, here) refl
  | inr other ↦ rw (other, modes_of-round order (suc s) r k n rest, other) refl
]

pub repeated-round :
    (order : List String) (s r : ℕ) (n : ℤ) (rest : List ScheduledBlock)
    → All (λ (b : ScheduledBlock). b.repetitions ≡ n) rest
    → All (λ (b : ScheduledBlock). b.repetitions ≡ n) (round_blocks s r n order ++ rest)
unfolding round_blocks
repeated-round [] s r n rest h = h
repeated-round (m ∷ order) s r n rest h = (refl, repeated-round order (suc s) r n rest h)
