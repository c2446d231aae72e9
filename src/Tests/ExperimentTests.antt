-- ===== src/Tests/ExperimentTests.antt =====
-- A campaign of two rounds, of which the second is shuffled to start with the last mode of the first.
use mathlib.Core.List.{Perm, reverse, reverse_perm}
use mathlib.Core.List.Perm as Permutation
use matf_master_vpn.Prelude.{
  ℕ, ◌≡◌, refl, List, [], ◌∷◌, String, ok, err, Error, ◌⊎◌, if◌then◌else◌, ◌==◌, Bool-cases, inl,
  inr, map,
}
use matf_master_vpn.Prelude.Int.{pos}
use matf_master_vpn.Texts.{strip}
use matf_master_vpn.Experiment.{
  ScheduledBlock, create_balanced_schedule, schedule_rounds, arrange, exchange, round_blocks,
  last_mode, distinct, any_blank, is_blank,
}
use matf_master_vpn.Experiment.Balanced.{IsBalanced}
use matf_master_vpn.Experiment.Validity.{IsValid, create_balanced_schedule_outcomes}

abbrev modes : List String
modes = "direct" ∷ "python" ∷ "openvpn" ∷ []

abbrev shuffled : ℕ → List String → List String
shuffled round order = if round == 2 then reverse order else order

shuffled-Perm : (round : ℕ) (order : List String) → Perm (shuffled round order) order
shuffled-Perm round order = elim (Bool-cases (round == 2)) [
  | inl second ↦ rw second (reverse_perm order)
  | inr other ↦ rw other (Permutation.refl order)
]

abbrev plan : List ScheduledBlock
plan = elim (create_balanced_schedule shuffled modes (pos 2) (pos 5)) [
  | ok blocks ↦ blocks
  | err e ↦ []
]

-- The second round starts with the second mode of its shuffle.
plan_modes :
    map (λ (b : ScheduledBlock). b.mode) plan
    ≡ "direct" ∷ "python" ∷ "openvpn" ∷ "python" ∷ "openvpn" ∷ "direct" ∷ []
unfolding create_balanced_schedule schedule_rounds arrange exchange round_blocks last_mode distinct
    any_blank is_blank strip reverse
plan_modes = refl

create_balanced_schedule_outcomes_example :
    (IsValid modes (pos 2) (pos 5)
      × ((blocks : List ScheduledBlock) × (create_balanced_schedule shuffled modes (pos 2) (pos 5)
            ≡ ok blocks)
          × IsBalanced modes 2 (pos 5) blocks))
    ⊎ ((¬ IsValid modes (pos 2) (pos 5))
        × (create_balanced_schedule shuffled modes (pos 2) (pos 5) ≡ err Error.value_error))
create_balanced_schedule_outcomes_example =
    create_balanced_schedule_outcomes shuffled shuffled-Perm modes (pos 2) (pos 5)
