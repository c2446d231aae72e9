-- ===== src/Experiment/Validity.antt =====
-- experiment.py: the arguments that `create_balanced_schedule` accepts, and the schedule.
use mathlib.Core.List.{
  Perm, Mem, Nodup, Nodup-cons, mem-cons_self, mem-cons, not-mem-nil, Nodup-nil, mem-cons_of_mem,
}
use mathlib.Core.Logic.Or
use matf_master_vpn.Prelude.{
  ℕ, suc, ◌≤◌, ◌≡◌, refl, sym, ap, ◌∙◌, Bool, true, false, not, ◌||◌, none, List, [], ◌∷◌, String,
  Error, ok, err, ◌==◌, length, arith, Bool-cases, inl, inr, ltb, ◌⊎◌,
}
use matf_master_vpn.Prelude.Int.{ℤ, pos, pos_part, lebℤ, ltbℤ}
use matf_master_vpn.Prelude.Equality.{string_eq}
use matf_master_vpn.Experiment.{
  ScheduledBlock, same_mode, contains, distinct, any_blank, create_balanced_schedule,
}
use matf_master_vpn.Experiment.Balanced.{IsBalanced}
use matf_master_vpn.Experiment.Rounds.{IsSchedule, schedule_rounds-IsSchedule}

-- What the guards let pass
pub record IsValid (modes : List String) (rounds repetitions : ℤ) : Type 0 where
  pub two : 2 ≤ length modes
  pub distinct_modes : Nodup modes
  pub named : any_blank modes ≡ false
  pub some_rounds : ltbℤ (pos 0) rounds ≡ true
  pub some_repetitions : ltbℤ (pos 0) repetitions ≡ true

contains-Mem : (m : String) (modes : List String) → contains m modes ≡ false → ¬ (Mem m modes)
contains-Mem m [] h mem = not-mem-nil mem
contains-Mem m (k ∷ modes) h mem =
    let other : same_mode m k ≡ false = ground arith in
    let rest : contains m modes ≡ false = ground arith in
    Or.elim (λ a b. absurd a) (mem-cons.0 mem)
      (λ e. let same : same_mode m k ≡ true = (string_eq.beq_iff m k).1 e in cc)
      (contains-Mem m modes rest)

Mem-contains : (m : String) (modes : List String) → contains m modes ≡ true → Mem m modes
Mem-contains m [] h = absurd (cc h)
Mem-contains m (k ∷ modes) h = elim (Bool-cases (same_mode m k)) [
  | inl same ↦ let e = (string_eq.beq_iff m k).0 same in rw e mem-cons_self
  | inr other ↦
      let rest : contains m modes ≡ true = ground arith in
      mem-cons_of_mem k (Mem-contains m modes rest)
]

distinct-le : (modes : List String) → length (distinct modes) ≤ length modes
unfolding distinct
distinct-le [] = omega arith
distinct-le (m ∷ modes) = elim (Bool-cases (contains m modes)) [
  | inl again ↦ rw again (omega (arith, distinct-le modes))
  | inr first ↦ rw first (omega (arith, distinct-le modes))
]

distinct-Nodup : (modes : List String) → length (distinct modes) ≡ length modes → Nodup modes
unfolding distinct
distinct-Nodup [] h = Nodup-nil
distinct-Nodup (m ∷ modes) h = elim (Bool-cases (contains m modes)) [
  | inl again ↦ absurd (omega (arith, distinct-le modes, rw again at h))
  | inr first ↦
      Nodup-cons.1 (contains-Mem m modes first, distinct-Nodup modes (omega (arith, rw first at h)))
]

Nodup-distinct : (modes : List String) → Nodup modes → length (distinct modes) ≡ length modes
unfolding distinct
Nodup-distinct [] h = refl
Nodup-distinct (m ∷ modes) h = elim (Bool-cases (contains m modes)) [
  | inl again ↦ absurd ((Nodup-cons.0 h).0 (Mem-contains m modes again))
  | inr first ↦ rw first (ap suc (Nodup-distinct modes (Nodup-cons.0 h).1))
]

balanced :
    (modes : List String) (rounds : ℕ) (n : ℤ) (blocks : List ScheduledBlock)
    → IsSchedule modes rounds 1 1 none n blocks
    → IsBalanced modes rounds n blocks
balanced modes rounds n blocks h = record {
  numbered = h.numbered;
  alternates = h.alternates;
  every_round = λ r from to. h.every_round r from (omega arith);
  no_earlier = h.no_earlier 0 (omega arith);
  no_later = λ r after. h.no_later r (omega arith);
  repeated = h.repeated;
}

module _ (shuffled : ℕ → List String → List String) where
  refused :
      (modes : List String) (rounds n : ℤ) {test : Bool}
      → test ≡ true
      → (IsValid modes rounds n → test ≡ false)
      → create_balanced_schedule shuffled modes rounds n ≡ err Error.value_error
      → (¬ IsValid modes rounds n)
        × (create_balanced_schedule shuffled modes rounds n ≡ err Error.value_error)
  refused modes rounds n holds never raised = (λ v. cc (sym holds ∙ never v), raised)

  -- With a generator whose shuffles are permutations: valid arguments give a schedule in which the
  -- blocks are numbered from 1 on, each of the rounds has every mode exactly once, there is no other
  -- round, no two successive blocks have one mode, also not over the end of a round, and each block has
  -- the given repetitions. All other arguments raise `ValueError`.
  pub create_balanced_schedule_outcomes :
      (permutes : (k : ℕ) (modes : List String) → Perm (shuffled k modes) modes)
      (modes : List String) (rounds n : ℤ)
      → (IsValid modes rounds n
          × ((blocks : List ScheduledBlock) × (create_balanced_schedule shuffled modes rounds n
                ≡ ok blocks)
              × IsBalanced modes (pos_part rounds) n blocks))
        ⊎ ((¬ IsValid modes rounds n)
            × (create_balanced_schedule shuffled modes rounds n ≡ err Error.value_error))
  unfolding create_balanced_schedule
  create_balanced_schedule_outcomes permutes modes rounds n =
      elim (Bool-cases (ltb (length modes) 2)) [
        | inl few ↦
            inr (refused modes rounds n few (λ v. let two = v.two in ground arith) (rw few refl))
        | inr enough ↦ elim (Bool-cases (not (length (distinct modes) == length modes))) [
          | inl twice ↦ inr (
              refused modes rounds n twice
                (λ v. let same = Nodup-distinct modes v.distinct_modes in ground arith)
                (rw (enough, twice) refl))
          | inr once ↦ elim (Bool-cases (any_blank modes)) [
            | inl blank ↦
                inr (refused modes rounds n blank (λ v. v.named) (rw (enough, once, blank) refl))
            | inr named ↦ elim (Bool-cases (lebℤ rounds (pos 0) || lebℤ n (pos 0))) [
              | inl low ↦ inr (
                  refused modes rounds n low
                    (λ v. let a = v.some_rounds in let b = v.some_repetitions in ground arith)
                    (rw (enough, once, named, low) refl))
              | inr high ↦
                  let distinct_modes = distinct-Nodup modes (ground arith) in
                  let two : 2 ≤ length modes = ground arith in
                  let (blocks, made, h) =
                    schedule_rounds-IsSchedule shuffled permutes modes distinct_modes two n
                      (pos_part rounds) 1 1 none in
                  inl (
                    record {
                      two = two;
                      distinct_modes = distinct_modes;
                      named = named;
                      some_rounds = ground arith;
                      some_repetitions = ground arith;
                    },
                    (
                      blocks,
                      rw (enough, once, named, high) made,
                      balanced modes (pos_part rounds) n blocks h,
                    ),
                  )
            ]
          ]
        ]
      ]
