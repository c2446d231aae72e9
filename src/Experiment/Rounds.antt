-- ===== src/Experiment/Rounds.antt =====
-- experiment.py: the loop of `create_balanced_schedule` makes a balanced schedule.
use mathlib.Core.List.{Perm, Nodup, Nodup-cons, mem-cons_self}
use mathlib.Core.List.Perm as Permutation
use matf_master_vpn.Prelude.{
  ℕ, zero, suc, ◌+◌, ◌≤◌, ◌<◌, ◌≡◌, ◌≢◌, refl, sym, ◌∙◌, false, Option, none, some, List, [], ◌∷◌,
  ◌++◌, append-nil, String, ok, ◌==◌, length, arith, Bool-cases, inl, inr, All,
}
use matf_master_vpn.Prelude.Int.{ℤ}
use matf_master_vpn.Prelude.Equality.{string_eq}
use matf_master_vpn.Experiment.{
  ScheduledBlock, same_mode, exchange, arrange, round_blocks, last_mode, schedule_rounds, distinct,
}
use matf_master_vpn.Experiment.Balanced.{
  Numbered, Alternates, modes_of, Chain, Alternates-round, Numbered-round, modes_of-round,
  repeated-round,
}

-- Distinct modes follow one another.
Chain-Nodup : (m : String) (modes : List String) → Nodup (m ∷ modes) → Chain (some m) modes
Chain-Nodup m [] h = tt
Chain-Nodup m (k ∷ modes) h =
    let (apart, rest) = Nodup-cons.0 h in
    let differs : m ≢ k = λ e. apart (rw e mem-cons_self) in
    (λ e. differs (cc e), Chain-Nodup k modes rest)

same_mode-ne : (a b : String) → a ≢ b → same_mode a b ≡ false
same_mode-ne a b differs = elim (Bool-cases (same_mode a b)) [
  | inl same ↦ absurd (differs ((string_eq.beq_iff a b).0 same))
  | inr other ↦ other
]

ne-same_mode : (a b : String) → same_mode a b ≡ false → a ≢ b
ne-same_mode a b other e = let same = (string_eq.beq_iff a b).1 e in cc (sym other ∙ same)

two-Perm : (order modes : List String) → Perm order modes → 2 ≤ length modes → 2 ≤ length order
two-Perm (a ∷ b ∷ order) modes p h = omega arith
two-Perm order [] p h = absurd (omega arith)
two-Perm order (x ∷ []) p h = absurd (omega arith)
two-Perm [] (x ∷ y ∷ modes) p h = absurd (cc (Permutation.length-eq p))
two-Perm (a ∷ []) (x ∷ y ∷ modes) p h = absurd (cc (Permutation.length-eq p))

-- What `arrange` returns for a shuffle of the modes
record IsArranged (previous : Option String) (order : List String) : Type 0 where
  arranged : List String
  is : arrange previous order ≡ ok arranged
  perm : Perm arranged order
  chain : Chain previous arranged
  last : String
  last_is : last_mode arranged ≡ ok last

last_mode_total : (m : String) (order : List String) → (l : String) × (last_mode (m ∷ order) ≡ ok l)
unfolding last_mode
last_mode_total m [] = (m, refl)
last_mode_total m (k ∷ order) = last_mode_total k order

arrange-IsArranged :
    (previous : Option String) (order : List String)
    → Nodup order
    → 2 ≤ length order
    → IsArranged previous order
unfolding arrange exchange
arrange-IsArranged previous [] distinct h = absurd (omega arith)
arrange-IsArranged previous (m ∷ []) distinct h = absurd (omega arith)
arrange-IsArranged none (m ∷ k ∷ order) distinct h =
    let (last, last_is) = last_mode_total m (k ∷ order) in
    record {
      arranged = m ∷ k ∷ order;
      is = refl;
      perm = Permutation.refl _;
      chain = (λ e. cc e, Chain-Nodup m (k ∷ order) distinct);
      last = last;
      last_is = last_is;
    }
arrange-IsArranged (some p) (m ∷ k ∷ order) distinct h = elim (Bool-cases (same_mode m p)) [
  | inr other ↦
      let (last, last_is) = last_mode_total m (k ∷ order) in
      let apart : some p ≢ some m = λ e. ne-same_mode m p other (cc (sym e)) in
      record {
        arranged = m ∷ k ∷ order;
        is = rw other refl;
        perm = Permutation.refl _;
        chain = (apart, Chain-Nodup m (k ∷ order) distinct);
        last = last;
        last_is = last_is;
      }
  | inl same ↦
      let (last, last_is) = last_mode_total k (m ∷ order) in
      let m_is : m ≡ p = (string_eq.beq_iff m p).0 same in
      let differs : k ≢ p = λ e. (Nodup-cons.0 distinct).0 (rw (m_is, ← e) mem-cons_self) in
      let free : same_mode k p ≡ false = same_mode-ne k p differs in
      let swapped : Perm (k ∷ m ∷ order) (m ∷ k ∷ order) = Permutation.swap m k order in
      record {
        arranged = k ∷ m ∷ order;
        is = rw (same, free) refl;
        perm = swapped;
        chain = (
          λ e. differs (cc e),
          Chain-Nodup k (m ∷ order) (Permutation.nodup (Permutation.symm swapped) distinct),
        );
        last = last;
        last_is = last_is;
      }
]

-- What the loop makes from a round on
pub record IsSchedule (modes : List String) (left round sequence : ℕ) (previous : Option String)
    (n : ℤ) (blocks : List ScheduledBlock) : Type 0 where
  pub numbered : Numbered sequence blocks
  pub alternates : Alternates previous blocks
  pub every_round : (r : ℕ) → round ≤ r → r < round + left → Perm (modes_of r blocks) modes
  pub no_earlier : (r : ℕ) → r < round → modes_of r blocks ≡ []
  pub no_later : (r : ℕ) → round + left ≤ r → modes_of r blocks ≡ []
  pub repeated : All (λ (b : ScheduledBlock). b.repetitions ≡ n) blocks

module _ (shuffled : ℕ → List String → List String)
    (permutes : (k : ℕ) (modes : List String) → Perm (shuffled k modes) modes) (modes : List String)
    (apart : Nodup modes) (two : 2 ≤ length modes) (n : ℤ) where
  round-IsSchedule :
      (left round sequence : ℕ) (previous : Option String)
      (a : IsArranged previous (shuffled round modes)) (rest : List ScheduledBlock)
      → IsSchedule modes left (suc round) (sequence + length a.arranged) (some a.last) n rest
      → IsSchedule modes
          (suc left)
          round
          sequence
          previous
          n
          (round_blocks sequence round n a.arranged ++ rest)
  round-IsSchedule left round sequence previous a rest h =
      let whole : Perm a.arranged modes = Permutation.trans a.perm (permutes round modes) in
      let parts = λ (k : ℕ). modes_of-round a.arranged sequence round k n rest in
      record {
        numbered = Numbered-round a.arranged sequence round n rest h.numbered;
        alternates =
            Alternates-round a.arranged previous sequence round n a.last rest a.chain a.last_is
              h.alternates;
        every_round = λ r from to. elim (Bool-cases (round == r)) [
          | inl here ↦
              let is : round ≡ r = ground arith in
              let none_more : modes_of r rest ≡ [] = h.no_earlier r (omega arith) in
              rw (parts r, here, none_more, append-nil a.arranged) whole
          | inr other ↦ rw (parts r, other) (h.every_round r (ground arith) (omega arith))
        ];
        no_earlier = λ r before.
            let other : (round == r) ≡ false = ground arith in
            rw (parts r, other) (h.no_earlier r (omega arith));
        no_later = λ r after.
            let other : (round == r) ≡ false = ground arith in
            rw (parts r, other) (h.no_later r (omega arith));
        repeated = repeated-round a.arranged sequence round n rest h.repeated;
      }

  pub schedule_rounds-IsSchedule :
      (left round sequence : ℕ) (previous : Option String)
      → (blocks : List ScheduledBlock) × (schedule_rounds shuffled left round sequence previous
            modes n
          ≡ ok blocks)
        × IsSchedule modes left round sequence previous n blocks
  unfolding schedule_rounds modes_of
  schedule_rounds-IsSchedule zero round sequence previous = (
    [],
    refl,
    record {
      numbered = tt;
      alternates = tt;
      every_round = λ r from to. absurd (omega arith);
      no_earlier = λ r before. refl;
      no_later = λ r after. refl;
      repeated = tt;
    },
  )
  schedule_rounds-IsSchedule (suc left) round sequence previous =
      let shuffle = permutes round modes in
      let a =
        arrange-IsArranged previous (shuffled round modes)
          (Permutation.nodup (Permutation.symm shuffle) apart)
          (two-Perm (shuffled round modes) modes shuffle two) in
      let (rest, rest_is, h) =
        schedule_rounds-IsSchedule left (suc round) (sequence + length a.arranged) (some a.last) in
      (
        round_blocks sequence round n a.arranged ++ rest,
        rw (a.is, a.last_is, rest_is) refl,
        round-IsSchedule left round sequence previous a rest h,
      )
