-- ===== src/Benchmark/Sorting.antt =====
-- benchmark.py: sorted samples, and the percentile of them.
use mathlib.Core.List.{Perm, Mem, mem-cons_self, mem-cons_of_mem}
use mathlib.Core.List.Perm as Permutation
use matf_master_vpn.Prelude.{
  ℕ, zero, suc, ◌-◌, ◌≤◌, ◌<◌, ◌≡◌, refl, sym, ap, ◌∙◌, true, List, [], ◌∷◌, ok, length, ◌==◌,
  if◌then◌else◌, arith, Bool-cases, inl, inr, ◌⊎◌, All,
}
use matf_master_vpn.Benchmark.{Arithmetic, item, insert_sorted, sorted, between, percentile}

-- The numbers that are compared are ordered, so none of them is NaN, no sum of samples
-- is too large for a float, and 95 percent of a number of
-- samples lies between 0 and that number, also when it is rounded.
pub record ArithmeticLaws {F : Type 0} (f : Arithmetic F) : Type 0 where
  pub fmean_total : (values : List F) → 0 < length values → (m : F) × (f.fmean values ≡ ok m)
  pub stdev_total : (values : List F) → 1 < length values → (m : F) × (f.stdev values ≡ ok m)
  pub le_total : (a b : F) → (f.le a b ≡ true) ⊎ (f.le b a ≡ true)
  pub le_trans : (a b c : F) → f.le a b ≡ true → f.le b c ≡ true → f.le a c ≡ true
  pub floor_inside : (n : ℕ) → f.floor (f.mul (f.of_nat n) (f.decimal 95 2)) ≤ n
  pub ceil_inside : (n : ℕ) → f.ceil (f.mul (f.of_nat n) (f.decimal 95 2)) ≤ n

item_inside {ℓ} :
    {A : Type ℓ} (values : List A) (i : ℕ) → i < length values → (v : A) × (item values i ≡ ok v)
item_inside [] i h = absurd (omega arith)
item_inside (v ∷ values) zero h = (v, refl)
item_inside (v ∷ values) (suc i) h = item_inside values i (omega arith)

pub Mem-item : {A : Type 0} (values : List A) (i : ℕ) {v : A} → item values i ≡ ok v → Mem v values
Mem-item [] i e = absurd (cc e)
Mem-item (w ∷ values) zero {v} e = let is : w ≡ v = cc e in rw is mem-cons_self
Mem-item (w ∷ values) (suc i) e = mem-cons_of_mem w (Mem-item values i e)

module _ {F : Type 0} (f : Arithmetic F) where
  abbrev pub IsSorted : List F → Type 0
  IsSorted [] = Unit
  IsSorted (v ∷ values) = All (λ w. f.le v w ≡ true) values × IsSorted values

  insert-Perm : (v : F) (values : List F) → Perm (insert_sorted f v values) (v ∷ values)
  unfolding insert_sorted
  insert-Perm v [] = Permutation.refl _
  insert-Perm v (w ∷ values) = elim (Bool-cases (f.le v w)) [
    | inl before ↦ rw before (Permutation.refl _)
    | inr after ↦ rw after (
        Permutation.trans (Permutation.cons w (insert-Perm v values)) (Permutation.swap v w values))
  ]

  pub sorted-Perm : (values : List F) → Perm (sorted f values) values
  unfolding sorted
  sorted-Perm [] = Permutation.refl _
  sorted-Perm (v ∷ values) =
      Permutation.trans (insert-Perm v (sorted f values)) (Permutation.cons v (sorted-Perm values))

  length-insert :
      (v : F) (values : List F) → length (insert_sorted f v values) ≡ suc (length values)
  unfolding insert_sorted
  length-insert v [] = refl
  length-insert v (w ∷ values) = elim (Bool-cases (f.le v w)) [
    | inl before ↦ rw before refl
    | inr after ↦ rw after (ap suc (length-insert v values))
  ]

  pub length-sorted : (values : List F) → length (sorted f values) ≡ length values
  unfolding sorted
  length-sorted [] = refl
  length-sorted (v ∷ values) = length-insert v (sorted f values) ∙ ap suc (length-sorted values)

  module _ {κ} (P : F → Type κ) where
    All-insert : (v : F) (values : List F) → P v → All P values → All P (insert_sorted f v values)
    unfolding insert_sorted
    All-insert v [] h t = (h, t)
    All-insert v (w ∷ values) h t = elim (Bool-cases (f.le v w)) [
      | inl before ↦ rw before (h, (t.0, t.1))
      | inr after ↦ rw after (t.0, All-insert v values h t.1)
    ]

    insert-All : (v : F) (values : List F) → All P (insert_sorted f v values) → P v × All P values
    unfolding insert_sorted
    insert-All v [] h = h
    insert-All v (w ∷ values) h = elim (Bool-cases (f.le v w)) [
      | inl before ↦ let h' : P v × (P w × All P values) = rw before at h in h'
      | inr after ↦
          let h' : P w × All P (insert_sorted f v values) = rw after at h in
          let (first, rest) = insert-All v values h'.1 in (first, (h'.0, rest))
    ]

    pub sorted-All : (values : List F) → All P (sorted f values) → All P values
    unfolding sorted
    sorted-All [] h = h
    sorted-All (v ∷ values) h =
        let (first, rest) = insert-All v (sorted f values) h in (first, sorted-All values rest)

  module _ (laws : ArithmeticLaws f) where
    le_refl : (v : F) → f.le v v ≡ true
    le_refl v = elim (laws.le_total v v) [ inl h ↦ h | inr h ↦ h ]

    le-All :
        (v w : F) (values : List F)
        → f.le v w ≡ true
        → All (λ x. f.le w x ≡ true) values
        → All (λ x. f.le v x ≡ true) values
    le-All v w [] h t = t
    le-All v w (x ∷ values) h t = (laws.le_trans v w x h t.0, le-All v w values h t.1)

    insert-IsSorted :
        (v : F) (values : List F) → IsSorted values → IsSorted (insert_sorted f v values)
    unfolding insert_sorted
    insert-IsSorted v [] h = (tt, tt)
    insert-IsSorted v (w ∷ values) h = elim (Bool-cases (f.le v w)) [
      | inl before ↦ rw before ((before, le-All v w values before h.0), (h.0, h.1))
      | inr after ↦
          let under : f.le w v ≡ true = elim (laws.le_total v w) [
            | inl over ↦ absurd (cc (sym after ∙ over))
            | inr h ↦ h
          ] in
          rw after
            (All-insert (λ x. f.le w x ≡ true) v values under h.0, insert-IsSorted v values h.1)
    ]

    pub sorted-IsSorted : (values : List F) → IsSorted (sorted f values)
    unfolding sorted
    sorted-IsSorted [] = tt
    sorted-IsSorted (v ∷ values) = insert-IsSorted v (sorted f values) (sorted-IsSorted values)

    -- The last of sorted values is the greatest.
    pub last-greatest :
        (v : F) (values : List F)
        → IsSorted (v ∷ values)
        → (w : F) × (item (v ∷ values) (length values) ≡ ok w)
          × All (λ x. f.le x w ≡ true) (v ∷ values)
    last-greatest v [] h = (v, refl, (le_refl v, tt))
    last-greatest v (x ∷ values) h =
        let (w, is, below) = last-greatest x values h.1 in
        (w, is, (laws.le_trans v x w h.0.0 below.0, below))

    pub item-least :
        (v : F) (values : List F) → IsSorted (v ∷ values) → All (λ x. f.le v x ≡ true) (v ∷ values)
    item-least v values h = (le_refl v, h.0)

    -- For the 95th percentile no index is out of range.
    pub percentile_total :
        (v : F) (values : List F) → (p : F) × (percentile f (v ∷ values) (f.decimal 95 2) ≡ ok p)
    unfolding percentile between
    percentile_total v values =
        let n = length values in
        let position = f.mul (f.of_nat n) (f.decimal 95 2) in
        let floor_inside : f.floor position < suc n = omega (arith, laws.floor_inside n) in
        let ceil_inside : f.ceil position < suc n = omega (arith, laws.ceil_inside n) in
        let (low, low_is) = item_inside (v ∷ values) (f.floor position) floor_inside in
        let (high, high_is) = item_inside (v ∷ values) (f.ceil position) ceil_inside in
        let back : suc n - 1 ≡ n = omega arith in
        elim (Bool-cases (suc n == 1)) [
          | inl alone ↦ (v, rw alone refl)
          | inr more ↦
              let weight = f.sub position (f.of_nat (f.floor position)) in
              let mixed = f.add (f.mul low (f.sub (f.of_nat 1) weight)) (f.mul high weight) in
              (
                if f.floor position == f.ceil position then low else mixed,
                rw (more, back, low_is, high_is) refl,
              )
        ]
