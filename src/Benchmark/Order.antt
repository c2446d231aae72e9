-- ===== src/Benchmark/Order.antt =====
-- benchmark.py: what a summary says of its samples.
use mathlib.Core.List.{Perm, Mem, mem-cons_self}
use mathlib.Core.List.Perm as Permutation
use matf_master_vpn.Prelude.{
  suc, ◌-◌, ◌<◌, ◌≡◌, refl, sym, ap, ◌∙◌, true, false, List, [], ◌∷◌, Error, ok, err, length, ◌==◌,
  ltb, if◌then◌else◌, arith, Bool-cases, inl, inr, ◌⊎◌, All,
}
use matf_master_vpn.Benchmark.{Arithmetic, Summary, sorted, summarize}
use matf_master_vpn.Benchmark.Sorting.{
  ArithmeticLaws, IsSorted, sorted-Perm, length-sorted, sorted-All, sorted-IsSorted, last-greatest,
  item-least, percentile_total, Mem-item,
}

-- The summary of samples: their number, and a least and a greatest of them
pub record IsSummary {F : Type 0} (f : Arithmetic F) (samples : List F) (s : Summary F)
    : Type 0 where
  pub counted : s.count ≡ length samples
  pub least : All (λ v. f.le s.minimum v ≡ true) samples
  pub greatest : All (λ v. f.le v s.maximum ≡ true) samples
  pub attained_least : Mem s.minimum samples
  pub attained_greatest : Mem s.maximum samples

mean_total :
    {F : Type 0} (f : Arithmetic F) (laws : ArithmeticLaws f) (v : F) (values : List F)
    → (m : F) × (f.fmean (v ∷ values) ≡ ok m)
mean_total f laws v values = laws.fmean_total (v ∷ values) (omega arith)

-- The standard deviation, 0 of a single value
deviation_total :
    {F : Type 0} (f : Arithmetic F) (laws : ArithmeticLaws f) (values : List F)
    → (m : F) × ((if ltb 1 (length values) then f.stdev values else ok (f.decimal 0 1)) ≡ ok m)
deviation_total f laws values = elim (Bool-cases (ltb 1 (length values))) [
  | inl several ↦ let (m, is) = laws.stdev_total values (ground arith) in (m, rw several is)
  | inr single ↦ (f.decimal 0 1, rw single refl)
]

-- Sorted values that are not empty have a summary.
summary_of :
    {F : Type 0} (f : Arithmetic F) (laws : ArithmeticLaws f) (samples : List F) (v : F)
    (values : List F)
    → sorted f samples ≡ v ∷ values
    → (s : Summary F) × (summarize f samples ≡ ok s) × IsSummary f samples s
unfolding summarize
summary_of f laws samples v values is =
    let ordered : IsSorted f (v ∷ values) = rw is at (sorted-IsSorted f laws samples) in
    let perm : Perm (v ∷ values) samples = rw is at (sorted-Perm f samples) in
    let size : suc (length values) ≡ length samples =
      ap length (sym is) ∙ length-sorted f samples in
    let (w, w_is, below) = last-greatest f laws v values ordered in
    let (p, p_is) = percentile_total f laws v values in
    let back : suc (length values) - 1 ≡ length values = omega arith in
    let some_values : (suc (length values) == 0) ≡ false = ground arith in
    let (mean, mean_is) = mean_total f laws v values in
    let (deviation, deviation_is) = deviation_total f laws (v ∷ values) in
    let margin =
      f.div (f.mul (f.decimal 196 2) deviation) (f.sqrt (f.of_nat (suc (length values)))) in
    let under : All (λ x. f.le v x ≡ true) (sorted f samples) =
      rw is (item-least f laws v values ordered) in
    let over : All (λ x. f.le x w ≡ true) (sorted f samples) = rw is below in
    (
      record {
        count = suc (length values);
        minimum = v;
        maximum = w;
        mean = mean;
        median = f.middle (v ∷ values);
        p95 = p;
        standard_deviation = deviation;
        confidence_95_low = f.sub mean margin;
        confidence_95_high = f.add mean margin;
      },
      rw (is, some_values, back, w_is, p_is, mean_is, deviation_is) refl,
      record {
        counted = size;
        least = sorted-All f (λ x. f.le v x ≡ true) samples under;
        greatest = sorted-All f (λ x. f.le x w ≡ true) samples over;
        attained_least = (Permutation.mem_iff perm).0 mem-cons_self;
        attained_greatest =
            (Permutation.mem_iff perm).0 (Mem-item (v ∷ values) (length values) w_is);
      },
    )

nonempty :
    {F : Type 0} (f : Arithmetic F) (laws : ArithmeticLaws f) (samples values : List F)
    → sorted f samples ≡ values
    → 0 < length samples
    → (s : Summary F) × (summarize f samples ≡ ok s) × IsSummary f samples s
nonempty f laws samples [] is h = absurd (omega (arith, length-sorted f samples, ap length is))
nonempty f laws samples (v ∷ values) is h = summary_of f laws samples v values is

-- Samples have a summary unless there are none, which raises `ValueError`: the summary counts them, its
-- minimum and its maximum are samples, no sample is less than the one or greater than the other, and no
-- index is out of range.
pub summarize_outcomes :
    {F : Type 0} (f : Arithmetic F) (laws : ArithmeticLaws f) (samples : List F)
    → ((samples ≡ []) × (summarize f samples ≡ err Error.value_error))
      ⊎ ((s : Summary F) × (summarize f samples ≡ ok s) × IsSummary f samples s)
unfolding summarize sorted
summarize_outcomes f laws [] = inl (refl, refl)
summarize_outcomes f laws (x ∷ samples) =
    inr (nonempty f laws (x ∷ samples) (sorted f (x ∷ samples)) refl (omega arith))
