-- ===== src/Experiment.antt =====
-- experiment.py: the schedule of a benchmark campaign. The generator's shuffle of each round is an
-- argument.
pub mod Balanced
pub mod Rounds
pub mod Validity
use matf_master_vpn.Prelude.{
  ℕ, zero, suc, ◌+◌, Bool, true, false, not, ◌&&◌, ◌||◌, Option, none, some, List, [], ◌∷◌, ◌++◌,
  String, Error, Result, ok, err, raise_if, ◌>>=◌, ◌>>◌, ltb, ◌==◌, length, if◌then◌else◌,
}
use matf_master_vpn.Prelude.Int.{ℤ, pos, pos_part, lebℤ}
use matf_master_vpn.Prelude.Equality.{Eq, string_eq}
use matf_master_vpn.Texts.{strip, codes}

pub record ScheduledBlock : Type 0 where
  pub sequence : ℕ
  pub round_number : ℕ
  pub mode : String
  pub repetitions : ℤ

abbrev pub same_mode : String → String → Bool
same_mode a b = string_eq.beq a b

abbrev pub contains : String → List String → Bool
contains mode [] = false
contains mode (m ∷ modes) = same_mode mode m || contains mode modes

-- `set(modes)`
unfoldable pub distinct : List String → List String
distinct [] = []
distinct (mode ∷ modes) =
    let rest = distinct modes in if contains mode modes then rest else mode ∷ rest

-- `not mode.strip()`
unfoldable pub is_blank : String → Bool
is_blank mode = length (strip (codes mode)) == 0

unfoldable pub any_blank : List String → Bool
any_blank [] = false
any_blank (mode ∷ modes) = is_blank mode || any_blank modes

-- `mode`, the first of `order`, goes to the place of the first later mode other than `previous_last`,
-- which comes first; `next` raises where there is none.
unfoldable pub exchange : String → String → List String → Result (String × List String)
exchange mode previous_last [] = err Error.stop_iteration
exchange mode previous_last (m ∷ order) =
    let later = exchange mode previous_last order >>= λ found. ok (found.0, m ∷ found.1) in
    if same_mode m previous_last then later else ok (m, mode ∷ order)

-- The test on `previous_last` and the swap
unfoldable pub arrange : Option String → List String → Result (List String)
arrange none order = ok order
arrange (some previous_last) [] = err Error.index_error
arrange (some previous_last) (mode ∷ order) =
    if same_mode mode previous_last
    then (exchange mode previous_last order >>= λ found. ok (found.0 ∷ found.1))
    else ok (mode ∷ order)

-- The blocks of a round
unfoldable pub round_blocks : ℕ → ℕ → ℤ → List String → List ScheduledBlock
round_blocks sequence round_number repetitions [] = []
round_blocks sequence round_number repetitions (mode ∷ order) =
    record {
      sequence = sequence;
      round_number = round_number;
      mode = mode;
      repetitions = repetitions;
    }
    ∷ round_blocks (suc sequence) round_number repetitions order

-- `order[-1]`
unfoldable pub last_mode : List String → Result String
last_mode [] = err Error.index_error
last_mode (mode ∷ []) = ok mode
last_mode (mode ∷ next ∷ order) = last_mode (next ∷ order)

module _ (shuffled : ℕ → List String → List String) where
  -- The loop over the rounds, with the number of those left
  unfoldable pub schedule_rounds :
      ℕ → ℕ → ℕ → Option String → List String → ℤ → Result (List ScheduledBlock)
  schedule_rounds zero round_number sequence previous_last modes repetitions = ok []
  schedule_rounds (suc left) round_number sequence previous_last modes repetitions = do
    order ← arrange previous_last (shuffled round_number modes)
    last ← last_mode order
    rest ←
        schedule_rounds left (suc round_number) (sequence + length order) (some last) modes
          repetitions
    ok (round_blocks sequence round_number repetitions order ++ rest)

  -- create_balanced_schedule
  unfoldable pub create_balanced_schedule : List String → ℤ → ℤ → Result (List ScheduledBlock)
  create_balanced_schedule modes rounds repetitions_per_block = do
    raise_if (ltb (length modes) 2) Error.value_error
    raise_if (not (length (distinct modes) == length modes)) Error.value_error
    raise_if (any_blank modes) Error.value_error
    raise_if (lebℤ rounds (pos 0) || lebℤ repetitions_per_block (pos 0)) Error.value_error
    schedule_rounds (pos_part rounds) 1 1 none modes repetitions_per_block
