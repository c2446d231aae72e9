-- ===== src/Benchmark/Retries.antt =====
-- benchmark_cli.py: how the runs of iperf3 end.
use matf_master_vpn.Prelude.{
  ℕ, zero, suc, ◌+◌, ◌≤◌, ◌<◌, ◌≡◌, refl, true, false, Option, List, [], ◌∷◌, ◌++◌, String, Error,
  Result, ok, err, ◌>>=◌, ◌==◌, Bool-cases, Result-cases, inl, inr, ◌⊎◌, length, arith,
}
use matf_master_vpn.Json.{Json}
use matf_master_vpn.Texts.{Text}
use matf_master_vpn.Benchmark.{Arithmetic, Summary, summarize, Metrics}
use matf_master_vpn.Benchmark.Sorting.{ArithmeticLaws}
use matf_master_vpn.Benchmark.Order.{IsSummary, summarize_outcomes}
use matf_master_vpn.Benchmark.Runs.{
  Completed, Failure, is_retried, IperfRun, IperfResult, measure, with_failure, attempt_loop,
  iperf_runs, throughput, run_iperf,
}

module _ {F : Type 0} (f : Arithmetic F) (loads : Text → Option Json) (protocol : String)
    (completed : ℕ → ℕ → Completed) (max : ℕ) where
  -- Successive attempts of a repetition, from this one on, each of which failed in a way that is
  -- tried again
  abbrev pub AreFailures : ℕ → ℕ → List Failure → Type 0
  AreFailures repetition attempt [] = Unit
  AreFailures repetition attempt (x ∷ failures) =
      (x.repetition ≡ repetition)
      × (x.attempt ≡ attempt)
      × (measure f loads protocol completed max repetition attempt ≡ err x.error)
      × (is_retried x.error ≡ true)
      × AreFailures repetition (suc attempt) failures

  -- How the attempts of a repetition end, from one on with `left` to come
  pub data Attempts (repetition attempt left : ℕ) : Result (Metrics f) × List Failure → Type 0 where
    succeeds :
        {m : Metrics f} {failures : List Failure}
        → AreFailures repetition attempt failures
        → length failures < left
        → measure f loads protocol completed max repetition (attempt + length failures) ≡ ok m
        → Attempts repetition attempt left (ok m, failures)
    gives_up :
        {failures : List Failure}
        → AreFailures repetition attempt failures
        → length failures ≡ left
        → Attempts repetition attempt left (err Error.command_error, failures)
    breaks :
        {e : Error} {failures : List Failure}
        → AreFailures repetition attempt failures
        → length failures < left
        → measure f loads protocol completed max repetition (attempt + length failures) ≡ err e
        → is_retried e ≡ false
        → Attempts repetition attempt left (err e, failures)

  later-Attempts :
      (repetition attempt left : ℕ) (e : Error) (r : Result (Metrics f) × List Failure)
      → measure f loads protocol completed max repetition attempt ≡ err e
      → is_retried e ≡ true
      → Attempts repetition (suc attempt) left r
      → Attempts repetition attempt (suc left) (
          with_failure f loads protocol completed max
            (record { repetition = repetition; attempt = attempt; error = e })
            r)
  later-Attempts repetition attempt left e _ failed again (succeeds {failures} h few done) =
      let index : attempt + suc (length failures) ≡ suc attempt + length failures = omega arith in
      succeeds (refl, refl, failed, again, h) (omega arith) (rw index done)
  later-Attempts repetition attempt left e _ failed again (gives_up h all) =
      gives_up (refl, refl, failed, again, h) (omega arith)
  later-Attempts repetition attempt left e _ failed again (breaks {failures} h few broke other) =
      let index : attempt + suc (length failures) ≡ suc attempt + length failures = omega arith in
      breaks (refl, refl, failed, again, h) (omega arith) (rw index broke) other

  attempt_loop-Attempts :
      (repetition left attempt : ℕ)
      → attempt + left ≡ suc max
      → 0 < left
      → Attempts repetition attempt left
          (attempt_loop f loads protocol completed max repetition left attempt)
  unfolding attempt_loop
  attempt_loop-Attempts repetition zero attempt h some_left = absurd (omega arith)
  attempt_loop-Attempts repetition (suc left) attempt h some_left =
      let first : attempt + 0 ≡ attempt = omega arith in
      elim (Result-cases (measure f loads protocol completed max repetition attempt)) [
        | inl (m, done) ↦ rw done (succeeds tt (omega arith) (rw first done))
        | inr (e, failed) ↦ elim (Bool-cases (is_retried e)) [
          | inr other ↦ rw (failed, other) (breaks tt (omega arith) (rw first failed) other)
          | inl again ↦ elim (Bool-cases (attempt == max)) [
            | inl last ↦
                rw (failed, again, last) (gives_up (refl, refl, failed, again, tt) (ground arith))
            | inr more ↦
                rw (failed, again, more)
                  (later-Attempts repetition attempt left e _ failed again (
                    attempt_loop-Attempts repetition left (suc attempt) (omega arith)
                      (ground arith)))
          ]
        ]
      ]

  -- Runs of successive repetitions, each after its own failures, of which there are fewer than `max`
  abbrev pub AreRuns : ℕ → List (IperfRun f) → List Failure → Type 0
  AreRuns repetition [] failures = failures ≡ []
  AreRuns repetition (run ∷ runs) failures =
      (own : List Failure) × (rest : List Failure) × (failures ≡ own ++ rest)
      × (run.repetition ≡ repetition)
      × AreFailures repetition 1 own
      × (length own < max)
      × (measure f loads protocol completed max repetition (suc (length own)) ≡ ok run.metrics)
      × AreRuns (suc repetition) runs rest

  -- A repetition that ends the runs: all its attempts failed, or one in a way that is not tried again.
  pub data Stops (from to : ℕ) : Error → Type 0 where
    gave_up :
        (repetition : ℕ) (own : List Failure)
        → from ≤ repetition
        → repetition < to
        → AreFailures repetition 1 own
        → length own ≡ max
        → Stops from to Error.command_error
    broke :
        (repetition : ℕ) (own : List Failure) {e : Error}
        → from ≤ repetition
        → repetition < to
        → AreFailures repetition 1 own
        → length own < max
        → measure f loads protocol completed max repetition (suc (length own)) ≡ err e
        → is_retried e ≡ false
        → Stops from to e

  later-Stops : (from to : ℕ) {e : Error} → Stops (suc from) to e → Stops from to e
  later-Stops from to (gave_up r own a b h all) = gave_up r own (omega arith) b h all
  later-Stops from to (broke r own a b h few m other) = broke r own (omega arith) b h few m other

  -- What the loop over the repetitions gives
  Repetitions : ℕ → ℕ → Result (List (IperfRun f) × List Failure) → Type 0
  Repetitions left repetition r =
      ((runs : List (IperfRun f)) × (failures : List Failure) × (r ≡ ok (runs, failures))
        × (length runs ≡ left)
        × AreRuns repetition runs failures)
      ⊎ ((e : Error) × (r ≡ err e) × Stops repetition (repetition + left) e)

  -- A repetition, with the later ones
  abbrev then_runs :
      ℕ
      → Result (Metrics f) × List Failure
      → Result (List (IperfRun f) × List Failure)
      → Result (List (IperfRun f) × List Failure)
  then_runs repetition tried rest = tried.0 >>= λ metrics.
      (rest >>= λ later.
      ok (record { repetition = repetition; metrics = metrics } ∷ later.0, tried.1 ++ later.1))

  first-Repetitions :
      (left repetition : ℕ) (tried : Result (Metrics f) × List Failure)
      → Attempts repetition 1 max tried
      → (rest : Result (List (IperfRun f) × List Failure)) → Repetitions left (suc repetition) rest
      → Repetitions (suc left) repetition (then_runs repetition tried rest)
  unfolding Repetitions
  first-Repetitions left repetition _ (gives_up {failures} h all) rest later =
      inr (Error.command_error, refl, gave_up repetition failures (omega arith) (omega arith) h all)
  first-Repetitions left repetition _ (breaks {e} {failures} h few m other) rest later =
      let at : suc (length failures) ≡ 1 + length failures = omega arith in
      inr (e, refl, broke repetition failures (omega arith) (omega arith) h few (rw at m) other)
  first-Repetitions left repetition _ (succeeds {m} {failures} h few done) rest
        (inl (runs, others, is, size, are)) =
      let at : suc (length failures) ≡ 1 + length failures = omega arith in
      inl (
        record { repetition = repetition; metrics = m } ∷ runs,
        failures ++ others,
        rw is refl,
        omega arith,
        (failures, others, refl, refl, h, few, rw at done, are),
      )
  first-Repetitions left repetition _ (succeeds h few done) rest (inr (e, is, stops)) =
      let to : suc repetition + left ≡ repetition + suc left = omega arith in
      inr (e, rw is refl, later-Stops repetition (repetition + suc left) (rw to at stops))

  iperf_runs-Repetitions :
      (left repetition : ℕ)
      → 0 < max
      → Repetitions left repetition (iperf_runs f loads protocol completed max left repetition)
  unfolding iperf_runs Repetitions
  iperf_runs-Repetitions zero repetition some_max = inl ([], [], refl, refl, refl)
  iperf_runs-Repetitions (suc left) repetition some_max =
      first-Repetitions left repetition
        (attempt_loop f loads protocol completed max repetition max 1)
        (attempt_loop-Attempts repetition max 1 (omega arith) some_max)
        (iperf_runs f loads protocol completed max left (suc repetition))
        (iperf_runs-Repetitions left (suc repetition) some_max)

  summarised :
      (laws : ArithmeticLaws f) (runs : List (IperfRun f))
      → 0 < length runs
      → (s : Summary F) × (summarize f (throughput f loads protocol completed max runs) ≡ ok s)
        × IsSummary f (throughput f loads protocol completed max runs) s
  summarised laws [] some_runs = absurd (omega arith)
  summarised laws (run ∷ runs) some_runs =
      elim (summarize_outcomes f laws (throughput f loads protocol completed max (run ∷ runs))) [
        | inl (nothing, refused) ↦ absurd (cc nothing)
        | inr summary ↦ summary
      ]

  -- For valid numbers of repetitions and attempts, however the commands end. Either there is a run for
  -- each repetition, in order, which holds the metrics of the first attempt that did not fail, after
  -- fewer failures than attempts are allowed, and `failed_attempts` has just these failures in order,
  -- and the summary is what `summarize` makes of the throughput of the runs. Or a repetition stopped it: after as many
  -- failures as attempts are allowed with `BenchmarkCommandError`, or by an exception that is not tried
  -- again, which is raised.
  pub run_iperf_outcomes :
      (laws : ArithmeticLaws f) (repetitions : ℕ)
      → 0 < max
      → 0 < repetitions
      → ((r : IperfResult f) × (run_iperf f loads protocol completed max repetitions ≡ ok r)
          × (length r.raw_runs ≡ repetitions)
          × AreRuns 1 r.raw_runs r.failed_attempts
          × (summarize f (throughput f loads protocol completed max r.raw_runs)
              ≡ ok r.throughput_summary)
          × IsSummary f (throughput f loads protocol completed max r.raw_runs) r.throughput_summary)
        ⊎ ((e : Error) × (run_iperf f loads protocol completed max repetitions ≡ err e)
            × Stops 1 (suc repetitions) e)
  unfolding run_iperf Repetitions
  run_iperf_outcomes laws repetitions some_max some_repetitions =
      elim (iperf_runs-Repetitions repetitions 1 some_max) [
        | inl (runs, failures, is, size, are) ↦
            let (s, s_is, h) = summarised laws runs (omega arith) in
            inl (
              record { raw_runs = runs; failed_attempts = failures; throughput_summary = s },
              rw (is, s_is) refl,
              size,
              are,
              s_is,
              h,
            )
        | inr (e, is, stops) ↦
            let to : 1 + repetitions ≡ suc repetitions = omega arith in
            inr (e, rw is refl, rw to at stops)
      ]
