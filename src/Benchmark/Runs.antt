-- ===== src/Benchmark/Runs.antt =====
-- benchmark_cli.py: the checks of the options and the runs of ping and iperf3. How each command ends is
-- an argument.
use matf_master_vpn.Prelude.{
  ℕ, zero, suc, Bool, true, false, not, ◌||◌, Option, List, [], ◌∷◌, ◌++◌, String, Error, Result,
  ok, err, ◌>>=◌, ◌>>◌, raise_if, ◌==◌, if◌then◌else◌, is_value_error,
}
use matf_master_vpn.Prelude.Int.{ℤ, pos, ltbℤ, lebℤ, ◌==ℤ◌}
use matf_master_vpn.Json.{Json}
use matf_master_vpn.Texts.{Text}
use matf_master_vpn.Benchmark.{Arithmetic, Summary, summarize, Metrics, parse_iperf3_json}

pub record Options : Type 0 where
  pub repetitions : ℤ
  pub ping_count : ℤ
  pub iperf_port : ℤ
  pub iperf_duration : ℤ
  pub max_attempts : ℤ
  pub inter_run_delay : ℤ

-- _validate_options
unfoldable pub validate_options : Options → Result (Unit {0})
validate_options options = do
  raise_if (lebℤ options.repetitions (pos 0) || lebℤ options.ping_count (pos 0)) Error.system_exit
  raise_if (lebℤ options.iperf_duration (pos 0)) Error.system_exit
  raise_if (lebℤ options.max_attempts (pos 0) || ltbℤ options.inter_run_delay (pos 0))
      Error.system_exit
  raise_if (ltbℤ options.iperf_port (pos 1) || ltbℤ (pos 65535) options.iperf_port)
      Error.system_exit

-- A command that has ended
pub record Completed : Type 0 where
  pub return_code : ℤ
  pub stdout : Text

-- _run
unfoldable pub run_command : Completed → Result Text
run_command completed = do
  raise_if (not (completed.return_code ==ℤ pos 0)) Error.command_error
  ok completed.stdout

-- `except (BenchmarkCommandError, ValueError)`
abbrev pub is_retried : Error → Bool
is_retried Error.command_error = true
is_retried e = is_value_error e

-- `not samples`
abbrev pub none_found {ℓ} : {A : Type ℓ} → List A → Bool
none_found [] = true
none_found (sample ∷ samples) = false

-- An entry of `failed_attempts`
pub record Failure : Type 0 where
  pub repetition : ℕ
  pub attempt : ℕ
  pub error : Error

module _ {F : Type 0} (f : Arithmetic F) where
  -- parse_ping_times, with the numbers that the pattern finds in the output
  unfoldable pub parse_ping_times : (Text → List F) → Text → Result (List F)
  parse_ping_times replies output = do
    raise_if (none_found (replies output)) Error.value_error
    ok (replies output)

  pub record LatencyRun : Type 0 where
    pub repetition : ℕ
    pub rtt_ms : List F

  pub record IperfRun : Type 0 where
    pub repetition : ℕ
    pub metrics : Metrics f

  pub record IperfResult : Type 0 where
    pub raw_runs : List IperfRun
    pub failed_attempts : List Failure
    pub throughput_summary : Summary F

  module _ (replies : Text → List F) (completed : ℕ → Completed) where
    -- The loop of `_run_latency`, with the repetitions left
    unfoldable pub latency_runs : ℕ → ℕ → Result (List LatencyRun)
    latency_runs zero repetition = ok []
    latency_runs (suc left) repetition = do
      output ← run_command (completed repetition)
      samples ← parse_ping_times replies output
      runs ← latency_runs left (suc repetition)
      ok (record { repetition = repetition; rtt_ms = samples } ∷ runs)

  -- The samples of all runs
  abbrev pub all_samples : List LatencyRun → List F
  all_samples [] = []
  all_samples (run ∷ runs) = run.rtt_ms ++ all_samples runs

  -- `completed r a` is how the command of attempt `a` of repetition `r` ends.
  module _ (loads : Text → Option Json) (protocol : String) (completed : ℕ → ℕ → Completed)
      (max_attempts : ℕ) where
    -- The `try` of an attempt
    unfoldable pub measure : ℕ → ℕ → Result (Metrics f)
    measure repetition attempt = do
      output ← run_command (completed repetition attempt)
      parse_iperf3_json f (loads output) protocol

    abbrev pub with_failure :
        Failure → Result (Metrics f) × List Failure → Result (Metrics f) × List Failure
    with_failure failure (result, failures) = (result, failure ∷ failures)

    -- An attempt, with what the later ones give
    abbrev pub after_attempt :
        ℕ
        → ℕ
        → Result (Metrics f) × List Failure
        → Result (Metrics f)
        → Result (Metrics f) × List Failure
    after_attempt repetition attempt rest (ok metrics) = (ok metrics, [])
    after_attempt repetition attempt rest (err e) =
        let failure : Failure = record { repetition = repetition; attempt = attempt; error = e } in
        if is_retried e
        then (if attempt == max_attempts
            then (err Error.command_error, failure ∷ [])
            else with_failure failure rest)
        else (err e, [])

    -- The loop over the attempts of a repetition, with those left; `assert metrics is not None` after it
    unfoldable pub attempt_loop : ℕ → ℕ → ℕ → Result (Metrics f) × List Failure
    attempt_loop repetition zero attempt = (err Error.assertion_error, [])
    attempt_loop repetition (suc left) attempt =
        after_attempt repetition attempt (attempt_loop repetition left (suc attempt))
          (measure repetition attempt)

    -- The loop over the repetitions, with those left
    unfoldable pub iperf_runs : ℕ → ℕ → Result (List IperfRun × List Failure)
    iperf_runs zero repetition = ok ([], [])
    iperf_runs (suc left) repetition = do
      let tried = attempt_loop repetition max_attempts 1
      metrics ← tried.0
      (runs, failures) ← iperf_runs left (suc repetition)
      ok (record { repetition = repetition; metrics = metrics } ∷ runs, tried.1 ++ failures)

    abbrev pub throughput : List IperfRun → List F
    throughput [] = []
    throughput (run ∷ runs) = run.metrics.bits_per_second ∷ throughput runs

    -- _run_iperf
    unfoldable pub run_iperf : ℕ → Result IperfResult
    run_iperf repetitions = do
      (runs, failures) ← iperf_runs repetitions 1
      summary ← summarize f (throughput runs)
      ok (record { raw_runs = runs; failed_attempts = failures; throughput_summary = summary })
