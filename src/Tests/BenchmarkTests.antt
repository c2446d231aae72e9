-- ===== src/Tests/BenchmarkTests.antt =====
-- Numbers counted in hundredths stand for the floating point numbers: two runs of iperf3, of which the
-- first fails once.
use matf_master_vpn.Prelude.{
  ℕ, ◌+◌, ◌*◌, ◌/◌, ◌-◌, ◌≡◌, refl, true, Option, some, List, [], ◌∷◌, Error, Result, ok, err, leb,
  arith, ◌⊎◌, length, ◌&&◌, ◌==◌, if◌then◌else◌,
}
use matf_master_vpn.Prelude.Int.{pos}
use matf_master_vpn.OrderedDict.{get}
use matf_master_vpn.Json.{Json, integer, object, member, no_members, dict_of}
use matf_master_vpn.Texts.{Text}
use matf_master_vpn.Benchmark.{
  Arithmetic, Summary, summarize, sorted, insert_sorted, percentile, between, parse_iperf3_json,
  tcp_metrics,
}
use matf_master_vpn.Benchmark.Sorting.{ArithmeticLaws}
use matf_master_vpn.Benchmark.Order.{IsSummary, summarize_outcomes}
use matf_master_vpn.Benchmark.Runs.{
  Completed, Failure, IperfResult, run_iperf, iperf_runs, attempt_loop, measure, run_command,
  throughput,
}
use matf_master_vpn.Benchmark.Retries.{AreRuns, Stops, run_iperf_outcomes}

abbrev to_hundredths : Json → Result ℕ
to_hundredths (integer (pos n)) = ok (100 * n)
to_hundredths _ = err Error.type_error

abbrev hundredths : Arithmetic ℕ
hundredths = record {
  to_float = to_hundredths;
  le = leb;
  decimal = λ m k. m;
  of_nat = λ n. 100 * n;
  add = λ a b. a + b;
  sub = λ a b. a - b;
  mul = λ a b. a * b / 100;
  div = λ a b. a * 100 / (b + 1);
  sqrt = λ a. a;
  floor = λ a. a / 100;
  ceil = λ a. (a + 99) / 100;
  fmean = λ values. ok 0;
  stdev = λ values. ok 0;
  middle = λ values. 0;
}

leb_total : (a b : ℕ) → (leb a b ≡ true) ⊎ (leb b a ≡ true)
leb_total a b = ground arith

leb_trans : (a b d : ℕ) → leb a b ≡ true → leb b d ≡ true → leb a d ≡ true
leb_trans a b d h k = ground arith

hundredths-laws : ArithmeticLaws hundredths
hundredths-laws = record {
  fmean_total = λ values some_values. (0, refl);
  stdev_total = λ values several. (0, refl);
  le_total = leb_total;
  le_trans = leb_trans;
  floor_inside = λ n. omega arith;
  ceil_inside = λ n. omega arith;
}

abbrev samples : List ℕ
samples = 300 ∷ 100 ∷ 200 ∷ []

summarize_outcomes_example :
    ((samples ≡ []) × (summarize hundredths samples ≡ err Error.value_error))
    ⊎ ((s : Summary ℕ) × (summarize hundredths samples ≡ ok s) × IsSummary hundredths samples s)
summarize_outcomes_example = summarize_outcomes hundredths hundredths-laws samples

abbrev document : Json
document = object (
    member "end"
      (object (
        member "sum_received" (object (member "bits_per_second" (integer (pos 5)) no_members))
          no_members))
      no_members)

abbrev loads : Text → Option Json
loads output = some document

-- The first attempt of the first repetition ends with code 1.
abbrev completed : ℕ → ℕ → Completed
completed repetition attempt = record {
  return_code = if repetition == 1 && attempt == 1 then pos 1 else pos 0;
  stdout = [];
}

failures_of : Result (IperfResult hundredths) → List Failure
failures_of (ok r) = r.failed_attempts
failures_of (err e) = []

one_failure :
    failures_of (run_iperf hundredths loads "tcp" completed 3 2)
    ≡ record { repetition = 1; attempt = 1; error = Error.command_error } ∷ []
unfolding failures_of run_iperf iperf_runs attempt_loop measure run_command parse_iperf3_json
    tcp_metrics summarize sorted insert_sorted percentile between get dict_of
one_failure = refl

run_iperf_outcomes_example :
    ((r : IperfResult hundredths) × (run_iperf hundredths loads "tcp" completed 3 2 ≡ ok r)
      × (length r.raw_runs ≡ 2)
      × AreRuns hundredths loads "tcp" completed 3 1 r.raw_runs r.failed_attempts
      × (summarize hundredths (throughput hundredths loads "tcp" completed 3 r.raw_runs)
          ≡ ok r.throughput_summary)
      × IsSummary hundredths
          (throughput hundredths loads "tcp" completed 3 r.raw_runs)
          r.throughput_summary)
    ⊎ ((e : Error) × (run_iperf hundredths loads "tcp" completed 3 2 ≡ err e)
        × Stops hundredths loads "tcp" completed 3 1 3 e)
run_iperf_outcomes_example =
    run_iperf_outcomes hundredths loads "tcp" completed 3 hundredths-laws 2 (omega arith)
      (omega arith)
