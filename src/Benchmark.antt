-- ===== src/Benchmark.antt =====
-- benchmark.py: summaries of samples and the metrics of an iperf3 document. Floating point numbers are
-- an abstract type with the operations that the code calls.
pub mod Sorting
pub mod Order
pub mod Runs
pub mod Retries
use matf_master_vpn.Prelude.{
  ℕ, ◌-◌, Bool, true, false, ◌&&◌, ◌||◌, Option, none, some, List, [], ◌∷◌, String, Error, Result,
  ok, err, ◌>>=◌, ◌>>◌, raise_if, length, get_elem?, ◌==◌, ltb, if◌then◌else◌,
}
use matf_master_vpn.Prelude.Equality.{string_eq}
use matf_master_vpn.OrderedDict.{OrderedDict, get}
use matf_master_vpn.Json.{Json, text, array, object, dict_of, list_of}
use matf_master_vpn.Texts.{Text, codes}
use matf_master_vpn.Config.{given}
use package.text.Mathlib.Text.{◌==◌ as str_eq}

pub record Arithmetic (F : Type 0) : Type 0 where
  -- `float(v)` of a JSON value, which may raise `TypeError`, `ValueError`, or `OverflowError` for an
  -- integer
  pub to_float : Json → Result F
  pub le : F → F → Bool
  -- `decimal m k` is the literal with the value m / 10 ^ k
  pub decimal : ℕ → ℕ → F
  pub of_nat : ℕ → F
  pub add : F → F → F
  pub sub : F → F → F
  pub mul : F → F → F
  pub div : F → F → F
  pub sqrt : F → F
  -- math.floor and math.ceil of a number that is not negative
  pub floor : F → ℕ
  pub ceil : F → ℕ
  -- statistics.fmean and statistics.stdev, which may raise `OverflowError`, and statistics.median
  pub fmean : List F → Result F
  pub stdev : List F → Result F
  pub middle : List F → F

pub record Summary (F : Type 0) : Type 0 where
  pub count : ℕ
  pub minimum : F
  pub maximum : F
  pub mean : F
  pub median : F
  pub p95 : F
  pub standard_deviation : F
  pub confidence_95_low : F
  pub confidence_95_high : F

-- `values[index]`
abbrev pub item {ℓ} : {A : Type ℓ} → List A → ℕ → Result A
item values index = elim (get_elem? values index) [ none ↦ err Error.index_error | some v ↦ ok v ]

-- `part in text`
abbrev starts_with : Text → Text → Bool
starts_with [] line = true
starts_with (c ∷ part) [] = false
starts_with (c ∷ part) (d ∷ line) = c == d && starts_with part line

has_part : Text → Text → Bool
has_part part [] = starts_with part []
has_part part (c ∷ line) = starts_with part (c ∷ line) || has_part part line

-- `s in values`
has_text : String → List Json → Bool
has_text s [] = false
has_text s (text t ∷ values) = str_eq s t || has_text s values
has_text s (_ ∷ values) = has_text s values

module _ {F : Type 0} (f : Arithmetic F) where
  -- `sorted`, which keeps the order of equal values
  unfoldable pub insert_sorted : F → List F → List F
  insert_sorted v [] = v ∷ []
  insert_sorted v (w ∷ values) =
      let rest = insert_sorted v values in if f.le v w then v ∷ w ∷ values else w ∷ rest

  unfoldable pub sorted : List F → List F
  sorted [] = []
  sorted (v ∷ values) = insert_sorted v (sorted values)

  -- The end of `_percentile`
  unfoldable pub between : List F → F → ℕ → ℕ → Result F
  between values position lower upper = do
    low ← item values lower
    high ← item values upper
    let weight = f.sub position (f.of_nat lower)
    ok (
        if lower == upper
        then low
        else f.add (f.mul low (f.sub (f.of_nat 1) weight)) (f.mul high weight))

  -- _percentile
  unfoldable pub percentile : List F → F → Result F
  percentile values fraction =
      if length values == 1
      then item values 0
      else (let position = f.mul (f.of_nat (length values - 1)) fraction in
          between values position (f.floor position) (f.ceil position))

  -- summarize
  unfoldable pub summarize : List F → Result (Summary F)
  summarize samples = do
    let values = sorted samples
    raise_if (length values == 0) Error.value_error
    mean ← f.fmean values
    deviation ← if ltb 1 (length values) then f.stdev values else ok (f.decimal 0 1)
    let margin = f.div (f.mul (f.decimal 196 2) deviation) (f.sqrt (f.of_nat (length values)))
    least ← item values 0
    greatest ← item values (length values - 1)
    p95 ← percentile values (f.decimal 95 2)
    ok (record {
      count = length values;
      minimum = least;
      maximum = greatest;
      mean = mean;
      median = f.middle values;
      p95 = p95;
      standard_deviation = deviation;
      confidence_95_low = f.sub mean margin;
      confidence_95_high = f.add mean margin;
    })

  -- `value[key]`; a value that is no object, or one without the key, is refused.
  abbrev pub member_of : String → Json → Option Json
  member_of key (object members) = get key (dict_of members)
  member_of key _ = none

  abbrev pub or_value_error {ℓ} : {A : Type ℓ} → Option A → Result A
  or_value_error none = err Error.value_error
  or_value_error (some a) = ok a

  -- `except (KeyError, TypeError, ValueError)` around a call of `float`
  abbrev pub caught {ℓ} : {A : Type ℓ} → Result A → Result A
  caught (ok a) = ok a
  caught (err Error.type_error) = err Error.value_error
  caught (err e) = err e

  -- `float(summary[key])` under `except (KeyError, TypeError, ValueError)`
  abbrev pub metric : String → Json → Result F
  metric key summary = do value ← or_value_error (member_of key summary); caught (f.to_float value)

  -- The metrics of a run: those of UDP only where the protocol is "udp"
  pub record Metrics : Type 0 where
    pub bits_per_second : F
    pub jitter_ms : Option F
    pub lost_percent : Option F

  unfoldable pub tcp_metrics : Json → Result Metrics
  tcp_metrics result = do
    ended ← or_value_error (member_of "end" result)
    summary ← or_value_error (member_of "sum_received" ended)
    bits_per_second ← metric "bits_per_second" summary
    ok (record { bits_per_second = bits_per_second; jitter_ms = none; lost_percent = none })

  unfoldable pub udp_metrics : Json → Result Metrics
  udp_metrics result = do
    ended ← or_value_error (member_of "end" result)
    summary ← or_value_error (member_of "sum" ended)
    bits_per_second ← metric "bits_per_second" summary
    jitter_ms ← metric "jitter_ms" summary
    lost_percent ← metric "lost_percent" summary
    ok (record {
      bits_per_second = bits_per_second;
      jitter_ms = some jitter_ms;
      lost_percent = some lost_percent;
    })

  -- The metrics of a document of the protocol, in lower case
  abbrev by_protocol : Json → String → Result Metrics
  by_protocol result protocol =
      if str_eq protocol "tcp"
      then tcp_metrics result
      else (if str_eq protocol "udp" then udp_metrics result else err Error.value_error)

  -- parse_iperf3_json of what `json.loads` gives, `none` for its error, and the protocol in lower case.
  -- `"error" in result` is a membership in a list and a part of a text, and of other values a
  -- `TypeError`; where it holds, the message asks for `result['error']`.
  unfoldable pub parse_iperf3_json : Option Json → String → Result Metrics
  unfolding has_text has_part
  parse_iperf3_json none protocol = err Error.value_error
  parse_iperf3_json (some (object members)) protocol = do
    raise_if (given (get "error" (dict_of members))) Error.value_error
    by_protocol (object members) protocol
  parse_iperf3_json (some (array values)) protocol = do
    raise_if (has_text "error" (list_of values)) Error.type_error
    by_protocol (array values) protocol
  parse_iperf3_json (some (text s)) protocol = do
    raise_if (has_part (codes "error") (codes s)) Error.type_error
    by_protocol (text s) protocol
  parse_iperf3_json (some _) protocol = err Error.type_error
