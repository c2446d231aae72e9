-- ===== src/Desktop/Timers.antt =====
-- gui.py: the timers of `stop`, which do not know which process they are for.
use matf_master_vpn.Prelude.{
  ℕ, suc, ◌<◌, ◌≡◌, refl, ap, ◌∙◌, true, false, Option, [], ◌∷◌, ok, String, ◌||◌, arith,
  Bool-cases, inl, inr,
}
use matf_master_vpn.Prelude.Int.{ℤ, pos, ◌==ℤ◌}
use matf_master_vpn.Json.{Json}
use matf_master_vpn.Config.{EndpointConfig}
use matf_master_vpn.Texts.{Text}
use matf_master_vpn.Desktop.Window.{EndpointState, Entry, Disk, validate_profile_keys}
use matf_master_vpn.Desktop.Process.{
  Desktop, ProcessState, not_running, running, Channel, standard_error, standard_output, kill,
  report, flush_buffer, flush, on_finished,
}
use matf_master_vpn.Desktop.Controls.{is_running, start, launch_endpoint, stop, kill_if_running}
use matf_master_vpn.Desktop.Sync.{IsKept, IsKept-set_state, Reads-consume_line}

-- The launches and the timers are as they were, and the process is in this state.
record Keeps (launches timers : ℕ) (process : ProcessState) (d : Desktop) : Type 0 where
  launches_is : d.endpoint.launches ≡ launches
  timers_is : d.endpoint.timers ≡ timers
  process_is : d.endpoint.process ≡ process

module _ (n k : ℕ) (process : ProcessState) where
  Keeps-IsKept : {d e : Desktop} → Keeps n k process d → IsKept d e → Keeps n k process e
  Keeps-IsKept h same = record {
    launches_is = same.launches ∙ h.launches_is;
    timers_is = same.timers ∙ h.timers_is;
    process_is = same.process ∙ h.process_is;
  }

  Keeps-flush :
      (loads : Text → Option Json) (channel : Channel) (b : Text) (d : Desktop)
      → Keeps n k process d
      → Keeps n k process (flush_buffer loads channel b d)
  Keeps-flush loads standard_error [] d h = h
  Keeps-flush loads standard_output [] d h = h
  Keeps-flush loads standard_error (c ∷ rest) d h =
      let read = Keeps-IsKept h (Reads-consume_line loads (c ∷ rest) d).0 in
      record {
        launches_is = read.launches_is;
        timers_is = read.timers_is;
        process_is = read.process_is;
      }
  Keeps-flush loads standard_output (c ∷ rest) d h =
      let read = Keeps-IsKept h (Reads-consume_line loads (c ∷ rest) d).0 in
      record {
        launches_is = read.launches_is;
        timers_is = read.timers_is;
        process_is = read.process_is;
      }

  Keeps-report : (x : Entry) (d : Desktop) → Keeps n k process d → Keeps n k process (report x d)
  unfolding report
  Keeps-report x d h = record {
    launches_is = h.launches_is;
    timers_is = h.timers_is;
    process_is = h.process_is;
  }

module _ (loads : Text → Option Json) where
  Keeps-finished :
      (n k : ℕ) (exit_code : ℤ) (d : Desktop)
      → d.endpoint.launches ≡ n
      → d.endpoint.timers ≡ k
      → Keeps n k not_running (on_finished loads exit_code d)
  unfolding on_finished
  Keeps-finished n k exit_code d a b =
      let dead = record d { endpoint = record d.endpoint { process = not_running } } in
      let begun : Keeps n k not_running dead = record {
        launches_is = a;
        timers_is = b;
        process_is = refl;
      } in
      let once = flush loads standard_error dead in
      let flushed = flush loads standard_output once in
      let h =
        Keeps-flush n k not_running loads standard_error dead.endpoint.stderr_buffer dead begun in
      let h' =
        Keeps-flush n k not_running loads standard_output once.endpoint.stdout_buffer once h in
      elim (Bool-cases (flushed.endpoint.is_stopping || exit_code ==ℤ pos 0)) [
        | inl asked ↦
            rw asked (
              Keeps-IsKept n k not_running h' (IsKept-set_state EndpointState.disconnected flushed))
        | inr broke ↦ rw broke (
            Keeps-report n k not_running _ _
              (Keeps-IsKept n k not_running h' (IsKept-set_state EndpointState.failed flushed)))
      ]

stop-timers :
    (d : Desktop)
    → d.endpoint.process ≡ running
    → ((stop d).endpoint.launches ≡ d.endpoint.launches)
      × ((stop d).endpoint.timers ≡ suc d.endpoint.timers)
unfolding stop
stop-timers d r =
    let asked = record d { endpoint = record d.endpoint { is_stopping = true } } in
    let kept = IsKept-set_state EndpointState.stopping asked in
    let alive : is_running d.endpoint.process ≡ true = ap is_running r in
    rw alive (kept.launches, ap suc kept.timers)

start-launches :
    (disk : Disk) (path : String) (config : EndpointConfig) (d : Desktop)
    → d.endpoint.process ≡ not_running
    → disk.load path ≡ ok config
    → validate_profile_keys disk.files config ≡ ok tt
    → (start disk path d ≡ (ok config, launch_endpoint d))
unfolding start
start-launches disk path config d idle loaded valid =
    let off : is_running d.endpoint.process ≡ false = ap is_running idle in
    rw (off, loaded, valid) refl

launched :
    (d : Desktop)
    → ((launch_endpoint d).endpoint.launches ≡ suc d.endpoint.launches)
      × ((launch_endpoint d).endpoint.timers ≡ d.endpoint.timers)
      × (is_running (launch_endpoint d).endpoint.process ≡ true)
unfolding launch_endpoint
launched d =
    let asked = record d { endpoint = record d.endpoint { is_stopping = false } } in
    let kept = IsKept-set_state EndpointState.connecting asked in
    (ap suc kept.launches, kept.timers, refl)

killed :
    (d : Desktop)
    → is_running d.endpoint.process ≡ true
    → (kill_if_running d).endpoint.requests ≡ kill d.endpoint.launches ∷ d.endpoint.requests
unfolding kill_if_running
killed d alive = rw alive refl

-- When a running process was asked to stop, has ended, and a profile is connected again, the timer of
-- the first stop is still to fire, and when it fires it kills the second process, which nobody asked
-- to stop.
pub stale_kill :
    (loads : Text → Option Json) (d : Desktop) (exit_code : ℤ) (disk : Disk) (path : String)
    (config : EndpointConfig)
    → d.endpoint.process ≡ running
    → disk.load path ≡ ok config
    → validate_profile_keys disk.files config ≡ ok tt
    → (0 < (start disk path (on_finished loads exit_code (stop d))).1.endpoint.timers)
      × ((start disk path (on_finished loads exit_code (stop d))).1.endpoint.launches
          ≡ suc d.endpoint.launches)
      × ((kill_if_running
            (start disk path (on_finished loads exit_code (stop d))).1).endpoint.requests
          ≡ kill (suc d.endpoint.launches)
            ∷ (start disk path (on_finished loads exit_code (stop d))).1.endpoint.requests)
stale_kill loads d exit_code disk path config r loaded valid =
    let (n, k) = stop-timers d r in
    let over =
      Keeps-finished loads d.endpoint.launches (suc d.endpoint.timers) exit_code (stop d) n k in
    let ended = on_finished loads exit_code (stop d) in
    let (launches, timers, alive) = launched ended in
    let counted : (launch_endpoint ended).endpoint.launches ≡ suc d.endpoint.launches =
      launches ∙ ap suc over.launches_is in
    rw (start-launches disk path config ended over.process_is loaded valid) (
      omega (arith, timers, over.timers_is),
      counted,
      killed (launch_endpoint ended) alive
          ∙ ap (λ n. kill n ∷ (launch_endpoint ended).endpoint.requests) counted,
    )
