-- ===== src/Desktop/Ending.antt =====
-- gui.py: an error, the start and the stop of the process keep the window and the controller in step.
use matf_master_vpn.Prelude.{◌≡◌, refl, sym, ap, ◌∙◌, true, false, Bool-cases, inl, inr}
use matf_master_vpn.Texts.{Text}
use matf_master_vpn.Desktop.Window.{EndpointState, MainWindow, process_entry, settled}
use matf_master_vpn.Desktop.Process.{
  Desktop, not_running, starting, set_state, report, on_process_error,
}
use matf_master_vpn.Desktop.Controls.{is_running, stop, kill_if_running}
use matf_master_vpn.Desktop.Runs.{started}
use matf_master_vpn.Desktop.Sync.{IsSynced, IsSynced-set_state, IsSynced-report, IsKept-set_state}
use matf_master_vpn.Desktop.Consistency.{
  IsConsistent, running-IsConsistent, ended-IsConsistent, report-IsConsistent,
}

pub fail-IsConsistent :
    (message : Text) (d : Desktop)
    → IsConsistent d
    → d.endpoint.process ≡ starting
    → IsConsistent (on_process_error true message d)
unfolding on_process_error report
fail-IsConsistent message d h r =
    let (a, b) = h.empty (λ same. cc (sym r ∙ same)) in
    let dead = record d { endpoint = record d.endpoint { process = not_running } } in
    let begun : IsSynced dead = record {
      in_step = h.synced.in_step;
      connect = h.synced.connect;
      disconnect = h.synced.disconnect;
      browse = h.synced.browse;
    } in
    let told = IsSynced-report (process_entry message) dead begun in
    ended-IsConsistent EndpointState.failed (report (process_entry message) dead) refl told a b

pub warn-IsConsistent :
    (message : Text) (d : Desktop)
    → IsConsistent d
    → IsConsistent (on_process_error false message d)
unfolding on_process_error
warn-IsConsistent message d h = report-IsConsistent (process_entry message) d h

pub begin-IsConsistent : (d : Desktop) → IsConsistent d → IsConsistent (started d)
begin-IsConsistent d h =
    running-IsConsistent (started d)
      (record {
        in_step = h.synced.in_step;
        connect = h.synced.connect;
        disconnect = h.synced.disconnect;
        browse = h.synced.browse;
      })
      refl

-- A change of the controller's own bookkeeping
pub same-IsConsistent :
    (d e : Desktop)
    → e.window ≡ d.window
    → e.endpoint.state ≡ d.endpoint.state
    → e.endpoint.process ≡ d.endpoint.process
    → e.endpoint.stderr_buffer ≡ d.endpoint.stderr_buffer
    → e.endpoint.stdout_buffer ≡ d.endpoint.stdout_buffer
    → IsConsistent d
    → IsConsistent e
same-IsConsistent d e w s p a b h =
    let shows : settled e.window.shown ≡ settled d.window.shown =
      ap (λ (v : MainWindow). settled v.shown) w in
    record {
      synced = record {
        in_step = shows ∙ h.synced.in_step ∙ ap settled (sym s);
        connect = rw w h.synced.connect;
        disconnect = rw w h.synced.disconnect;
        browse = rw w h.synced.browse;
      };
      idle = λ n. ap settled s ∙ h.idle (sym p ∙ n);
      empty = λ n. let (x, y) = h.empty (λ r. n (p ∙ r)) in (a ∙ x, b ∙ y);
    }

pub kill-IsConsistent : (d : Desktop) → IsConsistent d → IsConsistent (kill_if_running d)
unfolding kill_if_running
kill-IsConsistent d h = elim (Bool-cases (is_running d.endpoint.process)) [
  | inl alive ↦ rw alive (same-IsConsistent d _ refl refl refl refl refl h)
  | inr dead ↦ rw dead (same-IsConsistent d _ refl refl refl refl refl h)
]

pub stopping-IsConsistent :
    (d : Desktop)
    → IsConsistent d
    → is_running d.endpoint.process ≡ true
    → IsConsistent (set_state EndpointState.stopping d)
stopping-IsConsistent d h alive =
    let kept = IsKept-set_state EndpointState.stopping d in
    record {
      synced = IsSynced-set_state EndpointState.stopping d h.synced;
      idle = λ n. absurd (cc (sym alive ∙ ap is_running (sym kept.process ∙ n)));
      empty = λ n.
          let (a, b) = h.empty (λ r. n (kept.process ∙ r)) in
          (kept.stderr_buffer ∙ a, kept.stdout_buffer ∙ b);
    }

pub stop-IsConsistent : (d : Desktop) → IsConsistent d → IsConsistent (stop d)
unfolding stop
stop-IsConsistent d h = elim (Bool-cases (is_running d.endpoint.process)) [
  | inl alive ↦
      let asked = record d { endpoint = record d.endpoint { is_stopping = true } } in
      let begun = same-IsConsistent d asked refl refl refl refl refl h in
      rw alive (
        same-IsConsistent (set_state EndpointState.stopping asked) _ refl refl refl refl refl
          (stopping-IsConsistent asked begun alive))
  | inr dead ↦ rw dead h
]
