-- ===== src/Desktop/Consistency.antt =====
-- gui.py: the buttons of the window and the state of the process.
use matf_master_vpn.Prelude.{
  ◌≡◌, ◌≢◌, refl, sym, ap, ◌∙◌, true, Option, [], ◌∷◌, ◌++◌, arith, Bool-cases, inl, inr, ◌||◌,
}
use matf_master_vpn.Prelude.Int.{ℤ, pos, ◌==ℤ◌}
use matf_master_vpn.Json.{Json}
use matf_master_vpn.Texts.{Text, split_lines, front_lines, last_line}
use matf_master_vpn.Desktop.Window.{EndpointState, Entry, settled, show_state, new_window}
use matf_master_vpn.Desktop.Process.{
  Desktop, not_running, running, Channel, standard_error, standard_output, buffer_of, with_buffer,
  same_state, set_state, report, consume_lines, read_channel, flush_buffer, flush, on_finished,
  new_desktop,
}
use matf_master_vpn.Desktop.Sync.{
  IsSynced, IsSynced-set_state, IsSynced-report, IsSynced-with_buffer, IsKept-set_state,
  Reads-consume_line, Reads-consume_lines,
}

-- While no process runs the buttons let the user connect again, and nothing is left in the buffers.
pub record IsConsistent (d : Desktop) : Type 0 where
  pub synced : IsSynced d
  pub idle : d.endpoint.process ≡ not_running → settled d.endpoint.state ≡ true
  pub empty :
      d.endpoint.process ≢ running
      → (d.endpoint.stderr_buffer ≡ []) × (d.endpoint.stdout_buffer ≡ [])

pub IsConsistent-new : IsConsistent new_desktop
unfolding new_desktop new_window show_state
IsConsistent-new = record {
  synced = record { in_step = refl; connect = refl; disconnect = refl; browse = refl };
  idle = λ h. refl;
  empty = λ h. (refl, refl);
}

same_state→eq : (a b : EndpointState) → same_state a b ≡ true → a ≡ b
same_state→eq a b h = ground arith

pub state-set_state : (s : EndpointState) (d : Desktop) → (set_state s d).endpoint.state ≡ s
unfolding set_state
state-set_state s d = elim (Bool-cases (same_state s d.endpoint.state)) [
  | inl same ↦ rw same (sym (same_state→eq s d.endpoint.state same))
  | inr other ↦ rw other refl
]

-- A running process may leave the window in any state that its buttons follow.
pub running-IsConsistent :
    (d : Desktop) → IsSynced d → d.endpoint.process ≡ running → IsConsistent d
running-IsConsistent d h r = record {
  synced = h;
  idle = λ n. absurd (cc (sym r ∙ n));
  empty = λ n. absurd (n r);
}

-- A desktop whose process ended, in a settled state and with empty buffers
pub ended-IsConsistent :
    (s : EndpointState) (d : Desktop)
    → settled s ≡ true
    → IsSynced d
    → d.endpoint.stderr_buffer ≡ []
    → d.endpoint.stdout_buffer ≡ []
    → IsConsistent (set_state s d)
ended-IsConsistent s d calm h a b =
    let kept = IsKept-set_state s d in
    record {
      synced = IsSynced-set_state s d h;
      idle = λ n. ap settled (state-set_state s d) ∙ calm;
      empty = λ n. (kept.stderr_buffer ∙ a, kept.stdout_buffer ∙ b);
    }

pub report-IsConsistent : (x : Entry) (d : Desktop) → IsConsistent d → IsConsistent (report x d)
unfolding report
report-IsConsistent x d h = record {
  synced = IsSynced-report x d h.synced;
  idle = h.idle;
  empty = h.empty;
}

process-with_buffer :
    (channel : Channel) (b : Text) (d : Desktop)
    → (with_buffer channel b d).endpoint.process ≡ d.endpoint.process
process-with_buffer standard_error b d = refl
process-with_buffer standard_output b d = refl

module _ (loads : Text → Option Json) where
  pub read-IsConsistent :
      (channel : Channel) (received : Text) (d : Desktop)
      → IsConsistent d
      → d.endpoint.process ≡ running
      → IsConsistent (read_channel loads channel received d)
  unfolding read_channel
  read-IsConsistent channel received d h r =
      let buffer = buffer_of channel d.endpoint ++ received in
      let lines = split_lines buffer in
      let begun = with_buffer channel buffer d in
      let read = Reads-consume_lines loads (front_lines lines) begun in
      let consumed = consume_lines loads (front_lines lines) begun in
      running-IsConsistent _
        (IsSynced-with_buffer channel (last_line lines) consumed
          (read.1 (IsSynced-with_buffer channel buffer d h.synced)))
        (process-with_buffer channel (last_line lines) consumed
          ∙ read.0.process
          ∙ process-with_buffer channel buffer d
          ∙ r)

  flush_error :
      (b : Text) (d : Desktop)
      → d.endpoint.stderr_buffer ≡ b
      → IsSynced d
      → IsSynced (flush_buffer loads standard_error b d)
        × ((flush_buffer loads standard_error b d).endpoint.stderr_buffer ≡ [])
  flush_error [] d e h = (h, e)
  flush_error (c ∷ rest) d e h =
      let read = Reads-consume_line loads (c ∷ rest) d in
      (IsSynced-with_buffer standard_error [] _ (read.1 h), refl)

  flush_output :
      (b : Text) (d : Desktop)
      → d.endpoint.stdout_buffer ≡ b
      → IsSynced d
      → d.endpoint.stderr_buffer ≡ []
      → IsSynced (flush_buffer loads standard_output b d)
        × ((flush_buffer loads standard_output b d).endpoint.stderr_buffer ≡ [])
        × ((flush_buffer loads standard_output b d).endpoint.stdout_buffer ≡ [])
  flush_output [] d e h a = (h, a, e)
  flush_output (c ∷ rest) d e h a =
      let read = Reads-consume_line loads (c ∷ rest) d in
      (IsSynced-with_buffer standard_output [] _ (read.1 h), read.0.stderr_buffer ∙ a, refl)

  pub finish-IsConsistent :
      (exit_code : ℤ) (d : Desktop) → IsConsistent d → IsConsistent (on_finished loads exit_code d)
  unfolding on_finished
  finish-IsConsistent exit_code d h =
      let dead = record d { endpoint = record d.endpoint { process = not_running } } in
      let begun : IsSynced dead = record {
        in_step = h.synced.in_step;
        connect = h.synced.connect;
        disconnect = h.synced.disconnect;
        browse = h.synced.browse;
      } in
      let (h1, a1) = flush_error dead.endpoint.stderr_buffer dead refl begun in
      let once = flush loads standard_error dead in
      let (h2, a2, b2) = flush_output once.endpoint.stdout_buffer once refl h1 a1 in
      let flushed = flush loads standard_output once in
      elim (Bool-cases (flushed.endpoint.is_stopping || exit_code ==ℤ pos 0)) [
        | inl asked ↦ rw asked (ended-IsConsistent EndpointState.disconnected flushed refl h2 a2 b2)
        | inr broke ↦ rw broke (
            report-IsConsistent _ _ (ended-IsConsistent EndpointState.failed flushed refl h2 a2 b2))
      ]
