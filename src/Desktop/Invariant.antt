-- ===== src/Desktop/Invariant.antt =====
-- gui.py: whatever the user, the process and the timers do, the window and the controller stay in step.
use matf_master_vpn.Prelude.{
  ◌≡◌, refl, sym, ap, ◌∙◌, true, false, Option, Error, Result, ok, err, arith, Bool-cases,
  Option-cases, Result-cases, >>=-eq-ok, ◌⊎◌, inl, inr, String, is_value_error,
}
use matf_master_vpn.Bytes.{Bytes}
use matf_master_vpn.Json.{Json}
use matf_master_vpn.Config.{EndpointConfig}
use matf_master_vpn.Texts.{Text}
use matf_master_vpn.Desktop.Window.{
  EndpointState, MainWindow, exception_entry, settled, show_state, append, Disk, set_profile,
  browse_profile, with_keys, validate_profile_keys,
}
use matf_master_vpn.Desktop.Process.{Desktop, new_desktop}
use matf_master_vpn.Desktop.Controls.{
  is_running, start, launch_endpoint, after_start, is_caught, connect_endpoint,
}
use matf_master_vpn.Desktop.Runs.{
  Step, browse, connect, disconnect, begin, output, fail, warn, end, fire, Runs, here, next,
}
use matf_master_vpn.Desktop.Sync.{IsSynced, IsSynced-set_state, IsKept-set_state}
use matf_master_vpn.Desktop.Consistency.{
  IsConsistent, IsConsistent-new, read-IsConsistent, finish-IsConsistent,
}
use matf_master_vpn.Desktop.Ending.{
  fail-IsConsistent, warn-IsConsistent, begin-IsConsistent, same-IsConsistent, kill-IsConsistent,
  stop-IsConsistent,
}

launch-IsConsistent :
    (d : Desktop)
    → IsConsistent d
    → is_running d.endpoint.process ≡ false
    → IsConsistent (launch_endpoint d)
unfolding launch_endpoint
launch-IsConsistent d h idle =
    let asked = record d { endpoint = record d.endpoint { is_stopping = false } } in
    let begun = same-IsConsistent d asked refl refl refl refl refl h in
    let kept = IsKept-set_state EndpointState.connecting asked in
    let synced = IsSynced-set_state EndpointState.connecting asked begun.synced in
    let (a, b) = h.empty (λ r. cc (sym idle ∙ ap is_running r)) in
    record {
      synced = record {
        in_step = synced.in_step;
        connect = synced.connect;
        disconnect = synced.disconnect;
        browse = synced.browse;
      };
      idle = λ n. absurd (cc n);
      empty = λ n. (kept.stderr_buffer ∙ a, kept.stdout_buffer ∙ b);
    }

-- A start that raises changes nothing.
pub start-cases :
    (disk : Disk) (path : String) (d : Desktop)
    → ((x : Error) × (start disk path d ≡ (err x, d)))
      ⊎ ((config : EndpointConfig) × (start disk path d ≡ (ok config, launch_endpoint d))
          × (is_running d.endpoint.process ≡ false))
unfolding start
start-cases disk path d = elim (Bool-cases (is_running d.endpoint.process)) [
  | inl alive ↦ inl (Error.runtime_error, rw alive refl)
  | inr idle ↦ elim (Result-cases (disk.load path)) [
    | inr (x, refused) ↦ inl (x, rw (idle, refused) refl)
    | inl (config, loaded) ↦ elim (Result-cases (validate_profile_keys disk.files config)) [
      | inr (x, refused) ↦ inl (x, rw (idle, loaded, refused) refl)
      | inl (done, valid) ↦ inr (config, rw (idle, loaded, valid) refl, idle)
    ]
  ]
]

failed-IsConsistent :
    (x : Error) (d e : Desktop)
    → IsConsistent d
    → settled d.window.shown ≡ true
    → after_start (err x) d ≡ ok e
    → IsConsistent e
unfolding after_start show_state append
failed-IsConsistent x d e h calm done = elim (Bool-cases (is_caught x)) [
  | inr other ↦ absurd (cc (rw other at done))
  | inl caught ↦
      let changed : Result.ok (record d {
        window = show_state EndpointState.failed (append (exception_entry x) d.window);
      })
          ≡ ok e =
        rw caught at done in
      let is : record d {
        window = show_state EndpointState.failed (append (exception_entry x) d.window);
      }
          ≡ e =
        cc changed in
      rw (← is) (record {
        synced = record {
          in_step = sym calm ∙ h.synced.in_step;
          connect = refl;
          disconnect = refl;
          browse = refl;
        };
        idle = h.idle;
        empty = h.empty;
      })
]

-- The Connect button is enabled only in a settled state.
connect-settled :
    (d : Desktop) → IsSynced d → d.window.connect_enabled ≡ true → settled d.window.shown ≡ true
connect-settled d h enabled = let both = sym h.connect ∙ enabled in ground arith

start-IsConsistent :
    (disk : Disk) (path : String) (d e : Desktop)
    → IsConsistent d
    → settled d.window.shown ≡ true
    → after_start (start disk path d).0 (start disk path d).1 ≡ ok e
    → IsConsistent e
unfolding after_start
start-IsConsistent disk path d e h calm done = elim (start-cases disk path d) [
  | inl (x, refused) ↦ failed-IsConsistent x d e h calm (rw refused at done)
  | inr (config, begun, idle) ↦
      let launched : Result.ok (launch_endpoint d) ≡ ok e = rw begun at done in
      let is : launch_endpoint d ≡ e = cc launched in rw (← is) (launch-IsConsistent d h idle)
]

connect-IsConsistent :
    (disk : Disk) (d e : Desktop)
    → IsConsistent d
    → d.window.connect_enabled ≡ true
    → connect_endpoint disk d ≡ ok e
    → IsConsistent e
unfolding connect_endpoint
connect-IsConsistent disk d e h enabled done = elim (Option-cases d.window.profile_path) [
  | inl nothing ↦
      let same : Result.ok d ≡ ok e = rw (nothing, connect_endpoint) at done in
      let is : d ≡ e = cc same in rw (← is) h
  | inr (path, given_path) ↦
      start-IsConsistent disk path d e h (connect-settled d h.synced enabled)
        (rw (given_path, connect_endpoint) at done)
]

set_profile-shows :
    (disk : Disk) (path : String) (state : EndpointState) (w v : MainWindow)
    → set_profile disk path state w ≡ ok v
    → (u : MainWindow) × (show_state state u ≡ v)
unfolding set_profile
set_profile-shows disk path state w v made =
    let (config, loaded, rest) = >>=-eq-ok (disk.load path) _ made in
    let (checked, keys, shows) = >>=-eq-ok (with_keys _ _) _ rest in (checked, cc shows)

browse_profile-cases :
    (disk : Disk) (path : String) (state : EndpointState) (w v : MainWindow)
    → browse_profile disk path state w ≡ ok v
    → (w ≡ v) ⊎ ((u : MainWindow) × (show_state state u ≡ v))
unfolding browse_profile
browse_profile-cases disk path state w v done =
    elim (Result-cases (set_profile disk path state w)) [
      | inl (u, made) ↦
          let (checked, shows) = set_profile-shows disk path state w u made in
          let last : Result.ok u ≡ ok v = rw (made, browse_profile) at done in
          inr (checked, shows ∙ cc last)
      | inr (x, refused) ↦ elim (Bool-cases (is_value_error x)) [
        | inl value ↦
            let same : Result.ok w ≡ ok v = rw (refused, browse_profile, value) at done in
            inl (cc same)
        | inr other ↦ absurd (cc (rw (refused, browse_profile, other) at done))
      ]
    ]

browse-IsConsistent :
    (disk : Disk) (path : String) (d : Desktop) (v : MainWindow)
    → IsConsistent d
    → browse_profile disk path d.endpoint.state d.window ≡ ok v
    → IsConsistent (record d { window = v })
unfolding show_state
browse-IsConsistent disk path d v h done =
    elim (browse_profile-cases disk path d.endpoint.state d.window v done) [
      | inl same ↦ rw (← same) h
      | inr (u, shows) ↦ rw (← shows) (record {
        synced = record { in_step = refl; connect = refl; disconnect = refl; browse = refl };
        idle = h.idle;
        empty = h.empty;
      })
    ]

module _ (decode : Bytes → Text) (loads : Text → Option Json) where
  Step-IsConsistent : {d e : Desktop} → Step decode loads d e → IsConsistent d → IsConsistent e
  Step-IsConsistent {d} (browse {window} disk path enabled done) h =
      browse-IsConsistent disk path d window h done
  Step-IsConsistent {d} {e} (connect disk enabled done) h =
      connect-IsConsistent disk d e h enabled done
  Step-IsConsistent {d} disconnect h = stop-IsConsistent d h
  Step-IsConsistent {d} (begin r) h = begin-IsConsistent d h
  Step-IsConsistent {d} (output channel chunk r) h =
      read-IsConsistent loads channel (decode chunk) d h r
  Step-IsConsistent {d} (fail message r) h = fail-IsConsistent message d h r
  Step-IsConsistent {d} (warn message) h = warn-IsConsistent message d h
  Step-IsConsistent {d} (end exit_code r) h = finish-IsConsistent loads exit_code d h
  Step-IsConsistent {d} (fire pending) h = kill-IsConsistent d h

  -- Whatever the user, the process and the timers do, in any order: the buttons show what the state of
  -- the window allows, which is settled just when the controller's is; while no process runs, the
  -- state is settled, so that a profile with keys can be connected; and while no process runs, or one
  -- is only starting, both buffers are empty, so that no output of one process is read as another's.
  pub Runs-IsConsistent : {d : Desktop} → Runs decode loads new_desktop d → IsConsistent d
  Runs-IsConsistent here = IsConsistent-new
  Runs-IsConsistent (next r s) = Step-IsConsistent s (Runs-IsConsistent r)
