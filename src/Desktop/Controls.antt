-- ===== src/Desktop/Controls.antt =====
-- gui.py: starting and stopping the VPN process, and the Connect button.
use matf_master_vpn.Prelude.{
  suc, ◌-◌, Bool, true, false, ◌||◌, none, some, ◌∷◌, String, Error, Result, ok, err, if◌then◌else◌,
  is_value_error, is_os_error,
}
use matf_master_vpn.Prelude.Exec.{Exec}
use matf_master_vpn.Config.{EndpointConfig}
use matf_master_vpn.Desktop.Window.{
  EndpointState, connecting, exception_entry, show_state, append, Disk, validate_profile_keys,
}
use matf_master_vpn.Desktop.Process.{
  ProcessState, not_running, starting, running, launch, terminate, kill, Desktop, set_state,
}

abbrev pub is_running : ProcessState → Bool
is_running not_running = false
is_running starting = true
is_running running = true

-- The end of `EndpointProcess.start`
unfoldable pub launch_endpoint : Desktop → Desktop
launch_endpoint d =
    let ready =
      set_state connecting (record d { endpoint = record d.endpoint { is_stopping = false } }) in
    record ready {
      endpoint = record ready.endpoint {
        process = starting;
        launches = suc ready.endpoint.launches;
        requests = launch (suc ready.endpoint.launches) ∷ ready.endpoint.requests;
      };
    }

-- EndpointProcess.start
unfoldable pub start : Disk → String → Exec Desktop EndpointConfig
start disk profile d =
    if is_running d.endpoint.process
    then (err Error.runtime_error, d)
    else elim (disk.load profile) [
      | err e ↦ (err e, d)
      | ok config ↦ elim (validate_profile_keys disk.files config) [
        | err e ↦ (err e, d)
        | ok done ↦ (ok config, launch_endpoint d)
      ]
    ]

-- EndpointProcess.stop
unfoldable pub stop : Desktop → Desktop
stop d =
    if is_running d.endpoint.process
    then (let stopping_now =
          set_state EndpointState.stopping
            (record d { endpoint = record d.endpoint { is_stopping = true } }) in
        record stopping_now {
          endpoint = record stopping_now.endpoint {
            requests = terminate stopping_now.endpoint.launches ∷ stopping_now.endpoint.requests;
            timers = suc stopping_now.endpoint.timers;
          };
        })
    else d

-- EndpointProcess._kill_if_running, which a timer of `stop` calls
unfoldable pub kill_if_running : Desktop → Desktop
kill_if_running d =
    let fired = record d { endpoint = record d.endpoint { timers = d.endpoint.timers - 1 } } in
    if is_running d.endpoint.process
    then record fired {
      endpoint = record fired.endpoint {
        requests = kill fired.endpoint.launches ∷ fired.endpoint.requests;
      };
    }
    else fired

-- `except (OSError, RuntimeError, ValueError)`
abbrev pub is_caught : Error → Bool
is_caught Error.runtime_error = true
is_caught e = is_os_error e || is_value_error e

-- The `except` of `_connect_endpoint`
unfoldable pub after_start : Result EndpointConfig → Desktop → Result Desktop
after_start (ok config) d = ok d
after_start (err e) d =
    if is_caught e
    then ok (record d {
      window = show_state EndpointState.failed (append (exception_entry e) d.window);
    })
    else err e

-- MainWindow._connect_endpoint
unfoldable pub connect_endpoint : Disk → Desktop → Result Desktop
connect_endpoint disk d = elim d.window.profile_path [
  | none ↦ ok d
  | some path ↦ after_start (start disk path d).0 (start disk path d).1
]
