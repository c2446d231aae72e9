-- ===== src/Desktop/Runs.antt =====
-- gui.py: what the user, the process and the timers do, in any order.
use matf_master_vpn.Prelude.{◌<◌, ◌≡◌, true, false, Option, ok, String}
use matf_master_vpn.Prelude.Int.{ℤ}
use matf_master_vpn.Bytes.{Bytes}
use matf_master_vpn.Json.{Json}
use matf_master_vpn.Texts.{Text}
use matf_master_vpn.Desktop.Window.{MainWindow, Disk, browse_profile}
use matf_master_vpn.Desktop.Process.{
  Desktop, starting, running, Channel, read_channel, on_finished, on_process_error,
}
use matf_master_vpn.Desktop.Controls.{connect_endpoint, stop, kill_if_running}

-- The process has started: QProcess is running.
abbrev pub started : Desktop → Desktop
started d = record d { endpoint = record d.endpoint { process = running } }

-- `decode` is the decoding of a chunk of output, and `loads` is `json.loads`. The buttons are clicked
-- while they are enabled; output and the end come from a process that runs, the failure to start from
-- one that is starting. A window may be closed at any time, which is `disconnect` too.
module _ (decode : Bytes → Text) (loads : Text → Option Json) where
  pub data Step : Desktop → Desktop → Type 0 where
    browse :
        {d : Desktop} {window : MainWindow} (disk : Disk) (path : String)
        → d.window.browse_enabled ≡ true
        → browse_profile disk path d.endpoint.state d.window ≡ ok window
        → Step d (record d { window = window })
    connect :
        {d e : Desktop} (disk : Disk)
        → d.window.connect_enabled ≡ true
        → connect_endpoint disk d ≡ ok e
        → Step d e
    disconnect : {d : Desktop} → Step d (stop d)
    begin : {d : Desktop} → d.endpoint.process ≡ starting → Step d (started d)
    output :
        {d : Desktop} (channel : Channel) (chunk : Bytes)
        → d.endpoint.process ≡ running
        → Step d (read_channel loads channel (decode chunk) d)
    fail :
        {d : Desktop} (message : Text)
        → d.endpoint.process ≡ starting
        → Step d (on_process_error true message d)
    warn : {d : Desktop} (message : Text) → Step d (on_process_error false message d)
    end :
        {d : Desktop} (exit_code : ℤ)
        → d.endpoint.process ≡ running
        → Step d (on_finished loads exit_code d)
    fire : {d : Desktop} → 0 < d.endpoint.timers → Step d (kill_if_running d)

  pub data Runs (d : Desktop) : Desktop → Type 0 where
    here : Runs d d
    next : {e f : Desktop} → Runs d e → Step e f → Runs d f
