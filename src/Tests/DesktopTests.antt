-- ===== src/Tests/DesktopTests.antt =====
-- A session of the desktop: a profile without keys is chosen, connected, and its process writes a line.
use matf_master_vpn.Prelude.{suc, ◌<◌, ◌≡◌, refl, true, false, Option, none, some, [], ◌∷◌, ok, err}
use matf_master_vpn.Prelude.Int.{pos}
use matf_master_vpn.OrderedDict.{get}
use matf_master_vpn.Json.{Json, dict_of, text, object, member, no_members}
use matf_master_vpn.Config.{EndpointConfig}
use matf_master_vpn.Texts.{Text, strip, split_lines, front_lines, last_line}
use matf_master_vpn.Desktop.Window.{
  Disk, new_window, connected, show_state, append, set_profile, browse_profile, with_keys,
  validate_profile_keys,
}
use matf_master_vpn.Desktop.Process.{
  Desktop, new_desktop, standard_error, kill, set_state, report, consume_loaded, consume_log_line,
  consume_lines, read_channel, on_finished,
}
use matf_master_vpn.Desktop.Controls.{
  start, launch_endpoint, stop, kill_if_running, after_start, connect_endpoint,
}
use matf_master_vpn.Desktop.Lines.{read_chunks, joined, read_chunks-joined}
use matf_master_vpn.Desktop.Runs.{Runs, here, next, browse, connect, begin, output, started}
use matf_master_vpn.Desktop.Consistency.{IsConsistent}
use matf_master_vpn.Desktop.Invariant.{Runs-IsConsistent}
use matf_master_vpn.Desktop.Timers.{stale_kill}
use matf_master_vpn.Tests.EngineTests.{client_address}

abbrev plain_config : EndpointConfig
plain_config = record {
  tun_name = "mvpn0";
  tun_address = "10.9.0.2/24";
  bind = client_address;
  peer = client_address;
  mtu = pos 1400;
  session_id = pos 1;
  key_file = none;
  private_key_file = none;
  peer_public_key_file = none;
  role = none;
  ephemeral_handshake = false;
  handshake_timeout = pos 3;
  packets_per_key = pos 0;
  reconnect_delay = pos 1;
  json_logs = true;
  keepalive_interval = pos 0;
  liveness_timeout = pos 0;
}

abbrev disk : Disk
disk = record {
  load = λ path. ok plain_config;
  files = λ path. record { mode = none; contents = none };
}

-- Every line is the event of an established session.
abbrev established : Text → Option Json
established line = some (object (member "event" (text "session_established") no_members))

no_keys : validate_profile_keys disk.files plain_config ≡ ok tt
unfolding validate_profile_keys
no_keys = refl

abbrev chosen : Desktop
chosen = elim (browse_profile disk "p" new_desktop.endpoint.state new_desktop.window) [
  | ok window ↦ record new_desktop { window = window }
  | err e ↦ new_desktop
]

abbrev connecting_now : Desktop
connecting_now = elim (connect_endpoint disk chosen) [ ok d ↦ d | err e ↦ chosen ]

abbrev running_now : Desktop
running_now = started connecting_now

abbrev heard : Desktop
heard = read_channel established standard_error (123 ∷ 10 ∷ []) running_now

-- The line sets the state and is logged.
heard-connected : heard.window.shown ≡ connected
unfolding read_channel split_lines front_lines last_line consume_lines consume_log_line strip
    consume_loaded set_state report show_state append connect_endpoint browse_profile set_profile
    with_keys validate_profile_keys after_start start new_desktop launch_endpoint get dict_of
heard-connected = refl

session : Runs (λ bytes. bytes) established new_desktop heard
unfolding new_desktop new_window show_state browse_profile set_profile with_keys
    validate_profile_keys connect_endpoint after_start start launch_endpoint set_state
session =
    next (next (next (next here (browse disk "p" refl refl)) (connect disk refl refl)) (begin refl))
      (output standard_error (123 ∷ 10 ∷ []) refl)

Runs-IsConsistent_example : IsConsistent heard
Runs-IsConsistent_example = Runs-IsConsistent (λ bytes. bytes) established session

-- A line that arrives in two chunks
read_chunks-joined_example :
    read_chunks established standard_error ((123 ∷ []) ∷ (125 ∷ 10 ∷ 123 ∷ []) ∷ []) running_now
    ≡ read_channel established standard_error
        (joined ((123 ∷ []) ∷ (125 ∷ 10 ∷ 123 ∷ []) ∷ []))
        running_now
read_chunks-joined_example =
    read_chunks-joined established standard_error (123 ∷ []) ((125 ∷ 10 ∷ 123 ∷ []) ∷ [])
      running_now

stale_kill_example :
    (0 < (start disk "p" (on_finished established (pos 0) (stop running_now))).1.endpoint.timers)
    × ((start disk "p" (on_finished established (pos 0) (stop running_now))).1.endpoint.launches
        ≡ suc running_now.endpoint.launches)
    × ((kill_if_running
          (start disk "p" (on_finished established (pos 0) (stop running_now))).1).endpoint.requests
        ≡ kill (suc running_now.endpoint.launches)
          ∷ (start disk "p"
              (on_finished established (pos 0) (stop running_now))).1.endpoint.requests)
stale_kill_example =
    stale_kill established running_now (pos 0) disk "p" plain_config refl refl no_keys
