-- ===== src/Desktop/Process.antt =====
-- gui.py: EndpointProcess, the controller of the VPN process, with its signals connected to the window.
use matf_master_vpn.Prelude.{
  ℕ, Bool, true, false, ◌||◌, Option, none, some, List, [], ◌∷◌, ◌++◌, String, if◌then◌else◌,
}
use matf_master_vpn.Prelude.Int.{ℤ, pos, ◌==ℤ◌}
use matf_master_vpn.Prelude.Equality.{string_eq}
use matf_master_vpn.OrderedDict.{get}
use matf_master_vpn.Json.{Json, text, object, dict_of}
use matf_master_vpn.Texts.{Text, strip, split_lines, front_lines, last_line}
use matf_master_vpn.Desktop.Window.{
  EndpointState, disconnected, connected, reconnecting, Entry, event_entry, line_entry,
  process_entry, exit_entry, MainWindow, new_window, show_state, append,
}
use package.text.Mathlib.Text.{◌==◌ as str_eq}

-- QProcess.state()
pub data ProcessState : Type 0 where
  not_running starting running : ProcessState

-- What the process was asked, with the number of its launch
pub data Request : Type 0 where
  launch terminate kill : ℕ → Request

pub record EndpointProcess : Type 0 where
  pub process : ProcessState
  pub stderr_buffer : Text
  pub stdout_buffer : Text
  pub state : EndpointState
  pub is_stopping : Bool
  -- Launches so far, the requests, newest first, and the timers of `stop` that have not fired
  pub launches : ℕ
  pub requests : List Request
  pub timers : ℕ

pub record Desktop : Type 0 where
  pub endpoint : EndpointProcess
  pub window : MainWindow

unfoldable pub new_desktop : Desktop
new_desktop = record {
  endpoint = record {
    process = not_running;
    stderr_buffer = [];
    stdout_buffer = [];
    state = disconnected;
    is_stopping = false;
    launches = 0;
    requests = [];
    timers = 0;
  };
  window = new_window;
}

abbrev pub same_state : EndpointState → EndpointState → Bool
same_state EndpointState.disconnected EndpointState.disconnected = true
same_state EndpointState.connecting EndpointState.connecting = true
same_state EndpointState.connected EndpointState.connected = true
same_state EndpointState.reconnecting EndpointState.reconnecting = true
same_state EndpointState.stopping EndpointState.stopping = true
same_state EndpointState.failed EndpointState.failed = true
same_state a b = false

-- EndpointProcess._set_state
unfoldable pub set_state : EndpointState → Desktop → Desktop
set_state state d = if same_state state d.endpoint.state then d else record d {
  endpoint = record d.endpoint { state = state };
  window = show_state state d.window;
}

-- `event_received.emit` and `error_received.emit`
unfoldable pub report : Entry → Desktop → Desktop
report entry d = record d { window = append entry d.window }

-- The state that an event's name stands for
abbrev pub state_of_name : String → Option EndpointState
state_of_name name =
    if str_eq name "session_established"
    then some connected
    else (if str_eq name "reconnect_scheduled"
        then some reconnecting
        else (if str_eq name "endpoint_stopped" then some disconnected else none))

-- `event.get("event")` as the comparisons read it
abbrev pub named_state : Option Json → Option EndpointState
named_state (some (text name)) = state_of_name name
named_state _ = none

abbrev pub set_named : Option EndpointState → Desktop → Desktop
set_named none d = d
set_named (some state) d = set_state state d

-- The rest of `consume_log_line`, with what `json.loads` makes of the line; `none` is its error.
unfoldable pub consume_loaded : Text → Option Json → Desktop → Desktop
consume_loaded line (some (object event)) d =
    report (event_entry event) (set_named (named_state (get "event" (dict_of event))) d)
consume_loaded line _ d = report (line_entry line) d

module _ (loads : Text → Option Json) where
  -- `if not line: return`, and the rest of `consume_log_line`
  abbrev pub consume_stripped : Text → Desktop → Desktop
  consume_stripped [] d = d
  consume_stripped (c ∷ rest) d = consume_loaded (c ∷ rest) (loads (c ∷ rest)) d

  -- EndpointProcess.consume_log_line
  unfoldable pub consume_log_line : Text → Desktop → Desktop
  consume_log_line line d = consume_stripped (strip line) d

  unfoldable pub consume_lines : List Text → Desktop → Desktop
  consume_lines [] d = d
  consume_lines (line ∷ lines) d = consume_lines lines (consume_log_line line d)

-- The two channels of the process
pub data Channel : Type 0 where
  standard_error standard_output : Channel

abbrev pub buffer_of : Channel → EndpointProcess → Text
buffer_of standard_error e = e.stderr_buffer
buffer_of standard_output e = e.stdout_buffer

abbrev pub with_buffer : Channel → Text → Desktop → Desktop
with_buffer standard_error buffer d = record d {
  endpoint = record d.endpoint { stderr_buffer = buffer };
}
with_buffer standard_output buffer d = record d {
  endpoint = record d.endpoint { stdout_buffer = buffer };
}

module _ (loads : Text → Option Json) where
  -- _read_standard_error and _read_standard_output with _consume_buffer, for what was decoded
  unfoldable pub read_channel : Channel → Text → Desktop → Desktop
  read_channel channel received d =
      let buffer = buffer_of channel d.endpoint ++ received in
      let lines = split_lines buffer in
      with_buffer channel (last_line lines)
        (consume_lines loads (front_lines lines) (with_buffer channel buffer d))

  -- `if self._stderr_buffer: …` of `_on_finished`, with the buffer
  abbrev pub flush_buffer : Channel → Text → Desktop → Desktop
  flush_buffer channel [] d = d
  flush_buffer channel (c ∷ rest) d = with_buffer channel [] (consume_log_line loads (c ∷ rest) d)

  abbrev pub flush : Channel → Desktop → Desktop
  flush channel d = flush_buffer channel (buffer_of channel d.endpoint) d

  -- EndpointProcess._on_finished; the process is not running when it is called.
  unfoldable pub on_finished : ℤ → Desktop → Desktop
  on_finished exit_code d =
      let flushed = flush standard_output (
        flush standard_error
          (record d { endpoint = record d.endpoint { process = not_running } })) in
      if flushed.endpoint.is_stopping || exit_code ==ℤ pos 0
      then set_state disconnected flushed
      else report (exit_entry exit_code) (set_state EndpointState.failed flushed)

-- EndpointProcess._on_process_error; a process that failed to start is not running.
unfoldable pub on_process_error : Bool → Text → Desktop → Desktop
on_process_error true message d = set_state EndpointState.failed (
    report (process_entry message)
      (record d { endpoint = record d.endpoint { process = not_running } }))
on_process_error false message d = report (process_entry message) d
