-- ===== src/Desktop/Window.antt =====
-- gui.py: MainWindow. Of its widgets the model has the buttons' states, the profile, the state that is
-- shown and what was appended to the session log.
use matf_master_vpn.Prelude.{
  ℕ, Bool, true, false, not, ◌&&◌, Option, none, some, List, [], ◌∷◌, String, Error, Result, ok,
  err, if◌then◌else◌, ◌>>=◌, ◌>>◌, is_value_error,
}
use matf_master_vpn.Prelude.Int.{ℤ, truthy}
use matf_master_vpn.Json.{Members}
use matf_master_vpn.Texts.{Text}
use matf_master_vpn.Config.{EndpointConfig, given}
use matf_master_vpn.Cli.{KeyFile, load_preshared_key, load_x25519_key}

pub data EndpointState : Type 0 where
  disconnected connecting connected reconnecting stopping failed : EndpointState

-- A line of the session log: an event, or an error and what it tells.
pub data Entry : Type 0 where
  event_entry : Members → Entry
  line_entry : Text → Entry
  process_entry : Text → Entry
  exit_entry : ℤ → Entry
  exception_entry : Error → Entry
  preview_entry : Error → Entry

-- How the traffic is secured, as `_security_label` tells it
pub data Security : Type 0 where
  ephemeral static preshared unencrypted : Security

pub record MainWindow : Type 0 where
  pub profile_path : Option String
  pub profile_ready : Bool
  -- The configuration whose addresses and security are shown
  pub profile : Option EndpointConfig
  pub shown : EndpointState
  pub connect_enabled : Bool
  pub disconnect_enabled : Bool
  pub browse_enabled : Bool
  -- Newest first
  pub log : List Entry

-- `state in ("disconnected", "error")`
abbrev pub settled : EndpointState → Bool
settled EndpointState.disconnected = true
settled EndpointState.failed = true
settled EndpointState.connecting = false
settled EndpointState.connected = false
settled EndpointState.reconnecting = false
settled EndpointState.stopping = false

-- MainWindow._set_state
unfoldable pub show_state : EndpointState → MainWindow → MainWindow
show_state state window = record window {
  shown = state;
  connect_enabled = settled state && (given window.profile_path && window.profile_ready);
  disconnect_enabled = not (settled state);
  browse_enabled = settled state;
}

-- MainWindow._append_event and MainWindow._append_error
unfoldable pub append : Entry → MainWindow → MainWindow
append entry window = record window { log = entry ∷ window.log }

-- The start of `MainWindow.__init__`
unfoldable pub new_window : MainWindow
unfolding show_state
new_window = show_state EndpointState.disconnected (record {
  profile_path = none;
  profile_ready = false;
  profile = none;
  shown = EndpointState.disconnected;
  connect_enabled = true;
  disconnect_enabled = true;
  browse_enabled = true;
  log = [];
})

abbrev security_method : Bool → Bool → Bool → Security
security_method true static_key preshared_key = ephemeral
security_method false true preshared_key = static
security_method false false true = preshared
security_method false false false = unencrypted

abbrev rotation : Security → ℤ → Option ℤ
rotation unencrypted packets = none
rotation _ packets = if truthy packets then some packets else none

-- MainWindow._security_label, with the packets after which keys rotate, if they do
unfoldable pub security_label : EndpointConfig → Security × Option ℤ
security_label config =
    let method : Security =
      security_method config.ephemeral_handshake (given config.private_key_file)
        (given config.key_file) in
    (method, rotation method config.packets_per_key)

-- The files on the disk when they are read: what `load_config` makes of a path, and the key files.
pub record Disk : Type 0 where
  pub load : String → Result EndpointConfig
  pub files : String → KeyFile

-- A key file that is named is loaded.
abbrev pub check_file :
    (KeyFile → Result (List ℕ)) → (String → KeyFile) → Option String → Result (Unit {0})
check_file load files none = ok tt
check_file load files (some path) = load (files path) >>= λ key. ok tt

-- validate_profile_keys
unfoldable pub validate_profile_keys : (String → KeyFile) → EndpointConfig → Result (Unit {0})
validate_profile_keys files config = do
  check_file load_preshared_key files config.key_file
  check_file (λ file. load_x25519_key file true) files config.private_key_file
  check_file (λ file. load_x25519_key file false) files config.peer_public_key_file

-- `except ValueError` and `else` of `set_profile`
unfoldable pub with_keys : Result (Unit {0}) → MainWindow → Result MainWindow
with_keys (ok done) window = ok (record window { profile_ready = true })
with_keys (err e) window =
    if is_value_error e
    then ok (append (preview_entry e) (record window { profile_ready = false }))
    else err e

-- MainWindow.set_profile; `state` is the controller's.
unfoldable pub set_profile : Disk → String → EndpointState → MainWindow → Result MainWindow
set_profile disk path state window = do
  config ← disk.load path
  let previewed = record window { profile_path = some path; profile = some config }
  checked ← with_keys (validate_profile_keys disk.files config) previewed
  ok (show_state state checked)

-- The `try` of `_browse_profile`: a `ValueError` is shown in a message box.
unfoldable pub browse_profile : Disk → String → EndpointState → MainWindow → Result MainWindow
browse_profile disk path state window = elim (set_profile disk path state window) [
  | ok changed ↦ ok changed
  | err e ↦ if is_value_error e then ok window else err e
]
