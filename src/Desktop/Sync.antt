-- ===== src/Desktop/Sync.antt =====
-- gui.py: the buttons of the window follow the state of the controller.
use matf_master_vpn.Prelude.{
  ◌≡◌, refl, ◌∙◌, not, ◌&&◌, Option, none, some, List, [], ◌∷◌, Bool-cases, inl, inr,
}
use matf_master_vpn.OrderedDict.{get}
use matf_master_vpn.Prelude.Equality.{string_eq}
use matf_master_vpn.Json.{Json, object, dict_of}
use matf_master_vpn.Config.{given}
use matf_master_vpn.Texts.{Text, strip}
use matf_master_vpn.Desktop.Window.{EndpointState, Entry, settled, show_state, append}
use matf_master_vpn.Desktop.Process.{
  Desktop, Channel, standard_error, standard_output, with_buffer, same_state, set_state, report,
  set_named, named_state, consume_loaded, consume_stripped, consume_log_line, consume_lines,
}

-- The buttons show what the window's state allows, and the window's state is settled just when the
-- controller's is.
pub record IsSynced (d : Desktop) : Type 0 where
  pub in_step : settled d.window.shown ≡ settled d.endpoint.state
  pub connect :
      d.window.connect_enabled
      ≡ (settled d.window.shown && (given d.window.profile_path && d.window.profile_ready))
  pub disconnect : d.window.disconnect_enabled ≡ not (settled d.window.shown)
  pub browse : d.window.browse_enabled ≡ settled d.window.shown

pub IsSynced-set_state : (s : EndpointState) (d : Desktop) → IsSynced d → IsSynced (set_state s d)
unfolding set_state show_state
IsSynced-set_state s d h = elim (Bool-cases (same_state s d.endpoint.state)) [
  | inl same ↦ rw same h
  | inr other ↦
      rw other (record { in_step = refl; connect = refl; disconnect = refl; browse = refl })
]

pub IsSynced-report : (x : Entry) (d : Desktop) → IsSynced d → IsSynced (report x d)
unfolding report append
IsSynced-report x d h = record {
  in_step = h.in_step;
  connect = h.connect;
  disconnect = h.disconnect;
  browse = h.browse;
}

-- What reading a line leaves alone
pub record IsKept (d e : Desktop) : Type 0 where
  pub process : e.endpoint.process ≡ d.endpoint.process
  pub stderr_buffer : e.endpoint.stderr_buffer ≡ d.endpoint.stderr_buffer
  pub stdout_buffer : e.endpoint.stdout_buffer ≡ d.endpoint.stdout_buffer
  pub launches : e.endpoint.launches ≡ d.endpoint.launches
  pub timers : e.endpoint.timers ≡ d.endpoint.timers

pub IsKept-set_state : (s : EndpointState) (d : Desktop) → IsKept d (set_state s d)
unfolding set_state
IsKept-set_state s d = elim (Bool-cases (same_state s d.endpoint.state)) [
  | inl same ↦ rw same (record {
    process = refl;
    stderr_buffer = refl;
    stdout_buffer = refl;
    launches = refl;
    timers = refl;
  })
  | inr other ↦ rw other (record {
    process = refl;
    stderr_buffer = refl;
    stdout_buffer = refl;
    launches = refl;
    timers = refl;
  })
]

IsKept-refl : (d : Desktop) → IsKept d d
IsKept-refl d = record {
  process = refl;
  stderr_buffer = refl;
  stdout_buffer = refl;
  launches = refl;
  timers = refl;
}

IsKept-trans : {d e f : Desktop} → IsKept d e → IsKept e f → IsKept d f
IsKept-trans a b = record {
  process = b.process ∙ a.process;
  stderr_buffer = b.stderr_buffer ∙ a.stderr_buffer;
  stdout_buffer = b.stdout_buffer ∙ a.stdout_buffer;
  launches = b.launches ∙ a.launches;
  timers = b.timers ∙ a.timers;
}

-- A change of the desktop by a line that was read
abbrev pub Reads : Desktop → Desktop → Type 0
Reads d e = IsKept d e × (IsSynced d → IsSynced e)

Reads-trans : {d e f : Desktop} → Reads d e → Reads e f → Reads d f
Reads-trans a b = (IsKept-trans a.0 b.0, λ h. b.1 (a.1 h))

Reads-report : (x : Entry) (d : Desktop) → Reads d (report x d)
unfolding report
Reads-report x d = (
  record {
    process = refl;
    stderr_buffer = refl;
    stdout_buffer = refl;
    launches = refl;
    timers = refl;
  },
  IsSynced-report x d,
)

Reads-set_named : (named : Option EndpointState) (d : Desktop) → Reads d (set_named named d)
Reads-set_named none d = (IsKept-refl d, λ h. h)
Reads-set_named (some s) d = (IsKept-set_state s d, IsSynced-set_state s d)

Reads-consume_loaded :
    (line : Text) (loaded : Option Json) (d : Desktop) → Reads d (consume_loaded line loaded d)
unfolding consume_loaded
Reads-consume_loaded line (some (object event)) d =
    Reads-trans (Reads-set_named (named_state (get "event" (dict_of event))) d) (Reads-report _ _)
Reads-consume_loaded line none d = Reads-report _ d
Reads-consume_loaded line (some json) d = Reads-report _ d

module _ (loads : Text → Option Json) where
  Reads-consume_stripped : (line : Text) (d : Desktop) → Reads d (consume_stripped loads line d)
  Reads-consume_stripped [] d = (IsKept-refl d, λ h. h)
  Reads-consume_stripped (c ∷ rest) d = Reads-consume_loaded (c ∷ rest) (loads (c ∷ rest)) d

  pub Reads-consume_line : (line : Text) (d : Desktop) → Reads d (consume_log_line loads line d)
  unfolding consume_log_line
  Reads-consume_line line d = Reads-consume_stripped (strip line) d

  pub Reads-consume_lines :
      (lines : List Text) (d : Desktop) → Reads d (consume_lines loads lines d)
  unfolding consume_lines
  Reads-consume_lines [] d = (IsKept-refl d, λ h. h)
  Reads-consume_lines (line ∷ lines) d =
      Reads-trans (Reads-consume_line line d)
        (Reads-consume_lines lines (consume_log_line loads line d))

pub IsSynced-with_buffer :
    (channel : Channel) (b : Text) (d : Desktop) → IsSynced d → IsSynced (with_buffer channel b d)
IsSynced-with_buffer standard_error b d h = record {
  in_step = h.in_step;
  connect = h.connect;
  disconnect = h.disconnect;
  browse = h.browse;
}
IsSynced-with_buffer standard_output b d h = record {
  in_step = h.in_step;
  connect = h.connect;
  disconnect = h.disconnect;
  browse = h.browse;
}
