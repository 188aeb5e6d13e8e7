-- ===== src/Cockpit/State.antt =====
-- crates/cockpit/src/lib.rs: the state of the console, without what is only drawn (the probes of the
-- hardware), and what messages and the arrow keys make of it. A clock reading is an argument.
use rotten_apple.Prelude.{
  Bool, List, Option, Text, [], codes, contains, drop, false, if◌then◌else◌, leb, length, min,
  nat_eq, none, some, suc, text_eq, true, zero, ℕ, ◌%◌, ◌++◌, ◌+◌, ◌-◌, ◌∷◌,
}
use rotten_apple.Bootstrapper.BootMode.{BootMode}
use rotten_apple.Cockpit.Choices.{BalloonEntry, get_elem?}
use rotten_apple.Cockpit.Commands.{DomainView, Snapshot}

pub data EventKind : Type 0 where
  info success failed : EventKind

pub record EventEntry : Type 0 where
  pub when : ℕ
  pub text : Text
  pub kind : EventKind

pub data BackendSource : Type 0 where
  daemon_unix daemon_vsock libxl : BackendSource

unfoldable pub source_label : BackendSource → Text
source_label daemon_unix = codes "daemon/unix"
source_label daemon_vsock = codes "daemon/vsock"
source_label libxl = codes "via libxl"

pub data Msg : Type 0 where
  backend_ready : (name libxl_version : Text) → BackendSource → Msg
  backend_failed : Text → Msg
  snapshot_of : Snapshot → Msg
  event_of : EventEntry → Msg

pub data EventVerbosity : Type 0 where
  all important errors_only : EventVerbosity

unfoldable pub next_verbosity : EventVerbosity → EventVerbosity
next_verbosity all = important
next_verbosity important = errors_only
next_verbosity errors_only = all

unfoldable pub verbosity_label : EventVerbosity → Text
verbosity_label all = codes "all"
verbosity_label important = codes "important"
verbosity_label errors_only = codes "errors only"

-- Which events the panel shows.
unfoldable pub allows : EventVerbosity → EventKind → Bool
allows all kind = true
allows important info = false
allows important success = true
allows important failed = true
allows errors_only info = false
allows errors_only success = false
allows errors_only failed = true

pub data PolicyField : Type 0 where
  least greatest cooldown : PolicyField

unfoldable pub next_policy : PolicyField → PolicyField
next_policy least = greatest
next_policy greatest = cooldown
next_policy cooldown = least

unfoldable pub prev_policy : PolicyField → PolicyField
prev_policy least = cooldown
prev_policy greatest = least
prev_policy cooldown = greatest

pub data WizardField : Type 0 where
  id_field base_field memory_field vcpus_field : WizardField

unfoldable pub next_wizard : WizardField → WizardField
next_wizard id_field = base_field
next_wizard base_field = memory_field
next_wizard memory_field = vcpus_field
next_wizard vcpus_field = id_field

unfoldable pub prev_wizard : WizardField → WizardField
prev_wizard id_field = vcpus_field
prev_wizard base_field = id_field
prev_wizard memory_field = base_field
prev_wizard vcpus_field = memory_field

pub record BalloonPrompt : Type 0 where
  pub handle : Text
  pub current_mb : ℕ
  pub max_mb : ℕ
  pub options_mb : List ℕ
  pub selected_idx : ℕ
  pub entry_mode : BalloonEntry
  pub text_input : Text

pub record PolicyEditor : Type 0 where
  pub domid : ℕ
  pub name : Text
  pub min_options : List ℕ
  pub max_options : List ℕ
  pub cooldown_options : List ℕ
  pub min_idx : ℕ
  pub max_idx : ℕ
  pub cooldown_idx : ℕ
  pub focus : PolicyField
  pub current_mb : ℕ
  pub current_max_mb : ℕ

pub record InstanceWizard : Type 0 where
  pub id_input : Text
  pub known_bases : List Text
  pub base_idx : ℕ
  pub memory_options : List ℕ
  pub memory_idx : ℕ
  pub vcpu_options : List ℕ
  pub vcpu_idx : ℕ
  pub focus : WizardField

pub data Mode : Type 0 where
  normal help_overlay host_resources_overlay first_run_welcome confirm_promote : Mode
  balloon_prompt : BalloonPrompt → Mode
  policy_editor : PolicyEditor → Mode
  confirm_kill : (handle : Text) → Mode
  confirm_boot_mode : (target : BootMode) → Mode
  instance_wizard : InstanceWizard → Mode

-- `selected` is the selection of `list_state`.
pub record State : Type 0 where
  pub manifest_path : Text
  pub backend_name : Option Text
  pub libxl_version : Option Text
  pub backend_source : Option BackendSource
  pub backend_error : Option Text
  pub boot_mode : BootMode
  pub snapshot : Option Snapshot
  pub selected : Option ℕ
  pub events : List EventEntry
  pub mode : Mode
  pub toast : Option (ℕ × Text × EventKind)
  pub should_quit : Bool
  pub event_verbosity : EventVerbosity
  pub pending_console_attach : Option ℕ
  pub autostart_deadline : Option ℕ

-- `State::new`, with what it reads: whether the welcome was seen, the words of the kernel's command
-- line, and the delay in seconds that the manifest asks for if it starts its guest by itself.
unfoldable pub new :
    (now : ℕ)
    → (manifest_path : Text) → BootMode
    → (welcome_needed : Bool) → (cmdline : List Text) → (autostart_delay : Option ℕ) → State
new now manifest_path boot_mode welcome_needed cmdline autostart_delay = record {
  manifest_path = manifest_path;
  backend_name = none;
  libxl_version = none;
  backend_source = none;
  backend_error = none;
  boot_mode = boot_mode;
  snapshot = none;
  selected = some 0;
  events = [];
  mode = if welcome_needed then first_run_welcome else normal;
  toast = none;
  should_quit = false;
  event_verbosity = all;
  pending_console_attach = none;
  autostart_deadline =
      if contains cmdline (codes "rotten_apple.no_autostart=1")
      then none
      else elim autostart_delay [ none ↦ none | some secs ↦ some (now + secs) ];
}

abbrev pub max_events : ℕ
max_events = 200

unfoldable pub push_event : EventEntry → State → State
push_event e s = record s {
  events = (if leb max_events (length s.events) then drop 1 s.events else s.events) ++ (e ∷ []);
}

unfoldable pub set_toast : (now : ℕ) → EventKind → Text → State → State
set_toast now kind text s = record s { toast = some (now, text, kind) }

-- The selection after a list of so many domains arrived.
unfoldable pub reselect : Option ℕ → (count : ℕ) → Option ℕ
reselect selected zero = none
reselect selected (suc n) = some (min (elim selected [ some i ↦ i | none ↦ 0 ]) n)

unfoldable pub apply : (now : ℕ) → Msg → State → State
unfolding push_event set_toast reselect source_label
apply now (backend_ready name libxl_version source) s =
    push_event
      (record {
        when = now;
        text =
            codes "backend ready ("
            ++ (source_label source ++ (codes "): libxl " ++ libxl_version));
        kind = info;
      })
      (record s {
        backend_name = some name;
        libxl_version = some libxl_version;
        backend_source = some source;
        backend_error = none;
      })
apply now (backend_failed e) s = set_toast now failed (codes "backend: " ++ e) (
    push_event (record { when = now; text = codes "backend init: " ++ e; kind = failed })
      (record s { backend_error = some e }))
apply now (snapshot_of snap) s = record s {
  selected = reselect s.selected (length snap.domains);
  snapshot = some snap;
}
apply now (event_of e) s = push_event e (set_toast now e.kind e.text s)

-- One row down or up.
pub data Delta : Type 0 where
  down up : Delta

-- `(cur + delta).rem_euclid(n)` on lists shorter than 2^31.
unfoldable pub stepped : Delta → (cur n : ℕ) → ℕ
stepped down cur n = (cur + 1) % n
stepped up cur n = (cur + n - 1) % n

unfoldable pub move_selection : Delta → State → State
unfolding stepped
move_selection delta s = elim s.snapshot [
  | none ↦ s
  | some snap ↦ elim snap.domains [
    | [] ↦ s
    | d ∷ ds ↦ record s {
      selected =
          some (stepped delta (elim s.selected [ some i ↦ i | none ↦ 0 ]) (length snap.domains));
    }
  ]
]

unfoldable pub selected_domain : State → Option DomainView
selected_domain s = elim s.snapshot [
  | none ↦ none
  | some snap ↦ elim s.selected [ none ↦ none | some i ↦ get_elem? snap.domains i ]
]
