-- ===== src/Cockpit/Keys.antt =====
-- crates/cockpit/src/lib.rs: `State::handle_key`, with the switch of the boot mode that it makes on
-- the spot. `mark_welcome_seen` writes a marker file that this state does not hold.
use rotten_apple.Prelude.{
  Bool, List, Option, Result, Text, [], codes, err, false, if◌then◌else◌, max, nat_beq, none, ok,
  some, true, ℕ, ◌&&◌, ◌++◌, ◌||◌, ◌∷◌,
}
use rotten_apple.Backend.{GuestState, running, idle, GuestStatus}
use rotten_apple.Bootstrapper.BootMode.{
  BootMode, desktop, cockpit, LiftError, pre_flight, command, verify, System, Host,
  default_console_font_for, enable_cockpit_boot_with_font, disable_cockpit_boot, current_boot_mode,
}
use rotten_apple.Cockpit.Commands.{
  Cmd, refresh, promote_xen_default, start, stop, create_from_manifest, handle_to_domid, DomainView,
}
use rotten_apple.Cockpit.Choices.{
  presets, is_dom0, balloon_options_mb, policy_options_mb, nearest_index,
}
use rotten_apple.Cockpit.State.{
  info, success, failed, State, Mode, normal, help_overlay, host_resources_overlay,
  first_run_welcome, confirm_promote, balloon_prompt, policy_editor, confirm_kill,
  confirm_boot_mode, instance_wizard, least, id_field, set_toast, push_event, move_selection, down,
  up, selected_domain, next_verbosity, verbosity_label,
}
use rotten_apple.Cockpit.Prompts.{
  KeyCode, char, fn_key, Handled, quiet, enter_mode, balloon_key, policy_key, wizard_key,
}
use rotten_apple.Cockpit.Prompts

pub record KeyEvent : Type 0 where
  pub code : KeyCode
  pub control : Bool

-- What a key press reads: the clock, the images on offer, the frame buffer, and the answers of the
-- host when the boot mode is switched.
pub record Outside : Type 0 where
  pub now : ℕ
  pub available_base_choices : List Text
  pub framebuffer : Option (ℕ × ℕ)
  pub host : Host

-- `Display` of an error of the bootstrapper.
unfoldable pub lift_error_text : LiftError → Text
lift_error_text (pre_flight s) = codes "pre-flight failed: " ++ s
lift_error_text (command step detail) = codes "step '" ++ (step ++ (codes "' failed: " ++ detail))
lift_error_text (verify s) = codes "post-write verification failed: " ++ s

unfoldable pub boot_mode_label : BootMode → Text
boot_mode_label desktop = codes "Desktop"
boot_mode_label cockpit = codes "Cockpit"

-- The console, and the part of the host that it changes by itself.
abbrev pub Console : Type 0
Console = State × System

-- What `systemctl` and the files are told.
abbrev pub switch_to : Outside → BootMode → System → Result LiftError (Unit {0}) × System
unfolding enable_cockpit_boot_with_font disable_cockpit_boot default_console_font_for
switch_to o cockpit system =
    enable_cockpit_boot_with_font o.host false (default_console_font_for o.framebuffer) system
switch_to o desktop system = disable_cockpit_boot o.host false system

unfoldable pub toggled :
    (now : ℕ) → BootMode → Result LiftError (Unit {0}) × System → State → Console
unfolding current_boot_mode set_toast push_event lift_error_text boot_mode_label
toggled now target (ok u, after) s = (
  let text = codes "boot mode → " ++ (boot_mode_label target ++ codes "; reboot to apply") in
      push_event (record { when = now; text = text; kind = success })
        (set_toast now success text (record s { boot_mode = current_boot_mode after })),
  after,
)
toggled now target (err e, after) s = (
  let text = codes "boot-mode toggle: " ++ lift_error_text e in
      push_event (record { when = now; text = text; kind = failed }) (set_toast now failed text s),
  after,
)

unfoldable pub apply_boot_mode_toggle : Outside → BootMode → Console → Console
unfolding toggled
apply_boot_mode_toggle o target (s, system) = toggled o.now target (switch_to o target system) s

is_running : GuestState → Bool
is_running running = true
is_running idle = true
is_running _ = false

unfoldable pub start_selected : (now : ℕ) → Option DomainView → State → Handled
unfolding is_dom0 is_running set_toast
start_selected now none s = quiet s
start_selected now (some d) s =
    if is_dom0 d.handle
    then quiet (set_toast now failed (codes "dom0 is the host — already running") s)
    else if is_running d.state
    then quiet (set_toast now info (d.handle ++ codes " is already running") s)
    else (some (start d.handle), s)

unfoldable pub stop_selected : (now : ℕ) → Option DomainView → State → Handled
unfolding is_dom0 set_toast
stop_selected now none s = quiet s
stop_selected now (some d) s =
    if is_dom0 d.handle
    then quiet (set_toast now failed (codes "dom0 is the host — won't shutdown") s)
    else (some (stop d.handle false), s)

unfoldable pub kill_selected : (now : ℕ) → Option DomainView → State → Handled
unfolding is_dom0 set_toast
kill_selected now none s = quiet s
kill_selected now (some d) s =
    if is_dom0 d.handle
    then quiet (set_toast now failed (codes "dom0 is the host — won't destroy") s)
    else quiet (enter_mode (confirm_kill d.handle) s)

-- The current and the greatest memory of a row, or zeros.
abbrev pub memory_of : Option GuestStatus → ℕ × ℕ
memory_of none = (0, 0)
memory_of (some st) = (st.memory_mb, st.memory_max_mb)

unfoldable pub open_balloon : Option DomainView → State → Handled
unfolding balloon_options_mb is_dom0 nearest_index
open_balloon none s = quiet s
open_balloon (some d) s =
    let (current_mb, max_mb) = memory_of d.status in
    let options = balloon_options_mb current_mb max_mb (is_dom0 d.handle) in
    quiet (
      enter_mode
        (balloon_prompt (record {
          handle = d.handle;
          current_mb = current_mb;
          max_mb = max_mb;
          options_mb = options;
          selected_idx = nearest_index options current_mb;
          entry_mode = presets;
          text_input = [];
        }))
        s)

unfoldable pub open_policy : (now : ℕ) → Option DomainView → State → Handled
unfolding policy_options_mb handle_to_domid nearest_index set_toast
open_policy now none s = quiet s
open_policy now (some d) s = elim (handle_to_domid d.handle) [
  | none ↦ quiet (set_toast now failed (codes "policy: non-numeric handle") s)
  | some domid ↦
      let (current_mb, max_mb) = memory_of d.status in
      let (min_options, max_options) = policy_options_mb current_mb max_mb in
      quiet (
        enter_mode
          (policy_editor (record {
            domid = domid;
            name = d.name;
            min_options = min_options;
            max_options = max_options;
            cooldown_options = 5 ∷ 10 ∷ 30 ∷ 60 ∷ 120 ∷ [];
            min_idx = nearest_index min_options current_mb;
            max_idx = nearest_index max_options (max max_mb current_mb);
            cooldown_idx = 2;
            focus = least;
            current_mb = current_mb;
            current_max_mb = max_mb;
          }))
          s)
]

-- The defaults are 4096 MB and two cpus.
unfoldable pub open_wizard : Outside → State → Handled
unfolding nearest_index
open_wizard o s =
    let memory_options : List ℕ = 512 ∷ 1024 ∷ 2048 ∷ 4096 ∷ 8192 ∷ 16384 ∷ [] in
    let vcpu_options : List ℕ = 1 ∷ 2 ∷ 4 ∷ 8 ∷ 16 ∷ [] in
    quiet (
      enter_mode
        (instance_wizard (record {
          id_input = [];
          known_bases = o.available_base_choices;
          base_idx = 0;
          memory_options = memory_options;
          memory_idx = nearest_index memory_options 4096;
          vcpu_options = vcpu_options;
          vcpu_idx = nearest_index vcpu_options 2;
          focus = id_field;
        }))
        s)

unfoldable pub attach_console : (now : ℕ) → Option DomainView → State → Handled
unfolding is_dom0 handle_to_domid set_toast
attach_console now none s = quiet s
attach_console now (some d) s =
    if is_dom0 d.handle
    then quiet (set_toast now info (codes "dom0 console: this is the host you're already on") s)
    else elim (handle_to_domid d.handle) [
      | some domid ↦ quiet (record s { pending_console_attach = some domid; should_quit = true })
      | none ↦ quiet (set_toast now failed (codes "non-numeric handle: " ++ d.handle) s)
    ]

abbrev opposite : BootMode → BootMode
opposite desktop = cockpit
opposite cockpit = desktop

cycle_verbosity : (now : ℕ) → State → State
unfolding set_toast next_verbosity verbosity_label
cycle_verbosity now s =
    let verbosity = next_verbosity s.event_verbosity in
    set_toast now info (codes "events: " ++ verbosity_label verbosity)
      (record s { event_verbosity = verbosity })

unfoldable pub normal_char : Outside → ℕ → State → Handled
unfolding start_selected stop_selected kill_selected open_balloon open_policy open_wizard
    attach_console cycle_verbosity set_toast move_selection selected_domain
normal_char o c s =
    if nat_beq c b'q'
    then quiet (record s { should_quit = true })
    else if nat_beq c b'r'
    then (some refresh, s)
    else if nat_beq c b'?'
    then quiet (enter_mode help_overlay s)
    else if nat_beq c b'H'
    then quiet (enter_mode host_resources_overlay s)
    else if nat_beq c b'j'
    then quiet (move_selection down s)
    else if nat_beq c b'k'
    then quiet (move_selection up s)
    else if nat_beq c b's'
    then start_selected o.now (selected_domain s) s
    else if nat_beq c b'x'
    then stop_selected o.now (selected_domain s) s
    else if nat_beq c b'X'
    then kill_selected o.now (selected_domain s) s
    else if nat_beq c b'b'
    then open_balloon (selected_domain s) s
    else if nat_beq c b'c'
    then (some (create_from_manifest s.manifest_path), s)
    else if nat_beq c b'n'
    then open_wizard o s
    else if nat_beq c b'P'
    then quiet (enter_mode confirm_promote s)
    else if nat_beq c b'M'
    then open_policy o.now (selected_domain s) s
    else if nat_beq c b'B'
    then quiet (enter_mode (confirm_boot_mode (opposite s.boot_mode)) s)
    else if nat_beq c b'L'
    then quiet (set_toast o.now info (codes "event log cleared") (record s { events = [] }))
    else if nat_beq c b'V'
    then quiet (cycle_verbosity o.now s)
    else if nat_beq c b't'
    then attach_console o.now (selected_domain s) s
    else quiet s

-- `handle_key_normal`.
unfoldable pub normal_key : Outside → KeyCode → (control : Bool) → State → Handled
unfolding normal_char move_selection
normal_key o (char c) control s =
    if control && nat_beq c b'c' then quiet (record s { should_quit = true }) else normal_char o c s
normal_key o (fn_key n) control s =
    if nat_beq n 1 then quiet (enter_mode help_overlay s) else quiet s
normal_key o Prompts.down control s = quiet (move_selection down s)
normal_key o Prompts.up control s = quiet (move_selection up s)
normal_key o _ control s = quiet s

-- The keys `y` and `Y`.
unfoldable pub is_yes : KeyCode → Bool
is_yes (char c) = nat_beq c b'y' || nat_beq c b'Y'
is_yes _ = false

abbrev beside : Handled → System → Option Cmd × Console
beside (cmd, s) system = (cmd, (s, system))

abbrev confirmed : KeyCode → Cmd → State → Handled
unfolding is_yes
confirmed code cmd s = (if is_yes code then some cmd else none, enter_mode normal s)

unfoldable pub key_in_mode : Outside → KeyEvent → Mode → Console → Option Cmd × Console
unfolding apply_boot_mode_toggle balloon_key policy_key wizard_key normal_key is_yes
key_in_mode o k help_overlay (s, system) = beside (quiet (enter_mode normal s)) system
key_in_mode o k host_resources_overlay (s, system) = beside (quiet (enter_mode normal s)) system
key_in_mode o k first_run_welcome (s, system) = beside (quiet (enter_mode normal s)) system
key_in_mode o k (confirm_kill handle) (s, system) =
    beside (confirmed k.code (stop handle true) s) system
key_in_mode o k confirm_promote (s, system) = beside (confirmed k.code promote_xen_default s) system
key_in_mode o k (confirm_boot_mode target) (s, system) = (
  none,
  if is_yes k.code
      then apply_boot_mode_toggle o target (enter_mode normal s, system)
      else (enter_mode normal s, system),
)
key_in_mode o k (balloon_prompt p) (s, system) = beside (balloon_key o.now k.code p s) system
key_in_mode o k (policy_editor p) (s, system) = beside (policy_key o.now k.code p s) system
key_in_mode o k (instance_wizard w) (s, system) = beside (wizard_key o.now k.code w s) system
key_in_mode o k normal (s, system) = beside (normal_key o k.code k.control s) system

unfoldable pub is_esc : KeyCode → Bool
is_esc Prompts.esc = true
is_esc _ = false

unfoldable pub handle_key : Outside → KeyEvent → Console → Option Cmd × Console
unfolding key_in_mode is_esc
handle_key o k (s, system) =
    if is_esc k.code
    then (none, (enter_mode normal s, system))
    else key_in_mode o k s.mode (s, system)
