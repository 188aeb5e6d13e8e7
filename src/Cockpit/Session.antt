-- ===== src/Cockpit/Session.antt =====
-- crates/cockpit/src/lib.rs: `run_active`, the loop of the console. A round takes the messages of the
-- worker, starts the guest of the manifest when that is due, and handles at most one key.
pub mod Once
use rotten_apple.Prelude.{
  Bool, List, Option, Text, [], codes, false, if◌then◌else◌, is_some, leb, nat_eq, none, some,
  text_eq, ℕ, ◌++◌, ◌+◌, ◌==◌, ◌||◌, ◌∷◌,
}
use rotten_apple.Cockpit.Commands.{Cmd, create_from_manifest, shutdown, DomainView}
use rotten_apple.Cockpit.State.{info, Msg, State, apply, set_toast}
use rotten_apple.Cockpit.Keys.{KeyEvent, Outside, Console, handle_key}

-- `manifest_name` is the name of the profile in the manifest file, if it loads.
pub record Round : Type 0 where
  pub msgs : List Msg
  pub manifest_name : Option Text
  pub outside : Outside
  pub key : Option KeyEvent

unfoldable pub drain : (now : ℕ) → List Msg → State → State
unfolding apply
drain now [] s = s
drain now (m ∷ ms) s = drain now ms (apply now m s)

unfoldable pub is_listed : Text → List DomainView → Bool
is_listed name [] = false
is_listed name (d ∷ ds) = d.name == name || is_listed name ds

unfoldable pub already_running : Option Text → State → Bool
unfolding is_listed
already_running name s = elim s.snapshot [
  | none ↦ false
  | some snap ↦ elim name [ none ↦ false | some n ↦ is_listed n snap.domains ]
]

-- The deadline has passed.
unfoldable pub fire : (now : ℕ) → Option Text → State → Option Cmd × State
unfolding already_running set_toast
fire now name s =
    if is_some s.backend_name
    then if already_running name s
      then (
        none,
        set_toast now info (codes "autostart skipped: guest already running")
            (record s { autostart_deadline = none }),
      )
      else (
        some (create_from_manifest s.manifest_path),
        set_toast now info (codes "autostart firing: " ++ s.manifest_path)
            (record s { autostart_deadline = none }),
      )
    else (none, record s { autostart_deadline = some (now + 1) })

unfoldable pub armed : (deadline : Option ℕ) → (now : ℕ) → Option Text → State → Option Cmd × State
unfolding fire
armed none now name s = (none, s)
armed (some deadline) now name s = if leb deadline now then fire now name s else (none, s)

unfoldable pub autostart : (now : ℕ) → Option Text → State → Option Cmd × State
unfolding armed
autostart now name s = armed s.autostart_deadline now name s

abbrev pub sent : Option Cmd → List Cmd → List Cmd
sent none cmds = cmds
sent (some cmd) cmds = cmd ∷ cmds

unfoldable pub press : Outside → Option KeyEvent → Console → Option Cmd × Console
unfolding handle_key
press o none c = (none, c)
press o (some k) c = handle_key o k c

-- What a round sends before it looks for a key.
unfoldable pub before_key : Round → State → Option Cmd × State
unfolding drain autostart
before_key r s = autostart r.outside.now r.manifest_name (drain r.outside.now r.msgs s)

-- The commands that are sent, and the console when it quits or the rounds are over.
unfoldable pub run_active : List Round → Console → List Cmd × Console
unfolding before_key press
run_active [] c = ([], c)
run_active (r ∷ rs) (s, system) =
    let (first, s1) = before_key r s in
    let (second, c2) = press r.outside r.key (s1, system) in
    let (rest, c3) = run_active rs c2 in
    if s1.should_quit
    then (sent first (shutdown ∷ []), (s1, system))
    else (sent first (sent second rest), c3)

pub data PostUiAction : Type 0 where
  attach_console : (domid : ℕ) → PostUiAction
  no_action execute_lift reboot drop_to_shell disable_cockpit_boot_and_reboot : PostUiAction

unfoldable pub post_ui_action : (on_systemd_cockpit_tty : Bool) → State → PostUiAction
post_ui_action on_systemd_cockpit_tty s = elim s.pending_console_attach [
  | some domid ↦ attach_console domid
  | none ↦ if on_systemd_cockpit_tty then drop_to_shell else no_action
]
