-- ===== src/Cockpit/Guarded/Destroy.antt =====
-- When the console destroys a guest.
use rotten_apple.Prelude.{
  Bool, Option, Result, Text, ap, arith, err, false, if_elim, none, ok, refl, some, sym, true, ℕ,
  ◌↔◌, ◌∙◌, ◌≡◌, ◌≢◌,
}
use rotten_apple.Bootstrapper.BootMode.{System}
use rotten_apple.Cockpit.Commands.{Cmd, DomainView, stop}
use rotten_apple.Cockpit.Choices.{resolve_balloon_target, validate_balloon_target, is_dom0}
use rotten_apple.Cockpit.State
use rotten_apple.Cockpit.State.{
  State, Mode, confirm_kill, BalloonPrompt, PolicyEditor, InstanceWizard, set_toast,
}
use rotten_apple.Cockpit.Prompts.{
  KeyCode, Handled, balloon_key, balloon_enter, balloon_resolved, balloon_checked, policy_key,
  policy_enter, wizard_key, wizard_enter,
}
use rotten_apple.Cockpit.Prompts
use rotten_apple.Cockpit.Keys
use rotten_apple.Cockpit.Keys.{
  KeyEvent, Outside, handle_key, key_in_mode, normal_key, normal_char, start_selected,
  stop_selected, kill_selected, open_balloon, open_policy, open_wizard, attach_console,
  apply_boot_mode_toggle, is_yes, is_esc,
}

abbrev destroys : Option Cmd → Bool
destroys (some (stop h force)) = force
destroys _ = false

abbrev IsMild : Handled → Type 0
IsMild (cmd, s) = destroys cmd ≡ false

balloon_checked-IsMild :
    (now : ℕ) (h : Text) (r : Result Text ℕ) (s : State) → IsMild (balloon_checked now h r s)
unfolding balloon_checked
balloon_checked-IsMild now h (ok t) s = refl
balloon_checked-IsMild now h (err e) s = refl

balloon_resolved-IsMild :
    (now : ℕ) (p : BalloonPrompt) (r : Result Text ℕ) (s : State)
    → IsMild (balloon_resolved now p r s)
unfolding balloon_resolved
balloon_resolved-IsMild now p (ok t) s =
    balloon_checked-IsMild now p.handle
      (validate_balloon_target t p.current_mb p.max_mb (is_dom0 p.handle)) s
balloon_resolved-IsMild now p (err e) s = refl

balloon_key-IsMild :
    (now : ℕ) (k : KeyCode) (p : BalloonPrompt) (s : State) → IsMild (balloon_key now k p s)
unfolding balloon_key
balloon_key-IsMild now Prompts.enter p s =
    balloon_resolved-IsMild now p
      (resolve_balloon_target p.entry_mode p.text_input p.options_mb p.selected_idx p.current_mb
        p.max_mb)
      s
balloon_key-IsMild now _ p s = ground arith

policy_key-IsMild :
    (now : ℕ) (k : KeyCode) (p : PolicyEditor) (s : State) → IsMild (policy_key now k p s)
unfolding policy_key policy_enter
policy_key-IsMild now Prompts.tab p s = refl
policy_key-IsMild now _ p s = ground arith

wizard_key-IsMild :
    (now : ℕ) (k : KeyCode) (w : InstanceWizard) (s : State) → IsMild (wizard_key now k w s)
unfolding wizard_key wizard_enter
wizard_key-IsMild now Prompts.tab w s = refl
wizard_key-IsMild now _ w s = ground arith

start-IsMild : (now : ℕ) (d : Option DomainView) (s : State) → IsMild (start_selected now d s)
unfolding start_selected
start-IsMild now none s = refl
start-IsMild now (some d) s = ground arith

stop-IsMild : (now : ℕ) (d : Option DomainView) (s : State) → IsMild (stop_selected now d s)
unfolding stop_selected
stop-IsMild now none s = refl
stop-IsMild now (some d) s = ground arith

kill-IsMild : (now : ℕ) (d : Option DomainView) (s : State) → IsMild (kill_selected now d s)
unfolding kill_selected
kill-IsMild now none s = refl
kill-IsMild now (some d) s = ground arith

open_balloon-IsMild : (d : Option DomainView) (s : State) → IsMild (open_balloon d s)
unfolding open_balloon
open_balloon-IsMild none s = refl
open_balloon-IsMild (some d) s = refl

open_policy-IsMild : (now : ℕ) (d : Option DomainView) (s : State) → IsMild (open_policy now d s)
unfolding open_policy
open_policy-IsMild now none s = refl
open_policy-IsMild now (some d) s = ground arith

attach-IsMild : (now : ℕ) (d : Option DomainView) (s : State) → IsMild (attach_console now d s)
unfolding attach_console
attach-IsMild now none s = refl
attach-IsMild now (some d) s = ground arith

open_wizard-IsMild : (o : Outside) (s : State) → IsMild (open_wizard o s)
unfolding open_wizard
open_wizard-IsMild o s = refl

normal_char-IsMild : (o : Outside) (c : ℕ) (s : State) → IsMild (normal_char o c s)
unfolding normal_char
normal_char-IsMild o c s =
    let d = State.selected_domain s in
    ground (
      arith,
      start-IsMild o.now d s,
      stop-IsMild o.now d s,
      kill-IsMild o.now d s,
      open_balloon-IsMild d s,
      open_policy-IsMild o.now d s,
      attach-IsMild o.now d s,
      open_wizard-IsMild o s,
    )

normal_key-IsMild :
    (o : Outside) (k : KeyCode) (control : Bool) (s : State) → IsMild (normal_key o k control s)
unfolding normal_key
normal_key-IsMild o Prompts.esc control s = refl
normal_key-IsMild o (Prompts.char c) control s = ground (arith, normal_char-IsMild o c s)
normal_key-IsMild o _ control s = ground arith

mild-ne-stop : (cmd : Option Cmd) (h : Text) → destroys cmd ≡ false → cmd ≢ some (stop h true)
mild-ne-stop cmd h d e = cc (sym d ∙ ap destroys e)

-- Outside of the prompt that asks for it, nothing is destroyed.
key_in_mode_destroys :
    (o : Outside) (k : KeyEvent) (mode : Mode) (s : State) (system : System) (h : Text)
    → (key_in_mode o k mode (s, system)).0 ≡ some (stop h true)
    → (mode ≡ confirm_kill h) × (is_yes k.code ≡ true)
unfolding key_in_mode
key_in_mode_destroys o k State.help_overlay s system h e = cc
key_in_mode_destroys o k State.host_resources_overlay s system h e = cc
key_in_mode_destroys o k State.first_run_welcome s system h e = cc
key_in_mode_destroys o k (State.confirm_boot_mode target) s system h e = cc
key_in_mode_destroys o k (State.confirm_kill handle) s system h e = ground arith
key_in_mode_destroys o k State.confirm_promote s system h e = ground arith
key_in_mode_destroys o k (State.balloon_prompt p) s system h e =
    absurd (mild-ne-stop _ h (balloon_key-IsMild o.now k.code p s) e)
key_in_mode_destroys o k (State.policy_editor p) s system h e =
    absurd (mild-ne-stop _ h (policy_key-IsMild o.now k.code p s) e)
key_in_mode_destroys o k (State.instance_wizard w) s system h e =
    absurd (mild-ne-stop _ h (wizard_key-IsMild o.now k.code w s) e)
key_in_mode_destroys o k State.normal s system h e =
    absurd (mild-ne-stop _ h (normal_key-IsMild o k.code k.control s) e)

key_in_mode_yes :
    (o : Outside) (k : KeyEvent) (mode : Mode) (s : State) (system : System) (h : Text)
    → mode ≡ confirm_kill h
    → is_yes k.code ≡ true
    → (key_in_mode o k mode (s, system)).0 ≡ some (stop h true)
unfolding key_in_mode
key_in_mode_yes o k mode s system h m y = rw (m, y)

yes_not_esc : (k : KeyCode) → is_yes k ≡ true → is_esc k ≡ false
unfolding is_yes is_esc
yes_not_esc Prompts.esc h = cc
yes_not_esc (Prompts.char c) h = refl
yes_not_esc _ h = ground arith

-- A key destroys a guest exactly when it is `y` or `Y` in the prompt that asks whether to kill that
-- guest.
pub handle_key_destroys :
    (o : Outside) (k : KeyEvent) (s : State) (system : System) (h : Text)
    → ((handle_key o k (s, system)).0 ≡ some (stop h true))
      ↔ ((s.mode ≡ confirm_kill h) × (is_yes k.code ≡ true))
unfolding handle_key
handle_key_destroys o k s system h = (
  if_elim
      (λ (r : Option Cmd × Keys.Console).
        r.0 ≡ some (stop h true) → (s.mode ≡ confirm_kill h) × (is_yes k.code ≡ true))
      (is_esc k.code) (λ _ e. cc e) (λ _ e. key_in_mode_destroys o k s.mode s system h e),
  λ both.
      if_elim (λ (r : Option Cmd × Keys.Console). r.0 ≡ some (stop h true)) (is_esc k.code)
        (λ e. cc (sym e ∙ yes_not_esc k.code both.1))
        (λ _. key_in_mode_yes o k s.mode s system h both.0 both.1),
)
