-- ===== src/Cockpit/Prompts.antt =====
-- crates/cockpit/src/lib.rs: what a key does inside a prompt (the arms of `State::handle_key`).
use rotten_apple.Prelude.{
  Bool, List, Option, Result, Text, [], codes, err, false, if◌then◌else◌, is_digit, leb, length,
  ltb, nat_beq, nat_eq, none, ok, some, take, text_eq, trim, true, ℕ, ◌%◌, ◌&&◌, ◌++◌, ◌+◌, ◌-◌,
  ◌==◌, ◌||◌, ◌∷◌,
}
use rotten_apple.Cockpit.Commands.{Cmd, balloon, set_policy, create_instance}
use rotten_apple.Cockpit.Choices.{
  BalloonEntry, presets, manual_mb, percentage, next_entry, get_or, is_dom0, resolve_balloon_target,
  validate_balloon_target,
}
use rotten_apple.Cockpit.State.{
  failed, State, Mode, normal, balloon_prompt, policy_editor, instance_wizard, BalloonPrompt,
  PolicyEditor, InstanceWizard, PolicyField, least, greatest, cooldown, next_policy, prev_policy,
  WizardField, id_field, base_field, memory_field, vcpus_field, next_wizard, prev_wizard, set_toast,
}

-- The keys that the console tells apart.
pub data KeyCode : Type 0 where
  esc enter tab back_tab backspace left right down up other : KeyCode
  char fn_key : ℕ → KeyCode

abbrev pub Handled : Type 0
Handled = Option Cmd × State

abbrev pub quiet : State → Handled
quiet s = (none, s)

abbrev pub enter_mode : Mode → State → State
enter_mode mode s = record s { mode = mode }

-- `Vec::pop` of the last character.
unfoldable pub pop : Text → Text
pop s = take (length s - 1) s

-- A choice moves down while it can, and up while there is a next one.
abbrev pub lower : ℕ → ℕ
lower i = i - 1

unfoldable pub raise {ℓ} : {A : Type ℓ} → List A → ℕ → ℕ
raise options i = if ltb (i + 1) (length options) then i + 1 else i

abbrev typed : BalloonEntry → Bool
typed presets = false
typed manual_mb = true
typed percentage = true

abbrev with_prompt : State → BalloonPrompt → Handled
with_prompt s p = quiet (enter_mode (balloon_prompt p) s)

abbrev balloon_left : BalloonPrompt → State → Handled
balloon_left p s = with_prompt s (record p { selected_idx = lower p.selected_idx })

abbrev balloon_right : BalloonPrompt → State → Handled
unfolding raise
balloon_right p s = with_prompt s (record p { selected_idx = raise p.options_mb p.selected_idx })

abbrev balloon_char : ℕ → BalloonPrompt → State → Handled
balloon_char c p s =
    if is_digit c && ltb (length p.text_input) 6
    then with_prompt s (record p { text_input = p.text_input ++ (c ∷ []) })
    else quiet s

unfoldable pub balloon_checked : (now : ℕ) → Text → Result Text ℕ → State → Handled
unfolding set_toast
balloon_checked now handle (ok target_mb) s = (some (balloon handle target_mb), enter_mode normal s)
balloon_checked now handle (err msg) s = quiet (set_toast now failed msg (enter_mode normal s))

unfoldable pub balloon_resolved : (now : ℕ) → BalloonPrompt → Result Text ℕ → State → Handled
unfolding set_toast validate_balloon_target is_dom0 balloon_checked
balloon_resolved now p (err msg) s = quiet (set_toast now failed msg s)
balloon_resolved now p (ok target) s =
    balloon_checked now p.handle
      (validate_balloon_target target p.current_mb p.max_mb (is_dom0 p.handle)) s

unfoldable pub balloon_enter : (now : ℕ) → BalloonPrompt → State → Handled
unfolding resolve_balloon_target balloon_resolved
balloon_enter now p s =
    balloon_resolved now p
      (resolve_balloon_target p.entry_mode p.text_input p.options_mb p.selected_idx p.current_mb
        p.max_mb)
      s

unfoldable pub balloon_key : (now : ℕ) → KeyCode → BalloonPrompt → State → Handled
unfolding balloon_enter next_entry pop raise
balloon_key now tab p s =
    with_prompt s (record p { entry_mode = next_entry p.entry_mode; text_input = [] })
balloon_key now left p s = if typed p.entry_mode then quiet s else balloon_left p s
balloon_key now right p s = if typed p.entry_mode then quiet s else balloon_right p s
balloon_key now (char c) p s =
    if typed p.entry_mode
    then balloon_char c p s
    else if nat_beq c b'h'
    then balloon_left p s
    else if nat_beq c b'l'
    then balloon_right p s
    else quiet s
balloon_key now backspace p s =
    if typed p.entry_mode
    then with_prompt s (record p { text_input = pop p.text_input })
    else quiet s
balloon_key now enter p s = balloon_enter now p s
balloon_key now _ p s = quiet s

abbrev with_editor : State → PolicyEditor → Handled
with_editor s p = quiet (enter_mode (policy_editor p) s)

unfoldable pub policy_left : PolicyField → PolicyEditor → PolicyEditor
policy_left least p = record p { min_idx = lower p.min_idx }
policy_left greatest p = record p { max_idx = lower p.max_idx }
policy_left cooldown p = record p { cooldown_idx = lower p.cooldown_idx }

unfoldable pub policy_right : PolicyField → PolicyEditor → PolicyEditor
unfolding raise
policy_right least p = record p { min_idx = raise p.min_options p.min_idx }
policy_right greatest p = record p { max_idx = raise p.max_options p.max_idx }
policy_right cooldown p = record p { cooldown_idx = raise p.cooldown_options p.cooldown_idx }

unfoldable pub policy_enter : (now : ℕ) → PolicyEditor → State → Handled
unfolding set_toast
policy_enter now p s =
    let min_mb = get_or p.min_options p.min_idx 0 in
    let max_mb = get_or p.max_options p.max_idx 0 in
    let cooldown_s = get_or p.cooldown_options p.cooldown_idx 0 in
    if ltb max_mb min_mb
    then quiet (set_toast now failed (codes "policy: min must be ≤ max") s)
    else if ltb cooldown_s 1
    then quiet (set_toast now failed (codes "policy: cooldown must be ≥ 1") s)
    else (some (set_policy p.domid min_mb max_mb cooldown_s), enter_mode normal s)

unfoldable pub policy_key : (now : ℕ) → KeyCode → PolicyEditor → State → Handled
unfolding policy_left policy_right policy_enter next_policy prev_policy
policy_key now tab p s = with_editor s (record p { focus = next_policy p.focus })
policy_key now back_tab p s = with_editor s (record p { focus = prev_policy p.focus })
policy_key now up p s = with_editor s (record p { focus = prev_policy p.focus })
policy_key now down p s = with_editor s (record p { focus = next_policy p.focus })
policy_key now left p s = with_editor s (policy_left p.focus p)
policy_key now right p s = with_editor s (policy_right p.focus p)
policy_key now (char c) p s =
    if nat_beq c b'h'
    then with_editor s (policy_left p.focus p)
    else if nat_beq c b'l'
    then with_editor s (policy_right p.focus p)
    else quiet s
policy_key now enter p s = policy_enter now p s
policy_key now _ p s = quiet s

abbrev with_wizard : State → InstanceWizard → Handled
with_wizard s w = quiet (enter_mode (instance_wizard w) s)

-- The base goes round.
unfoldable pub wizard_left : WizardField → InstanceWizard → InstanceWizard
wizard_left id_field w = w
wizard_left base_field w = record w {
  base_idx =
      if nat_beq (length w.known_bases) 0
      then w.base_idx
      else if nat_beq w.base_idx 0
      then length w.known_bases - 1
      else w.base_idx - 1;
}
wizard_left memory_field w = record w { memory_idx = lower w.memory_idx }
wizard_left vcpus_field w = record w { vcpu_idx = lower w.vcpu_idx }

unfoldable pub wizard_right : WizardField → InstanceWizard → InstanceWizard
unfolding raise
wizard_right id_field w = w
wizard_right base_field w = record w {
  base_idx =
      if nat_beq (length w.known_bases) 0
      then w.base_idx
      else (w.base_idx + 1) % length w.known_bases;
}
wizard_right memory_field w = record w { memory_idx = raise w.memory_options w.memory_idx }
wizard_right vcpus_field w = record w { vcpu_idx = raise w.vcpu_options w.vcpu_idx }

-- `is_ascii_alphanumeric() || c == '-' || c == '_'`.
unfoldable pub is_id_char : ℕ → Bool
is_id_char c =
    is_digit c
    || (leb b'a' c && leb c b'z')
    || (leb b'A' c && leb c b'Z')
    || nat_beq c b'-'
    || nat_beq c b'_'

unfoldable pub wizard_char : ℕ → WizardField → InstanceWizard → InstanceWizard
unfolding is_id_char
wizard_char c id_field w =
    if is_id_char c then record w { id_input = w.id_input ++ (c ∷ []) } else w
wizard_char c _ w = w

unfoldable pub wizard_backspace : WizardField → InstanceWizard → InstanceWizard
unfolding pop
wizard_backspace id_field w = record w { id_input = pop w.id_input }
wizard_backspace _ w = w

unfoldable pub wizard_enter : (now : ℕ) → InstanceWizard → State → Handled
unfolding set_toast trim
wizard_enter now w s =
    let id = trim w.id_input in
    let base = get_or w.known_bases w.base_idx [] in
    if id == []
    then quiet (set_toast now failed (codes "instance: id is required") s)
    else if base == []
    then quiet (set_toast now failed (codes "instance: no base images available") s)
    else (
      some (
          create_instance id base (get_or w.memory_options w.memory_idx 0)
            (get_or w.vcpu_options w.vcpu_idx 0)),
      enter_mode normal s,
    )

unfoldable pub wizard_key : (now : ℕ) → KeyCode → InstanceWizard → State → Handled
unfolding wizard_left wizard_right wizard_char wizard_backspace wizard_enter next_wizard prev_wizard
wizard_key now tab w s = with_wizard s (record w { focus = next_wizard w.focus })
wizard_key now back_tab w s = with_wizard s (record w { focus = prev_wizard w.focus })
wizard_key now up w s = with_wizard s (record w { focus = prev_wizard w.focus })
wizard_key now down w s = with_wizard s (record w { focus = next_wizard w.focus })
wizard_key now left w s = with_wizard s (wizard_left w.focus w)
wizard_key now right w s = with_wizard s (wizard_right w.focus w)
wizard_key now backspace w s = with_wizard s (wizard_backspace w.focus w)
wizard_key now (char c) w s =
    if nat_beq c b'h'
    then with_wizard s (wizard_left w.focus w)
    else if nat_beq c b'l'
    then with_wizard s (wizard_right w.focus w)
    else with_wizard s (wizard_char c w.focus w)
wizard_key now enter w s = wizard_enter now w s
wizard_key now _ w s = quiet s
