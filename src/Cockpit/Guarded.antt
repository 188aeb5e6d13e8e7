-- ===== src/Cockpit/Guarded.antt =====
-- Which commands the console may send, and that its prompts send no other.
pub mod Always
pub mod Destroy
use mathlib.Core.List.{reverse_aux}
use rotten_apple.Prelude.{
  All, All-append, Bool, List, Option, Result, Text, [], ap, arith, err, false, if_elim,
  is_whitespace, length, nat_beq, nat_eq, none, ok, refl, some, subst, suc, sym, take, text_beq_iff,
  text_eq, trim, trim_start_matches, true, zero, ℕ, ◌-◌, ◌<◌, ◌==◌, ◌∙◌, ◌∷◌, ◌≡◌, ◌≢◌, ◌≤◌,
}
use rotten_apple.Cockpit.Commands
use rotten_apple.Cockpit.Commands.{Cmd}
use rotten_apple.Cockpit.Choices.{is_dom0, get_or, resolve_balloon_target, validate_balloon_target}
use rotten_apple.Cockpit.State
use rotten_apple.Cockpit.State.{
  State, Mode, confirm_kill, instance_wizard, InstanceWizard, BalloonPrompt, PolicyEditor,
  set_toast, WizardField, id_field, base_field, memory_field, vcpus_field,
}
use rotten_apple.Cockpit.Prompts.{
  KeyCode, Handled, balloon_key, balloon_enter, policy_key, policy_enter, wizard_key, wizard_enter,
  wizard_left, wizard_right, wizard_char, wizard_backspace, balloon_checked, balloon_resolved,
}
use rotten_apple.Cockpit.Prompts

-- The characters that the wizard takes into an id: `h` and `l` move the choice instead.
pub record IsIdLetter (c : ℕ) : Type 0 where
  pub allowed : Prompts.is_id_char c ≡ true
  pub not_left : c ≢ b'h'
  pub not_right : c ≢ b'l'

-- No command is for dom0 but a resize to at least 512 MB; a resize asks for some memory and a policy
-- has its bounds in order and a pause; a new guest has an id of the letters that
-- the wizard takes, an image, memory and a cpu.
abbrev pub IsGuarded : Cmd → Type 0
IsGuarded (Cmd.start handle) = is_dom0 handle ≡ false
IsGuarded (Cmd.stop handle force) = is_dom0 handle ≡ false
IsGuarded (Cmd.balloon handle target_mb) =
    (0 < target_mb) × (is_dom0 handle ≡ true → 512 ≤ target_mb)
IsGuarded (Cmd.set_policy domid min_mb max_mb cooldown_s) = (min_mb ≤ max_mb) × (1 ≤ cooldown_s)
IsGuarded (Cmd.create_instance id base memory_mb vcpus) =
    (id ≢ []) × (base ≢ []) × (512 ≤ memory_mb) × (1 ≤ vcpus) × All IsIdLetter id
IsGuarded _ = Unit

abbrev pub Sends : Option Cmd → Type 0
Sends none = Unit
Sends (some cmd) = IsGuarded cmd

pub record IsWizard (w : InstanceWizard) : Type 0 where
  pub memories : w.memory_options ≡ 512 ∷ 1024 ∷ 2048 ∷ 4096 ∷ 8192 ∷ 16384 ∷ []
  pub memory_in : w.memory_idx < 6
  pub vcpus : w.vcpu_options ≡ 1 ∷ 2 ∷ 4 ∷ 8 ∷ 16 ∷ []
  pub vcpu_in : w.vcpu_idx < 5
  pub letters : All IsIdLetter w.id_input

abbrev pub IsSane : Mode → Type 0
IsSane (confirm_kill handle) = is_dom0 handle ≡ false
IsSane (instance_wizard w) = IsWizard w
IsSane _ = Unit

abbrev pub IsHandled : Handled → Type 0
IsHandled (cmd, s) = Sends cmd × IsSane s.mode

pub validate_ok :
    (target cur cap : ℕ) (d : Bool) (t : ℕ)
    → validate_balloon_target target cur cap d ≡ ok t
    → (t ≡ target) × (0 < target) × (d ≡ true → 512 ≤ target) × (0 < cap → target ≤ cap)
unfolding validate_balloon_target
validate_ok target cur cap d t h =
    (ground arith, ground arith, λ e. ground arith, λ e. ground arith)

pub policy_enter-IsHandled :
    (now : ℕ) (p : PolicyEditor) (s : State) → IsSane s.mode → IsHandled (policy_enter now p s)
unfolding policy_enter set_toast
policy_enter-IsHandled now p s h = ground arith

balloon_checked-IsHandled :
    (now : ℕ) (handle : Text) (r : Result Text ℕ) (s : State)
    → ((t : ℕ) → r ≡ ok t → (0 < t) × (is_dom0 handle ≡ true → 512 ≤ t))
    → IsSane s.mode
    → IsHandled (balloon_checked now handle r s)
unfolding balloon_checked set_toast
balloon_checked-IsHandled now handle (ok t) s k h = (k t refl, tt)
balloon_checked-IsHandled now handle (err msg) s k h = (tt, tt)

balloon_resolved-IsHandled :
    (now : ℕ) (p : BalloonPrompt) (r : Result Text ℕ) (s : State)
    → IsSane s.mode
    → IsHandled (balloon_resolved now p r s)
unfolding balloon_resolved set_toast
balloon_resolved-IsHandled now p (err msg) s h = (tt, h)
balloon_resolved-IsHandled now p (ok t) s h =
    balloon_checked-IsHandled now p.handle _ s
      (λ t' e.
        let f = validate_ok t p.current_mb p.max_mb (is_dom0 p.handle) t' e in rw (f.0) (f.1, f.2))
      h

pub balloon_key-IsHandled :
    (now : ℕ) (k : KeyCode) (p : BalloonPrompt) (s : State)
    → IsSane s.mode
    → IsHandled (balloon_key now k p s)
unfolding balloon_key
balloon_key-IsHandled now Prompts.enter p s h =
    balloon_resolved-IsHandled now p
      (resolve_balloon_target p.entry_mode p.text_input p.options_mb p.selected_idx p.current_mb
        p.max_mb)
      s h
balloon_key-IsHandled now (Prompts.char c) p s h = ground arith
balloon_key-IsHandled now _ p s h = ground arith

pub policy_key-IsHandled :
    (now : ℕ) (k : KeyCode) (p : PolicyEditor) (s : State)
    → IsSane s.mode
    → IsHandled (policy_key now k p s)
unfolding policy_key
policy_key-IsHandled now Prompts.enter p s h = policy_enter-IsHandled now p s h
policy_key-IsHandled now _ p s h = ground arith

-- A place in the lists of the wizard holds a choice.
memory_choice : (i : ℕ) → i < 6 → 512 ≤ get_or (512 ∷ 1024 ∷ 2048 ∷ 4096 ∷ 8192 ∷ 16384 ∷ []) i 0
memory_choice i h = ground arith

vcpu_choice : (i : ℕ) → i < 5 → 1 ≤ get_or (1 ∷ 2 ∷ 4 ∷ 8 ∷ 16 ∷ []) i 0
vcpu_choice i h = ground arith

ne_of_test : (t : Text) → (t == []) ≡ false → t ≢ []
ne_of_test t h e = cc (sym h ∙ (text_beq_iff t []).1 e)

module _ (P : ℕ → Type 0) where
  All-reverse_aux : (s r : Text) → All P s → All P r → All P (reverse_aux s r)
  All-reverse_aux [] r h k = k
  All-reverse_aux (c ∷ s) r h k = All-reverse_aux s (c ∷ r) h.1 (h.0, k)

  All-trim_start : (p : ℕ → Bool) (s : Text) → All P s → All P (trim_start_matches p s)
  unfolding trim_start_matches
  All-trim_start p [] h = tt
  All-trim_start p (c ∷ s) h = if_elim (All P) (p c) (λ _. All-trim_start p s h.1) (λ _. h)

  All-take : (n : ℕ) (s : Text) → All P s → All P (take n s)
  All-take zero s h = tt
  All-take (suc n) [] h = tt
  All-take (suc n) (c ∷ s) h = (h.0, All-take n s h.1)

  All-trim : (s : Text) → All P s → All P (trim s)
  unfolding trim
  All-trim s h =
      let front = All-trim_start is_whitespace s h in
      let back = All-trim_start is_whitespace _ (All-reverse_aux _ [] front tt) in
      All-reverse_aux _ [] back tt

pub wizard_enter-IsHandled :
    (now : ℕ) (w : InstanceWizard) (s : State)
    → IsWizard w
    → IsSane s.mode
    → IsHandled (wizard_enter now w s)
unfolding wizard_enter set_toast
wizard_enter-IsHandled now w s h k =
    if_elim IsHandled (trim w.id_input == []) (λ e. (tt, k))
      (λ e.
        if_elim IsHandled (get_or w.known_bases w.base_idx [] == []) (λ f. (tt, k))
          (λ f. (
            (
              ne_of_test (trim w.id_input) e,
              ne_of_test (get_or w.known_bases w.base_idx []) f,
              subst (λ l. 512 ≤ get_or l w.memory_idx 0) (sym h.memories)
                  (memory_choice w.memory_idx h.memory_in),
              subst (λ l. 1 ≤ get_or l w.vcpu_idx 0) (sym h.vcpus)
                  (vcpu_choice w.vcpu_idx h.vcpu_in),
              All-trim IsIdLetter w.id_input h.letters,
            ),
            tt,
          )))

wizard_left-IsWizard :
    (f : WizardField) (w : InstanceWizard) → IsWizard w → IsWizard (wizard_left f w)
unfolding wizard_left
wizard_left-IsWizard id_field w h = h
wizard_left-IsWizard base_field w h = record {
  memories = h.memories;
  memory_in = h.memory_in;
  vcpus = h.vcpus;
  vcpu_in = h.vcpu_in;
  letters = h.letters;
}
wizard_left-IsWizard memory_field w h = record {
  memories = h.memories;
  memory_in = let q = h.memory_in in omega arith;
  vcpus = h.vcpus;
  vcpu_in = h.vcpu_in;
  letters = h.letters;
}
wizard_left-IsWizard vcpus_field w h = record {
  memories = h.memories;
  memory_in = h.memory_in;
  vcpus = h.vcpus;
  vcpu_in = let q = h.vcpu_in in omega arith;
  letters = h.letters;
}

raise-lt :
    {A : Type 0} (options : List A) (i n : ℕ)
    → length options ≡ n
    → i < n
    → Prompts.raise options i < n
unfolding Prompts.raise
raise-lt options i n e h = ground arith

wizard_right-IsWizard :
    (f : WizardField) (w : InstanceWizard) → IsWizard w → IsWizard (wizard_right f w)
unfolding wizard_right
wizard_right-IsWizard id_field w h = h
wizard_right-IsWizard base_field w h = record {
  memories = h.memories;
  memory_in = h.memory_in;
  vcpus = h.vcpus;
  vcpu_in = h.vcpu_in;
  letters = h.letters;
}
wizard_right-IsWizard memory_field w h = record {
  memories = h.memories;
  memory_in = raise-lt w.memory_options w.memory_idx 6 (ap length h.memories) h.memory_in;
  vcpus = h.vcpus;
  vcpu_in = h.vcpu_in;
  letters = h.letters;
}
wizard_right-IsWizard vcpus_field w h = record {
  memories = h.memories;
  memory_in = h.memory_in;
  vcpus = h.vcpus;
  vcpu_in = raise-lt w.vcpu_options w.vcpu_idx 5 (ap length h.vcpus) h.vcpu_in;
  letters = h.letters;
}

same_choices :
    {w v : InstanceWizard}
    → IsWizard w
    → v.memory_options ≡ w.memory_options
    → v.memory_idx ≡ w.memory_idx
    → v.vcpu_options ≡ w.vcpu_options
    → v.vcpu_idx ≡ w.vcpu_idx
    → All IsIdLetter v.id_input
    → IsWizard v
same_choices h a b c d l = record {
  memories = a ∙ h.memories;
  memory_in = rw b h.memory_in;
  vcpus = c ∙ h.vcpus;
  vcpu_in = rw d h.vcpu_in;
  letters = l;
}

wizard_char-IsWizard :
    (c : ℕ) (f : WizardField) (w : InstanceWizard)
    → nat_beq c b'h' ≡ false
    → nat_beq c b'l' ≡ false
    → IsWizard w
    → IsWizard (wizard_char c f w)
unfolding wizard_char
wizard_char-IsWizard c id_field w no_h no_l h =
    if_elim IsWizard (Prompts.is_id_char c)
      (λ e. same_choices h refl refl refl refl (
        All-append IsIdLetter w.id_input (c ∷ []) h.letters
          (record { allowed = e; not_left = ground arith; not_right = ground arith }, tt)))
      (λ _. h)
wizard_char-IsWizard c base_field w no_h no_l h = h
wizard_char-IsWizard c _ w no_h no_l h = h

wizard_backspace-IsWizard :
    (f : WizardField) (w : InstanceWizard) → IsWizard w → IsWizard (wizard_backspace f w)
unfolding wizard_backspace Prompts.pop
wizard_backspace-IsWizard id_field w h =
    same_choices h refl refl refl refl
      (All-take IsIdLetter (length w.id_input - 1) w.id_input h.letters)
wizard_backspace-IsWizard base_field w h = h
wizard_backspace-IsWizard _ w h = h

pub wizard_key-IsHandled :
    (now : ℕ) (k : KeyCode) (w : InstanceWizard) (s : State)
    → IsWizard w
    → IsSane s.mode
    → IsHandled (wizard_key now k w s)
unfolding wizard_key
wizard_key-IsHandled now Prompts.enter w s h m = wizard_enter-IsHandled now w s h m
wizard_key-IsHandled now Prompts.tab w s h m = (tt, same_choices h refl refl refl refl h.letters)
wizard_key-IsHandled now Prompts.back_tab w s h m =
    (tt, same_choices h refl refl refl refl h.letters)
wizard_key-IsHandled now Prompts.up w s h m = (tt, same_choices h refl refl refl refl h.letters)
wizard_key-IsHandled now Prompts.down w s h m = (tt, same_choices h refl refl refl refl h.letters)
wizard_key-IsHandled now Prompts.left w s h m = (tt, wizard_left-IsWizard w.focus w h)
wizard_key-IsHandled now Prompts.right w s h m = (tt, wizard_right-IsWizard w.focus w h)
wizard_key-IsHandled now Prompts.backspace w s h m = (tt, wizard_backspace-IsWizard w.focus w h)
wizard_key-IsHandled now (Prompts.char c) w s h m =
    if_elim IsHandled (nat_beq c b'h') (λ _. (tt, wizard_left-IsWizard w.focus w h))
      (λ no_h.
        if_elim IsHandled (nat_beq c b'l') (λ _. (tt, wizard_right-IsWizard w.focus w h))
          (λ no_l. (tt, wizard_char-IsWizard c w.focus w no_h no_l h)))
wizard_key-IsHandled now _ w s h m = (tt, m)
