-- ===== src/Cockpit/Guarded/Always.antt =====
-- Every key, and so every session, sends only the commands that the console may send.
use rotten_apple.Prelude.{
  All, Bool, List, Option, Result, Text, [], arith, err, if_elim, nat_beq, none, ok, refl, some,
  subst, sym, ℕ, ◌&&◌, ◌∙◌, ◌∷◌, ◌≡◌,
}
use rotten_apple.Bootstrapper.BootMode.{BootMode, System, LiftError}
use rotten_apple.Cockpit.Commands.{Cmd, DomainView}
use rotten_apple.Cockpit.Choices.{is_dom0}
use rotten_apple.Cockpit.State
use rotten_apple.Cockpit.State.{
  State, Mode, Msg, new, apply, move_selection, selected_domain, set_toast, push_event,
}
use rotten_apple.Cockpit.Prompts.{KeyCode, Handled}
use rotten_apple.Cockpit.Prompts
use rotten_apple.Cockpit.Keys
use rotten_apple.Cockpit.Keys.{
  KeyEvent, Outside, Console, handle_key, key_in_mode, normal_key, normal_char, start_selected,
  stop_selected, kill_selected, open_balloon, open_policy, open_wizard, attach_console,
  apply_boot_mode_toggle,
}
use rotten_apple.Cockpit.Session.{Round, run_active, before_key, press, drain, autostart, sent}
use rotten_apple.Cockpit.Guarded.{
  IsGuarded, Sends, IsSane, IsHandled, balloon_key-IsHandled, policy_key-IsHandled,
  wizard_key-IsHandled,
}

module _ (now : ℕ) (s : State) (m : IsSane s.mode) where
  start-IsHandled : (d : Option DomainView) → IsHandled (start_selected now d s)
  unfolding start_selected set_toast
  start-IsHandled none = (tt, m)
  start-IsHandled (some d) =
      if_elim IsHandled (is_dom0 d.handle) (λ _. (tt, m))
        (λ e. if_elim IsHandled _ (λ _. (tt, m)) (λ _. (e, m)))

  stop-IsHandled : (d : Option DomainView) → IsHandled (stop_selected now d s)
  unfolding stop_selected set_toast
  stop-IsHandled none = (tt, m)
  stop-IsHandled (some d) = if_elim IsHandled (is_dom0 d.handle) (λ _. (tt, m)) (λ e. (e, m))

  kill-IsHandled : (d : Option DomainView) → IsHandled (kill_selected now d s)
  unfolding kill_selected set_toast
  kill-IsHandled none = (tt, m)
  kill-IsHandled (some d) = if_elim IsHandled (is_dom0 d.handle) (λ _. (tt, m)) (λ e. (tt, e))

  open_balloon-IsHandled : (d : Option DomainView) → IsHandled (open_balloon d s)
  unfolding open_balloon
  open_balloon-IsHandled none = (tt, m)
  open_balloon-IsHandled (some d) = (tt, tt)

  open_policy-IsHandled : (d : Option DomainView) → IsHandled (open_policy now d s)
  unfolding open_policy set_toast
  open_policy-IsHandled none = (tt, m)
  open_policy-IsHandled (some d) = ground (arith, m)

  attach-IsHandled : (d : Option DomainView) → IsHandled (attach_console now d s)
  unfolding attach_console set_toast
  attach-IsHandled none = (tt, m)
  attach-IsHandled (some d) = ground (arith, m)

pub mode-move : (d : State.Delta) (s : State) → (move_selection d s).mode ≡ s.mode
unfolding move_selection
mode-move d s = ground arith

move-IsSane : (d : State.Delta) (s : State) → IsSane s.mode → IsSane (move_selection d s).mode
move-IsSane d s m = subst IsSane (sym (mode-move d s)) m

open_wizard-IsHandled : (o : Outside) (s : State) → IsHandled (open_wizard o s)
unfolding open_wizard
open_wizard-IsHandled o s = (
  tt,
  record {
    memories = refl;
    memory_in = omega arith;
    vcpus = refl;
    vcpu_in = omega arith;
    letters = tt;
  },
)

pub normal_char-IsHandled :
    (o : Outside) (c : ℕ) (s : State) → IsSane s.mode → IsHandled (normal_char o c s)
unfolding normal_char set_toast
normal_char-IsHandled o c s m =
    if_elim IsHandled (nat_beq c b'q') (λ _. (tt, m))
      (λ _.
        if_elim IsHandled (nat_beq c b'r') (λ _. (tt, m))
          (λ _.
            if_elim IsHandled (nat_beq c b'?') (λ _. (tt, tt))
              (λ _.
                if_elim IsHandled (nat_beq c b'H') (λ _. (tt, tt))
                  (λ _.
                    if_elim IsHandled (nat_beq c b'j') (λ _. (tt, move-IsSane State.down s m))
                      (λ _.
                        if_elim IsHandled (nat_beq c b'k') (λ _. (tt, move-IsSane State.up s m))
                          (λ _.
                            if_elim IsHandled (nat_beq c b's')
                              (λ _. (start-IsHandled o.now s m (selected_domain s)))
                              (λ _.
                                if_elim IsHandled (nat_beq c b'x')
                                  (λ _. (stop-IsHandled o.now s m (selected_domain s)))
                                  (λ _.
                                    if_elim IsHandled (nat_beq c b'X')
                                      (λ _. (kill-IsHandled o.now s m (selected_domain s)))
                                      (λ _.
                                        if_elim IsHandled (nat_beq c b'b')
                                          (λ _.
                                            (open_balloon-IsHandled o.now s m (selected_domain s)))
                                          (λ _.
                                            if_elim IsHandled (nat_beq c b'c') (λ _. (tt, m))
                                              (λ _.
                                                if_elim IsHandled (nat_beq c b'n')
                                                  (λ _. (open_wizard-IsHandled o s))
                                                  (λ _.
                                                    if_elim IsHandled (nat_beq c b'P')
                                                      (λ _. (tt, tt))
                                                      (λ _.
                                                        if_elim IsHandled (nat_beq c b'M')
                                                          (λ _.
                                                            (open_policy-IsHandled o.now s m
                                                            (selected_domain s)))
                                                          (λ _.
                                                            if_elim IsHandled (nat_beq c b'B')
                                                            (λ _. (tt, tt))
                                                            (λ _.
                                                            if_elim IsHandled (nat_beq c b'L')
                                                            (λ _. (tt, m))
                                                            (λ _.
                                                            if_elim IsHandled (nat_beq c b'V')
                                                            (λ _. (tt, m))
                                                            (λ _.
                                                            if_elim IsHandled (nat_beq c b't')
                                                            (λ _.
                                                            (attach-IsHandled o.now s m
                                                            (selected_domain s)))
                                                            (λ _. (tt, m)))))))))))))))))))

pub normal_key-IsHandled :
    (o : Outside) (k : KeyCode) (control : Bool) (s : State)
    → IsSane s.mode
    → IsHandled (normal_key o k control s)
unfolding normal_key
normal_key-IsHandled o (Prompts.char c) control s m =
    if_elim IsHandled (control && nat_beq c b'c') (λ _. (tt, m))
      (λ _. normal_char-IsHandled o c s m)
normal_key-IsHandled o (Prompts.fn_key n) control s m =
    if_elim IsHandled (nat_beq n 1) (λ _. (tt, tt)) (λ _. (tt, m))
normal_key-IsHandled o Prompts.down control s m = (tt, move-IsSane State.down s m)
normal_key-IsHandled o Prompts.up control s m = (tt, move-IsSane State.up s m)
normal_key-IsHandled o _ control s m = (tt, m)

-- A boot mode is switched without a prompt.
abbrev IsDone : Option Cmd × Console → Type 0
IsDone (cmd, (s, system)) = Sends cmd × IsSane s.mode

toggled-IsSane :
    (now : ℕ) (target : BootMode) (r : Result LiftError (Unit {0}) × System) (s : State)
    → IsSane s.mode
    → IsSane (Keys.toggled now target r s).0.mode
unfolding Keys.toggled set_toast push_event
toggled-IsSane now target (ok u, after) s m = m
toggled-IsSane now target (err e, after) s m = m

pub key_in_mode-IsDone :
    (o : Outside) (k : KeyEvent) (mode : Mode) (s : State) (system : System)
    → IsSane mode
    → IsSane s.mode
    → IsDone (key_in_mode o k mode (s, system))
unfolding key_in_mode apply_boot_mode_toggle
key_in_mode-IsDone o k State.help_overlay s system h m = (tt, tt)
key_in_mode-IsDone o k State.host_resources_overlay s system h m = (tt, tt)
key_in_mode-IsDone o k State.first_run_welcome s system h m = (tt, tt)
key_in_mode-IsDone o k (State.confirm_kill handle) s system h m =
    (if_elim Sends (Keys.is_yes k.code) (λ _. h) (λ _. tt), tt)
key_in_mode-IsDone o k State.confirm_promote s system h m =
    (if_elim Sends (Keys.is_yes k.code) (λ _. tt) (λ _. tt), tt)
key_in_mode-IsDone o k (State.confirm_boot_mode target) s system h m = (
  tt,
  if_elim (λ (c : Console). IsSane c.0.mode) (Keys.is_yes k.code)
      (λ _.
        toggled-IsSane o.now target (Keys.switch_to o target system)
          (Prompts.enter_mode State.normal s) tt)
      (λ _. tt),
)
key_in_mode-IsDone o k (State.balloon_prompt p) s system h m =
    balloon_key-IsHandled o.now k.code p s m
key_in_mode-IsDone o k (State.policy_editor p) s system h m =
    policy_key-IsHandled o.now k.code p s m
key_in_mode-IsDone o k (State.instance_wizard w) s system h m =
    wizard_key-IsHandled o.now k.code w s h m
key_in_mode-IsDone o k State.normal s system h m = normal_key-IsHandled o k.code k.control s m

pub handle_key-IsDone :
    (o : Outside) (k : KeyEvent) (s : State) (system : System)
    → IsSane s.mode
    → IsDone (handle_key o k (s, system))
unfolding handle_key
handle_key-IsDone o k s system m =
    if_elim IsDone (Keys.is_esc k.code) (λ _. (tt, tt))
      (λ _. key_in_mode-IsDone o k s.mode s system m m)

mode-apply : (now : ℕ) (msg : Msg) (s : State) → (apply now msg s).mode ≡ s.mode
unfolding apply push_event set_toast
mode-apply now (State.backend_ready a b c) s = refl
mode-apply now (State.backend_failed e) s = refl
mode-apply now (State.snapshot_of snap) s = refl
mode-apply now (State.event_of e) s = refl

mode-drain : (now : ℕ) (msgs : List Msg) (s : State) → (drain now msgs s).mode ≡ s.mode
unfolding drain
mode-drain now [] s = refl
mode-drain now (m ∷ ms) s = mode-drain now ms (apply now m s) ∙ mode-apply now m s

mode-autostart :
    (now : ℕ) (name : Option Text) (s : State)
    → Sends (autostart now name s).0 × ((autostart now name s).1.mode ≡ s.mode)
unfolding autostart set_toast
mode-autostart now name s = ground arith

before_key-IsSane :
    (r : Round) (s : State)
    → IsSane s.mode
    → Sends (before_key r s).0 × IsSane (before_key r s).1.mode
unfolding before_key
before_key-IsSane r s m =
    let f = mode-autostart r.outside.now r.manifest_name (drain r.outside.now r.msgs s) in
    (f.0, subst IsSane (sym (f.1 ∙ mode-drain r.outside.now r.msgs s)) m)

press-IsDone :
    (o : Outside) (key : Option KeyEvent) (s : State) (system : System)
    → IsSane s.mode
    → IsDone (press o key (s, system))
unfolding press
press-IsDone o none s system m = (tt, m)
press-IsDone o (some k) s system m = handle_key-IsDone o k s system m

All-sent :
    (cmd : Option Cmd) (cmds : List Cmd)
    → Sends cmd
    → All IsGuarded cmds
    → All IsGuarded (sent cmd cmds)
All-sent none cmds h k = k
All-sent (some cmd) cmds h k = (h, k)

run_active-IsGuarded :
    (rs : List Round) (s : State) (system : System)
    → IsSane s.mode
    → All IsGuarded (run_active rs (s, system)).0
unfolding run_active
run_active-IsGuarded [] s system m = tt
run_active-IsGuarded (r ∷ rs) s system m =
    let f = before_key-IsSane r s m in
    let g = press-IsDone r.outside r.key (before_key r s).1 system f.1 in
    if_elim (λ (x : List Cmd × Console). All IsGuarded x.0) (before_key r s).1.should_quit
      (λ _. All-sent (before_key r s).0 _ f.0 (tt, tt))
      (λ _. All-sent (before_key r s).0 _ f.0 (
        All-sent (press r.outside r.key ((before_key r s).1, system)).0 _ g.0 (
          run_active-IsGuarded rs (press r.outside r.key ((before_key r s).1, system)).1.0
            (press r.outside r.key ((before_key r s).1, system)).1.1 g.1)))

-- Whatever the worker reports and whichever keys are pressed, a session of the console never starts,
-- stops or destroys dom0, never asks for a resize to nothing or of dom0 to less than 512 MB, sets
-- only policies whose bounds are in order and whose cooldown is at least a second, and creates only
-- instances with a base image, at least 512 MB, at least one cpu, and an id that is not empty and
-- whose characters are those that the wizard allows without `h` and `l`, which it takes as arrows.
pub run_active-new :
    (now : ℕ) (manifest_path : Text) (boot_mode : BootMode) (welcome_needed : Bool)
    (cmdline : List Text) (autostart_delay : Option ℕ) (rounds : List Round) (system : System)
    → All IsGuarded
        (run_active rounds
          (new now manifest_path boot_mode welcome_needed cmdline autostart_delay, system)).0
unfolding new
run_active-new now manifest_path boot_mode welcome_needed cmdline autostart_delay rounds system =
    run_active-IsGuarded rounds _ system (if_elim IsSane welcome_needed (λ _. tt) (λ _. tt))
