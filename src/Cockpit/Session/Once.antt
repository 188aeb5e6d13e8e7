-- ===== src/Cockpit/Session/Once.antt =====
-- The guest of the manifest is started at most once.
use rotten_apple.Prelude.{
  All, List, Option, Text, [], ap, false, if_elim, inl, inr, is_some, leb, none, refl, some, subst,
  sym, ℕ, ◌∙◌, ◌∷◌, ◌≡◌, ◌⊎◌,
}
use rotten_apple.Bootstrapper.BootMode.{System}
use rotten_apple.Cockpit.Commands.{Cmd, create_from_manifest}
use rotten_apple.Cockpit.State
use rotten_apple.Cockpit.State.{State, Msg, apply, set_toast, push_event}
use rotten_apple.Cockpit.Keys
use rotten_apple.Cockpit.Session.{
  Round, run_active, before_key, press, drain, armed, autostart, fire, already_running, sent,
}

-- What a message leaves alone.
record Keeps (s t : State) : Type 0 where
  deadline : t.autostart_deadline ≡ s.autostart_deadline
  path : t.manifest_path ≡ s.manifest_path
  quits : t.should_quit ≡ s.should_quit

Keeps-apply : (now : ℕ) (m : Msg) (s : State) → Keeps s (apply now m s)
unfolding apply push_event set_toast
Keeps-apply now (State.backend_ready a b c) s = record {
  deadline = refl;
  path = refl;
  quits = refl;
}
Keeps-apply now (State.backend_failed e) s = record { deadline = refl; path = refl; quits = refl }
Keeps-apply now (State.snapshot_of snap) s = record { deadline = refl; path = refl; quits = refl }
Keeps-apply now (State.event_of e) s = record { deadline = refl; path = refl; quits = refl }

Keeps-drain : (now : ℕ) (ms : List Msg) (s : State) → Keeps s (drain now ms s)
unfolding drain
Keeps-drain now [] s = record { deadline = refl; path = refl; quits = refl }
Keeps-drain now (m ∷ ms) s =
    let a = Keeps-apply now m s in
    let b = Keeps-drain now ms (apply now m s) in
    record { deadline = b.deadline ∙ a.deadline; path = b.path ∙ a.path; quits = b.quits ∙ a.quits }

-- Either nothing is sent, or the guest is and the deadline is gone.
abbrev OneShot : (path : Text) → Option Cmd × State → Type 0
OneShot path (none, s) = Unit
OneShot path (some cmd, s) = (cmd ≡ create_from_manifest path) × (s.autostart_deadline ≡ none)

-- What an attempt leaves alone.
abbrev Stays : State → Option Cmd × State → Type 0
Stays s (cmd, t) = (t.manifest_path ≡ s.manifest_path) × (t.should_quit ≡ s.should_quit)

fire_one :
    (now : ℕ) (name : Option Text) (s : State)
    → OneShot s.manifest_path (fire now name s) × Stays s (fire now name s)
unfolding fire set_toast
fire_one now name s =
    if_elim (λ r. OneShot s.manifest_path r × Stays s r) (is_some s.backend_name)
      (λ _.
        if_elim (λ r. OneShot s.manifest_path r × Stays s r) (already_running name s)
          (λ _. (tt, (refl, refl))) (λ _. ((refl, refl), (refl, refl))))
      (λ _. (tt, (refl, refl)))

armed_one :
    (deadline : Option ℕ) (now : ℕ) (name : Option Text) (s : State)
    → OneShot s.manifest_path (armed deadline now name s) × Stays s (armed deadline now name s)
unfolding armed
armed_one none now name s = (tt, (refl, refl))
armed_one (some d) now name s =
    if_elim (λ r. OneShot s.manifest_path r × Stays s r) (leb d now) (λ _. fire_one now name s)
      (λ _. (tt, (refl, refl)))

-- A run without keys from a state that is not armed sends nothing.
abbrev NoKeys : List Round → Type 0
NoKeys rs = All (λ (r : Round). r.key ≡ none) rs

press-none : (r : Round) (c : Keys.Console) → r.key ≡ none → press r.outside r.key c ≡ (none, c)
unfolding press
press-none r c e = ap (λ k. press r.outside k c) e

-- The rest of a run, after a round without a key.
run_lem :
    (r : Round) (rs : List Round) (s : State) (system : System)
    → r.key ≡ none
    → (before_key r s).1.should_quit ≡ false
    → (run_active (r ∷ rs) (s, system)).0
      ≡ sent (before_key r s).0 (run_active rs ((before_key r s).1, system)).0
unfolding run_active
run_lem r rs s system e q = rw (q, press-none r ((before_key r s).1, system) e)

before_one :
    (r : Round) (s : State) → OneShot s.manifest_path (before_key r s) × Stays s (before_key r s)
unfolding before_key autostart
before_one r s =
    let t = drain r.outside.now r.msgs s in
    let k = Keeps-drain r.outside.now r.msgs s in
    let o = armed_one t.autostart_deadline r.outside.now r.manifest_name t in
    (subst (λ p. OneShot p (before_key r s)) k.path o.0, (o.1.0 ∙ k.path, o.1.1 ∙ k.quits))

before_disarmed :
    (r : Round) (s : State)
    → s.autostart_deadline ≡ none
    → ((before_key r s).0 ≡ none) × ((before_key r s).1.autostart_deadline ≡ none)
unfolding before_key autostart
before_disarmed r s e =
    let t = drain r.outside.now r.msgs s in
    let k : t.autostart_deadline ≡ none = (Keeps-drain r.outside.now r.msgs s).deadline ∙ e in
    let a : armed t.autostart_deadline r.outside.now r.manifest_name t ≡ (none, t) =
      ap (λ d. armed d r.outside.now r.manifest_name t) k in
    (ap (λ x. x.0) a, ap (λ (x : Option Cmd × State). x.1.autostart_deadline) a ∙ k)

disarmed_silent :
    (rs : List Round) (s : State) (system : System)
    → NoKeys rs
    → s.autostart_deadline ≡ none
    → s.should_quit ≡ false
    → (run_active rs (s, system)).0 ≡ []
unfolding run_active
disarmed_silent [] s system h e q = refl
disarmed_silent (r ∷ rs) s system h e q =
    let d = before_disarmed r s e in
    let o = before_one r s in
    run_lem r rs s system h.0 (o.1.1 ∙ q)
    ∙ ap (λ c. sent c (run_active rs ((before_key r s).1, system)).0) d.0
    ∙ disarmed_silent rs (before_key r s).1 system h.1 d.1 (o.1.1 ∙ q)

-- Where the round sends something the rest is silent.
after_round :
    (x : Option Cmd × State) (path : Text) (rest : List Cmd)
    → OneShot path x
    → (x.1.autostart_deadline ≡ none → rest ≡ [])
    → (rest ≡ []) ⊎ (rest ≡ create_from_manifest path ∷ [])
    → (sent x.0 rest ≡ []) ⊎ (sent x.0 rest ≡ create_from_manifest path ∷ [])
after_round (none, s) path rest o silent h = h
after_round (some cmd, s) path rest o silent h =
    inr (let e = silent o.1 in let f = o.0 in rw (e, f))

-- The guest of the manifest is started by itself at most once: however long a session runs without a
-- key, and whatever the worker reports, nothing is sent but one command to create the guest of the
-- manifest; and nothing at all if no start was due from the beginning.
pub run_active_once :
    (rs : List Round) (s : State) (system : System)
    → NoKeys rs
    → s.should_quit ≡ false
    → (((run_active rs (s, system)).0 ≡ [])
        ⊎ ((run_active rs (s, system)).0 ≡ create_from_manifest s.manifest_path ∷ []))
      × (s.autostart_deadline ≡ none → (run_active rs (s, system)).0 ≡ [])
unfolding run_active
run_active_once [] s system h q = (inl refl, λ _. refl)
run_active_once (r ∷ rs) s system h q =
    let o = before_one r s in
    let s1 = (before_key r s).1 in
    let ih = run_active_once rs s1 system h.1 (o.1.1 ∙ q) in
    (
      subst (λ l. (l ≡ []) ⊎ (l ≡ create_from_manifest s.manifest_path ∷ []))
          (sym (run_lem r rs s system h.0 (o.1.1 ∙ q)))
          (after_round (before_key r s) s.manifest_path (run_active rs (s1, system)).0 o.0 ih.1 (
            subst
              (λ p.
                ((run_active rs (s1, system)).0 ≡ [])
                ⊎ ((run_active rs (s1, system)).0 ≡ create_from_manifest p ∷ []))
              o.1.0 ih.0)),
      λ e. disarmed_silent (r ∷ rs) s system h e q,
    )
