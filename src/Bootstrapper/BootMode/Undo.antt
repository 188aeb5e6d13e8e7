-- ===== src/Bootstrapper/BootMode/Undo.antt =====
-- What a change of the boot mode leaves behind, and how it is undone.
use rotten_apple.Prelude.{
  Bool, In, List, Result, Text, [], ap, arith, err, false, if◌then◌else◌, inl, inr, nat_eq, none,
  ok, refl, some, subst, sym, text_beq, text_eq, true, ℕ, ◌%◌, ◌++◌, ◌+◌, ◌/◌, ◌==◌, ◌^◌, ◌↔◌, ◌∙◌,
  ◌∷◌, ◌≡◌,
}
use rotten_apple.Governor.{lines, strip_prefix}
use rotten_apple.Instances.Clock.{Civil, civil_from_days, format_unix_utc}
use rotten_apple.Instances.Disk.{done}
use rotten_apple.Bootstrapper.BootMode.{
  ◌>>=◌, System, Host, known_dms, days_to_civil, format_unix_seconds, detect_in,
  detect_display_manager, mask_display_manager, write_getty_override_with_font, state_text,
  write_state_file, daemon_reload, enable_cockpit_boot_with_font, split_quotes, read_state_file,
  record_masked, render_override_body, padded, drop_state, Run, remove_getty_override,
  unmask_display_manager, disable_cockpit_boot, LiftError, current_boot_mode, to_unmask, cockpit,
  unmask_all, desktop,
}

-- The name that is recorded is the name that is read back.
read_state_file-state_text :
    (name : Text) (secs : ℕ)
    → In name known_dms
    → read_state_file (some (state_text name secs)) ≡ some name
unfolding read_state_file state_text lines strip_prefix split_quotes
read_state_file-state_text name secs (inl e) =
    subst (λ n. read_state_file (some (state_text n secs)) ≡ some n) (sym e) refl
read_state_file-state_text name secs (inr (inl e)) =
    subst (λ n. read_state_file (some (state_text n secs)) ≡ some n) (sym e) refl
read_state_file-state_text name secs (inr (inr (inl e))) =
    subst (λ n. read_state_file (some (state_text n secs)) ≡ some n) (sym e) refl
read_state_file-state_text name secs (inr (inr (inr (inl e)))) =
    subst (λ n. read_state_file (some (state_text n secs)) ≡ some n) (sym e) refl
read_state_file-state_text name secs (inr (inr (inr (inr (inl e))))) =
    subst (λ n. read_state_file (some (state_text n secs)) ≡ some n) (sym e) refl
read_state_file-state_text name secs (inr (inr (inr (inr (inr (inl e)))))) =
    subst (λ n. read_state_file (some (state_text n secs)) ≡ some n) (sym e) refl
read_state_file-state_text name secs (inr (inr (inr (inr (inr (inr e)))))) = elim e [ ]

detect_in-known :
    (host : Host) (s : System) (names : List Text) (name : Text)
    → detect_in host s names ≡ some name
    → In name names
unfolding detect_in
detect_in-known host s [] name h = absurd cc
detect_in-known host s (n ∷ ns) name h = ground (arith, detect_in-known host s ns name)

year_of_month : (b : Bool) (y : ℕ) → (if b then y + 1 else y) ≡ y + (if b then 1 else 0)
year_of_month b y = ground arith

days_to_civil-eq : (days : ℕ) → days_to_civil days ≡ civil_from_days days
unfolding days_to_civil civil_from_days
days_to_civil-eq days =
    ap (λ y. record (civil_from_days days) { year = y % 2 ^ 32 }) (year_of_month _ _)

printed : (date : Civil) → (h m s : ℕ) → Text
printed date h m s =
    padded 4 date.year
    ++ (b'-' ∷ padded 2 date.month)
    ++ (b'-' ∷ padded 2 date.day)
    ++ (b'T' ∷ padded 2 h)
    ++ (b':' ∷ padded 2 m)
    ++ (b':' ∷ padded 2 s)
    ++ (b'Z' ∷ [])

printed-eq :
    (secs : ℕ)
    → (format_unix_seconds secs
        ≡ printed (days_to_civil (secs / 86400)) (secs / 3600 % 24) (secs / 60 % 60) (secs % 60))
      × (format_unix_utc secs
          ≡ printed
              (civil_from_days (secs / 86400))
              (secs % 86400 / 3600)
              (secs % 86400 / 60 % 60)
              (secs % 86400 % 60))
unfolding format_unix_seconds format_unix_utc printed
printed-eq secs = (refl, refl)

-- The two time stamps of the program are the same text for every second.
pub format_unix_seconds-eq : (secs : ℕ) → format_unix_seconds secs ≡ format_unix_utc secs
format_unix_seconds-eq secs =
    let (left, right) = printed-eq secs in
    left
    ∙ ap (λ d. printed d (secs / 3600 % 24) (secs / 60 % 60) (secs % 60))
        (days_to_civil-eq (secs / 86400))
    ∙ ap (λ h. printed (civil_from_days (secs / 86400)) h (secs / 60 % 60) (secs % 60))
        (omega arith)
    ∙ ap (λ m. printed (civil_from_days (secs / 86400)) (secs % 86400 / 3600) m (secs % 60))
        (omega arith)
    ∙ ap
        (λ s.
          printed (civil_from_days (secs / 86400)) (secs % 86400 / 3600) (secs % 86400 / 60 % 60) s)
        (omega arith)
    ∙ sym right

-- A host on which every call succeeds.
pub record IsWorking (host : Host) : Type 0 where
  pub mask : host.mask_error ≡ none
  pub override_dir : host.make_override_dir ≡ none
  pub override_written : host.write_override ≡ done
  pub state_dir : host.make_state_dir ≡ none
  pub state_written : host.write_state ≡ done
  pub unmask : (name : Text) → host.unmasks name ≡ true
  pub override_removed : host.remove_override_error ≡ none
  pub state_gone : host.state_removed ≡ true
  pub reload : host.reload_error ≡ none

-- A run after one that succeeded.
bind-ok :
    {A B : Type 0} (first : Run A) (next : A → Run B) (s after : System) (a : A)
    → first s ≡ (ok a, after)
    → (first >>= next) s ≡ next a after
bind-ok {A} {B} first next s after a e = ap (λ p. then_next p) e
  where
    then_next : Result LiftError A × System → Result LiftError B × System
    then_next (r, t) = elim r [ ok a ↦ next a t | err e ↦ (err e, t) ]

module _ (host : Host) (w : IsWorking host) (s : System) where
  mask_computed :
      (name : Text)
      → detect_display_manager host s ≡ some name
      → mask_display_manager host false s
        ≡ (ok (some name), record s { masked = λ q. if name == q then true else s.masked q })
  unfolding mask_display_manager
  mask_computed name found = rw (found, mask_display_manager) (rw w.mask refl)

  override_computed :
      (font : Text)
      → write_getty_override_with_font host false font s
        ≡ (ok tt, record s { getty_override = some (render_override_body font) })
  unfolding write_getty_override_with_font
  override_computed font =
      rw (w.override_dir, write_getty_override_with_font) (rw w.override_written refl)

  state_computed :
      (name : Text)
      → record_masked host false (some name) s
        ≡ (ok tt, record s { state_file = some (state_text name host.secs) })
  unfolding record_masked write_state_file
  state_computed name = rw (w.state_dir, write_state_file, record_masked) (rw w.state_written refl)

  reload_computed : daemon_reload host false s ≡ (ok tt, s)
  unfolding daemon_reload
  reload_computed = rw (w.reload, daemon_reload) refl

  removed_computed :
      remove_getty_override host false s ≡ (ok tt, record s { getty_override = none })
  unfolding remove_getty_override
  removed_computed = rw (w.override_removed, remove_getty_override) refl

  unmask_computed :
      (name : Text)
      → unmask_display_manager host name false s
        ≡ record s { masked = λ q. if name == q then false else s.masked q }
  unfolding unmask_display_manager
  unmask_computed name = rw (w.unmask name, unmask_display_manager) refl

  drop_computed : drop_state host false s ≡ record s { state_file = none }
  unfolding drop_state
  drop_computed = rw (w.state_gone, drop_state) refl

module _ (host : Host) (w : IsWorking host) (font : Text) (name : Text) where
  -- A system that starts the cockpit after `name` was masked.
  enabled : System → System
  enabled s = record {
    masked = λ q. if name == q then true else s.masked q;
    getty_override = some (render_override_body font);
    state_file = some (state_text name host.secs);
  }

  enable_computed :
      (s : System)
      → detect_display_manager host s ≡ some name
      → enable_cockpit_boot_with_font host false font s ≡ (ok tt, enabled s)
  unfolding enable_cockpit_boot_with_font enabled
  enable_computed s found =
      let on = enabled s in
      let masked : System = record s { masked = on.masked } in
      let overridden : System = record masked { getty_override = on.getty_override } in
      let reload : Unit {0} → Run (Unit {0}) = λ u. daemon_reload host false in
      let keep : Unit {0} → Run (Unit {0}) = λ u. record_masked host false (some name) >>= reload in
      bind-ok (mask_display_manager host false)
        (λ found. write_getty_override_with_font host false font >>= λ u.
          record_masked host false found >>= reload)
        s masked (some name) (mask_computed host w s name found)
      ∙ bind-ok (write_getty_override_with_font host false font) keep masked overridden tt
          (override_computed host w masked font)
      ∙ bind-ok (record_masked host false (some name)) reload overridden on tt
          (state_computed host w overridden name)
      ∙ reload_computed host w on

  disable_computed :
      (s : System)
      → In name known_dms
      → disable_cockpit_boot host false (enabled s) ≡ (
        ok tt,
        record {
          masked = λ q. if name == q then false else s.masked q;
          getty_override = none;
          state_file = none;
        },
      )
  unfolding disable_cockpit_boot enabled
  disable_computed s known =
      let on = enabled s in
      let off : System = record on { masked = λ q. if name == q then false else on.masked q } in
      let reload : Unit {0} → Run (Unit {0}) =
        λ u t. daemon_reload host false (drop_state host false t) in
      let bare : System = record off { getty_override = none } in
      ap (λ t. (remove_getty_override host false >>= reload) t) (unmasked on)
      ∙ bind-ok (remove_getty_override host false) reload off bare tt (removed_computed host w off)
      ∙ ap (λ t. daemon_reload host false t) (drop_computed host w bare)
      ∙ reload_computed host w (record bare { state_file = none })
      ∙ ap (λ m. (ok tt, record { masked = m; getty_override = none; state_file = none }))
          (λ i q. twice (text_beq name q) (s.masked q) i)
    where
      twice : (b c : Bool) → (if b then false else if b then true else c) ≡ (if b then false else c)
      twice b c = ground arith

      recorded : to_unmask (enabled s) ≡ name ∷ []
      recorded = rw (read_state_file-state_text name host.secs known, to_unmask) refl

      unmasked :
          (on : System)
          → unmask_all host false (to_unmask (enabled s)) on
            ≡ record on { masked = λ q. if name == q then false else on.masked q }
      unmasked on = rw recorded (unmask_computed host w on name)

  -- On a host where every call succeeds and one of the known display managers is found, switching to
  -- the cockpit succeeds and shows it, and switching back succeeds, shows the desktop, and leaves
  -- exactly the units masked that were masked before, the display manager aside, and no file.
  pub disable-enable :
      (s : System)
      → detect_display_manager host s ≡ some name
      → let on = enable_cockpit_boot_with_font host false font s in
        let off = disable_cockpit_boot host false on.1 in
        (on.0 ≡ ok tt)
        × (current_boot_mode on.1 ≡ cockpit)
        × (off.0 ≡ ok tt)
        × (current_boot_mode off.1 ≡ desktop)
        × (off.1 ≡ record {
          masked = λ q. if name == q then false else s.masked q;
          getty_override = none;
          state_file = none;
        })
  unfolding current_boot_mode detect_display_manager enabled
  disable-enable s found =
      let known = detect_in-known host s known_dms name found in
      let e = enable_computed s found in
      rw e (rw (disable_computed s known) (refl, refl, refl, refl, refl))

-- Switching back fails only when the override cannot be removed or systemd cannot reload; what is
-- recorded about display managers never makes it fail.
pub disable_cockpit_boot_iff :
    (host : Host) (s : System)
    → ((disable_cockpit_boot host false s).0 ≡ ok tt)
      ↔ ((host.remove_override_error ≡ none) × (host.reload_error ≡ none))
unfolding disable_cockpit_boot remove_getty_override daemon_reload drop_state
disable_cockpit_boot_iff host s = ground arith
