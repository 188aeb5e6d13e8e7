-- ===== src/Bootstrapper/BootMode.antt =====
-- crates/bootstrapper/src/boot_mode.rs: the display manager is masked and an override of getty@tty1
-- starts the cockpit, or both are undone. The state is what systemd and the disk hold; what systemctl
-- and the file system answer comes from outside. The lines that are printed are left out.
pub mod Undo
use mathlib.Core.List.{reverse}
use rotten_apple.Prelude.{
  Bool, List, Option, Result, Text, [], codes, decimal, err, false, if◌then◌else◌, is_some, leb,
  ltb, nat_beq, nat_eq, none, ok, some, text_eq, true, ℕ, ◌%◌, ◌*◌, ◌++◌, ◌+◌, ◌-◌, ◌/◌, ◌==◌, ◌>>◌,
  ◌^◌, ◌||◌, ◌∷◌,
}
use rotten_apple.Governor.{strip_prefix, lines, nth}
use rotten_apple.Instances.Clock.{Civil, padded}
use rotten_apple.Instances.Disk.{Write, done, failed}

pub data BootMode : Type 0 where
  desktop cockpit : BootMode

pub data LiftError : Type 0 where
  pre_flight : Text → LiftError
  command : (step detail : Text) → LiftError
  verify : Text → LiftError

pub record System : Type 0 where
  pub masked : Text → Bool
  pub getty_override : Option Text
  pub state_file : Option Text

-- `cat` is `systemctl cat` of a unit while some are masked: `none` when it cannot be run.
pub record Host : Type 0 where
  pub secs : ℕ
  pub cat : (Text → Bool) → Text → Option Bool
  pub mask_error : Option Text
  pub unmasks : Text → Bool
  pub make_override_dir : Option Text
  pub write_override : Write
  pub make_state_dir : Option Text
  pub write_state : Write
  pub remove_override_error : Option Text
  pub state_removed : Bool
  pub reload_error : Option Text

abbrev pub known_dms : List Text
known_dms =
    codes "gdm3.service"
    ∷ codes "gdm.service"
    ∷ codes "lightdm.service"
    ∷ codes "sddm.service"
    ∷ codes "lxdm.service"
    ∷ codes "display-manager.service"
    ∷ []

abbrev pub default_console_font : Text
default_console_font = codes "Uni3-TerminusBold32x16"

abbrev pub default_console_font_1080p : Text
default_console_font_1080p = codes "Uni3-TerminusBold24x12"

-- `default_console_font_for_host`, by the size of the frame buffer.
unfoldable pub default_console_font_for : Option (ℕ × ℕ) → Text
default_console_font_for none = default_console_font
default_console_font_for (some (w, h)) =
    if leb w 1920 || leb h 1080 then default_console_font_1080p else default_console_font

unfoldable pub render_override_body : Text → Text
render_override_body font =
    let setfont_line =
      if font == [] || font == codes "none"
      then []
      else codes "ExecStartPre=-/usr/bin/setfont " ++ font ++ codes "\n" in
    codes "[Unit]\nAfter=rotten-apple-orchestratord.service network-online.target\n"
    ++ codes
        "Wants=rotten-apple-orchestratord.service\nStartLimitBurst=3\nStartLimitIntervalSec=60\n\n[Service]\n"
    ++ setfont_line
    ++ codes
        "ExecStart=\nExecStart=-/usr/local/bin/rotten-apple cockpit\nStandardInput=tty\nStandardOutput=tty\n"
    ++ codes
        "TTYPath=/dev/tty1\nTTYReset=yes\nTTYVHangup=yes\nTTYVTDisallocate=yes\nRestart=on-failure\nRestartSec=5\n"

-- Days since 1970-01-01 as a date; see `civil_from_days` of crates/instances for the branch before
-- the era.
unfoldable pub days_to_civil : ℕ → Civil
days_to_civil days =
    let z = days + 719468 in
    let era = z / 146097 in
    let doe = z - era * 146097 in
    let yoe = (doe - doe / 1460 + doe / 36524 - doe / 146096) / 365 in
    let y = yoe + era * 400 in
    let doy = doe - (365 * yoe + yoe / 4 - yoe / 100) in
    let mp = (5 * doy + 2) / 153 in
    let m = if ltb mp 10 then mp + 3 else mp - 9 in
    record {
      year = (if leb m 2 then y + 1 else y) % 2 ^ 32;
      month = m;
      day = doy - (153 * mp + 2) / 5 + 1;
    }

unfoldable pub format_unix_seconds : ℕ → Text
unfolding days_to_civil decimal
format_unix_seconds secs =
    let date = days_to_civil (secs / 86400) in
    padded 4 date.year
    ++ (b'-' ∷ padded 2 date.month)
    ++ (b'-' ∷ padded 2 date.day)
    ++ (b'T' ∷ padded 2 (secs / 3600 % 24))
    ++ (b':' ∷ padded 2 (secs / 60 % 60))
    ++ (b':' ∷ padded 2 (secs % 60))
    ++ (b'Z' ∷ [])

-- The units are tried in order, until one is found or systemctl cannot be run.
unfoldable pub detect_in : Host → System → List Text → Option Text
detect_in host s [] = none
detect_in host s (name ∷ names) =
    let later = detect_in host s names in
    elim (host.cat s.masked name) [ none ↦ none | some found ↦ if found then some name else later ]

unfoldable pub detect_display_manager : Host → System → Option Text
unfolding detect_in
detect_display_manager host s = detect_in host s known_dms

abbrev set_masked : Text → Bool → System → System
set_masked name b s = record s { masked = λ q. if name == q then b else s.masked q }

-- A run that changes the system and may stop with an error.
abbrev pub Run : Type 0 → Type 0
Run A = System → Result LiftError A × System

unfoldable pub mask_display_manager : Host → Bool → Run (Option Text)
unfolding detect_display_manager
mask_display_manager host dry_run s = elim (detect_display_manager host s) [
  | none ↦ (ok none, s)
  | some name ↦ elim dry_run [
    | true ↦ (ok (some name), s)
    | false ↦ elim host.mask_error [
      | some e ↦ (err (command (codes "boot-mode mask DM") e), s)
      | none ↦ (ok (some name), set_masked name true s)
    ]
  ]
]

-- Best effort.
unfoldable pub unmask_display_manager : Host → Text → Bool → System → System
unmask_display_manager host name true s = s
unmask_display_manager host name false s = if host.unmasks name then set_masked name false s else s

abbrev written : Write → (Option Text → System → System) → (step path text : Text) → Run (Unit {0})
written done place step path text s = (ok tt, place (some text) s)
written (failed e left) place step path text s =
    (err (command step (codes "write " ++ path ++ codes ": " ++ e)), place left s)

abbrev make_dir : Option Text → (step dir : Text) → Result LiftError (Unit {0})
make_dir none step dir = ok tt
make_dir (some e) step dir = err (command step (codes "mkdir " ++ dir ++ codes ": " ++ e))

abbrev pub override_path : Text
override_path = codes "/etc/systemd/system/getty@tty1.service.d/00-rotten-apple-cockpit.conf"

abbrev pub state_path : Text
state_path = codes "/var/lib/rotten-apple/boot-mode-state.toml"

abbrev set_override : Option Text → System → System
set_override body s = record s { getty_override = body }

abbrev set_state : Option Text → System → System
set_state text s = record s { state_file = text }

unfoldable pub write_getty_override_with_font : Host → Bool → Text → Run (Unit {0})
unfolding render_override_body
write_getty_override_with_font host true font s = (ok tt, s)
write_getty_override_with_font host false font s =
    elim (make_dir host.make_override_dir (codes "boot-mode getty override")
      (codes "/etc/systemd/system/getty@tty1.service.d")) [
        | err e ↦ (err e, s)
        | ok u ↦
            written host.write_override set_override (codes "boot-mode getty override")
              override_path (render_override_body font) s
      ]

unfoldable pub state_text : Text → ℕ → Text
unfolding format_unix_seconds
state_text masked_name secs =
    codes "masked_display_manager = \""
    ++ (masked_name ++ (codes "\"\nenabled_at = \"" ++ (format_unix_seconds secs ++ codes "\"\n")))

unfoldable pub write_state_file : Host → Text → Run (Unit {0})
unfolding state_text
write_state_file host name s =
    elim (make_dir host.make_state_dir (codes "boot-mode state file")
      (codes "/var/lib/rotten-apple")) [
        | err e ↦ (err e, s)
        | ok u ↦
            written host.write_state set_state (codes "boot-mode state file") state_path
              (state_text name host.secs) s
      ]

unfoldable pub daemon_reload : Host → Bool → Run (Unit {0})
daemon_reload host true s = (ok tt, s)
daemon_reload host false s = elim host.reload_error [
  | none ↦ (ok tt, s)
  | some e ↦ (err (command (codes "boot-mode daemon-reload") e), s)
]

-- `?` between two runs.
infixl 5 ◌>>=◌
abbrev pub ◌>>=◌ : {A B : Type 0} → Run A → (A → Run B) → Run B
◌>>=◌ first next s =
    let (r, after) = first s in elim r [ ok a ↦ next a after | err e ↦ (err e, after) ]

record_masked : Host → Bool → Option Text → Run (Unit {0})
unfolding write_state_file
record_masked host true masked s = (ok tt, s)
record_masked host false none s = (ok tt, s)
record_masked host false (some name) s = write_state_file host name s

unfoldable pub enable_cockpit_boot_with_font : Host → Bool → Text → Run (Unit {0})
unfolding mask_display_manager write_getty_override_with_font record_masked daemon_reload
enable_cockpit_boot_with_font host dry_run font = do
  masked ← mask_display_manager host dry_run
  _ ← write_getty_override_with_font host dry_run font
  _ ← record_masked host dry_run masked
  daemon_reload host dry_run

abbrev onto : ℕ → List Text → List Text
onto c [] = (c ∷ []) ∷ []
onto c (p ∷ ps) = (c ∷ p) ∷ ps

-- `split('"')`.
unfoldable pub split_quotes : Text → List Text
split_quotes [] = [] ∷ []
split_quotes (c ∷ s) =
    let parts = split_quotes s in if nat_beq c b'"' then [] ∷ parts else onto c parts

find_line : Text → List Text → Option Text
unfolding strip_prefix
find_line key [] = none
find_line key (l ∷ ls) =
    let later = find_line key ls in if is_some (strip_prefix key l) then some l else later

non_empty : Option Text → Option Text
non_empty none = none
non_empty (some []) = none
non_empty (some (c ∷ s)) = some (c ∷ s)

unfoldable pub read_state_file : Option Text → Option Text
unfolding find_line non_empty split_quotes lines
read_state_file none = none
read_state_file (some content) = elim (find_line (codes "masked_display_manager") (lines content)) [
  | none ↦ none
  | some line ↦ non_empty (nth 1 (split_quotes line))
]

unfoldable pub unmask_all : Host → Bool → List Text → System → System
unfolding unmask_display_manager
unmask_all host dry_run [] s = s
unmask_all host dry_run (n ∷ ns) s =
    unmask_all host dry_run ns (unmask_display_manager host n dry_run s)

-- A file that is not there is as good as removed.
unfoldable pub remove_getty_override : Host → Bool → Run (Unit {0})
remove_getty_override host true s = (ok tt, s)
remove_getty_override host false s = elim host.remove_override_error [
  | some e ↦ (
    err (
        command (codes "boot-mode getty override")
          (codes "remove " ++ override_path ++ codes ": " ++ e)),
    s,
  )
  | none ↦ (ok tt, set_override none s)
]

drop_state : Host → Bool → System → System
drop_state host true s = s
drop_state host false s = if host.state_removed then set_state none s else s

to_unmask : System → List Text
unfolding read_state_file
to_unmask s = elim (read_state_file s.state_file) [ some name ↦ name ∷ [] | none ↦ known_dms ]

unfoldable pub disable_cockpit_boot : Host → Bool → Run (Unit {0})
unfolding unmask_all remove_getty_override drop_state to_unmask daemon_reload
disable_cockpit_boot host dry_run s =
    (do
      _ ← remove_getty_override host dry_run
      λ s. daemon_reload host dry_run (drop_state host dry_run s))
      (unmask_all host dry_run (to_unmask s) s)

unfoldable pub current_boot_mode : System → BootMode
current_boot_mode s = if is_some s.getty_override then cockpit else desktop

-- `refresh_cockpit_boot_override_if_present`, with the font for the host.
unfoldable pub refresh_cockpit_boot_override_if_present : Host → (font : Text) → Bool → Run Bool
unfolding current_boot_mode write_getty_override_with_font
refresh_cockpit_boot_override_if_present host font dry_run s = elim (current_boot_mode s) [
  | desktop ↦ (ok false, s)
  | cockpit ↦ (do _ ← write_getty_override_with_font host dry_run font; λ s. (ok true, s)) s
]
