-- ===== src/Tests/OfCockpit.antt =====
-- The theorems on the console at a host with dom0 and one guest.
use rotten_apple.Prelude.{
  All, In, List, Text, [], codes, contains, err, false, nat_eq, none, ok, refl, some, text_beq,
  text_eq, true, ℕ, ◌↔◌, ◌∷◌, ◌≡◌, ◌≤◌, ◌⊎◌,
}
use rotten_apple.Backend.{running}
use rotten_apple.Bootstrapper.BootMode.{desktop}
use rotten_apple.Cockpit.Commands
use rotten_apple.Cockpit.Commands.{DomainView, stop, create_from_manifest}
use rotten_apple.Cockpit.Choices.{balloon_options_mb, validate_balloon_target, cap_of, floor_of}
use rotten_apple.Cockpit.Choices.Sorted.{IsAscending}
use rotten_apple.Cockpit.Choices.Offered.{balloon_options_mb-validate}
use rotten_apple.Cockpit.State
use rotten_apple.Cockpit.State.{State, new, confirm_kill}
use rotten_apple.Cockpit.Prompts
use rotten_apple.Cockpit.Prompts.{KeyCode}
use rotten_apple.Cockpit.Keys.{KeyEvent, Outside, handle_key, is_yes}
use rotten_apple.Cockpit.Session.{Round, run_active}
use rotten_apple.Cockpit.Session.Once.{run_active_once}
use rotten_apple.Cockpit.Guarded.{IsGuarded}
use rotten_apple.Cockpit.Guarded.Always.{run_active-new}
use rotten_apple.Cockpit.Guarded.Destroy.{handle_key_destroys}
use rotten_apple.Cockpit.Workers.{Around}
use rotten_apple.Orchestratord.Engine.{EngineState}
use rotten_apple.Tests.OfConnection
use rotten_apple.Tests.OfBackend
use rotten_apple.Tests.OfBackend.{system}

abbrev outside : Outside
outside = record {
  now = 10;
  available_base_choices = codes "ubuntu-24.04" ∷ [];
  framebuffer = none;
  host = OfBackend.host;
}

abbrev row : Text → DomainView
row handle = record { handle = handle; name = codes "web"; state = running; status = none }

abbrev key : ℕ → KeyEvent
key c = record { code = Prompts.char c; control = false }

-- Two rows arrive, then a key is pressed in each of the rounds.
abbrev rounds : List Round
rounds =
    record {
      msgs =
          State.snapshot_of
            (record { domains = row (codes "0") ∷ row (codes "1") ∷ []; host = none })
          ∷ [];
      manifest_name = none;
      outside = outside;
      key = some (key b'x');
    }
    ∷ record { msgs = []; manifest_name = none; outside = outside; key = some (key b'j') }
    ∷ record { msgs = []; manifest_name = none; outside = outside; key = some (key b'x') }
    ∷ []

abbrev start : State
start = new 0 (codes "/etc/m.toml") desktop false [] (some 5)

-- dom0 stays, and the other guest is shut down.
rounds_run :
    (run_active rounds (new 0 (codes "/etc/m.toml") desktop false [] none, system)).0
    ≡ stop (codes "1") false ∷ []
unfolding run_active new text_beq contains
rounds_run = refl

run_active-new_example :
    All IsGuarded (run_active rounds (new 0 (codes "/etc/m.toml") desktop false [] none, system)).0
run_active-new_example = run_active-new 0 (codes "/etc/m.toml") desktop false [] none rounds system

abbrev asking : State
asking = record start { mode = confirm_kill (codes "1") }

handle_key_destroys_example :
    ((handle_key outside (key b'y') (asking, system)).0 ≡ some (stop (codes "1") true))
    ↔ ((asking.mode ≡ confirm_kill (codes "1")) × (is_yes (key b'y').code ≡ true))
handle_key_destroys_example = handle_key_destroys outside (key b'y') asking system (codes "1")

balloon_options_mb-validate_example :
    IsAscending (balloon_options_mb 1024 2048 true)
    × ((v : ℕ)
        → In v (balloon_options_mb 1024 2048 true)
        → (validate_balloon_target v 1024 2048 true ≡ ok v) ↔ (floor_of true ≤ cap_of 1024 2048))
balloon_options_mb-validate_example = balloon_options_mb-validate 1024 2048 true

-- Without a key the guest of the manifest is started when the delay is over.
abbrev idle_rounds : List Round
idle_rounds =
    record {
      msgs = State.backend_ready (codes "xen") (codes "4.17") State.libxl ∷ [];
      manifest_name = some (codes "desk");
      outside = outside;
      key = none;
    }
    ∷ record { msgs = []; manifest_name = some (codes "desk"); outside = outside; key = none }
    ∷ []

idle_run :
    (run_active idle_rounds (start, system)).0 ≡ create_from_manifest (codes "/etc/m.toml") ∷ []
unfolding run_active new text_beq contains
idle_run = refl

run_active_once_example :
    (((run_active idle_rounds (start, system)).0 ≡ [])
      ⊎ ((run_active idle_rounds (start, system)).0
          ≡ create_from_manifest start.manifest_path ∷ []))
    × (start.autostart_deadline ≡ none → (run_active idle_rounds (start, system)).0 ≡ [])
unfolding new
run_active_once_example = run_active_once idle_rounds start system (refl, (refl, tt)) refl

abbrev around : Around
around = record {
  backend_error_text = λ e. e.detail;
  load = λ path. err path;
  promote_xen_default = (State.failed, []);
}

abbrev engine : EngineState
engine = OfConnection.daemon.engine
