-- ===== src/Tests/OfBackend.antt =====
-- The theorems on the Xen backend and on the boot mode, at sample profiles and a sample host.
use rotten_apple.Prelude.{
  [], arith, codes, false, if◌then◌else◌, nat_eq, none, not, ok, refl, some, text_beq, text_eq,
  true, ◌<◌, ◌==◌, ◌↔◌, ◌∷◌, ◌≡◌, ◌≢◌,
}
use rotten_apple.Manifest.{Profile, no_tpm}
use rotten_apple.Backend.PciAddr.{
  PciAddr, IsAddr, to_string, from_str, from_parts, of_parts, split, from_str_radix, radix_loop,
}
use rotten_apple.Backend.PciAddr.RoundTrip.{from_str-to_string}
use rotten_apple.Xen.Mode.{hvm, pvh, select_mode}
use rotten_apple.Xen.Plan.{Net, DomainConfigPlan, from_profile, planned, extra_disks, passthrough}
use rotten_apple.Xen.Plan.Sound.{IsPlan, IsPlannable, from_profile_total}
use rotten_apple.Instances.Disk.{done}
use rotten_apple.Bootstrapper.BootMode.{
  desktop, cockpit, System, Host, detect_display_manager, detect_in, enable_cockpit_boot_with_font,
  disable_cockpit_boot, current_boot_mode,
}
use rotten_apple.Bootstrapper.BootMode.Undo.{IsWorking, disable-enable, disable_cockpit_boot_iff}
use rotten_apple.Tests.Samples.{web}

-- A function that is printed in two digits.
abbrev addr : PciAddr
addr = record { domain = 0; bus = 1; device = 2; function = 12 }

addr_bounded : IsAddr addr
addr_bounded = record {
  domain = omega arith;
  bus = omega arith;
  device = omega arith;
  function = omega arith;
}

from_str-to_string_example : (from_str (λ s. s) (to_string addr) ≡ ok addr) ↔ (12 < 10)
from_str-to_string_example = from_str-to_string addr (λ s. s) addr_bounded

abbrev net : Net
net = record { xenbr0 = true; bridges = []; debug_str = λ s. s }

abbrev desk : Profile
desk = record web {
  storage = record {
    root = record {
      kind = codes "block";
      source = some (codes "phy:/dev/sda");
      path = none;
      mode = codes "rw";
    };
    extra_disks =
        record {
          kind = codes "qcow2";
          source = none;
          path = some (codes "/d.qcow2");
          mode = codes "ro";
        }
        ∷ [];
  };
  gpu = record { mode = codes "passthrough"; device = some (codes "00:02.0"); fallback = none };
}

desk_plannable : IsPlannable net desk pvh
unfolding from_str from_parts of_parts split from_str_radix radix_loop
desk_plannable = record {
  root = (codes "phy:/dev/sda", refl);
  extras = ((codes "/d.qcow2", refl), tt);
  device =
      λ e. (codes "00:02.0", record { domain = 0; bus = 0; device = 2; function = 0 }, refl, refl);
}

from_profile_total_example :
    (plan : DomainConfigPlan) × (from_profile net desk pvh ≡ ok plan) × IsPlan desk pvh plan
from_profile_total_example = from_profile_total net desk pvh desk_plannable (omega arith)

abbrev guest : Profile
guest = record web { storage = record { root = desk.storage.root; extra_disks = [] } }

abbrev guest_plan : DomainConfigPlan
guest_plan = planned net guest hvm (codes "phy:/dev/sda") [] []

guest_planned :
    from_profile net guest (select_mode (λ t. []) (λ s. true) guest).mode ≡ ok guest_plan
unfolding from_profile select_mode extra_disks passthrough text_beq
guest_planned = refl

guest_tpm : guest.tpm.mode ≢ no_tpm
guest_tpm e = cc

abbrev pub host : Host
host = record {
  secs = 1700000000;
  cat = λ masked name. some (not (masked name));
  mask_error = none;
  unmasks = λ name. true;
  make_override_dir = none;
  write_override = done;
  make_state_dir = none;
  write_state = done;
  remove_override_error = none;
  state_removed = true;
  reload_error = none;
}

host-IsWorking : IsWorking host
host-IsWorking = record {
  mask = refl;
  override_dir = refl;
  override_written = refl;
  state_dir = refl;
  state_written = refl;
  unmask = λ name. refl;
  override_removed = refl;
  state_gone = refl;
  reload = refl;
}

-- The first display manager is masked already.
abbrev pub system : System
system = record {
  masked = λ q. q == codes "gdm3.service";
  getty_override = none;
  state_file = none;
}

system_found : detect_display_manager host system ≡ some (codes "gdm.service")
unfolding detect_display_manager detect_in text_beq
system_found = refl

disable-enable_example :
    let on = enable_cockpit_boot_with_font host false [] system in
    let off = disable_cockpit_boot host false on.1 in
    (on.0 ≡ ok tt)
    × (current_boot_mode on.1 ≡ cockpit)
    × (off.0 ≡ ok tt)
    × (current_boot_mode off.1 ≡ desktop)
    × (off.1 ≡ record {
      masked = λ q. if codes "gdm.service" == q then false else system.masked q;
      getty_override = none;
      state_file = none;
    })
disable-enable_example =
    disable-enable host host-IsWorking [] (codes "gdm.service") system system_found

disable_cockpit_boot_iff_example :
    ((disable_cockpit_boot host false system).0 ≡ ok tt)
    ↔ ((host.remove_override_error ≡ none) × (host.reload_error ≡ none))
disable_cockpit_boot_iff_example = disable_cockpit_boot_iff host system
