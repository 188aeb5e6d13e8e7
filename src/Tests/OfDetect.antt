-- ===== src/Tests/OfDetect.antt =====
-- The theorems on the hardware at a host with a card that drives the display and one that does not.
use rotten_apple.Prelude.{
  In, Text, [], codes, digits_from, false, if◌then◌else◌, inl, inr, is_whitespace, nat_beq, nat_eq,
  none, parse_below, refl, rsplit_once, some, text_beq, text_eq, trim, trim_matches,
  trim_start_matches, true, ◌==◌, ◌↔◌, ◌∷◌, ◌≡◌,
}
use rotten_apple.Backend.PciAddr.{from_str_radix, radix_loop}
use rotten_apple.Detect.Gpu.{
  class_code, bdf_root, Sysfs, GpuDevice, leasable, nvidia, is_gpu_class, framebuffer_bdf_under,
  enumerate_gpus_under,
}
use rotten_apple.Detect.Gpu.Leasable.{IsIsolated, enumerate_gpus_under_lem}
use rotten_apple.Detect.Readiness.{Probes, run, lift_blockers}
use rotten_apple.Detect.Readiness.Verdict.{IsClear, lift_blockers_iff}

abbrev onboard : Text
onboard = codes "0000:00:02.0"

abbrev card : Text
card = codes "0000:01:00.0"

abbrev sysfs : Sysfs
sysfs = record {
  pci_devices = some (onboard ∷ card ∷ []);
  class_text = λ b. some (codes "0x030000\n");
  vendor_text = λ b. some (if b == card then codes "0x10de\n" else codes "0x8086\n");
  device_text = λ b. some (codes "0x1234\n");
  iommu_group_link = λ b. some (if b == card then codes "1" else codes "0");
  driver_link = λ b. none;
  graphics = some (codes "fb0" ∷ []);
  fb_device = λ fb. some onboard;
  group_devices =
      λ n. some (if nat_beq n 1 then card ∷ codes "0000:01:00.1" ∷ [] else onboard ∷ []);
}

abbrev spare : GpuDevice
spare = record {
  bdf = card;
  vendor = nvidia;
  device_name = [];
  vendor_id = 0x10de;
  device_id = 0x1234;
  iommu_group = some 1;
  current_driver = none;
  role = leasable;
}

spare_listed : In spare (enumerate_gpus_under sysfs)
unfolding enumerate_gpus_under is_gpu_class class_code from_str_radix radix_loop parse_below
    digits_from text_beq is_whitespace trim trim_matches trim_start_matches bdf_root rsplit_once
spare_listed = inr (inl refl)

enumerate_gpus_under_lem_example :
    (is_gpu_class sysfs spare.bdf ≡ true)
    × ((spare.role ≡ leasable)
        ↔ IsIsolated sysfs spare.bdf (framebuffer_bdf_under sysfs) spare.iommu_group)
enumerate_gpus_under_lem_example = enumerate_gpus_under_lem sysfs spare spare_listed

abbrev probes : Probes
probes = record {
  mount_source = λ dir. some (codes "/dev/sda1");
  is_on_luks = λ dev. false;
  fstype_of = λ dev. some (codes "ext4");
  read_resume_device = none;
  enumerate_iommu_groups =
      record {
        id = 3;
        devices =
            record {
              addr = card;
              class_hex = codes "0x030000";
              class_label = codes "VGA / display";
              vendor_device = none;
            }
            ∷ record {
              addr = codes "0000:01:00.1";
              class_hex = codes "0x010802";
              class_label = codes "NVMe controller";
              vendor_device = none;
            }
            ∷ [];
      }
      ∷ [];
  detect_grub_flavor = [];
}

lift_blockers_iff_example :
    (lift_blockers (run probes) ≡ []) ↔ IsClear probes.enumerate_iommu_groups
lift_blockers_iff_example = lift_blockers_iff probes
