-- ===== src/Detect/Readiness.antt =====
-- crates/detect/src/lib.rs and lift_readiness.rs: what stands against a lift and what is only worth a
-- warning, from what the probes read. A message is kept as the values that stand in its text.
pub mod Verdict
use rotten_apple.Detect.Gpu.{strip_0x}
use rotten_apple.Prelude.{
  Bool, List, Option, Text, [], codes, false, if◌then◌else◌, is_some, ltb, nat_beq, nat_eq, none,
  not, some, take, text_eq, true, ℕ, ◌&&◌, ◌*◌, ◌++◌, ◌/◌, ◌==◌, ◌||◌, ◌∷◌,
}

pub data SecureBoot : Type 0 where
  enabled disabled unknown : SecureBoot

-- The fields of `Detection` that are judged.
pub record Detection : Type 0 where
  pub distro_id : Text
  pub distro_version : Text
  pub kernel : Text
  pub arch : Text
  pub is_uefi : Bool
  pub secure_boot : SecureBoot
  pub mem_total_kb : ℕ
  pub nvidia_proprietary : Bool
  pub xen_already_installed : Bool
  pub running_under_xen : Bool
  pub boot_free_mb : ℕ
  pub root_free_mb : ℕ
  pub initramfs_path : Option Text

pub data Blocker : Type 0 where
  unsupported_architecture : (arch : Text) → Blocker
  already_under_xen : Blocker
  boot_full : (free_mb : ℕ) → Blocker
  storage_in_gpu_group : (group : ℕ) → (addr class_label : Text) → Blocker

pub data Warning : Type 0 where
  untested_distro : (id version : Text) → Warning
  legacy_boot secure_boot_on nvidia_loaded xen_installed : Warning
  low_memory : (mb : ℕ) → Warning
  boot_tight root_tight : (free_mb : ℕ) → Warning
  no_initramfs : (kernel : Text) → Warning
  boot_on_luks root_on_luks hibernation no_display no_iommu no_grub : Warning
  boot_filesystem : Text → Warning
  usb_in_gpu_group network_in_gpu_group : (group : ℕ) → (addr : Text) → Warning

-- `if test { push(message) }`.
abbrev pub when {ℓ} : {A : Type ℓ} → Bool → A → List A
when b a = if b then a ∷ [] else []

is_enabled : SecureBoot → Bool
is_enabled enabled = true
is_enabled _ = false

-- `Detection::classify`: the blockers.
unfoldable pub blockers : Detection → List Blocker
blockers d =
    when (not (d.arch == codes "x86_64")) (unsupported_architecture d.arch)
    ++ (when d.running_under_xen already_under_xen
        ++ when (ltb d.boot_free_mb 128 && ltb d.boot_free_mb 50) (boot_full d.boot_free_mb))

-- And its warnings.
unfoldable pub warnings : Detection → List Warning
unfolding is_enabled
warnings d =
    when (not (d.distro_id == codes "ubuntu" || d.distro_id == codes "debian"))
      (untested_distro d.distro_id d.distro_version)
    ++ (when (not d.is_uefi) legacy_boot
        ++ (when (is_enabled d.secure_boot) secure_boot_on
            ++ (when (ltb 0 d.mem_total_kb && ltb d.mem_total_kb (16 * 1024 * 1024))
                  (low_memory (d.mem_total_kb / 1024))
                ++ (when d.nvidia_proprietary nvidia_loaded
                    ++ (when (d.xen_already_installed && not d.running_under_xen) xen_installed
                        ++ (when (ltb d.boot_free_mb 128 && not (ltb d.boot_free_mb 50))
                              (boot_tight d.boot_free_mb)
                            ++ (when (ltb d.root_free_mb 500) (root_tight d.root_free_mb)
                                ++ when (not (is_some d.initramfs_path))
                                    (no_initramfs d.kernel))))))))

pub record PciDevice : Type 0 where
  pub addr : Text
  pub class_hex : Text
  pub class_label : Text
  pub vendor_device : Option Text

pub record IommuGroup : Type 0 where
  pub id : ℕ
  pub devices : List PciDevice

pub record LiftReadiness : Type 0 where
  pub root_source : Option Text
  pub boot_source : Option Text
  pub boot_separate : Bool
  pub root_on_luks : Bool
  pub boot_on_luks : Bool
  pub root_fs : Option Text
  pub boot_fs : Option Text
  pub hibernation_configured : Bool
  pub resume_device : Option Text
  pub iommu_groups : List IommuGroup
  pub gpu_group : Option ℕ
  pub grub_flavor : List Text

-- `str::starts_with`.
unfoldable pub starts_with : (prefix s : Text) → Bool
starts_with [] s = true
starts_with (c ∷ p) [] = false
starts_with (c ∷ p) (d ∷ s) = nat_beq c d && starts_with p s

abbrev pub has_class : Text → PciDevice → Bool
has_class prefix d = starts_with prefix d.class_hex

unfoldable pub any_device : Text → List PciDevice → Bool
unfolding starts_with
any_device prefix [] = false
any_device prefix (d ∷ ds) = has_class prefix d || any_device prefix ds

-- The id of the first group with a display controller.
unfoldable pub find_gpu_group : List IommuGroup → Option ℕ
unfolding any_device
find_gpu_group [] = none
find_gpu_group (g ∷ gs) =
    let later = find_gpu_group gs in
    if any_device (codes "0x03") g.devices then some g.id else later

-- What the probes answer for the mounts and the disk, and the rest as it is.
pub record Probes : Type 0 where
  pub mount_source : Text → Option Text
  pub is_on_luks : Text → Bool
  pub fstype_of : Text → Option Text
  pub read_resume_device : Option Text
  pub enumerate_iommu_groups : List IommuGroup
  pub detect_grub_flavor : List Text

abbrev on_luks : (Text → Bool) → Option Text → Bool
on_luks test none = false
on_luks test (some dev) = test dev

abbrev and_then : (Text → Option Text) → Option Text → Option Text
and_then f none = none
and_then f (some dev) = f dev

abbrev same_source : Option Text → Option Text → Bool
same_source none none = true
same_source none (some t) = false
same_source (some s) none = false
same_source (some s) (some t) = s == t

-- `LiftReadiness::run`, before it is judged.
unfoldable pub run : Probes → LiftReadiness
unfolding find_gpu_group
run p =
    let root_source = p.mount_source (codes "/") in
    let boot_source = p.mount_source (codes "/boot") in
    let boot_separate = is_some boot_source && not (same_source boot_source root_source) in
    let effective_boot = if boot_separate then boot_source else root_source in
    record {
      root_source = root_source;
      boot_source = boot_source;
      boot_separate = boot_separate;
      root_on_luks = on_luks p.is_on_luks root_source;
      boot_on_luks = on_luks p.is_on_luks effective_boot;
      root_fs = and_then p.fstype_of root_source;
      boot_fs = and_then p.fstype_of effective_boot;
      hibernation_configured = is_some p.read_resume_device;
      resume_device = p.read_resume_device;
      iommu_groups = p.enumerate_iommu_groups;
      gpu_group = find_gpu_group p.enumerate_iommu_groups;
      grub_flavor = p.detect_grub_flavor;
    }

unfoldable pub find_group : ℕ → List IommuGroup → Option IommuGroup
find_group id [] = none
find_group id (g ∷ gs) = let later = find_group id gs in if nat_beq g.id id then some g else later

-- The devices in the group of the card that stand against its passthrough.
unfoldable pub group_blockers : ℕ → List PciDevice → List Blocker
unfolding starts_with
group_blockers id [] = []
group_blockers id (d ∷ ds) =
    when (has_class (codes "0x01") d) (storage_in_gpu_group id d.addr d.class_label)
    ++ group_blockers id ds

unfoldable pub group_warnings : ℕ → List PciDevice → List Warning
unfolding starts_with
group_warnings id [] = []
group_warnings id (d ∷ ds) =
    when (has_class (codes "0x0c03") d) (usb_in_gpu_group id d.addr)
    ++ (when (has_class (codes "0x02") d) (network_in_gpu_group id d.addr) ++ group_warnings id ds)

abbrev pub devices_of : Option IommuGroup → List PciDevice
devices_of none = []
devices_of (some g) = g.devices

unfoldable pub blockers_in : (gpu_group : Option ℕ) → List IommuGroup → List Blocker
unfolding find_group group_blockers
blockers_in none groups = []
blockers_in (some id) groups = group_blockers id (devices_of (find_group id groups))

-- `LiftReadiness::classify`: the blockers.
unfoldable pub lift_blockers : LiftReadiness → List Blocker
unfolding blockers_in
lift_blockers r = blockers_in r.gpu_group r.iommu_groups

known_boot_fs : Text → Bool
known_boot_fs fs =
    fs == codes "ext2" || fs == codes "ext3" || fs == codes "ext4" || fs == codes "vfat"

abbrev fs_warning : Option Text → List Warning
unfolding known_boot_fs
fs_warning none = []
fs_warning (some fs) = when (not (known_boot_fs fs)) (boot_filesystem fs)

gpu_warnings : LiftReadiness → List Warning
unfolding find_group group_warnings
gpu_warnings r = elim r.gpu_group [
  | some id ↦ group_warnings id (devices_of (find_group id r.iommu_groups))
  | none ↦ elim r.iommu_groups [ [] ↦ no_iommu ∷ [] | g ∷ gs ↦ no_display ∷ [] ]
]

abbrev grub_warning : List Text → List Warning
grub_warning [] = no_grub ∷ []
grub_warning (f ∷ fs) = []

-- And its warnings.
unfoldable pub lift_warnings : LiftReadiness → List Warning
unfolding known_boot_fs gpu_warnings
lift_warnings r =
    when r.boot_on_luks boot_on_luks
    ++ (when r.root_on_luks root_on_luks
        ++ (fs_warning r.boot_fs
            ++ (when r.hibernation_configured hibernation
                ++ (gpu_warnings r ++ grub_warning r.grub_flavor))))

-- `trim_start_matches("0x")`, and the first `n` characters of what is left.
abbrev head_of : ℕ → Text → Text
head_of n class_hex = take n (strip_0x class_hex)

unfoldable pub pci_class_label : (class_hex : Text) → Text
unfolding strip_0x
pci_class_label class_hex =
    let top = head_of 2 class_hex in
    let mid = head_of 4 class_hex in
    if mid == codes "0100"
    then codes "SCSI controller"
    else if mid == codes "0101"
    then codes "IDE controller"
    else if mid == codes "0104"
    then codes "RAID controller"
    else if mid == codes "0106"
    then codes "SATA controller"
    else if mid == codes "0108"
    then codes "NVMe controller"
    else if mid == codes "0200"
    then codes "Ethernet controller"
    else if mid == codes "0280"
    then codes "Wi-Fi / wireless"
    else if mid == codes "0300"
    then codes "VGA / display"
    else if mid == codes "0302"
    then codes "3D / GPU"
    else if mid == codes "0403"
    then codes "Audio device"
    else if mid == codes "0604"
    then codes "PCI bridge"
    else if mid == codes "0c03"
    then codes "USB controller"
    else if mid == codes "0c05"
    then codes "SMBus"
    else if mid == codes "0c80"
    then codes "Serial bus"
    else if top == codes "01"
    then codes "storage controller"
    else if top == codes "02"
    then codes "network controller"
    else if top == codes "03"
    then codes "display controller"
    else if top == codes "0c"
    then codes "serial-bus controller"
    else codes "device"
