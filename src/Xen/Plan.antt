-- ===== src/Xen/Plan.antt =====
-- crates/backend-xen/src/config.rs: the plan of a domain, which decides everything that libxl is then
-- told.
pub mod Sound
use rotten_apple.Prelude.{
  Bool, List, Option, Ordering, Result, Text, [], cmp, codes, err, false, if◌then◌else◌, is_some,
  map, nat_eq, none, not, ok, ok_or, some, suc, text_eq, true, ℕ, ◌%◌, ◌++◌, ◌+◌, ◌/◌, ◌==◌, ◌>>=◌,
  ◌>>◌, ◌||◌, ◌∷◌,
}
use rotten_apple.Governor.{strip_prefix}
use rotten_apple.Manifest.{Profile, StorageSpec, NetworkInterface, Gpu}
use rotten_apple.Backend.{BackendError, ErrorKind}
use rotten_apple.Backend.PciAddr.{PciAddr, from_str}
use rotten_apple.Xen.Mode.{XenDomainMode, pv, pvh, hvm, place}

pub data DiskFormat : Type 0 where
  raw qcow2 vhd : DiskFormat

pub data DiskBackend : Type 0 where
  phy qdisk : DiskBackend

pub record DiskPlan : Type 0 where
  pub source : Text
  pub vdev : Text
  pub readwrite : Bool
  pub format : DiskFormat
  pub backend : DiskBackend

pub record NicPlan : Type 0 where
  pub bridge : Text
  pub nictype_is_ioemu : Bool

pub data DisplayPlan : Type 0 where
  no_display pv_vnc hvm_vnc : DisplayPlan

pub record DomainConfigPlan : Type 0 where
  pub name : Text
  pub mode : XenDomainMode
  pub max_vcpus : ℕ
  pub target_memkb : ℕ
  pub max_memkb : ℕ
  pub bootloader : Option Text
  pub disks : List DiskPlan
  pub nics : List NicPlan
  pub display : DisplayPlan
  pub pci_devices : List PciAddr

-- What the plan reads of the host: the bridges under /sys/class/net, whether xenbr0 is one, and `{:?}` of a text.
pub record Net : Type 0 where
  pub xenbr0 : Bool
  pub bridges : List Text
  pub debug_str : Text → Text

unfoldable pub strip_phy_prefix : Text → Text
unfolding strip_prefix
strip_phy_prefix s = elim (strip_prefix (codes "phy:") s) [ some rest ↦ rest | none ↦ s ]

unfoldable pub pick_format_backend : Text → DiskFormat × DiskBackend
pick_format_backend kind =
    if kind == codes "block" || kind == codes "raw-block" || kind == codes "phy"
    then (raw, phy)
    else if kind == codes "raw" || kind == codes "raw-file"
    then (raw, qdisk)
    else if kind == codes "qcow2"
    then (qcow2, qdisk)
    else if kind == codes "vhd" || kind == codes "vhdx"
    then (vhd, qdisk)
    else (qcow2, qdisk)

unfoldable pub is_readonly_mode : Text → Bool
unfolding strip_prefix
is_readonly_mode mode =
    mode == codes "ro" || mode == codes "read-only" || is_some (strip_prefix (codes "ro-") mode)

-- The first of the names in their order.
unfoldable pub smallest : List Text → Option Text
smallest [] = none
smallest (n ∷ ns) = elim (smallest ns) [
  | none ↦ some n
  | some m ↦ elim (cmp m n) [ Ordering.lt ↦ some m | _ ↦ some n ]
]

unfoldable pub default_bridge_name : Net → Text
unfolding smallest
default_bridge_name net =
    if net.xenbr0
    then codes "xenbr0"
    else elim (smallest net.bridges) [ some name ↦ name | none ↦ codes "xenbr0" ]

abbrev pub is_hvm : XenDomainMode → Bool
is_hvm hvm = true
is_hvm _ = false

unfoldable pub pick_display_plan : Profile → XenDomainMode → DisplayPlan
pick_display_plan p mode =
    if p.gpu.mode == codes "paravirt" || p.gpu.mode == codes "virtual"
    then (if is_hvm mode then hvm_vnc else pv_vnc)
    else no_display

abbrev insufficient : Text → BackendError
insufficient detail = record { kind = ErrorKind.insufficient_resources; detail = detail }

unfoldable pub disk_plan : (source vdev : Text) → StorageSpec → DiskPlan
unfolding strip_phy_prefix pick_format_backend is_readonly_mode
disk_plan source vdev spec =
    let (format, backend) = pick_format_backend spec.kind in
    record {
      source = strip_phy_prefix source;
      vdev = vdev;
      readwrite = not (is_readonly_mode spec.mode);
      format = format;
      backend = backend;
    }

-- `(b'b' + i as u8) as char`, which wraps in a release build.
abbrev pub extra_vdev : ℕ → Text
extra_vdev i = codes "xvd" ++ ((98 + i % 256) % 256 ∷ [])

unfoldable pub extra_disks : ℕ → List StorageSpec → Result BackendError (List DiskPlan)
unfolding disk_plan
extra_disks i [] = ok []
extra_disks i (spec ∷ specs) = elim (place spec) [
  | none ↦ err (insufficient (codes "extra_disks[].source or extra_disks[].path is required"))
  | some src ↦ elim (extra_disks (suc i) specs) [
    | ok disks ↦ ok (disk_plan src (extra_vdev i) spec ∷ disks)
    | err e ↦ err e
  ]
]

unfoldable pub passthrough : Net → Gpu → Result BackendError (List PciAddr)
unfolding from_str
passthrough net gpu = if not (gpu.mode == codes "passthrough") then ok [] else elim gpu.device [
  | none ↦ err (
      insufficient (
        codes
          "[gpu] mode = \"passthrough\" requires `device = \"<BDF>\"` to identify which PCI function to attach to the guest"))
  | some bdf ↦ elim (from_str net.debug_str bdf) [
    | ok addr ↦ ok (addr ∷ [])
    | err e ↦ err (
        insufficient (
          codes "[gpu] device = "
          ++ net.debug_str bdf
          ++ codes ": "
          ++ e
          ++ codes " (expected `0000:00:02.0` or `00:02.0` form)"))
  ]
]

unfoldable pub planned :
    Net
    → Profile
    → XenDomainMode
    → (root_src : Text) → List DiskPlan
    → List PciAddr
    → DomainConfigPlan
unfolding disk_plan default_bridge_name pick_display_plan
planned net p mode root_src extras pci_devices = record {
  name = p.profile.name;
  mode = mode;
  max_vcpus = p.resources.vcpus_active;
  target_memkb = p.resources.memory_active_bytes / 1024;
  max_memkb = p.resources.memory_active_bytes / 1024;
  bootloader = if is_hvm mode then none else some (codes "pygrub");
  disks = disk_plan root_src (codes "xvda") p.storage.root ∷ extras;
  nics =
      map (λ i. record { bridge = default_bridge_name net; nictype_is_ioemu = is_hvm mode })
        p.network.interfaces;
  display = pick_display_plan p mode;
  pci_devices = pci_devices;
}

-- `DomainConfigPlan::from_profile`.
unfoldable pub from_profile : Net → Profile → XenDomainMode → Result BackendError DomainConfigPlan
unfolding extra_disks passthrough planned
from_profile net p mode = do
  root_src ← ok_or (place p.storage.root) (
      insufficient
        (codes "storage.root.source or storage.root.path is required for the Xen backend"))
  extras ← extra_disks 0 p.storage.extra_disks
  pci_devices ← passthrough net p.gpu
  ok (planned net p mode root_src extras pci_devices)
