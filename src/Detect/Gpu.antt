-- ===== src/Detect/Gpu.antt =====
-- crates/detect/src/gpu.rs: the graphics cards of the host, and which can be handed to a guest. The
-- tree below /sys is a record of what is read from it; an entry that is not there is `none`.
pub mod Leasable
use rotten_apple.Prelude.{
  Bool, List, Option, Ordering, Result, Text, [], cmp, compare, err, false, if◌then◌else◌, nat_beq,
  nat_eq, none, ok, parse_below, rsplit_once, some, text_eq, trim, true, ℕ, ◌%◌, ◌&&◌, ◌/◌, ◌==◌,
  ◌^◌, ◌||◌, ◌∷◌,
}
use rotten_apple.Backend.PciAddr.{from_str_radix}

-- A link is read as the name that its target ends in.
pub record Sysfs : Type 0 where
  pub pci_devices : Option (List Text)
  pub class_text : Text → Option Text
  pub vendor_text : Text → Option Text
  pub device_text : Text → Option Text
  pub iommu_group_link : Text → Option Text
  pub driver_link : Text → Option Text
  pub graphics : Option (List Text)
  pub fb_device : Text → Option Text
  pub group_devices : ℕ → Option (List Text)

pub data GpuVendor : Type 0 where
  intel nvidia amd : GpuVendor
  other_vendor : ℕ → GpuVendor

unfoldable pub from_id : ℕ → GpuVendor
from_id n =
    if nat_beq n 0x8086
    then intel
    else if nat_beq n 0x10de
    then nvidia
    else if nat_beq n 0x1002 || nat_beq n 0x1022
    then amd
    else other_vendor n

pub data LockReason : Type 0 where
  iommu_off shared_with_framebuffer shared_with_platform : LockReason

pub data GpuRole : Type 0 where
  framebuffer leasable : GpuRole
  locked : LockReason → GpuRole

pub record GpuDevice : Type 0 where
  pub bdf : Text
  pub vendor : GpuVendor
  pub device_name : Text
  pub vendor_id : ℕ
  pub device_id : ℕ
  pub iommu_group : Option ℕ
  pub current_driver : Option Text
  pub role : GpuRole

-- `trim_start_matches("0x")`: as often as it stands there.
unfoldable pub strip_0x : Text → Text
strip_0x [] = []
strip_0x (c ∷ []) = c ∷ []
strip_0x (c ∷ d ∷ s) =
    let rest = strip_0x s in if nat_beq c b'0' && nat_beq d b'x' then rest else c ∷ d ∷ s

abbrev ok_of : Result Text ℕ → Option ℕ
ok_of (ok n) = some n
ok_of (err e) = none

-- The class code of a device, if it is a number of 32 bits.
unfoldable pub class_code : Sysfs → Text → Option ℕ
unfolding strip_0x from_str_radix
class_code sys bdf = elim (sys.class_text bdf) [
  | none ↦ none
  | some s ↦ ok_of (from_str_radix (2 ^ 32) (strip_0x (trim s)))
]

-- `(class >> 16) & 0xff == base`.
abbrev has_base : ℕ → Option ℕ → Bool
has_base base none = false
has_base base (some class) = nat_beq (class / 2 ^ 16 % 2 ^ 8) base

unfoldable pub is_gpu_class : Sysfs → Text → Bool
is_gpu_class sys bdf = has_base 3 (class_code sys bdf)

unfoldable pub is_pci_bridge : Sysfs → Text → Bool
is_pci_bridge sys bdf = has_base 6 (class_code sys bdf)

unfoldable pub parse_hex_u16 : Text → Option ℕ
unfolding strip_0x from_str_radix
parse_hex_u16 raw = ok_of (from_str_radix (2 ^ 16) (strip_0x (trim raw)))

abbrev parsed_u16 : Option Text → Option ℕ
parsed_u16 none = none
parsed_u16 (some s) = parse_hex_u16 s

unfoldable pub read_pci_ids : Sysfs → Text → Option (ℕ × ℕ)
unfolding parse_hex_u16
read_pci_ids sys bdf = elim (parsed_u16 (sys.vendor_text bdf)) [
  | none ↦ none
  | some v ↦ elim (parsed_u16 (sys.device_text bdf)) [ none ↦ none | some d ↦ some (v, d) ]
]

unfoldable pub read_iommu_group : Sysfs → Text → Option ℕ
read_iommu_group sys bdf = elim (sys.iommu_group_link bdf) [
  | none ↦ none
  | some name ↦ parse_below (2 ^ 32) name
]

-- `sort` on texts.
unfoldable pub insert_text : Text → List Text → List Text
insert_text s [] = s ∷ []
insert_text s (t ∷ ts) = elim (cmp t s) [ Ordering.lt ↦ t ∷ insert_text s ts | _ ↦ s ∷ t ∷ ts ]

unfoldable pub sort_texts : List Text → List Text
unfolding insert_text cmp
sort_texts [] = []
sort_texts (s ∷ ss) = insert_text s (sort_texts ss)

unfoldable pub is_fb : Text → Bool
is_fb (c ∷ d ∷ s) = nat_beq c b'f' && nat_beq d b'b'
is_fb _ = false

unfoldable pub frame_buffers : List Text → List Text
unfolding is_fb
frame_buffers [] = []
frame_buffers (n ∷ ns) = let later = frame_buffers ns in if is_fb n then n ∷ later else later

unfoldable pub first_device : Sysfs → List Text → Option Text
first_device sys [] = none
first_device sys (fb ∷ fbs) = elim (sys.fb_device fb) [
  | some bdf ↦ some bdf
  | none ↦ first_device sys fbs
]

unfoldable pub framebuffer_bdf_under : Sysfs → Option Text
unfolding sort_texts frame_buffers first_device
framebuffer_bdf_under sys = elim sys.graphics [
  | none ↦ none
  | some names ↦ first_device sys (sort_texts (frame_buffers names))
]

-- The part before the function.
unfoldable pub bdf_root : Text → Text
unfolding rsplit_once
bdf_root bdf = elim (rsplit_once b'.' bdf) [ some (root, f) ↦ root | none ↦ bdf ]

abbrev pub is_framebuffer : Text → Option Text → Bool
is_framebuffer bdf none = false
is_framebuffer bdf (some fb) = bdf == fb

-- The walk over the devices of the group.
unfoldable pub group_role :
    Sysfs → (bdf : Text) → (framebuffer_bdf : Option Text) → List Text → GpuRole
group_role sys bdf framebuffer_bdf [] = leasable
group_role sys bdf framebuffer_bdf (other ∷ others) =
    let rest = group_role sys bdf framebuffer_bdf others in
    if other == bdf
    then rest
    else if is_framebuffer other framebuffer_bdf
    then locked shared_with_framebuffer
    else if bdf_root other == bdf_root bdf
    then rest
    else if is_pci_bridge sys other
    then rest
    else locked shared_with_platform

unfoldable pub role_in_group : Sysfs → Text → Option Text → Option ℕ → GpuRole
unfolding group_role
role_in_group sys bdf framebuffer_bdf none = locked iommu_off
role_in_group sys bdf framebuffer_bdf (some group) = elim (sys.group_devices group) [
  | none ↦ locked iommu_off
  | some devices ↦ group_role sys bdf framebuffer_bdf devices
]

unfoldable pub compute_role :
    (bdf : Text) → (framebuffer_bdf : Option Text) → (iommu_group : Option ℕ) → Sysfs → GpuRole
unfolding role_in_group
compute_role bdf framebuffer_bdf iommu_group sys =
    if is_framebuffer bdf framebuffer_bdf
    then framebuffer
    else role_in_group sys bdf framebuffer_bdf iommu_group

unfoldable pub describe : Sysfs → (framebuffer_bdf : Option Text) → Text → Option GpuDevice
unfolding is_gpu_class read_pci_ids read_iommu_group compute_role from_id
describe sys framebuffer_bdf bdf =
    if is_gpu_class sys bdf
    then elim (read_pci_ids sys bdf) [
      | none ↦ none
      | some (vendor_id, device_id) ↦ some (record {
        bdf = bdf;
        vendor = from_id vendor_id;
        device_name = [];
        vendor_id = vendor_id;
        device_id = device_id;
        iommu_group = read_iommu_group sys bdf;
        current_driver = sys.driver_link bdf;
        role = compute_role bdf framebuffer_bdf (read_iommu_group sys bdf) sys;
      })
    ]
    else none

abbrev pub pushed : Option GpuDevice → List GpuDevice → List GpuDevice
pushed none gs = gs
pushed (some g) gs = g ∷ gs

unfoldable pub described : Sysfs → (framebuffer_bdf : Option Text) → List Text → List GpuDevice
unfolding describe
described sys fb [] = []
described sys fb (n ∷ ns) = pushed (describe sys fb n) (described sys fb ns)

abbrev pub bucket : GpuRole → ℕ
bucket framebuffer = 0
bucket leasable = 1
bucket (locked reason) = 2

-- `a` comes before `b` by bucket, then by address.
unfoldable pub before : GpuDevice → GpuDevice → Bool
unfolding cmp
before a b = elim (compare (bucket a.role) (bucket b.role)) [
  | Ordering.lt ↦ true
  | Ordering.gt ↦ false
  | Ordering.eq ↦ elim (cmp a.bdf b.bdf) [ Ordering.lt ↦ true | _ ↦ false ]
]

-- The stable `sort_by_key`.
unfoldable pub insert_gpu : GpuDevice → List GpuDevice → List GpuDevice
unfolding before
insert_gpu g [] = g ∷ []
insert_gpu g (h ∷ hs) = elim (before h g) [ true ↦ h ∷ insert_gpu g hs | false ↦ g ∷ h ∷ hs ]

unfoldable pub sort_gpus : List GpuDevice → List GpuDevice
unfolding insert_gpu
sort_gpus [] = []
sort_gpus (g ∷ gs) = insert_gpu g (sort_gpus gs)

unfoldable pub enumerate_from : Sysfs → Option (List Text) → List GpuDevice
unfolding framebuffer_bdf_under described sort_gpus
enumerate_from sys none = []
enumerate_from sys (some names) = sort_gpus (described sys (framebuffer_bdf_under sys) names)

unfoldable pub enumerate_gpus_under : Sysfs → List GpuDevice
unfolding enumerate_from
enumerate_gpus_under sys = enumerate_from sys sys.pci_devices
