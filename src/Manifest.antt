-- ===== src/Manifest.antt =====
-- crates/manifest/src/lib.rs: the profile of a guest, section by section as in the TOML file.
-- Deserialising (the crates serde and toml) is not modelled: whoever parses a manifest takes the
-- parser as a parameter. Integers are natural numbers; `u32` and `u64` bounds are not carried.
pub mod Sizes
pub mod Validate
use rotten_apple.Prelude.{
  Bool, List, Option, Text, codes, false, if◌then◌else◌, is_some, none, not, some, true, ℕ, ◌&&◌,
}

pub data ProfileKind : Type 0 where
  desktop appliance service : ProfileKind

pub data TpmMode : Type 0 where
  swtpm hardware_passthrough no_tpm : TpmMode

pub record ProfileHeader : Type 0 where
  pub name : Text
  pub schema_version : Text
  pub description : Text
  pub kind : ProfileKind

pub record Meta : Type 0 where
  pub license : Text
  pub attestation_required : Bool

pub record Resources : Type 0 where
  pub memory_active_bytes : ℕ
  pub memory_idle_bytes : ℕ
  pub memory_minimum_bytes : ℕ
  pub vcpus_active : ℕ
  pub vcpus_idle : ℕ
  pub vcpus_minimum : ℕ
  pub prefer_p_cores : Bool
  pub idle_on_e_cores : Bool

pub record StorageSpec : Type 0 where
  pub kind : Text
  pub source : Option Text
  pub path : Option Text
  pub mode : Text

pub record Storage : Type 0 where
  pub root : StorageSpec
  pub extra_disks : List StorageSpec

pub data Egress : Type 0 where
  single : Text → Egress
  many : List Text → Egress

pub record NetworkInterface : Type 0 where
  pub name : Text
  pub mac : Text
  pub egress : Egress

pub record Network : Type 0 where
  pub mode : Text
  pub interfaces : List NetworkInterface

pub record Gpu : Type 0 where
  pub mode : Text
  pub device : Option Text
  pub fallback : Option Text

pub record Audio : Type 0 where
  pub mode : Text
  pub default_sink : Option Text

pub record Input : Type 0 where
  pub keyboard : Text
  pub mouse : Text

pub record UsbRoute : Type 0 where
  pub vendor : Text
  pub product : Text
  pub route : Text

pub record Usb : Type 0 where
  pub mode : Text
  pub default_route : Text
  pub explicit_routes : List UsbRoute

pub record Tpm : Type 0 where
  pub mode : TpmMode

pub record Autostart : Type 0 where
  pub enabled : Bool
  pub delay_after_boot : Option ℕ
  pub suspend_after_idle : Option ℕ

pub record Trigger : Type 0 where
  pub kind : Text
  pub manifest_name : Option Text
  pub browsers : List Text

pub record IntegrationSocket : Type 0 where
  pub kind : Text
  pub port : ℕ
  pub role : Text

pub record Integration : Type 0 where
  pub sockets : List IntegrationSocket
  pub files : List Text
  pub clipboard : Bool

pub record Orchestration : Type 0 where
  pub priority : Text
  pub exclusive_resources : List Text

pub record Trust : Type 0 where
  pub documented_capabilities : List Text
  pub documented_limitations : List Text

-- The memory policy of the engine; all `none` means that a domain is managed by hand.
pub record PolicyMemory : Type 0 where
  pub min_mb : Option ℕ
  pub max_mb : Option ℕ
  pub target_headroom_pct : Option ℕ
  pub cooldown_s : Option ℕ

pub record Policy : Type 0 where
  pub memory : PolicyMemory

pub record Anchor : Type 0 where
  pub node : Option Text
  pub migratable : Bool

pub record CapabilitiesRequired : Type 0 where
  pub need_iommu : Bool
  pub need_gpu_class : Option Text
  pub need_pcpu_min : Option ℕ
  pub need_memory_mb_min : Option ℕ

pub record LeasePolicy : Type 0 where
  pub controllers_allowed : List Text
  pub operations_allowed : List Text

pub record Profile : Type 0 where
  pub profile : ProfileHeader
  pub meta : Meta
  pub resources : Resources
  pub storage : Storage
  pub network : Network
  pub gpu : Gpu
  pub audio : Audio
  pub input : Input
  pub usb : Usb
  pub tpm : Tpm
  pub autostart : Autostart
  pub trigger : Option Trigger
  pub integration : Integration
  pub orchestration : Orchestration
  pub trust : Trust
  pub policy : Policy
  pub anchor : Anchor
  pub capabilities_required : CapabilitiesRequired
  pub lease_policy : LeasePolicy

pub record BackendCapabilities : Type 0 where
  pub backend_name : Text
  pub supports_balloon : Bool
  pub supports_hot_pci_passthrough : Bool
  pub supports_pci_passthrough_at_boot : Bool
  pub supports_usb_passthrough : Bool
  pub supports_swtpm : Bool
  pub supports_hardware_tpm_passthrough : Bool
  pub supports_hyperv_compatible_attestation : Bool
  pub supports_live_migration : Bool
  pub supports_suspend_resume : Bool
  pub max_guests : Option ℕ

abbrev pub xen_reference : BackendCapabilities
xen_reference = record {
  backend_name = codes "xen";
  supports_balloon = true;
  supports_hot_pci_passthrough = true;
  supports_pci_passthrough_at_boot = true;
  supports_usb_passthrough = true;
  supports_swtpm = true;
  supports_hardware_tpm_passthrough = false;
  supports_hyperv_compatible_attestation = false;
  supports_live_migration = false;
  supports_suspend_resume = true;
  max_guests = none;
}

abbrev pub hyperv_reference : BackendCapabilities
hyperv_reference = record {
  backend_name = codes "hyperv";
  supports_balloon = true;
  supports_hot_pci_passthrough = false;
  supports_pci_passthrough_at_boot = true;
  supports_usb_passthrough = true;
  supports_swtpm = true;
  supports_hardware_tpm_passthrough = false;
  supports_hyperv_compatible_attestation = true;
  supports_live_migration = true;
  supports_suspend_resume = true;
  max_guests = none;
}

-- `Profile::policy_memory`.
unfoldable pub policy_memory : Profile → Option PolicyMemory
policy_memory p =
    let m = p.policy.memory in
    if not (is_some m.min_mb)
      && not (is_some m.max_mb)
      && not (is_some m.target_headroom_pct)
      && not (is_some m.cooldown_s)
    then none
    else some m
