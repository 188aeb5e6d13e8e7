-- ===== src/Xen/Mode.antt =====
-- crates/backend-xen/src/mode.rs: which kind of domain a profile gets. `looks_linux` is the probe of
-- the root disk, which runs lsblk; `debug_tpm` is `{:?}` of a TPM mode.
use rotten_apple.Prelude.{Bool, Option, Text, codes, false, if◌then◌else◌, none, some, true, ◌++◌}
use rotten_apple.Manifest.{Profile, TpmMode, no_tpm, StorageSpec}

pub data XenDomainMode : Type 0 where
  pv pvh hvm : XenDomainMode

pub record ModeSelection : Type 0 where
  pub mode : XenDomainMode
  pub rationale : Text

-- `spec.source.as_deref().or(spec.path.as_deref())`.
abbrev pub place : StorageSpec → Option Text
place spec = elim spec.source [ some s ↦ some s | none ↦ spec.path ]

abbrev pub wants_tpm : TpmMode → Bool
wants_tpm no_tpm = false
wants_tpm _ = true

abbrev hvm_by_default : ModeSelection
hvm_by_default = record {
  mode = hvm;
  rationale =
      codes
        "no Linux signal in profile or root disk; defaulting to HVM (works for any guest OS, costs ~80 MB qemu-dm in dom0)";
}

by_disk : (Text → Bool) → Option Text → ModeSelection
by_disk looks_linux none = hvm_by_default
by_disk looks_linux (some src) =
    if looks_linux src
    then record {
      mode = pvh;
      rationale =
          codes "root disk "
          ++ src
          ++ codes
              " carries a Linux filesystem; PVH is the modern paravirt path (no qemu-dm in dom0)";
    }
    else hvm_by_default

unfoldable pub select_mode :
    (debug_tpm : TpmMode → Text) → (looks_linux : Text → Bool) → Profile → ModeSelection
unfolding by_disk
select_mode debug_tpm looks_linux p =
    if wants_tpm p.tpm.mode
    then record {
      mode = hvm;
      rationale =
          codes "tpm.mode = "
          ++ debug_tpm p.tpm.mode
          ++ codes "; PVH cannot expose vTPM device model, HVM can";
    }
    else by_disk looks_linux (place p.storage.root)
