-- ===== src/Manifest/Validate.antt =====
-- `Profile::validate_against`: what a backend cannot give a profile. Each message is a constructor
-- with the values that the message shows.
use rotten_apple.Prelude.{
  All, Bool, In, In-append, In-append_left, In-append_right, List, Option, Text, [], arith, codes,
  false, if◌then◌else◌, inl, inr, is_some, ltb, nat_eq, none, not, refl, some, text_beq_iff,
  text_eq, true, ℕ, ◌&&◌, ◌++◌, ◌<◌, ◌==◌, ◌↔◌, ◌∷◌, ◌≡◌, ◌≢◌, ◌≤◌, ◌⊎◌,
}
use rotten_apple.Manifest.{
  Profile, TpmMode, swtpm, hardware_passthrough, BackendCapabilities, Resources,
}

pub data Issue : Type 0 where
  memory_minimum_exceeds_idle : (minimum idle : ℕ) → Issue
  memory_idle_exceeds_active : (idle active : ℕ) → Issue
  vcpus_minimum_exceeds_idle vcpus_idle_exceeds_active : Issue
  hardware_tpm_missing pci_passthrough_missing attestation_missing : (backend : Text) → Issue
  suspend_resume_missing usb_passthrough_missing swtpm_missing : (backend : Text) → Issue

-- A run of `if test { issues.push(issue) }`.
unfoldable pub gather : List (Bool × Issue) → List Issue
gather [] = []
gather ((test, issue) ∷ rest) = let later = gather rest in if test then issue ∷ later else later

abbrev is_hardware_passthrough : TpmMode → Bool
is_hardware_passthrough hardware_passthrough = true
is_hardware_passthrough _ = false

abbrev is_swtpm : TpmMode → Bool
is_swtpm swtpm = true
is_swtpm _ = false

abbrev is_empty {ℓ} : {A : Type ℓ} → List A → Bool
is_empty [] = true
is_empty (x ∷ xs) = false

unfoldable pub resource_tests : Resources → List (Bool × Issue)
resource_tests r =
    (
      ltb r.memory_idle_bytes r.memory_minimum_bytes,
      memory_minimum_exceeds_idle r.memory_minimum_bytes r.memory_idle_bytes,
    )
    ∷ (
      ltb r.memory_active_bytes r.memory_idle_bytes,
      memory_idle_exceeds_active r.memory_idle_bytes r.memory_active_bytes,
    )
    ∷ (ltb r.vcpus_idle r.vcpus_minimum, vcpus_minimum_exceeds_idle)
    ∷ (ltb r.vcpus_active r.vcpus_idle, vcpus_idle_exceeds_active)
    ∷ []

capability_tests : Profile → BackendCapabilities → List (Bool × Issue)
capability_tests p caps =
    (
      is_hardware_passthrough p.tpm.mode && not caps.supports_hardware_tpm_passthrough,
      hardware_tpm_missing caps.backend_name,
    )
    ∷ (
      p.gpu.mode == codes "passthrough" && not caps.supports_pci_passthrough_at_boot,
      pci_passthrough_missing caps.backend_name,
    )
    ∷ (
      p.meta.attestation_required && not caps.supports_hyperv_compatible_attestation,
      attestation_missing caps.backend_name,
    )
    ∷ (
      is_some p.autostart.suspend_after_idle && not caps.supports_suspend_resume,
      suspend_resume_missing caps.backend_name,
    )
    ∷ (
      p.usb.mode == codes "policy"
          && not (is_empty p.usb.explicit_routes)
          && not caps.supports_usb_passthrough,
      usb_passthrough_missing caps.backend_name,
    )
    ∷ (is_swtpm p.tpm.mode && not caps.supports_swtpm, swtpm_missing caps.backend_name)
    ∷ []

unfoldable pub validate_against : Profile → BackendCapabilities → List Issue
unfolding gather resource_tests capability_tests
validate_against p caps = gather (resource_tests p.resources) ++ gather (capability_tests p caps)

-- That no test finds anything.
pub record IsSatisfiable (p : Profile) (caps : BackendCapabilities) : Type 0 where
  pub memory_minimum : p.resources.memory_minimum_bytes ≤ p.resources.memory_idle_bytes
  pub memory_idle : p.resources.memory_idle_bytes ≤ p.resources.memory_active_bytes
  pub vcpus_minimum : p.resources.vcpus_minimum ≤ p.resources.vcpus_idle
  pub vcpus_idle : p.resources.vcpus_idle ≤ p.resources.vcpus_active
  pub hardware_tpm :
      p.tpm.mode ≡ hardware_passthrough → caps.supports_hardware_tpm_passthrough ≡ true
  pub pci : p.gpu.mode ≡ codes "passthrough" → caps.supports_pci_passthrough_at_boot ≡ true
  pub attestation :
      p.meta.attestation_required ≡ true → caps.supports_hyperv_compatible_attestation ≡ true
  pub suspend :
      (s : ℕ) → p.autostart.suspend_after_idle ≡ some s → caps.supports_suspend_resume ≡ true
  pub usb :
      p.usb.mode ≡ codes "policy"
      → p.usb.explicit_routes ≢ []
      → caps.supports_usb_passthrough ≡ true
  pub software_tpm : p.tpm.mode ≡ swtpm → caps.supports_swtpm ≡ true

append-eq-nil {ℓ} : {A : Type ℓ} (xs ys : List A) → xs ++ ys ≡ [] → (xs ≡ []) × (ys ≡ [])
append-eq-nil [] ys h = (refl, h)
append-eq-nil (x ∷ xs) ys h = cc

gather-eq-nil : (l : List (Bool × Issue)) → (gather l ≡ []) ↔ All (λ t. t.0 ≡ false) l
unfolding gather
gather-eq-nil [] = (λ _. tt, λ _. refl)
gather-eq-nil ((test, issue) ∷ rest) = ground (arith, gather-eq-nil rest)

-- A test for the issue is among the tests, and holds.
abbrev Fires : Issue → List (Bool × Issue) → Type 0
Fires i [] = ⊥
Fires i ((test, issue) ∷ rest) = ((i ≡ issue) × (test ≡ true)) ⊎ Fires i rest

gather-In : (i : Issue) (l : List (Bool × Issue)) → In i (gather l) ↔ Fires i l
unfolding gather
gather-In i [] = (λ h. h, λ h. h)
gather-In i ((true, issue) ∷ rest) =
    let ih = gather-In i rest in
    (
      λ h. elim h [ inl e ↦ inl (e, refl) | inr k ↦ inr (ih.0 k) ],
      λ h. elim h [ inl (e, _) ↦ inl e | inr k ↦ inr (ih.1 k) ],
    )
gather-In i ((false, issue) ∷ rest) =
    let ih = gather-In i rest in
    (λ h. inr (ih.0 h), λ h. elim h [ inl (e, k) ↦ cc k | inr k ↦ ih.1 k ])

module _ (p : Profile) (caps : BackendCapabilities) where
  IsSatisfiable-of_tests :
      All (λ t. t.0 ≡ false) (resource_tests p.resources)
      → All (λ t. t.0 ≡ false) (capability_tests p caps)
      → IsSatisfiable p caps
  unfolding resource_tests capability_tests
  IsSatisfiable-of_tests r c = record {
    memory_minimum = ground arith;
    memory_idle = ground arith;
    vcpus_minimum = ground arith;
    vcpus_idle = ground arith;
    hardware_tpm = λ e. ground arith;
    pci = λ e. ground (arith, text_beq_iff p.gpu.mode (codes "passthrough"));
    attestation = λ e. ground arith;
    suspend = λ s e. ground arith;
    usb = λ e n. ground (arith, text_beq_iff p.usb.mode (codes "policy"));
    software_tpm = λ e. ground arith;
  }

  tests_of_resources : IsSatisfiable p caps → All (λ t. t.0 ≡ false) (resource_tests p.resources)
  unfolding resource_tests
  tests_of_resources h =
      ground (arith, h.memory_minimum, h.memory_idle, h.vcpus_minimum, h.vcpus_idle)

  tests_of_capabilities : IsSatisfiable p caps → All (λ t. t.0 ≡ false) (capability_tests p caps)
  unfolding capability_tests
  tests_of_capabilities h = (
    ground (arith, h.hardware_tpm),
    (
      ground (arith, h.pci, text_beq_iff p.gpu.mode (codes "passthrough")),
      (
        ground (arith, h.attestation),
        (
          suspend_test p.autostart.suspend_after_idle h.suspend,
          (
            ground (arith, h.usb, text_beq_iff p.usb.mode (codes "policy")),
            (ground (arith, h.software_tpm), tt),
          ),
        ),
      ),
    ),
  )
    where
      suspend_test :
          (o : Option ℕ)
          → ((s : ℕ) → o ≡ some s → caps.supports_suspend_resume ≡ true)
          → (is_some o && not caps.supports_suspend_resume) ≡ false
      suspend_test none k = refl
      suspend_test (some s) k = rw (k s refl)

  -- What makes the validation report an issue, with the values that it shows.
  abbrev pub Raises : Issue → Type 0
  Raises (memory_minimum_exceeds_idle minimum idle) =
      (minimum ≡ p.resources.memory_minimum_bytes)
      × (idle ≡ p.resources.memory_idle_bytes)
      × (idle < minimum)
  Raises (memory_idle_exceeds_active idle active) =
      (idle ≡ p.resources.memory_idle_bytes)
      × (active ≡ p.resources.memory_active_bytes)
      × (active < idle)
  Raises vcpus_minimum_exceeds_idle = p.resources.vcpus_idle < p.resources.vcpus_minimum
  Raises vcpus_idle_exceeds_active = p.resources.vcpus_active < p.resources.vcpus_idle
  Raises (hardware_tpm_missing backend) =
      (backend ≡ caps.backend_name)
      × (p.tpm.mode ≡ hardware_passthrough)
      × (caps.supports_hardware_tpm_passthrough ≡ false)
  Raises (pci_passthrough_missing backend) =
      (backend ≡ caps.backend_name)
      × (p.gpu.mode ≡ codes "passthrough")
      × (caps.supports_pci_passthrough_at_boot ≡ false)
  Raises (attestation_missing backend) =
      (backend ≡ caps.backend_name)
      × (p.meta.attestation_required ≡ true)
      × (caps.supports_hyperv_compatible_attestation ≡ false)
  Raises (suspend_resume_missing backend) =
      (backend ≡ caps.backend_name)
      × (p.autostart.suspend_after_idle ≢ none)
      × (caps.supports_suspend_resume ≡ false)
  Raises (usb_passthrough_missing backend) =
      (backend ≡ caps.backend_name)
      × (p.usb.mode ≡ codes "policy")
      × (p.usb.explicit_routes ≢ [])
      × (caps.supports_usb_passthrough ≡ false)
  Raises (swtpm_missing backend) =
      (backend ≡ caps.backend_name) × (p.tpm.mode ≡ swtpm) × (caps.supports_swtpm ≡ false)

  Fires-Raises :
      (i : Issue)
      → (Fires i (resource_tests p.resources) ⊎ Fires i (capability_tests p caps)) ↔ Raises i
  unfolding resource_tests capability_tests
  Fires-Raises (memory_minimum_exceeds_idle minimum idle) = ground arith
  Fires-Raises (memory_idle_exceeds_active idle active) = ground arith
  Fires-Raises vcpus_minimum_exceeds_idle = ground arith
  Fires-Raises vcpus_idle_exceeds_active = ground arith
  Fires-Raises (hardware_tpm_missing backend) = ground arith
  Fires-Raises (pci_passthrough_missing backend) =
      ground (arith, text_beq_iff p.gpu.mode (codes "passthrough"))
  Fires-Raises (attestation_missing backend) = ground arith
  Fires-Raises (suspend_resume_missing backend) = ground arith
  Fires-Raises (usb_passthrough_missing backend) =
      ground (arith, text_beq_iff p.usb.mode (codes "policy"))
  Fires-Raises (swtpm_missing backend) = ground arith

  none_reported : (validate_against p caps ≡ []) ↔ IsSatisfiable p caps
  unfolding validate_against
  none_reported =
      let r = resource_tests p.resources in
      let c = capability_tests p caps in
      (
        λ e.
            let (er, ec) = append-eq-nil (gather r) (gather c) e in
            IsSatisfiable-of_tests ((gather-eq-nil r).0 er) ((gather-eq-nil c).0 ec),
        λ h.
            rw ((gather-eq-nil r).1 (tests_of_resources h))
              ((gather-eq-nil c).1 (tests_of_capabilities h)),
      )

  -- Each of the ten issues is reported exactly when it has its cause, with the values that it shows.
  -- So none is reported exactly when minimum, idle and active figures of memory and processors are in
  -- order, and of hardware TPM, PCI passthrough at boot, attestation, suspend and resume, USB
  -- passthrough and software TPM the backend supports those that the profile asks for. What else a
  -- profile may demand, as in `capabilities_required`, is not tested.
  pub validate_against_iff :
      ((i : Issue) → In i (validate_against p caps) ↔ Raises i)
      × ((validate_against p caps ≡ []) ↔ IsSatisfiable p caps)
  unfolding validate_against
  validate_against_iff = (
    λ i.
        let r = gather (resource_tests p.resources) in
        let c = gather (capability_tests p caps) in
        let cause = Fires-Raises i in
        (
          λ h. cause.0 (elim (In-append i r c h) [
            | inl k ↦ inl ((gather-In i (resource_tests p.resources)).0 k)
            | inr k ↦ inr ((gather-In i (capability_tests p caps)).0 k)
          ]),
          λ h. elim (cause.1 h) [
            | inl k ↦ In-append_left i r c ((gather-In i (resource_tests p.resources)).1 k)
            | inr k ↦ In-append_right i r c ((gather-In i (capability_tests p caps)).1 k)
          ],
        ),
    none_reported,
  )
