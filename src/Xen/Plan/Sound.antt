-- ===== src/Xen/Plan/Sound.antt =====
-- When a profile has a plan, and what every plan satisfies.
use rotten_apple.Prelude.{
  All, Bool, Bool-cases, List, Option, Option-cases, Result-cases, Text, [], ap, arith, codes,
  if◌then◌else◌, inl, inr, length, map, none, ok, ok-injective, refl, some, subst, suc, sym,
  text_beq, text_beq_iff, true, zero, ℕ, ◌++◌, ◌+◌, ◌↔◌, ◌∙◌, ◌∷◌, ◌≡◌, ◌≢◌, ◌≤◌,
}
use rotten_apple.Manifest.{Profile, StorageSpec, NetworkInterface, Gpu, TpmMode, no_tpm}
use rotten_apple.Backend.PciAddr.{PciAddr, from_str}
use rotten_apple.Xen.Mode.{XenDomainMode, hvm, place, select_mode, wants_tpm}
use rotten_apple.Xen.Plan.{
  raw, phy, DiskPlan, Net, DomainConfigPlan, NicPlan, pick_format_backend, disk_plan, extra_vdev,
  extra_disks, is_hvm, passthrough, from_profile, planned,
}

-- The names from a letter on, one for each disk.
pub letters : ℕ → ℕ → List Text
letters c zero = []
letters c (suc n) = (codes "xvd" ++ (c ∷ [])) ∷ letters (suc c) n

-- The raw back end reads the sectors of the source as they are, so no other format may go there.
pub IsReadable : DiskPlan → Type 0
IsReadable d = d.backend ≡ phy → d.format ≡ raw

pick_format_backend-raw :
    (kind : Text) → (pick_format_backend kind).1 ≡ phy → (pick_format_backend kind).0 ≡ raw
unfolding pick_format_backend
pick_format_backend-raw kind h = ground arith

disk_plan-IsReadable : (src vdev : Text) (spec : StorageSpec) → IsReadable (disk_plan src vdev spec)
unfolding IsReadable disk_plan
disk_plan-IsReadable src vdev spec = pick_format_backend-raw spec.kind

-- A domain that has firmware, and one that has a kernel loaded by pygrub.
pub record IsPlan (p : Profile) (mode : XenDomainMode) (plan : DomainConfigPlan) : Type 0 where
  pub as_asked : plan.mode ≡ mode
  pub boots : (plan.bootloader ≡ none) ↔ (mode ≡ hvm)
  pub emulates : All (λ n. n.nictype_is_ioemu ≡ is_hvm mode) plan.nics
  pub no_growth : plan.max_memkb ≡ plan.target_memkb
  pub readable : All IsReadable plan.disks
  pub named : map (λ d. d.vdev) plan.disks ≡ letters b'a' (suc (length p.storage.extra_disks))

extra_disks-cons :
    (i : ℕ) (spec : StorageSpec) (specs : List StorageSpec) (disks : List DiskPlan)
    → extra_disks i (spec ∷ specs) ≡ ok disks
    → (src : Text) × (rest : List DiskPlan) × (place spec ≡ some src)
      × (extra_disks (suc i) specs ≡ ok rest)
      × (disks ≡ disk_plan src (extra_vdev i) spec ∷ rest)
unfolding extra_disks
extra_disks-cons i spec specs disks h = elim (Option-cases (place spec)) [
  | inl e ↦ absurd (ground arith)
  | inr (src, e) ↦ elim (Result-cases (extra_disks (suc i) specs)) [
    | inr (x, r) ↦ absurd (ground arith)
    | inl (rest, r) ↦ (src, rest, e, r, ok-injective (sym h ∙ rw (e, extra_disks) (rw r refl)))
  ]
]

extra_disks_sound :
    (i : ℕ) (specs : List StorageSpec) (disks : List DiskPlan)
    → i + length specs ≤ 25
    → extra_disks i specs ≡ ok disks
    → All IsReadable disks × (map (λ d. d.vdev) disks ≡ letters (98 + i) (length specs))
unfolding extra_disks letters
extra_disks_sound i [] disks l h = rw (sym (ok-injective h)) (tt, refl)
extra_disks_sound i (spec ∷ specs) disks l h =
    let (src, rest, e, r, same) = extra_disks-cons i spec specs disks h in
    let (readable, named) = extra_disks_sound (suc i) specs rest (omega arith) r in
    rw same (
      (disk_plan-IsReadable src (extra_vdev i) spec, readable),
      ap (λ c. (codes "xvd" ++ (c ∷ [])) ∷ map (λ d. d.vdev) rest) (omega arith)
          ∙ ap (λ l. (codes "xvd" ++ ((98 + i) ∷ [])) ∷ l)
              (named ∙ ap (λ c. letters c (length specs)) (omega arith)),
    )

module _ (net : Net) (p : Profile) (mode : XenDomainMode) where
  -- What a profile must have: a place for each disk, and an address that parses when a device is to
  -- be passed through.
  pub record IsPlannable : Type 0 where
    pub root : (src : Text) × (place p.storage.root ≡ some src)
    pub extras : All (λ spec. (src : Text) × (place spec ≡ some src)) p.storage.extra_disks
    pub device :
        p.gpu.mode ≡ codes "passthrough"
        → (bdf : Text) × (addr : PciAddr) × (p.gpu.device ≡ some bdf)
          × (from_str net.debug_str bdf ≡ ok addr)

  nics-emulate :
      (is : List NetworkInterface) (bridge : Text)
      → All {A = NicPlan}
          (λ n. n.nictype_is_ioemu ≡ is_hvm mode)
          (map (λ i. record { bridge = bridge; nictype_is_ioemu = is_hvm mode }) is)
  nics-emulate [] bridge = tt
  nics-emulate (i ∷ is) bridge = (refl, nics-emulate is bridge)

  boots_iff :
      ◌≡◌ {A = Option Text} (if is_hvm mode then none else some (codes "pygrub")) none
      ↔ (mode ≡ hvm)
  boots_iff = ground arith

  planned_sound :
      (src : Text) (extras : List DiskPlan) (pci : List PciAddr)
      → All IsReadable extras
      → map (λ d. d.vdev) extras ≡ letters 98 (length p.storage.extra_disks)
      → IsPlan p mode (planned net p mode src extras pci)
  unfolding planned letters disk_plan
  planned_sound src extras pci readable named = record {
    as_asked = refl;
    boots = boots_iff;
    emulates = nics-emulate p.network.interfaces _;
    no_growth = refl;
    readable = (disk_plan-IsReadable src (codes "xvda") p.storage.root, readable);
    named = ap (λ l. codes "xvda" ∷ l) named;
  }

  -- A profile with at most 25 extra disks gets a plan that fits its mode: pygrub exactly without
  -- firmware, emulated network cards exactly with it, no memory beyond the target, no disk image on
  -- the raw back end, and the disks named xvda, xvdb and so on in their order.
  pub from_profile-IsPlan :
      (plan : DomainConfigPlan)
      → length p.storage.extra_disks ≤ 25
      → from_profile net p mode ≡ ok plan
      → IsPlan p mode plan
  unfolding from_profile
  from_profile-IsPlan plan few h = elim (Option-cases (place p.storage.root)) [
    | inl e ↦ absurd (ground arith)
    | inr (src, e) ↦ elim (Result-cases (extra_disks 0 p.storage.extra_disks)) [
      | inr (x, r) ↦ absurd (ground arith)
      | inl (extras, r) ↦ elim (Result-cases (passthrough net p.gpu)) [
        | inr (x, g) ↦ absurd (ground arith)
        | inl (pci, g) ↦
            let (readable, named) =
              extra_disks_sound 0 p.storage.extra_disks extras (omega arith) r in
            let computed : from_profile net p mode ≡ ok (planned net p mode src extras pci) =
              rw (e, from_profile) (rw r (rw g refl)) in
            subst (λ q. IsPlan p mode q) (ok-injective (sym computed ∙ h))
              (planned_sound src extras pci readable named)
      ]
    ]
  ]

  extra_disks_complete :
      (i : ℕ) (specs : List StorageSpec)
      → All (λ spec. (src : Text) × (place spec ≡ some src)) specs
      → (disks : List DiskPlan) × (extra_disks i specs ≡ ok disks)
  unfolding extra_disks
  extra_disks_complete i [] h = ([], refl)
  extra_disks_complete i (spec ∷ specs) h =
      let (disks, e) = extra_disks_complete (suc i) specs h.1 in
      (disk_plan h.0.0 (extra_vdev i) spec ∷ disks, rw (h.0.1, extra_disks) (rw e refl))

  passthrough_complete :
      (g : Gpu)
      → (g.mode ≡ codes "passthrough"
          → (bdf : Text) × (addr : PciAddr) × (g.device ≡ some bdf)
            × (from_str net.debug_str bdf ≡ ok addr))
      → (pci : List PciAddr) × (passthrough net g ≡ ok pci)
  unfolding passthrough
  passthrough_complete g h = elim (Bool-cases (text_beq g.mode (codes "passthrough"))) [
    | inr e ↦ ([], rw (e, passthrough) refl)
    | inl e ↦
        let (bdf, addr, d, parsed) = h ((text_beq_iff g.mode (codes "passthrough")).0 e) in
        (addr ∷ [], rw (e, passthrough) (rw d (rw parsed refl)))
  ]

  -- A profile that gives a place for each disk, has at most 25 extra disks, and names a device that
  -- parses if it wants one passed through, gets a plan.
  pub from_profile_total :
      IsPlannable
      → length p.storage.extra_disks ≤ 25
      → (plan : DomainConfigPlan) × (from_profile net p mode ≡ ok plan) × IsPlan p mode plan
  unfolding from_profile
  from_profile_total h few =
      let (src, e) = h.root in
      let (extras, r) = extra_disks_complete 0 p.storage.extra_disks h.extras in
      let (pci, g) = passthrough_complete p.gpu h.device in
      let computed : from_profile net p mode ≡ ok (planned net p mode src extras pci) =
        rw (e, from_profile) (rw r (rw g refl)) in
      (planned net p mode src extras pci, computed, from_profile-IsPlan _ few computed)

module _ (net : Net) (debug_tpm : TpmMode → Text) (looks_linux : Text → Bool) (p : Profile) where
  -- A guest with a TPM, emulated or real, is planned with firmware and emulated network cards,
  -- whatever is on its disk.
  pub select_mode-tpm :
      (plan : DomainConfigPlan)
      → p.tpm.mode ≢ no_tpm
      → from_profile net p (select_mode debug_tpm looks_linux p).mode ≡ ok plan
      → length p.storage.extra_disks ≤ 25
      → (plan.mode ≡ hvm)
        × (plan.bootloader ≡ none)
        × All (λ n. n.nictype_is_ioemu ≡ true) plan.nics
  unfolding select_mode
  select_mode-tpm plan tpm h few =
      let mode = (select_mode debug_tpm looks_linux p).mode in
      let is_plan = from_profile-IsPlan net p mode plan few h in
      let firmware : mode ≡ hvm = rw (wants p.tpm.mode tpm, select_mode) refl in
      (
        is_plan.as_asked ∙ firmware,
        is_plan.boots.1 firmware,
        subst (λ m. All {A = NicPlan} (λ n. n.nictype_is_ioemu ≡ is_hvm m) plan.nics) firmware
            is_plan.emulates,
      )
    where
      wants : (t : TpmMode) → t ≢ no_tpm → wants_tpm t ≡ true
      wants t n = ground arith
