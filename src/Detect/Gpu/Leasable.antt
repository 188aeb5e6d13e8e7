-- ===== src/Detect/Gpu/Leasable.antt =====
-- When a card can be handed to a guest.
use rotten_apple.Prelude.{
  All, Bool-cases, In, List, Option, Option-cases, Text, [], ap, arith, false, if_elim, inl, inr,
  nat_eq, none, refl, some, subst, sym, text_beq_iff, text_eq, true, ℕ, ◌==◌, ◌↔◌, ◌∙◌, ◌∷◌, ◌≡◌,
  ◌⊎◌,
}
use rotten_apple.Detect.Gpu.{
  Sysfs, GpuRole, leasable, locked, iommu_off, is_framebuffer, bdf_root, is_pci_bridge, group_role,
  role_in_group, compute_role, describe, described, pushed, sort_gpus, insert_gpu, GpuDevice,
  is_gpu_class, before, enumerate_gpus_under, framebuffer_bdf_under, enumerate_from,
}

-- What may share a group with a card: the card, its other functions, and bridges, and of these none
-- that drives the display.
abbrev pub MayShare : Sysfs → (bdf : Text) → (framebuffer_bdf : Option Text) → Text → Type 0
MayShare sys bdf fb other =
    (other ≡ bdf)
    ⊎ ((is_framebuffer other fb ≡ false)
        × ((bdf_root other ≡ bdf_root bdf) ⊎ (is_pci_bridge sys other ≡ true)))

test-eq : (s t : Text) → (s == t) ≡ true → s ≡ t
test-eq s t e = (text_beq_iff s t).0 e

eq-test : (s t : Text) → s ≡ t → (s == t) ≡ true
eq-test s t e = (text_beq_iff s t).1 e

module _ (sys : Sysfs) (bdf : Text) (fb : Option Text) where
  group_leasable :
      (l : List Text) → group_role sys bdf fb l ≡ leasable → All (MayShare sys bdf fb) l
  unfolding group_role
  group_leasable [] h = tt
  group_leasable (o ∷ os) h =
      if_elim Shares (o == bdf) (λ e k. (inl (test-eq o bdf e), group_leasable os k))
        (λ _.
          if_elim Shares (is_framebuffer o fb) (λ _ k. cc k)
            (λ n.
              if_elim Shares (bdf_root o == bdf_root bdf)
                (λ e k. (inr (n, inl (test-eq (bdf_root o) (bdf_root bdf) e)), group_leasable os k))
                (λ _.
                  if_elim Shares (is_pci_bridge sys o)
                    (λ e k. (inr (n, inr e), group_leasable os k)) (λ _ k. cc k))))
        h
    where
      Shares : GpuRole → Type 0
      Shares r = r ≡ leasable → All (MayShare sys bdf fb) (o ∷ os)

  leasable_group :
      (l : List Text) → All (MayShare sys bdf fb) l → group_role sys bdf fb l ≡ leasable
  unfolding group_role
  leasable_group [] h = refl
  leasable_group (o ∷ os) (inl e, h) =
      let q = eq-test o bdf e in ground (arith, leasable_group os h)
  leasable_group (o ∷ os) (inr (n, inl e), h) =
      let q = eq-test (bdf_root o) (bdf_root bdf) e in ground (arith, leasable_group os h)
  leasable_group (o ∷ os) (inr (n, inr e), h) = ground (arith, leasable_group os h)

  -- A card alone with its own functions and bridges, in a group that can be read.
  abbrev pub IsIsolated : Option ℕ → Type 0
  IsIsolated group =
      (is_framebuffer bdf fb ≡ false)
      × (n : ℕ) × (devices : List Text) × (group ≡ some n)
      × (sys.group_devices n ≡ some devices)
      × All (MayShare sys bdf fb) devices

  role-IsIsolated :
      (group : Option ℕ)
      → is_framebuffer bdf fb ≡ false
      → role_in_group sys bdf fb group ≡ leasable
      → IsIsolated group
  unfolding role_in_group
  role-IsIsolated none f h = cc
  role-IsIsolated (some n) f h = elim (Option-cases (sys.group_devices n)) [
    | inl e ↦ cc (sym (unread e) ∙ h)
    | inr (ds, e) ↦ (f, n, ds, refl, e, group_leasable ds (sym (read ds e) ∙ h))
  ]
    where
      unread : sys.group_devices n ≡ none → role_in_group sys bdf fb (some n) ≡ locked iommu_off
      unread e = rw (e, role_in_group)

      read :
          (ds : List Text)
          → sys.group_devices n ≡ some ds
          → role_in_group sys bdf fb (some n) ≡ group_role sys bdf fb ds
      read ds e = rw (e, role_in_group)

  compute_role_iff :
      (group : Option ℕ) → (compute_role bdf fb group sys ≡ leasable) ↔ IsIsolated group
  unfolding compute_role role_in_group
  compute_role_iff group = (
    λ h.
        if_elim (λ r. r ≡ leasable → IsIsolated group) (is_framebuffer bdf fb) (λ _ k. cc k)
          (λ f k. role-IsIsolated group f k) h,
    λ i. let m = leasable_group i.2 i.5 in rw (i.0, i.3, role_in_group, i.4) m,
  )

module _ (sys : Sysfs) where
  In-insert_gpu : (g h : GpuDevice) (l : List GpuDevice) → In g (insert_gpu h l) → (g ≡ h) ⊎ In g l
  unfolding insert_gpu
  In-insert_gpu g h [] m = m
  In-insert_gpu g h (k ∷ l) m = elim (Bool-cases (before k h)) [
    | inl e ↦ elim (subst (In g) (kept e) m) [
      | inl q ↦ inr (inl q)
      | inr n ↦ elim (In-insert_gpu g h l n) [ inl q ↦ inl q | inr i ↦ inr (inr i) ]
    ]
    | inr e ↦ subst (In g) (placed e) m
  ]
    where
      kept : before k h ≡ true → insert_gpu h (k ∷ l) ≡ k ∷ insert_gpu h l
      kept e = rw (e, insert_gpu)

      placed : before k h ≡ false → insert_gpu h (k ∷ l) ≡ h ∷ k ∷ l
      placed e = rw (e, insert_gpu)

  In-sort_gpus : (g : GpuDevice) (l : List GpuDevice) → In g (sort_gpus l) → In g l
  unfolding sort_gpus
  In-sort_gpus g (h ∷ l) m = elim (In-insert_gpu g h (sort_gpus l) m) [
    | inl q ↦ inl q
    | inr n ↦ inr (In-sort_gpus g l n)
  ]
  In-sort_gpus g [] m = m

  describe_role :
      (fb : Option Text) (bdf : Text) (g : GpuDevice)
      → describe sys fb bdf ≡ some g
      → (g.bdf ≡ bdf)
        × (g.role ≡ compute_role g.bdf fb g.iommu_group sys)
        × (is_gpu_class sys g.bdf ≡ true)
  unfolding describe
  describe_role fb bdf g h = ground arith

  In-pushed :
      (o : Option GpuDevice) (g : GpuDevice) (l : List GpuDevice)
      → In g (pushed o l)
      → (o ≡ some g) ⊎ In g l
  In-pushed none g l m = inr m
  In-pushed (some h) g l (inl q) = inl (ap some (sym q))
  In-pushed (some h) g l (inr n) = inr n

  -- What is known of a listed card.
  abbrev IsDescribed : (fb : Option Text) → GpuDevice → Type 0
  IsDescribed fb g =
      (g.role ≡ compute_role g.bdf fb g.iommu_group sys) × (is_gpu_class sys g.bdf ≡ true)

  In-described :
      (fb : Option Text) (g : GpuDevice) (l : List Text)
      → In g (described sys fb l)
      → IsDescribed fb g
  unfolding described
  In-described fb g [] m = elim m [ ]
  In-described fb g (n ∷ l) m = elim (In-pushed (describe sys fb n) g (described sys fb l) m) [
    | inl e ↦ let d = describe_role fb n g e in (d.1, d.2)
    | inr i ↦ In-described fb g l i
  ]

  In-enumerate :
      (names : Option (List Text)) (g : GpuDevice)
      → In g (enumerate_from sys names)
      → IsDescribed (framebuffer_bdf_under sys) g
  unfolding enumerate_from
  In-enumerate none g m = elim m [ ]
  In-enumerate (some names) g m =
      let fb = framebuffer_bdf_under sys in
      In-described fb g names (In-sort_gpus g (described sys fb names) m)

  -- Every card that is listed is a display controller, and it is leasable exactly when it does not
  -- drive the display, and its IOMMU group is known, can be read, and holds besides the card nothing
  -- but its own functions and bridges, none of which drives the display.
  pub enumerate_gpus_under_lem :
      (g : GpuDevice)
      → In g (enumerate_gpus_under sys)
      → (is_gpu_class sys g.bdf ≡ true)
        × ((g.role ≡ leasable) ↔ IsIsolated sys g.bdf (framebuffer_bdf_under sys) g.iommu_group)
  unfolding enumerate_gpus_under
  enumerate_gpus_under_lem g m =
      let d = In-enumerate sys.pci_devices g m in
      let i = compute_role_iff sys g.bdf (framebuffer_bdf_under sys) g.iommu_group in
      (d.1, (λ e. i.0 (sym d.0 ∙ e), λ h. d.0 ∙ i.1 h))
