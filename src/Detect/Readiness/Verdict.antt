-- ===== src/Detect/Readiness/Verdict.antt =====
-- When nothing stands against a lift.
use mathlib.Core.List.{cons≢nil}
use rotten_apple.Prelude.{
  &&-eq-true, Bool, Bool-cases, First, In, List, Option, Option-cases, Text, [], ap, arith, codes,
  false, inl, inr, nat_beq, nat_beq_iff, none, refl, some, subst, sym, text_beq_iff, true, ℕ, ◌++◌,
  ◌↔◌, ◌∷◌, ◌≡◌, ◌≤◌,
}
use rotten_apple.Detect.Readiness.{
  starts_with, any_device, Detection, blockers, IommuGroup, PciDevice, Probes, run, when,
  storage_in_gpu_group, lift_blockers, blockers_in, group_blockers, find_group, find_gpu_group,
  has_class,
}

-- Nothing stands against a lift exactly on a host of x86_64 that does not run under Xen and has at
-- least 50 MB free in /boot.
pub blockers_iff :
    (d : Detection)
    → (blockers d ≡ [])
      ↔ ((d.arch ≡ codes "x86_64") × (d.running_under_xen ≡ false) × (50 ≤ d.boot_free_mb))
unfolding blockers
blockers_iff d =
    let e = text_beq_iff d.arch (codes "x86_64") in
    (
      λ h. (e.0 (ground arith), ground arith, ground arith),
      λ h. let k = e.1 h.0 in let x = h.1 in let f = h.2 in ground arith,
    )

when_nil :
    {A : Type 0} (b : Bool) (a : A) (rest : List A)
    → ((when b a ++ rest) ≡ []) ↔ ((b ≡ false) × (rest ≡ []))
when_nil true a rest = (λ h. absurd (cons≢nil h), λ h. cc (h.0))
when_nil false a rest = (λ h. (refl, h), λ h. h.1)

-- The text begins with the prefix.
abbrev pub Begins : (prefix s : Text) → Type 0
Begins prefix s = (rest : Text) × (s ≡ prefix ++ rest)

starts_with_iff : (prefix s : Text) → (starts_with prefix s ≡ true) ↔ Begins prefix s
unfolding starts_with
starts_with_iff [] s = (λ _. (s, refl), λ _. refl)
starts_with_iff (c ∷ p) [] = (λ h. cc, λ (rest, h). cc)
starts_with_iff (c ∷ p) (d ∷ s) =
    let ih = starts_with_iff p s in
    (
      λ h.
          let (same, begins) = &&-eq-true (nat_beq c d) (starts_with p s) h in
          let (rest, e) = ih.0 begins in (rest, cc ((nat_beq_iff c d).0 same, e)),
      λ (rest, h).
          let same : c ≡ d = cc h in
          let begins : s ≡ p ++ rest = cc h in
          rw ((nat_beq_iff c d).1 same, ih.1 (rest, begins)) refl,
    )

-- A device of the class is among the devices.
abbrev pub Holds : (class : Text) → List PciDevice → Type 0
Holds class ds = (d : PciDevice) × In d ds × Begins class d.class_hex

any_device_iff :
    (class : Text) (ds : List PciDevice) → (any_device class ds ≡ true) ↔ Holds class ds
unfolding any_device
any_device_iff class [] = (λ h. cc, λ (d, h, b). elim h [ ])
any_device_iff class (d ∷ ds) =
    let here = starts_with_iff class d.class_hex in
    let there = any_device_iff class ds in
    (
      λ h. elim (Bool-cases (starts_with class d.class_hex)) [
        | inl s ↦ (d, inl refl, here.0 s)
        | inr s ↦ let (e, i, b) = there.0 (ground arith) in (e, inr i, b)
      ],
      λ (e, i, b). elim i [
        | inl k ↦
            let s = here.1 (subst (λ (x : PciDevice). Begins class x.class_hex) k b) in rw s refl
        | inr k ↦ let s = there.1 (e, k, b) in ground arith
      ],
    )

clear_iff :
    (id : ℕ) (ds : List PciDevice)
    → (group_blockers id ds ≡ [])
      ↔ ((d : PciDevice) → In d ds → ¬ Begins (codes "0x01") d.class_hex)
unfolding group_blockers
clear_iff id [] = (λ _ d i. elim i [ ], λ _. refl)
clear_iff id (d ∷ ds) =
    let ih = clear_iff id ds in
    let class = starts_with_iff (codes "0x01") d.class_hex in
    let w =
      when_nil (has_class (codes "0x01") d) (storage_in_gpu_group id d.addr d.class_label)
        (group_blockers id ds) in
    (
      λ h e i b. elim i [
        | inl k ↦
            let s = class.1 (subst (λ (x : PciDevice). Begins (codes "0x01") x.class_hex) k b) in
            cc (s, (w.0 h).0)
        | inr k ↦ ih.0 (w.0 h).1 e k b
      ],
      λ h. w.1 (
        elim (Bool-cases (has_class (codes "0x01") d)) [
          | inl s ↦ absurd (h d (inl refl) (class.0 s))
          | inr s ↦ s
        ],
        ih.1 (λ e i. h e (inr i)),
      ),
    )

-- A display controller is in the group.
abbrev pub HasDisplay : IommuGroup → Type 0
HasDisplay g = Holds (codes "0x03") g.devices

abbrev pub HasId : ℕ → IommuGroup → Type 0
HasId id g = g.id ≡ id

find_gpu_group-of_First :
    (gs : List IommuGroup) (g : IommuGroup) → First HasDisplay gs g → find_gpu_group gs ≡ some g.id
unfolding find_gpu_group
find_gpu_group-of_First [] g h = elim h [ ]
find_gpu_group-of_First (k ∷ gs) g (inl (e, d)) =
    let s = (any_device_iff (codes "0x03") k.devices).1 d in
    let i : k.id ≡ g.id = ap (λ (x : IommuGroup). x.id) e in rw s (ap some i)
find_gpu_group-of_First (k ∷ gs) g (inr (n, f)) =
    elim (Bool-cases (any_device (codes "0x03") k.devices)) [
      | inl s ↦ absurd (n ((any_device_iff (codes "0x03") k.devices).0 s))
      | inr s ↦ rw s (find_gpu_group-of_First gs g f)
    ]

First-of_find_gpu_group :
    (gs : List IommuGroup) (id : ℕ)
    → find_gpu_group gs ≡ some id
    → (g : IommuGroup) × First HasDisplay gs g × HasId id g
unfolding find_gpu_group
First-of_find_gpu_group [] id h = cc
First-of_find_gpu_group (k ∷ gs) id h = elim (Bool-cases (any_device (codes "0x03") k.devices)) [
  | inl s ↦ (k, inl (refl, (any_device_iff (codes "0x03") k.devices).0 s), ground arith)
  | inr s ↦
      let (g, f, i) = First-of_find_gpu_group gs id (ground arith) in
      (g, inr (λ d. cc (s, (any_device_iff (codes "0x03") k.devices).1 d), f), i)
]

find_group_iff :
    (id : ℕ) (gs : List IommuGroup) (g : IommuGroup)
    → (find_group id gs ≡ some g) ↔ First (HasId id) gs g
unfolding find_group
find_group_iff id [] g = (λ h. cc, λ h. elim h [ ])
find_group_iff id (k ∷ gs) g =
    let ih = find_group_iff id gs g in
    let t = nat_beq_iff k.id id in
    elim (Bool-cases (nat_beq k.id id)) [
      | inl s ↦ (
        λ h. let e : k ≡ g = ground arith in inl (e, t.0 s),
        λ h. elim h [ inl (e, i) ↦ rw s (ap some e) | inr (n, f) ↦ absurd (n (t.0 s)) ],
      )
      | inr s ↦ (
        λ h. inr (λ i. cc (s, t.1 i), ih.0 (ground arith)),
        λ h. elim h [ inl (e, i) ↦ cc (t.1 i) | inr (n, f) ↦ rw s (ih.1 f) ],
      )
    ]

module _ (groups : List IommuGroup) where
  -- No storage controller is in the group that is looked at, which is the first with the id of the
  -- first group with a display controller.
  abbrev pub IsClear : Type 0
  IsClear =
      (g k : IommuGroup)
      → First HasDisplay groups g
      → First (HasId g.id) groups k
      → (d : PciDevice) → In d k.devices
      → ¬ Begins (codes "0x01") d.class_hex

  IsClear-of_blockers : blockers_in (find_gpu_group groups) groups ≡ [] → IsClear
  unfolding blockers_in
  IsClear-of_blockers h g k f i =
      let gpu = find_gpu_group-of_First groups g f in
      let found = (find_group_iff g.id groups k).1 i in
      (clear_iff g.id k.devices).0 (rw (gpu, found) at h)

  blockers-of_IsClear :
      (o : Option ℕ) → find_gpu_group groups ≡ o → IsClear → blockers_in o groups ≡ []
  unfolding blockers_in
  blockers-of_IsClear none e h = refl
  blockers-of_IsClear (some id) e h = elim (Option-cases (find_group id groups)) [
    | inl f ↦ rw f refl
    | inr (k, f) ↦
        let (g, first, i) = First-of_find_gpu_group groups id e in
        let same_id : First (HasId g.id) groups k =
          subst (λ n. First (HasId n) groups k) (sym i) ((find_group_iff id groups k).0 f) in
        rw f ((clear_iff id k.devices).1 (h g k first same_id))
  ]

-- No blocker is raised against a lift exactly when no storage controller (class 0x01) is in the IOMMU
-- group of the display: the first group with a display controller (class 0x03), or, where several
-- groups share its id, the first of these. Without such a group there is no blocker.
pub lift_blockers_iff :
    (p : Probes) → (lift_blockers (run p) ≡ []) ↔ IsClear p.enumerate_iommu_groups
unfolding lift_blockers run
lift_blockers_iff p =
    let groups = p.enumerate_iommu_groups in
    (IsClear-of_blockers groups, blockers-of_IsClear groups (find_gpu_group groups) refl)
