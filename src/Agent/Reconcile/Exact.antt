-- ===== src/Agent/Reconcile/Exact.antt =====
-- The plan holds exactly the actions that the wanted and the observed state call for.
use rotten_apple.Prelude.{
  All, Bool-cases, First, In, Text, [], ap, arith, inl, inr, none, refl, some, text_beq,
  text_beq_iff, true, ◌*◌, ◌/◌, ◌↔◌, ◌∷◌, ◌≡◌, ◌≢◌, ◌⊎◌,
}
use rotten_apple.BTreeMap
use rotten_apple.BTreeMap.{BTreeMap}
use rotten_apple.Fabric.NodeId.{NodeId}
use rotten_apple.Manifest.{Profile}
use rotten_apple.Agent.Truth.{
  TruthEntry, Truth, running, absent, find_in, find_by_manifest, reports, reports-true,
}
use rotten_apple.Agent.Wanted.{WantedEntry, WantedState}
use rotten_apple.Agent.Reconcile.{
  create, balloon, wrong_anchor, bad_manifest, local, profile_memory_active_mb, ReconcileAction,
  destroy_unknown, reconcile,
}
use rotten_apple.Agent.Reconcile.Asks.{IsMissing, RunsHere, PinnedTo, Asks}
use rotten_apple.Agent.Reconcile.Parts.{IsUnknown, reconcile_lem}

-- The domain reports the manifest.
abbrev pub Reports : Text → Text × TruthEntry → Type 0
Reports m (k, d) = d.manifest_id ≡ some m

reports-of_Reports : (m : Text) (d : TruthEntry) → d.manifest_id ≡ some m → reports m d ≡ true
reports-of_Reports m d e = rw e ((text_beq_iff m m).1 refl)

find_in_iff :
    (m : Text) (ds : BTreeMap TruthEntry) (d : TruthEntry)
    → (find_in m ds ≡ some d) ↔ ((k : Text) × First (Reports m) ds (k, d))
unfolding find_in
find_in_iff m [] d = (λ h. cc, λ (k, f). elim f [ ])
find_in_iff m ((j, c) ∷ ds) d =
    let ih = find_in_iff m ds d in
    elim (Bool-cases (reports m c)) [
      | inl r ↦ (
        λ h. let e : c ≡ d = ground (arith, r) in (j, inl (cc e, reports-true m c r)),
        λ (k, f). elim f [
          | inl (e, q) ↦ rw r (ap (λ (x : Text × TruthEntry). some x.1) e)
          | inr (n, g) ↦ absurd (n (reports-true m c r))
        ],
      )
      | inr r ↦ (
        λ h.
            let (k, f) = ih.0 (ground (arith, r)) in
            (k, inr (λ q. cc (r, reports-of_Reports m c q), f)),
        λ (k, f). elim f [
          | inl (e, q) ↦ cc (r, reports-of_Reports m c q)
          | inr (n, g) ↦ rw r (ih.1 (k, g))
        ],
      )
    ]

find_in-none :
    (m : Text) (ds : BTreeMap TruthEntry) → (find_in m ds ≡ none) ↔ All (λ d. ¬ Reports m d) ds
unfolding find_in
find_in-none m [] = (λ _. tt, λ _. refl)
find_in-none m ((j, c) ∷ ds) =
    let ih = find_in-none m ds in
    elim (Bool-cases (reports m c)) [
      | inl r ↦ (λ h. ground (arith, r), λ h. absurd (h.0 (reports-true m c r)))
      | inr r ↦ (
        λ h. (λ q. cc (r, reports-of_Reports m c q), ih.0 (ground (arith, r))),
        λ h. rw r (ih.1 h.1),
      )
    ]

-- The domain of a manifest: the first one, in the order of the domain ids, that reports it.
abbrev pub IsDomainOf : Truth → Text → TruthEntry → Type 0
IsDomainOf truth m d = (k : Text) × First (Reports m) truth.domains (k, d)

-- No domain reports the manifest, or the one that does is absent.
abbrev pub IsGone : Truth → Text → Type 0
IsGone truth m =
    All (λ d. ¬ Reports m d) truth.domains
    ⊎ ((d : TruthEntry) × IsDomainOf truth m d × (d.state ≡ absent))

module _ (truth : Truth) (this_node : NodeId) (m : Text) (e : WantedEntry) where
  -- When the wanted entry `e` of the key `m` calls for an action.
  abbrev pub Calls : ReconcileAction → Type 0
  Calls (create n) =
      (n ≡ m) × ((p : Profile) × (e.parsed ≡ some p) × RunsHere p this_node × IsGone truth m)
  Calls (balloon n id mb) =
      (n ≡ m)
      × ((p : Profile) × (d : TruthEntry) × (e.parsed ≡ some p)
          × RunsHere p this_node
          × IsDomainOf truth m d
          × (d.state ≡ running)
          × (id ≡ d.domain_id)
          × (mb ≡ p.resources.memory_active_bytes / (1024 * 1024))
          × (mb ≢ d.memory_mb))
  Calls (destroy_unknown id) = ⊥
  Calls (wrong_anchor n expected here) =
      (n ≡ m)
      × (here ≡ this_node.text)
      × ((p : Profile) × (e.parsed ≡ some p) × PinnedTo p this_node expected)
  Calls (bad_manifest n) = (n ≡ m) × (e.parsed ≡ none)
  Calls (local n) = ⊥

  IsGone-iff : IsMissing (find_by_manifest truth m) ↔ IsGone truth m
  unfolding find_by_manifest
  IsGone-iff = (
    λ h. elim h [
      | inl n ↦ inl ((find_in-none m truth.domains).0 n)
      | inr (d, f, s) ↦ inr (d, (find_in_iff m truth.domains d).0 f, s)
    ],
    λ h. elim h [
      | inl n ↦ inl ((find_in-none m truth.domains).1 n)
      | inr (d, f, s) ↦ inr (d, (find_in_iff m truth.domains d).1 f, s)
    ],
  )

  Calls-iff : (a : ReconcileAction) → Asks truth this_node m e a ↔ Calls a
  unfolding find_by_manifest profile_memory_active_mb
  Calls-iff (create n) = (
    λ (k, (p, q, r, f)). (k, (p, q, r, IsGone-iff.0 f)),
    λ (k, (p, q, r, f)). (k, (p, q, r, IsGone-iff.1 f)),
  )
  Calls-iff (balloon n id mb) = (
    λ (k, (p, d, q, r, f, s, i, w, x)).
        (k, (p, d, q, r, (find_in_iff m truth.domains d).0 f, s, i, w, x)),
    λ (k, (p, d, q, r, f, s, i, w, x)).
        (k, (p, d, q, r, (find_in_iff m truth.domains d).1 f, s, i, w, x)),
  )
  Calls-iff (destroy_unknown id) = (λ h. h, λ h. h)
  Calls-iff (wrong_anchor n expected here) = (λ h. h, λ h. h)
  Calls-iff (bad_manifest n) = (λ h. h, λ h. h)
  Calls-iff (local n) = (λ h. h, λ h. h)

-- A domain that reports a manifest which is not among the wanted ones.
abbrev pub IsStray : BTreeMap WantedEntry → TruthEntry → Type 0
IsStray wanted d = (m : Text) × (d.manifest_id ≡ some m) × All (λ e. e.0 ≢ m) wanted

get-none :
    (m : Text) (es : BTreeMap WantedEntry) → (BTreeMap.get m es ≡ none) ↔ All (λ e. e.0 ≢ m) es
unfolding BTreeMap.get
get-none m [] = (λ _. tt, λ _. refl)
get-none m ((k, e) ∷ es) =
    let ih = get-none m es in
    let same = text_beq_iff k m in
    elim (Bool-cases (text_beq k m)) [
      | inl s ↦ (λ h. ground (arith, s), λ h. absurd (h.0 (same.0 s)))
      | inr s ↦ (λ h. (λ q. cc (s, same.1 q), ih.0 (ground (arith, s))), λ h. rw s (ih.1 h.1))
    ]

IsStray-iff :
    (wanted : BTreeMap WantedEntry) (d : TruthEntry) → IsUnknown wanted d ↔ IsStray wanted d
IsStray-iff wanted d =
    (λ (m, e, g). (m, e, (get-none m wanted).0 g), λ (m, e, g). (m, e, (get-none m wanted).1 g))

module _ (wanted : WantedState) (truth : Truth) (this_node : NodeId) where
  -- When an action is called for: a wanted entry calls for it, or it destroys a domain that reports a
  -- manifest which nobody wants.
  abbrev pub Justified : ReconcileAction → Type 0
  Justified a =
      ((m : Text) × (e : WantedEntry) × In (m, e) wanted.manifests × Calls truth this_node m e a)
      ⊎ ((k : Text) × (d : TruthEntry) × (a ≡ destroy_unknown k)
          × In (k, d) truth.domains
          × IsStray wanted.manifests d)

  -- The plan holds an action exactly if the two states call for it: a wanted manifest that may run here
  -- is created when its domain (the first that reports it) is missing or absent, and resized when
  -- that runs at another size, one
  -- that is pinned elsewhere or does not parse is reported, and every domain that reports a manifest
  -- which is not among the wanted ones is destroyed, whatever that manifest's anchor was.
  pub reconcile_exact :
      (a : ReconcileAction) → In a (reconcile wanted truth this_node).actions ↔ Justified a
  reconcile_exact a =
      let plan = reconcile_lem wanted truth this_node a in
      (
        λ h. elim (plan.0 h) [
          | inl (m, e, i, q) ↦ inl (m, e, i, (Calls-iff truth this_node m e a).0 q)
          | inr (k, d, s, i, u) ↦ inr (k, d, s, i, (IsStray-iff wanted.manifests d).0 u)
        ],
        λ h. elim h [
          | inl (m, e, i, q) ↦ plan.1 (inl (m, e, i, (Calls-iff truth this_node m e a).1 q))
          | inr (k, d, s, i, u) ↦ plan.1 (inr (k, d, s, i, (IsStray-iff wanted.manifests d).1 u))
        ],
      )
