-- ===== src/Agent/Reconcile/Safety.antt =====
-- What a plan never does, and when it is empty.
use rotten_apple.Prelude.{
  In, List, Option, Option-cases, Text, [], arith, inl, inr, refl, some, subst, sym, ℕ, ◌↔◌, ◌∷◌,
  ◌≡◌, ◌≢◌, ◌⊎◌,
}
use native.Mathlib.Decide.{ℕ_discrete}
use rotten_apple.BTreeMap
use rotten_apple.BTreeMap.{BTreeMap}
use rotten_apple.Fabric.NodeId.{NodeId}
use rotten_apple.Fabric.Event.{EventBody}
use rotten_apple.Manifest.{Profile}
use rotten_apple.Agent.Truth.{
  TruthEntry, Truth, running, transient, absent, find_by_manifest, find_in-some, DomainState,
}
use rotten_apple.Agent.Wanted.{WantedEntry, WantedState, new, run}
use rotten_apple.Agent.Wanted.Validity.{run-IsValid}
use rotten_apple.Agent.Reconcile.{
  ReconcileAction, create, balloon, wrong_anchor, destroy_unknown, bad_manifest, local, elsewhere,
  profile_memory_active_mb, reconcile,
}
use rotten_apple.Agent.Reconcile.Asks.{Asks, RunsHere, PinnedTo, elsewhere-some, elsewhere-none}
use rotten_apple.Agent.Reconcile.Parts.{IsUnknown, reconcile_lem}

module _ (wanted : WantedState) (truth : Truth) (this_node : NodeId) where
  -- A plan touches only domains that report a manifest: what it destroys reports one that nobody
  -- wants, and what it resizes is the domain of a wanted one.
  pub hands_off :
      ((k : Text)
        → In (destroy_unknown k) (reconcile wanted truth this_node).actions
        → (d : TruthEntry) × In (k, d) truth.domains × IsUnknown wanted.manifests d)
      × ((m id : Text) (mb : ℕ)
          → In (balloon m id mb) (reconcile wanted truth this_node).actions
          → (e : WantedEntry) × (k : Text) × (d : TruthEntry) × In (m, e) wanted.manifests
            × In (k, d) truth.domains
            × (d.manifest_id ≡ some m)
            × (d.domain_id ≡ id)
            × (d.memory_mb ≢ mb))
  unfolding find_by_manifest
  hands_off = (
    λ k h. elim ((reconcile_lem wanted truth this_node (destroy_unknown k)).0 h) [
      | inl (m, e, i, q) ↦ absurd q
      | inr (j, d, same_action, i, u) ↦
          let same_key : k ≡ j = cc same_action in
          (d, subst (λ (x : Text). In (x, d) truth.domains) (sym same_key) i, u)
    ],
    λ m id mb h. elim ((reconcile_lem wanted truth this_node (balloon m id mb)).0 h) [
      | inl (n, e, i, (same_key, (p, d, parsed, r, f, s, same_id, w, x))) ↦
          let (reported, (k, place)) = find_in-some n truth.domains d f in
          (
            e,
            k,
            d,
            subst (λ (x' : Text). In (x', e) wanted.manifests) (sym same_key) i,
            place,
            cc (reported, same_key),
            sym same_id,
            λ same_memory. x (sym same_memory),
          )
      | inr (j, d, other, i, u) ↦ cc other
    ],
  )

  -- No plan holds the action `Local`.
  pub never_local : (m : Text) → ¬ In (local m) (reconcile wanted truth this_node).actions
  never_local m h = elim ((reconcile_lem wanted truth this_node (local m)).0 h) [
    | inl (n, e, i, q) ↦ q
    | inr (k, d, p, i, u) ↦ cc p
  ]

module _ (parse : Text → Option Profile) (truth : Truth) (this_node : NodeId) where
  -- From a state that events have built, no plan reports a bad manifest.
  pub never_bad_manifest :
      (events : List (NodeId × ℕ × EventBody)) (m : Text)
      → ¬ In (bad_manifest m) (reconcile (run parse new events) truth this_node).actions
  never_bad_manifest events m h =
      elim ((reconcile_lem (run parse new events) truth this_node (bad_manifest m)).0 h) [
        | inl (n, e, i, (q, unparsed)) ↦
            let v = run-IsValid parse events in
            let entry =
              v.entries n e (BTreeMap.get-In n e (run parse new events).manifests v.sorted i) in
            cc (unparsed, entry.cached)
        | inr (k, d, p, i, u) ↦ cc p
      ]

module _ (truth : Truth) (this_node : NodeId) where
  -- A wanted manifest that runs here, and whose domain is in transition or runs at the wanted size.
  abbrev pub IsSettled : Text → WantedEntry → Type 0
  IsSettled m e =
      (p : Profile) × (d : TruthEntry) × (e.parsed ≡ some p)
      × RunsHere p this_node
      × (find_by_manifest truth m ≡ some d)
      × ((d.state ≡ transient) ⊎ (d.state ≡ running) × (d.memory_mb ≡ profile_memory_active_mb p))

  not_pinned : (p : Profile) (x : Text) → RunsHere p this_node → ¬ PinnedTo p this_node x
  not_pinned p x (inl e) c = cc (e, c.0)
  not_pinned p x (inr (a, e, w)) c = let same_node : a ≡ x = cc (e, c.0) in ground arith

  not_asked :
      (m : Text) (e : WantedEntry)
      → IsSettled m e
      → (a : ReconcileAction) → ¬ Asks truth this_node m e a
  not_asked m e (p, d, q, r, f, s) (create n) (k, (p', q', r', inl f')) = cc (f, f')
  not_asked m e (p, d, q, r, f, s) (create n) (k, (p', q', r', inr (d', f', s'))) = ground arith
  not_asked m e (p, d, q, r, f, s) (balloon n id mb) (k, (p', d', q', r', f', s', i, w, x)) =
      ground arith
  not_asked m e (p, d, q, r, f, s) (destroy_unknown id) h = h
  not_asked m e (p, d, q, r, f, s) (wrong_anchor n x y) (k, i, (p', q', c)) =
      let same_profile : p' ≡ p = cc (q, q') in
      not_pinned p x r (subst (λ (z : Profile). PinnedTo z this_node x) same_profile c)
  not_asked m e (p, d, q, r, f, s) (bad_manifest n) (k, q') = cc (q, q')
  not_asked m e (p, d, q, r, f, s) (local n) h = h

  IsSettled-of_quiet :
      (m : Text) (e : WantedEntry)
      → ((a : ReconcileAction) → ¬ Asks truth this_node m e a)
      → IsSettled m e
  IsSettled-of_quiet m e quiet = elim (Option-cases e.parsed) [
    | inl q ↦ absurd (quiet (bad_manifest m) (refl, q))
    | inr (p, q) ↦ elim (Option-cases (elsewhere p this_node)) [
      | inr (x, w) ↦ absurd (
          quiet (wrong_anchor m x this_node.text)
            (refl, refl, (p, q, elsewhere-some p this_node x w)))
      | inl w ↦ elim (Option-cases (find_by_manifest truth m)) [
        | inl f ↦ absurd (quiet (create m) (refl, (p, q, elsewhere-none p this_node w, inl f)))
        | inr (d, f) ↦ (
          p,
          d,
          q,
          elsewhere-none p this_node w,
          f,
          by_state p q (elsewhere-none p this_node w) d f d.state refl,
        )
      ]
    ]
  ]
    where
      by_state :
          (p : Profile)
          → e.parsed ≡ some p
          → RunsHere p this_node
          → (d : TruthEntry) → find_by_manifest truth m ≡ some d
          → (s : DomainState) → d.state ≡ s
          → (d.state ≡ transient) ⊎ (d.state ≡ running) × (d.memory_mb ≡ profile_memory_active_mb p)
      by_state p q r d f absent k = absurd (quiet (create m) (refl, (p, q, r, inr (d, f, k))))
      by_state p q r d f transient k = inl k
      by_state p q r d f running k = inr (
        k,
        elim (ℕ_discrete d.memory_mb (profile_memory_active_mb p)) [
          | yes same ↦ same
          | no differs ↦ absurd (
              quiet (balloon m d.domain_id (profile_memory_active_mb p))
                (refl, (p, d, q, r, f, k, refl, refl, λ z. differs (sym z))))
        ],
      )

  nothing-In : (l : List ReconcileAction) → ((a : ReconcileAction) → ¬ In a l) → l ≡ []
  nothing-In [] h = refl
  nothing-In (a ∷ l) h = absurd (h a (inl refl))

  -- The plan is empty exactly in the steady state: every wanted manifest is settled, and no domain
  -- reports a manifest that nobody wants.
  pub steady_iff :
      (wanted : WantedState)
      → ((reconcile wanted truth this_node).actions ≡ [])
        ↔ ((m : Text) (e : WantedEntry) → In (m, e) wanted.manifests → IsSettled m e)
          × ((k : Text) (d : TruthEntry) → In (k, d) truth.domains → ¬ IsUnknown wanted.manifests d)
  steady_iff wanted = (
    λ h. (
      (λ m e i. IsSettled-of_quiet m e λ a q.
          subst (λ (l : List ReconcileAction). In a l) h
            ((reconcile_lem wanted truth this_node a).1 (inl (m, e, i, q)))),
      λ k d i u.
          subst (λ (l : List ReconcileAction). In (destroy_unknown k) l) h
            ((reconcile_lem wanted truth this_node (destroy_unknown k)).1 (inr (k, d, refl, i, u))),
    ),
    λ s. nothing-In (reconcile wanted truth this_node).actions λ a h.
        elim ((reconcile_lem wanted truth this_node a).0 h) [
          | inl (m, e, i, q) ↦ not_asked m e (s.0 m e i) a q
          | inr (k, d, p, i, u) ↦ s.1 k d i u
        ],
  )
