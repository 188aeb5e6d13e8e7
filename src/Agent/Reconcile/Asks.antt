-- ===== src/Agent/Reconcile/Asks.antt =====
-- What one wanted entry asks for.
use rotten_apple.Prelude.{
  Option, Option-cases, Text, arith, codes, inl, inr, none, refl, some, subst, text_beq_iff, true,
  ◌↔◌, ◌≡◌, ◌≢◌, ◌⊎◌,
}
use rotten_apple.Fabric.NodeId.{NodeId, hex_suffix}
use rotten_apple.Manifest.{Profile}
use rotten_apple.Agent.Truth.{
  DomainState, running, transient, absent, TruthEntry, Truth, find_by_manifest,
}
use rotten_apple.Agent.Wanted.{WantedEntry}
use rotten_apple.Agent.Reconcile.{
  ReconcileAction, create, balloon, destroy_unknown, wrong_anchor, bad_manifest, local, elsewhere,
  compare_domain, consider_wanted, profile_memory_active_mb,
}

-- The manifest is not pinned, or pinned to this node: by the word, the full id or the suffix.
abbrev pub RunsHere : Profile → NodeId → Type 0
RunsHere p this_node =
    (p.anchor.node ≡ none)
    ⊎ ((a : Text) × (p.anchor.node ≡ some a)
        × ((a ≡ codes "this-host") ⊎ (a ≡ this_node.text) ⊎ (a ≡ hex_suffix this_node)))

abbrev pub PinnedTo : Profile → NodeId → Text → Type 0
PinnedTo p this_node a =
    (p.anchor.node ≡ some a)
    × (a ≢ codes "this-host")
    × (a ≢ this_node.text)
    × (a ≢ hex_suffix this_node)

module _ (p : Profile) (n : NodeId) where
  pub elsewhere-none : elsewhere p n ≡ none → RunsHere p n
  unfolding elsewhere
  elsewhere-none h = elim (Option-cases p.anchor.node) [
    | inl e ↦ inl e
    | inr (a, e) ↦ inr (
      a,
      e,
      ground (
        arith,
        text_beq_iff a (codes "this-host"),
        text_beq_iff a n.text,
        text_beq_iff a (hex_suffix n),
      ),
    )
  ]

  pub elsewhere-some : (a : Text) → elsewhere p n ≡ some a → PinnedTo p n a
  unfolding elsewhere
  elsewhere-some a h = ground (
    arith,
    text_beq_iff a (codes "this-host"),
    text_beq_iff a n.text,
    text_beq_iff a (hex_suffix n),
  )

  elsewhere_of_RunsHere : RunsHere p n → elsewhere p n ≡ none
  unfolding elsewhere
  elsewhere_of_RunsHere (inl e) = rw e
  elsewhere_of_RunsHere (inr (a, e, c)) = ground (
    arith,
    text_beq_iff a (codes "this-host"),
    text_beq_iff a n.text,
    text_beq_iff a (hex_suffix n),
  )

  elsewhere_of_PinnedTo : (a : Text) → PinnedTo p n a → elsewhere p n ≡ some a
  unfolding elsewhere
  elsewhere_of_PinnedTo a c = ground (
    arith,
    text_beq_iff a (codes "this-host"),
    text_beq_iff a n.text,
    text_beq_iff a (hex_suffix n),
  )

-- The domain of a manifest, if the backend has one, is absent.
abbrev pub IsMissing : Option TruthEntry → Type 0
IsMissing found = (found ≡ none) ⊎ ((d : TruthEntry) × (found ≡ some d) × (d.state ≡ absent))

module _ (truth : Truth) (this_node : NodeId) (m : Text) (e : WantedEntry) where
  -- When the entry `e` of the key `m` asks for an action.
  abbrev pub Asks : ReconcileAction → Type 0
  Asks (create n) =
      (n ≡ m)
      × ((p : Profile) × (e.parsed ≡ some p)
          × RunsHere p this_node
          × IsMissing (find_by_manifest truth m))
  Asks (balloon n id mb) =
      (n ≡ m)
      × ((p : Profile) × (d : TruthEntry) × (e.parsed ≡ some p)
          × RunsHere p this_node
          × (find_by_manifest truth m ≡ some d)
          × (d.state ≡ running)
          × (id ≡ d.domain_id)
          × (mb ≡ profile_memory_active_mb p)
          × (mb ≢ d.memory_mb))
  Asks (destroy_unknown id) = ⊥
  Asks (wrong_anchor n expected here) =
      (n ≡ m)
      × (here ≡ this_node.text)
      × ((p : Profile) × (e.parsed ≡ some p) × PinnedTo p this_node expected)
  Asks (bad_manifest n) = (n ≡ m) × (e.parsed ≡ none)
  Asks (local n) = ⊥

  -- The entry waits for its domain.
  abbrev pub Waits : Type 0
  Waits =
      (p : Profile) × (d : TruthEntry) × (e.parsed ≡ some p)
      × RunsHere p this_node
      × (find_by_manifest truth m ≡ some d)
      × (d.state ≡ transient)

  Asks-of_consider :
      (a : ReconcileAction) → (consider_wanted e m truth this_node).0 ≡ some a → Asks a
  unfolding consider_wanted
  Asks-of_consider a h = elim (Option-cases e.parsed) [
    | inl q ↦
        let same_action : bad_manifest m ≡ a = ground arith in subst Asks same_action (refl, q)
    | inr (p, q) ↦ elim (Option-cases (elsewhere p this_node)) [
      | inr (x, w) ↦
          let same_action : wrong_anchor m x this_node.text ≡ a = ground arith in
          subst Asks same_action (refl, refl, (p, q, elsewhere-some p this_node x w))
      | inl w ↦ elim (Option-cases (find_by_manifest truth m)) [
        | inl f ↦
            let same_action : create m ≡ a = ground arith in
            subst Asks same_action (refl, (p, q, elsewhere-none p this_node w, inl f))
        | inr (d, f) ↦ found p q (elsewhere-none p this_node w) d f d.state refl (ground arith)
      ]
    ]
  ]
    where
      found :
          (p : Profile)
          → e.parsed ≡ some p
          → RunsHere p this_node
          → (d : TruthEntry) → find_by_manifest truth m ≡ some d
          → (s : DomainState) → d.state ≡ s
          → (compare_domain m p (some d)).0 ≡ some a
          → Asks a
      found p q r d f absent k c =
          let same_action : create m ≡ a = ground arith in
          subst Asks same_action (refl, (p, q, r, inr (d, f, k)))
      found p q r d f transient k c = ground arith
      found p q r d f running k c =
          let same_action : balloon m d.domain_id (profile_memory_active_mb p) ≡ a = ground arith in
          subst Asks same_action (refl, (p, d, q, r, f, k, refl, refl, ground arith))

  consider-of_Asks :
      (a : ReconcileAction) → Asks a → (consider_wanted e m truth this_node).0 ≡ some a
  unfolding consider_wanted
  consider-of_Asks (create n) (q, (p, h, r, inl f)) =
      ground (arith, elsewhere_of_RunsHere p this_node r)
  consider-of_Asks (create n) (q, (p, h, r, inr (d, f, k))) =
      ground (arith, elsewhere_of_RunsHere p this_node r)
  consider-of_Asks (balloon n id mb) (q, (p, d, h, r, f, k, i, w, x)) =
      ground (arith, elsewhere_of_RunsHere p this_node r)
  consider-of_Asks (destroy_unknown id) h = absurd h
  consider-of_Asks (wrong_anchor n expected here) (q, i, (p, h, c)) =
      ground (arith, elsewhere_of_PinnedTo p this_node expected c)
  consider-of_Asks (bad_manifest n) (q, h) = ground arith
  consider-of_Asks (local n) h = absurd h

  pub Asks-iff : (a : ReconcileAction) → ((consider_wanted e m truth this_node).0 ≡ some a) ↔ Asks a
  Asks-iff a = (Asks-of_consider a, consider-of_Asks a)

  pub Waits-iff : ((consider_wanted e m truth this_node).1 ≡ true) ↔ Waits
  unfolding consider_wanted
  Waits-iff = (
    λ h. elim (Option-cases e.parsed) [
      | inl q ↦ ground arith
      | inr (p, q) ↦ elim (Option-cases (elsewhere p this_node)) [
        | inr (x, w) ↦ ground arith
        | inl w ↦ elim (Option-cases (find_by_manifest truth m)) [
          | inl f ↦ ground arith
          | inr (d, f) ↦ (p, d, q, elsewhere-none p this_node w, f, ground arith)
        ]
      ]
    ],
    λ w. waiting w.0 w.1 w.2 w.3 w.4 w.5,
  )
    where
      waiting :
          (p : Profile) (d : TruthEntry)
          → e.parsed ≡ some p
          → RunsHere p this_node
          → find_by_manifest truth m ≡ some d
          → d.state ≡ transient
          → (consider_wanted e m truth this_node).1 ≡ true
      waiting p d q r f k = ground (arith, elsewhere_of_RunsHere p this_node r)
