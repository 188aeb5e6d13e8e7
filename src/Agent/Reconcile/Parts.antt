-- ===== src/Agent/Reconcile/Parts.antt =====
-- The plan as what its two loops come to.
use rotten_apple.Prelude.{
  Bool-cases, In, In-append, In-append_left, In-append_right, Option, Option-cases, Text, [], ap,
  arith, inl, inr, nat_eq, none, refl, some, sym, text_eq, true, ◌++◌, ◌↔◌, ◌∙◌, ◌∷◌, ◌≡◌, ◌⊎◌,
}
use rotten_apple.BTreeMap
use rotten_apple.BTreeMap.{BTreeMap}
use rotten_apple.Fabric.NodeId.{NodeId}
use rotten_apple.Agent.Truth.{TruthEntry, Truth}
use rotten_apple.Agent.Wanted.{WantedEntry, WantedState}
use rotten_apple.Agent.Reconcile.{
  ReconcileAction, destroy_unknown, consider_wanted, is_unknown, reconcile,
}
use rotten_apple.Agent.Reconcile.Passes.{
  to_list, wanted_actions, any_waits, unknown_actions, actions-reconcile, retick-reconcile,
}
use rotten_apple.Agent.Reconcile.Asks.{Asks, Waits, Asks-iff, Waits-iff}

-- A domain that reports a manifest which nobody wants.
abbrev pub IsUnknown : BTreeMap WantedEntry → TruthEntry → Type 0
IsUnknown wanted d = (m : Text) × (d.manifest_id ≡ some m) × (BTreeMap.get m wanted ≡ none)

is_unknown-true :
    (wanted : BTreeMap WantedEntry) (d : TruthEntry)
    → is_unknown wanted d ≡ true
    → IsUnknown wanted d
unfolding is_unknown
is_unknown-true wanted d h = elim (Option-cases d.manifest_id) [
  | inl e ↦ ground arith
  | inr (m, e) ↦ (m, e, ground (arith, BTreeMap.contains_key-get m wanted))
]

is_unknown_of :
    (wanted : BTreeMap WantedEntry) (d : TruthEntry)
    → IsUnknown wanted d
    → is_unknown wanted d ≡ true
unfolding is_unknown
is_unknown_of wanted d (m, e, g) = ground (arith, BTreeMap.contains_key-get m wanted)

module _ (truth : Truth) (this_node : NodeId) where
  In-to_list : (a : ReconcileAction) (o : Option ReconcileAction) → In a (to_list o) → o ≡ some a
  In-to_list a none h = elim h [ ]
  In-to_list a (some b) (inl e) = ap some (sym e)
  In-to_list a (some b) (inr h) = elim h [ ]

  Asks-of_In :
      (es : BTreeMap WantedEntry) (a : ReconcileAction)
      → In a (wanted_actions truth this_node es)
      → (m : Text) × (e : WantedEntry) × In (m, e) es × Asks truth this_node m e a
  unfolding wanted_actions
  Asks-of_In [] a h = elim h [ ]
  Asks-of_In ((m, e) ∷ es) a h =
      elim (In-append a (to_list (consider_wanted e m truth this_node).0) _ h) [
        | inl here ↦ (m, e, inl refl, (Asks-iff truth this_node m e a).0 (In-to_list a _ here))
        | inr there ↦ let (n, d, k, q) = Asks-of_In es a there in (n, d, inr k, q)
      ]

  In-of_Asks :
      (es : BTreeMap WantedEntry) (a : ReconcileAction) (m : Text) (e : WantedEntry)
      → In (m, e) es
      → Asks truth this_node m e a
      → In a (wanted_actions truth this_node es)
  unfolding wanted_actions
  In-of_Asks [] a m e k q = elim k [ ]
  In-of_Asks ((n, d) ∷ es) a m e (inl k) q =
      let here : (consider_wanted d n truth this_node).0 ≡ some a =
        cc (k, (Asks-iff truth this_node m e a).1 q) in
      rw here (inl refl)
  In-of_Asks ((n, d) ∷ es) a m e (inr k) q =
      In-append_right a (to_list (consider_wanted d n truth this_node).0) _
        (In-of_Asks es a m e k q)

  waits_of_any :
      (es : BTreeMap WantedEntry)
      → any_waits truth this_node es ≡ true
      → (m : Text) × (e : WantedEntry) × In (m, e) es × Waits truth this_node m e
  unfolding any_waits
  waits_of_any [] h = cc
  waits_of_any ((m, e) ∷ es) h = elim (Bool-cases (consider_wanted e m truth this_node).1) [
    | inl w ↦ (m, e, inl refl, (Waits-iff truth this_node m e).0 w)
    | inr w ↦ let (n, d, k, q) = waits_of_any es (ground arith) in (n, d, inr k, q)
  ]

  any_of_waits :
      (es : BTreeMap WantedEntry) (m : Text) (e : WantedEntry)
      → In (m, e) es
      → Waits truth this_node m e
      → any_waits truth this_node es ≡ true
  unfolding any_waits
  any_of_waits [] m e k q = elim k [ ]
  any_of_waits ((n, d) ∷ es) m e (inl k) q =
      let here : (consider_wanted d n truth this_node).1 ≡ true =
        cc (k, (Waits-iff truth this_node m e).1 q) in
      ground arith
  any_of_waits ((n, d) ∷ es) m e (inr k) q = ground (arith, any_of_waits es m e k q)

module _ (wanted : BTreeMap WantedEntry) where
  IsUnknown-of_In :
      (ds : BTreeMap TruthEntry) (a : ReconcileAction)
      → In a (unknown_actions wanted ds)
      → (k : Text) × (d : TruthEntry) × (a ≡ destroy_unknown k) × In (k, d) ds × IsUnknown wanted d
  unfolding unknown_actions
  IsUnknown-of_In [] a h = elim h [ ]
  IsUnknown-of_In ((k, d) ∷ ds) a h = elim (Bool-cases (is_unknown wanted d)) [
    | inl u ↦ elim (rw (u, unknown_actions) at h) [
      | inl here ↦ (k, d, here, inl refl, is_unknown-true wanted d u)
      | inr there ↦ let (j, c, e, m, q) = IsUnknown-of_In ds a there in (j, c, e, inr m, q)
    ]
    | inr u ↦
        let (j, c, e, m, q) = IsUnknown-of_In ds a (rw (u, unknown_actions) at h) in
        (j, c, e, inr m, q)
  ]

  In-of_IsUnknown :
      (ds : BTreeMap TruthEntry) (k : Text) (d : TruthEntry)
      → In (k, d) ds
      → IsUnknown wanted d
      → In (destroy_unknown k) (unknown_actions wanted ds)
  unfolding unknown_actions
  In-of_IsUnknown [] k d h q = elim h [ ]
  In-of_IsUnknown ((j, c) ∷ ds) k d (inl e) q =
      let u : is_unknown wanted c ≡ true = cc (e, is_unknown_of wanted d q) in
      let same_key : k ≡ j = cc e in rw (u, unknown_actions) (inl (ap destroy_unknown same_key))
  In-of_IsUnknown ((j, c) ∷ ds) k d (inr h) q = elim (Bool-cases (is_unknown wanted c)) [
    | inl u ↦ rw (u, unknown_actions) (inr (In-of_IsUnknown ds k d h q))
    | inr u ↦ rw (u, unknown_actions) (In-of_IsUnknown ds k d h q)
  ]

module _ (wanted : WantedState) (truth : Truth) (this_node : NodeId) where
  -- When an action is called for: an entry asks for it, or it destroys a domain that reports a
  -- manifest which nobody wants.
  abbrev pub Planned : ReconcileAction → Type 0
  Planned a =
      ((m : Text) × (e : WantedEntry) × In (m, e) wanted.manifests × Asks truth this_node m e a)
      ⊎ ((k : Text) × (d : TruthEntry) × (a ≡ destroy_unknown k)
          × In (k, d) truth.domains
          × IsUnknown wanted.manifests d)

  pub reconcile_lem :
      (a : ReconcileAction) → In a (reconcile wanted truth this_node).actions ↔ Planned a
  reconcile_lem a = (
    λ h.
        let parts : In a (
            wanted_actions truth this_node wanted.manifests
            ++ unknown_actions wanted.manifests truth.domains) =
          rw (actions-reconcile wanted truth this_node) at h in
        elim (In-append a (wanted_actions truth this_node wanted.manifests) _ parts) [
          | inl l ↦ inl (Asks-of_In truth this_node wanted.manifests a l)
          | inr r ↦ inr (IsUnknown-of_In wanted.manifests truth.domains a r)
        ],
    λ h. rw (actions-reconcile wanted truth this_node) (elim h [
      | inl (m, e, k, q) ↦
          In-append_left a _ _ (In-of_Asks truth this_node wanted.manifests a m e k q)
      | inr (k, d, p, i, u) ↦
          In-append_right a (wanted_actions truth this_node wanted.manifests) _
            (rw p (In-of_IsUnknown wanted.manifests truth.domains k d i u))
    ]),
  )

  -- Another look is asked for exactly if a wanted entry that runs here has a transient domain.
  pub retick_iff :
      ((reconcile wanted truth this_node).retick_needed ≡ true)
      ↔ ((m : Text) × (e : WantedEntry) × In (m, e) wanted.manifests × Waits truth this_node m e)
  retick_iff = (
    λ h.
        waits_of_any truth this_node wanted.manifests
          (sym (retick-reconcile wanted truth this_node) ∙ h),
    λ (m, e, k, q).
        retick-reconcile wanted truth this_node
        ∙ any_of_waits truth this_node wanted.manifests m e k q,
  )
