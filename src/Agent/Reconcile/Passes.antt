-- ===== src/Agent/Reconcile/Passes.antt =====
-- The two loops as lists: what each adds to the plan.
use rotten_apple.Prelude.{
  Bool, Bool-cases, List, Option, [], arith, false, if◌then◌else◌, inl, inr, none, refl, some, sym,
  ◌++◌, ◌||◌, ◌∙◌, ◌∷◌, ◌≡◌,
}
use mathlib.Core.List.{append-nil, append_assoc}
use rotten_apple.BTreeMap.{BTreeMap}
use rotten_apple.Fabric.NodeId.{NodeId}
use rotten_apple.Agent.Truth.{TruthEntry, Truth}
use rotten_apple.Agent.Wanted.{WantedEntry, WantedState}
use rotten_apple.Agent.Reconcile.{
  ReconcileAction, destroy_unknown, ReconcilePlan, push_some, consider_wanted, wanted_pass,
  is_unknown, truth_pass, reconcile, empty_plan,
}

abbrev pub to_list {ℓ} : {A : Type ℓ} → Option A → List A
to_list none = []
to_list (some a) = a ∷ []

module _ (truth : Truth) (this_node : NodeId) where
  -- What the wanted entries ask for, in their order.
  unfoldable pub wanted_actions : BTreeMap WantedEntry → List ReconcileAction
  wanted_actions [] = []
  wanted_actions ((m, e) ∷ rest) =
      to_list (consider_wanted e m truth this_node).0 ++ wanted_actions rest

  -- Whether one of them waits for a transient domain.
  unfoldable pub any_waits : BTreeMap WantedEntry → Bool
  any_waits [] = false
  any_waits ((m, e) ∷ rest) = (consider_wanted e m truth this_node).1 || any_waits rest

  push_some-append :
      (o : Option ReconcileAction) (xs ys : List ReconcileAction)
      → push_some o xs ++ ys ≡ xs ++ (to_list o ++ ys)
  push_some-append none xs ys = refl
  push_some-append (some a) xs ys = append_assoc xs (a ∷ []) ys

  or_assoc : (a b c : Bool) → ((a || b) || c) ≡ (a || (b || c))
  or_assoc a b c = ground arith

  actions-wanted_pass :
      (es : BTreeMap WantedEntry) (plan : ReconcilePlan)
      → (wanted_pass es truth this_node plan).actions ≡ plan.actions ++ wanted_actions es
  unfolding wanted_pass wanted_actions
  actions-wanted_pass [] plan = sym (append-nil plan.actions)
  actions-wanted_pass ((m, e) ∷ rest) plan =
      let c = consider_wanted e m truth this_node in
      actions-wanted_pass rest
        (record { actions = push_some c.0 plan.actions; retick_needed = plan.retick_needed || c.1 })
      ∙ push_some-append c.0 plan.actions (wanted_actions rest)

  retick-wanted_pass :
      (es : BTreeMap WantedEntry) (plan : ReconcilePlan)
      → (wanted_pass es truth this_node plan).retick_needed ≡ (plan.retick_needed || any_waits es)
  unfolding wanted_pass any_waits
  retick-wanted_pass [] plan = ground arith
  retick-wanted_pass ((m, e) ∷ rest) plan =
      let c = consider_wanted e m truth this_node in
      retick-wanted_pass rest
        (record { actions = push_some c.0 plan.actions; retick_needed = plan.retick_needed || c.1 })
      ∙ or_assoc plan.retick_needed c.1 (any_waits rest)

module _ (wanted : BTreeMap WantedEntry) where
  -- The domains that the second loop destroys, in their order.
  unfoldable pub unknown_actions : BTreeMap TruthEntry → List ReconcileAction
  unknown_actions [] = []
  unknown_actions ((k, d) ∷ rest) =
      let later = unknown_actions rest in
      if is_unknown wanted d then destroy_unknown k ∷ later else later

  truth_pass-append :
      (ds : BTreeMap TruthEntry) (actions : List ReconcileAction)
      → truth_pass ds wanted actions ≡ actions ++ unknown_actions ds
  unfolding truth_pass unknown_actions
  truth_pass-append [] actions = sym (append-nil actions)
  truth_pass-append ((k, d) ∷ rest) actions = elim (Bool-cases (is_unknown wanted d)) [
    | inl e ↦
        rw (e, truth_pass, unknown_actions)
          (truth_pass-append rest (actions ++ destroy_unknown k ∷ [])
            ∙ append_assoc actions (destroy_unknown k ∷ []) (unknown_actions rest))
    | inr e ↦ rw (e, truth_pass, unknown_actions) (truth_pass-append rest actions)
  ]

module _ (wanted : WantedState) (truth : Truth) (this_node : NodeId) where
  pub actions-reconcile :
      (reconcile wanted truth this_node).actions
      ≡ wanted_actions truth this_node wanted.manifests
        ++ unknown_actions wanted.manifests truth.domains
  unfolding reconcile
  actions-reconcile = rw (actions-wanted_pass truth this_node wanted.manifests empty_plan) (
      truth_pass-append wanted.manifests truth.domains
        (wanted_actions truth this_node wanted.manifests))

  pub retick-reconcile :
      (reconcile wanted truth this_node).retick_needed ≡ any_waits truth this_node wanted.manifests
  unfolding reconcile
  retick-reconcile = retick-wanted_pass truth this_node wanted.manifests empty_plan
