-- ===== src/Agent/Reconcile.antt =====
-- crates/agent/src/reconcile.rs: the plan that takes what is observed to what is wanted. The proofs
-- are in the modules below.
pub mod Passes
pub mod Asks
pub mod Parts
pub mod Exact
pub mod Safety
use rotten_apple.Prelude.{
  Bool, List, Option, Text, [], codes, false, if◌then◌else◌, nat_eq, none, not, some, text_eq, true,
  ℕ, ◌&&◌, ◌*◌, ◌++◌, ◌/◌, ◌==◌, ◌||◌, ◌∷◌,
}
use rotten_apple.BTreeMap
use rotten_apple.BTreeMap.{BTreeMap}
use rotten_apple.Fabric.NodeId.{NodeId, hex_suffix}
use rotten_apple.Manifest.{Profile}
use rotten_apple.Agent.Truth.{running, transient, absent, TruthEntry, Truth, find_by_manifest}
use rotten_apple.Agent.Wanted.{WantedEntry, WantedState}

pub data ReconcileAction : Type 0 where
  create : (manifest_id : Text) → ReconcileAction
  balloon : (manifest_id domain_id : Text) → (target_mb : ℕ) → ReconcileAction
  destroy_unknown : (domain_id : Text) → ReconcileAction
  wrong_anchor : (manifest_id expected_node this_node : Text) → ReconcileAction
  bad_manifest : (manifest_id : Text) → ReconcileAction
  local : (manifest_id : Text) → ReconcileAction

pub record ReconcilePlan : Type 0 where
  pub actions : List ReconcileAction
  pub retick_needed : Bool

abbrev pub empty_plan : ReconcilePlan
empty_plan = record { actions = []; retick_needed = false }

unfoldable pub profile_memory_active_mb : Profile → ℕ
profile_memory_active_mb p = p.resources.memory_active_bytes / (1024 * 1024)

-- The node that the manifest is pinned to, if it is another one.
unfoldable pub elsewhere : Profile → NodeId → Option Text
elsewhere p this_node = elim p.anchor.node [
  | none ↦ none
  | some anchor_to ↦
      if not (anchor_to == codes "this-host")
        && not (anchor_to == this_node.text)
        && not (anchor_to == hex_suffix this_node)
      then some anchor_to
      else none
]

-- What one entry asks for: an action or none, and whether to look again soon.
compare_domain : Text → Profile → Option TruthEntry → Option ReconcileAction × Bool
compare_domain manifest_id profile none = (some (create manifest_id), false)
compare_domain manifest_id profile (some t) = elim t.state [
  | absent ↦ (some (create manifest_id), false)
  | transient ↦ (none, true)
  | running ↦
      let want_mb = profile_memory_active_mb profile in
      (
        if not (want_mb == t.memory_mb)
            then some (balloon manifest_id t.domain_id want_mb)
            else none,
        false,
      )
]

consider_profile : Text → Truth → NodeId → Option Profile → Option ReconcileAction × Bool
unfolding compare_domain
consider_profile manifest_id truth this_node none = (some (bad_manifest manifest_id), false)
consider_profile manifest_id truth this_node (some profile) = elim (elsewhere profile this_node) [
  | some anchor_to ↦ (some (wrong_anchor manifest_id anchor_to this_node.text), false)
  | none ↦ compare_domain manifest_id profile (find_by_manifest truth manifest_id)
]

unfoldable pub consider_wanted : WantedEntry → Text → Truth → NodeId → Option ReconcileAction × Bool
unfolding consider_profile
consider_wanted entry manifest_id truth this_node =
    consider_profile manifest_id truth this_node entry.parsed

abbrev pub push_some : Option ReconcileAction → List ReconcileAction → List ReconcileAction
push_some none actions = actions
push_some (some a) actions = actions ++ a ∷ []

-- The first loop, over the wanted entries in the order of their keys.
unfoldable pub wanted_pass : BTreeMap WantedEntry → Truth → NodeId → ReconcilePlan → ReconcilePlan
wanted_pass [] truth this_node plan = plan
wanted_pass ((manifest_id, entry) ∷ rest) truth this_node plan =
    let (action, retick) = consider_wanted entry manifest_id truth this_node in
    wanted_pass rest truth this_node (record {
      actions = push_some action plan.actions;
      retick_needed = plan.retick_needed || retick;
    })

-- A domain whose manifest nobody wants any more.
unfoldable pub is_unknown : BTreeMap WantedEntry → TruthEntry → Bool
is_unknown wanted d = elim d.manifest_id [
  | none ↦ false
  | some mid ↦ not (BTreeMap.contains_key mid wanted)
]

-- The second loop, over the domains in the order of their keys.
unfoldable pub truth_pass :
    BTreeMap TruthEntry → BTreeMap WantedEntry → List ReconcileAction → List ReconcileAction
truth_pass [] wanted actions = actions
truth_pass ((domain_id, d) ∷ rest) wanted actions =
    truth_pass rest wanted
      (if is_unknown wanted d then actions ++ destroy_unknown domain_id ∷ [] else actions)

unfoldable pub reconcile : WantedState → Truth → NodeId → ReconcilePlan
reconcile wanted truth this_node =
    let plan = wanted_pass wanted.manifests truth this_node empty_plan in
    record plan { actions = truth_pass truth.domains wanted.manifests plan.actions }
