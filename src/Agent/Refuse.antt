-- ===== src/Agent/Refuse.antt =====
-- crates/agent/src/refuse.rs: which controller may do what to a manifest.
pub mod Permission
use rotten_apple.Prelude.{
  Bool, List, Option, Result, Text, [], codes, contains, err, fail_if, false, if◌then◌else◌, nat_eq,
  none, not, ok, some, text_eq, true, ◌&&◌, ◌==◌, ◌>>◌, ◌||◌, ◌∷◌,
}
use rotten_apple.Fabric.NodeId.{NodeId, hex_suffix}
use rotten_apple.Fabric.Event.{
  EventBody, claim_lease, release_lease, assign, unassign, balloon, heartbeat,
}
use rotten_apple.Manifest.{Profile, LeasePolicy}

pub data RefusalReason : Type 0 where
  controller_not_allowed : (issuer : NodeId) → (manifest_id : Text) → RefusalReason
  operation_not_allowed : (op manifest_id : Text) → RefusalReason
  unknown_manifest : (manifest_id : Text) → RefusalReason

abbrev pub default_safe_ops : List Text
default_safe_ops =
    codes "assign" ∷ codes "unassign" ∷ codes "balloon" ∷ codes "start" ∷ codes "shutdown" ∷ []

abbrev pub op_name : EventBody → Text
op_name (claim_lease t) = codes "claim_lease"
op_name (release_lease t) = codes "release_lease"
op_name (assign m toml) = codes "assign"
op_name (unassign m) = codes "unassign"
op_name (balloon m mb) = codes "balloon"
op_name (heartbeat mem cpus running hash) = codes "heartbeat"

abbrev pub is_empty {ℓ} : {A : Type ℓ} → List A → Bool
is_empty [] = true
is_empty (x ∷ xs) = false

-- `iter().any(|c| c == issuer.as_str() || c == issuer.hex_suffix())`.
unfoldable pub names_node : NodeId → List Text → Bool
names_node issuer [] = false
names_node issuer (c ∷ rest) =
    (c == issuer.text || c == hex_suffix issuer) || names_node issuer rest

unfoldable pub check_policy : NodeId → Text → Text → LeasePolicy → Result RefusalReason (Unit {0})
check_policy issuer manifest_id op lp = do
  fail_if (not (is_empty lp.controllers_allowed) && not (names_node issuer lp.controllers_allowed))
      (controller_not_allowed issuer manifest_id)
  let allowed =
      if is_empty lp.operations_allowed
      then contains default_safe_ops op
      else contains lp.operations_allowed op
  fail_if (not allowed) (operation_not_allowed op manifest_id)
  ok tt

check_profile : NodeId → Text → Text → Option Profile → Result RefusalReason (Unit {0})
unfolding check_policy
check_profile issuer manifest_id op none = err (unknown_manifest manifest_id)
check_profile issuer manifest_id op (some profile) =
    check_policy issuer manifest_id op profile.lease_policy

-- Lease events and heartbeats pass; an `Assign` is judged by the manifest that it carries, all else
-- by the manifest that `lookup_profile` finds.
unfoldable pub may_apply :
    (parse lookup_profile : Text → Option Profile)
    → NodeId
    → EventBody
    → Result RefusalReason (Unit {0})
unfolding check_profile
may_apply parse lookup_profile issuer (claim_lease t) = ok tt
may_apply parse lookup_profile issuer (release_lease t) = ok tt
may_apply parse lookup_profile issuer (heartbeat mem cpus running hash) = ok tt
may_apply parse lookup_profile issuer (assign m toml) =
    check_profile issuer m (op_name (assign m toml)) (parse toml)
may_apply parse lookup_profile issuer (unassign m) =
    check_profile issuer m (op_name (unassign m)) (lookup_profile m)
may_apply parse lookup_profile issuer (balloon m mb) =
    check_profile issuer m (op_name (balloon m mb)) (lookup_profile m)
