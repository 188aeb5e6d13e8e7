-- ===== src/Agent/Wanted.antt =====
-- crates/agent/src/wanted.rs: the manifests that controllers have assigned, and the lease. The
-- parser of a manifest's TOML is a parameter. The proofs are in the modules below.
pub mod Lease
pub mod Validity
pub mod Delivery
use rotten_apple.Prelude.{
  List, Option, Result, Text, [], err, fail_if, if◌then◌else◌, is_some, leb, none, not, ok, some, ℕ,
  ◌&&◌, ◌>>◌, ◌∷◌,
}
use rotten_apple.BTreeMap
use rotten_apple.BTreeMap.{BTreeMap}
use rotten_apple.Fabric.NodeId.{NodeId, same}
use rotten_apple.Fabric.Event.{
  EventBody, claim_lease, release_lease, assign, unassign, balloon, heartbeat,
}
use rotten_apple.Manifest.{Profile}

pub record WantedEntry : Type 0 where
  pub manifest_id : Text
  pub profile_toml : Text
  pub parsed : Option Profile
  pub assigned_at_epoch : ℕ

pub record WantedState : Type 0 where
  pub manifests : BTreeMap WantedEntry
  pub lease_holder : Option NodeId
  pub lease_epoch : ℕ

unfoldable pub new : WantedState
new = record { manifests = []; lease_holder = none; lease_epoch = 0 }

pub data ApplyError : Type 0 where
  no_lease : ApplyError
  wrong_issuer : (expected got : NodeId) → ApplyError
  stale_claim : (current got : ℕ) → ApplyError
  bad_manifest : Text → ApplyError
  heartbeat_not_mutating : ApplyError

abbrev pub require_holder : Option NodeId → NodeId → Result ApplyError (Unit {0})
require_holder none issuer = err no_lease
require_holder (some h) issuer = if not (same h issuer) then err (wrong_issuer h issuer) else ok tt

unfoldable pub require_lease : WantedState → NodeId → Result ApplyError (Unit {0})
require_lease s issuer = require_holder s.lease_holder issuer

module _ (parse : Text → Option Profile) where
  store_manifest : WantedState → ℕ → Text → Text → Option Profile → Result ApplyError WantedState
  store_manifest s epoch manifest_id manifest_toml none = err (bad_manifest manifest_id)
  store_manifest s epoch manifest_id manifest_toml (some profile) = ok (record s {
    manifests =
        BTreeMap.insert manifest_id
          (record {
            manifest_id = manifest_id;
            profile_toml = manifest_toml;
            parsed = some profile;
            assigned_at_epoch = epoch;
          })
          s.manifests;
  })

  -- The state that an event leads to, or the error.
  unfoldable pub applied : WantedState → NodeId → ℕ → EventBody → Result ApplyError WantedState
  unfolding require_lease store_manifest
  applied s issuer epoch (claim_lease target) = do
    fail_if (leb epoch s.lease_epoch && is_some s.lease_holder) (stale_claim s.lease_epoch epoch)
    ok (record s { lease_holder = some issuer; lease_epoch = epoch })
  applied s issuer epoch (release_lease target) = do
    require_lease s issuer
    ok (record s { lease_holder = none })
  applied s issuer epoch (assign manifest_id manifest_toml) = do
    require_lease s issuer
    store_manifest s epoch manifest_id manifest_toml (parse manifest_toml)
  applied s issuer epoch (unassign manifest_id) = do
    require_lease s issuer
    ok (record s { manifests = BTreeMap.remove manifest_id s.manifests })
  applied s issuer epoch (balloon manifest_id target_mb) = do require_lease s issuer; ok s
  applied s issuer epoch (heartbeat free_memory_mb free_vcpus running hash) =
      err heartbeat_not_mutating

  -- `apply_event`: the result, and the state afterwards. Every error is returned before a write.
  unfoldable pub apply_event :
      WantedState → NodeId → ℕ → EventBody → Result ApplyError (Unit {0}) × WantedState
  apply_event s issuer epoch body = elim (applied s issuer epoch body) [
    | ok s' ↦ (ok tt, s')
    | err e ↦ (err e, s)
  ]

  -- A sequence of events, each with its issuer and epoch; an error ends only its own event.
  unfoldable pub run : WantedState → List (NodeId × ℕ × EventBody) → WantedState
  run s [] = s
  run s ((issuer, epoch, body) ∷ rest) = run (apply_event s issuer epoch body).1 rest
