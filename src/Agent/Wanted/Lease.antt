-- ===== src/Agent/Wanted/Lease.antt =====
-- Who may change the wanted state, and how the lease moves.
use rotten_apple.Prelude.{
  Option, Option-cases, Text, [], arith, inl, inr, none, ok, some, ℕ, ◌<◌, ◌↔◌, ◌∷◌, ◌≡◌, ◌≤◌, ◌⊎◌,
}
use rotten_apple.Fabric.NodeId.{NodeId, hex_suffix}
use rotten_apple.Fabric.NodeId.Suffix.{same-hex_suffix, same-of_hex_suffix}
use rotten_apple.Fabric.Event.{
  EventBody, claim_lease, release_lease, assign, unassign, balloon, heartbeat,
}
use rotten_apple.Manifest.{Profile}
use rotten_apple.Agent.Wanted.{WantedState, require_lease, applied, apply_event, run}

-- The issuer is the node that holds the lease.
pub record Holds (s : WantedState) (issuer : NodeId) : Type 0 where
  pub holder : NodeId
  pub held : s.lease_holder ≡ some holder
  pub is_issuer : hex_suffix holder ≡ hex_suffix issuer

require_lease_ok :
    (s : WantedState) (issuer : NodeId) → Holds s issuer → require_lease s issuer ≡ ok tt
unfolding require_lease
require_lease_ok s issuer h = ground (arith, h.held, same-of_hex_suffix h.holder issuer h.is_issuer)

Holds-of_require_lease :
    (s : WantedState) (issuer : NodeId) → require_lease s issuer ≡ ok tt → Holds s issuer
unfolding require_lease
Holds-of_require_lease s issuer h = elim (Option-cases s.lease_holder) [
  | inl e ↦ ground arith
  | inr (holder, e) ↦ record {
    holder = holder;
    held = e;
    is_issuer = same-hex_suffix holder issuer (ground arith);
  }
]

module _ (parse : Text → Option Profile) where
  -- Which events the agent accepts in a state.
  abbrev pub MayApply : WantedState → NodeId → ℕ → EventBody → Type 0
  MayApply s issuer epoch (claim_lease t) = (s.lease_holder ≡ none) ⊎ (s.lease_epoch < epoch)
  MayApply s issuer epoch (release_lease t) = Holds s issuer
  MayApply s issuer epoch (assign m toml) = Holds s issuer × ((p : Profile) × (parse toml ≡ some p))
  MayApply s issuer epoch (unassign m) = Holds s issuer
  MayApply s issuer epoch (balloon m mb) = Holds s issuer
  MayApply s issuer epoch (heartbeat mem cpus running hash) = ⊥

  -- An event is accepted exactly when it is a claim of a free lease or at a higher epoch, or comes
  -- from the holder (an `Assign` with a manifest that parses); heartbeats never are.
  pub apply_event_iff :
      (s : WantedState) (issuer : NodeId) (epoch : ℕ) (body : EventBody)
      → ((apply_event parse s issuer epoch body).0 ≡ ok tt) ↔ MayApply s issuer epoch body
  unfolding apply_event applied
  apply_event_iff s issuer epoch (claim_lease t) = (λ h. ground arith, λ h. ground arith)
  apply_event_iff s issuer epoch (release_lease t) = (
    λ h. Holds-of_require_lease s issuer (ground arith),
    λ h. ground (arith, require_lease_ok s issuer h),
  )
  apply_event_iff s issuer epoch (assign m toml) = (
    λ h. elim (Option-cases (parse toml)) [
      | inl e ↦ ground arith
      | inr (p, e) ↦ (Holds-of_require_lease s issuer (ground arith), (p, e))
    ],
    λ h. ground (arith, require_lease_ok s issuer h.0, h.1.1),
  )
  apply_event_iff s issuer epoch (unassign m) = (
    λ h. Holds-of_require_lease s issuer (ground arith),
    λ h. ground (arith, require_lease_ok s issuer h),
  )
  apply_event_iff s issuer epoch (balloon m mb) = (
    λ h. Holds-of_require_lease s issuer (ground arith),
    λ h. ground (arith, require_lease_ok s issuer h),
  )
  apply_event_iff s issuer epoch (heartbeat mem cpus running hash) = (λ h. cc, λ h. absurd h)

  -- While a lease is held it changes hands only at a higher epoch, and an event never lowers the
  -- epoch.
  pub takeover :
      (s : WantedState) (issuer : NodeId) (epoch : ℕ) (body : EventBody) (holder : NodeId)
      → s.lease_holder ≡ some holder
      → let s' = (apply_event parse s issuer epoch body).1 in
        (s.lease_epoch ≤ s'.lease_epoch)
        × ((h : NodeId)
            → s'.lease_holder ≡ some h
            → (h ≡ holder) ⊎ (h ≡ issuer) × (s.lease_epoch < s'.lease_epoch))
  unfolding apply_event applied require_lease
  takeover s issuer epoch (claim_lease t) holder e = (ground arith, λ h k. ground arith)
  takeover s issuer epoch (release_lease t) holder e = (ground arith, λ h k. ground arith)
  takeover s issuer epoch (assign m toml) holder e = (ground arith, λ h k. ground arith)
  takeover s issuer epoch (unassign m) holder e = (ground arith, λ h k. ground arith)
  takeover s issuer epoch (balloon m mb) holder e = (ground arith, λ h k. ground arith)
  takeover s issuer epoch (heartbeat mem cpus running hash) holder e =
      (ground arith, λ h k. ground arith)

  -- Once the holder has released, a claim by any node at any epoch is accepted, also at one below
  -- the epochs that the agent has seen.
  pub handoff_any_epoch :
      (s : WantedState) (issuer claimant t u : NodeId) (epoch claimed : ℕ)
      → Holds s issuer
      → run parse s ((issuer, epoch, release_lease t) ∷ (claimant, claimed, claim_lease u) ∷ [])
        ≡ record s { lease_holder = some claimant; lease_epoch = claimed }
  unfolding run apply_event applied
  handoff_any_epoch s issuer claimant t u epoch claimed h =
      ground (arith, require_lease_ok s issuer h)
