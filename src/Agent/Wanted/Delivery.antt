-- ===== src/Agent/Wanted/Delivery.antt =====
-- The events of a verified log, delivered to the wanted state in their order.
use rotten_apple.Prelude.{
  All, List, Option, Text, [], arith, below, inl, inr, subst, ℕ, ◌++◌, ◌∷◌, ◌≡◌, ◌≤◌, ◌⊎◌,
}
use rotten_apple.Fabric.NodeId.{NodeId}
use rotten_apple.Fabric.Event.{
  Fabric, EnvelopeCore, Envelope, EventBody, claim_lease, release_lease, assign, unassign, balloon,
  heartbeat,
}
use rotten_apple.Fabric.Chain
use rotten_apple.Fabric.Chain.History.{replay-one_issuer}
use rotten_apple.Fabric.Chain.Order.{SameLease, Ordered}
use rotten_apple.Manifest.{Profile}
use rotten_apple.Agent.Wanted.{WantedState, new, require_lease, applied, apply_event, run}

abbrev pub deliver : List Envelope → List (NodeId × ℕ × EventBody)
deliver [] = []
deliver (e ∷ es) = (e.core.issuer, e.core.lease_epoch, e.core.body) ∷ deliver es

module _ (parse : Text → Option Profile) where
  -- An event moves the epoch to its own, or leaves it.
  lease_epoch-apply_event :
      (s : WantedState) (issuer : NodeId) (epoch : ℕ) (body : EventBody)
      → let s' = (apply_event parse s issuer epoch body).1 in
        (s'.lease_epoch ≡ s.lease_epoch) ⊎ (s'.lease_epoch ≡ epoch)
  unfolding apply_event applied require_lease
  lease_epoch-apply_event s issuer epoch (claim_lease t) = ground arith
  lease_epoch-apply_event s issuer epoch (release_lease t) = ground arith
  lease_epoch-apply_event s issuer epoch (assign m toml) = ground arith
  lease_epoch-apply_event s issuer epoch (unassign m) = ground arith
  lease_epoch-apply_event s issuer epoch (balloon m mb) = ground arith
  lease_epoch-apply_event s issuer epoch (heartbeat mem cpus running hash) = ground arith

  abbrev NotBelow : ℕ → List Envelope → Type 0
  NotBelow n es = All (λ e. n ≤ e.core.lease_epoch) es

  NotBelow-of_SameLease :
      (a : EnvelopeCore) (es : List Envelope)
      → All (λ d. SameLease a d.core) es
      → NotBelow a.lease_epoch es
  NotBelow-of_SameLease a [] h = tt
  NotBelow-of_SameLease a (e ∷ es) h = (omega (arith, h.0), NotBelow-of_SameLease a es h.1)

  run-deliver :
      (s : WantedState) (es : List Envelope)
      → NotBelow s.lease_epoch es
      → Ordered SameLease es
      → s.lease_epoch ≤ (run parse s (deliver es)).lease_epoch
  unfolding run
  run-deliver s [] h o = omega arith
  run-deliver s (e ∷ es) h o =
      let s' = (apply_event parse s e.core.issuer e.core.lease_epoch e.core.body).1 in
      let moved = lease_epoch-apply_event s e.core.issuer e.core.lease_epoch e.core.body in
      let later : NotBelow s'.lease_epoch es = elim moved [
        | inl same ↦ rw same h.1
        | inr own ↦ rw own (NotBelow-of_SameLease e.core es o.0)
      ] in
      let rest = run-deliver s' es later o.1 in omega (arith, rest, moved, h.0)

  -- The rest of an ordered log stays at or above the epoch of the state.
  rest-NotBelow :
      (s : WantedState) (pre post : List Envelope)
      → NotBelow s.lease_epoch (pre ++ post)
      → Ordered SameLease (pre ++ post)
      → NotBelow (run parse s (deliver pre)).lease_epoch post × Ordered SameLease post
  unfolding run
  rest-NotBelow s [] post h o = (h, o)
  rest-NotBelow s (e ∷ pre) post h o =
      let s' = (apply_event parse s e.core.issuer e.core.lease_epoch e.core.body).1 in
      let later : NotBelow s'.lease_epoch (pre ++ post) =
        elim (lease_epoch-apply_event s e.core.issuer e.core.lease_epoch e.core.body) [
          | inl same ↦ rw same h.1
          | inr own ↦ rw own (NotBelow-of_SameLease e.core (pre ++ post) o.0)
        ] in
      rest-NotBelow s' pre post later o.1

  all-NotBelow : (es : List Envelope) → NotBelow 0 es
  all-NotBelow [] = tt
  all-NotBelow (e ∷ es) = (omega arith, all-NotBelow es)

  -- An agent that applies, from the empty state, the events of a log that `append` has built never
  -- sees its lease epoch fall, also between two events and also over a release.
  pub delivery_epochs :
      (f : Fabric) (trust : Chain.TrustStore f) (envs pre post : List Envelope)
      → (Chain.replay f Chain.new envs trust).events ≡ pre ++ post
      → let s = run parse new (deliver pre) in
        s.lease_epoch ≤ (run parse s (deliver post)).lease_epoch
  unfolding new
  delivery_epochs f trust envs pre post h =
      let o : Ordered SameLease (pre ++ post) =
        subst (Ordered SameLease) h (replay-one_issuer f trust envs) in
      let (below, order) = rest-NotBelow new pre post (all-NotBelow (pre ++ post)) o in
      run-deliver (run parse new (deliver pre)) post below order
