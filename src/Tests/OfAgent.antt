-- ===== src/Tests/OfAgent.antt =====
-- The theorems on the agent's wanted state and its policy gate at sample events.
use rotten_apple.Prelude.{
  [], codes, inl, inr, ok, refl, rsplit_once, some, sym, text_beq, text_beq_iff, ◌↔◌, ◌∙◌, ◌∷◌, ◌≡◌,
  ◌≢◌, ◌≤◌,
}
use rotten_apple.Fabric.NodeId.{same, hex_suffix}
use rotten_apple.Fabric.Event.{
  verify, sign, hash, signed_bytes, claim_lease, assign, unassign, balloon,
}
use rotten_apple.Fabric.Chain
use rotten_apple.HashMap
use rotten_apple.Agent.Wanted.{WantedState, new, apply_event, run}
use rotten_apple.Agent.Wanted.Lease.{MayApply, apply_event_iff}
use rotten_apple.Agent.Wanted.Validity.{IsValid, run-IsValid}
use rotten_apple.Agent.Wanted.Delivery.{deliver, delivery_epochs}
use rotten_apple.Agent.Refuse.{may_apply}
use rotten_apple.Agent.Refuse.Permission.{Names, MayIssue, may_apply_iff, assign_evades_policy}
use rotten_apple.Tests.Samples.{
  fabric, trust, alice, bob, first_event, second_event, stray_event, parse, web, guarded, stored,
}

abbrev held : WantedState
held = record { manifests = []; lease_holder = some alice; lease_epoch = 3 }

apply_event_iff_example :
    ((apply_event parse held bob 4 (claim_lease bob)).0 ≡ ok tt)
    ↔ MayApply parse held bob 4 (claim_lease bob)
apply_event_iff_example = apply_event_iff parse held bob 4 (claim_lease bob)

run-IsValid_example : IsValid parse (
    run parse new
      ((alice, 1, claim_lease bob) ∷ (alice, 1, assign (codes "web") (codes "toml")) ∷ []))
run-IsValid_example =
    run-IsValid parse
      ((alice, 1, claim_lease bob) ∷ (alice, 1, assign (codes "web") (codes "toml")) ∷ [])

delivered :
    (Chain.replay fabric Chain.new (first_event ∷ stray_event ∷ second_event ∷ []) trust).events
    ≡ first_event ∷ second_event ∷ []
unfolding Chain.replay Chain.append Chain.checks Chain.continuity Chain.commit Chain.new verify sign
    hash signed_bytes Chain.trust_get HashMap.get same hex_suffix rsplit_once text_beq
delivered = refl

delivery_epochs_example :
    let s = run parse new (deliver (first_event ∷ [])) in
    s.lease_epoch ≤ (run parse s (deliver (second_event ∷ []))).lease_epoch
delivery_epochs_example =
    delivery_epochs parse fabric trust (first_event ∷ stray_event ∷ second_event ∷ [])
      (first_event ∷ []) (second_event ∷ []) delivered

may_apply_iff_example :
    (may_apply parse stored bob (unassign (codes "web")) ≡ ok tt)
    ↔ MayIssue parse stored bob (unassign (codes "web"))
may_apply_iff_example = may_apply_iff parse stored bob (unassign (codes "web"))

bob-shut_out : ¬ Names bob (codes "desk-aa" ∷ [])
unfolding hex_suffix rsplit_once text_beq
bob-shut_out (c, inl e, inl p) =
    cc ((text_beq_iff (codes "desk-aa") (codes "rack-bb")).1 (sym e ∙ p))
bob-shut_out (c, inl e, inr p) = cc ((text_beq_iff (codes "desk-aa") (codes "bb")).1 (sym e ∙ p))
bob-shut_out (c, inr m, p) = m

assign_evades_policy_example :
    (may_apply parse stored bob (unassign (codes "web")) ≢ ok tt)
    × (may_apply parse stored bob (balloon (codes "web") 512) ≢ ok tt)
    × (may_apply parse stored bob (assign (codes "web") (codes "toml")) ≡ ok tt)
assign_evades_policy_example =
    assign_evades_policy parse stored bob (codes "web") (codes "toml") 512 guarded web refl
      (λ h. cc) bob-shut_out refl refl refl
