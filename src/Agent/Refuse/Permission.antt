-- ===== src/Agent/Refuse/Permission.antt =====
-- Which events the policy gate lets through.
use rotten_apple.Prelude.{
  Bool-cases, In, List, Option, Text, [], arith, codes, contains, false, if◌then◌else◌, inl, inr,
  nat_eq, none, not, ok, refl, some, subst, sym, text_beq_iff, text_eq, true, ℕ, ◌&&◌, ◌==◌, ◌||◌,
  ◌↔◌, ◌∷◌, ◌≡◌, ◌≢◌, ◌⊎◌,
}
use rotten_apple.Fabric.NodeId.{NodeId, hex_suffix}
use rotten_apple.Fabric.Event.{
  EventBody, claim_lease, release_lease, assign, unassign, balloon, heartbeat,
}
use rotten_apple.Manifest.{Profile, LeasePolicy}
use rotten_apple.Agent.Refuse.{
  default_safe_ops, is_empty, names_node, check_policy, check_profile, may_apply,
}

-- A controller stands on a list by its full id or by its suffix.
abbrev pub Names : NodeId → List Text → Type 0
Names issuer l = (c : Text) × In c l × ((c ≡ issuer.text) ⊎ (c ≡ hex_suffix issuer))

-- A policy lets an issuer do an operation.
pub record Permits (lp : LeasePolicy) (issuer : NodeId) (op : Text) : Type 0 where
  pub controller : (lp.controllers_allowed ≡ []) ⊎ Names issuer lp.controllers_allowed
  pub operation :
      (lp.operations_allowed ≡ []) × In op default_safe_ops
      ⊎ (lp.operations_allowed ≢ []) × In op lp.operations_allowed

contains-true : (l : List Text) (t : Text) → contains l t ≡ true → In t l
unfolding contains
contains-true [] t h = cc
contains-true (x ∷ l) t h = ground (arith, text_beq_iff x t, contains-true l t)

contains_of_In : (l : List Text) (t : Text) → In t l → contains l t ≡ true
unfolding contains
contains_of_In [] t m = elim m [ ]
contains_of_In (x ∷ l) t (inl e) = ground (arith, text_beq_iff x t)
contains_of_In (x ∷ l) t (inr m) = ground (arith, contains_of_In l t m)

names_node-true : (n : NodeId) (l : List Text) → names_node n l ≡ true → Names n l
unfolding names_node
names_node-true n [] h = cc
names_node-true n (c ∷ l) h = elim (Bool-cases (c == n.text || c == hex_suffix n)) [
  | inl e ↦ (c, inl refl, ground (arith, text_beq_iff c n.text, text_beq_iff c (hex_suffix n)))
  | inr e ↦ let (d, m, p) = names_node-true n l (ground arith) in (d, inr m, p)
]

names_node_of_Names : (n : NodeId) (l : List Text) → Names n l → names_node n l ≡ true
unfolding names_node
names_node_of_Names n [] (c, m, p) = elim m [ ]
names_node_of_Names n (x ∷ l) (c, inl e, p) =
    ground (arith, text_beq_iff x n.text, text_beq_iff x (hex_suffix n))
names_node_of_Names n (x ∷ l) (c, inr m, p) = ground (arith, names_node_of_Names n l (c, m, p))

check_policy_sound :
    (n : NodeId) (m op : Text) (lp : LeasePolicy) → check_policy n m op lp ≡ ok tt → Permits lp n op
unfolding check_policy
check_policy_sound n m op lp h = record {
  controller = ground (arith, names_node-true n lp.controllers_allowed);
  operation =
      ground (arith, contains-true default_safe_ops op, contains-true lp.operations_allowed op);
}

controller_ok :
    (n : NodeId) (l : List Text)
    → (l ≡ []) ⊎ Names n l
    → (not (is_empty l) && not (names_node n l)) ≡ false
controller_ok n l (inl e) = rw e
controller_ok n l (inr h) = ground (arith, names_node_of_Names n l h)

operation_ok :
    (op : Text) (l : List Text)
    → (l ≡ []) × In op default_safe_ops ⊎ (l ≢ []) × In op l
    → (if is_empty l then contains default_safe_ops op else contains l op) ≡ true
operation_ok op l (inl h) = rw h.0 (contains_of_In default_safe_ops op h.1)
operation_ok op [] (inr h) = elim h.1 [ ]
operation_ok op (x ∷ l) (inr h) = contains_of_In (x ∷ l) op h.1

check_policy_complete :
    (n : NodeId) (m op : Text) (lp : LeasePolicy) → Permits lp n op → check_policy n m op lp ≡ ok tt
unfolding check_policy
check_policy_complete n m op lp h =
    rw (controller_ok n lp.controllers_allowed h.controller)
      (rw (operation_ok op lp.operations_allowed h.operation))

module _ (parse lookup_profile : Text → Option Profile) (issuer : NodeId) where
  -- The profile that judges an event, and what it must permit.
  abbrev pub Judged : Option Profile → Text → Type 0
  Judged found op = (p : Profile) × (found ≡ some p) × Permits p.lease_policy issuer op

  abbrev pub MayIssue : EventBody → Type 0
  MayIssue (claim_lease t) = Unit
  MayIssue (release_lease t) = Unit
  MayIssue (assign m toml) = Judged (parse toml) (codes "assign")
  MayIssue (unassign m) = Judged (lookup_profile m) (codes "unassign")
  MayIssue (balloon m mb) = Judged (lookup_profile m) (codes "balloon")
  MayIssue (heartbeat mem cpus running hash) = Unit

  check_profile_iff :
      (m op : Text) (found : Option Profile)
      → (check_profile issuer m op found ≡ ok tt) ↔ Judged found op
  unfolding check_profile
  check_profile_iff m op none = (λ h. cc, λ h. cc (h.1))
  check_profile_iff m op (some p) = (
    λ h. (p, refl, check_policy_sound issuer m op p.lease_policy h),
    λ h.
        let same_profile : h.0 ≡ p = cc (h.1) in
        check_policy_complete issuer m op p.lease_policy
          (subst (λ (q : Profile). Permits q.lease_policy issuer op) same_profile h.2),
  )

  -- The gate passes exactly the lease events, the heartbeats, and the events that the policy of the
  -- judging profile permits: for an `Assign` the profile that it carries, else the stored one.
  pub may_apply_iff :
      (body : EventBody) → (may_apply parse lookup_profile issuer body ≡ ok tt) ↔ MayIssue body
  unfolding may_apply
  may_apply_iff (claim_lease t) = (λ _. tt, λ _. refl)
  may_apply_iff (release_lease t) = (λ _. tt, λ _. refl)
  may_apply_iff (assign m toml) = check_profile_iff m (codes "assign") (parse toml)
  may_apply_iff (unassign m) = check_profile_iff m (codes "unassign") (lookup_profile m)
  may_apply_iff (balloon m mb) = check_profile_iff m (codes "balloon") (lookup_profile m)
  may_apply_iff (heartbeat mem cpus running hash) = (λ _. tt, λ _. refl)

  -- A controller that the stored policy shuts out may not withdraw or resize the manifest, and may
  -- still assign it anew with a manifest that names no policy.
  pub assign_evades_policy :
      (m toml : Text) (mb : ℕ) (stored carried : Profile)
      → lookup_profile m ≡ some stored
      → stored.lease_policy.controllers_allowed ≢ []
      → ¬ Names issuer stored.lease_policy.controllers_allowed
      → parse toml ≡ some carried
      → carried.lease_policy.controllers_allowed ≡ []
      → carried.lease_policy.operations_allowed ≡ []
      → (may_apply parse lookup_profile issuer (unassign m) ≢ ok tt)
        × (may_apply parse lookup_profile issuer (balloon m mb) ≢ ok tt)
        × (may_apply parse lookup_profile issuer (assign m toml) ≡ ok tt)
  assign_evades_policy m toml mb stored carried found listed shut parsed any safe = (
    λ h. refused ((may_apply_iff (unassign m)).0 h),
    λ h. refused ((may_apply_iff (balloon m mb)).0 h),
    (may_apply_iff (assign m toml)).1
        (carried, parsed, record { controller = inl any; operation = inl (safe, inl refl) }),
  )
    where
      refused : {op : Text} → Judged (lookup_profile m) op → ⊥
      refused (p, e, permits) =
          let same_profile : stored ≡ p = cc (e, found) in
          elim permits.controller [
            | inl none_listed ↦ listed (cc (same_profile, none_listed))
            | inr named ↦ shut (
                subst (λ (q : Profile). Names issuer q.lease_policy.controllers_allowed)
                  (sym same_profile) named)
          ]
