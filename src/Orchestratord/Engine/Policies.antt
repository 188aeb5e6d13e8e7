-- ===== src/Orchestratord/Engine/Policies.antt =====
-- Which policies a tick leaves behind.
use rotten_apple.Prelude.{
  Bool-cases, In, List, Option, Option-cases, Result-cases, [], ap, arith, inl, inr, is_some,
  nat_beq, nat_eq, none, ok, ok-injective, refl, some, subst, sym, text_eq, true, ℕ, ◌∙◌, ◌∷◌, ◌≡◌,
}
use rotten_apple.HashMap
use rotten_apple.HashMap.{IsEquivalence}
use rotten_apple.Manifest.{PolicyMemory}
use rotten_apple.Orchestratord.Engine.{
  ActorError, backend_unavailable, backend_internal, permission_denied, guest_not_found,
  guest_already_running, insufficient_resources, hardware_unavailable, actor_crashed, DomainInfo,
  Message, EngineState, Environment, default_policy_for, insert_defaults, emit_defaults,
  backend_seen, tick_failed, tick_domains, move_domains, consider_policy, plan_move, apply_move,
  run_tick, Direction,
}

pub nat_beq-IsEquivalence : IsEquivalence nat_beq
nat_beq-IsEquivalence = record {
  same_refl = λ a. ground arith;
  same_symm = λ a b h. ground arith;
  same_trans = λ a b c h k. ground arith;
}

-- A known domain keeps its policy, and every listed domain gets one.
pub insert_defaults-known :
    (ds : List DomainInfo) (policies : List (ℕ × PolicyMemory)) (id : ℕ) (p : PolicyMemory)
    → HashMap.get nat_beq id policies ≡ some p
    → HashMap.get nat_beq id (insert_defaults ds policies).0 ≡ some p
unfolding insert_defaults
insert_defaults-known [] policies id p h = h
insert_defaults-known (d ∷ ds) policies id p h =
    let added = default_policy_for d.domid d.memory_mb d.memory_max_mb in
    ground (
      arith,
      insert_defaults-known ds policies id p h,
      insert_defaults-known ds (HashMap.insert nat_beq d.domid added policies) id p,
      HashMap.get-insert nat_beq nat_beq-IsEquivalence d.domid id added policies,
      HashMap.contains_key-get nat_beq d.domid policies,
    )

insert_defaults-listed :
    (ds : List DomainInfo) (policies : List (ℕ × PolicyMemory)) (d : DomainInfo)
    → In d ds
    → (p : PolicyMemory) × (HashMap.get nat_beq d.domid (insert_defaults ds policies).0 ≡ some p)
unfolding insert_defaults
insert_defaults-listed [] policies d m = elim m [ ]
insert_defaults-listed (e ∷ ds) policies d (inl q) =
    elim (Bool-cases (HashMap.contains_key nat_beq e.domid policies)) [
      | inl known ↦
          let found : is_some (HashMap.get nat_beq e.domid policies) ≡ true =
            sym (HashMap.contains_key-get nat_beq e.domid policies) ∙ known in
          elim (Option-cases (HashMap.get nat_beq e.domid policies)) [
            | inl none_found ↦ absurd (ground arith)
            | inr (p, held) ↦ rw (known, q) (p, insert_defaults-known ds policies e.domid p held)
          ]
      | inr fresh ↦
          let p = default_policy_for e.domid e.memory_mb e.memory_max_mb in
          let held = HashMap.get-insert nat_beq nat_beq-IsEquivalence e.domid e.domid p policies in
          rw (fresh, q) (p, insert_defaults-known ds _ e.domid p (ground (arith, held)))
    ]
insert_defaults-listed (e ∷ ds) policies d (inr m) =
    elim (Bool-cases (HashMap.contains_key nat_beq e.domid policies)) [
      | inl known ↦ rw known (insert_defaults-listed ds policies d m)
      | inr fresh ↦ rw fresh (insert_defaults-listed ds _ d m)
    ]

module _ (env : Environment) where
  policies-apply_move :
      (d : DomainInfo) (c : Option ℕ) (t : ℕ) (dir : Direction) (s : EngineState)
      → (apply_move env d c (t, dir) s).policies ≡ s.policies
  unfolding apply_move
  policies-apply_move d c t dir s = ground arith

  policies-consider_policy :
      (d : DomainInfo) (o : Option PolicyMemory) (s : EngineState)
      → (consider_policy env d o s).policies ≡ s.policies
  policies-consider_policy d none s = refl
  policies-consider_policy d (some p) s = elim (Option-cases (plan_move d.memory_mb p)) [
    | inl e ↦ rw e
    | inr ((t, dir), e) ↦ rw e (policies-apply_move d p.cooldown_s t dir s)
  ]

  policies-move_domains :
      (snapshot : List (ℕ × PolicyMemory)) (ds : List DomainInfo) (s : EngineState)
      → (move_domains env snapshot ds s).policies ≡ s.policies
  unfolding move_domains
  policies-move_domains snapshot [] s = refl
  policies-move_domains snapshot (d ∷ ds) s =
      policies-move_domains snapshot ds _
      ∙ policies-consider_policy d (HashMap.get nat_beq d.domid snapshot) s

  policies-emit_defaults :
      (l : List (ℕ × Message)) (s : EngineState) → (emit_defaults env l s).policies ≡ s.policies
  unfolding emit_defaults
  policies-emit_defaults [] s = refl
  policies-emit_defaults ((id, m) ∷ l) s = policies-emit_defaults l _

  policies-tick_domains :
      (ds : List DomainInfo) (s : EngineState)
      → (tick_domains env ds s).policies ≡ (insert_defaults ds s.policies).0
  unfolding tick_domains
  policies-tick_domains ds s =
      policies-move_domains (insert_defaults ds s.policies).0 ds _
      ∙ policies-emit_defaults (insert_defaults ds s.policies).1 _

  pub policies-backend_seen : (s : EngineState) → (backend_seen env s).policies ≡ s.policies
  unfolding backend_seen
  policies-backend_seen s = ground arith

  policies-tick_failed :
      (e : ActorError) (s : EngineState) → (tick_failed env e s).policies ≡ s.policies
  unfolding tick_failed
  policies-tick_failed (backend_unavailable r) s = ground arith
  policies-tick_failed (backend_internal r) s = refl
  policies-tick_failed (permission_denied r) s = refl
  policies-tick_failed (guest_not_found r) s = refl
  policies-tick_failed (guest_already_running r) s = refl
  policies-tick_failed (insufficient_resources r) s = refl
  policies-tick_failed (hardware_unavailable r) s = refl
  policies-tick_failed actor_crashed s = refl

  -- A tick never changes the policy of a domain that has one, and when the domains could be listed
  -- it leaves every listed domain with a policy.
  pub policies-run_tick :
      (s : EngineState)
      → ((id : ℕ) (p : PolicyMemory)
          → HashMap.get nat_beq id s.policies ≡ some p
          → HashMap.get nat_beq id (run_tick env s).policies ≡ some p)
        × ((domains : List DomainInfo) (d : DomainInfo)
            → env.domain_list ≡ ok domains
            → In d domains
            → (p : PolicyMemory) × (HashMap.get nat_beq d.domid (run_tick env s).policies ≡ some p))
  unfolding run_tick move_domains apply_move
  policies-run_tick s = elim (Result-cases env.domain_list) [
    | inl (domains, h) ↦
        let started = record s { last_tick = env.now_unix } in
        let e : (run_tick env s).policies ≡ (insert_defaults domains s.policies).0 = rw h (
          policies-tick_domains domains (backend_seen env started)
          ∙ ap (λ l. (insert_defaults domains l).0) (policies-backend_seen started)) in
        (
          (λ id p k. rw e (insert_defaults-known domains s.policies id p k)),
          λ domains' d h' m.
              let same_list : domains' ≡ domains = ok-injective (sym h' ∙ h) in
              rw e (
                insert_defaults-listed domains s.policies d
                  (subst (λ (l : List DomainInfo). In d l) same_list m)),
        )
    | inr (x, h) ↦
        let e : (run_tick env s).policies ≡ s.policies =
          rw h (policies-tick_failed x (record s { last_tick = env.now_unix })) in
        (λ id p k. rw e k, λ domains' d h' m. cc (h, h'))
  ]
