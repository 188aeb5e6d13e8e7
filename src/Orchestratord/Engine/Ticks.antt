-- ===== src/Orchestratord/Engine/Ticks.antt =====
-- What a tick keeps, from what its messages and its moves keep.
use rotten_apple.Prelude.{
  All, In, In-append, List, Option, Option-cases, Result, [], err, if_elim, if◌then◌else◌, inl, inr,
  length, nat_beq, nat_eq, none, ok, some, subst, sym, text_eq, ℕ, ◌==◌, ◌∷◌, ◌≡◌, ◌⊎◌,
}
use rotten_apple.Orchestratord.Broadcast.{Inner, send, pop_front, capacity}
use rotten_apple.HashMap
use rotten_apple.HashMap.{IsEquivalence}
use rotten_apple.Manifest.{PolicyMemory}
use rotten_apple.Orchestratord.Engine.{
  Direction, ActorError, backend_unavailable, backend_internal, permission_denied, guest_not_found,
  guest_already_running, insufficient_resources, hardware_unavailable, actor_crashed, DomainInfo,
  Message, EngineState, Environment, insert_defaults, emit_defaults, backend_seen, tick_failed,
  tick_domains, move_domains, consider_policy, plan_move, apply_move, run_tick, EventKind,
  engine_skip, backend_state_change, engine_policy_auto_default, Event, ballooned,
  backend_is_available, backend_is_unavailable, domain_list_failed, emit,
}
use rotten_apple.Orchestratord.Engine.Policies.{policies-backend_seen}

pop_front-In : {A : Type 0} (x : ℕ × A) (r : List (ℕ × A)) → In x (pop_front r) → In x r
pop_front-In x [] h = h
pop_front-In x (y ∷ r) h = inr h

-- What is in the ring after a send was there before, or is what was sent.
pub In-send :
    {A : Type 0} (x : ℕ × A) (v : A) (g : Inner A)
    → In x (send v g).1.ring
    → In x g.ring ⊎ (x ≡ (g.next_seq, v))
unfolding send
In-send x v g h =
    let kept = if length g.ring == capacity then pop_front g.ring else g.ring in
    elim (In-append x kept ((g.next_seq, v) ∷ []) h) [
      | inr k ↦ elim k [ inl e ↦ inr e | inr n ↦ absurd n ]
      | inl k ↦ inl (
          if_elim (λ r. In x r → In x g.ring) (length g.ring == capacity)
            (λ _. pop_front-In x g.ring) (λ _ i. i) k)
    ]

abbrev pub Cooldowns : Type 0
Cooldowns = List ((ℕ × Direction) × ℕ)

-- A message that tells of no move.
abbrev pub IsOther : Message → Type 0
IsOther m = (dir : Direction) (from_mb to_mb : ℕ) → ¬ (m ≡ ballooned dir from_mb to_mb)

-- What a tick keeps, if every message but that of a move keeps it, and every move that it considers.
module _ (env : Environment) (Q : Inner Event → Cooldowns → Type 0)
    (other : (kind : EventKind) (domid : Option ℕ) (m : Message) (s : EngineState)
      → IsOther m
      → Q s.events s.cooldowns
      → Q (emit env kind domid m s).events s.cooldowns) where
  emit_defaults-keeps :
      (l : List (ℕ × Message)) (s : EngineState)
      → All (λ d. IsOther d.1) l
      → Q s.events s.cooldowns
      → Q (emit_defaults env l s).events (emit_defaults env l s).cooldowns
  unfolding emit_defaults
  emit_defaults-keeps [] s o q = q
  emit_defaults-keeps ((id, m) ∷ l) s o q =
      emit_defaults-keeps l _ o.1 (other engine_policy_auto_default (some id) m s o.0 q)

  backend_seen-keeps :
      (s : EngineState)
      → Q s.events s.cooldowns
      → Q (backend_seen env s).events (backend_seen env s).cooldowns
  unfolding backend_seen
  backend_seen-keeps s q =
      if_elim (λ (t : EngineState). Q t.events t.cooldowns) s.backend_was_available (λ _. q)
        (λ _. other backend_state_change none backend_is_available s (λ d a b. cc) q)

  tick_failed-keeps :
      (e : ActorError) (s : EngineState)
      → Q s.events s.cooldowns
      → Q (tick_failed env e s).events (tick_failed env e s).cooldowns
  unfolding tick_failed
  tick_failed-keeps (backend_unavailable r) s q =
      if_elim (λ (t : EngineState). Q t.events t.cooldowns) s.backend_was_available
        (λ _. other backend_state_change none backend_is_unavailable s (λ d a b. cc) q) (λ _. q)
  tick_failed-keeps (backend_internal r) s q =
      other engine_skip none (domain_list_failed (backend_internal r)) s (λ d a b. cc) q
  tick_failed-keeps (permission_denied r) s q =
      other engine_skip none (domain_list_failed (permission_denied r)) s (λ d a b. cc) q
  tick_failed-keeps (guest_not_found r) s q =
      other engine_skip none (domain_list_failed (guest_not_found r)) s (λ d a b. cc) q
  tick_failed-keeps (guest_already_running r) s q =
      other engine_skip none (domain_list_failed (guest_already_running r)) s (λ d a b. cc) q
  tick_failed-keeps (insufficient_resources r) s q =
      other engine_skip none (domain_list_failed (insufficient_resources r)) s (λ d a b. cc) q
  tick_failed-keeps (hardware_unavailable r) s q =
      other engine_skip none (domain_list_failed (hardware_unavailable r)) s (λ d a b. cc) q
  tick_failed-keeps actor_crashed s q =
      other engine_skip none (domain_list_failed actor_crashed) s (λ d a b. cc) q

  -- A planned move keeps it, under the policies of the tick.
  abbrev pub Moves : List (ℕ × PolicyMemory) → Type 0
  Moves snapshot =
      (d : DomainInfo) (p : PolicyMemory) (t : ℕ) (dir : Direction) (s : EngineState)
      → HashMap.get nat_beq d.domid snapshot ≡ some p
      → Q s.events s.cooldowns
      → Q (apply_move env d p.cooldown_s (t, dir) s).events
          (apply_move env d p.cooldown_s (t, dir) s).cooldowns

  consider_policy-keeps :
      (snapshot : List (ℕ × PolicyMemory)) (d : DomainInfo) (s : EngineState)
      → Moves snapshot
      → Q s.events s.cooldowns
      → Q
          (consider_policy env d (HashMap.get nat_beq d.domid snapshot) s).events
          (consider_policy env d (HashMap.get nat_beq d.domid snapshot) s).cooldowns
  consider_policy-keeps snapshot d s moves q =
      elim (Option-cases (HashMap.get nat_beq d.domid snapshot)) [
        | inl e ↦ rw e q
        | inr (p, e) ↦ elim (Option-cases (plan_move d.memory_mb p)) [
          | inl m ↦ rw (e, m) q
          | inr ((t, dir), m) ↦ rw (e, m) (moves d p t dir s e q)
        ]
      ]

  move_domains-keeps :
      (snapshot : List (ℕ × PolicyMemory)) (ds : List DomainInfo) (s : EngineState)
      → Moves snapshot
      → Q s.events s.cooldowns
      → Q (move_domains env snapshot ds s).events (move_domains env snapshot ds s).cooldowns
  unfolding move_domains
  move_domains-keeps snapshot [] s moves q = q
  move_domains-keeps snapshot (d ∷ ds) s moves q =
      move_domains-keeps snapshot ds _ moves (consider_policy-keeps snapshot d s moves q)

  insert_defaults-IsOther :
      (ds : List DomainInfo) (policies : List (ℕ × PolicyMemory))
      → All (λ d. IsOther d.1) (insert_defaults ds policies).1
  unfolding insert_defaults
  insert_defaults-IsOther [] policies = tt
  insert_defaults-IsOther (d ∷ ds) policies =
      if_elim (λ (r : List (ℕ × PolicyMemory) × List (ℕ × Message)). All (λ e. IsOther e.1) r.1)
        (HashMap.contains_key nat_beq d.domid policies) (λ _. insert_defaults-IsOther ds policies)
        (λ _. (λ dir a b. cc, insert_defaults-IsOther ds _))

  tick_domains-keeps :
      (domains : List DomainInfo) (s : EngineState)
      → Moves (insert_defaults domains s.policies).0
      → Q s.events s.cooldowns
      → Q (tick_domains env domains s).events (tick_domains env domains s).cooldowns
  unfolding tick_domains
  tick_domains-keeps domains s moves q =
      let (policies, inserts) = insert_defaults domains s.policies in
      move_domains-keeps policies domains
        (emit_defaults env inserts (record s { policies = policies })) moves
        (emit_defaults-keeps inserts (record s { policies = policies })
          (insert_defaults-IsOther domains s.policies) q)

  pub run_tick-keeps :
      (s : EngineState)
      → ((domains : List DomainInfo) → Moves (insert_defaults domains s.policies).0)
      → Q s.events s.cooldowns
      → Q (run_tick env s).events (run_tick env s).cooldowns
  unfolding run_tick
  run_tick-keeps s moves q = go env.domain_list
    where
      started : EngineState
      started = record s { last_tick = env.now_unix }

      go :
          (r : Result ActorError (List DomainInfo))
          → let t : EngineState = elim r [
            | ok domains ↦ tick_domains env domains (backend_seen env started)
            | err e ↦ tick_failed env e started
          ] in
            Q t.events t.cooldowns
      go (err e) = tick_failed-keeps e started q
      go (ok domains) =
          tick_domains-keeps domains (backend_seen env started)
            (subst (λ (ps : List (ℕ × PolicyMemory)). Moves (insert_defaults domains ps).0)
              (sym (policies-backend_seen env started)) (moves domains))
            (backend_seen-keeps started q)
