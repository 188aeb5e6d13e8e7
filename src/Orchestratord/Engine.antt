-- ===== src/Orchestratord/Engine.antt =====
-- crates/orchestratord/src/engine.rs: the control loop that keeps each domain's memory inside its
-- policy. A tick takes what the environment gives it: the clocks, the list of the domains, and the
-- answer of each balloon call by its arguments (the domain id and the target in kB). The lines of a
-- message are a constructor with the values that they show. The proofs are in the modules below.
pub mod Moves
pub mod Policies
pub mod Ticks
pub mod Cooldown
use rotten_apple.Prelude.{
  Bool, List, Option, Result, Text, [], err, false, if◌then◌else◌, ltb, max, min, nat_beq, nat_eq,
  none, ok, some, text_eq, true, ℕ, ◌&&◌, ◌*◌, ◌-◌, ◌==◌, ◌^◌, ◌∷◌,
}
use rotten_apple.HashMap
use rotten_apple.Manifest.{PolicyMemory}
use rotten_apple.Orchestratord.Broadcast.{Inner, send}

pub data Direction : Type 0 where
  up down : Direction

abbrev pub direction_beq : Direction → Direction → Bool
direction_beq up up = true
direction_beq up down = false
direction_beq down up = false
direction_beq down down = true

abbrev pub same_key : ℕ × Direction → ℕ × Direction → Bool
same_key (domid, dir) (domid', dir') = domid == domid' && direction_beq dir dir'

pub data EventKind : Type 0 where
  engine_apply engine_skip backend_state_change engine_policy_auto_default : EventKind

pub data ActorError : Type 0 where
  backend_unavailable backend_internal permission_denied guest_not_found : Text → ActorError
  guest_already_running insufficient_resources hardware_unavailable : Text → ActorError
  actor_crashed : ActorError

pub data Message : Type 0 where
  backend_is_available backend_is_unavailable : Message
  domain_list_failed balloon_failed : ActorError → Message
  auto_default : (min_mb max_mb : ℕ) → Message
  cooldown_active : Direction → Message
  ballooned : Direction → (from_mb to_mb : ℕ) → Message

pub record Event : Type 0 where
  pub ts_unix : ℕ
  pub kind : EventKind
  pub domid : Option ℕ
  pub message : Message

-- The fields of a listed domain that the engine reads.
pub record DomainInfo : Type 0 where
  pub domid : ℕ
  pub memory_mb : ℕ
  pub memory_max_mb : ℕ

-- What a tick reads and writes. `cooldowns` holds the instants, in nanoseconds, of the last moves.
pub record EngineState : Type 0 where
  pub policies : List (ℕ × PolicyMemory)
  pub events : Inner Event
  pub cooldowns : List ((ℕ × Direction) × ℕ)
  pub backend_was_available : Bool
  pub last_tick : ℕ

-- What a tick gets from outside.
pub record Environment : Type 0 where
  pub now_unix : ℕ
  pub now : ℕ
  pub domain_list : Result ActorError (List DomainInfo)
  pub domain_balloon : (domid target_kb : ℕ) → Result ActorError (Unit {0})

unfoldable pub set_policy : ℕ → PolicyMemory → EngineState → EngineState
set_policy domid policy s = record s { policies = HashMap.insert nat_beq domid policy s.policies }

unfoldable pub default_policy_for : (domid current_mb max_mb : ℕ) → PolicyMemory
default_policy_for domid current_mb max_mb =
    if domid == 0
    then record {
      min_mb = some current_mb;
      max_mb = some current_mb;
      target_headroom_pct = none;
      cooldown_s = some 60;
    }
    else record {
      min_mb = some 0;
      max_mb = some max_mb;
      target_headroom_pct = none;
      cooldown_s = some 30;
    }

-- The second test of `plan_move`.
abbrev pub plan_up : ℕ → Option ℕ → Option (ℕ × Direction)
plan_up current_mb none = none
plan_up current_mb (some min) = if ltb current_mb min then some (min, up) else none

abbrev pub plan_down : ℕ → Option ℕ → Option ℕ → Option (ℕ × Direction)
plan_down current_mb none min_mb = plan_up current_mb min_mb
plan_down current_mb (some max) min_mb =
    if ltb max current_mb then some (max, down) else plan_up current_mb min_mb

unfoldable pub plan_move : ℕ → PolicyMemory → Option (ℕ × Direction)
plan_move current_mb policy = plan_down current_mb policy.max_mb policy.min_mb

abbrev pub saturating_mul : ℕ → ℕ → ℕ
saturating_mul a b = min (a * b) (2 ^ 64 - 1)

abbrev pub unwrap_or_zero : Option ℕ → ℕ
unwrap_or_zero none = 0
unwrap_or_zero (some n) = n

abbrev pub emit : Environment → EventKind → Option ℕ → Message → EngineState → EngineState
emit env kind domid message s =
    let event : Event = record {
      ts_unix = env.now_unix;
      kind = kind;
      domid = domid;
      message = message;
    } in
    record s { events = (send event s.events).1 }

-- The pass that inserts default policies, and the events that it will send.
unfoldable pub insert_defaults :
    List DomainInfo → List (ℕ × PolicyMemory) → List (ℕ × PolicyMemory) × List (ℕ × Message)
insert_defaults [] policies = (policies, [])
insert_defaults (d ∷ ds) policies =
    let p = default_policy_for d.domid d.memory_mb d.memory_max_mb in
    let message = auto_default (unwrap_or_zero p.min_mb) (unwrap_or_zero p.max_mb) in
    let known = insert_defaults ds policies in
    let fresh = insert_defaults ds (HashMap.insert nat_beq d.domid p policies) in
    if HashMap.contains_key nat_beq d.domid policies
    then known
    else (fresh.0, (d.domid, message) ∷ fresh.1)

unfoldable pub emit_defaults : Environment → List (ℕ × Message) → EngineState → EngineState
emit_defaults env [] s = s
emit_defaults env ((domid, message) ∷ rest) s =
    emit_defaults env rest (emit env engine_policy_auto_default (some domid) message s)

-- `now.duration_since(last) < Duration::from_secs(cooldown)`, where both are there.
abbrev pub cooling : ℕ → Option ℕ → Option ℕ → Bool
cooling now none last = false
cooling now (some cooldown_s) none = false
cooling now (some cooldown_s) (some last) = ltb (now - last) (cooldown_s * 10 ^ 9)

-- A planned move of one domain.
unfoldable pub apply_move :
    Environment → DomainInfo → Option ℕ → ℕ × Direction → EngineState → EngineState
apply_move env d cooldown_s (target_mb, dir) s =
    if cooling env.now cooldown_s (HashMap.get same_key (d.domid, dir) s.cooldowns)
    then emit env engine_skip (some d.domid) (cooldown_active dir) s
    else elim (env.domain_balloon d.domid (saturating_mul target_mb 1024)) [
      | ok u ↦
          emit env engine_apply (some d.domid) (ballooned dir d.memory_mb target_mb)
            (record s { cooldowns = HashMap.insert same_key (d.domid, dir) env.now s.cooldowns })
      | err e ↦ emit env engine_skip (some d.domid) (balloon_failed e) s
    ]

abbrev pub consider_move :
    Environment → DomainInfo → PolicyMemory → Option (ℕ × Direction) → EngineState → EngineState
consider_move env d policy none s = s
consider_move env d policy (some move) s = apply_move env d policy.cooldown_s move s

abbrev pub consider_policy :
    Environment → DomainInfo → Option PolicyMemory → EngineState → EngineState
consider_policy env d none s = s
consider_policy env d (some policy) s = consider_move env d policy (plan_move d.memory_mb policy) s

-- The loop over the domains, with the snapshot of the policies.
unfoldable pub move_domains :
    Environment → List (ℕ × PolicyMemory) → List DomainInfo → EngineState → EngineState
move_domains env snapshot [] s = s
move_domains env snapshot (d ∷ ds) s =
    move_domains env snapshot ds (consider_policy env d (HashMap.get nat_beq d.domid snapshot) s)

unfoldable pub backend_seen : Environment → EngineState → EngineState
backend_seen env s =
    if s.backend_was_available
    then s
    else record (emit env backend_state_change none backend_is_available s) {
      backend_was_available = true;
    }

unfoldable pub tick_failed : Environment → ActorError → EngineState → EngineState
tick_failed env (backend_unavailable reason) s =
    if s.backend_was_available
    then record (emit env backend_state_change none backend_is_unavailable s) {
      backend_was_available = false;
    }
    else s
tick_failed env e s = emit env engine_skip none (domain_list_failed e) s

unfoldable pub tick_domains : Environment → List DomainInfo → EngineState → EngineState
unfolding emit_defaults
tick_domains env domains s =
    let (policies, inserts) = insert_defaults domains s.policies in
    move_domains env policies domains (emit_defaults env inserts (record s { policies = policies }))

unfoldable pub run_tick : Environment → EngineState → EngineState
unfolding backend_seen tick_failed tick_domains
run_tick env s =
    let started = record s { last_tick = env.now_unix } in
    elim env.domain_list [
      | ok domains ↦ tick_domains env domains (backend_seen env started)
      | err e ↦ tick_failed env e started
    ]
