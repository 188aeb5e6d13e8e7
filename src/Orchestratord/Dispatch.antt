-- ===== src/Orchestratord/Dispatch.antt =====
-- crates/orchestratord/src/dispatch.rs: the methods of the daemon. An answer keeps what it carries,
-- before its encoding as JSON.
pub mod ReadOnly
use rotten_apple.Prelude.{
  Bool, List, Option, Result, Text, [], codes, err, false, if◌then◌else◌, leb, map, nat_eq, none,
  ok, ok_or, some, text_eq, true, ℕ, ◌==◌, ◌∷◌,
}
use rotten_apple.HashMap
use rotten_apple.Manifest.{Profile, PolicyMemory}
use rotten_apple.Governor.{strip_prefix}
use rotten_apple.Backend.{HypervisorBackend}
use rotten_apple.Orchestratord.Broadcast.{events_tail}
use rotten_apple.Orchestratord.Engine.{ActorError, Event, EngineState, set_policy}
use rotten_apple.Orchestratord.Engine
use rotten_apple.Orchestratord.Actor.{
  DomainInfo, HostInfo, HostResources, ActorState, Machine, ActorRequest, host_info, host_resources,
  domain_list, domain_get, domain_start, domain_shutdown, domain_balloon, domain_create,
  send_and_recv,
}
use rotten_apple.Orchestratord.Params.{
  Host, Fallible, parse_domid, str_member, load_inline, load_file, load_profile, parse_set_policy,
  parse_tail,
}
use rotten_apple.Orchestratord.Protocol.{
  ℤ, invalid_request, method_not_found, backend_unavailable_code, backend_internal_code,
  permission_denied_code, guest_not_found_code, guest_already_running_code,
  insufficient_resources_code, hardware_unavailable_code, Json, Request, Data, detail,
  unknown_method, ErrorObject, Response, answer, failure, failure_with,
}

pub record EngineStatus : Type 0 where
  pub running : Bool
  pub last_tick_unix : ℕ
  pub controlled_domains : List ℕ

pub data Answer : Type 0 where
  pong done : Answer
  of_host : HostInfo → Answer
  of_resources : HostResources → Answer
  of_domains : List DomainInfo → Answer
  of_domain : DomainInfo → Answer
  of_balloon : (target_kb : ℕ) → Answer
  of_domid : ℕ → Answer
  of_status : EngineStatus → Answer
  of_events : (cursor : ℕ) → List Event → Answer

insert_sorted : ℕ → List ℕ → List ℕ
insert_sorted n [] = n ∷ []
insert_sorted n (m ∷ ms) =
    let later = insert_sorted n ms in if leb n m then n ∷ m ∷ ms else m ∷ later

-- The ids are the keys of a map, so there is only one way to sort them.
sort : List ℕ → List ℕ
unfolding insert_sorted
sort [] = []
sort (n ∷ ns) = insert_sorted n (sort ns)

-- `EngineHandle::status`.
unfoldable pub engine_status : EngineState → EngineStatus
unfolding sort
engine_status s = record {
  running = true;
  last_tick_unix = s.last_tick;
  controlled_domains = sort (map (λ p. p.0) s.policies);
}

-- `ErrorObject::from_actor_error`.
unfoldable pub from_actor_error : ActorError → ErrorObject
from_actor_error e =
    let (code, message, extra) = parts e in record { code = code; message = message; extra = extra }
  where
    parts : ActorError → ℤ × Text × Option Data
    parts (Engine.backend_unavailable d) =
        (backend_unavailable_code, codes "backend unavailable", some (detail d))
    parts (Engine.backend_internal d) =
        (backend_internal_code, codes "backend internal error", some (detail d))
    parts (Engine.permission_denied d) =
        (permission_denied_code, codes "permission denied", some (detail d))
    parts (Engine.guest_not_found d) =
        (guest_not_found_code, codes "domain not found", some (detail d))
    parts (Engine.guest_already_running d) =
        (guest_already_running_code, codes "domain already running", some (detail d))
    parts (Engine.insufficient_resources d) =
        (insufficient_resources_code, codes "insufficient resources", some (detail d))
    parts (Engine.hardware_unavailable d) =
        (hardware_unavailable_code, codes "hardware unavailable", some (detail d))
    parts Engine.actor_crashed = (backend_internal_code, codes "actor thread crashed", none)

module _ (x : Json) where
  module _ (h : HypervisorBackend) where
    -- The state that all connections share.
    pub record Daemon : Type 0 where
      pub actor : ActorState h
      pub engine : EngineState

    abbrev pub Outcome : Type 0
    Outcome = Response x.Value Answer × Daemon

    invalid_resp : Text → x.Value → Daemon → Outcome
    invalid_resp message id s = (failure_with invalid_request message none id, s)

    unfoldable pub reply :
        {A : Type 0}
        → (A → Answer)
        → x.Value
        → EngineState
        → Result ActorError A × ActorState h
        → Outcome
    unfolding from_actor_error
    reply render id engine (ok a, actor) =
        (answer (render a) id, record { actor = actor; engine = engine })
    reply render id engine (err e, actor) =
        (failure (from_actor_error e) id, record { actor = actor; engine = engine })

    module _ (m : Machine h) (host : Host) (req : Request x) (s : Daemon) where
      -- A call of the actor.
      call : {A : Type 0} → ActorRequest h A → (A → Answer) → Outcome
      unfolding send_and_recv
      call request render = reply render req.id s.engine (send_and_recv h m request s.actor)

      with_params : {A : Type 0} → Fallible A → (A → Outcome) → Outcome
      unfolding invalid_resp
      with_params (err e) next = invalid_resp e req.id s
      with_params (ok a) next = next a

      shutdown_force : Bool
      shutdown_force = elim (x.get req.params (codes "force")) [
        | none ↦ false
        | some v ↦ elim (x.as_bool v) [ none ↦ false | some b ↦ b ]
      ]

      balloon_target : Fallible ℕ
      balloon_target = elim (x.get req.params (codes "target_kb")) [
        | none ↦ err (codes "missing or invalid target_kb (u64)")
        | some v ↦ ok_or (x.as_u64 v) (codes "missing or invalid target_kb (u64)")
      ]

      tail : ℕ × ℕ → Outcome
      unfolding events_tail
      tail (since, limit) =
          let (cursor, events) = events_tail since limit s.engine.events in
          (answer (of_events cursor events) req.id, s)

      policy : ℕ × PolicyMemory → Outcome
      unfolding set_policy
      policy (domid, p) = (answer done req.id, record s { engine = set_policy domid p s.engine })

      unfoldable pub route : (method : Text) → Outcome
      unfolding call with_params shutdown_force balloon_target tail policy parse_domid load_profile
          parse_set_policy parse_tail engine_status
      route method =
          if method == codes "ping"
          then (answer pong req.id, s)
          else if method == codes "host.info"
          then call (host_info) of_host
          else if method == codes "host.resources"
          then call host_resources of_resources
          else if method == codes "domain.list"
          then call domain_list of_domains
          else if method == codes "domain.get"
          then with_params (parse_domid x req.params) (λ domid. call (domain_get domid) of_domain)
          else if method == codes "domain.start"
          then with_params (parse_domid x req.params)
              (λ domid. call (domain_start domid) (λ u. done))
          else if method == codes "domain.shutdown"
          then with_params (parse_domid x req.params)
              (λ domid. call (domain_shutdown domid shutdown_force) (λ u. done))
          else if method == codes "domain.kill"
          then with_params (parse_domid x req.params)
              (λ domid. call (domain_shutdown domid true) (λ u. done))
          else if method == codes "domain.balloon"
          then with_params (parse_domid x req.params) (λ domid.
            with_params balloon_target
              (λ target_kb. call (domain_balloon domid target_kb) (λ u. of_balloon target_kb)))
          else if method == codes "domain.create"
          then with_params (load_profile x host req.params)
              (λ profile. call (domain_create profile) of_domid)
          else if method == codes "engine.status"
          then (answer (of_status (engine_status s.engine)) req.id, s)
          else if method == codes "engine.set_policy"
          then with_params (parse_set_policy x req.params) policy
          else if method == codes "events.tail"
          then with_params (parse_tail x req.params) tail
          else (
            failure_with method_not_found (codes "Method not found") (some (unknown_method method))
                req.id,
            s,
          )

      -- `dispatch`, with the state of the daemon afterwards.
      unfoldable pub dispatch : Outcome
      unfolding route
      dispatch = route req.method
