-- ===== src/Cockpit/Workers.antt =====
-- crates/cockpit/src/lib.rs: the two workers of the console, one that calls the hypervisor by itself
-- and one that asks the daemon. The worker's message is the event that it sends, without its time.
pub mod Agreement
use rotten_apple.Prelude.{
  Option, Result, Text, codes, decimal, err, if◌then◌else◌, none, ok, some, ◌++◌, ◌+◌, ◌∷◌,
}
use rotten_apple.Manifest.{Profile, PolicyMemory}
use rotten_apple.Backend.{BackendError, HypervisorBackend}
use rotten_apple.Orchestratord.Protocol.{
  Json, Request, Response, answer, failure, ErrorObject, ℤ, pos, negsuc,
}
use rotten_apple.Orchestratord.Params.{Host}
use rotten_apple.Orchestratord.Actor.{Machine}
use rotten_apple.Orchestratord.Dispatch.{Daemon, Answer, Outcome, dispatch}
use rotten_apple.Cockpit.Commands.{
  Cmd, refresh, promote_xen_default, shutdown, start, stop, balloon, create_from_manifest,
  create_instance, set_policy, Value, get, as_u64, as_str, as_bool, cmd_to_rpc, action_label,
}
use rotten_apple.Cockpit.Commands
use rotten_apple.Cockpit.State.{EventKind, info, success, failed}

abbrev pub Entry : Type 0
Entry = EventKind × Text

-- What is foreign to both: the text of an error, the files of manifests, GRUB, and the instances.
pub record Around : Type 0 where
  pub backend_error_text : BackendError → Text
  pub load : Text → Result Text Profile
  pub promote_xen_default : Entry

-- What a call of the hypervisor makes of a message.
abbrev pub told :
    {A S : Type 0}
    → Around
    → (done : A → Text) → (prefix : Text) → Result BackendError A × S
    → Option Entry × S
told w done prefix (ok a, b) = (some (success, done a), b)
told w done prefix (err e, b) = (some (failed, prefix ++ (codes ": " ++ w.backend_error_text e)), b)

module _ (w : Around) (h : HypervisorBackend) where
  create_loaded : Text → Result Text Profile → h.State → Option Entry × h.State
  create_loaded path (err e) b = (some (failed, codes "load " ++ (path ++ (codes ": " ++ e))), b)
  create_loaded path (ok p) b =
      told w (λ handle. codes "created " ++ (p.profile.name ++ (codes " → domid " ++ handle)))
        (codes "create_guest " ++ p.profile.name) (h.create_guest b p)

  -- `dispatch`, without the daemon.
  unfoldable pub dispatch_direct : Cmd → h.State → Option Entry × h.State
  unfolding create_loaded decimal
  dispatch_direct refresh b = (none, b)
  dispatch_direct shutdown b = (none, b)
  dispatch_direct promote_xen_default b = (some w.promote_xen_default, b)
  dispatch_direct (start handle) b =
      told w (λ u. codes "start: " ++ handle) (codes "start " ++ handle) (h.start_guest b handle)
  dispatch_direct (stop handle force) b =
      let label = if force then codes "destroy" else codes "shutdown" in
      told w (λ u. label ++ (codes ": " ++ handle)) (label ++ (codes " " ++ handle))
        (h.stop_guest b handle force)
  dispatch_direct (balloon handle target_mb) b =
      told w
        (λ u. codes "balloon " ++ (handle ++ (codes " → " ++ (decimal target_mb ++ codes "M"))))
        (codes "balloon " ++ handle) (h.balloon_to b handle target_mb)
  dispatch_direct (create_from_manifest path) b = create_loaded path (w.load path) b
  dispatch_direct (set_policy domid min_mb max_mb cooldown_s) b =
      (some (failed, codes "policy edit requires daemon mode — start orchestratord"), b)
  dispatch_direct (create_instance id base memory_mb vcpus) b =
      (some (failed, codes "instance creation requires daemon mode"), b)

abbrev int_text : ℤ → Text
int_text (pos n) = decimal n
int_text (negsuc n) = b'-' ∷ decimal (n + 1)

-- The values that the console sends, as the daemon sees them; reading a policy out of one is serde's.
abbrev pub sent_json : (Value → Result Text PolicyMemory) → Json
sent_json policy_of = record {
  Value = Value;
  null = Commands.null;
  get = get;
  as_u64 = as_u64;
  as_str = as_str;
  as_bool = as_bool;
  policy_of = policy_of;
}

module _ (policy_of : Value → Result Text PolicyMemory) (h : HypervisorBackend) (m : Machine h)
    (host : Host) (id : Value) where
  -- One call over a connection that holds.
  unfoldable pub call_daemon :
      Text × Value → Daemon (sent_json policy_of) h → Outcome (sent_json policy_of) h
  unfolding dispatch
  call_daemon (method, params) s =
      dispatch (sent_json policy_of) h m host
        (record { jsonrpc = codes "2.0"; method = method; params = params; id = id }) s

  -- `Display` of a refusal by the daemon.
  abbrev error_text : ErrorObject → Text
  error_text e = codes "daemon error " ++ (int_text e.code ++ (codes ": " ++ e.message))

  abbrev pub answered : Text → Response Value Answer → Entry
  answered label (answer result i) = (success, label)
  answered label (failure e i) = (failed, label ++ (codes ": " ++ error_text e))

  unfoldable pub send_rpc :
      (label : Text)
      → Option (Text × Value)
      → Daemon (sent_json policy_of) h
      → Option Entry × Daemon (sent_json policy_of) h
  send_rpc label none s = (none, s)
  send_rpc label (some rpc) s =
      let (response, after) = call_daemon rpc s in (some (answered label response), after)

  -- `dispatch_daemon`, for the commands that are one call.
  unfoldable pub dispatch_rpc :
      Cmd → Daemon (sent_json policy_of) h → Option Entry × Daemon (sent_json policy_of) h
  dispatch_rpc cmd s = send_rpc (action_label cmd) (cmd_to_rpc cmd) s
