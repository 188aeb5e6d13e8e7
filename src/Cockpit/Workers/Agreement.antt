-- ===== src/Cockpit/Workers/Agreement.antt =====
-- Both workers make the same call of the hypervisor.
use rotten_apple.Prelude.{
  Bool, Option, Result, Text, codes, decimal, none, some, true, ℕ, ◌<◌, ◌^◌, ◌≡◌,
}
use rotten_apple.Manifest.{PolicyMemory}
use rotten_apple.Backend.{HypervisorBackend}
use rotten_apple.Orchestratord.Engine.{EngineState}
use rotten_apple.Orchestratord.Params.{Host}
use rotten_apple.Orchestratord.Actor.{Machine, ActorRequest, send_and_recv}
use rotten_apple.Orchestratord.Dispatch.{Daemon, Answer, reply, Outcome}
use rotten_apple.Cockpit.Commands.{
  Cmd, start, stop, balloon, Value, Members, number, object, member,
}
use rotten_apple.Cockpit.Workers.{sent_json, Around, Entry, EventKind}

-- The commands for the guest with a number. The daemon counts in kilobytes.
pub data ForDomain (domid : ℕ) : Cmd → Type 0 where
  to_start : ForDomain domid (start (decimal domid))
  to_stop : (force : Bool) → ForDomain domid (stop (decimal domid) force)
  to_balloon :
      (target_mb : ℕ) → target_mb < 2 ^ 54 → ForDomain domid (balloon (decimal domid) target_mb)

module _ (policy_of : Value → Result Text PolicyMemory) where
  abbrev with_domid : ℕ → Members → Value
  with_domid domid ms = object (member (codes "domid") (number domid) ms)

  module _ (h : HypervisorBackend) (m : Machine h) (host : Host) (id : Value) (domid : ℕ)
      (small : domid < 2 ^ 32) (s : Daemon (sent_json policy_of) h) where
    -- The daemon's answer to a request that the actor serves.
    abbrev replied : ActorRequest h (Unit {0}) → Answer → Outcome (sent_json policy_of) h
    replied request a =
        reply (sent_json policy_of) h (λ u. a) id s.engine (send_and_recv h m request s.actor)

abbrev pub kind_of : Option Entry → Option EventKind
kind_of none = none
kind_of (some (kind, text)) = some kind

module _ (w : Around) (policy_of : Value → Result Text PolicyMemory) (h : HypervisorBackend)
    (m : Machine h) (host : Host) (id : Value) (engine : EngineState) where
  -- A daemon whose actor holds the hypervisor.
  abbrev pub holding : h.State → Daemon (sent_json policy_of) h
  holding b = record { actor = record { alive = true; backend = some b }; engine = engine }

  -- The same kind of message, and the same hypervisor afterwards.
  abbrev pub Agree : Option Entry × h.State → Option Entry × Daemon (sent_json policy_of) h → Type 0
  Agree direct daemon = (kind_of direct.0 ≡ kind_of daemon.0) × (daemon.1 ≡ holding direct.1)
