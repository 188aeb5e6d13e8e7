-- ===== src/Tests/OfDaemon.antt =====
-- The daemon's theorems at a sample ring, a sample tick and a sample request.
use rotten_apple.Prelude.{
  In, List, Text, [], arith, codes, contains, drop, err, inl, length, max, nat_beq, nat_eq, none,
  ok, refl, replicate, rsplit_once, some, text_beq, text_eq, trim, true, utf8, ℕ, ◌*◌, ◌-◌, ◌<◌,
  ◌^◌, ◌∷◌, ◌≡◌, ◌⊎◌,
}
use rotten_apple.HashMap
use rotten_apple.Fabric.NodeId.{NodeId}
use rotten_apple.Fabric.NodeId
use rotten_apple.Fabric.Chain.{trust_get}
use rotten_apple.Manifest.{PolicyMemory}
use rotten_apple.Orchestratord.Broadcast.{send, channel, send_all, drain_since, events_tail}
use rotten_apple.Orchestratord.Broadcast.Polling.{drain_since-send_all, events_tail_loses}
use rotten_apple.Orchestratord.Engine.{
  down, DomainInfo, EngineState, Environment, run_tick, Event, engine_apply, ballooned,
  backend_seen, tick_domains, insert_defaults, emit_defaults, move_domains, plan_move, apply_move,
}
use rotten_apple.Orchestratord.Engine.Cooldown.{NoneNew, run_ticks, cooldown_holds}
use rotten_apple.Orchestratord.Auth.{
  AuthRequest, AuthSession, DenyReason, method_is_privileged, authorize, sign_request,
}
use rotten_apple.Orchestratord.Auth.Gate.{
  IsAuthentic, authorize_exact, replay_refused, authorize-sign_request,
}
use rotten_apple.Orchestratord.Auth.Payload.{signing_payload_injective}
use rotten_apple.Tests.Samples.{fabric, wire, trust, alice}

abbrev sent : List ℕ
sent = 5 ∷ 6 ∷ 7 ∷ []

drain_since-send_all_example :
    drain_since 1 (send_all sent channel)
    ≡ (max 1 (length sent), drop (max 1 (length sent - 1024)) sent)
drain_since-send_all_example = drain_since-send_all sent 1 (omega arith)

events_tail_loses_example :
    let g = send_all sent channel in
    let (cursor, events) = events_tail 0 1 g in
    (length events ≡ 1) × (1 < length (drain_since 0 g).1) × (drain_since cursor g ≡ (cursor, []))
events_tail_loses_example = events_tail_loses sent 0 1 (omega arith) (omega arith)

abbrev policy : PolicyMemory
policy = record {
  min_mb = some 256;
  max_mb = some 1024;
  target_headroom_pct = none;
  cooldown_s = some 30;
}

abbrev guest : DomainInfo
guest = record { domid = 5; memory_mb = 2048; memory_max_mb = 4096 }

abbrev environment : Environment
environment = record {
  now_unix = 1000;
  now = 20 * 10 ^ 9;
  domain_list = ok (guest ∷ []);
  domain_balloon = λ domid target_kb. ok tt;
}

abbrev state : EngineState
state = record {
  policies = (5, policy) ∷ [];
  events = record { ring = []; next_seq = 1 };
  cooldowns = [];
  backend_was_available = true;
  last_tick = 999;
}

policy-held : HashMap.get nat_beq 5 state.policies ≡ some policy
unfolding HashMap.get
policy-held = refl

-- The first tick shrinks the guest; the next one is 20 s later, within the cooldown of 30 s.
abbrev next : Environment
next = record environment { now_unix = 1020; now = 40 * 10 ^ 9 }

abbrev shrunk : ℕ × Event
shrunk = (
  1,
  record {
    ts_unix = 1000;
    kind = engine_apply;
    domid = some 5;
    message = ballooned down 2048 1024;
  },
)

shrunk-made : In shrunk (run_tick environment state).events.ring
unfolding run_tick backend_seen tick_domains insert_defaults emit_defaults move_domains plan_move
    apply_move send HashMap.get HashMap.contains_key
shrunk-made = inl refl

cooldown_holds_example :
    NoneNew
      (5, down)
      (run_tick environment state).events
      (run_ticks (next ∷ []) (run_tick environment state)).events
cooldown_holds_example =
    cooldown_holds (5, down) 30 environment (next ∷ []) policy state policy-held refl
      (omega arith, tt) shrunk (2048, 1024, refl, refl) shrunk-made (λ h. h)

abbrev session : AuthSession
session = record { nonce = replicate 32 9; last_seq = some 3 }

abbrev shutdown : Text
shutdown = codes "domain.shutdown"

abbrev request : AuthRequest
request = sign_request fabric wire 7 alice session.nonce 4 shutdown 1

shutdown-privileged : method_is_privileged shutdown ≡ true
unfolding method_is_privileged contains text_beq
shutdown-privileged = refl

alice-named : NodeId.new alice.text ≡ some alice
unfolding NodeId.new trim
alice-named = refl

alice-trusted : trust_get fabric alice trust ≡ some 7
unfolding trust_get HashMap.get NodeId.same NodeId.hex_suffix rsplit_once text_beq
alice-trusted = refl

authorize_exact_example :
    ((node : NodeId) × IsAuthentic fabric wire trust session shutdown 1 request node
      × (authorize fabric wire session shutdown 1 (some request) trust
          ≡ (ok (some node), record session { last_seq = some request.seq })))
    ⊎ ((e : DenyReason) × (authorize fabric wire session shutdown 1 (some request) trust
          ≡ (err e, session))
        × ((node : NodeId) → ¬ IsAuthentic fabric wire trust session shutdown 1 request node))
authorize_exact_example =
    authorize_exact fabric wire trust session shutdown 1 request shutdown-privileged

shutdown-short : length (utf8 shutdown) < 2 ^ 32
unfolding utf8
shutdown-short = omega arith

signing_payload_injective_example :
    (session.nonce ≡ session.nonce)
    × (◌≡◌ {A = ℕ} 4 4)
    × (utf8 shutdown ≡ utf8 shutdown)
    × (wire.to_vec 1 ≡ wire.to_vec 1)
signing_payload_injective_example =
    signing_payload_injective fabric wire session.nonce session.nonce 4 4 shutdown shutdown 1 1 refl
      (omega arith) (omega arith) shutdown-short shutdown-short refl

replay_refused_example :
    (e : DenyReason) × (authorize fabric wire
        (record session { last_seq = some 4 })
        shutdown
        2
        (some request)
        trust
      ≡ (err e, record session { last_seq = some 4 }))
replay_refused_example =
    replay_refused fabric wire trust session (record session { last_seq = some 4 }) shutdown
      shutdown 1 2 request request alice
      (authorize-sign_request fabric wire trust session 7 alice 4 shutdown 1 alice-named
        alice-trusted (omega arith) shutdown-privileged)
      shutdown-privileged (omega arith)
