-- ===== src/Tests/OfConnection.antt =====
-- The theorems on requests and connections at a sample daemon. A sample JSON value is a text that
-- stands for all of its members.
use rotten_apple.Prelude.{
  All, In, Text, [], arith, codes, contains, err, false, length, nat_eq, none, ok, refl, some,
  text_beq, text_beq_iff, text_eq, true, ℕ, ◌∷◌, ◌≡◌, ◌≤◌, ◌⊎◌,
}
use rotten_apple.Backend.{HypervisorBackend, running}
use rotten_apple.Orchestratord.Broadcast.{channel}
use rotten_apple.Orchestratord.Auth.{method_is_privileged}
use rotten_apple.Orchestratord.Actor.{Machine}
use rotten_apple.Orchestratord.Protocol.{Json, Request}
use rotten_apple.Orchestratord.Params.{Host, load_profile}
use rotten_apple.Orchestratord.Params.Confined.{IsLoaded, fixed_messages, load_profile_confined}
use rotten_apple.Orchestratord.Dispatch.{reply, Daemon, dispatch}
use rotten_apple.Orchestratord.Dispatch.ReadOnly.{dispatch-read_only}
use rotten_apple.Orchestratord.Connection.{
  request, handle_connection, IsHello, IsFailure, handle_connection_gate,
}
use rotten_apple.Manifest.{Profile}
use rotten_apple.Tests.Samples.{web}

abbrev json : Json
json = record {
  Value = Text;
  null = [];
  get = λ v name. some v;
  as_u64 = λ v. some (length v);
  as_str = λ v. some v;
  as_bool = λ v. none;
  policy_of = λ v. err [];
}

-- A host with one guest, whose memory is the state.
abbrev pub hypervisor : HypervisorBackend
hypervisor = record {
  State = ℕ;
  create_guest = λ s p. (ok (codes "2"), s);
  start_guest = λ s g. (ok tt, s);
  stop_guest = λ s g force. (ok tt, 0);
  balloon_to = λ s g mb. (ok tt, mb);
  list = λ s. record { handle = codes "1"; name = codes "web"; state = running } ∷ [];
  status = λ s g. ok (record {
    state = running;
    memory_mb = s;
    memory_max_mb = s;
    vcpus = 1;
    uptime = 0;
    last_event = none;
  });
  physinfo = λ s. ok (record {
    total_pcpus = 4;
    threads_per_core = 1;
    cores_per_socket = 4;
    total_memory_mb = 8192;
    free_memory_mb = 1024;
    scrub_memory_mb = 0;
  });
}

abbrev pub machine : Machine hypervisor
machine = record { libxl_version = codes "4.17"; proc_uptime = some 60; debug_str = λ s. s }

abbrev pub host : Host
host = record { canonicalize = λ p. some p; load = λ p. some web; from_str = λ s. err s }

abbrev pub daemon : Daemon json hypervisor
daemon = record {
  actor = record { alive = true; backend = some 512 };
  engine = record {
    policies = [];
    events = channel;
    cooldowns = [];
    backend_was_available = true;
    last_tick = 0;
  };
}

abbrev request_of : Text → Text → Request json
request_of method params = record {
  jsonrpc = codes "2.0";
  method = method;
  params = params;
  id = codes "1";
}

abbrev kill : Request json
kill = request_of (codes "domain.kill") (codes "d")

get_unprivileged : method_is_privileged (codes "domain.get") ≡ false
unfolding method_is_privileged contains text_beq
get_unprivileged = refl

kill_stranger : IsHello json hypervisor machine host (request kill) → ⊥
unfolding text_beq
kill_stranger hi = ground (arith, text_beq_iff (codes "domain.kill") (codes "hello"), hi.0)

dispatch-read_only_example :
    (dispatch json hypervisor machine host (request_of (codes "domain.get") (codes "d")) daemon).1
    ≡ daemon
dispatch-read_only_example =
    dispatch-read_only json hypervisor machine host (request_of (codes "domain.get") (codes "d"))
      daemon get_unprivileged

-- The method that kills does change the hypervisor.
kill_test : (dispatch json hypervisor machine host kill daemon).1.actor.backend ≡ some 0
unfolding dispatch text_beq reply
kill_test = refl

load_profile_confined_example :
    ((p : Profile) × (load_profile json host (codes "/etc/passwd") ≡ ok p)
      × IsLoaded json host (codes "/etc/passwd") p)
    ⊎ ((e : Text) × (load_profile json host (codes "/etc/passwd") ≡ err e)
        × In e (fixed_messages json host))
load_profile_confined_example =
    load_profile_confined json host (codes "/etc/passwd") (codes "/etc/passwd") refl

handle_connection_gate_example :
    ((handle_connection json hypervisor machine host (codes "ab") (request kill) true [] daemon).1
      ≡ daemon)
    × (length
          (handle_connection json hypervisor machine host
            (codes "ab")
            (request kill)
            true
            []
            daemon).0
        ≤ 1)
    × All
        (IsFailure json hypervisor machine host)
        (handle_connection json hypervisor machine host
          (codes "ab")
          (request kill)
          true
          []
          daemon).0
handle_connection_gate_example =
    handle_connection_gate json hypervisor machine host (codes "ab") (request kill) true [] daemon
      kill_stranger
