-- ===== src/Cockpit/Commands.antt =====
-- crates/cockpit/src/lib.rs: the commands of the console, the call of the daemon that each becomes,
-- and the rows that it reads back. Parameters are a JSON value, as the macro `json!` builds it.
use rotten_apple.Prelude.{
  Bool, List, Option, Text, [], codes, decimal, false, if◌then◌else◌, min, nat_eq, none, not,
  parse_below, some, text_eq, true, ℕ, ◌%◌, ◌*◌, ◌++◌, ◌-◌, ◌==◌, ◌^◌, ◌∷◌,
}
use rotten_apple.Backend.{
  GuestState, created, running, idle, suspended, stopped, crashed, GuestStatus,
}
use rotten_apple.Orchestratord.Protocol.{Json}

pub data Cmd : Type 0 where
  refresh promote_xen_default shutdown : Cmd
  start : (handle : Text) → Cmd
  stop : (handle : Text) → (force : Bool) → Cmd
  balloon : (handle : Text) → (target_mb : ℕ) → Cmd
  create_from_manifest : (path : Text) → Cmd
  create_instance : (id base : Text) → (memory_mb vcpus : ℕ) → Cmd
  set_policy : (domid min_mb max_mb cooldown_s : ℕ) → Cmd

mutual
  pub data Value : Type 0 where
    null : Value
    number : ℕ → Value
    boolean : Bool → Value
    text : Text → Value
    object : Members → Value

  pub data Members : Type 0 where
    end : Members
    member : (name : Text) → Value → Members → Members

find_member : Text → Members → Option Value
find_member name end = none
find_member name (member key v ms) =
    let later = find_member name ms in if key == name then some v else later

-- `Value::get` with a text.
unfoldable pub get : Value → Text → Option Value
unfolding find_member
get (object ms) name = find_member name ms
get _ name = none

abbrev pub as_u64 : Value → Option ℕ
as_u64 (number n) = some n
as_u64 _ = none

abbrev pub as_str : Value → Option Text
as_str (text s) = some s
as_str _ = none

abbrev pub as_bool : Value → Option Bool
as_bool (boolean b) = some b
as_bool _ = none

unfoldable pub handle_to_domid : Text → Option ℕ
handle_to_domid handle = parse_below (2 ^ 32) handle

-- `u64::saturating_mul`.
abbrev pub saturating_mul : ℕ → ℕ → ℕ
saturating_mul a b = min (a * b) (2 ^ 64 - 1)

-- `none` for a command that is not one call of the daemon.
unfoldable pub cmd_to_rpc : Cmd → Option (Text × Value)
cmd_to_rpc refresh = none
cmd_to_rpc shutdown = none
cmd_to_rpc promote_xen_default = none
cmd_to_rpc (create_instance id base memory_mb vcpus) = none
cmd_to_rpc (start handle) = elim (handle_to_domid handle) [
  | none ↦ none
  | some domid ↦ some (codes "domain.start", object (member (codes "domid") (number domid) end))
]
cmd_to_rpc (stop handle force) = elim (handle_to_domid handle) [
  | none ↦ none
  | some domid ↦ some (
    codes "domain.shutdown",
    object (member (codes "domid") (number domid) (member (codes "force") (boolean force) end)),
  )
]
cmd_to_rpc (balloon handle target_mb) = elim (handle_to_domid handle) [
  | none ↦ none
  | some domid ↦ some (
    codes "domain.balloon",
    object (
        member (codes "domid") (number domid)
          (member (codes "target_kb") (number (saturating_mul target_mb 1024)) end)),
  )
]
cmd_to_rpc (create_from_manifest path) =
    some (codes "domain.create", object (member (codes "manifest_path") (text path) end))
cmd_to_rpc (set_policy domid min_mb max_mb cooldown_s) = some (
  codes "engine.set_policy",
  object (
      member (codes "domid") (number domid) (
        member (codes "policy")
          (object (
            member (codes "min_mb") (number min_mb) (
              member (codes "max_mb") (number max_mb)
                (member (codes "cooldown_s") (number cooldown_s) end))))
          end)),
)

unfoldable pub action_label : Cmd → Text
unfolding decimal
action_label (start handle) = codes "start " ++ handle
action_label (stop handle true) = codes "destroy " ++ handle
action_label (stop handle false) = codes "shutdown " ++ handle
action_label (balloon handle target_mb) =
    codes "balloon " ++ (handle ++ (codes " → " ++ (decimal target_mb ++ codes "M")))
action_label (create_from_manifest path) = codes "create from " ++ path
action_label (create_instance id base memory_mb vcpus) = codes "instance new " ++ id
action_label (set_policy domid min_mb max_mb cooldown_s) =
    codes "policy domain "
    ++ (decimal domid
        ++ (codes ": min="
            ++ (decimal min_mb
                ++ (codes "M max="
                    ++ (decimal max_mb ++ (codes "M cd=" ++ (decimal cooldown_s ++ codes "s")))))))
action_label refresh = []
action_label shutdown = []
action_label promote_xen_default = []

pub record DomainView : Type 0 where
  pub handle : Text
  pub name : Text
  pub state : GuestState
  pub status : Option GuestStatus

pub record HostResourcesView : Type 0 where
  pub total_pcpus : Option ℕ
  pub threads_per_core : Option ℕ
  pub cores_per_socket : Option ℕ
  pub total_memory_mb : Option ℕ
  pub free_memory_mb : Option ℕ
  pub scrub_memory_mb : Option ℕ

pub record Snapshot : Type 0 where
  pub domains : List DomainView
  pub host : Option HostResourcesView

unfoldable pub parse_state_str : Text → GuestState
parse_state_str s =
    if s == codes "Created"
    then created
    else if s == codes "Running"
    then running
    else if s == codes "Idle"
    then idle
    else if s == codes "Suspended"
    then suspended
    else if s == codes "Stopped"
    then stopped
    else if s == codes "Failed"
    then crashed
    else stopped

module _ (x : Json) where
  abbrev pub u64_member : x.Value → Text → Option ℕ
  u64_member v name = elim (x.get v name) [ none ↦ none | some n ↦ x.as_u64 n ]

  abbrev u64_or_zero : x.Value → Text → ℕ
  u64_or_zero v name = elim (u64_member v name) [ none ↦ 0 | some n ↦ n ]

  abbrev str_of : x.Value → Text → Option Text
  str_of v name = elim (x.get v name) [ none ↦ none | some s ↦ x.as_str s ]

  -- A row that lacks its id, name or state is left out. The count of cpus is cut to 32 bits.
  unfoldable pub domain_view_from_daemon : x.Value → Option DomainView
  unfolding parse_state_str decimal
  domain_view_from_daemon d = elim (u64_member d (codes "domid")) [
    | none ↦ none
    | some domid ↦ elim (str_of d (codes "name")) [
      | none ↦ none
      | some name ↦ elim (str_of d (codes "state")) [
        | none ↦ none
        | some state ↦ some (record {
          handle = decimal domid;
          name = name;
          state = parse_state_str state;
          status = some (record {
            state = parse_state_str state;
            memory_mb = u64_or_zero d (codes "memory_mb");
            memory_max_mb = u64_or_zero d (codes "memory_max_mb");
            vcpus = u64_or_zero d (codes "vcpus") % 2 ^ 32;
            uptime = u64_or_zero d (codes "uptime_seconds");
            last_event = none;
          });
        })
      ]
    ]
  ]

  -- The rows of `domain.list`.
  unfoldable pub domain_views : List x.Value → List DomainView
  unfolding domain_view_from_daemon
  domain_views [] = []
  domain_views (d ∷ ds) = elim (domain_view_from_daemon d) [
    | some v ↦ v ∷ domain_views ds
    | none ↦ domain_views ds
  ]

  abbrev cut_u32 : Option ℕ → Option ℕ
  cut_u32 none = none
  cut_u32 (some n) = some (n % 2 ^ 32)

  unfoldable pub host_view_from_daemon : x.Value → HostResourcesView
  host_view_from_daemon v = record {
    total_pcpus = cut_u32 (u64_member v (codes "total_pcpus"));
    threads_per_core = cut_u32 (u64_member v (codes "threads_per_core"));
    cores_per_socket = cut_u32 (u64_member v (codes "cores_per_socket"));
    total_memory_mb = u64_member v (codes "total_memory_mb");
    free_memory_mb = u64_member v (codes "free_memory_mb");
    scrub_memory_mb = u64_member v (codes "scrub_memory_mb");
  }

  -- The snapshot from the answers of `domain.list` and `host.resources`; `rows` is the array of the
  -- member `domains`, and an answer that is no array gives no rows.
  unfoldable pub snapshot_from_daemon : Option (List x.Value) → Option x.Value → Snapshot
  unfolding domain_views host_view_from_daemon
  snapshot_from_daemon rows resources = record {
    domains = elim rows [ none ↦ [] | some ds ↦ domain_views ds ];
    host = elim resources [ none ↦ none | some v ↦ some (host_view_from_daemon v) ];
  }

  unfoldable pub daemon_host_is_usable : x.Value → Bool
  daemon_host_is_usable info = elim (str_of info (codes "backend")) [
    | none ↦ false
    | some name ↦ not (name == codes "unavailable")
  ]
