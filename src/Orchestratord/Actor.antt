-- ===== src/Orchestratord/Actor.antt =====
-- crates/orchestratord/src/actor.rs: the one thread that calls the hypervisor. The channel puts the
-- requests in an order, so each is a step of the actor's state. A dead thread answers
-- `actor_crashed`.
use rotten_apple.Prelude.{
  Bool, List, Option, Result, Text, [], codes, decimal, err, false, if◌then◌else◌, is_some, nat_eq,
  none, ok, ok_or, parse_below, some, text_eq, true, ℕ, ◌++◌, ◌/◌, ◌==◌, ◌>>=◌, ◌^◌, ◌∷◌,
}
use rotten_apple.Manifest.{Profile}
use rotten_apple.Backend.{
  GuestState, created, running, idle, suspended, stopped, crashed, GuestStatus, GuestSummary,
  ErrorKind, BackendError, HypervisorBackend,
}
use rotten_apple.Orchestratord.Engine.{ActorError}
use rotten_apple.Orchestratord.Engine

pub record DomainInfo : Type 0 where
  pub domid : ℕ
  pub name : Text
  pub state : Text
  pub memory_mb : ℕ
  pub memory_max_mb : ℕ
  pub vcpus : ℕ
  pub uptime_seconds : ℕ

pub record HostInfo : Type 0 where
  pub backend : Text
  pub libxl_version : Text
  pub running_under_xen : Bool
  pub dom0_uptime_seconds : ℕ

pub record HostResources : Type 0 where
  pub total_pcpus : Option ℕ
  pub threads_per_core : Option ℕ
  pub cores_per_socket : Option ℕ
  pub total_memory_mb : Option ℕ
  pub free_memory_mb : Option ℕ
  pub scrub_memory_mb : Option ℕ

unfoldable pub from_backend : BackendError → ActorError
from_backend e = elim e.kind [
  | ErrorKind.guest_not_found ↦ Engine.guest_not_found e.detail
  | ErrorKind.guest_already_running ↦ Engine.guest_already_running e.detail
  | ErrorKind.insufficient_resources ↦ Engine.insufficient_resources e.detail
  | ErrorKind.hardware_unavailable ↦ Engine.hardware_unavailable e.detail
  | ErrorKind.permission_denied ↦ Engine.permission_denied e.detail
  | _ ↦ Engine.backend_internal e.detail
]

-- `Result::map_err(ActorError::from_backend)`.
abbrev pub mapped : {A : Type 0} → Result BackendError A → Result ActorError A
mapped (ok a) = ok a
mapped (err e) = err (from_backend e)

abbrev pub mapped_state : {A S : Type 0} → Result BackendError A × S → Result ActorError A × S
mapped_state (r, s) = (mapped r, s)

abbrev is_missing : ErrorKind → Bool
is_missing ErrorKind.guest_not_found = true
is_missing _ = false

unfoldable pub state_str : GuestState → Text
state_str created = codes "Created"
state_str running = codes "Running"
state_str idle = codes "Idle"
state_str suspended = codes "Suspended"
state_str stopped = codes "Stopped"
state_str crashed = codes "Failed"

abbrev pub unavail : ActorError
unavail = Engine.backend_unavailable (codes "libxl_ctx not opened at daemon startup")

-- `unwrap_or`.
abbrev otherwise : {A : Type 0} → Option A → A → A
otherwise none a = a
otherwise (some a) b = a

abbrev domain_info : (domid : ℕ) → (name : Text) → GuestStatus → DomainInfo
domain_info domid name status = record {
  domid = domid;
  name = name;
  state = state_str status.state;
  memory_mb = status.memory_mb;
  memory_max_mb = status.memory_max_mb;
  vcpus = status.vcpus;
  uptime_seconds = status.uptime;
}

module _ (h : HypervisorBackend) where
  -- `backend` is `none` when libxl could not be opened at startup.
  pub record ActorState : Type 0 where
    pub alive : Bool
    pub backend : Option h.State

  -- What the actor reads outside of libxl: the version it was built with and the uptime.
  pub record Machine : Type 0 where
    pub libxl_version : Text
    pub proc_uptime : Option ℕ
    -- `{:?}` of a text.
    pub debug_str : Text → Text

  unfoldable pub build_host_info : Machine → Option h.State → HostInfo
  build_host_info m backend = record {
    backend = if is_some backend then codes "xen" else codes "unavailable";
    libxl_version = m.libxl_version;
    running_under_xen = is_some backend;
    dom0_uptime_seconds = otherwise m.proc_uptime 0;
  }

  abbrev no_resources : HostResources
  no_resources = record {
    total_pcpus = none;
    threads_per_core = none;
    cores_per_socket = none;
    total_memory_mb = none;
    free_memory_mb = none;
    scrub_memory_mb = none;
  }

  unfoldable pub build_host_resources : Option h.State → HostResources
  build_host_resources none = no_resources
  build_host_resources (some b) = elim (h.physinfo b) [
    | err e ↦ no_resources
    | ok p ↦ record {
      total_pcpus = some p.total_pcpus;
      threads_per_core = some p.threads_per_core;
      cores_per_socket = some p.cores_per_socket;
      total_memory_mb = some p.total_memory_mb;
      free_memory_mb = some p.free_memory_mb;
      scrub_memory_mb = some p.scrub_memory_mb;
    }
  ]

  -- A domain that vanished since it was listed is left out; any other error ends the list.
  unfoldable pub domain_infos : h.State → List GuestSummary → Result ActorError (List DomainInfo)
  unfolding state_str from_backend
  domain_infos b [] = ok []
  domain_infos b (s ∷ ss) = elim (h.status b s.handle) [
    | ok st ↦ elim (domain_infos b ss) [
      | ok infos ↦ ok (domain_info (otherwise (parse_below (2 ^ 32) s.handle) 0) s.name st ∷ infos)
      | err e ↦ err e
    ]
    | err e ↦ if is_missing e.kind then domain_infos b ss else err (from_backend e)
  ]

  name_of : Text → Text → List GuestSummary → Text
  name_of handle unnamed [] = unnamed
  name_of handle unnamed (s ∷ ss) =
      let later = name_of handle unnamed ss in if s.handle == handle then s.name else later

  unfoldable pub read_domain : ℕ → h.State → Result ActorError DomainInfo
  unfolding decimal name_of state_str from_backend
  read_domain domid b = do
    st ← mapped (h.status b (decimal domid))
    ok (domain_info domid (name_of (decimal domid) (codes "dom" ++ decimal domid) (h.list b)) st)

  -- `domain_get`.
  unfoldable pub get_domain : Option h.State → ℕ → Result ActorError DomainInfo
  unfolding read_domain
  get_domain backend domid = ok_or backend unavail >>= read_domain domid

  -- The requests of the channel, each with the type of its reply.
  pub data ActorRequest : Type 0 → Type 1 where
    host_info : ActorRequest HostInfo
    host_resources : ActorRequest HostResources
    domain_list : ActorRequest (List DomainInfo)
    domain_get : (domid : ℕ) → ActorRequest DomainInfo
    domain_start : (domid : ℕ) → ActorRequest (Unit {0})
    domain_shutdown : (domid : ℕ) → (force : Bool) → ActorRequest (Unit {0})
    domain_balloon : (domid target_kb : ℕ) → ActorRequest (Unit {0})
    domain_create : Profile → ActorRequest ℕ

  -- The handle of a new domain is its number.
  numbered : Machine → Result ActorError Text → Result ActorError ℕ
  numbered m (err e) = err e
  numbered m (ok handle) = elim (parse_below (2 ^ 32) handle) [
    | some domid ↦ ok domid
    | none ↦
        err (Engine.backend_internal (codes "non-numeric guest handle: " ++ m.debug_str handle))
  ]

  abbrev numbered_state : Machine → Result ActorError Text × h.State → Result ActorError ℕ × h.State
  unfolding numbered
  numbered_state m (r, b) = (numbered m r, b)

  -- A request that changes the hypervisor, made only when libxl is open.
  abbrev on_backend :
      {A : Type 0}
      → (h.State → Result ActorError A × h.State)
      → ActorState
      → Result ActorError A × ActorState
  on_backend call s = elim s.backend [
    | none ↦ (err unavail, s)
    | some b ↦ let (r, after) = call b in (r, record s { backend = some after })
  ]

  -- The answer to one request, and the state after it.
  unfoldable pub serve :
      {A : Type 0} → Machine → ActorRequest A → ActorState → Result ActorError A × ActorState
  unfolding build_host_info build_host_resources domain_infos get_domain numbered decimal
      from_backend
  serve m host_info s = (ok (build_host_info m s.backend), s)
  serve m host_resources s = (ok (build_host_resources s.backend), s)
  serve m domain_list s = elim s.backend [
    | none ↦ (err unavail, s)
    | some b ↦ (domain_infos b (h.list b), s)
  ]
  serve m (domain_get domid) s = (get_domain s.backend domid, s)
  serve m (domain_start domid) s =
      on_backend (λ b. mapped_state (h.start_guest b (decimal domid))) s
  serve m (domain_shutdown domid force) s =
      on_backend (λ b. mapped_state (h.stop_guest b (decimal domid) force)) s
  serve m (domain_balloon domid target_kb) s =
      on_backend (λ b. mapped_state (h.balloon_to b (decimal domid) (target_kb / 1024))) s
  serve m (domain_create profile) s =
      on_backend (λ b. numbered_state m (mapped_state (h.create_guest b profile))) s

  -- `ActorHandle::send_and_recv`.
  unfoldable pub send_and_recv :
      {A : Type 0} → Machine → ActorRequest A → ActorState → Result ActorError A × ActorState
  unfolding serve
  send_and_recv m request s = if s.alive then serve m request s else (err Engine.actor_crashed, s)
