-- ===== src/Backend.antt =====
-- crates/backend/src/lib.rs: the contract between the daemons and a hypervisor. A hypervisor is a
-- state with the calls of the trait that the daemons make: those that only look take the state, the
-- others return the new one.
pub mod PciAddr
use rotten_apple.Prelude.{Bool, List, Option, Result, Text, ℕ}
use rotten_apple.Manifest.{Profile}

pub data GuestState : Type 0 where
  created running idle suspended stopped crashed : GuestState

-- The uptime in whole seconds.
pub record GuestStatus : Type 0 where
  pub state : GuestState
  pub memory_mb : ℕ
  pub memory_max_mb : ℕ
  pub vcpus : ℕ
  pub uptime : ℕ
  pub last_event : Option Text

pub record GuestSummary : Type 0 where
  pub handle : Text
  pub name : Text
  pub state : GuestState

pub record HostPhysinfo : Type 0 where
  pub total_pcpus : ℕ
  pub threads_per_core : ℕ
  pub cores_per_socket : ℕ
  pub total_memory_mb : ℕ
  pub free_memory_mb : ℕ
  pub scrub_memory_mb : ℕ

pub data ErrorKind : Type 0 where
  not_supported guest_not_found guest_already_running insufficient_resources : ErrorKind
  hardware_unavailable permission_denied backend_internal : ErrorKind

pub record BackendError : Type 0 where
  pub kind : ErrorKind
  pub detail : Text

pub record HypervisorBackend : Type 1 where
  pub State : Type 0
  pub create_guest : State → Profile → Result BackendError Text × State
  pub start_guest : State → (handle : Text) → Result BackendError (Unit {0}) × State
  pub stop_guest : State → (handle : Text) → (force : Bool) → Result BackendError (Unit {0}) × State
  pub balloon_to :
      State → (handle : Text) → (target_mb : ℕ) → Result BackendError (Unit {0}) × State
  pub list : State → List GuestSummary
  pub status : State → (handle : Text) → Result BackendError GuestStatus
  pub physinfo : State → Result BackendError HostPhysinfo
