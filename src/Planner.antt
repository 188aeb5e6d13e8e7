-- ===== src/Planner.antt =====
-- crates/detect/src/planner.rs: the split of a host between dom0 and the guest that its old system
-- becomes. The lines of rationale, text for the user, are left out. `total_mb * 3` stays below 2^64,
-- since `total_mb` is a number of kB, below 2^64, over 1024.
pub mod Split
use rotten_apple.Prelude.{Bool, List, drop, if◌then◌else◌, length, max, min, take, ℕ, ◌*◌, ◌-◌, ◌/◌}

-- The fields of the hardware report that the planner reads.
pub record CpuTopology : Type 0 where
  pub logical_cpus : ℕ
  pub p_cores : List ℕ
  pub e_cores : List ℕ
  pub all_cpus : List ℕ
  pub is_hybrid : Bool

pub record Dom0Plan : Type 0 where
  pub vcpus : ℕ
  pub cpu_pin : List ℕ
  pub memory_mb : ℕ

pub record DomUPlan : Type 0 where
  pub vcpus : ℕ
  pub cpu_pin : List ℕ
  pub memory_active_mb : ℕ
  pub memory_idle_mb : ℕ
  pub memory_minimum_mb : ℕ

pub record LiftPlan : Type 0 where
  pub dom0 : Dom0Plan
  pub ubuntu_domu : DomUPlan

abbrev pub clamp : (x lo hi : ℕ) → ℕ
clamp x lo hi = min (max x lo) hi

unfoldable pub clamp_dom0_mb : ℕ → ℕ
clamp_dom0_mb total_mb =
    let raw = total_mb * 3 / 100 in let rounded = raw / 64 * 64 in clamp rounded 768 4096

-- How many CPUs of a uniform host go to dom0.
abbrev pub uniform_count : CpuTopology → ℕ
uniform_count topo = min (clamp (topo.logical_cpus / 8) 1 4) (max (length topo.all_cpus - 1) 1)

-- The CPUs of dom0, and those of the guest.
unfoldable pub split_cpus : CpuTopology → List ℕ × List ℕ
split_cpus topo =
    if topo.is_hybrid
    then (take (min (length topo.e_cores) 4) topo.e_cores, topo.p_cores)
    else (take (uniform_count topo) topo.all_cpus, drop (uniform_count topo) topo.all_cpus)

unfoldable pub plan : (mem_total_kb : ℕ) → CpuTopology → LiftPlan
plan mem_total_kb topo =
    let total_mb = mem_total_kb / 1024 in
    let dom0_mb = clamp_dom0_mb total_mb in
    let (dom0_pin, domu_pin) = split_cpus topo in
    let domu_active = total_mb - dom0_mb - 256 in
    record {
      dom0 = record { vcpus = length dom0_pin; cpu_pin = dom0_pin; memory_mb = dom0_mb };
      ubuntu_domu = record {
        vcpus = length domu_pin;
        cpu_pin = domu_pin;
        memory_active_mb = domu_active;
        memory_idle_mb = min (max (domu_active / 2) 2048) domu_active;
        memory_minimum_mb = min (max (domu_active / 8) 2048) domu_active;
      };
    }
