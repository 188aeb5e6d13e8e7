-- ===== src/Planner/Split.antt =====
-- What the split promises.
use rotten_apple.Prelude.{
  arith, false, length, length-drop, length-take, refl, take-append-drop, ℕ, ◌++◌, ◌+◌, ◌/◌, ◌≡◌,
  ◌≤◌,
}
use rotten_apple.Planner.{CpuTopology, uniform_count, clamp_dom0_mb, split_cpus, plan}

-- The memory: dom0 gets between 768 and 4096 MB; the guest's minimum, idle and active sizes are in
-- order; and on a host of at least 1024 MB dom0, the active guest and the reserve of 256 MB are all.
pub plan_memory :
    (kb : ℕ) (topo : CpuTopology)
    → let p = plan kb topo in
      (768 ≤ p.dom0.memory_mb)
      × (p.dom0.memory_mb ≤ 4096)
      × (p.ubuntu_domu.memory_minimum_mb ≤ p.ubuntu_domu.memory_idle_mb)
      × (p.ubuntu_domu.memory_idle_mb ≤ p.ubuntu_domu.memory_active_mb)
      × (1024 ≤ kb / 1024 → p.dom0.memory_mb + p.ubuntu_domu.memory_active_mb + 256 ≡ kb / 1024)
unfolding plan clamp_dom0_mb
plan_memory kb topo = (omega arith, omega arith, omega arith, omega arith, λ h. omega arith)

-- The CPUs of a uniform host: every CPU goes to dom0 or to the guest and none to both; with a CPU
-- there dom0 gets 1 to 4, and with a second one the guest gets at least one.
pub split_cpus_uniform :
    (topo : CpuTopology)
    → topo.is_hybrid ≡ false
    → let (dom0, domu) = split_cpus topo in
      (dom0 ++ domu ≡ topo.all_cpus)
      × (length dom0 ≤ 4)
      × (1 ≤ length topo.all_cpus → 1 ≤ length dom0)
      × (2 ≤ length topo.all_cpus → 1 ≤ length domu)
unfolding split_cpus
split_cpus_uniform topo u =
    let n = uniform_count topo in
    rw (u, take-append-drop n topo.all_cpus, length-take, length-drop)
      (refl, omega arith, λ h. omega arith, λ h. omega arith)
