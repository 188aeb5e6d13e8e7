-- ===== src/Tests/OfHost.antt =====
-- The governor's and the manifest's theorems at sample inputs.
use rotten_apple.Prelude.{
  All, In, [], arith, false, refl, ℕ, ◌*◌, ◌+◌, ◌/◌, ◌<◌, ◌↔◌, ◌∷◌, ◌≡◌, ◌≤◌,
}
use rotten_apple.Manifest.{xen_reference}
use rotten_apple.Manifest.Validate.{
  Issue, Raises, validate_against, IsSatisfiable, validate_against_iff,
}
use rotten_apple.Governor.{
  default_config, MemSample, available_pct, floor_of, nudged, decide_target,
}
use rotten_apple.Governor.Convergence.{final, reclaims, IsSlack, Obeyed}
use rotten_apple.Planner.{CpuTopology, plan}
use rotten_apple.Planner.Split.{plan_memory}
use rotten_apple.Tests.Samples.{web}

abbrev sample : ℕ → MemSample
sample total_mb = record { available_mb = total_mb / 2; total_mb = total_mb }

samples-IsSlack : All (IsSlack default_config 1) (sample 1600 ∷ sample 1344 ∷ [])
unfolding available_pct
samples-IsSlack = (omega arith, (omega arith, tt))

samples-Obeyed : Obeyed default_config 1 (sample 1600) (sample 1344 ∷ [])
unfolding decide_target nudged floor_of available_pct
samples-Obeyed = (refl, tt)

near : 1600 < floor_of default_config 1 + 128 + 1 * 256
unfolding floor_of
near = omega arith

reclaims_example :
    final default_config 1 (sample 1600) (sample 1344 ∷ [])
    < floor_of default_config 1 + default_config.dead_band_mb
reclaims_example =
    reclaims default_config 1 (omega arith) (omega arith) (omega arith) (sample 1600)
      (sample 1344 ∷ []) samples-IsSlack samples-Obeyed near

validate_against_iff_example :
    ((i : Issue) → In i (validate_against web xen_reference) ↔ Raises web xen_reference i)
    × ((validate_against web xen_reference ≡ []) ↔ IsSatisfiable web xen_reference)
validate_against_iff_example = validate_against_iff web xen_reference

abbrev uniform : CpuTopology
uniform = record {
  logical_cpus = 4;
  p_cores = [];
  e_cores = [];
  all_cpus = 0 ∷ 1 ∷ 2 ∷ 3 ∷ [];
  is_hybrid = false;
}

plan_memory_example :
    let p = plan (8192 * 1024) uniform in
    (768 ≤ p.dom0.memory_mb)
    × (p.dom0.memory_mb ≤ 4096)
    × (p.ubuntu_domu.memory_minimum_mb ≤ p.ubuntu_domu.memory_idle_mb)
    × (p.ubuntu_domu.memory_idle_mb ≤ p.ubuntu_domu.memory_active_mb)
    × (1024 ≤ 8192 * 1024 / 1024
        → p.dom0.memory_mb + p.ubuntu_domu.memory_active_mb + 256 ≡ 8192 * 1024 / 1024)
plan_memory_example = plan_memory (8192 * 1024) uniform
