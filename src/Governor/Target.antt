-- ===== src/Governor/Target.antt =====
-- What one decision of the governor may be.
use rotten_apple.Prelude.{arith, max, min, none, some, ℕ, ◌+◌, ◌<◌, ◌≡◌, ◌≤◌, ◌⊎◌}
use rotten_apple.Governor.{
  GovernorConfig, MemSample, available_pct, floor_of, nudged, decide_target,
}

module _ (cfg : GovernorConfig) (sample : MemSample) (guests current : ℕ) where
  -- The decision never panics. It either holds the size, and then the size is less than a dead band
  -- from where the nudge, kept between the floor and the ceiling, would take it; or it moves there,
  -- by at least a dead band.
  pub decide_target_cases :
      let goal =
        min (max (nudged cfg (available_pct sample) current) (floor_of cfg guests)) cfg.max_mb in
      (decide_target cfg sample guests current ≡ some none)
        × (goal < current + cfg.dead_band_mb)
        × (current < goal + cfg.dead_band_mb)
      ⊎ (decide_target cfg sample guests current ≡ some (some goal))
        × ((current + cfg.dead_band_mb ≤ goal) ⊎ (goal + cfg.dead_band_mb ≤ current))
  unfolding decide_target floor_of
  decide_target_cases = ground arith
