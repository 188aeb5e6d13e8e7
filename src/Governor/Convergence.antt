-- ===== src/Governor/Convergence.antt =====
-- Where the governor takes dom0 while memory stays slack.
use rotten_apple.Prelude.{
  All, List, Option, [], arith, length, none, some, ℕ, ◌*◌, ◌+◌, ◌<◌, ◌∷◌, ◌≡◌, ◌≤◌,
}
use rotten_apple.Governor.{
  GovernorConfig, MemSample, available_pct, floor_of, nudged, decide_target,
}
use rotten_apple.Governor.Target.{decide_target_cases}

module _ (cfg : GovernorConfig) (guests : ℕ) where
  -- Dom0's size after a round that decided `decision` at the size `current`.
  abbrev pub resized : ℕ → Option (Option ℕ) → ℕ
  resized current none = current
  resized current (some none) = current
  resized current (some (some target)) = target

  -- Each sample shows the size that the decision on the one before it asked for.
  abbrev pub Obeyed : MemSample → List MemSample → Type 0
  Obeyed s [] = Unit
  Obeyed s (t ∷ ts) =
      (t.total_mb ≡ resized s.total_mb (decide_target cfg s guests s.total_mb)) × Obeyed t ts

  abbrev pub IsSlack : MemSample → Type 0
  IsSlack s = cfg.high_watermark_pct < available_pct s

  abbrev pub final : MemSample → List MemSample → ℕ
  final s [] = s.total_mb
  final s (t ∷ ts) = final t ts

  module _ (ordered : cfg.low_watermark_pct ≤ cfg.high_watermark_pct) (band : 0 < cfg.dead_band_mb)
      (stride : cfg.dead_band_mb ≤ cfg.step_mb) where
    slack-step :
        (s : MemSample) (slack_mb : ℕ)
        → IsSlack s
        → s.total_mb < floor_of cfg guests + cfg.dead_band_mb + (cfg.step_mb + slack_mb)
        → resized s.total_mb (decide_target cfg s guests s.total_mb)
          < floor_of cfg guests + cfg.dead_band_mb + slack_mb
    unfolding nudged
    slack-step s slack_mb h k = ground (arith, decide_target_cases cfg s guests s.total_mb)

    -- With a dead band above zero and no wider than the step, and a low watermark no higher than the
    -- high one: while every sample shows slack and every decision is obeyed, dom0 gives its surplus
    -- back. After as many rounds as steps lie between its size and the floor that the guests set, it
    -- is less than a dead band above the floor.
    pub reclaims :
        (s : MemSample) (ts : List MemSample)
        → All IsSlack (s ∷ ts)
        → Obeyed s ts
        → s.total_mb < floor_of cfg guests + cfg.dead_band_mb + length ts * cfg.step_mb
        → final s ts < floor_of cfg guests + cfg.dead_band_mb
    reclaims s [] h o k = omega arith
    reclaims s (t ∷ ts) h o k =
        reclaims t ts h.1 o.1 (rw o.0 (slack-step s (length ts * cfg.step_mb) h.0 (omega arith)))
