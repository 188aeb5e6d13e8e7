-- ===== src/Orchestratord/Engine/Moves.antt =====
-- Which moves the engine plans.
use rotten_apple.Prelude.{Option, arith, none, refl, some, ℕ, ◌<◌, ◌↔◌, ◌≡◌, ◌≢◌, ◌≤◌, ◌⊎◌}
use rotten_apple.Manifest.{PolicyMemory}
use rotten_apple.Orchestratord.Engine.{
  Direction, up, down, plan_down, plan_move, default_policy_for,
}

abbrev pub AtLeast : Option ℕ → ℕ → Type 0
AtLeast none mb = Unit
AtLeast (some lo) mb = lo ≤ mb

abbrev pub AtMost : Option ℕ → ℕ → Type 0
AtMost none mb = Unit
AtMost (some hi) mb = mb ≤ hi

-- The size is within the policy, where it names a bound.
abbrev pub InPolicy : PolicyMemory → ℕ → Type 0
InPolicy p mb = AtLeast p.min_mb mb × AtMost p.max_mb mb

abbrev pub InOrder : Option ℕ → Option ℕ → Type 0
InOrder none hi = Unit
InOrder (some lo) hi = AtMost hi lo

-- The bounds do not contradict each other.
abbrev pub IsConsistent : PolicyMemory → Type 0
IsConsistent p = InOrder p.min_mb p.max_mb

abbrev pub Heads : ℕ → ℕ → Direction → Type 0
Heads current target up = current < target
Heads current target down = target < current

plan_down_lem :
    (current : ℕ) (lo hi : Option ℕ)
    → InOrder lo hi
    → ((plan_down current hi lo ≡ none) ↔ (AtLeast lo current × AtMost hi current))
      × ((target : ℕ) (dir : Direction)
          → plan_down current hi lo ≡ some (target, dir)
          → (AtLeast lo target × AtMost hi target) × Heads current target dir)
plan_down_lem current none none h = ((λ _. (tt, tt), λ _. refl), λ target dir e. cc)
plan_down_lem current none (some x) h = (ground arith, λ target dir e. ground arith)
plan_down_lem current (some n) none h = (ground arith, λ target dir e. ground arith)
plan_down_lem current (some n) (some x) h = (ground arith, λ target dir e. ground arith)

module _ (current : ℕ) (p : PolicyMemory) where
  -- Under a policy whose bounds do not contradict each other: no move is planned exactly when the
  -- size is within the policy, and a planned move ends within it, above the size if its direction is
  -- up and below it if it is down.
  pub plan_move_exact :
      IsConsistent p
      → ((plan_move current p ≡ none) ↔ InPolicy p current)
        × ((target : ℕ) (dir : Direction)
            → plan_move current p ≡ some (target, dir)
            → InPolicy p target × Heads current target dir)
  unfolding plan_move
  plan_move_exact h = plan_down_lem current p.min_mb p.max_mb h

-- The default policy of dom0, made when its size was `current`, moves it back there and leaves it
-- there; that of a guest only ever takes it down to the maximum that was reported.
pub default_policy_for_cases :
    (domid seen maximum current : ℕ)
    → let plan = plan_move current (default_policy_for domid seen maximum) in
      ((domid ≡ 0) × ((plan ≡ none) ↔ (current ≡ seen)))
      ⊎ (domid ≢ 0) × ((plan ≡ none) ⊎ (plan ≡ some (maximum, down)) × (maximum < current))
unfolding plan_move default_policy_for
default_policy_for_cases domid seen maximum current = ground arith
