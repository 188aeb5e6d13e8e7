-- ===== src/Cockpit/Choices.antt =====
-- crates/cockpit/src/lib.rs: what the prompts offer, and how the answer to the balloon prompt is read
-- and checked. Arithmetic on `u64` saturates or, where the code writes `*` and `+`, wraps.
pub mod Sorted
pub mod Offered
use rotten_apple.Prelude.{
  Bool, List, Option, Result, Text, [], codes, decimal, fail_if, false, if◌then◌else◌, leb, ltb,
  max, min, nat_beq, nat_eq, none, ok, ok_or, parse_below, some, suc, text_eq, true, zero, ℕ, ◌%◌,
  ◌&&◌, ◌*◌, ◌++◌, ◌+◌, ◌-◌, ◌/◌, ◌==◌, ◌>>=◌, ◌>>◌, ◌^◌, ◌∷◌,
}
use rotten_apple.Cockpit.Commands.{saturating_mul}

pub data BalloonEntry : Type 0 where
  presets manual_mb percentage : BalloonEntry

unfoldable pub next_entry : BalloonEntry → BalloonEntry
next_entry presets = manual_mb
next_entry manual_mb = percentage
next_entry percentage = presets

abbrev pub dom0_floor_mb : ℕ
dom0_floor_mb = 512

unfoldable pub is_dom0 : Text → Bool
is_dom0 handle = handle == codes "0"

-- `get(i)` of a vector.
abbrev pub get_elem? {ℓ} : {A : Type ℓ} → List A → ℕ → Option A
get_elem? [] i = none
get_elem? (a ∷ rest) zero = some a
get_elem? (a ∷ rest) (suc i) = get_elem? rest i

abbrev pub get_or {ℓ} : {A : Type ℓ} → List A → ℕ → A → A
get_or l i a = elim (get_elem? l i) [ some b ↦ b | none ↦ a ]

unfoldable pub resolve_balloon_target :
    BalloonEntry
    → (input : Text) → (options : List ℕ) → (selected_idx current_mb max_mb : ℕ) → Result Text ℕ
resolve_balloon_target presets input options selected_idx current_mb max_mb =
    ok (get_or options selected_idx (max current_mb 1))
resolve_balloon_target manual_mb input options selected_idx current_mb max_mb = do
  fail_if (input == []) (codes "balloon: type a target in MB, then Enter")
  ok_or (parse_below (2 ^ 64) input)
      (codes "balloon: '" ++ (input ++ codes "' is not a valid MB count"))
resolve_balloon_target percentage input options selected_idx current_mb max_mb = do
  fail_if (input == []) (codes "balloon: type 0-100 (% of max), then Enter")
  pct ←
      ok_or (parse_below (2 ^ 64) input)
        (codes "balloon: '" ++ (input ++ codes "' is not a valid percentage"))
  fail_if (ltb 100 pct) (codes "balloon: percentage " ++ (decimal pct ++ codes " > 100"))
  let cap = if ltb 0 max_mb then max_mb else current_mb
  ok ((cap * pct + 50) % 2 ^ 64 / 100)

unfoldable pub validate_balloon_target :
    (target_mb current_mb max_mb : ℕ) → (is_dom0 : Bool) → Result Text ℕ
unfolding decimal
validate_balloon_target target_mb current_mb max_mb is_dom0 = do
  fail_if (nat_beq target_mb 0) (codes "balloon: target must be > 0")
  fail_if (ltb 0 max_mb && ltb max_mb target_mb) (
      codes "balloon: target "
      ++ (decimal target_mb ++ (codes "M exceeds max " ++ (decimal max_mb ++ codes "M"))))
  fail_if (is_dom0 && ltb target_mb dom0_floor_mb)
      (codes "dom0: cannot balloon below 512M (kernel survival floor)")
  ok target_mb

-- `Vec::retain`.
unfoldable pub retain : (ℕ → Bool) → List ℕ → List ℕ
retain p [] = []
retain p (v ∷ vs) = let later = retain p vs in if p v then v ∷ later else later

unfoldable pub insert_sorted : ℕ → List ℕ → List ℕ
insert_sorted v [] = v ∷ []
insert_sorted v (w ∷ ws) =
    let later = insert_sorted v ws in if leb v w then v ∷ w ∷ ws else w ∷ later

-- `sort_unstable` on numbers: equal ones cannot be told apart.
unfoldable pub sort_unstable : List ℕ → List ℕ
unfolding insert_sorted
sort_unstable [] = []
sort_unstable (v ∷ vs) = insert_sorted v (sort_unstable vs)

-- The rest of `dedup` behind a kept value.
unfoldable pub dedup_after : ℕ → List ℕ → List ℕ
dedup_after v [] = []
dedup_after v (w ∷ ws) = elim (nat_beq v w) [
  | true ↦ dedup_after v ws
  | false ↦ w ∷ dedup_after w ws
]

unfoldable pub dedup : List ℕ → List ℕ
unfolding dedup_after
dedup [] = []
dedup (v ∷ vs) = v ∷ dedup_after v vs

unfoldable pub sorted_unique_u64 : List ℕ → List ℕ
unfolding retain sort_unstable dedup
sorted_unique_u64 values = dedup (sort_unstable (retain (λ v. ltb 0 v) values))

abbrev pub cap_of : (current_mb max_mb : ℕ) → ℕ
cap_of current_mb max_mb = if ltb 0 max_mb then max_mb else max current_mb 1

abbrev pub floor_of : (is_dom0 : Bool) → ℕ
floor_of is_dom0 = if is_dom0 then dom0_floor_mb else 1

-- The values before they are filtered.
unfoldable pub balloon_values : (current_mb cap floor : ℕ) → List ℕ
balloon_values current_mb cap floor =
    floor
    ∷ max current_mb floor
    ∷ cap
    ∷ (cap / 4)
    ∷ (cap / 2)
    ∷ (saturating_mul cap 3 / 4)
    ∷ max (current_mb - 256) floor
    ∷ max (current_mb - 512) floor
    ∷ min (min (current_mb + 256) (2 ^ 64 - 1)) cap
    ∷ min (min (current_mb + 512) (2 ^ 64 - 1)) cap
    ∷ []

abbrev pub in_range : (floor cap : ℕ) → ℕ → Bool
in_range floor cap v = leb floor v && leb v cap && ltb 0 v

-- `if values.is_empty() { vec![current_mb.max(1)] } else { values }`.
unfoldable pub or_default : (current_mb : ℕ) → List ℕ → List ℕ
or_default current_mb [] = max current_mb 1 ∷ []
or_default current_mb (v ∷ vs) = v ∷ vs

unfoldable pub balloon_options_mb : (current_mb max_mb : ℕ) → (is_dom0 : Bool) → List ℕ
balloon_options_mb current_mb max_mb is_dom0 =
    let cap = cap_of current_mb max_mb in
    let floor = floor_of is_dom0 in
    or_default current_mb
      (sorted_unique_u64 (retain (in_range floor cap) (balloon_values current_mb cap floor)))

-- The choices for the least and for the greatest memory.
unfoldable pub policy_options_mb : (current_mb max_mb : ℕ) → List ℕ × List ℕ
unfolding sorted_unique_u64
policy_options_mb current_mb max_mb =
    let cap = max (max max_mb current_mb) 256 in
    (
      sorted_unique_u64
          (256 ∷ 512 ∷ 1024 ∷ min current_mb cap ∷ max (current_mb / 2) 256 ∷ min cap 2048 ∷ []),
      sorted_unique_u64 (max current_mb 256 ∷ cap ∷ 1024 ∷ 2048 ∷ min 4096 cap ∷ min 8192 cap ∷ []),
    )

abbrev pub abs_diff : ℕ → ℕ → ℕ
abs_diff a b = (a - b) + (b - a)

-- The place `best` of the least distance `least` so far, before place `i`; the first of equal ones
-- stays.
unfoldable pub nearest_from : (best least i target : ℕ) → List ℕ → ℕ
nearest_from best least i target [] = best
nearest_from best least i target (v ∷ vs) = elim (ltb (abs_diff v target) least) [
  | true ↦ nearest_from i (abs_diff v target) (i + 1) target vs
  | false ↦ nearest_from best least (i + 1) target vs
]

-- `nearest_index_u64`, and `nearest_index_u32` on smaller numbers.
unfoldable pub nearest_index : (options : List ℕ) → (target : ℕ) → ℕ
unfolding nearest_from
nearest_index [] target = 0
nearest_index (v ∷ vs) target = nearest_from 0 (abs_diff v target) 1 target vs
