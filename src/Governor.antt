-- ===== src/Governor.antt =====
-- crates/dom0-memd/src/lib.rs: the memory governor of dom0. All values are MiB, below 2^64. The
-- reading of /proc/meminfo and the calls of `xl` are the environment: a step takes the text and the
-- guest count that it read, and whether the resize succeeded.
pub mod Target
pub mod Convergence
use rotten_apple.Prelude.{
  Bool, List, Option, Text, [], codes, false, if◌then◌else◌, is_whitespace, ltb, max, min, nat_eq,
  none, not, parse_below, some, suc, text_eq, zero, ℕ, ◌*◌, ◌++◌, ◌+◌, ◌-◌, ◌/◌, ◌==◌, ◌^◌, ◌∷◌,
}

pub record GovernorConfig : Type 0 where
  pub steady_mb : ℕ
  pub max_mb : ℕ
  pub per_guest_mb : ℕ
  pub low_watermark_pct : ℕ
  pub high_watermark_pct : ℕ
  pub step_mb : ℕ
  pub dead_band_mb : ℕ
  pub tick_s : ℕ

abbrev pub default_config : GovernorConfig
default_config = record {
  steady_mb = 1024;
  max_mb = 4096;
  per_guest_mb = 256;
  low_watermark_pct = 12;
  high_watermark_pct = 30;
  step_mb = 256;
  dead_band_mb = 128;
  tick_s = 2;
}

pub record MemSample : Type 0 where
  pub available_mb : ℕ
  pub total_mb : ℕ

abbrev pub u64_max : ℕ
u64_max = 2 ^ 64 - 1

abbrev pub saturating_mul : ℕ → ℕ → ℕ
saturating_mul a b = min (a * b) u64_max

abbrev pub saturating_add : ℕ → ℕ → ℕ
saturating_add a b = min (a + b) u64_max

unfoldable pub available_pct : MemSample → ℕ
available_pct s = if s.total_mb == 0 then 100 else saturating_mul s.available_mb 100 / s.total_mb

-- `Ord::clamp`, which panics when the bounds are out of order: `none`.
abbrev pub clamp : ℕ → ℕ → ℕ → Option ℕ
clamp x lo hi = if ltb hi lo then none else some (min (max x lo) hi)

abbrev pub abs_diff : ℕ → ℕ → ℕ
abs_diff a b = if ltb a b then b - a else a - b

unfoldable pub floor_of : GovernorConfig → ℕ → ℕ
floor_of cfg guests =
    min (saturating_add cfg.steady_mb (saturating_mul guests cfg.per_guest_mb)) cfg.max_mb

-- The watermark's nudge around the current size.
unfoldable pub nudged : GovernorConfig → ℕ → ℕ → ℕ
nudged cfg pct current_mb =
    if ltb pct cfg.low_watermark_pct
    then saturating_add current_mb cfg.step_mb
    else if ltb cfg.high_watermark_pct pct
    then current_mb - cfg.step_mb
    else current_mb

abbrev pub outside_dead_band : GovernorConfig → ℕ → ℕ → Option ℕ
outside_dead_band cfg current_mb desired =
    if ltb (abs_diff desired current_mb) cfg.dead_band_mb then none else some desired

-- `decide_target`: `none` is a panic, `some none` holds the size.
unfoldable pub decide_target : GovernorConfig → MemSample → ℕ → ℕ → Option (Option ℕ)
decide_target cfg sample guests current_mb =
    let floor = floor_of cfg guests in
    let desired = nudged cfg (available_pct sample) current_mb in
    elim (clamp desired floor cfg.max_mb) [
      | none ↦ none
      | some target ↦ some (outside_dead_band cfg current_mb target)
    ]

-- `str::split_whitespace`.
words_from : Text → Text → List Text
words_from word [] = if word == [] then [] else word ∷ []
words_from word (c ∷ s) =
    let within = words_from (word ++ c ∷ []) s in
    let next = words_from [] s in
    if is_whitespace c then (if word == [] then next else word ∷ next) else within

unfoldable pub split_whitespace : Text → List Text
unfolding words_from
split_whitespace s = words_from [] s

-- `str::lines`, up to a '\r' before the '\n', which the fields read here do not reach.
lines_from : Text → Text → List Text
lines_from line [] = if line == [] then [] else line ∷ []
lines_from line (c ∷ s) =
    let ended = line ∷ lines_from [] s in
    let within = lines_from (line ++ c ∷ []) s in if c == 10 then ended else within

unfoldable pub lines : Text → List Text
unfolding lines_from
lines s = lines_from [] s

unfoldable pub strip_prefix : Text → Text → Option Text
strip_prefix [] s = some s
strip_prefix (p ∷ ps) [] = none
strip_prefix (p ∷ ps) (c ∷ s) = if p == c then strip_prefix ps s else none

abbrev pub nth : ℕ → List Text → Option Text
nth n [] = none
nth zero (w ∷ ws) = some w
nth (suc n) (w ∷ ws) = nth n ws

abbrev parse_u64 : Option Text → Option ℕ
parse_u64 none = none
parse_u64 (some w) = parse_below (2 ^ 64) w

abbrev to_mib : Option ℕ → Option ℕ
to_mib none = none
to_mib (some kb) = some (kb / 1024)

parse_kb_field : Text → Option ℕ
parse_kb_field v = to_mib (parse_u64 (nth 0 (split_whitespace v)))

meminfo_line : Text → Option ℕ × Option ℕ → Option ℕ × Option ℕ
unfolding parse_kb_field
meminfo_line line (total, avail) = elim (strip_prefix (codes "MemTotal:") line) [
  | some v ↦ (parse_kb_field v, avail)
  | none ↦ elim (strip_prefix (codes "MemAvailable:") line) [
    | some v ↦ (total, parse_kb_field v)
    | none ↦ (total, avail)
  ]
]

meminfo_lines : List Text → Option ℕ × Option ℕ → Option ℕ × Option ℕ
unfolding meminfo_line
meminfo_lines [] found = found
meminfo_lines (l ∷ ls) found = meminfo_lines ls (meminfo_line l found)

abbrev both : Option ℕ × Option ℕ → Option MemSample
both (some total, some avail) = some (record { total_mb = total; available_mb = avail })
both (some total, none) = none
both (none, avail) = none

unfoldable pub parse_meminfo : Text → Option MemSample
unfolding meminfo_lines
parse_meminfo s = both (meminfo_lines (lines s) (none, none))

-- A line counts if its second word is a number other than 0.
abbrev is_guest : Option ℕ → Bool
is_guest none = false
is_guest (some id) = not (id == 0)

guest_lines : List Text → ℕ
guest_lines [] = 0
guest_lines (l ∷ ls) =
    let rest = guest_lines ls in
    if is_guest (parse_u64 (nth 1 (split_whitespace l))) then suc rest else rest

unfoldable pub parse_guest_count : Text → ℕ
unfolding guest_lines
parse_guest_count s = guest_lines (lines s)

-- One round of `run`: what was read of /proc/meminfo, and of `xl list` if the call succeeded. The
-- result is the size that the round asks for, if any; `none` is a panic or the end of the loop.
unfoldable pub round : GovernorConfig → Option MemSample → Option Text → Option (Option ℕ)
round cfg none listed = none
round cfg (some sample) none = decide_target cfg sample 0 sample.total_mb
round cfg (some sample) (some stdout) =
    decide_target cfg sample (parse_guest_count stdout) sample.total_mb
