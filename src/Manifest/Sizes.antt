-- ===== src/Manifest/Sizes.antt =====
-- The primitive parsers: durations, and sizes up to the floating-point product.
use rotten_apple.Prelude.{
  Option, Result, Text, [], codes, if◌then◌else◌, is_digit, leb, map, nat_eq, none, ok, ok_or,
  parse_below, some, span, text_eq, trim, ℕ, ◌%◌, ◌&&◌, ◌*◌, ◌+◌, ◌-◌, ◌==◌, ◌>>=◌, ◌^◌, ◌||◌,
}

pub data ParseError : Type 0 where
  bad_size bad_duration : Text → ParseError

abbrev pub u64_mod : ℕ
u64_mod = 2 ^ 64

abbrev to_ascii_lowercase : ℕ → ℕ
to_ascii_lowercase c = if leb b'A' c && leb c b'Z' then c + 32 else c

abbrev to_ascii_uppercase : ℕ → ℕ
to_ascii_uppercase c = if leb b'a' c && leb c b'z' then c - 32 else c

duration_unit : Text → Option ℕ
duration_unit u =
    if u == codes "s" || u == []
    then some 1
    else if u == codes "m"
    then some 60
    else if u == codes "h"
    then some 3600
    else if u == codes "d"
    then some 86400
    else none

-- `value * mult` wraps in a release build.
unfoldable pub parse_duration_seconds : Text → Result ParseError (Option ℕ)
unfolding duration_unit
parse_duration_seconds spec =
    let s = trim spec in
    let (digits, unit) = span is_digit s in
    if s == [] || s == codes "never" then ok none else do
      value ← ok_or (parse_below u64_mod digits) (bad_duration spec)
      mult ← ok_or (duration_unit (map to_ascii_lowercase (trim unit))) (bad_duration spec)
      ok (some (value * mult % u64_mod))

size_unit : Text → Option ℕ
size_unit u =
    if u == [] || u == codes "B"
    then some 1
    else if u == codes "K" || u == codes "KB" || u == codes "KIB"
    then some (2 ^ 10)
    else if u == codes "M" || u == codes "MB" || u == codes "MIB"
    then some (2 ^ 20)
    else if u == codes "G" || u == codes "GB" || u == codes "GIB"
    then some (2 ^ 30)
    else if u == codes "T" || u == codes "TB" || u == codes "TIB"
    then some (2 ^ 40)
    else none

-- The 64-bit floats of the size parser.
pub record Floats : Type 1 where
  pub Float : Type 0
  pub parse_float : Text → Option Float
  pub of_u64 : ℕ → Float
  pub times : Float → Float → Float
  -- `as u64`: truncates, and saturates at the ends of the range.
  pub to_u64 : Float → ℕ

-- `split_at` is where the first character stands that is no digit and no dot.
unfoldable pub parse_size_bytes : Floats → Text → Result ParseError ℕ
unfolding size_unit
parse_size_bytes x spec =
    let (digits, unit) = span (λ c. is_digit c || c == b'.') (trim spec) in
    do
      value ← ok_or (x.parse_float digits) (bad_size spec)
      mult ← ok_or (size_unit (map to_ascii_uppercase (trim unit))) (bad_size spec)
      ok (x.to_u64 (x.times value (x.of_u64 mult)))
