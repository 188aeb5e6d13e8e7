-- ===== src/Instances/Clock.antt =====
-- The time stamp of an instance. Seconds are below 2 ^ 64, so the day is a natural number, and the
-- branch of `civil_from_days` for days before the era is never taken.
use rotten_apple.Prelude.{
  Text, [], decimal, if◌then◌else◌, leb, length, ltb, replicate, ℕ, ◌%◌, ◌*◌, ◌++◌, ◌+◌, ◌-◌, ◌/◌,
  ◌^◌, ◌∷◌,
}

-- The year, the month and the day. The source keeps the year modulo 2 ^ 32.
pub record Civil : Type 0 where
  pub year : ℕ
  pub month : ℕ
  pub day : ℕ

unfoldable pub civil_from_days : ℕ → Civil
civil_from_days days =
    let z = days + 719468 in
    let era = z / 146097 in
    let doe = z - era * 146097 in
    let yoe = (doe - doe / 1460 + doe / 36524 - doe / 146096) / 365 in
    let y = yoe + era * 400 in
    let doy = doe - (365 * yoe + yoe / 4 - yoe / 100) in
    let mp = (5 * doy + 2) / 153 in
    let m = if ltb mp 10 then mp + 3 else mp - 9 in
    record {
      year = (y + (if leb m 2 then 1 else 0)) % 2 ^ 32;
      month = m;
      day = doy - (153 * mp + 2) / 5 + 1;
    }

-- `{n:02}` and `{n:04}`.
abbrev pub padded : ℕ → ℕ → Text
padded width n = let s = decimal n in replicate (width - length s) b'0' ++ s

-- A year that wraps to a negative number is not printed as the source does.
unfoldable pub format_unix_utc : ℕ → Text
unfolding civil_from_days decimal
format_unix_utc secs =
    let secs_of_day = secs % 86400 in
    let date = civil_from_days (secs / 86400) in
    padded 4 date.year
    ++ (b'-' ∷ padded 2 date.month)
    ++ (b'-' ∷ padded 2 date.day)
    ++ (b'T' ∷ padded 2 (secs_of_day / 3600))
    ++ (b':' ∷ padded 2 (secs_of_day / 60 % 60))
    ++ (b':' ∷ padded 2 (secs_of_day % 60))
    ++ (b'Z' ∷ [])
