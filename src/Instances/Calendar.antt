-- ===== src/Instances/Calendar.antt =====
-- The calendar against a day-by-day reference.
use rotten_apple.Prelude.{
  Bool, ap, arith, if◌then◌else◌, inl, inr, leb, ltb, nat_beq, not, refl, ℕ, ◌%◌, ◌&&◌, ◌*◌, ◌+◌,
  ◌-◌, ◌/◌, ◌<◌, ◌^◌, ◌||◌, ◌∙◌, ◌≡◌, ◌≤◌, ◌⊎◌,
}
use rotten_apple.Instances.Clock.{Civil, civil_from_days}

abbrev is_leap : ℕ → Bool
is_leap y = nat_beq (y % 4) 0 && (not (nat_beq (y % 100) 0) || nat_beq (y % 400) 0)

abbrev days_in_month : ℕ → ℕ → ℕ
days_in_month y m =
    if nat_beq m 2
    then (if is_leap y then 29 else 28)
    else if nat_beq m 4 || nat_beq m 6 || nat_beq m 9 || nat_beq m 11
    then 30
    else 31

pub tomorrow : Civil → Civil
tomorrow t =
    if ltb t.day (days_in_month t.year t.month)
    then record { year = t.year; month = t.month; day = t.day + 1 }
    else if ltb t.month 12
    then record { year = t.year; month = t.month + 1; day = 1 }
    else record { year = t.year + 1; month = 1; day = 1 }

year_of_era :
    (doe yoe : ℕ)
    → doe < 146097
    → yoe ≡ (doe - doe / 1460 + doe / 36524 - doe / 146096) / 365
    → (365 * yoe + yoe / 4 - yoe / 100 ≤ doe)
      × (doe < 365 * (yoe + 1) + (yoe + 1) / 4 - (yoe + 1) / 100 + (yoe + 1) / 400)
      × (yoe < 400)
year_of_era doe yoe h e = omega arith

-- The length of a month, counted from March; February with its leap day.
abbrev month_length : ℕ → ℕ
month_length mp =
    if nat_beq mp 11
    then 29
    else if nat_beq mp 1 || nat_beq mp 3 || nat_beq mp 6 || nat_beq mp 8
    then 30
    else 31

month_step :
    (doy mp mp' : ℕ)
    → doy + 1 < 366
    → mp ≡ (5 * doy + 2) / 153
    → mp' ≡ (5 * (doy + 1) + 2) / 153
    → (mp < 12)
      × (((mp' ≡ mp) × (doy - (153 * mp + 2) / 5 + 1 < month_length mp))
          ⊎ ((mp' ≡ mp + 1)
              × (doy - (153 * mp + 2) / 5 + 1 ≡ month_length mp)
              × (mp < 11)
              × (doy + 1 ≡ (153 * mp' + 2) / 5)))
month_step doy mp mp' h e e' = ground arith

year_step :
    (doe yoe yoe' : ℕ)
    → doe + 1 < 146097
    → yoe ≡ (doe - doe / 1460 + doe / 36524 - doe / 146096) / 365
    → yoe' ≡ (doe + 1 - (doe + 1) / 1460 + (doe + 1) / 36524 - (doe + 1) / 146096) / 365
    → (yoe' ≡ yoe) ⊎ ((yoe' ≡ yoe + 1) × (doe + 1 ≡ 365 * yoe' + yoe' / 4 - yoe' / 100))
year_step doe yoe yoe' h e e' = ground (arith, year_of_era doe yoe, year_of_era (doe + 1) yoe')

-- The date by its year and month, both counted from March.
abbrev of_march : (y mp day : ℕ) → Civil
of_march y mp day =
    let m = if ltb mp 10 then mp + 3 else mp - 9 in
    record { year = (y + (if leb m 2 then 1 else 0)) % 2 ^ 32; month = m; day = day }

abbrev date_of : (y doy : ℕ) → Civil
date_of y doy = let mp = (5 * doy + 2) / 153 in of_march y mp (doy - (153 * mp + 2) / 5 + 1)

abbrev leap_march : ℕ → ℕ
leap_march y = if is_leap (y + 1) then 366 else 365

same_month :
    (y mp day : ℕ)
    → y + 1 < 2 ^ 32
    → mp < 12
    → day < month_length mp
    → (mp ≡ 11 → day + 337 < leap_march y)
    → of_march y mp (day + 1) ≡ tomorrow (of_march y mp day)
unfolding tomorrow
same_month y mp day h k l feb = ground arith

next_month :
    (y mp day : ℕ)
    → y + 1 < 2 ^ 32
    → mp < 11
    → day ≡ month_length mp
    → of_march y (mp + 1) 1 ≡ tomorrow (of_march y mp day)
unfolding tomorrow
next_month y mp day h k l = ground arith

within_year :
    (y doy : ℕ)
    → y + 1 < 2 ^ 32
    → doy + 1 < leap_march y
    → date_of y (doy + 1) ≡ tomorrow (date_of y doy)
within_year y doy h k =
    let mp = (5 * doy + 2) / 153 in
    let mp' = (5 * (doy + 1) + 2) / 153 in
    let day = doy - (153 * mp + 2) / 5 + 1 in
    let (lt, step) = month_step doy mp mp' (ground arith) refl refl in
    elim step [
      | inl (e, l) ↦
          rw e (
            ap (λ d. of_march y mp d) (omega arith)
            ∙ same_month y mp day h lt l (λ g. ground arith))
      | inr (e, l, b, f) ↦
          rw e (ap (λ d. of_march y (mp + 1) d) (omega arith) ∙ next_month y mp day h b l)
    ]

at_new_year :
    (y doy : ℕ)
    → y + 1 < 2 ^ 32
    → doy + 1 ≡ leap_march y
    → date_of (y + 1) 0 ≡ tomorrow (date_of y doy)
unfolding tomorrow
at_new_year y doy h k = ground arith

abbrev yoe_of : ℕ → ℕ
yoe_of doe = (doe - doe / 1460 + doe / 36524 - doe / 146096) / 365

abbrev doy_of : ℕ → ℕ
doy_of doe = let yoe = yoe_of doe in doe - (365 * yoe + yoe / 4 - yoe / 100)

-- From one day of an era to the next.
Walks : (y doy y' doy' : ℕ) → Type 0
Walks y doy y' doy' =
    ((y' ≡ y) × (doy' ≡ doy + 1) × (doy + 1 < leap_march y))
    ⊎ ((y' ≡ y + 1) × (doy' ≡ 0) × (doy + 1 ≡ leap_march y))

within_era :
    (era doe yoe yoe' : ℕ)
    → doe + 1 < 146097
    → yoe ≡ yoe_of doe
    → yoe' ≡ yoe_of (doe + 1)
    → Walks
        (yoe + era * 400)
        (doe - (365 * yoe + yoe / 4 - yoe / 100))
        (yoe' + era * 400)
        (doe + 1 - (365 * yoe' + yoe' / 4 - yoe' / 100))
unfolding Walks
within_era era doe yoe yoe' h e e' = ground (
  arith,
  year_step doe yoe yoe' h e e',
  year_of_era doe yoe (omega arith) e,
  year_of_era (doe + 1) yoe' h e',
)

at_new_era :
    (era : ℕ)
    → Walks (yoe_of 146096 + era * 400) (doy_of 146096) (yoe_of 0 + (era + 1) * 400) (doy_of 0)
unfolding Walks
at_new_era era = ground arith

civil_of_Walks :
    (y doy y' doy' : ℕ)
    → y + 1 < 2 ^ 32
    → Walks y doy y' doy'
    → date_of y' doy' ≡ tomorrow (date_of y doy)
unfolding Walks
civil_of_Walks y doy y' doy' h (inl (e, d, l)) = rw (e, d) (within_year y doy h l)
civil_of_Walks y doy y' doy' h (inr (e, d, l)) = rw (e, d) (at_new_year y doy h l)

next_day :
    (z era doe : ℕ)
    → era ≡ z / 146097
    → doe ≡ z - era * 146097
    → ((doe + 1 < 146097)
        × ((z + 1) / 146097 ≡ era)
        × (z + 1 - (z + 1) / 146097 * 146097 ≡ doe + 1))
      ⊎ ((doe ≡ 146096) × ((z + 1) / 146097 ≡ era + 1) × (z + 1 - (z + 1) / 146097 * 146097 ≡ 0))
next_day z era doe e d = ground arith

-- The date of a day that is counted from 0000-03-01.
abbrev date_at : ℕ → Civil
date_at z =
    let era = z / 146097 in
    let doe = z - era * 146097 in date_of (yoe_of doe + era * 400) (doy_of doe)

date_at-tomorrow : (z : ℕ) → z < 784000719468 → date_at (z + 1) ≡ tomorrow (date_at z)
date_at-tomorrow z h =
    let era = z / 146097 in
    let doe = z - era * 146097 in
    let era' = (z + 1) / 146097 in
    let doe' = z + 1 - era' * 146097 in
    civil_of_Walks (yoe_of doe + era * 400) (doy_of doe) (yoe_of doe' + era' * 400) (doy_of doe')
      (ground (arith, year_of_era doe (yoe_of doe)))
      (elim (next_day z era doe refl refl) [
        | inl (l, e, d) ↦ rw (d, e) (within_era era doe (yoe_of doe) (yoe_of (doe + 1)) l refl refl)
        | inr (l, e, d) ↦ rw (d, e, l) (at_new_era era)
      ])

-- Day 0 is 1970-01-01, and each day's date is the one that follows the date of the day before, by the
-- lengths of the months and the leap years; up to the year 2 ^ 31.
pub civil_from_days-tomorrow :
    (days : ℕ)
    → days < 784000000000
    → (civil_from_days 0 ≡ record { year = 1970; month = 1; day = 1 })
      × (civil_from_days (days + 1) ≡ tomorrow (civil_from_days days))
unfolding civil_from_days
civil_from_days-tomorrow days h =
    (refl, ap date_at (omega arith) ∙ date_at-tomorrow (days + 719468) (omega arith))
