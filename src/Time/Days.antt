-- ===== src/Time/Days.antt =====
-- The calendar of ATS/myfat/fat_misc.c: days and dates from 1980 to 2107.
use ats_ldd.Base.{
  ℕ, zero, suc, ◌+◌, ◌-◌, ◌*◌, ◌/◌, ◌≤◌, ◌<◌, ◌≡◌, Bool, get_or, [], ◌∷◌, if◌then◌else◌, ◌==◌, ltb,
  ◌&&◌, arith, inl, inr, ◌⊎◌, dec_lt, subst,
}
use ats_ldd.Time.{is_leap_year, leap_days, days_in_year, month_loop, year_of, month_day}

-- The days of a month.
abbrev pub month_length : Bool → ℕ → ℕ
month_length leap month =
    if leap && (month == 2)
    then 29
    else get_or (0 ∷ 31 ∷ 28 ∷ 31 ∷ 30 ∷ 31 ∷ 30 ∷ 31 ∷ 31 ∷ 30 ∷ 31 ∷ 30 ∷ 31 ∷ []) month 0

-- A date of the FAT calendar: the day from 0.
pub record IsDate (year month day : ℕ) : Type 0 where
  pub year_ok : year < 128
  pub month_low : 1 ≤ month
  pub month_high : month ≤ 12
  pub day_ok : day < month_length (is_leap_year year) month

-- The day of the year.
abbrev pub year_day : Bool → ℕ → ℕ → ℕ
year_day leap month day = days_in_year month + day + (if leap && ltb 2 month then 1 else 0)

leap_step :
    (y : ℕ)
    → y < 128
    → leap_days (y + 1) ≡ (if is_leap_year y then leap_days y + 1 else leap_days y)
leap_step y h = ground arith

leap_few : (y : ℕ) → y < 128 → leap_days y ≤ 32
leap_few y h = ground arith

abbrev pub year_len : Bool → ℕ
year_len leap = if leap then 366 else 365

year_near :
    (y n d : ℕ)
    → n ≤ 32
    → d < 366
    → ((y * 365 + n + d) / 365 ≡ y) ⊎ ((y * 365 + n + d) / 365 ≡ y + 1)
year_near y n d h k = elim (dec_lt (n + d) 365) [
  | yes l ↦ inl (omega arith)
  | no g ↦ inr (omega arith)
]

-- The year of a day is found again.
pub year_of_lem :
    (y d : ℕ) → y < 128 → d < year_len (is_leap_year y) → year_of (y * 365 + leap_days y + d) ≡ y
unfolding year_of
year_of_lem y d h k = elim (year_near y (leap_days y) d (leap_few y h) (ground arith)) [
  | inl e ↦ rw e (at_year (leap_days y))
  | inr e ↦ rw e (next_year (leap_days y) (leap_days (y + 1)) (ground (arith, leap_step y h)))
]
  where
    at_year : (n : ℕ) → (if ltb (y * 365 + n + d) (y * 365 + n) then y - 1 else y) ≡ y
    at_year n = ground arith

    next_year :
        (n m : ℕ)
        → m + 365 ≡ year_len (is_leap_year y) + n
        → (if ltb (y * 365 + n + d) ((y + 1) * 365 + m) then y + 1 - 1 else y + 1) ≡ y
    next_year n m e = ground arith

abbrev plain_length : ℕ → ℕ
plain_length month =
    get_or (0 ∷ 31 ∷ 28 ∷ 31 ∷ 30 ∷ 31 ∷ 30 ∷ 31 ∷ 31 ∷ 30 ∷ 31 ∷ 30 ∷ 31 ∷ []) month 0

-- `month_day` by whether the year is a leap year.
abbrev month_in : Bool → ℕ → ℕ × ℕ
month_in leap day =
    if leap && (day == days_in_year 3)
    then (2, day - days_in_year 2)
    else (let day' = if leap && ltb (days_in_year 3) day then day - 1 else day in
        let month = month_loop day' 11 1 in (month, day' - days_in_year month))

month_found :
    (m d : ℕ) → 1 ≤ m → m ≤ 12 → d < plain_length m → month_loop (days_in_year m + d) 11 1 ≡ m
unfolding month_loop
month_found zero d h k l = absurd (omega arith)
month_found (suc (suc (suc (suc (suc (suc (suc (suc (suc (suc (suc (suc (suc m))))))))))))) d h k
      l =
    absurd (omega arith)
month_found m d h k l = ground arith

late_month : (m : ℕ) → 3 ≤ m → m ≤ 12 → 59 ≤ days_in_year m
late_month zero h k = absurd (omega arith)
late_month (suc (suc (suc (suc (suc (suc (suc (suc (suc (suc (suc (suc (suc m))))))))))))) h k =
    absurd (omega arith)
late_month m h k = omega arith

-- How the day of a leap year is brought back to that of a year of 365 days.
late_day :
    (leap : Bool) (m d : ℕ)
    → 3 ≤ m
    → m ≤ 12
    → d < plain_length m
    → month_in leap (year_day leap m d) ≡ (m, d)
late_day leap m d h k l = ground (arith, month_found m d (omega arith) k l, late_month m h k)

early_day :
    (leap : Bool) (m d : ℕ)
    → 1 ≤ m
    → m ≤ 2
    → d < month_length leap m
    → month_in leap (year_day leap m d) ≡ (m, d)
early_day leap zero d h k l = absurd (omega arith)
early_day leap (suc zero) d h k l = ground (arith, month_found 1 d)
early_day leap (suc (suc zero)) d h k l = ground (arith, month_found 2 d)
early_day leap (suc (suc (suc m))) d h k l = absurd (omega arith)

later_length : (leap : Bool) (m : ℕ) → 3 ≤ m → month_length leap m ≡ plain_length m
later_length leap m h = ground arith

-- Month and day are found again.
pub month_day_lem :
    (y m d : ℕ) → IsDate y m d → month_day y (year_day (is_leap_year y) m d) ≡ (m, d)
unfolding month_day
month_day_lem y m d h = elim (dec_lt m 3) [
  | yes l ↦ early_day (is_leap_year y) m d h.month_low (omega arith) h.day_ok
  | no g ↦
      late_day (is_leap_year y) m d (omega arith) h.month_high
        (subst (λ n. d < n) (later_length (is_leap_year y) m (omega arith)) h.day_ok)
]

day_lt_31 : (leap : Bool) (m d : ℕ) → m ≤ 12 → d < month_length leap m → d < 31
day_lt_31 leap (suc (suc (suc (suc (suc (suc (suc (suc (suc (suc (suc (suc (suc m))))))))))))) d h
      l =
    absurd (omega arith)
day_lt_31 leap m d h l = ground arith

-- A month has at most 31 days, and the day of a year is below its length.
pub year_day_lt :
    (y m d : ℕ)
    → IsDate y m d
    → (d < 31) × (year_day (is_leap_year y) m d < year_len (is_leap_year y))
year_day_lt y m d h = (
  day_lt_31 (is_leap_year y) m d h.month_high h.day_ok,
  below (is_leap_year y) m d h.month_high h.day_ok,
)
  where
    below :
        (leap : Bool) (m d : ℕ)
        → m ≤ 12
        → d < month_length leap m
        → year_day leap m d < year_len leap
    below leap (suc (suc (suc (suc (suc (suc (suc (suc (suc (suc (suc (suc (suc m))))))))))))) d h
          l =
        absurd (omega arith)
    below leap m d h l = ground arith
