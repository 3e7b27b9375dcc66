-- ===== src/Time.antt =====
-- `fat_time_fat2unix` and `fat_time_unix2fat` of ATS/myfat/fat_misc.c.
pub mod Days
pub mod RoundTrip
mod Tests
use ats_ldd.Base.{
  ℕ, zero, suc, ◌+◌, ◌-◌, ◌*◌, ◌/◌, ◌%◌, ◌^◌, max, Bool, true, false, List, [], ◌∷◌, get_or,
  if◌then◌else◌, ◌==◌, ltb, leb, not, ◌&&◌,
}

-- `sys_tz.tz_minuteswest` is `west` minutes less `east` minutes, one of which is 0; with the option
-- `tz_utc` both are 0. Seconds are counted from 1970 on, and those before that stand for 0: the
-- source treats all before 1980 alike.
pub record Zone : Type 0 where
  pub west : ℕ
  pub east : ℕ

pub record Timespec : Type 0 where
  pub tv_sec : ℕ
  pub tv_nsec : ℕ

-- Time, date and hundredths of a directory entry.
pub record FatTime : Type 0 where
  pub time : ℕ
  pub date : ℕ
  pub time_cs : ℕ

abbrev pub secs_per_day : ℕ
secs_per_day = 86400

abbrev pub unix_secs_1980 : ℕ
unix_secs_1980 = 315532800

abbrev pub unix_secs_2108 : ℕ
unix_secs_2108 = 4354819200

abbrev pub days_delta : ℕ
days_delta = 365 * 10 + 2

abbrev pub year_2100 : ℕ
year_2100 = 120

abbrev pub is_leap_year : ℕ → Bool
is_leap_year y = (y % 4 == 0) && not (y == year_2100)

abbrev pub days_in_year : ℕ → ℕ
days_in_year month =
    get_or (0 ∷ 0 ∷ 31 ∷ 59 ∷ 90 ∷ 120 ∷ 151 ∷ 181 ∷ 212 ∷ 243 ∷ 273 ∷ 304 ∷ 334 ∷ 0 ∷ 0 ∷ 0 ∷ [])
      month 0

-- The leap days of the years before a year, `year` counted from 1980.
abbrev pub leap_days : ℕ → ℕ
leap_days year = if ltb year_2100 year then (year + 3) / 4 - 1 else (year + 3) / 4

-- The day that a date stands for, counted from 1980.
unfoldable pub date_days : ℕ → ℕ
date_days date =
    let year = date / 2 ^ 9 in
    let month = max 1 (date / 2 ^ 5 % 2 ^ 4) in
    let day = max 1 (date % 2 ^ 5) - 1 in
    let leap_day =
      if is_leap_year year && ltb 2 month then leap_days year + 1 else leap_days year in
    year * 365 + leap_day + days_in_year month + day

unfoldable pub fat_time_fat2unix : Zone → FatTime → Timespec
unfolding date_days
fat_time_fat2unix z t =
    let second =
      t.time % 2 ^ 5 * 2
      + t.time / 2 ^ 5 % 2 ^ 6 * 60
      + t.time / 2 ^ 11 * 3600
      + (date_days t.date + days_delta) * secs_per_day in
    let second' = second + z.west * 60 - z.east * 60 in
    if not (t.time_cs == 0)
    then record { tv_sec = second' + t.time_cs / 100; tv_nsec = t.time_cs % 100 * 10000000 }
    else record { tv_sec = second'; tv_nsec = 0 }

-- `for (month = 1; month < 12; month++) if (days_in_year[month + 1] > day) break;` with the rounds
-- that are left; eleven are enough.
pub month_loop : ℕ → ℕ → ℕ → ℕ
month_loop day zero month = month
month_loop day (suc n) month =
    let rest = month_loop day n (month + 1) in
    if ltb day (days_in_year (month + 1)) then month else rest

-- The year of a day.
unfoldable pub year_of : ℕ → ℕ
year_of day =
    let year = day / 365 in if ltb day (year * 365 + leap_days year) then year - 1 else year

-- Month and day, from 0, of a day of a year.
unfoldable pub month_day : ℕ → ℕ → ℕ × ℕ
month_day year day =
    if is_leap_year year && (day == days_in_year 3)
    then (2, day - days_in_year 2)
    else (let day' = if is_leap_year year && ltb (days_in_year 3) day then day - 1 else day in
        let month = month_loop day' 11 1 in (month, day' - days_in_year month))

-- The fields of time and date do not overlap, so that `|` is a sum; `*time_cs` is stored if it is
-- asked for.
unfoldable pub fat_time_unix2fat : Zone → Timespec → FatTime
unfolding year_of month_day
fat_time_unix2fat z ts =
    let second = ts.tv_sec + z.east * 60 - z.west * 60 in
    let day = second / secs_per_day - days_delta in
    let year = year_of day in
    let (month, mday) = month_day year (day - (year * 365 + leap_days year)) in
    if ltb second unix_secs_1980
    then record { time = 0; date = 2 ^ 5 + 1; time_cs = 0 }
    else if leb unix_secs_2108 second
    then record {
      time = 23 * 2 ^ 11 + 59 * 2 ^ 5 + 29;
      date = 127 * 2 ^ 9 + 12 * 2 ^ 5 + 31;
      time_cs = 199;
    }
    else record {
      time = second / 3600 % 24 * 2 ^ 11 + second / 60 % 60 * 2 ^ 5 + second % 60 / 2;
      date = (year * 2 ^ 9 + month * 2 ^ 5 + (mday + 1)) % 2 ^ 16;
      time_cs = (ts.tv_sec % 2 * 100 + ts.tv_nsec / 10000000) % 2 ^ 8;
    }
