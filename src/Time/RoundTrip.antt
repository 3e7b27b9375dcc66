-- ===== src/Time/RoundTrip.antt =====
-- From a time of the FAT format to one of UNIX and back (ATS/myfat/fat_misc.c).
use ats_ldd.Base.{
  ℕ, ◌+◌, ◌-◌, ◌*◌, ◌/◌, ◌%◌, ◌^◌, ◌≤◌, ◌<◌, max, ◌≡◌, Bool, false, if◌then◌else◌, ltb, leb, ◌&&◌,
  arith, ap, ◌∙◌,
}
use ats_ldd.Time.{
  Zone, Timespec, FatTime, is_leap_year, leap_days, days_in_year, date_days, fat_time_fat2unix,
  fat_time_unix2fat, year_of, month_day, secs_per_day, days_delta, unix_secs_1980, unix_secs_2108,
}
use ats_ldd.Time.Days.{IsDate, year_day, year_len, year_of_lem, month_day_lem, year_day_lt}

abbrev pub utc : Zone
utc = record { west = 0; east = 0 }

-- The words of a directory entry for a time.
abbrev pub pack : (year month day hour min sec cs : ℕ) → FatTime
pack year month day hour min sec cs = record {
  time = hour * 2 ^ 11 + min * 2 ^ 5 + sec;
  date = year * 2 ^ 9 + month * 2 ^ 5 + (day + 1);
  time_cs = cs;
}

-- The seconds of a time on a day.
seconds : (days hour min sec : ℕ) → ℕ
seconds days hour min sec = sec * 2 + min * 60 + hour * 3600 + (days + days_delta) * secs_per_day

seconds_back :
    (days h m s c : ℕ)
    → h < 24
    → m < 60
    → s < 30
    → c < 2
    → ((seconds days h m s + c) / secs_per_day - days_delta ≡ days)
      × ((seconds days h m s + c) / 3600 % 24 ≡ h)
      × ((seconds days h m s + c) / 60 % 60 ≡ m)
      × ((seconds days h m s + c) % 60 / 2 ≡ s)
      × ((seconds days h m s + c) % 2 ≡ c)
unfolding seconds
seconds_back days h m s c a b d e =
    (omega arith, omega arith, omega arith, omega arith, omega arith)

date_days_pack :
    (y m d : ℕ)
    → IsDate y m d
    → d < 31
    → date_days (y * 2 ^ 9 + m * 2 ^ 5 + (d + 1))
      ≡ y * 365 + leap_days y + year_day (is_leap_year y) m d
unfolding date_days
date_days_pack y m d h l =
    let year : (y * 2 ^ 9 + m * 2 ^ 5 + (d + 1)) / 2 ^ 9 ≡ y = omega (arith, h.month_high) in
    let month : (y * 2 ^ 9 + m * 2 ^ 5 + (d + 1)) / 2 ^ 5 % 2 ^ 4 ≡ m =
      omega (arith, h.month_high) in
    let day : (y * 2 ^ 9 + m * 2 ^ 5 + (d + 1)) % 2 ^ 5 ≡ d + 1 = omega arith in
    let some_month : max 1 m ≡ m = omega (arith, h.month_low) in
    rw year
      (rw month (rw day (rw some_month (days (is_leap_year y) (leap_days y) (days_in_year m)))))
  where
    days :
        (leap : Bool) (k n : ℕ)
        → y * 365 + (if leap && ltb 2 m then k + 1 else k) + n + (max 1 (d + 1) - 1)
          ≡ y * 365 + k + (n + d + (if leap && ltb 2 m then 1 else 0))
    days leap k n = ground arith

-- The seconds and nanoseconds of a time of the FAT format.
unix_of : (days hour min sec cs : ℕ) → Timespec
unix_of days hour min sec cs = record {
  tv_sec = seconds days hour min sec + cs / 100;
  tv_nsec = cs % 100 * 10000000;
}

fat2unix_lem :
    (y m d hour min sec cs days : ℕ)
    → hour < 24
    → min < 60
    → sec < 30
    → date_days (y * 2 ^ 9 + m * 2 ^ 5 + (d + 1)) ≡ days
    → fat_time_fat2unix utc (pack y m d hour min sec cs) ≡ unix_of days hour min sec cs
unfolding fat_time_fat2unix unix_of seconds
fat2unix_lem y m d hour min sec cs days a b c e =
    let h : (hour * 2 ^ 11 + min * 2 ^ 5 + sec) / 2 ^ 11 ≡ hour = omega arith in
    let mi : (hour * 2 ^ 11 + min * 2 ^ 5 + sec) / 2 ^ 5 % 2 ^ 6 ≡ min = omega arith in
    let s : (hour * 2 ^ 11 + min * 2 ^ 5 + sec) % 2 ^ 5 ≡ sec = omega arith in
    rw e (rw h (rw mi (rw s (ground arith))))

days_few : (y n : ℕ) → y < 128 → n < year_len (is_leap_year y) → y * 365 + leap_days y + n < 46751
days_few y n h k = ground arith

date_small :
    (y m d : ℕ)
    → y < 128
    → m ≤ 12
    → d < 31
    → (y * 2 ^ 9 + m * 2 ^ 5 + (d + 1)) % 2 ^ 16 ≡ y * 2 ^ 9 + m * 2 ^ 5 + (d + 1)
date_small y m d a b c = omega arith

in_range :
    (days hour min sec c : ℕ)
    → hour < 24
    → min < 60
    → sec < 30
    → c < 2
    → days < 46751
    → (ltb (seconds days hour min sec + c) unix_secs_1980 ≡ false)
      × (leb unix_secs_2108 (seconds days hour min sec + c) ≡ false)
unfolding seconds
in_range days hour min sec c a b d e f = (ground arith, ground arith)

hundredths : (cs : ℕ) → cs < 200 → (cs / 100 * 100 + cs % 100 * 10000000 / 10000000) % 2 ^ 8 ≡ cs
hundredths cs h = omega arith

-- What `fat_time_unix2fat` makes of a time, by the parts of its seconds.
unix2fat_lem :
    (days y m d hour min sec cs : ℕ)
    → hour < 24
    → min < 60
    → sec < 30
    → cs < 200
    → days < 46751
    → year_of days ≡ y
    → month_day y (days - (y * 365 + leap_days y)) ≡ (m, d)
    → (y * 2 ^ 9 + m * 2 ^ 5 + (d + 1)) % 2 ^ 16 ≡ y * 2 ^ 9 + m * 2 ^ 5 + (d + 1)
    → fat_time_unix2fat utc (unix_of days hour min sec cs) ≡ pack y m d hour min sec cs
unfolding fat_time_unix2fat unix_of
unix2fat_lem days y m d hour min sec cs a b c e f year month date =
    let (q, h, mi, s, two) = seconds_back days hour min sec (cs / 100) a b c (omega arith) in
    let zone : seconds days hour min sec + cs / 100 + 0 * 60 - 0 * 60
        ≡ seconds days hour min sec + cs / 100 =
      omega arith in
    let (low, high) = in_range days hour min sec (cs / 100) a b c (omega arith) f in
    rw zone (
      rw q (
        rw year (
          rw month (
            rw low (
              rw high (
                rw h (
                  rw mi (
                    rw s (
                      rw two (
                        rw date
                          (ap (λ (c : ℕ). pack y m d hour min sec c) (hundredths cs e))))))))))))

-- For each date of the FAT calendar, from 1980 to 2107, and each time of day in the format's units,
-- with hundredths below 200 and in UTC: what `fat_time_fat2unix` makes of its words,
-- `fat_time_unix2fat` turns back into the same words.
pub fat_time_unix2fat-fat_time_fat2unix :
    (y m d hour min sec cs : ℕ)
    → IsDate y m d
    → hour < 24
    → min < 60
    → sec < 30
    → cs < 200
    → fat_time_unix2fat utc (fat_time_fat2unix utc (pack y m d hour min sec cs))
      ≡ pack y m d hour min sec cs
fat_time_unix2fat-fat_time_fat2unix y m d hour min sec cs date a b c e =
    let (d31, below) = year_day_lt y m d date in
    let days : ℕ = y * 365 + leap_days y + year_day (is_leap_year y) m d in
    let on_day : days - (y * 365 + leap_days y) ≡ year_day (is_leap_year y) m d = omega arith in
    ap (fat_time_unix2fat utc)
      (fat2unix_lem y m d hour min sec cs days a b c (date_days_pack y m d date d31))
    ∙ unix2fat_lem days y m d hour min sec cs a b c e
        (days_few y (year_day (is_leap_year y) m d) date.year_ok below)
        (year_of_lem y (year_day (is_leap_year y) m d) date.year_ok below)
        (ap (month_day y) on_day ∙ month_day_lem y m d date)
        (date_small y m d date.year_ok date.month_high d31)
