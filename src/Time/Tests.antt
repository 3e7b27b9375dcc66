-- ===== src/Time/Tests.antt =====
-- The 29th of February 2008, 13:37:58.
use ats_ldd.Base.{◌≡◌, arith}
use ats_ldd.Time.{fat_time_fat2unix, fat_time_unix2fat}
use ats_ldd.Time.Days.{IsDate}
use ats_ldd.Time.RoundTrip.{utc, pack, fat_time_unix2fat-fat_time_fat2unix}

leap_day : IsDate 28 2 28
leap_day = record {
  year_ok = omega arith;
  month_low = omega arith;
  month_high = omega arith;
  day_ok = omega arith;
}

fat_time_unix2fat-fat_time_fat2unix_example :
    fat_time_unix2fat utc (fat_time_fat2unix utc (pack 28 2 28 13 37 29 150))
    ≡ pack 28 2 28 13 37 29 150
fat_time_unix2fat-fat_time_fat2unix_example =
    fat_time_unix2fat-fat_time_fat2unix 28 2 28 13 37 29 150 leap_day (omega arith) (omega arith)
      (omega arith) (omega arith)
