-- ===== src/Rtc/Tests.antt =====
-- The real time clock of `basekernel/kernel/rtc.c` on a few dates.
use stage_os.Base.{ℕ, ◌+◌, ◌%◌, ◌≡◌, refl, arith}
use stage_os.Rtc.{
  RtcTime, word, bcd_to_binary, decode, leap_year, secs_per_day, add_years, add_months,
  time_to_timestamp,
}
use stage_os.Rtc.Calendar.{IsDate, tomorrow, time_to_timestamp-tomorrow}

abbrev date : ℕ → ℕ → ℕ → RtcTime
date y m d = record { second = 0; minute = 0; hour = 0; day = d; month = m; year = y }

epoch : time_to_timestamp (date 1970 1 1) ≡ 0
unfolding time_to_timestamp add_years add_months
epoch = refl

year_2000 : time_to_timestamp (date 2000 1 1) ≡ 946684800
unfolding time_to_timestamp add_years add_months leap_year
year_2000 = refl

-- The registers of noon in 12-hour mode give the hour 24.
noon : (decode (record (date 0x24 0x05 0x01) { hour = 0x92 })).hour ≡ 24
unfolding decode bcd_to_binary
noon = refl

leap_day-IsDate : IsDate (date 2024 2 29)
leap_day-IsDate = record {
  epoch = omega arith;
  first_month = omega arith;
  last_month = omega arith;
  first_day = omega arith;
  last_day = omega arith;
}

time_to_timestamp-tomorrow_example :
    time_to_timestamp (tomorrow (date 2024 2 29))
    ≡ (time_to_timestamp (date 2024 2 29) + secs_per_day) % word
time_to_timestamp-tomorrow_example = time_to_timestamp-tomorrow (date 2024 2 29) leap_day-IsDate
