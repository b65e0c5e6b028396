-- ===== src/Rtc.antt =====
-- The real time clock of `basekernel/kernel/rtc.c`: what its registers are read as, and the seconds
-- since 1970.
pub mod Calendar
mod Tests
use stage_os.Base.{
  ℕ, zero, suc, ◌+◌, ◌-◌, ◌*◌, ◌/◌, ◌%◌, ◌^◌, Bool, true, false, not, ◌&&◌, ◌||◌, List, [], ◌∷◌,
  ◌==◌, ltb, leb, if◌then◌else◌, get_or,
}

abbrev pub word : ℕ
word = 2 ^ 32

-- `struct rtc_time`
pub record RtcTime : Type 0 where
  pub second : ℕ
  pub minute : ℕ
  pub hour : ℕ
  pub day : ℕ
  pub month : ℕ
  pub year : ℕ

-- `rtc_bcd_to_binary`, on bytes
pub bcd_to_binary : ℕ → ℕ
bcd_to_binary bcd = (bcd % 16 + bcd / 16 * 10) % 256

-- What `rtc_fetch_time` makes of the bytes that it has read from the registers
pub decode : RtcTime → RtcTime
unfolding bcd_to_binary
decode t =
    let addpm = leb 128 t.hour in
    let hour = bcd_to_binary (if addpm then t.hour % 128 else t.hour) in
    let year = bcd_to_binary t.year in
    record {
      second = bcd_to_binary t.second;
      minute = bcd_to_binary t.minute;
      hour = if addpm then (hour + 12) % 256 else hour;
      day = bcd_to_binary t.day;
      month = bcd_to_binary t.month;
      year = if leb 70 year then year + 1900 else year + 2000;
    }

-- `LEAP_YEAR`
pub leap_year : ℕ → Bool
leap_year y = ltb 0 y && y % 4 == 0 && (not (y % 100 == 0) || y % 400 == 0)

-- `monthDays`
abbrev pub month_days : List ℕ
month_days = 31 ∷ 28 ∷ 31 ∷ 30 ∷ 31 ∷ 30 ∷ 31 ∷ 31 ∷ 30 ∷ 31 ∷ 30 ∷ 31 ∷ []

abbrev pub secs_per_day : ℕ
secs_per_day = 3600 * 24

-- The first loop of `rtc_time_to_timestamp`, over `n` years from year `i` on
pub add_years : (n i seconds : ℕ) → ℕ
unfolding leap_year
add_years zero i seconds = seconds
add_years (suc n) i seconds =
    add_years n (i + 1) (if leap_year i then (seconds + secs_per_day) % word else seconds)

-- The second loop, over `n` months from month `i` on
pub add_months : (year n i seconds : ℕ) → ℕ
unfolding leap_year
add_months year zero i seconds = seconds
add_months year (suc n) i seconds = add_months year n (i + 1) (
    if i == 2 && leap_year year
    then (seconds + secs_per_day * 29) % word
    else (seconds + secs_per_day * get_or month_days (i - 1) 0) % word)

-- `rtc_time_to_timestamp` of a year from 1970 on, a day from 1 on and a month up to 12: the counts of
-- the loops are not negative, and the table is read inside.
pub time_to_timestamp : RtcTime → ℕ
unfolding add_years add_months
time_to_timestamp t =
    let years = (t.year - 1970) * (secs_per_day * 365) % word in
    let leaps = add_years (t.year - 1970) 1970 years in
    let months = add_months t.year (t.month - 1) 1 leaps in
    let days = (months + (t.day - 1) * secs_per_day) % word in
    (((days + t.hour * 3600) % word + t.minute * 60) % word + t.second) % word
