-- ===== src/Rtc/Calendar.antt =====
-- `rtc_time_to_timestamp` of `basekernel/kernel/rtc.c` against the calendar.
use stage_os.Base.{
  Bool, true, false, ◌||◌, ℕ, zero, suc, ◌+◌, ◌-◌, ◌*◌, ◌%◌, ◌<◌, ◌≤◌, ◌≡◌, ◌∙◌, refl, ap, sym,
  ◌&&◌, ◌==◌, ltb, if◌then◌else◌, get_or, arith, inl, inr, Bool-cases, ==-ne, lt→ltb, ge→ltb,
}
use native.Mathlib.Decide.{dec_lt, ℕ_discrete}
use stage_os.Rtc.{
  RtcTime, word, leap_year, month_days, secs_per_day, add_years, add_months, time_to_timestamp,
}

-- The Gregorian calendar, apart from the tables of rtc.c: a year is a leap year if 400 divides it, or 4
-- and not 100.
abbrev is_leap : ℕ → Bool
is_leap y = if y % 400 == 0 then true else if y % 100 == 0 then false else y % 4 == 0

-- April, June, September and November have 30 days, and February 28 or 29.
abbrev pub days_in : (year month : ℕ) → ℕ
days_in year month =
    if month == 2
    then (if is_leap year then 29 else 28)
    else if month == 4 || month == 6 || month == 9 || month == 11
    then 30
    else 31

-- The date of the next day, at the same time of day
abbrev pub tomorrow : RtcTime → RtcTime
tomorrow t =
    if ltb t.day (days_in t.year t.month)
    then record t { day = t.day + 1 }
    else if ltb t.month 12
    then record t { day = 1; month = t.month + 1 }
    else record t { day = 1; month = 1; year = t.year + 1 }

leap_year-is_leap : (y : ℕ) → 0 < y → leap_year y ≡ is_leap y
unfolding leap_year
leap_year-is_leap y pos = ground arith

-- The days of a month by the table of rtc.c
abbrev days_by_table : (year month : ℕ) → ℕ
days_by_table year month =
    if month == 2 then (if leap_year year then 29 else 28) else get_or month_days (month - 1) 0

-- The table is the calendar.
month_of_table : (y m : ℕ) → 0 < y → m < 12 → days_by_table y (suc m) ≡ days_in y (suc m)
month_of_table y zero pos lt = refl
month_of_table y (suc zero) pos lt = ap (λ b. if b then 29 else 28) (leap_year-is_leap y pos)
month_of_table y (suc (suc zero)) pos lt = refl
month_of_table y (suc (suc (suc zero))) pos lt = refl
month_of_table y (suc (suc (suc (suc zero)))) pos lt = refl
month_of_table y (suc (suc (suc (suc (suc zero))))) pos lt = refl
month_of_table y (suc (suc (suc (suc (suc (suc zero)))))) pos lt = refl
month_of_table y (suc (suc (suc (suc (suc (suc (suc zero))))))) pos lt = refl
month_of_table y (suc (suc (suc (suc (suc (suc (suc (suc zero)))))))) pos lt = refl
month_of_table y (suc (suc (suc (suc (suc (suc (suc (suc (suc zero))))))))) pos lt = refl
month_of_table y (suc (suc (suc (suc (suc (suc (suc (suc (suc (suc zero)))))))))) pos lt = refl
month_of_table y (suc (suc (suc (suc (suc (suc (suc (suc (suc (suc (suc zero))))))))))) pos lt =
    refl
month_of_table y (suc (suc (suc (suc (suc (suc (suc (suc (suc (suc (suc (suc m)))))))))))) pos lt =
    absurd (omega arith)

days_by_table-days_in : (y m : ℕ) → 0 < y → 1 ≤ m → m ≤ 12 → days_by_table y m ≡ days_in y m
days_by_table-days_in y zero pos low high = absurd (omega arith)
days_by_table-days_in y (suc m) pos low high = month_of_table y m pos (omega arith)

-- The days of the `n` years from year `i` on
abbrev leaps : (n i : ℕ) → ℕ
leaps zero i = 0
leaps (suc n) i = (if leap_year i then 1 else 0) + leaps n (i + 1)

abbrev days_of_months : (year n i : ℕ) → ℕ
days_of_months year zero i = 0
days_of_months year (suc n) i = days_by_table year i + days_of_months year n (i + 1)

add_years-lem : (n i s : ℕ) → s < word → add_years n i s ≡ (s + leaps n i * secs_per_day) % word
unfolding add_years
add_years-lem zero i s h = omega arith
add_years-lem (suc n) i s h = elim (Bool-cases (leap_year i)) [
  | inl leap ↦
      rw leap (add_years-lem n (i + 1) ((s + secs_per_day) % word) (omega arith) ∙ omega arith)
  | inr plain ↦ rw plain (add_years-lem n (i + 1) s h ∙ omega arith)
]

month-step :
    (year i s : ℕ)
    → (if i == 2 && leap_year year
        then (s + secs_per_day * 29) % word
        else (s + secs_per_day * get_or month_days (i - 1) 0) % word)
      ≡ (s + days_by_table year i * secs_per_day) % word
month-step year i s = elim (ℕ_discrete i 2) [
  | yes e ↦ elim (Bool-cases (leap_year year)) [
    | inl leap ↦ rw (e, leap) (omega arith)
    | inr plain ↦ rw (e, plain) (omega arith)
  ]
  | no ne ↦ rw (==-ne i 2 ne) (omega arith)
]

add_months-lem :
    (year n i s : ℕ)
    → s < word
    → add_months year n i s ≡ (s + days_of_months year n i * secs_per_day) % word
unfolding add_months
add_months-lem year zero i s h = omega arith
add_months-lem year (suc n) i s h =
    ap (add_months year n (i + 1)) (month-step year i s)
    ∙ add_months-lem year n (i + 1) ((s + days_by_table year i * secs_per_day) % word) (omega arith)
    ∙ omega arith

-- The days from 1970 to a date
abbrev days : RtcTime → ℕ
days t =
    (t.year - 1970) * 365
    + leaps (t.year - 1970) 1970
    + days_of_months t.year (t.month - 1) 1
    + (t.day - 1)

abbrev seconds_of_day : RtcTime → ℕ
seconds_of_day t = t.hour * 3600 + t.minute * 60 + t.second

time_to_timestamp-days :
    (t : RtcTime) → time_to_timestamp t ≡ (days t * secs_per_day + seconds_of_day t) % word
unfolding time_to_timestamp
time_to_timestamp-days t =
    let years = (t.year - 1970) * (secs_per_day * 365) % word in
    let y = add_years-lem (t.year - 1970) 1970 years (omega arith) in
    let leap = add_years (t.year - 1970) 1970 years in
    let m = add_months-lem t.year (t.month - 1) 1 leap (omega (arith, y)) in omega (arith, y, m)

leaps-snoc : (n i : ℕ) → leaps (suc n) i ≡ leaps n i + (if leap_year (i + n) then 1 else 0)
leaps-snoc zero i = let e : i + 0 ≡ i = omega arith in rw e (omega arith)
leaps-snoc (suc n) i =
    let e : i + 1 + n ≡ i + suc n = omega arith in
    let ih = leaps-snoc n (i + 1) in let f = rw e at ih in omega (arith, f)

days_of_months-snoc :
    (year n i : ℕ)
    → days_of_months year (suc n) i ≡ days_of_months year n i + days_by_table year (i + n)
days_of_months-snoc year zero i = let e : i + 0 ≡ i = omega arith in rw e (omega arith)
days_of_months-snoc year (suc n) i =
    let e : i + 1 + n ≡ i + suc n = omega arith in
    let ih = days_of_months-snoc year n (i + 1) in let f = rw e at ih in omega (arith, f)

days_of_year : (year : ℕ) → days_of_months year 11 1 + 31 ≡ 365 + (if leap_year year then 1 else 0)
days_of_year year = elim (Bool-cases (leap_year year)) [
  | inl leap ↦ rw leap refl
  | inr plain ↦ rw plain refl
]

-- A date from 1970 on
pub record IsDate (t : RtcTime) : Type 0 where
  pub epoch : 1970 ≤ t.year
  pub first_month : 1 ≤ t.month
  pub last_month : t.month ≤ 12
  pub first_day : 1 ≤ t.day
  pub last_day : t.day ≤ days_in t.year t.month

days-next_month :
    (t : RtcTime)
    → IsDate t
    → t.day ≡ days_by_table t.year t.month
    → days (record t { day = 1; month = t.month + 1 }) ≡ days t + 1
days-next_month t d last =
    let e : t.month + 1 - 1 ≡ suc (t.month - 1) = omega arith in
    let f : 1 + (t.month - 1) ≡ t.month = omega (arith, d.first_month) in
    let months = days_of_months-snoc t.year (t.month - 1) 1 in
    let m = rw f at months in rw e (omega (arith, m, last, d.first_day))

days-next_year :
    (t : RtcTime)
    → IsDate t
    → t.month ≡ 12
    → t.day ≡ 31
    → days (record t { day = 1; month = 1; year = t.year + 1 }) ≡ days t + 1
days-next_year t d month last =
    let e : t.year + 1 - 1970 ≡ suc (t.year - 1970) = omega (arith, d.epoch) in
    let f : 1970 + (t.year - 1970) ≡ t.year = omega (arith, d.epoch) in
    let years = leaps-snoc (t.year - 1970) 1970 in
    let y = rw f at years in
    let months = days_of_year t.year in rw (e, month) (omega (arith, y, months, last))

days-tomorrow : (t : RtcTime) → IsDate t → days (tomorrow t) ≡ days t + 1
days-tomorrow t d =
    let table =
      days_by_table-days_in t.year t.month (omega (arith, d.epoch)) d.first_month d.last_month in
    elim (dec_lt t.day (days_in t.year t.month)) [
      | yes within ↦ rw (lt→ltb t.day (days_in t.year t.month) within) (omega (arith, d.first_day))
      | no over ↦
          let last : t.day ≡ days_in t.year t.month = omega (arith, d.last_day, over) in
          let end = ge→ltb t.day (days_in t.year t.month) (omega (arith, over)) in
          elim (dec_lt t.month 12) [
            | yes lt ↦ rw (end, lt→ltb t.month 12 lt) (days-next_month t d (last ∙ sym table))
            | no ge ↦
                let month : t.month ≡ 12 = omega (arith, d.last_month) in
                rw (end, ge→ltb t.month 12 (omega (arith, month)))
                  (days-next_year t d month (last ∙ ap (days_in t.year) month))
          ]
    ]

tomorrow-seconds : (t : RtcTime) → seconds_of_day (tomorrow t) ≡ seconds_of_day t
tomorrow-seconds t = elim (Bool-cases (ltb t.day (days_in t.year t.month))) [
  | inl a ↦ rw a refl
  | inr a ↦ elim (Bool-cases (ltb t.month 12)) [ inl b ↦ rw (a, b) refl | inr b ↦ rw (a, b) refl ]
]

later_day :
    (n n' s s' : ℕ)
    → n' ≡ n + 1
    → s' ≡ s
    → (n' * secs_per_day + s') % word ≡ ((n * secs_per_day + s) % word + secs_per_day) % word
later_day n n' s s' e f = omega (arith, e, f)

-- The timestamp of the same time on the next day of the Gregorian calendar, from 1970 on, is a day
-- later, at the end of a month and of a year too, in 32 bits.
pub time_to_timestamp-tomorrow :
    (t : RtcTime)
    → IsDate t
    → time_to_timestamp (tomorrow t) ≡ (time_to_timestamp t + secs_per_day) % word
time_to_timestamp-tomorrow t d =
    let now = time_to_timestamp-days t in
    let next = time_to_timestamp-days (tomorrow t) in
    next
    ∙ later_day (days t) (days (tomorrow t)) (seconds_of_day t) (seconds_of_day (tomorrow t))
        (days-tomorrow t d) (tomorrow-seconds t)
    ∙ ap (λ v. (v + secs_per_day) % word) (sym now)
