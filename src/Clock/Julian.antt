-- ===== src/Clock/Julian.antt =====
-- The conversions of a date and its Julian day, `g2j` and `j2g` of ce_time.cpp.
use my_linux_pbs.Base.{
  not, ◌&&◌, ◌||◌, ◌==◌, ◌⊎◌, ℕ, ◌+◌, ◌-◌, ◌*◌, ◌/◌, ◌%◌, ◌≤◌, ◌<◌, Bool, ◌≡◌, refl, ap, ◌∙◌, ltb,
  if◌then◌else◌, arith,
}
use my_linux_pbs.Clock.{Civil, g2j, century, century_day, century_year, year_day, j2g}

-- The last day of a March year, from 0: a year before a leap day has one more.
abbrev IsDay : ℕ → ℕ → ℕ → Type 0
IsDay q r x = (x < 365) ⊎ (x ≡ 365) × (r % 4 ≡ 3) × ((r < 99) ⊎ (q % 4 ≡ 3))

-- The Julian day of day `x` of year `r` of century `q`.
abbrev march : ℕ → ℕ → ℕ → ℕ
march q r x = 1721119 + (x + 1 + 36524 * q + q / 4 + 365 * r + r / 4)

century-march : (q r x : ℕ) → r < 100 → IsDay q r x → century (march q r x) ≡ q
century-march q r x hr hx = omega arith

century_day-march :
    (q r x : ℕ) → r < 100 → IsDay q r x → century_day (march q r x) ≡ x + 365 * r + r / 4
century_day-march q r x hr hx = rw (century-march q r x hr hx) (omega arith)

century_year-march : (q r x : ℕ) → r < 100 → IsDay q r x → century_year (march q r x) ≡ r
century_year-march q r x hr hx = rw (century_day-march q r x hr hx) (omega arith)

year_day-march : (q r x : ℕ) → r < 100 → IsDay q r x → year_day (march q r x) ≡ x + 1
year_day-march q r x hr hx =
    rw (century_year-march q r x hr hx, century_day-march q r x hr hx) (omega arith)

-- The day of the March year on which month `k` begins.
abbrev month_start : ℕ → ℕ
month_start k = (153 * k + 2) / 5

civil_of : ℕ → ℕ → ℕ → Civil
civil_of q r yd =
    let m = (5 * yd - 3) / 153 in
    record {
      year = if ltb m 10 then 100 * q + r else 100 * q + r + 1;
      month = if ltb m 10 then m + 3 else m - 9;
      day = (5 * yd - 3 - 153 * m + 5) / 5;
    }

j2g-parts : (j : ℕ) → j2g j ≡ civil_of (century j) (century_year j) (year_day j)
unfolding j2g civil_of
j2g-parts j = refl

month_within :
    (k d : ℕ)
    → k < 12
    → 1 ≤ d
    → month_start k + d ≤ month_start (k + 1)
    → (5 * (month_start k + d - 1 + 1) - 3) / 153 ≡ k
month_within k d hk hd hl = omega arith

civil_of-month :
    (q r k d : ℕ)
    → k < 12
    → 1 ≤ d
    → month_start k + d ≤ month_start (k + 1)
    → civil_of q r (month_start k + d - 1 + 1) ≡ record {
      year = if ltb k 10 then 100 * q + r else 100 * q + r + 1;
      month = if ltb k 10 then k + 3 else k - 9;
      day = d;
    }
unfolding civil_of
civil_of-month q r k d hk hd hl = rw (month_within k d hk hd hl) (rw day_is refl)
  where
    day_is : (5 * (month_start k + d - 1 + 1) - 3 - 153 * k + 5) / 5 ≡ d
    day_is = omega arith

j2g-march : (q r x : ℕ) → r < 100 → IsDay q r x → j2g (march q r x) ≡ civil_of q r (x + 1)
j2g-march q r x hr hx =
    j2g-parts (march q r x)
    ∙ ap (λ c. civil_of c (century_year (march q r x)) (year_day (march q r x)))
        (century-march q r x hr hx)
    ∙ ap (λ y. civil_of q y (year_day (march q r x))) (century_year-march q r x hr hx)
    ∙ ap (civil_of q r) (year_day-march q r x hr hx)

abbrev pub has_leap_day : ℕ → Bool
has_leap_day y = (y % 400 == 0) || (y % 4 == 0) && not (y % 100 == 0)

-- The long months are the odd ones up to July and the even ones from August.
abbrev pub month_length : ℕ → ℕ → ℕ
month_length y m =
    let february = if has_leap_day y then 29 else 28 in
    if m == 2 then february else 30 + (m + m / 8) % 2

-- A date of the calendar.
pub record IsDate (c : Civil) : Type 0 where
  pub year_in : 1 ≤ c.year
  pub month_in : (1 ≤ c.month) × (c.month ≤ 12)
  pub day_in : (1 ≤ c.day) × (c.day ≤ month_length c.year c.month)

-- Both directions of a month of the March year.
abbrev march_year : Civil → ℕ
march_year c = c.year - (14 - c.month) / 12

abbrev march_month : Civil → ℕ
march_month c = c.month + 12 * ((14 - c.month) / 12) - 3

g2j-march :
    (c : Civil)
    → IsDate c
    → g2j c.year c.month c.day
      ≡ march (march_year c / 100) (march_year c % 100) (month_start (march_month c) + c.day - 1)
g2j-march c v =
    let ha = v.year_in in let (hb, hc) = v.month_in in let hd = v.day_in.0 in omega arith

in_month :
    (c : Civil)
    → IsDate c
    → (march_month c < 12)
      × (month_start (march_month c) + c.day ≤ month_start (march_month c + 1))
      × IsDay (march_year c / 100) (march_year c % 100) (month_start (march_month c) + c.day - 1)
in_month c v =
    let (hb, hc) = v.month_in in
    let (hd, he) = v.day_in in let ha = v.year_in in (omega arith, ground arith, ground arith)

-- `j2g` finds the date of every Julian day that `g2j` gives.
pub j2g-g2j : (c : Civil) → IsDate c → j2g (g2j c.year c.month c.day) ≡ c
j2g-g2j c v =
    let (hk, hl, hx) = in_month c v in
    let (hb, hc) = v.month_in in
    let ha = v.year_in in
    let x = month_start (march_month c) + c.day - 1 in
    ap j2g (g2j-march c v)
    ∙ j2g-march (march_year c / 100) (march_year c % 100) x (omega arith) hx
    ∙ civil_of-month (march_year c / 100) (march_year c % 100) (march_month c) c.day hk v.day_in.0
        hl
    ∙ ground arith

-- The month and the day of a March year's day lie in their ranges, and give the day again.
civil_of_range :
    (q r yd : ℕ)
    → 1 ≤ yd
    → yd ≤ 366
    → (1 ≤ (civil_of q r yd).month)
      × ((civil_of q r yd).month ≤ 12)
      × (1 ≤ (civil_of q r yd).day)
      × ((civil_of q r yd).day ≤ 31)
unfolding civil_of
civil_of_range q r yd hl hu = ground arith

month_start-day :
    (yd : ℕ)
    → 1 ≤ yd
    → (5 * yd - 3 - 153 * ((5 * yd - 3) / 153) + 5) / 5 + month_start ((5 * yd - 3) / 153) ≡ yd
month_start-day yd hl = omega arith

-- The Julian day of month `k` and day `d` of a March year.
g2j-month :
    (y k d : ℕ)
    → k < 12
    → g2j (if ltb k 10 then y else y + 1) (if ltb k 10 then k + 3 else k - 9) d
      ≡ 1721119 + (d + month_start k) + 365 * y + y / 4 - y / 100 + y / 400
g2j-month y k d h = ground arith

g2j-civil_of :
    (q r yd : ℕ)
    → r < 100
    → 1 ≤ yd
    → yd ≤ 366
    → g2j (civil_of q r yd).year (civil_of q r yd).month (civil_of q r yd).day ≡ march q r (yd - 1)
unfolding civil_of
g2j-civil_of q r yd hr hl hu =
    let k = (5 * yd - 3) / 153 in
    g2j-month (100 * q + r) k ((5 * yd - 3 - 153 * k + 5) / 5) (omega arith)
    ∙ rw (month_start-day yd hl) (omega arith)

-- The parts of a Julian day are a day of the March calendar.
module _ (j : ℕ) (h : 1721119 < j) where
  parts_in :
      (century_year j < 100)
      × (1 ≤ year_day j)
      × (year_day j ≤ 366)
      × (march (century j) (century_year j) (year_day j - 1) ≡ j)
  parts_in = omega arith

  -- Every Julian day has a month of the twelve and a day within 31.
  pub j2g_range :
      (1 ≤ (j2g j).month) × ((j2g j).month ≤ 12) × (1 ≤ (j2g j).day) × ((j2g j).day ≤ 31)
  j2g_range =
      let (hr, hl, hu, e) = parts_in in
      rw (j2g-parts j) (civil_of_range (century j) (century_year j) (year_day j) hl hu)

  -- `g2j` finds every Julian day from the date that `j2g` gives.
  pub g2j-j2g : g2j (j2g j).year (j2g j).month (j2g j).day ≡ j
  g2j-j2g =
      let (hr, hl, hu, e) = parts_in in
      rw (j2g-parts j) (g2j-civil_of (century j) (century_year j) (year_day j) hr hl hu ∙ e)
