-- ===== src/Clock.antt =====
-- The moments of ce_time.cpp. A moment is the whole seconds of the local clock since the first of
-- January 1970, so its Julian day is `moment / 86400 + 2440588` and the rest is the time of day. The
-- source keeps the Julian day in a double, adds the microseconds of the clock at the call to it and cuts
-- off what is behind the point of an hour, a minute and a second, so that it can read a moment one
-- second early. Here a moment is exact, and the printing of a time of day is not modelled.
pub mod Julian
use my_linux_pbs.Base.{
  ℕ, ◌+◌, ◌-◌, ◌*◌, ◌/◌, ◌%◌, Bool, ◌&&◌, ◌||◌, Option, none, some, [], ◌∷◌, ◌++◌, map, ◌==◌, ltb,
  leb, if◌then◌else◌, length, take, drop, replicate, Bytes, codes,
}
use my_linux_pbs.Text.Decimal.{to_string}

pub record Civil : Type 0 where
  pub year : ℕ
  pub month : ℕ
  pub day : ℕ

-- The Julian day of a date of the Gregorian calendar.
abbrev pub g2j : ℕ → ℕ → ℕ → ℕ
g2j y m d =
    let a = (14 - m) / 12 in
    let y' = y + 4800 - a in
    let m' = m + 12 * a - 3 in
    d + (153 * m' + 2) / 5 + 365 * y' + y' / 4 - y' / 100 + y' / 400 - 32045

-- The years begin in March: `century` years, the year within them, and the day of that year.
abbrev pub century : ℕ → ℕ
century j = (4 * (j - 1721119) - 1) / 146097

abbrev pub century_day : ℕ → ℕ
century_day j = (4 * (j - 1721119) - 1 - 146097 * century j) / 4

abbrev pub century_year : ℕ → ℕ
century_year j = (4 * century_day j + 3) / 1461

abbrev pub year_day : ℕ → ℕ
year_day j = (4 * century_day j + 3 - 1461 * century_year j + 4) / 4

abbrev pub year_month : ℕ → ℕ
year_month j = (5 * year_day j - 3) / 153

unfoldable pub j2g : ℕ → Civil
j2g j =
    let m = year_month j in
    let y = 100 * century j + century_year j in
    record {
      year = if ltb m 10 then y else y + 1;
      month = if ltb m 10 then m + 3 else m - 9;
      day = (5 * year_day j - 3 - 153 * m + 5) / 5;
    }

abbrev pub day_of : ℕ → ℕ
day_of t = t / 86400

-- The Julian day of the epoch.
abbrev pub epoch : ℕ
epoch = 2440588

abbrev pub civil : ℕ → Civil
civil t = j2g (day_of t + epoch)

abbrev pub second : ℕ → ℕ
second t = t % 60

-- `diffmin(a, b) <= n` and `diffday(a, b) > 0`: the differences of the whole minutes and days.
abbrev pub within : ℕ → ℕ → ℕ → Bool
within a b n = leb (b / 60) (a / 60 + n)

abbrev pub is_later_day : ℕ → ℕ → Bool
is_later_day a b = ltb (day_of a) (day_of b)

-- `diffhour(a, b)`, which is used where `b` is not before `a`.
abbrev pub diffhour : ℕ → ℕ → ℕ
diffhour a b = b / 3600 - a / 3600

-- The days of the week from Monday, which is 1, by Zeller's congruence.
unfoldable pub weekday_of : Civil → ℕ
weekday_of c =
    let mon = if ltb 2 c.month then c.month else 12 + c.month in
    let year = if ltb 2 c.month then c.year else c.year - 1 in
    let y = year % 100 in
    let k = year / 100 in
    let w = (c.day + 13 * (mon + 1) / 5 + y + y / 4 + k / 4 + 5 * k) % 7 in
    if w == 0 then 6 else if w == 1 then 7 else w - 1

-- A number with zeros before it.
abbrev pub zero_padded : ℕ → ℕ → Bytes
zero_padded w n = let s = to_string n in replicate (w - length s) b'0' ++ s

unfoldable pub date_string : ℕ → Bytes
date_string t =
    let c = civil t in
    zero_padded 4 c.year ++ codes "-" ++ zero_padded 2 c.month ++ codes "-" ++ zero_padded 2 c.day

abbrev pub is_digit_code : ℕ → Bool
is_digit_code c = leb b'0' c && leb c b'9'

abbrev pub chk_num_str : Bytes → Bytes
chk_num_str [] = []
chk_num_str (c ∷ s) = if is_digit_code c then c ∷ chk_num_str s else chk_num_str s

-- `stol` of digits.
abbrev pub number_from : ℕ → Bytes → ℕ
number_from acc [] = acc
number_from acc (c ∷ s) = number_from (10 * acc + (c - b'0')) s

abbrev pub field : Bytes → ℕ → ℕ → ℕ
field s i n = number_from 0 (take n (drop i s))

-- `mktime` of a year, a month from 1, a day, an hour, a minute and a second.
abbrev pub MakeTime : Type 0
MakeTime = ℕ → ℕ → ℕ → ℕ → ℕ → ℕ → ℕ

-- A field out of its range is replaced.
unfoldable pub set_fields : MakeTime → ℕ → ℕ → ℕ → ℕ → ℕ → ℕ → ℕ
set_fields mktime y m d h n s =
    let y' = if y == 0 then 0 else if ltb y 2000 || ltb 9999 y then 2000 else y in
    let m' = if ltb 12 m then 0 else m in
    let m'' = if (y' == 0) && ltb m' 1 then 1 else m' in
    let d' = if ltb d 1 || ltb 31 d then 1 else d in
    let h' = if ltb 24 h then 0 else h in
    let n' = if leb 60 n then 0 else n in
    let s' = if leb 61 s then 0 else s in mktime y' m'' d' h' n' s'

-- The digits of a text as fields; the moment stays where there are not 14 or 17 of them.
unfoldable pub set_time : MakeTime → ℕ → Bytes → ℕ
set_time mktime old text =
    let s = chk_num_str text in
    if (length s == 14) || (length s == 17)
    then set_fields mktime (field s 0 4) (field s 4 2) (field s 6 2) (field s 8 2) (field s 10 2)
        (field s 12 2)
    else old
