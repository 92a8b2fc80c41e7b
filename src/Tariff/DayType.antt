-- ===== src/Tariff/DayType.antt =====
-- The types of a day: `GetDayTypeWithHE`, `GetDayTypeNoPE` and `GetDayType` of db.cpp.
use my_linux_pbs.Base.{
  ℕ, ◌+◌, Bool, false, ◌||◌, List, [], ◌∷◌, ◌==◌, if◌then◌else◌, Bytes, bytes_eq,
}
use my_linux_pbs.Clock.{civil, weekday_of, date_string}
use my_linux_pbs.Tariff.{Rates}

abbrev pub is_in : Bytes → List Bytes → Bool
is_in d [] = false
is_in d (h ∷ hs) = bytes_eq d h || is_in d hs

-- A holiday counts as 7, a Sunday, and the eve of one as 8, on the days from Monday to Friday.
unfoldable pub day_type_with_he : List Bytes → ℕ → ℕ
day_type_with_he hs t =
    let w = weekday_of (civil t) in
    if is_in (date_string t) hs
    then 7
    else if w == 6
    then w
    else if w == 7
    then w
    else if is_in (date_string (t + 86400)) hs
    then 8
    else w

-- A holiday counts as 8.
unfoldable pub day_type_no_pe : List Bytes → ℕ → ℕ
day_type_no_pe hs t = if is_in (date_string t) hs then 8 else weekday_of (civil t)

unfoldable pub get_day_type : Rates → ℕ → ℕ
get_day_type r t =
    if r.has_holiday_eve == 1 then day_type_with_he r.holidays t else day_type_no_pe r.holidays t
