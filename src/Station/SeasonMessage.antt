-- ===== src/Station/SeasonMessage.antt =====
-- `FormatSeasonMsg` and `CheckSeason` of operation.cpp.
use my_linux_pbs.Base.{
  ℕ, Bool, true, false, not, ◌&&◌, ◌||◌, [], ◌∷◌, ◌++◌, ltb, ◌==◌, if◌then◌else◌, drop, Bytes,
  codes, is_empty,
}
use my_linux_pbs.Base.Int.{ℤ, is_pos}
use my_linux_pbs.Station.State.{Station, waited}
use my_linux_pbs.Station.Op.{Op, continue, ◌then_op◌, call}
use my_linux_pbs.Station.Env.{
  Env, Message, season_passback, season_as_hourly, season_invalid, valid_season, season_expired,
  season_terminated, season_blocked, season_not_start, season_within_allowance, whole_day_parking,
  exit_season_invalid, exit_valid_season, exit_season_expired, exit_season_terminated,
  exit_season_blocked, exit_season_not_start, exit_season_within_allowance, master_season, is_entry,
}
use my_linux_pbs.Station.Barrier.{with_process}
use my_linux_pbs.Station.Display.{show_led_msg}
use my_linux_pbs.Station.SeasonType.{season_trans_type}

-- `s.find(pat)` and `s.replace(pos, pat.length(), by)` of the first place where `pat` stands.
starts_with : Bytes → Bytes → Bool
starts_with [] s = true
starts_with (p ∷ ps) [] = false
starts_with (p ∷ ps) (c ∷ s) = p == c && starts_with ps s

unfoldable pub replace_first : ℕ → Bytes → Bytes → Bytes → Bytes
unfolding starts_with
replace_first n pat by [] = if is_empty pat then by else []
replace_first n pat by (c ∷ s) =
    let rest = replace_first n pat by s in
    if starts_with pat (c ∷ s) then by ++ drop n (c ∷ s) else c ∷ rest

-- The texts that the `switch` picks, for the entry or the exit; `none` leaves them empty.
unfoldable pub season_text : Env → ℤ → Bytes × Bytes
season_text env r =
    let at = λ (e x : Message). if is_entry env.station_type then pair e else pair x in
    if is_pos r 0
    then at season_invalid exit_season_invalid
    else if is_pos r 1
    then at valid_season exit_valid_season
    else if is_pos r 2
    then at season_expired exit_season_expired
    else if is_pos r 3
    then at season_terminated exit_season_terminated
    else if is_pos r 4
    then at season_blocked exit_season_blocked
    else if is_pos r 5
    then at season_invalid exit_season_invalid
    else if is_pos r 6
    then at season_passback exit_season_blocked
    else if is_pos r 7
    then at season_not_start exit_season_not_start
    else if is_pos r 8
    then (codes "Wrong Season Type", codes "Wrong Season Type")
    else if is_pos r 9
    then (codes "Complimentary", codes "Complimentary")
    else if is_pos r 10
    then pair season_as_hourly
    else if is_pos r 11
    then at season_within_allowance exit_season_within_allowance
    else if is_pos r 12
    then pair master_season
    else if is_pos r 13
    then pair whole_day_parking
    else ([], [])
  where
    pair : Message → Bytes × Bytes
    pair m = (env.led m, env.lcd m)

-- The station's transaction type becomes that of the season.
unfoldable pub set_season_type : Env → Station → Station
set_season_type env s =
    let rate = env.season_rate_type in
    if is_entry env.station_type
    then record s {
      entry = record (s.entry) {
        trans_type = season_trans_type s.entry.vehicle_type rate s.entry.trans_type;
      };
    }
    else record s {
      exit = record (s.exit) {
        trans_type = season_trans_type s.exit.vehicle_type rate s.exit.trans_type;
      };
    }

unfoldable pub season_type_of : Env → Station → ℕ
season_type_of env s = if is_entry env.station_type then s.entry.trans_type else s.exit.trans_type

-- The word that stands for "Season" in the texts.
unfoldable pub partial_text : Env → ℕ → Bytes
partial_text env t =
    let msg = if ltb 49 t then env.partial_season_msg t else [] in
    if is_empty msg then codes "Season" else msg

-- The condition `iReturn = 1 && rate_type != 0` is an assignment: it does not look at `iReturn`, and
-- leaves the value of `1 && rate_type != 0` in it.
unfoldable pub assigned_return : ℕ → ℕ
assigned_return rate = if rate == 0 then 0 else 1

-- The two texts that are shown.
unfoldable pub shown_text : Env → ℤ → ℕ → Bytes × Bytes
shown_text env r t =
    let word = partial_text env t in
    let (led, lcd) = season_text env r in
    if assigned_return env.season_rate_type == 0
    then (replace_first 6 (codes "Season") word led, replace_first 6 (codes "Season") word lcd)
    else (word, word)

unfoldable pub season_delay : Env → Op
season_delay env s =
    if not (assigned_return env.season_rate_type == 1) || not (env.season_rate_type == 0)
    then continue s (waited 500 ∷ [])
    else continue s []

unfoldable pub format_season_msg : Env → ℤ → Op
unfolding season_delay
format_season_msg env r s =
    let s1 = set_season_type env s in
    let s2 = with_process s1 (record (s1.process) { show_type = 0 }) in
    let (led, lcd) = shown_text env r (season_type_of env s2) in
    (call (show_led_msg led lcd) then_op season_delay env) s2

-- `CheckSeason`: the answer for the number, shown on the way unless it is 8.
unfoldable pub check_season : Env → ℤ → Op
check_season env r s = if is_pos r 8 then continue s [] else call (format_season_msg env r) s

-- `s.find(pat) != npos`.
unfoldable pub contains : Bytes → Bytes → Bool
unfolding starts_with
contains pat [] = is_empty pat
contains pat (c ∷ s) = starts_with pat (c ∷ s) || contains pat s
