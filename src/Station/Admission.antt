-- ===== src/Station/Admission.antt =====
-- The entry lane: `SaveEntry` and `PBSEntry` of operation.cpp.
pub mod Opening
pub mod Admitted
pub mod ShowType
use my_linux_pbs.Base.{
  ℕ, ◌+◌, ◌≡◌, refl, Bool, true, false, not, ◌&&◌, ◌||◌, List, [], ◌∷◌, ◌++◌, arith, ltb, ◌==◌,
  if◌then◌else◌, take, length, Bytes, codes, is_empty,
}
use my_linux_pbs.Base.Int.{ℤ, pos, negsuc, is_pos}
use my_linux_pbs.Text.Decimal.{to_string}
use my_linux_pbs.Station.State.{Station, Process, Entry, entry_inserted, to_server}
use my_linux_pbs.Station.Op.{Op, continue, return, ◌then_op◌, call, stop_if, go_on, finish}
use my_linux_pbs.Station.Env.{
  Env, black_list, lock_station, season_only, season_passback, season_as_hourly, with_iu,
}
use my_linux_pbs.Station.Barrier.{with_process, open_barrier}
use my_linux_pbs.Station.Display.{show_led_msg, show, send_to_server}
use my_linux_pbs.Station.Vehicle.{v_type, vehicle_class}
use my_linux_pbs.Station.SeasonMessage.{check_season, contains}

abbrev pub with_entry : Station → Entry → Station
with_entry s e = record s { entry = e }

-- iDBSuccess is 0, iCentralFail is -2.
abbrev pub is_central_fail : ℤ → Bool
is_central_fail (pos n) = false
is_central_fail (negsuc n) = n == 1

-- The plate of the camera that looks at the vehicle: the rear one for a motorcycle.
unfoldable pub lpn_of : ℕ → Bytes → Bytes → Bytes
lpn_of t front rear =
    if is_empty front && is_empty rear
    then []
    else if t == 7 || t == 8 || t == 22
    then rear
    else front

unfoldable pub db_error_of : ℤ → ℤ
db_error_of r = if is_pos r 0 then pos 0 else if is_central_fail r then negsuc 0 else negsuc 1

unfoldable pub entry_report : ℤ → Entry → ℕ → Bytes
entry_report r e show_type =
    e.iu_tk_no
    ++ codes ",,,"
    ++ lpn_of e.trans_type e.lpn_front e.lpn_rear
    ++ codes ","
    ++ to_string show_type
    ++ codes ","
    ++ (if is_pos r 0
        then codes "Entry OK"
        else if is_central_fail r
        then codes "Entry Central Failed"
        else codes "Entry Local Failed")

unfoldable pub save_entry : Env → Op
save_entry env s =
    let r = env.insert_entry s.entry in
    let p = s.process in
    if is_empty s.entry.iu_tk_no
    then return s []
    else continue
        (with_process s (record p {
          last_iu_no = if is_pos r 0 then s.entry.iu_tk_no else p.last_iu_no;
          last_iu_entry_time = if is_pos r 0 then env.now else p.last_iu_entry_time;
          db_error = db_error_of r;
          saved_trans = true;
        }))
        (entry_inserted s.entry
          ∷ (if s.entry.status == 0
              then to_server (codes "90") (entry_report r s.entry p.show_type) ∷ []
              else []))

-- The first lines of `PBSEntry`: the number and the time are kept also when it is empty.
unfoldable pub entry_started : Env → Bytes → Op
entry_started env iu s =
    let t = with_entry s (record (s.entry) { iu_tk_no = iu; entry_time = env.now_text }) in
    if is_empty iu
    then return t []
    else continue t (
        to_server (codes "90")
          (codes "," ++ iu ++ codes ",," ++ s.entry.lpn_front ++ codes ",,PMS_DVR")
        ∷ [])

-- The answer is the type of a black-list row; -1 is no row. Only the type 0 turns the vehicle away.
unfoldable pub black_list_answer : Env → Bytes → ℤ → Op
black_list_answer env iu (negsuc n) = go_on
black_list_answer env iu (pos n) =
    call (show env black_list)
    then_op send_to_server (codes "90") (iu ++ codes ",,,,,Blacklist IU")
    then_op stop_if (n == 0)

unfoldable pub black_list_check : Env → Bytes → Op
black_list_check env iu = black_list_answer env iu (env.is_black_list iu)

-- A message and a return where `stop` holds.
unfoldable pub turn_away : Bool → Op → Op
turn_away true shown = call shown then_op finish
turn_away false shown = go_on

-- `gsBlockIUPrefix.find(sIU.substr(0, 3))` and a number of ten bytes.
unfoldable pub is_blocked : Env → Bytes → Bool
is_blocked env iu = contains (take 3 iu) env.block_iu_prefix && length iu == 10

unfoldable pub block_report : Bytes → Op
block_report iu =
    show_led_msg (codes "Lorry No Entry^Pls Reverse") (codes "Lorry No Entry^Pls Reverse")
    then_op send_to_server (codes "90") (iu ++ codes ",,,,,Block IU")

unfoldable pub block_check : Env → Bytes → Op
block_check env iu = turn_away (is_blocked env iu) (block_report iu)

unfoldable pub set_trans_type : Env → Op
set_trans_type env s = continue (with_entry s (record (s.entry) { trans_type = v_type env })) []

unfoldable pub set_vehicle_type : Op
set_vehicle_type s =
    continue (with_entry s (record (s.entry) { vehicle_type = vehicle_class s.entry.trans_type }))
      []

unfoldable pub set_show_type : Bool → ℕ → Op
set_show_type when n s =
    if when
    then continue (with_process s (record (s.process) { show_type = n })) []
    else continue s []

unfoldable pub show_if : Bool → Op → Op
show_if true shown = call shown
show_if false shown = go_on

unfoldable pub both : Bytes → Op
both text = show_led_msg text text

unfoldable pub passback_report : Env → Bytes → Op
passback_report env iu =
    send_to_server (codes "90") (iu ++ codes ",,,,,Season Passback")
    then_op call (show env season_passback)

-- The tests on the season answer `r`, up to the last `return`.
unfoldable pub season_tests : Env → Bytes → ℤ → Op
season_tests env iu r =
    turn_away
      (env.carpark_full
        && (is_pos r 1 && (not (env.season_rate_type == 0) && env.full_action == 2)))
      (both (codes "Carpark Full!^VIP Season Only"))
    then_op turn_away (ltb 0 env.season_only_ini && not (is_pos r 1)) (show env season_only)
    then_op turn_away (env.carpark_full && not (is_pos r 1))
        (both (codes "Carpark Full!^Season only"))
    then_op turn_away (is_pos r 6 && length iu == 16) (passback_report env iu)

-- The messages and show types behind them.
unfoldable pub season_shown : Env → ℤ → Op
season_shown env r =
    set_show_type (is_pos r 1 || is_pos r 4 || is_pos r 6) 0
    then_op show_if (is_pos r 10) (show env season_as_hourly)
    then_op set_show_type (is_pos r 10) 2
    then_op show_if (not (is_pos r 1)) (show env with_iu)
    then_op set_show_type (not (is_pos r 1)) 1

unfoldable pub set_entry_ok : Op
set_entry_ok s = continue (with_entry s (record (s.entry) { entry_ok = true })) []

unfoldable pub pbs_entry : Env → Bytes → Op
unfolding entry_started black_list_answer black_list_check is_blocked block_report block_check
    set_trans_type turn_away set_vehicle_type set_show_type show_if both passback_report
    season_tests season_shown set_entry_ok
pbs_entry env iu =
    let r = env.is_valid_season iu 1 in
    call (
      entry_started env iu
      then_op black_list_check env iu
      then_op block_check env iu
      then_op set_trans_type env
      then_op turn_away (env.carpark_full && env.full_action == 3) (show env lock_station)
      then_op set_vehicle_type
      then_op check_season env r
      then_op season_tests env iu r
      then_op season_shown env r
      then_op call (save_entry env)
      then_op set_entry_ok
      then_op open_barrier)
