-- ===== src/Station/Departure.antt =====
-- The way of a vehicle through the exit: `PBSExit` of operation.cpp.
pub mod Check
pub mod Safe
pub mod Charged
pub mod Past
pub mod Unpaid
pub mod Again
use my_linux_pbs.Base.{
  ℕ, Bool, true, false, not, ◌&&◌, ◌||◌, Option, none, some, List, [], ◌∷◌, ◌++◌, ◌==◌, ltb,
  if◌then◌else◌, take, Bytes, bytes_eq, codes, is_empty,
}
use my_linux_pbs.Base.Int.{ℤ, pos, negsuc, is_pos, ltb_ℤ, ◌+ℤ◌, ◌-ℤ◌}
use my_linux_pbs.Text.Fee.{set_fee_format}
use my_linux_pbs.Plate.Matching.{EntryRecord, Score, partial_match}
use my_linux_pbs.Tariff.Periods.{bytes_lt}
use my_linux_pbs.Station.State.{Station, Exit, Money, waited, pay_requested}
use my_linux_pbs.Station.Op.{Op, continue, return, ◌then_op◌, call, go_on, stop_if, finish}
use my_linux_pbs.Station.Env.{Env, exit_black_list}
use my_linux_pbs.Station.Barrier.{enable_cashcard}
use my_linux_pbs.Station.Display.{show, show_led_msg, send_to_server}
use my_linux_pbs.Station.Vehicle.{v_type, vehicle_class}
use my_linux_pbs.Station.SeasonMessage.{check_season}
use my_linux_pbs.Station.Admission.{turn_away, is_blocked}
use my_linux_pbs.Station.Exit.{
  with_exit, is_minus_one, free_parking, season_parking, close_exit_operation,
}
use my_linux_pbs.Station.Fee.{at_least_0, redeem_time_to_amt, show_fee_to_user, wait_ms}
use my_linux_pbs.Station.Found.{Queries, entry_found}

-- A change of the exit record.
unfoldable pub set_exit : (Exit → Exit) → Op
set_exit f s = continue (with_exit s (f s.exit)) []

-- An operation that reads the exit record.
abbrev pub from_exit : (Exit → Op) → Op
from_exit f s = f s.exit s

unfoldable pub set_number : Bytes → Op
set_number iu s = continue (with_exit s (record (s.exit) { iu_no = iu })) []

unfoldable pub find_entry : Queries → Bytes → Op
find_entry q iu s = continue (with_exit s (entry_found q iu s.exit)) []

unfoldable pub black_list_exit : Env → Bytes → ℤ → Op
black_list_exit env iu (negsuc n) = go_on
black_list_exit env iu (pos n) =
    call (show env exit_black_list)
    then_op send_to_server (codes "90") (iu ++ codes ",,,,,Blacklist IU")
    then_op stop_if (n == 0)

abbrev pub both_lines : Bytes → Op
both_lines text = show_led_msg text text

unfoldable pub block_exit : Env → Bytes → Op
block_exit env iu = turn_away (is_blocked env iu) (
    both_lines (codes "Lorry No Exit^Pls Reverse")
    then_op send_to_server (codes "90") (iu ++ codes ",,,,,Block IU"))

unfoldable pub classed : Env → Exit → Exit
classed env x = record x { trans_type = v_type env; vehicle_type = vehicle_class (v_type env) }

-- The season answers 1, 9 and 12 let a vehicle out.
abbrev pub is_season_answer : ℤ → Bool
is_season_answer r = is_pos r 1 || is_pos r 12 || is_pos r 9

unfoldable pub season_free : Env → ℤ → Exit → Exit
season_free env r x = record x {
  trans_type = if is_pos r 9 then 10 else x.trans_type;
  fee = pos 0;
  paid_amt = pos 0;
  exit_time = env.now_text;
}

-- A part that ends `PBSExit` where the test holds.
unfoldable pub ends_if : Bool → Op → Op
ends_if true f = f then_op finish
ends_if false f = go_on

unfoldable pub season_exit : Env → ℤ → Exit → Op
season_exit env r x =
    ends_if (is_season_answer r && ((env.season_charge == 0) || is_pos x.no_entry_record 1))
      (set_exit (season_free env r) then_op call (close_exit_operation env season_parking))

-- A redeemed ticket that has no amount is complimentary.
abbrev pub is_complimentary : Exit → Bool
is_complimentary x = not (is_empty x.redeem_no) && is_pos x.redeem_amt 0

unfoldable pub complimented : Exit → Exit
complimented x = record x { trans_type = 10; paid_amt = pos 0; card_no = x.redeem_no }

unfoldable pub complimentary_exit : Env → Bytes → Op
complimentary_exit env text =
    set_exit complimented
    then_op both_lines text
    then_op call (close_exit_operation env free_parking)
    then_op enable_cashcard false

unfoldable pub no_entry_message : Bytes → Op
no_entry_message iu =
    send_to_server (codes "07") iu then_op both_lines (codes "No Entry Record^Press Intercom")

unfoldable pub auto_debited : Env → Queries → Exit → Exit
auto_debited env q x = record x { fee = q.auto_amount; exit_time = env.now_text }

-- No entry record: a complimentary ticket, or the automatic debit, or nothing.
unfoldable pub without_entry : Env → Queries → Bytes → Exit → Op
without_entry env q iu x =
    ends_if (is_complimentary x) (complimentary_exit env (codes "No Entry Record^Compl Ticket"))
    then_op ends_if (not (ltb_ℤ (pos 0) q.auto_debit)) (no_entry_message iu)
    then_op set_exit (auto_debited env q)

-- The season begins behind the entry, or ended behind it.
abbrev pub starts_later : Env → ℤ → Exit → Bool
starts_later env r x =
    is_pos r 1 && (env.season_rate_type == 0) && bytes_lt x.entry_time env.season_date_from

abbrev pub ended_since : Env → ℤ → Exit → Bool
ended_since env r x = is_pos r 2 && bytes_lt x.entry_time env.season_date_to

unfoldable pub fee_of : Env → ℤ → Exit → Money
fee_of env r x =
    if is_pos r 1 && not (env.season_rate_type == 0)
    then env.fee_between x.entry_time env.now_text env.season_rate_type
    else if starts_later env r x
    then env.fee_between x.entry_time env.season_date_from x.vehicle_type
    else if ended_since env r x
    then env.fee_between env.season_date_to env.now_text x.vehicle_type
    else env.fee_between x.entry_time env.now_text x.vehicle_type

unfoldable pub charged_fee : Env → ℤ → Exit → Exit
unfolding fee_of
charged_fee env r x = record x {
  exit_time = env.now_text;
  parked_time = env.parked_minutes x.entry_time env.now_text;
  fee = fee_of env r x;
}

unfoldable pub show_season_date : Bool → Bytes → Op
show_season_date true text = both_lines text then_op wait_ms 500
show_season_date false text = go_on

unfoldable pub season_dates : Env → ℤ → Exit → Op
unfolding show_season_date
season_dates env r x =
    show_season_date (starts_later env r x)
      (codes "Season Start On^" ++ take 16 env.season_date_from)
    then_op show_season_date (ended_since env r x)
        (codes "Season Expire On^" ++ take 16 env.season_date_to)

-- A season for the whole day; the answer 1 has become 8 where the season starts later.
abbrev pub is_whole_day : Env → ℤ → Exit → Bool
is_whole_day env r x =
    is_pos r 1 && (env.season_rate_type == 0) && not (starts_later env r x)
    || is_pos r 9
    || is_pos r 12

unfoldable pub season_closed : ℤ → Exit → Exit
season_closed r x = record x {
  trans_type = if is_pos r 9 then 10 else x.trans_type;
  paid_amt = pos 0;
}

unfoldable pub with_entry_record : Env → ℤ → Exit → Op
with_entry_record env r x =
    set_exit (charged_fee env r)
    then_op season_dates env r x
    then_op ends_if (is_whole_day env r x)
        (set_exit (season_closed r) then_op call (close_exit_operation env season_parking))

unfoldable pub fee_known : Env → Queries → Bytes → ℤ → Exit → Op
fee_known env q iu r x =
    if is_pos x.no_entry_record 1 then without_entry env q iu x else with_entry_record env r x

-- What is left to pay behind the redemption.
unfoldable pub due : Env → Exit → Exit
due env x =
    let y = if ltb 0 x.redeem_time then redeem_time_to_amt env x else x in
    record y { paid_amt = at_least_0 (y.fee -ℤ y.rebate_amt -ℤ y.redeem_amt +ℤ y.owe_amt) }

unfoldable pub compl_text : Bytes
compl_text = codes "Fee: RM" ++ set_fee_format (pos 0) ++ codes "^Compl Ticket"

unfoldable pub request_payment : Op
request_payment s = continue s (pay_requested s.exit.paid_amt s.process.trans_id ∷ [])

unfoldable pub pay_or_close : Env → Exit → Op
pay_or_close env x =
    if is_complimentary x
    then complimentary_exit env compl_text
    else if ltb_ℤ (pos 0) x.paid_amt
    then request_payment
    else call (close_exit_operation env free_parking)

unfoldable pub pay_exit : Env → Op
unfolding pay_or_close
pay_exit env =
    set_exit (due env) then_op call (show_fee_to_user env) then_op from_exit (pay_or_close env)

unfoldable pub exit_rest : Env → Queries → Bytes → Op
unfolding black_list_exit block_exit find_entry classed season_exit fee_known pay_exit
exit_rest env q iu =
    let r = env.is_valid_season iu 2 in
    black_list_exit env iu (env.is_black_list iu)
    then_op block_exit env iu
    then_op find_entry q iu
    then_op set_exit (classed env)
    then_op check_season env r
    then_op from_exit (season_exit env r)
    then_op from_exit (fee_known env q iu r)
    then_op pay_exit env

unfoldable pub exit_steps : Env → Queries → Bytes → Op
unfolding set_number exit_rest
exit_steps env q iu = set_number iu then_op exit_rest env q iu

-- A number that is being served is not served again.
unfoldable pub pbs_exit : Env → Queries → Bytes → Op
unfolding exit_steps
pbs_exit env q iu s =
    if bytes_eq iu s.exit.iu_no then continue s [] else call (exit_steps env q iu) s
