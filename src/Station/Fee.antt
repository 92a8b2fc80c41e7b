-- ===== src/Station/Fee.antt =====
-- What is due at an exit: `RedeemTime2Amt`, `showFee2User` and `ReceivedEntryRecord` of
-- operation.cpp. Amounts are whole cents, which `GfeeFormat` rounds to.
pub mod Settled
use my_linux_pbs.Base.{
  ℕ, ◌*◌, Bool, true, false, [], ◌∷◌, ◌++◌, ◌==◌, ltb, if◌then◌else◌, Bytes, codes, is_empty,
}
use my_linux_pbs.Base.Int.{ℤ, pos, is_pos, leb_ℤ, ltb_ℤ, ◌+ℤ◌, ◌-ℤ◌}
use my_linux_pbs.Text.Decimal.{to_string}
use my_linux_pbs.Text.Fee.{set_fee_format, cal_parked_time}
use my_linux_pbs.Station.State.{Station, Exit, Money, waiting_card, to_server, waited}
use my_linux_pbs.Station.Op.{Op, continue, ◌then_op◌, call, go_on}
use my_linux_pbs.Station.Env.{Env, no_card}
use my_linux_pbs.Station.Barrier.{enable_cashcard}
use my_linux_pbs.Station.Display.{show_led_msg, send_to_server}
use my_linux_pbs.Station.Exit.{with_exit, free_parking, close_exit_operation}

abbrev pub at_least_0 : Money → Money
at_least_0 n = if ltb_ℤ n (pos 0) then pos 0 else n

-- The clock that `RedeemTime2Amt` takes for the exit.
unfoldable pub exit_clock : Env → Exit → Bytes
exit_clock env x = if is_empty x.exit_time then env.now_text else x.exit_time

-- No entry record: the fee of the redeemed minutes that end at the exit.
unfoldable pub redeem_without_entry : Env → Exit → Exit
redeem_without_entry env x =
    let clock = exit_clock env x in
    record x {
      redeem_amt =
          env.fee_between (env.time_after clock (pos 0 -ℤ pos x.redeem_time)) clock x.vehicle_type;
    }

-- The parked time is counted if it is 0.
unfoldable pub with_parked_time : Env → Exit → Exit
with_parked_time env x =
    if is_pos x.parked_time 0
    then record x { parked_time = env.parked_minutes x.entry_time (exit_clock env x) }
    else x

-- The fee of the first `redeem_time` minutes. Where that is the whole fee, which happens within one
-- block, the fee of the rest is taken off.
unfoldable pub redeem_part : Env → Exit → Money
redeem_part env x =
    let until = env.time_after x.entry_time (pos x.redeem_time) in
    let part = env.fee_between x.entry_time until x.vehicle_type in
    let rest = env.fee_between until (exit_clock env x) x.vehicle_type in
    if is_pos (x.fee -ℤ part) 0
    then if ltb_ℤ (pos 0) rest then at_least_0 (part -ℤ rest) else part
    else part

unfoldable pub redeem_with_entry : Env → Exit → Exit
redeem_with_entry env x =
    let y = with_parked_time env x in
    record y {
      redeem_amt = if leb_ℤ y.parked_time (pos y.redeem_time) then y.fee else redeem_part env y;
    }

unfoldable pub redeem_time_to_amt : Env → Exit → Exit
redeem_time_to_amt env x =
    if ltb_ℤ (pos 0) x.redeem_amt
    then x
    else if ltb 0 x.redeem_time
    then if is_pos x.no_entry_record 0 then redeem_with_entry env x else redeem_without_entry env x
    else x

-- What is left to pay.
unfoldable pub fee_to_pay : Exit → Money
fee_to_pay x = at_least_0 (x.fee -ℤ x.redeem_amt -ℤ x.rebate_amt +ℤ x.owe_amt)

unfoldable pub fee_text : Env → Money → Bytes
fee_text env due =
    if ltb_ℤ (pos 0) due
    then codes "Fee:RM" ++ set_fee_format due ++ codes "^" ++ env.led no_card
    else codes "Free parking^Have a nice day!"

unfoldable pub entry_clock : Env → Bytes → Bytes
entry_clock env t = if is_empty t then codes "00:00" else env.hour_minute t

unfoldable pub fee_report : Env → Exit → ℕ → Bytes
fee_report env x show_type =
    x.iu_no
    ++ codes ", E="
    ++ entry_clock env x.entry_time
    ++ codes "~T="
    ++ cal_parked_time x.parked_time
    ++ codes ","
    ++ set_fee_format (fee_to_pay x)
    ++ codes ",,"
    ++ to_string show_type
    ++ codes ",Fee OK"

unfoldable pub wait_ms : ℕ → Op
wait_ms n s = continue s (waited n ∷ [])

unfoldable pub show_fee_led : Env → Op
show_fee_led env s = let m = fee_text env (fee_to_pay s.exit) in show_led_msg m m s

unfoldable pub report_fee : Env → Op
report_fee env s = send_to_server (codes "90") (fee_report env s.exit s.process.show_type) s

unfoldable pub set_paid : Op
set_paid s = continue (with_exit s (record (s.exit) { paid_amt = fee_to_pay s.exit })) []

unfoldable pub show_fee_to_user : Env → Op
unfolding wait_ms show_fee_led report_fee set_paid
show_fee_to_user env = wait_ms 1000 then_op show_fee_led env then_op report_fee env then_op set_paid

-- The record with its fee, its redemption and what is to pay.
unfoldable pub priced : Env → Exit → Exit
priced env x =
    let y = record x {
      exit_time = env.now_text;
      fee = env.fee_between x.entry_time env.now_text x.vehicle_type;
    } in
    let z = if ltb 0 y.redeem_time then redeem_time_to_amt env y else y in
    record z { paid_amt = at_least_0 (z.fee -ℤ z.rebate_amt -ℤ z.redeem_amt +ℤ z.owe_amt) }

unfoldable pub price : Env → Op
price env s = continue (with_exit s (priced env s.exit)) []

unfoldable pub wait_for_card : Op
wait_for_card s = continue (with_exit s (record (s.exit) { deduction_status = waiting_card })) []

-- A positive amount waits for a card, and nothing to pay closes the exit.
unfoldable pub settle : Env → Bool → Op
settle env true = wait_for_card then_op enable_cashcard true
settle env false = close_exit_operation env free_parking

unfoldable pub settle_paid : Env → Op
settle_paid env s = settle env (ltb_ℤ (pos 0) s.exit.paid_amt) s

unfoldable pub received_entry_record : Env → Op
unfolding price wait_for_card settle settle_paid
received_entry_record env = price env then_op call (show_fee_to_user env) then_op settle_paid env
