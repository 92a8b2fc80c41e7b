-- ===== src/Station/Exit.antt =====
-- The exit lane: `SaveExit`, `CloseExitOperation` and `ticketOK` of operation.cpp.
pub mod Closing
use my_linux_pbs.Base.{
  ℕ, Bool, true, false, List, [], ◌∷◌, ◌++◌, ◌==◌, ◌&&◌, ◌||◌, not, ltb, if◌then◌else◌, Bytes,
  codes, is_empty,
}
use my_linux_pbs.Base.Int.{ℤ, pos, negsuc, is_pos, leb_ℤ, ltb_ℤ, ◌+ℤ◌, ◌-ℤ◌}
use my_linux_pbs.Text.Decimal.{to_string}
use my_linux_pbs.Text.Fee.{set_fee_format}
use my_linux_pbs.Station.State.{
  Station, Process, Exit, Action, exit_inserted, movement_updated, movement_inserted,
  local_entry_updated, to_server,
}
use my_linux_pbs.Station.Op.{Op, continue, return, ◌then_op◌, call, go_on}
use my_linux_pbs.Station.Env.{Env}
use my_linux_pbs.Station.Barrier.{with_process, open_barrier}
use my_linux_pbs.Station.Display.{show_led_msg}
use my_linux_pbs.Station.Admission.{is_central_fail, lpn_of}

abbrev pub with_exit : Station → Exit → Station
with_exit s x = record s { exit = x }

-- What there is to redeem: the fee less the rebate, and what is owed.
unfoldable pub redeemable : Exit → ℤ
redeemable x = x.fee -ℤ x.rebate_amt +ℤ x.owe_amt

unfoldable pub limit_redeem : Exit → Exit
limit_redeem x =
    if ltb_ℤ (redeemable x) x.redeem_amt then record x { redeem_amt = redeemable x } else x

-- The parked time is counted again where an entry record is known and it is not positive.
unfoldable pub counts_again : Exit → Bool
counts_again x = is_pos x.no_entry_record 0 && leb_ℤ x.parked_time (pos 0)

unfoldable pub count_parked : Env → Exit → Exit
count_parked env x =
    if counts_again x
    then record x { parked_time = env.parked_minutes x.entry_time x.exit_time }
    else x

abbrev pub is_minus_one : ℤ → Bool
is_minus_one (pos n) = false
is_minus_one (negsuc n) = n == 0

-- `giPMSEntryRecord`: the time -1 says that the server holds the entry record.
unfoldable pub pms_entry : Exit → Bool
pms_entry x = counts_again x && is_minus_one x.parked_time

-- iCentralSuccess is 7, iLocalSuccess is 8.
abbrev pub is_success : ℤ → Bool
is_success r = is_pos r 7 || is_pos r 8

-- What `SaveExit` asks of the database for the record `x`, and the last answer.
unfoldable pub updates_movement : Bool → Exit → Bool
updates_movement pms x = is_pos x.no_entry_record 0 && not pms

unfoldable pub movement : Bool → Exit → Action
movement pms x = if updates_movement pms x then movement_updated x else movement_inserted x

unfoldable pub exit_answer : Env → Bool → Exit → ℤ
exit_answer env pms x =
    let r = env.insert_exit x in
    if is_pos r 7
    then if updates_movement pms x then env.update_movement x else env.insert_movement x
    else r

unfoldable pub exit_queries : Env → Bool → Exit → List Action
exit_queries env pms x =
    exit_inserted x
    ∷ (if is_pos (env.insert_exit x) 7
        then movement pms x ∷ local_entry_updated x.iu_no ∷ []
        else local_entry_updated x.iu_no ∷ [])

unfoldable pub exit_error_of : ℤ → ℤ
exit_error_of r = if is_success r then pos 0 else if is_central_fail r then negsuc 0 else negsuc 1

unfoldable pub exit_report : ℤ → Exit → ℕ → Bytes
exit_report r x show_type =
    x.iu_no
    ++ codes ","
    ++ x.card_no
    ++ codes ","
    ++ set_fee_format x.paid_amt
    ++ codes ","
    ++ lpn_of x.trans_type x.lpn_front x.lpn_rear
    ++ codes ","
    ++ to_string show_type
    ++ codes ","
    ++ (if is_success r
        then codes "Exit OK"
        else if is_central_fail r
        then codes "Exit Central Failed"
        else codes "Exit Local Failed")

-- The process behind the record `x` and the answer `r`.
unfoldable pub exit_process : Env → ℤ → Exit → Process → Process
exit_process env r x p = record p {
  last_iu_no = if is_success r then x.iu_no else p.last_iu_no;
  last_paid_trans = if is_success r then x.iu_no else p.last_paid_trans;
  last_trans_time = if is_success r then env.now else p.last_trans_time;
  db_error = exit_error_of r;
  saved_trans = true;
  last_card_no = if is_pos x.paid_amt 0 then x.card_no else p.last_card_no;
  last_paid_status = if is_pos x.paid_amt 0 then true else p.last_paid_status;
}

unfoldable pub save_exit : Env → Op
save_exit env s =
    let limited = limit_redeem s.exit in
    let x = count_parked env limited in
    let pms = pms_entry limited in
    let r = exit_answer env pms x in
    if is_empty s.exit.iu_no
    then return s []
    else continue
        (record s { process = exit_process env r x s.process; exit = record x { paid = true } })
        (exit_queries env pms x
          ++ (if x.status == 0
              then to_server (codes "90") (exit_report r x s.process.show_type) ∷ []
              else []))

pub data TransType : Type 0 where
  free_parking season_parking grace_period deduction_ok deduction_fail manualopen balance_change :
      TransType

-- The status that the record gets; a failed deduction and a season keep it or set it to 0.
abbrev pub closing_status : TransType → ℕ → ℕ
closing_status free_parking n = 0
closing_status season_parking n = 0
closing_status grace_period n = 0
closing_status deduction_ok n = 0
closing_status deduction_fail n = n
closing_status manualopen n = 4
closing_status balance_change n = 3

unfoldable pub paid_text : Exit → Bytes
paid_text x = codes "Paid Amt: RM" ++ set_fee_format x.paid_amt ++ codes "^ Have A Nice Day!"

-- The texts of the LED and of the LCD; a season and a failed deduction show nothing.
unfoldable pub closing_message : TransType → Exit → Op
closing_message free_parking x =
    show_led_msg (codes "Fee = RM0.00 ^ Have A Nice Day!") (codes "Fee = RM0.00 ^ Have A Nice Day!")
closing_message season_parking x = go_on
closing_message grace_period x =
    show_led_msg (codes "Grace Period ^ Have A Nice Day!") (codes "Grace period ^ Have A Nice Day!")
closing_message deduction_ok x = show_led_msg (paid_text x) (paid_text x)
closing_message deduction_fail x = go_on
closing_message manualopen x =
    show_led_msg (codes "Please proceed^ Have A Nice Day!")
      (codes "Please Proceed^ Have A Nice Day!")
closing_message balance_change x = show_led_msg (paid_text x) (paid_text x)

unfoldable pub set_closing_status : TransType → Op
set_closing_status t s =
    continue (with_exit s (record (s.exit) { status = closing_status t s.exit.status })) []

unfoldable pub show_closing : TransType → Op
show_closing t s = call (closing_message t s.exit) s

unfoldable pub close_exit_operation : Env → TransType → Op
unfolding set_closing_status show_closing
close_exit_operation env t =
    set_closing_status t
    then_op show_closing t
    then_op call (save_exit env)
    then_op call open_barrier

unfoldable pub set_ticket : Op
set_ticket s =
    let x = s.exit in
    let redeemed = is_pos x.redeem_amt 0 && not (is_empty x.redeem_no) in
    continue
      (with_exit s (record x {
        paid_amt = pos 0;
        trans_type = if redeemed then 10 else x.trans_type;
        card_no = if redeemed then x.redeem_no else x.card_no;
      }))
      []

unfoldable pub ticket_ok : Env → Op
unfolding set_ticket
ticket_ok env = set_ticket then_op close_exit_operation env free_parking
