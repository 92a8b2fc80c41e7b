-- ===== src/Station/Ticket.antt =====
-- A ticket that the barcode scanner reads at the exit: `ticketScan` and `ProcessBarcodeData` of
-- operation.cpp.
pub mod MayClose
pub mod LetsOut
use my_linux_pbs.Base.{
  ℕ, ◌-◌, Bool, true, false, not, ◌&&◌, ◌||◌, List, [], ◌∷◌, ◌++◌, ◌==◌, ltb, leb, if◌then◌else◌,
  map, length, take, drop, Bytes, bytes_eq, codes, is_empty,
}
use my_linux_pbs.Base.Int.{ℤ, pos, negsuc, is_pos, ltb_ℤ, leb_ℤ, ◌-ℤ◌, ◌+ℤ◌}
use my_linux_pbs.Text.Decimal.{to_string}
use my_linux_pbs.Text.Fee.{set_fee_format}
use my_linux_pbs.Station.State.{Station, Exit, Money, payment_refunded}
use my_linux_pbs.Station.Op.{Op, continue, ◌then_op◌, call, go_on}
use my_linux_pbs.Station.Env.{
  Env, Message, exit_card_in, redemption_ticket, invalid_ticket, system_error, redemption_expired,
  comp_expired, complimentary, used_ticket,
}
use my_linux_pbs.Station.Display.{show, show_led_msg, send_to_server}
use my_linux_pbs.Station.Barrier.{with_process, enable_cashcard}
use my_linux_pbs.Station.Exit.{with_exit, is_minus_one, ticket_ok}
use my_linux_pbs.Station.Fee.{redeem_time_to_amt, show_fee_to_user}
use my_linux_pbs.Station.Departure.{set_exit, from_exit, both_lines}
use my_linux_pbs.Station.TicketNumber.{Scanned, scanned}
use my_linux_pbs.Station.TicketAnswer.{Tickets, TicketAnswer, is_valid_bar_code_ticket}

-- `Exit_Sub`.
unfoldable pub ez_pay_hint : Op
ez_pay_hint s =
    if s.exit.pay_by_ez_pay
    then show_led_msg (codes "You may scan^Compl Ticket") [] s
    else continue s []

unfoldable pub exit_sub : Env → Op
unfolding ez_pay_hint
exit_sub env = call (show_fee_to_user env) then_op ez_pay_hint then_op enable_cashcard true

-- A ticket that is no use, with its messages.
unfoldable pub rejected : Env → Op → Bytes → Bytes → Op
unfolding exit_sub
rejected env shown number text =
    shown then_op send_to_server (codes "90") (number ++ text) then_op exit_sub env

unfoldable pub expired : Env → Scanned → Op
unfolding rejected
expired env c =
    if c.is_redemption
    then rejected env (show env redemption_expired) c.number (codes ",,,,,Redemption Expired")
    else rejected env (show env comp_expired) c.number (codes ",,,,,Complimentary Expired")

unfoldable pub set_tag : Bytes → Op
set_tag tag s = continue (with_exit s (record (s.exit) { tag = tag })) []

-- The ticket waits for a card.
unfoldable pub wait_card_with : Bytes → Bytes → Bytes → Op
unfolding set_tag
wait_card_with tag number text =
    set_tag tag then_op send_to_server (codes "90") (number ++ text) then_op enable_cashcard true

-- What is left to pay.
abbrev pub unpaid : Exit → Money
unpaid x = x.fee -ℤ x.redeem_amt -ℤ x.rebate_amt +ℤ x.owe_amt

unfoldable pub set_redeem_time : Env → ℤ → Exit → Exit
set_redeem_time env (pos n) x =
    let y = record x { redeem_time = n } in
    if ltb_ℤ (pos 0) y.paid_amt then redeem_time_to_amt env y else y
set_redeem_time env (negsuc n) x = x

unfoldable pub redeem : Env → TicketAnswer → Exit → Exit
unfolding set_redeem_time
redeem env a x =
    if ltb_ℤ (pos 0) a.minutes
    then set_redeem_time env a.minutes x
    else record x { redeem_amt = a.amount }

unfoldable pub redemption_text : TicketAnswer → Exit → Bytes
redemption_text a x =
    if ltb_ℤ (pos 0) a.minutes
    then codes "Redemption: ^" ++ to_string x.redeem_time ++ codes " Mins"
    else codes "Redemption: ^RM" ++ set_fee_format x.redeem_amt

unfoldable pub show_redemption : TicketAnswer → Op
unfolding redemption_text
show_redemption a s = both_lines (redemption_text a s.exit) s

-- Whether nothing is left to pay, in whole cents.
unfoldable pub ok_if_paid : Env → Op
ok_if_paid env s = if leb_ℤ (unpaid s.exit) (pos 0) then ticket_ok env s else enable_cashcard true s

unfoldable pub after_redemption : Env → Bytes → Op
unfolding wait_card_with ok_if_paid
after_redemption env number s =
    if is_empty s.exit.iu_no && is_empty s.exit.card_no
    then wait_card_with (codes "Redemption") number (codes ",,,,,Redemption. Ticket Wait for Card")
        s
    else (call (show_fee_to_user env) then_op ok_if_paid env) s

unfoldable pub valid_redemption : Env → TicketAnswer → Bytes → Op
unfolding redeem show_redemption after_redemption
valid_redemption env a number =
    set_exit (redeem env a) then_op show_redemption a then_op after_redemption env number

-- A payment made in advance is given back.
unfoldable pub refund : Bytes → Op
refund text = show_led_msg text [] then_op (λ s.
    continue
      (with_exit s (record (s.exit) { redeem_amt = s.exit.fee; paid_amt = pos 0; gst_amt = pos 0 }))
      (payment_refunded ∷ []))

unfoldable pub name_exit : Exit → Exit
name_exit x = if is_empty x.iu_no then record x { iu_no = codes "N/A" } else x

unfoldable pub free_or_refund : Env → Bytes → Op
unfolding refund
free_or_refund env text s = if s.exit.pay_by_ez_pay then refund text s else ticket_ok env s

unfoldable pub complimentary_with_card : Env → Bytes → Op
unfolding refund wait_card_with
complimentary_with_card env number s =
    if is_empty s.exit.iu_no
    then (show env complimentary
          then_op wait_card_with (codes "Complimentary") number
              (codes ",,,,,Compl. Ticket Wait for Card"))
        s
    else if s.exit.pay_by_ez_pay
    then refund (codes "Complimentary^EZpay refunded") s
    else (show env complimentary then_op ticket_ok env) s

unfoldable pub valid_complimentary : Env → Tickets → Bytes → Op
unfolding complimentary_with_card name_exit free_or_refund
valid_complimentary env t number =
    if t.need_card_4_complimentary == 0
    then show env complimentary
      then_op set_exit name_exit
      then_op free_or_refund env (codes "Complimentary^EZPay refunded")
    else complimentary_with_card env number

unfoldable pub set_redeem_no : Bytes → Exit → Exit
set_redeem_no number x = record x { redeem_no = number }

unfoldable pub valid_ticket : Env → Tickets → TicketAnswer → Scanned → Op
unfolding set_redeem_no valid_redemption valid_complimentary
valid_ticket env t a c =
    set_exit (set_redeem_no c.number)
    then_op (if c.is_redemption
        then valid_redemption env a c.number
        else valid_complimentary env t c.number)

unfoldable pub by_answer : Env → Tickets → TicketAnswer → Scanned → Op
unfolding rejected expired valid_ticket exit_sub
by_answer env t a c =
    if is_minus_one a.code
    then rejected env (show env system_error) c.number (codes ",,,,,Central DB Error")
    else if is_pos a.code 0
    then expired env c
    else if is_pos a.code 1
    then valid_ticket env t a c
    else if is_pos a.code 2
    then rejected env (show env used_ticket) c.number (codes ",,,,,Used Ticket")
    else if is_pos a.code 4
    then rejected env (both_lines (codes "Ticket Not Found")) c.number
        (codes ",,,,,Ticket Not Found")
    else if is_pos a.code 6
    then rejected env (both_lines (codes "Ticket Not Start")) c.number
        (codes ",,,,,Ticket Not Start")
    else exit_sub env

abbrev pub has_length : Bytes → Bool
has_length text = (length text == 9) || (length text == 12) || (length text == 15)

unfoldable pub checked : Env → Tickets → Bytes → Scanned → Op
unfolding by_answer exit_sub
checked env t keyed c =
    if not (has_length c.number)
    then send_to_server (codes "90") (keyed ++ codes ",,,,,Invalid Ticket (Wrong Len)")
      then_op show env invalid_ticket
      then_op exit_sub env
    else by_answer env t (is_valid_bar_code_ticket t c.is_redemption keyed) c

unfoldable pub read_ticket : Env → Tickets → Bytes → Scanned → Op
unfolding checked exit_sub
read_ticket env t keyed c =
    if c.is_refused
    then show env redemption_ticket then_op exit_sub env
    else (if c.shows_card_in then show env exit_card_in else go_on) then_op checked env t keyed c

-- An amount has been redeemed before: nothing more is redeemed.
unfoldable pub redeemed_before : Env → Op
redeemed_before env s =
    if ltb_ℤ (pos 0) s.exit.fee
    then if leb_ℤ (unpaid s.exit) (pos 0)
      then ticket_ok env s
      else (show_led_msg (codes "Amount Redeem,^Pls Pay Bal!") (codes "Amount Redeem^Pls Pay Bal!")
            then_op show_fee_to_user env)
          s
    else (show_led_msg (codes "Amount Redeem,^Insert/Tap Card")
            (codes "Amount Redeem^Insert/Tap Card")
          then_op show_fee_to_user env)
        s

unfoldable pub ticket_scan : Env → Tickets → Bytes → Op
unfolding scanned redeemed_before read_ticket
ticket_scan env t keyed s =
    if ltb_ℤ (pos 0) s.exit.redeem_amt
    then redeemed_before env s
    else (enable_cashcard false then_op read_ticket env t keyed (scanned t keyed)) s

unfoldable pub set_last_action : Env → Op
set_last_action env s = continue (with_process s (record (s.process) { last_action = env.now })) []

unfoldable pub process_barcode_data : Env → Tickets → Bytes → Op
unfolding ticket_scan set_last_action
process_barcode_data env t keyed = call (ticket_scan env t keyed) then_op set_last_action env
