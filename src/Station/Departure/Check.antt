-- ===== src/Station/Departure/Check.antt =====
-- A number at the exit and what it has paid: `CheckIUorCardStatus` and `DebitOK` of operation.cpp.
use my_linux_pbs.Base.{
  ℕ, ◌-◌, Bool, true, false, ◌&&◌, Option, none, some, [], ◌++◌, leb, if◌then◌else◌, Bytes,
  bytes_eq, codes,
}
use my_linux_pbs.Base.Int.{ℤ, pos, is_pos, ltb_ℤ}
use my_linux_pbs.Text.Fee.{set_fee_format}
use my_linux_pbs.Station.State.{
  Station, Exit, Money, DeductionStatus, waiting_card, card_expired, card_fault, insufficient_bal,
  deduction_successed,
}
use my_linux_pbs.Station.Op.{Op, continue, ◌then_op◌, call, go_on, finish}
use my_linux_pbs.Station.Env.{Env, StationType, is_entry}
use my_linux_pbs.Station.Barrier.{with_process, enable_cashcard, open_barrier}
use my_linux_pbs.Station.Exit.{free_parking, deduction_ok, close_exit_operation}
use my_linux_pbs.Station.Fee.{wait_ms}
use my_linux_pbs.Station.Found.{Queries}
use my_linux_pbs.Station.Departure.{set_exit, both_lines, request_payment, pbs_exit}

-- `DeviceType`.
pub data Device : Type 0 where
  pms_entry_time ant lcsc upos chu tng_reader : Device

abbrev pub is_ant : Device → Bool
is_ant ant = true
is_ant _ = false

abbrev pub is_faulty : DeductionStatus → Bool
is_faulty card_expired = true
is_faulty card_fault = true
is_faulty _ = false

abbrev pub is_short : DeductionStatus → Bool
is_short insufficient_bal = true
is_short _ = false

abbrev pub is_waiting : DeductionStatus → Bool
is_waiting waiting_card = true
is_waiting _ = false

unfoldable pub wait_card : Exit → Exit
wait_card x = record x { deduction_status = waiting_card }

-- A card that failed is not tried again; another one is waited for.
unfoldable pub retry : Bool → Bool → Bytes → Op
retry false same text = go_on
retry true true text = both_lines text then_op enable_cashcard true then_op finish
retry true false text = set_exit wait_card

unfoldable pub short_text : Exit → Bytes
short_text x = codes "Fee: RM" ++ set_fee_format x.paid_amt ++ codes "^Insufficient Bal"

unfoldable pub retry_faulty : Bytes → Op
unfolding retry
retry_faulty n s =
    retry (is_faulty s.exit.deduction_status) (bytes_eq s.process.last_card_no n)
      (codes "Card Fault!") s

unfoldable pub retry_short : Bytes → Op
unfolding retry short_text
retry_short n s =
    retry (is_short s.exit.deduction_status) (bytes_eq s.process.last_card_no n) (short_text s.exit)
      s

-- The answer 5 is a master card, any other positive one a complimentary card.
unfoldable pub freed_by_card : ℤ → Bytes → ℕ → Exit → Exit
freed_by_card r card card_type x = record x {
  trans_type = if is_pos r 5 then 2 else 10;
  card_no = card;
  card_type = card_type;
  paid_amt = pos 0;
}

unfoldable pub free_by_card : Env → ℤ → Bytes → ℕ → Op
unfolding freed_by_card
free_by_card env r card card_type =
    both_lines (if is_pos r 5 then codes "Master Card!" else codes "Complimentary!")
    then_op wait_ms 500
    then_op set_exit (freed_by_card r card card_type)
    then_op call (close_exit_operation env free_parking)

unfoldable pub pay_by_card : Op
pay_by_card s = if ltb_ℤ (pos 0) s.exit.paid_amt then request_payment s else continue s []

unfoldable pub card_at_exit : Env → Bytes → ℕ → Op
unfolding free_by_card pay_by_card
card_at_exit env card card_type =
    let r = env.check_card card in
    if ltb_ℤ (pos 0) r then free_by_card env r card card_type else pay_by_card

-- The number that left last, within the longest interval of a transaction.
unfoldable pub is_last : Env → Bytes → Station → Bool
is_last env n s =
    bytes_eq n s.process.last_paid_trans
    && leb (env.now - s.process.last_trans_time) env.max_trans_interval

abbrev pub same_text : Device → Bytes
same_text d = if is_ant d then codes "Same as last^LPN" else codes "Same as last^Paid Card"

abbrev pub reader_off_at : StationType → Op
reader_off_at t = if is_entry t then go_on else enable_cashcard false

-- It has paid: the barrier opens again.
unfoldable pub open_again : Env → Device → Op
open_again env d =
    both_lines (same_text d) then_op reader_off_at env.station_type then_op call open_barrier

unfoldable pub not_paid : Env → Queries → Bytes → Device → Op
not_paid env q n d s =
    if ltb_ℤ (pos 0) s.exit.paid_amt
    then (if is_ant d then enable_cashcard true s else continue s [])
    else pbs_exit env q n s

unfoldable pub number_at_exit : Env → Queries → Bytes → Device → Op
unfolding open_again not_paid is_last
number_at_exit env q n d s =
    if is_last env n s
    then (if s.process.last_paid_status then open_again env d s else not_paid env q n d s)
    else pbs_exit env q n s

unfoldable pub by_status : Env → Queries → Bytes → Device → Bytes → ℕ → Op
unfolding card_at_exit number_at_exit
by_status env q n d card card_type s =
    if is_waiting s.exit.deduction_status
    then card_at_exit env card card_type s
    else number_at_exit env q n d s

unfoldable pub check_iu_or_card_status : Env → Queries → Bytes → Device → Bytes → ℕ → Op
unfolding retry_faulty retry_short by_status
check_iu_or_card_status env q n d card card_type =
    retry_faulty n then_op retry_short n then_op by_status env q n d card card_type

-- A deduction that the reader reports; the amounts are none where their texts are empty.
unfoldable pub debited : Bytes → Option Money → ℕ → Exit → Exit
debited card paid card_type x = record x {
  card_no = card;
  paid_amt = elim paid [ none ↦ x.paid_amt | some a ↦ a ];
  card_type = card_type;
  deduction_status = deduction_successed;
}

unfoldable pub note_debit : Bytes → Option Money → Op
note_debit card bal s =
    continue
      (with_process s (record (s.process) {
        last_paid_trans = s.exit.iu_no;
        last_paid_status = true;
        last_card_no = card;
        last_card_bal = elim bal [ none ↦ pos 0 | some a ↦ a ];
      }))
      []

unfoldable pub debit_ok : Env → Bytes → Option Money → Option Money → ℕ → Op
unfolding debited note_debit
debit_ok env card paid bal card_type =
    note_debit card bal
    then_op set_exit (debited card paid card_type)
    then_op call (close_exit_operation env deduction_ok)
