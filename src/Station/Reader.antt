-- ===== src/Station/Reader.antt =====
-- The Touch 'n Go reader at the lane: `processTnGResponse` of operation.cpp.
pub mod Messages
pub mod Answers
use my_linux_pbs.Base.{
  ℕ, ◌+◌, Bool, true, false, Option, none, some, [], ◌++◌, if◌then◌else◌, Bytes, codes, is_empty,
}
use my_linux_pbs.Base.Int.{ℤ, pos, is_pos, pos_part}
use my_linux_pbs.Station.State.{Station, Exit, insufficient_bal}
use my_linux_pbs.Station.Op.{Op, continue, ◌then_op◌, call}
use my_linux_pbs.Station.Env.{Env, StationType, entry_station, exit_station}
use my_linux_pbs.Station.Barrier.{enable_cashcard}
use my_linux_pbs.Station.Admission.{with_entry}
use my_linux_pbs.Station.Found.{Queries}
use my_linux_pbs.Station.Departure.{set_exit, from_exit, both_lines}
use my_linux_pbs.Station.Departure.Check.{
  ant, tng_reader, short_text, check_iu_or_card_status, debit_ok,
}
use my_linux_pbs.Station.Ticket.{set_last_action}
use my_linux_pbs.Station.Lane.{vehicle_come}
use my_linux_pbs.Station.Reader.Messages.{PayResult, read_pay_result, read_card_no}

unfoldable pub set_insufficient : Exit → Exit
set_insufficient x = record x { deduction_status = insufficient_bal }

unfoldable pub insufficient : Op
unfolding set_insufficient
insufficient =
    set_exit set_insufficient
    then_op from_exit (λ x. both_lines (short_text x))
    then_op enable_cashcard true

-- 0 is paid, 18 an insufficient balance. A payment type is not negative.
unfoldable pub pay_answer : Env → PayResult → Op
unfolding insufficient
pay_answer env r =
    set_last_action env
    then_op (if is_pos r.state 0
        then debit_ok env r.card_no none none (20 + pos_part r.pay_type)
        else if is_pos r.state 18
        then insufficient
        else (λ s. continue s []))

-- A conversion that throws ends the answer before it has an effect.
unfoldable pub answered : Env → Option PayResult → Op
unfolding pay_answer
answered env none s = continue s []
answered env (some r) s = pay_answer env r s

unfoldable pub pay_result : Env → (Bytes → Option ℤ) → Bytes → Op
unfolding answered
pay_result env stoi text = answered env (read_pay_result stoi text)

-- `CheckIUorCardStatus` as `VehicleCome` calls it for a number at the exit.
unfoldable pub exit_check : Queries → Env → Bytes → Op
exit_check q env number = check_iu_or_card_status env q number ant [] 0

unfoldable pub card_at_entry : Env → Queries → Bytes → Op
unfolding exit_check
card_at_entry env q card s =
    let t = with_entry s (record (s.entry) { card_no = card }) in
    if is_empty s.entry.iu_tk_no then vehicle_come (exit_check q) env card t else continue t []

unfoldable pub read_at_exit : Env → Queries → Bytes → Op
read_at_exit env q card =
    set_exit (λ x. record x { card_no = card })
    then_op check_iu_or_card_status env q card tng_reader [] 0

unfoldable pub card_at : StationType → Env → Queries → Bytes → Op
unfolding card_at_entry read_at_exit
card_at entry_station env q card = card_at_entry env q card
card_at exit_station env q card = read_at_exit env q card

unfoldable pub card_num_result : Env → Queries → Bytes → Op
unfolding card_at
card_num_result env q text =
    set_last_action env then_op card_at env.station_type env q (read_card_no text)
