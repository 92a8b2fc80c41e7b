-- ===== src/Station/Barrier.antt =====
-- `Openbarrier`, `closeBarrier`, `continueOpenBarrier`, `EnableCashcard` and the Loop A timer.
pub mod Opens
use my_linux_pbs.Base.{ℕ, Bool, true, false, [], ◌∷◌, ◌==◌, if◌then◌else◌, codes}
use my_linux_pbs.Station.State.{
  Station, Process, open_output, close_output, waited, loop_timer_stopped,
}
use my_linux_pbs.Station.Op.{Op, continue, return, ◌then_op◌, call, finish, go_on, stop_if}
use my_linux_pbs.Station.Display.{show_led_msg}

abbrev pub with_process : Station → Process → Station
with_process s p = record s { process = p }

abbrev pub eq_Bool : Bool → Bool → Bool
eq_Bool true b = b
eq_Bool false true = false
eq_Bool false false = true

unfoldable pub stop_loop_timer : Op
stop_loop_timer s = continue s (loop_timer_stopped ∷ [])

-- A pulse of 0 ms is read as 500 ms.
unfoldable pub pulse_of : ℕ → ℕ
pulse_of n = if n == 0 then 500 else n

-- A card in the reader keeps the barrier down, with a message.
unfoldable pub take_card_first : Bool → Op
take_card_first true =
    call (show_led_msg (codes "Please Take^CashCard.") (codes "Please Take^Cashcard."))
    then_op finish
take_card_first false = go_on

unfoldable pub card_is_in_check : Op
card_is_in_check s = take_card_first (s.process.card_is_in == 1) s

unfoldable pub continue_opened_check : Op
continue_opened_check s = stop_if (s.process.continue_opened == 1) s

unfoldable pub pulse_open : Op
pulse_open s =
    let pulse = pulse_of s.process.barrier_pulse in
    continue (with_process s (record (s.process) { barrier_opened = true; barrier_pulse = pulse }))
      (open_output 1 ∷ waited pulse ∷ open_output 0 ∷ [])

unfoldable pub open_barrier : Op
unfolding card_is_in_check continue_opened_check pulse_open
open_barrier =
    call (stop_loop_timer then_op card_is_in_check then_op continue_opened_check then_op pulse_open)

unfoldable pub close_barrier : Op
close_barrier s =
    let pulse = pulse_of s.process.barrier_pulse in
    continue (with_process s (record (s.process) { continue_opened = 0; barrier_pulse = pulse }))
      (open_output 0 ∷ close_output 1 ∷ waited pulse ∷ close_output 0 ∷ [])

unfoldable pub continue_open_barrier : Op
continue_open_barrier s =
    continue (with_process s (record (s.process) { continue_opened = 1 })) (open_output 1 ∷ [])

-- Only the flag is kept: the calls of the reader are disabled in the source.
unfoldable pub enable_cashcard : Bool → Op
enable_cashcard on s =
    if eq_Bool on s.process.enable_reader
    then continue s []
    else continue (with_process s (record (s.process) { enable_reader = on })) []
