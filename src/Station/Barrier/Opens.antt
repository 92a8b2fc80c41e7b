-- ===== src/Station/Barrier/Opens.antt =====
-- When `Openbarrier` opens.
use my_linux_pbs.Base.{
  Bytes, arith, ap, refl, ◌∙◌, ◌≡◌, ◌==◌, ◌&&◌, Bool, true, false, not, [], ◌∷◌, if◌then◌else◌,
}
use my_linux_pbs.Station.State.{Station}
use my_linux_pbs.Station.Op.{finish, behind, behind, Op, call, ◌then_op◌, go_on, stop_if}
use my_linux_pbs.Station.Display.{queue_led, queue_lcd, show_led_msg}
use my_linux_pbs.Station.Marks.{opened, marks}
use my_linux_pbs.Station.Gate.{
  Gate, through, ◌then_gate◌, call-Gate, finish-Gate, go_on-Gate, stop_if-Gate, show_led_msg-Gate,
}
use my_linux_pbs.Station.Barrier.{
  finish, show_led_msg, stop_if, go_on, open_barrier, stop_loop_timer, take_card_first,
  card_is_in_check, continue_opened_check, pulse_open,
}

stop_loop_timer-Gate : Gate true stop_loop_timer
unfolding stop_loop_timer
stop_loop_timer-Gate = record { silent = λ s. refl; goes = λ s. refl; keeps = λ s. ground arith }

take_card_first-marks :
    (b : Bool) (g : Op) (s : Station)
    → marks ((take_card_first b then_op g) s).sent ≡ (if b then [] else marks (g s).sent)
unfolding take_card_first go_on
take_card_first-marks true g s =
    through g (call-Gate (show_led_msg-Gate _ _) then_gate finish-Gate) s
take_card_first-marks false g s = through g go_on-Gate s

card_is_in_check-marks :
    (g : Op) (s : Station)
    → marks ((card_is_in_check then_op g) s).sent
      ≡ (if s.process.card_is_in == 1 then [] else marks (g s).sent)
unfolding card_is_in_check ◌then_op◌
card_is_in_check-marks g s = take_card_first-marks (s.process.card_is_in == 1) g s

stop_if-marks :
    (b : Bool) (s : Station)
    → marks ((stop_if b then_op pulse_open) s).sent ≡ (if b then [] else opened ∷ [])
unfolding stop_if pulse_open
stop_if-marks true s = through pulse_open (stop_if-Gate true) s
stop_if-marks false s = through pulse_open (stop_if-Gate false) s

continue_opened-marks :
    (s : Station)
    → marks ((continue_opened_check then_op pulse_open) s).sent
      ≡ (if s.process.continue_opened == 1 then [] else opened ∷ [])
unfolding continue_opened_check ◌then_op◌
continue_opened-marks s = stop_if-marks (s.process.continue_opened == 1) s

-- Nothing keeps the barrier down: no card in the reader, and not opened for good.
unfoldable pub can_move : Station → Bool
can_move s = not (s.process.card_is_in == 1) && not (s.process.continue_opened == 1)

-- What `Openbarrier` does to the barrier.
pub marks-open_barrier :
    (s : Station) → marks (open_barrier s).sent ≡ (if can_move s then opened ∷ [] else [])
unfolding open_barrier can_move call stop_loop_timer
marks-open_barrier s =
    through _ stop_loop_timer-Gate s
    ∙ card_is_in_check-marks (continue_opened_check then_op pulse_open) s
    ∙ ap (λ m. if s.process.card_is_in == 1 then [] else m) (continue_opened-marks s)
    ∙ ground arith

show_led_msg-entry :
    (led lcd : Bytes) (s : Station) → (show_led_msg led lcd s).state.entry ≡ s.entry
unfolding show_led_msg queue_led queue_lcd ◌then_op◌ behind
show_led_msg-entry led lcd s = ground arith

take_card_first-entry :
    (b : Bool) (g : Op) (s : Station)
    → ((t : Station) → (g t).state.entry ≡ t.entry)
    → ((take_card_first b then_op g) s).state.entry ≡ s.entry
unfolding take_card_first go_on ◌then_op◌ behind call finish
take_card_first-entry true g s p = show_led_msg-entry _ _ s
take_card_first-entry false g s p = p s

-- `Openbarrier` leaves the entry's record alone.
pub open_barrier-entry : (s : Station) → (open_barrier s).state.entry ≡ s.entry
unfolding open_barrier call stop_loop_timer card_is_in_check continue_opened_check pulse_open
    stop_if ◌then_op◌ behind
open_barrier-entry s =
    take_card_first-entry (s.process.card_is_in == 1) (continue_opened_check then_op pulse_open) s
      (λ t. ground arith)
