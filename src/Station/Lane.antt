-- ===== src/Station/Lane.antt =====
-- What happens at the loops and the camera: `LoopACome`, `LoopAGone`, `LoopCGone`, `VehicleCome` and
-- `ReceivedLPR` of operation.cpp. `exit_check` stands for `CheckIUorCardStatus`.
pub mod Once
pub mod Arrival
pub mod Plate
use my_linux_pbs.Base.{
  ℕ, zero, suc, ◌||◌, ◌&&◌, Bool, true, false, not, List, [], ◌∷◌, ◌++◌, ◌==◌, if◌then◌else◌,
  length, Bytes, bytes_eq, codes, is_empty,
}
use my_linux_pbs.Base.Int.{ℤ}
use my_linux_pbs.Text.Decimal.{to_string}
use my_linux_pbs.Station.State.{
  Station, backlight, waited, loop_timer_started, trans_id_to_lpr, entry_lpn_updated,
  exit_lpn_updated,
}
use my_linux_pbs.Station.Op.{Op, continue, return, ◌then_op◌, call, go_on, stop_if}
use my_linux_pbs.Station.Env.{
  Env, StationType, entry_station, exit_station, is_entry, loop_a_msg, exit_loop_a,
}
use my_linux_pbs.Station.Vehicle.{truth}
use my_linux_pbs.Station.Barrier.{with_process, enable_cashcard, stop_loop_timer}
use my_linux_pbs.Station.Clear.{clear_me}
use my_linux_pbs.Station.Display.{show, show_led_msg}
use my_linux_pbs.Station.Admission.{with_entry, pbs_entry}
use my_linux_pbs.Station.Exit.{with_exit}

-- The readings of loop B and loop A that the polls of `LoopACome` make, 50 at most, 10 ms apart, and
-- the reading of loop B behind them.
pub record Polls : Type 0 where
  pub readings : List (ℤ × ℤ)
  pub last_b : ℤ

unfoldable pub seen_within : ℕ → List (ℤ × ℤ) → Bool
seen_within zero rs = false
seen_within (suc n) [] = false
seen_within (suc n) ((b, a) ∷ rs) = truth b && truth a || seen_within n rs

-- The front camera looks at a car or a lorry, the rear one at a motorcycle.
unfoldable pub use_front_camera : Polls → Bool
unfolding seen_within
use_front_camera p = seen_within 50 p.readings || truth p.last_b

-- 10 ms for every poll that sees no vehicle.
unfoldable pub polled : ℕ → List (ℤ × ℤ) → Op
polled zero rs = go_on
polled (suc n) [] = go_on
polled (suc n) ((b, a) ∷ rs) =
    let rest = polled n rs in
    if truth b && truth a then go_on else ((λ s. continue s (waited 10 ∷ [])) then_op rest)

unfoldable pub new_trans_id : Env → Bool → Bytes
new_trans_id env front =
    env.carpark_code
    ++ codes "-"
    ++ to_string env.sid
    ++ (if front then codes "F-" else codes "B-")
    ++ env.now_compact

unfoldable pub start_loop_timer : Env → Op
start_loop_timer env s =
    continue (with_process s (record (s.process) { last_action = env.now }))
      (loop_timer_started ∷ [])

unfoldable pub set_backlight : ℕ → Op
set_backlight n s = continue s (backlight n ∷ [])

unfoldable pub send_trans_id : Env → Bool → Op
send_trans_id env front s =
    continue (with_process s (record (s.process) { trans_id = new_trans_id env front }))
      (trans_id_to_lpr (new_trans_id env front) front ∷ [])

unfoldable pub at_exit : Env → Op → Op
at_exit env f = if is_entry env.station_type then go_on else f

unfoldable pub loop_a_come : Env → Polls → Op
unfolding polled start_loop_timer set_backlight send_trans_id at_exit
loop_a_come env p =
    start_loop_timer env
    then_op call (show env (if is_entry env.station_type then loop_a_msg else exit_loop_a))
    then_op call (clear_me env)
    then_op set_backlight 1
    then_op polled 50 p.readings
    then_op send_trans_id env (use_front_camera p)
    then_op at_exit env (call (enable_cashcard true))

unfoldable pub loop_a_gone : Env → Op
unfolding set_backlight at_exit
loop_a_gone env =
    stop_loop_timer then_op set_backlight 0 then_op at_exit env (call (enable_cashcard false))

unfoldable pub loop_c_gone : Env → Polls → Op
loop_c_gone env p =
    call (clear_me env)
    then_op (λ s. if s.process.loop_present then call (loop_a_come env p) s else continue s [])

module _ (exit_check : Env → Bytes → Op) where
  unfoldable pub reader_off : Bytes → Op
  reader_off number = if length number == 16 then go_on else call (enable_cashcard false)

  -- An entry that is done is not begun again.
  unfoldable pub entry_come : Env → Bytes → Op
  entry_come env number s =
      if s.entry.entry_ok then continue s [] else call (pbs_entry env number) s

  unfoldable pub lane_come : StationType → Env → Bytes → Op
  lane_come entry_station env number = entry_come env number
  lane_come exit_station env number = call (exit_check env number)

  unfoldable pub vehicle_come : Env → Bytes → Op
  unfolding reader_off entry_come lane_come
  vehicle_come env number = call (
      stop_if (is_empty number)
      then_op reader_off number
      then_op lane_come env.station_type env number)

  -- The plate is kept for the lane, and comes as a vehicle unless there is a number already.
  unfoldable pub plate_read : StationType → Env → Bytes → Op
  plate_read entry_station env lpn s =
      let t = with_entry s (record (s.entry) { lpn_front = lpn; lpn_rear = lpn }) in
      if is_empty s.entry.iu_tk_no then vehicle_come env lpn t else continue t []
  plate_read exit_station env lpn s =
      let t = with_exit s (record (s.exit) { lpn_front = lpn; lpn_rear = lpn }) in
      if is_empty s.exit.iu_no then vehicle_come env lpn t else continue t []

  -- A plate that came too late is written to the record that it belongs to.
  unfoldable pub late_plate : StationType → Bytes → Bytes → Op
  late_plate entry_station lpn id s = continue s (entry_lpn_updated lpn id ∷ [])
  late_plate exit_station lpn id s = continue s (exit_lpn_updated lpn id ∷ [])

  no_plate : StationType → Op
  no_plate entry_station = show_led_msg (codes "No LPN Detected") (codes "No LPN Detected")
  no_plate exit_station =
      show_led_msg (codes "No LPN Detected^Pls Tap Card !") (codes "No LPN Detected^Pls Tap Card !")

  unfoldable pub received_lpr : Env → Bytes → Bytes → Op
  unfolding plate_read late_plate no_plate
  received_lpr env lpn id s =
      if bytes_eq lpn (codes "0000000000")
      then call (no_plate env.station_type) s
      else if bytes_eq s.process.trans_id id
          && (s.process.loop_present && not s.process.saved_trans)
      then plate_read env.station_type env lpn s
      else late_plate env.station_type lpn id s
