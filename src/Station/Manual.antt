-- ===== src/Station/Manual.antt =====
-- The barrier without an identified vehicle: the loop timer (`handleLoopAPeriodicTimerTimeout`,
-- `FnLoopATimeoutHandler`) and the manual opening and closing of operation.cpp. The timeouts are in
-- the unit of the clock.
pub mod Released
pub mod Opened
use my_linux_pbs.Base.{
  ℕ, ◌-◌, ◌&&◌, Bool, true, false, not, [], ◌∷◌, ◌++◌, ltb, if◌then◌else◌, Bytes, codes, is_empty,
}
use my_linux_pbs.Station.State.{Station, Entry, Exit, loop_timer_started, remote_control_added}
use my_linux_pbs.Station.Op.{Op, continue, ◌then_op◌, call}
use my_linux_pbs.Station.Env.{Env, StationType, entry_station, exit_station, is_entry}
use my_linux_pbs.Station.Vehicle.{v_type}
use my_linux_pbs.Station.Barrier.{enable_cashcard, open_barrier, close_barrier}
use my_linux_pbs.Station.Admission.{with_entry, save_entry}
use my_linux_pbs.Station.Exit.{with_exit, manualopen, close_exit_operation}
use my_linux_pbs.Station.Lane.{Polls, at_exit, loop_a_come}

unfoldable pub elapsed : Env → Station → ℕ
elapsed env s = env.now - s.process.last_action

-- An exit at which neither a plate nor a number came in time.
unfoldable pub is_unidentified : Env → Station → Bool
is_unidentified env s =
    ltb env.lpn_timeout (elapsed env s)
    && (not (is_entry env.station_type) && (is_empty s.exit.lpn_front && is_empty s.exit.iu_no))

unfoldable pub set_unidentified : Env → Op
set_unidentified env s =
    continue
      (with_exit s (record (s.exit) {
        iu_no = codes "0000000000";
        trans_type = v_type env;
        exit_time = env.now_text;
        lpn_front = codes "0000000000";
        lpn_rear = codes "0000000000";
        fee_from = codes "NULL";
      }))
      []

unfoldable pub loop_timeout : Env → Polls → Op
loop_timeout env p = at_exit env (call (enable_cashcard false)) then_op call (loop_a_come env p)

-- One tick of the timer.
unfoldable pub loop_timer_tick : Env → Polls → Op
unfolding set_unidentified loop_timeout
loop_timer_tick env p s =
    if ltb env.operation_timeout (elapsed env s)
    then loop_timeout env p s
    else if is_unidentified env s
    then (set_unidentified env then_op close_exit_operation env manualopen) s
    else continue s (loop_timer_started ∷ [])

unfoldable pub set_manual_entry : Env → Op
set_manual_entry env s =
    continue (with_entry s (record (s.entry) { entry_time = env.now_text; status = 4 })) (
      remote_control_added (codes "Manual open barrier")
        (codes "Auto save for IU:" ++ s.entry.iu_tk_no)
      ∷ [])

unfoldable pub set_manual_exit : Env → Op
set_manual_exit env s =
    let t = if is_empty s.exit.exit_time then env.now_text else s.exit.exit_time in
    continue (with_exit s (record (s.exit) { exit_time = t })) (
      remote_control_added (codes "Manual open barrier") (codes "Auto save for IU:" ++ s.exit.iu_no)
      ∷ [])

unfoldable pub manual_open_at : StationType → Env → Op
unfolding set_manual_entry set_manual_exit
manual_open_at entry_station env =
    set_manual_entry env then_op call (save_entry env) then_op call open_barrier
manual_open_at exit_station env = set_manual_exit env then_op close_exit_operation env manualopen

unfoldable pub manual_open_barrier : Env → Op
manual_open_barrier env = manual_open_at env.station_type env

unfoldable pub manual_close_barrier : Op
manual_close_barrier =
    (λ s. continue s (remote_control_added (codes "Manual close barrier") [] ∷ []))
    then_op call close_barrier
