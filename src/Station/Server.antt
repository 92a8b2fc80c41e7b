-- ===== src/Station/Server.antt =====
-- The commands of the server: `processdata` and `startreceive` of udp.cpp, with the codes of udp.h.

pub mod Quiet
pub mod Opens
use my_linux_pbs.Base.{
  ℕ, Bool, true, false, not, ◌&&◌, Option, none, some, List, [], ◌∷◌, ◌++◌, ◌==◌, ltb,
  if◌then◌else◌, length, get_or, Bytes, codes, is_empty,
}
use my_linux_pbs.Base.Int.{ℤ, pos, negsuc, is_pos, ltb_ℤ, leb_ℤ}
use my_linux_pbs.Text.Fee.{set_fee_format}
use my_linux_pbs.Text.Fields.{field, parse_buffer}
use my_linux_pbs.Station.State.{
  Station, Exit, Table, seasons, led_messages, exit_messages, xtariffs, tariff_types, tariffs,
  holidays, parameters, vehicle_types, station_setup, receipts, to_server, downloaded, loaded,
  parameter_written, offline_moved, local_season_cleared, time_synced, broadcast_inserted,
  local_entry_updated, lots_shown, shut_down,
}
use my_linux_pbs.Station.Op.{Op, continue, ◌then_op◌, call}
use my_linux_pbs.Station.Barrier.{eq_Bool, continue_open_barrier}
use my_linux_pbs.Station.SeasonMessage.{contains}
use my_linux_pbs.Station.Admission.{pbs_entry}
use my_linux_pbs.Station.Exit.{with_exit}
use my_linux_pbs.Station.Fee.{received_entry_record}
use my_linux_pbs.Station.Manual.{manual_open_barrier, manual_close_barrier}
use my_linux_pbs.Station.Faults.{send_my_status}
use my_linux_pbs.Station.Host.{
  Host, Orders, noted, ran, env_of, default_idle, full_idle, download, load_if, set_pin,
}

-- The codes that `processdata` knows.
pub data Command : Type 0 where
  stop_station_software status_enquiry update_season download_msg update_param carparkfull
        open_by_server status_online continue_open download_tariff download_holiday set_time
        time_for_no_entry clear_season download_type close_by_server download_xtariff download_tr
        update_setting set_lot_count lock_up_barrier available_lots broadcast_save_trans fee_test
        set_dio_output :
      Command

abbrev pub command_codes : List (ℕ × Command)
command_codes =
    (11, stop_station_software)
    ∷ (13, status_enquiry)
    ∷ (20, update_season)
    ∷ (22, download_msg)
    ∷ (23, update_param)
    ∷ (24, carparkfull)
    ∷ (27, open_by_server)
    ∷ (28, status_online)
    ∷ (30, continue_open)
    ∷ (32, download_tariff)
    ∷ (33, download_holiday)
    ∷ (35, set_time)
    ∷ (36, time_for_no_entry)
    ∷ (37, clear_season)
    ∷ (41, download_type)
    ∷ (42, close_by_server)
    ∷ (45, download_xtariff)
    ∷ (49, download_tr)
    ∷ (51, update_setting)
    ∷ (65, set_lot_count)
    ∷ (67, lock_up_barrier)
    ∷ (68, available_lots)
    ∷ (90, broadcast_save_trans)
    ∷ (301, fee_test)
    ∷ (303, set_dio_output)
    ∷ []

abbrev pub lookup {ℓ} : {A : Type ℓ} → List (ℕ × A) → ℤ → Option A
lookup [] n = none
lookup ((k, a) ∷ rest) n = let r = lookup rest n in if is_pos n k then some a else r

-- A vehicle that stands on loop A is let in once the car park is no longer full.
unfoldable pub readmit : Orders → Host → Host
unfolding ran env_of
readmit o h =
    if h.world.station.process.loop_present && not (is_empty h.world.station.entry.iu_tk_no)
    then ran (pbs_entry (env_of o h) h.world.station.entry.iu_tk_no) h
    else h

unfoldable pub set_full : Orders → Bool → Host → Host
unfolding readmit full_idle default_idle
set_full o b h =
    if eq_Bool b h.carpark_full
    then h
    else let g = record h { carpark_full = b } in
      if b then full_idle o g else default_idle o (readmit o g)

-- The parameter LockBarrier is written, and kept where that succeeds.
unfoldable pub keep_lock : Orders → Bytes → Bool → Host → Host
unfolding noted
keep_lock o value b h =
    let g = noted (parameter_written (codes "LockBarrier") value) h in
    if is_pos (o.write_parameter (codes "LockBarrier") value) 0
    then record g { lock_barrier = b }
    else g

unfoldable pub set_entry_time : Bytes → Op
set_entry_time t s =
    continue (with_exit s (record (s.exit) { entry_time = t; no_entry_record = pos 0 })) []

unfoldable pub entry_time_known : Orders → Bytes → Host → Host
unfolding ran env_of set_entry_time
entry_time_known o text h =
    if h.world.station.process.loop_present
    then ran
        (set_entry_time (get_or (o.split text) 1 o.beyond)
          then_op call (received_entry_record (env_of o h)))
        h
    else h

unfoldable pub come_online : Host → Host
unfolding noted
come_online h =
    if is_pos h.system_online 0
    then h
    else let g = record h { system_online = pos 0 } in
      if ltb 0 h.offline_data then noted offline_moved g else g

unfoldable pub tell_fee : Orders → Bytes → ℤ → Host → Host
unfolding noted
tell_fee o text t h =
    let fee = o.fee (get_or (o.split text) 0 o.beyond) (get_or (o.split text) 1 o.beyond) t in
    if leb_ℤ (pos 0) fee
    then noted
        (to_server (codes "302") (text ++ codes "," ++ set_fee_format fee ++ codes ", Fee OK")) h
    else h

-- A number that does not convert ends a command.
abbrev pub converted : Option ℤ → (ℤ → Host → Host) → Host → Host
converted none f h = h
converted (some n) f h = f n h

unfoldable pub test_fee : Orders → Bytes → Host → Host
unfolding tell_fee
test_fee o text = converted (o.stoi (get_or (o.split text) 2 o.beyond)) (tell_fee o text)

unfoldable pub broadcast : Orders → List Bytes → Host → Host
unfolding noted
broadcast o fs h =
    let number = get_or (o.split (field fs 3)) 0 o.beyond in
    if contains (codes "Entry OK") (field fs 3)
    then (if contains (codes "," ++ field fs 1 ++ codes ",") o.zone_entries
        then noted (broadcast_inserted (field fs 1) number) h
        else h)
    else if contains (codes "Exit OK") (field fs 3)
    then noted (local_entry_updated number) h
    else h

-- The branches of the `switch`. A conversion that throws ends the command.
unfoldable pub serve : Command → Orders → List Bytes → Host → Host
unfolding noted ran env_of download load_if set_pin set_full keep_lock entry_time_known come_online
    test_fee broadcast default_idle field
serve stop_station_software o fs h =
    noted shut_down (noted (to_server (codes "09") (codes "11Stopping...")) h)
serve status_enquiry o fs h = noted (send_my_status o.env h.world.faults) h
serve status_online o fs h = noted (to_server (codes "99") []) (come_online h)
serve update_season o fs h = download o seasons (codes "Season") h
serve download_msg o fs h =
    let g =
      noted (loaded exit_messages)
        (noted (loaded led_messages) (download o led_messages (codes "Messages") h)) in
    if g.carpark_full then g else default_idle o g
serve fee_test o fs h = test_fee o (field fs 3) h
serve download_xtariff o fs h =
    load_if (ltb_ℤ (pos 0) (o.count xtariffs)) xtariffs (download o xtariffs (codes "XTariff") h)
serve download_tariff o fs h = load_if (ltb_ℤ (pos 0) (o.count tariffs)) tariffs (
    download o tariffs (codes "Tariff") (
      load_if (ltb_ℤ (pos 0) (o.count tariff_types)) tariff_types
        (noted (downloaded tariff_types) h)))
serve download_holiday o fs h = noted (loaded holidays) (download o holidays (codes "Holiday") h)
serve update_param o fs h = noted (loaded parameters) (download o parameters (codes "Parameter") h)
serve download_type o fs h =
    noted (loaded vehicle_types) (download o vehicle_types (codes "Vehicle Type") h)
serve open_by_server o fs h = ran (manual_open_barrier (env_of o h)) h
serve close_by_server o fs h =
    noted (to_server (codes "99") (codes "Close Barrier"))
      (keep_lock o (codes "0") false (ran manual_close_barrier h))
serve continue_open o fs h =
    noted (to_server (codes "99") (codes "Continue Open Barrier"))
      (keep_lock o (codes "1") true (ran continue_open_barrier h))
serve set_time o fs h = noted time_synced h
serve carparkfull o fs h = converted (o.stoi (field fs 3)) (λ n. set_full o (not (is_pos n 0))) h
serve clear_season o fs h = noted local_season_cleared h
serve update_setting o fs h =
    noted (loaded station_setup) (download o station_setup (codes "Station Setup") h)
serve download_tr o fs h = noted (loaded receipts) (download o receipts (codes "TR") h)
serve time_for_no_entry o fs h = entry_time_known o (field fs 3) h
serve set_lot_count o fs h = h
serve lock_up_barrier o fs h = h
serve available_lots o fs h = noted (lots_shown (field fs 3)) h
serve set_dio_output o fs h =
    converted (o.stoi (field fs 3)) (λ n. converted (o.stoi (field fs 4)) (set_pin o n)) h
serve broadcast_save_trans o fs h = broadcast o fs h

-- The command of four fields or more.
unfoldable pub order_of : Orders → List Bytes → Option Command
unfolding field
order_of o fs =
    if ltb (length fs) 4
    then none
    else elim (o.stoi (field fs 2)) [ none ↦ none | some n ↦ lookup command_codes n ]

unfoldable pub process_data : Orders → Bytes → Host → Host
unfolding order_of serve
process_data o buffer h =
    let fs = parse_buffer buffer in elim (order_of o fs) [ none ↦ h | some c ↦ serve c o fs h ]
