-- ===== src/Station/Monitored.antt =====
-- The commands of the monitor, `processmonitordata` of udp.cpp with what `operation` answers to it, and
-- the port on which a datagram came, `startreceive`.
use my_linux_pbs.Base.{
  ℕ, Bool, true, false, not, ◌&&◌, Option, none, some, List, [], ◌∷◌, ◌++◌, ◌==◌, ltb,
  if◌then◌else◌, length, get_or, Bytes, bytes_eq, codes, is_empty,
}
use my_linux_pbs.Base.Int.{is_pos}
use my_linux_pbs.Text.Split.{parse_string}
use my_linux_pbs.Text.Fields.{field, parse_buffer}
use my_linux_pbs.Station.State.{parameters, downloaded, loaded, time_synced, exited}
use my_linux_pbs.Station.Faults.{numbers}
use my_linux_pbs.Station.Host.{
  Host, upload_thrown, upload_failed, upload_done, Orders, noted, set_pin, tell_monitor,
}
use my_linux_pbs.Station.Server.{lookup, converted, process_data}

pub data MonitorCommand : Type 0 where
  monitor_stop monitor_enquiry monitor_fee_test monitor_output download_ini download_param sync_time
        status_of_monitor station_version curr_log :
      MonitorCommand

abbrev pub monitor_codes : List (ℕ × MonitorCommand)
monitor_codes =
    (11, monitor_stop)
    ∷ (300, monitor_enquiry)
    ∷ (301, monitor_fee_test)
    ∷ (303, monitor_output)
    ∷ (309, download_ini)
    ∷ (310, download_param)
    ∷ (311, sync_time)
    ∷ (312, status_of_monitor)
    ∷ (313, station_version)
    ∷ (314, curr_log)
    ∷ []

-- `FnSendMyStatusToMonitor`.
unfoldable pub send_status_to_monitor : Orders → Host → Host
unfolding tell_monitor numbers
send_status_to_monitor o h =
    tell_monitor (codes "300")
      (numbers h.world.faults 0 17 ++ codes "0;0," ++ o.env.now_compact ++ codes ",") h

-- The acknowledgements 309, 310 and 314.
unfoldable pub acknowledge : Bytes → Bool → Host → Host
unfolding tell_monitor
acknowledge cmd ok h = tell_monitor cmd (if ok then codes "99" else codes "98") h

-- `CopyIniFile`: nothing is copied without an address and a station.
unfoldable pub copy_ini_file : Orders → Bytes → Bytes → Bool
copy_ini_file o address station =
    not (is_empty address) && not (is_empty station) && o.copies_ini address station

-- `FnSendCmdGetStationCurrLogToMonitor`: nothing is uploaded without an answer of the server, and no
-- file is an exception.
unfoldable pub log_is_sent : Orders → Bool
log_is_sent o =
    if o.reaches_server
    then (if ltb 0 o.log_files
        then elim o.upload [ upload_thrown ↦ false | upload_failed ↦ false | upload_done ↦ true ]
        else false)
    else true

-- Two numbers, the pin and its value.
unfoldable pub set_output : Orders → Bytes → Host → Host
unfolding set_pin
set_output o text h =
    let tokens = parse_string text b',' in
    if length tokens == 2
    then converted (o.stoi (get_or tokens 0 []))
        (λ n. converted (o.stoi (get_or tokens 1 [])) (set_pin o n)) h
    else h

unfoldable pub serve_monitor : MonitorCommand → Orders → List Bytes → Host → Host
unfolding noted tell_monitor send_status_to_monitor acknowledge copy_ini_file log_is_sent set_output
    field
serve_monitor status_of_monitor o fs h =
    converted (o.stoi (field fs 3)) (λ n g. record g { monitor_status = is_pos n 1 }) h
serve_monitor monitor_enquiry o fs h = send_status_to_monitor o h
serve_monitor monitor_fee_test o fs h = h
serve_monitor monitor_output o fs h = set_output o (field fs 3) h
serve_monitor download_ini o fs h =
    acknowledge (codes "309") (copy_ini_file o (field fs 0) (field fs 3)) h
serve_monitor download_param o fs h =
    let g = noted (downloaded parameters) h in
    if is_pos o.db_error_flag 0
    then acknowledge (codes "310") true (noted (loaded parameters) g)
    else acknowledge (codes "310") false g
serve_monitor sync_time o fs h = noted time_synced h
serve_monitor monitor_stop o fs h = noted exited (tell_monitor (codes "11") (codes "99") h)
serve_monitor station_version o fs h = tell_monitor (codes "313") o.version h
serve_monitor curr_log o fs h = acknowledge (codes "314") (log_is_sent o) h

unfoldable pub monitor_order_of : Orders → List Bytes → Option MonitorCommand
unfolding field
monitor_order_of o fs =
    if ltb (length fs) 4
    then none
    else elim (o.stoi (field fs 2)) [ none ↦ none | some n ↦ lookup monitor_codes n ]

unfoldable pub process_monitor_data : Orders → Bytes → Host → Host
unfolding monitor_order_of serve_monitor
process_monitor_data o buffer h =
    let fs = parse_buffer buffer in
    elim (monitor_order_of o fs) [ none ↦ h | some c ↦ serve_monitor c o fs h ]

-- A datagram that the station has sent itself is dropped. The local port is tested first.
unfoldable pub start_receive : Orders → Bytes → Bytes → ℕ → ℕ → Bytes → Host → Host
unfolding process_data process_monitor_data
start_receive o sender own local_port port buffer h =
    if bytes_eq sender own
    then h
    else if port == local_port
    then process_data o buffer h
    else if port == 2008
    then process_monitor_data o buffer h
    else h
