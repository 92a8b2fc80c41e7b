-- ===== src/Station/Events.antt =====
-- The events of the queue and their handlers: event_handler.cpp, with the event types of
-- event_manager.h.
pub mod Arrives
pub mod Loop
pub mod Serves
use my_linux_pbs.Base.{
  ℕ, Bool, true, false, Option, none, some, List, [], ◌∷◌, ◌++◌, ◌==◌, if◌then◌else◌, get_elem?,
  Bytes, bytes_eq, codes,
}
use my_linux_pbs.Base.Int.{ℤ, pos, negsuc}
use my_linux_pbs.Dio.Signals.{
  DioEvent, loop_a_on, loop_a_off, loop_b_on, loop_b_off, loop_c_on, loop_c_off, intercom_on,
  intercom_off, station_door_opened, station_door_closed, barrier_door_opened, barrier_door_closed,
  barrier_status_on, barrier_status_off, manual_open_on, manual_open_off, lorry_sensor_on,
  lorry_sensor_off, arm_broken_on, arm_broken_off, print_receipt_on, print_receipt_off,
  open_too_long_on, open_too_long_off,
}
use my_linux_pbs.Dio.Scan.{Monitor, set_manual_flag}
use my_linux_pbs.Station.State.{Station, Action, sys_event_added}
use my_linux_pbs.Station.Op.{Op, continue}
use my_linux_pbs.Station.Env.{Env}
use my_linux_pbs.Station.Barrier.{with_process}
use my_linux_pbs.Station.Found.{Queries}
use my_linux_pbs.Station.TicketAnswer.{Tickets}
use my_linux_pbs.Station.Ticket.{process_barcode_data}
use my_linux_pbs.Station.Lane.{Polls, loop_a_come, loop_a_gone, loop_c_gone, received_lpr}
use my_linux_pbs.Station.Manual.{manual_open_barrier}
use my_linux_pbs.Station.Reader.{exit_check, pay_result, card_num_result}
use my_linux_pbs.Station.Camera.{Plate, deserialize_event_data}
use my_linux_pbs.Station.Faults.{
  EpsError, Faults, s_door_error, s_door_no_error, b_door_error, b_door_no_error, barrier_fault,
  tng_no_error, tng_error, handle_pbs_error,
}

-- `Event<int>`, `Event<bool>` and `Event<std::string>`.
pub data Payload : Type 0 where
  int_data : ℤ → Payload
  bool_data : Bool → Payload
  text_data : Bytes → Payload

pub record Event : Type 0 where
  pub name : Bytes
  pub payload : Payload

-- What the event thread works on, and all that it has sent.
pub record World : Type 0 where
  pub station : Station
  pub monitor : Monitor
  pub faults : Faults
  pub sent : List Action

-- What a handler reads while it runs.
pub record Inputs : Type 0 where
  pub env : Env
  pub polls : Polls
  pub queries : Queries
  pub tickets : Tickets
  pub stoi : Bytes → Option ℤ

unfoldable pub run : Op → World → World
run f w = record w { station = (f w.station).state; sent = w.sent ++ (f w.station).sent }

unfoldable pub note : Action → World → World
note a w = record w { sent = w.sent ++ a ∷ [] }

unfoldable pub raise : Env → EpsError → ℕ → World → World
raise env e n w =
    let (f, out) = handle_pbs_error env e n w.faults in
    record w { faults = f; sent = w.sent ++ out }

unfoldable pub set_present : Bool → Op
set_present b s = continue (with_process s (record (s.process) { loop_present = b })) []

-- The flag is set where it was set: the setter ignores its argument.
unfoldable pub reset_manual : World → World
reset_manual w =
    if w.monitor.manual_flag == 1 then record w { monitor = set_manual_flag 0 w.monitor } else w

-- A barrier that opens without `Openbarrier` was opened by hand.
unfoldable pub barrier_up : Inputs → World → World
unfolding reset_manual run note
barrier_up i w =
    if w.station.process.barrier_opened
    then w
    else run (manual_open_barrier i.env)
        (note (sys_event_added (codes "Barrier up")) (reset_manual w))

unfoldable pub handle_input : Inputs → DioEvent → World → World
unfolding run note raise set_present barrier_up
handle_input i loop_a_on w = run (loop_a_come i.env i.polls) (run (set_present true) w)
handle_input i loop_a_off w = run (loop_a_gone i.env) (run (set_present false) w)
handle_input i loop_c_off w = run (loop_c_gone i.env i.polls) w
handle_input i station_door_opened w = raise i.env s_door_error 0 w
handle_input i station_door_closed w = raise i.env s_door_no_error 0 w
handle_input i barrier_door_opened w = raise i.env b_door_error 0 w
handle_input i barrier_door_closed w = raise i.env b_door_no_error 0 w
handle_input i barrier_status_on w = barrier_up i w
handle_input i arm_broken_on w =
    note (sys_event_added (codes "Arm failure detected.")) (raise i.env barrier_fault 3 w)
handle_input i arm_broken_off w =
    note (sys_event_added (codes "Arm recovered successfully.")) (raise i.env barrier_fault 0 w)
handle_input i open_too_long_on w =
    note (sys_event_added (codes "Barrier open too long detected.")) (raise i.env barrier_fault 2 w)
handle_input i open_too_long_off w =
    note (sys_event_added (codes "Barrier open too long - closed successfully."))
      (raise i.env barrier_fault 0 w)
handle_input i _ w = w

-- The values of the enumeration, in their order.
abbrev pub dio_events : List DioEvent
dio_events =
    loop_a_on ∷ loop_a_off ∷ loop_b_on ∷ loop_b_off ∷ loop_c_on ∷ loop_c_off ∷ intercom_on
    ∷ intercom_off ∷ station_door_opened ∷ station_door_closed ∷ barrier_door_opened
    ∷ barrier_door_closed ∷ barrier_status_on ∷ barrier_status_off ∷ manual_open_on
    ∷ manual_open_off ∷ lorry_sensor_on ∷ lorry_sensor_off ∷ arm_broken_on ∷ arm_broken_off
    ∷ print_receipt_on ∷ print_receipt_off ∷ open_too_long_on ∷ open_too_long_off ∷ []

abbrev pub dio_event_of : ℤ → Option DioEvent
dio_event_of (pos n) = get_elem? dio_events n
dio_event_of (negsuc n) = none

-- A handler refuses an event of another type.
unfoldable pub handle_dio_event : Inputs → Payload → World → World × Bool
unfolding handle_input
handle_dio_event i (int_data n) w = elim (dio_event_of n) [
  | none ↦ (w, true)
  | some e ↦ (handle_input i e w, true)
]
handle_dio_event i _ w = (w, false)

unfoldable pub plate_received : Inputs → Plate → Op
plate_received i p = received_lpr (exit_check i.queries) i.env p.lpn p.trans_id

unfoldable pub handle_lpr_receive : Inputs → Payload → World → World × Bool
unfolding plate_received run
handle_lpr_receive i (text_data t) w =
    (run (plate_received i (deserialize_event_data i.stoi t)) w, true)
handle_lpr_receive i _ w = (w, false)

unfoldable pub handle_barcode_received : Inputs → Payload → World → World × Bool
unfolding run
handle_barcode_received i (text_data t) w = (run (process_barcode_data i.env i.tickets t) w, true)
handle_barcode_received i _ w = (w, false)

-- The answer to a request to the reader; the three handlers of requests are the same.
unfoldable pub handle_tng_request : Inputs → Payload → World → World × Bool
unfolding raise
handle_tng_request i (bool_data true) w = (raise i.env tng_no_error 0 w, true)
handle_tng_request i (bool_data false) w = (raise i.env tng_error 0 w, true)
handle_tng_request i _ w = (w, false)

unfoldable pub handle_tng_pay_result_received : Inputs → Payload → World → World × Bool
unfolding run
handle_tng_pay_result_received i (text_data t) w = (run (pay_result i.env i.stoi t) w, true)
handle_tng_pay_result_received i _ w = (w, false)

unfoldable pub handle_tng_card_num_received : Inputs → Payload → World → World × Bool
unfolding run
handle_tng_card_num_received i (text_data t) w = (run (card_num_result i.env i.queries t) w, true)
handle_tng_card_num_received i _ w = (w, false)

abbrev pub EventFunction : Type 0
EventFunction = Inputs → Payload → World → World × Bool

-- `eventMap`.
unfoldable pub event_map : Bytes → Option EventFunction
unfolding handle_dio_event handle_lpr_receive handle_barcode_received handle_tng_request
    handle_tng_pay_result_received handle_tng_card_num_received
event_map name =
    if bytes_eq name (codes "Evt_handleDIOEvent")
    then some handle_dio_event
    else if bytes_eq name (codes "Evt_handleLPRReceive")
    then some handle_lpr_receive
    else if bytes_eq name (codes "Evt_handleBarcodeReceived")
    then some handle_barcode_received
    else if bytes_eq name (codes "Evt_handleTnGPayRequest")
    then some handle_tng_request
    else if bytes_eq name (codes "Evt_handleTnGPayCancelRequest")
    then some handle_tng_request
    else if bytes_eq name (codes "Evt_handleTnGEnableReaderRequest")
    then some handle_tng_request
    else if bytes_eq name (codes "Evt_handleTnGPayResultReceived")
    then some handle_tng_pay_result_received
    else if bytes_eq name (codes "Evt_handleTnGCardNumReceived")
    then some handle_tng_card_num_received
    else none

-- An unknown name is only logged.
unfoldable pub fn_handle_events : Inputs → Event → World → World
unfolding event_map
fn_handle_events i e w = elim (event_map e.name) [ none ↦ w | some f ↦ (f i e.payload w).0 ]
