-- ===== src/Examples/Server.antt =====
-- The commands of the server on concrete inputs.
use my_linux_pbs.Base.{arith, ◌≡◌, refl, true, false, some, [], ◌∷◌, if◌then◌else◌, bytes_eq, codes}
use my_linux_pbs.Base.Int.{pos, negsuc}
use my_linux_pbs.Text.Decimal.{to_string}
use my_linux_pbs.Text.Split.{IsFree-holds, parse_string}
use my_linux_pbs.Text.Fields.{framed, received, parse_buffer}
use my_linux_pbs.Text.Fields.Framed.{parse_buffer-received}
use my_linux_pbs.Dio.Pins.{output_pin_num}
use my_linux_pbs.Station.Env.{entry_station}
use my_linux_pbs.Station.Marks.{opened, marks}
use my_linux_pbs.Station.Host.{Host, Orders, upload_done}
use my_linux_pbs.Station.Server.{order_of, process_data}
use my_linux_pbs.Station.State.{Station}
use my_linux_pbs.Examples.Samples.{setup, at_rest}
use my_linux_pbs.Examples.Events.{quiet}

-- A shorter message over a longer one.
parse_buffer-received_example :
    parse_buffer (
      received
        (framed (codes "PMS") 0 (codes "24") (codes "0"))
        (codes "[PMS|0|22|an older and longer message|]"))
    ≡ codes "PMS" ∷ codes "0" ∷ codes "24" ∷ codes "0" ∷ []
unfolding to_string framed
parse_buffer-received_example =
    parse_buffer-received (codes "PMS") (codes "24") (codes "0")
      (codes "[PMS|0|22|an older and longer message|]") 0
      (
        IsFree-holds b'|' (codes "PMS") refl,
        IsFree-holds b']' (codes "PMS") refl,
        IsFree-holds 0 (codes "PMS") refl,
      )
      (
        IsFree-holds b'|' (codes "24") refl,
        IsFree-holds b']' (codes "24") refl,
        IsFree-holds 0 (codes "24") refl,
      )
      (
        IsFree-holds b'|' (codes "0") refl,
        IsFree-holds b']' (codes "0") refl,
        IsFree-holds 0 (codes "0") refl,
      )
      (omega arith)

abbrev orders : Orders
orders = record {
  env = setup entry_station (negsuc 0) 0;
  stoi = λ t. if bytes_eq t (codes "24") then some (pos 24) else some (pos 0);
  split = λ t. t ∷ [];
  beyond = [];
  count = λ t. pos 0;
  write_parameter = λ n v. pos 0;
  fee = λ a b t. pos 0;
  has_pin = λ n. true;
  open_barrier_no = pos 1;
  close_barrier_no = pos 2;
  zone_entries = [];
  default_led = λ t. codes "Welcome";
  default_lcd = λ t. codes "Welcome";
  full_led = codes "Full";
  full_lcd = codes "Full";
  copies_ini = λ a b. true;
  db_error_flag = pos 0;
  reaches_server = true;
  log_files = 0;
  upload = upload_done;
  version = codes "1.0";
}

-- A vehicle that was let in still stands on loop A of a full car park.
abbrev full : Host
full = record {
  world = record quiet { station = inside };
  carpark_full = true;
  idle_led = codes "Full";
  idle_lcd = codes "Full";
  lock_barrier = false;
  system_online = pos 0;
  offline_data = 0;
  monitor_status = false;
}
  where
    inside : Station
    inside =
        let s = at_rest [] in
        record s {
          process = record (s.process) { loop_present = true };
          entry = record (s.entry) { iu_tk_no = codes "WXY1234"; entry_ok = true };
        }

-- Output 1 is the one of the barrier's opening, output 3 is another.
abbrev output_orders : Orders
output_orders = record orders {
  stoi = λ t.
      if bytes_eq t (codes "303")
      then some (pos 303)
      else if bytes_eq t (codes "3")
      then some (pos 3)
      else some (pos 1);
}

output_opens :
    marks (process_data output_orders (codes "[PMS|0|303|1|1|]") full).world.sent ≡ opened ∷ []
unfolding process_data order_of parse_buffer parse_string output_pin_num
output_opens = refl

other_output : marks (process_data output_orders (codes "[PMS|0|303|3|1|]") full).world.sent ≡ []
unfolding process_data order_of parse_buffer parse_string output_pin_num
other_output = refl
