-- ===== src/Station/Host.antt =====
-- What the commands of the server and of the monitor work on and what they read: udp.cpp.
use my_linux_pbs.Base.{
  Option, ℕ, Bool, not, ◌&&◌, ◌||◌, List, ◌++◌, ◌==◌, if◌then◌else◌, Bytes, codes,
}
use my_linux_pbs.Base.Int.{ℤ, pos, negsuc, is_pos, pos_part, ltb_ℤ}
use my_linux_pbs.Text.Decimal.{print}
use my_linux_pbs.Dio.Pins.{output_pin_num}
use my_linux_pbs.Station.State.{
  Money, Action, Table, to_server, monitor_told, downloaded, loaded, pin_set, open_output,
  close_output,
}
use my_linux_pbs.Station.Op.{Op}
use my_linux_pbs.Station.Env.{Env, StationType}
use my_linux_pbs.Station.Events.{World, run, note}

-- `gbcarparkfull`, the idle message, `gbLockBarrier`, `giSystemOnline`, `glNoofOfflineData` and
-- `monitorStatus_` beside the world of the events.
pub record Host : Type 0 where
  pub world : World
  pub carpark_full : Bool
  pub idle_led : Bytes
  pub idle_lcd : Bytes
  pub lock_barrier : Bool
  pub system_online : ℤ
  pub offline_data : ℕ
  pub monitor_status : Bool

-- The upload of the log files: whether it throws, and whether a file could not be copied.
pub data Upload : Type 0 where
  upload_thrown upload_failed upload_done : Upload

-- What a command reads. `beyond` is what an index behind the pieces of a text reads.
pub record Orders : Type 0 where
  pub env : Env
  pub stoi : Bytes → Option ℤ
  pub split : Bytes → List Bytes
  pub beyond : Bytes
  pub count : Table → ℤ
  pub write_parameter : Bytes → Bytes → ℤ
  pub fee : Bytes → Bytes → ℤ → Money
  pub has_pin : ℕ → Bool
  pub open_barrier_no : ℤ
  pub close_barrier_no : ℤ
  pub zone_entries : Bytes
  pub default_led : StationType → Bytes
  pub default_lcd : StationType → Bytes
  pub full_led : Bytes
  pub full_lcd : Bytes
  pub copies_ini : Bytes → Bytes → Bool
  pub db_error_flag : ℤ
  pub reaches_server : Bool
  pub log_files : ℕ
  pub upload : Upload
  pub version : Bytes

unfoldable pub noted : Action → Host → Host
unfolding note
noted a h = record h { world = note a h.world }

unfoldable pub ran : Op → Host → Host
unfolding run
ran f h = record h { world = run f h.world }

-- What the lanes read: the flag of a full car park is the host's.
unfoldable pub env_of : Orders → Host → Env
env_of o h = record (o.env) { carpark_full = h.carpark_full }

unfoldable pub default_idle : Orders → Host → Host
default_idle o h = record h {
  idle_led = o.default_led o.env.station_type;
  idle_lcd = o.default_lcd o.env.station_type;
}

unfoldable pub full_idle : Orders → Host → Host
full_idle o h = record h { idle_led = o.full_led; idle_lcd = o.full_lcd }

-- The number of rows that were copied is told where it is above 0.
unfoldable pub download : Orders → Table → Bytes → Host → Host
unfolding noted
download o t what h =
    let g = noted (downloaded t) h in
    if ltb_ℤ (pos 0) (o.count t)
    then noted
        (to_server (codes "99") (codes "Download " ++ print (o.count t) ++ codes " " ++ what)) g
    else g

unfoldable pub load_if : Bool → Table → Host → Host
unfolding noted
load_if b t h = if b then noted (loaded t) h else h

-- A pin of the table is set to 0 or 1.
abbrev pub output_pin : ℤ → ℕ
output_pin (pos n) = output_pin_num n
output_pin (negsuc n) = 0

-- The pins of `open_barrier_do_` and `close_barrier_do_`, by the numbers of the ini file.
unfoldable pub open_barrier_do : Orders → ℕ
open_barrier_do o = output_pin o.open_barrier_no

unfoldable pub close_barrier_do : Orders → ℕ
close_barrier_do o = output_pin o.close_barrier_no

-- A value of a pin. The pins of the barrier are those that `FnSetOpenBarrier` and
-- `FnSetCloseBarrier` set.
unfoldable pub pin_action : Orders → ℕ → ℤ → Action
unfolding open_barrier_do close_barrier_do
pin_action o pin v =
    if pin == open_barrier_do o
    then open_output (pos_part v)
    else if pin == close_barrier_do o
    then close_output (pos_part v)
    else pin_set pin v

-- Whether a command sets a pin: it is in the table, the value is 0 or 1, and the pin was set up.
unfoldable pub can_set : Orders → ℕ → ℤ → Bool
can_set o pin v = not (pin == 0) && ((is_pos v 0 || is_pos v 1) && o.has_pin pin)

unfoldable pub set_pin : Orders → ℤ → ℤ → Host → Host
unfolding noted pin_action can_set
set_pin o n v h =
    let pin = output_pin n in if can_set o pin v then noted (pin_action o pin v) h else h

-- `SendMsg2Monitor` sends only while the monitor listens.
unfoldable pub tell_monitor : Bytes → Bytes → Host → Host
unfolding noted
tell_monitor cmd text h = if h.monitor_status then noted (monitor_told cmd text) h else h
