-- ===== src/Dio/Signals.antt =====
-- The inputs that dio.cpp watches, the events of dio.h and what one scan sends out.
use my_linux_pbs.Base.{ℕ, Bool, ◌&&◌}
use my_linux_pbs.Base.Int.{ℤ, is_pos}

-- The ten inputs, in the order in which the scan reads them.
pub data Channel : Type 0 where
  loop_a loop_b loop_c intercom station_door barrier_door barrier_status manual_open lorry_sensor
        arm_broken :
      Channel

-- `enum class DIO_EVENT`.
pub data DioEvent : Type 0 where
  loop_a_on loop_a_off loop_b_on loop_b_off loop_c_on loop_c_off intercom_on intercom_off
        station_door_opened station_door_closed barrier_door_opened barrier_door_closed
        barrier_status_on barrier_status_off manual_open_on manual_open_off lorry_sensor_on
        lorry_sensor_off arm_broken_on arm_broken_off print_receipt_on print_receipt_off
        open_too_long_on open_too_long_off :
      DioEvent

-- What a scan sends: an event on the queue, or the state of an input to the monitor.
pub data Output : Type 0 where
  event : DioEvent → Output
  input_status : Channel → ℕ → Output

-- GPIO_HIGH and GPIO_LOW; a failed read of a pin is the value -1, which is neither.
abbrev pub is_high : ℤ → Bool
is_high v = is_pos v 1

abbrev pub is_low : ℤ → Bool
is_low v = is_pos v 0

-- The two tests that the scan makes of a current and a last value.
abbrev pub rises : ℤ → ℤ → Bool
rises curr last = is_high curr && is_low last

abbrev pub falls : ℤ → ℤ → Bool
falls curr last = is_low curr && is_high last
