-- ===== src/Station/Env.antt =====
-- What the operations read and do not change: the station's setup and parameters, the messages,
-- the sensors, the clock, and the answers of the database and of the fee calculation.
use my_linux_pbs.Base.{ℕ, Bool, Bytes}
use my_linux_pbs.Base.Int.{ℤ}
use my_linux_pbs.Station.State.{Entry, Exit, Money}

-- The pairs of LED and LCD text of `tMsg` and `tExitMsg`.
pub data Message : Type 0 where
  loop_a_msg black_list lock_station season_only season_passback season_as_hourly with_iu
        season_invalid valid_season season_expired season_terminated season_blocked season_not_start
        season_within_allowance whole_day_parking exit_loop_a exit_season_invalid exit_valid_season
        exit_season_expired exit_season_terminated exit_season_blocked exit_season_not_start
        exit_season_within_allowance master_season exit_black_list exit_card_in redemption_ticket
        invalid_ticket system_error redemption_expired comp_expired complimentary used_ticket
        no_card :
      Message

pub data StationType : Type 0 where
  entry_station exit_station : StationType

pub record Env : Type 0 where
  pub station_type : StationType
  pub sid : ℕ
  pub carpark_code : Bytes
  pub led : Message → Bytes
  pub lcd : Message → Bytes
  pub partial_season_msg : ℕ → Bytes
  pub carpark_full : Bool
  pub full_action : ℕ
  pub season_only_ini : ℕ
  pub block_iu_prefix : Bytes
  pub max_trans_interval : ℕ
  pub operation_timeout : ℕ
  pub lpn_timeout : ℕ
  pub season_charge : ℕ
  pub lorry_sensor : ℤ
  pub loop_a_status : ℤ
  pub loop_b_status : ℤ
  pub now : ℕ
  pub now_text : Bytes
  pub now_compact : Bytes
  pub is_black_list : Bytes → ℤ
  pub is_valid_season : Bytes → ℕ → ℤ
  pub season_rate_type : ℕ
  pub season_date_from : Bytes
  pub season_date_to : Bytes
  pub insert_entry : Entry → ℤ
  pub insert_exit : Exit → ℤ
  pub update_movement : Exit → ℤ
  pub insert_movement : Exit → ℤ
  pub check_card : Bytes → ℤ
  pub parked_minutes : Bytes → Bytes → ℤ
  pub before : Bytes → Bytes → Bool
  pub time_after : Bytes → ℤ → Bytes
  pub hour_minute : Bytes → Bytes
  pub fee_between : Bytes → Bytes → ℕ → Money

abbrev pub is_entry : StationType → Bool
is_entry entry_station = Bool.true
is_entry exit_station = Bool.false
