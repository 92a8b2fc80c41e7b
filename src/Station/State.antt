-- ===== src/Station/State.antt =====
-- What a station keeps (`tProcess`, `tEntry`, `tExit` of structuredata.h and the members of
-- `operation`), what it is asked with and what it sends. Amounts are cents, in a `float` of the
-- source; a text is its bytes.
use my_linux_pbs.Base.{ℕ, Bool, Bytes}
use my_linux_pbs.Base.Int.{ℤ}

-- An amount in cents.
abbrev pub Money : Type 0
Money = ℤ

-- The fields of `tEntryTrans_Struct` that `Clearme` resets.
pub record Entry : Type 0 where
  pub esid : Bytes
  pub serial_no : Bytes
  pub iu_tk_no : Bytes
  pub entry_time : Bytes
  pub trans_type : ℕ
  pub rate_type : ℕ
  pub status : ℕ
  pub card_no : Bytes
  pub fee : Money
  pub paid_amt : Money
  pub gst_amt : Money
  pub receipt_no : Bytes
  pub card_type : ℕ
  pub owe_amt : Money
  pub lpn_front : Bytes
  pub lpn_rear : Bytes
  pub vehicle_type : ℕ
  pub entry_ok : Bool

-- `eProcessStatus`.
pub data DeductionStatus : Type 0 where
  init waiting_card doing_deduction deduction_successed deduction_failed card_expired card_fault
        insufficient_bal :
      DeductionStatus

-- The fields of `tExitTrans_Struct` that `Clearme` resets.
pub record Exit : Type 0 where
  pub xsid : Bytes
  pub exit_time : Bytes
  pub iu_no : Bytes
  pub card_no : Bytes
  pub trans_type : ℕ
  pub parked_time : ℤ
  pub fee : Money
  pub paid_amt : Money
  pub receipt_no : Bytes
  pub flag_for_receipt : ℕ
  pub status : ℕ
  pub owe_amt : Money
  pub prepaid : Money
  pub redeem_amt : Money
  pub redeem_time : ℕ
  pub redeem_no : Bytes
  pub gst_amt : Money
  pub chu_debit_code : Bytes
  pub card_type : ℕ
  pub topup_amt : Money
  pub upos_batch_no : Bytes
  pub fee_from : Bytes
  pub lpn : Bytes
  pub rate_type : ℕ
  pub entry_time : Bytes
  pub valid_to : Bytes
  pub valid_from : Bytes
  pub entry_id : ℕ
  pub exit_no : Bytes
  pub use_multi_card : ℕ
  pub need_send_iu_to_entry : ℕ
  pub partial_season : ℕ
  pub register_card : Bytes
  pub attached_trans_type : ℕ
  pub cal_fee_time : Bytes
  pub rebate_amt : Money
  pub rebate_balance : Money
  pub rebate_date : Bytes
  pub lpn_front : Bytes
  pub lpn_rear : Bytes
  pub vehicle_type : ℕ
  pub entry_lpn : Bytes
  pub video_location : Bytes
  pub video1_location : Bytes
  pub deduction_status : DeductionStatus
  pub paid : Bool
  pub no_entry_record : ℤ
  pub pay_by_ez_pay : Bool
  pub tag : Bytes

-- The flags of `tProcess` and the members of `operation` that the operations below use.
pub record Process : Type 0 where
  pub show_type : ℕ
  pub is_season : ℕ
  pub card_is_in : ℕ
  pub saved_trans : Bool
  pub enable_reader : Bool
  pub barrier_opened : Bool
  pub continue_opened : ℕ
  pub barrier_pulse : ℕ
  pub trans_id : Bytes
  pub loop_present : Bool
  pub last_iu_no : Bytes
  pub last_iu_entry_time : ℕ
  pub last_paid_trans : Bytes
  pub last_paid_status : Bool
  pub last_card_no : Bytes
  pub last_card_bal : Money
  pub last_trans_time : ℕ
  pub last_action : ℕ
  pub db_error : ℤ
  pub last_led : Bytes
  pub last_lcd : Bytes

pub record Station : Type 0 where
  pub process : Process
  pub entry : Entry
  pub exit : Exit

-- What is copied from the central database, and read from the local one.
pub data Table : Type 0 where
  seasons led_messages exit_messages xtariffs tariff_types tariffs holidays parameters vehicle_types
        station_setup receipts :
      Table

-- The calls that leave the station's own state.
pub data Action : Type 0 where
  led_queued : Bytes → Action
  lcd_queued : Bytes → Action
  to_server : Bytes → Bytes → Action
  open_output : ℕ → Action
  close_output : ℕ → Action
  backlight : ℕ → Action
  waited : ℕ → Action
  loop_timer_started : Action
  loop_timer_stopped : Action
  trans_id_to_lpr : Bytes → Bool → Action
  entry_inserted : Entry → Action
  exit_inserted : Exit → Action
  movement_updated : Exit → Action
  movement_inserted : Exit → Action
  local_entry_updated : Bytes → Action
  entry_lpn_updated : Bytes → Bytes → Action
  exit_lpn_updated : Bytes → Bytes → Action
  remote_control_added : Bytes → Bytes → Action
  pay_requested : Money → Bytes → Action
  payment_refunded : Action
  sys_event_added : Bytes → Action
  monitor_told : Bytes → Bytes → Action
  downloaded : Table → Action
  loaded : Table → Action
  parameter_written : Bytes → Bytes → Action
  offline_moved : Action
  local_season_cleared : Action
  time_synced : Action
  broadcast_inserted : Bytes → Bytes → Action
  pin_set : ℕ → ℤ → Action
  lots_shown : Bytes → Action
  shut_down : Action
  exited : Action
