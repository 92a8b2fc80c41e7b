-- ===== src/Station/Clear.antt =====
-- `operation::Clearme`.
use my_linux_pbs.Base.{ℕ, false, []}
use my_linux_pbs.Base.Int.{pos, negsuc}
use my_linux_pbs.Text.Decimal.{to_string}
use my_linux_pbs.Station.State.{Station, Process, Entry, Exit, init}
use my_linux_pbs.Station.Op.{Op, continue}
use my_linux_pbs.Station.Env.{Env, StationType, entry_station, exit_station}

unfoldable pub cleared_entry : ℕ → Entry → Entry
cleared_entry sid e = record e {
  esid = to_string sid;
  serial_no = [];
  iu_tk_no = [];
  entry_time = [];
  trans_type = 1;
  rate_type = 0;
  status = 0;
  card_no = [];
  fee = pos 0;
  paid_amt = pos 0;
  gst_amt = pos 0;
  receipt_no = [];
  card_type = 0;
  owe_amt = pos 0;
  lpn_front = [];
  lpn_rear = [];
  vehicle_type = 0;
  entry_ok = false;
}

-- The tag of a redemption ticket is the one field that stays.
unfoldable pub cleared_exit : ℕ → Exit → Exit
cleared_exit sid x = record x {
  xsid = to_string sid;
  exit_time = [];
  iu_no = [];
  card_no = [];
  trans_type = 0;
  parked_time = pos 0;
  fee = pos 0;
  paid_amt = pos 0;
  receipt_no = [];
  flag_for_receipt = 0;
  status = 0;
  owe_amt = pos 0;
  prepaid = pos 0;
  redeem_amt = pos 0;
  redeem_time = 0;
  redeem_no = [];
  gst_amt = pos 0;
  chu_debit_code = [];
  card_type = 0;
  topup_amt = pos 0;
  upos_batch_no = [];
  fee_from = [];
  lpn = [];
  rate_type = 0;
  entry_time = [];
  valid_to = [];
  valid_from = [];
  entry_id = 0;
  exit_no = [];
  use_multi_card = 0;
  need_send_iu_to_entry = 0;
  partial_season = 0;
  register_card = [];
  attached_trans_type = 0;
  cal_fee_time = [];
  rebate_amt = pos 0;
  rebate_balance = pos 0;
  rebate_date = [];
  lpn_front = [];
  lpn_rear = [];
  vehicle_type = 0;
  entry_lpn = [];
  video_location = [];
  video1_location = [];
  deduction_status = init;
  paid = false;
  no_entry_record = negsuc 0;
  pay_by_ez_pay = false;
}

unfoldable pub cleared_process : Process → Process
cleared_process p = record p {
  show_type = 1;
  is_season = 0;
  card_is_in = 0;
  saved_trans = false;
  enable_reader = false;
  barrier_opened = false;
}

unfoldable pub cleared : ℕ → StationType → Station → Station
cleared sid entry_station s = record s {
  process = record (cleared_process s.process) { trans_id = [] };
  entry = cleared_entry sid s.entry;
}
cleared sid exit_station s = record s {
  process = cleared_process s.process;
  exit = cleared_exit sid s.exit;
}

unfoldable pub clear_me : Env → Op
unfolding cleared cleared_process
clear_me env s = continue (cleared env.sid env.station_type s) []
