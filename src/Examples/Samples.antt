-- ===== src/Examples/Samples.antt =====
-- A station's setup and states for the examples.
use my_linux_pbs.Base.{ℕ, true, false, [], codes, Bytes}
use my_linux_pbs.Base.Int.{ℤ, pos, negsuc}
use my_linux_pbs.Station.State.{Station, Process, Entry, Exit, init}
use my_linux_pbs.Station.Env.{Env, StationType}

-- A station whose database knows no black list, with the season answer and rate type given, and a
-- fee of 250 cents.
abbrev pub setup : StationType → ℤ → ℕ → Env
setup t season rate = record {
  station_type = t;
  sid = 3;
  carpark_code = codes "KL01";
  led = λ m. codes "Season parking";
  lcd = λ m. codes "Season parking";
  partial_season_msg = λ n. codes "Night season";
  carpark_full = false;
  full_action = 0;
  season_only_ini = 0;
  block_iu_prefix = codes "999";
  max_trans_interval = 30;
  operation_timeout = 60;
  lpn_timeout = 5;
  season_charge = 0;
  lorry_sensor = pos 0;
  loop_a_status = pos 1;
  loop_b_status = pos 0;
  now = 1000;
  now_text = codes "2025-06-06 10:00:00";
  now_compact = codes "20250606100000";
  is_black_list = λ iu. negsuc 0;
  is_valid_season = λ iu n. season;
  season_rate_type = rate;
  season_date_from = [];
  season_date_to = [];
  insert_entry = λ e. pos 0;
  insert_exit = λ x. pos 7;
  update_movement = λ x. pos 7;
  insert_movement = λ x. pos 7;
  check_card = λ c. pos 0;
  parked_minutes = λ a b. pos 90;
  before = λ a b. false;
  time_after = λ a n. a;
  hour_minute = λ a. codes "08:30";
  fee_between = λ a b n. pos 250;
}

abbrev pub process_at_rest : Process
process_at_rest = record {
  show_type = 0;
  is_season = 0;
  card_is_in = 0;
  saved_trans = false;
  enable_reader = false;
  barrier_opened = false;
  continue_opened = 0;
  barrier_pulse = 500;
  trans_id = [];
  loop_present = true;
  last_iu_no = [];
  last_iu_entry_time = 0;
  last_paid_trans = [];
  last_paid_status = false;
  last_card_no = [];
  last_card_bal = pos 0;
  last_trans_time = 0;
  last_action = 0;
  db_error = pos 0;
  last_led = [];
  last_lcd = [];
}

abbrev pub no_entry : Entry
no_entry = record {
  esid = [];
  serial_no = [];
  iu_tk_no = [];
  entry_time = [];
  trans_type = 1;
  rate_type = 0;
  status = 0;
  card_no = [];
  fee = pos 0;
  paid_amt = pos 0;
  gst_amt = pos 0;
  receipt_no = [];
  card_type = 0;
  owe_amt = pos 0;
  lpn_front = codes "WXY1234";
  lpn_rear = codes "WXY1234";
  vehicle_type = 0;
  entry_ok = false;
}

-- A car that leaves with a redemption of 1 RM and is owed nothing.
abbrev pub leaving : Bytes → Exit
leaving iu = record {
  xsid = [];
  exit_time = [];
  iu_no = iu;
  card_no = [];
  trans_type = 1;
  parked_time = pos 90;
  fee = pos 0;
  paid_amt = pos 0;
  receipt_no = [];
  flag_for_receipt = 0;
  status = 0;
  owe_amt = pos 0;
  prepaid = pos 0;
  redeem_amt = pos 100;
  redeem_time = 0;
  redeem_no = [];
  gst_amt = pos 0;
  chu_debit_code = [];
  card_type = 0;
  topup_amt = pos 0;
  upos_batch_no = [];
  fee_from = [];
  lpn = [];
  rate_type = 0;
  entry_time = codes "2025-06-06 08:30:00";
  valid_to = [];
  valid_from = [];
  entry_id = 0;
  exit_no = [];
  use_multi_card = 0;
  need_send_iu_to_entry = 0;
  partial_season = 0;
  register_card = [];
  attached_trans_type = 0;
  cal_fee_time = [];
  rebate_amt = pos 0;
  rebate_balance = pos 0;
  rebate_date = [];
  lpn_front = [];
  lpn_rear = [];
  vehicle_type = 0;
  entry_lpn = [];
  video_location = [];
  video1_location = [];
  deduction_status = init;
  paid = false;
  no_entry_record = pos 0;
  pay_by_ez_pay = false;
  tag = [];
}

abbrev pub at_rest : Bytes → Station
at_rest iu = record { process = process_at_rest; entry = no_entry; exit = leaving iu }
