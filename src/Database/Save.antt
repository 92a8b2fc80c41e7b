-- ===== src/Database/Save.antt =====
-- `insertentrytrans` and `insertexittrans`: into the central database, or into the local one where the
-- central one is not reached.
use my_linux_pbs.Base.{
  ◌==◌, ◌+◌, Bool, false, ◌&&◌, ◌||◌, Option, none, some, [], if◌then◌else◌, Bytes, codes, is_empty,
}
use my_linux_pbs.Base.Int.{ℤ, pos, negsuc, leb_ℤ}
use my_linux_pbs.Station.State.{Entry, Exit}
use my_linux_pbs.Station.Admission.{lpn_of}
use my_linux_pbs.Database.Rows.{EntryTrans, ExitTrans, Store, to_central, to_local}

-- `DBError`, with its values.
pub data DbError : Type 0 where
  central_fail local_fail db_success central_success local_success : DbError

abbrev pub code_of : DbError → ℤ
code_of central_fail = negsuc 1
code_of local_fail = negsuc 0
code_of db_success = pos 0
code_of central_success = pos 7
code_of local_success = pos 8

-- What the ODBC calls answer: `IsConnected`, `Connect` and the insert, for either database.
pub record Links : Type 0 where
  pub central_connected : ℤ
  pub central_connects : Bool
  pub central_accepts : Bool
  pub local_connected : ℤ
  pub local_connects : Bool
  pub local_accepts : Bool

abbrev pub is_one : ℤ → Bool
is_one (pos n) = n == 1
is_one (negsuc n) = false

abbrev pub is_minus_one : ℤ → Bool
is_minus_one (pos n) = false
is_minus_one (negsuc n) = n == 0

unfoldable pub reaches_local : Links → Bool
reaches_local k = is_one k.local_connected || k.local_connects

-- A number, since the column holds one.
unfoldable pub serial_of : (Bytes → Option ℤ) → Bytes → Bytes
serial_of stoi t = if is_empty t then codes "0" else elim (stoi t) [ none ↦ codes "0" | some n ↦ t ]

unfoldable pub stamped : (Bytes → Option ℤ) → Bytes → Entry → Entry
unfolding serial_of
stamped stoi now e = record e { entry_time = now; serial_no = serial_of stoi e.serial_no }

unfoldable pub entry_row : Entry → Bytes → Bytes → EntryTrans
entry_row e trans_id lpn = record {
  station_id = e.esid;
  time = e.entry_time;
  iu_tk_no = e.iu_tk_no;
  trans_type = e.trans_type;
  status = e.status;
  serial_no = e.serial_no;
  card_type = e.card_type;
  card_no = e.card_no;
  paid_amt = e.paid_amt;
  parking_fee = e.fee;
  gst_amt = e.gst_amt;
  lpn_sid = trans_id;
  lpn = lpn;
}

pub record Saved (A : Type 0) : Type 0 where
  pub answer : DbError
  pub transaction : A
  pub store : Store

-- The plate is not yet chosen where the local database is taken.
unfoldable pub insert_entry_local : Links → Bytes → Entry → Store → Saved Entry
unfolding reaches_local entry_row
insert_entry_local k trans_id e s =
    if reaches_local k && k.local_accepts
    then record {
      answer = db_success;
      transaction = e;
      store = record s {
        entries = to_local (entry_row e trans_id []) s.entries;
        offline_data = s.offline_data + 1;
      };
    }
    else record { answer = local_fail; transaction = e; store = s }

unfoldable pub insert_entry_central : Links → Bytes → Entry → Store → Saved Entry
unfolding entry_row
insert_entry_central k trans_id e s =
    if k.central_accepts
    then record {
      answer = db_success;
      transaction = e;
      store = record s {
        entries =
            to_central (entry_row e trans_id (lpn_of e.trans_type e.lpn_front e.lpn_rear))
              s.entries;
      };
    }
    else record { answer = central_fail; transaction = e; store = s }

unfoldable pub insert_entry_trans :
    (Bytes → Option ℤ) → Links → Bytes → Bytes → Entry → Store → Saved Entry
unfolding stamped insert_entry_local insert_entry_central
insert_entry_trans stoi k now trans_id e s =
    if is_one k.central_connected || k.central_connects
    then insert_entry_central k trans_id (stamped stoi now e) (record s { system_online = pos 0 })
    else insert_entry_local k trans_id (stamped stoi now e) (record s { system_online = pos 1 })

unfoldable pub exit_row : Exit → Bytes → ExitTrans
exit_row x trans_id = record {
  station_id = x.xsid;
  time = x.exit_time;
  iu_tk_no = x.iu_no;
  card_mc_no = x.card_no;
  trans_type = x.trans_type;
  parked_time = x.parked_time;
  parking_fee = x.fee;
  paid_amt = x.paid_amt;
  receipt_no = x.receipt_no;
  status = x.status;
  redeem_amt = x.redeem_amt;
  redeem_time = x.redeem_time;
  redeem_no = x.redeem_no;
  gst_amt = x.gst_amt;
  chu_debit_code = x.chu_debit_code;
  card_type = x.card_type;
  top_up_amt = x.topup_amt;
  upos_batch_no = x.upos_batch_no;
  fee_from = x.fee_from;
  lpn = x.lpn;
  entry_id = x.entry_id;
  entry_time = x.entry_time;
  lpn_sid = trans_id;
}

-- The central table has no room for more minutes, and no columns for the entry.
unfoldable pub capped : Exit → Exit
capped x = if leb_ℤ (pos 32000) x.parked_time then record x { parked_time = pos 32000 } else x

unfoldable pub insert_exit_local : Links → Bytes → Exit → Store → Saved Exit
unfolding reaches_local exit_row
insert_exit_local k trans_id x s =
    if reaches_local k && k.local_accepts
    then record {
      answer = local_success;
      transaction = x;
      store = record s {
        exits = to_local (exit_row x trans_id) s.exits;
        offline_data = s.offline_data + 1;
      };
    }
    else record { answer = local_fail; transaction = x; store = s }

unfoldable pub insert_exit_central : Links → Bytes → Exit → Store → Saved Exit
unfolding exit_row
insert_exit_central k trans_id x s =
    if k.central_accepts
    then record {
      answer = central_success;
      transaction = x;
      store = record s {
        exits = to_central (record (exit_row x trans_id) { entry_id = 0; entry_time = [] }) s.exits;
      };
    }
    else record { answer = central_fail; transaction = x; store = s }

-- Reconnects on every answer of `IsConnected` but -1.
unfoldable pub insert_exit_trans : Links → Bytes → Exit → Store → Saved Exit
unfolding capped insert_exit_local insert_exit_central
insert_exit_trans k trans_id x s =
    if is_minus_one k.central_connected || k.central_connects
    then insert_exit_central k trans_id (capped x) (record s { system_online = pos 0 })
    else insert_exit_local k trans_id x (record s { system_online = pos 1 })
