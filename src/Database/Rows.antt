-- ===== src/Database/Rows.antt =====
-- The rows of the two databases and what the code keeps about them: db.cpp, with the answers of the
-- ODBC calls as inputs.
use my_linux_pbs.Base.{
  ℕ, Bool, false, ◌&&◌, ◌||◌, List, [], ◌∷◌, ◌++◌, if◌then◌else◌, Bytes, bytes_eq,
}
use my_linux_pbs.Base.Int.{ℤ}
use my_linux_pbs.Station.State.{Money}

-- `Entry_Trans` and `Entry_Trans_tmp`. A column that an insert leaves out is empty.
pub record EntryTrans : Type 0 where
  pub station_id : Bytes
  pub time : Bytes
  pub iu_tk_no : Bytes
  pub trans_type : ℕ
  pub status : ℕ
  pub serial_no : Bytes
  pub card_type : ℕ
  pub card_no : Bytes
  pub paid_amt : Money
  pub parking_fee : Money
  pub gst_amt : Money
  pub lpn_sid : Bytes
  pub lpn : Bytes

-- `Exit_Trans` and `Exit_Trans_tmp`.
pub record ExitTrans : Type 0 where
  pub station_id : Bytes
  pub time : Bytes
  pub iu_tk_no : Bytes
  pub card_mc_no : Bytes
  pub trans_type : ℕ
  pub parked_time : ℤ
  pub parking_fee : Money
  pub paid_amt : Money
  pub receipt_no : Bytes
  pub status : ℕ
  pub redeem_amt : Money
  pub redeem_time : ℕ
  pub redeem_no : Bytes
  pub gst_amt : Money
  pub chu_debit_code : Bytes
  pub card_type : ℕ
  pub top_up_amt : Money
  pub upos_batch_no : Bytes
  pub fee_from : Bytes
  pub lpn : Bytes
  pub entry_id : ℕ
  pub entry_time : Bytes
  pub lpn_sid : Bytes

-- `movement_trans_tmp`: a row without an exit, and one that an exit has inserted.
pub data Movement : Type 0 where
  entered : Bytes → Bytes → Movement
  left : ExitTrans → Movement

pub record Tables (A : Type 0) : Type 0 where
  pub central : List A
  pub local : List A

-- `giSystemOnline`, `glNoofOfflineData` and the error flags beside the tables.
pub record Store : Type 0 where
  pub entries : Tables EntryTrans
  pub exits : Tables ExitTrans
  pub movements : List Movement
  pub system_online : ℤ
  pub offline_data : ℕ
  pub local_error : Bool
  pub remote_error : Bool

-- The rows of a number and a time.
abbrev pub entry_is : Bytes → Bytes → EntryTrans → Bool
entry_is iu t r = bytes_eq r.iu_tk_no iu && bytes_eq r.time t

abbrev pub exit_is : Bytes → Bytes → ExitTrans → Bool
exit_is iu t r = bytes_eq r.iu_tk_no iu && bytes_eq r.time t

abbrev pub has {ℓ} : {A : Type ℓ} → (A → Bool) → List A → Bool
has is [] = false
has is (x ∷ xs) = is x || has is xs

-- `DELETE ... WHERE`.
abbrev pub without {ℓ} : {A : Type ℓ} → (A → Bool) → List A → List A
without is [] = []
without is (x ∷ xs) = if is x then without is xs else x ∷ without is xs

abbrev pub to_central : {A : Type 0} → A → Tables A → Tables A
to_central x t = record { central = t.central ++ x ∷ []; local = t.local }

abbrev pub to_local : {A : Type 0} → A → Tables A → Tables A
to_local x t = record { central = t.central; local = t.local ++ x ∷ [] }

abbrev pub from_local : {A : Type 0} → (A → Bool) → Tables A → Tables A
from_local is t = record { central = t.central; local = without is t.local }
