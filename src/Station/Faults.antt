-- ===== src/Station/Faults.antt =====
-- The errors of a station: `HandlePBSError` and `Sendmystatus` of operation.cpp.
use my_linux_pbs.Base.{
  ℕ, zero, suc, ◌+◌, List, [], ◌∷◌, ◌++◌, ◌==◌, if◌then◌else◌, Bytes, codes, is_empty,
}
use my_linux_pbs.Base.Int.{ℤ, pos, negsuc, ltb_ℤ}
use my_linux_pbs.Text.Decimal.{print}
use my_linux_pbs.Station.State.{Action, to_server}
use my_linux_pbs.Station.Env.{Env}

-- `EPSError`.
pub data EpsError : Type 0 where
  no_error lpr_no_error lpr_error printer_no_error printer_error printer_no_paper db_no_error
        db_failed db_update_fail reader_no_error reader_error tng_no_error tng_error
        antenna_power_on_off tariff_error tariff_ok holiday_error holiday_ok dio_error dio_ok
        loop_a_hang loop_a_ok lcsc_no_error lcsc_error s_door_error s_door_no_error b_door_error
        b_door_no_error barrier_fault param_ok param_error :
      EpsError

-- `tPBSError_struct`; its `ErrCode` is not used.
pub record Fault : Type 0 where
  pub err_no : ℤ
  pub err_msg : Bytes

-- The array `tPBSError`.
abbrev pub Faults : Type 0
Faults = ℕ → Fault

-- An error sets its entry, and sends a command with a text, unless the text is empty. Some send
-- something before.
pub record Report : Type 0 where
  pub faults : Faults
  pub cmd : Bytes
  pub msg : Bytes
  pub before : List Action

unfoldable pub set_no : ℕ → ℤ → Faults → Faults
set_no i n f j = if j == i then record (f j) { err_no = n } else f j

unfoldable pub set_fault : ℕ → ℤ → Bytes → Faults → Faults
set_fault i n m f j = if j == i then record { err_no = n; err_msg = m } else f j

-- The numbers of the entries from `i` on, `k` of them.
unfoldable pub numbers : Faults → ℕ → ℕ → Bytes
numbers f i zero = []
numbers f i (suc k) = print (f i).err_no ++ codes "," ++ numbers f (i + 1) k

-- `Errsize` is 17.
unfoldable pub send_my_status : Env → Faults → Action
unfolding numbers
send_my_status env f =
    to_server (codes "00") (numbers f 0 17 ++ codes "0;0," ++ env.now_compact ++ codes ",")

-- An error that is over is reported only if it was there.
unfoldable pub recovered : ℕ → Bytes → Bytes → Faults → Report
unfolding set_no
recovered i cmd msg f = record {
  faults = set_no i (pos 0) f;
  cmd = if ltb_ℤ (f i).err_no (pos 0) then cmd else [];
  msg = if ltb_ℤ (f i).err_no (pos 0) then msg else [];
  before = [];
}

unfoldable pub set_and_sent : ℕ → ℤ → Bytes → Bytes → Faults → Report
unfolding set_fault
set_and_sent i n cmd msg f = record {
  faults = set_fault i n msg f;
  cmd = cmd;
  msg = msg;
  before = [];
}

unfoldable pub number_and_sent : ℕ → ℤ → Bytes → Bytes → Faults → Report
unfolding set_no
number_and_sent i n cmd msg f = record { faults = set_no i n f; cmd = cmd; msg = msg; before = [] }

-- The database's errors send the status first.
unfoldable pub db_report : Env → ℤ → Bytes → Faults → Report
unfolding set_fault
db_report env n msg f = record {
  faults = set_fault 2 n msg f;
  cmd = codes "201";
  msg = msg;
  before = send_my_status env (set_fault 2 n msg f) ∷ [];
}

abbrev pub barrier_text : ℕ → Bytes
barrier_text n =
    if n == 0
    then codes "Barrier Status: Closed"
    else if n == 1
    then codes "Barrier Status: Open"
    else if n == 2
    then codes "Barrier Status: Open Too Long"
    else if n == 3
    then codes "Barrier Status: Arm Drop Down"
    else if n == 4
    then codes "Barrier Status: Fail To Open"
    else if n == 5
    then codes "Barrier Status: Fail To Close"
    else codes "Barrier Status: Unknown"

unfoldable pub barrier_report : ℕ → Faults → Report
unfolding set_fault
barrier_report n f = record {
  faults = set_fault 16 (pos n) (barrier_text n) f;
  cmd = codes "08";
  msg = codes "9" ++ barrier_text n;
  before = if n == 3 then to_server (codes "90") (codes ",,,,,barrierarmdrop") ∷ [] else [];
}

unfoldable pub nothing : Faults → Report
nothing f = record { faults = f; cmd = []; msg = []; before = [] }

-- The text of a reader's error is set and not sent.
unfoldable pub unsent : ℕ → ℤ → Bytes → Bytes → Faults → Report
unfolding set_fault
unsent i n cmd msg f = record { faults = set_fault i n msg f; cmd = cmd; msg = []; before = [] }

unfoldable pub report : Env → EpsError → ℕ → Faults → Report
unfolding recovered set_and_sent number_and_sent db_report barrier_report nothing unsent
report env param_ok n f = recovered 5 (codes "200") (codes "Parameter OK") f
report env param_error n f = set_and_sent 5 (negsuc 0) (codes "200") (codes "Parameter Error") f
report env lpr_no_error n f = recovered 0 (codes "03") (codes "LPR OK") f
report env lpr_error n f = set_and_sent 0 (negsuc 0) (codes "03") (codes "LPR Error") f
report env db_no_error n f = db_report env (pos 0) (codes "DB OK") f
report env db_failed n f = db_report env (negsuc 0) (codes "DB Error") f
report env db_update_fail n f = db_report env (negsuc 1) (codes "DB Update Error") f
report env tng_no_error n f = recovered 4 (codes "06") (codes "TnG OK") f
report env tng_error n f = set_and_sent 4 (negsuc 0) (codes "06") (codes "TnG Error") f
report env tariff_error n f = number_and_sent 5 (negsuc 0) (codes "08") (codes "5Tariff Error") f
report env tariff_ok n f = number_and_sent 5 (pos 0) (codes "08") (codes "5Tariff OK") f
report env holiday_error n f = number_and_sent 5 (negsuc 1) (codes "08") (codes "5No Holiday Set") f
report env holiday_ok n f = number_and_sent 5 (pos 0) (codes "08") (codes "5Holiday OK") f
report env dio_error n f = number_and_sent 6 (negsuc 0) (codes "08") (codes "6DIO Error") f
report env dio_ok n f = number_and_sent 6 (pos 0) (codes "08") (codes "6DIO OK") f
report env loop_a_hang n f = number_and_sent 7 (negsuc 0) (codes "08") (codes "7Loop A Hang") f
report env loop_a_ok n f = number_and_sent 7 (pos 0) (codes "08") (codes "7Loop A OK") f
report env s_door_error n f = set_and_sent 11 (negsuc 0) (codes "71") (codes "Station door open") f
report env s_door_no_error n f =
    number_and_sent 11 (pos 0) (codes "71") (codes "Station door close") f
report env b_door_error n f = set_and_sent 12 (negsuc 0) (codes "72") (codes "barrier door open") f
report env b_door_no_error n f = set_and_sent 12 (pos 0) (codes "72") (codes "barrier door close") f
report env reader_no_error n f = unsent 3 (pos 0) (codes "05") (codes "Card Reader OK") f
report env reader_error n f = unsent 3 (negsuc 0) (codes "05") (codes "Card Reader Error") f
report env barrier_fault n f = barrier_report n f
report env _ n f = nothing f

-- The new array and what is sent: the report and the status behind it.
unfoldable pub handle_pbs_error : Env → EpsError → ℕ → Faults → Faults × List Action
unfolding report send_my_status
handle_pbs_error env e n f =
    let r = report env e n f in
    (
      r.faults,
      r.before
          ++ (if is_empty r.msg
              then []
              else to_server r.cmd r.msg ∷ send_my_status env r.faults ∷ []),
    )
