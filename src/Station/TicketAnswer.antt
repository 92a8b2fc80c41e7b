-- ===== src/Station/TicketAnswer.antt =====
-- What the central database says of a barcode ticket: `isValidBarCodeTicket` of db.cpp, with
-- `FnParseDateTime` and `FnGetDateDiffInSeconds` of common.cpp.
use my_linux_pbs.Base.{
  ℕ, Bool, true, false, ◌||◌, Option, none, some, List, [], ◌∷◌, if◌then◌else◌, Bytes, bytes_eq,
  codes, is_empty,
}
use my_linux_pbs.Base.Int.{ℤ, pos, negsuc, is_pos, ltb_ℤ, ◌-ℤ◌}
use my_linux_pbs.Station.State.{Money}

-- The columns of a row of `Redemption` or `Complimentary`; `used_at` is `redeem_dt` or `exit_time`,
-- and the last two are there for a redemption only.
pub record TicketRow : Type 0 where
  pub valid_from : Bytes
  pub valid_to : Bytes
  pub used_at : Bytes
  pub redeem_amt : Bytes
  pub redeem_time : Bytes

-- A select that failed, or its rows.
pub data TicketRows : Type 0 where
  failed : TicketRows
  rows : List TicketRow → TicketRows

-- What a scanned ticket is asked with: the two parameters of the station, the two tables, the clock
-- in seconds, `get_time` with `mktime`, and `std::stod` (in cents) and `std::stoi`, which have no
-- result where they throw.
pub record Tickets : Type 0 where
  pub exit_ticket_redemption : ℕ
  pub need_card_4_complimentary : ℕ
  pub redemptions : Bytes → TicketRows
  pub complimentaries : Bytes → TicketRows
  pub clock : ℤ
  pub parsed : Bytes → Option ℤ
  pub stod : Bytes → Option Money
  pub stoi : Bytes → Option ℤ

-- A text that is no date is read as the start of 1970.
unfoldable pub parse_date_time : Tickets → Bytes → ℤ
parse_date_time t text = elim (t.parsed text) [ none ↦ pos 0 | some n ↦ n ]

unfoldable pub date_diff_in_seconds : Tickets → Bytes → ℤ
unfolding parse_date_time
date_diff_in_seconds t text = t.clock -ℤ parse_date_time t text

pub record TicketAnswer : Type 0 where
  pub code : ℤ
  pub amount : Money
  pub minutes : ℤ

abbrev pub only_code : ℤ → TicketAnswer
only_code c = record { code = c; amount = pos 0; minutes = pos 0 }

-- 2 is used, 6 not started, 0 expired, 1 valid.
unfoldable pub row_code : Tickets → TicketRow → ℤ
unfolding date_diff_in_seconds
row_code t r =
    if bytes_eq r.used_at (codes "NULL") || is_empty r.used_at
    then if ltb_ℤ (date_diff_in_seconds t r.valid_from) (pos 0)
      then pos 6
      else if ltb_ℤ (pos 0) (date_diff_in_seconds t r.valid_to)
      then pos 0
      else pos 1
    else pos 2

-- What is redeemed. A text that is no number leaves what stands behind it at 0.
unfoldable pub redeemed : Tickets → TicketRow → TicketAnswer
redeemed t r = elim (t.stod r.redeem_amt) [
  | none ↦ only_code (pos 1)
  | some a ↦ elim (t.stoi r.redeem_time) [
    | none ↦ record { code = pos 1; amount = a; minutes = pos 0 }
    | some n ↦ record { code = pos 1; amount = a; minutes = n }
  ]
]

unfoldable pub row_answer : Bool → Tickets → TicketRow → TicketAnswer
unfolding row_code redeemed
row_answer true t r = if is_pos (row_code t r) 1 then redeemed t r else only_code (row_code t r)
row_answer false t r = only_code (row_code t r)

-- The first row counts; -1 is a failed select, 4 no row.
unfoldable pub rows_answer : Bool → Tickets → TicketRows → TicketAnswer
unfolding row_answer
rows_answer redemption t failed = only_code (negsuc 0)
rows_answer redemption t (rows []) = only_code (pos 4)
rows_answer redemption t (rows (r ∷ rs)) = row_answer redemption t r

unfoldable pub is_valid_bar_code_ticket : Tickets → Bool → Bytes → TicketAnswer
unfolding rows_answer
is_valid_bar_code_ticket t redemption number =
    rows_answer redemption t (if redemption then t.redemptions number else t.complimentaries number)
