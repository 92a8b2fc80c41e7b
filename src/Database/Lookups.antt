-- ===== src/Database/Lookups.antt =====
-- What the lanes ask the databases: `isvalidseason`, `local_isvalidseason`, `CheckCardOK` and
-- `fetchUnmatchedEntryInfo` of db.cpp. The rows that a query selects are inputs; `none` is a query that
-- fails.
use my_linux_pbs.Base.{
  ◌==◌, Bool, true, false, ◌&&◌, Option, none, some, List, [], ◌∷◌, if◌then◌else◌, Bytes, is_empty,
}
use my_linux_pbs.Base.Int.{ℤ, pos, negsuc, is_pos, ltb_ℤ}
use my_linux_pbs.Plate.Matching.{EntryRecord}

-- The fields of `tSeason` that an answer fills in.
pub record Season : Type 0 where
  pub season_type : Bytes
  pub s_status : Bytes
  pub date_from : Bytes
  pub date_to : Bytes
  pub rate_type : Bytes
  pub redeem_amt : Bytes
  pub redeem_time : Bytes

-- The answer of the stored procedure, and the rows of the local seasons.
pub record SeasonAnswers : Type 0 where
  pub code : ℤ
  pub date_from : Bytes
  pub date_to : Bytes
  pub rate_type : Bytes
  pub redeem_amt : Bytes
  pub redeem_time : Bytes
  pub local_rows : Option (List Season)

-- The first row; no row is no data, and both are another answer than a success.
unfoldable pub local_is_valid_season : Option (List Season) → Season → Bool × Season
local_is_valid_season none t = (false, t)
local_is_valid_season (some []) t = (false, t)
local_is_valid_season (some (r ∷ rs)) t = (true, r)

abbrev pub is_failed : ℤ → Bool
is_failed (pos n) = false
is_failed (negsuc n) = n == 0

-- The central answer fills the season in unless it is 8, not found. Where it fails, the local rows
-- answer 1, valid, or 8.
unfoldable pub is_valid_season : SeasonAnswers → Season → ℤ × Season
unfolding local_is_valid_season
is_valid_season a t =
    if is_failed a.code
    then (let (found, u) = local_is_valid_season a.local_rows t in
        (if found then pos 1 else pos 8, u))
    else if is_pos a.code 8
    then (a.code, t)
    else (
      a.code,
      record t {
        date_from = a.date_from;
        date_to = a.date_to;
        rate_type = a.rate_type;
        redeem_amt = a.redeem_amt;
        redeem_time = a.redeem_time;
      },
    )

-- The seasons of master cards with their dates, and the complimentary numbers; `since` is the seconds
-- since a date.
pub record CardAnswers : Type 0 where
  pub masters : Option (List (Bytes × Bytes))
  pub complimentaries : Option (List Bytes)
  pub since : Bytes → ℤ

-- Only the first row is looked at.
unfoldable pub is_master : (Bytes → ℤ) → List (Bytes × Bytes) → Bool
is_master since [] = false
is_master since ((from, to) ∷ rows) = ltb_ℤ (pos 0) (since from) && ltb_ℤ (since to) (pos 0)

unfoldable pub complimentary_code : Option (List Bytes) → ℤ
complimentary_code none = pos 0
complimentary_code (some rows) = if is_empty rows then pos 0 else pos 2

-- 5 is a master season, 2 a complimentary card, and 0 all else, a failed query too.
unfoldable pub check_card_ok : CardAnswers → ℤ
unfolding is_master complimentary_code
check_card_ok a = elim a.masters [
  | none ↦ pos 0
  | some rows ↦ if is_master a.since rows then pos 5 else complimentary_code a.complimentaries
]

-- -1 where the query fails, 3 where it has no row.
unfoldable pub fetch_unmatched_entry_info : Option (List EntryRecord) → ℤ × List EntryRecord
fetch_unmatched_entry_info none = (negsuc 0, [])
fetch_unmatched_entry_info (some []) = (pos 3, [])
fetch_unmatched_entry_info (some (r ∷ rs)) = (pos 0, r ∷ rs)
