-- ===== src/Tariff.antt =====
-- The tariff tables of db.cpp: `tariff_struct` with its zones, `gtariff`, and the parameters that
-- the fee calculation reads. A block of minutes is an integer of any sign. The other numeric columns
-- hold numbers that are not negative, and no column is null; amounts are hundredths of the table's
-- unit, where the source has a float.
pub mod DayType
pub mod Table
pub mod Lookup
pub mod Day
pub mod FirstFree
pub mod Charge
pub mod Fee
pub mod Moves
pub mod Backwards
pub mod Every
pub mod Later
pub mod Turn
pub mod Ends
pub mod Periods
pub mod Blocks
pub mod Bounded
pub mod Cap
use my_linux_pbs.Base.{ℕ, List, [], ◌∷◌, Bytes}
use my_linux_pbs.Base.Int.{ℤ, pos}
use my_linux_pbs.Clock.{MakeTime}

abbrev pub Amount : Type 0
Amount = ℕ

-- One of the nine zones of a day.
pub record Zone : Type 0 where
  pub start_time : Bytes
  pub end_time : Bytes
  pub rate_type : ℕ
  pub charge_time_block : ℤ
  pub charge_rate : Amount
  pub grace_time : ℕ
  pub first_free : ℕ
  pub first_add : Amount
  pub second_free : ℕ
  pub second_add : Amount
  pub third_free : ℕ
  pub third_add : Amount
  pub allowance : ℕ
  pub min_charge : Amount
  pub max_charge : Amount

pub record Tariff : Type 0 where
  pub tariff_id : Bytes
  pub day_index : Bytes
  pub day_type : Bytes
  pub zones : List Zone
  pub zone_cutoff : ℕ
  pub day_cutoff : ℕ
  pub whole_day_max : Amount
  pub whole_day_min : Amount

-- A zone that nothing was written to.
abbrev pub no_zone : Zone
no_zone = record {
  start_time = [];
  end_time = [];
  rate_type = 0;
  charge_time_block = pos 0;
  charge_rate = 0;
  grace_time = 0;
  first_free = 0;
  first_add = 0;
  second_free = 0;
  second_add = 0;
  third_free = 0;
  third_add = 0;
  allowance = 0;
  min_charge = 0;
  max_charge = 0;
}

abbrev pub no_tariff : Tariff
no_tariff = record {
  tariff_id = [];
  day_index = [];
  day_type = [];
  zones = [];
  zone_cutoff = 0;
  day_cutoff = 0;
  whole_day_max = 0;
  whole_day_min = 0;
}

-- What a calculation reads: `gtariff`, `msholiday`, the parameters of `tParas`, the amount that
-- `HasPaidWithinPeriod` answers between two moments, the clock, and the float that `RoundIt`
-- leaves unset.
pub record Rates : Type 0 where
  pub tariff : ℕ → ℕ → Tariff
  pub holidays : List Bytes
  pub has_holiday_eve : ℕ
  pub first_hour : ℕ
  pub first_hour_mode : ℕ
  pub hr_to_pe_allowance : ℕ
  pub pe_allowance : ℕ
  pub mcycle_per_day : ℕ
  pub tariff_fee_mode : ℕ
  pub has_paid : ℕ → ℕ → Amount
  pub mktime : MakeTime
  pub now : ℕ
  pub unset : Amount
