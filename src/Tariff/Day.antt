-- ===== src/Tariff/Day.antt =====
-- What `CalFeeRAM2GR` of db.cpp keeps between the turns of its loop, and how it reads the zones of
-- a day.
use my_linux_pbs.Base.{
  ℕ, zero, suc, ◌+◌, ◌-◌, ◌*◌, ◌/◌, ◌%◌, Bool, true, ◌&&◌, ◌==◌, ltb, leb, if◌then◌else◌, bytes_eq,
  is_empty, get_or,
}
use my_linux_pbs.Base.Int.{ℤ, pos, ◌-ℤ◌}
use my_linux_pbs.Clock.{set_time}
use my_linux_pbs.Tariff.{Amount, Zone, no_zone, Tariff, Rates}
use my_linux_pbs.Tariff.DayType.{get_day_type}

-- `pd` is the day that is charged, counted from the epoch, and `pt` the moment up to which the stay
-- is charged. `zone_rates` and `zone_time` are the arrays, `current` the values of the zone that
-- was entered last.
pub record Calc : Type 0 where
  pub pd : ℕ
  pub pt : ℕ
  pub zt : ℕ
  pub day_fee : Amount
  pub zone_fee : Amount
  pub charge : Amount
  pub got_day_info : Bool
  pub no_gt : Bool
  pub first_freed : Bool
  pub mc_checked : Bool
  pub block_24h : Bool
  pub fee_24h : Amount
  pub charges_24h : Amount
  pub max_zone : ℕ
  pub current_zone : ℕ
  pub zone_rates : ℕ → Zone
  pub zone_time : ℕ → ℕ
  pub zone_cutoff : ℕ
  pub day_min : Amount
  pub day_max : Amount
  pub current : Zone

-- How a part of a turn ends: the turn goes on, the loop is left, or the fee is answered. `stuck` is
-- an inner loop of the model without fuel.
pub data Flow : Type 0 where
  go leave : Calc → Flow
  answer : ℤ → Flow
  stuck : Flow

infixl 20 ◌and_then◌
abbrev pub ◌and_then◌ : Flow → (Calc → Flow) → Flow
go s and_then f = f s
leave s and_then f = leave s
answer z and_then f = answer z
stuck and_then f = stuck

-- The codes -2, -3 and -4 as amounts.
abbrev pub error_code : ℕ → ℤ
error_code n = pos 0 -ℤ pos (100 * n)

abbrev pub zone_of : Tariff → ℕ → Zone
zone_of t k = get_or t.zones k no_zone

-- The number of zones: up to the first that ends when the first one starts; 0 where none of the
-- `left` zones from `k` does.
abbrev pub zones_from : Tariff → ℕ → ℕ → ℕ
zones_from t zero k = 0
zones_from t (suc left) k =
    let rest = zones_from t left (suc k) in
    if bytes_eq (zone_of t k).end_time (zone_of t 0).start_time then suc k else rest

unfoldable pub max_zone_of : Tariff → ℕ
max_zone_of t = zones_from t 9 0

-- `zt` reads the start of a zone, and gives its time of day.
abbrev pub clock : Rates → ℕ → Zone → ℕ
clock r zt z = set_time r.mktime zt z.start_time

-- `zt` behind the first `k` zones.
abbrev pub clock_after : Rates → Tariff → ℕ → ℕ → ℕ
clock_after r t zt zero = zt
clock_after r t zt (suc k) = clock r (clock_after r t zt k) (zone_of t k)

-- `dtStr` is the date of a day with the time of day of `zt`.
abbrev pub on_day : ℕ → ℕ → ℕ
on_day day zt = day * 86400 + zt % 86400

module _ (r : Rates) (s : Calc) (last today next : Tariff) where
  -- Index 0 has the last zone of the day before, then come the zones of the day, then the start of
  -- the next day; what lies behind is left from earlier days.
  unfoldable pub zone_times : ℕ → ℕ
  zone_times k =
      let zt = clock r s.zt (zone_of last (max_zone_of last - 1)) in
      let zt' = clock_after r today zt (max_zone_of today) in
      if k == 0
      then on_day (s.pd - 1) zt
      else if leb k (max_zone_of today)
      then on_day s.pd (clock_after r today zt k)
      else if k == max_zone_of today + 1
      then if today.day_cutoff == 1
        then (s.pd + 1) * 86400
        else on_day (s.pd + 1) (clock r zt' (zone_of next 0))
      else s.zone_time k

  unfoldable pub rates_of_zones : ℕ → Zone
  rates_of_zones k =
      if k == 0
      then zone_of last (max_zone_of last - 1)
      else if leb k (max_zone_of today)
      then zone_of today (k - 1)
      else if k == max_zone_of today + 1
      then record (s.zone_rates k) {
        grace_time = (zone_of next 0).grace_time;
        rate_type = (zone_of next 0).rate_type;
      }
      else s.zone_rates k

  -- Equal limits of the day stand for a block of 24 hours.
  unfoldable pub day_read : Calc
  unfolding zone_times rates_of_zones
  day_read =
      let zt = clock r s.zt (zone_of last (max_zone_of last - 1)) in
      let is_block = (today.whole_day_min == today.whole_day_max) && ltb 0 today.whole_day_min in
      record s {
        day_fee = 0;
        got_day_info = true;
        zt = clock r (clock_after r today zt (max_zone_of today)) (zone_of next 0);
        max_zone = max_zone_of today;
        zone_rates = rates_of_zones;
        zone_time = zone_times;
        zone_cutoff = today.zone_cutoff;
        block_24h = is_block;
        fee_24h = if is_block then today.whole_day_min / 100 * 100 else s.fee_24h;
        day_min = if is_block then 0 else today.whole_day_min;
        day_max = if is_block then 0 else today.whole_day_max;
      }

  unfoldable pub check_zones : Flow
  unfolding day_read
  check_zones =
      if is_empty (zone_of last 0).start_time
      then answer (error_code 2)
      else if max_zone_of last == 0
      then answer (error_code 4)
      else if is_empty (zone_of today 0).start_time
      then answer (error_code 2)
      else if max_zone_of today == 0
      then answer (error_code 4)
      else if is_empty (zone_of next 0).start_time
      then answer (error_code 2)
      else go day_read

unfoldable pub load_day : Rates → ℕ → Calc → Flow
unfolding check_zones
load_day r trans_type s =
    let tariff_at = λ (day : ℕ). r.tariff trans_type (get_day_type r (day * 86400)) in
    check_zones r s (tariff_at (s.pd - 1)) (tariff_at s.pd) (tariff_at (s.pd + 1))

-- The day is read once.
unfoldable pub day_info : Rates → ℕ → Calc → Flow
unfolding load_day
day_info r trans_type s = if s.got_day_info then go s else load_day r trans_type s
