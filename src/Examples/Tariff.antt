-- ===== src/Examples/Tariff.antt =====
-- The tariffs and the clock at concrete inputs.
use my_linux_pbs.Base.{
  ℕ, ◌+◌, ◌-◌, ◌*◌, ◌/◌, ◌≤◌, ◌<◌, ◌≡◌, refl, min, false, some, [], ◌∷◌, Bytes, codes, arith, ◌++◌,
  zero, suc,
}
use my_linux_pbs.Base.Int.{ℤ, pos, negsuc, ◌≤ℤ◌}
use my_linux_pbs.Text.Decimal.{to_string}
use my_linux_pbs.Clock.{
  set_fields, MakeTime, g2j, j2g, epoch, Civil, set_time, day_of, weekday_of, civil,
}
use my_linux_pbs.Clock.Julian.{j2g-g2j}
use my_linux_pbs.Tariff.{Zone, Tariff, Rates, no_zone, no_tariff}
use my_linux_pbs.Tariff.Table.{load_tariff, row, column}
use my_linux_pbs.Tariff.Lookup.{load_tariff-row}
use my_linux_pbs.Tariff.Charge.{is_allowed, blocks, fuel_of}
use my_linux_pbs.Tariff.Day.{max_zone_of, zone_of}
use my_linux_pbs.Tariff.FirstFree.{first_free}
use my_linux_pbs.Tariff.Fee.{cal_fee_ram_2gr, fee_between_moments, counted_to}
use my_linux_pbs.Tariff.Ends.{cal_fee_ram_2gr_ends}
use my_linux_pbs.Tariff.Later.{IsForward}
use my_linux_pbs.Tariff.Blocks.{blocks-begun}
use my_linux_pbs.Tariff.Cap.{fee_between_moments_le}
use my_linux_pbs.Tariff.Periods.{Period, cal_fee_ram_2g, cal_fee_ram_2g-across, table_row}

abbrev calendar : MakeTime
calendar y m d h n s = (g2j y m d - epoch) * 86400 + h * 3600 + n * 60 + s

-- Half an hour costs 100 from seven in the morning; a night is charged once, at 200.
abbrev by_day : Zone
by_day = record no_zone {
  start_time = codes "2000-01-01 07:00:00";
  end_time = codes "2000-01-01 19:00:00";
  rate_type = 1;
  charge_time_block = pos 30;
  charge_rate = 100;
  grace_time = 10;
}

abbrev by_night : Zone
by_night = record no_zone {
  start_time = codes "2000-01-01 19:00:00";
  end_time = codes "2000-01-01 07:00:00";
  rate_type = 2;
  charge_rate = 200;
}

abbrev weekday_tariff : Tariff
weekday_tariff = record no_tariff { zones = by_day ∷ by_night ∷ []; whole_day_max = 1000 }

abbrev rates : Rates
rates = record {
  tariff = λ t d. weekday_tariff;
  holidays = codes "2026-12-25" ∷ [];
  has_holiday_eve = 0;
  first_hour = 0;
  first_hour_mode = 0;
  hr_to_pe_allowance = 0;
  pe_allowance = 0;
  mcycle_per_day = 0;
  tariff_fee_mode = 0;
  has_paid = λ a b. 0;
  mktime = calendar;
  now = 0;
  unset = 0;
}

abbrev ten : Bytes
ten = codes "2026-11-26 10:00:00"

abbrev eleven : Bytes
eleven = codes "2026-11-26 11:10:00"

abbrev evening : Bytes
evening = codes "2026-11-26 20:00:00"

abbrev next_noon : Bytes
next_noon = codes "2026-11-27 12:00:00"

-- A Thursday.
weekday_test : weekday_of (civil (set_time calendar 0 ten)) ≡ 4
unfolding set_time weekday_of j2g set_fields
weekday_test = refl

three_blocks : cal_fee_ram_2gr rates ten eleven 0 false ≡ some (pos 300)
unfolding cal_fee_ram_2gr set_time set_fields max_zone_of is_allowed first_free blocks
three_blocks = refl

-- The first day is cut at its maximum, and so is the second one.
over_night : cal_fee_ram_2gr rates ten next_noon 0 false ≡ some (pos 2000)
unfolding cal_fee_ram_2gr set_time set_fields max_zone_of is_allowed first_free blocks
over_night = refl

in_grace : cal_fee_ram_2gr rates ten (codes "2026-11-26 10:09:00") 0 false ≡ some (pos 0)
unfolding cal_fee_ram_2gr set_time set_fields max_zone_of is_allowed first_free blocks
in_grace = refl

cal_fee_ram_2gr_ends_example : (m : ℤ) × (cal_fee_ram_2gr rates ten next_noon 0 false ≡ some m)
cal_fee_ram_2gr_ends_example = cal_fee_ram_2gr_ends rates ten next_noon 0 false (λ d k. forward k)
  where
    forward : (k : ℕ) → IsForward (zone_of weekday_tariff k)
    forward zero = refl
    forward (suc zero) = refl
    forward (suc (suc k)) = refl

abbrev thursday : ℕ
thursday = 20783 * 86400

fee_between_moments_le_example :
    pos 2000
    ≤ℤ pos (
        1000
        * (day_of (counted_to (thursday + 36000) (thursday + 129600))
            + 1
            - day_of (thursday + 36000)))
unfolding fee_between_moments set_time set_fields max_zone_of is_allowed first_free blocks
fee_between_moments_le_example =
    fee_between_moments_le rates (thursday + 36000) (thursday + 129600) 0 false 1000 (pos 2000)
      (λ d. record {
        has_max = omega arith;
        max_le = omega arith;
        no_block = λ e. absurd (omega (arith, e));
      })
      refl refl

blocks-begun_example :
    (n : ℕ) × (blocks by_day 6000 4000 false (fuel_of 0 6000) 0 50
      ≡ some (0 + n * 30 * 60, 50 + n * 100))
    × (1 ≤ n)
    × (min (6000 / 60) (4000 / 60) ≤ 0 / 60 + n * 30)
    × ((k : ℕ) → 0 < k → k < n → 0 / 60 + k * 30 < min (6000 / 60) (4000 / 60))
blocks-begun_example =
    blocks-begun by_day 30 6000 4000 false refl refl refl (omega arith) 0 50 (omega arith)

three_blocks_begun : blocks by_day 6000 4000 false (fuel_of 0 6000) 0 50 ≡ some (5400, 350)
unfolding blocks is_allowed
three_blocks_begun = refl

-- A block of -5 minutes.
abbrev backwards : Zone
backwards = record by_day { charge_time_block = negsuc 4 }

-- The second tariff is dearer, and is not used.
abbrev early : Period
early = record {
  tariff_type = 0;
  start_time = codes "2026-01-01 00:00:00";
  end_time = codes "2026-11-26 10:30:00";
}

abbrev late : Period
late = record {
  tariff_type = 1;
  start_time = codes "2026-11-26 10:30:00";
  end_time = codes "2027-12-31 00:00:00";
}

cal_fee_ram_2g-across_example :
    cal_fee_ram_2g rates early late ten eleven 0 false
    ≡ cal_fee_ram_2gr rates ten eleven (table_row early 0) false
cal_fee_ram_2g-across_example =
    cal_fee_ram_2g-across rates early late ten eleven 0 false refl refl refl refl

abbrev new_year : Civil
new_year = record { year = 2028; month = 2; day = 29 }

j2g-g2j_example : j2g (g2j 2028 2 29) ≡ record { year = 2028; month = 2; day = 29 }
j2g-g2j_example =
    j2g-g2j (record { year = 2028; month = 2; day = 29 })
      (record {
        year_in = omega arith;
        month_in = (omega arith, omega arith);
        day_in = (omega arith, omega arith);
      })

abbrev other_tariff : Tariff
other_tariff = record no_tariff { zones = by_night ∷ [] }

load_tariff-row_example :
    load_tariff
      (((1 ∷ 2 ∷ 0 ∷ [], weekday_tariff) ∷ [])
        ++ ((1 ∷ 8 ∷ 0 ∷ [], other_tariff) ∷ (7 ∷ 0 ∷ [], weekday_tariff) ∷ []))
      (λ a b. no_tariff)
      (row 8)
      (column 8)
    ≡ record other_tariff { day_type = to_string 8 }
load_tariff-row_example =
    load_tariff-row 8 (1 ∷ 8 ∷ 0 ∷ []) other_tariff ((1 ∷ 2 ∷ 0 ∷ [], weekday_tariff) ∷ [])
      ((7 ∷ 0 ∷ [], weekday_tariff) ∷ []) (λ a b. no_tariff) (omega arith)
      (omega arith, (omega arith, tt)) refl (((omega arith, tt), refl), tt)
