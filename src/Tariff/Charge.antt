-- ===== src/Tariff/Charge.antt =====
-- The charge of one zone in `CalFeeRAM2GR` of db.cpp: by blocks of minutes, or once per entry.
use my_linux_pbs.Base.{
  ℕ, zero, suc, ◌+◌, ◌-◌, ◌*◌, ◌/◌, Bool, not, ◌&&◌, ◌||◌, Option, none, some, ◌==◌, ltb, leb,
  if◌then◌else◌,
}
use my_linux_pbs.Base.Int.{ℤ, pos, negsuc, is_pos}
use my_linux_pbs.Clock.{within}
use my_linux_pbs.Tariff.{Amount, Zone, Rates}
use my_linux_pbs.Tariff.Day.{Calc, Flow, go, leave, answer, stuck, error_code}
use my_linux_pbs.Tariff.FirstFree.{Freed, settled, left, first_free}

abbrev pub zone_end : Calc → ℕ
zone_end s = s.zone_time (s.current_zone + 1)

-- The rest of a stay that is short enough is free of charge once something is charged.
unfoldable pub is_allowed : Zone → ℕ → ℕ → Bool → Bool
is_allowed z pt now charged = ltb 0 z.allowance && charged && within pt now z.allowance

-- A moment and a number of minutes, which can be negative. A moment before 1970 counts as its start.
abbrev pub add_minutes : ℕ → ℤ → ℕ
add_minutes pt (pos n) = pt + n * 60
add_minutes pt (negsuc n) = pt - suc n * 60

-- The blocks of a zone, up to its end or the end of the stay, on a fuel. `charged` is whether the
-- stay had a charge before the zone.
module _ (z : Zone) (zone_end now : ℕ) (charged : Bool) where
  unfoldable pub with_block : ℕ → Amount → Amount
  with_block pt fee =
      if is_allowed z pt now (charged || ltb 0 fee) then fee else fee + z.charge_rate

  unfoldable pub blocks : ℕ → ℕ → Amount → Option (ℕ × Amount)
  unfolding with_block
  blocks zero pt fee = none
  blocks (suc f) pt fee =
      let fee' = with_block pt fee in
      let pt' = add_minutes pt z.charge_time_block in
      let rest = blocks f pt' fee' in
      if within pt zone_end 0
      then some (pt, fee)
      else if ltb 0 z.max_charge && leb z.max_charge fee'
      then some (zone_end, fee')
      else if within pt' now 0
      then some (pt', fee')
      else rest

-- The minutes up to the end of the zone, and one: fuel enough for blocks that are not negative.
abbrev pub fuel_of : ℕ → ℕ → ℕ
fuel_of pt e = suc (e / 60 - pt / 60)

-- Behind the end of the zone, a cut takes the charge back to it.
unfoldable pub cut_off : Rates → ℕ → ℕ → Calc → ℕ → ℕ
cut_off r entry now s pt =
    let e = zone_end s in
    if (s.zone_cutoff == 1) && ltb (e / 60) (pt / 60)
    then if ltb 0 r.hr_to_pe_allowance && ((s.zone_rates (s.current_zone + 1)).rate_type == 2)
      then (if within entry now r.hr_to_pe_allowance then pt else e)
      else e
    else pt

-- The blocks behind the first minutes.
unfoldable pub charge_blocks : Rates → ℕ → ℕ → Calc → Freed → Flow
unfolding cut_off
charge_blocks r entry now s (left fee) = leave (record s { day_fee = s.day_fee + fee })
charge_blocks r entry now s (settled pt fee freed) =
    elim (blocks s.current (zone_end s) now (ltb 0 s.charge || ltb 0 s.day_fee)
      (fuel_of pt (zone_end s)) pt fee) [
        | none ↦ stuck
        | some (pt', fee') ↦
            go (record s { pt = cut_off r entry now s pt'; zone_fee = fee'; first_freed = freed })
      ]

-- Rate type 1: hourly.
unfoldable pub hourly : Rates → ℕ → ℕ → Calc → Flow
unfolding charge_blocks
hourly r entry now s =
    if is_pos s.current.charge_time_block 0
    then answer (error_code 3)
    else if is_allowed s.current s.pt now (ltb 0 s.charge || ltb 0 s.day_fee)
    then leave s
    else charge_blocks r entry now s (first_free r now s)

-- A motorcycle that has paid within the zone is not charged for it again.
unfoldable pub paid_before : Rates → ℕ → Calc → Bool
paid_before r trans_type s =
    ltb 0 r.mcycle_per_day
    && (trans_type == 2)
    && not s.mc_checked
    && ltb 0 s.current.charge_rate
    && ltb 0 (r.has_paid (s.zone_time s.current_zone) (zone_end s))

-- Rate type 2: per entry.
unfoldable pub per_entry : Rates → ℕ → ℕ → Calc → Calc
unfolding paid_before
per_entry r trans_type now s =
    let e = zone_end s in
    let amount = if paid_before r trans_type s then 0 else s.current.charge_rate in
    let charged = ltb 0 s.charge || ltb 0 s.day_fee in
    record s {
      mc_checked = s.mc_checked || ltb 0 r.mcycle_per_day && (trans_type == 2);
      current = record (s.current) { charge_rate = amount };
      zone_fee = if is_allowed s.current s.pt now charged then s.zone_fee else s.zone_fee + amount;
      pt =
          if ltb 0 r.pe_allowance && not (leb (s.pt / 60 + r.pe_allowance) (e / 60))
          then s.pt + r.pe_allowance * 60
          else e;
    }
