-- ===== src/Tariff/Fee.antt =====
-- The fee of a stay: `CalFeeRAM2GR` and `RoundIt` of db.cpp.
use my_linux_pbs.Base.{
  ℕ, zero, suc, ◌+◌, ◌-◌, ◌*◌, ◌/◌, Bool, true, false, ◌&&◌, ◌||◌, Option, none, some, ◌==◌, ltb,
  if◌then◌else◌, Bytes,
}
use my_linux_pbs.Base.Int.{ℤ, pos}
use my_linux_pbs.Clock.{day_of, diffhour, second, set_time, within}
use my_linux_pbs.Tariff.{Amount, no_zone, Rates}
use my_linux_pbs.Tariff.Day.{Calc, Flow, go, leave, answer, stuck, ◌and_then◌, error_code, day_info}
use my_linux_pbs.Tariff.Charge.{hourly, per_entry}

-- The zone before the first start behind `pt`, from zone `k`; none where no start lies behind it.
abbrev pub zone_from : (ℕ → ℕ) → ℕ → ℕ → ℕ → Option ℕ
zone_from time pt zero k = none
zone_from time pt (suc left) k =
    let rest = zone_from time pt left (k + 1) in if within pt (time (k + 1)) 0 then rest else some k

-- Where no zone is found, the last one stays.
unfoldable pub zone_at : Calc → ℕ
zone_at s = elim (zone_from s.zone_time s.pt (s.max_zone + 1) 0) [
  | none ↦ s.current_zone
  | some k ↦ k
]

unfoldable pub enter_zone : Calc → Flow
unfolding zone_at
enter_zone s =
    let k = zone_at s in
    let z = s.zone_rates k in
    if ltb z.rate_type 1 || ltb 2 z.rate_type
    then answer (error_code 3)
    else go (record s { current_zone = k; current = z })

-- A whole block of 24 hours has its own fee and belongs to no zone.
unfoldable pub charge_24h : Calc → Calc
charge_24h s = record s {
  charges_24h = s.charges_24h + s.fee_24h;
  pt = s.pt + 86400;
  current = record (s.current) { rate_type = 0 };
  no_gt = true;
}

unfoldable pub has_24h : ℕ → Calc → Bool
has_24h now s = s.block_24h && ltb 0 (diffhour s.pt now / 24)

unfoldable pub block_or_zone : ℕ → Calc → Flow
unfolding enter_zone charge_24h has_24h
block_or_zone now s = if has_24h now s then go (charge_24h s) else enter_zone s

-- A stay within the grace time is free of charge; it is tested once.
unfoldable pub grace : ℕ → Calc → Flow
grace now s =
    if s.no_gt
    then go s
    else if ltb 0 s.current.grace_time && within s.pt now s.current.grace_time
    then answer (pos 0)
    else go (record s { no_gt = true })

unfoldable pub charge_zone : Rates → ℕ → ℕ → ℕ → Calc → Flow
unfolding hourly per_entry
charge_zone r trans_type entry now s =
    let s' = record s { zone_fee = 0 } in
    if s.current.rate_type == 1
    then hourly r entry now s'
    else if s.current.rate_type == 2
    then go (per_entry r trans_type now s')
    else go s'

-- A limit of 0 is none.
abbrev pub limited : Amount → Amount → Amount → Amount
limited low high fee =
    let fee' = if ltb 0 low && ltb fee low then low else fee in
    if ltb 0 high && ltb high fee' then high else fee'

unfoldable pub close_zone : Calc → Calc
close_zone s =
    let fee = limited s.current.min_charge s.current.max_charge s.zone_fee in
    record s { zone_fee = fee; day_fee = s.day_fee + fee }

-- Behind the end of the day, its fee is added and the next day is read.
unfoldable pub next_day : Calc → Calc
next_day s =
    if ltb s.pd (day_of s.pt)
    then record s {
      charge = s.charge + limited s.day_min s.day_max s.day_fee;
      day_fee = 0;
      got_day_info = false;
      pd = s.pd + 1;
    }
    else s

unfoldable pub until_now : ℕ → Calc → Flow
until_now now s = if within s.pt now 0 then leave s else go s

-- One turn of the loop behind the test of the day.
unfoldable pub turn : Rates → ℕ → ℕ → ℕ → Calc → Flow
unfolding day_info block_or_zone grace charge_zone close_zone next_day until_now
turn r trans_type entry now s =
    day_info r trans_type s
    and_then block_or_zone now
    and_then grace now
    and_then charge_zone r trans_type entry now
    and_then (λ u. until_now now (next_day (close_zone u)))

unfoldable pub days : Rates → ℕ → ℕ → ℕ → ℕ → Calc → Flow
unfolding turn
days r trans_type entry now zero s = stuck
days r trans_type entry now (suc f) s =
    let rest = days r trans_type entry now f in
    if ltb (day_of now) s.pd then leave s else turn r trans_type entry now s and_then rest

-- Every turn comes to a later minute, or to a later day.
unfoldable pub turns_of : ℕ → ℕ → ℕ
turns_of entry now = (day_of now + 1 - day_of entry) * (1440 * (day_of now + 1) + 2)

abbrev pub start : Rates → ℕ → Bool → Calc
start r entry no_gt = record {
  pd = day_of entry;
  pt = entry;
  zt = r.now;
  day_fee = 0;
  zone_fee = 0;
  charge = 0;
  got_day_info = false;
  no_gt = no_gt;
  first_freed = false;
  mc_checked = false;
  block_24h = false;
  fee_24h = 0;
  charges_24h = 0;
  max_zone = 0;
  current_zone = 0;
  zone_rates = λ k. no_zone;
  zone_time = λ k. 0;
  zone_cutoff = 0;
  day_min = 0;
  day_max = 0;
  current = no_zone;
}

unfoldable pub round_it : Rates → Amount → Amount
round_it r val =
    if r.tariff_fee_mode == 1
    then (val + 99) / 100 * 100
    else if r.tariff_fee_mode == 2
    then val / 100 * 100
    else if r.tariff_fee_mode == 3
    then (val + 50) / 100 * 100
    else r.unset

-- The fee of the last day, the blocks of 24 hours, and the rounding.
unfoldable pub last_day : Calc → Amount
last_day s = if ltb 0 s.day_fee then s.charge + limited s.day_min s.day_max s.day_fee else s.charge

unfoldable pub with_24h : Calc → Amount → Amount
with_24h s charge =
    if s.block_24h
    then s.charges_24h + (if ltb s.fee_24h charge then s.fee_24h else charge)
    else charge

unfoldable pub total : Rates → Calc → Amount
unfolding last_day with_24h round_it
total r s =
    let charge = with_24h s (last_day s) in
    if ltb 0 r.tariff_fee_mode then round_it r charge / 100 else charge

-- The loop has an answer of its own where it returns from within.
unfoldable pub answer_of : Rates → Flow → Option ℤ
unfolding total
answer_of r (go s) = some (pos (total r s))
answer_of r (leave s) = some (pos (total r s))
answer_of r (answer z) = some z
answer_of r stuck = none

-- The stay is counted to the next minute where the pay time has the later second.
unfoldable pub counted_to : ℕ → ℕ → ℕ
counted_to entry pay = if ltb (second entry) (second pay) then pay + 60 else pay

unfoldable pub fee_between_moments : Rates → ℕ → ℕ → ℕ → Bool → Option ℤ
unfolding days turns_of answer_of counted_to
fee_between_moments r entry pay trans_type no_gt =
    let now = counted_to entry pay in
    if ltb (pay / 60) (entry / 60)
    then some (pos 0)
    else answer_of r (days r trans_type entry now (turns_of entry now) (start r entry no_gt))

unfoldable pub cal_fee_ram_2gr : Rates → Bytes → Bytes → ℕ → Bool → Option ℤ
unfolding fee_between_moments
cal_fee_ram_2gr r e_time pay_time trans_type no_gt =
    let entry = set_time r.mktime r.now e_time in
    let pay = set_time r.mktime r.now pay_time in fee_between_moments r entry pay trans_type no_gt
