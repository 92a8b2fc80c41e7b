-- ===== src/Tariff/Later.antt =====
-- A turn of the loop over the zones comes to a later minute.
use my_linux_pbs.Base.{
  false, ℕ, ◌/◌, ◌≤◌, ◌<◌, ◌≡◌, refl, Bool, Option, none, some, arith, ◌||◌, ltb, ◌==◌,
  if◌then◌else◌,
}
use my_linux_pbs.Base.Int.{ℤ, pos, negsuc, is_pos, pos_part, neg_part}
use my_linux_pbs.Tariff.{Amount, Zone, Rates}
use my_linux_pbs.Tariff.Day.{Calc, Flow, go, leave, answer, stuck, error_code}
use my_linux_pbs.Tariff.FirstFree.{Freed, settled, left, first_free}
use my_linux_pbs.Tariff.Charge.{
  zone_end, blocks, fuel_of, cut_off, charge_blocks, hourly, per_entry, is_allowed,
}
use my_linux_pbs.Tariff.Fee.{charge_zone}
use my_linux_pbs.Tariff.Every.{Every, Every-if, Every-mono}
use my_linux_pbs.Tariff.Moves.{
  AtLeast, Reaches, Passes, blocks_reach, cut_off_le, first_free-AtLeast,
}

-- The parts of the state that a zone does not change.
pub record SameDay (s s' : Calc) : Type 0 where
  pub pd_same : s'.pd ≡ s.pd
  pub zones_same : s'.max_zone ≡ s.max_zone
  pub time_same : s'.zone_time ≡ s.zone_time
  pub rates_same : s'.zone_rates ≡ s.zone_rates

-- A zone comes to a later minute where the charge stands within it.
abbrev pub IsLater : Calc → Calc → Type 0
IsLater s s' = SameDay s s' × (s.pt / 60 < zone_end s / 60 → s.pt / 60 < s'.pt / 60)

-- What the blocks reach is where the zone ends.
charge_blocks-IsLater :
    (r : Rates) (entry now : ℕ) (s : Calc) (freed : Freed)
    → 0 < pos_part s.current.charge_time_block
    → (s.pt / 60 ≤ zone_end s / 60 → AtLeast s.pt freed)
    → Every (IsLater s) (charge_blocks r entry now s freed)
unfolding charge_blocks
charge_blocks-IsLater r entry now s (left fee) hc h = tt
charge_blocks-IsLater r entry now s (settled pt fee freed) hc h =
    after (blocks s.current e now charged (fuel_of pt e) pt fee)
      (blocks_reach s.current e now charged hc (fuel_of pt e) pt fee (omega arith))
  where
    e : ℕ
    e = zone_end s

    charged : Bool
    charged = ltb 0 s.charge || ltb 0 s.day_fee

    after :
        (o : Option (ℕ × Amount))
        → Reaches (Passes pt (zone_end s)) o
        → Every (IsLater s) (elim o [
          | none ↦ stuck
          | some (pt', fee') ↦
              go (record s { pt = cut_off r entry now s pt'; zone_fee = fee'; first_freed = freed })
        ])
    after none p = p
    after (some (pt', fee')) p = (
      record { pd_same = refl; zones_same = refl; time_same = refl; rates_same = refl },
      λ k. cut_off_le r entry now s pt' s.pt k (p s.pt k (h (omega arith))),
    )

-- A zone whose block of minutes is not negative.
abbrev pub IsForward : Zone → Type 0
IsForward z = neg_part z.charge_time_block ≡ 0

some_minutes : (n : ℤ) → neg_part n ≡ 0 → is_pos n 0 ≡ false → 0 < pos_part n
some_minutes (pos n) h k = ground arith
some_minutes (negsuc n) h k = absurd (omega (arith, h))

hourly-IsLater :
    (r : Rates) (entry now : ℕ) (s : Calc)
    → IsForward s.current
    → Every (IsLater s) (hourly r entry now s)
unfolding hourly
hourly-IsLater r entry now s forward =
    let charged = ltb 0 s.charge || ltb 0 s.day_fee in
    let rest = charge_blocks r entry now s (first_free r now s) in
    Every-if (IsLater s) (is_pos s.current.charge_time_block 0) (answer (error_code 3))
      (if is_allowed s.current s.pt now charged then leave s else rest) (λ _. tt)
      (λ b.
        Every-if (IsLater s) (is_allowed s.current s.pt now charged) (leave s) rest (λ _. tt)
          (λ _.
            charge_blocks-IsLater r entry now s (first_free r now s)
              (some_minutes s.current.charge_time_block forward b) (first_free-AtLeast r now s)))

per_entry-IsLater :
    (r : Rates) (trans_type now : ℕ) (s : Calc)
    → Every (IsLater s) (go (per_entry r trans_type now s))
unfolding per_entry
per_entry-IsLater r trans_type now s = (
  record { pd_same = refl; zones_same = refl; time_same = refl; rates_same = refl },
  λ k. ground arith,
)

IsLater-zone_fee :
    (s : Calc) (f : Flow) → Every (IsLater (record s { zone_fee = 0 })) f → Every (IsLater s) f
IsLater-zone_fee s f = Every-mono (IsLater (record s { zone_fee = 0 })) (IsLater s) f (λ s' h.
    let d = h.0 in
    (
      record {
        pd_same = d.pd_same;
        zones_same = d.zones_same;
        time_same = d.time_same;
        rates_same = d.rates_same;
      },
      h.1,
    ))

-- A zone of a rate type comes to a later minute.
pub charge_zone-IsLater :
    (r : Rates) (trans_type entry now : ℕ) (s : Calc)
    → 1 ≤ s.current.rate_type
    → s.current.rate_type ≤ 2
    → IsForward s.current
    → Every (IsLater s) (charge_zone r trans_type entry now s)
unfolding charge_zone
charge_zone-IsLater r trans_type entry now s h k forward =
    let s' = record s { zone_fee = 0 } in
    Every-if (IsLater s) (s.current.rate_type == 1) (hourly r entry now s')
      (if s.current.rate_type == 2 then go (per_entry r trans_type now s') else go s')
      (λ _. IsLater-zone_fee s (hourly r entry now s') (hourly-IsLater r entry now s' forward))
      (λ b.
        Every-if (IsLater s) (s.current.rate_type == 2) (go (per_entry r trans_type now s')) (go s')
          (λ _.
            IsLater-zone_fee s (go (per_entry r trans_type now s'))
              (per_entry-IsLater r trans_type now s'))
          (λ c. absurd (ground (arith, b, c, h, k))))
