-- ===== src/Tariff/Moves.antt =====
-- How far a zone brings the charge: `first_free`, `blocks` and `per_entry` come to a later minute.
use my_linux_pbs.Base.{
  ℕ, zero, suc, ◌+◌, ◌-◌, ◌/◌, ◌≤◌, ◌<◌, ◌≡◌, refl, Bool, true, false, Option, none, some, arith,
  ltb, leb, ◌&&◌, if◌then◌else◌,
}
use my_linux_pbs.Base.Int.{ℤ, pos, negsuc, pos_part}
use my_linux_pbs.Clock.{within}
use my_linux_pbs.Tariff.{Amount, Zone, Rates}
use my_linux_pbs.Tariff.Day.{Calc}
use my_linux_pbs.Tariff.FirstFree.{
  Freed, settled, left, reaches, jump, third, short_zone, long_third, long_zone, first_minutes,
  first_free,
}
use my_linux_pbs.Tariff.Charge.{zone_end, with_block, blocks, cut_off, add_minutes}

-- What is settled is not before `t`.
abbrev pub AtLeast : ℕ → Freed → Type 0
AtLeast t (settled pt fee freed) = t / 60 ≤ pt / 60
AtLeast t (left fee) = Unit

module _ (r : Rates) (z : Zone) (e now next cutoff : ℕ) (freed : Bool) (t : ℕ) where
  reaches-AtLeast :
      (pt : ℕ) (fee : Amount) (more : Freed)
      → AtLeast t more
      → AtLeast t (reaches r z e now next cutoff freed pt fee more)
  unfolding reaches
  reaches-AtLeast pt fee more h = ground arith

  third-AtLeast : (pt : ℕ) → t / 60 ≤ pt / 60 → AtLeast t (third r z e now next cutoff freed pt)
  unfolding third
  third-AtLeast pt h = ground arith

  -- A jump goes to the end of the zone or further on.
  jump_le :
      (pt minutes : ℕ)
      → t / 60 ≤ pt / 60
      → t / 60 ≤ e / 60
      → t / 60 ≤ jump r z e now next cutoff freed pt minutes / 60
  jump_le pt minutes h k = ground arith

  short_zone-AtLeast :
      (pt : ℕ)
      → t / 60 ≤ pt / 60
      → t / 60 ≤ e / 60
      → AtLeast t (short_zone r z e now next cutoff freed pt)
  unfolding short_zone
  short_zone-AtLeast pt h k = grind (arith, reaches-AtLeast, third-AtLeast, jump_le)

  long_third-AtLeast :
      (pt : ℕ)
      → t / 60 ≤ pt / 60
      → t / 60 ≤ e / 60
      → AtLeast t (long_third r z e now next cutoff freed pt)
  unfolding long_third
  long_third-AtLeast pt h k = grind (arith, reaches-AtLeast)

  long_zone-AtLeast :
      (pt : ℕ)
      → t / 60 ≤ pt / 60
      → t / 60 ≤ e / 60
      → AtLeast t (long_zone r z e now next cutoff freed pt)
  unfolding long_zone
  long_zone-AtLeast pt h k = grind (arith, reaches-AtLeast, third-AtLeast, long_third-AtLeast)

  first_minutes-AtLeast :
      (pt : ℕ)
      → t / 60 ≤ pt / 60
      → t / 60 ≤ e / 60
      → AtLeast t (first_minutes r z e now next cutoff freed pt)
  unfolding first_minutes
  first_minutes-AtLeast pt h k = ground (arith, short_zone-AtLeast pt h k, long_zone-AtLeast pt h k)

pub first_free-AtLeast :
    (r : Rates) (now : ℕ) (s : Calc)
    → s.pt / 60 ≤ zone_end s / 60
    → AtLeast s.pt (first_free r now s)
unfolding first_free
first_free-AtLeast r now s h =
    let k =
      first_minutes-AtLeast r s.current (zone_end s) now
        (s.zone_rates (s.current_zone + 1)).rate_type s.zone_cutoff s.first_freed s.pt s.pt
        (omega arith) h in
    ground arith

-- `P` of a moment that is reached.
abbrev pub Reaches : (ℕ → Type 0) → Option (ℕ × Amount) → Type 0
Reaches P none = ⊥
Reaches P (some (pt, fee)) = P pt

Reaches-mono :
    (P Q : ℕ → Type 0) (o : Option (ℕ × Amount)) → ((p : ℕ) → P p → Q p) → Reaches P o → Reaches Q o
Reaches-mono P Q none f h = h
Reaches-mono P Q (some (p, fee)) f h = f p h

Reaches-if :
    (P : ℕ → Type 0) (b : Bool) (x y : Option (ℕ × Amount))
    → (b ≡ true → Reaches P x)
    → (b ≡ false → Reaches P y)
    → Reaches P (if b then x else y)
Reaches-if P true x y h k = h refl
Reaches-if P false x y h k = k refl

abbrev pub Passes : ℕ → ℕ → ℕ → Type 0
Passes pt e pt' = (t : ℕ) → t / 60 < e / 60 → t / 60 ≤ pt / 60 → t / 60 < pt' / 60

later_block : (n : ℤ) (pt : ℕ) → 0 < pos_part n → pt / 60 < add_minutes pt n / 60
later_block (pos n) pt h = omega arith
later_block (negsuc n) pt h = elim h [ ]

-- The loop over the blocks ends, and passes every minute that it began at within the zone.
pub blocks_reach :
    (z : Zone) (e now : ℕ) (charged : Bool)
    → 0 < pos_part z.charge_time_block
    → (f pt : ℕ) (fee : Amount) → e / 60 - pt / 60 < f
    → Reaches (Passes pt e) (blocks z e now charged f pt fee)
unfolding blocks
blocks_reach z e now charged hc zero pt fee h = elim h [ ]
blocks_reach z e now charged hc (suc f) pt fee h =
    let fee' = with_block z e now charged pt fee in
    let pt' = add_minutes pt z.charge_time_block in
    let rest = blocks z e now charged f pt' fee' in
    let behind = if within pt' now 0 then some (pt', fee') else rest in
    let step = later_block z.charge_time_block pt hc in
    Reaches-if (Passes pt e) (within pt e 0) (some (pt, fee))
      (if ltb 0 z.max_charge && leb z.max_charge fee' then some (e, fee') else behind)
      (λ b. λ t k l. ground arith)
      (λ b.
        Reaches-if (Passes pt e) (ltb 0 z.max_charge && leb z.max_charge fee') (some (e, fee'))
          behind (λ _. λ t k l. k)
          (λ _.
            Reaches-if (Passes pt e) (within pt' now 0) (some (pt', fee')) rest
              (λ _. λ t k l. omega (arith, step))
              (λ _.
                Reaches-mono (Passes pt' e) (Passes pt e) rest
                  (λ p q t k l. q t k (omega (arith, step)))
                  (blocks_reach z e now charged hc f pt' fee' (less step b)))))
  where
    less :
        pt / 60 < add_minutes pt z.charge_time_block / 60
        → within pt e 0 ≡ false
        → e / 60 - add_minutes pt z.charge_time_block / 60 < f
    less step b = ground arith

-- A cut takes the charge back to the end of the zone at most.
pub cut_off_le :
    (r : Rates) (entry now : ℕ) (s : Calc) (pt t : ℕ)
    → t / 60 < zone_end s / 60
    → t / 60 < pt / 60
    → t / 60 < cut_off r entry now s pt / 60
unfolding cut_off
cut_off_le r entry now s pt t h k = ground arith
