-- ===== src/Tariff/Blocks.antt =====
-- How many blocks of a zone are charged.
use my_linux_pbs.Base.{
  sym, ap, ℕ, zero, suc, ◌+◌, ◌-◌, ◌*◌, ◌/◌, ◌≤◌, ◌<◌, min, ◌≡◌, refl, inl, inr, Bool, true, false,
  Option, some, Bool-cases, arith, ltb, leb, ◌&&◌, if◌then◌else◌,
}
use native.Mathlib.Nat.{suc-mul, add-zero}
use my_linux_pbs.Base.Int.{pos}
use my_linux_pbs.Clock.{within}
use my_linux_pbs.Tariff.{Amount, Zone}
use my_linux_pbs.Tariff.Charge.{is_allowed, add_minutes, with_block, blocks, fuel_of}

-- The minutes at which block `k` begins, and at which the charge stops.
abbrev block_start : ℕ → ℕ → ℕ → ℕ
block_start block pt k = pt / 60 + k * block

abbrev stop : ℕ → ℕ → ℕ
stop e now = min (e / 60) (now / 60)

with_block-plain :
    (z : Zone) (e now : ℕ) (charged : Bool) (pt : ℕ) (fee : Amount)
    → z.allowance ≡ 0
    → with_block z e now charged pt fee ≡ fee + z.charge_rate
unfolding with_block is_allowed
with_block-plain z e now charged pt fee h = rw h refl

module _ (z : Zone) (block pt : ℕ) (fee : Amount) (n : ℕ) where
  next_moment : pt + block * 60 + n * block * 60 ≡ pt + suc n * block * 60
  next_moment = rw (suc-mul n block) (omega arith)

  next_fee : fee + z.charge_rate + n * z.charge_rate ≡ fee + suc n * z.charge_rate
  next_fee = rw (suc-mul n z.charge_rate) (omega arith)

  next_start : block_start block (pt + block * 60) n ≡ block_start block pt (suc n)
  next_start = rw (suc-mul n block) (omega arith)

-- `n` blocks are charged from `pt`, with a condition on the first block that is counted.
IsCounted : ℕ → Zone → ℕ → ℕ → ℕ → ℕ → Amount → Option (ℕ × Amount) → Type 0
IsCounted first z block e now pt fee o =
    (n : ℕ) × (o ≡ some (pt + n * block * 60, fee + n * z.charge_rate))
    × (first ≤ n)
    × (stop e now ≤ block_start block pt n)
    × ((k : ℕ) → first ≤ k → k < n → block_start block pt k < stop e now)

module _ (z : Zone) (block e now : ℕ) (charged : Bool) (ha : z.allowance ≡ 0)
    (hm : z.max_charge ≡ 0) (hb : z.charge_time_block ≡ pos block) (hc : 0 < block) where
  -- A block before the rest.
  one_more :
      (pt : ℕ) (fee : Amount) (o : Option (ℕ × Amount))
      → IsCounted 0 z block e now (pt + block * 60) (fee + z.charge_rate) o
      → IsCounted 1 z block e now pt fee o
  unfolding IsCounted
  one_more pt fee o (n, eq, j, h, k) = (
    suc n,
    rw (sym (next_moment z block pt fee n), sym (next_fee z block pt fee n)) eq,
    omega arith,
    rw (sym (next_start z block pt fee n)) h,
    later,
  )
    where
      later : (i : ℕ) → 1 ≤ i → i < suc n → block_start block pt i < stop e now
      later zero l g = elim l [ ]
      later (suc i) l g = rw (sym (next_start z block pt fee i)) (k i (omega arith) (omega arith))

  blocks-first :
      (f pt : ℕ) (fee : Amount)
      → pt / 60 < e / 60
      → blocks z e now charged (suc f) pt fee ≡ (
          if within (pt + block * 60) now 0
          then some (pt + block * 60, fee + z.charge_rate)
          else blocks z e now charged f (pt + block * 60) (fee + z.charge_rate))
  unfolding blocks
  blocks-first f pt fee h = rw (with_block-plain z e now charged pt fee ha) (
      rw (in_zone, no_max)
        (ap
          (λ t.
            if within t now 0
            then some (t, fee + z.charge_rate)
            else blocks z e now charged f t (fee + z.charge_rate))
          moved))
    where
      moved : add_minutes pt z.charge_time_block ≡ pt + block * 60
      moved = ap (add_minutes pt) hb

      in_zone : within pt e 0 ≡ false
      in_zone = ground arith

      no_max : (ltb 0 z.max_charge && leb z.max_charge (fee + z.charge_rate)) ≡ false
      no_max = ground arith

  one_block :
      (pt : ℕ) (fee : Amount)
      → pt / 60 < e / 60
      → within (pt + block * 60) now 0 ≡ true
      → IsCounted 1 z block e now pt fee (some (pt + block * 60, fee + z.charge_rate))
  unfolding IsCounted
  one_block pt fee h b = (
    1,
    rw (one block, one z.charge_rate) refl,
    omega arith,
    ground arith,
    λ k l g. absurd (omega (arith, l, g)),
  )
    where
      one : (x : ℕ) → 1 * x ≡ x
      one x = omega arith

  -- The first block is charged, and the rest is counted.
  blocks-step :
      (f pt : ℕ) (fee : Amount)
      → pt / 60 < e / 60
      → (within (pt + block * 60) now 0 ≡ false
          → IsCounted 0 z block e now
              (pt + block * 60)
              (fee + z.charge_rate)
              (blocks z e now charged f (pt + block * 60) (fee + z.charge_rate)))
      → IsCounted 1 z block e now pt fee (blocks z e now charged (suc f) pt fee)
  blocks-step f pt fee h rest =
      rw (blocks-first f pt fee h) (elim (Bool-cases (within (pt + block * 60) now 0)) [
        | inl b ↦ rw b (one_block pt fee h b)
        | inr b ↦ rw b (one_more pt fee _ (rest b))
      ])

  no_block :
      (f pt : ℕ) (fee : Amount)
      → within pt e 0 ≡ true
      → IsCounted 0 z block e now pt fee (blocks z e now charged (suc f) pt fee)
  unfolding blocks IsCounted
  no_block f pt fee b = rw b (
    0,
    rw (none_of block, none_of z.charge_rate) (rw (add-zero pt, add-zero fee) refl),
    omega arith,
    ground arith,
    λ k l g. elim g [ ],
  )
    where
      none_of : (x : ℕ) → 0 * x ≡ 0
      none_of x = omega arith

  -- The first block that is counted begins before the stop, too.
  from_start :
      (pt : ℕ) (fee : Amount) (o : Option (ℕ × Amount))
      → pt / 60 < stop e now
      → IsCounted 1 z block e now pt fee o
      → IsCounted 0 z block e now pt fee o
  unfolding IsCounted
  from_start pt fee o h (n, eq, j, g, k) = (n, eq, omega arith, g, all)
    where
      all : (i : ℕ) → 0 ≤ i → i < n → block_start block pt i < stop e now
      all zero l m = omega arith
      all (suc i) l m = k (suc i) (omega arith) m

  blocks-IsCounted :
      (f pt : ℕ) (fee : Amount)
      → e / 60 - pt / 60 < f
      → pt / 60 < now / 60
      → IsCounted 0 z block e now pt fee (blocks z e now charged f pt fee)
  blocks-IsCounted zero pt fee h k = elim h [ ]
  blocks-IsCounted (suc f) pt fee h k = elim (Bool-cases (within pt e 0)) [
    | inl b ↦ no_block f pt fee b
    | inr b ↦ from_start pt fee (blocks z e now charged (suc f) pt fee) (ground (arith, b)) (
        blocks-step f pt fee (ground arith) (λ c.
          blocks-IsCounted f (pt + block * 60) (fee + z.charge_rate) (ground arith) (ground arith)))
  ]

-- In a zone without a maximum and an allowance, every block that begins before the end of the zone
-- and the end of the stay is charged at the rate, and no other; the first is charged in any case.
pub blocks-begun :
    (z : Zone) (block e now : ℕ) (charged : Bool)
    → z.allowance ≡ 0
    → z.max_charge ≡ 0
    → z.charge_time_block ≡ pos block
    → 0 < block
    → (pt : ℕ) (fee : Amount) → pt / 60 < e / 60
    → (n : ℕ) × (blocks z e now charged (fuel_of pt e) pt fee
        ≡ some (pt + n * block * 60, fee + n * z.charge_rate))
      × (1 ≤ n)
      × (min (e / 60) (now / 60) ≤ pt / 60 + n * block)
      × ((k : ℕ) → 0 < k → k < n → pt / 60 + k * block < min (e / 60) (now / 60))
unfolding blocks IsCounted
blocks-begun z block e now charged ha hm hb hc pt fee h =
    let (n, eq, j, g, k) =
      blocks-step z block e now charged ha hm hb hc (e / 60 - pt / 60) pt fee h (λ c.
        blocks-IsCounted z block e now charged ha hm hb hc (e / 60 - pt / 60) (pt + block * 60)
          (fee + z.charge_rate) (ground (arith, h, hc)) (ground (arith, c))) in
    (n, eq, j, g, k)
