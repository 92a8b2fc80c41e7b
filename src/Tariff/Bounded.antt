-- ===== src/Tariff/Bounded.antt =====
-- What a turn of `CalFeeRAM2GR` charges, where every day has a maximum.
use native.Mathlib.Nat.{mul-suc}
use my_linux_pbs.Base.{
  ap, ◌∙◌, ℕ, zero, suc, ◌+◌, ◌-◌, ◌*◌, ◌≤◌, ◌<◌, ◌≡◌, ◌≢◌, refl, sym, inl, inr, ◌⊎◌, Bool, true,
  false, ◌&&◌, ◌||◌, ◌==◌, Option, none, some, Bool-cases, arith, ltb, if◌then◌else◌,
}
use my_linux_pbs.Base.Int.{is_pos, ℤ, pos, ◌≤ℤ◌, ◌-ℤ◌}
use my_linux_pbs.Clock.{day_of, within}
use my_linux_pbs.Tariff.{Rates, Tariff, Amount}
use my_linux_pbs.Tariff.DayType.{get_day_type}
use my_linux_pbs.Tariff.Day.{
  Calc, Flow, go, leave, answer, stuck, ◌and_then◌, error_code, day_info, load_day, check_zones,
  day_read,
}
use my_linux_pbs.Tariff.FirstFree.{Freed, settled, left, first_free}
use my_linux_pbs.Tariff.Charge.{
  hourly, per_entry, charge_blocks, blocks, zone_end, is_allowed, cut_off, fuel_of,
}
use my_linux_pbs.Tariff.Fee.{
  turn, days, block_or_zone, enter_zone, charge_24h, has_24h, grace, charge_zone, close_zone,
  next_day, until_now, limited,
}

-- `P` of the state in which a part goes on or leaves the loop; an answer is not a positive amount.
abbrev pub Both : (Calc → Type 0) → Flow → Type 0
Both P (go s) = P s
Both P (leave s) = P s
Both P (answer z) = z ≤ℤ pos 0
Both P stuck = Unit

module _ (P : Calc → Type 0) where
  Both-and_then :
      (Q : Calc → Type 0) (f : Flow) (k : Calc → Flow)
      → Both P f
      → ((s : Calc) → P s → Q s)
      → ((s : Calc) → P s → Both Q (k s))
      → Both Q (f and_then k)
  Both-and_then Q (go s) k h out next = next s h
  Both-and_then Q (leave s) k h out next = out s h
  Both-and_then Q (answer z) k h out next = h
  Both-and_then Q stuck k h out next = tt

  Both-if :
      (b : Bool) (x y : Flow)
      → (b ≡ true → Both P x)
      → (b ≡ false → Both P y)
      → Both P (if b then x else y)
  Both-if true x y h k = h refl
  Both-if false x y h k = k refl

pub sum_le : (a b p q : ℕ) {m : ℕ} → a ≤ p → b ≤ m → p + m ≡ q → a + b ≤ q
sum_le a b p q h k e = omega arith

-- A day of a tariff costs at most `m`, and is no block of 24 hours.
pub record IsCapped (m : Amount) (t : Tariff) : Type 0 where
  pub has_max : 0 < t.whole_day_max
  pub max_le : t.whole_day_max ≤ m
  pub no_block : t.whole_day_min ≢ t.whole_day_max

module _ (m : Amount) (first last : ℕ) where
  abbrev pub IsBelow : Calc → Type 0
  IsBelow s = (s.block_24h ≡ false) × (s.charge ≤ m * (s.pd - first)) × (first ≤ s.pd)

  -- Within a day that was read, and before the next day is read.
  abbrev pub IsRead : Calc → Type 0
  IsRead s = IsBelow s × (s.got_day_info ≡ true) × (s.pd ≤ last) × (0 < s.day_max) × (s.day_max ≤ m)

  abbrev pub IsUnread : Calc → Type 0
  IsUnread s = IsBelow s × (s.got_day_info ≡ false) × (s.pd ≤ last + 1) × (s.day_fee ≡ 0)

  abbrev pub IsBounded : Calc → Type 0
  IsBounded s = IsRead s ⊎ IsUnread s

  Both-unless :
      (P : Calc → Type 0) (b : Bool) (z : ℤ) (f : Flow)
      → z ≤ℤ pos 0
      → Both P f
      → Both P (if b then answer z else f)
  Both-unless P true z f h k = h
  Both-unless P false z f h k = k

  no_block_of :
      (t : Tariff)
      → IsCapped m t
      → ((t.whole_day_min == t.whole_day_max) && ltb 0 t.whole_day_min) ≡ false
  no_block_of t h = let n = h.no_block in ground arith

  error_code-2 : error_code 2 ≤ℤ pos 0
  unfolding ◌-ℤ◌
  error_code-2 = omega arith

  error_code-3 : error_code 3 ≤ℤ pos 0
  unfolding ◌-ℤ◌
  error_code-3 = omega arith

  error_code-4 : error_code 4 ≤ℤ pos 0
  unfolding ◌-ℤ◌
  error_code-4 = omega arith

  free : pos 0 ≤ℤ pos 0
  free = omega arith

  day_read-IsRead :
      (r : Rates) (s : Calc) (a b c : Tariff)
      → IsCapped m b
      → IsUnread s
      → s.pd ≤ last
      → IsRead (day_read r s a b c)
  unfolding day_read
  day_read-IsRead r s a b c h ((e, g, i), _, _, _) l =
      rw (no_block_of b h) ((refl, g, i), refl, l, h.has_max, h.max_le)

  check_zones-IsRead :
      (r : Rates) (s : Calc) (a b c : Tariff)
      → IsCapped m b
      → IsUnread s
      → s.pd ≤ last
      → Both IsRead (check_zones r s a b c)
  unfolding check_zones
  check_zones-IsRead r s a b c h k l =
      let read = day_read-IsRead r s a b c h k l in
      search (Both-unless, error_code-2, error_code-4, read) depth 12

  module _ (r : Rates) (trans_type : ℕ)
      (capped : (d : ℕ) → IsCapped m (r.tariff trans_type d)) where
    day_info-IsRead : (s : Calc) → IsBounded s → s.pd ≤ last → Both IsRead (day_info r trans_type s)
    unfolding day_info load_day
    day_info-IsRead s (inl h) l =
        Both-if IsRead s.got_day_info (go s) (load_day r trans_type s) (λ _. h)
          (λ b. absurd (ground (arith, b, h.1)))
    day_info-IsRead s (inr h) l =
        Both-if IsRead s.got_day_info (go s) (load_day r trans_type s)
          (λ b. absurd (ground (arith, b, h.1)))
          (λ _.
            check_zones-IsRead r s (r.tariff trans_type (get_day_type r ((s.pd - 1) * 86400)))
              (r.tariff trans_type (get_day_type r (s.pd * 86400)))
              (r.tariff trans_type (get_day_type r ((s.pd + 1) * 86400)))
              (capped (get_day_type r (s.pd * 86400))) h l)

  enter_zone-IsRead : (s : Calc) → IsRead s → Both IsRead (enter_zone s)
  unfolding enter_zone
  enter_zone-IsRead s h = search (Both-unless, error_code-3, h)

  block_or_zone-IsRead : (now : ℕ) (s : Calc) → IsRead s → Both IsRead (block_or_zone now s)
  unfolding block_or_zone has_24h
  block_or_zone-IsRead now s h =
      Both-if IsRead (has_24h now s) (go (charge_24h s)) (enter_zone s)
        (λ b. absurd (ground (arith, b, h.0.0))) (λ _. enter_zone-IsRead s h)

  grace-IsRead : (now : ℕ) (s : Calc) → IsRead s → Both IsRead (grace now s)
  unfolding grace
  grace-IsRead now s h =
      Both-if IsRead s.no_gt (go s)
        (if ltb 0 s.current.grace_time && within s.pt now s.current.grace_time
          then answer (pos 0)
          else go (record s { no_gt = true }))
        (λ _. h) (λ _. search (Both-unless, free, h))

  charge_blocks-IsRead :
      (r : Rates) (entry now : ℕ) (s : Calc) (freed : Freed)
      → IsRead s
      → Both IsRead (charge_blocks r entry now s freed)
  unfolding charge_blocks
  charge_blocks-IsRead r entry now s (left fee) h = h
  charge_blocks-IsRead r entry now s (settled pt fee freed) h = after (
      blocks s.current (zone_end s) now (ltb 0 s.charge || ltb 0 s.day_fee)
        (fuel_of pt (zone_end s)) pt fee)
    where
      after :
          (o : Option (ℕ × Amount))
          → Both IsRead (elim o [
            | none ↦ stuck
            | some (pt', fee') ↦
                go (record s {
                  pt = cut_off r entry now s pt';
                  zone_fee = fee';
                  first_freed = freed;
                })
          ])
      after none = tt
      after (some (pt', fee')) = h

  hourly-IsRead :
      (r : Rates) (entry now : ℕ) (s : Calc) → IsRead s → Both IsRead (hourly r entry now s)
  unfolding hourly
  hourly-IsRead r entry now s h =
      let rest = charge_blocks-IsRead r entry now s (first_free r now s) h in
      Both-unless IsRead (is_pos s.current.charge_time_block 0) (error_code 3)
        (if is_allowed s.current s.pt now (ltb 0 s.charge || ltb 0 s.day_fee)
          then leave s
          else charge_blocks r entry now s (first_free r now s))
        error_code-3
        (Both-if IsRead (is_allowed s.current s.pt now (ltb 0 s.charge || ltb 0 s.day_fee))
          (leave s) (charge_blocks r entry now s (first_free r now s)) (λ _. h) (λ _. rest))

  charge_zone-IsRead :
      (r : Rates) (trans_type entry now : ℕ) (s : Calc)
      → IsRead s
      → Both IsRead (charge_zone r trans_type entry now s)
  unfolding charge_zone per_entry
  charge_zone-IsRead r trans_type entry now s h =
      let s' = record s { zone_fee = 0 } in
      Both-if IsRead (s.current.rate_type == 1) (hourly r entry now s')
        (if s.current.rate_type == 2 then go (per_entry r trans_type now s') else go s')
        (λ _. hourly-IsRead r entry now s' h)
        (λ _.
          Both-if IsRead (s.current.rate_type == 2) (go (per_entry r trans_type now s')) (go s')
            (λ _. h) (λ _. h))

  pub limited_le : (low high fee : Amount) → 0 < high → limited low high fee ≤ high
  limited_le low high fee h = ground arith

  pub one_more_day : (pd : ℕ) → first ≤ pd → m * (pd - first) + m ≡ m * (pd + 1 - first)
  one_more_day pd h = sym (mul-suc m (pd - first)) ∙ ap (λ k. m * k) (omega arith)

  next_day-IsBounded : (s : Calc) → IsRead s → IsBounded (next_day (close_zone s))
  unfolding next_day close_zone
  next_day-IsBounded s ((e, g, i), k, l, n, o) = elim (Bool-cases (ltb s.pd (day_of s.pt))) [
    | inl b ↦ rw b (
        inr (
          (
            e,
            sum_le s.charge
                (limited s.day_min s.day_max
                  (s.day_fee + limited s.current.min_charge s.current.max_charge s.zone_fee))
                (m * (s.pd - first)) (m * (s.pd + 1 - first)) g
                (below (s.day_fee + limited s.current.min_charge s.current.max_charge s.zone_fee) n
                  o)
                (one_more_day s.pd i),
            omega arith,
          ),
          refl,
          omega arith,
          refl,
        ))
    | inr b ↦ rw b (inl ((e, g, i), k, l, n, o))
  ]
    where
      below : (fee : Amount) → 0 < s.day_max → s.day_max ≤ m → limited s.day_min s.day_max fee ≤ m
      below fee n o = let l = limited_le s.day_min s.day_max fee n in omega (arith, l, o)

  until_now-IsBounded : (now : ℕ) (s : Calc) → IsBounded s → Both IsBounded (until_now now s)
  unfolding until_now
  until_now-IsBounded now s h =
      Both-if IsBounded (within s.pt now 0) (leave s) (go s) (λ _. h) (λ _. h)

  module _ (r : Rates) (trans_type : ℕ) (capped : (d : ℕ) → IsCapped m (r.tariff trans_type d))
      (entry now : ℕ) (ends : day_of now ≡ last) where
    turn-IsBounded :
        (s : Calc) → IsBounded s → s.pd ≤ last → Both IsBounded (turn r trans_type entry now s)
    unfolding turn
    turn-IsBounded s h l =
        Both-and_then IsRead IsBounded charged (λ u. until_now now (next_day (close_zone u)))
          (Both-and_then IsRead IsRead tested (charge_zone r trans_type entry now)
            (Both-and_then IsRead IsRead entered (grace now)
              (Both-and_then IsRead IsRead read (block_or_zone now)
                (day_info-IsRead r trans_type capped s h l) (λ u g. g) (block_or_zone-IsRead now))
              (λ u g. g) (grace-IsRead now))
            (λ u g. g) (charge_zone-IsRead r trans_type entry now))
          (λ u g. inl g)
          (λ u g. until_now-IsBounded now (next_day (close_zone u)) (next_day-IsBounded u g))
      where
        read : Flow
        read = day_info r trans_type s

        entered : Flow
        entered = read and_then block_or_zone now

        tested : Flow
        tested = entered and_then grace now

        charged : Flow
        charged = tested and_then charge_zone r trans_type entry now

    pub days-IsBounded :
        (f : ℕ) (s : Calc) → IsBounded s → Both IsBounded (days r trans_type entry now f s)
    unfolding days
    days-IsBounded zero s h = tt
    days-IsBounded (suc f) s h =
        Both-if IsBounded (ltb (day_of now) s.pd) (leave s)
          (turn r trans_type entry now s and_then days r trans_type entry now f) (λ _. h)
          (λ b.
            Both-and_then IsBounded IsBounded (turn r trans_type entry now s)
              (days r trans_type entry now f) (turn-IsBounded s h (ground (arith, b, ends)))
              (λ u g. g) (days-IsBounded f))
