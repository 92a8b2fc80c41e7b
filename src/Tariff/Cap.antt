-- ===== src/Tariff/Cap.antt =====
-- The most that a stay can cost.
use native.Mathlib.Nat.{mul-le-mul_left}
use my_linux_pbs.Base.{
  ℕ, ◌+◌, ◌-◌, ◌*◌, ◌/◌, ◌≤◌, ◌≡◌, refl, inl, inr, ◌⊎◌, Bool, true, false, Option, some, Bool-cases,
  arith, ltb, if◌then◌else◌,
}
use my_linux_pbs.Base.Int.{ℤ, pos, ◌≤ℤ◌}
use my_linux_pbs.Clock.{day_of}
use my_linux_pbs.Tariff.{Rates, Amount}
use my_linux_pbs.Tariff.Day.{Calc, Flow, go, leave, answer, stuck}
use my_linux_pbs.Tariff.Fee.{
  days, turns_of, start, answer_of, fee_between_moments, total, counted_to, limited, last_day,
  with_24h,
}
use my_linux_pbs.Tariff.Ends.{counted_to_le}
use my_linux_pbs.Tariff.Bounded.{
  Both, IsCapped, IsRead, IsUnread, IsBounded, limited_le, one_more_day, sum_le, days-IsBounded,
}

module _ (m : Amount) (first last : ℕ) where
  within_days : (a k : ℕ) → a ≤ m * k → k ≤ last + 1 - first → a ≤ m * (last + 1 - first)
  within_days a k h l = let g = mul-le-mul_left m l in omega (arith, h, g)

  last_day-read : (s : Calc) → IsRead m first last s → last_day s ≤ m * (s.pd + 1 - first)
  unfolding last_day
  last_day-read s ((e, g, i), k, l, n, o) =
      let cap = limited_le m first last s.day_min s.day_max s.day_fee n in
      let day = limited s.day_min s.day_max s.day_fee in
      let below : day ≤ m = omega (arith, cap, o) in
      let sum =
        sum_le s.charge day (m * (s.pd - first)) (m * (s.pd + 1 - first)) g below
          (one_more_day m first last s.pd i) in
      let more = one_more_day m first last s.pd i in
      elim (Bool-cases (ltb 0 s.day_fee)) [
        | inl b ↦ rw b sum
        | inr b ↦ rw b (omega (arith, g, more))
      ]

  last_day-unread : (s : Calc) → IsUnread m first last s → last_day s ≤ m * (s.pd - first)
  unfolding last_day
  last_day-unread s ((e, g, i), k, l, n) = rw n g

  last_day_le : (s : Calc) → IsBounded m first last s → last_day s ≤ m * (last + 1 - first)
  last_day_le s (inl h) =
      let ((e, g, i), k, l, n, o) = h in
      within_days (last_day s) (s.pd + 1 - first) (last_day-read s h) (omega arith)
  last_day_le s (inr h) =
      let ((e, g, i), k, l, n) = h in
      within_days (last_day s) (s.pd - first) (last_day-unread s h) (omega arith)

  not_block : (s : Calc) → IsBounded m first last s → s.block_24h ≡ false
  not_block s (inl h) = h.0.0
  not_block s (inr h) = h.0.0

  with_24h-plain : (s : Calc) (fee : Amount) → s.block_24h ≡ false → with_24h s fee ≡ fee
  unfolding with_24h
  with_24h-plain s fee h = ground arith

  total-plain : (r : Rates) (s : Calc) → r.tariff_fee_mode ≡ 0 → total r s ≡ with_24h s (last_day s)
  unfolding total
  total-plain r s h = ground arith

  total_le :
      (r : Rates) (s : Calc)
      → r.tariff_fee_mode ≡ 0
      → IsBounded m first last s
      → total r s ≤ m * (last + 1 - first)
  total_le r s e h =
      rw (total-plain r s e) (rw (with_24h-plain s (last_day s) (not_block s h)) (last_day_le s h))

  answer_of_le :
      (r : Rates) (f : Flow) (z : ℤ)
      → r.tariff_fee_mode ≡ 0
      → Both (IsBounded m first last) f
      → answer_of r f ≡ some z
      → z ≤ℤ pos (m * (last + 1 - first))
  unfolding answer_of
  answer_of_le r (go s) z e h eq = let le = total_le r s e h in ground arith
  answer_of_le r (leave s) z e h eq = let le = total_le r s e h in ground arith
  answer_of_le r (answer y) z e h eq = ground arith
  answer_of_le r stuck z e h eq = absurd (ground (arith, eq))

if-answer :
    (b : Bool) (x y : Option ℤ) (z : ℤ)
    → (if b then x else y) ≡ some z
    → (x ≡ some z) ⊎ (b ≡ false) × (y ≡ some z)
if-answer true x y z h = inl h
if-answer false x y z h = inr (refl, h)

-- Where every day of the rate type has a maximum of at most `m`, which is not its minimum, and
-- fees are not rounded, a stay costs at most `m` for each calendar day that it touches.
pub fee_between_moments_le :
    (r : Rates) (entry pay trans_type : ℕ) (no_gt : Bool) (m : Amount) (z : ℤ)
    → ((d : ℕ) → IsCapped m (r.tariff trans_type d))
    → r.tariff_fee_mode ≡ 0
    → fee_between_moments r entry pay trans_type no_gt ≡ some z
    → z ≤ℤ pos (m * (day_of (counted_to entry pay) + 1 - day_of entry))
unfolding fee_between_moments
fee_between_moments_le r entry pay trans_type no_gt m z capped mode eq = chosen (
    if-answer (ltb (pay / 60) (entry / 60)) (some (pos 0))
      (answer_of r (days r trans_type entry now (turns_of entry now) (start r entry no_gt))) z eq)
  where
    now : ℕ
    now = counted_to entry pay

    stay : Flow
    stay = days r trans_type entry now (turns_of entry now) (start r entry no_gt)

    chosen :
        (some (pos 0) ≡ some z)
          ⊎ (ltb (pay / 60) (entry / 60) ≡ false) × (answer_of r stay ≡ some z)
        → z ≤ℤ pos (m * (day_of now + 1 - day_of entry))
    chosen (inl h) = ground arith
    chosen (inr (b, h)) =
        let ends = counted_to_le entry pay (ground (arith, b)) in
        answer_of_le m (day_of entry) (day_of now) r stay z mode
          (days-IsBounded m (day_of entry) (day_of now) r trans_type capped entry now refl
            (turns_of entry now) (start r entry no_gt)
            (inr ((refl, omega arith, omega arith), refl, omega (arith, ends), refl)))
          h
