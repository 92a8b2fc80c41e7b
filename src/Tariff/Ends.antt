-- ===== src/Tariff/Ends.antt =====
-- The loop of `CalFeeRAM2GR` ends, so that every stay has a fee.
use my_linux_pbs.Base.{
  ◌∙◌, subst, ℕ, zero, suc, ◌+◌, ◌-◌, ◌*◌, ◌/◌, ◌≤◌, ◌<◌, ◌≡◌, refl, sym, inl, inr, Bool, false,
  ◌&&◌, some, Bool-cases, arith, leb, ltb, if◌then◌else◌, Bytes,
}
use native.Mathlib.Nat.{suc-mul, add_comm}
use my_linux_pbs.Base.Int.{ℤ, pos}
use my_linux_pbs.Clock.{day_of, set_time}
use my_linux_pbs.Tariff.{Rates}
use my_linux_pbs.Tariff.Day.{Calc, Flow, go, leave, answer, stuck, zone_of, ◌and_then◌}
use my_linux_pbs.Tariff.Fee.{
  turn, days, turns_of, start, answer_of, fee_between_moments, total, cal_fee_ram_2gr, counted_to,
}
use my_linux_pbs.Tariff.Every.{Every, Every-and_then, Every-if}
use my_linux_pbs.Tariff.Later.{IsForward}
use my_linux_pbs.Tariff.Turn.{IsForwardTable, IsReady, IsTurned, turn-IsTurned}

-- How far the charge is in the day `pd`, where the stay ends on day `last`.
abbrev place : ℕ → Calc → ℕ
place last s = if leb s.pd last && leb (day_of s.pt) s.pd then 1 + s.pt / 60 else 0

-- More minutes than the days up to `last` have.
abbrev minutes : ℕ → ℕ
minutes last = 1440 * (last + 1) + 2

abbrev IsEnded : Calc → Type 0
IsEnded s = Unit

minutes-day :
    (last pd : ℕ)
    → pd ≤ last
    → (last + 1 - pd) * minutes last ≡ minutes last + (last + 1 - (pd + 1)) * minutes last
minutes-day last pd h =
    rw count (suc-mul (last + 1 - (pd + 1)) (minutes last) ∙ add_comm _ (minutes last))
  where
    count : last + 1 - pd ≡ suc (last + 1 - (pd + 1))
    count = omega arith

place_le : (last : ℕ) (s : Calc) → place last s ≤ 1440 * (last + 1)
place_le last s = ground arith

place_lt :
    (last : ℕ) (s s' : Calc)
    → s.pd ≤ last
    → s'.pd ≡ s.pd
    → day_of s'.pt ≤ s.pd
    → (day_of s.pt ≤ s.pd → s.pt / 60 < s'.pt / 60)
    → place last s < place last s'
place_lt last s s' h e d l = ground arith

-- The sums of the two cases of a turn, and of a loop without fuel.
later_day_sum : (x y m c f p p' : ℕ) → x ≡ m + y → m ≡ c + 2 → p ≤ c → x < suc f + p → y < f + p'
later_day_sum x y m c f p p' h k l g = omega arith

later_minute_sum : (x f p p' : ℕ) → x < suc f + p → p < p' → x < f + p'
later_minute_sum x f p p' h k = omega arith

no_sum : (x y m c p : ℕ) → x ≡ m + y → m ≡ c + 2 → p ≤ c → ¬ (x < 0 + p)
no_sum x y m c p h k l g = omega arith

-- A turn takes one off what is left.
turned_less :
    (last f : ℕ) (s s' : Calc)
    → s.pd ≤ last
    → (last + 1 - s.pd) * minutes last < suc f + place last s
    → IsTurned s s'
    → (last + 1 - s'.pd) * minutes last < f + place last s'
turned_less last f s s' h k (_, inl e) =
    subst (λ pd. (last + 1 - pd) * minutes last < f + place last s') (sym e)
      (later_day_sum ((last + 1 - s.pd) * minutes last) ((last + 1 - (s.pd + 1)) * minutes last)
        (minutes last) (1440 * (last + 1)) f (place last s) (place last s')
        (minutes-day last s.pd h) refl (place_le last s) k)
turned_less last f s s' h k (_, inr (e, d, l)) =
    subst (λ pd. (last + 1 - pd) * minutes last < f + place last s') (sym e)
      (later_minute_sum ((last + 1 - s.pd) * minutes last) f (place last s) (place last s') k
        (place_lt last s s' h e d l))

out_of_fuel : (last : ℕ) (s : Calc) → ¬ ((last + 1 - s.pd) * minutes last < 0 + place last s)
out_of_fuel last s k = elim (Bool-cases (leb s.pd last)) [
  | inl b ↦
      no_sum ((last + 1 - s.pd) * minutes last) ((last + 1 - (s.pd + 1)) * minutes last)
        (minutes last) (1440 * (last + 1)) (place last s)
        (minutes-day last s.pd (ground (arith, b))) refl (place_le last s) k
  | inr b ↦ absurd (later b k)
]
  where
    later : leb s.pd last ≡ false → ¬ ((last + 1 - s.pd) * minutes last < 0 + place last s)
    later b = rw b (λ g. elim g [ ])

days-IsEnded :
    (r : Rates) (trans_type entry now f : ℕ) (s : Calc)
    → IsForwardTable r trans_type
    → IsReady s
    → (day_of now + 1 - s.pd) * minutes (day_of now) < f + place (day_of now) s
    → Every IsEnded (days r trans_type entry now f s)
unfolding days
days-IsEnded r trans_type entry now zero s table h k = absurd (out_of_fuel (day_of now) s k)
days-IsEnded r trans_type entry now (suc f) s table h k =
    Every-if IsEnded (ltb (day_of now) s.pd) (leave s)
      (turn r trans_type entry now s and_then days r trans_type entry now f) (λ _. tt)
      (λ b.
        Every-and_then (IsTurned s) IsEnded (turn r trans_type entry now s)
          (days r trans_type entry now f) (turn-IsTurned r trans_type entry now s table h)
          (λ s' q.
            days-IsEnded r trans_type entry now f s' table q.0
              (turned_less (day_of now) f s s' (ground (arith, b)) k q)))

answer_of-ended : (r : Rates) (f : Flow) → Every IsEnded f → (m : ℤ) × (answer_of r f ≡ some m)
unfolding answer_of
answer_of-ended r (go s) h = (pos (total r s), refl)
answer_of-ended r (leave s) h = (pos (total r s), refl)
answer_of-ended r (answer z) h = (z, refl)
answer_of-ended r stuck h = absurd h

start-place :
    (r : Rates) (entry last : ℕ) (no_gt : Bool)
    → day_of entry ≤ last
    → 0 < place last (start r entry no_gt)
start-place r entry last no_gt h = ground arith

less_add : (x p : ℕ) → 0 < p → x < x + p
less_add x p h = omega arith

days_enough :
    (r : Rates) (trans_type entry now : ℕ) (no_gt : Bool)
    → IsForwardTable r trans_type
    → day_of entry ≤ day_of now
    → Every IsEnded (days r trans_type entry now (turns_of entry now) (start r entry no_gt))
unfolding turns_of
days_enough r trans_type entry now no_gt table h =
    days-IsEnded r trans_type entry now ((day_of now + 1 - day_of entry) * minutes (day_of now))
      (start r entry no_gt) table ((λ e. absurd (ground (arith, e))), λ k. refl)
      (less_add ((day_of now + 1 - day_of entry) * minutes (day_of now))
        (place (day_of now) (start r entry no_gt)) (start-place r entry (day_of now) no_gt h))

pub counted_to_le :
    (entry pay : ℕ) → entry / 60 ≤ pay / 60 → day_of entry ≤ day_of (counted_to entry pay)
unfolding counted_to
counted_to_le entry pay h = ground arith

fee_between_moments_ends :
    (r : Rates) (entry pay trans_type : ℕ) (no_gt : Bool)
    → IsForwardTable r trans_type
    → (m : ℤ) × (fee_between_moments r entry pay trans_type no_gt ≡ some m)
unfolding fee_between_moments
fee_between_moments_ends r entry pay trans_type no_gt table =
    elim (Bool-cases (ltb (pay / 60) (entry / 60))) [
      | inl b ↦ rw b (pos 0, refl)
      | inr b ↦ rw b (
          answer_of-ended r (days r trans_type entry now (turns_of entry now) (start r entry no_gt))
            (days_enough r trans_type entry now no_gt table
              (counted_to_le entry pay (ground (arith, b)))))
    ]
  where
    now : ℕ
    now = counted_to entry pay

-- Where no zone of the table has a negative block of minutes, every stay has a fee or an error code: the
-- loops of the calculation end. The other columns are numbers that are not negative.
pub cal_fee_ram_2gr_ends :
    (r : Rates) (e_time pay_time : Bytes) (trans_type : ℕ) (no_gt : Bool)
    → ((d k : ℕ) → IsForward (zone_of (r.tariff trans_type d) k))
    → (m : ℤ) × (cal_fee_ram_2gr r e_time pay_time trans_type no_gt ≡ some m)
unfolding cal_fee_ram_2gr
cal_fee_ram_2gr_ends r e_time pay_time trans_type no_gt table =
    fee_between_moments_ends r (set_time r.mktime r.now e_time) (set_time r.mktime r.now pay_time)
      trans_type no_gt table
