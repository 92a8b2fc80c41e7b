-- ===== src/Tariff/Periods.antt =====
-- The two periods of tariffs: `CalFeeRAM2G` of db.cpp.
use my_linux_pbs.Base.{
  ℕ, ◌+◌, ◌*◌, ◌≡◌, refl, Bool, true, false, Option, none, some, [], ◌∷◌, ◌==◌, ltb, if◌then◌else◌,
  Bytes, Bool-cases, inl, inr, arith,
}
use my_linux_pbs.Base.Int.{ℤ, pos, ◌+ℤ◌}
use my_linux_pbs.Clock.{within, set_time}
use my_linux_pbs.Tariff.{Rates}
use my_linux_pbs.Tariff.Day.{error_code, zone_of}
use my_linux_pbs.Tariff.Fee.{cal_fee_ram_2gr}

-- `tariff_type_info_struct`.
pub record Period : Type 0 where
  pub tariff_type : ℕ
  pub start_time : Bytes
  pub end_time : Bytes

-- `<` of two texts.
abbrev pub bytes_lt : Bytes → Bytes → Bool
bytes_lt [] [] = false
bytes_lt [] (y ∷ ys) = true
bytes_lt (x ∷ xs) [] = false
bytes_lt (x ∷ xs) (y ∷ ys) =
    let rest = bytes_lt xs ys in if ltb x y then true else if x == y then rest else false

-- The flags `bUsedTariff`, or the error of the second turn.
pub data Used : Type 0 where
  used : Bool → Bool → Used
  period_error : Used

-- The second turn of the loop resets its flag.
unfoldable pub second_used : Period → Bool → Bytes → Bytes → Used
second_used p u e_time pay_time =
    if bytes_lt p.start_time e_time
    then if bytes_lt pay_time p.end_time
      then used u true
      else if bytes_lt e_time p.end_time
      then period_error
      else used u false
    else used u false

unfoldable pub used_tariffs : Period → Period → Bytes → Bytes → Used
unfolding second_used
used_tariffs p q e_time pay_time =
    if bytes_lt p.start_time e_time
    then if bytes_lt pay_time p.end_time
      then used true false
      else second_used q (bytes_lt e_time p.end_time) e_time pay_time
    else second_used q false e_time pay_time

-- A sum of two fees, error codes included.
abbrev pub sum_of : Option ℤ → Option ℤ → Option ℤ
sum_of none y = none
sum_of (some x) none = none
sum_of (some x) (some y) = some (x +ℤ y)

-- Each tariff type has forty rows of the table.
abbrev pub table_row : Period → ℕ → ℕ
table_row p trans_type = trans_type + p.tariff_type * 40

module _ (r : Rates) (p q : Period) (e_time pay_time : Bytes) (trans_type : ℕ) (no_gt : Bool) where
  -- The stay crosses from one period into the other.
  unfoldable pub fee_across : Option ℤ
  fee_across =
      let entry = set_time r.mktime r.now e_time in
      let pay = set_time r.mktime r.now pay_time in
      let early = cal_fee_ram_2gr r e_time p.end_time (table_row p trans_type) true in
      let late = cal_fee_ram_2gr r q.start_time pay_time (table_row q trans_type) true in
      if within entry pay (zone_of (r.tariff trans_type 1) 0).grace_time
      then some (pos 0)
      else sum_of early late

  unfoldable pub fee_in : Period → Option ℤ
  fee_in u = cal_fee_ram_2gr r e_time pay_time (table_row u trans_type) no_gt

  unfoldable pub fee_by : Used → Option ℤ
  unfolding fee_across fee_in
  fee_by period_error = some (error_code 4)
  fee_by (used true true) = fee_across
  fee_by (used true false) = fee_in p
  fee_by (used false u) = fee_in q

  unfoldable pub cal_fee_ram_2g : Option ℤ
  unfolding fee_by used_tariffs
  cal_fee_ram_2g = fee_by (used_tariffs p q e_time pay_time)

bytes_lt_trans : (a b c : Bytes) → bytes_lt a b ≡ true → bytes_lt b c ≡ true → bytes_lt a c ≡ true
bytes_lt_trans [] [] c h k = absurd (ground (arith, h))
bytes_lt_trans [] (y ∷ b) [] h k = absurd (ground (arith, k))
bytes_lt_trans [] (y ∷ b) (z ∷ c) h k = refl
bytes_lt_trans (x ∷ a) [] c h k = absurd (ground (arith, h))
bytes_lt_trans (x ∷ a) (y ∷ b) [] h k = absurd (ground (arith, k))
bytes_lt_trans (x ∷ a) (y ∷ b) (z ∷ c) h k = let ih = bytes_lt_trans a b c in ground arith

-- A stay from the first period into the second is charged by the tariff of the first for all of
-- its time, where the second period does not start before the end of the first: the flag of the
-- second one is reset, so that the sum over both periods is not reached.
pub cal_fee_ram_2g-across :
    (r : Rates) (p q : Period) (e_time pay_time : Bytes) (trans_type : ℕ) (no_gt : Bool)
    → bytes_lt p.start_time e_time ≡ true
    → bytes_lt e_time p.end_time ≡ true
    → bytes_lt pay_time p.end_time ≡ false
    → bytes_lt q.start_time p.end_time ≡ false
    → cal_fee_ram_2g r p q e_time pay_time trans_type no_gt
      ≡ cal_fee_ram_2gr r e_time pay_time (table_row p trans_type) no_gt
unfolding cal_fee_ram_2g fee_by used_tariffs second_used fee_in
cal_fee_ram_2g-across r p q e_time pay_time trans_type no_gt h k l m = rw (h, l, later, k) refl
  where
    later : bytes_lt q.start_time e_time ≡ false
    later = elim (Bool-cases (bytes_lt q.start_time e_time)) [
      | inl b ↦ absurd (ground (arith, bytes_lt_trans q.start_time e_time p.end_time b k, m))
      | inr b ↦ b
    ]
