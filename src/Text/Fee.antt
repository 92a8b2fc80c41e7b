-- ===== src/Text/Fee.antt =====
-- `Common::SetFeeFormat` and `db::CalParkedTime`: amounts and times as the messages show them.
use my_linux_pbs.Base.{
  zero, inl, inr, Bool-cases, ◌+◌, suc, arith, ◌==◌, length, ◌<◌, ◌≤◌, ℕ, ◌++◌, ◌/◌, ◌%◌, ltb,
  if◌then◌else◌, Bytes, codes, ◌≡◌, refl,
}
use my_linux_pbs.Base.Int.{ℤ, pos, negsuc}
use my_linux_pbs.Text.Decimal.{to_string}

-- An amount of `n` cents, with two digits behind the point.
abbrev pub cents : ℕ → Bytes
cents n = to_string (n / 100) ++ codes "." ++ to_string (n % 100 / 10) ++ to_string (n % 10)

abbrev pub set_fee_format : ℤ → Bytes
set_fee_format (pos n) = cents n
set_fee_format (negsuc n) = codes "-" ++ cents (n + 1)

-- The two digits of a clock as the source prints them: a number up to 10 gets a leading 0.
abbrev pub padded : ℕ → Bytes
padded n = if ltb 10 n then to_string n else codes "0" ++ to_string n

unfoldable pub parked_from : ℕ → ℕ → ℕ → Bytes
parked_from d h m =
    if ltb 0 d
    then to_string d ++ codes "D " ++ padded h ++ codes ":" ++ padded m
    else to_string h ++ codes ":" ++ padded m

unfoldable pub cal_parked_time : ℤ → Bytes
cal_parked_time (negsuc n) = codes "N/A"
cal_parked_time (pos n) = parked_from (n / 1440) (n % 1440 / 60) (n % 1440 % 60)

fee_shown : set_fee_format (pos 1205) ≡ codes "12.05"
unfolding to_string
fee_shown = refl

parked_shown : cal_parked_time (pos 2170) ≡ codes "1D 12:010"
unfolding cal_parked_time parked_from to_string
parked_shown = refl

to_string_digit : (n : ℕ) → n < 10 → length (to_string n) ≡ 1
unfolding to_string
to_string_digit n h = ground arith

to_string_pair : (n : ℕ) → 10 ≤ n → n < 100 → length (to_string n) ≡ 2
unfolding to_string
to_string_pair zero h k = elim h [ ]
to_string_pair (suc n) h k = ground arith

-- A number below 100 is printed on two digits, but 10 is printed on three, as 010.
pub length-padded : (n : ℕ) → n < 100 → length (padded n) ≡ (if n == 10 then 3 else 2)
length-padded n h = elim (Bool-cases (ltb n 10)) [
  | inl k ↦ let one = to_string_digit n (ground arith) in ground arith
  | inr k ↦ let two = to_string_pair n (ground arith) h in ground arith
]
